-- ===== src/Cancel/Releasers.antt =====
-- The releasers of DEFAULT_RELEASERS (backend/src/venues/release, backend/src/registrations/release,
-- backend/src/events/change-requests/release, backend/src/equipment/release).
use is212_g5_t.Base.{
  ℕ, Bool, true, false, ◌&&◌, none, some, List, [], ◌∷◌, ◌==◌, keep, update_where,
}
use is212_g5_t.Schema.{
  Registration, RegistrationStatus, VenueBooking, BookingStatus, EquipmentReservation,
  EquipmentStatus, ChangeRequest, ChangeRequestStatus, AuditEntry, Db, holds_place,
}

-- venueBookingReleaser.
abbrev pub holds_venue : ℕ → VenueBooking → Bool
holds_venue event_id b = b.event_id == event_id && venue_held b.status
  where
    venue_held : BookingStatus → Bool
    venue_held BookingStatus.pending = true
    venue_held BookingStatus.approved = true
    venue_held _ = false

abbrev pub release_booking : ℕ → VenueBooking → VenueBooking
release_booking now b = record b { status = BookingStatus.released; released_at = some now }

abbrev pub release_venues : ℕ → ℕ → Db → Db
release_venues event_id now db = record db {
  bookings = update_where (holds_venue event_id) (release_booking now) db.bookings;
}

-- registrationReleaser.
abbrev pub cancel_place : ℕ → Registration → Registration
cancel_place now r = record r {
  status = RegistrationStatus.cancelled;
  cancellation_reason = some "Event cancelled";
  updated_at = now;
}

abbrev pub release_registrations : ℕ → ℕ → Db → Db
release_registrations event_id now db = record db {
  registrations = update_where (holds_place event_id) (cancel_place now) db.registrations;
}

-- changeRequestReleaser, with the audit entry that recordOutcome writes for each request.
abbrev pub is_pending_request : ℕ → ChangeRequest → Bool
is_pending_request event_id c = c.event_id == event_id && is_pending c.status
  where
    is_pending : ChangeRequestStatus → Bool
    is_pending ChangeRequestStatus.pending = true
    is_pending _ = false

abbrev pub close_request : ℕ → ChangeRequest → ChangeRequest
close_request now c = record c {
  status = ChangeRequestStatus.closed;
  decided_by = some "System";
  decided_by_id = none;
  decided_at = some now;
  decision_reason = some "The event was cancelled.";
}

abbrev pub closed_entry : ℕ → ChangeRequest → AuditEntry
closed_entry now c = record {
  change_request_id = c.id;
  event_id = c.event_id;
  outcome = ChangeRequestStatus.closed;
  decided_by = "System";
  decided_by_id = none;
  reason = some "The event was cancelled.";
  decided_at = now;
}

abbrev pub record_all : ℕ → List ChangeRequest → List AuditEntry → List AuditEntry
record_all now [] entries = entries
record_all now (c ∷ requests) entries = record_all now requests (closed_entry now c ∷ entries)

abbrev pub release_change_requests : ℕ → ℕ → Db → Db
release_change_requests event_id now db = record db {
  change_requests =
      update_where (is_pending_request event_id) (close_request now) db.change_requests;
  change_request_audit =
      record_all now (keep (is_pending_request event_id) db.change_requests)
        db.change_request_audit;
}

-- equipmentReservationReleaser.
abbrev pub holds_equipment : ℕ → EquipmentReservation → Bool
holds_equipment event_id l = l.event_id == event_id && line_held l.status
  where
    line_held : EquipmentStatus → Bool
    line_held EquipmentStatus.requested = true
    line_held EquipmentStatus.reserved = true
    line_held EquipmentStatus.unavailable = true
    line_held _ = false

abbrev pub release_line : ℕ → EquipmentReservation → EquipmentReservation
release_line now l = record l {
  status = EquipmentStatus.released;
  released_at = some now;
  updated_at = now;
}

abbrev pub release_equipment : ℕ → ℕ → Db → Db
release_equipment event_id now db = record db {
  equipment = update_where (holds_equipment event_id) (release_line now) db.equipment;
}
