-- ===== src/Venues/Decisions.antt =====
-- Venue Staff decide a request: approveVenueBooking and rejectVenueBooking
-- (backend/src/venues/repository/venues.repository.ts).
use is212_g5_t.Base.{
  ℕ, ◌+◌, ◌*◌, Bool, true, false, not, Option, none, some, List, [], ◌∷◌, ltb, if◌then◌else◌,
}
use is212_g5_t.Schema.{Event, VenueBooking, BookingStatus, RequestKind, Db}
use is212_g5_t.Venues.{
  BookingConflict, Locked, lock_owned_booking, conflicts_of, owns_block, other_than, of_completed,
  is_pending, is_hold, minutes, set_booking,
}
use is212_g5_t.Venues.Notices.{Decision, notify_booking_decision}

pub data DecisionResult : Type 0 where
  not_found event_completed already_blocked : DecisionResult
  already_decided : BookingStatus → DecisionResult
  -- A conflict that lists none: the lead time, and whether a change of the venue caused it.
  inside_lead_time : Bool → DecisionResult
  conflict : List BookingConflict → DecisionResult
  decided : VenueBooking → DecisionResult

-- A blocked row is already decided, as 'blocked'.
abbrev missing_row : ℕ → ℕ → Db → DecisionResult
missing_row staff id db = if owns_block staff id db then already_blocked else not_found

-- 336 hours, and 14 days.
abbrev pub lead_time : ℕ
lead_time = 336 * 3600000

abbrev pub hold_duration : ℕ
hold_duration = 14 * 86400000

-- `leadHours < 336`; without an event the lead is negative.
abbrev pub is_short : Option Event → ℕ → ℕ → Bool
is_short none setup now = true
is_short (some e) setup now = ltb e.start_date_time (now + (minutes setup + lead_time))

abbrev pub expiry_after : RequestKind → ℕ → Option ℕ → Option ℕ
expiry_after RequestKind.tentative_hold now old = some (now + hold_duration)
expiry_after RequestKind.booking now old = old

abbrev pub approve_row : ℕ → VenueBooking → VenueBooking
approve_row now b = record b {
  status = BookingStatus.approved;
  reassessment_required = false;
  hold_expires_at = expiry_after b.request_kind now b.hold_expires_at;
}

abbrev pub add_review : ℕ → ℕ → Option (List ℕ) → Db → Db
add_review booking_id actor reason db = record db {
  review_log =
      record { booking_id = booking_id; actor_user_id = actor; rejection_reason = reason }
      ∷ db.review_log;
}

unfoldable pub save_approval : ℕ → ℕ → ℕ → RequestKind → Db → Db
save_approval staff id now kind db =
    notify_booking_decision id Decision.approved now kind
      (add_review id staff none (set_booking id (approve_row now) db))

unfoldable pub found_conflicts : ℕ → ℕ → Locked → Db → List BookingConflict
found_conflicts id now l db =
    conflicts_of (other_than id) l.venue l.booking.start_at l.booking.end_at now db

abbrev pub approve_free : ℕ → ℕ → ℕ → Locked → List BookingConflict → Db → DecisionResult × Db
approve_free staff id now l [] db =
    (decided (approve_row now l.booking), save_approval staff id now l.booking.request_kind db)
approve_free staff id now l (c ∷ cs) db = (conflict (c ∷ cs), db)

abbrev pub is_late : ℕ → Locked → Bool
is_late now l =
    if is_hold l.booking.request_kind
    then is_short l.event l.venue.setup_time_minutes now
    else false

unfoldable pub approve_locked : ℕ → ℕ → ℕ → Option Locked → Db → DecisionResult × Db
approve_locked staff id now none db = (missing_row staff id db, db)
approve_locked staff id now (some l) db =
    if of_completed l.event
    then (event_completed, db)
    else if not (is_pending l.booking.status)
    then (already_decided l.booking.status, db)
    else if is_late now l
    then (inside_lead_time l.booking.reassessment_required, db)
    else approve_free staff id now l (found_conflicts id now l db) db

unfoldable pub approve_venue_booking : ℕ → ℕ → ℕ → Db → DecisionResult × Db
approve_venue_booking staff id now db =
    approve_locked staff id now (lock_owned_booking staff id db) db

abbrev pub reject_row : List ℕ → VenueBooking → VenueBooking
reject_row reason b = record b { status = BookingStatus.rejected; rejection_reason = some reason }

unfoldable pub save_rejection : ℕ → ℕ → List ℕ → ℕ → RequestKind → Db → Db
save_rejection staff id reason now kind db =
    notify_booking_decision id Decision.rejected now kind
      (add_review id staff (some reason) (set_booking id (reject_row reason) db))

unfoldable pub reject_locked : ℕ → ℕ → List ℕ → ℕ → Option Locked → Db → DecisionResult × Db
reject_locked staff id reason now none db = (missing_row staff id db, db)
reject_locked staff id reason now (some l) db =
    if of_completed l.event
    then (event_completed, db)
    else if not (is_pending l.booking.status)
    then (already_decided l.booking.status, db)
    else (
      decided (reject_row reason l.booking),
      save_rejection staff id reason now l.booking.request_kind db,
    )

unfoldable pub reject_venue_booking : ℕ → ℕ → List ℕ → ℕ → Db → DecisionResult × Db
reject_venue_booking staff id reason now db =
    reject_locked staff id reason now (lock_owned_booking staff id db) db
