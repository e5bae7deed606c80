-- ===== src/Examples/Sample.antt =====
-- One confirmed event with two places: two attendees hold them and two wait. The same event while it
-- is planned, with its venue, its equipment and its safety check.
use is212_g5_t.Base.{ℕ, refl, inl, inr, true, false, none, some, [], ◌∷◌, arith}
use is212_g5_t.Schema.{
  Event, EventStatus, Registration, RegistrationStatus, Db, Account, AuthenticatedUser, UserRole,
  VenueBooking, BookingStatus, RequestKind, EquipmentReservation, EquipmentStatus, SafetyStatus,
  SafetyCheck, ChangeField, ChangeRequest, ChangeRequestStatus,
}
use is212_g5_t.Registrations.{Env}
use is212_g5_t.Registrations.Registering.{RegistrationInput}
use is212_g5_t.Registrations.Invariant.{Valid}

abbrev pub talk : Event
talk = record {
  id = 1;
  status = EventStatus.confirmed;
  event_name = "Talk";
  organiser_id = 90;
  coordinator_id = some 91;
  coordinator_name = some "Cora";
  start_date_time = 1000;
  end_date_time = 1100;
  registration_enabled = true;
  registration_opens_at = some 10;
  registration_closes_at = some 900;
  registration_limit = 2;
  registration_settings_version = 1;
  equipment_needs = [];
  equipment_confirmed_at = none;
  cancelled_by = none;
  cancelled_at = none;
  updated_at = 0;
}

abbrev pub place : ℕ → ℕ → Registration
place id attendee = record {
  id = id;
  event_id = 1;
  attendee_id = attendee;
  status = RegistrationStatus.registered;
  full_name = some "A";
  email = some "a@x";
  contact_number = none;
  special_requirements = none;
  withdrawn_at = none;
  created_at = 20;
  updated_at = 20;
  cancellation_reason = none;
  joined_at = none;
  waitlist_seq = none;
  removed_at = none;
  registered_at = none;
}

abbrev pub waiting : ℕ → ℕ → ℕ → ℕ → Registration
waiting id attendee joined seq = record (place id attendee) {
  status = RegistrationStatus.waitlisted;
  joined_at = some joined;
  waitlist_seq = some seq;
}

abbrev pub account : ℕ → Account
account id = record {
  id = id;
  display_name = "A";
  email = "a@x";
  is_active = true;
  is_available = true;
  roles = UserRole.attendee ∷ [];
}

abbrev pub sample : Db
sample = record {
  events = talk ∷ [];
  registrations = place 5 50 ∷ waiting 7 70 40 1 ∷ place 6 60 ∷ waiting 8 80 41 2 ∷ [];
  notifications = [];
  history = [];
  users = account 50 ∷ account 55 ∷ [];
  venues = [];
  bookings = [];
  unavailable = [];
  booking_requests = [];
  review_log = [];
  equipment = [];
  safety_checks = [];
  feedback_items = [];
  safety_resets = [];
  change_requests = [];
  change_request_audit = [];
  cancellation_requests = [];
  reassignments = [];
  drafts = [];
  waitlist_seq = 3;
}

-- The same event before anybody has come.
abbrev pub empty_sample : Db
empty_sample = record sample { registrations = [] }

abbrev pub attendee_of : ℕ → AuthenticatedUser
attendee_of uid = record { uid = uid; roles = UserRole.attendee ∷ []; email = none; name = none }

abbrev pub coordinator : AuthenticatedUser
coordinator = record { uid = 91; roles = UserRole.coordinator ∷ []; email = none; name = none }

abbrev pub env : Env
env = record { now = 100; sql_now = 100; new_id = 9 }

abbrev pub input : RegistrationInput
input = record {
  full_name = "Bo";
  email = "b@x";
  contact_number = none;
  special_requirements = none;
}

abbrev pub hall : VenueBooking
hall = record {
  id = 20;
  event_id = 1;
  venue_id = 2;
  venue_name = "Hall";
  venue_location = "L1";
  status = BookingStatus.approved;
  request_kind = RequestKind.booking;
  hold_expires_at = none;
  start_at = 1000;
  end_at = 1100;
  venue_unavailable = false;
  created_at = 5;
  released_at = none;
  rejection_reason = none;
  special_request = none;
  reassessment_required = false;
  hold_expiry_processed_at = none;
  hold_reminder_sent_at = none;
}

-- A rejected request for part of the slot that `hall` covers.
abbrev pub early_hall : VenueBooking
early_hall = record hall { id = 19; status = BookingStatus.rejected; end_at = 1050 }

abbrev pub chairs : EquipmentReservation
chairs = record {
  id = 30;
  event_id = 1;
  equipment_name = "Chair";
  quantity = 40;
  status = EquipmentStatus.reserved;
  created_at = 6;
  updated_at = 6;
  released_at = none;
}

abbrev pub planned : Event
planned = record talk { status = EventStatus.planning }

abbrev pub move_request : ChangeRequest
move_request = record {
  id = 40;
  event_id = 1;
  requested_by = "Olga";
  changes = ChangeField.layout ∷ [];
  status = ChangeRequestStatus.pending;
  decided_by = none;
  decided_by_id = none;
  decided_at = none;
  decision_reason = none;
}

abbrev pub approved_check : SafetyCheck
approved_check = record {
  event_id = 1;
  status = SafetyStatus.approved;
  requested_at = 7;
  requested_by = 91;
  approver_name = some "S";
  feedback = none;
  decided_at = some 8;
}

abbrev pub planning : Db
planning = record sample {
  events = planned ∷ [];
  bookings = early_hall ∷ hall ∷ [];
  equipment = chairs ∷ [];
  safety_checks = approved_check ∷ [];
  change_requests = move_request ∷ [];
}

pub sample-Valid : Valid sample
sample-Valid = record {
  ids = λ i. ground arith;
  keys = λ k a. ground arith;
  capacity = λ k e f. ground arith;
  no_idle = λ k e f. inr (ground arith);
}

pub empty_sample-Valid : Valid empty_sample
empty_sample-Valid = record {
  ids = λ i. ground arith;
  keys = λ k a. ground arith;
  capacity = λ k e f. ground arith;
  no_idle = λ k e f. inl refl;
}
