-- ===== src/Venues/Requests.antt =====
-- A coordinator's requests: submitBookingRequest, submitTentativeHoldRequest, moveToPlanning and
-- cancelCoordinatorBooking (backend/src/venues/repository/venues.repository.ts).
use is212_g5_t.Base.{
  ℕ, String, Bool, true, false, not, ◌&&◌, ◌||◌, Option, none, some, List, [], ◌∷◌, ◌==◌, ltb, any,
  some_eq, if◌then◌else◌, keep, update_where, count_if, sort_in,
}
use is212_g5_t.Schema.{
  Event, EventStatus, Venue, VenueBooking, BookingStatus, RequestKind, BookingRequest, Db,
  find_event,
}
use is212_g5_t.Registrations.{Env}
use is212_g5_t.Cancel.{add_history}
use is212_g5_t.Status.{compare_and_move}
use is212_g5_t.Venues.{
  find_booking, find_venue, is_pending, is_approved, is_live, BookingConflict, conflicts_of,
  is_completed_status, set_booking,
}
use is212_g5_t.Venues.Decisions.{is_short}

pub record RequestInput : Type 0 where
  pub event_id : ℕ
  pub special_request : Option String

pub data SubmitResult : Type 0 where
  venue_not_found event_not_assigned lead_time : SubmitResult
  event_not_open : EventStatus → SubmitResult
  already_requested : ℕ → BookingStatus → SubmitResult
  conflict : String → SubmitResult
  created : VenueBooking → EventStatus → Bool → SubmitResult

-- BOOKING_OPEN_STATUSES.
abbrev pub accepts_bookings : EventStatus → Bool
accepts_bookings EventStatus.approved = true
accepts_bookings EventStatus.planning = true
accepts_bookings EventStatus.confirmed = true
accepts_bookings _ = false

-- The request of an event for a venue that is pending or live.
abbrev pub is_active_request : ℕ → ℕ → ℕ → VenueBooking → Bool
is_active_request event_id venue_id now b =
    b.event_id == event_id && (b.venue_id == venue_id && (is_pending b.status || is_live now b))

-- ORDER BY created_at DESC, id.
abbrev pub newest_first : VenueBooking → VenueBooking → Bool
newest_first a b = ltb b.created_at a.created_at || (a.created_at == b.created_at && ltb a.id b.id)

abbrev pub active_requests : ℕ → ℕ → ℕ → Db → List VenueBooking
active_requests event_id venue_id now db =
    sort_in newest_first (keep (is_active_request event_id venue_id now) db.bookings)

-- shouldTransitionToPlanning, and the guard of the UPDATE.
abbrev pub is_approved_event : EventStatus → Bool
is_approved_event EventStatus.approved = true
is_approved_event _ = false

abbrev pub record_move : ℕ → ℕ → ℕ → Option Event × Db → Bool × Db
record_move event_id actor now (none, db) = (false, db)
record_move event_id actor now (some e, db) =
    (true, add_history event_id EventStatus.approved EventStatus.planning actor now db)

unfoldable pub move_to_planning : ℕ → ℕ → EventStatus → ℕ → Db → Bool × Db
move_to_planning event_id actor status now db =
    if is_approved_event status
    then record_move event_id actor now
        (compare_and_move is_approved_event EventStatus.planning event_id now db)
    else (false, db)

-- The row of a request. No blocked period meets it when it is saved.
abbrev pub new_booking : Venue → Event → RequestInput → RequestKind → Env → VenueBooking
new_booking v e input kind env = record {
  id = env.new_id;
  event_id = input.event_id;
  venue_id = v.id;
  venue_name = v.name;
  venue_location = v.location;
  status = BookingStatus.pending;
  request_kind = kind;
  hold_expires_at = none;
  start_at = e.start_date_time;
  end_at = e.end_date_time;
  venue_unavailable = false;
  created_at = env.sql_now;
  released_at = none;
  rejection_reason = none;
  special_request = input.special_request;
  reassessment_required = false;
  hold_expiry_processed_at = none;
  hold_reminder_sent_at = none;
}

abbrev is_request_of : ℕ → ℕ → BookingRequest → Bool
is_request_of event_id venue_id r = r.event_id == event_id && r.venue_id == venue_id

-- A booking saves its note over the one there; a hold inserts without one, or does nothing.
abbrev save_note : RequestKind → RequestInput → BookingRequest → BookingRequest
save_note RequestKind.booking input r = record r { special_request = input.special_request }
save_note RequestKind.tentative_hold input r = r

abbrev first_note : RequestKind → RequestInput → Option String
first_note RequestKind.booking input = input.special_request
first_note RequestKind.tentative_hold input = none

unfoldable pub upsert_request :
    RequestKind → RequestInput → ℕ → List BookingRequest → List BookingRequest
upsert_request kind input venue_id rows =
    if any (is_request_of input.event_id venue_id) rows
    then update_where (is_request_of input.event_id venue_id) (save_note kind input) rows
    else record {
      event_id = input.event_id;
      venue_id = venue_id;
      special_request = first_note kind input;
    }
      ∷ rows

abbrev pub insert_booking : VenueBooking → RequestKind → RequestInput → Db → Db
insert_booking b kind input db = record db {
  bookings = b ∷ db.bookings;
  booking_requests = upsert_request kind input b.venue_id db.booking_requests;
}

abbrev pub status_after : EventStatus → Bool → EventStatus
status_after old true = EventStatus.planning
status_after old false = old

unfoldable pub save_request :
    ℕ → Venue → Event → RequestInput → RequestKind → Env → Db → SubmitResult × Db
save_request coordinator v e input kind env db =
    let b = new_booking v e input kind env in
    let (moved, db') =
      move_to_planning input.event_id coordinator e.status env.now
        (insert_booking b kind input db) in
    (created b (status_after e.status moved) moved, db')

-- A hold needs its lead time first; any clash refuses either kind. The venue's timing columns are NOT
-- NULL, so the answer configuration-unavailable of a hold cannot occur and is no constructor here. The
-- query takes one conflict without an order (LIMIT 1); the model takes the first in table order.
abbrev pub too_short : RequestKind → Venue → Event → ℕ → Bool
too_short RequestKind.booking v e now = false
too_short RequestKind.tentative_hold v e now = is_short (some e) v.setup_time_minutes now

abbrev pub unless_clash :
    ℕ
    → Venue
    → Event
    → RequestInput
    → RequestKind
    → Env
    → List BookingConflict
    → Db
    → SubmitResult × Db
unless_clash coordinator v e input kind env [] db = save_request coordinator v e input kind env db
unless_clash coordinator v e input kind env (c ∷ cs) db = (conflict c.reason, db)

abbrev pub unless_active :
    ℕ
    → Venue
    → Event
    → RequestInput
    → RequestKind
    → Env
    → List VenueBooking
    → Db
    → SubmitResult × Db
unless_active coordinator v e input kind env [] db =
    unless_clash coordinator v e input kind env
      (conflicts_of (λ b. true) v e.start_date_time e.end_date_time env.now db) db
unless_active coordinator v e input kind env (b ∷ bs) db = (already_requested b.id b.status, db)

abbrev pub submit_for :
    ℕ → Venue → RequestInput → RequestKind → Env → Option Event → Db → SubmitResult × Db
submit_for coordinator v input kind env none db = (event_not_assigned, db)
submit_for coordinator v input kind env (some e) db =
    if not (some_eq e.coordinator_id coordinator)
    then (event_not_assigned, db)
    else if not (accepts_bookings e.status)
    then (event_not_open e.status, db)
    else if too_short kind v e env.now
    then (lead_time, db)
    else unless_active coordinator v e input kind env
        (active_requests input.event_id v.id env.now db) db

abbrev pub submit_at : ℕ → RequestInput → RequestKind → Env → Option Venue → Db → SubmitResult × Db
submit_at coordinator input kind env none db = (venue_not_found, db)
submit_at coordinator input kind env (some v) db =
    submit_for coordinator v input kind env (find_event input.event_id db.events) db

unfoldable pub submit_booking_request : ℕ → ℕ → RequestInput → Env → Db → SubmitResult × Db
submit_booking_request venue_id coordinator input env db =
    submit_at coordinator input RequestKind.booking env (find_venue venue_id db) db

unfoldable pub submit_tentative_hold_request : ℕ → ℕ → RequestInput → Env → Db → SubmitResult × Db
submit_tentative_hold_request venue_id coordinator input env db =
    submit_at coordinator input RequestKind.tentative_hold env (find_venue venue_id db) db

pub data CancelResult : Type 0 where
  not_found event_completed not_active last_active cancelled : CancelResult

abbrev pub is_open_booking : BookingStatus → Bool
is_open_booking s = is_pending s || is_approved s

abbrev pub is_other_open : ℕ → ℕ → VenueBooking → Bool
is_other_open event_id id b =
    b.event_id == event_id && (not (b.id == id) && is_open_booking b.status)

abbrev pub cancel_row : VenueBooking → VenueBooking
cancel_row b = record b { status = BookingStatus.cancelled }

abbrev pub cancel_found : ℕ → ℕ → Bool → VenueBooking → Option Event → Db → CancelResult × Db
cancel_found coordinator id confirmed b none db = (not_found, db)
cancel_found coordinator id confirmed b (some e) db =
    if not (some_eq e.coordinator_id coordinator)
    then (not_found, db)
    else if is_completed_status e.status
    then (event_completed, db)
    else if not (is_open_booking b.status)
    then (not_active, db)
    else if count_if (is_other_open b.event_id id) db.bookings == 0 && not confirmed
    then (last_active, db)
    else (cancelled, set_booking id cancel_row db)

abbrev pub cancel_at : ℕ → ℕ → Bool → Option VenueBooking → Db → CancelResult × Db
cancel_at coordinator id confirmed none db = (not_found, db)
cancel_at coordinator id confirmed (some b) db =
    cancel_found coordinator id confirmed b (find_event b.event_id db.events) db

unfoldable pub cancel_coordinator_booking : ℕ → ℕ → Bool → Db → CancelResult × Db
cancel_coordinator_booking coordinator id confirmed db =
    cancel_at coordinator id confirmed (find_booking id db.bookings) db
