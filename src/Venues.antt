-- ===== src/Venues.antt =====
-- Venue bookings and tentative holds (backend/src/venues/repository/venues.repository.ts): the row
-- that a decision locks, what stands against a slot, and the decision of a request. Requests,
-- Holds and Service have the other operations. A clock that is read more than once in an operation is
-- read at one instant here.
pub mod Notices
pub mod Decisions
pub mod Holds
pub mod Requests
pub mod Service
pub mod Apart
pub mod Keeping
pub mod Locking
pub mod Changes
pub mod Submitting
pub mod Approval
pub mod Runs
pub mod Courses
pub mod Outcomes
pub mod Expiry
pub mod Booking
use is212_g5_t.Base.{
  ℕ, ◌+◌, ◌-◌, ◌*◌, String, Bool, true, false, not, ◌&&◌, ◌||◌, Option, none, some, List, [], ◌∷◌,
  ◌++◌, ◌==◌, ltb, leb, if◌then◌else◌, any, keep, map, find_by, sort_in, update_where,
}
use is212_g5_t.Schema.{
  Event, EventStatus, Venue, VenueBooking, BookingStatus, RequestKind, Unavailability, Db,
  find_event,
}

abbrev pub find_booking : ℕ → List VenueBooking → Option VenueBooking
find_booking id rows = find_by (λ b. b.id == id) rows

abbrev pub find_venue : ℕ → Db → Option Venue
find_venue id db = find_by (λ v. v.id == id) db.venues

abbrev pub is_pending : BookingStatus → Bool
is_pending BookingStatus.pending = true
is_pending _ = false

abbrev pub is_approved : BookingStatus → Bool
is_approved BookingStatus.approved = true
is_approved _ = false

abbrev pub is_expired : BookingStatus → Bool
is_expired BookingStatus.expired = true
is_expired _ = false

abbrev pub is_hold : RequestKind → Bool
is_hold RequestKind.tentative_hold = true
is_hold RequestKind.booking = false

-- `hold_expires_at > now`, and `IS NULL OR` the same.
abbrev pub expires_after : Option ℕ → ℕ → Bool
expires_after none now = false
expires_after (some at) now = ltb now at

abbrev pub lasts : Option ℕ → ℕ → Bool
lasts none now = true
lasts (some at) now = ltb now at

-- An approved booking, or an approved hold that has not expired.
abbrev pub is_live : ℕ → VenueBooking → Bool
is_live now b =
    is_approved b.status && (not (is_hold b.request_kind) || lasts b.hold_expires_at now)

-- The rows that occupy a venue: a live row, or a pending one with an expiry to come.
abbrev pub occupies : ℕ → VenueBooking → Bool
occupies now b = is_live now b || (is_pending b.status && expires_after b.hold_expires_at now)

abbrev pub minutes : ℕ → ℕ
minutes n = n * 60000

-- The window of a booking with the setup before and the turnaround after it overlaps that of a slot.
-- The setup of the slot is on the other side, since subtraction stops at 0.
abbrev pub overlaps : Venue → ℕ → ℕ → ℕ → ℕ → Bool
overlaps v start_at end_at start end =
    let margin = minutes v.setup_time_minutes + minutes v.turnaround_time_minutes in
    ltb start_at (end + margin) && ltb start (end_at + margin)

-- A blocked period has no margins of its own.
abbrev pub blocks : Venue → ℕ → ℕ → Unavailability → Bool
blocks v start end u =
    u.venue_id == v.id
    && (ltb u.start_at (end + minutes v.turnaround_time_minutes)
        && ltb start (u.end_at + minutes v.setup_time_minutes))

abbrev pub stands_against : Venue → ℕ → ℕ → ℕ → VenueBooking → Bool
stands_against v start end now b =
    b.venue_id == v.id && (occupies now b && overlaps v b.start_at b.end_at start end)

pub data ConflictKind : Type 0 where
  booked : BookingStatus → RequestKind → Option ℕ → ConflictKind
  unavailable : ConflictKind

pub record BookingConflict : Type 0 where
  pub id : ℕ
  pub reason : String
  pub kind : ConflictKind
  pub start_at : ℕ
  pub end_at : ℕ
  pub occupied_start : ℕ
  pub occupied_end : ℕ

abbrev pub blocked_conflict : Unavailability → BookingConflict
blocked_conflict u = record {
  id = u.id;
  reason = u.reason;
  kind = unavailable;
  start_at = u.start_at;
  end_at = u.end_at;
  occupied_start = u.start_at;
  occupied_end = u.end_at;
}

-- COALESCE(e.event_name, 'Existing venue booking') of the joined event.
abbrev pub name_or : Option Event → String
name_or none = "Existing venue booking"
name_or (some e) = e.event_name

abbrev pub booking_conflict : Venue → List Event → VenueBooking → BookingConflict
booking_conflict v events b = record {
  id = b.id;
  reason = name_or (find_event b.event_id events);
  kind = booked b.status b.request_kind b.hold_expires_at;
  start_at = b.start_at;
  end_at = b.end_at;
  occupied_start = b.start_at - minutes v.setup_time_minutes;
  occupied_end = b.end_at + minutes v.turnaround_time_minutes;
}

-- ORDER BY occupied_start, occupied_end, id.
abbrev pub conflict_before : BookingConflict → BookingConflict → Bool
conflict_before a b =
    ltb a.occupied_start b.occupied_start
    || (a.occupied_start == b.occupied_start
        && (ltb a.occupied_end b.occupied_end
            || (a.occupied_end == b.occupied_end && ltb a.id b.id)))

abbrev pub other_than : ℕ → VenueBooking → Bool
other_than id b = not (b.id == id)

-- The conflicts of a slot with the blocked periods and with the bookings that a test lets through.
unfoldable pub conflicts_of : (VenueBooking → Bool) → Venue → ℕ → ℕ → ℕ → Db → List BookingConflict
conflicts_of considered v start end now db = sort_in conflict_before (
    map blocked_conflict (keep (blocks v start end) db.unavailable)
    ++ map (booking_conflict v db.events)
        (keep (λ b. considered b && stands_against v start end now b) db.bookings))

-- lockOwnedBooking: the booking with its venue and its event, when the venue is the caller's.
pub record Locked : Type 0 where
  pub booking : VenueBooking
  pub venue : Venue
  pub event : Option Event

abbrev pub owned : ℕ → VenueBooking → Db → Option Venue → Option Locked
owned staff b db none = none
owned staff b db (some v) =
    if v.owner_user_id == staff
    then some (record { booking = b; venue = v; event = find_event b.event_id db.events })
    else none

abbrev pub at_venue : ℕ → Db → Option VenueBooking → Option Locked
at_venue staff db none = none
at_venue staff db (some b) = owned staff b db (find_venue b.venue_id db)

unfoldable pub lock_owned_booking : ℕ → ℕ → Db → Option Locked
lock_owned_booking staff id db = at_venue staff db (find_booking id db.bookings)

-- The lock also finds a blocked row of the caller's, which has no event and is neither pending nor
-- approved: each operation answers as for a row that is not open.
abbrev pub owns_block : ℕ → ℕ → Db → Bool
owns_block staff id db =
    any (λ u. u.id == id && any (λ v. v.id == u.venue_id && v.owner_user_id == staff) db.venues)
      db.unavailable

abbrev pub is_completed_status : EventStatus → Bool
is_completed_status EventStatus.completed = true
is_completed_status _ = false

abbrev pub of_completed : Option Event → Bool
of_completed none = false
of_completed (some e) = is_completed_status e.status

-- UPDATE venue_bookings SET f WHERE id.
abbrev pub set_booking : ℕ → (VenueBooking → VenueBooking) → Db → Db
set_booking id f db = record db { bookings = update_where (λ b. b.id == id) f db.bookings }
