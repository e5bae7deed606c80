-- ===== src/Status.antt =====
-- Changing an event's status (backend/src/events/status/status.service.ts, arrangements.reader.ts and
-- safety-check.source.ts, backend/src/events/completion/completion.rules.ts): the endpoint, its
-- Confirmed and Completed handlers, and the arrangements that they read.
pub mod Transitions
pub mod Handlers
pub mod Endpoint
pub mod Planning
pub mod SafetyRequest
pub mod Courses
use mathlib.Core.Option
use is212_g5_t.Base.{
  ℕ, String, Bool, true, false, not, ◌&&◌, ◌||◌, Option, none, some, List, [], ◌∷◌, ◌==◌, leb, ltb,
  ◌+◌, ◌*◌, map, if◌then◌else◌, some_eq, any, keep, find_by, update_where, is_some,
}
use is212_g5_t.Schema.{
  Event, EventStatus, Notification, NotificationType, Message, SafetyCheck, Db, AuthenticatedUser,
  RouteId, uuid, malformed, Refusal, Result, is_coordinator, find_event, VenueBooking, Venue,
  Unavailability,
}
use is212_g5_t.Transaction.{
  M, ◌>>=◌, ◌>>◌, return, throw, throw_if, gets, writes, require, transaction,
}
use is212_g5_t.Readiness.Sorting.{sort_by}
use is212_g5_t.Readiness.{ReadinessSnapshot, fact_state, evaluate_readiness}
use is212_g5_t.Cancel.{Confirmation, StatusView, add_history, cancel_work}

-- `targetStatus` of the body, as far as it is told apart.
pub data Target : Type 0 where
  to_cancelled to_completed to_confirmed unsupported : Target

abbrev confirmed_at : Option Event → Bool
confirmed_at none = false
confirmed_at (some e) = is_some e.equipment_confirmed_at

-- VENUE_UNAVAILABLE_SQL: a blocked period of the venue meets the booking's window with the setup before
-- and the turnaround after it. The setup is on the other side, since subtraction stops at 0.
abbrev makes_unavailable : VenueBooking → Venue → Unavailability → Bool
makes_unavailable b v u =
    u.venue_id == b.venue_id
    && (ltb u.start_at (b.end_at + v.turnaround_time_minutes * 60000)
        && ltb b.start_at (u.end_at + v.setup_time_minutes * 60000))

-- JOIN venues v ON v.id = b.venue_id, which the foreign key makes total.
abbrev join_venue : List Unavailability → VenueBooking → Option Venue → VenueBooking
join_venue blocked b none = b
join_venue blocked b (some v) = record b {
  venue_name = v.name;
  venue_unavailable = any (makes_unavailable b v) blocked;
}

-- ArrangementsReader.read with the safety outcome. ORDER BY b.start_at, b.id is two stable sorts.
unfoldable pub read_arrangements : ℕ → Db → ReadinessSnapshot
read_arrangements event_id db = record {
  venue_bookings =
      sort_by (λ b. b.start_at)
        (sort_by (λ b. b.id)
          (map
            (λ (b : VenueBooking).
              join_venue db.unavailable b (find_by (λ v. v.id == b.venue_id) db.venues))
            (keep (λ b. b.event_id == event_id) db.bookings)));
  equipment = sort_by (λ l. l.id) (keep (λ l. l.event_id == event_id) db.equipment);
  safety =
      Option.map (λ (c : SafetyCheck). fact_state c.status)
        (find_by (λ c. c.event_id == event_id) db.safety_checks);
  equipment_none_confirmed = confirmed_at (find_event event_id db.events);
}

unfoldable pub has_event_ended : ℕ → ℕ → Bool
has_event_ended end_date_time now = leb end_date_time now

abbrev pub is_assigned : AuthenticatedUser → Event → Bool
is_assigned user event = any is_coordinator user.roles && some_eq event.coordinator_id user.uid

unfoldable pub assert_source_status : EventStatus → M (Unit {0})
assert_source_status EventStatus.planning = return tt
assert_source_status EventStatus.confirmed = throw Refusal.already_confirmed
assert_source_status _ = throw Refusal.not_confirmable

abbrev pub is_planning : EventStatus → Bool
is_planning EventStatus.planning = true
is_planning _ = false

abbrev pub is_confirmed_event : EventStatus → Bool
is_confirmed_event EventStatus.confirmed = true
is_confirmed_event _ = false

abbrev pub is_cancelled_event : EventStatus → Bool
is_cancelled_event EventStatus.cancelled = true
is_cancelled_event _ = false

-- UPDATE events SET status, updated_at WHERE id AND status = the source RETURNING ...
abbrev pub in_status : (EventStatus → Bool) → ℕ → Event → Bool
in_status source event_id e = e.id == event_id && source e.status

abbrev pub move_to : EventStatus → ℕ → Event → Event
move_to target now e = record e { status = target; updated_at = now }

unfoldable pub compare_and_move :
    (EventStatus → Bool) → EventStatus → ℕ → ℕ → Db → Option Event × Db
compare_and_move source target event_id now db = (
  find_by (in_status source event_id) db.events,
  record db { events = update_where (in_status source event_id) (move_to target now) db.events },
)

-- Once-only index on (recipient_id, related_event_id, type) for EventConfirmed.
abbrev is_event_confirmed : NotificationType → Bool
is_event_confirmed NotificationType.event_confirmed = true
is_event_confirmed _ = false

abbrev pub confirmed_notice_for : ℕ → ℕ → Notification → Bool
confirmed_notice_for recipient event_id n =
    n.recipient_id == recipient && n.related_event_id == event_id && is_event_confirmed n.type

abbrev confirmed_notice : ℕ → ℕ → Event → Notification
confirmed_notice now event_id row = record {
  recipient_id = row.organiser_id;
  type = NotificationType.event_confirmed;
  message = Message.event_has_been_confirmed row.event_name;
  related_event_id = event_id;
  related_user_id = none;
  related_booking_id = none;
  read = false;
  created_at = some now;
}

unfoldable pub notify_confirmed : ℕ → ℕ → Event → List Notification → List Notification
notify_confirmed now event_id row ns =
    if any (confirmed_notice_for row.organiser_id event_id) ns
    then ns
    else confirmed_notice now event_id row ∷ ns

abbrev unit_of : Db → Unit {0} × Db
unit_of db = (tt, db)

unfoldable pub finish_confirming : ℕ → Event → ℕ → ℕ → Db → Db
finish_confirming event_id row uid now db =
    let db₁ : Db = add_history event_id EventStatus.planning EventStatus.confirmed uid now db in
    record db₁ { notifications = notify_confirmed now event_id row db₁.notifications }

unfoldable pub confirm : AuthenticatedUser → ℕ → ℕ → M StatusView
confirm user event_id now = do
  locked ← gets (λ db. find_event event_id db.events)
  current ← require locked Refusal.event_not_found
  throw_if (not (some_eq current.coordinator_id user.uid)) Refusal.not_assigned
  assert_source_status current.status
  snapshot ← gets (read_arrangements event_id)
  throw_if (not (evaluate_readiness snapshot now).ready) Refusal.confirm_blocked
  updated ← writes (compare_and_move is_planning EventStatus.confirmed event_id now)
  row ← require updated Refusal.already_confirmed
  writes (λ db. unit_of (finish_confirming event_id row user.uid now db))
  return (record {
    event_id = event_id;
    status = EventStatus.confirmed;
    message = Message.event_has_been_confirmed row.event_name;
  })

unfoldable pub complete : AuthenticatedUser → ℕ → ℕ → M StatusView
complete user event_id now = do
  locked ← gets (λ db. find_event event_id db.events)
  current ← require locked Refusal.event_not_found
  throw_if (not (some_eq current.coordinator_id user.uid)) Refusal.not_assigned
  throw_if (not (is_confirmed_event current.status)) Refusal.not_completable
  throw_if (not (has_event_ended current.end_date_time now)) Refusal.not_ended
  updated ← writes (compare_and_move is_confirmed_event EventStatus.completed event_id now)
  row ← require updated Refusal.not_completable
  writes (λ db.
      unit_of (add_history event_id EventStatus.confirmed EventStatus.completed user.uid now db))
  return (record {
    event_id = event_id;
    status = EventStatus.completed;
    message = Message.event_has_been_completed row.event_name;
  })

abbrev pub id_of : RouteId → Option ℕ
id_of (uuid id) = some id
id_of malformed = none

abbrev found_by : Option ℕ → List Event → Option Event
found_by none events = none
found_by (some id) events = find_event id events

-- 404 for a bad or missing id, 403 unless assigned.
unfoldable pub assigned_event_or_throw : AuthenticatedUser → RouteId → M Event
assigned_event_or_throw user id = do
  found ← gets (λ db. found_by (id_of id) db.events)
  event ← require found Refusal.event_not_found
  throw_if (not (is_assigned user event)) Refusal.not_assigned
  return event

abbrev pub move : Target → AuthenticatedUser → Event → ℕ → M StatusView
move to_completed user event now = complete user event.id now
move to_confirmed user event now = confirm user event.id now
move _ user event now = throw (
    if is_cancelled_event event.status
    then Refusal.invalid_transition
    else Refusal.unsupported_target)

unfoldable pub change_work :
    Option AuthenticatedUser → RouteId → Target → Confirmation → ℕ → M StatusView
change_work identity id to_cancelled body now = cancel_work identity id body now
change_work identity id target body now = do
  user ← require identity Refusal.authentication_required
  event ← assigned_event_or_throw user id
  move target user event now

unfoldable pub change_status :
    Option AuthenticatedUser → RouteId → Target → Confirmation → ℕ → Db → Result StatusView × Db
change_status identity id target body now db =
    transaction (change_work identity id target body now) db
