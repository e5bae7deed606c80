-- ===== src/Waitlist.antt =====
-- The waiting list (backend/src/registrations/waitlist/*.ts): the due test and its settling,
-- promotion into free places, the position, the close job, and the release for a cancelled event.
-- Each function takes the database and gives the result with the database after its statements.
pub mod Settling
pub mod Promotion
pub mod Order
pub mod Closing
pub mod Cancelling
pub mod Fairness
use is212_g5_t.Base.{
  ℕ, zero, suc, ◌+◌, ◌-◌, String, Bool, true, false, not, ◌&&◌, ◌||◌, Option, none, some, List, [],
  ◌∷◌, ◌++◌, map, ◌==◌, ltb, if◌then◌else◌, reached, count_if, update_where, keep, any,
}
use is212_g5_t.Schema.{
  Event, RegistrationStatus, Registration, Notification, NotificationType, Message, Db, find_event,
  is_waitlisted, waits, has_id, registered_count,
}

-- The due test over the event: closed by hand, or at or after the closing instant.
unfoldable pub event_due : ℕ → Event → Bool
event_due now e = not e.registration_enabled || reached e.registration_closes_at now

abbrev due_join : ℕ → Option Event → Bool
due_join now none = false
due_join now (some e) = event_due now e

-- dueWaitlist: the row waits, and its event (found by the join) is due.
unfoldable pub due_waitlist : List Event → ℕ → Registration → Bool
due_waitlist events now r = is_waitlisted r.status && due_join now (find_event r.event_id events)

abbrev pub mark_removed : ℕ → Registration → Registration
mark_removed now r = record r {
  status = RegistrationStatus.removed;
  removed_at = some now;
  updated_at = now;
}

abbrev pub due_of : ℕ → List Event → ℕ → Registration → Bool
due_of event_id events now r = r.event_id == event_id && due_waitlist events now r

unfoldable pub settle_locked : ℕ → ℕ → Db → ℕ × Db
settle_locked event_id now db =
    let due = due_of event_id db.events now in
    (
      count_if due db.registrations,
      record db { registrations = update_where due (mark_removed now) db.registrations },
    )

-- The lock-free check first; the transaction only when a row is due.
unfoldable pub settle_if_due : ℕ → ℕ → Db → ℕ × Db
settle_if_due event_id now db =
    if any (due_of event_id db.events now) db.registrations
    then settle_locked event_id now db
    else (0, db)

-- ORDER BY joined_at, waitlist_seq: a NULL sorts last.
abbrev pub lt_nulls_last : Option ℕ → Option ℕ → Bool
lt_nulls_last none b = false
lt_nulls_last (some a) none = true
lt_nulls_last (some a) (some b) = ltb a b

abbrev pub eq_nulls : Option ℕ → Option ℕ → Bool
eq_nulls none none = true
eq_nulls (some a) (some b) = a == b
eq_nulls _ _ = false

unfoldable pub sorts_before : Registration → Registration → Bool
sorts_before r s =
    lt_nulls_last r.joined_at s.joined_at
    || (eq_nulls r.joined_at s.joined_at && lt_nulls_last r.waitlist_seq s.waitlist_seq)

abbrev pub earlier : Registration → Option Registration → Registration
earlier r none = r
earlier r (some s) = if sorts_before s r then s else r

-- SELECT ... WHERE status = 'Waitlisted' ORDER BY joined_at, waitlist_seq LIMIT 1.
unfoldable pub first_waiting : ℕ → List Registration → Option Registration
first_waiting event_id [] = none
first_waiting event_id (r ∷ rows) =
    let rest = first_waiting event_id rows in
    if waits event_id r then some (earlier r rest) else rest

abbrev pub promote : ℕ → Registration → Registration
promote now r = record r {
  status = RegistrationStatus.registered;
  registered_at = some now;
  updated_at = now;
}

abbrev promotion_notice : String → Registration → Notification
promotion_notice name entry = record {
  recipient_id = entry.attendee_id;
  type = NotificationType.waitlist_promoted;
  message = Message.spot_opened name;
  related_event_id = entry.event_id;
  related_user_id = some entry.attendee_id;
  related_booking_id = none;
  read = false;
  created_at = none;
}

-- One round of the loop: the row becomes Registered and its notice is written.
unfoldable pub promote_entry : ℕ → String → Registration → Db → Db
promote_entry now name entry db = record db {
  registrations = update_where (has_id entry.id) (promote now) db.registrations;
  notifications = promotion_notice name entry ∷ db.notifications;
}

-- `while (free > 0)`: at most one promotion for each free place.
unfoldable pub promote_loop : ℕ → String → ℕ → ℕ → Db → ℕ × Db
promote_loop event_id name now zero db = (0, db)
promote_loop event_id name now (suc free) db = elim (first_waiting event_id db.registrations) [
  | none ↦ (0, db)
  | some entry ↦
      let (promoted, db') = promote_loop event_id name now free (promote_entry now name entry db) in
      (suc promoted, db')
]

-- `capacity - taken` is negative when the event is over-full; the loop then makes no round, as it
-- makes none here at 0.
unfoldable pub fill_free_spots : ℕ → ℕ → Db → ℕ × Db
fill_free_spots event_id now db =
    let db₁ : Db = (settle_locked event_id now db).1 in
    elim (find_event event_id db₁.events) [
      | none ↦ (0, db₁)
      | some e ↦
          promote_loop event_id e.event_name now
            (e.registration_limit - registered_count event_id db₁.registrations) db₁
    ]

-- The row comparison of WAITLIST_POSITION_SQL: NULL compares as unknown, so it is not counted.
abbrev pub lt_known : Option ℕ → Option ℕ → Bool
lt_known (some a) (some b) = ltb a b
lt_known _ _ = false

abbrev pub eq_known : Option ℕ → Option ℕ → Bool
eq_known (some a) (some b) = a == b
eq_known _ _ = false

unfoldable pub row_lt : Registration → Registration → Bool
row_lt o r =
    lt_known o.joined_at r.joined_at
    || (eq_known o.joined_at r.joined_at && lt_known o.waitlist_seq r.waitlist_seq)

unfoldable pub waitlist_position : List Registration → Registration → Option ℕ
waitlist_position rows r =
    if is_waitlisted r.status
    then some (1 + count_if (λ o. waits r.event_id o && row_lt o r) rows)
    else none

-- SELECT DISTINCT r.event_id ... WHERE due: the events to settle, each once.
abbrev pub add_distinct : ℕ → List ℕ → List ℕ
add_distinct id ids = if any (λ i. i == id) ids then ids else id ∷ ids

unfoldable pub due_events : List Event → ℕ → List Registration → List ℕ
due_events events now [] = []
due_events events now (r ∷ rows) =
    let rest = due_events events now rows in
    if due_waitlist events now r then add_distinct r.event_id rest else rest

unfoldable pub settle_each : List ℕ → ℕ → Db → ℕ × Db
settle_each [] now db = (0, db)
settle_each (id ∷ ids) now db =
    let (removed, db₁) = settle_if_due id now db in
    let (more, db₂) = settle_each ids now db₁ in (removed + more, db₂)

unfoldable pub run_registration_close_job : ℕ → Db → ℕ × Db
run_registration_close_job now db = settle_each (due_events db.events now db.registrations) now db

abbrev pub mark_cancelled : ℕ → Registration → Registration
mark_cancelled now r = record r { status = RegistrationStatus.cancelled; updated_at = now }

-- Once-only index on (recipient_id, related_event_id, type) for EventCancelled: ON CONFLICT DO
-- NOTHING.
abbrev is_event_cancelled : NotificationType → Bool
is_event_cancelled NotificationType.event_cancelled = true
is_event_cancelled _ = false

abbrev pub cancelled_notice_for : ℕ → ℕ → Notification → Bool
cancelled_notice_for recipient event_id n =
    n.recipient_id == recipient && n.related_event_id == event_id && is_event_cancelled n.type

unfoldable pub insert_cancelled_notice : Notification → List Notification → List Notification
insert_cancelled_notice n ns =
    if any (cancelled_notice_for n.recipient_id n.related_event_id) ns then ns else n ∷ ns

abbrev place_cancelled_notice : String → ℕ → Registration → Notification
place_cancelled_notice name now r = record {
  recipient_id = r.attendee_id;
  type = NotificationType.event_cancelled;
  message = Message.waitlist_place_cancelled name;
  related_event_id = r.event_id;
  related_user_id = some r.attendee_id;
  related_booking_id = none;
  read = false;
  created_at = some now;
}

unfoldable pub notify_places :
    String → ℕ → List Registration → List Notification → List Notification
unfolding insert_cancelled_notice
notify_places name now [] ns = ns
notify_places name now (r ∷ rows) ns =
    notify_places name now rows (insert_cancelled_notice (place_cancelled_notice name now r) ns)

abbrev name_of : Option Event → String
name_of none = ""
name_of (some e) = e.event_name

unfoldable pub release_waitlist_for_cancelled_event : ℕ → ℕ → Db → ℕ × Db
release_waitlist_for_cancelled_event event_id now db =
    let db₁ : Db = (settle_locked event_id now db).1 in
    let waiting = keep (waits event_id) db₁.registrations in
    (
      count_if (waits event_id) db₁.registrations,
      record db₁ {
        registrations = update_where (waits event_id) (mark_cancelled now) db₁.registrations;
        notifications =
            notify_places (name_of (find_event event_id db₁.events)) now waiting db₁.notifications;
      },
    )
