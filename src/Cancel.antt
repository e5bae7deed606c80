-- ===== src/Cancel.antt =====
-- Cancelling an event (backend/src/events/cancel/*.ts): the checks, the compare-and-set of the
-- status, the notices, and the releasers of DEFAULT_RELEASERS in their order
-- (venues/release, registrations/release, events/change-requests/release, equipment/release).
pub mod Releasers
pub use Releasers.*
pub mod Releasing
pub mod Outcomes
pub mod Requests
use is212_g5_t.Base.{
  ℕ, String, Bool, true, false, not, ◌&&◌, Option, none, some, List, [], ◌∷◌, map, ◌==◌,
  if◌then◌else◌, some_eq, any, keep, find_by, update_where,
}
use is212_g5_t.Schema.{
  Event, EventStatus, Registration, RegistrationStatus, Notification, NotificationType, Message,
  StatusChange, VenueBooking, BookingStatus, EquipmentReservation, EquipmentStatus, ChangeRequest,
  ChangeRequestStatus, AuditEntry, Db, AuthenticatedUser, RouteId, uuid, malformed, Refusal, Result,
  is_coordinator, find_event, holds_place,
}
use is212_g5_t.Transaction.{
  M, ◌>>=◌, ◌>>◌, return, throw, throw_if, gets, writes, require, transaction,
}
use is212_g5_t.Waitlist.{
  add_distinct, insert_cancelled_notice, release_waitlist_for_cancelled_event,
}

-- CANCELLABLE_STATUSES.
abbrev pub is_cancellable : EventStatus → Bool
is_cancellable EventStatus.submitted = true
is_cancellable EventStatus.approved = true
is_cancellable EventStatus.planning = true
is_cancellable EventStatus.confirmed = true
is_cancellable _ = false

-- The `confirmed` field of a body: the boolean true, or anything else.
pub data Confirmation : Type 0 where
  confirmed_true not_confirmed : Confirmation

abbrev pub is_confirmed : Confirmation → Bool
is_confirmed confirmed_true = true
is_confirmed not_confirmed = false

abbrev pub may_cancel : AuthenticatedUser → Event → Bool
may_cancel user event = any is_coordinator user.roles && some_eq event.coordinator_id user.uid

-- `for (const releaser of this.releasers) await releaser.release(...)`.
unfoldable pub release_all : ℕ → ℕ → Db → Db
release_all event_id now db = release_equipment event_id now (
    release_change_requests event_id now
      (release_waitlist_for_cancelled_event event_id now
        (release_registrations event_id now (release_venues event_id now db))).1)

-- The organiser, the canceller and the attendees who hold a place, each once.
abbrev pub add_all : List ℕ → List ℕ → List ℕ
add_all [] set = set
add_all (u ∷ us) set = add_all us (add_distinct u set)

unfoldable pub collect_recipients : Bool → Event → ℕ → ℕ → Db → List ℕ
collect_recipients skip_organiser event event_id uid db =
    let attendees =
      map (λ (r : Registration). r.attendee_id) (keep (holds_place event_id) db.registrations) in
    let everyone = add_all attendees (add_distinct uid (event.organiser_id ∷ [])) in
    if skip_organiser then keep (λ u. not (u == event.organiser_id)) everyone else everyone

abbrev pub cancelled_notice : String → ℕ → ℕ → ℕ → Notification
cancelled_notice name now event_id recipient = record {
  recipient_id = recipient;
  type = NotificationType.event_cancelled;
  message = Message.event_has_been_cancelled name;
  related_event_id = event_id;
  related_user_id = none;
  related_booking_id = none;
  read = false;
  created_at = some now;
}

unfoldable pub notify_recipients : String → ℕ → ℕ → List ℕ → List Notification → List Notification
unfolding insert_cancelled_notice
notify_recipients name now event_id [] ns = ns
notify_recipients name now event_id (u ∷ us) ns =
    notify_recipients name now event_id us
      (insert_cancelled_notice (cancelled_notice name now event_id u) ns)

-- UPDATE events ... WHERE id AND status = ANY(...) RETURNING event_name.
abbrev pub still_cancellable : ℕ → Event → Bool
still_cancellable event_id e = e.id == event_id && is_cancellable e.status

abbrev pub cancel_event : ℕ → ℕ → Event → Event
cancel_event uid now e = record e {
  status = EventStatus.cancelled;
  cancelled_by = some uid;
  cancelled_at = some now;
  updated_at = now;
}

unfoldable pub compare_and_cancel : ℕ → ℕ → ℕ → Db → Option Event × Db
compare_and_cancel event_id uid now db = (
  find_by (still_cancellable event_id) db.events,
  record db { events = update_where (still_cancellable event_id) (cancel_event uid now) db.events },
)

abbrev pub add_history : ℕ → EventStatus → EventStatus → ℕ → ℕ → Db → Db
add_history event_id from to uid now db = record db {
  history =
      record {
        event_id = event_id;
        from_status = from;
        to_status = to;
        actor_id = uid;
        created_at = now;
      }
      ∷ db.history;
}

abbrev unit_of : Db → Unit {0} × Db
unit_of db = (tt, db)

-- What follows the compare-and-set: history, notices, releases.
unfoldable pub finish_cancelling : Bool → Event → ℕ → String → ℕ → ℕ → Db → Db
finish_cancelling skip_organiser event event_id name uid now db =
    let recipients = collect_recipients skip_organiser event event_id uid db in
    let db₁ : Db = add_history event_id event.status EventStatus.cancelled uid now db in
    release_all event_id now (record db₁ {
      notifications = notify_recipients name now event_id recipients db₁.notifications;
    })

pub record StatusView : Type 0 where
  pub event_id : ℕ
  pub status : EventStatus
  pub message : Message

unfoldable pub cancel_inside : AuthenticatedUser → ℕ → ℕ → Bool → M StatusView
cancel_inside user event_id now skip_organiser = do
  found ← gets (λ db. find_event event_id db.events)
  event ← require found Refusal.event_not_found
  throw_if (not (may_cancel user event)) Refusal.cancel_forbidden
  throw_if (not (is_cancellable event.status)) Refusal.not_cancellable
  updated ← writes (compare_and_cancel event_id user.uid now)
  row ← require updated Refusal.not_cancellable
  writes (λ db.
      unit_of (finish_cancelling skip_organiser event event_id row.event_name user.uid now db))
  return (record {
    event_id = event_id;
    status = EventStatus.cancelled;
    message = Message.event_has_been_cancelled row.event_name;
  })

abbrev pub require_cancel_id : RouteId → M ℕ
require_cancel_id (uuid id) = return id
require_cancel_id malformed = throw Refusal.event_not_found

-- The checks before the transaction, then the steps inside it.
unfoldable pub cancel_work : Option AuthenticatedUser → RouteId → Confirmation → ℕ → M StatusView
cancel_work identity id body now = do
  user ← require identity Refusal.authentication_required
  event_id ← require_cancel_id id
  found ← gets (λ db. find_event event_id db.events)
  event ← require found Refusal.event_not_found
  throw_if (not (may_cancel user event)) Refusal.cancel_forbidden
  throw_if (not (is_confirmed body)) Refusal.cancel_not_confirmed
  cancel_inside user event_id now false

unfoldable pub cancel :
    Option AuthenticatedUser → RouteId → Confirmation → ℕ → Db → Result StatusView × Db
cancel identity id body now db = transaction (cancel_work identity id body now) db
