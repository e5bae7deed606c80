-- ===== src/Registrations/Withdrawing.antt =====
-- RegistrationsService.withdraw (backend/src/registrations/registrations.service.ts,
-- withdrawal/event-start.ts).
pub mod Outcomes
pub mod Validity
pub mod HandOver
use mathlib.Core.Option
use is212_g5_t.Base.{
  ℕ, String, Bool, true, false, Option, none, some, List, ◌==◌, ◌&&◌, leb, if◌then◌else◌, find_by,
  update_where, ltb,
}
use is212_g5_t.Schema.{
  Event, EventStatus, Registration, RegistrationStatus, Db, AuthenticatedUser, RouteId, uuid,
  malformed, Refusal, Result, ok, err, find_event, has_id, has_key, is_registered, is_waitlisted,
}
use is212_g5_t.Transaction.{
  M, ◌>>=◌, ◌>>◌, return, throw, throw_if, gets, writes, require, transaction,
}
use is212_g5_t.Waitlist.{settle_locked, settle_if_due, fill_free_spots, waitlist_position}
use is212_g5_t.Registrations.{
  Body, RegistrationView, require_attendee, require_event_id, require_empty_body, attendee_visible,
  view_of,
}

unfoldable pub has_event_started : Event → ℕ → Bool
has_event_started e now = leb e.start_date_time now

abbrev pub require_registration_id : RouteId → M ℕ
require_registration_id (uuid id) = return id
require_registration_id malformed = throw Refusal.registration_not_found

-- The caller's own row joined to its event.
abbrev pub with_event : Registration → Option Event → Option (Registration × Event)
with_event r none = none
with_event r (some e) = some (r, e)

abbrev pub join_event : List Event → Option Registration → Option (Registration × Event)
join_event events none = none
join_event events (some r) = with_event r (find_event r.event_id events)

abbrev pub find_own : ℕ → ℕ → Db → Option (Registration × Event)
find_own registration_id uid db =
    join_event db.events
      (find_by (λ r. has_id registration_id r && r.attendee_id == uid) db.registrations)

abbrev pub read_status : ℕ → Db → Option RegistrationStatus
read_status registration_id db =
    Option.map (λ (r : Registration). r.status) (find_by (has_id registration_id) db.registrations)

-- A waiting entry is settled, and its status is read again.
abbrev pub settle_if_waiting : Option RegistrationStatus → ℕ → ℕ → ℕ → M (Option RegistrationStatus)
settle_if_waiting (some RegistrationStatus.waitlisted) registration_id event_id now = do
  writes (settle_locked event_id now)
  gets (read_status registration_id)
settle_if_waiting status registration_id event_id now = return status

abbrev pub mark_withdrawn : ℕ → Registration → Registration
mark_withdrawn now r = record r {
  status = RegistrationStatus.withdrawn;
  withdrawn_at = some now;
  updated_at = now;
}

abbrev pub own_in : (RegistrationStatus → Bool) → ℕ → ℕ → Registration → Bool
own_in seen registration_id uid r =
    has_id registration_id r && (r.attendee_id == uid && seen r.status)

-- The compare-and-set UPDATE ... WHERE id AND attendee_id AND status RETURNING *.
unfoldable pub compare_and_withdraw :
    (RegistrationStatus → Bool) → ℕ → ℕ → ℕ → Db → Option Registration × Db
compare_and_withdraw seen registration_id uid now db = (
  Option.map (mark_withdrawn now) (find_by (own_in seen registration_id uid) db.registrations),
  record db {
    registrations =
        update_where (own_in seen registration_id uid) (mark_withdrawn now) db.registrations;
  },
)

unfoldable pub leave_list : ℕ → ℕ → Event → ℕ → M (Result RegistrationView)
leave_list registration_id uid event now = do
  throw_if (has_event_started event now) Refusal.event_already_occurred
  left ← writes (compare_and_withdraw is_waitlisted registration_id uid now)
  row ← require left Refusal.already_withdrawn
  return (ok (view_of row event.event_name none))

unfoldable pub release_place : ℕ → ℕ → ℕ → Event → ℕ → M (Result RegistrationView)
release_place registration_id uid event_id event now = do
  throw_if (has_event_started event now) Refusal.event_already_occurred
  updated ← writes (compare_and_withdraw is_registered registration_id uid now)
  row ← require updated Refusal.already_withdrawn
  writes (fill_free_spots event_id now)
  return (ok (view_of row event.event_name none))

-- What a Cancelled entry is refused with.
abbrev cancelled_refusal : EventStatus → Refusal
cancelled_refusal EventStatus.cancelled = Refusal.event_cancelled
cancelled_refusal _ = Refusal.not_withdrawable

-- The branches on the status that is read under the lock. A refusal that is returned, not thrown,
-- keeps the settling that came before it.
unfoldable pub decide_withdrawal :
    Option RegistrationStatus → ℕ → ℕ → ℕ → Event → ℕ → M (Result RegistrationView)
decide_withdrawal (some RegistrationStatus.cancelled) registration_id uid event_id event now =
    return (err (cancelled_refusal event.status))
decide_withdrawal (some RegistrationStatus.removed) registration_id uid event_id event now =
    return (err Refusal.not_withdrawable)
decide_withdrawal (some RegistrationStatus.waitlisted) registration_id uid event_id event now =
    leave_list registration_id uid event now
decide_withdrawal (some RegistrationStatus.registered) registration_id uid event_id event now =
    release_place registration_id uid event_id event now
decide_withdrawal _ registration_id uid event_id event now = return (err Refusal.already_withdrawn)

unfoldable pub withdraw_found : ℕ → ℕ → Registration → Event → ℕ → M (Result RegistrationView)
withdraw_found registration_id uid current event now = do
  first ← gets (read_status registration_id)
  status ← settle_if_waiting first registration_id current.event_id now
  decide_withdrawal status registration_id uid current.event_id event now

unfoldable pub withdraw_work :
    Option AuthenticatedUser → RouteId → Body → ℕ → M (Result RegistrationView)
withdraw_work identity id body now = do
  user ← require identity Refusal.authentication_required
  require_empty_body body
  registration_id ← require_registration_id id
  found ← gets (find_own registration_id user.uid)
  current ← require found Refusal.registration_not_found
  withdraw_found registration_id user.uid current.0 current.1 now

-- `if ('refused' in outcome) throw outcome.refused`, after the commit.
abbrev pub thrown_late : Result (Result RegistrationView) × Db → Result RegistrationView × Db
thrown_late (err e, db) = (err e, db)
thrown_late (ok r, db) = (r, db)

unfoldable pub withdraw :
    Option AuthenticatedUser → RouteId → Body → ℕ → Db → Result RegistrationView × Db
withdraw identity id body now db = thrown_late (transaction (withdraw_work identity id body now) db)
