-- ===== src/Registrations/Joining.antt =====
-- RegistrationsService.joinWaitlist (backend/src/registrations/registrations.service.ts).
pub mod Outcomes
pub mod Success
use is212_g5_t.Base.{
  ℕ, suc, String, Bool, true, false, Option, none, some, ◌==◌, ◌||◌, ltb, some_eq, if◌then◌else◌,
  find_by,
}
use is212_g5_t.Schema.{
  Event, Registration, RegistrationStatus, Account, Db, AuthenticatedUser, RouteId, Refusal, Result,
  find_event, has_key, registered_count,
}
use is212_g5_t.Transaction.{M, ◌>>=◌, ◌>>◌, return, throw_if, gets, writes, require, transaction}
use is212_g5_t.Waitlist.{settle_locked, waitlist_position}
use is212_g5_t.Registrations.Upsert.{upsert}
use is212_g5_t.Registrations.{
  Env, Body, window_of, registration_window_state, check_window, require_visible, require_attendee,
  require_event_id, require_empty_body, check_existing,
}

pub record WaitlistView : Type 0 where
  pub registration_id : ℕ
  pub status : RegistrationStatus
  pub position : Option ℕ
  pub event_name : String

-- The row that the INSERT would add, with the sequence's next value.
abbrev pub waiting_entry : ℕ → Account → ℕ → Env → Registration
waiting_entry event_id user seq env = record {
  id = env.new_id;
  event_id = event_id;
  attendee_id = user.id;
  status = RegistrationStatus.waitlisted;
  full_name = some user.display_name;
  email = some user.email;
  contact_number = none;
  special_requirements = none;
  withdrawn_at = none;
  created_at = env.sql_now;
  updated_at = env.sql_now;
  cancellation_reason = none;
  joined_at = some env.now;
  waitlist_seq = some seq;
  removed_at = none;
  registered_at = none;
}

-- A rejoin goes to the back of the list.
abbrev pub rejoin : ℕ → Env → Registration → Registration
rejoin seq env r = record r {
  status = RegistrationStatus.waitlisted;
  joined_at = some env.now;
  waitlist_seq = some seq;
  withdrawn_at = none;
  removed_at = none;
  registered_at = none;
  updated_at = env.now;
}

-- WHERE event_registrations.status IN ('Withdrawn', 'Removed', 'Cancelled').
abbrev pub rejoins : RegistrationStatus → Bool
rejoins RegistrationStatus.withdrawn = true
rejoins RegistrationStatus.removed = true
rejoins RegistrationStatus.cancelled = true
rejoins _ = false

-- INSERT ... SELECT FROM users: the sequence moves on for the row that is selected.
abbrev save_for : ℕ → Env → Option Account → Db → Option Registration × Db
save_for event_id env none db = (none, db)
save_for event_id env (some user) db =
    let (saved, db') =
      upsert (waiting_entry event_id user db.waitlist_seq env) rejoins (rejoin db.waitlist_seq env)
        db in
    (saved, record db' { waitlist_seq = suc db.waitlist_seq })

unfoldable pub save_waiting : ℕ → ℕ → Env → Db → Option Registration × Db
unfolding upsert
save_waiting event_id attendee_id env db =
    save_for event_id env (find_by (λ (u : Account). u.id == attendee_id) db.users) db

unfoldable pub join_for : Event → ℕ → ℕ → Env → M WaitlistView
join_for event event_id attendee_id env = do
  throw_if (event.organiser_id == attendee_id || some_eq event.coordinator_id attendee_id)
      Refusal.waitlist_not_permitted
  writes (settle_locked event_id env.now)
  check_window (registration_window_state (window_of event) env.now)
  existing ← gets (λ db. find_by (has_key event_id attendee_id) db.registrations)
  check_existing existing
  taken ← gets (λ db. registered_count event_id db.registrations)
  throw_if (ltb taken event.registration_limit) Refusal.waitlist_not_available
  saved ← writes (save_waiting event_id attendee_id env)
  row ← require saved Refusal.already_on_waitlist
  position ← gets (λ db. waitlist_position db.registrations row)
  return (record {
    registration_id = row.id;
    status = RegistrationStatus.waitlisted;
    position = position;
    event_name = event.event_name;
  })

unfoldable pub join_work : Option AuthenticatedUser → RouteId → Body → Env → M WaitlistView
join_work identity id body env = do
  attendee ← require_attendee identity
  require_empty_body body
  event_id ← require_event_id id
  found ← gets (λ db. find_event event_id db.events)
  event ← require_visible found
  join_for event event_id attendee.uid env

unfoldable pub join_waitlist :
    Option AuthenticatedUser → RouteId → Body → Env → Db → Result WaitlistView × Db
join_waitlist identity id body env db = transaction (join_work identity id body env) db
