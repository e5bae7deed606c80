-- ===== src/Registrations/Registering.antt =====
-- RegistrationsService.register (backend/src/registrations/registrations.service.ts).
pub mod Outcomes
pub mod Success
use is212_g5_t.Base.{
  ℕ, String, Bool, true, false, Option, none, some, ◌∷◌, [], ◌++◌, leb, if◌then◌else◌, find_by,
  update_where,
}
use is212_g5_t.Schema.{
  Event, Registration, RegistrationStatus, Db, AuthenticatedUser, RouteId, Refusal, Result, ok, err,
  find_event, has_key, registered_count,
}
use is212_g5_t.Transaction.{
  M, ◌>>=◌, ◌>>◌, return, throw, throw_if, gets, writes, require, transaction,
}
use is212_g5_t.Registrations.Upsert.{upsert}
use is212_g5_t.Registrations.{
  RegistrationView, Env, window_of, registration_window_state, check_window, require_visible,
  require_attendee, require_event_id, check_existing, view_of,
}

-- What validateRegistration lets through.
pub record RegistrationInput : Type 0 where
  pub full_name : String
  pub email : String
  pub contact_number : Option String
  pub special_requirements : Option String

abbrev pub lift : {A : Type 0} → Result A → M A
lift (ok a) = return a
lift (err e) = throw e

-- INSERT of a new row.
abbrev pub new_registration : ℕ → ℕ → RegistrationInput → Env → Registration
new_registration event_id attendee_id input env = record {
  id = env.new_id;
  event_id = event_id;
  attendee_id = attendee_id;
  status = RegistrationStatus.registered;
  full_name = some input.full_name;
  email = some input.email;
  contact_number = input.contact_number;
  special_requirements = input.special_requirements;
  withdrawn_at = none;
  created_at = env.sql_now;
  updated_at = env.sql_now;
  cancellation_reason = none;
  joined_at = none;
  waitlist_seq = none;
  removed_at = none;
  registered_at = none;
}

-- ON CONFLICT DO UPDATE: the same row, registered again.
abbrev pub reactivate : RegistrationInput → Env → Registration → Registration
reactivate input env r = record r {
  status = RegistrationStatus.registered;
  full_name = some input.full_name;
  email = some input.email;
  contact_number = input.contact_number;
  special_requirements = input.special_requirements;
  withdrawn_at = none;
  created_at = env.sql_now;
  updated_at = env.sql_now;
  joined_at = none;
  waitlist_seq = none;
  removed_at = none;
  registered_at = some env.sql_now;
}

-- WHERE event_registrations.status IN ('Withdrawn', 'Removed').
abbrev pub reactivates : RegistrationStatus → Bool
reactivates RegistrationStatus.withdrawn = true
reactivates RegistrationStatus.removed = true
reactivates _ = false

-- INSERT ... ON CONFLICT (event_id, attendee_id) DO UPDATE ... RETURNING *.
unfoldable pub save_registration : ℕ → ℕ → RegistrationInput → Env → Db → Option Registration × Db
unfolding upsert
save_registration event_id attendee_id input env db =
    upsert (new_registration event_id attendee_id input env) reactivates (reactivate input env) db

-- The transaction, once the event is found and visible.
unfoldable pub register_for : Event → ℕ → ℕ → RegistrationInput → Env → M RegistrationView
register_for event event_id attendee_id input env = do
  check_window (registration_window_state (window_of event) env.now)
  existing ← gets (λ db. find_by (has_key event_id attendee_id) db.registrations)
  check_existing existing
  taken ← gets (λ db. registered_count event_id db.registrations)
  throw_if (leb event.registration_limit taken) Refusal.registration_full
  saved ← writes (save_registration event_id attendee_id input env)
  row ← require saved Refusal.already_registered
  return (view_of row event.event_name none)

unfoldable pub register_work :
    Option AuthenticatedUser → RouteId → Result RegistrationInput → Env → M RegistrationView
register_work identity id validated env = do
  attendee ← require_attendee identity
  event_id ← require_event_id id
  input ← lift validated
  found ← gets (λ db. find_event event_id db.events)
  event ← require_visible found
  register_for event event_id attendee.uid input env

unfoldable pub register :
    Option AuthenticatedUser
    → RouteId
    → Result RegistrationInput
    → Env
    → Db
    → Result RegistrationView × Db
register identity id validated env db = transaction (register_work identity id validated env) db
