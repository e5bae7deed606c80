-- ===== src/Registrations/Registering/Success.antt =====
-- A registration that succeeds (RegistrationsService.register).
use is212_g5_t.Base.{
  ℕ, ◌+◌, ◌<◌, ◌≡◌, refl, ap, ◌∙◌, true, false, none, some, [], ◌∷◌, ◌++◌, arith, any, find_by,
  count_if, count_if-append, leb,
}
use is212_g5_t.Schema.{
  Event, Db, AuthenticatedUser, uuid, ok, Result, is_attendee, find_event, has_key, holds_place,
  registered_count,
}
use is212_g5_t.Transaction.{transaction}
use is212_g5_t.Registrations.Upsert.{upsert}
use is212_g5_t.Registrations.{
  Env, WindowState, open_now, is_open, window_of, registration_window_state, is_registration_open,
  check_window, check_existing, require_attendee, require_event_id, require_visible,
  attendee_visible, view_of, RegistrationView,
}
use is212_g5_t.Registrations.Registering.{
  RegistrationInput, new_registration, save_registration, register_for, register_work, register,
}

pub is_open_now : (s : WindowState) → is_open s ≡ true → s ≡ open_now
is_open_now s h = ground arith

-- An open window is one of a Confirmed event, which attendees see.
pub open-attendee_visible :
    (e : Event) (now : ℕ)
    → is_registration_open (window_of e) now ≡ true
    → attendee_visible e.status ≡ true
unfolding is_registration_open registration_window_state
open-attendee_visible e now h = ground arith

one_more :
    (event_id uid : ℕ) (input : RegistrationInput) (env : Env)
    → count_if (holds_place event_id) (new_registration event_id uid input env ∷ []) ≡ 1
one_more event_id uid input env = ground arith

saved :
    (event_id uid : ℕ) (input : RegistrationInput) (env : Env) (db : Db)
    → find_by (has_key event_id uid) db.registrations ≡ none
    → save_registration event_id uid input env db ≡ (
      some (new_registration event_id uid input env),
      record db {
        registrations = db.registrations ++ (new_registration event_id uid input env ∷ []);
      },
    )
unfolding save_registration upsert
saved event_id uid input env db new = rw new refl

-- An attendee without an entry registers for an open event with a free place: the call succeeds, the
-- new row is added to the others, which stay as they are, and one place more is held.
pub register_lem :
    (user : AuthenticatedUser) (event_id : ℕ) (input : RegistrationInput) (env : Env) (db : Db)
    (e : Event)
    → any is_attendee user.roles ≡ true
    → find_event event_id db.events ≡ some e
    → is_registration_open (window_of e) env.now ≡ true
    → find_by (has_key event_id user.uid) db.registrations ≡ none
    → registered_count event_id db.registrations < e.registration_limit
    → let row = new_registration event_id user.uid input env in
      let out = register (some user) (uuid event_id) (ok input) env db in
      (out ≡ (
        ok (view_of row e.event_name none),
        record db { registrations = db.registrations ++ (row ∷ []) },
      ))
      × (registered_count event_id out.1.registrations
          ≡ registered_count event_id db.registrations + 1)
unfolding register register_work register_for require_attendee require_event_id require_visible
    is_registration_open check_window check_existing transaction
register_lem user event_id input env db e attends found open_window new room =
    let row = new_registration event_id user.uid input env in
    let visible = open-attendee_visible e env.now open_window in
    let state = is_open_now (registration_window_state (window_of e) env.now) open_window in
    let free : leb e.registration_limit (registered_count event_id db.registrations) ≡ false =
      ground arith in
    let run : register (some user) (uuid event_id) (ok input) env db ≡ (
      ok (view_of row e.event_name none),
      record db { registrations = db.registrations ++ (row ∷ []) },
    ) =
      rw (attends, found, visible, state, new, free, saved event_id user.uid input env db new)
        refl in
    (
      run,
      ap (λ (o : Result RegistrationView × Db). registered_count event_id o.1.registrations) run
          ∙ omega (
            arith,
            count_if-append (holds_place event_id) db.registrations (row ∷ []),
            one_more event_id user.uid input env,
          ),
    )
