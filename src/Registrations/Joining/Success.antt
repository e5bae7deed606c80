-- ===== src/Registrations/Joining/Success.antt =====
-- A join that succeeds, at the back of the waiting list (RegistrationsService.joinWaitlist).
use is212_g5_t.Base.{
  ℕ, suc, ◌+◌, ◌≤◌, ◌≡◌, refl, ap, true, false, ◌&&◌, ◌||◌, none, some, [], ◌∷◌, ◌++◌, ◌==◌, arith,
  any, find_by, find_by-Has, Has, count_if, count_if-append, count_if-congr-Has, ltb, some_eq,
  ==_iff,
}
use is212_g5_t.Schema.{
  Event, Registration, RegistrationStatus, Account, Db, AuthenticatedUser, uuid, ok, is_attendee,
  find_event, has_key, waits, registered_count, waitlisted_count,
}
use is212_g5_t.Transaction.{transaction}
use is212_g5_t.Waitlist.{event_due, settle_locked, row_lt, waitlist_position}
use is212_g5_t.Waitlist.Settling.{settle_locked_cases}
use is212_g5_t.Waitlist.Order.{row_lt_irrefl}
use is212_g5_t.Registrations.Upsert.{upsert}
use is212_g5_t.Registrations.{
  Env, absent, window_of, registration_window_state, is_registration_open, check_window,
  check_existing, require_attendee, require_event_id, require_empty_body, require_visible,
}
use is212_g5_t.Registrations.Registering.Success.{is_open_now, open-attendee_visible}
use is212_g5_t.Registrations.Joining.{
  waiting_entry, save_waiting, join_for, join_work, join_waitlist,
}

-- The list of an open window is not due.
open-event_due :
    (e : Event) (now : ℕ) → is_registration_open (window_of e) now ≡ true → event_due now e ≡ false
unfolding is_registration_open registration_window_state event_due
open-event_due e now h = ground arith

abbrev pub joined : ℕ → Account → Env → Db → Db
joined event_id account env db = record db {
  registrations = db.registrations ++ (waiting_entry event_id account db.waitlist_seq env ∷ []);
  waitlist_seq = suc db.waitlist_seq;
}

saved :
    (event_id : ℕ) (account : Account) (env : Env) (db : Db) (uid : ℕ)
    → find_by (λ (u : Account). u.id == uid) db.users ≡ some account
    → find_by (has_key event_id uid) db.registrations ≡ none
    → save_waiting event_id uid env db
      ≡ (some (waiting_entry event_id account db.waitlist_seq env), joined event_id account env db)
unfolding save_waiting upsert
saved event_id account env db uid known new =
    let same : account.id ≡ uid =
      (==_iff account.id uid).0
        (find_by-Has (λ (u : Account). u.id == uid) db.users account known).1 in
    let free : find_by (has_key event_id account.id) db.registrations ≡ none = rw same new in
    rw (known, free) refl

module _ (event_id : ℕ) (account : Account) (env : Env) (db : Db) where
  abbrev entry : Registration
  entry = waiting_entry event_id account db.waitlist_seq env

  last_position :
      ((o : Registration)
        → Has o db.registrations
        → waits event_id o ≡ true
        → row_lt o entry ≡ true)
      → waitlist_position (joined event_id account env db).registrations entry
        ≡ some (waitlisted_count event_id db.registrations + 1)
  unfolding waitlist_position
  last_position before = ap some (
      omega (
        arith,
        count_if-append (λ o. waits event_id o && row_lt o entry) db.registrations (entry ∷ []),
        count_if-congr-Has (λ o. waits event_id o && row_lt o entry) (waits event_id)
            db.registrations (λ o m. ground (arith, before o m)),
        itself,
      ))
    where
      itself : count_if (λ o. waits event_id o && row_lt o entry) (entry ∷ []) ≡ 0
      itself = ground (arith, row_lt_irrefl entry)

-- An attendee without an entry, who neither organises nor coordinates the event, joins the waiting
-- list of a full, open event whose waiting entries all joined before: the call succeeds, the entry is
-- added to the others, which stay as they are, and it takes the last position.
pub join_waitlist_lem :
    (user : AuthenticatedUser) (event_id : ℕ) (env : Env) (db : Db) (e : Event) (account : Account)
    → any is_attendee user.roles ≡ true
    → find_event event_id db.events ≡ some e
    → (e.organiser_id == user.uid || some_eq e.coordinator_id user.uid) ≡ false
    → is_registration_open (window_of e) env.now ≡ true
    → find_by (has_key event_id user.uid) db.registrations ≡ none
    → e.registration_limit ≤ registered_count event_id db.registrations
    → find_by (λ (u : Account). u.id == user.uid) db.users ≡ some account
    → ((o : Registration)
        → Has o db.registrations
        → waits event_id o ≡ true
        → row_lt o (waiting_entry event_id account db.waitlist_seq env) ≡ true)
    → join_waitlist (some user) (uuid event_id) absent env db ≡ (
      ok (record {
        registration_id = env.new_id;
        status = RegistrationStatus.waitlisted;
        position = some (waitlisted_count event_id db.registrations + 1);
        event_name = e.event_name;
      }),
      joined event_id account env db,
    )
unfolding join_waitlist join_work join_for require_attendee require_event_id require_empty_body
    require_visible is_registration_open check_window check_existing transaction
join_waitlist_lem user event_id env db e account attends found other open_window new full known
      before =
    let visible = open-attendee_visible e env.now open_window in
    let state = is_open_now (registration_window_state (window_of e) env.now) open_window in
    let still : settle_locked event_id env.now db ≡ (0, db) =
      (settle_locked_cases event_id env.now db e found).1 (open-event_due e env.now open_window) in
    let taken : ltb (registered_count event_id db.registrations) e.registration_limit ≡ false =
      ground arith in
    rw
      (
        attends,
        found,
        visible,
        other,
        still,
        state,
        new,
        taken,
        saved event_id account env db user.uid known new,
        last_position event_id account env db before,
      )
      refl
