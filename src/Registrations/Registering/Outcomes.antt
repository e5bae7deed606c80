-- ===== src/Registrations/Registering/Outcomes.antt =====
-- What a registration leaves in the tables, on every branch of RegistrationsService.register.
use is212_g5_t.Base.{
  ℕ, ◌+◌, ◌≤◌, ◌<◌, ◌≡◌, refl, ap, ◌⊎◌, inl, inr, Option, some, arith, ◌==◌, count_if, bit, bit-le,
}
use native.Mathlib.Decide.{ℕ_discrete}
use is212_g5_t.Schema.{
  Event, Registration, Db, AuthenticatedUser, RouteId, Result, ok, err, find_event, has_id,
  holds_place, waits, registered_count, waitlisted_count,
}
use is212_g5_t.Registrations.{
  Env, require_visible, require_attendee, require_event_id, check_window, check_existing,
}
use is212_g5_t.Registrations.Upsert.{upsert_cases, Wrote, Wrote-UniqueIds, Wrote-UniqueKeys}
use is212_g5_t.Transaction.Reading.{after, transaction-after, reads_then, Reads}
use is212_g5_t.Registrations.Checks.{
  require_attendee-Reads, require_event_id-Reads, require_visible-Reads, require_visible_found,
}
use is212_g5_t.Registrations.Invariant.{Valid}
use is212_g5_t.Registrations.Registering.{
  RegistrationInput, new_registration, reactivate, reactivates, save_registration, lift,
  register_for, register_work, register,
}

-- A registration writes nothing, or saves its row under a free place of an open, visible event.
register_for-after :
    (event : Event) (event_id attendee_id : ℕ) (input : RegistrationInput) (env : Env) (db : Db)
    → (after db (register_for event event_id attendee_id input env db) ≡ db)
      ⊎ ((registered_count event_id db.registrations < event.registration_limit)
          × (after db (register_for event event_id attendee_id input env db)
              ≡ (save_registration event_id attendee_id input env db).1))
unfolding register_for check_window check_existing
register_for-after event event_id attendee_id input env db = ground arith

module _ (event_id attendee_id : ℕ) (input : RegistrationInput) (env : Env) (db db' : Db)
    (w : Wrote
      (new_registration event_id attendee_id input env)
      reactivates
      (reactivate input env)
      db
      db') where
  -- The row takes one place of its event, and no place of another.
  saved-registered :
      (k : ℕ)
      → registered_count k db'.registrations
        ≡ registered_count k db.registrations + bit (event_id == k)
  saved-registered k = elim (w.counts (holds_place k)) [
    | inl (absent, c) ↦ ground arith
    | inr (old, t, s, c) ↦ ground arith
  ]

  -- It leaves no waiting list and joins none.
  saved-waiting :
      (k : ℕ) → waitlisted_count k db'.registrations ≡ waitlisted_count k db.registrations
  saved-waiting k = elim (w.counts (waits k)) [
    | inl (absent, c) ↦ ground arith
    | inr (old, t, s, c) ↦ ground arith
  ]

  saved-Valid :
      (event : Event)
      → Valid db
      → count_if (has_id env.new_id) db.registrations ≡ 0
      → find_event event_id db.events ≡ some event
      → registered_count event_id db.registrations < event.registration_limit
      → Valid db'
  saved-Valid event v fresh found room = record {
    ids = Wrote-UniqueIds row reactivates (reactivate input env) db db' w (λ r. refl) fresh v.ids;
    keys =
        Wrote-UniqueKeys row reactivates (reactivate input env) db db' w (λ r. (refl, refl)) v.keys;
    capacity = λ k c f. within k c (rw w.events at f);
    no_idle = λ k c f.
        omega (arith, saved-waiting k, saved-registered k, v.no_idle k c (rw w.events at f));
  }
    where
      row : Registration
      row = new_registration event_id attendee_id input env

      within :
          (k : ℕ) (c : Event)
          → find_event k db.events ≡ some c
          → registered_count k db'.registrations ≤ c.registration_limit
      within k c f = elim (ℕ_discrete event_id k) [
        | yes h ↦ omega (
          arith,
          ap (λ (x : Event). x.registration_limit)
              (let same : event ≡ c = cc (found, f, ap (λ j. find_event j db.events) h) in same),
          ap (λ j. registered_count j db.registrations) h,
          saved-registered k,
          bit-le (event_id == k),
        )
        | no h ↦ ground (arith, saved-registered k, v.capacity k c f)
      ]

lift-Reads : {A : Type 0} (r : Result A) (db : Db) → Reads db (lift r db)
lift-Reads (ok a) db = inl (a, refl)
lift-Reads (err e) db = inr (e, refl)

register_for-Valid :
    (event : Event) (event_id attendee_id : ℕ) (input : RegistrationInput) (env : Env) (db : Db)
    → Valid db
    → count_if (has_id env.new_id) db.registrations ≡ 0
    → find_event event_id db.events ≡ some event
    → Valid (after db (register_for event event_id attendee_id input env db))
unfolding save_registration
register_for-Valid event event_id attendee_id input env db v fresh found =
    elim (register_for-after event event_id attendee_id input env db) [
      | inl same ↦ rw same v
      | inr (room, wrote) ↦
          elim (upsert_cases (new_registration event_id attendee_id input env) reactivates
            (reactivate input env) db v.keys) [
              | inl nothing ↦ rw wrote (rw nothing v)
              | inr (saved, db', e, w) ↦ rw wrote (
                  rw e
                    (saved-Valid event_id attendee_id input env db db' w event v fresh found room))
            ]
    ]

-- Whatever the request, a registration on valid tables, with a new id that no row has, leaves
-- them valid: ids and the pairs of event and attendee are unique, no event has more registered
-- attendees than its limit, and nobody waits while a place is free.
pub register-Valid :
    (identity : Option AuthenticatedUser) (id : RouteId) (validated : Result RegistrationInput)
    (env : Env) (db : Db)
    → Valid db
    → count_if (has_id env.new_id) db.registrations ≡ 0
    → Valid (register identity id validated env db).1
unfolding register register_work
register-Valid identity id validated env db v fresh =
    rw (transaction-after (register_work identity id validated env) db) (
      reads_then Valid (require_attendee identity) db _ v (require_attendee-Reads identity db)
        λ attendee _.
          reads_then Valid (require_event_id id) db _ v (require_event_id-Reads id db) λ event_id _.
            reads_then Valid (lift validated) db _ v (lift-Reads validated db) λ input _.
              reads_then Valid (require_visible (find_event event_id db.events)) db _ v
                (require_visible-Reads (find_event event_id db.events) db)
                λ event found.
                  register_for-Valid event event_id attendee.uid input env db v fresh
                    (require_visible_found (find_event event_id db.events) event db found))
