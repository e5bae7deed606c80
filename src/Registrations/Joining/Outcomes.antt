-- ===== src/Registrations/Joining/Outcomes.antt =====
-- What joining a waiting list leaves in the tables, on every branch of
-- RegistrationsService.joinWaitlist.
use native.Mathlib.Decide.{ℕ_discrete}
use is212_g5_t.Base.{
  ℕ, suc, ◌+◌, ◌≤◌, ◌≡◌, refl, ap, ◌⊎◌, inl, inr, Option, some, arith, ◌==◌, count_if, bit,
  Option-cases, find_by,
}
use is212_g5_t.Schema.{
  Event, Registration, Account, Db, AuthenticatedUser, RouteId, find_event, has_id, holds_place,
  waits, registered_count, waitlisted_count,
}
use is212_g5_t.Transaction.Reading.{after, transaction-after, reads_then, reads_before}
use is212_g5_t.Waitlist.{settle_locked}
use is212_g5_t.Waitlist.Settling.{settle_locked-has_id, settle_locked-events}
use is212_g5_t.Registrations.{
  Env, Body, check_window, check_existing, require_visible, require_attendee, require_event_id,
  require_empty_body,
}
use is212_g5_t.Registrations.Checks.{
  require_attendee-Reads, require_event_id-Reads, require_visible-Reads, require_visible_found,
  require_empty_body-Reads,
}
use is212_g5_t.Registrations.Upsert.{upsert, upsert_cases, Wrote, Wrote-UniqueIds, Wrote-UniqueKeys}
use is212_g5_t.Registrations.Invariant.{Valid, settle_locked-Valid}
use is212_g5_t.Registrations.Joining.{
  waiting_entry, rejoin, rejoins, save_waiting, join_for, join_work, join_waitlist,
}

join_for-after :
    (event : Event) (event_id attendee_id : ℕ) (env : Env) (db : Db)
    → (after db (join_for event event_id attendee_id env db) ≡ db)
      ⊎ ((event.registration_limit
            ≤ registered_count event_id (settle_locked event_id env.now db).1.registrations)
          × (after db (join_for event event_id attendee_id env db)
              ≡ (save_waiting event_id attendee_id env (settle_locked event_id env.now db).1).1))
unfolding join_for check_window check_existing
join_for-after event event_id attendee_id env db = ground arith

module _ (event_id : ℕ) (user : Account) (seq : ℕ) (env : Env) (db db' : Db)
    (w : Wrote (waiting_entry event_id user seq env) rejoins (rejoin seq env) db db') where
  joined-registered :
      (k : ℕ) → registered_count k db'.registrations ≡ registered_count k db.registrations
  joined-registered k = elim (w.counts (holds_place k)) [
    | inl (absent, c) ↦ ground arith
    | inr (old, t, s, c) ↦ ground arith
  ]

  joined-waiting :
      (k : ℕ)
      → waitlisted_count k db'.registrations
        ≡ waitlisted_count k db.registrations + bit (event_id == k)
  joined-waiting k = elim (w.counts (waits k)) [
    | inl (absent, c) ↦ ground arith
    | inr (old, t, s, c) ↦ ground arith
  ]

  joined-Valid :
      (event : Event)
      → Valid db
      → count_if (has_id env.new_id) db.registrations ≡ 0
      → find_event event_id db.events ≡ some event
      → event.registration_limit ≤ registered_count event_id db.registrations
      → Valid db'
  joined-Valid event v fresh found full = record {
    ids = Wrote-UniqueIds row rejoins (rejoin seq env) db db' w (λ r. refl) fresh v.ids;
    keys = Wrote-UniqueKeys row rejoins (rejoin seq env) db db' w (λ r. (refl, refl)) v.keys;
    capacity = λ k c f. rw (joined-registered k) (v.capacity k c (rw w.events at f));
    no_idle = λ k c f. no_place k c (rw w.events at f);
  }
    where
      row : Registration
      row = waiting_entry event_id user seq env

      no_place :
          (k : ℕ) (c : Event)
          → find_event k db.events ≡ some c
          → (waitlisted_count k db'.registrations ≡ 0)
            ⊎ (c.registration_limit ≤ registered_count k db'.registrations)
      no_place k c f = elim (ℕ_discrete event_id k) [
        | yes h ↦
            let same : event ≡ c = cc (found, f, ap (λ j. find_event j db.events) h) in
            inr (
              omega (
                arith,
                ap (λ (x : Event). x.registration_limit) same,
                ap (λ j. registered_count j db.registrations) h,
                joined-registered k,
              ))
        | no h ↦ ground (arith, joined-registered k, joined-waiting k, v.no_idle k c f)
      ]

save_waiting-Valid :
    (event : Event) (event_id attendee_id : ℕ) (env : Env) (db : Db)
    → Valid db
    → count_if (has_id env.new_id) db.registrations ≡ 0
    → find_event event_id db.events ≡ some event
    → event.registration_limit ≤ registered_count event_id db.registrations
    → Valid (save_waiting event_id attendee_id env db).1
unfolding save_waiting
save_waiting-Valid event event_id attendee_id env db v fresh found full =
    elim (Option-cases (find_by (λ (u : Account). u.id == attendee_id) db.users)) [
      | inl unknown ↦ rw unknown v
      | inr (user, known) ↦ rw known (
          moved
            (upsert (waiting_entry event_id user db.waitlist_seq env) rejoins
              (rejoin db.waitlist_seq env) db).1
            (elim (upsert_cases (waiting_entry event_id user db.waitlist_seq env) rejoins
              (rejoin db.waitlist_seq env) db v.keys) [
                | inl nothing ↦ rw nothing v
                | inr (saved, db', e, w) ↦ rw e (
                    joined-Valid event_id user db.waitlist_seq env db db' w event v fresh found
                      full)
              ]))
    ]
  where
    moved : (db' : Db) → Valid db' → Valid (record db' { waitlist_seq = suc db.waitlist_seq })
    moved db' v' = record {
      ids = v'.ids;
      keys = v'.keys;
      capacity = v'.capacity;
      no_idle = v'.no_idle;
    }

-- Whatever the request, joining a waiting list on valid tables, with a new id that no row has,
-- leaves them valid: ids and the pairs of event and attendee are unique, no event has more
-- registered attendees than its limit, and nobody waits while a place is free.
pub join_waitlist-Valid :
    (identity : Option AuthenticatedUser) (id : RouteId) (body : Body) (env : Env) (db : Db)
    → Valid db
    → count_if (has_id env.new_id) db.registrations ≡ 0
    → Valid (join_waitlist identity id body env db).1
unfolding join_waitlist join_work
join_waitlist-Valid identity id body env db v fresh =
    rw (transaction-after (join_work identity id body env) db) (
      reads_then Valid (require_attendee identity) db _ v (require_attendee-Reads identity db)
        λ attendee _.
          reads_before Valid (require_empty_body body) db _ v (require_empty_body-Reads body db)
            λ _ _.
              reads_then Valid (require_event_id id) db _ v (require_event_id-Reads id db)
                λ event_id _.
                  reads_then Valid (require_visible (find_event event_id db.events)) db _ v
                    (require_visible-Reads (find_event event_id db.events) db)
                    λ event found.
                      kept event event_id attendee.uid
                        (require_visible_found (find_event event_id db.events) event db found))
  where
    kept :
        (event : Event) (event_id attendee_id : ℕ)
        → find_event event_id db.events ≡ some event
        → Valid (after db (join_for event event_id attendee_id env db))
    kept event event_id attendee_id found =
        elim (join_for-after event event_id attendee_id env db) [
          | inl same ↦ rw same v
          | inr (full, wrote) ↦ rw wrote (
              save_waiting-Valid event event_id attendee_id env
                (settle_locked event_id env.now db).1 (settle_locked-Valid event_id env.now db v)
                (rw (settle_locked-has_id env.new_id event_id env.now db) fresh)
                (rw (settle_locked-events event_id env.now db) found) full)
        ]
