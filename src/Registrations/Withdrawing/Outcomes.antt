-- ===== src/Registrations/Withdrawing/Outcomes.antt =====
-- What a withdrawal leaves in the tables, on every branch of RegistrationsService.withdraw.
use is212_g5_t.Base.{
  ℕ, ◌≤◌, ◌≡◌, ◌≢◌, refl, ◌⊎◌, inl, inr, Bool, true, Option, none, some, List, arith,
  count_if-update_where, count_if-update_where_out, count_if-update_where-Has, Has,
  Has-update_where_back,
}
use is212_g5_t.Schema.{
  Event, Registration, RegistrationStatus, Db, find_event, has_id, has_key, holds_place, waits,
  is_registered, is_waitlisted, registered_count, waitlisted_count,
}
use is212_g5_t.Transaction.Reading.{after}
use is212_g5_t.Waitlist.{settle_locked, due_of, mark_removed, fill_free_spots}
use is212_g5_t.Registrations.Invariant.{Valid, ValidBut, fill_free_spots-Valid}
use is212_g5_t.Registrations.Withdrawing.{
  mark_withdrawn, own_in, compare_and_withdraw, leave_list, release_place, decide_withdrawal,
}

-- The row of an id belongs to an event.
abbrev pub RowOf : ℕ → ℕ → List Registration → Type 0
RowOf id event_id rows =
    (r : Registration) → Has r rows → has_id id r ≡ true → r.event_id ≡ event_id

pub settle_locked-RowOf :
    (id event_id j now : ℕ) (db : Db)
    → RowOf id event_id db.registrations
    → RowOf id event_id (settle_locked j now db).1.registrations
unfolding settle_locked
settle_locked-RowOf id event_id j now db row r m h =
    let (a, n, e) =
      Has-update_where_back (due_of j db.events now) (mark_removed now) db.registrations r m in
    ground (arith, row a n)

module _ (seen : RegistrationStatus → Bool) (id uid event_id now : ℕ) (db : Db)
    (row : RowOf id event_id db.registrations) where
  abbrev after_cas : Db
  after_cas = (compare_and_withdraw seen id uid now db).1

  cas-registered_le :
      (k : ℕ) → registered_count k after_cas.registrations ≤ registered_count k db.registrations
  unfolding compare_and_withdraw
  cas-registered_le k = omega (
    arith,
    count_if-update_where_out (holds_place k) (own_in seen id uid) (mark_withdrawn now)
        db.registrations (λ r h. ground arith),
  )

  cas-waiting_le :
      (k : ℕ) → waitlisted_count k after_cas.registrations ≤ waitlisted_count k db.registrations
  unfolding compare_and_withdraw
  cas-waiting_le k = omega (
    arith,
    count_if-update_where_out (waits k) (own_in seen id uid) (mark_withdrawn now) db.registrations
        (λ r h. ground arith),
  )

  cas-registered_other :
      (k : ℕ)
      → k ≢ event_id
      → registered_count k after_cas.registrations ≡ registered_count k db.registrations
  unfolding compare_and_withdraw
  cas-registered_other k ne =
      count_if-update_where-Has (holds_place k) (own_in seen id uid) (mark_withdrawn now)
        db.registrations (λ r m h. ground (arith, row r m))

  cas-ValidBut : Valid db → ValidBut event_id after_cas
  unfolding compare_and_withdraw
  cas-ValidBut v = record {
    ids = λ i.
        rw
          (count_if-update_where (has_id i) (own_in seen id uid) (mark_withdrawn now)
            db.registrations (λ r h. refl))
          (v.ids i);
    keys = λ k a.
        rw
          (count_if-update_where (has_key k a) (own_in seen id uid) (mark_withdrawn now)
            db.registrations (λ r h. refl))
          (v.keys k a);
    capacity = λ k e f. omega (arith, cas-registered_le k, v.capacity k e f);
    no_idle =
        λ k e ne f. omega (arith, cas-waiting_le k, cas-registered_other k ne, v.no_idle k e f);
  }

cas_waiting-Valid :
    (id uid event_id now : ℕ) (db : Db)
    → RowOf id event_id db.registrations
    → Valid db
    → Valid (compare_and_withdraw is_waitlisted id uid now db).1
unfolding compare_and_withdraw
cas_waiting-Valid id uid event_id now db row v =
    let b = cas-ValidBut is_waitlisted id uid event_id now db row v in
    record {
      ids = b.ids;
      keys = b.keys;
      capacity = b.capacity;
      no_idle = λ k e f. omega (
        arith,
        cas-waiting_le is_waitlisted id uid event_id now db row k,
        count_if-update_where (holds_place k) (own_in is_waitlisted id uid) (mark_withdrawn now)
            db.registrations (λ r h. ground arith),
        v.no_idle k e f,
      );
    }

leave_list-after :
    (id uid : ℕ) (event : Event) (now : ℕ) (db : Db)
    → (after db (leave_list id uid event now db) ≡ db)
      ⊎ (after db (leave_list id uid event now db)
          ≡ (compare_and_withdraw is_waitlisted id uid now db).1)
unfolding leave_list
leave_list-after id uid event now db = ground arith

release_place-after :
    (id uid event_id : ℕ) (event : Event) (now : ℕ) (db : Db)
    → (after db (release_place id uid event_id event now db) ≡ db)
      ⊎ (after db (release_place id uid event_id event now db)
          ≡ (fill_free_spots event_id now (compare_and_withdraw is_registered id uid now db).1).1)
unfolding release_place
release_place-after id uid event_id event now db = ground arith

module _ (id uid event_id : ℕ) (event e : Event) (now : ℕ) where
  leave_list-Valid :
      (db : Db)
      → RowOf id event_id db.registrations
      → Valid db
      → Valid (after db (leave_list id uid event now db))
  leave_list-Valid db row v = elim (leave_list-after id uid event now db) [
    | inl same ↦ rw same v
    | inr left ↦ rw left (cas_waiting-Valid id uid event_id now db row v)
  ]

  release_place-Valid :
      (db : Db)
      → RowOf id event_id db.registrations
      → find_event event_id db.events ≡ some e
      → Valid db
      → Valid (after db (release_place id uid event_id event now db))
  release_place-Valid db row found v = elim (release_place-after id uid event_id event now db) [
    | inl same ↦ rw same v
    | inr filled ↦ rw filled (
        fill_free_spots-Valid event_id now (compare_and_withdraw is_registered id uid now db).1 e
          (cas-ValidBut is_registered id uid event_id now db row v)
          (unfold compare_and_withdraw in found))
  ]

  pub decide_withdrawal-Valid :
      (status : Option RegistrationStatus) (db : Db)
      → RowOf id event_id db.registrations
      → find_event event_id db.events ≡ some e
      → Valid db
      → Valid (after db (decide_withdrawal status id uid event_id event now db))
  unfolding decide_withdrawal
  decide_withdrawal-Valid (some RegistrationStatus.waitlisted) db row found v =
      leave_list-Valid db row v
  decide_withdrawal-Valid (some RegistrationStatus.registered) db row found v =
      release_place-Valid db row found v
  decide_withdrawal-Valid (some RegistrationStatus.cancelled) db row found v = v
  decide_withdrawal-Valid (some RegistrationStatus.removed) db row found v = v
  decide_withdrawal-Valid (some RegistrationStatus.withdrawn) db row found v = v
  decide_withdrawal-Valid none db row found v = v
