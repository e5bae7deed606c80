-- ===== src/Waitlist/Settling.antt =====
-- What settling a waiting list changes (backend/src/registrations/waitlist/settle.ts).
use is212_g5_t.Base.{
  ℕ, ◌+◌, ◌≤◌, ◌≡◌, refl, ◌∙◌, Bool, true, false, some, List, [], ◌∷◌, ◌==◌, inl, inr, ◌&&◌, arith,
  Bool-cases, count_if, count_if-congr, any, update_where_none, count_if-update_where,
  count_if-update_where_out, ==_iff,
}
use is212_g5_t.Schema.{
  Event, Registration, Db, find_event, holds_place, waits, has_id, has_key, registered_count,
  waitlisted_count,
}
use is212_g5_t.Waitlist.{
  event_due, due_waitlist, due_of, mark_removed, settle_locked, settle_if_due,
}

pub settle_locked-registered :
    (k event_id now : ℕ) (db : Db)
    → registered_count k (settle_locked event_id now db).1.registrations
      ≡ registered_count k db.registrations
unfolding settle_locked due_waitlist
settle_locked-registered k event_id now db =
    count_if-update_where (holds_place k) (due_of event_id db.events now) (mark_removed now)
      db.registrations (λ r h. ground arith)

-- Settling keeps ids and keys.
pub settle_locked-has_id :
    (i event_id now : ℕ) (db : Db)
    → count_if (has_id i) (settle_locked event_id now db).1.registrations
      ≡ count_if (has_id i) db.registrations
unfolding settle_locked
settle_locked-has_id i event_id now db =
    count_if-update_where (has_id i) (due_of event_id db.events now) (mark_removed now)
      db.registrations (λ r h. refl)

pub settle_locked-has_key :
    (k a event_id now : ℕ) (db : Db)
    → count_if (has_key k a) (settle_locked event_id now db).1.registrations
      ≡ count_if (has_key k a) db.registrations
unfolding settle_locked
settle_locked-has_key k a event_id now db =
    count_if-update_where (has_key k a) (due_of event_id db.events now) (mark_removed now)
      db.registrations (λ r h. refl)

pub settle_locked-events :
    (event_id now : ℕ) (db : Db) → (settle_locked event_id now db).1.events ≡ db.events
unfolding settle_locked
settle_locked-events event_id now db = refl

-- Every entry that settling touches leaves the list, and none joins it.
pub settle_locked-waiting :
    (event_id now : ℕ) (db : Db)
    → waitlisted_count event_id (settle_locked event_id now db).1.registrations
        + (settle_locked event_id now db).0
      ≡ waitlisted_count event_id db.registrations
unfolding settle_locked due_waitlist
settle_locked-waiting event_id now db =
    let p = due_of event_id db.events now in
    omega (
      arith,
      count_if-update_where_out (waits event_id) p (mark_removed now) db.registrations
          (λ r h. ground arith),
      count_if-congr (λ r. p r && waits event_id r) p db.registrations (λ r. ground arith),
    )

-- No waiting list grows by settling.
pub settle_locked-le :
    (k event_id now : ℕ) (db : Db)
    → waitlisted_count k (settle_locked event_id now db).1.registrations
      ≤ waitlisted_count k db.registrations
unfolding settle_locked
settle_locked-le k event_id now db = omega (
  arith,
  count_if-update_where_out (waits k) (due_of event_id db.events now) (mark_removed now)
      db.registrations (λ r h. ground arith),
)

any-count {ℓ} : {A : Type ℓ} (p : A → Bool) (xs : List A) → any p xs ≡ false → count_if p xs ≡ 0
any-count p [] h = refl
any-count p (x ∷ xs) h = ground (arith, any-count p xs)

-- The lock-free check changes nothing: settling only when a row is due gives the same count and
-- the same database as settling always.
pub settle_if_due-eq-settle_locked :
    (event_id now : ℕ) (db : Db) → settle_if_due event_id now db ≡ settle_locked event_id now db
unfolding settle_if_due settle_locked
settle_if_due-eq-settle_locked event_id now db =
    let p = due_of event_id db.events now in
    elim (Bool-cases (any p db.registrations)) [
      | inl due ↦ rw due
      | inr idle ↦
          let zero_due = any-count p db.registrations idle in
          rw (idle, zero_due, update_where_none p (mark_removed now) db.registrations zero_due)
    ]

due_of-waits :
    (event_id now : ℕ) (events : List Event) (e : Event) (r : Registration)
    → find_event event_id events ≡ some e
    → due_of event_id events now r ≡ (waits event_id r && event_due now e)
unfolding due_waitlist
due_of-waits event_id now events e r found = elim (Bool-cases (r.event_id == event_id)) [
  | inl same ↦ let eq : r.event_id ≡ event_id = (==_iff _ _).0 same in rw (same, eq, found) refl
  | inr other ↦ rw other refl
]

count_if-false :
    (event_id : ℕ) (rows : List Registration) → count_if (λ r. waits event_id r && false) rows ≡ 0
count_if-false event_id [] = refl
count_if-false event_id (r ∷ rows) = ground (arith, count_if-false event_id rows)

-- For an event that exists: when its registration has closed or is switched off, settling leaves
-- nobody waiting for it; otherwise settling changes nothing at all.
pub settle_locked_cases :
    (event_id now : ℕ) (db : Db) (e : Event)
    → find_event event_id db.events ≡ some e
    → (event_due now e ≡ true
        → waitlisted_count event_id (settle_locked event_id now db).1.registrations ≡ 0)
      × (event_due now e ≡ false → settle_locked event_id now db ≡ (0, db))
unfolding settle_locked
settle_locked_cases event_id now db e found = (closed, open_list)
  where
    all_due :
        (b : Bool)
        → event_due now e ≡ b
        → count_if (due_of event_id db.events now) db.registrations
          ≡ count_if (λ r. waits event_id r && b) db.registrations
    all_due b h =
        count_if-congr _ _ db.registrations
          (λ r. rw (due_of-waits event_id now db.events e r found, h) refl)

    closed :
        event_due now e ≡ true
        → waitlisted_count event_id (settle_locked event_id now db).1.registrations ≡ 0
    closed h = omega (
      arith,
      settle_locked-waiting event_id now db,
      all_due true h,
      count_if-congr (λ r. waits event_id r && true) (waits event_id) db.registrations
          (λ r. ground arith),
    )

    open_list : event_due now e ≡ false → settle_locked event_id now db ≡ (0, db)
    open_list h =
        let zero_due : count_if (due_of event_id db.events now) db.registrations ≡ 0 =
          all_due false h ∙ count_if-false event_id db.registrations in
        rw (zero_due, update_where_none _ (mark_removed now) db.registrations zero_due) refl
