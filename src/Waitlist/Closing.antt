-- ===== src/Waitlist/Closing.antt =====
-- The registration close job (backend/src/registrations/waitlist/close-job.ts).
use is212_g5_t.Base.{
  ℕ, ◌+◌, ◌≡◌, refl, sym, ◌∙◌, inl, inr, Bool, true, false, ◌&&◌, ◌||◌, List, [], ◌∷◌, ◌==◌, arith,
  any, count_if, count_if-congr, count_if-congr-Has, update_where, update_where_none, Has,
}
use is212_g5_t.Schema.{Event, Registration, Db}
use is212_g5_t.Waitlist.{
  due_waitlist, due_of, mark_removed, settle_locked, add_distinct, due_events, settle_each,
  run_registration_close_job,
}
use is212_g5_t.Waitlist.Settling.{settle_if_due-eq-settle_locked}

abbrev lists : List ℕ → ℕ → Bool
lists ids id = any (λ i. i == id) ids

-- Two updates by one function, the second not reaching what the first has changed.
update_where-twice :
    {A : Type 0} (p q : A → Bool) (f : A → A) (xs : List A)
    → ((x : A) → p x ≡ true → q (f x) ≡ false)
    → update_where q f (update_where p f xs) ≡ update_where (λ x. p x || q x) f xs
update_where-twice p q f [] h = refl
update_where-twice p q f (x ∷ xs) h = ground (arith, h x, update_where-twice p q f xs h)

count_if-or :
    {A : Type 0} (p q : A → Bool) (f : A → A) (xs : List A)
    → ((x : A) → p x ≡ true → q (f x) ≡ false)
    → count_if p xs + count_if q (update_where p f xs) ≡ count_if (λ x. p x || q x) xs
count_if-or p q f [] h = refl
count_if-or p q f (x ∷ xs) h = ground (arith, h x, count_if-or p q f xs h)

update_where-congr_Has :
    {A : Type 0} (p q : A → Bool) (f : A → A) (xs : List A)
    → ((x : A) → Has x xs → p x ≡ q x)
    → update_where p f xs ≡ update_where q f xs
update_where-congr_Has p q f [] h = refl
update_where-congr_Has p q f (x ∷ xs) h =
    ground (arith, h x (inl refl), update_where-congr_Has p q f xs (λ y m. h y (inr m)))

abbrev listed_due : List ℕ → List Event → ℕ → Registration → Bool
listed_due ids events now r = lists ids r.event_id && due_waitlist events now r

count_if-nothing : (rows : List Registration) → count_if (λ r. false) rows ≡ 0
count_if-nothing [] = refl
count_if-nothing (r ∷ rows) = omega (arith, count_if-nothing rows)

with_rows :
    (db : Db) {n m : ℕ} {rows rows' : List Registration}
    → n ≡ m
    → rows ≡ rows'
    → ◌≡◌ {A = ℕ × Db}
        (n, record db { registrations = rows })
        (m, record db { registrations = rows' })
with_rows db p q = λ i. (p i, record db { registrations = q i })

listed_due-cons :
    (id : ℕ) (ids : List ℕ) (events : List Event) (now : ℕ) (r : Registration)
    → (due_of id events now r || listed_due ids events now r) ≡ listed_due (id ∷ ids) events now r
listed_due-cons id ids events now r = ground arith

due_of-marked :
    (ids : List ℕ) (events : List Event) (now : ℕ) (r : Registration)
    → listed_due ids events now (mark_removed now r) ≡ false
unfolding due_waitlist
due_of-marked ids events now r = ground arith

-- Settling the listed events, one transaction each, is one update of their due rows.
settle_each_lem :
    (ids : List ℕ) (now : ℕ) (db : Db)
    → settle_each ids now db ≡ (
      count_if (listed_due ids db.events now) db.registrations,
      record db {
        registrations =
            update_where (listed_due ids db.events now) (mark_removed now) db.registrations;
      },
    )
unfolding settle_each settle_locked
settle_each_lem [] now db =
    let idle = count_if-nothing db.registrations in
    with_rows db (sym idle) (
      sym
        (update_where_none (listed_due [] db.events now) (mark_removed now) db.registrations idle))
settle_each_lem (id ∷ ids) now db =
    let p = due_of id db.events now in
    let q = listed_due ids db.events now in
    let disjoint = λ (r : Registration) (h : p r ≡ true). due_of-marked ids db.events now r in
    let rows = db.registrations in
    rw (settle_if_due-eq-settle_locked id now db) (
      rw (settle_each_lem ids now (settle_locked id now db).1) (
        with_rows db
          (count_if-or p q (mark_removed now) rows disjoint
            ∙ count_if-congr _ _ rows (listed_due-cons id ids db.events now))
          (update_where-twice p q (mark_removed now) rows disjoint
            ∙ update_where-congr_Has _ _ (mark_removed now) rows
                (λ r m. listed_due-cons id ids db.events now r))))

any_found : (id k : ℕ) (ids : List ℕ) → lists ids id ≡ true → id ≡ k → lists ids k ≡ true
any_found id k ids h e = rw (← e) h

lists-add_distinct :
    (id k : ℕ) (ids : List ℕ)
    → (lists ids k || k == id) ≡ true
    → lists (add_distinct id ids) k ≡ true
lists-add_distinct id k ids h = ground (arith, any_found id k ids)

lists-due_events :
    (events : List Event) (now : ℕ) (rows : List Registration) (r : Registration)
    → Has r rows
    → due_waitlist events now r ≡ true
    → lists (due_events events now rows) r.event_id ≡ true
unfolding due_events
lists-due_events events now [] r m d = absurd m
lists-due_events events now (x ∷ rows) r (inl e) d =
    ground (arith, lists-add_distinct x.event_id r.event_id (due_events events now rows))
lists-due_events events now (x ∷ rows) r (inr m) d = ground (
  arith,
  lists-due_events events now rows r m d,
  lists-add_distinct x.event_id r.event_id (due_events events now rows),
)

-- The close job removes every due waiting entry of every event, changes nothing else, and reports
-- how many it removed.
pub run_registration_close_job_lem :
    (now : ℕ) (db : Db)
    → run_registration_close_job now db ≡ (
      count_if (due_waitlist db.events now) db.registrations,
      record db {
        registrations =
            update_where (due_waitlist db.events now) (mark_removed now) db.registrations;
      },
    )
unfolding run_registration_close_job
run_registration_close_job_lem now db =
    let ids = due_events db.events now db.registrations in
    settle_each_lem ids now db
    ∙ with_rows db (count_if-congr-Has _ _ db.registrations (λ r m. every r m))
        (update_where-congr_Has _ _ (mark_removed now) db.registrations (λ r m. every r m))
  where
    every :
        (r : Registration)
        → Has r db.registrations
        → listed_due (due_events db.events now db.registrations) db.events now r
          ≡ due_waitlist db.events now r
    every r m = ground (arith, lists-due_events db.events now db.registrations r m)
