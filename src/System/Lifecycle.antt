-- ===== src/System/Lifecycle.antt =====
-- How far calls can move the status of an event (backend/src/events/status, registrations, venues).
pub mod Steps
pub mod Calls
pub mod Later
pub mod Final
use is212_g5_t.Base.{ℕ, ◌≡◌, refl, ap, ◌∙◌, inl, inr, some, Option, Bool}
use is212_g5_t.Schema.{Refusal, Event, EventStatus, Db, find_event}
use is212_g5_t.Transaction.{
  M, Outcome, done, thrown, ◌>>=◌, ◌>>◌, require, throw_if, gets, writes, return, transaction,
}
use is212_g5_t.Transaction.Reading.{Reads, throw_if-Reads, require-Reads, after, transaction-after}
use is212_g5_t.Status.Transitions.{Step}

-- A transition of the status endpoint, or the start of the planning, which is the work of a venue
-- request.
pub data Move : EventStatus → EventStatus → Type 0 where
  endpoint : (s t : EventStatus) → Step s t → Move s t
  plans : Move EventStatus.approved EventStatus.planning

-- Zero or more of these moves.
pub data Reaches : EventStatus → EventStatus → Type 0 where
  here : (s : EventStatus) → Reaches s s
  later : (r s t : EventStatus) → Move r s → Reaches s t → Reaches r t

pub Reaches-trans : (r s t : EventStatus) → Reaches r s → Reaches s t → Reaches r t
Reaches-trans r s t (here _) q = q
Reaches-trans r s t (later _ m _ step p) q = later r m t step (Reaches-trans m s t p q)

-- Every event of the first database is in the second, at a status that its own reaches.
abbrev pub Onward : Db → Db → Type 0
Onward db db' =
    (k : ℕ) (e : Event)
    → find_event k db.events ≡ some e
    → (e' : Event) × (find_event k db'.events ≡ some e') × Reaches e.status e'.status

-- A transaction's work, or a step of it, that keeps every event and moves it onward.
pub record Advances {A : Type 0} (m : M A) : Type 0 where
  pub onward : (db : Db) → Onward db (after db (m db))

pub Onward-kept : (db db' : Db) → db'.events ≡ db.events → Onward db db'
Onward-kept db db' kept k e found = (e, ap (find_event k) kept ∙ found, here e.status)

pub Onward-same : (db : Db) → Onward db db
Onward-same db = Onward-kept db db refl

pub Onward-trans : (a b c : Db) → Onward a b → Onward b c → Onward a c
Onward-trans a b c p q k e found =
    let (e₁, at₁, r₁) = p k e found in
    let (e₂, at₂, r₂) = q k e₁ at₁ in (e₂, at₂, Reaches-trans e.status e₁.status e₂.status r₁ r₂)

-- A refusal after a write rolls it back.
Onward-committed :
    {A : Type 0} (db db' : Db) (o : Outcome A)
    → Onward db db'
    → Onward db' (after db' o)
    → Onward db (after db o)
Onward-committed db db' (done a db'') p q = Onward-trans db db' db'' p q
Onward-committed db db' (thrown e) p q = Onward-same db

module _ {A B : Type 0} (m : M A) (advances : Advances m) where
  pub Advances-then : (f : A → M B) → ((a : A) → Advances (f a)) → Advances (m >>= f)
  Advances-then f rest = record { onward = λ db. along db (m db) (advances.onward db) }
    where
      along :
          (db : Db) (o : Outcome A)
          → Onward db (after db o)
          → Onward db (after db (elim o [ done a db' ↦ f a db' | thrown e ↦ thrown e ]))
      along db (done a db') p = Onward-committed db db' (f a db') p ((rest a).onward db')
      along db (thrown e) p = p

  pub Advances-before : (k : M B) → Advances k → Advances (m >> k)
  Advances-before k rest = record { onward = λ db. along db (m db) (advances.onward db) }
    where
      along :
          (db : Db) (o : Outcome A)
          → Onward db (after db o)
          → Onward db (after db (elim o [ done a db' ↦ k db' | thrown e ↦ thrown e ]))
      along db (done a db') p = Onward-committed db db' (k db') p (rest.onward db')
      along db (thrown e) p = p

-- A step that reads changes nothing.
pub Advances-Reads : {A : Type 0} (m : M A) → ((db : Db) → Reads db (m db)) → Advances m
Advances-Reads m reads = record {
  onward = λ db. elim (reads db) [
    | inl (a, run) ↦ rw run (Onward-same db)
    | inr (e, run) ↦ rw run (Onward-same db)
  ];
}

pub Advances-writes :
    {A : Type 0} (f : Db → A × Db) → ((db : Db) → Onward db (f db).1) → Advances (writes f)
Advances-writes f onward = record { onward = onward }

pub Advances-throw_if : (b : Bool) (e : Refusal) → Advances (throw_if b e)
Advances-throw_if b e = Advances-Reads (throw_if b e) (throw_if-Reads b e)

pub Advances-require : {A : Type 0} (o : Option A) (e : Refusal) → Advances (require o e)
Advances-require o e = Advances-Reads (require o e) (require-Reads o e)

pub Advances-gets : {A : Type 0} (f : Db → A) → Advances (gets f)
Advances-gets f = record { onward = Onward-same }

pub Advances-return : {A : Type 0} (a : A) → Advances (return a)
Advances-return a = record { onward = Onward-same }

pub transaction-Onward :
    {A : Type 0} (work : M A) (db : Db) → Advances work → Onward db (transaction work db).1
transaction-Onward work db advances = rw (transaction-after work db) (advances.onward db)
