-- ===== src/Transaction/Inverting.antt =====
-- What a transaction's work has done when it commits, step by step.
use is212_g5_t.Base.{◌≡◌, refl, ◌⊎◌, inl, inr, Bool, true, false, Option, none, some, arith}
use is212_g5_t.Schema.{Db, Refusal}
use is212_g5_t.Transaction.{
  M, Outcome, done, thrown, transaction, settled, ◌>>=◌, ◌>>◌, throw_if, require,
}

-- A transaction leaves the database alone, or commits what its work wrote.
pub transaction_cases :
    {A : Type 0} (work : M A) (db : Db)
    → ((transaction work db).1 ≡ db)
      ⊎ ((a : A) × (db' : Db) × (work db ≡ done a db') × ((transaction work db).1 ≡ db'))
unfolding transaction
transaction_cases {A} work db = by_outcome (work db)
  where
    by_outcome :
        (o : Outcome A)
        → ((settled db o).1 ≡ db)
          ⊎ ((a : A) × (db' : Db) × (o ≡ done a db') × ((settled db o).1 ≡ db'))
    by_outcome (done a db') = inr (a, db', refl, refl)
    by_outcome (thrown e) = inl refl

module _ {A B : Type 0} (m : M A) (db : Db) (b : B) (db' : Db) where
  -- A bind that commits: its first step has, and so has the rest.
  pub bind_done :
      (f : A → M B)
      → (m >>= f) db ≡ done b db'
      → (a : A) × (db₁ : Db) × (m db ≡ done a db₁) × (f a db₁ ≡ done b db')
  bind_done f = by_outcome (m db)
    where
      by_outcome :
          (o : Outcome A)
          → elim o [ done a db₁ ↦ f a db₁ | thrown e ↦ thrown e ] ≡ done b db'
          → (a : A) × (db₁ : Db) × (o ≡ done a db₁) × (f a db₁ ≡ done b db')
      by_outcome (done a db₁) run = (a, db₁, refl, run)
      by_outcome (thrown e) run = absurd (ground arith)

  pub then_done :
      (k : M B)
      → (m >> k) db ≡ done b db'
      → (a : A) × (db₁ : Db) × (m db ≡ done a db₁) × (k db₁ ≡ done b db')
  then_done k = bind_done (λ _. k)

module _ {A B : Type 0} (db : Db) (b : B) (db' : Db) where
  -- A commit that begins with a demanded row, or with a guard.
  pub require_then_done :
      (o : Option A) (e : Refusal) (f : A → M B)
      → (require o e >>= f) db ≡ done b db'
      → (a : A) × (o ≡ some a) × (f a db ≡ done b db')
  require_then_done none e f run = absurd (ground arith)
  require_then_done (some a) e f run = (a, refl, run)

module _ {B : Type 0} (db : Db) (b : B) (db' : Db) where
  pub throw_if_then_done :
      (t : Bool) (e : Refusal) (k : M B)
      → (throw_if t e >> k) db ≡ done b db'
      → (t ≡ false) × (k db ≡ done b db')
  throw_if_then_done true e k run = absurd (ground arith)
  throw_if_then_done false e k run = (refl, run)
