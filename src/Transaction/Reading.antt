-- ===== src/Transaction/Reading.antt =====
-- Steps of a transaction that write nothing, and what holds after a transaction that begins with one.
use is212_g5_t.Base.{◌≡◌, refl, ◌⊎◌, inl, inr, Bool, true, false, Option, none, some}
use is212_g5_t.Schema.{Db, Refusal}
use is212_g5_t.Transaction.{
  M, Outcome, done, thrown, settled, transaction, ◌>>=◌, ◌>>◌, throw_if, require,
}

-- The database after the work of a transaction: what it wrote, or what was there.
abbrev pub after : {A : Type 0} → Db → Outcome A → Db
after db (done a db') = db'
after db (thrown e) = db

settled-after : {A : Type 0} (db : Db) (o : Outcome A) → (settled db o).1 ≡ after db o
settled-after db (done a db') = refl
settled-after db (thrown e) = refl

pub transaction-after :
    {A : Type 0} (work : M A) (db : Db) → (transaction work db).1 ≡ after db (work db)
unfolding transaction
transaction-after work db = settled-after db (work db)

-- The outcome of a step that reads: a value and the same database, or a refusal.
abbrev pub Reads : {A : Type 0} → Db → Outcome A → Type 0
Reads {A} db o = ((a : A) × (o ≡ done a db)) ⊎ ((e : Refusal) × (o ≡ thrown e))

module _ {A B : Type 0} (P : Db → Type 0) (m : M A) (db : Db) where
  -- What holds before a reading step, and after the rest for each value read, holds after both.
  pub reads_then :
      (f : A → M B)
      → P db
      → Reads db (m db)
      → ((a : A) → m db ≡ done a db → P (after db (f a db)))
      → P (after db ((m >>= f) db))
  reads_then f p (inl (a, e)) rest = rw (e, ◌>>=◌) (rest a e)
  reads_then f p (inr (e, h)) rest = rw (h, ◌>>=◌) p

  pub reads_before :
      (k : M B)
      → P db
      → Reads db (m db)
      → ((a : A) → m db ≡ done a db → P (after db (k db)))
      → P (after db ((m >> k) db))
  reads_before k p (inl (a, e)) rest = rw (e, ◌>>◌) (rest a e)
  reads_before k p (inr (e, h)) rest = rw (h, ◌>>◌) p

pub throw_if-Reads : (b : Bool) (e : Refusal) (db : Db) → Reads db (throw_if b e db)
throw_if-Reads true e db = inr (e, refl)
throw_if-Reads false e db = inl (tt, refl)

-- After writes that a refusal would roll back, the rest either commits or leaves what was there.
pub after_writes :
    {A : Type 0} (P : Db → Type 0) (db db' : Db) (o : Outcome A)
    → P db
    → P (after db' o)
    → P (after db o)
after_writes P db db' (done a db'') p q = q
after_writes P db db' (thrown e) p q = p

pub require-Reads : {A : Type 0} (o : Option A) (e : Refusal) (db : Db) → Reads db (require o e db)
require-Reads none e db = inr (e, refl)
require-Reads (some a) e db = inl (a, refl)

pub require_found :
    {A : Type 0} (o : Option A) (e : Refusal) (a : A) (db : Db)
    → require o e db ≡ done a db
    → o ≡ some a
require_found none e a db h = cc
require_found (some b) e a db h = cc
