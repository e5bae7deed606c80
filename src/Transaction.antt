-- ===== src/Transaction.antt =====
-- DatabaseService.transaction (backend/src/database/database.service.ts): the work either commits
-- what it wrote, or throws and leaves the database as it was. The row lock on the event serialises
-- the transactions of one event, so each is one step.
pub mod Reading
pub mod Inverting
use is212_g5_t.Base.{Option, none, some, Bool, true, false}
use is212_g5_t.Schema.{Db, Refusal, Result, ok, err}

pub data Outcome (A : Type 0) : Type 0 where
  done : A → Db → Outcome A
  thrown : Refusal → Outcome A

abbrev pub M : Type 0 → Type 0
M A = Db → Outcome A

infixl 5 ◌>>=◌ ◌>>◌
abbrev pub ◌>>=◌ : {A B : Type 0} → M A → (A → M B) → M B
◌>>=◌ m f db = elim (m db) [ done a db' ↦ f a db' | thrown e ↦ thrown e ]

abbrev pub ◌>>◌ : {A B : Type 0} → M A → M B → M B
◌>>◌ m k db = elim (m db) [ done a db' ↦ k db' | thrown e ↦ thrown e ]

abbrev pub return : {A : Type 0} → A → M A
return a db = done a db

abbrev pub throw : {A : Type 0} → Refusal → M A
throw e db = thrown e

-- `if (b) throw e`.
abbrev pub throw_if : Bool → Refusal → M (Unit {0})
throw_if true e db = thrown e
throw_if false e db = done tt db

-- A query, and a statement that writes.
abbrev pub gets : {A : Type 0} → (Db → A) → M A
gets f db = done (f db) db

abbrev pub writes : {A : Type 0} → (Db → A × Db) → M A
writes f db = let (a, db') = f db in done a db'

-- `if (!row) throw e`.
abbrev pub require : {A : Type 0} → Option A → Refusal → M A
require none e db = thrown e
require (some a) e db = done a db

abbrev pub settled : {A : Type 0} → Db → Outcome A → Result A × Db
settled db (done a db') = (ok a, db')
settled db (thrown e) = (err e, db)

unfoldable pub transaction : {A : Type 0} → M A → Db → Result A × Db
transaction work db = settled db (work db)
