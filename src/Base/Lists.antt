-- ===== src/Base/Lists.antt =====
-- Lists under Boolean tests: the shapes that the SQL statements and the array methods take.
use Prim.Native.Nat.{ℕ, suc, ◌+◌, ◌≤◌}
use mathlib.Core.Path.{◌≡◌, refl}
use mathlib.Core.Bool.{Bool, true, false, ◌&&◌, ◌||◌}
use mathlib.Core.Option
use mathlib.Core.Option.{Option, none, some}
use mathlib.Core.List.{List, [], ◌∷◌, ◌++◌, map}
use native.Mathlib.Omega.{arith}
use is212_g5_t.Base.Tests.{if◌then◌else◌, bit}

module _ {ℓ} {A : Type ℓ} where
  abbrev pub length : List A → ℕ
  length [] = 0
  length (x ∷ xs) = suc (length xs)

  -- The rows of a SELECT, or `Array.filter`.
  abbrev pub keep : (A → Bool) → List A → List A
  keep p [] = []
  keep p (x ∷ xs) = let rest = keep p xs in if p x then x ∷ rest else rest

  -- `COUNT(*)` of the rows that pass a test.
  abbrev pub count_if : (A → Bool) → List A → ℕ
  count_if p [] = 0
  count_if p (x ∷ xs) = bit (p x) + count_if p xs

  -- `UPDATE ... SET f WHERE p`.
  abbrev pub update_where : (A → Bool) → (A → A) → List A → List A
  update_where p f [] = []
  update_where p f (x ∷ xs) = (if p x then f x else x) ∷ update_where p f xs

  -- The first row that passes a test, or `Array.find`.
  abbrev pub find_by : (A → Bool) → List A → Option A
  find_by p [] = none
  find_by p (x ∷ xs) = let rest = find_by p xs in if p x then some x else rest

  -- `Array.some`.
  abbrev pub any : (A → Bool) → List A → Bool
  any p [] = false
  any p (x ∷ xs) = p x || any p xs

  abbrev pub all : (A → Bool) → List A → Bool
  all p [] = true
  all p (x ∷ xs) = p x && all p xs

  abbrev pub All {κ} : (A → Type κ) → List A → Type κ
  All P [] = Unit
  All P (x ∷ xs) = P x × All P xs

  pub count_if-append :
      (p : A → Bool) (xs ys : List A) → count_if p (xs ++ ys) ≡ count_if p xs + count_if p ys
  count_if-append p [] ys = omega arith
  count_if-append p (x ∷ xs) ys = omega (arith, count_if-append p xs ys)

  -- Two tests that agree on every row count alike.
  pub count_if-congr :
      (p q : A → Bool) (xs : List A) → ((x : A) → p x ≡ q x) → count_if p xs ≡ count_if q xs
  count_if-congr p q [] h = refl
  count_if-congr p q (x ∷ xs) h = ground (arith, h x, count_if-congr p q xs h)

  -- An update that moves no row across the test leaves the count alone.
  pub count_if-update_where :
      (q p : A → Bool) (f : A → A) (xs : List A)
      → ((x : A) → p x ≡ true → q (f x) ≡ q x)
      → count_if q (update_where p f xs) ≡ count_if q xs
  count_if-update_where q p f [] h = refl
  count_if-update_where q p f (x ∷ xs) h = ground (arith, h x, count_if-update_where q p f xs h)

  -- An update that takes every row it touches out of the test.
  pub count_if-update_where_out :
      (q p : A → Bool) (f : A → A) (xs : List A)
      → ((x : A) → p x ≡ true → q (f x) ≡ false)
      → count_if q (update_where p f xs) + count_if (λ x. p x && q x) xs ≡ count_if q xs
  count_if-update_where_out q p f [] h = refl
  count_if-update_where_out q p f (x ∷ xs) h =
      ground (arith, h x, count_if-update_where_out q p f xs h)

  pub update_where_none :
      (p : A → Bool) (f : A → A) (xs : List A) → count_if p xs ≡ 0 → update_where p f xs ≡ xs
  update_where_none p f [] h = refl
  update_where_none p f (x ∷ xs) h = ground (arith, update_where_none p f xs)

  -- An update that takes each row it touches out of its own test leaves no row in the test.
  pub count_if-update_where_all :
      (p : A → Bool) (f : A → A) (xs : List A)
      → ((x : A) → p x ≡ true → p (f x) ≡ false)
      → count_if p (update_where p f xs) ≡ 0
  count_if-update_where_all p f [] h = refl
  count_if-update_where_all p f (x ∷ xs) h = ground (arith, h x, count_if-update_where_all p f xs h)

  pub length-keep : (p : A → Bool) (xs : List A) → length (keep p xs) ≡ count_if p xs
  length-keep p [] = refl
  length-keep p (x ∷ xs) = ground (arith, length-keep p xs)

  pub count_if_mono :
      (p q : A → Bool) (xs : List A)
      → ((x : A) → p x ≡ true → q x ≡ true)
      → count_if p xs ≤ count_if q xs
  count_if_mono p q [] h = omega arith
  count_if_mono p q (x ∷ xs) h = ground (arith, h x, count_if_mono p q xs h)

  pub any-count_if : (p : A → Bool) (xs : List A) → any p xs ≡ false → count_if p xs ≡ 0
  any-count_if p [] h = refl
  any-count_if p (x ∷ xs) h = ground (arith, any-count_if p xs)

  pub count_if-keep :
      (p q : A → Bool) (xs : List A) → count_if p (keep q xs) ≡ count_if (λ x. q x && p x) xs
  count_if-keep p q [] = refl
  count_if-keep p q (x ∷ xs) = ground (arith, count_if-keep p q xs)

pub count_if-map {ℓ κ} :
    {A : Type ℓ} {B : Type κ} (p : B → Bool) (f : A → B) (xs : List A)
    → count_if p (map f xs) ≡ count_if (λ x. p (f x)) xs
count_if-map p f [] = refl
count_if-map p f (x ∷ xs) = ground (arith, count_if-map p f xs)

-- A row found after an update is the one found before it, changed where the update took it.
pub find_by-update_where {ℓ} :
    {A : Type ℓ} (q p : A → Bool) (f : A → A) (xs : List A)
    → ((x : A) → q (f x) ≡ q x)
    → find_by q (update_where p f xs) ≡ Option.map (λ x. if p x then f x else x) (find_by q xs)
find_by-update_where q p f [] h = refl
find_by-update_where q p f (x ∷ xs) h = ground (arith, h x, find_by-update_where q p f xs h)

pub keep_empty {ℓ} : {A : Type ℓ} (p : A → Bool) (xs : List A) → keep p xs ≡ [] → any p xs ≡ false
keep_empty p [] h = refl
keep_empty p (x ∷ xs) h = ground (arith, keep_empty p xs)

pub keep_none {ℓ} : {A : Type ℓ} (p : A → Bool) (xs : List A) → any p xs ≡ false → keep p xs ≡ []
keep_none p [] h = refl
keep_none p (x ∷ xs) h = ground (arith, keep_none p xs)
