-- ===== src/Base/Updates.antt =====
-- An UPDATE of the one row that a key names.
use Prim.Native.Nat.{◌+◌, ◌≤◌}
use mathlib.Core.Path.{◌≡◌, refl}
use mathlib.Core.Logic.{◌⊎◌, inl, inr}
use mathlib.Core.Bool.{Bool, true, false}
use mathlib.Core.Option.{none, some}
use mathlib.Core.List.{List, [], ◌∷◌}
use native.Mathlib.Omega.{arith}
use is212_g5_t.Base.Tests.{if◌then◌else◌, bit, Bool-cases}
use is212_g5_t.Base.Lists.{any, count_if, update_where, find_by, update_where_none}

module _ {A : Type 0} where
  abbrev pub Has : A → List A → Type 0
  Has a [] = ⊥
  Has a (x ∷ xs) = (a ≡ x) ⊎ Has a xs

  pub find_by-Has :
      (p : A → Bool) (xs : List A) (a : A) → find_by p xs ≡ some a → Has a xs × (p a ≡ true)
  find_by-Has p [] a e = absurd (ground arith)
  find_by-Has p (x ∷ xs) a e = elim (Bool-cases (p x)) [
    | inl hit ↦ (inl (ground arith), ground arith)
    | inr miss ↦ let (m, t) = find_by-Has p xs a (ground arith) in (inr m, t)
  ]

  pub find_by-none : (p : A → Bool) (xs : List A) → find_by p xs ≡ none → count_if p xs ≡ 0
  find_by-none p [] e = refl
  find_by-none p (x ∷ xs) e = ground (arith, find_by-none p xs)

  pub count_if_pos :
      (p : A → Bool) (xs : List A) (a : A) → Has a xs → p a ≡ true → 1 ≤ count_if p xs
  count_if_pos p [] a m t = absurd m
  count_if_pos p (x ∷ xs) a (inl e) t = ground arith
  count_if_pos p (x ∷ xs) a (inr m) t = ground (arith, count_if_pos p xs a m t)

  -- The key names one row `a`: every count changes by what `f` does to `a`, and by nothing else.
  pub count_if-update_one :
      (q p : A → Bool) (f : A → A) (xs : List A) (a : A)
      → count_if p xs ≤ 1
      → Has a xs
      → p a ≡ true
      → count_if q (update_where p f xs) + bit (q a) ≡ count_if q xs + bit (q (f a))
  count_if-update_one q p f [] a u m t = absurd m
  count_if-update_one q p f (x ∷ xs) a u (inl e) t = ground (arith, update_where_none p f xs)
  count_if-update_one q p f (x ∷ xs) a u (inr m) t =
      ground (arith, count_if_pos p xs a m t, count_if-update_one q p f xs a)

  -- The row itself after the update.
  pub Has-update_where :
      (p : A → Bool) (f : A → A) (xs : List A) (a : A)
      → Has a xs
      → Has (if p a then f a else a) (update_where p f xs)
  Has-update_where p f [] a m = absurd m
  Has-update_where p f (x ∷ xs) a (inl e) = inl (ground arith)
  Has-update_where p f (x ∷ xs) a (inr m) = inr (Has-update_where p f xs a m)

  -- Each row after an update is a row before it, changed if the test took it.
  pub Has-update_where_back :
      (p : A → Bool) (f : A → A) (xs : List A) (b : A)
      → Has b (update_where p f xs)
      → (a : A) × Has a xs × (b ≡ (if p a then f a else a))
  Has-update_where_back p f [] b m = absurd m
  Has-update_where_back p f (x ∷ xs) b (inl e) = (x, inl refl, e)
  Has-update_where_back p f (x ∷ xs) b (inr m) =
      let (a, n, e) = Has-update_where_back p f xs b m in (a, inr n, e)

  -- An update that moves no row of the table across the test.
  pub count_if-update_where-Has :
      (q p : A → Bool) (f : A → A) (xs : List A)
      → ((x : A) → Has x xs → p x ≡ true → q (f x) ≡ q x)
      → count_if q (update_where p f xs) ≡ count_if q xs
  count_if-update_where-Has q p f [] h = refl
  count_if-update_where-Has q p f (x ∷ xs) h =
      ground (arith, h x (inl refl), count_if-update_where-Has q p f xs (λ y m. h y (inr m)))

  -- Two tests that agree on the rows of a table count alike there.
  pub count_if-congr-Has :
      (p q : A → Bool) (xs : List A)
      → ((x : A) → Has x xs → p x ≡ q x)
      → count_if p xs ≡ count_if q xs
  count_if-congr-Has p q [] h = refl
  count_if-congr-Has p q (x ∷ xs) h =
      ground (arith, h x (inl refl), count_if-congr-Has p q xs (λ y m. h y (inr m)))

  pub any-false :
      (p : A → Bool) (xs : List A) → ((x : A) → Has x xs → p x ≡ false) → any p xs ≡ false
  any-false p [] h = refl
  any-false p (x ∷ xs) h = ground (arith, h x (inl refl), any-false p xs (λ y m. h y (inr m)))

  -- The same for the test `any`.
  pub any-update_where_all :
      (p : A → Bool) (f : A → A) (xs : List A)
      → ((x : A) → p (f x) ≡ false)
      → any p (update_where p f xs) ≡ false
  any-update_where_all p f [] h = refl
  any-update_where_all p f (x ∷ xs) h = elim (Bool-cases (p x)) [
    | inl hit ↦ rw (hit, h x) (any-update_where_all p f xs h)
    | inr miss ↦ rw (miss, miss) (any-update_where_all p f xs h)
  ]
