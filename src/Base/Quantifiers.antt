-- ===== src/Base/Quantifiers.antt =====
-- What the Boolean tests on a list say of its members.
use mathlib.Core.Path.{◌≡◌, refl}
use mathlib.Core.Logic.{inl, inr}
use mathlib.Core.Bool.{Bool, true, false, ◌&&◌}
use mathlib.Core.List.{List, [], ◌∷◌, ◌++◌}
use native.Mathlib.Omega.{arith}
use is212_g5_t.Base.Tests.{Bool-cases}
use is212_g5_t.Base.Lists.{keep, any, all}
use is212_g5_t.Base.Updates.{Has}

module _ {A : Type 0} where
  abbrev pub is_empty : List A → Bool
  is_empty [] = true
  is_empty (x ∷ xs) = false

  pub is_empty-append : (xs ys : List A) → is_empty (xs ++ ys) ≡ (is_empty xs && is_empty ys)
  is_empty-append [] ys = refl
  is_empty-append (x ∷ xs) ys = refl

  pub all-Has : (p : A → Bool) (xs : List A) (a : A) → all p xs ≡ true → Has a xs → p a ≡ true
  all-Has p [] a h m = absurd m
  all-Has p (x ∷ xs) a h (inl e) = ground arith
  all-Has p (x ∷ xs) a h (inr m) = all-Has p xs a (ground arith) m

  pub Has-all : (p : A → Bool) (xs : List A) → ((a : A) → Has a xs → p a ≡ true) → all p xs ≡ true
  Has-all p [] h = refl
  Has-all p (x ∷ xs) h = ground (arith, h x (inl refl), Has-all p xs (λ a m. h a (inr m)))

  pub any-Has : (p : A → Bool) (xs : List A) → any p xs ≡ true → (a : A) × Has a xs × (p a ≡ true)
  any-Has p [] h = absurd (ground arith)
  any-Has p (x ∷ xs) h = elim (Bool-cases (p x)) [
    | inl hit ↦ (x, inl refl, hit)
    | inr miss ↦ let (a, m, e) = any-Has p xs (ground arith) in (a, inr m, e)
  ]

  pub Has-any : (p : A → Bool) (xs : List A) (a : A) → Has a xs → p a ≡ true → any p xs ≡ true
  Has-any p [] a m h = absurd m
  Has-any p (x ∷ xs) a (inl e) h = ground arith
  Has-any p (x ∷ xs) a (inr m) h = ground (arith, Has-any p xs a m h)

  pub Has-keep : (p : A → Bool) (xs : List A) (a : A) → Has a xs → p a ≡ true → Has a (keep p xs)
  Has-keep p [] a m h = absurd m
  Has-keep p (x ∷ xs) a (inl e) h = ground arith
  Has-keep p (x ∷ xs) a (inr m) h = ground (arith, Has-keep p xs a m h)

  pub keep-Has : (p : A → Bool) (xs : List A) (a : A) → Has a (keep p xs) → Has a xs × (p a ≡ true)
  keep-Has p [] a m = absurd m
  keep-Has p (x ∷ xs) a m = elim (Bool-cases (p x)) [
    | inl hit ↦ ground (arith, keep-Has p xs a)
    | inr miss ↦ ground (arith, keep-Has p xs a)
  ]
