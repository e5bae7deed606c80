-- ===== src/Base/Sorting.antt =====
-- A stable sort by a comparison, here by insertion: ORDER BY, and `Array.sort`.
use mathlib.Core.Path.{◌≡◌, refl}
use mathlib.Core.Logic.{◌⊎◌, inl, inr}
use mathlib.Core.Bool.{Bool, true, false}
use mathlib.Core.List.{List, [], ◌∷◌}
use native.Mathlib.Omega.{arith}
use is212_g5_t.Base.Tests.{if◌then◌else◌, Bool-cases}
use is212_g5_t.Base.Lists.{count_if}
use is212_g5_t.Base.Updates.{Has}

module _ {A : Type 0} (before : A → A → Bool) where
  abbrev pub insert_in : A → List A → List A
  insert_in x [] = x ∷ []
  insert_in x (y ∷ ys) = let rest = insert_in x ys in if before y x then y ∷ rest else x ∷ (y ∷ ys)

  abbrev pub sort_in : List A → List A
  sort_in [] = []
  sort_in (x ∷ xs) = insert_in x (sort_in xs)

  -- No item stands before the one in front of it.
  abbrev pub InOrder : List A → Type 0
  InOrder [] = Unit
  InOrder (x ∷ []) = Unit
  InOrder (x ∷ (y ∷ ys)) = (before y x ≡ false) × InOrder (y ∷ ys)

  count_if-insert_in :
      (p : A → Bool) (x : A) (ys : List A) → count_if p (insert_in x ys) ≡ count_if p (x ∷ ys)
  count_if-insert_in p x [] = refl
  count_if-insert_in p x (y ∷ ys) = ground (arith, count_if-insert_in p x ys)

  -- A sort keeps the items, each as often as it was.
  pub count_if-sort_in : (p : A → Bool) (xs : List A) → count_if p (sort_in xs) ≡ count_if p xs
  count_if-sort_in p [] = refl
  count_if-sort_in p (x ∷ xs) =
      ground (arith, count_if-insert_in p x (sort_in xs), count_if-sort_in p xs)

  module _ (asym : (a b : A) → before a b ≡ true → before b a ≡ false) where
    insert_in-InOrder : (x : A) (ys : List A) → InOrder ys → InOrder (insert_in x ys)
    insert_in-InOrder x [] h = tt
    insert_in-InOrder x (y ∷ []) h = elim (Bool-cases (before y x)) [
      | inl later ↦ rw later (asym y x later, tt)
      | inr here ↦ rw here (here, tt)
    ]
    insert_in-InOrder x (y ∷ (z ∷ zs)) (yz, h) =
        ground (arith, asym y x, asym z x, insert_in-InOrder x (z ∷ zs) h)

    -- And puts them in order, where no two stand before each other.
    pub sort_in-InOrder : (xs : List A) → InOrder (sort_in xs)
    sort_in-InOrder [] = tt
    sort_in-InOrder (x ∷ xs) = insert_in-InOrder x (sort_in xs) (sort_in-InOrder xs)

  insert_in-Has : (a x : A) (ys : List A) → Has a (insert_in x ys) → (a ≡ x) ⊎ Has a ys
  insert_in-Has a x [] m = m
  insert_in-Has a x (y ∷ ys) m = elim (Bool-cases (before y x)) [
    | inr here ↦ rw here at m
    | inl later ↦ elim (rw later at m) [
      | inl e ↦ inr (inl e)
      | inr n ↦ elim (insert_in-Has a x ys n) [ inl e ↦ inl e | inr k ↦ inr (inr k) ]
    ]
  ]

  -- An item of the sort is one of the list.
  pub sort_in-Has : (a : A) (xs : List A) → Has a (sort_in xs) → Has a xs
  sort_in-Has a [] m = m
  sort_in-Has a (x ∷ xs) m = elim (insert_in-Has a x (sort_in xs) m) [
    | inl e ↦ inl e
    | inr n ↦ inr (sort_in-Has a xs n)
  ]

  insert_in_some : (x : A) (ys : List A) → insert_in x ys ≡ [] → ⊥
  insert_in_some x [] h = ground arith
  insert_in_some x (y ∷ ys) h = ground arith

  -- Nothing comes of nothing only.
  pub sort_in_empty : (xs : List A) → sort_in xs ≡ [] → xs ≡ []
  sort_in_empty [] h = refl
  sort_in_empty (x ∷ xs) h = absurd (insert_in_some x (sort_in xs) h)
