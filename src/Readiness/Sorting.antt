-- ===== src/Readiness/Sorting.antt =====
-- `[...items].sort(byId)`: a stable sort by id, here by insertion.
use is212_g5_t.Base.{ℕ, ◌≡◌, ◌⊎◌, inl, inr, List, [], ◌∷◌, ltb, if◌then◌else◌, Has, Bool-cases}

module _ {A : Type 0} (key : A → ℕ) where
  abbrev pub insert_by : A → List A → List A
  insert_by x [] = x ∷ []
  insert_by x (y ∷ ys) =
      let rest = insert_by x ys in if ltb (key y) (key x) then y ∷ rest else x ∷ (y ∷ ys)

  abbrev pub sort_by : List A → List A
  sort_by [] = []
  sort_by (x ∷ xs) = insert_by x (sort_by xs)

  abbrev Among : A → A → List A → Type 0
  Among a x ys = (a ≡ x) ⊎ Has a ys

  swap :
      (x y : A) (ys zs : List A) (a : A)
      → Among a y ys
      → (Has a ys → Among a x zs)
      → Among a x (y ∷ zs)
  swap x y ys zs a (inl e) f = inr (inl e)
  swap x y ys zs a (inr m) f = past (f m)
    where
      past : Among a x zs → Among a x (y ∷ zs)
      past (inl e) = inl e
      past (inr n) = inr (inr n)

  pass :
      (x y : A) (ys zs : List A) (a : A)
      → Among a x (y ∷ zs)
      → (Among a x zs → Has a ys)
      → Among a y ys
  pass x y ys zs a (inl e) f = inr (f (inl e))
  pass x y ys zs a (inr (inl e)) f = inl e
  pass x y ys zs a (inr (inr n)) f = inr (f (inr n))

  Has-insert_by : (x : A) (ys : List A) (a : A) → Among a x ys → Has a (insert_by x ys)
  Has-insert_by x [] a m = m
  Has-insert_by x (y ∷ ys) a m = elim (Bool-cases (ltb (key y) (key x))) [
    | inl later ↦ rw later (pass x y (insert_by x ys) ys a m (Has-insert_by x ys a))
    | inr here ↦ rw here m
  ]

  insert_by-Has : (x : A) (ys : List A) (a : A) → Has a (insert_by x ys) → Among a x ys
  insert_by-Has x [] a m = m
  insert_by-Has x (y ∷ ys) a m = elim (Bool-cases (ltb (key y) (key x))) [
    | inl later ↦ swap x y (insert_by x ys) ys a (rw later at m) (insert_by-Has x ys a)
    | inr here ↦ rw here at m
  ]

  -- Sorting keeps the members, and brings none in.
  pub Has-sort_by : (xs : List A) (a : A) → Has a xs → Has a (sort_by xs)
  Has-sort_by [] a m = m
  Has-sort_by (x ∷ xs) a (inl e) = Has-insert_by x (sort_by xs) a (inl e)
  Has-sort_by (x ∷ xs) a (inr m) = Has-insert_by x (sort_by xs) a (inr (Has-sort_by xs a m))

  pub sort_by-Has : (xs : List A) (a : A) → Has a (sort_by xs) → Has a xs
  sort_by-Has [] a m = m
  sort_by-Has (x ∷ xs) a m = elim (insert_by-Has x (sort_by xs) a m) [
    | inl e ↦ inl e
    | inr n ↦ inr (sort_by-Has xs a n)
  ]
