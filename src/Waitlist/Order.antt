-- ===== src/Waitlist/Order.antt =====
-- The order of a waiting list: the entry that promotion picks, and the position that is shown.
use is212_g5_t.Base.{
  ℕ, ◌+◌, ◌≤◌, ◌<◌, ◌≡◌, refl, inl, inr, Bool, true, false, ◌&&◌, none, some, List, [], ◌∷◌, arith,
  Bool-cases, Option-cases, Has, count_if, count_if_mono, count_if_pos,
}
use is212_g5_t.Schema.{Registration, waits, waitlisted_count}
use is212_g5_t.Waitlist.{sorts_before, first_waiting, row_lt, waitlist_position}

sorts_before_irrefl : (r : Registration) → sorts_before r r ≡ false
unfolding sorts_before
sorts_before_irrefl r = ground arith

sorts_before_trans :
    (r s t : Registration)
    → sorts_before s r ≡ false
    → sorts_before t s ≡ false
    → sorts_before t r ≡ false
unfolding sorts_before
sorts_before_trans r s t h k = ground arith

sorts_before_asym : (r s : Registration) → sorts_before s r ≡ true → sorts_before r s ≡ false
unfolding sorts_before
sorts_before_asym r s h = ground arith

pub first_waiting-none :
    (event_id : ℕ) (rows : List Registration)
    → first_waiting event_id rows ≡ none
    → waitlisted_count event_id rows ≡ 0
unfolding first_waiting
first_waiting-none event_id [] h = refl
first_waiting-none event_id (r ∷ rows) h = ground (arith, first_waiting-none event_id rows)

-- The pick is one of the event's waiting entries.
pub first_waiting-waits :
    (event_id : ℕ) (rows : List Registration) (entry : Registration)
    → first_waiting event_id rows ≡ some entry
    → Has entry rows × (waits event_id entry ≡ true)
unfolding first_waiting
first_waiting-waits event_id [] entry h = absurd (ground arith)
first_waiting-waits event_id (r ∷ rows) entry h = elim (Bool-cases (waits event_id r)) [
  | inl w ↦ elim (Option-cases (first_waiting event_id rows)) [
    | inl e ↦ (inl (ground arith), ground arith)
    | inr (s, e) ↦
        let (m, ws) = first_waiting-waits event_id rows s e in
        elim (Bool-cases (sorts_before s r)) [
          | inl b ↦ (inr (ground arith), ground arith)
          | inr b ↦ (inl (ground arith), ground arith)
        ]
  ]
  | inr n ↦ let (m, ws) = first_waiting-waits event_id rows entry (ground arith) in (inr m, ws)
]

-- No waiting entry of the event in the table sorts before the one that promotion picks.
pub first_waiting_least :
    (event_id : ℕ) (rows : List Registration) (entry other : Registration)
    → first_waiting event_id rows ≡ some entry
    → Has other rows
    → waits event_id other ≡ true
    → sorts_before other entry ≡ false
unfolding first_waiting
first_waiting_least event_id [] entry other h m w = absurd m
first_waiting_least event_id (r ∷ rows) entry other h (inl e) w =
    elim (Option-cases (first_waiting event_id rows)) [
      | inl n ↦ ground (arith, sorts_before_irrefl r)
      | inr (s, f) ↦ ground (arith, sorts_before_irrefl r, sorts_before_asym r s)
    ]
first_waiting_least event_id (r ∷ rows) entry other h (inr m) w =
    elim (Option-cases (first_waiting event_id rows)) [
      | inl n ↦ absurd (
          omega (
            arith,
            first_waiting-none event_id rows n,
            count_if_pos (waits event_id) rows other m w,
          ))
      | inr (s, f) ↦
          ground
            (arith, first_waiting_least event_id rows s other f m w, sorts_before_trans r s other)
    ]

count_if_and-le :
    (event_id : ℕ) (p : Registration → Bool) (rows : List Registration)
    → count_if (λ o. waits event_id o && p o) rows ≤ waitlisted_count event_id rows
count_if_and-le event_id p [] = omega arith
count_if_and-le event_id p (o ∷ rows) = ground (arith, count_if_and-le event_id p rows)

below_positions :
    (event_id : ℕ) (p : Registration → Bool) (rows : List Registration) (r : Registration)
    → Has r rows
    → waits event_id r ≡ true
    → p r ≡ false
    → 1 + count_if (λ o. waits event_id o && p o) rows ≤ waitlisted_count event_id rows
below_positions event_id p [] r m w h = absurd m
below_positions event_id p (x ∷ rows) r (inl e) w h =
    ground (arith, count_if_and-le event_id p rows)
below_positions event_id p (x ∷ rows) r (inr m) w h =
    ground (arith, below_positions event_id p rows r m w h)

pub row_lt_irrefl : (r : Registration) → row_lt r r ≡ false
unfolding row_lt
row_lt_irrefl r = ground arith

-- A waiting entry of the table has a position, from 1 to the number of the event's waiting entries.
pub waitlist_position_bounds :
    (rows : List Registration) (r : Registration)
    → Has r rows
    → waits r.event_id r ≡ true
    → (p : ℕ) × (waitlist_position rows r ≡ some p)
      × (1 ≤ p)
      × (p ≤ waitlisted_count r.event_id rows)
unfolding waitlist_position
waitlist_position_bounds rows r m w = (
  1 + count_if (λ o. waits r.event_id o && row_lt o r) rows,
  ground arith,
  omega arith,
  below_positions r.event_id (λ o. row_lt o r) rows r m w (row_lt_irrefl r),
)

count_if-strict :
    (p q : Registration → Bool) (rows : List Registration) (r : Registration)
    → ((o : Registration) → p o ≡ true → q o ≡ true)
    → Has r rows
    → p r ≡ false
    → q r ≡ true
    → count_if p rows < count_if q rows
count_if-strict p q [] r h m f t = absurd m
count_if-strict p q (o ∷ rows) r h (inl e) f t = ground (arith, count_if_mono p q rows h)
count_if-strict p q (o ∷ rows) r h (inr m) f t =
    ground (arith, h o, count_if-strict p q rows r h m f t)

row_lt_trans : (o r s : Registration) → row_lt o r ≡ true → row_lt r s ≡ true → row_lt o s ≡ true
unfolding row_lt
row_lt_trans o r s h k = ground arith

-- Positions follow the order of joining: of two waiting entries of one event, the first of them
-- in the table, the one with the smaller joined_at and sequence number has the smaller position.
pub waitlist_position_order :
    (rows : List Registration) (r s : Registration)
    → Has r rows
    → waits s.event_id r ≡ true
    → waits s.event_id s ≡ true
    → row_lt r s ≡ true
    → (p q : ℕ) → waitlist_position rows r ≡ some p
    → waitlist_position rows s ≡ some q
    → p < q
unfolding waitlist_position
waitlist_position_order rows r s m wr ws lt p q hp hq =
    let same : r.event_id ≡ s.event_id = ground arith in
    ground (
      arith,
      count_if-strict (λ o. waits r.event_id o && row_lt o r)
          (λ o. waits s.event_id o && row_lt o s) rows r (λ o h. ground (arith, row_lt_trans o r s))
          m (ground (arith, row_lt_irrefl r)) (ground arith),
    )
