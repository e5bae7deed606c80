-- ===== src/Waitlist/Fairness.antt =====
-- First come, first promoted (backend/src/registrations/waitlist/promotion.ts).
use is212_g5_t.Base.{
  ℕ, zero, suc, ◌-◌, ◌≤◌, ◌≡◌, refl, sym, ap, ◌∙◌, inl, inr, String, true, false, some, List, [],
  ◌∷◌, ◌==◌, arith, Bool-cases, Option-cases, Has, count_if, update_where, count_if_pos, ==_iff,
  Has-update_where,
}
use is212_g5_t.Schema.{Event, Registration, Db, find_event, waits, has_id, registered_count}
use is212_g5_t.Waitlist.{
  settle_locked, sorts_before, first_waiting, promote, promote_entry, promote_loop, fill_free_spots,
}
use is212_g5_t.Waitlist.Settling.{settle_locked-has_id, settle_locked-events}
use is212_g5_t.Waitlist.Order.{first_waiting-none, first_waiting-waits, first_waiting_least}
use is212_g5_t.Waitlist.Promotion.{UniqueIds, promote_entry-Promoted}

-- The primary key names one row.
pub Has-unique :
    (rows : List Registration) (a b : Registration)
    → count_if (has_id b.id) rows ≤ 1
    → Has a rows
    → Has b rows
    → a.id ≡ b.id
    → a ≡ b
Has-unique [] a b u m n e = absurd m
Has-unique (x ∷ rows) a b u (inl p) (inl q) e = p ∙ sym q
Has-unique (x ∷ rows) a b u (inl p) (inr n) e =
    absurd (ground (arith, count_if_pos (has_id b.id) rows b n))
Has-unique (x ∷ rows) a b u (inr m) (inl q) e =
    absurd (ground (arith, count_if_pos (has_id b.id) rows a m))
Has-unique (x ∷ rows) a b u (inr m) (inr n) e = Has-unique rows a b (ground arith) m n e

-- Who waits after a promotion has waited before it.
waits-back :
    (event_id now id : ℕ) (rows : List Registration) (s : Registration)
    → Has s (update_where (has_id id) (promote now) rows)
    → waits event_id s ≡ true
    → Has s rows
waits-back event_id now id [] s m w = m
waits-back event_id now id (x ∷ rows) s (inl e) w = inl (ground arith)
waits-back event_id now id (x ∷ rows) s (inr m) w = inr (waits-back event_id now id rows s m w)

promote_loop-back :
    (event_id now : ℕ) (name : String) (free : ℕ) (db : Db) (s : Registration)
    → Has s (promote_loop event_id name now free db).1.registrations
    → waits event_id s ≡ true
    → Has s db.registrations
unfolding promote_loop promote_entry
promote_loop-back event_id now name zero db s m w = m
promote_loop-back event_id now name (suc free) db s m w =
    elim (Option-cases (first_waiting event_id db.registrations)) [
      | inl e ↦ rw (e, promote_loop) at m
      | inr (entry, e) ↦
          waits-back event_id now entry.id db.registrations s
            (promote_loop-back event_id now name free (promote_entry now name entry db) s
              (rw (e, promote_loop) at m) w)
            w
    ]

promote_loop_fair :
    (event_id now : ℕ) (name : String) (free : ℕ) (db : Db) (r s : Registration)
    → UniqueIds db.registrations
    → Has r db.registrations
    → waits event_id r ≡ true
    → Has (promote now r) (promote_loop event_id name now free db).1.registrations
    → Has s (promote_loop event_id name now free db).1.registrations
    → waits event_id s ≡ true
    → sorts_before s r ≡ false
unfolding promote_loop promote_entry
promote_loop_fair event_id now name zero db r s u m w p n v =
    let same : promote now r ≡ r =
      Has-unique db.registrations (promote now r) r (u r.id) p m refl in
    absurd (ground (arith, ap (waits event_id) same))
promote_loop_fair event_id now name (suc free) db r s u m w p n v =
    elim (Option-cases (first_waiting event_id db.registrations)) [
      | inl e ↦ absurd (
          omega (
            arith,
            first_waiting-none event_id db.registrations e,
            count_if_pos (waits event_id) db.registrations r m w,
          ))
      | inr (entry, e) ↦
          let db₁ : Db = promote_entry now name entry db in
          let p₁ = rw (e, promote_loop) at p in
          let n₁ = rw (e, promote_loop) at n in
          let (found, _) = first_waiting-waits event_id db.registrations entry e in
          elim (Bool-cases (r.id == entry.id)) [
            | inl same ↦
                let eq : r ≡ entry =
                  Has-unique db.registrations r entry (u entry.id) m found ((==_iff _ _).0 same) in
                let before : Has s db.registrations =
                  waits-back event_id now entry.id db.registrations s
                    (promote_loop-back event_id now name free db₁ s n₁ v) v in
                rw eq (first_waiting_least event_id db.registrations entry s e before v)
            | inr other ↦
                let one = promote_entry-Promoted event_id now name entry db u e in
                let kept : Has r db₁.registrations =
                  rw other at
                    (Has-update_where (has_id entry.id) (promote now) db.registrations r m) in
                promote_loop_fair event_id now name free db₁ r s (λ i. rw (one.ids i) (u i)) kept w
                  p₁ n₁ v
          ]
    ]

-- First come, first promoted, where ids are unique: when a call promotes an entry that waits
-- after the settling, no entry of the event that still waits after the call sorts before it.
pub fill_free_spots_fair :
    (event_id now : ℕ) (db : Db) (e : Event) (r s : Registration)
    → UniqueIds db.registrations
    → find_event event_id db.events ≡ some e
    → Has r (settle_locked event_id now db).1.registrations
    → waits event_id r ≡ true
    → Has (promote now r) (fill_free_spots event_id now db).1.registrations
    → Has s (fill_free_spots event_id now db).1.registrations
    → waits event_id s ≡ true
    → sorts_before s r ≡ false
unfolding fill_free_spots
fill_free_spots_fair event_id now db e r s u found m w p n v =
    let at : find_event event_id (settle_locked event_id now db).1.events ≡ some e =
      ap (find_event event_id) (settle_locked-events event_id now db) ∙ found in
    promote_loop_fair event_id now e.event_name
      (e.registration_limit
        - registered_count event_id (settle_locked event_id now db).1.registrations)
      (settle_locked event_id now db).1 r s (λ i. rw (settle_locked-has_id i event_id now db) (u i))
      m w (rw (at, fill_free_spots) at p) (rw (at, fill_free_spots) at n) v
