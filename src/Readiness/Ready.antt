-- ===== src/Readiness/Ready.antt =====
-- The readiness rule against its description (backend/src/events/status/readiness.ts).
use is212_g5_t.Base.{
  ℕ, ◌≡◌, ◌↔◌, refl, sym, ◌∙◌, ◌⊎◌, inl, inr, Bool, true, false, not, ◌||◌, some, arith, all, Has,
  all-Has, Has-all, any-Has, Has-any, Has-keep, keep-Has, is_some, Bool-cases,
}
use is212_g5_t.Schema.{EquipmentReservation}
use is212_g5_t.Readiness.Sorting.{sort_by, Has-sort_by, sort_by-Has}
use is212_g5_t.Readiness.{
  ReadinessSnapshot, SafetyFact, is_active_booking, is_inactive, is_reserved, safety_item,
  active_bookings, no_venue, no_equipment, evaluate_readiness,
}
use is212_g5_t.Readiness.Rule.{
  VenueReady, EquipmentReady, settles, settles-Venue, Venue-settles, outstanding_free, ready_lem,
  no_venue-Venue, Venue-no_venue,
}

module _ (s : ReadinessSnapshot) (now : ℕ) where
  abbrev bookings_settled : Bool
  bookings_settled =
      all (settles (active_bookings s.venue_bookings) now)
        (sort_by (λ b. b.id) (active_bookings s.venue_bookings))

  abbrev lines_settled : Bool
  lines_settled =
      all (λ l. is_inactive l.status || is_reserved l.status)
        (sort_by (λ line. line.id) s.equipment)

  venue_part : no_venue s.venue_bookings ≡ false → bookings_settled ≡ true → VenueReady s
  venue_part n h = (
    no_venue-Venue s.venue_bookings n,
    λ b m a. settles-Venue (active_bookings s.venue_bookings) now b (
        all-Has (settles (active_bookings s.venue_bookings) now)
          (sort_by (λ b. b.id) (active_bookings s.venue_bookings)) b h
          (Has-sort_by (λ b. b.id) (active_bookings s.venue_bookings) b
            (Has-keep (λ b. is_active_booking b.status) s.venue_bookings b m a))),
  )

  part_venue : VenueReady s → (no_venue s.venue_bookings ≡ false) × (bookings_settled ≡ true)
  part_venue (some_booking, each) = (
    Venue-no_venue s.venue_bookings some_booking,
    Has-all (settles (active_bookings s.venue_bookings) now)
        (sort_by (λ b. b.id) (active_bookings s.venue_bookings))
        (λ b m.
          let (n, a) =
            keep-Has (λ b. is_active_booking b.status) s.venue_bookings b
              (sort_by-Has (λ b. b.id) (active_bookings s.venue_bookings) b m) in
          Venue-settles (active_bookings s.venue_bookings) now b (each b n a)),
  )

  equipment_part : no_equipment s ≡ false → lines_settled ≡ true → EquipmentReady s
  equipment_part n h = (
    elim (Bool-cases s.equipment_none_confirmed) [
      | inl confirmed ↦ inl confirmed
      | inr open_need ↦
          let (l, m, e) =
            any-Has (λ line. not (is_inactive line.status)) s.equipment (ground arith) in
          inr (l, m, ground arith)
    ],
    λ l m a.
        let e =
          all-Has (λ l. is_inactive l.status || is_reserved l.status)
            (sort_by (λ line. line.id) s.equipment) l h
            (Has-sort_by (λ line. line.id) s.equipment l m) in
        ground arith,
  )

  some_line :
      (s.equipment_none_confirmed ≡ true)
        ⊎ ((l : EquipmentReservation) × Has l s.equipment × (is_inactive l.status ≡ false))
      → no_equipment s ≡ false
  some_line (inl confirmed) = ground arith
  some_line (inr (l, m, e)) =
      ground (arith, Has-any (λ line. not (is_inactive line.status)) s.equipment l m (ground arith))

  part_equipment : EquipmentReady s → (no_equipment s ≡ false) × (lines_settled ≡ true)
  part_equipment (some_need, each) = (
    some_line some_need,
    Has-all (λ l. is_inactive l.status || is_reserved l.status)
        (sort_by (λ line. line.id) s.equipment)
        (λ l m. let e = each l (sort_by-Has (λ line. line.id) s.equipment l m) in ground arith),
  )

  safety_part : is_some (safety_item s.safety) ≡ false → s.safety ≡ some SafetyFact.approved
  unfolding safety_item
  safety_part h = ground arith

  part_safety : s.safety ≡ some SafetyFact.approved → is_some (safety_item s.safety) ≡ false
  unfolding safety_item
  part_safety h = ground arith

-- An event is ready exactly when its venues, its equipment and its safety check are: there is an
-- active booking, or there are bookings and none was cancelled; every active booking is a confirmed
-- one, or rejected and replaced by one; some equipment line is active or the coordinator has
-- confirmed that none is needed, and every active line is reserved; and the safety check is approved.
pub evaluate_readiness_lem :
    (s : ReadinessSnapshot) (now : ℕ)
    → ((evaluate_readiness s now).ready ≡ true)
      ↔ (VenueReady s × EquipmentReady s × (s.safety ≡ some SafetyFact.approved))
evaluate_readiness_lem s now = (there, back)
  where
    there :
        (evaluate_readiness s now).ready ≡ true
        → VenueReady s × EquipmentReady s × (s.safety ≡ some SafetyFact.approved)
    there h =
        let free : outstanding_free s now ≡ true = sym (ready_lem s now) ∙ h in
        (
          venue_part s now (ground arith) (ground arith),
          equipment_part s now (ground arith) (ground arith),
          safety_part s now (ground arith),
        )

    back :
        VenueReady s × EquipmentReady s × (s.safety ≡ some SafetyFact.approved)
        → (evaluate_readiness s now).ready ≡ true
    back (v, e, a) =
        let (some_booking, settled) = part_venue s now v in
        let (some_need, reserved) = part_equipment s now e in
        let safe = part_safety s now a in
        ready_lem s now ∙ rw (some_booking, settled, some_need, reserved, safe) refl
