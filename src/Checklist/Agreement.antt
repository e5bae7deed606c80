-- ===== src/Checklist/Agreement.antt =====
-- The planning page and the confirm gate agree (backend/src/events/status/checklist.ts, readiness.ts).
use is212_g5_t.Base.{
  ℕ, ◌≡◌, ◌↔◌, refl, sym, ◌∙◌, ◌⊎◌, inl, inr, Bool, true, false, not, ◌&&◌, ◌||◌, some, List, [],
  ◌∷◌, arith, map, any, all, Has, all-Has, Has-all, Has-keep, keep-Has, is_empty, is_some,
  Bool-cases,
}
use is212_g5_t.Schema.{VenueBooking, EquipmentReservation}
use is212_g5_t.Readiness.{
  ReadinessSnapshot, SafetyFact, approved_hold_state, is_rejected, is_inactive, is_reserved,
  is_active_booking, has_approved_replacement, active_bookings, evaluate_readiness,
}
use is212_g5_t.Readiness.Rule.{
  is_confirmed_booking, Replaced, VenueReady, EquipmentReady, has_replacement-Replaced,
  Replaced-has_replacement, is_empty-Has, Has-is_empty,
}
use is212_g5_t.Readiness.Ready.{evaluate_readiness_lem}
use is212_g5_t.Checklist.{
  RequestStatus, ChecklistInput, venue_request_status, equipment_request_status, is_unavailable,
  is_pending, is_confirmed, combined, section_status, is_current, current_bookings, current_lines,
  none_confirmed, venue_status, equipment_status, build_checklist,
}

module _ {A : Type 0} (f : A → RequestStatus)
    (known : (x : A) → (is_unavailable (f x) || is_pending (f x)) ≡ not (is_confirmed (f x))) where
  none_open :
      (xs : List A)
      → (any is_unavailable (map f xs) || any is_pending (map f xs))
        ≡ not (all (λ x. is_confirmed (f x)) xs)
  none_open [] = refl
  none_open (x ∷ xs) = ground (arith, known x, none_open xs)

  section_status_confirmed :
      (xs : List A)
      → is_confirmed (section_status (map f xs))
        ≡ (not (is_empty xs) && all (λ x. is_confirmed (f x)) xs)
  unfolding combined
  section_status_confirmed [] = refl
  section_status_confirmed (x ∷ xs) = ground (arith, none_open (x ∷ xs))

venue_request_status_known :
    (now : ℕ) (b : VenueBooking)
    → (is_unavailable (venue_request_status b now) || is_pending (venue_request_status b now))
      ≡ not (is_confirmed (venue_request_status b now))
unfolding venue_request_status approved_hold_state
venue_request_status_known now b = ground arith

venue_request_status_confirmed :
    (now : ℕ) (b : VenueBooking)
    → is_confirmed (venue_request_status b now) ≡ is_confirmed_booking b
unfolding venue_request_status approved_hold_state
venue_request_status_confirmed now b = ground arith

equipment_request_status_known :
    (l : EquipmentReservation)
    → (is_unavailable (equipment_request_status l) || is_pending (equipment_request_status l))
      ≡ not (is_confirmed (equipment_request_status l))
unfolding equipment_request_status
equipment_request_status_known l = ground arith

equipment_request_status_confirmed :
    (l : EquipmentReservation) → is_confirmed (equipment_request_status l) ≡ is_reserved l.status
unfolding equipment_request_status
equipment_request_status_confirmed l = ground arith

-- What the confirm gate sees of the checklist's input, with an approved safety check.
abbrev pub snapshot_of : ChecklistInput → ReadinessSnapshot
snapshot_of input = record {
  venue_bookings = input.venue_bookings;
  equipment = input.equipment;
  safety = some SafetyFact.approved;
  equipment_none_confirmed = is_some input.equipment_confirmed_at;
}

module _ (input : ChecklistInput) where
  abbrev held : List VenueBooking
  held = active_bookings input.venue_bookings

  abbrev all_confirmed : Bool
  all_confirmed =
      all (λ b. is_confirmed (venue_request_status b input.now))
        (current_bookings input.venue_bookings)

  abbrev all_reserved : Bool
  all_reserved =
      all (λ l. is_confirmed (equipment_request_status l)) (current_lines input.equipment)

  venue_ready :
      is_empty (current_bookings input.venue_bookings) ≡ false
      → all_confirmed ≡ true
      → VenueReady (snapshot_of input)
  unfolding is_current
  venue_ready ne h =
      let (b, m) = is_empty-Has (current_bookings input.venue_bookings) ne in
      let (n, c) = keep-Has (is_current held) held b m in
      let (o, a) = keep-Has (λ x. is_active_booking x.status) input.venue_bookings b n in
      (
        inl (b, o, a),
        λ x p q. elim (Bool-cases (is_rejected x.status && has_approved_replacement x held)) [
          | inl old ↦ inr (has_replacement-Replaced held x (ground arith) (ground arith))
          | inr new ↦
              let e =
                all-Has (λ y. is_confirmed (venue_request_status y input.now))
                  (current_bookings input.venue_bookings) x h
                  (Has-keep (is_current held) held x
                    (Has-keep (λ y. is_active_booking y.status) input.venue_bookings x p q)
                    (ground arith)) in
              inl (sym (venue_request_status_confirmed input.now x) ∙ e)
        ],
      )

  ready_venue : VenueReady (snapshot_of input) → all_confirmed ≡ true
  unfolding is_current
  ready_venue (some_booking, each) =
      Has-all (λ y. is_confirmed (venue_request_status y input.now))
        (current_bookings input.venue_bookings)
        λ x m.
          let (n, current) = keep-Has (is_current held) held x m in
          let (o, a) = keep-Has (λ y. is_active_booking y.status) input.venue_bookings x n in
          venue_request_status_confirmed input.now x ∙ one x current (each x o a)
    where
      one :
          (x : VenueBooking)
          → is_current held x ≡ true
          → (is_confirmed_booking x ≡ true) ⊎ Replaced held x
          → is_confirmed_booking x ≡ true
      one x current (inl confirmed) = confirmed
      one x current (inr replaced) =
          absurd (ground (arith, replaced.0, Replaced-has_replacement held x replaced))

  equipment_ready :
      (((not (is_empty (current_lines input.equipment)) && all_reserved) || none_confirmed input)
        ≡ true)
      → EquipmentReady (snapshot_of input)
  equipment_ready h = elim (Bool-cases (is_empty (current_lines input.equipment))) [
    | inl no_lines ↦ (
      inl (ground arith),
      λ l m active. absurd (
          ground (
            arith,
            Has-is_empty (current_lines input.equipment) l
                (Has-keep (λ y. not (is_inactive y.status)) input.equipment l m (ground arith)),
          )),
    )
    | inr lines ↦
        let (l, m) = is_empty-Has (current_lines input.equipment) lines in
        let (n, active) = keep-Has (λ y. not (is_inactive y.status)) input.equipment l m in
        (
          inr (l, n, ground arith),
          λ x p q.
              sym (equipment_request_status_confirmed x)
              ∙ all-Has (λ y. is_confirmed (equipment_request_status y))
                  (current_lines input.equipment) x (ground arith)
                  (Has-keep (λ y. not (is_inactive y.status)) input.equipment x p (ground arith)),
        )
  ]

  ready_equipment :
      EquipmentReady (snapshot_of input)
      → ((not (is_empty (current_lines input.equipment)) && all_reserved) || none_confirmed input)
        ≡ true
  ready_equipment (some_need, each) = ground (arith, reserved, needed some_need)
    where
      reserved : all_reserved ≡ true
      reserved =
          Has-all (λ y. is_confirmed (equipment_request_status y)) (current_lines input.equipment)
            λ x m.
              let (n, active) = keep-Has (λ y. not (is_inactive y.status)) input.equipment x m in
              equipment_request_status_confirmed x ∙ each x n (ground arith)

      needed :
          (is_some input.equipment_confirmed_at ≡ true)
            ⊎ ((l : EquipmentReservation) × Has l input.equipment × (is_inactive l.status ≡ false))
          → (not (is_empty (current_lines input.equipment)) || is_some input.equipment_confirmed_at)
            ≡ true
      needed (inl confirmed) = ground arith
      needed (inr (l, m, active)) = ground (
        arith,
        Has-is_empty (current_lines input.equipment) l
            (Has-keep (λ y. not (is_inactive y.status)) input.equipment l m (ground arith)),
      )

-- The page shows the venues as confirmed, and the equipment as confirmed or confirmed as not needed,
-- exactly when the event is ready but for its safety check and a booking stands that is not a
-- replaced rejection.
pub build_checklist-ready :
    (input : ChecklistInput)
    → let c = build_checklist input in
      ((is_confirmed c.venue_section.status
          && (is_confirmed c.equipment_section.status || c.confirmed_by_coordinator))
        ≡ true)
      ↔ (((evaluate_readiness (snapshot_of input) input.now).ready ≡ true)
          × (is_empty (current_bookings input.venue_bookings) ≡ false))
unfolding build_checklist
build_checklist-ready input = (there, back)
  where
    venues :
        is_confirmed (venue_status input)
        ≡ (not (is_empty (current_bookings input.venue_bookings)) && all_confirmed input)
    venues =
        section_status_confirmed (λ b. venue_request_status b input.now)
          (venue_request_status_known input.now) (current_bookings input.venue_bookings)

    lines :
        is_confirmed (equipment_status input)
        ≡ (not (is_empty (current_lines input.equipment)) && all_reserved input)
    lines =
        section_status_confirmed equipment_request_status equipment_request_status_known
          (current_lines input.equipment)

    there :
        (is_confirmed (venue_status input)
            && (is_confirmed (equipment_status input) || none_confirmed input))
          ≡ true
        → ((evaluate_readiness (snapshot_of input) input.now).ready ≡ true)
          × (is_empty (current_bookings input.venue_bookings) ≡ false)
    there h =
        let g = rw (venues, lines) at h in
        let ne : is_empty (current_bookings input.venue_bookings) ≡ false = ground arith in
        (
          (evaluate_readiness_lem (snapshot_of input) input.now).1
              (venue_ready input ne (ground arith), equipment_ready input (ground arith), refl),
          ne,
        )

    back :
        ((evaluate_readiness (snapshot_of input) input.now).ready ≡ true)
          × (is_empty (current_bookings input.venue_bookings) ≡ false)
        → (is_confirmed (venue_status input)
            && (is_confirmed (equipment_status input) || none_confirmed input))
          ≡ true
    back (r, ne) =
        let (v, e, _) = (evaluate_readiness_lem (snapshot_of input) input.now).0 r in
        rw (venues, lines) (rw (ne, ready_venue input v, ready_equipment input e) refl)
