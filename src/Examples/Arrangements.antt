-- ===== src/Examples/Arrangements.antt =====
-- Readiness and the checklist at concrete arrangements: a rejected booking that a confirmed one
-- replaces, and a reserved line of equipment.
use is212_g5_t.Base.{◌≡◌, ◌↔◌, refl, ◌&&◌, ◌||◌, true, false, none, some, [], ◌∷◌, is_empty}
use is212_g5_t.Schema.{BookingStatus}
use is212_g5_t.Readiness.{
  ReadinessSnapshot, SafetyFact, evaluate_readiness, venue_item, equipment_item, safety_item,
  has_approved_replacement, approved_hold_state,
}
use is212_g5_t.Readiness.Rule.{VenueReady, EquipmentReady}
use is212_g5_t.Readiness.Ready.{evaluate_readiness_lem}
use is212_g5_t.Checklist.{ChecklistInput, is_confirmed, current_bookings, build_checklist}
use is212_g5_t.Checklist.Texts.{equipment_required}
use is212_g5_t.Checklist.Agreement.{snapshot_of, build_checklist-ready}
use is212_g5_t.Examples.Sample.{hall, early_hall, chairs}

abbrev arrangements : ReadinessSnapshot
arrangements = record {
  venue_bookings = early_hall ∷ hall ∷ [];
  equipment = chairs ∷ [];
  safety = some SafetyFact.approved;
  equipment_none_confirmed = false;
}

evaluate_readiness_lem_example : ((evaluate_readiness arrangements 100).ready ≡ true) ↔ (
    VenueReady arrangements
    × EquipmentReady arrangements
    × (some SafetyFact.approved ≡ some SafetyFact.approved))
evaluate_readiness_lem_example = evaluate_readiness_lem arrangements 100

-- These arrangements are ready; without the confirmed booking they are not.
arrangements_ready : (evaluate_readiness arrangements 100).ready ≡ true
unfolding evaluate_readiness venue_item equipment_item safety_item has_approved_replacement
    approved_hold_state
arrangements_ready = refl

rejected_not_ready :
    (evaluate_readiness (record arrangements { venue_bookings = early_hall ∷ [] }) 100).ready
    ≡ false
unfolding evaluate_readiness venue_item equipment_item safety_item has_approved_replacement
    approved_hold_state
rejected_not_ready = refl

-- A booking that was released is no booking request, and leaves nothing outstanding for the venue.
released_ready :
    (evaluate_readiness
      (record arrangements {
        venue_bookings = record hall { status = BookingStatus.released } ∷ [];
      })
      100).ready
    ≡ true
unfolding evaluate_readiness venue_item equipment_item safety_item has_approved_replacement
    approved_hold_state
released_ready = refl

abbrev page : ChecklistInput
page = record {
  venue_bookings = early_hall ∷ hall ∷ [];
  equipment = chairs ∷ [];
  equipment_needs = 67 ∷ [];
  equipment_confirmed_at = none;
  safety = record { status = none; feedback = [] };
  registration = none;
  now = 100;
}

build_checklist-ready_example :
    let c = build_checklist page in
    ((is_confirmed c.venue_section.status
        && (is_confirmed c.equipment_section.status || c.confirmed_by_coordinator))
      ≡ true)
    ↔ (((evaluate_readiness (snapshot_of page) 100).ready ≡ true)
        × (is_empty (current_bookings (early_hall ∷ hall ∷ [])) ≡ false))
build_checklist-ready_example = build_checklist-ready page

-- " None " asks for no equipment.
none_requires_nothing : equipment_required (32 ∷ 78 ∷ 111 ∷ 110 ∷ 101 ∷ 32 ∷ []) ≡ false
unfolding equipment_required
none_requires_nothing = refl
