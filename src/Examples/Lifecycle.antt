-- ===== src/Examples/Lifecycle.antt =====
-- Confirming, completing and cancelling at a concrete database.
use is212_g5_t.Base.{◌≡◌, refl, ◌⊎◌, false, some}
use is212_g5_t.Schema.{EventStatus, Db, AuthenticatedUser, uuid}
use is212_g5_t.Transaction.{done}
use is212_g5_t.Readiness.{
  evaluate_readiness, venue_item, equipment_item, safety_item, has_approved_replacement,
  approved_hold_state, fact_state,
}
use is212_g5_t.Cancel.{StatusView, not_confirmed, cancel_inside}
use is212_g5_t.Cancel.Outcomes.{Cancelled, cancel_inside_lem}
use is212_g5_t.Status.{
  to_confirmed, has_event_ended, read_arrangements, confirm, complete, change_status,
}
use is212_g5_t.Status.Transitions.{Moved, confirm_lem, complete_lem}
use is212_g5_t.Status.Handlers.{Changed}
use is212_g5_t.Status.Endpoint.{change_status_cases}
use is212_g5_t.Examples.Sample.{sample, talk, planning, planned, coordinator}

cancel_inside_lem_example :
    (view : StatusView) × (db' : Db) × (cancel_inside coordinator 1 100 false sample
      ≡ done view db')
    × Cancelled 1 talk 91 100 false sample db'
cancel_inside_lem_example = cancel_inside_lem coordinator 1 100 false sample talk refl refl refl

confirm_lem_example :
    (view : StatusView) × (db' : Db) × (confirm coordinator 1 100 planning ≡ done view db')
    × Moved 1 planned EventStatus.confirmed 91 100 planning db'
    × (db'.registrations ≡ planning.registrations)
unfolding evaluate_readiness read_arrangements venue_item equipment_item safety_item
    has_approved_replacement approved_hold_state fact_state
confirm_lem_example = confirm_lem coordinator 1 100 planning planned refl refl refl refl

complete_lem_example :
    (view : StatusView) × (db' : Db) × (complete coordinator 1 1100 sample ≡ done view db')
    × Moved 1 talk EventStatus.completed 91 1100 sample db'
    × (db'.registrations ≡ sample.registrations)
unfolding has_event_ended
complete_lem_example = complete_lem coordinator 1 1100 sample talk refl refl refl refl

change_status_cases_example :
    let db' =
      (change_status (some coordinator) (uuid 1) to_confirmed not_confirmed 100 planning).1 in
    (db' ≡ planning)
    ⊎ ((user : AuthenticatedUser) × (some coordinator ≡ some user) × Changed user 100 planning db')
change_status_cases_example =
    change_status_cases (some coordinator) (uuid 1) to_confirmed not_confirmed 100 planning
