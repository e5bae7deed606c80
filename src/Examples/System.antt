-- ===== src/Examples/System.antt =====
-- A sequence of calls, and a request of the safety check, at a concrete database.
use is212_g5_t.Base.{ℕ, ◌≡◌, refl, ◌⊎◌, some, List, [], ◌∷◌}
use is212_g5_t.Schema.{Db, Event, EventStatus, AuthenticatedUser, ok, uuid, find_event}
use is212_g5_t.Registrations.{absent}
use is212_g5_t.Registrations.Invariant.{Valid}
use is212_g5_t.Status.Planning.{request_safety_check}
use is212_g5_t.Status.SafetyRequest.{Requested, request_safety_check_cases}
use is212_g5_t.System.{Call, joins, withdraws, changes_status, closes, venue_call, run}
use is212_g5_t.System.Runs.{run-Valid}
use is212_g5_t.System.Lifecycle.{Reaches}
use is212_g5_t.System.Lifecycle.Final.{run-Reaches, run_keeps_final}
use is212_g5_t.Cancel.{Confirmation}
use is212_g5_t.Status.{Target}
use is212_g5_t.Venues
use is212_g5_t.Examples.Venues.{request, workshop, evening_booked}
use is212_g5_t.Examples.Sample.{talk, sample, sample-Valid, planning, attendee_of, coordinator, env}

-- One attendee joins the waiting list, another gives a place up, and registration closes.
abbrev calls : List Call
calls =
    joins (some (attendee_of 55)) (uuid 1) absent env
    ∷ (withdraws (some (attendee_of 50)) (uuid 5) absent 100 ∷ (closes 950 ∷ []))

run-Valid_example : Valid (run calls sample)
run-Valid_example = run-Valid calls sample sample-Valid (refl, (tt, (tt, tt)))

-- The same arrangements before their check.
abbrev unchecked : Db
unchecked = record planning { safety_checks = [] }

request_safety_check_cases_example :
    let db' = (request_safety_check (some coordinator) (uuid 1) 100 unchecked).1 in
    (db' ≡ unchecked)
    ⊎ ((user : AuthenticatedUser) × (event_id : ℕ) × (some coordinator ≡ some user)
        × Requested event_id user.uid 100 unchecked db')
request_safety_check_cases_example =
    request_safety_check_cases (some coordinator) (uuid 1) 100 unchecked

-- The coordinator asks for the hall, which starts the planning of an Approved event, and cancels it.
abbrev planning_calls : List Call
planning_calls =
    venue_call (
      Venues.Runs.submits (some coordinator) (uuid 2)
        (ok (Venues.Service.RequestBody.for_booking request)) env)
    ∷ (changes_status (some coordinator) (uuid 2) Target.to_cancelled Confirmation.confirmed_true
          100
        ∷ [])

run-Reaches_example :
    (e' : Event) × (find_event 2 (run planning_calls evening_booked).events ≡ some e')
    × Reaches EventStatus.approved e'.status
run-Reaches_example = run-Reaches planning_calls evening_booked 2 workshop refl

-- The event once it is cancelled; its coordinator tries to complete it and to cancel it again.
abbrev called_off : Event
called_off = record talk { status = EventStatus.cancelled }

abbrev after_cancelling : Db
after_cancelling = record sample { events = called_off ∷ [] }

abbrev late_calls : List Call
late_calls =
    changes_status (some coordinator) (uuid 1) Target.to_completed Confirmation.confirmed_true 2000
    ∷ (changes_status (some coordinator) (uuid 1) Target.to_cancelled Confirmation.confirmed_true
          100
        ∷ calls)

run_keeps_final_example :
    (e' : Event) × (find_event 1 (run late_calls after_cancelling).events ≡ some e')
    × (e'.status ≡ EventStatus.cancelled)
run_keeps_final_example = run_keeps_final late_calls after_cancelling 1 called_off refl refl
