-- ===== src/System/Lifecycle/Final.antt =====
-- The status of an event over any sequence of calls (backend/src/events/status, backend/src/registrations).
use native.Mathlib.Decide.{ℕ_discrete}
use is212_g5_t.Base.{
  ℕ, ◌≡◌, refl, sym, ap, ◌∙◌, inl, inr, Bool, true, false, List, [], ◌∷◌, some, Option, arith,
}
use is212_g5_t.Schema.{
  Event, EventStatus, Db, AuthenticatedUser, RouteId, Result, ok, err, find_event,
}
use is212_g5_t.Waitlist.{settle_locked, settle_each, run_registration_close_job}
use is212_g5_t.Transaction.{transaction}
use is212_g5_t.Waitlist.Settling.{settle_if_due-eq-settle_locked}
use is212_g5_t.Registrations.{Body, RegistrationView}
use is212_g5_t.Registrations.Registering.{register, register_work}
use is212_g5_t.Registrations.Joining.{join_waitlist, join_work}
use is212_g5_t.Registrations.Withdrawing.{withdraw, withdraw_work, thrown_late}
use is212_g5_t.Registrations.Reading.{find_mine, find_mine_work}
use is212_g5_t.Registrations.Settings.{update, update_work}
use is212_g5_t.Cancel.{Confirmation}
use is212_g5_t.Status.{Target, change_status}
use is212_g5_t.Status.Handlers.{Changed}
use is212_g5_t.Status.Endpoint.{change_status_cases}
use is212_g5_t.Status.Planning.{request_safety_check}
use is212_g5_t.Status.SafetyRequest.{request_safety_check_cases}
use is212_g5_t.Status.Transitions.{Step}
use is212_g5_t.Status.Courses.{confirm_no_equipment-Course, set_feedback_resolution-Course}
use is212_g5_t.Venues.Courses.{serve-Course}
use is212_g5_t.System.Keeping.{
  assign-Keeps, reassign-Keeps, create-Keeps, decide-Keeps, Course-Onward,
}
use is212_g5_t.System.{
  Call, registers, joins, withdraws, reads_mine, updates, changes_status, requests_check, closes,
  assigns, reassigns, files_request, decides_request, confirms_no_equipment, resolves_feedback,
  venue_call, serve, run,
}
use is212_g5_t.System.Lifecycle.{
  Move, endpoint, plans, Reaches, here, later, Onward, Onward-kept, Onward-same, Onward-trans,
  transaction-Onward,
}
use is212_g5_t.System.Lifecycle.Steps.{settle_locked-Onward}
use is212_g5_t.System.Lifecycle.Calls.{register_work-Advances, join_work-Advances}
use is212_g5_t.System.Lifecycle.Later.{
  withdraw_work-Advances, find_mine_work-Advances, update_work-Advances,
}

thrown_late-after : (r : Result (Result RegistrationView) × Db) → (thrown_late r).1 ≡ r.1
thrown_late-after (ok r, db) = refl
thrown_late-after (err e, db) = refl

withdraw-Onward :
    (identity : Option AuthenticatedUser) (id : RouteId) (body : Body) (now : ℕ) (db : Db)
    → Onward db (withdraw identity id body now db).1
unfolding withdraw
withdraw-Onward identity id body now db =
    rw (thrown_late-after (transaction (withdraw_work identity id body now) db)) (
      transaction-Onward (withdraw_work identity id body now) db
        (withdraw_work-Advances identity id body now))

Changed-Onward :
    (user : AuthenticatedUser) (now : ℕ) (db db' : Db) → Changed user now db db' → Onward db db'
Changed-Onward user now db db' c k e found = elim (ℕ_discrete k c.event_id) [
  | yes h ↦ moved_on h
  | no ne ↦ (e, c.moved.other_events k ne ∙ found, here e.status)
]
  where
    moved_on :
        k ≡ c.event_id
        → (e' : Event) × (find_event k db'.events ≡ some e') × Reaches e.status e'.status
    moved_on h =
        let same : c.event ≡ e = cc (found, c.found, ap (λ j. find_event j db.events) h) in
        (
          c.moved.e',
          ap (λ j. find_event j db'.events) h ∙ c.moved.status,
          rw (c.moved.to_status, sym same)
              (later c.event.status c.to c.to (endpoint c.event.status c.to c.moved.step)
                (here c.to)),
        )

change_status-Onward :
    (identity : Option AuthenticatedUser) (id : RouteId) (target : Target) (body : Confirmation)
    (now : ℕ) (db : Db)
    → Onward db (change_status identity id target body now db).1
change_status-Onward identity id target body now db =
    elim (change_status_cases identity id target body now db) [
      | inl same ↦ rw same (Onward-same db)
      | inr (user, known, changed) ↦
          Changed-Onward user now db (change_status identity id target body now db).1 changed
    ]

request_safety_check-Onward :
    (identity : Option AuthenticatedUser) (id : RouteId) (now : ℕ) (db : Db)
    → Onward db (request_safety_check identity id now db).1
request_safety_check-Onward identity id now db =
    elim (request_safety_check_cases identity id now db) [
      | inl same ↦ rw same (Onward-same db)
      | inr (user, event_id, known, r) ↦
          Onward-kept db (request_safety_check identity id now db).1 r.events
    ]

settle_each-Onward : (ids : List ℕ) (now : ℕ) (db : Db) → Onward db (settle_each ids now db).1
unfolding settle_each
settle_each-Onward [] now db = Onward-same db
settle_each-Onward (id ∷ ids) now db =
    let db₁ : Db = (settle_locked id now db).1 in
    rw (settle_if_due-eq-settle_locked id now db) (
      Onward-trans db db₁ (settle_each ids now db₁).1 (settle_locked-Onward id now db)
        (settle_each-Onward ids now db₁))

serve-Onward : (call : Call) (db : Db) → Onward db (serve call db)
unfolding serve register join_waitlist find_mine update run_registration_close_job
serve-Onward (registers identity id validated env) db =
    transaction-Onward (register_work identity id validated env) db
      (register_work-Advances identity id validated env)
serve-Onward (joins identity id body env) db =
    transaction-Onward (join_work identity id body env) db (join_work-Advances identity id body env)
serve-Onward (withdraws identity id body now) db = withdraw-Onward identity id body now db
serve-Onward (reads_mine identity id now) db =
    transaction-Onward (find_mine_work identity id now) db (find_mine_work-Advances identity id now)
serve-Onward (updates identity id parsed now) db =
    transaction-Onward (update_work identity id parsed now) db
      (update_work-Advances identity id parsed now)
serve-Onward (changes_status identity id target body now) db =
    change_status-Onward identity id target body now db
serve-Onward (requests_check identity id now) db = request_safety_check-Onward identity id now db
serve-Onward (closes now) db = settle_each-Onward _ now db
serve-Onward (assigns identity id body sql_now) db = (assign-Keeps identity id body sql_now db).1
serve-Onward (reassigns identity id body shown sql_now) db =
    (reassign-Keeps identity id body shown sql_now db).1
serve-Onward (files_request identity id body now new_id) db =
    (create-Keeps identity id body now new_id db).1
serve-Onward (decides_request identity id body now) db = (decide-Keeps identity id body now db).1
serve-Onward (confirms_no_equipment identity id now) db =
    Course-Onward db _ (confirm_no_equipment-Course identity id now db)
serve-Onward (resolves_feedback identity id feedback_id resolved now) db =
    Course-Onward db _ (set_feedback_resolution-Course identity id feedback_id resolved now db)
serve-Onward (venue_call call) db = Course-Onward db _ (serve-Course call db)

run-Onward : (calls : List Call) (db : Db) → Onward db (run calls db)
unfolding run
run-Onward [] db = Onward-same db
run-Onward (call ∷ calls) db =
    Onward-trans db (serve call db) (run calls (serve call db)) (serve-Onward call db)
      (run-Onward calls (serve call db))

-- An event that is there stays there after any sequence of the modelled calls, by anybody and in any
-- order, and its status afterwards is one that two kinds of move reach from its status before: the
-- transitions of the status endpoint, and that of an Approved event to Planning.
pub run-Reaches :
    (calls : List Call) (db : Db) (k : ℕ) (e : Event)
    → find_event k db.events ≡ some e
    → (e' : Event) × (find_event k (run calls db).events ≡ some e') × Reaches e.status e'.status
run-Reaches = run-Onward

-- Rejected, Completed and Cancelled.
abbrev pub is_final : EventStatus → Bool
is_final EventStatus.rejected = true
is_final EventStatus.completed = true
is_final EventStatus.cancelled = true
is_final _ = false

Step-final : (s t : EventStatus) → is_final s ≡ true → Step s t → t ≡ s
Step-final s t final Step.confirms = absurd (ground arith)
Step-final s t final Step.completes = absurd (ground arith)
Step-final s t final (Step.cancels _ can) = absurd (ground arith)

Move-final : (s t : EventStatus) → is_final s ≡ true → Move s t → t ≡ s
Move-final s t final (endpoint _ _ step) = Step-final s t final step
Move-final s t final plans = absurd (ground arith)

Reaches-final : (s t : EventStatus) → is_final s ≡ true → Reaches s t → t ≡ s
Reaches-final s t final (here _) = refl
Reaches-final s t final (later _ m _ step rest) =
    let stays = Move-final s m final step in Reaches-final m t (rw stays final) rest ∙ stays

-- A Rejected, Completed or Cancelled event is still there, with the same status, after any sequence
-- of the modelled calls.
pub run_keeps_final :
    (calls : List Call) (db : Db) (k : ℕ) (e : Event)
    → find_event k db.events ≡ some e
    → is_final e.status ≡ true
    → (e' : Event) × (find_event k (run calls db).events ≡ some e') × (e'.status ≡ e.status)
run_keeps_final calls db k e found final =
    let (e', at, reached) = run-Onward calls db k e found in
    (e', at, Reaches-final e.status e'.status final reached)
