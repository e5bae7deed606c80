-- ===== src/Status/SafetyRequest.antt =====
-- A request of the safety check (backend/src/events/status/status.service.ts, requestSafetyCheck).
use is212_g5_t.Base.{
  ℕ, ◌≡◌, refl, ◌⊎◌, inl, inr, Bool, true, false, not, ◌&&◌, ◌||◌, Option, none, some, List, [],
  ◌∷◌, ◌==◌, arith, any, keep, find_by, count_if, update_where, ltb, some_eq, if◌then◌else◌,
  Option-cases, Bool-cases,
}
use is212_g5_t.Schema.{
  Event, EventStatus, SafetyCheck, SafetyStatus, FeedbackItem, Db, AuthenticatedUser, RouteId,
  Refusal, find_event,
}
use is212_g5_t.Transaction.{done, thrown, throw_if, ◌>>=◌, ◌>>◌}
use is212_g5_t.Transaction.Reading.{Reads, after, transaction-after, reads_before, throw_if-Reads}
use is212_g5_t.Readiness.{ReadinessSnapshot, SafetyFact, evaluate_readiness}
use is212_g5_t.Checklist.{build_checklist, is_confirmed}
use is212_g5_t.Checklist.Agreement.{build_checklist-ready}
use is212_g5_t.Status.{read_arrangements, is_planning}
use is212_g5_t.Status.Endpoint.{assigned_event_or_throw-Reads}
use is212_g5_t.Status.Planning.{
  assert_planning, planning_event, planning_row, planning_input, check_current, check_requestable,
  feedback_can_be_resolved, check_of, unresolved_count, pending_check, store_request,
  request_safety_check_for, request_safety_check,
}

-- The request that a coordinator of a planned event has made, and the arrangements it rests on.
pub record Requested (event_id uid now : ℕ) (db db' : Db) : Type 0 where
  pub event : Event
  pub found : find_event event_id db.events ≡ some event
  pub assigned : some_eq event.coordinator_id uid ≡ true
  pub planned : event.status ≡ EventStatus.planning
  pub arrangements :
      (evaluate_readiness
        (record (read_arrangements event_id db) { safety = some SafetyFact.approved })
        now).ready
      ≡ true
  pub check :
      find_by (λ (c : SafetyCheck). c.event_id == event_id) db'.safety_checks
      ≡ some (record {
        event_id = event_id;
        status = SafetyStatus.pending;
        requested_at = now;
        requested_by = uid;
        approver_name = none;
        feedback = none;
        decided_at = none;
      })
  pub no_feedback : count_if (λ f. f.event_id == event_id) db'.feedback_items ≡ 0
  pub events : db'.events ≡ db.events
  pub registrations : db'.registrations ≡ db.registrations

can_request_confirmed :
    (row : Event) (snapshot : ReadinessSnapshot) (now : ℕ)
    → let c = build_checklist (planning_input row snapshot now) in
      c.can_request_safety_check ≡ true
      → (is_confirmed c.venue_section.status
          && (is_confirmed c.equipment_section.status || c.confirmed_by_coordinator))
        ≡ true
unfolding build_checklist
can_request_confirmed row snapshot now h = ground arith

arrangements_ready :
    (event_id now : ℕ) (db : Db) (row : Event)
    → find_event event_id db.events ≡ some row
    → (build_checklist
        (planning_input row (read_arrangements event_id db) now)).can_request_safety_check
      ≡ true
    → (evaluate_readiness
        (record (read_arrangements event_id db) { safety = some SafetyFact.approved })
        now).ready
      ≡ true
unfolding read_arrangements
arrangements_ready event_id now db row found h =
    let ready =
      ((build_checklist-ready (planning_input row (read_arrangements event_id db) now)).0
        (can_request_confirmed row (read_arrangements event_id db) now h)).0 in
    rw found ready

check_stored :
    (event_id now uid : ℕ) (checks : List SafetyCheck)
    → find_by
        (λ c. c.event_id == event_id)
        (if any (λ c. c.event_id == event_id) checks
          then update_where
              (λ c. c.event_id == event_id)
              (λ _. pending_check event_id now uid)
              checks
          else pending_check event_id now uid ∷ checks)
      ≡ some (pending_check event_id now uid)
check_stored event_id now uid checks =
    elim (Bool-cases (any (λ c. c.event_id == event_id) checks)) [
      | inl old ↦ rw old (replaced checks old)
      | inr new ↦ rw new (ground arith)
    ]
  where
    replaced :
        (cs : List SafetyCheck)
        → any (λ c. c.event_id == event_id) cs ≡ true
        → find_by
            (λ c. c.event_id == event_id)
            (update_where (λ c. c.event_id == event_id) (λ _. pending_check event_id now uid) cs)
          ≡ some (pending_check event_id now uid)
    replaced [] h = absurd (ground arith)
    replaced (c ∷ cs) h = ground (arith, replaced cs)

feedback_gone :
    (event_id : ℕ) (items : List FeedbackItem)
    → count_if (λ f. f.event_id == event_id) (keep (λ f. not (f.event_id == event_id)) items) ≡ 0
feedback_gone event_id [] = refl
feedback_gone event_id (f ∷ items) = ground (arith, feedback_gone event_id items)

assert_planning_cases :
    (status : EventStatus) (db : Db)
    → ((is_planning status ≡ true) × (assert_planning status db ≡ done tt db))
      ⊎ ((r : Refusal) × (assert_planning status db ≡ thrown r))
unfolding assert_planning
assert_planning_cases EventStatus.planning db = inl (refl, refl)
assert_planning_cases EventStatus.cancelled db = inr (Refusal.event_cancelled, refl)
assert_planning_cases EventStatus.submitted db = inr (Refusal.not_confirmable, refl)
assert_planning_cases EventStatus.approved db = inr (Refusal.not_confirmable, refl)
assert_planning_cases EventStatus.rejected db = inr (Refusal.not_confirmable, refl)
assert_planning_cases EventStatus.confirmed db = inr (Refusal.not_confirmable, refl)
assert_planning_cases EventStatus.completed db = inr (Refusal.not_confirmable, refl)

-- The locked row: found, of the caller, and planned.
pub planning_row_cases :
    (user : AuthenticatedUser) (event_id : ℕ) (db : Db)
    → ((row : Event) × (planning_row user event_id db ≡ done row db)
        × (find_event event_id db.events ≡ some row)
        × (some_eq row.coordinator_id user.uid ≡ true)
        × (is_planning row.status ≡ true))
      ⊎ ((r : Refusal) × (planning_row user event_id db ≡ thrown r))
unfolding planning_row
planning_row_cases user event_id db = elim (Option-cases (find_event event_id db.events)) [
  | inl gone ↦ inr (Refusal.not_assigned, rw gone refl)
  | inr (row, found) ↦ elim (Bool-cases (some_eq row.coordinator_id user.uid)) [
    | inr other ↦ inr (Refusal.not_assigned, rw (found, other) refl)
    | inl assigned ↦ elim (assert_planning_cases row.status db) [
      | inl (planned, run) ↦
          inl (row, rw (found, assigned, ◌>>◌, run) refl, found, assigned, planned)
      | inr (r, run) ↦ inr (r, rw (found, assigned, ◌>>◌, run) refl)
    ]
  ]
]

check_requestable-Reads : (s : SafetyStatus) (db : Db) → Reads db (check_requestable s db)
check_requestable-Reads SafetyStatus.pending db = inr (Refusal.safety_check_not_requestable, refl)
check_requestable-Reads SafetyStatus.approved db = inr (Refusal.safety_check_not_requestable, refl)
check_requestable-Reads SafetyStatus.changes_needed db = inl (tt, refl)
check_requestable-Reads SafetyStatus.rejected db = inl (tt, refl)

check_current-Reads : (c : Option SafetyCheck) (db : Db) → Reads db (check_current c db)
unfolding check_current
check_current-Reads none db = inl (tt, refl)
check_current-Reads (some c) db = check_requestable-Reads c.status db

abbrev pub RequestedOrNot : AuthenticatedUser → ℕ → ℕ → Db → Db → Type 0
RequestedOrNot user event_id now db db' = (db' ≡ db) ⊎ Requested event_id user.uid now db db'

throw_if_passes :
    (b : Bool) (e : Refusal) (db : Db) (u : Unit {0}) → throw_if b e db ≡ done u db → b ≡ false
throw_if_passes true e db u h = absurd (ground arith)
throw_if_passes false e db u h = refl

module _ (user : AuthenticatedUser) (event_id now : ℕ) (db : Db) where
  store_request-Requested :
      (row : Event)
      → find_event event_id db.events ≡ some row
      → some_eq row.coordinator_id user.uid ≡ true
      → is_planning row.status ≡ true
      → (build_checklist
          (planning_input row (read_arrangements event_id db) now)).can_request_safety_check
        ≡ true
      → Requested event_id user.uid now db (store_request event_id now user.uid db).1
  unfolding store_request
  store_request-Requested row found assigned planned can = record {
    event = row;
    found = found;
    assigned = assigned;
    planned = ground (arith, planned);
    arrangements = arrangements_ready event_id now db row found can;
    check = check_stored event_id now user.uid db.safety_checks;
    no_feedback = feedback_gone event_id db.feedback_items;
    events = refl;
    registrations = refl;
  }

  request_safety_check_for_cases :
      RequestedOrNot user event_id now db (after db (request_safety_check_for user event_id now db))
  unfolding request_safety_check_for
  request_safety_check_for_cases = elim (planning_row_cases user event_id db) [
    | inr (r, run) ↦ inl (rw (after, ◌>>=◌, run) refl)
    | inl (row, run, found, assigned, planned) ↦
        rw (after, ◌>>=◌, run)
          (reads_before P
            (throw_if
              (not
                (build_checklist (
                  planning_input row (read_arrangements event_id db) now)).can_request_safety_check)
              Refusal.prerequisites_not_met)
            db _ (inl refl) (throw_if-Reads _ Refusal.prerequisites_not_met db)
            λ u passed.
              reads_before P (check_current (check_of event_id db)) db _ (inl refl)
                (check_current-Reads (check_of event_id db) db)
                λ _ _.
                  reads_before P
                    (throw_if
                      (feedback_can_be_resolved (check_of event_id db)
                        && ltb 0 (unresolved_count event_id db))
                      Refusal.feedback_unresolved)
                    db _ (inl refl) (throw_if-Reads _ Refusal.feedback_unresolved db)
                    λ _ _. inr (
                      store_request-Requested row found assigned planned (
                        let p = throw_if_passes _ Refusal.prerequisites_not_met db u passed in
                        ground arith)))
  ]
    where
      P : Db → Type 0
      P db' = RequestedOrNot user event_id now db db'

pub planning_event_cases :
    (identity : Option AuthenticatedUser) (id : RouteId) (db : Db)
    → ((user : AuthenticatedUser) × (event : Event) × (planning_event identity id db
          ≡ done (user, event) db)
        × (identity ≡ some user))
      ⊎ ((r : Refusal) × (planning_event identity id db ≡ thrown r))
unfolding planning_event
planning_event_cases none id db = inr (Refusal.authentication_required, refl)
planning_event_cases (some user) id db = elim (assigned_event_or_throw-Reads user id db) [
  | inr (r, run) ↦ inr (r, rw (◌>>=◌, run) refl)
  | inl (event, run) ↦ elim (assert_planning_cases event.status db) [
    | inr (r, stop) ↦ inr (r, rw (◌>>=◌, run, ◌>>◌, stop) refl)
    | inl (planned, pass) ↦ inl (user, event, rw (◌>>=◌, run, ◌>>◌, pass) refl, refl)
  ]
]

-- A request of the safety check changes nothing, or the caller is the coordinator of a Planning
-- event that would be ready to confirm if its check were approved; then the event's check is
-- pending in their name, none of its feedback is left, and events and registrations stay.
pub request_safety_check_cases :
    (identity : Option AuthenticatedUser) (id : RouteId) (now : ℕ) (db : Db)
    → let db' = (request_safety_check identity id now db).1 in
      (db' ≡ db)
      ⊎ ((user : AuthenticatedUser) × (event_id : ℕ) × (identity ≡ some user)
          × Requested event_id user.uid now db db')
unfolding request_safety_check
request_safety_check_cases identity id now db =
    rw
      (transaction-after
        (planning_event identity id >>= λ p. request_safety_check_for p.0 p.1.id now) db)
      (elim (planning_event_cases identity id db) [
        | inr (r, run) ↦ inl (rw (after, ◌>>=◌, run) refl)
        | inl (user, event, run, known) ↦ rw (after, ◌>>=◌, run) (named user event known)
      ])
  where
    named :
        (user : AuthenticatedUser) (event : Event)
        → identity ≡ some user
        → let db' = after db (request_safety_check_for user event.id now db) in
          (db' ≡ db)
          ⊎ ((user : AuthenticatedUser) × (event_id : ℕ) × (identity ≡ some user)
              × Requested event_id user.uid now db db')
    named user event known = elim (request_safety_check_for_cases user event.id now db) [
      | inl same ↦ inl same
      | inr requested ↦ inr (user, event.id, known, requested)
    ]
