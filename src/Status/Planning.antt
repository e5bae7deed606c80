-- ===== src/Status/Planning.antt =====
-- The coordinator's work on a planned event (backend/src/events/status/status.service.ts, cancelled-guard.ts,
-- safety-feedback-resolution.ts): confirming that no equipment is needed, requesting the safety check,
-- and resolving its feedback.
use is212_g5_t.Base.{
  ℕ, Bool, true, false, not, ◌&&◌, Option, none, some, [], ◌∷◌, ◌==◌, ltb, if◌then◌else◌, some_eq,
  any, keep, find_by, count_if, update_where, is_some,
}
use is212_g5_t.Schema.{
  Event, EventStatus, SafetyCheck, SafetyStatus, FeedbackItem, Db, AuthenticatedUser, RouteId,
  Refusal, Result, find_event,
}
use is212_g5_t.Transaction.{
  M, ◌>>=◌, ◌>>◌, return, throw, throw_if, gets, writes, require, transaction,
}
use is212_g5_t.Readiness.{ReadinessSnapshot}
use is212_g5_t.Checklist.{ChecklistInput, RequestStatus, build_checklist}
use is212_g5_t.Status.{read_arrangements, assigned_event_or_throw, is_planning, is_cancelled_event}

-- assertEventNotCancelled, then assertPlanning.
unfoldable pub assert_planning : EventStatus → M (Unit {0})
assert_planning status = do
  throw_if (is_cancelled_event status) Refusal.event_cancelled
  throw_if (not (is_planning status)) Refusal.not_confirmable

-- The event before the transaction, and its locked row inside it, with the checks on both.
unfoldable pub planning_event : Option AuthenticatedUser → RouteId → M (AuthenticatedUser × Event)
planning_event identity id = do
  user ← require identity Refusal.authentication_required
  event ← assigned_event_or_throw user id
  assert_planning event.status
  return (user, event)

abbrev locked_by : ℕ → Option Event → Option Event
locked_by uid none = none
locked_by uid (some row) = if some_eq row.coordinator_id uid then some row else none

unfoldable pub planning_row : AuthenticatedUser → ℕ → M Event
planning_row user event_id = do
  found ← gets (λ db. find_event event_id db.events)
  row ← require (locked_by user.uid found) Refusal.not_assigned
  assert_planning row.status
  return row

abbrev pub planning_input : Event → ReadinessSnapshot → ℕ → ChecklistInput
planning_input row snapshot now = record {
  venue_bookings = snapshot.venue_bookings;
  equipment = snapshot.equipment;
  equipment_needs = row.equipment_needs;
  equipment_confirmed_at = row.equipment_confirmed_at;
  safety = record { status = none; feedback = [] };
  registration = some (record {
    enabled = row.registration_enabled;
    opens_at = row.registration_opens_at;
    closes_at = row.registration_closes_at;
  });
  now = now;
}

abbrev pub is_not_requested : RequestStatus → Bool
is_not_requested RequestStatus.not_requested = true
is_not_requested _ = false

abbrev or_now : Option ℕ → ℕ → ℕ
or_now none now = now
or_now (some at) now = at

abbrev pub set_confirmed : ℕ → Event → Event
set_confirmed now e = record e { equipment_confirmed_at = some now }

-- The first confirmation time wins.
abbrev pub store_confirmation : ℕ → Option ℕ → ℕ → Db → ℕ × Db
store_confirmation event_id confirmed now db = (
  or_now confirmed now,
  if is_some confirmed then db else record db {
    events = update_where (λ e. e.id == event_id) (set_confirmed now) db.events;
  },
)

unfoldable pub confirm_no_equipment_for : AuthenticatedUser → ℕ → ℕ → M ℕ
confirm_no_equipment_for user event_id now = do
  row ← planning_row user event_id
  snapshot ← gets (read_arrangements event_id)
  throw_if
      (not (
        not (build_checklist (planning_input row snapshot now)).equipment_required
        && is_not_requested
            (build_checklist (planning_input row snapshot now)).equipment_section.status))
      Refusal.equipment_required
  writes (store_confirmation event_id row.equipment_confirmed_at now)

unfoldable pub confirm_no_equipment : Option AuthenticatedUser → RouteId → ℕ → Db → Result ℕ × Db
confirm_no_equipment identity id now db =
    transaction (planning_event identity id >>= λ p. confirm_no_equipment_for p.0 p.1.id now) db

-- A check that is pending or approved is not requested again.
abbrev pub check_requestable : SafetyStatus → M (Unit {0})
check_requestable SafetyStatus.pending = throw Refusal.safety_check_not_requestable
check_requestable SafetyStatus.approved = throw Refusal.safety_check_not_requestable
check_requestable _ = return tt

unfoldable pub check_current : Option SafetyCheck → M (Unit {0})
check_current none = return tt
check_current (some c) = check_requestable c.status

unfoldable pub feedback_can_be_resolved : Option SafetyCheck → Bool
feedback_can_be_resolved none = false
feedback_can_be_resolved (some c) = by_status c.status
  where
    by_status : SafetyStatus → Bool
    by_status SafetyStatus.changes_needed = true
    by_status SafetyStatus.rejected = true
    by_status _ = false

abbrev pub check_of : ℕ → Db → Option SafetyCheck
check_of event_id db = find_by (λ c. c.event_id == event_id) db.safety_checks

abbrev pub unresolved_count : ℕ → Db → ℕ
unresolved_count event_id db =
    count_if (λ f. f.event_id == event_id && not (is_some f.resolved_by_coordinator_at))
      db.feedback_items

abbrev pub pending_check : ℕ → ℕ → ℕ → SafetyCheck
pending_check event_id now uid = record {
  event_id = event_id;
  status = SafetyStatus.pending;
  requested_at = now;
  requested_by = uid;
  approver_name = none;
  feedback = none;
  decided_at = none;
}

-- The DELETEs of the feedback and the reset, and the INSERT ... ON CONFLICT (event_id) DO UPDATE.
unfoldable pub store_request : ℕ → ℕ → ℕ → Db → Unit {0} × Db
store_request event_id now uid db = (
  tt,
  record db {
    feedback_items = keep (λ f. not (f.event_id == event_id)) db.feedback_items;
    safety_resets = keep (λ r. not (r.event_id == event_id)) db.safety_resets;
    safety_checks =
        if any (λ c. c.event_id == event_id) db.safety_checks
        then update_where (λ c. c.event_id == event_id) (λ _. pending_check event_id now uid)
            db.safety_checks
        else pending_check event_id now uid ∷ db.safety_checks;
  },
)

unfoldable pub request_safety_check_for : AuthenticatedUser → ℕ → ℕ → M (Unit {0})
request_safety_check_for user event_id now = do
  row ← planning_row user event_id
  snapshot ← gets (read_arrangements event_id)
  throw_if (not (build_checklist (planning_input row snapshot now)).can_request_safety_check)
      Refusal.prerequisites_not_met
  current ← gets (check_of event_id)
  check_current current
  unresolved ← gets (unresolved_count event_id)
  throw_if (feedback_can_be_resolved current && ltb 0 unresolved) Refusal.feedback_unresolved
  writes (store_request event_id now user.uid)

unfoldable pub request_safety_check :
    Option AuthenticatedUser → RouteId → ℕ → Db → Result (Unit {0}) × Db
request_safety_check identity id now db =
    transaction (planning_event identity id >>= λ p. request_safety_check_for p.0 p.1.id now) db

abbrev set_resolution : Option ℕ → FeedbackItem → FeedbackItem
set_resolution at f = record f { resolved_by_coordinator_at = at }

abbrev pub names_item : ℕ → ℕ → FeedbackItem → Bool
names_item feedback_id event_id f = f.id == feedback_id && f.event_id == event_id

-- UPDATE ... RETURNING id.
abbrev pub resolve_item : ℕ → ℕ → Option ℕ → Db → Option FeedbackItem × Db
resolve_item feedback_id event_id at db = (
  find_by (names_item feedback_id event_id) db.feedback_items,
  record db {
    feedback_items =
        update_where (names_item feedback_id event_id) (set_resolution at) db.feedback_items;
  },
)

unfoldable pub set_feedback_resolution_for : ℕ → ℕ → Bool → ℕ → M (Option ℕ)
set_feedback_resolution_for event_id feedback_id resolved now = do
  current ← gets (check_of event_id)
  throw_if (not (feedback_can_be_resolved current)) Refusal.safety_check_not_requestable
  updated ← writes (resolve_item feedback_id event_id (if resolved then some now else none))
  row ← require updated Refusal.feedback_not_found
  return (if resolved then some now else none)

unfoldable pub set_feedback_resolution :
    Option AuthenticatedUser → RouteId → ℕ → Bool → ℕ → Db → Result (Option ℕ) × Db
set_feedback_resolution identity id feedback_id resolved now db =
    transaction
      (planning_event identity id >>= λ p.
        set_feedback_resolution_for p.1.id feedback_id resolved now)
      db
