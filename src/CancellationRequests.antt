-- ===== src/CancellationRequests.antt =====
-- CancellationRequestsService (backend/src/events/cancellation-requests/): an organiser asks for a
-- cancellation, the assigned coordinator accepts or declines it, and both read the requests.
pub mod Outcomes
pub mod Deciding
pub mod Listing
use is212_g5_t.Base.{
  ℕ, String, Bool, true, false, not, ◌&&◌, ◌||◌, ◌==◌, Option, none, some, List, [], ◌∷◌, ◌++◌, any,
  some_eq, ltb, find_by, update_where, keep, length, trim, is_empty, if◌then◌else◌, map, sort_in,
}
use is212_g5_t.Schema.{
  Event, EventStatus, CancellationRequest, CancellationStatus, Draft, DraftStatus, Db,
  AuthenticatedUser, RouteId, uuid, malformed, is_organiser, is_coordinator, Refusal, Result, ok,
  err, find_event,
}
use is212_g5_t.Transaction.{
  M, ◌>>=◌, ◌>>◌, return, throw, throw_if, gets, writes, require, transaction,
}
use is212_g5_t.Notices.{
  Decision, accept, decline, is_pending, is_pending_cancellation, notify_cancellation_requested,
  notify_cancellation_outcome,
}
use is212_g5_t.Cancel.{is_cancellable, may_cancel, cancel_inside}

-- The `reason` of a body: missing, null, a text by its code points, or another value.
pub data ReasonField : Type 0 where
  missing null other : ReasonField
  text : List ℕ → ReasonField

-- The body of a request: none, an object with its reason and whether it has another key, or no
-- object.
pub data CreateBody : Type 0 where
  no_body not_an_object : CreateBody
  object : Bool → ReasonField → CreateBody

abbrev pub reason_max : ℕ
reason_max = 500

abbrev check_reason : ReasonField → Result (Option (List ℕ))
check_reason ReasonField.missing = ok none
check_reason ReasonField.null = ok none
check_reason ReasonField.other = err Refusal.invalid_request
check_reason (ReasonField.text reason) =
    if ltb reason_max (length (trim reason))
    then err Refusal.invalid_reason
    else ok (if is_empty (trim reason) then none else some (trim reason))

unfoldable pub validate_create_body : CreateBody → Result (Option (List ℕ))
validate_create_body CreateBody.no_body = ok none
validate_create_body CreateBody.not_an_object = err Refusal.invalid_request
validate_create_body (CreateBody.object unknown_key reason) =
    if unknown_key then err Refusal.invalid_request else check_reason reason

-- The body of a decision: its `decision`, if that is one of the two texts.
pub data DecisionBody : Type 0 where
  no_decision not_a_record : DecisionBody
  fields : Bool → Option Decision → DecisionBody

abbrev known_decision : Option Decision → Result Decision
known_decision none = err Refusal.invalid_decision
known_decision (some d) = ok d

unfoldable pub validate_decision_body : DecisionBody → Result Decision
validate_decision_body DecisionBody.no_decision = err Refusal.invalid_decision
validate_decision_body DecisionBody.not_a_record = err Refusal.invalid_request
validate_decision_body (DecisionBody.fields unknown_key decision) =
    if unknown_key then err Refusal.invalid_request else known_decision decision

abbrev pub lift : {A : Type 0} → Result A → M A
lift (ok a) = return a
lift (err e) = throw e

-- `user.name ?? user.email ?? fallback`.
abbrev or_else : Option String → String → String
or_else none s = s
or_else (some t) s = t

abbrev pub display_name : AuthenticatedUser → String → String
display_name user fallback = or_else user.name (or_else user.email fallback)

-- What is shown of a request: a pending one of an event that has ended is closed, with the reason.
pub data DisplayStatus : Type 0 where
  pending accepted declined closed_cancelled closed_completed : DisplayStatus

abbrev display_pending : EventStatus → DisplayStatus
display_pending EventStatus.cancelled = DisplayStatus.closed_cancelled
display_pending EventStatus.completed = DisplayStatus.closed_completed
display_pending _ = DisplayStatus.pending

unfoldable pub display_status_of : CancellationStatus → EventStatus → DisplayStatus
display_status_of CancellationStatus.accepted status = DisplayStatus.accepted
display_status_of CancellationStatus.declined status = DisplayStatus.declined
display_status_of CancellationStatus.pending status = display_pending status

pub record RequestView : Type 0 where
  pub request : CancellationRequest
  pub event_name : String
  pub display_status : DisplayStatus

unfoldable pub to_record : CancellationRequest → String → EventStatus → RequestView
to_record row event_name event_status = record {
  request = row;
  event_name = event_name;
  display_status = display_status_of row.status event_status;
}

abbrev is_draft : DraftStatus → Bool
is_draft DraftStatus.draft = true
is_draft DraftStatus.submitted = false

abbrev pub is_own_draft : ℕ → ℕ → Draft → Bool
is_own_draft id uid d = d.id == id && (d.organiser_id == uid && is_draft d.status)

-- No events row: the caller's own unsubmitted draft is not cancellable, anything else is not found.
abbrev pub missing_event : Bool → Refusal
missing_event true = Refusal.not_cancellable
missing_event false = Refusal.event_not_found

unfoldable pub locked_event : ℕ → ℕ → M Event
locked_event uid event_id = do
  found ← gets (λ db. find_event event_id db.events)
  own_draft ← gets (λ db. any (is_own_draft event_id uid) db.drafts)
  require found (missing_event own_draft)

abbrev pub owns : AuthenticatedUser → Event → Bool
owns user event = any is_organiser user.roles && event.organiser_id == user.uid

abbrev pub new_request : ℕ → ℕ → AuthenticatedUser → Option (List ℕ) → ℕ → CancellationRequest
new_request id event_id user reason now = record {
  id = id;
  event_id = event_id;
  requested_by_id = user.uid;
  requested_by = display_name user "Organiser";
  reason = reason;
  status = CancellationStatus.pending;
  requested_at = now;
  decided_by_id = none;
  decided_by = none;
  decided_at = none;
}

abbrev pub tell_coordinator : Option ℕ → Event → CancellationRequest → Db → Db
tell_coordinator none event r db = db
tell_coordinator (some coordinator) event r db =
    notify_cancellation_requested coordinator r.event_id event.event_name r.requested_by
      r.requested_at db

unfoldable pub store_request : Event → CancellationRequest → Db → CancellationRequest × Db
store_request event r db = (
  r,
  tell_coordinator event.coordinator_id event r
      (record db { cancellation_requests = db.cancellation_requests ++ (r ∷ []) }),
)

unfoldable pub create_for : AuthenticatedUser → ℕ → CreateBody → ℕ → ℕ → M RequestView
create_for user event_id body now new_id = do
  event ← locked_event user.uid event_id
  throw_if (not (owns user event)) Refusal.forbidden
  reason ← lift (validate_create_body body)
  throw_if (not (is_cancellable event.status)) Refusal.not_cancellable
  waiting ← gets (λ db. any (is_pending_cancellation event_id) db.cancellation_requests)
  throw_if waiting Refusal.cancellation_pending
  row ← writes (store_request event (new_request new_id event_id user reason now))
  return (to_record row event.event_name event.status)

abbrev pub require_event_id : RouteId → M ℕ
require_event_id (uuid id) = return id
require_event_id malformed = throw Refusal.event_not_found

unfoldable pub create_work : Option AuthenticatedUser → RouteId → CreateBody → ℕ → ℕ → M RequestView
create_work identity id body now new_id = do
  user ← require identity Refusal.authentication_required
  event_id ← require_event_id id
  create_for user event_id body now new_id

unfoldable pub create :
    Option AuthenticatedUser → RouteId → CreateBody → ℕ → ℕ → Db → Result RequestView × Db
create identity id body now new_id db = transaction (create_work identity id body now new_id) db

-- ORDER BY requested_at DESC, id.
abbrev pub is_newer : CancellationRequest → CancellationRequest → Bool
is_newer a b =
    ltb b.requested_at a.requested_at || (a.requested_at == b.requested_at && ltb a.id b.id)

abbrev pub can_read : AuthenticatedUser → Event → Bool
can_read user event = owns user event || may_cancel user event

unfoldable pub rows_of : ℕ → Db → List CancellationRequest
rows_of event_id db = sort_in is_newer (keep (λ r. r.event_id == event_id) db.cancellation_requests)

unfoldable pub list_for_event : Option AuthenticatedUser → RouteId → M (List RequestView)
list_for_event identity id = do
  user ← require identity Refusal.authentication_required
  event_id ← require_event_id id
  found ← gets (λ db. find_event event_id db.events)
  event ← require found Refusal.event_not_found
  throw_if (not (can_read user event)) Refusal.forbidden
  rows ← gets (rows_of event_id)
  return (map (λ r. to_record r event.event_name event.status) rows)

abbrev pub find_request : ℕ → Db → Option CancellationRequest
find_request request_id db = find_by (λ r. r.id == request_id) db.cancellation_requests

abbrev pub decided_status : Decision → CancellationStatus
decided_status accept = CancellationStatus.accepted
decided_status decline = CancellationStatus.declined

abbrev pub decide_row : Decision → AuthenticatedUser → ℕ → CancellationRequest → CancellationRequest
decide_row decision user now r = record r {
  status = decided_status decision;
  decided_by_id = some user.uid;
  decided_by = some (display_name user "Coordinator");
  decided_at = some now;
}

abbrev pub still_pending : ℕ → CancellationRequest → Bool
still_pending request_id r = r.id == request_id && is_pending r.status

-- UPDATE ... WHERE id AND status = 'pending' RETURNING *.
unfoldable pub compare_and_decide :
    ℕ → Decision → AuthenticatedUser → ℕ → Db → Option CancellationRequest × Db
compare_and_decide request_id decision user now db = (
  find_by (still_pending request_id) db.cancellation_requests,
  record db {
    cancellation_requests =
        update_where (still_pending request_id) (decide_row decision user now)
          db.cancellation_requests;
  },
)

abbrev unit_of : Db → Unit {0} × Db
unit_of db = (tt, db)

-- Accepting cancels the event in the same transaction; declining leaves it.
unfoldable pub carry_out : Decision → AuthenticatedUser → Event → ℕ → ℕ → M EventStatus
carry_out accept user event event_id now = do
  cancel_inside user event_id now true
  writes (λ db.
      unit_of
        (notify_cancellation_outcome event_id event.event_name event.organiser_id accept now db))
  return EventStatus.cancelled
carry_out decline user event event_id now = do
  writes (λ db.
      unit_of
        (notify_cancellation_outcome event_id event.event_name event.organiser_id decline now db))
  return event.status

unfoldable pub decide_for : AuthenticatedUser → ℕ → DecisionBody → ℕ → M RequestView
decide_for user request_id body now = do
  located ← gets (find_request request_id)
  request ← require located Refusal.forbidden
  found ← gets (λ db. find_event request.event_id db.events)
  event ← require found Refusal.forbidden
  throw_if (not (may_cancel user event)) Refusal.forbidden
  decision ← lift (validate_decision_body body)
  throw_if (not (is_pending request.status)) Refusal.cancellation_decided
  throw_if (not (is_cancellable event.status)) Refusal.not_cancellable
  updated ← writes (compare_and_decide request_id decision user now)
  row ← require updated Refusal.cancellation_decided
  status ← carry_out decision user event request.event_id now
  return (to_record (decide_row decision user now row) event.event_name status)

abbrev pub require_request_id : RouteId → M ℕ
require_request_id (uuid id) = return id
require_request_id malformed = throw Refusal.forbidden

unfoldable pub decide_work : Option AuthenticatedUser → RouteId → DecisionBody → ℕ → M RequestView
decide_work identity id body now = do
  user ← require identity Refusal.authentication_required
  request_id ← require_request_id id
  decide_for user request_id body now

unfoldable pub decide :
    Option AuthenticatedUser → RouteId → DecisionBody → ℕ → Db → Result RequestView × Db
decide identity id body now db = transaction (decide_work identity id body now) db
