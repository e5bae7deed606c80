-- ===== src/Examples/Requests.antt =====
-- Assignment, reassignment and cancellation requests at a small database: an event that waits for a
-- coordinator, and one that has one.
use is212_g5_t.Base.{
  ℕ, ◌≡◌, refl, ◌⊎◌, ◌&&◌, ◌==◌, Bool, false, none, some, List, [], ◌∷◌, All, count_if, arith,
}
use is212_g5_t.Schema.{
  Event, EventStatus, Account, AuthenticatedUser, UserRole, CancellationRequest, CancellationStatus,
  Db, uuid,
}
use is212_g5_t.Transaction.{done}
use is212_g5_t.Notices.{Decision}
use is212_g5_t.Lead
use is212_g5_t.Lead.Outcomes.{Assigned, assign_cases}
use is212_g5_t.Lead.Reassigning.{Reassigned, reassign_cases}
use is212_g5_t.CancellationRequests.{
  ReasonField, CreateBody, DecisionBody, create, decide, list_for_event, RequestView,
}
use is212_g5_t.CancellationRequests.Outcomes.{Created, OnePending, create_cases}
use is212_g5_t.CancellationRequests.Deciding.{Decided, decide_cases, create-decide-OnePending}
use is212_g5_t.CancellationRequests.Listing.{Shown, NewestFirst, list_for_event_lem}
use is212_g5_t.Examples.Sample.{talk, account, sample, coordinator}

abbrev lead : AuthenticatedUser
lead = record { uid = 95; roles = UserRole.coordinator_lead ∷ []; email = none; name = none }

abbrev coordinator_account : ℕ → Account
coordinator_account id = record (account id) { roles = UserRole.coordinator ∷ [] }

abbrev submitted : Event
submitted = record talk {
  id = 2;
  status = EventStatus.submitted;
  coordinator_id = none;
  coordinator_name = none;
}

abbrev asked : CancellationRequest
asked = record {
  id = 60;
  event_id = 1;
  requested_by_id = 90;
  requested_by = "Olga";
  reason = none;
  status = CancellationStatus.pending;
  requested_at = 50;
  decided_by_id = none;
  decided_by = none;
  decided_at = none;
}

abbrev quiet : Db
quiet = record sample {
  events = submitted ∷ talk ∷ [];
  users = coordinator_account 91 ∷ coordinator_account 92 ∷ [];
}

abbrev waiting : Db
waiting = record quiet { cancellation_requests = asked ∷ [] }

abbrev organiser : AuthenticatedUser
organiser = record { uid = 90; roles = UserRole.organiser ∷ []; email = some "o@x"; name = none }

assign_cases_example :
    let db' = (Lead.assign (some lead) (uuid 2) (some (uuid 92)) 100 quiet).1 in
    (db' ≡ quiet)
    ⊎ ((l : AuthenticatedUser) × (event_id : ℕ) × (some lead ≡ some l)
        × Assigned l event_id 100 quiet db')
assign_cases_example = assign_cases (some lead) (uuid 2) (some (uuid 92)) 100 quiet

reassign_cases_example :
    let db' = (Lead.reassign (some lead) (uuid 1) (some (uuid 92)) (some 91) 100 waiting).1 in
    (db' ≡ waiting)
    ⊎ ((l : AuthenticatedUser) × (event_id : ℕ) × (some lead ≡ some l)
        × Reassigned l event_id 100 waiting db')
reassign_cases_example = reassign_cases (some lead) (uuid 1) (some (uuid 92)) (some 91) 100 waiting

-- The organiser's words, less the spaces around them.
abbrev body : CreateBody
body = CreateBody.object false (ReasonField.text (32 ∷ (110 ∷ (111 ∷ (32 ∷ [])))))

create_cases_example :
    let db' = (create (some organiser) (uuid 1) body 100 61 quiet).1 in
    (db' ≡ quiet)
    ⊎ ((user : AuthenticatedUser) × (event_id : ℕ) × (some organiser ≡ some user)
        × Created user event_id 100 61 quiet db')
create_cases_example = create_cases (some organiser) (uuid 1) body 100 61 quiet

abbrev accepted : DecisionBody
accepted = DecisionBody.fields false (some Decision.accept)

decide_cases_example :
    let db' = (decide (some coordinator) (uuid 60) accepted 100 waiting).1 in
    (db' ≡ waiting)
    ⊎ ((user : AuthenticatedUser) × (request_id : ℕ) × (some coordinator ≡ some user)
        × Decided user request_id accepted 100 waiting db')
decide_cases_example = decide_cases (some coordinator) (uuid 60) accepted 100 waiting

waiting-OnePending : OnePending waiting
waiting-OnePending k = ground arith

create-decide-OnePending_example :
    ((b : CreateBody) (new_id : ℕ)
      → OnePending (create (some organiser) (uuid 1) b 100 new_id waiting).1)
    × ((b : DecisionBody) → OnePending (decide (some organiser) (uuid 1) b 100 waiting).1)
create-decide-OnePending_example =
    create-decide-OnePending (some organiser) (uuid 1) 100 waiting waiting-OnePending

list_for_event_lem_example :
    (vs : List RequestView) × (list_for_event (some organiser) (uuid 1) waiting ≡ done vs waiting)
    × ((p : CancellationRequest → Bool)
        → count_if (λ v. p v.request) vs
          ≡ count_if (λ r. r.event_id == 1 && p r) waiting.cancellation_requests)
    × All (Shown 1 talk) vs
    × NewestFirst vs
list_for_event_lem_example = list_for_event_lem organiser 1 waiting talk refl refl
