-- ===== src/CancellationRequests/Deciding.antt =====
-- What deciding a cancellation request does, and that one request at most is pending
-- (backend/src/events/cancellation-requests/cancellation-requests.service.ts, decide).
use is212_g5_t.Base.{
  ℕ, ◌≡◌, refl, sym, ◌⊎◌, inl, inr, Bool, true, false, not, ◌==◌, Option, some, [], ◌∷◌, count_if,
  count_if-append, count_if-update_where_out, any-count_if, arith, Bool-cases, find_by,
  update_where, ==_iff, find_by-Has, find_by-update_where, List, ap, ◌∙◌, none, ◌≢◌, if◌then◌else◌,
}
use is212_g5_t.Schema.{
  Event, EventStatus, CancellationRequest, CancellationStatus, NotificationType, Db,
  AuthenticatedUser, RouteId, uuid, malformed, Refusal, ok, find_event,
}
use mathlib.Core.Option
use is212_g5_t.Transaction.{done}
use is212_g5_t.Transaction.Inverting.{
  transaction_cases, bind_done, then_done, require_then_done, throw_if_then_done,
}
use is212_g5_t.Notices.{
  Decision, accept, decline, is_pending, is_pending_cancellation, notify_cancellation_outcome,
}
use is212_g5_t.Notices.Telling.{told}
use is212_g5_t.Cancel.{is_cancellable, may_cancel, cancel_inside}
use is212_g5_t.Cancel.Outcomes.{Cancelled, cancel_inside_lem}
use is212_g5_t.CancellationRequests.{
  DecisionBody, CreateBody, create, RequestView, validate_decision_body, lift, find_request,
  decide_row, still_pending, compare_and_decide, carry_out, decide_for, require_request_id,
  decide_work, decide, new_request,
}
use is212_g5_t.CancellationRequests.Outcomes.{OnePending, Created, lift_done, create_cases}

abbrev is_acceptance : NotificationType → Bool
is_acceptance NotificationType.cancellation_request_accepted = true
is_acceptance _ = false

abbrev is_declination : NotificationType → Bool
is_declination NotificationType.cancellation_request_declined = true
is_declination _ = false

abbrev pub is_outcome : Decision → NotificationType → Bool
is_outcome accept = is_acceptance
is_outcome decline = is_declination

-- The database once the request's row is decided, before the decision is carried out.
abbrev pub decided_db : ℕ → Decision → AuthenticatedUser → ℕ → Db → Db
decided_db request_id decision user now db = record db {
  cancellation_requests =
      update_where (still_pending request_id) (decide_row decision user now)
        db.cancellation_requests;
}

-- Accepted: the event is cancelled, and its organiser told by the outcome alone. Declined: events and
-- registrations stay.
abbrev pub Carried : Decision → AuthenticatedUser → ℕ → Event → ℕ → Db → Db → Type 0
Carried accept user event_id event now db db' =
    (d : Db) × Cancelled event_id event user.uid now true db d
    × (db' ≡ notify_cancellation_outcome event_id event.event_name event.organiser_id accept now d)
Carried decline user event_id event now db db' =
    (db'.events ≡ db.events) × (db'.registrations ≡ db.registrations)

-- The row of a decided request: who decided it, when and how; the rest is as it was filed.
pub record DecidedRow (user : AuthenticatedUser) (now : ℕ) (decision : Decision)
    (request after : CancellationRequest) : Type 0 where
  pub accepted : decision ≡ accept → after.status ≡ CancellationStatus.accepted
  pub declined : decision ≡ decline → after.status ≡ CancellationStatus.declined
  pub decider : after.decided_by_id ≡ some user.uid
  pub decided_at : after.decided_at ≡ some now
  pub filed : after ≡ record request {
    status = after.status;
    decided_by_id = after.decided_by_id;
    decided_by = after.decided_by;
    decided_at = after.decided_at;
  }

decide_row-DecidedRow :
    (user : AuthenticatedUser) (now : ℕ) (decision : Decision) (r : CancellationRequest)
    → DecidedRow user now decision r (decide_row decision user now r)
decide_row-DecidedRow user now accept r = record {
  accepted = λ h. refl;
  declined = λ h. absurd (ground arith);
  decider = refl;
  decided_at = refl;
  filed = refl;
}
decide_row-DecidedRow user now decline r = record {
  accepted = λ h. absurd (ground arith);
  declined = λ h. refl;
  decider = refl;
  decided_at = refl;
  filed = refl;
}

pub record Decided (user : AuthenticatedUser) (request_id : ℕ) (body : DecisionBody) (now : ℕ)
    (db db' : Db) : Type 0 where
  pub request : CancellationRequest
  pub event : Event
  pub decision : Decision
  pub asked : body ≡ DecisionBody.fields false (some decision)
  pub located : find_request request_id db ≡ some request
  pub waiting : request.status ≡ CancellationStatus.pending
  pub after : CancellationRequest
  pub stored : find_request request_id db' ≡ some after
  pub row : DecidedRow user now decision request after
  pub other_requests : (i : ℕ) → i ≢ request_id → find_request i db' ≡ find_request i db
  pub found : find_event request.event_id db.events ≡ some event
  pub assigned : may_cancel user event ≡ true
  pub open_event : is_cancellable event.status ≡ true
  pub requests :
      db'.cancellation_requests ≡ (decided_db request_id decision user now db).cancellation_requests
  pub told_organiser : told event.organiser_id request.event_id (is_outcome decision) db' ≡ true
  pub carried :
      Carried decision user request.event_id event now
        (decided_db request_id decision user now db)
        db'

module _ (user : AuthenticatedUser) (event_id : ℕ) (event : Event) (now : ℕ) (db : Db)
    (found : find_event event_id db.events ≡ some event) (assigned : may_cancel user event ≡ true)
    (open_event : is_cancellable event.status ≡ true) where
  carry_out_done :
      (decision : Decision) (status : EventStatus) (db' : Db)
      → carry_out decision user event event_id now db ≡ done status db'
      → Carried decision user event_id event now db db'
        × (told event.organiser_id event_id (is_outcome decision) db' ≡ true)
        × (db'.cancellation_requests ≡ db.cancellation_requests)
  unfolding carry_out notify_cancellation_outcome
  carry_out_done decline status db' run =
      let same : notify_cancellation_outcome event_id event.event_name event.organiser_id decline
            now db
          ≡ db' =
        ground arith in
      rw (sym same) ((refl, refl), ground arith, refl)
  carry_out_done accept status db' run =
      let (view, d, cancels, c) =
        cancel_inside_lem user event_id now true db event found assigned open_event in
      let (v, d', went, rest) =
        then_done (cancel_inside user event_id now true) db status db' _ run in
      let same : d' ≡ d = ground arith in
      let ends : db'
          ≡ notify_cancellation_outcome event_id event.event_name event.organiser_id accept now d =
        ground arith in
      rw ends ((d, c, refl), ground arith, c.requests_kept)

validate_decision_body_ok :
    (body : DecisionBody) (decision : Decision)
    → validate_decision_body body ≡ ok decision
    → body ≡ DecisionBody.fields false (some decision)
unfolding validate_decision_body
validate_decision_body_ok DecisionBody.no_decision d h = absurd (ground arith)
validate_decision_body_ok DecisionBody.not_a_record d h = absurd (ground arith)
validate_decision_body_ok (DecisionBody.fields true o) d h = absurd (ground arith)
validate_decision_body_ok (DecisionBody.fields false none) d h = absurd (ground arith)
validate_decision_body_ok (DecisionBody.fields false (some e)) d h = ground arith

-- The update is seen at the key of the request and at no other.
decided_self :
    (request_id : ℕ) (decision : Decision) (user : AuthenticatedUser) (now : ℕ) (db : Db)
    (r : CancellationRequest)
    → find_request request_id db ≡ some r
    → is_pending r.status ≡ true
    → find_request request_id (decided_db request_id decision user now db)
      ≡ some (decide_row decision user now r)
decided_self request_id decision user now db r found waiting =
    let (m, named) = find_by-Has (λ x. x.id == request_id) db.cancellation_requests r found in
    find_by-update_where (λ x. x.id == request_id) (still_pending request_id)
      (decide_row decision user now) db.cancellation_requests (λ x. refl)
    ∙ ap
        (Option.map (λ x. if still_pending request_id x then decide_row decision user now x else x))
        found
    ∙ rw (named, waiting) refl

decided_other :
    (request_id : ℕ) (decision : Decision) (user : AuthenticatedUser) (now i : ℕ)
    (rows : List CancellationRequest)
    → i ≢ request_id
    → find_by
        (λ x. x.id == i)
        (update_where (still_pending request_id) (decide_row decision user now) rows)
      ≡ find_by (λ x. x.id == i) rows
decided_other request_id decision user now i [] ne = refl
decided_other request_id decision user now i (x ∷ rows) ne =
    ground (arith, decided_other request_id decision user now i rows ne)

module _ (user : AuthenticatedUser) (request_id now : ℕ) (db : Db) where
  decide_for_done :
      (body : DecisionBody) (view : RequestView) (db' : Db)
      → decide_for user request_id body now db ≡ done view db'
      → Decided user request_id body now db db'
  unfolding decide_for compare_and_decide
  decide_for_done body view db' run =
      let (request, located, r₁) =
        require_then_done db view db' (find_request request_id db) Refusal.forbidden _ run in
      let (event, found, r₂) =
        require_then_done db view db' (find_event request.event_id db.events) Refusal.forbidden _
          r₁ in
      let (assigned, r₃) =
        throw_if_then_done db view db' (not (may_cancel user event)) Refusal.forbidden _ r₂ in
      let (decision, d, valid, r₄) =
        bind_done (lift (validate_decision_body body)) db view db' _ r₃ in
      let (accepted, same) = lift_done (validate_decision_body body) db decision d valid in
      let r₅ = rw same at r₄ in
      let (waiting, r₆) =
        throw_if_then_done db view db' (not (is_pending request.status))
          Refusal.cancellation_decided _ r₅ in
      let (open_event, r₇) =
        throw_if_then_done db view db' (not (is_cancellable event.status)) Refusal.not_cancellable _
          r₆ in
      let d₁ = decided_db request_id decision user now db in
      let (row, still, r₈) =
        require_then_done d₁ view db' (find_by (still_pending request_id) db.cancellation_requests)
          Refusal.cancellation_decided _ r₇ in
      let (status, d₂, carried, r₉) =
        bind_done (carry_out decision user event request.event_id now) d₁ view db' _ r₈ in
      let ends : db' ≡ d₂ = ground arith in
      let may : may_cancel user event ≡ true = ground arith in
      let cancellable : is_cancellable event.status ≡ true = ground arith in
      let (c, t, kept) =
        carry_out_done user request.event_id event now d₁ found may cancellable decision status d₂
          carried in
      rw ends record {
        request = request;
        event = event;
        decision = decision;
        asked = validate_decision_body_ok body decision accepted;
        located = located;
        waiting = ground arith;
        after = decide_row decision user now request;
        stored =
            ap (find_by (λ r. r.id == request_id)) kept
            ∙ decided_self request_id decision user now db request located (ground arith);
        row = decide_row-DecidedRow user now decision request;
        other_requests = λ i ne.
            ap (find_by (λ r. r.id == i)) kept
            ∙ decided_other request_id decision user now i db.cancellation_requests ne;
        found = found;
        assigned = may;
        open_event = cancellable;
        requests = kept;
        told_organiser = t;
        carried = c;
      }

request_id_done :
    (id : RouteId) (db : Db) (request_id : ℕ) (db' : Db)
    → require_request_id id db ≡ done request_id db'
    → db' ≡ db
request_id_done (uuid id) db request_id db' run = ground arith
request_id_done malformed db request_id db' run = absurd (ground arith)

-- Deciding a cancellation request changes nothing, or the caller is the coordinator assigned to an
-- event that may still be cancelled, and the request was pending and is now accepted or declined, as
-- the body asks, in their name and at the instant of the call, while every other request stays; the
-- organiser has a notice of the outcome; an accepted request has cancelled the event with all
-- that a cancellation releases, and a declined one leaves every event and registration.
pub decide_cases :
    (identity : Option AuthenticatedUser) (id : RouteId) (body : DecisionBody) (now : ℕ) (db : Db)
    → let db' = (decide identity id body now db).1 in
      (db' ≡ db)
      ⊎ ((user : AuthenticatedUser) × (request_id : ℕ) × (identity ≡ some user)
          × Decided user request_id body now db db')
unfolding decide decide_work
decide_cases identity id body now db =
    elim (transaction_cases (decide_work identity id body now) db) [
      | inl same ↦ inl same
      | inr (view, db', run, at) ↦
          let (user, known, r₁) =
            require_then_done db view db' identity Refusal.authentication_required _ run in
          let (request_id, d, named, r₂) = bind_done (require_request_id id) db view db' _ r₁ in
          let same = request_id_done id db request_id d named in
          inr (
            user,
            request_id,
            known,
            rw at (decide_for_done user request_id now db body view db' (rw same at r₂)),
          )
    ]

create-OnePending :
    (user : AuthenticatedUser) (event_id now new_id : ℕ) (db db' : Db)
    → Created user event_id now new_id db db'
    → OnePending db
    → OnePending db'
create-OnePending user event_id now new_id db db' c one k =
    let r = new_request new_id event_id user c.reason now in
    rw (c.requests, count_if-append (is_pending_cancellation k) db.cancellation_requests (r ∷ []))
      (elim (Bool-cases (event_id == k)) [
        | inl here ↦
            let e : event_id ≡ k = (==_iff event_id k).0 here in
            let none_yet : count_if (is_pending_cancellation k) db.cancellation_requests ≡ 0 =
              any-count_if (is_pending_cancellation k) db.cancellation_requests (rw e at c.quiet) in
            rw (here, none_yet) (omega arith)
        | inr elsewhere ↦ rw elsewhere (omega (arith, one k))
      ])

decided_leaves :
    (k : ℕ) (decision : Decision) (user : AuthenticatedUser) (now : ℕ) (r : CancellationRequest)
    → is_pending_cancellation k (decide_row decision user now r) ≡ false
decided_leaves k accept user now r = ground arith
decided_leaves k decline user now r = ground arith

-- Filing and deciding keep at most one pending request for each event, which the unique index
-- demands.
pub create-decide-OnePending :
    (identity : Option AuthenticatedUser) (id : RouteId) (now : ℕ) (db : Db)
    → OnePending db
    → ((body : CreateBody) (new_id : ℕ) → OnePending (create identity id body now new_id db).1)
      × ((body : DecisionBody) → OnePending (decide identity id body now db).1)
create-decide-OnePending identity id now db one = (
  λ body new_id. elim (create_cases identity id body now new_id db) [
    | inl same ↦ rw same one
    | inr (user, event_id, known, c) ↦ create-OnePending user event_id now new_id db _ c one
  ],
  λ body. elim (decide_cases identity id body now db) [
    | inl same ↦ rw same one
    | inr (user, request_id, known, c) ↦ λ k. rw c.requests (
        omega (
          arith,
          one k,
          count_if-update_where_out (is_pending_cancellation k) (still_pending request_id)
              (decide_row c.decision user now) db.cancellation_requests
              (λ r h. decided_leaves k c.decision user now r),
        ))
  ],
)
