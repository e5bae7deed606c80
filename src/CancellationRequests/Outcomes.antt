-- ===== src/CancellationRequests/Outcomes.antt =====
-- What filing a cancellation request does
-- (backend/src/events/cancellation-requests/cancellation-requests.service.ts, create).
use is212_g5_t.Base.{
  ℕ, ◌≤◌, ◌≡◌, refl, ◌⊎◌, inl, inr, true, false, not, Option, none, some, List, [], ◌∷◌, ◌++◌, any,
  count_if, length, trim, is_empty, ltb, arith, if◌then◌else◌,
}
use is212_g5_t.Schema.{
  Event, CancellationRequest, CancellationStatus, is_organiser, Db, AuthenticatedUser, RouteId,
  uuid, malformed, Refusal, Result, ok, err, find_event,
}
use is212_g5_t.Transaction.{done}
use is212_g5_t.Transaction.Inverting.{
  transaction_cases, bind_done, require_then_done, throw_if_then_done,
}
use is212_g5_t.Notices.{is_pending_cancellation}
use is212_g5_t.Notices.Telling.{told, is_cancellation_request}
use is212_g5_t.Cancel.{is_cancellable}
use is212_g5_t.CancellationRequests.{
  ReasonField, CreateBody, RequestView, validate_create_body, lift, owns, new_request, display_name,
  tell_coordinator, store_request, locked_event, missing_event, is_own_draft, create_for,
  require_event_id, create_work, create,
}

-- event_cancellation_requests_one_pending: at most one pending request for each event.
abbrev pub OnePending : Db → Type 0
OnePending db = (k : ℕ) → count_if (is_pending_cancellation k) db.cancellation_requests ≤ 1

-- The CHECK on the column: a reason has 1 to 500 characters.
abbrev pub IsReason : Option (List ℕ) → Type 0
IsReason none = Unit {0}
IsReason (some text) = (1 ≤ length text) × (length text ≤ 500)

validate_create_body_bounds :
    (body : CreateBody) (reason : Option (List ℕ))
    → validate_create_body body ≡ ok reason
    → IsReason reason
unfolding validate_create_body
validate_create_body_bounds CreateBody.no_body none h = tt
validate_create_body_bounds CreateBody.no_body (some r) h = absurd (ground arith)
validate_create_body_bounds CreateBody.not_an_object reason h = absurd (ground arith)
validate_create_body_bounds (CreateBody.object true field) reason h = absurd (ground arith)
validate_create_body_bounds (CreateBody.object false ReasonField.missing) none h = tt
validate_create_body_bounds (CreateBody.object false ReasonField.missing) (some r) h =
    absurd (ground arith)
validate_create_body_bounds (CreateBody.object false ReasonField.null) none h = tt
validate_create_body_bounds (CreateBody.object false ReasonField.null) (some r) h =
    absurd (ground arith)
validate_create_body_bounds (CreateBody.object false ReasonField.other) reason h =
    absurd (ground arith)
validate_create_body_bounds (CreateBody.object false (ReasonField.text t)) none h = tt
validate_create_body_bounds (CreateBody.object false (ReasonField.text t)) (some r) h =
    by_length (trim t) h
  where
    by_length :
        (s : List ℕ)
        → (if ltb 500 (length s)
            then err Refusal.invalid_reason
            else ok (if is_empty s then none else some s))
          ≡ ok (some r)
        → (1 ≤ length r) × (length r ≤ 500)
    by_length [] e = absurd (ground arith)
    by_length (c ∷ cs) e = ground arith

-- One more pending request, by the organiser of an event that may still be cancelled.
pub record Created (user : AuthenticatedUser) (event_id now new_id : ℕ) (db db' : Db) : Type 0 where
  pub event : Event
  pub reason : Option (List ℕ)
  pub found : find_event event_id db.events ≡ some event
  pub organises : any is_organiser user.roles ≡ true
  pub owner : event.organiser_id ≡ user.uid
  pub open_event : is_cancellable event.status ≡ true
  pub quiet : any (is_pending_cancellation event_id) db.cancellation_requests ≡ false
  pub bounds : IsReason reason
  pub requests :
      db'.cancellation_requests
      ≡ db.cancellation_requests
        ++ (record {
          id = new_id;
          event_id = event_id;
          requested_by_id = user.uid;
          requested_by = display_name user "Organiser";
          reason = reason;
          status = CancellationStatus.pending;
          requested_at = now;
          decided_by_id = none;
          decided_by = none;
          decided_at = none;
        }
            ∷ [])
  pub told_coordinator :
      (c : ℕ) → event.coordinator_id ≡ some c → told c event_id is_cancellation_request db' ≡ true
  pub events : db'.events ≡ db.events
  pub registrations : db'.registrations ≡ db.registrations

pub lift_done :
    {A : Type 0} (v : Result A) (db : Db) (a : A) (db' : Db)
    → lift v db ≡ done a db'
    → (v ≡ ok a) × (db' ≡ db)
lift_done (ok x) db a db' run = (ground arith, ground arith)
lift_done (err e) db a db' run = absurd (ground arith)

module _ (user : AuthenticatedUser) (event_id now new_id : ℕ) (db : Db) where
  store_request-Created :
      (event : Event) (reason : Option (List ℕ))
      → find_event event_id db.events ≡ some event
      → owns user event ≡ true
      → is_cancellable event.status ≡ true
      → any (is_pending_cancellation event_id) db.cancellation_requests ≡ false
      → IsReason reason
      → Created user event_id now new_id db
          (store_request event (new_request new_id event_id user reason now) db).1
  unfolding store_request
  store_request-Created event reason found owner open_event quiet bounds =
      by_coordinator event.coordinator_id refl
    where
      r : CancellationRequest
      r = new_request new_id event_id user reason now

      d : Db
      d = record db { cancellation_requests = db.cancellation_requests ++ (r ∷ []) }

      by_coordinator :
          (c : Option ℕ)
          → event.coordinator_id ≡ c
          → Created user event_id now new_id db (tell_coordinator c event r d)
      by_coordinator none e = record {
        event = event;
        reason = reason;
        found = found;
        organises = ground (arith, owner);
        owner = ground (arith, owner);
        open_event = open_event;
        quiet = quiet;
        bounds = bounds;
        requests = refl;
        told_coordinator = λ c h. absurd (ground arith);
        events = refl;
        registrations = refl;
      }
      by_coordinator (some x) e = record {
        event = event;
        reason = reason;
        found = found;
        organises = ground (arith, owner);
        owner = ground (arith, owner);
        open_event = open_event;
        quiet = quiet;
        bounds = bounds;
        requests = refl;
        told_coordinator = λ c h. ground arith;
        events = refl;
        registrations = refl;
      }

  create_for_done :
      (body : CreateBody) (view : RequestView) (db' : Db)
      → create_for user event_id body now new_id db ≡ done view db'
      → Created user event_id now new_id db db'
  unfolding create_for locked_event
  create_for_done body view db' run =
      let (event, found, r₁) =
        require_then_done db view db' (find_event event_id db.events)
          (missing_event (any (is_own_draft event_id user.uid) db.drafts)) _ run in
      let (owner, r₂) =
        throw_if_then_done db view db' (not (owns user event)) Refusal.forbidden _ r₁ in
      let (reason, d, valid, r₃) = bind_done (lift (validate_create_body body)) db view db' _ r₂ in
      let (accepted, same) = lift_done (validate_create_body body) db reason d valid in
      let r₄ = rw same at r₃ in
      let (open_event, r₅) =
        throw_if_then_done db view db' (not (is_cancellable event.status)) Refusal.not_cancellable _
          r₄ in
      let (quiet, r₆) =
        throw_if_then_done db view db'
          (any (is_pending_cancellation event_id) db.cancellation_requests)
          Refusal.cancellation_pending _ r₅ in
      let ends : db' ≡ (store_request event (new_request new_id event_id user reason now) db).1 =
        ground arith in
      rw ends (
        store_request-Created event reason found (ground arith) (ground arith) quiet
          (validate_create_body_bounds body reason accepted))

event_id_done :
    (id : RouteId) (db : Db) (event_id : ℕ) (db' : Db)
    → require_event_id id db ≡ done event_id db'
    → db' ≡ db
event_id_done (uuid id) db event_id db' run = ground arith
event_id_done malformed db event_id db' run = absurd (ground arith)

-- Filing a cancellation request changes nothing, or the caller is the organiser of an event that may
-- still be cancelled and for which nothing was pending: one request of theirs is added, pending and
-- with a reason of 1 to 500 characters or none, an assigned coordinator has a notice of it, and no
-- event and no registration changes.
pub create_cases :
    (identity : Option AuthenticatedUser) (id : RouteId) (body : CreateBody) (now new_id : ℕ)
    (db : Db)
    → let db' = (create identity id body now new_id db).1 in
      (db' ≡ db)
      ⊎ ((user : AuthenticatedUser) × (event_id : ℕ) × (identity ≡ some user)
          × Created user event_id now new_id db db')
unfolding create create_work
create_cases identity id body now new_id db =
    elim (transaction_cases (create_work identity id body now new_id) db) [
      | inl same ↦ inl same
      | inr (view, db', run, at) ↦
          let (user, known, r₁) =
            require_then_done db view db' identity Refusal.authentication_required _ run in
          let (event_id, d, named, r₂) = bind_done (require_event_id id) db view db' _ r₁ in
          let same = event_id_done id db event_id d named in
          inr (
            user,
            event_id,
            known,
            rw at (create_for_done user event_id now new_id db body view db' (rw same at r₂)),
          )
    ]
