-- ===== src/Venues/Service.antt =====
-- The endpoints over the repository (backend/src/venues/venues.service.ts): who may call them, and
-- the refusal that each outcome becomes. The permission that RbacService reads for Venue Staff is an
-- input.
use is212_g5_t.Base.{
  ℕ, Bool, ◌&&◌, Option, none, some, List, any, ltb, trim, length, is_empty, if◌then◌else◌,
}
use is212_g5_t.Schema.{
  VenueBooking, Db, AuthenticatedUser, RouteId, uuid, malformed, Refusal, Result, ok, err,
  is_venue_staff, is_coordinator,
}
use is212_g5_t.Registrations.{Env}
use is212_g5_t.Venues.Decisions.{DecisionResult, approve_venue_booking, reject_venue_booking}
use is212_g5_t.Venues.Holds.{HoldAction, HoldResult, update_tentative_hold}
use is212_g5_t.Venues.Requests.{
  RequestInput, SubmitResult, CancelResult, submit_booking_request, submit_tentative_hold_request,
  cancel_coordinator_booking,
}

unfoldable pub authorize_staff : Option AuthenticatedUser → Bool → Result AuthenticatedUser
authorize_staff none permitted = err Refusal.authentication_required
authorize_staff (some user) permitted =
    if any is_venue_staff user.roles && permitted then ok user else err Refusal.staff_only

unfoldable pub authorize_coordinator : Option AuthenticatedUser → Result AuthenticatedUser
authorize_coordinator none = err Refusal.authentication_required
authorize_coordinator (some user) =
    if any is_coordinator user.roles then ok user else err Refusal.coordinator_only

unfoldable pub decision_or_throw : DecisionResult → Result VenueBooking
decision_or_throw DecisionResult.not_found = err Refusal.booking_not_found
decision_or_throw DecisionResult.already_blocked = err Refusal.booking_already_decided
decision_or_throw (DecisionResult.already_decided status) = err Refusal.booking_already_decided
decision_or_throw (DecisionResult.inside_lead_time changed) = err Refusal.booking_slot_conflict
decision_or_throw (DecisionResult.conflict conflicts) = err Refusal.booking_slot_conflict
decision_or_throw DecisionResult.event_completed = err Refusal.arrangements_locked
decision_or_throw (DecisionResult.decided booking) = ok booking

unfoldable pub hold_action_or_throw : HoldResult → Result HoldResult
hold_action_or_throw HoldResult.not_found = err Refusal.hold_not_found
hold_action_or_throw HoldResult.event_completed = err Refusal.arrangements_locked
hold_action_or_throw HoldResult.expired = err Refusal.hold_expired
hold_action_or_throw HoldResult.not_active = err Refusal.hold_not_active
hold_action_or_throw (HoldResult.updated id status kind) = ok (HoldResult.updated id status kind)

unfoldable pub submitted_or_throw : SubmitResult → Result SubmitResult
submitted_or_throw SubmitResult.venue_not_found = err Refusal.venue_not_found
submitted_or_throw SubmitResult.event_not_assigned = err Refusal.assigned_event_not_found
submitted_or_throw (SubmitResult.event_not_open status) = err Refusal.event_not_open_for_booking
submitted_or_throw (SubmitResult.already_requested id status) =
    err Refusal.active_venue_request_exists
submitted_or_throw SubmitResult.lead_time = err Refusal.tentative_hold_lead_time
submitted_or_throw (SubmitResult.conflict reason) = err Refusal.venue_conflict
submitted_or_throw (SubmitResult.created b status moved) = ok (SubmitResult.created b status moved)

unfoldable pub cancelled_or_throw : CancelResult → Result (Unit {0})
cancelled_or_throw CancelResult.not_found = err Refusal.booking_not_found
cancelled_or_throw CancelResult.event_completed = err Refusal.arrangements_locked
cancelled_or_throw CancelResult.not_active = err Refusal.booking_not_active
cancelled_or_throw CancelResult.last_active = err Refusal.last_active_venue_booking
cancelled_or_throw CancelResult.cancelled = ok tt

-- A call after its checks: the refusal of the check, or the outcome of the repository.
abbrev pub checked :
    {A B C : Type 0} → Result A → (A → Db → B × Db) → (B → Result C) → Db → Result C × Db
checked (err e) work finish db = (err e, db)
checked (ok a) work finish db = let (b, db') = work a db in (finish b, db')

abbrev pub with_id : {A : Type 0} → Refusal → RouteId → Result A → Result (A × ℕ)
with_id missing id (err e) = err e
with_id missing malformed (ok a) = err missing
with_id missing (uuid id) (ok a) = ok (a, id)

-- The `reason` of a body, by its code units, when it is a text: required once trimmed, and at most
-- 1000 long.
unfoldable pub validate_rejection_reason : Option (List ℕ) → Result (List ℕ)
validate_rejection_reason none = err Refusal.reason_required
validate_rejection_reason (some text) =
    if is_empty (trim text)
    then err Refusal.reason_required
    else if ltb 1000 (length (trim text))
    then err Refusal.reason_too_long
    else ok (trim text)

abbrev both : {A B : Type 0} → Result A → Result B → Result (A × B)
both (err e) r = err e
both (ok a) (err e) = err e
both (ok a) (ok b) = ok (a, b)

-- The repository's operation on what the checks let through.
abbrev pub approve_as : ℕ → AuthenticatedUser × ℕ → Db → DecisionResult × Db
approve_as now (user, booking_id) = approve_venue_booking user.uid booking_id now

abbrev pub reject_as : ℕ → (AuthenticatedUser × ℕ) × List ℕ → Db → DecisionResult × Db
reject_as now ((user, booking_id), text) = reject_venue_booking user.uid booking_id text now

abbrev pub act_as : HoldAction → ℕ → AuthenticatedUser × ℕ → Db → HoldResult × Db
act_as action now (user, booking_id) = update_tentative_hold action user.uid booking_id now

abbrev pub cancel_as : Bool → AuthenticatedUser × ℕ → Db → CancelResult × Db
cancel_as confirmed (user, booking_id) = cancel_coordinator_booking user.uid booking_id confirmed

unfoldable pub approve :
    Option AuthenticatedUser → Bool → RouteId → ℕ → Db → Result VenueBooking × Db
approve identity permitted id now db =
    checked (with_id Refusal.booking_not_found id (authorize_staff identity permitted))
      (approve_as now) decision_or_throw db

unfoldable pub reject :
    Option AuthenticatedUser → Bool → RouteId → Option (List ℕ) → ℕ → Db → Result VenueBooking × Db
reject identity permitted id reason now db =
    checked
      (both (with_id Refusal.booking_not_found id (authorize_staff identity permitted))
        (validate_rejection_reason reason))
      (reject_as now) decision_or_throw db

unfoldable pub act_on_hold :
    HoldAction → Option AuthenticatedUser → Bool → RouteId → ℕ → Db → Result HoldResult × Db
act_on_hold action identity permitted id now db =
    checked (with_id Refusal.hold_not_found id (authorize_staff identity permitted))
      (act_as action now) hold_action_or_throw db

-- The body of a booking request, or of a hold, once it is parsed.
pub data RequestBody : Type 0 where
  for_booking for_hold : RequestInput → RequestBody

abbrev pub submit_as : Env → (AuthenticatedUser × ℕ) × RequestBody → Db → SubmitResult × Db
submit_as env ((user, venue_id), RequestBody.for_booking input) =
    submit_booking_request venue_id user.uid input env
submit_as env ((user, venue_id), RequestBody.for_hold input) =
    submit_tentative_hold_request venue_id user.uid input env

unfoldable pub submit :
    Option AuthenticatedUser → RouteId → Result RequestBody → Env → Db → Result SubmitResult × Db
submit identity id body env db =
    checked (both (with_id Refusal.venue_not_found id (authorize_coordinator identity)) body)
      (submit_as env) submitted_or_throw db

unfoldable pub cancel_booking :
    Option AuthenticatedUser → RouteId → Bool → Db → Result (Unit {0}) × Db
cancel_booking identity id confirmed db =
    checked (with_id Refusal.booking_not_found id (authorize_coordinator identity))
      (cancel_as confirmed) cancelled_or_throw db
