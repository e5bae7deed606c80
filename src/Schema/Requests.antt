-- ===== src/Schema/Requests.antt =====
-- Who calls, what a call may be refused with, and what a transaction keeps.
use is212_g5_t.Base.{ℕ, String, Option, Bool, true, false, List}

pub data UserRole : Type 0 where
  organiser coordinator venue_staff tech_support attendee coordinator_lead safety_officer : UserRole

pub record AuthenticatedUser : Type 0 where
  pub uid : ℕ
  pub roles : List UserRole
  pub email : Option String
  pub name : Option String

-- A uuid in a route: its value, or a text that the UUID pattern refuses.
pub data RouteId : Type 0 where
  uuid : ℕ → RouteId
  malformed : RouteId

-- The exceptions that the services throw, by their codes.
pub data Refusal : Type 0 where
  authentication_required : Refusal
  attendee_only event_not_found registration_not_found validation : Refusal
  not_open closed disabled : Refusal
  already_registered already_on_waitlist registration_full waitlist_not_available : Refusal
  waitlist_not_permitted event_already_occurred already_withdrawn not_withdrawable : Refusal
  event_cancelled report_forbidden : Refusal
  not_coordinator settings_forbidden not_configurable settings_conflict : Refusal
  invalid_capacity capacity_too_large invalid_period incomplete capacity_below_confirmed : Refusal
  not_assigned unsupported_target already_confirmed not_confirmable confirm_blocked : Refusal
  cancel_forbidden cancel_not_confirmed not_cancellable invalid_transition : Refusal
  not_completable not_ended equipment_required prerequisites_not_met : Refusal
  safety_check_not_requestable feedback_unresolved feedback_not_found : Refusal
  lead_only lead_is_coordinator invalid_coordinator : Refusal
  request_not_found already_assigned not_awaiting_assignment : Refusal
  not_reassignable stale_page same_coordinator coordinator_unavailable : Refusal
  forbidden cancellation_pending cancellation_decided : Refusal
  invalid_reason invalid_decision invalid_request export_format_invalid : Refusal
  venue_not_found assigned_event_not_found event_not_open_for_booking : Refusal
  active_venue_request_exists tentative_hold_lead_time venue_conflict : Refusal
  booking_not_found booking_not_active last_active_venue_booking : Refusal
  booking_already_decided booking_slot_conflict arrangements_locked : Refusal
  hold_not_found hold_expired hold_not_active staff_only : Refusal
  reason_required reason_too_long coordinator_only : Refusal

abbrev pub is_attendee : UserRole → Bool
is_attendee attendee = true
is_attendee _ = false

abbrev pub is_coordinator : UserRole → Bool
is_coordinator coordinator = true
is_coordinator _ = false

abbrev pub is_lead : UserRole → Bool
is_lead coordinator_lead = true
is_lead _ = false

abbrev pub is_venue_staff : UserRole → Bool
is_venue_staff venue_staff = true
is_venue_staff _ = false

abbrev pub is_organiser : UserRole → Bool
is_organiser organiser = true
is_organiser _ = false

pub data Result {ℓ} (A : Type ℓ) : Type ℓ where
  ok : A → Result A
  err : Refusal → Result A
