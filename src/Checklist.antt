-- ===== src/Checklist.antt =====
-- The planning checklist (backend/src/events/status/checklist.ts). A text is its UTF-16 code units.
pub mod Agreement
pub mod Texts
pub use Texts.{equipment_required}
use is212_g5_t.Base.{
  ℕ, ◌+◌, String, Bool, true, false, not, ◌&&◌, ◌||◌, Option, none, some, List, [], ◌∷◌, ◌++◌, map,
  ◌==◌, ltb, leb, if◌then◌else◌, any, keep, is_empty, is_some,
}
use is212_g5_t.Schema.{
  VenueBooking, BookingStatus, RequestKind, EquipmentReservation, EquipmentStatus, SafetyStatus,
}
use is212_g5_t.Readiness.{
  ApprovedHoldState, approved_hold_state, is_rejected, is_inactive, has_approved_replacement,
  active_bookings,
}

pub data RequestStatus : Type 0 where
  not_requested pending confirmed unavailable : RequestStatus

pub data Prerequisite : Type 0 where
  venue equipment registration : Prerequisite

pub record RegistrationPrerequisiteInput : Type 0 where
  pub enabled : Bool
  pub opens_at : Option ℕ
  pub closes_at : Option ℕ

pub record SafetyCheckFeedback : Type 0 where
  pub resolved_by_coordinator_at : Option ℕ
  pub venue_ids : List ℕ
  pub equipment_ids : List ℕ

-- The status of a check, or `not_requested` as `none`; its other texts are only passed on.
pub record SafetyCheckView : Type 0 where
  pub status : Option SafetyStatus
  pub feedback : List SafetyCheckFeedback

pub record ChecklistInput : Type 0 where
  pub venue_bookings : List VenueBooking
  pub equipment : List EquipmentReservation
  pub equipment_needs : List ℕ
  pub equipment_confirmed_at : Option ℕ
  pub safety : SafetyCheckView
  pub registration : Option RegistrationPrerequisiteInput
  pub now : ℕ

abbrev pub by_hold : Option ApprovedHoldState → BookingStatus → Bool → RequestStatus
by_hold (some ApprovedHoldState.expired) status blocked = unavailable
by_hold (some ApprovedHoldState.active) status blocked = pending
by_hold none BookingStatus.approved blocked = if blocked then unavailable else confirmed
by_hold none _ blocked = pending

unfoldable pub venue_request_status : VenueBooking → ℕ → RequestStatus
venue_request_status b now =
    if is_rejected b.status
    then unavailable
    else by_hold (approved_hold_state b now) b.status b.venue_unavailable

-- No status of an equipment reservation is spelled "rejected".
unfoldable pub equipment_request_status : EquipmentReservation → RequestStatus
equipment_request_status line = by_status line.status
  where
    by_status : EquipmentStatus → RequestStatus
    by_status EquipmentStatus.unavailable = unavailable
    by_status EquipmentStatus.reserved = confirmed
    by_status _ = pending

abbrev pub is_unavailable : RequestStatus → Bool
is_unavailable unavailable = true
is_unavailable _ = false

abbrev pub is_pending : RequestStatus → Bool
is_pending pending = true
is_pending _ = false

abbrev pub is_confirmed : RequestStatus → Bool
is_confirmed confirmed = true
is_confirmed _ = false

unfoldable pub combined : List RequestStatus → RequestStatus
combined statuses =
    if any is_unavailable statuses
    then unavailable
    else if any is_pending statuses
    then pending
    else confirmed

-- The status of a section: `not_requested` without requests.
abbrev pub section_status : List RequestStatus → RequestStatus
section_status statuses = if is_empty statuses then not_requested else combined statuses

abbrev pub earliest : List ℕ → Option ℕ
earliest [] = none
earliest (t ∷ ts) = elim (earliest ts) [ none ↦ some t | some u ↦ some (if ltb u t then u else t) ]

abbrev pub lists_id : List ℕ → ℕ → Bool
lists_id ids id = any (λ i. i == id) ids

abbrev concat_ids : List (List ℕ) → List ℕ
concat_ids [] = []
concat_ids (ids ∷ rest) = ids ++ concat_ids rest

pub record RequestItem : Type 0 where
  pub id : ℕ
  pub name : String
  -- The quantity of an equipment line.
  pub quantity : Option ℕ
  pub status : RequestStatus
  pub hold_state : Option ApprovedHoldState
  pub requested_date : ℕ
  -- safetyReviewStatus: 'Pending review'.
  pub pending_review : Bool

pub record Section : Type 0 where
  pub status : RequestStatus
  pub items : List RequestItem
  pub requested_date : Option ℕ

pub record PlanningChecklist : Type 0 where
  pub venue_section : Section
  pub equipment_required : Bool
  pub equipment_section : Section
  pub confirmed_by_coordinator : Bool
  pub confirmed_date : Option ℕ
  pub safety_check : SafetyCheckView
  pub registration_enabled : Bool
  pub registration_ready : Bool
  pub can_request_safety_check : Bool
  pub blocking : List Prerequisite

unfoldable pub is_current : List VenueBooking → VenueBooking → Bool
is_current held b = not (is_rejected b.status && has_approved_replacement b held)

abbrev pub current_bookings : List VenueBooking → List VenueBooking
current_bookings bookings = let held = active_bookings bookings in keep (is_current held) held

abbrev pub current_lines : List EquipmentReservation → List EquipmentReservation
current_lines lines = keep (λ l. not (is_inactive l.status)) lines

abbrev registration_is_ready : Option RegistrationPrerequisiteInput → Bool
registration_is_ready none = true
registration_is_ready (some r) = not r.enabled || (is_some r.opens_at && is_some r.closes_at)

abbrev registration_is_enabled : Option RegistrationPrerequisiteInput → Bool
registration_is_enabled none = false
registration_is_enabled (some r) = r.enabled

abbrev venue_request_item : List ℕ → ℕ → VenueBooking → RequestItem
venue_request_item review now b = record {
  id = b.id;
  name = b.venue_name;
  quantity = none;
  status = venue_request_status b now;
  hold_state = approved_hold_state b now;
  requested_date = b.created_at;
  pending_review = lists_id review b.id && not (is_confirmed (venue_request_status b now));
}

abbrev equipment_request_item : List ℕ → EquipmentReservation → RequestItem
equipment_request_item review l = record {
  id = l.id;
  name = l.equipment_name;
  quantity = some l.quantity;
  status = equipment_request_status l;
  hold_state = none;
  requested_date = l.created_at;
  pending_review = lists_id review l.id && not (is_confirmed (equipment_request_status l));
}

abbrev pub none_confirmed : ChecklistInput → Bool
none_confirmed input =
    is_empty (current_lines input.equipment) && is_some input.equipment_confirmed_at

abbrev pub venue_status : ChecklistInput → RequestStatus
venue_status input =
    section_status
      (map (λ b. venue_request_status b input.now) (current_bookings input.venue_bookings))

abbrev pub equipment_status : ChecklistInput → RequestStatus
equipment_status input =
    section_status (map equipment_request_status (current_lines input.equipment))

abbrev pub push_if : Bool → Prerequisite → List Prerequisite → List Prerequisite
push_if b p rest = if b then p ∷ rest else rest

abbrev pub blocking_of : ChecklistInput → List Prerequisite
blocking_of input = push_if (not (is_confirmed (venue_status input))) venue (
    push_if (not (is_confirmed (equipment_status input) || none_confirmed input)) equipment
      (push_if (not (registration_is_ready input.registration)) registration []))

abbrev pub is_unresolved : SafetyCheckFeedback → Bool
is_unresolved f = not (is_some f.resolved_by_coordinator_at)

-- A safety check only stands while venue and equipment are confirmed, or there is feedback to see.
abbrev standing : ChecklistInput → SafetyCheckView
standing input =
    if any is_unresolved input.safety.feedback
      || (is_confirmed (venue_status input)
            && (is_confirmed (equipment_status input) || none_confirmed input)
          || (not (is_empty input.safety.feedback) || not (is_some input.safety.status)))
    then input.safety
    else record { status = none; feedback = [] }

unfoldable pub build_checklist : ChecklistInput → PlanningChecklist
build_checklist input =
    let bookings = current_bookings input.venue_bookings in
    let lines = current_lines input.equipment in
    let review_venues =
      concat_ids (map (λ (f : SafetyCheckFeedback). f.venue_ids) input.safety.feedback) in
    let review_equipment =
      concat_ids (map (λ (f : SafetyCheckFeedback). f.equipment_ids) input.safety.feedback) in
    let blocking = blocking_of input in
    record {
      venue_section = record {
        status = venue_status input;
        items = map (venue_request_item review_venues input.now) bookings;
        requested_date = earliest (map (λ (b : VenueBooking). b.created_at) bookings);
      };
      equipment_required = equipment_required input.equipment_needs;
      equipment_section = record {
        status = equipment_status input;
        items = map (equipment_request_item review_equipment) lines;
        requested_date = earliest (map (λ (l : EquipmentReservation). l.created_at) lines);
      };
      confirmed_by_coordinator = none_confirmed input;
      confirmed_date = if none_confirmed input then input.equipment_confirmed_at else none;
      safety_check = standing input;
      registration_enabled = registration_is_enabled input.registration;
      registration_ready = registration_is_ready input.registration;
      can_request_safety_check = is_empty blocking && not (any is_unresolved input.safety.feedback);
      blocking = blocking;
    }
