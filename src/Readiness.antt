-- ===== src/Readiness.antt =====
-- The readiness rule for confirming an event (backend/src/events/status/readiness.ts) and the rule
-- for approved holds (backend/src/events/venue-unavailable.ts). An ISO time is its instant, so it
-- parses; ids compare as their uuids do.
pub mod Sorting
pub mod Rule
pub mod Ready
use is212_g5_t.Base.{
  ℕ, String, Bool, true, false, not, ◌&&◌, ◌||◌, Option, none, some, List, [], ◌∷◌, ◌++◌, ◌==◌, ltb,
  leb, if◌then◌else◌, reached, keep, any, is_empty,
}
use is212_g5_t.Schema.{
  VenueBooking, BookingStatus, RequestKind, EquipmentReservation, EquipmentStatus, SafetyStatus,
}
use Sorting.{sort_by}

pub data ApprovedHoldState : Type 0 where
  active expired : ApprovedHoldState

abbrev hold_at : Option ℕ → ℕ → ApprovedHoldState
hold_at expires now = if reached expires now then ApprovedHoldState.expired else active

abbrev hold_status : BookingStatus → Option ℕ → ℕ → Option ApprovedHoldState
hold_status BookingStatus.expired expires now = some ApprovedHoldState.expired
hold_status BookingStatus.approved expires now = some (hold_at expires now)
hold_status _ expires now = none

abbrev hold_of : RequestKind → BookingStatus → Option ℕ → ℕ → Option ApprovedHoldState
hold_of RequestKind.booking status expires now = none
hold_of RequestKind.tentative_hold status expires now = hold_status status expires now

unfoldable pub approved_hold_state : VenueBooking → ℕ → Option ApprovedHoldState
approved_hold_state b now = hold_of b.request_kind b.status b.hold_expires_at now

pub data OutstandingType : Type 0 where
  venue equipment safety : OutstandingType

-- The detail texts: a name with a state, an equipment line, or a fixed text.
pub data Detail : Type 0 where
  named : String → String → Detail
  line_of : String → ℕ → String → Detail
  plain : String → Detail

pub record OutstandingItem : Type 0 where
  pub type : OutstandingType
  pub detail : Detail
  pub state : String

pub data SafetyFact : Type 0 where
  approved awaiting_check changes_requested rejected : SafetyFact

-- FACT_STATE of the safety check source.
unfoldable pub fact_state : SafetyStatus → SafetyFact
fact_state SafetyStatus.pending = awaiting_check
fact_state SafetyStatus.changes_needed = changes_requested
fact_state SafetyStatus.approved = SafetyFact.approved
fact_state SafetyStatus.rejected = SafetyFact.rejected

pub record ReadinessSnapshot : Type 0 where
  pub venue_bookings : List VenueBooking
  pub equipment : List EquipmentReservation
  pub safety : Option SafetyFact
  pub equipment_none_confirmed : Bool

pub record ReadinessResult : Type 0 where
  pub ready : Bool
  pub outstanding : List OutstandingItem

abbrev pub is_approved : BookingStatus → Bool
is_approved BookingStatus.approved = true
is_approved _ = false

abbrev pub is_rejected : BookingStatus → Bool
is_rejected BookingStatus.rejected = true
is_rejected _ = false

abbrev pub is_cancelled_booking : BookingStatus → Bool
is_cancelled_booking BookingStatus.cancelled = true
is_cancelled_booking _ = false

-- Not released and not cancelled.
abbrev pub is_active_booking : BookingStatus → Bool
is_active_booking BookingStatus.released = false
is_active_booking BookingStatus.cancelled = false
is_active_booking _ = true

abbrev pub is_hold_request : RequestKind → Bool
is_hold_request RequestKind.tentative_hold = true
is_hold_request RequestKind.booking = false

-- INACTIVE_EQUIPMENT.
abbrev pub is_inactive : EquipmentStatus → Bool
is_inactive EquipmentStatus.cancelled = true
is_inactive EquipmentStatus.released = true
is_inactive _ = false

abbrev pub is_reserved : EquipmentStatus → Bool
is_reserved EquipmentStatus.reserved = true
is_reserved _ = false

-- An available ordinary booking of the same venue that covers the whole slot.
abbrev pub replaces : VenueBooking → VenueBooking → Bool
replaces refused candidate =
    not (
      candidate.id == refused.id
      || (not (candidate.venue_id == refused.venue_id)
          || (not (is_approved candidate.status)
              || (candidate.venue_unavailable || is_hold_request candidate.request_kind))))
    && (ltb candidate.start_at candidate.end_at
        && (leb candidate.start_at refused.start_at && leb refused.end_at candidate.end_at))

unfoldable pub has_approved_replacement : VenueBooking → List VenueBooking → Bool
has_approved_replacement refused bookings =
    if leb refused.end_at refused.start_at then false else any (replaces refused) bookings

abbrev venue_of : VenueBooking → String → Option OutstandingItem
venue_of b state = some (record { type = venue; detail = named b.venue_name state; state = state })

abbrev hold_label : ApprovedHoldState → String
hold_label ApprovedHoldState.expired = "Hold expired"
hold_label active = "Hold"

abbrev approved_item : VenueBooking → Option ApprovedHoldState → Option OutstandingItem
approved_item b (some hold) = venue_of b (hold_label hold)
approved_item b none = if b.venue_unavailable then venue_of b "Venue unavailable" else none

-- Pending: a plain request, a running hold, or an expired one.
abbrev pending_item : VenueBooking → Option ℕ → ℕ → Option OutstandingItem
pending_item b none now = venue_of b "Pending"
pending_item b (some at) now = venue_of b (if leb at now then "Hold expired" else "Hold")

abbrev item_by : VenueBooking → BookingStatus → ℕ → Option OutstandingItem
item_by b BookingStatus.approved now = approved_item b (approved_hold_state b now)
item_by b BookingStatus.rejected now = venue_of b "Rejected"
item_by b _ now = pending_item b b.hold_expires_at now

unfoldable pub venue_item : VenueBooking → ℕ → Option OutstandingItem
unfolding approved_hold_state
venue_item b now = item_by b b.status now

abbrev status_text : EquipmentStatus → String
status_text EquipmentStatus.requested = "Requested"
status_text EquipmentStatus.reserved = "Reserved"
status_text EquipmentStatus.unavailable = "Unavailable"
status_text EquipmentStatus.cancelled = "Cancelled"
status_text EquipmentStatus.released = "Released"

unfoldable pub equipment_item : EquipmentReservation → Option OutstandingItem
equipment_item line =
    if is_inactive line.status || is_reserved line.status
    then none
    else some (record {
      type = equipment;
      detail = line_of line.equipment_name line.quantity (status_text line.status);
      state = status_text line.status;
    })

abbrev safety_of : String → String → Option OutstandingItem
safety_of text state = some (record { type = safety; detail = plain text; state = state })

unfoldable pub safety_item : Option SafetyFact → Option OutstandingItem
safety_item none = safety_of "Awaiting check" "No record"
safety_item (some SafetyFact.approved) = none
safety_item (some changes_requested) = safety_of "Changes requested" "Changes Requested"
safety_item (some awaiting_check) = safety_of "Awaiting check" "Awaiting Check"
safety_item (some SafetyFact.rejected) = safety_of "Rejected" "Rejected"

abbrev pub push : Option OutstandingItem → List OutstandingItem → List OutstandingItem
push none items = items
push (some item) items = item ∷ items

abbrev pub venue_items : List VenueBooking → ℕ → List VenueBooking → List OutstandingItem
venue_items held now [] = []
venue_items held now (b ∷ bookings) =
    let rest = venue_items held now bookings in
    if is_rejected b.status && has_approved_replacement b held
    then rest
    else push (venue_item b now) rest

abbrev pub equipment_items : List EquipmentReservation → List OutstandingItem
equipment_items [] = []
equipment_items (line ∷ lines) = push (equipment_item line) (equipment_items lines)

abbrev pub active_bookings : List VenueBooking → List VenueBooking
active_bookings bookings = keep (λ b. is_active_booking b.status) bookings

abbrev pub none_requested : OutstandingType → String → OutstandingItem
none_requested type state = record { type = type; detail = plain "None requested"; state = state }

abbrev pub no_venue : List VenueBooking → Bool
no_venue bookings =
    is_empty (active_bookings bookings)
    && (is_empty bookings || any (λ b. is_cancelled_booking b.status) bookings)

abbrev pub no_equipment : ReadinessSnapshot → Bool
no_equipment s =
    not (any (λ line. not (is_inactive line.status)) s.equipment) && not s.equipment_none_confirmed

unfoldable pub evaluate_readiness : ReadinessSnapshot → ℕ → ReadinessResult
evaluate_readiness s now =
    let held = active_bookings s.venue_bookings in
    let outstanding =
      (if no_venue s.venue_bookings then none_requested venue "None requested" ∷ [] else [])
      ++ (venue_items held now (sort_by (λ b. b.id) held)
          ++ (equipment_items (sort_by (λ line. line.id) s.equipment)
              ++ ((if no_equipment s then none_requested equipment "Not requested" ∷ [] else [])
                  ++ push (safety_item s.safety) []))) in
    record { ready = is_empty outstanding; outstanding = outstanding }
