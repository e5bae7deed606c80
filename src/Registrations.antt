-- ===== src/Registrations.antt =====
-- Attendee registration (backend/src/registrations/registrations.service.ts and
-- registration/registration-window.ts): the checks that every call makes and the row as it is shown.
-- The calls are in the children: Registering, Joining, Withdrawing and Settings.
pub mod Checks
pub mod Upsert
pub mod Registering
pub mod Joining
pub mod Withdrawing
pub mod Reading
pub mod Settings
pub mod Invariant
use is212_g5_t.Base.{
  ℕ, String, Bool, true, false, not, ◌&&◌, ◌||◌, Option, none, some, List, [], ◌∷◌, ◌==◌, ltb, leb,
  if◌then◌else◌, reached, some_eq, any,
}
use is212_g5_t.Schema.{
  Event, EventStatus, Registration, RegistrationStatus, AuthenticatedUser, RouteId, uuid, malformed,
  is_attendee, Refusal, Result, ok, err, is_waitlisted,
}
use is212_g5_t.Transaction.{M, return, throw}

pub record RegistrationWindow : Type 0 where
  pub registration_enabled : Bool
  pub status : EventStatus
  pub opens_at : Option ℕ
  pub closes_at : Option ℕ

pub data WindowState : Type 0 where
  open_now not_open closed disabled : WindowState

abbrev pub is_confirmed_status : EventStatus → Bool
is_confirmed_status EventStatus.confirmed = true
is_confirmed_status _ = false

-- `opensAt && instant < opensAt`.
abbrev pub not_reached : Option ℕ → ℕ → Bool
not_reached none now = false
not_reached (some at) now = ltb now at

unfoldable pub registration_window_state : RegistrationWindow → ℕ → WindowState
registration_window_state w now =
    if not (is_confirmed_status w.status)
    then WindowState.closed
    else if not w.registration_enabled
    then WindowState.disabled
    else if not_reached w.opens_at now
    then WindowState.not_open
    else if reached w.closes_at now
    then WindowState.closed
    else open_now

abbrev pub is_open : WindowState → Bool
is_open open_now = true
is_open _ = false

unfoldable pub is_registration_open : RegistrationWindow → ℕ → Bool
is_registration_open w now = is_open (registration_window_state w now)

abbrev pub window_of : Event → RegistrationWindow
window_of e = record {
  registration_enabled = e.registration_enabled;
  status = e.status;
  opens_at = e.registration_opens_at;
  closes_at = e.registration_closes_at;
}

-- The refusal for each state that is not open.
unfoldable pub check_window : WindowState → M (Unit {0})
check_window WindowState.not_open = throw Refusal.not_open
check_window WindowState.closed = throw Refusal.closed
check_window WindowState.disabled = throw Refusal.disabled
check_window open_now = return tt

-- ATTENDEE_VISIBLE_STATUSES.
abbrev pub attendee_visible : EventStatus → Bool
attendee_visible EventStatus.confirmed = true
attendee_visible EventStatus.completed = true
attendee_visible EventStatus.cancelled = true
attendee_visible _ = false

-- `!event || !ATTENDEE_VISIBLE.includes(event.status)` is a 404.
unfoldable pub require_visible : Option Event → M Event
require_visible none = throw Refusal.event_not_found
require_visible (some e) =
    if attendee_visible e.status then return e else throw Refusal.event_not_found

unfoldable pub require_attendee : Option AuthenticatedUser → M AuthenticatedUser
require_attendee none = throw Refusal.authentication_required
require_attendee (some user) =
    if any is_attendee user.roles then return user else throw Refusal.attendee_only

unfoldable pub require_event_id : RouteId → M ℕ
require_event_id (uuid id) = return id
require_event_id malformed = throw Refusal.event_not_found

-- The request body of the routes that take no input, as far as they look at it.
pub data Body : Type 0 where
  absent : Body
  object : List String → Body
  other : Body

unfoldable pub require_empty_body : Body → M (Unit {0})
require_empty_body absent = return tt
require_empty_body (object []) = return tt
require_empty_body (object (key ∷ keys)) = throw Refusal.validation
require_empty_body other = throw Refusal.validation

-- An attendee's own row: Registered and Waitlisted rows refuse another entry.
abbrev pub check_status : RegistrationStatus → M (Unit {0})
check_status RegistrationStatus.registered = throw Refusal.already_registered
check_status RegistrationStatus.waitlisted = throw Refusal.already_on_waitlist
check_status _ = return tt

unfoldable pub check_existing : Option Registration → M (Unit {0})
check_existing none = return tt
check_existing (some r) = check_status r.status

-- The injected clock, the database clock, and the uuid that gen_random_uuid() gives to a new row.
pub record Env : Type 0 where
  pub now : ℕ
  pub sql_now : ℕ
  pub new_id : ℕ

pub record RegistrationView : Type 0 where
  pub id : ℕ
  pub event_id : ℕ
  pub event_name : String
  pub attendee_id : ℕ
  pub full_name : String
  pub email : String
  pub contact_number : Option String
  pub special_requirements : Option String
  pub status : RegistrationStatus
  pub registered_at : ℕ
  pub withdrawn_at : Option ℕ
  pub waitlist_position : Option ℕ
  pub joined_at : Option ℕ

abbrev text_or_empty : Option String → String
text_or_empty none = ""
text_or_empty (some t) = t

-- `record(row, eventName, waitlistPosition)`.
unfoldable pub view_of : Registration → String → Option ℕ → RegistrationView
view_of r event_name position = record {
  id = r.id;
  event_id = r.event_id;
  event_name = event_name;
  attendee_id = r.attendee_id;
  full_name = text_or_empty r.full_name;
  email = text_or_empty r.email;
  contact_number = r.contact_number;
  special_requirements = r.special_requirements;
  status = r.status;
  registered_at = r.created_at;
  withdrawn_at = r.withdrawn_at;
  waitlist_position = position;
  joined_at = if is_waitlisted r.status then r.joined_at else none;
}
