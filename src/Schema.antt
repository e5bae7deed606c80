-- ===== src/Schema.antt =====
-- The tables that the services read and write (database/postgresql/init/001_schema.sql gives the
-- columns and the CHECK constraints on the statuses), and the users and errors of the API
-- (backend/src/auth/types/auth.models.ts). Ids are the uuids as numbers; instants are the
-- milliseconds of a Date; a nullable column is an Option.
mod Requests
mod Venues
pub mod Events
pub mod Course
pub use Requests.*
pub use Venues.*
use Requests.{UserRole}
use Venues.{Venue, Unavailability, VenueBooking, BookingRequest, ReviewEntry}
use is212_g5_t.Base.{
  ℕ, zero, ◌≡◌, String, Bool, true, false, Option, List, find_by, count_if, ◌==◌, ◌&&◌,
}

pub data EventStatus : Type 0 where
  submitted approved rejected planning confirmed completed cancelled : EventStatus

pub record Event : Type 0 where
  pub id : ℕ
  pub status : EventStatus
  pub event_name : String
  pub organiser_id : ℕ
  pub coordinator_id : Option ℕ
  pub coordinator_name : Option String
  pub start_date_time : ℕ
  pub end_date_time : ℕ
  pub registration_enabled : Bool
  pub registration_opens_at : Option ℕ
  pub registration_closes_at : Option ℕ
  pub registration_limit : ℕ
  pub registration_settings_version : ℕ
  -- The UTF-16 code units of the text.
  pub equipment_needs : List ℕ
  pub equipment_confirmed_at : Option ℕ
  pub cancelled_by : Option ℕ
  pub cancelled_at : Option ℕ
  pub updated_at : ℕ

pub data RegistrationStatus : Type 0 where
  registered withdrawn cancelled waitlisted removed : RegistrationStatus

pub record Registration : Type 0 where
  pub id : ℕ
  pub event_id : ℕ
  pub attendee_id : ℕ
  pub status : RegistrationStatus
  pub full_name : Option String
  pub email : Option String
  pub contact_number : Option String
  pub special_requirements : Option String
  pub withdrawn_at : Option ℕ
  pub created_at : ℕ
  pub updated_at : ℕ
  pub cancellation_reason : Option String
  pub joined_at : Option ℕ
  pub waitlist_seq : Option ℕ
  pub removed_at : Option ℕ
  pub registered_at : Option ℕ

pub data NotificationType : Type 0 where
  waitlist_promoted event_cancelled event_confirmed : NotificationType
  coordinator_assignment coordinator_reassignment coordinator_unassignment : NotificationType
  coordinator_change_request coordinator_safety_response : NotificationType
  cancellation_request_submitted : NotificationType
  cancellation_request_accepted cancellation_request_declined : NotificationType
  venue_booking_approved venue_booking_rejected : NotificationType
  tentative_hold_approved tentative_hold_rejected : NotificationType
  tentative_hold_expiry_reminder tentative_hold_expired : NotificationType
  tentative_hold_released tentative_hold_converted : NotificationType
  equipment_request_reserved equipment_request_cannot_provide : NotificationType
  venue_unavailable_impact venue_timing_impact venue_capacity_impact : NotificationType
  clarification clarification_reply clarification_resolved : NotificationType

-- The fields of an event that a change request may name.
pub data ChangeField : Type 0 where
  description start_date_time end_date_time expected_attendance : ChangeField
  layout facilities accessibility equipment_needs : ChangeField

pub data Message : Type 0 where
  spot_opened : String → Message
  waitlist_place_cancelled : String → Message
  event_has_been_cancelled : String → Message
  event_has_been_confirmed : String → Message
  event_has_been_completed : String → Message
  assigned_to_you : String → ℕ → Message
  reassigned_to_you : String → Message
  reassigned_to : String → String → Message
  change_requested : String → String → List ChangeField → Message
  cancellation_requested : String → String → Message
  cancellation_accepted : String → Message
  cancellation_declined : String → Message
  booking_approved : String → String → Message
  booking_rejected : String → String → Message
  hold_approved : String → String → Message
  hold_rejected : String → String → Message
  hold_expires : String → String → ℕ → Message
  hold_expired : String → String → ℕ → Message
  hold_released : String → String → Message
  hold_converted : String → String → Message

pub record Notification : Type 0 where
  pub recipient_id : ℕ
  pub type : NotificationType
  pub message : Message
  pub related_event_id : ℕ
  pub related_user_id : Option ℕ
  pub related_booking_id : Option ℕ
  pub read : Bool
  -- None where the insert leaves it to the column's default, now().
  pub created_at : Option ℕ

pub record StatusChange : Type 0 where
  pub event_id : ℕ
  pub from_status : EventStatus
  pub to_status : EventStatus
  pub actor_id : ℕ
  pub created_at : ℕ

pub record Account : Type 0 where
  pub id : ℕ
  pub display_name : String
  pub email : String
  pub is_active : Bool
  pub is_available : Bool
  -- user_roles joined to roles.
  pub roles : List UserRole

pub data EquipmentStatus : Type 0 where
  requested reserved unavailable cancelled released : EquipmentStatus

pub record EquipmentReservation : Type 0 where
  pub id : ℕ
  pub event_id : ℕ
  pub equipment_name : String
  pub quantity : ℕ
  pub status : EquipmentStatus
  pub created_at : ℕ
  pub updated_at : ℕ
  pub released_at : Option ℕ

pub data SafetyStatus : Type 0 where
  pending changes_needed approved rejected : SafetyStatus

pub record SafetyCheck : Type 0 where
  pub event_id : ℕ
  pub status : SafetyStatus
  pub requested_at : ℕ
  pub requested_by : ℕ
  pub approver_name : Option String
  pub feedback : Option String
  pub decided_at : Option ℕ

pub record FeedbackItem : Type 0 where
  pub id : ℕ
  pub event_id : ℕ
  pub resolved_by_coordinator_at : Option ℕ

pub record SafetyReset : Type 0 where
  pub event_id : ℕ
  pub reset_at : ℕ
  pub reason : String

pub data ChangeRequestStatus : Type 0 where
  pending approved denied withdrawn closed : ChangeRequestStatus

pub record ChangeRequest : Type 0 where
  pub id : ℕ
  pub event_id : ℕ
  pub requested_by : String
  pub changes : List ChangeField
  pub status : ChangeRequestStatus
  pub decided_by : Option String
  pub decided_by_id : Option ℕ
  pub decided_at : Option ℕ
  pub decision_reason : Option String

-- A row of event_change_request_audit, less what it copies from the request.
pub record AuditEntry : Type 0 where
  pub change_request_id : ℕ
  pub event_id : ℕ
  pub outcome : ChangeRequestStatus
  pub decided_by : String
  pub decided_by_id : Option ℕ
  pub reason : Option String
  pub decided_at : ℕ

pub data DraftStatus : Type 0 where
  draft submitted : DraftStatus

pub record Draft : Type 0 where
  pub id : ℕ
  pub organiser_id : ℕ
  pub status : DraftStatus

pub data CancellationStatus : Type 0 where
  pending accepted declined : CancellationStatus

pub record CancellationRequest : Type 0 where
  pub id : ℕ
  pub event_id : ℕ
  pub requested_by_id : ℕ
  pub requested_by : String
  -- The code points of the text.
  pub reason : Option (List ℕ)
  pub status : CancellationStatus
  pub requested_at : ℕ
  pub decided_by_id : Option ℕ
  pub decided_by : Option String
  pub decided_at : Option ℕ

pub record Reassignment : Type 0 where
  pub event_id : ℕ
  pub from_coordinator_id : ℕ
  pub from_coordinator_name : Option String
  pub to_coordinator_id : ℕ
  pub to_coordinator_name : String
  pub reassigned_by : ℕ

pub record Db : Type 0 where
  pub events : List Event
  pub registrations : List Registration
  pub notifications : List Notification
  pub history : List StatusChange
  pub users : List Account
  pub venues : List Venue
  pub bookings : List VenueBooking
  pub unavailable : List Unavailability
  pub booking_requests : List BookingRequest
  pub review_log : List ReviewEntry
  pub equipment : List EquipmentReservation
  pub safety_checks : List SafetyCheck
  pub feedback_items : List FeedbackItem
  pub safety_resets : List SafetyReset
  pub change_requests : List ChangeRequest
  pub change_request_audit : List AuditEntry
  pub cancellation_requests : List CancellationRequest
  pub reassignments : List Reassignment
  pub drafts : List Draft
  -- The next value of event_registrations_waitlist_seq.
  pub waitlist_seq : ℕ

abbrev pub find_event : ℕ → List Event → Option Event
find_event id events = find_by (λ e. e.id == id) events

abbrev pub is_registered : RegistrationStatus → Bool
is_registered registered = true
is_registered _ = false

abbrev pub is_waitlisted : RegistrationStatus → Bool
is_waitlisted waitlisted = true
is_waitlisted _ = false

-- The rows of one event that hold a place, and those that wait.
abbrev pub holds_place : ℕ → Registration → Bool
holds_place event_id r = r.event_id == event_id && is_registered r.status

abbrev pub waits : ℕ → Registration → Bool
waits event_id r = r.event_id == event_id && is_waitlisted r.status

abbrev pub registered_count : ℕ → List Registration → ℕ
registered_count event_id rows = count_if (holds_place event_id) rows

abbrev pub waitlisted_count : ℕ → List Registration → ℕ
waitlisted_count event_id rows = count_if (waits event_id) rows

-- A key that names one row: the primary key, and UNIQUE (event_id, attendee_id).
abbrev pub has_id : ℕ → Registration → Bool
has_id id r = r.id == id

abbrev pub has_key : ℕ → ℕ → Registration → Bool
has_key event_id attendee_id r = r.event_id == event_id && r.attendee_id == attendee_id
