-- ===== src/Lead.antt =====
-- LeadAssignmentService (backend/src/lead/lead-assignment.service.ts): the Event Coordinator Lead
-- assigns a submitted event to a coordinator, or moves an assigned one to another.
pub mod Outcomes
pub mod Reassigning
use is212_g5_t.Base.{
  ℕ, String, Bool, true, false, not, ◌&&◌, ◌==◌, Option, none, some, List, [], ◌∷◌, any, is_some,
  some_eq, find_by, count_if, update_where, if◌then◌else◌,
}
use is212_g5_t.Schema.{
  Event, EventStatus, Account, Notification, NotificationType, Message, Reassignment, Db,
  AuthenticatedUser, RouteId, uuid, malformed, is_lead, is_coordinator, Refusal, Result, find_event,
}
use is212_g5_t.Transaction.{
  M, ◌>>=◌, ◌>>◌, return, throw, throw_if, gets, writes, require, transaction,
}
use is212_g5_t.Notices.{notice, insert_notice, tell_pending}

-- The Lead, who is never also a coordinator.
unfoldable pub require_lead : Option AuthenticatedUser → M AuthenticatedUser
require_lead identity = do
  user ← require identity Refusal.authentication_required
  throw_if (not (any is_lead user.roles)) Refusal.lead_only
  throw_if (any is_coordinator user.roles) Refusal.lead_is_coordinator
  return user

abbrev pub require_request_id : RouteId → M ℕ
require_request_id (uuid id) = return id
require_request_id malformed = throw Refusal.request_not_found

-- The body's coordinatorId, if it is a text.
unfoldable pub parse_coordinator_id : Option RouteId → M ℕ
parse_coordinator_id (some (uuid id)) = return id
parse_coordinator_id (some malformed) = throw Refusal.invalid_coordinator
parse_coordinator_id none = throw Refusal.invalid_coordinator

-- An active coordinator who is not also the Lead.
abbrev pub is_assignable : ℕ → Account → Bool
is_assignable id u =
    u.id == id && (any is_coordinator u.roles && (u.is_active && not (any is_lead u.roles)))

unfoldable pub available_coordinator : ℕ → M Account
available_coordinator id = do
  found ← gets (λ db. find_by (is_assignable id) db.users)
  coordinator ← require found Refusal.invalid_coordinator
  throw_if (not coordinator.is_available) Refusal.coordinator_unavailable
  return coordinator

-- UPDATE events SET coordinator_id, coordinator_name, updated_at = now() WHERE id.
abbrev pub give_to : Account → ℕ → Event → Event
give_to coordinator sql_now e = record e {
  coordinator_id = some coordinator.id;
  coordinator_name = some coordinator.display_name;
  updated_at = sql_now;
}

unfoldable pub set_coordinator : ℕ → Account → ℕ → Db → Db
set_coordinator event_id coordinator sql_now db = record db {
  events = update_where (λ e. e.id == event_id) (give_to coordinator sql_now) db.events;
}

abbrev pub unit_of : Db → Unit {0} × Db
unit_of db = (tt, db)

pub record AssignmentView : Type 0 where
  pub event_id : ℕ
  pub event_name : String
  pub coordinator_id : ℕ
  pub coordinator_name : String

abbrev pub assignment_of : Event → ℕ → Account → AssignmentView
assignment_of event event_id coordinator = record {
  event_id = event_id;
  event_name = event.event_name;
  coordinator_id = coordinator.id;
  coordinator_name = coordinator.display_name;
}

abbrev pub assignment_notice : Event → ℕ → Account → Notification
assignment_notice event event_id coordinator =
    notice coordinator.id NotificationType.coordinator_assignment
      (Message.assigned_to_you event.event_name event.start_date_time) event_id

unfoldable pub store_assignment : Event → ℕ → Account → ℕ → Db → Db
store_assignment event event_id coordinator sql_now db =
    tell_pending event_id event.event_name coordinator.id (
      insert_notice (assignment_notice event event_id coordinator)
        (set_coordinator event_id coordinator sql_now db))

abbrev pub is_submitted : EventStatus → Bool
is_submitted EventStatus.submitted = true
is_submitted _ = false

unfoldable pub assign_for : ℕ → ℕ → ℕ → M AssignmentView
assign_for event_id coordinator_id sql_now = do
  found ← gets (λ db. find_event event_id db.events)
  event ← require found Refusal.request_not_found
  throw_if (is_some event.coordinator_id) Refusal.already_assigned
  throw_if (not (is_submitted event.status)) Refusal.not_awaiting_assignment
  coordinator ← available_coordinator coordinator_id
  writes (λ db. unit_of (store_assignment event event_id coordinator sql_now db))
  return (assignment_of event event_id coordinator)

unfoldable pub assign_work :
    Option AuthenticatedUser → RouteId → Option RouteId → ℕ → M AssignmentView
assign_work identity id body sql_now = do
  lead ← require_lead identity
  event_id ← require_request_id id
  coordinator_id ← parse_coordinator_id body
  assign_for event_id coordinator_id sql_now

unfoldable pub assign :
    Option AuthenticatedUser → RouteId → Option RouteId → ℕ → Db → Result AssignmentView × Db
assign identity id body sql_now db = transaction (assign_work identity id body sql_now) db

-- ACTIVE_WORKLOAD_STATUSES.
abbrev pub is_active_workload : EventStatus → Bool
is_active_workload EventStatus.submitted = true
is_active_workload EventStatus.approved = true
is_active_workload EventStatus.planning = true
is_active_workload EventStatus.confirmed = true
is_active_workload _ = false

-- The notices that say that an event is the recipient's.
unfoldable pub is_ownership_notice : NotificationType → Bool
is_ownership_notice NotificationType.waitlist_promoted = false
is_ownership_notice NotificationType.event_cancelled = false
is_ownership_notice NotificationType.event_confirmed = false
is_ownership_notice NotificationType.coordinator_unassignment = false
is_ownership_notice NotificationType.coordinator_safety_response = false
is_ownership_notice NotificationType.cancellation_request_accepted = false
is_ownership_notice NotificationType.cancellation_request_declined = false
is_ownership_notice _ = true

abbrev pub is_stale : ℕ → ℕ → Notification → Bool
is_stale coordinator event_id n =
    n.recipient_id == coordinator
    && (n.related_event_id == event_id && (is_ownership_notice n.type && not n.read))

abbrev pub mark_read : Notification → Notification
mark_read n = record n { read = true }

unfoldable pub clear_stale : ℕ → ℕ → Db → Db
clear_stale coordinator event_id db = record db {
  notifications = update_where (is_stale coordinator event_id) mark_read db.notifications;
}

abbrev pub add_reassignment : Event → ℕ → ℕ → Account → ℕ → Db → Db
add_reassignment event event_id old coordinator lead db = record db {
  reassignments =
      record {
        event_id = event_id;
        from_coordinator_id = old;
        from_coordinator_name = event.coordinator_name;
        to_coordinator_id = coordinator.id;
        to_coordinator_name = coordinator.display_name;
        reassigned_by = lead;
      }
      ∷ db.reassignments;
}

abbrev pub reassignment_notice : Event → ℕ → Account → Notification
reassignment_notice event event_id coordinator =
    notice coordinator.id NotificationType.coordinator_reassignment
      (Message.reassigned_to_you event.event_name) event_id

abbrev pub unassignment_notice : Event → ℕ → ℕ → Account → Notification
unassignment_notice event event_id old coordinator =
    notice old NotificationType.coordinator_unassignment
      (Message.reassigned_to event.event_name coordinator.display_name) event_id

abbrev pub tell_both : Event → ℕ → ℕ → Account → Db → Db
tell_both event event_id old coordinator db =
    insert_notice (unassignment_notice event event_id old coordinator)
      (insert_notice (reassignment_notice event event_id coordinator) db)

unfoldable pub store_reassignment : Event → ℕ → ℕ → Account → ℕ → ℕ → Db → Db
store_reassignment event event_id old coordinator lead sql_now db =
    tell_pending event_id event.event_name coordinator.id (
      tell_both event event_id old coordinator (
        clear_stale old event_id (
          add_reassignment event event_id old coordinator lead
            (set_coordinator event_id coordinator sql_now db))))

-- The body's currentCoordinatorId: the id that the page showed, or anything else.
unfoldable pub reassign_for : ℕ → ℕ → ℕ → Option ℕ → ℕ → M AssignmentView
reassign_for lead event_id coordinator_id shown sql_now = do
  found ← gets (λ db. find_event event_id db.events)
  event ← require found Refusal.event_not_found
  old ← require event.coordinator_id Refusal.not_reassignable
  throw_if (not (is_active_workload event.status)) Refusal.not_reassignable
  throw_if (not (some_eq shown old)) Refusal.stale_page
  throw_if (old == coordinator_id) Refusal.same_coordinator
  coordinator ← available_coordinator coordinator_id
  writes (λ db. unit_of (store_reassignment event event_id old coordinator lead sql_now db))
  return (assignment_of event event_id coordinator)

abbrev pub require_event_id : RouteId → M ℕ
require_event_id (uuid id) = return id
require_event_id malformed = throw Refusal.event_not_found

unfoldable pub reassign_work :
    Option AuthenticatedUser → RouteId → Option RouteId → Option ℕ → ℕ → M AssignmentView
reassign_work identity id body shown sql_now = do
  lead ← require_lead identity
  event_id ← require_event_id id
  coordinator_id ← parse_coordinator_id body
  reassign_for lead.uid event_id coordinator_id shown sql_now

unfoldable pub reassign :
    Option AuthenticatedUser
    → RouteId
    → Option RouteId
    → Option ℕ
    → ℕ
    → Db
    → Result AssignmentView × Db
reassign identity id body shown sql_now db =
    transaction (reassign_work identity id body shown sql_now) db

-- The workload number of the Lead's list.
abbrev pub is_assignment_of : ℕ → Event → Bool
is_assignment_of coordinator e = some_eq e.coordinator_id coordinator && is_active_workload e.status

unfoldable pub active_assignments : ℕ → List Event → ℕ
active_assignments coordinator events = count_if (is_assignment_of coordinator) events
