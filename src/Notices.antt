-- ===== src/Notices.antt =====
-- The notices about a pending request that the request itself and the Lead's assignment share
-- (backend/src/events/change-requests/change-request-notice.ts and
-- backend/src/events/cancellation-requests/cancellation-request-notice.ts).
pub mod Telling
use is212_g5_t.Base.{ℕ, String, Bool, true, false, ◌&&◌, ◌==◌, Option, none, some, ◌∷◌, find_by}
use is212_g5_t.Schema.{
  ChangeRequest, ChangeRequestStatus, CancellationRequest, CancellationStatus, Notification,
  NotificationType, Message, Db,
}

-- INSERT INTO notifications (recipient_id, type, message, related_event_id).
abbrev pub notice : ℕ → NotificationType → Message → ℕ → Notification
notice recipient type message event_id = record {
  recipient_id = recipient;
  type = type;
  message = message;
  related_event_id = event_id;
  related_user_id = none;
  related_booking_id = none;
  read = false;
  created_at = none;
}

-- The same with an explicit created_at.
abbrev pub notice_at : ℕ → NotificationType → Message → ℕ → ℕ → Notification
notice_at recipient type message event_id at = record (notice recipient type message event_id) {
  created_at = some at;
}

abbrev pub insert_notice : Notification → Db → Db
insert_notice n db = record db { notifications = n ∷ db.notifications }

abbrev is_open_change : ChangeRequestStatus → Bool
is_open_change ChangeRequestStatus.pending = true
is_open_change _ = false

abbrev pub is_pending_change : ℕ → ChangeRequest → Bool
is_pending_change event_id r = r.event_id == event_id && is_open_change r.status

abbrev pub is_pending : CancellationStatus → Bool
is_pending CancellationStatus.pending = true
is_pending _ = false

abbrev pub is_pending_cancellation : ℕ → CancellationRequest → Bool
is_pending_cancellation event_id r = r.event_id == event_id && is_pending r.status

abbrev pub change_notice : ℕ → String → ℕ → ChangeRequest → Notification
change_notice event_id name coordinator r =
    notice coordinator NotificationType.coordinator_change_request
      (Message.change_requested r.requested_by name r.changes) event_id

abbrev pub cancellation_notice : ℕ → ℕ → String → String → ℕ → Notification
cancellation_notice coordinator event_id name requested_by requested_at =
    notice_at coordinator NotificationType.cancellation_request_submitted
      (Message.cancellation_requested requested_by name) event_id requested_at

abbrev pub tell_change : ℕ → String → ℕ → Option ChangeRequest → Db → Db
tell_change event_id name coordinator none db = db
tell_change event_id name coordinator (some r) db =
    insert_notice (change_notice event_id name coordinator r) db

unfoldable pub notify_pending_change_request : ℕ → String → ℕ → Db → Db
notify_pending_change_request event_id name coordinator db =
    tell_change event_id name coordinator (find_by (is_pending_change event_id) db.change_requests)
      db

abbrev pub notify_cancellation_requested : ℕ → ℕ → String → String → ℕ → Db → Db
notify_cancellation_requested coordinator event_id name requested_by requested_at db =
    insert_notice (cancellation_notice coordinator event_id name requested_by requested_at) db

abbrev pub tell_cancellation : ℕ → String → ℕ → Option CancellationRequest → Db → Db
tell_cancellation event_id name coordinator none db = db
tell_cancellation event_id name coordinator (some r) db =
    notify_cancellation_requested coordinator event_id name r.requested_by r.requested_at db

unfoldable pub notify_pending_cancellation_request : ℕ → String → ℕ → Db → Db
notify_pending_cancellation_request event_id name coordinator db =
    tell_cancellation event_id name coordinator
      (find_by (is_pending_cancellation event_id) db.cancellation_requests) db

-- Both, as an assignment does.
abbrev pub tell_pending : ℕ → String → ℕ → Db → Db
tell_pending event_id name coordinator db =
    notify_pending_cancellation_request event_id name coordinator
      (notify_pending_change_request event_id name coordinator db)

pub data Decision : Type 0 where
  accept decline : Decision

abbrev outcome_type : Decision → NotificationType
outcome_type Decision.accept = NotificationType.cancellation_request_accepted
outcome_type Decision.decline = NotificationType.cancellation_request_declined

abbrev outcome_message : Decision → String → Message
outcome_message Decision.accept name = Message.cancellation_accepted name
outcome_message Decision.decline name = Message.cancellation_declined name

unfoldable pub notify_cancellation_outcome : ℕ → String → ℕ → Decision → ℕ → Db → Db
notify_cancellation_outcome event_id name organiser outcome decided_at db =
    insert_notice
      (notice_at organiser (outcome_type outcome) (outcome_message outcome name) event_id
        decided_at)
      db
