-- ===== src/Venues/Notices.antt =====
-- The notices of a booking decision and of a hold's life
-- (backend/src/venues/review/booking-decision-notice.ts and hold-lifecycle-notice.ts).
use is212_g5_t.Base.{
  ℕ, String, Bool, true, false, not, ◌&&◌, some_eq, Option, none, some, if◌then◌else◌, update_where,
}
use is212_g5_t.Schema.{
  Event, EventStatus, Venue, VenueBooking, RequestKind, NotificationType, Message, Db, find_event,
}
use is212_g5_t.Notices.{notice_at, insert_notice}
use is212_g5_t.Venues.{find_booking, find_venue}

pub data Decision : Type 0 where
  approved rejected : Decision

abbrev decision_type : RequestKind → Decision → NotificationType
decision_type RequestKind.booking Decision.approved = NotificationType.venue_booking_approved
decision_type RequestKind.booking Decision.rejected = NotificationType.venue_booking_rejected
decision_type RequestKind.tentative_hold Decision.approved =
    NotificationType.tentative_hold_approved
decision_type RequestKind.tentative_hold Decision.rejected =
    NotificationType.tentative_hold_rejected

abbrev decision_message : RequestKind → Decision → String → String → Message
decision_message RequestKind.booking Decision.approved v e = Message.booking_approved v e
decision_message RequestKind.booking Decision.rejected v e = Message.booking_rejected v e
decision_message RequestKind.tentative_hold Decision.approved v e = Message.hold_approved v e
decision_message RequestKind.tentative_hold Decision.rejected v e = Message.hold_rejected v e

-- The joins of a booking to its event and its venue.
pub record Context : Type 0 where
  pub event : Event
  pub venue : Venue

abbrev both : Option Event → Option Venue → Option Context
both (some e) (some v) = some (record { event = e; venue = v })
both _ _ = none

abbrev joined : Db → Option VenueBooking → Option Context
joined db none = none
joined db (some b) = both (find_event b.event_id db.events) (find_venue b.venue_id db)

unfoldable pub context_of : ℕ → Db → Option Context
context_of booking_id db = joined db (find_booking booking_id db.bookings)

-- The notice goes to the coordinator that the event has now; without one nothing is written.
abbrev pub booking_notice : NotificationType → Message → ℕ → ℕ → ℕ → Option ℕ → Db → Db
booking_notice type message event_id booking_id at none db = db
booking_notice type message event_id booking_id at (some coordinator) db =
    insert_notice
      (record (notice_at coordinator type message event_id at) {
        related_booking_id = some booking_id;
      })
      db

abbrev pub tell_decision : ℕ → Decision → ℕ → RequestKind → Option Context → Db → Db
tell_decision booking_id decision at kind none db = db
tell_decision booking_id decision at kind (some c) db =
    booking_notice (decision_type kind decision)
      (decision_message kind decision c.venue.name c.event.event_name) c.event.id booking_id at
      c.event.coordinator_id db

unfoldable pub notify_booking_decision : ℕ → Decision → ℕ → RequestKind → Db → Db
notify_booking_decision booking_id decision at kind db =
    tell_decision booking_id decision at kind (context_of booking_id db) db

-- HoldLifecycleChange.
pub data HoldChange : Type 0 where
  reminder expired : ℕ → HoldChange
  released converted : HoldChange

abbrev change_type : HoldChange → NotificationType
change_type (HoldChange.reminder at) = NotificationType.tentative_hold_expiry_reminder
change_type (HoldChange.expired at) = NotificationType.tentative_hold_expired
change_type HoldChange.released = NotificationType.tentative_hold_released
change_type HoldChange.converted = NotificationType.tentative_hold_converted

abbrev change_message : HoldChange → String → String → Message
change_message (HoldChange.reminder at) v e = Message.hold_expires v e at
change_message (HoldChange.expired at) v e = Message.hold_expired v e at
change_message HoldChange.released v e = Message.hold_released v e
change_message HoldChange.converted v e = Message.hold_converted v e

abbrev pub is_cancelled : EventStatus → Bool
is_cancelled EventStatus.cancelled = true
is_cancelled _ = false

abbrev pub tell_change : ℕ → HoldChange → ℕ → Option Context → Db → Db
tell_change hold_id change at none db = db
tell_change hold_id change at (some c) db =
    if is_cancelled c.event.status
    then db
    else booking_notice (change_type change) (change_message change c.venue.name c.event.event_name)
        c.event.id hold_id at c.event.coordinator_id db

unfoldable pub notify_hold_lifecycle : ℕ → HoldChange → ℕ → Db → Db
notify_hold_lifecycle hold_id change at db =
    tell_change hold_id change at (context_of hold_id db) db

abbrev is_reminder : NotificationType → Bool
is_reminder NotificationType.tentative_hold_expiry_reminder = true
is_reminder _ = false

unfoldable pub mark_hold_reminders_read : ℕ → Db → Db
mark_hold_reminders_read hold_id db = record db {
  notifications =
      update_where (λ n. some_eq n.related_booking_id hold_id && (is_reminder n.type && not n.read))
        (λ n. record n { read = true }) db.notifications;
}
