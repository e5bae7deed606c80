-- ===== src/Venues/Holds.antt =====
-- The life of an approved tentative hold: convertTentativeHold, releaseTentativeHold and the two jobs
-- of the scheduler, processExpiredTentativeHolds and processTentativeHoldReminders
-- (backend/src/venues/repository/venues.repository.ts).
use is212_g5_t.Base.{
  ℕ, ◌+◌, ◌*◌, Bool, true, false, not, ◌&&◌, Option, none, some, List, [], ◌∷◌, map, keep, leb, ltb,
  reached, is_some, if◌then◌else◌, update_where,
}
use is212_g5_t.Schema.{Event, EventStatus, VenueBooking, BookingStatus, RequestKind, Db, find_event}
use is212_g5_t.Venues.{
  Locked, lock_owned_booking, owns_block, of_completed, is_approved, is_expired, is_hold,
  expires_after, set_booking,
}
use is212_g5_t.Venues.Notices.{HoldChange, notify_hold_lifecycle, mark_hold_reminders_read}

pub data HoldAction : Type 0 where
  convert release : HoldAction

pub data HoldResult : Type 0 where
  not_found not_active expired event_completed : HoldResult
  updated : ℕ → BookingStatus → RequestKind → HoldResult

abbrev pub convert_row : VenueBooking → VenueBooking
convert_row b = record b { request_kind = RequestKind.booking; hold_expires_at = none }

abbrev pub release_row : ℕ → VenueBooking → VenueBooking
release_row now b = record b { status = BookingStatus.released; released_at = some now }

abbrev pub act_on : HoldAction → ℕ → VenueBooking → VenueBooking
act_on HoldAction.convert now b = convert_row b
act_on HoldAction.release now b = release_row now b

abbrev pub change_of : HoldAction → HoldChange
change_of HoldAction.convert = HoldChange.converted
change_of HoldAction.release = HoldChange.released

abbrev pub result_of : HoldAction → ℕ → HoldResult
result_of HoldAction.convert id = updated id BookingStatus.approved RequestKind.booking
result_of HoldAction.release id = updated id BookingStatus.released RequestKind.tentative_hold

-- The guard of the UPDATE, status = 'approved' AND request_kind = 'tentative_hold', holds of the
-- locked row by the checks before it.
unfoldable pub save_action : HoldAction → ℕ → ℕ → Db → Db
save_action action id now db =
    notify_hold_lifecycle id (change_of action) now
      (mark_hold_reminders_read id (set_booking id (act_on action now) db))

unfoldable pub act_locked : HoldAction → ℕ → ℕ → ℕ → Option Locked → Db → HoldResult × Db
act_locked action staff id now none db =
    (if owns_block staff id db then not_active else not_found, db)
act_locked action staff id now (some l) db =
    if of_completed l.event
    then (event_completed, db)
    else if is_expired l.booking.status && is_hold l.booking.request_kind
    then (HoldResult.expired, db)
    else if not (is_approved l.booking.status && is_hold l.booking.request_kind)
    then (not_active, db)
    else if not (expires_after l.booking.hold_expires_at now)
    then (HoldResult.expired, db)
    else (result_of action id, save_action action id now db)

unfoldable pub update_tentative_hold : HoldAction → ℕ → ℕ → ℕ → Db → HoldResult × Db
update_tentative_hold action staff id now db =
    act_locked action staff id now (lock_owned_booking staff id db) db

-- The rows that an UPDATE of the expiry job takes.
abbrev pub is_elapsed : ℕ → VenueBooking → Bool
is_elapsed now b =
    is_hold b.request_kind
    && (is_approved b.status
        && (reached b.hold_expires_at now && not (is_some b.hold_expiry_processed_at)))

abbrev pub expire_row : ℕ → VenueBooking → VenueBooking
expire_row now b = record b { status = BookingStatus.expired; hold_expiry_processed_at = some now }

abbrev pub tell_at : (ℕ → HoldChange) → Option ℕ → Option ℕ → ℕ → Db → Db
tell_at change none at id db = db
tell_at change (some expiry) none id db = notify_hold_lifecycle id (change expiry) expiry db
tell_at change (some expiry) (some at) id db = notify_hold_lifecycle id (change expiry) at db

-- One notice for each row, stamped with the given instant or else with the row's expiry.
abbrev pub tell_each : (ℕ → HoldChange) → Option ℕ → List VenueBooking → Db → Db
tell_each change at [] db = db
tell_each change at (b ∷ bs) db =
    tell_each change at bs (tell_at change b.hold_expires_at at b.id db)

unfoldable pub process_expired_tentative_holds : ℕ → Db → List ℕ × Db
process_expired_tentative_holds now db =
    let rows = keep (is_elapsed now) db.bookings in
    (
      map (λ b. b.id) rows,
      tell_each HoldChange.expired none rows
          (record db { bookings = update_where (is_elapsed now) (expire_row now) db.bookings }),
    )

abbrev pub day : ℕ
day = 86400000

abbrev expires_within : Option ℕ → ℕ → Bool
expires_within none now = false
expires_within (some at) now = ltb now at && leb at (now + 2 * day)

abbrev is_running : Option Event → Bool
is_running none = false
is_running (some e) = not_cancelled e.status
  where
    not_cancelled : EventStatus → Bool
    not_cancelled EventStatus.cancelled = false
    not_cancelled _ = true

abbrev pub is_to_remind : List Event → ℕ → VenueBooking → Bool
is_to_remind events now b =
    is_running (find_event b.event_id events)
    && (is_hold b.request_kind
        && (is_approved b.status
            && (not (is_some b.hold_expiry_processed_at)
                && (not (is_some b.hold_reminder_sent_at)
                    && expires_within b.hold_expires_at now))))

abbrev pub remind_row : ℕ → VenueBooking → VenueBooking
remind_row now b = record b { hold_reminder_sent_at = some now }

unfoldable pub process_tentative_hold_reminders : ℕ → Db → List ℕ × Db
process_tentative_hold_reminders now db =
    let rows = keep (is_to_remind db.events now) db.bookings in
    (
      map (λ b. b.id) rows,
      tell_each HoldChange.reminder (some now) rows (record db {
        bookings = update_where (is_to_remind db.events now) (remind_row now) db.bookings;
      }),
    )
