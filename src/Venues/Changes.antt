-- ===== src/Venues/Changes.antt =====
-- The operations that make no booking live.
use is212_g5_t.Base.{
  ℕ, ◌≡◌, refl, Bool, true, false, not, ◌&&◌, ◌==◌, Option, none, some, List, arith, keep,
  update_where, some_eq, count_if,
}
use is212_g5_t.Schema.{Event, VenueBooking, RequestKind, Db, find_event}
use is212_g5_t.Schema.Course.{Course-kept}
use is212_g5_t.Venues.{
  find_booking, is_live, Locked, lock_owned_booking, set_booking, of_completed, is_pending,
  is_approved, is_expired, is_hold, expires_after, is_completed_status,
}
use is212_g5_t.Venues.Notices.{Decision, mark_hold_reminders_read}
use is212_g5_t.Venues.Decisions.{
  reject_row, add_review, save_rejection, reject_locked, reject_venue_booking,
}
use is212_g5_t.Venues.Holds.{
  HoldAction, act_on, change_of, save_action, act_locked, update_tentative_hold, is_elapsed,
  expire_row, process_expired_tentative_holds, is_to_remind, remind_row,
  process_tentative_hold_reminders,
}
use is212_g5_t.Venues.Notices.{HoldChange}
use is212_g5_t.Venues.Requests.{
  cancel_row, cancel_coordinator_booking, cancel_at, cancel_found, is_open_booking, is_other_open,
}
use is212_g5_t.Venues.Apart.{Keeps, SameSlot}
use is212_g5_t.Venues.Locking.{guarded, lock_owned_booking-IsLocked}
use is212_g5_t.Venues.Keeping.{
  same_rows, SameRows-Keeps, Keeps-SameRows, update-Keeps, set_booking-Keeps,
  notify_booking_decision-SameRows, notify_hold_lifecycle-SameRows, tell_each-SameRows,
}

pub unchanged : (now : ℕ) (db : Db) → Keeps now db db
unchanged now db = SameRows-Keeps now db db (same_rows db)

save_rejection-Keeps :
    (staff id : ℕ) (reason : List ℕ) (now : ℕ) (kind : RequestKind) (db : Db)
    → Keeps now db (save_rejection staff id reason now kind db)
unfolding save_rejection
save_rejection-Keeps staff id reason now kind db =
    let db₁ : Db = add_review id staff (some reason) (set_booking id (reject_row reason) db) in
    Keeps-SameRows now db db₁ _
      (Keeps-SameRows now db (set_booking id (reject_row reason) db) db₁
        (update-Keeps now (λ b. b.id == id) (reject_row reason) db (λ b. (refl, (refl, refl, refl)))
          (λ i b at hit l. cc))
        (record { bookings = refl; venues = refl; course = Course-kept _ _ refl refl }))
      (notify_booking_decision-SameRows id Decision.rejected now kind db₁)

pub reject_venue_booking-Keeps :
    (staff id : ℕ) (reason : List ℕ) (now : ℕ) (db : Db)
    → Keeps now db (reject_venue_booking staff id reason now db).1
unfolding reject_venue_booking reject_locked
reject_venue_booking-Keeps staff id reason now db = of_lock (lock_owned_booking staff id db)
  where
    of_lock : (l : Option Locked) → Keeps now db (reject_locked staff id reason now l db).1
    of_lock none = unchanged now db
    of_lock (some l) = guarded (Keeps now db) db (of_completed l.event) _ _ (unchanged now db) (λ _.
        guarded (Keeps now db) db (not (is_pending l.booking.status)) _ _ (unchanged now db)
          (λ _. save_rejection-Keeps staff id reason now l.booking.request_kind db))

pub cancel_coordinator_booking-Keeps :
    (coordinator id : ℕ) (confirmed : Bool) (now : ℕ) (db : Db)
    → Keeps now db (cancel_coordinator_booking coordinator id confirmed db).1
unfolding cancel_coordinator_booking
cancel_coordinator_booking-Keeps coordinator id confirmed now db =
    of_booking (find_booking id db.bookings)
  where
    of_event :
        (b : VenueBooking) (e : Option Event)
        → Keeps now db (cancel_found coordinator id confirmed b e db).1
    of_event b none = unchanged now db
    of_event b (some e) =
        guarded (Keeps now db) db (not (some_eq e.coordinator_id coordinator)) _ _
          (unchanged now db)
          (λ _.
            guarded (Keeps now db) db (is_completed_status e.status) _ _ (unchanged now db) (λ _.
              guarded (Keeps now db) db (not (is_open_booking b.status)) _ _ (unchanged now db)
                (λ _.
                  guarded (Keeps now db) db
                    (count_if (is_other_open b.event_id id) db.bookings == 0 && not confirmed) _ _
                    (unchanged now db)
                    (λ _.
                      update-Keeps now (λ x. x.id == id) cancel_row db
                        (λ x. (refl, (refl, refl, refl))) (λ i x at hit l. cc)))))

    of_booking :
        (b : Option VenueBooking) → Keeps now db (cancel_at coordinator id confirmed b db).1
    of_booking none = unchanged now db
    of_booking (some b) = of_event b (find_event b.event_id db.events)

act-Slot :
    (action : HoldAction) (now : ℕ) (x : VenueBooking)
    → ((act_on action now x).id ≡ x.id) × SameSlot (act_on action now x) x
act-Slot HoldAction.convert now x = (refl, (refl, refl, refl))
act-Slot HoldAction.release now x = (refl, (refl, refl, refl))

save_action-Keeps :
    (action : HoldAction) (id now : ℕ) (b : VenueBooking) (db : Db)
    → find_booking id db.bookings ≡ some b
    → is_live now b ≡ true
    → Keeps now db (save_action action id now db)
unfolding save_action mark_hold_reminders_read
save_action-Keeps action id now b db found live =
    let db₁ : Db = mark_hold_reminders_read id (set_booking id (act_on action now) db) in
    Keeps-SameRows now db db₁ _
      (Keeps-SameRows now db (set_booking id (act_on action now) db) db₁
        (set_booking-Keeps now id (act_on action now) b db found live (act-Slot action now))
        (record { bookings = refl; venues = refl; course = Course-kept _ _ refl refl }))
      (notify_hold_lifecycle-SameRows id (change_of action) now db₁)

active-live :
    (now : ℕ) (b : VenueBooking)
    → not (is_approved b.status && is_hold b.request_kind) ≡ false
    → not (expires_after b.hold_expires_at now) ≡ false
    → is_live now b ≡ true
active-live now b h k = ground arith

pub update_tentative_hold-Keeps :
    (action : HoldAction) (staff id now : ℕ) (db : Db)
    → Keeps now db (update_tentative_hold action staff id now db).1
unfolding update_tentative_hold act_locked
update_tentative_hold-Keeps action staff id now db = of_lock (lock_owned_booking staff id db) refl
  where
    of_lock :
        (l : Option Locked)
        → lock_owned_booking staff id db ≡ l
        → Keeps now db (act_locked action staff id now l db).1
    of_lock none at = unchanged now db
    of_lock (some l) at =
        let locked = lock_owned_booking-IsLocked staff id db l at in
        guarded (Keeps now db) db (of_completed l.event) _ _ (unchanged now db) (λ _.
          guarded (Keeps now db) db (is_expired l.booking.status && is_hold l.booking.request_kind)
            _ _ (unchanged now db)
            (λ _.
              guarded (Keeps now db) db
                (not (is_approved l.booking.status && is_hold l.booking.request_kind)) _ _
                (unchanged now db)
                (λ active.
                  guarded (Keeps now db) db (not (expires_after l.booking.hold_expires_at now)) _ _
                    (unchanged now db)
                    (λ running.
                      save_action-Keeps action id now l.booking db locked.found
                        (active-live now l.booking active running)))))

pub process_expired_tentative_holds-Keeps :
    (now : ℕ) (db : Db) → Keeps now db (process_expired_tentative_holds now db).1
unfolding process_expired_tentative_holds
process_expired_tentative_holds-Keeps now db =
    let db₁ : Db = record db {
      bookings = update_where (is_elapsed now) (expire_row now) db.bookings;
    } in
    Keeps-SameRows now db db₁ _
      (update-Keeps now (is_elapsed now) (expire_row now) db (λ b. (refl, (refl, refl, refl)))
        (λ i b at hit l. cc))
      (tell_each-SameRows HoldChange.expired none (keep (is_elapsed now) db.bookings) db₁)

pub process_tentative_hold_reminders-Keeps :
    (now : ℕ) (db : Db) → Keeps now db (process_tentative_hold_reminders now db).1
unfolding process_tentative_hold_reminders
process_tentative_hold_reminders-Keeps now db =
    let db₁ : Db = record db {
      bookings = update_where (is_to_remind db.events now) (remind_row now) db.bookings;
    } in
    Keeps-SameRows now db db₁ _
      (update-Keeps now (is_to_remind db.events now) (remind_row now) db
        (λ b. (refl, (refl, refl, refl))) (λ i b at hit l. l))
      (tell_each-SameRows HoldChange.reminder (some now)
        (keep (is_to_remind db.events now) db.bookings) db₁)
