-- ===== src/Venues/Submitting.antt =====
-- A request adds one pending booking, which takes no slot from anybody.
use is212_g5_t.Base.{
  ℕ, ◌≡◌, refl, sym, Bool, true, false, not, ◌==◌, Option, none, some, List, [], ◌∷◌, arith,
  Bool-cases, inl, inr, if◌then◌else◌, some_eq,
}
use is212_g5_t.Schema.{Event, EventStatus, Venue, VenueBooking, RequestKind, Db, find_event}
use is212_g5_t.Registrations.{Env}
use is212_g5_t.Schema.Course.{Course-kept, Course-trans, update-Course}
use is212_g5_t.Status.{compare_and_move, in_status, move_to}
use is212_g5_t.Venues.{find_booking, find_venue, is_live, BookingConflict}
use is212_g5_t.Venues.Requests.{
  RequestInput, new_booking, insert_booking, record_move, is_approved_event, move_to_planning,
  save_request, unless_clash, unless_active, submit_for, submit_at, too_short, accepts_bookings,
  active_requests, submit_booking_request, submit_tentative_hold_request,
}
use is212_g5_t.Venues.Apart.{Keeps}
use is212_g5_t.Venues.Locking.{some_injective, guarded}
use is212_g5_t.Venues.Keeping.{SameRows, same_rows, Keeps-SameRows}
use is212_g5_t.Venues.Changes.{unchanged}

record_move-SameRows :
    (event_id actor now : ℕ) (e : Option Event) (db db' : Db)
    → SameRows db db'
    → SameRows db (record_move event_id actor now (e, db')).1
record_move-SameRows event_id actor now none db db' s = s
record_move-SameRows event_id actor now (some e) db db' s = record {
  bookings = s.bookings;
  venues = s.venues;
  course = Course-trans db db' _ s.course (Course-kept _ _ refl refl);
}

pub move_to_planning-SameRows :
    (event_id actor : ℕ) (status : EventStatus) (now : ℕ) (db : Db)
    → SameRows db (move_to_planning event_id actor status now db).1
unfolding move_to_planning compare_and_move
move_to_planning-SameRows event_id actor status now db =
    let moved_course =
      update-Course (in_status is_approved_event event_id) (move_to EventStatus.planning now) db
        (λ e. refl) (λ e. refl) (λ e h. inr (ground arith, refl)) in
    elim (Bool-cases (is_approved_event status)) [
      | inl moves ↦ rw moves (
          record_move-SameRows event_id actor now
            (compare_and_move is_approved_event EventStatus.planning event_id now db).0 db
            (compare_and_move is_approved_event EventStatus.planning event_id now db).1
            (record { bookings = refl; venues = refl; course = moved_course }))
      | inr stays ↦ rw stays (same_rows db)
    ]

insert_booking-Keeps :
    (now : ℕ) (b : VenueBooking) (kind : RequestKind) (input : RequestInput) (db : Db)
    → is_live now b ≡ false
    → Keeps now db (insert_booking b kind input db)
insert_booking-Keeps now b kind input db idle = record {
  venues = refl;
  course = Course-kept _ _ refl refl;
  live = λ i x found l. older i x (b.id == i) found l;
}
  where
    older :
        (i : ℕ) (x : VenueBooking) (t : Bool)
        → (if t then some b else find_booking i db.bookings) ≡ some x
        → is_live now x ≡ true
        → (a : VenueBooking) × (find_booking i db.bookings ≡ some a)
          × (is_live now a ≡ true)
          × ((x.venue_id ≡ a.venue_id) × (x.start_at ≡ a.start_at) × (x.end_at ≡ a.end_at))
    older i x true h l =
        let e : b ≡ x = some_injective h in absurd (ground (arith, rw (sym e) at l, idle))
    older i x false h l = (x, h, l, (refl, refl, refl))

save_request-Keeps :
    (coordinator : ℕ) (v : Venue) (e : Event) (input : RequestInput) (kind : RequestKind)
    (env : Env) (db : Db)
    → Keeps env.now db (save_request coordinator v e input kind env db).1
unfolding save_request
save_request-Keeps coordinator v e input kind env db =
    let b = new_booking v e input kind env in
    Keeps-SameRows env.now db (insert_booking b kind input db) _
      (insert_booking-Keeps env.now b kind input db refl)
      (move_to_planning-SameRows input.event_id coordinator e.status env.now
        (insert_booking b kind input db))

module _ (coordinator : ℕ) (input : RequestInput) (kind : RequestKind) (env : Env) (db : Db) where
  unless_clash-Keeps :
      (v : Venue) (e : Event) (cs : List BookingConflict)
      → Keeps env.now db (unless_clash coordinator v e input kind env cs db).1
  unless_clash-Keeps v e [] = save_request-Keeps coordinator v e input kind env db
  unless_clash-Keeps v e (c ∷ cs) = unchanged env.now db

  unless_active-Keeps :
      (v : Venue) (e : Event) (bs : List VenueBooking)
      → Keeps env.now db (unless_active coordinator v e input kind env bs db).1
  unless_active-Keeps v e [] = unless_clash-Keeps v e _
  unless_active-Keeps v e (b ∷ bs) = unchanged env.now db

  submit_for-Keeps :
      (v : Venue) (e : Option Event)
      → Keeps env.now db (submit_for coordinator v input kind env e db).1
  submit_for-Keeps v none = unchanged env.now db
  submit_for-Keeps v (some e) =
      guarded (Keeps env.now db) db (not (some_eq e.coordinator_id coordinator)) _ _
        (unchanged env.now db)
        (λ _.
          guarded (Keeps env.now db) db (not (accepts_bookings e.status)) _ _ (unchanged env.now db)
            (λ _.
              guarded (Keeps env.now db) db (too_short kind v e env.now) _ _ (unchanged env.now db)
                (λ _. unless_active-Keeps v e (active_requests input.event_id v.id env.now db))))

  pub submit_at-Keeps :
      (v : Option Venue) → Keeps env.now db (submit_at coordinator input kind env v db).1
  submit_at-Keeps none = unchanged env.now db
  submit_at-Keeps (some v) = submit_for-Keeps v (find_event input.event_id db.events)

pub submit_booking_request-Keeps :
    (venue_id coordinator : ℕ) (input : RequestInput) (env : Env) (db : Db)
    → Keeps env.now db (submit_booking_request venue_id coordinator input env db).1
unfolding submit_booking_request
submit_booking_request-Keeps venue_id coordinator input env db =
    submit_at-Keeps coordinator input RequestKind.booking env db (find_venue venue_id db)

pub submit_tentative_hold_request-Keeps :
    (venue_id coordinator : ℕ) (input : RequestInput) (env : Env) (db : Db)
    → Keeps env.now db (submit_tentative_hold_request venue_id coordinator input env db).1
unfolding submit_tentative_hold_request
submit_tentative_hold_request-Keeps venue_id coordinator input env db =
    submit_at-Keeps coordinator input RequestKind.tentative_hold env db (find_venue venue_id db)
