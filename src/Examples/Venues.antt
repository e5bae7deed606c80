-- ===== src/Examples/Venues.antt =====
-- Two events want the same hall for overlapping hours.
use is212_g5_t.Base.{ℕ, ◌≡◌, ◌≢◌, refl, ◌⊎◌, inl, true, none, some, List, [], ◌∷◌, arith, any, Has}
use is212_g5_t.Schema.{
  Event, EventStatus, Venue, VenueBooking, BookingStatus, RequestKind, Db, AuthenticatedUser,
  UserRole, uuid, ok, is_venue_staff,
}
use is212_g5_t.Venues.{find_booking, lock_owned_booking, conflicts_of}
use is212_g5_t.Venues.Notices.{notify_booking_decision, context_of}
use is212_g5_t.Venues.Decisions.{
  DecisionResult, approve_venue_booking, approve_locked, found_conflicts, save_approval,
}
use is212_g5_t.Venues.Holds.{process_expired_tentative_holds}
use is212_g5_t.Venues.Requests.{RequestInput, submit_booking_request}
use is212_g5_t.Venues.Service.{RequestBody, approve, authorize_staff}
use is212_g5_t.Venues.Apart.{Apart}
use is212_g5_t.Venues.Runs.{Call, submits, approves, expires, run, run-Apart}
use is212_g5_t.Venues.Outcomes.{Approved, approve_cases, approve_venue_booking_refused}
use is212_g5_t.Venues.Expiry.{IsDue, process_expired_tentative_holds_lem}
use is212_g5_t.Venues.Booking.{Recorded, submit_booking_request_lem}
use is212_g5_t.Examples.Sample.{talk, hall, sample, coordinator, env}

abbrev room : Venue
room = record {
  id = 2;
  owner_user_id = 96;
  name = "Hall";
  location = "L1";
  setup_time_minutes = 1;
  turnaround_time_minutes = 1;
}

abbrev staff : AuthenticatedUser
staff = record { uid = 96; roles = UserRole.venue_staff ∷ []; email = none; name = none }

-- A request of another event that begins while the first has the hall.
abbrev rival : VenueBooking
rival = record hall {
  id = 21;
  event_id = 2;
  status = BookingStatus.pending;
  start_at = 1050;
  end_at = 1150;
}

abbrev pub workshop : Event
workshop = record talk { id = 2; status = EventStatus.approved }

abbrev booked : Db
booked = record sample {
  events = workshop ∷ talk ∷ [];
  venues = room ∷ [];
  bookings = rival ∷ hall ∷ [];
}

-- Another event has the hall that evening.
abbrev pub evening_booked : Db
evening_booked = record booked {
  bookings = record hall { start_at = 9000000; end_at = 9500000 } ∷ [];
}

abbrev pub request : RequestInput
request = record { event_id = 2; special_request = none }

-- With the rival's request there, the hall is asked for, given, and given again in vain; the expiry
-- job runs.
abbrev asked : Db
asked = record booked { bookings = rival ∷ [] }

abbrev calls : List Call
calls =
    submits (some coordinator) (uuid 2)
      (ok (RequestBody.for_booking (record request { event_id = 1 }))) env
    ∷ (approves (some staff) true (uuid 9) 100
        ∷ (approves (some staff) true (uuid 21) 120 ∷ (expires 130 ∷ [])))

asked-Apart : Apart 50 asked
asked-Apart i j a b v ne fa fb same fv la lb = absurd (ground arith)

run-Apart_example : Apart 130 (run calls asked)
run-Apart_example =
    run-Apart calls 50 asked (ground arith, (ground arith, (ground arith, (ground arith, tt))))
      asked-Apart

-- The rival as a hold, two weeks and more before its event: it is granted for 14 days.
abbrev early : Db
early = record booked {
  events = record workshop { start_date_time = 2000000000; end_date_time = 2000000100 } ∷ talk ∷ [];
  bookings = record rival { request_kind = RequestKind.tentative_hold } ∷ [];
}

hold_granted_test :
    find_booking 21 (approve (some staff) true (uuid 21) 100 early).1.bookings
    ≡ some (record rival {
      request_kind = RequestKind.tentative_hold;
      status = BookingStatus.approved;
      hold_expires_at = some 1209600100;
    })
unfolding approve authorize_staff approve_venue_booking approve_locked lock_owned_booking
    found_conflicts conflicts_of save_approval notify_booking_decision context_of
hold_granted_test = refl

approve_cases_example :
    let db' = (approve (some staff) true (uuid 21) 100 early).1 in
    (db' ≡ early)
    ⊎ ((user : AuthenticatedUser) × (booking_id : ℕ) × (some staff ≡ some user)
        × (uuid 21 ≡ uuid booking_id)
        × (true ≡ true)
        × (any is_venue_staff user.roles ≡ true)
        × Approved user.uid booking_id 100 early db')
approve_cases_example = approve_cases (some staff) true (uuid 21) 100 early

approve_venue_booking_refused_example :
    ((c : VenueBooking) → (approve_venue_booking 96 21 100 booked).0 ≢ DecisionResult.decided c)
    × ((approve_venue_booking 96 21 100 booked).1 ≡ booked)
approve_venue_booking_refused_example =
    approve_venue_booking_refused 96 20 21 100 booked hall rival room (λ e. ground arith) refl refl
      refl refl refl refl

-- A hold whose last instant is 90.
abbrev held : Db
held = record booked {
  bookings =
      record hall { request_kind = RequestKind.tentative_hold; hold_expires_at = some 90 } ∷ [];
}

process_expired_tentative_holds_lem_example :
    let db' = (process_expired_tentative_holds 100 held).1 in
    ((i : ℕ) (b : VenueBooking)
      → find_booking i held.bookings ≡ some b
      → (IsDue 100 b
          → find_booking i db'.bookings
            ≡ some
                (record b { status = BookingStatus.expired; hold_expiry_processed_at = some 100 }))
        × ((IsDue 100 b → ⊥) → find_booking i db'.bookings ≡ some b))
    × ((b : VenueBooking) → Has b db'.bookings → IsDue 100 b → ⊥)
    × ((process_expired_tentative_holds 100 db').0 ≡ [])
process_expired_tentative_holds_lem_example = process_expired_tentative_holds_lem 100 held

submit_booking_request_lem_example :
    Recorded 91 room workshop request env evening_booked
      (submit_booking_request 2 91 request env evening_booked)
submit_booking_request_lem_example =
    submit_booking_request_lem 2 91 request env evening_booked room workshop refl refl refl
      (inl refl) (λ b m mine here. absurd (ground (arith, m)))
      (record {
        blocked = λ u m here. absurd m;
        booked = λ b m here taken. inl (ground (arith, m));
      })
