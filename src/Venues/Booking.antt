-- ===== src/Venues/Booking.antt =====
-- A booking request that meets every condition is recorded, and an Approved event starts its planning
-- (backend/src/venues/repository/venues.repository.ts, submitBookingRequest and moveToPlanning).
use is212_g5_t.Base.{
  ℕ, ◌≡◌, ◌≢◌, ◌+◌, ◌*◌, ◌≤◌, ◌⊎◌, ◌∙◌, ◌==◌, ==_iff, refl, ap, arith, Has, any-false, none, true,
  false, some, some_eq, [], ◌∷◌, any, keep_none, Bool-cases, inl, inr, if◌then◌else◌,
}
use is212_g5_t.Schema.{
  Event, EventStatus, BookingStatus, VenueBooking, Unavailability, Venue, RequestKind, StatusChange,
  Db, find_event,
}
use is212_g5_t.Schema.Events.{find_by-returning, find_event-changed}
use is212_g5_t.Registrations.{Env}
use is212_g5_t.Status.{compare_and_move, move_to}
use is212_g5_t.Venues.{
  find_venue, is_live, is_pending, occupies, stands_against, blocks, conflicts_of,
}
use is212_g5_t.Venues.Requests.{
  RequestInput, SubmitResult, accepts_bookings, is_active_request, is_approved_event,
  move_to_planning, new_booking, insert_booking, save_request, submit_booking_request, status_after,
}
use is212_g5_t.Venues.Submitting.{move_to_planning-SameRows}

-- The row of event_status_history for the move.
abbrev planning_entry : ℕ → ℕ → ℕ → StatusChange
planning_entry event_id actor now = record {
  event_id = event_id;
  from_status = EventStatus.approved;
  to_status = EventStatus.planning;
  actor_id = actor;
  created_at = now;
}

-- An Approved event moves to Planning with one history row; another stays.
pub record MovedOn (event_id actor now : ℕ) (e : Event) (db db' : Db) : Type 0 where
  pub event :
      find_event event_id db'.events
      ≡ some (if is_approved_event e.status then move_to EventStatus.planning now e else e)
  pub history : db'.history ≡ (
      if is_approved_event e.status
      then planning_entry event_id actor now ∷ db.history
      else db.history)

move_to_planning_lem :
    (event_id actor now : ℕ) (db : Db) (e : Event)
    → find_event event_id db.events ≡ some e
    → ((move_to_planning event_id actor e.status now db).0 ≡ is_approved_event e.status)
      × MovedOn event_id actor now e db (move_to_planning event_id actor e.status now db).1
unfolding move_to_planning compare_and_move
move_to_planning_lem event_id actor now db e found =
    elim (Bool-cases (is_approved_event e.status)) [
      | inl moves ↦
          let f = move_to EventStatus.planning now in
          let (row, still) =
            find_by-returning event_id (λ x. is_approved_event x.status) f (λ x. refl) db.events e
              found moves in
          (
            rw (moves, still) refl,
            record {
              event =
                  rw (moves, still)
                    (find_event-changed event_id (λ x. is_approved_event x.status) f (λ x. refl)
                      db.events e found moves);
              history = rw (moves, still) refl;
            },
          )
      | inr stays ↦ (rw stays refl, record { event = rw stays found; history = rw stays refl })
    ]

-- A request as it is recorded: pending, in the event's own times, under the venue's name; an Approved
-- event starts its planning with one history row, and another keeps its status.
pub record Recorded (coordinator : ℕ) (v : Venue) (e : Event) (input : RequestInput) (env : Env)
    (db : Db) (r : SubmitResult × Db) : Type 0 where
  pub row : VenueBooking
  pub as_asked : row ≡ record {
    id = env.new_id;
    event_id = input.event_id;
    venue_id = v.id;
    venue_name = v.name;
    venue_location = v.location;
    status = BookingStatus.pending;
    request_kind = RequestKind.booking;
    hold_expires_at = none;
    start_at = e.start_date_time;
    end_at = e.end_date_time;
    venue_unavailable = false;
    created_at = env.sql_now;
    released_at = none;
    rejection_reason = none;
    special_request = input.special_request;
    reassessment_required = false;
    hold_expiry_processed_at = none;
    hold_reminder_sent_at = none;
  }
  pub stored : r.1.bookings ≡ row ∷ db.bookings
  pub starts_planning :
      e.status ≡ EventStatus.approved
      → (r.0 ≡ SubmitResult.created row EventStatus.planning true)
        × (find_event input.event_id r.1.events
            ≡ some (record e { status = EventStatus.planning; updated_at = env.now }))
        × (r.1.history
            ≡ record {
              event_id = input.event_id;
              from_status = EventStatus.approved;
              to_status = EventStatus.planning;
              actor_id = coordinator;
              created_at = env.now;
            }
              ∷ db.history)
  pub stays :
      e.status ≢ EventStatus.approved
      → (r.0 ≡ SubmitResult.created row e.status false)
        × (find_event input.event_id r.1.events ≡ some e)
        × (r.1.history ≡ db.history)

is_approved_event_not : (s : EventStatus) → s ≢ EventStatus.approved → is_approved_event s ≡ false
is_approved_event_not s ne = ground arith

save_request_lem :
    (coordinator : ℕ) (v : Venue) (e : Event) (input : RequestInput) (env : Env) (db : Db)
    → find_event input.event_id db.events ≡ some e
    → Recorded coordinator v e input env db
        (save_request coordinator v e input RequestKind.booking env db)
unfolding save_request
save_request_lem coordinator v e input env db found =
    let b = new_booking v e input RequestKind.booking env in
    let db₁ : Db = insert_booking b RequestKind.booking input db in
    let (did, m) = move_to_planning_lem input.event_id coordinator env.now db₁ e found in
    let kept = move_to_planning-SameRows input.event_id coordinator e.status env.now db₁ in
    record {
      row = b;
      as_asked = refl;
      stored = kept.bookings;
      starts_planning = λ approved.
          let moves : is_approved_event e.status ≡ true = rw approved refl in
          (
            ap (λ t. SubmitResult.created b (status_after e.status t) t) (did ∙ moves),
            m.event ∙ rw moves refl,
            m.history ∙ rw moves refl,
          );
      stays = λ other.
          let none_moves = is_approved_event_not e.status other in
          (
            ap (λ t. SubmitResult.created b (status_after e.status t) t) (did ∙ none_moves),
            m.event ∙ rw none_moves refl,
            m.history ∙ rw none_moves refl,
          );
    }

free_of :
    (v : Venue) (start end now : ℕ) (db : Db)
    → any (blocks v start end) db.unavailable ≡ false
    → any (stands_against v start end now) db.bookings ≡ false
    → conflicts_of (λ b. true) v start end now db ≡ []
unfolding conflicts_of
free_of v start end now db open_slot free =
    rw
      (
        keep_none (blocks v start end) db.unavailable open_slot,
        keep_none (stands_against v start end now) db.bookings free,
      )
      refl

-- The windows [start, end) and [other_start, other_end) do not meet, `before` milliseconds being kept
-- before the first and `after` after it.
abbrev pub Clear : ℕ → ℕ → ℕ → ℕ → ℕ → ℕ → Type 0
Clear start end before after other_start other_end =
    (end + after ≤ other_start) ⊎ (other_end + before ≤ start)

-- Neither a blocked period nor a booking of the venue meets the event's window: a blocked period with
-- the setup before and the turnaround after, a booking with both on either side.
pub record FreeSlot (v : Venue) (e : Event) (now : ℕ) (db : Db) : Type 0 where
  pub blocked :
      (u : Unavailability)
      → Has u db.unavailable
      → u.venue_id ≡ v.id
      → Clear e.start_date_time e.end_date_time
          (v.setup_time_minutes * 60000)
          (v.turnaround_time_minutes * 60000)
          u.start_at
          u.end_at
  pub booked :
      (b : VenueBooking)
      → Has b db.bookings
      → b.venue_id ≡ v.id
      → occupies now b ≡ true
      → Clear e.start_date_time e.end_date_time
          (v.setup_time_minutes * 60000 + v.turnaround_time_minutes * 60000)
          (v.setup_time_minutes * 60000 + v.turnaround_time_minutes * 60000)
          b.start_at
          b.end_at

blocks_not :
    (v : Venue) (e : Event) (now : ℕ) (db : Db) (u : Unavailability)
    → FreeSlot v e now db
    → Has u db.unavailable
    → blocks v e.start_date_time e.end_date_time u ≡ false
blocks_not v e now db u free m = elim (Bool-cases (u.venue_id == v.id)) [
  | inr elsewhere ↦ rw elsewhere refl
  | inl here ↦
      let clear = free.blocked u m ((==_iff u.venue_id v.id).0 here) in
      rw here (ground (arith, clear))
]

stands_not :
    (v : Venue) (e : Event) (now : ℕ) (db : Db) (b : VenueBooking)
    → FreeSlot v e now db
    → Has b db.bookings
    → stands_against v e.start_date_time e.end_date_time now b ≡ false
stands_not v e now db b free m = elim (Bool-cases (b.venue_id == v.id)) [
  | inr elsewhere ↦ rw elsewhere refl
  | inl here ↦ elim (Bool-cases (occupies now b)) [
    | inr gone ↦ rw (here, gone) refl
    | inl taken ↦
        let clear = free.booked b m ((==_iff b.venue_id v.id).0 here) taken in
        rw (here, taken) (ground (arith, clear))
  ]
]

not_active :
    (event_id venue_id now : ℕ) (b : VenueBooking)
    → (b.event_id ≡ event_id
        → b.venue_id ≡ venue_id
        → (b.status ≢ BookingStatus.pending) × (is_live now b ≡ false))
    → is_active_request event_id venue_id now b ≡ false
not_active event_id venue_id now b h = elim (Bool-cases (b.event_id == event_id)) [
  | inr other ↦ rw other refl
  | inl mine ↦ elim (Bool-cases (b.venue_id == venue_id)) [
    | inr other ↦ rw (mine, other) refl
    | inl here ↦
        let (settled, idle) =
          h ((==_iff b.event_id event_id).0 mine) ((==_iff b.venue_id venue_id).0 here) in
        let not_waiting : is_pending b.status ≡ false = ground arith in
        rw (mine, here, not_waiting, idle) refl
  ]
]

accepts_bookings_Has :
    (s : EventStatus)
    → Has s (EventStatus.approved ∷ (EventStatus.planning ∷ (EventStatus.confirmed ∷ [])))
    → accepts_bookings s ≡ true
accepts_bookings_Has s (inl h) = rw h refl
accepts_bookings_Has s (inr (inl h)) = rw h refl
accepts_bookings_Has s (inr (inr (inl h))) = rw h refl
accepts_bookings_Has s (inr (inr (inr m))) = absurd m

-- A coordinator's booking request for their own event that is Approved, in Planning or Confirmed, at a
-- venue where the event has no pending and no live booking and where neither a blocked period nor a
-- booking that occupies the venue meets the event's window with its margins, is recorded as pending
-- in the event's own times, and moves an Approved event to Planning with one history row; an event in
-- another status stays.
pub submit_booking_request_lem :
    (venue_id coordinator : ℕ) (input : RequestInput) (env : Env) (db : Db) (v : Venue) (e : Event)
    → find_venue venue_id db ≡ some v
    → find_event input.event_id db.events ≡ some e
    → e.coordinator_id ≡ some coordinator
    → Has e.status (EventStatus.approved ∷ (EventStatus.planning ∷ (EventStatus.confirmed ∷ [])))
    → ((b : VenueBooking)
        → Has b db.bookings
        → b.event_id ≡ input.event_id
        → b.venue_id ≡ v.id
        → (b.status ≢ BookingStatus.pending) × (is_live env.now b ≡ false))
    → FreeSlot v e env.now db
    → Recorded coordinator v e input env db
        (submit_booking_request venue_id coordinator input env db)
unfolding submit_booking_request
submit_booking_request_lem venue_id coordinator input env db v e fv fe mine open_event new free =
    let assigned : some_eq e.coordinator_id coordinator ≡ true =
      rw mine ((==_iff coordinator coordinator).1 refl) in
    rw
      (
        fv,
        fe,
        assigned,
        accepts_bookings_Has e.status open_event,
        keep_none (is_active_request input.event_id v.id env.now) db.bookings
            (any-false _ db.bookings (λ b m. not_active input.event_id v.id env.now b (new b m))),
        free_of v e.start_date_time e.end_date_time env.now db
            (any-false _ db.unavailable (λ u m. blocks_not v e env.now db u free m))
            (any-false _ db.bookings (λ b m. stands_not v e env.now db b free m)),
      )
      (save_request_lem coordinator v e input env db fe)
