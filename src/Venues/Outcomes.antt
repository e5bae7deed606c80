-- ===== src/Venues/Outcomes.antt =====
-- What an approval does, and when it is refused.
use is212_g5_t.Base.{
  ℕ, ◌≡◌, ◌≢◌, refl, sym, subst, ◌∙◌, ap, ◌+◌, ◌*◌, ◌≤◌, ==_iff, Bool, true, false, not, ◌&&◌,
  Option, none, some, List, [], ◌∷◌, arith, any, Bool-cases, inl, inr, ◌⊎◌, if◌then◌else◌,
}
use is212_g5_t.Schema.{
  Event, EventStatus, BookingStatus, Venue, VenueBooking, RequestKind, NotificationType, Message,
  Db, AuthenticatedUser, RouteId, uuid, malformed, find_event, is_venue_staff,
}
use is212_g5_t.Venues.{
  find_booking, find_venue, is_live, is_pending, of_completed, overlaps, BookingConflict,
  other_than, stands_against, blocks, Locked, lock_owned_booking, set_booking,
}
use is212_g5_t.Venues.Notices.{
  Decision, Context, context_of, booking_notice, tell_decision, notify_booking_decision,
}
use is212_g5_t.Venues.Decisions.{
  is_short, DecisionResult, approve_row, add_review, save_approval, found_conflicts, approve_free,
  is_late, approve_locked, approve_venue_booking,
}
use is212_g5_t.Venues.Service.{authorize_staff, approve}
use is212_g5_t.Venues.Locking.{some_injective, IsLocked, lock_owned_booking-IsLocked}
use is212_g5_t.Venues.Approval.{
  free_slot, conflicts_of-empty, conflicts_of-open, find_booking-set_self, find_booking-set_other,
}

-- A result that is no decision, and no change.
abbrev pub Refused : Db → DecisionResult × Db → Type 0
Refused db (r, db') = ((b : VenueBooking) → r ≢ DecisionResult.decided b) × (db' ≡ db)

-- The checks that an approval has passed.
pub record Granted (staff id now : ℕ) (db : Db) (l : Locked) : Type 0 where
  pub locked : IsLocked staff id db l
  pub open_event : of_completed l.event ≡ false
  pub waiting : is_pending l.booking.status ≡ true
  pub in_time : is_late now l ≡ false
  pub free : found_conflicts id now l db ≡ []

-- An approval is refused and changes nothing, or it has passed every check.
abbrev pub Split : ℕ → ℕ → ℕ → Db → DecisionResult × Db → Type 0
Split staff id now db r =
    Refused db r
    ⊎ ((l : Locked) × Granted staff id now db l
        × (r ≡ (
          DecisionResult.decided (approve_row now l.booking),
          save_approval staff id now l.booking.request_kind db,
        )))

unless :
    (P : DecisionResult × Db → Type 0) (b : Bool) (r : DecisionResult) (db : Db)
    (rest : DecisionResult × Db)
    → P (r, db)
    → (b ≡ false → P rest)
    → P (if b then (r, db) else rest)
unless P true r db rest p h = p
unless P false r db rest p h = h refl

pub approve_venue_booking-Split :
    (staff id now : ℕ) (db : Db) → Split staff id now db (approve_venue_booking staff id now db)
unfolding approve_venue_booking approve_locked
approve_venue_booking-Split staff id now db = of_lock (lock_owned_booking staff id db) refl
  where
    of_conflicts :
        (l : Locked) (cs : List BookingConflict)
        → found_conflicts id now l db ≡ cs
        → (found_conflicts id now l db ≡ [] → Granted staff id now db l)
        → Split staff id now db (approve_free staff id now l cs db)
    of_conflicts l [] e granted = inr (l, granted e, refl)
    of_conflicts l (c ∷ cs) e granted = inl (λ b h. ground arith, refl)

    of_lock :
        (l : Option Locked)
        → lock_owned_booking staff id db ≡ l
        → Split staff id now db (approve_locked staff id now l db)
    of_lock none at = inl (λ b h. ground arith, refl)
    of_lock (some l) at =
        unless (Split staff id now db) (of_completed l.event) _ db _
          (inl (λ b h. ground arith, refl))
          (λ running.
            unless (Split staff id now db) (not (is_pending l.booking.status)) _ db _
              (inl (λ b h. ground arith, refl))
              (λ waiting.
                unless (Split staff id now db) (is_late now l) _ db _
                  (inl (λ b h. ground arith, refl))
                  (λ in_time. of_conflicts l (found_conflicts id now l db) refl (λ free. record {
                    locked = lock_owned_booking-IsLocked staff id db l at;
                    open_event = running;
                    waiting = ground (arith, waiting);
                    in_time = in_time;
                    free = free;
                  }))))

-- The row of an approved request: a hold lasts 14 days from now, a booking keeps what it had, and all
-- else is as it was asked for.
pub record ApprovedRow (now : ℕ) (asked after : VenueBooking) : Type 0 where
  pub status : after.status ≡ BookingStatus.approved
  pub hold_expiry :
      asked.request_kind ≡ RequestKind.tentative_hold
      → after.hold_expires_at ≡ some (now + 14 * 86400000)
  pub no_expiry :
      asked.request_kind ≡ RequestKind.booking → after.hold_expires_at ≡ asked.hold_expires_at
  pub as_asked : after ≡ record asked {
    status = after.status;
    reassessment_required = false;
    hold_expires_at = after.hold_expires_at;
  }

approve_row-ApprovedRow : (now : ℕ) (b : VenueBooking) → ApprovedRow now b (approve_row now b)
approve_row-ApprovedRow now b = record {
  status = refl;
  hold_expiry = λ h. rw h refl;
  no_expiry = λ h. rw h refl;
  as_asked = refl;
}

not_completed :
    (o : Option Event)
    → of_completed o ≡ false
    → (e : Event) → o ≡ some e
    → e.status ≢ EventStatus.completed
not_completed o h e at k = ground arith

starts_in_time :
    (o : Option Event) (setup now : ℕ)
    → is_short o setup now ≡ false
    → (e : Event) × (o ≡ some e) × (now + (setup * 60000 + 336 * 3600000) ≤ e.start_date_time)
starts_in_time none setup now h = absurd (ground arith)
starts_in_time (some e) setup now h = (e, refl, ground arith)

-- The booking is approved in its own slot, which no live booking of another key and no blocked period
-- of the venue meets; nothing else is decided.
pub record Approved (staff id now : ℕ) (db db' : Db) : Type 0 where
  pub booking : VenueBooking
  pub venue : Venue
  pub found : find_booking id db.bookings ≡ some booking
  pub at_venue : find_venue booking.venue_id db ≡ some venue
  pub owner : venue.owner_user_id ≡ staff
  pub waiting : booking.status ≡ BookingStatus.pending
  pub open_event :
      (e : Event)
      → find_event booking.event_id db.events ≡ some e
      → e.status ≢ EventStatus.completed
  pub in_time :
      booking.request_kind ≡ RequestKind.tentative_hold
      → (e : Event) × (find_event booking.event_id db.events ≡ some e)
        × (now + (venue.setup_time_minutes * 60000 + 336 * 3600000) ≤ e.start_date_time)
  pub no_booking :
      any
        (λ b. other_than id b && stands_against venue booking.start_at booking.end_at now b)
        db.bookings
      ≡ false
  pub no_block : any (blocks venue booking.start_at booking.end_at) db.unavailable ≡ false
  pub after : VenueBooking
  pub approved : find_booking id db'.bookings ≡ some after
  pub row : ApprovedRow now booking after
  pub others : (i : ℕ) → i ≢ id → find_booking i db'.bookings ≡ find_booking i db.bookings
  pub logged :
      db'.review_log
      ≡ (record { booking_id = id; actor_user_id = staff; rejection_reason = none }) ∷ db.review_log
  pub events_kept : db'.events ≡ db.events

-- A notice changes the notices only.
abbrev pub OnlyNotices : Db → Db → Type 0
OnlyNotices db db' = db' ≡ record db { notifications = db'.notifications }

booking_notice-OnlyNotices :
    (type : NotificationType) (message : Message) (event_id booking_id at : ℕ) (to : Option ℕ)
    (db : Db)
    → OnlyNotices db (booking_notice type message event_id booking_id at to db)
booking_notice-OnlyNotices type message event_id booking_id at none db = refl
booking_notice-OnlyNotices type message event_id booking_id at (some c) db = refl

pub notify_booking_decision-OnlyNotices :
    (id : ℕ) (decision : Decision) (at : ℕ) (kind : RequestKind) (db : Db)
    → OnlyNotices db (notify_booking_decision id decision at kind db)
unfolding notify_booking_decision
notify_booking_decision-OnlyNotices id decision at kind db = by_context (context_of id db)
  where
    by_context : (c : Option Context) → OnlyNotices db (tell_decision id decision at kind c db)
    by_context none = refl
    by_context (some c) = booking_notice-OnlyNotices _ _ c.event.id id at c.event.coordinator_id db

Granted-Approved :
    (staff id now : ℕ) (db : Db) (l : Locked)
    → Granted staff id now db l
    → Approved staff id now db (save_approval staff id now l.booking.request_kind db)
unfolding save_approval found_conflicts
Granted-Approved staff id now db l g =
    let db₁ : Db = add_review id staff none (set_booking id (approve_row now) db) in
    let told =
      notify_booking_decision-OnlyNotices id Decision.approved now l.booking.request_kind db₁ in
    record {
      booking = l.booking;
      venue = l.venue;
      found = g.locked.found;
      at_venue = g.locked.at_venue;
      owner = (==_iff l.venue.owner_user_id staff).0 g.locked.owner;
      waiting = ground (arith, g.waiting);
      open_event =
          not_completed (find_event l.booking.event_id db.events)
            (subst (λ e. of_completed e ≡ false) g.locked.joined g.open_event);
      in_time = λ hold.
          starts_in_time (find_event l.booking.event_id db.events) l.venue.setup_time_minutes now (
            subst (λ e. is_short e l.venue.setup_time_minutes now ≡ false) g.locked.joined
              (ground (arith, hold, g.in_time)));
      no_booking =
          conflicts_of-empty (other_than id) l.venue l.booking.start_at l.booking.end_at now db
            g.free;
      no_block =
          conflicts_of-open (other_than id) l.venue l.booking.start_at l.booking.end_at now db
            g.free;
      after = approve_row now l.booking;
      row = approve_row-ApprovedRow now l.booking;
      approved =
          ap (λ (d : Db). find_booking id d.bookings) told
          ∙ find_booking-set_self id (approve_row now) (λ x. refl) db.bookings l.booking
              g.locked.found;
      others = λ i ne.
          ap (λ (d : Db). find_booking i d.bookings) told
          ∙ find_booking-set_other id (approve_row now) (λ x. refl) i db.bookings ne;
      logged = ap (λ (d : Db). d.review_log) told;
      events_kept = ap (λ (d : Db). d.events) told;
    }

-- Approving a request changes nothing, or the caller is Venue Staff who may and who owns the venue,
-- the request was pending and its event not completed, a hold has its lead time, and no live
-- booking and no blocked period of the venue meets its window; then the request is approved, for a
-- hold with its expiry 14 days on, every other booking and every event is as before, and the
-- review log has the decision.
pub approve_cases :
    (identity : Option AuthenticatedUser) (permitted : Bool) (id : RouteId) (now : ℕ) (db : Db)
    → let db' = (approve identity permitted id now db).1 in
      (db' ≡ db)
      ⊎ ((user : AuthenticatedUser) × (booking_id : ℕ) × (identity ≡ some user)
          × (id ≡ uuid booking_id)
          × (permitted ≡ true)
          × (any is_venue_staff user.roles ≡ true)
          × Approved user.uid booking_id now db db')
unfolding approve authorize_staff
approve_cases none permitted id now db = inl refl
approve_cases (some user) false id now db = elim (Bool-cases (any is_venue_staff user.roles)) [
  | inl staff ↦ rw staff (inl refl)
  | inr stranger ↦ rw stranger (inl refl)
]
approve_cases (some user) true malformed now db =
    elim (Bool-cases (any is_venue_staff user.roles)) [
      | inl staff ↦ rw staff (inl refl)
      | inr stranger ↦ rw stranger (inl refl)
    ]
approve_cases (some user) true (uuid booking_id) now db =
    elim (Bool-cases (any is_venue_staff user.roles)) [
      | inl staff ↦ rw staff (elim (approve_venue_booking-Split user.uid booking_id now db) [
        | inl refused ↦ inl refused.1
        | inr (l, g, e) ↦ inr (
          user,
          booking_id,
          refl,
          refl,
          refl,
          staff,
          subst (Approved user.uid booking_id now db) (sym (ap (λ r. r.1) e))
              (Granted-Approved user.uid booking_id now db l g),
        )
      ])
      | inr stranger ↦ rw stranger (inl refl)
    ]

-- The first approval wins: while a live booking of the venue meets the window of a request, the
-- request is not approved, by anybody, and the database stays as it is.
pub approve_venue_booking_refused :
    (staff i j now : ℕ) (db : Db) (a b : VenueBooking) (v : Venue)
    → i ≢ j
    → find_booking i db.bookings ≡ some a
    → find_booking j db.bookings ≡ some b
    → b.venue_id ≡ a.venue_id
    → find_venue b.venue_id db ≡ some v
    → is_live now a ≡ true
    → overlaps v a.start_at a.end_at b.start_at b.end_at ≡ true
    → ((c : VenueBooking) → (approve_venue_booking staff j now db).0 ≢ DecisionResult.decided c)
      × ((approve_venue_booking staff j now db).1 ≡ db)
approve_venue_booking_refused staff i j now db a b v ne fa fb same fv live meets =
    elim (approve_venue_booking-Split staff j now db) [
      | inl refused ↦ refused
      | inr (l, g, e) ↦
          let is_b : l.booking ≡ b = some_injective (sym g.locked.found ∙ fb) in
          let is_v : l.venue ≡ v =
            some_injective (sym g.locked.at_venue ∙ ap (λ x. find_venue x.venue_id db) is_b ∙ fv) in
          let free : overlaps l.venue a.start_at a.end_at l.booking.start_at l.booking.end_at
              ≡ false =
            free_slot staff j now db l i a g.locked g.free ne fa (ap (λ x. x.venue_id) is_b ∙ same)
              live in
          absurd (
            ground (
              arith,
              meets,
              subst (λ w. overlaps w a.start_at a.end_at b.start_at b.end_at ≡ false) is_v
                  (subst (λ x. overlaps l.venue a.start_at a.end_at x.start_at x.end_at ≡ false)
                    is_b free),
            ))
    ]
