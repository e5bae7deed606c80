-- ===== src/Venues/Keeping.antt =====
-- The changes that make no booking live: notices, and updates that only take rows out.
use is212_g5_t.Base.{
  ℕ, ◌≡◌, refl, sym, subst, ◌∙◌, ap, Bool, true, false, ◌==◌, ==_iff, Option, none, some, List, [],
  ◌∷◌, arith, find_by-Has, update_where, find_by-update_where, if◌then◌else◌, Bool-cases, inl, inr,
}
use mathlib.Core.Option
use is212_g5_t.Schema.{VenueBooking, RequestKind, NotificationType, Message, Db}
use is212_g5_t.Schema.Course.{Course, Course-kept, Course-same, Course-trans}
use is212_g5_t.Venues.{find_booking, is_live, set_booking}
use is212_g5_t.Venues.Notices.{
  is_cancelled, Context, Decision, HoldChange, context_of, booking_notice, tell_decision,
  tell_change, notify_booking_decision, notify_hold_lifecycle,
}
use is212_g5_t.Venues.Holds.{tell_at, tell_each}
use is212_g5_t.Venues.Locking.{some_injective}
use is212_g5_t.Venues.Apart.{Keeps, SameSlot}

-- The same bookings and venues, and no event of another limit or in another course.
pub record SameRows (db db' : Db) : Type 0 where
  pub bookings : db'.bookings ≡ db.bookings
  pub venues : db'.venues ≡ db.venues
  pub course : Course db db'

pub same_rows : (db : Db) → SameRows db db
same_rows db = record { bookings = refl; venues = refl; course = Course-same db }

booking_notice-SameRows :
    (type : NotificationType) (message : Message) (event_id booking_id at : ℕ) (to : Option ℕ)
    (db : Db)
    → SameRows db (booking_notice type message event_id booking_id at to db)
booking_notice-SameRows type message event_id booking_id at none db = same_rows db
booking_notice-SameRows type message event_id booking_id at (some c) db = record {
  bookings = refl;
  venues = refl;
  course = Course-kept _ _ refl refl;
}

pub notify_booking_decision-SameRows :
    (id : ℕ) (decision : Decision) (at : ℕ) (kind : RequestKind) (db : Db)
    → SameRows db (notify_booking_decision id decision at kind db)
unfolding notify_booking_decision
notify_booking_decision-SameRows id decision at kind db = by_context (context_of id db)
  where
    by_context : (c : Option Context) → SameRows db (tell_decision id decision at kind c db)
    by_context none = same_rows db
    by_context (some c) = booking_notice-SameRows _ _ c.event.id id at c.event.coordinator_id db

pub notify_hold_lifecycle-SameRows :
    (id : ℕ) (change : HoldChange) (at : ℕ) (db : Db)
    → SameRows db (notify_hold_lifecycle id change at db)
unfolding notify_hold_lifecycle
notify_hold_lifecycle-SameRows id change at db = by_context (context_of id db)
  where
    by_context : (c : Option Context) → SameRows db (tell_change id change at c db)
    by_context none = same_rows db
    by_context (some c) = elim (Bool-cases (is_cancelled c.event.status)) [
      | inl off ↦ rw off (same_rows db)
      | inr on ↦ rw on (booking_notice-SameRows _ _ c.event.id id at c.event.coordinator_id db)
    ]

SameRows-trans : (db db₁ db₂ : Db) → SameRows db db₁ → SameRows db₁ db₂ → SameRows db db₂
SameRows-trans db db₁ db₂ s t = record {
  bookings = t.bookings ∙ s.bookings;
  venues = t.venues ∙ s.venues;
  course = Course-trans db db₁ db₂ s.course t.course;
}

tell_at-SameRows :
    (change : ℕ → HoldChange) (expiry at : Option ℕ) (id : ℕ) (db : Db)
    → SameRows db (tell_at change expiry at id db)
tell_at-SameRows change none at id db = same_rows db
tell_at-SameRows change (some e) none id db = notify_hold_lifecycle-SameRows id (change e) e db
tell_at-SameRows change (some e) (some at) id db =
    notify_hold_lifecycle-SameRows id (change e) at db

pub tell_each-SameRows :
    (change : ℕ → HoldChange) (at : Option ℕ) (rows : List VenueBooking) (db : Db)
    → SameRows db (tell_each change at rows db)
tell_each-SameRows change at [] db = same_rows db
tell_each-SameRows change at (b ∷ bs) db =
    SameRows-trans db (tell_at change b.hold_expires_at at b.id db) _
      (tell_at-SameRows change b.hold_expires_at at b.id db)
      (tell_each-SameRows change at bs (tell_at change b.hold_expires_at at b.id db))

-- What keeps the rows of one database keeps those of another with the same rows.
pub Keeps-SameRows :
    (now : ℕ) (db db₁ db₂ : Db) → Keeps now db db₁ → SameRows db₁ db₂ → Keeps now db db₂
Keeps-SameRows now db db₁ db₂ k s = record {
  venues = s.venues ∙ k.venues;
  course = Course-trans db db₁ db₂ k.course s.course;
  live = λ i b f. k.live i b (rw (sym s.bookings) f);
}

pub SameRows-Keeps : (now : ℕ) (db db' : Db) → SameRows db db' → Keeps now db db'
SameRows-Keeps now db db' s = record {
  venues = s.venues;
  course = s.course;
  live = λ i b f l. (b, rw (sym s.bookings) f, l, (refl, refl, refl));
}

-- An update that keeps id and slot of every row, and makes none live that it finds.
pub update-Keeps :
    (now : ℕ) (p : VenueBooking → Bool) (f : VenueBooking → VenueBooking) (db : Db)
    → ((b : VenueBooking) → ((f b).id ≡ b.id) × SameSlot (f b) b)
    → ((i : ℕ) (b : VenueBooking)
        → find_booking i db.bookings ≡ some b
        → p b ≡ true
        → is_live now (f b) ≡ true
        → is_live now b ≡ true)
    → Keeps now db (record db { bookings = update_where p f db.bookings })
update-Keeps now p f db same down = record {
  venues = refl;
  course = Course-kept _ _ refl refl;
  live = λ i b' found l.
      before i (find_booking i db.bookings) b' refl
        (sym (
            find_by-update_where (λ b. b.id == i) p f db.bookings
              (λ b. ap (λ k. k == i) (same b).0))
          ∙ found)
        l;
}
  where
    touched :
        (i : ℕ) (a b' : VenueBooking) (t : Bool)
        → find_booking i db.bookings ≡ some a
        → p a ≡ t
        → (if t then f a else a) ≡ b'
        → is_live now b' ≡ true
        → (is_live now a ≡ true) × SameSlot b' a
    touched i a b' true at hit h l = (
      down i a at hit (subst (λ x. is_live now x ≡ true) (sym h) l),
      subst (λ x. SameSlot x a) h (same a).1,
    )
    touched i a b' false at miss h l = (
      subst (λ x. is_live now x ≡ true) (sym h) l,
      subst (λ x. SameSlot x a) h (refl, refl, refl),
    )

    before :
        (i : ℕ) (o : Option VenueBooking) (b' : VenueBooking)
        → find_booking i db.bookings ≡ o
        → Option.map (λ x. if p x then f x else x) o ≡ some b'
        → is_live now b' ≡ true
        → (a : VenueBooking) × (find_booking i db.bookings ≡ some a)
          × (is_live now a ≡ true)
          × SameSlot b' a
    before i none b' at h l = absurd (ground arith)
    before i (some a) b' at h l =
        let (la, slot) = touched i a b' (p a) at refl (some_injective h) l in (a, at, la, slot)

-- The same for one row that is live already.
pub set_booking-Keeps :
    (now id : ℕ) (f : VenueBooking → VenueBooking) (b : VenueBooking) (db : Db)
    → find_booking id db.bookings ≡ some b
    → is_live now b ≡ true
    → ((x : VenueBooking) → ((f x).id ≡ x.id) × SameSlot (f x) x)
    → Keeps now db (set_booking id f db)
set_booking-Keeps now id f b db found live same =
    update-Keeps now (λ x. x.id == id) f db same
      (λ i x at hit l.
        let (m, named) = find_by-Has (λ y. y.id == i) db.bookings x at in
        let e : i ≡ id = omega (arith, (==_iff x.id i).0 named, (==_iff x.id id).0 hit) in
        let same_row : x ≡ b =
          some_injective (sym at ∙ ap (λ k. find_booking k db.bookings) e ∙ found) in
        subst (λ y. is_live now y ≡ true) (sym same_row) live)
