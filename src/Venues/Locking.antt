-- ===== src/Venues/Locking.antt =====
-- What the lock of an owned booking gives, and guards that return what they found.
use is212_g5_t.Base.{
  ℕ, ◌≡◌, refl, subst, Bool, true, false, ◌==◌, Option, none, some, arith, if◌then◌else◌,
  Bool-cases, inl, inr,
}
use is212_g5_t.Schema.{Venue, VenueBooking, Db, find_event}
use is212_g5_t.Venues.{find_booking, find_venue, Locked, owned, at_venue, lock_owned_booking}

pub some_injective : {A : Type 0} {a b : A} → some a ≡ some b → a ≡ b
some_injective h = cc

-- An early return, which leaves the database, and the rest of the operation.
pub guarded :
    {R : Type 0} (P : Db → Type 0) (db : Db) (b : Bool) (r : R) (rest : R × Db)
    → P db
    → (b ≡ false → P rest.1)
    → P (if b then (r, db) else rest).1
guarded P db true r rest p h = p
guarded P db false r rest p h = h refl

-- The locked row is the one that the key names, its venue is the caller's, and its event is joined.
pub record IsLocked (staff id : ℕ) (db : Db) (l : Locked) : Type 0 where
  pub found : find_booking id db.bookings ≡ some l.booking
  pub at_venue : find_venue l.booking.venue_id db ≡ some l.venue
  pub owner : (l.venue.owner_user_id == staff) ≡ true
  pub joined : l.event ≡ find_event l.booking.event_id db.events

owned_lem :
    (staff id : ℕ) (b : VenueBooking) (v : Option Venue) (db : Db) (l : Locked)
    → find_booking id db.bookings ≡ some b
    → find_venue b.venue_id db ≡ v
    → owned staff b db v ≡ some l
    → IsLocked staff id db l
owned_lem staff id b none db l at there h = absurd (ground arith)
owned_lem staff id b (some v) db l at there h = elim (Bool-cases (v.owner_user_id == staff)) [
  | inl mine ↦
      let e : record { booking = b; venue = v; event = find_event b.event_id db.events } ≡ l =
        some_injective (rw mine at h) in
      subst (IsLocked staff id db) e
        (record { found = at; at_venue = there; owner = mine; joined = refl })
  | inr other ↦ absurd (ground (arith, other, h))
]

at_venue_lem :
    (staff id : ℕ) (b : Option VenueBooking) (db : Db) (l : Locked)
    → find_booking id db.bookings ≡ b
    → at_venue staff db b ≡ some l
    → IsLocked staff id db l
at_venue_lem staff id none db l at h = absurd (ground arith)
at_venue_lem staff id (some b) db l at h =
    owned_lem staff id b (find_venue b.venue_id db) db l at refl h

pub lock_owned_booking-IsLocked :
    (staff id : ℕ) (db : Db) (l : Locked)
    → lock_owned_booking staff id db ≡ some l
    → IsLocked staff id db l
unfolding lock_owned_booking
lock_owned_booking-IsLocked staff id db l h =
    at_venue_lem staff id (find_booking id db.bookings) db l refl h
