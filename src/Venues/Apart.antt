-- ===== src/Venues/Apart.antt =====
-- No two live bookings of a venue overlap: what it says, and that it survives time and every change
-- that makes no row live.
use is212_g5_t.Base.{ℕ, ◌≤◌, ◌≡◌, ◌≢◌, sym, ◌∙◌, true, false, some, arith}
use is212_g5_t.Schema.{Venue, VenueBooking, Db}
use is212_g5_t.Schema.Course.{Course}
use is212_g5_t.Venues.{find_booking, find_venue, is_live, overlaps}

-- Two bookings that the key tells apart, both live, at one venue: their windows with setup and
-- turnaround do not meet.
abbrev pub Apart : ℕ → Db → Type 0
Apart now db =
    (i j : ℕ) (a b : VenueBooking) (v : Venue)
    → i ≢ j
    → find_booking i db.bookings ≡ some a
    → find_booking j db.bookings ≡ some b
    → a.venue_id ≡ b.venue_id
    → find_venue a.venue_id db ≡ some v
    → is_live now a ≡ true
    → is_live now b ≡ true
    → overlaps v a.start_at a.end_at b.start_at b.end_at ≡ false

abbrev pub SameSlot : VenueBooking → VenueBooking → Type 0
SameSlot a b = (a.venue_id ≡ b.venue_id) × (a.start_at ≡ b.start_at) × (a.end_at ≡ b.end_at)

-- Every live row was live before, in the same slot; the venues are the same, and no event has another
-- limit or another course.
pub record Keeps (now : ℕ) (db db' : Db) : Type 0 where
  pub venues : db'.venues ≡ db.venues
  pub course : Course db db'
  pub live :
      (i : ℕ) (b : VenueBooking)
      → find_booking i db'.bookings ≡ some b
      → is_live now b ≡ true
      → (a : VenueBooking) × (find_booking i db.bookings ≡ some a)
        × (is_live now a ≡ true)
        × SameSlot b a

is_live_before :
    (now later : ℕ) (b : VenueBooking) → now ≤ later → is_live later b ≡ true → is_live now b ≡ true
is_live_before now later b le h = ground arith

-- Time only ends holds.
pub Apart-later : (now later : ℕ) (db : Db) → now ≤ later → Apart now db → Apart later db
Apart-later now later db le apart i j a b v ne fa fb same fv la lb =
    apart i j a b v ne fa fb same fv (is_live_before now later a le la)
      (is_live_before now later b le lb)

pub Keeps-Apart : (now : ℕ) (db db' : Db) → Keeps now db db' → Apart now db → Apart now db'
Keeps-Apart now db db' k apart i j a b v ne fa fb same fv la lb =
    let (a₀, fa₀, la₀, (va, sa, ea)) = k.live i a fa la in
    let (b₀, fb₀, lb₀, (vb, sb, eb)) = k.live j b fb lb in
    let old : overlaps v a₀.start_at a₀.end_at b₀.start_at b₀.end_at ≡ false =
      apart i j a₀ b₀ v ne fa₀ fb₀ (sym va ∙ same ∙ vb) (rw (sym va, sym k.venues) fv) la₀ lb₀ in
    rw (sa, ea, sb, eb) old
