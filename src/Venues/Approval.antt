-- ===== src/Venues/Approval.antt =====
-- An approval takes a slot only when no live booking of the venue meets it.
use is212_g5_t.Base.{
  ℕ, ◌≡◌, ◌≢◌, refl, sym, subst, ◌∙◌, ap, Bool, true, false, not, ◌&&◌, ◌==◌, ==_iff, Option, none,
  some, List, [], ◌∷◌, ◌++◌, arith, map, keep, any, update_where, find_by-Has, Has-any, keep_empty,
  sort_in_empty, Bool-cases, inl, inr,
}
use is212_g5_t.Schema.{Venue, VenueBooking, Db}
use is212_g5_t.Schema.Course.{Course-kept}
use is212_g5_t.Venues.{
  find_booking, find_venue, is_live, is_pending, of_completed, overlaps, stands_against, other_than,
  BookingConflict, conflict_before, blocked_conflict, booking_conflict, blocks, conflicts_of,
  Locked, lock_owned_booking, set_booking,
}
use is212_g5_t.Venues.Notices.{Decision}
use is212_g5_t.Venues.Decisions.{
  approve_row, add_review, save_approval, found_conflicts, approve_free, is_late, approve_locked,
  approve_venue_booking,
}
use is212_g5_t.Venues.Apart.{Apart, Keeps-Apart}
use is212_g5_t.Venues.Locking.{some_injective, guarded, IsLocked, lock_owned_booking-IsLocked}
use is212_g5_t.Venues.Keeping.{SameRows, SameRows-Keeps, notify_booking_decision-SameRows}

append_empty : {A : Type 0} (xs ys : List A) → xs ++ ys ≡ [] → ys ≡ []
append_empty [] ys h = h
append_empty (x ∷ xs) ys h = absurd (ground arith)

append_empty_left : {A : Type 0} (xs ys : List A) → xs ++ ys ≡ [] → xs ≡ []
append_empty_left [] ys h = refl
append_empty_left (x ∷ xs) ys h = absurd (ground arith)

map_empty : {A B : Type 0} (f : A → B) (xs : List A) → map f xs ≡ [] → xs ≡ []
map_empty f [] h = refl
map_empty f (x ∷ xs) h = absurd (ground arith)

-- When a slot has no conflicts, no booking that was considered stands against it.
pub conflicts_of-empty :
    (p : VenueBooking → Bool) (v : Venue) (start end now : ℕ) (db : Db)
    → conflicts_of p v start end now db ≡ []
    → any (λ b. p b && stands_against v start end now b) db.bookings ≡ false
unfolding conflicts_of
conflicts_of-empty p v start end now db h =
    keep_empty (λ b. p b && stands_against v start end now b) db.bookings
      (map_empty (booking_conflict v db.events) _ (
        append_empty (map blocked_conflict (keep (blocks v start end) db.unavailable)) _
          (sort_in_empty conflict_before _ h)))

-- Nor does a blocked period of the venue.
pub conflicts_of-open :
    (p : VenueBooking → Bool) (v : Venue) (start end now : ℕ) (db : Db)
    → conflicts_of p v start end now db ≡ []
    → any (blocks v start end) db.unavailable ≡ false
unfolding conflicts_of
conflicts_of-open p v start end now db h = keep_empty (blocks v start end) db.unavailable (
    map_empty blocked_conflict _ (
      append_empty_left (map blocked_conflict (keep (blocks v start end) db.unavailable)) _
        (sort_in_empty conflict_before _ h)))

overlaps_sym : (v : Venue) (a b c d : ℕ) → overlaps v a b c d ≡ false → overlaps v c d a b ≡ false
overlaps_sym v a b c d h = ground arith

module _ (id : ℕ) (f : VenueBooking → VenueBooking)
    (same_id : (b : VenueBooking) → (f b).id ≡ b.id) where
  pub find_booking-set_self :
      (rows : List VenueBooking) (b : VenueBooking)
      → find_booking id rows ≡ some b
      → find_booking id (update_where (λ x. x.id == id) f rows) ≡ some (f b)
  find_booking-set_self [] b h = absurd (ground arith)
  find_booking-set_self (x ∷ rows) b h = ground (arith, same_id x, find_booking-set_self rows b)

  pub find_booking-set_other :
      (i : ℕ) (rows : List VenueBooking)
      → i ≢ id
      → find_booking i (update_where (λ x. x.id == id) f rows) ≡ find_booking i rows
  find_booking-set_other i [] ne = refl
  find_booking-set_other i (x ∷ rows) ne =
      ground (arith, same_id x, find_booking-set_other i rows ne)

-- The approved booking and another live one at its venue.
pub free_slot :
    (staff id now : ℕ) (db : Db) (l : Locked) (j : ℕ) (c : VenueBooking)
    → IsLocked staff id db l
    → found_conflicts id now l db ≡ []
    → j ≢ id
    → find_booking j db.bookings ≡ some c
    → l.booking.venue_id ≡ c.venue_id
    → is_live now c ≡ true
    → overlaps l.venue c.start_at c.end_at l.booking.start_at l.booking.end_at ≡ false
unfolding found_conflicts
free_slot staff id now db l j c locked none_found ne at same live =
    let (m, named) = find_by-Has (λ b. b.id == j) db.bookings c at in
    let (mv, venue_named) =
      find_by-Has (λ v. v.id == l.booking.venue_id) db.venues l.venue locked.at_venue in
    let free =
      conflicts_of-empty (other_than id) l.venue l.booking.start_at l.booking.end_at now db
        none_found in
    let other : (c.id == id) ≡ false = ground (arith, named, ne) in
    let here : (c.venue_id == l.venue.id) ≡ true = ground (arith, venue_named, same) in
    elim (Bool-cases (overlaps l.venue c.start_at c.end_at l.booking.start_at l.booking.end_at)) [
      | inl meets ↦ absurd (
          ground (
            arith,
            free,
            Has-any
                (λ b.
                  other_than id b
                  && stands_against l.venue l.booking.start_at l.booking.end_at now b)
                db.bookings c m (rw (other, here, live, meets) refl),
          ))
      | inr apart ↦ apart
    ]

module _ (staff id now : ℕ) (db : Db) (l : Locked) (locked : IsLocked staff id db l)
    (none_found : found_conflicts id now l db ≡ []) where
  approved_rows : List VenueBooking
  approved_rows = update_where (λ x. x.id == id) (approve_row now) db.bookings

  the_approved :
      (i : ℕ) (a : VenueBooking)
      → (i == id) ≡ true
      → find_booking i approved_rows ≡ some a
      → approve_row now l.booking ≡ a
  unfolding approved_rows
  the_approved i a named at = some_injective (
      sym
        (find_booking-set_self id (approve_row now) (λ x. refl) db.bookings l.booking locked.found)
      ∙ ap (λ k. find_booking k approved_rows) (sym ((==_iff i id).0 named))
      ∙ at)

  as_before :
      (i : ℕ) (a : VenueBooking)
      → (i == id) ≡ false
      → find_booking i approved_rows ≡ some a
      → (i ≢ id) × (find_booking i db.bookings ≡ some a)
  unfolding approved_rows
  as_before i a other at =
      let ne : i ≢ id = λ e. ground (arith, other, e) in
      (ne, sym (find_booking-set_other id (approve_row now) (λ x. refl) i db.bookings ne) ∙ at)

  against_approved :
      (i j : ℕ) (a b : VenueBooking) (v : Venue)
      → (i == id) ≡ true
      → (j == id) ≡ false
      → find_booking i approved_rows ≡ some a
      → find_booking j approved_rows ≡ some b
      → a.venue_id ≡ b.venue_id
      → find_venue a.venue_id db ≡ some v
      → is_live now b ≡ true
      → overlaps v b.start_at b.end_at a.start_at a.end_at ≡ false
  against_approved i j a b v here there fa fb same fv live =
      let e = the_approved i a here fa in
      let (ne, at) = as_before j b there fb in
      let venue : l.venue ≡ v =
        some_injective (sym locked.at_venue ∙ ap (λ x. find_venue x.venue_id db) e ∙ fv) in
      let slot : overlaps l.venue b.start_at b.end_at l.booking.start_at l.booking.end_at ≡ false =
        free_slot staff id now db l j b locked none_found ne at (ap (λ x. x.venue_id) e ∙ same)
          live in
      subst (λ x. overlaps v b.start_at b.end_at x.start_at x.end_at ≡ false) e
        (subst (λ w. overlaps w b.start_at b.end_at l.booking.start_at l.booking.end_at ≡ false)
          venue slot)

  set_approved-Apart : Apart now db → Apart now (set_booking id (approve_row now) db)
  unfolding approved_rows
  set_approved-Apart apart i j a b v ne fa fb same fv la lb = elim (Bool-cases (i == id)) [
    | inl first ↦ elim (Bool-cases (j == id)) [
      | inl second ↦ absurd (ne (omega (arith, (==_iff i id).0 first, (==_iff j id).0 second)))
      | inr other ↦
          overlaps_sym v b.start_at b.end_at a.start_at a.end_at
            (against_approved i j a b v first other fa fb same fv lb)
    ]
    | inr other ↦ elim (Bool-cases (j == id)) [
      | inl second ↦
          against_approved j i b a v second other fb fa (sym same)
            (ap (λ k. find_venue k db) (sym same) ∙ fv) la
      | inr neither ↦
          apart i j a b v ne (as_before i a other fa).1 (as_before j b neither fb).1 same fv la lb
    ]
  ]

SameRows-Apart : (now : ℕ) (db db' : Db) → SameRows db db' → Apart now db → Apart now db'
SameRows-Apart now db db' s = Keeps-Apart now db db' (SameRows-Keeps now db db' s)

save_approval-Apart :
    (staff id now : ℕ) (db : Db) (l : Locked)
    → IsLocked staff id db l
    → found_conflicts id now l db ≡ []
    → Apart now db
    → Apart now (save_approval staff id now l.booking.request_kind db)
unfolding save_approval
save_approval-Apart staff id now db l locked none_found apart =
    let db₁ : Db = add_review id staff none (set_booking id (approve_row now) db) in
    SameRows-Apart now db₁ _
      (notify_booking_decision-SameRows id Decision.approved now l.booking.request_kind db₁)
      (SameRows-Apart now (set_booking id (approve_row now) db) db₁
        (record { bookings = refl; venues = refl; course = Course-kept _ _ refl refl })
        (set_approved-Apart staff id now db l locked none_found apart))

-- An approval keeps the live bookings of each venue apart.
pub approve_venue_booking-Apart :
    (staff id now : ℕ) (db : Db)
    → Apart now db
    → Apart now (approve_venue_booking staff id now db).1
unfolding approve_venue_booking approve_locked
approve_venue_booking-Apart staff id now db apart = of_lock (lock_owned_booking staff id db) refl
  where
    of_conflicts :
        (l : Locked) (cs : List BookingConflict)
        → IsLocked staff id db l
        → found_conflicts id now l db ≡ cs
        → Apart now (approve_free staff id now l cs db).1
    of_conflicts l [] locked none_found =
        save_approval-Apart staff id now db l locked none_found apart
    of_conflicts l (c ∷ cs) locked some_found = apart

    of_lock :
        (l : Option Locked)
        → lock_owned_booking staff id db ≡ l
        → Apart now (approve_locked staff id now l db).1
    of_lock none at = apart
    of_lock (some l) at = guarded (Apart now) db (of_completed l.event) _ _ apart (λ _.
        guarded (Apart now) db (not (is_pending l.booking.status)) _ _ apart (λ _.
          guarded (Apart now) db (is_late now l) _ _ apart (λ _.
            of_conflicts l (found_conflicts id now l db)
              (lock_owned_booking-IsLocked staff id db l at) refl)))
