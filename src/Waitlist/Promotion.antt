-- ===== src/Waitlist/Promotion.antt =====
-- Automatic promotion (backend/src/registrations/waitlist/promotion.ts): who is promoted, how many,
-- and that neither a place is exceeded nor left free while someone waits.
use is212_g5_t.Base.{
  ℕ, zero, suc, ◌+◌, ◌-◌, ◌≤◌, ◌≡◌, ◌≢◌, refl, ap, ◌∙◌, inl, inr, String, Bool, some, List, arith,
  min, Option-cases, length, count_if, count_if-update_one, bit,
}
use is212_g5_t.Schema.{
  Event, Registration, Db, find_event, holds_place, waits, has_id, has_key, registered_count,
  waitlisted_count,
}
use is212_g5_t.Waitlist.{
  settle_locked, first_waiting, promote, promote_entry, promote_loop, fill_free_spots,
}
use is212_g5_t.Waitlist.Order.{first_waiting-none, first_waiting-waits}
use is212_g5_t.Waitlist.Settling.{settle_locked-has_id, settle_locked-events}

-- The primary key: an id names at most one row.
abbrev pub UniqueIds : List Registration → Type 0
UniqueIds rows = (i : ℕ) → count_if (has_id i) rows ≤ 1

-- UNIQUE (event_id, attendee_id).
abbrev pub UniqueKeys : List Registration → Type 0
UniqueKeys rows = (k a : ℕ) → count_if (has_key k a) rows ≤ 1

-- What `n` promotions of an event's waiting entries do to the database.
pub record Promoted (event_id n : ℕ) (db db' : Db) : Type 0 where
  pub events : db'.events ≡ db.events
  pub more_registered :
      registered_count event_id db'.registrations ≡ registered_count event_id db.registrations + n
  pub fewer_waiting :
      waitlisted_count event_id db'.registrations + n ≡ waitlisted_count event_id db.registrations
  pub notified : length db'.notifications ≡ length db.notifications + n
  pub ids : (i : ℕ) → count_if (has_id i) db'.registrations ≡ count_if (has_id i) db.registrations
  pub keys :
      (k a : ℕ) → count_if (has_key k a) db'.registrations ≡ count_if (has_key k a) db.registrations
  pub others :
      (k : ℕ)
      → k ≢ event_id
      → registered_count k db'.registrations ≡ registered_count k db.registrations
  pub other_lists :
      (k : ℕ)
      → k ≢ event_id
      → waitlisted_count k db'.registrations ≡ waitlisted_count k db.registrations

module _ (event_id now : ℕ) (name : String) (entry : Registration) (db : Db)
    (unique : UniqueIds db.registrations)
    (picked : first_waiting event_id db.registrations ≡ some entry) where
  one_row :
      (q : Registration → Bool)
      → count_if q (promote_entry now name entry db).registrations + bit (q entry)
        ≡ count_if q db.registrations + bit (q (promote now entry))
  unfolding promote_entry
  one_row q =
      let (m, w) = first_waiting-waits event_id db.registrations entry picked in
      count_if-update_one q (has_id entry.id) (promote now) db.registrations entry (unique entry.id)
        m (ground arith)

  pub promote_entry-Promoted : Promoted event_id 1 db (promote_entry now name entry db)
  promote_entry-Promoted =
      let (m, w) = first_waiting-waits event_id db.registrations entry picked in
      record {
        events = unfold promote_entry in refl;
        more_registered = ground (arith, one_row (holds_place event_id));
        fewer_waiting = ground (arith, one_row (waits event_id));
        notified = unfold promote_entry in omega arith;
        ids = λ i. ground (arith, one_row (has_id i));
        keys = λ k a. ground (arith, one_row (has_key k a));
        others = λ k ne. ground (arith, one_row (holds_place k));
        other_lists = λ k ne. ground (arith, one_row (waits k));
      }

Promoted-zero : (event_id : ℕ) (db : Db) → Promoted event_id 0 db db
Promoted-zero event_id db = record {
  events = refl;
  more_registered = omega arith;
  fewer_waiting = omega arith;
  notified = omega arith;
  ids = λ i. refl;
  keys = λ k a. refl;
  others = λ k ne. refl;
  other_lists = λ k ne. refl;
}

Promoted-suc :
    (event_id n : ℕ) (db db₁ db₂ : Db)
    → Promoted event_id 1 db db₁
    → Promoted event_id n db₁ db₂
    → Promoted event_id (suc n) db db₂
Promoted-suc event_id n db db₁ db₂ a b = record {
  events = b.events ∙ a.events;
  more_registered = omega (arith, a.more_registered, b.more_registered);
  fewer_waiting = omega (arith, a.fewer_waiting, b.fewer_waiting);
  notified = omega (arith, a.notified, b.notified);
  ids = λ i. b.ids i ∙ a.ids i;
  keys = λ k c. b.keys k c ∙ a.keys k c;
  others = λ k ne. b.others k ne ∙ a.others k ne;
  other_lists = λ k ne. b.other_lists k ne ∙ a.other_lists k ne;
}

-- The loop promotes as many as there are free places or waiting entries, whichever is less.
promote_loop-Promoted :
    (event_id now : ℕ) (name : String) (free : ℕ) (db : Db)
    → UniqueIds db.registrations
    → let r = promote_loop event_id name now free db in
      Promoted event_id r.0 db r.1 × (r.0 ≡ min free (waitlisted_count event_id db.registrations))
unfolding promote_loop
promote_loop-Promoted event_id now name zero db u = (Promoted-zero event_id db, omega arith)
promote_loop-Promoted event_id now name (suc free) db u =
    elim (Option-cases (first_waiting event_id db.registrations)) [
      | inl e ↦
          rw (e, promote_loop)
            (
              Promoted-zero event_id db,
              omega (arith, first_waiting-none event_id db.registrations e),
            )
      | inr (entry, e) ↦
          let one = promote_entry-Promoted event_id now name entry db u e in
          let (rest, count) =
            promote_loop-Promoted event_id now name free (promote_entry now name entry db)
              (λ i. rw (one.ids i) (u i)) in
          rw (e, promote_loop)
            (Promoted-suc event_id _ db _ _ one rest, omega (arith, count, one.fewer_waiting))
    ]

-- Where ids are unique and the event exists, filling its free places settles its list, then
-- promotes as many waiting entries as there are free places, or all of them if there are fewer:
-- each gets one notice, the events and the keys of the rows stay, and so do the places and the
-- lists of other events.
pub fill_free_spots-Promoted :
    (event_id now : ℕ) (db : Db) (e : Event)
    → UniqueIds db.registrations
    → find_event event_id db.events ≡ some e
    → let r = fill_free_spots event_id now db in
      let db₁ = (settle_locked event_id now db).1 in
      Promoted event_id r.0 db₁ r.1
      × (r.0
          ≡ min
              (e.registration_limit - registered_count event_id db₁.registrations)
              (waitlisted_count event_id db₁.registrations))
unfolding fill_free_spots
fill_free_spots-Promoted event_id now db e u found =
    let at : find_event event_id (settle_locked event_id now db).1.events ≡ some e =
      ap (find_event event_id) (settle_locked-events event_id now db) ∙ found in
    rw (at, fill_free_spots)
      (promote_loop-Promoted event_id now e.event_name
        (e.registration_limit
          - registered_count event_id (settle_locked event_id now db).1.registrations)
        (settle_locked event_id now db).1 (λ i. rw (settle_locked-has_id i event_id now db) (u i)))
