-- ===== src/Registrations/Invariant.antt =====
-- The invariant of the registration tables, and that settling and promotion keep it.
use is212_g5_t.Base.{ℕ, ◌-◌, ◌≤◌, ◌≡◌, ◌≢◌, ap, ◌⊎◌, inl, inr, some, arith, min}
use native.Mathlib.Decide.{ℕ_discrete}
use is212_g5_t.Schema.{Event, Db, find_event, registered_count, waitlisted_count}
use is212_g5_t.Waitlist.{settle_locked, fill_free_spots}
use is212_g5_t.Waitlist.Settling.{
  settle_locked-registered, settle_locked-has_id, settle_locked-has_key, settle_locked-events,
  settle_locked-le,
}
use is212_g5_t.Waitlist.Promotion.{UniqueIds, UniqueKeys, Promoted, fill_free_spots-Promoted}

-- No event holds more Registered rows than its limit.
abbrev pub WithinCapacity : Db → Type 0
WithinCapacity db =
    (k : ℕ) (e : Event)
    → find_event k db.events ≡ some e
    → registered_count k db.registrations ≤ e.registration_limit

-- Nobody waits while a place is free.
abbrev pub NoIdlePlace : Db → Type 0
NoIdlePlace db =
    (k : ℕ) (e : Event)
    → find_event k db.events ≡ some e
    → (waitlisted_count k db.registrations ≡ 0)
      ⊎ (e.registration_limit ≤ registered_count k db.registrations)

pub record Valid (db : Db) : Type 0 where
  pub ids : UniqueIds db.registrations
  pub keys : UniqueKeys db.registrations
  pub capacity : WithinCapacity db
  pub no_idle : NoIdlePlace db

-- The invariant, but for places that stand free in one event.
pub record ValidBut (event_id : ℕ) (db : Db) : Type 0 where
  pub ids : UniqueIds db.registrations
  pub keys : UniqueKeys db.registrations
  pub capacity : WithinCapacity db
  pub no_idle :
      (k : ℕ) (e : Event)
      → k ≢ event_id
      → find_event k db.events ≡ some e
      → (waitlisted_count k db.registrations ≡ 0)
        ⊎ (e.registration_limit ≤ registered_count k db.registrations)

pub Valid-ValidBut : (event_id : ℕ) (db : Db) → Valid db → ValidBut event_id db
Valid-ValidBut event_id db v = record {
  ids = v.ids;
  keys = v.keys;
  capacity = v.capacity;
  no_idle = λ k e ne f. v.no_idle k e f;
}

pub settle_locked-ValidBut :
    (j event_id now : ℕ) (db : Db) → ValidBut j db → ValidBut j (settle_locked event_id now db).1
settle_locked-ValidBut j event_id now db v = record {
  ids = λ i. rw (settle_locked-has_id i event_id now db) (v.ids i);
  keys = λ k a. rw (settle_locked-has_key k a event_id now db) (v.keys k a);
  capacity = λ k e f.
      rw (settle_locked-registered k event_id now db)
        (v.capacity k e (rw (settle_locked-events event_id now db) at f));
  no_idle = λ k e ne f. omega (
    arith,
    v.no_idle k e ne (rw (settle_locked-events event_id now db) at f),
    settle_locked-le k event_id now db,
    settle_locked-registered k event_id now db,
  );
}

pub settle_locked-Valid :
    (event_id now : ℕ) (db : Db) → Valid db → Valid (settle_locked event_id now db).1
settle_locked-Valid event_id now db v =
    let b = settle_locked-ValidBut event_id event_id now db (Valid-ValidBut event_id db v) in
    record {
      ids = b.ids;
      keys = b.keys;
      capacity = b.capacity;
      no_idle = λ k e f. omega (
        arith,
        v.no_idle k e (rw (settle_locked-events event_id now db) at f),
        settle_locked-le k event_id now db,
        settle_locked-registered k event_id now db,
      );
    }

-- Promotion into all free places of an event restores the invariant.
Promoted-Valid :
    (event_id n : ℕ) (db db' : Db) (e : Event)
    → ValidBut event_id db
    → find_event event_id db.events ≡ some e
    → Promoted event_id n db db'
    → n
      ≡ min
          (e.registration_limit - registered_count event_id db.registrations)
          (waitlisted_count event_id db.registrations)
    → Valid db'
Promoted-Valid event_id n db db' e v found p amount = record {
  ids = λ i. rw (p.ids i) (v.ids i);
  keys = λ k a. rw (p.keys k a) (v.keys k a);
  capacity = λ k c f. within k c (rw p.events at f) (dec k);
  no_idle = λ k c f. full k c (rw p.events at f) (dec k);
}
  where
    dec : (k : ℕ) → (k ≡ event_id) ⊎ (k ≢ event_id)
    dec k = elim (ℕ_discrete k event_id) [ yes h ↦ inl h | no h ↦ inr h ]

    same : (c : Event) (k : ℕ) → k ≡ event_id → find_event k db.events ≡ some c → e ≡ c
    same c k h f = cc (found, f, ap (λ j. find_event j db.events) h)

    within :
        (k : ℕ) (c : Event)
        → find_event k db.events ≡ some c
        → (k ≡ event_id) ⊎ (k ≢ event_id)
        → registered_count k db'.registrations ≤ c.registration_limit
    within k c f (inl h) = rw h (
        omega (
          arith,
          ap (λ (x : Event). x.registration_limit) (same c k h f),
          p.more_registered,
          v.capacity event_id e found,
          amount,
        ))
    within k c f (inr h) = rw (p.others k h) (v.capacity k c f)

    full :
        (k : ℕ) (c : Event)
        → find_event k db.events ≡ some c
        → (k ≡ event_id) ⊎ (k ≢ event_id)
        → (waitlisted_count k db'.registrations ≡ 0)
          ⊎ (c.registration_limit ≤ registered_count k db'.registrations)
    full k c f (inl h) = rw h (
        omega (
          arith,
          ap (λ (x : Event). x.registration_limit) (same c k h f),
          p.more_registered,
          p.fewer_waiting,
          v.capacity event_id e found,
          amount,
        ))
    full k c f (inr h) = omega (arith, v.no_idle k c h f, p.others k h, p.other_lists k h)

-- When the tables are valid but for free places in one event, which exists, settling and filling
-- that event makes them valid.
pub fill_free_spots-Valid :
    (event_id now : ℕ) (db : Db) (e : Event)
    → ValidBut event_id db
    → find_event event_id db.events ≡ some e
    → Valid (fill_free_spots event_id now db).1
fill_free_spots-Valid event_id now db e v found =
    let (p, amount) = fill_free_spots-Promoted event_id now db e v.ids found in
    Promoted-Valid event_id (fill_free_spots event_id now db).0 (settle_locked event_id now db).1
      (fill_free_spots event_id now db).1 e (settle_locked-ValidBut event_id event_id now db v)
      (rw (settle_locked-events event_id now db) found) p amount
