-- ===== src/Registrations/Upsert.antt =====
-- The INSERT ... ON CONFLICT (event_id, attendee_id) DO UPDATE ... WHERE status IN (...) RETURNING
-- that registering and joining share (backend/src/registrations/registrations.service.ts).
use is212_g5_t.Base.{
  ◌+◌, ◌≡◌, refl, ◌⊎◌, inl, inr, Bool, true, Option, none, some, [], ◌∷◌, ◌++◌, arith, bit,
  if◌then◌else◌, find_by, update_where, count_if, count_if-append, count_if-update_one,
  find_by-none, find_by-Has, Option-cases, Bool-cases,
}
use is212_g5_t.Schema.{Registration, RegistrationStatus, Db, has_id, has_key}
use is212_g5_t.Waitlist.Promotion.{UniqueIds, UniqueKeys}

abbrev key_of : Registration → Registration → Bool
key_of row = has_key row.event_id row.attendee_id

-- A conflicting row is updated if its status lets it, and otherwise nothing is written or returned.
abbrev on_conflict :
    Registration
    → (RegistrationStatus → Bool)
    → (Registration → Registration)
    → Option Registration
    → Db
    → Option Registration × Db
on_conflict row revives revive none db =
    (some row, record db { registrations = db.registrations ++ (row ∷ []) })
on_conflict row revives revive (some old) db =
    if revives old.status
    then (
      some (revive old),
      record db { registrations = update_where (key_of row) revive db.registrations },
    )
    else (none, db)

unfoldable pub upsert :
    Registration
    → (RegistrationStatus → Bool)
    → (Registration → Registration)
    → Db
    → Option Registration × Db
upsert row revives revive db =
    on_conflict row revives revive (find_by (key_of row) db.registrations) db

-- A write of one row of the key: it is new, or an old row that may be revived.
pub record Wrote (row : Registration) (revives : RegistrationStatus → Bool)
    (revive : Registration → Registration) (db db' : Db) : Type 0 where
  pub events : db'.events ≡ db.events
  pub counts :
      (q : Registration → Bool)
      → ((count_if (key_of row) db.registrations ≡ 0)
          × (count_if q db'.registrations ≡ count_if q db.registrations + bit (q row)))
        ⊎ ((old : Registration) × (key_of row old ≡ true)
            × (revives old.status ≡ true)
            × (count_if q db'.registrations + bit (q old)
                ≡ count_if q db.registrations + bit (q (revive old))))

module _ (row : Registration) (revives : RegistrationStatus → Bool)
    (revive : Registration → Registration) (db : Db) where
  -- The statement returns a row exactly when it has written one; else the tables are as they were.
  pub upsert_cases :
      UniqueKeys db.registrations
      → ((upsert row revives revive db ≡ (none, db)))
        ⊎ ((saved : Registration) × (db' : Db) × (upsert row revives revive db ≡ (some saved, db'))
            × Wrote row revives revive db db')
  unfolding upsert
  upsert_cases unique = elim (Option-cases (find_by (key_of row) db.registrations)) [
    | inl e ↦ inr (
      row,
      record db { registrations = db.registrations ++ (row ∷ []) },
      rw e,
      record {
        events = refl;
        counts = λ q. inl (
          find_by-none (key_of row) db.registrations e,
          omega (arith, count_if-append q db.registrations (row ∷ [])),
        );
      },
    )
    | inr (old, e) ↦ elim (Bool-cases (revives old.status)) [
      | inl can ↦ inr (
        revive old,
        record db { registrations = update_where (key_of row) revive db.registrations },
        rw (e, upsert) (rw can),
        record {
          events = refl;
          counts = λ q.
              let (m, t) = find_by-Has (key_of row) db.registrations old e in
              inr (
                old,
                t,
                can,
                count_if-update_one q (key_of row) revive db.registrations old
                    (unique row.event_id row.attendee_id) m t,
              );
        },
      )
      | inr not ↦ inl (rw (e, upsert) (rw not))
    ]
  ]

-- A revival that keeps the row's id and key, and a new row with a fresh id, keep both keys unique.
pub Wrote-UniqueIds :
    (row : Registration) (revives : RegistrationStatus → Bool)
    (revive : Registration → Registration) (db db' : Db)
    → Wrote row revives revive db db'
    → ((r : Registration) → (revive r).id ≡ r.id)
    → count_if (has_id row.id) db.registrations ≡ 0
    → UniqueIds db.registrations
    → UniqueIds db'.registrations
Wrote-UniqueIds row revives revive db db' w keeps fresh unique i = elim (w.counts (has_id i)) [
  | inl (absent, c) ↦ ground (arith, unique i)
  | inr (old, k, s, c) ↦ ground (arith, unique i, keeps old)
]

pub Wrote-UniqueKeys :
    (row : Registration) (revives : RegistrationStatus → Bool)
    (revive : Registration → Registration) (db db' : Db)
    → Wrote row revives revive db db'
    → ((r : Registration)
        → ((revive r).event_id ≡ r.event_id) × ((revive r).attendee_id ≡ r.attendee_id))
    → UniqueKeys db.registrations
    → UniqueKeys db'.registrations
Wrote-UniqueKeys row revives revive db db' w keeps unique k a = elim (w.counts (has_key k a)) [
  | inl (absent, c) ↦ ground (arith, unique k a)
  | inr (old, t, s, c) ↦ ground (arith, unique k a, keeps old)
]
