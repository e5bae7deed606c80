-- ===== src/Registrations/Withdrawing/Validity.antt =====
-- A withdrawal keeps the tables valid (RegistrationsService.withdraw).
use is212_g5_t.Base.{
  ℕ, ◌≡◌, refl, ap, inl, inr, Bool, true, Option, none, some, arith, ◌&&◌, ◌==◌, Has, find_by,
  find_by-Has, Option-cases,
}
use is212_g5_t.Schema.{
  Event, Registration, RegistrationStatus, Db, AuthenticatedUser, RouteId, uuid, malformed, Refusal,
  Result, ok, err, find_event, has_id,
}
use is212_g5_t.Transaction.{transaction, require, ◌>>=◌}
use is212_g5_t.Transaction.Reading.{
  Reads, after, transaction-after, reads_then, reads_before, after_writes, require-Reads,
  require_found,
}
use is212_g5_t.Waitlist.{settle_locked}
use is212_g5_t.Waitlist.Settling.{settle_locked-events}
use is212_g5_t.Waitlist.Fairness.{Has-unique}
use is212_g5_t.Registrations.{Body, RegistrationView, require_empty_body}
use is212_g5_t.Registrations.Checks.{require_empty_body-Reads}
use is212_g5_t.Registrations.Invariant.{Valid, settle_locked-Valid}
use is212_g5_t.Registrations.Withdrawing.{
  read_status, settle_if_waiting, decide_withdrawal, withdraw_found, withdraw_work, withdraw,
  find_own, with_event, thrown_late, require_registration_id,
}
use is212_g5_t.Registrations.Withdrawing.Outcomes.{
  RowOf, settle_locked-RowOf, decide_withdrawal-Valid,
}

module _ (id uid now : ℕ) (current : Registration) (event e : Event) (db : Db) (v : Valid db)
    (row : RowOf id current.event_id db.registrations)
    (found : find_event current.event_id db.events ≡ some e) where
  settled_first :
      (first : Option RegistrationStatus)
      → Valid (
          after db (
            (settle_if_waiting first id current.event_id now >>= λ status.
            decide_withdrawal status id uid current.event_id event now)
              db))
  settled_first (some RegistrationStatus.waitlisted) =
      let db₁ : Db = (settle_locked current.event_id now db).1 in
      after_writes Valid db db₁
        (decide_withdrawal (read_status id db₁) id uid current.event_id event now db₁) v
        (decide_withdrawal-Valid id uid current.event_id event e now (read_status id db₁) db₁
          (settle_locked-RowOf id current.event_id current.event_id now db row)
          (rw (settle_locked-events current.event_id now db) found)
          (settle_locked-Valid current.event_id now db v))
  settled_first (some RegistrationStatus.registered) =
      decide_withdrawal-Valid id uid current.event_id event e now _ db row found v
  settled_first (some RegistrationStatus.cancelled) =
      decide_withdrawal-Valid id uid current.event_id event e now _ db row found v
  settled_first (some RegistrationStatus.removed) =
      decide_withdrawal-Valid id uid current.event_id event e now _ db row found v
  settled_first (some RegistrationStatus.withdrawn) =
      decide_withdrawal-Valid id uid current.event_id event e now _ db row found v
  settled_first none = decide_withdrawal-Valid id uid current.event_id event e now _ db row found v

  withdraw_found-Valid : Valid (after db (withdraw_found id uid current event now db))
  unfolding withdraw_found
  withdraw_found-Valid = settled_first (read_status id db)

with_event_lem :
    (x r : Registration) (o : Option Event) (e : Event)
    → with_event x o ≡ some (r, e)
    → (x ≡ r) × (o ≡ some e)
with_event_lem x r none e h = absurd (cc h)
with_event_lem x r (some y) e h = (cc, cc)

-- The caller's row, and the event that it belongs to.
find_own_lem :
    (id uid : ℕ) (db : Db) (r : Registration) (e : Event)
    → find_own id uid db ≡ some (r, e)
    → Has r db.registrations × (has_id id r ≡ true) × (find_event r.event_id db.events ≡ some e)
find_own_lem id uid db r e h = elim (Option-cases (find_by own db.registrations)) [
  | inl n ↦ absurd (nothing (rw n at h))
  | inr (x, f) ↦
      let (same, at) = with_event_lem x r (find_event x.event_id db.events) e (rw f at h) in
      let (m, t) = find_by-Has own db.registrations x f in rw (← same) (m, ground arith, at)
]
  where
    own : Registration → Bool
    own x = has_id id x && x.attendee_id == uid

    nothing : ◌≡◌ {A = Option (Registration × Event)} none (some (r, e)) → ⊥
    nothing p = cc

find_own-RowOf :
    (id uid : ℕ) (db : Db) (r : Registration) (e : Event)
    → Valid db
    → find_own id uid db ≡ some (r, e)
    → RowOf id r.event_id db.registrations
find_own-RowOf id uid db r e v h x m t =
    let (n, own, _) = find_own_lem id uid db r e h in
    ap (λ (y : Registration). y.event_id)
      (Has-unique db.registrations x r (v.ids r.id) m n (ground arith))

require_registration_id-Reads : (id : RouteId) (db : Db) → Reads db (require_registration_id id db)
require_registration_id-Reads (uuid id) db = inl (id, refl)
require_registration_id-Reads malformed db = inr (Refusal.registration_not_found, refl)

thrown_late-db : (r : Result (Result RegistrationView)) (db : Db) → (thrown_late (r, db)).1 ≡ db
thrown_late-db (ok r) db = refl
thrown_late-db (err e) db = refl

-- Whatever the request, a withdrawal on valid tables leaves them valid: ids and the pairs of
-- event and attendee are unique, no event has more registered attendees than its limit, and
-- nobody waits while a place is free.
pub withdraw-Valid :
    (identity : Option AuthenticatedUser) (id : RouteId) (body : Body) (now : ℕ) (db : Db)
    → Valid db
    → Valid (withdraw identity id body now db).1
unfolding withdraw withdraw_work
withdraw-Valid identity id body now db v =
    rw
      (thrown_late-db (transaction (withdraw_work identity id body now) db).0
        (transaction (withdraw_work identity id body now) db).1)
      (rw (transaction-after (withdraw_work identity id body now) db) (
        reads_then Valid (require identity Refusal.authentication_required) db _ v
          (require-Reads identity Refusal.authentication_required db)
          λ user _.
            reads_before Valid (require_empty_body body) db _ v (require_empty_body-Reads body db)
              λ _ _.
                reads_then Valid (require_registration_id id) db _ v
                  (require_registration_id-Reads id db)
                  λ registration_id _.
                    let own = find_own registration_id user.uid db in
                    reads_then Valid (require own Refusal.registration_not_found) db _ v
                      (require-Reads own Refusal.registration_not_found db)
                      λ current found.
                        let is_own =
                          require_found own Refusal.registration_not_found current db found in
                        withdraw_found-Valid registration_id user.uid now current.0 current.1
                          current.1 db v
                          (find_own-RowOf registration_id user.uid db current.0 current.1 v is_own)
                          (find_own_lem registration_id user.uid db current.0 current.1 is_own).2))
