-- ===== src/Registrations/Reading.antt =====
-- RegistrationsService.findMine (backend/src/registrations/registrations.service.ts).
use is212_g5_t.Base.{
  ◌≡◌, refl, ◌⊎◌, inl, inr, Bool-cases, ℕ, Bool, false, Option, none, some, ltb, if◌then◌else◌,
  find_by,
}
use is212_g5_t.Schema.{
  Event, Registration, Db, AuthenticatedUser, RouteId, Result, has_key, is_waitlisted,
}
use is212_g5_t.Transaction.{M, ◌>>=◌, writes, transaction}
use is212_g5_t.Transaction.Reading.{transaction-after, reads_then}
use is212_g5_t.Waitlist.{settle_locked, settle_if_due, waitlist_position}
use is212_g5_t.Waitlist.Settling.{settle_if_due-eq-settle_locked}
use is212_g5_t.Registrations.{
  RegistrationView, require_attendee, require_event_id, attendee_visible, view_of,
}
use is212_g5_t.Registrations.Checks.{require_attendee-Reads, require_event_id-Reads}
use is212_g5_t.Registrations.Invariant.{Valid, settle_locked-Valid}
use is212_g5_t.Registrations.Withdrawing.{join_event}

-- The attendee's own row of a visible event, with its position.
abbrev visible_row : Option (Registration × Event) → Option (Registration × Event)
visible_row none = none
visible_row (some (r, e)) = if attendee_visible e.status then some (r, e) else none

abbrev pub read_mine : ℕ → ℕ → Db → Option (Registration × Event)
read_mine event_id uid db =
    visible_row (join_event db.events (find_by (has_key event_id uid) db.registrations))

abbrev shown : Db → Option (Registration × Event) → Option RegistrationView
shown db none = none
shown db (some (r, e)) = some (view_of r e.event_name (waitlist_position db.registrations r))

abbrev is_waiting_row : Option (Registration × Event) → Bool
is_waiting_row none = false
is_waiting_row (some (r, e)) = is_waitlisted r.status

-- Only a visible waiting entry is settled; the row is read again when that removed something.
unfoldable pub find_mine_for : ℕ → ℕ → ℕ → Db → Option RegistrationView × Db
find_mine_for event_id uid now db =
    let first = read_mine event_id uid db in
    let (removed, db') = settle_if_due event_id now db in
    if is_waiting_row first
    then (if ltb 0 removed
        then (shown db' (read_mine event_id uid db'), db')
        else (shown db first, db'))
    else (shown db first, db)

unfoldable pub find_mine_work : Option AuthenticatedUser → RouteId → ℕ → M (Option RegistrationView)
find_mine_work identity id now = do
  attendee ← require_attendee identity
  event_id ← require_event_id id
  writes (find_mine_for event_id attendee.uid now)

unfoldable pub find_mine :
    Option AuthenticatedUser → RouteId → ℕ → Db → Result (Option RegistrationView) × Db
find_mine identity id now db = transaction (find_mine_work identity id now) db

pub find_mine_for-after :
    (event_id uid now : ℕ) (db : Db)
    → ((find_mine_for event_id uid now db).1 ≡ db)
      ⊎ ((find_mine_for event_id uid now db).1 ≡ (settle_locked event_id now db).1)
unfolding find_mine_for
find_mine_for-after event_id uid now db =
    rw (settle_if_due-eq-settle_locked event_id now db)
      (elim (Bool-cases (is_waiting_row (read_mine event_id uid db))) [
        | inl w ↦ elim (Bool-cases (ltb 0 (settle_locked event_id now db).0)) [
          | inl more ↦ rw (w, more) (inr refl)
          | inr none_left ↦ rw (w, none_left) (inr refl)
        ]
        | inr n ↦ rw n (inl refl)
      ])

-- Reading one's own registration, which may settle a closed waiting list, leaves valid tables
-- valid.
pub find_mine-Valid :
    (identity : Option AuthenticatedUser) (id : RouteId) (now : ℕ) (db : Db)
    → Valid db
    → Valid (find_mine identity id now db).1
unfolding find_mine find_mine_work
find_mine-Valid identity id now db v = rw (transaction-after (find_mine_work identity id now) db) (
    reads_then Valid (require_attendee identity) db _ v (require_attendee-Reads identity db)
      λ attendee _.
        reads_then Valid (require_event_id id) db _ v (require_event_id-Reads id db) λ event_id _.
          elim (find_mine_for-after event_id attendee.uid now db) [
            | inl same ↦ rw same v
            | inr settled ↦ rw settled (settle_locked-Valid event_id now db v)
          ])
