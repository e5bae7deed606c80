-- ===== src/Cancel/Outcomes/Notices.antt =====
-- Who is told of a cancellation (backend/src/events/cancel/cancel-event.service.ts).
use is212_g5_t.Base.{
  ℕ, ◌≡◌, ◌≢◌, refl, ◌⊎◌, inl, inr, String, Bool, true, false, not, List, [], ◌∷◌, map, ◌==◌,
  ==_iff, arith, Has, any, keep, Bool-cases,
}
use is212_g5_t.Schema.{Event, Registration, Notification, Db, holds_place}
use is212_g5_t.Waitlist.{
  add_distinct, settle_locked, insert_cancelled_notice, release_waitlist_for_cancelled_event,
}
use is212_g5_t.Waitlist.Cancelling.{notified, any-insert, any-notify_places}
use is212_g5_t.Cancel.{add_all, collect_recipients, notify_recipients, release_all}

abbrev pub lists : List ℕ → ℕ → Bool
lists ids u = any (λ i. i == u) ids

add_all-keeps : (us set : List ℕ) (u : ℕ) → lists set u ≡ true → lists (add_all us set) u ≡ true
add_all-keeps [] set u h = h
add_all-keeps (x ∷ us) set u h = add_all-keeps us (add_distinct x set) u (ground arith)

add_all-attendee :
    (rows : List Registration) (p : Registration → Bool) (r : Registration) (set : List ℕ)
    → Has r rows
    → p r ≡ true
    → lists (add_all (map (λ (x : Registration). x.attendee_id) (keep p rows)) set) r.attendee_id
      ≡ true
add_all-attendee [] p r set m h = absurd m
add_all-attendee (x ∷ rows) p r set (inl e) h = rw (← e) (
    rw h (
      add_all-keeps (map (λ (x : Registration). x.attendee_id) (keep p rows))
        (add_distinct r.attendee_id set) r.attendee_id (ground arith)))
add_all-attendee (x ∷ rows) p r set (inr m) h = ground (
  arith,
  add_all-attendee rows p r set m h,
  add_all-attendee rows p r (add_distinct x.attendee_id set) m h,
)

kept_lists :
    (p : ℕ → Bool) (ids : List ℕ) (u : ℕ)
    → p u ≡ true
    → lists ids u ≡ true
    → lists (keep p ids) u ≡ true
kept_lists p [] u pu h = absurd (ground arith)
kept_lists p (x ∷ ids) u pu h = elim (Bool-cases (x == u)) [
  | inl here ↦ rw ((==_iff x u).0 here, pu) (ground arith)
  | inr there ↦ ground (arith, kept_lists p ids u pu)
]

-- Everyone who holds a place is a recipient, but the organiser where they are left out.
pub collect_recipients-attendee :
    (skip : Bool) (event : Event) (event_id uid : ℕ) (db : Db) (r : Registration)
    → Has r db.registrations
    → holds_place event_id r ≡ true
    → (skip ≡ true → r.attendee_id ≢ event.organiser_id)
    → lists (collect_recipients skip event event_id uid db) r.attendee_id ≡ true
unfolding collect_recipients
collect_recipients-attendee false event event_id uid db r m h ne =
    add_all-attendee db.registrations (holds_place event_id) r _ m h
collect_recipients-attendee true event event_id uid db r m h ne =
    let other : (r.attendee_id == event.organiser_id) ≡ false = ground (arith, ne refl) in
    kept_lists (λ u. not (u == event.organiser_id)) _ r.attendee_id (rw other refl)
      (add_all-attendee db.registrations (holds_place event_id) r _ m h)

notify_recipients-keeps :
    (name : String) (now event_id u : ℕ) (recipients : List ℕ) (ns : List Notification)
    → notified u event_id ns ≡ true
    → notified u event_id (notify_recipients name now event_id recipients ns) ≡ true
unfolding notify_recipients
notify_recipients-keeps name now event_id u [] ns h = h
notify_recipients-keeps name now event_id u (x ∷ xs) ns h =
    notify_recipients-keeps name now event_id u xs _ (any-insert _ _ ns h)

pub notify_recipients-notified :
    (name : String) (now event_id u : ℕ) (recipients : List ℕ) (ns : List Notification)
    → lists recipients u ≡ true
    → notified u event_id (notify_recipients name now event_id recipients ns) ≡ true
unfolding notify_recipients insert_cancelled_notice
notify_recipients-notified name now event_id u (x ∷ xs) ns h = elim told [
  | inl here ↦ notify_recipients-keeps name now event_id u xs _ (ground arith)
  | inr there ↦ notify_recipients-notified name now event_id u xs _ there
]
  where
    told : ((x == u) ≡ true) ⊎ (lists xs u ≡ true)
    told = ground arith
notify_recipients-notified name now event_id u [] ns h = absurd (ground arith)

pub release_all-notified :
    (event_id now u : ℕ) (db : Db)
    → notified u event_id db.notifications ≡ true
    → notified u event_id (release_all event_id now db).notifications ≡ true
unfolding release_all release_waitlist_for_cancelled_event settle_locked
release_all-notified event_id now u db h = any-notify_places _ _ now _ db.notifications h
