-- ===== src/Waitlist/Cancelling.antt =====
-- The waiting list of a cancelled event (backend/src/registrations/waitlist/cancel-releaser.ts).
use is212_g5_t.Base.{
  true, Has, inl, inr, ℕ, ◌≤◌, ◌≡◌, refl, ◌∙◌, Bool, false, ◌&&◌, List, [], String, ◌∷◌, arith, any,
  keep, Has-keep, count_if, count_if-congr, count_if-update_where, count_if-update_where_out,
}
use is212_g5_t.Schema.{
  Registration, Notification, Db, holds_place, waits, registered_count, waitlisted_count,
}
use is212_g5_t.Waitlist.{
  settle_locked, mark_cancelled, release_waitlist_for_cancelled_event, cancelled_notice_for,
  insert_cancelled_notice, notify_places,
}
use is212_g5_t.Waitlist.Settling.{settle_locked-registered}

any_eq_false : {A : Type 0} (p : A → Bool) (xs : List A) → any p xs ≡ false → count_if p xs ≡ 0
any_eq_false p [] h = refl
any_eq_false p (x ∷ xs) h = ground (arith, any_eq_false p xs)

-- The once-only index: a recipient has at most one EventCancelled notice for an event.
abbrev pub OnceOnly : List Notification → Type 0
OnceOnly ns = (recipient event_id : ℕ) → count_if (cancelled_notice_for recipient event_id) ns ≤ 1

pub insert_cancelled_notice-OnceOnly :
    (n : Notification) (ns : List Notification)
    → OnceOnly ns
    → OnceOnly (insert_cancelled_notice n ns)
unfolding insert_cancelled_notice
insert_cancelled_notice-OnceOnly n ns once u e =
    ground
      (arith, once u e, any_eq_false (cancelled_notice_for n.recipient_id n.related_event_id) ns)

pub notify_places-OnceOnly :
    (name : String) (now : ℕ) (rows : List Registration) (ns : List Notification)
    → OnceOnly ns
    → OnceOnly (notify_places name now rows ns)
unfolding notify_places
notify_places-OnceOnly name now [] ns once = once
notify_places-OnceOnly name now (r ∷ rows) ns once =
    notify_places-OnceOnly name now rows _ (insert_cancelled_notice-OnceOnly _ ns once)

pub any-insert :
    (p : Notification → Bool) (n : Notification) (ns : List Notification)
    → any p ns ≡ true
    → any p (insert_cancelled_notice n ns) ≡ true
unfolding insert_cancelled_notice
any-insert p n ns h = ground arith

pub any-notify_places :
    (p : Notification → Bool) (name : String) (now : ℕ) (rows : List Registration)
    (ns : List Notification)
    → any p ns ≡ true
    → any p (notify_places name now rows ns) ≡ true
unfolding notify_places
any-notify_places p name now [] ns h = h
any-notify_places p name now (r ∷ rows) ns h =
    any-notify_places p name now rows _ (any-insert p _ ns h)

abbrev pub notified : ℕ → ℕ → List Notification → Bool
notified recipient event_id ns = any (cancelled_notice_for recipient event_id) ns

notify_places-notified :
    (event_id : ℕ) (name : String) (now : ℕ) (rows : List Registration) (ns : List Notification)
    (r : Registration)
    → Has r rows
    → waits event_id r ≡ true
    → notified r.attendee_id event_id (notify_places name now rows ns) ≡ true
unfolding notify_places insert_cancelled_notice
notify_places-notified event_id name now [] ns r m w = absurd m
notify_places-notified event_id name now (x ∷ rows) ns r (inl e) w =
    any-notify_places _ name now rows _ (ground arith)
notify_places-notified event_id name now (x ∷ rows) ns r (inr m) w =
    notify_places-notified event_id name now rows _ r m w

-- When no recipient has two EventCancelled notices for an event before: a cancelled event keeps
-- no waiting entry; the entries that hold a place, of any event, stay as many as they were; each
-- attendee who still waited after settling has an EventCancelled notice for the event; and still
-- no recipient has two.
pub release_waitlist_for_cancelled_event_lem :
    (event_id now : ℕ) (db : Db)
    → OnceOnly db.notifications
    → let db' = (release_waitlist_for_cancelled_event event_id now db).1 in
      (waitlisted_count event_id db'.registrations ≡ 0)
      × ((k : ℕ) → registered_count k db'.registrations ≡ registered_count k db.registrations)
      × OnceOnly db'.notifications
      × ((r : Registration)
          → Has r (settle_locked event_id now db).1.registrations
          → waits event_id r ≡ true
          → notified r.attendee_id event_id db'.notifications ≡ true)
unfolding release_waitlist_for_cancelled_event
release_waitlist_for_cancelled_event_lem event_id now db once =
    let rows = (settle_locked event_id now db).1.registrations in
    (
      omega (
        arith,
        count_if-update_where_out (waits event_id) (waits event_id) (mark_cancelled now) rows
            (λ r h. ground arith),
        count_if-congr (λ r. waits event_id r && waits event_id r) (waits event_id) rows
            (λ r. ground arith),
      ),
      λ k.
          count_if-update_where (holds_place k) (waits event_id) (mark_cancelled now) rows
            (λ r h. ground arith)
          ∙ settle_locked-registered k event_id now db,
      notify_places-OnceOnly _ now (keep (waits event_id) rows) _ (unfold settle_locked in once),
      λ r m w.
          notify_places-notified event_id _ now (keep (waits event_id) rows) _ r
            (Has-keep (waits event_id) rows r m w) w,
    )
