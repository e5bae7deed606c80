-- ===== src/Cancel/Releasing.antt =====
-- What the releasers leave of a cancelled event, and of the others (backend/src/events/cancel/release.registry.ts
-- and the releasers that it lists).
use is212_g5_t.Base.{
  ℕ, ◌+◌, ◌≡◌, ◌≢◌, refl, ◌∙◌, String, Bool, true, List, [], ◌∷◌, arith, length, keep, count_if,
  update_where, count_if-update_where, length-keep, count_if-update_where_all,
}
use is212_g5_t.Schema.{
  Registration, Notification, ChangeRequest, AuditEntry, Db, holds_place, waits, has_id, has_key,
  registered_count, waitlisted_count,
}
use is212_g5_t.Waitlist.{
  due_of, due_waitlist, mark_removed, settle_locked, mark_cancelled,
  release_waitlist_for_cancelled_event,
}
use is212_g5_t.Waitlist.Cancelling.{
  OnceOnly, insert_cancelled_notice-OnceOnly, notify_places-OnceOnly,
}
use is212_g5_t.Cancel.{
  holds_venue, holds_equipment, is_pending_request, cancel_place, release_booking, release_line,
  close_request, record_all, release_all, notify_recipients,
}

-- Nothing is held for the event, and other events' places and lists stand as they stood.
pub record Released (event_id : ℕ) (db db' : Db) : Type 0 where
  pub events : db'.events ≡ db.events
  pub no_places : registered_count event_id db'.registrations ≡ 0
  pub no_waiting : waitlisted_count event_id db'.registrations ≡ 0
  pub others :
      (k : ℕ)
      → k ≢ event_id
      → registered_count k db'.registrations ≡ registered_count k db.registrations
  pub other_lists :
      (k : ℕ)
      → k ≢ event_id
      → waitlisted_count k db'.registrations ≡ waitlisted_count k db.registrations
  pub ids : (i : ℕ) → count_if (has_id i) db'.registrations ≡ count_if (has_id i) db.registrations
  pub keys :
      (k a : ℕ) → count_if (has_key k a) db'.registrations ≡ count_if (has_key k a) db.registrations
  pub no_venues : count_if (holds_venue event_id) db'.bookings ≡ 0
  pub no_equipment : count_if (holds_equipment event_id) db'.equipment ≡ 0
  pub no_requests : count_if (is_pending_request event_id) db'.change_requests ≡ 0
  pub audited :
      length db'.change_request_audit
      ≡ length db.change_request_audit + count_if (is_pending_request event_id) db.change_requests
  pub once : OnceOnly db.notifications → OnceOnly db'.notifications

length-record_all :
    (now : ℕ) (requests : List ChangeRequest) (entries : List AuditEntry)
    → length (record_all now requests entries) ≡ length entries + length requests
length-record_all now [] entries = omega arith
length-record_all now (c ∷ requests) entries = omega (arith, length-record_all now requests _)

module _ (event_id now : ℕ) (db : Db) where
  -- The registrations after the registration releaser, after settling, and after the waitlist releaser.
  abbrev first : List Registration
  first = update_where (holds_place event_id) (cancel_place now) db.registrations

  abbrev second : List Registration
  second = update_where (due_of event_id db.events now) (mark_removed now) first

  abbrev third : List Registration
  third = update_where (waits event_id) (mark_cancelled now) second

  kept :
      (q : Registration → Bool)
      → ((r : Registration) → holds_place event_id r ≡ true → q (cancel_place now r) ≡ q r)
      → ((r : Registration) → waits event_id r ≡ true → q (mark_removed now r) ≡ q r)
      → ((r : Registration) → waits event_id r ≡ true → q (mark_cancelled now r) ≡ q r)
      → count_if q third ≡ count_if q db.registrations
  unfolding due_waitlist
  kept q f g h =
      count_if-update_where q (waits event_id) (mark_cancelled now) second h
      ∙ (count_if-update_where q (due_of event_id db.events now) (mark_removed now) first
            (λ r e. ground (arith, g r))
          ∙ count_if-update_where q (holds_place event_id) (cancel_place now) db.registrations f)

  -- The releasers leave no place, waiting entry, venue booking, equipment line or pending
  -- change request of the event held, write one audit entry for each request closed, keep
  -- once-only notices once-only, and leave the events, the keys of the rows, and the places and
  -- lists of other events as they stood.
  pub release_all-Released : Released event_id db (release_all event_id now db)
  unfolding release_all release_waitlist_for_cancelled_event settle_locked
  release_all-Released = record {
    events = refl;
    no_places =
        count_if-update_where (holds_place event_id) (waits event_id) (mark_cancelled now) second
          (λ r h. ground arith)
        ∙ (count_if-update_where (holds_place event_id) (due_of event_id db.events now)
              (mark_removed now) first (λ r e. unfold due_waitlist in ground arith)
            ∙ count_if-update_where_all (holds_place event_id) (cancel_place now) db.registrations
                (λ r h. ground arith));
    no_waiting =
        count_if-update_where_all (waits event_id) (mark_cancelled now) second
          (λ r h. ground arith);
    others = λ k ne.
        kept (holds_place k) (λ r h. ground arith) (λ r h. ground arith) (λ r h. ground arith);
    other_lists =
        λ k ne. kept (waits k) (λ r h. ground arith) (λ r h. ground arith) (λ r h. ground arith);
    ids = λ i. kept (has_id i) (λ r h. refl) (λ r h. refl) (λ r h. refl);
    keys = λ k a. kept (has_key k a) (λ r h. refl) (λ r h. refl) (λ r h. refl);
    no_venues =
        count_if-update_where_all (holds_venue event_id) (release_booking now) db.bookings
          (λ b h. ground arith);
    no_equipment =
        count_if-update_where_all (holds_equipment event_id) (release_line now) db.equipment
          (λ l h. ground arith);
    no_requests =
        count_if-update_where_all (is_pending_request event_id) (close_request now)
          db.change_requests (λ c h. ground arith);
    audited = omega (
      arith,
      length-record_all now (keep (is_pending_request event_id) db.change_requests)
          db.change_request_audit,
      length-keep (is_pending_request event_id) db.change_requests,
    );
    once = λ o. notify_places-OnceOnly _ now (keep (waits event_id) second) db.notifications o;
  }

pub notify_recipients-OnceOnly :
    (name : String) (now event_id : ℕ) (recipients : List ℕ) (ns : List Notification)
    → OnceOnly ns
    → OnceOnly (notify_recipients name now event_id recipients ns)
unfolding notify_recipients
notify_recipients-OnceOnly name now event_id [] ns once = once
notify_recipients-OnceOnly name now event_id (u ∷ us) ns once =
    notify_recipients-OnceOnly name now event_id us _ (insert_cancelled_notice-OnceOnly _ ns once)
