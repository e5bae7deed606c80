-- ===== src/Cancel/Outcomes.antt =====
-- What a cancellation does, and that it keeps the registration tables valid
-- (backend/src/events/cancel/cancel-event.service.ts).
pub mod Notices
use native.Mathlib.Decide.{ℕ_discrete}
use is212_g5_t.Base.{
  ℕ, ◌≤◌, ◌≡◌, ◌≢◌, refl, sym, ap, ◌∙◌, inl, inr, String, Bool, true, false, not, ◌&&◌, ◌||◌,
  Option, none, some, List, [], ◌∷◌, ◌==◌, arith, Has, any, find_by, update_where, if◌then◌else◌,
  is_some, Option-cases, Bool-cases, ◌⊎◌,
}
use is212_g5_t.Schema.{
  Event, EventStatus, Message, StatusChange, Db, AuthenticatedUser, RouteId, uuid, malformed,
  Refusal, ok, Result, find_event, holds_place, Registration,
}
use is212_g5_t.Schema.Events.{find_event-changed, find_event-other, find_by-returning}
use is212_g5_t.Transaction.{done, transaction, Outcome, require, throw_if}
use is212_g5_t.Transaction.Reading.{
  Reads, after, transaction-after, reads_then, reads_before, throw_if-Reads, require-Reads,
  require_found,
}
use is212_g5_t.Waitlist.{settle_locked, release_waitlist_for_cancelled_event}
use is212_g5_t.Waitlist.Cancelling.{OnceOnly, notified}
use is212_g5_t.Registrations.Invariant.{Valid}
use is212_g5_t.Cancel.{
  StatusView, Confirmation, confirmed_true, may_cancel, is_cancellable, still_cancellable,
  cancel_event, compare_and_cancel, finish_cancelling, collect_recipients, notify_recipients,
  release_all, cancel_inside, cancel_work, is_confirmed, require_cancel_id, cancel,
}
use is212_g5_t.Cancel.Releasing.{Released, release_all-Released, notify_recipients-OnceOnly}
use Notices.{lists, release_all-notified, notify_recipients-notified, collect_recipients-attendee}

-- The event `e` cancelled by `uid`, and all that hangs on it.
pub record Cancelled (event_id : ℕ) (e : Event) (uid now : ℕ) (skip_organiser : Bool) (db db' : Db)
    : Type 0 where
  pub status :
      find_event event_id db'.events
      ≡ some (record e {
        status = EventStatus.cancelled;
        cancelled_by = some uid;
        cancelled_at = some now;
        updated_at = now;
      })
  pub other_events : (k : ℕ) → k ≢ event_id → find_event k db'.events ≡ find_event k db.events
  pub history :
      db'.history
      ≡ record {
        event_id = event_id;
        from_status = e.status;
        to_status = EventStatus.cancelled;
        actor_id = uid;
        created_at = now;
      }
        ∷ db.history
  pub requests_kept : db'.cancellation_requests ≡ db.cancellation_requests
  pub released : Released event_id (record db { events = db'.events }) db'
  pub told :
      (u : ℕ)
      → lists (collect_recipients skip_organiser e event_id uid db) u ≡ true
      → notified u event_id db'.notifications ≡ true
  pub told_attendee :
      (r : Registration)
      → Has r db.registrations
      → holds_place event_id r ≡ true
      → (skip_organiser ≡ true → r.attendee_id ≢ e.organiser_id)
      → notified r.attendee_id event_id db'.notifications ≡ true

module _ (event_id uid now : ℕ) where
  abbrev marked : List Event → List Event
  marked events = update_where (still_cancellable event_id) (cancel_event uid now) events

module _ (event_id : ℕ) (e : Event) (uid now : ℕ) (skip_organiser : Bool) (name : String) (db : Db)
    (found : find_event event_id db.events ≡ some e)
    (open_event : is_cancellable e.status ≡ true) where
  abbrev db₁ : Db
  db₁ = record db { events = marked event_id uid now db.events }

  finish_cancelling-Cancelled :
      Cancelled event_id e uid now skip_organiser db
        (finish_cancelling skip_organiser e event_id name uid now db₁)
  unfolding finish_cancelling collect_recipients
  finish_cancelling-Cancelled =
      let us = collect_recipients skip_organiser e event_id uid db in
      let ns = notify_recipients name now event_id us db.notifications in
      let entry : StatusChange = record {
        event_id = event_id;
        from_status = e.status;
        to_status = EventStatus.cancelled;
        actor_id = uid;
        created_at = now;
      } in
      let db₂ : Db = record db₁ { history = entry ∷ db.history; notifications = ns } in
      let r : Released event_id db₂ (release_all event_id now db₂) =
        release_all-Released event_id now db₂ in
      record {
        status =
            ap (find_event event_id) r.events
            ∙ find_event-changed event_id (λ x. is_cancellable x.status) (cancel_event uid now)
                (λ x. refl) db.events e found open_event;
        other_events = λ k ne.
            ap (find_event k) r.events
            ∙ find_event-other event_id (λ x. is_cancellable x.status) (cancel_event uid now)
                (λ x. refl) db.events k ne;
        history = unfold release_all release_waitlist_for_cancelled_event settle_locked in refl;
        requests_kept =
            unfold release_all release_waitlist_for_cancelled_event settle_locked in refl;
        released = record {
          events = refl;
          no_places = r.no_places;
          no_waiting = r.no_waiting;
          others = r.others;
          other_lists = r.other_lists;
          ids = r.ids;
          keys = r.keys;
          no_venues = r.no_venues;
          no_equipment = r.no_equipment;
          no_requests = r.no_requests;
          audited = r.audited;
          once = λ o. r.once (notify_recipients-OnceOnly name now event_id us db.notifications o);
        };
        told = λ u h.
            release_all-notified event_id now u db₂
              (notify_recipients-notified name now event_id u us db.notifications h);
        told_attendee = λ r m h ne. release_all-notified event_id now r.attendee_id db₂ (
            notify_recipients-notified name now event_id r.attendee_id us db.notifications
              (collect_recipients-attendee skip_organiser e event_id uid db r m h ne));
      }

-- When the assigned coordinator cancels a cancellable event, the call succeeds: the event is
-- Cancelled, one history row says from what, nothing stays held for it, every recipient has a
-- notice, each attendee who held a place among them (but an organiser who is left out), and no
-- other event changes.
pub cancel_inside_lem :
    (user : AuthenticatedUser) (event_id now : ℕ) (skip_organiser : Bool) (db : Db) (e : Event)
    → find_event event_id db.events ≡ some e
    → may_cancel user e ≡ true
    → is_cancellable e.status ≡ true
    → (view : StatusView) × (db' : Db) × (cancel_inside user event_id now skip_organiser db
        ≡ done view db')
      × Cancelled event_id e user.uid now skip_organiser db db'
unfolding cancel_inside compare_and_cancel
cancel_inside_lem user event_id now skip_organiser db e found may open_event =
    let (row, still) =
      find_by-returning event_id (λ x. is_cancellable x.status) (cancel_event user.uid now)
        (λ x. refl) db.events e found open_event in
    let name = row.event_name in
    (
      record {
        event_id = event_id;
        status = EventStatus.cancelled;
        message = Message.event_has_been_cancelled name;
      },
      finish_cancelling skip_organiser e event_id name user.uid now
          (db₁ event_id e user.uid now skip_organiser name db found open_event),
      rw (found, may, open_event, still) refl,
      finish_cancelling-Cancelled event_id e user.uid now skip_organiser name db found open_event,
    )

-- A caller who may cancel, and a database that a cancellation of the event gives.
pub record MayCancel (db db' : Db) (user : AuthenticatedUser) (event_id now : ℕ)
    (skip_organiser : Bool) : Type 0 where
  pub event : Event
  pub found : find_event event_id db.events ≡ some event
  pub assigned : may_cancel user event ≡ true
  pub open_event : is_cancellable event.status ≡ true
  pub outcome : Cancelled event_id event user.uid now skip_organiser db db'

pub cancel_inside_cases :
    (user : AuthenticatedUser) (event_id now : ℕ) (skip_organiser : Bool) (db : Db)
    → let db' = after db (cancel_inside user event_id now skip_organiser db) in
      (db' ≡ db) ⊎ MayCancel db db' user event_id now skip_organiser
cancel_inside_cases user event_id now skip_organiser db =
    elim (Option-cases (find_event event_id db.events)) [
      | inl gone ↦ inl (unfold cancel_inside in rw gone refl)
      | inr (e, found) ↦ elim (Bool-cases (may_cancel user e)) [
        | inr refused ↦ inl (unfold cancel_inside in rw (found, refused) refl)
        | inl may ↦ elim (Bool-cases (is_cancellable e.status)) [
          | inr refused ↦ inl (unfold cancel_inside in rw (found, may, refused) refl)
          | inl open_event ↦
              let (view, db', run, c) =
                cancel_inside_lem user event_id now skip_organiser db e found may open_event in
              inr (record {
                event = e;
                found = found;
                assigned = may;
                open_event = open_event;
                outcome = rw run c;
              })
        ]
      ]
    ]
