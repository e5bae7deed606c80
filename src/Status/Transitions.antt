-- ===== src/Status/Transitions.antt =====
-- The transitions that the status endpoint makes (backend/src/events/status/status.service.ts).
use is212_g5_t.Base.{ℕ, ◌≡◌, ◌≢◌, refl, true, some, ◌∷◌, arith, some_eq}
use is212_g5_t.Schema.{Event, EventStatus, Message, Db, AuthenticatedUser, find_event}
use is212_g5_t.Schema.Events.{find_event-changed, find_event-other, find_by-returning}
use is212_g5_t.Transaction.{done}
use is212_g5_t.Readiness.{evaluate_readiness}
use is212_g5_t.Cancel.{StatusView, add_history, is_cancellable}
use is212_g5_t.Status.{
  read_arrangements, has_event_ended, assert_source_status, is_planning, is_confirmed_event,
  move_to, compare_and_move, finish_confirming, confirm, complete,
}

-- The transitions of the status endpoint.
pub data Step : EventStatus → EventStatus → Type 0 where
  confirms : Step EventStatus.planning EventStatus.confirmed
  completes : Step EventStatus.confirmed EventStatus.completed
  cancels : (from : EventStatus) → is_cancellable from ≡ true → Step from EventStatus.cancelled

-- One event moves along a transition, with its one history row, and no other event changes.
pub record Moved (event_id : ℕ) (e : Event) (to : EventStatus) (uid now : ℕ) (db db' : Db)
    : Type 0 where
  pub step : Step e.status to
  pub e' : Event
  pub status : find_event event_id db'.events ≡ some e'
  pub to_status : e'.status ≡ to
  pub same_limit : e'.registration_limit ≡ e.registration_limit
  pub other_events : (k : ℕ) → k ≢ event_id → find_event k db'.events ≡ find_event k db.events
  pub history :
      db'.history
      ≡ record {
        event_id = event_id;
        from_status = e.status;
        to_status = to;
        actor_id = uid;
        created_at = now;
      }
        ∷ db.history

pub is_planning_iff : (s : EventStatus) → is_planning s ≡ true → s ≡ EventStatus.planning
is_planning_iff s h = ground arith

is_confirmed_iff : (s : EventStatus) → is_confirmed_event s ≡ true → s ≡ EventStatus.confirmed
is_confirmed_iff s h = ground arith

-- When the assigned coordinator confirms a Planning event whose arrangements are ready, the call
-- succeeds: the event becomes Confirmed with one history row, other events, its limit and all
-- registrations stay.
pub confirm_lem :
    (user : AuthenticatedUser) (event_id now : ℕ) (db : Db) (e : Event)
    → find_event event_id db.events ≡ some e
    → some_eq e.coordinator_id user.uid ≡ true
    → is_planning e.status ≡ true
    → (evaluate_readiness (read_arrangements event_id db) now).ready ≡ true
    → (view : StatusView) × (db' : Db) × (confirm user event_id now db ≡ done view db')
      × Moved event_id e EventStatus.confirmed user.uid now db db'
      × (db'.registrations ≡ db.registrations)
unfolding confirm compare_and_move finish_confirming assert_source_status
confirm_lem user event_id now db e found assigned planning ready =
    let f = move_to EventStatus.confirmed now in
    let (row, still) =
      find_by-returning event_id (λ x. is_planning x.status) f (λ x. refl) db.events e found
        planning in
    let at : e.status ≡ EventStatus.planning = is_planning_iff e.status planning in
    let db₁ : Db = (compare_and_move is_planning EventStatus.confirmed event_id now db).1 in
    (
      record {
        event_id = event_id;
        status = EventStatus.confirmed;
        message = Message.event_has_been_confirmed row.event_name;
      },
      finish_confirming event_id row user.uid now db₁,
      rw (found, assigned, at, ready, still) refl,
      record {
        step = rw at confirms;
        e' = f e;
        status =
            find_event-changed event_id (λ x. is_planning x.status) f (λ x. refl) db.events e found
              planning;
        to_status = refl;
        same_limit = refl;
        other_events = λ k ne.
            find_event-other event_id (λ x. is_planning x.status) f (λ x. refl) db.events k ne;
        history = rw at refl;
      },
      refl,
    )

-- When the assigned coordinator completes a Confirmed event that has ended, the call succeeds:
-- the event becomes Completed with one history row, other events, its limit and all registrations
-- stay.
pub complete_lem :
    (user : AuthenticatedUser) (event_id now : ℕ) (db : Db) (e : Event)
    → find_event event_id db.events ≡ some e
    → some_eq e.coordinator_id user.uid ≡ true
    → is_confirmed_event e.status ≡ true
    → has_event_ended e.end_date_time now ≡ true
    → (view : StatusView) × (db' : Db) × (complete user event_id now db ≡ done view db')
      × Moved event_id e EventStatus.completed user.uid now db db'
      × (db'.registrations ≡ db.registrations)
unfolding complete compare_and_move
complete_lem user event_id now db e found assigned confirmed ended =
    let f = move_to EventStatus.completed now in
    let (row, still) =
      find_by-returning event_id (λ x. is_confirmed_event x.status) f (λ x. refl) db.events e found
        confirmed in
    let at : e.status ≡ EventStatus.confirmed = is_confirmed_iff e.status confirmed in
    let db₁ : Db = (compare_and_move is_confirmed_event EventStatus.completed event_id now db).1 in
    (
      record {
        event_id = event_id;
        status = EventStatus.completed;
        message = Message.event_has_been_completed row.event_name;
      },
      add_history event_id EventStatus.confirmed EventStatus.completed user.uid now db₁,
      rw (found, assigned, confirmed, ended, still) refl,
      record {
        step = rw at completes;
        e' = f e;
        status =
            find_event-changed event_id (λ x. is_confirmed_event x.status) f (λ x. refl) db.events e
              found confirmed;
        to_status = refl;
        same_limit = refl;
        other_events = λ k ne.
            find_event-other event_id (λ x. is_confirmed_event x.status) f (λ x. refl) db.events k
              ne;
        history = rw at refl;
      },
      refl,
    )
