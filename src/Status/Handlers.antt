-- ===== src/Status/Handlers.antt =====
-- What the handlers of a status change can do (backend/src/events/status/status.service.ts).
use native.Mathlib.Decide.{ℕ_discrete}
use is212_g5_t.Base.{
  ℕ, ◌≤◌, ◌≡◌, refl, sym, ap, ◌∙◌, ◌⊎◌, inl, inr, true, false, some, arith, some_eq, Option-cases,
  Bool-cases,
}
use is212_g5_t.Schema.{Event, EventStatus, Db, AuthenticatedUser, Refusal, find_event}
use is212_g5_t.Transaction.{thrown, ◌>>◌}
use is212_g5_t.Transaction.Reading.{after}
use is212_g5_t.Registrations.Invariant.{Valid}
use is212_g5_t.Readiness.{evaluate_readiness}
use is212_g5_t.Cancel.{cancel_event}
use is212_g5_t.Cancel.Outcomes.{MayCancel}
use is212_g5_t.Status.{
  read_arrangements, has_event_ended, assert_source_status, is_planning, is_confirmed_event,
  confirm, complete,
}
use is212_g5_t.Status.Transitions.{cancels, is_planning_iff, Moved, confirm_lem, complete_lem}

-- A transition that the event's coordinator makes: a confirmation only of arrangements that are
-- ready, a completion only of an event that has ended.
pub record Changed (user : AuthenticatedUser) (now : ℕ) (db db' : Db) : Type 0 where
  pub event_id : ℕ
  pub event : Event
  pub to : EventStatus
  pub found : find_event event_id db.events ≡ some event
  pub assigned : some_eq event.coordinator_id user.uid ≡ true
  pub moved : Moved event_id event to user.uid now db db'
  pub ready :
      to ≡ EventStatus.confirmed
      → (evaluate_readiness (read_arrangements event_id db) now).ready ≡ true
  pub ended : to ≡ EventStatus.completed → event.end_date_time ≤ now

Moved-Valid :
    (event_id : ℕ) (e : Event) (to : EventStatus) (uid now : ℕ) (db db' : Db)
    → find_event event_id db.events ≡ some e
    → Moved event_id e to uid now db db'
    → db'.registrations ≡ db.registrations
    → Valid db
    → Valid db'
Moved-Valid event_id e to uid now db db' found m same v = record {
  ids = λ i. rw same (v.ids i);
  keys = λ k a. rw same (v.keys k a);
  capacity = λ k x f. let (y, g, limit) = back k x f in rw (same, limit) (v.capacity k y g);
  no_idle = λ k x f. let (y, g, limit) = back k x f in rw (same, limit) (v.no_idle k y g);
}
  where
    back :
        (k : ℕ) (x : Event)
        → find_event k db'.events ≡ some x
        → (y : Event) × (find_event k db.events ≡ some y)
          × (x.registration_limit ≡ y.registration_limit)
    back k x f = elim (ℕ_discrete k event_id) [
      | yes h ↦
          let at : find_event event_id db'.events ≡ some x =
            ap (λ j. find_event j db'.events) (sym h) ∙ f in
          let same_event : m.e' ≡ x = cc (m.status, at) in
          (
            e,
            ap (λ j. find_event j db.events) h ∙ found,
            ap (λ (z : Event). z.registration_limit) (sym same_event) ∙ m.same_limit,
          )
      | no h ↦ (x, sym (m.other_events k h) ∙ f, refl)
    ]

pub MayCancel-Changed :
    (user : AuthenticatedUser) (event_id now : ℕ) (db db' : Db)
    → MayCancel db db' user event_id now false
    → Changed user now db db'
MayCancel-Changed user event_id now db db' c = record {
  event_id = event_id;
  event = c.event;
  to = EventStatus.cancelled;
  found = c.found;
  assigned = let a = c.assigned in ground arith;
  moved = record {
    step = cancels c.event.status c.open_event;
    e' = cancel_event user.uid now c.event;
    status = c.outcome.status;
    to_status = refl;
    same_limit = refl;
    other_events = c.outcome.other_events;
    history = c.outcome.history;
  };
  ready = λ h. absurd (ground arith);
  ended = λ h. absurd (ground arith);
}

abbrev pub ChangedOrNot : AuthenticatedUser → ℕ → Db → Db → Type 0
ChangedOrNot user now db db' = (db' ≡ db) ⊎ (Changed user now db db' × (Valid db → Valid db'))

assert_source_status_refuses :
    (s : EventStatus)
    → is_planning s ≡ false
    → (db : Db) → (r : Refusal) × (assert_source_status s db ≡ thrown r)
unfolding assert_source_status
assert_source_status_refuses EventStatus.planning h db = absurd (ground arith)
assert_source_status_refuses EventStatus.confirmed h db = (Refusal.already_confirmed, refl)
assert_source_status_refuses EventStatus.submitted h db = (Refusal.not_confirmable, refl)
assert_source_status_refuses EventStatus.approved h db = (Refusal.not_confirmable, refl)
assert_source_status_refuses EventStatus.rejected h db = (Refusal.not_confirmable, refl)
assert_source_status_refuses EventStatus.completed h db = (Refusal.not_confirmable, refl)
assert_source_status_refuses EventStatus.cancelled h db = (Refusal.not_confirmable, refl)

pub confirm_cases :
    (user : AuthenticatedUser) (event_id now : ℕ) (db : Db)
    → ChangedOrNot user now db (after db (confirm user event_id now db))
confirm_cases user event_id now db = elim (Option-cases (find_event event_id db.events)) [
  | inl gone ↦ inl (unfold confirm in rw gone refl)
  | inr (e, found) ↦ elim (Bool-cases (some_eq e.coordinator_id user.uid)) [
    | inr other ↦ inl (unfold confirm in rw (found, other) refl)
    | inl assigned ↦ elim (Bool-cases (is_planning e.status)) [
      | inr other ↦
          let (r, thrown_by) = assert_source_status_refuses e.status other db in
          inl (unfold confirm in rw (found, assigned, ◌>>◌, thrown_by) refl)
      | inl planning ↦
          elim (Bool-cases (evaluate_readiness (read_arrangements event_id db) now).ready) [
            | inr blocked ↦ inl (
                unfold confirm assert_source_status in
                rw (found, assigned, is_planning_iff e.status planning, blocked) refl)
            | inl ready ↦
                let (view, db', run, m, same) =
                  confirm_lem user event_id now db e found assigned planning ready in
                inr (
                  record {
                    event_id = event_id;
                    event = e;
                    to = EventStatus.confirmed;
                    found = found;
                    assigned = assigned;
                    moved = rw run m;
                    ready = λ h. ready;
                    ended = λ h. absurd (ground arith);
                  },
                  Moved-Valid event_id e EventStatus.confirmed user.uid now db _ found (rw run m)
                      (rw run same),
                )
          ]
    ]
  ]
]

has_event_ended-le : (end now : ℕ) → has_event_ended end now ≡ true → end ≤ now
unfolding has_event_ended
has_event_ended-le end now h = ground arith

pub complete_cases :
    (user : AuthenticatedUser) (event_id now : ℕ) (db : Db)
    → ChangedOrNot user now db (after db (complete user event_id now db))
complete_cases user event_id now db = elim (Option-cases (find_event event_id db.events)) [
  | inl gone ↦ inl (unfold complete in rw gone refl)
  | inr (e, found) ↦ elim (Bool-cases (some_eq e.coordinator_id user.uid)) [
    | inr other ↦ inl (unfold complete in rw (found, other) refl)
    | inl assigned ↦ elim (Bool-cases (is_confirmed_event e.status)) [
      | inr other ↦ inl (unfold complete in rw (found, assigned, other) refl)
      | inl confirmed ↦ elim (Bool-cases (has_event_ended e.end_date_time now)) [
        | inr early ↦ inl (unfold complete in rw (found, assigned, confirmed, early) refl)
        | inl ended ↦
            let (view, db', run, m, same) =
              complete_lem user event_id now db e found assigned confirmed ended in
            inr (
              record {
                event_id = event_id;
                event = e;
                to = EventStatus.completed;
                found = found;
                assigned = assigned;
                moved = rw run m;
                ready = λ h. absurd (ground arith);
                ended = λ h. has_event_ended-le e.end_date_time now ended;
              },
              Moved-Valid event_id e EventStatus.completed user.uid now db _ found (rw run m)
                  (rw run same),
            )
      ]
    ]
  ]
]
