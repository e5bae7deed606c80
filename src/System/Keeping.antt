-- ===== src/System/Keeping.antt =====
-- What the Lead's calls and the cancellation requests keep (backend/src/lead,
-- backend/src/events/cancellation-requests).
use native.Mathlib.Decide.{ℕ_discrete}
use is212_g5_t.Base.{ℕ, ◌≡◌, refl, sym, ap, ◌∙◌, subst, ◌⊎◌, inl, inr, Bool, true, some, Option}
use is212_g5_t.Schema.{Event, EventStatus, Account, Db, AuthenticatedUser, RouteId, find_event}
use is212_g5_t.Schema.Course.{Course, Altered, StartsAtMost}
use is212_g5_t.Registrations.Invariant.{Valid}
use is212_g5_t.Lead
use is212_g5_t.Lead.Outcomes.{Given, assign_cases}
use is212_g5_t.Lead.Reassigning.{reassign_cases}
use is212_g5_t.Notices.{accept, decline, Decision, notify_cancellation_outcome}
use is212_g5_t.Cancel.{is_cancellable, cancel_event}
use is212_g5_t.Cancel.Outcomes.{Cancelled}
use is212_g5_t.Cancel.Requests.{Cancelled-Valid}
use is212_g5_t.CancellationRequests.{CreateBody, DecisionBody, create, decide}
use is212_g5_t.CancellationRequests.Outcomes.{create_cases}
use is212_g5_t.CancellationRequests.Deciding.{Carried, decided_db, decide_cases}
use is212_g5_t.Status.Transitions.{Step}
use is212_g5_t.System.Lifecycle.{
  here, later, endpoint, plans, Reaches, Onward, Onward-kept, Onward-same,
}

-- Events and registrations that stay keep the tables valid.
pub kept-Valid :
    (db db' : Db)
    → db'.events ≡ db.events
    → db'.registrations ≡ db.registrations
    → Valid db
    → Valid db'
kept-Valid db db' events rows v = record {
  ids = λ i. rw rows (v.ids i);
  keys = λ k a. rw rows (v.keys k a);
  capacity = λ k e f. rw rows (v.capacity k e (sym (ap (find_event k) events) ∙ f));
  no_idle = λ k e f. rw rows (v.no_idle k e (sym (ap (find_event k) events) ∙ f));
}

-- Limits and registrations that stay keep the tables valid.
pub Course-Valid : (db db' : Db) → Course db db' → Valid db → Valid db'
Course-Valid db db' c v = record {
  ids = λ i. rw c.registrations (v.ids i);
  keys = λ k a. rw c.registrations (v.keys k a);
  capacity = λ k e f.
      let (old, at, same) = limit k e f (c.events k) in
      rw (c.registrations, same) (v.capacity k old at);
  no_idle = λ k e f.
      let (old, at, same) = limit k e f (c.events k) in
      rw (c.registrations, same) (v.no_idle k old at);
}
  where
    limit :
        (k : ℕ) (e : Event)
        → find_event k db'.events ≡ some e
        → (find_event k db'.events ≡ find_event k db.events) ⊎ Altered k db db'
        → (old : Event) × (find_event k db.events ≡ some old)
          × (e.registration_limit ≡ old.registration_limit)
    limit k e f (inl same) = (e, sym same ∙ f, refl)
    limit k e f (inr a) =
        let is_new : e ≡ a.new = cc (f, a.after) in
        (a.old, a.before, ap (λ x. x.registration_limit) is_new ∙ a.same_limit)

starts-Reaches : (s t : EventStatus) → StartsAtMost s t → Reaches s t
starts-Reaches s t (inl e) = rw e (here s)
starts-Reaches s t (inr (a, p)) =
    rw (a, p)
      (later EventStatus.approved EventStatus.planning EventStatus.planning plans
        (here EventStatus.planning))

pub Course-Onward : (db db' : Db) → Course db db' → Onward db db'
Course-Onward db db' c k e found = on (c.events k)
  where
    on :
        (find_event k db'.events ≡ find_event k db.events) ⊎ Altered k db db'
        → (e' : Event) × (find_event k db'.events ≡ some e') × Reaches e.status e'.status
    on (inl same) = (e, same ∙ found, here e.status)
    on (inr a) =
        let is_old : a.old ≡ e = cc (found, a.before) in
        (
          a.new,
          a.after,
          starts-Reaches e.status a.new.status
              (subst (λ x. StartsAtMost x.status a.new.status) is_old a.starts),
        )

module _ (event_id : ℕ) (event : Event) (coordinator : Account) (sql_now : ℕ) (db db' : Db)
    (found : find_event event_id db.events ≡ some event)
    (g : Given event_id event coordinator sql_now db db') where
  -- Each event afterwards was there before, with the same limit.
  before :
      (k : ℕ) (e : Event)
      → find_event k db'.events ≡ some e
      → (old : Event) × (find_event k db.events ≡ some old)
        × (e.registration_limit ≡ old.registration_limit)
  before k e f = elim (ℕ_discrete k event_id) [
    | yes h ↦
        let at : find_event event_id db'.events ≡ some e = rw (sym h) f in
        (event, rw h found, cc (at, g.given))
    | no ne ↦ (e, sym (g.other_events k ne) ∙ f, refl)
  ]

  Given-Valid : Valid db → Valid db'
  Given-Valid v = record {
    ids = λ i. rw g.registrations (v.ids i);
    keys = λ k a. rw g.registrations (v.keys k a);
    capacity = λ k e f.
        let (old, at, same) = before k e f in rw (g.registrations, same) (v.capacity k old at);
    no_idle = λ k e f.
        let (old, at, same) = before k e f in rw (g.registrations, same) (v.no_idle k old at);
  }

  Given-Onward : Onward db db'
  Given-Onward k e f = elim (ℕ_discrete k event_id) [
    | yes h ↦
        let same : event ≡ e = cc (found, f, ap (λ j. find_event j db.events) h) in
        (
          Lead.give_to coordinator sql_now event,
          ap (λ j. find_event j db'.events) h ∙ g.given,
          rw same (here e.status),
        )
    | no ne ↦ (e, g.other_events k ne ∙ f, here e.status)
  ]

Cancelled-Onward :
    (event_id : ℕ) (event : Event) (uid now : ℕ) (skip : Bool) (db db' : Db)
    → find_event event_id db.events ≡ some event
    → is_cancellable event.status ≡ true
    → Cancelled event_id event uid now skip db db'
    → Onward db db'
Cancelled-Onward event_id event uid now skip db db' found open_event c k e f =
    elim (ℕ_discrete k event_id) [
      | yes h ↦
          let same : event ≡ e = cc (found, f, ap (λ j. find_event j db.events) h) in
          (
            cancel_event uid now event,
            ap (λ j. find_event j db'.events) h ∙ c.status,
            rw (sym same) (
                later event.status EventStatus.cancelled EventStatus.cancelled
                  (endpoint event.status EventStatus.cancelled
                    (Step.cancels event.status open_event))
                  (here EventStatus.cancelled)),
          )
      | no ne ↦ (e, c.other_events k ne ∙ f, here e.status)
    ]

-- Both facts of a call.
abbrev pub Keeps : Db → Db → Type 0
Keeps db db' = (Valid db → Valid db') × Onward db db'

pub same-Keeps : (db db' : Db) → db' ≡ db → Keeps db db'
same-Keeps db db' same = (λ v. rw same v, rw same (Onward-same db))

pub kept-Keeps :
    (db db' : Db) → db'.events ≡ db.events → db'.registrations ≡ db.registrations → Keeps db db'
kept-Keeps db db' events rows = (kept-Valid db db' events rows, Onward-kept db db' events)

pub assign-Keeps :
    (identity : Option AuthenticatedUser) (id : RouteId) (body : Option RouteId) (sql_now : ℕ)
    (db : Db)
    → Keeps db (Lead.assign identity id body sql_now db).1
assign-Keeps identity id body sql_now db = elim (assign_cases identity id body sql_now db) [
  | inl same ↦ same-Keeps db _ same
  | inr (lead, event_id, known, a) ↦ (
    Given-Valid event_id a.event a.coordinator sql_now db _ a.found a.given,
    Given-Onward event_id a.event a.coordinator sql_now db _ a.found a.given,
  )
]

pub reassign-Keeps :
    (identity : Option AuthenticatedUser) (id : RouteId) (body : Option RouteId) (shown : Option ℕ)
    (sql_now : ℕ) (db : Db)
    → Keeps db (Lead.reassign identity id body shown sql_now db).1
reassign-Keeps identity id body shown sql_now db =
    elim (reassign_cases identity id body shown sql_now db) [
      | inl same ↦ same-Keeps db _ same
      | inr (lead, event_id, known, a) ↦ (
        Given-Valid event_id a.event a.coordinator sql_now db _ a.found a.given,
        Given-Onward event_id a.event a.coordinator sql_now db _ a.found a.given,
      )
    ]

pub create-Keeps :
    (identity : Option AuthenticatedUser) (id : RouteId) (body : CreateBody) (now new_id : ℕ)
    (db : Db)
    → Keeps db (create identity id body now new_id db).1
create-Keeps identity id body now new_id db = elim (create_cases identity id body now new_id db) [
  | inl same ↦ same-Keeps db _ same
  | inr (user, event_id, known, c) ↦ kept-Keeps db _ c.events c.registrations
]

Carried-Keeps :
    (decision : Decision) (user : AuthenticatedUser) (event_id : ℕ) (event : Event) (now : ℕ)
    (db db' : Db)
    → find_event event_id db.events ≡ some event
    → is_cancellable event.status ≡ true
    → Carried decision user event_id event now db db'
    → Keeps db db'
unfolding notify_cancellation_outcome
Carried-Keeps decline user event_id event now db db' found open_event (events, rows) =
    kept-Keeps db db' events rows
Carried-Keeps accept user event_id event now db db' found open_event (d, c, ends) = (
  λ v. rw ends (
      kept-Valid d
        (notify_cancellation_outcome event_id event.event_name event.organiser_id accept now d) refl
        refl (Cancelled-Valid event_id event user.uid now true db d v c)),
  rw ends (Cancelled-Onward event_id event user.uid now true db d found open_event c),
)

pub decide-Keeps :
    (identity : Option AuthenticatedUser) (id : RouteId) (body : DecisionBody) (now : ℕ) (db : Db)
    → Keeps db (decide identity id body now db).1
decide-Keeps identity id body now db = elim (decide_cases identity id body now db) [
  | inl same ↦ same-Keeps db _ same
  | inr (user, request_id, known, c) ↦
      let d = decided_db request_id c.decision user now db in
      let (valid, onward) =
        Carried-Keeps c.decision user c.request.event_id c.event now d _ c.found c.open_event
          c.carried in
      (λ v. valid (kept-Valid db d refl refl v), onward)
]
