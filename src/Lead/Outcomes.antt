-- ===== src/Lead/Outcomes.antt =====
-- What an assignment and a reassignment do (backend/src/lead/lead-assignment.service.ts).
use is212_g5_t.Base.{
  ℕ, ◌≡◌, ◌≢◌, refl, ap, ◌∙◌, ◌⊎◌, inl, inr, true, false, not, ◌==◌, Option, none, some, any,
  is_some, update_where, arith, find_by-Has, Has,
}
use is212_g5_t.Schema.{
  Event, EventStatus, Account, Db, AuthenticatedUser, RouteId, uuid, malformed, is_lead,
  is_coordinator, Refusal, find_event,
}
use is212_g5_t.Schema.Events.{find_event-set_self, find_event-set_other}
use is212_g5_t.Transaction.{done, throw_if, ◌>>◌, return}
use is212_g5_t.Transaction.Inverting.{
  transaction_cases, bind_done, require_then_done, throw_if_then_done,
}
use is212_g5_t.Notices.{insert_notice, is_pending_change, is_pending_cancellation}
use is212_g5_t.Notices.Telling.{
  told, tells, is_assignment, is_change_request, is_cancellation_request, Told, tell_pending-Told,
}
use is212_g5_t.Lead
use is212_g5_t.Lead.{assignment_notice}

-- The event is the coordinator's, who has a notice of each pending request; all else that the
-- registrations and statuses depend on stays.
pub record Given (event_id : ℕ) (event : Event) (coordinator : Account) (sql_now : ℕ) (db db' : Db)
    : Type 0 where
  pub given :
      find_event event_id db'.events
      ≡ some (record event {
        coordinator_id = some coordinator.id;
        coordinator_name = some coordinator.display_name;
        updated_at = sql_now;
      })
  pub other_events : (k : ℕ) → k ≢ event_id → find_event k db'.events ≡ find_event k db.events
  pub registrations : db'.registrations ≡ db.registrations
  pub told_change :
      any (is_pending_change event_id) db.change_requests ≡ true
      → told coordinator.id event_id is_change_request db' ≡ true
  pub told_cancellation :
      any (is_pending_cancellation event_id) db.cancellation_requests ≡ true
      → told coordinator.id event_id is_cancellation_request db' ≡ true

-- The chosen account may take the event.
pub record Chosen (coordinator : Account) (db : Db) : Type 0 where
  pub listed : Has coordinator db.users
  pub coordinates : any is_coordinator coordinator.roles ≡ true
  pub leads_not : any is_lead coordinator.roles ≡ false
  pub active : coordinator.is_active ≡ true
  pub available : coordinator.is_available ≡ true

pub require_lead_done :
    (identity : Option AuthenticatedUser) (db : Db) (user : AuthenticatedUser) (db' : Db)
    → Lead.require_lead identity db ≡ done user db'
    → (identity ≡ some user)
      × (any is_lead user.roles ≡ true)
      × (any is_coordinator user.roles ≡ false)
      × (db' ≡ db)
unfolding Lead.require_lead
require_lead_done none db user db' run = absurd (ground arith)
require_lead_done (some u) db user db' run =
    let (led, r₁) =
      throw_if_then_done db user db' (not (any is_lead u.roles)) Refusal.lead_only
        (throw_if (any is_coordinator u.roles) Refusal.lead_is_coordinator >> return u) run in
    let (pure_lead, r₂) =
      throw_if_then_done db user db' (any is_coordinator u.roles) Refusal.lead_is_coordinator
        (return u) r₁ in
    ground arith

request_id_done :
    (id : RouteId) (db : Db) (event_id : ℕ) (db' : Db)
    → Lead.require_request_id id db ≡ done event_id db'
    → db' ≡ db
request_id_done (uuid id) db event_id db' run = ground arith
request_id_done malformed db event_id db' run = absurd (ground arith)

pub parse_done :
    (body : Option RouteId) (db : Db) (id : ℕ) (db' : Db)
    → Lead.parse_coordinator_id body db ≡ done id db'
    → db' ≡ db
unfolding Lead.parse_coordinator_id
parse_done none db id db' run = absurd (ground arith)
parse_done (some (uuid i)) db id db' run = ground arith
parse_done (some malformed) db id db' run = absurd (ground arith)

pub available_coordinator_done :
    (id : ℕ) (db : Db) (u : Account) (db' : Db)
    → Lead.available_coordinator id db ≡ done u db'
    → Chosen u db × (u.id ≡ id) × (db' ≡ db)
unfolding Lead.available_coordinator
available_coordinator_done id db u db' run =
    let (a, found, r₁) = require_then_done db u db' _ Refusal.invalid_coordinator _ run in
    let (free, r₂) =
      throw_if_then_done db u db' (not a.is_available) Refusal.coordinator_unavailable (return a)
        r₁ in
    let (m, t) = find_by-Has (Lead.is_assignable id) db.users a found in
    let same : a ≡ u = ground arith in
    let named : u.id ≡ id = ground arith in
    (
      record {
        listed = rw same at m;
        coordinates = ground arith;
        leads_not = ground arith;
        active = ground arith;
        available = ground arith;
      },
      named,
      ground arith,
    )

module _ (event_id : ℕ) (event : Event) (coordinator : Account) (sql_now : ℕ) (db d : Db)
    (found : find_event event_id db.events ≡ some event)
    (events : d.events ≡ (Lead.set_coordinator event_id coordinator sql_now db).events)
    (registrations : d.registrations ≡ db.registrations)
    (changes : d.change_requests ≡ db.change_requests)
    (cancellations : d.cancellation_requests ≡ db.cancellation_requests) where
  -- Telling the coordinator after the update of the row.
  pub Told-Given :
      (db' : Db)
      → Told event_id coordinator.id d db'
      → Given event_id event coordinator sql_now db db'
  unfolding Lead.set_coordinator
  Told-Given db' t =
      let give = Lead.give_to coordinator sql_now in
      let same : db'.events ≡ update_where (λ e. e.id == event_id) give db.events =
        t.events ∙ events in
      record {
        given =
            ap (find_event event_id) same
            ∙ find_event-set_self event_id give (λ x. refl) db.events event found;
        other_events = λ k ne.
            ap (find_event k) same ∙ find_event-set_other event_id give (λ x. refl) k db.events ne;
        registrations = t.registrations ∙ registrations;
        told_change = λ h. t.change (rw changes h);
        told_cancellation = λ h. t.cancellation (rw cancellations h);
      }

-- An unassigned submitted event that the Lead has given to a coordinator.
pub record Assigned (lead : AuthenticatedUser) (event_id sql_now : ℕ) (db db' : Db) : Type 0 where
  pub led : any is_lead lead.roles ≡ true
  pub pure_lead : any is_coordinator lead.roles ≡ false
  pub event : Event
  pub coordinator : Account
  pub found : find_event event_id db.events ≡ some event
  pub free : event.coordinator_id ≡ none
  pub submitted : event.status ≡ EventStatus.submitted
  pub chosen : Chosen coordinator db
  pub given : Given event_id event coordinator sql_now db db'
  pub told_assignment : told coordinator.id event_id is_assignment db' ≡ true

is_some-none : {A : Type 0} (o : Option A) → is_some o ≡ false → o ≡ none
is_some-none none h = refl
is_some-none (some a) h = absurd (ground arith)

module _ (lead : AuthenticatedUser) (event_id coordinator_id sql_now : ℕ) (db : Db)
    (led : any is_lead lead.roles ≡ true) (pure_lead : any is_coordinator lead.roles ≡ false) where
  assign_for_done :
      (view : Lead.AssignmentView) (db' : Db)
      → Lead.assign_for event_id coordinator_id sql_now db ≡ done view db'
      → Assigned lead event_id sql_now db db'
  unfolding Lead.assign_for Lead.store_assignment Lead.set_coordinator
  assign_for_done view db' run =
      let (event, found, r₁) =
        require_then_done db view db' (find_event event_id db.events) Refusal.request_not_found _
          run in
      let (free, r₂) =
        throw_if_then_done db view db' (is_some event.coordinator_id) Refusal.already_assigned _
          r₁ in
      let (submitted, r₃) =
        throw_if_then_done db view db' (not (Lead.is_submitted event.status))
          Refusal.not_awaiting_assignment _ r₂ in
      let (coordinator, d, got, r₄) =
        bind_done (Lead.available_coordinator coordinator_id) db view db' _ r₃ in
      let (chosen, named, same) = available_coordinator_done coordinator_id db coordinator d got in
      let ends : db' ≡ Lead.store_assignment event event_id coordinator sql_now db = ground arith in
      let n = assignment_notice event event_id coordinator in
      let d₁ : Db = insert_notice n (Lead.set_coordinator event_id coordinator sql_now db) in
      let t = tell_pending-Told event_id event.event_name coordinator.id d₁ in
      rw ends record {
        led = led;
        pure_lead = pure_lead;
        event = event;
        coordinator = coordinator;
        found = found;
        free = is_some-none event.coordinator_id free;
        submitted = ground arith;
        chosen = chosen;
        given = Told-Given event_id event coordinator sql_now db d₁ found refl refl refl refl _ t;
        told_assignment = t.keeps (tells coordinator.id event_id is_assignment) (ground arith);
      }

-- An assignment changes nothing, or the caller is a Lead who is no coordinator, and a submitted event
-- that had no coordinator goes to an active and available account with the coordinator's role and
-- not the Lead's: they have a notice of the assignment and of each request that waits, and no other
-- event, no status and no registration changes.
pub assign_cases :
    (identity : Option AuthenticatedUser) (id : RouteId) (body : Option RouteId) (sql_now : ℕ)
    (db : Db)
    → let db' = (Lead.assign identity id body sql_now db).1 in
      (db' ≡ db)
      ⊎ ((lead : AuthenticatedUser) × (event_id : ℕ) × (identity ≡ some lead)
          × Assigned lead event_id sql_now db db')
unfolding Lead.assign Lead.assign_work
assign_cases identity id body sql_now db =
    elim (transaction_cases (Lead.assign_work identity id body sql_now) db) [
      | inl same ↦ inl same
      | inr (view, db', run, at) ↦
          let (lead, d₁, led, r₁) = bind_done (Lead.require_lead identity) db view db' _ run in
          let (event_id, d₂, named, r₂) = bind_done (Lead.require_request_id id) d₁ view db' _ r₁ in
          let (coordinator_id, d₃, parsed, r₃) =
            bind_done (Lead.parse_coordinator_id body) d₂ view db' _ r₂ in
          let (known, is_led, pure_lead, same₁) = require_lead_done identity db lead d₁ led in
          let same : d₃ ≡ db =
            parse_done body d₂ coordinator_id d₃ parsed
            ∙ request_id_done id d₁ event_id d₂ named
            ∙ same₁ in
          inr (
            lead,
            event_id,
            known,
            rw at (
                assign_for_done lead event_id coordinator_id sql_now db is_led pure_lead view db'
                  (rw same at r₃)),
          )
    ]
