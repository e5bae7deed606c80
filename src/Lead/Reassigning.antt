-- ===== src/Lead/Reassigning.antt =====
-- What a reassignment does (backend/src/lead/lead-assignment.service.ts).
use is212_g5_t.Base.{
  ℕ, ◌≡◌, ◌≢◌, refl, sym, ◌∙◌, ◌&&◌, any-update_where_all, ◌⊎◌, inl, inr, Bool, true, false, not,
  ◌==◌, Option, some, List, [], ◌∷◌, Has, Has-any, ==_iff, Bool-cases, any, some_eq, update_where,
  arith,
}
use is212_g5_t.Schema.{
  Event, EventStatus, Account, Notification, NotificationType, Db, AuthenticatedUser, RouteId, uuid,
  malformed, is_lead, is_coordinator, Refusal, find_event,
}
use is212_g5_t.Transaction.{done}
use is212_g5_t.Transaction.Inverting.{
  transaction_cases, bind_done, require_then_done, throw_if_then_done,
}
use is212_g5_t.Notices.Telling.{told, tells, tell_pending-Told}
use is212_g5_t.Lead
use is212_g5_t.Lead.{reassignment_notice, unassignment_notice}
use is212_g5_t.Lead.Outcomes.{
  Given, Chosen, require_lead_done, parse_done, available_coordinator_done, Told-Given,
}

abbrev pub is_reassignment : NotificationType → Bool
is_reassignment NotificationType.coordinator_reassignment = true
is_reassignment _ = false

abbrev pub is_unassignment : NotificationType → Bool
is_unassignment NotificationType.coordinator_unassignment = true
is_unassignment _ = false

-- An active event that the Lead has moved from one coordinator to another.
pub record Reassigned (lead : AuthenticatedUser) (event_id sql_now : ℕ) (db db' : Db) : Type 0 where
  pub led : any is_lead lead.roles ≡ true
  pub pure_lead : any is_coordinator lead.roles ≡ false
  pub event : Event
  pub old : ℕ
  pub coordinator : Account
  pub found : find_event event_id db.events ≡ some event
  pub owner : event.coordinator_id ≡ some old
  pub active : Has event.status (
      EventStatus.submitted
      ∷ (EventStatus.approved ∷ (EventStatus.planning ∷ (EventStatus.confirmed ∷ []))))
  pub other : coordinator.id ≢ old
  pub chosen : Chosen coordinator db
  pub given : Given event_id event coordinator sql_now db db'
  pub recorded :
      db'.reassignments
      ≡ record {
        event_id = event_id;
        from_coordinator_id = old;
        from_coordinator_name = event.coordinator_name;
        to_coordinator_id = coordinator.id;
        to_coordinator_name = coordinator.display_name;
        reassigned_by = lead.uid;
      }
        ∷ db.reassignments
  pub told_new : told coordinator.id event_id is_reassignment db' ≡ true
  pub told_old : told old event_id is_unassignment db' ≡ true
  pub cleared :
      (n : Notification)
      → Has n db'.notifications
      → n.recipient_id ≡ old
      → n.related_event_id ≡ event_id
      → Lead.is_ownership_notice n.type ≡ true
      → n.read ≡ true

is_active_workload-Has :
    (s : EventStatus)
    → Lead.is_active_workload s ≡ true
    → Has s (
        EventStatus.submitted
        ∷ (EventStatus.approved ∷ (EventStatus.planning ∷ (EventStatus.confirmed ∷ []))))
is_active_workload-Has EventStatus.submitted h = inl refl
is_active_workload-Has EventStatus.approved h = inr (inl refl)
is_active_workload-Has EventStatus.planning h = inr (inr (inl refl))
is_active_workload-Has EventStatus.confirmed h = inr (inr (inr (inl refl)))
is_active_workload-Has EventStatus.rejected h = absurd (ground arith)
is_active_workload-Has EventStatus.completed h = absurd (ground arith)
is_active_workload-Has EventStatus.cancelled h = absurd (ground arith)

-- Where no notice is stale, one of that kind to that recipient has been read.
none_stale :
    (old event_id : ℕ) (ns : List Notification)
    → any (Lead.is_stale old event_id) ns ≡ false
    → (n : Notification) → Has n ns
    → n.recipient_id ≡ old
    → n.related_event_id ≡ event_id
    → Lead.is_ownership_notice n.type ≡ true
    → n.read ≡ true
none_stale old event_id ns h n m to about kind = elim (Bool-cases n.read) [
  | inl done_it ↦ done_it
  | inr unread ↦ absurd (
      ground (
        arith,
        h,
        Has-any (Lead.is_stale old event_id) ns n m (
            rw (to, about, kind, unread, (==_iff old old).1 refl, (==_iff event_id event_id).1 refl)
              refl),
      ))
]

read_is_fresh : (a b c : Bool) → (a && (b && (c && not true))) ≡ false
read_is_fresh a b c = ground arith

cleared_all :
    (old event_id : ℕ) (ns : List Notification)
    → any (Lead.is_stale old event_id) (update_where (Lead.is_stale old event_id) Lead.mark_read ns)
      ≡ false
cleared_all old event_id ns =
    any-update_where_all (Lead.is_stale old event_id) Lead.mark_read ns λ n.
      read_is_fresh (n.recipient_id == old) (n.related_event_id == event_id)
        (Lead.is_ownership_notice n.type)

-- The two notices leave no stale one: the first is not of that kind, the second not to the old
-- coordinator.
tell_both-fresh :
    (event : Event) (event_id old : ℕ) (coordinator : Account) (db : Db)
    → coordinator.id ≢ old
    → any (Lead.is_stale old event_id) db.notifications ≡ false
    → any
        (Lead.is_stale old event_id)
        (Lead.tell_both event event_id old coordinator db).notifications
      ≡ false
unfolding Lead.is_ownership_notice
tell_both-fresh event event_id old coordinator db other h = ground arith

other_recipient :
    (old event_id : ℕ) (n : Notification)
    → n.recipient_id ≢ old
    → Lead.is_stale old event_id n ≡ false
other_recipient old event_id n ne = ground arith

module _ (lead : AuthenticatedUser) (event_id coordinator_id : ℕ) (shown : Option ℕ) (sql_now : ℕ)
    (db : Db) (led : any is_lead lead.roles ≡ true)
    (pure_lead : any is_coordinator lead.roles ≡ false) where
  reassign_for_done :
      (view : Lead.AssignmentView) (db' : Db)
      → Lead.reassign_for lead.uid event_id coordinator_id shown sql_now db ≡ done view db'
      → Reassigned lead event_id sql_now db db'
  unfolding Lead.reassign_for Lead.store_reassignment Lead.set_coordinator Lead.clear_stale
  reassign_for_done view db' run =
      let (event, found, r₁) =
        require_then_done db view db' (find_event event_id db.events) Refusal.event_not_found _
          run in
      let (old, owner, r₂) =
        require_then_done db view db' event.coordinator_id Refusal.not_reassignable _ r₁ in
      let (active, r₃) =
        throw_if_then_done db view db' (not (Lead.is_active_workload event.status))
          Refusal.not_reassignable _ r₂ in
      let (current, r₄) =
        throw_if_then_done db view db' (not (some_eq shown old)) Refusal.stale_page _ r₃ in
      let (differs, r₅) =
        throw_if_then_done db view db' (old == coordinator_id) Refusal.same_coordinator _ r₄ in
      let (coordinator, d, got, r₆) =
        bind_done (Lead.available_coordinator coordinator_id) db view db' _ r₅ in
      let (chosen, named, same) = available_coordinator_done coordinator_id db coordinator d got in
      let other : coordinator.id ≢ old = λ h. ground arith in
      let ends : db' ≡ Lead.store_reassignment event event_id old coordinator lead.uid sql_now db =
        ground arith in
      let d₁ : Db = Lead.clear_stale old event_id (
        Lead.add_reassignment event event_id old coordinator lead.uid
          (Lead.set_coordinator event_id coordinator sql_now db)) in
      let d₂ : Db = Lead.tell_both event event_id old coordinator d₁ in
      let t = tell_pending-Told event_id event.event_name coordinator.id d₂ in
      rw ends record {
        led = led;
        pure_lead = pure_lead;
        event = event;
        old = old;
        coordinator = coordinator;
        found = found;
        owner = owner;
        active = is_active_workload-Has event.status (ground arith);
        other = other;
        chosen = chosen;
        given = Told-Given event_id event coordinator sql_now db d₂ found refl refl refl refl _ t;
        recorded = t.reassignments;
        told_new = t.keeps (tells coordinator.id event_id is_reassignment) (ground arith);
        told_old = t.keeps (tells old event_id is_unassignment) (ground arith);
        cleared = none_stale old event_id _ (
            t.fresh (Lead.is_stale old event_id)
              (λ n h. other_recipient old event_id n (λ k. other (sym h ∙ k)))
              (tell_both-fresh event event_id old coordinator d₁ other
                (cleared_all old event_id db.notifications)));
      }

event_id_done :
    (id : RouteId) (db : Db) (event_id : ℕ) (db' : Db)
    → Lead.require_event_id id db ≡ done event_id db'
    → db' ≡ db
event_id_done (uuid id) db event_id db' run = ground arith
event_id_done malformed db event_id db' run = absurd (ground arith)

-- A reassignment changes nothing, or the caller is a Lead who is no coordinator, and an active event
-- goes from its coordinator to another active and available one: one row records the move, both have
-- a notice, the old coordinator has no unread notice that says the event is theirs, the new one has
-- a notice of each request that waits, and no other event, no status and no registration changes.
pub reassign_cases :
    (identity : Option AuthenticatedUser) (id : RouteId) (body : Option RouteId) (shown : Option ℕ)
    (sql_now : ℕ) (db : Db)
    → let db' = (Lead.reassign identity id body shown sql_now db).1 in
      (db' ≡ db)
      ⊎ ((lead : AuthenticatedUser) × (event_id : ℕ) × (identity ≡ some lead)
          × Reassigned lead event_id sql_now db db')
unfolding Lead.reassign Lead.reassign_work
reassign_cases identity id body shown sql_now db =
    elim (transaction_cases (Lead.reassign_work identity id body shown sql_now) db) [
      | inl same ↦ inl same
      | inr (view, db', run, at) ↦
          let (lead, d₁, led, r₁) = bind_done (Lead.require_lead identity) db view db' _ run in
          let (event_id, d₂, named, r₂) = bind_done (Lead.require_event_id id) d₁ view db' _ r₁ in
          let (coordinator_id, d₃, parsed, r₃) =
            bind_done (Lead.parse_coordinator_id body) d₂ view db' _ r₂ in
          let (known, is_led, pure_lead, same₁) = require_lead_done identity db lead d₁ led in
          let same : d₃ ≡ db =
            parse_done body d₂ coordinator_id d₃ parsed
            ∙ event_id_done id d₁ event_id d₂ named
            ∙ same₁ in
          inr (
            lead,
            event_id,
            known,
            rw at (
                reassign_for_done lead event_id coordinator_id shown sql_now db is_led pure_lead
                  view db' (rw same at r₃)),
          )
    ]
