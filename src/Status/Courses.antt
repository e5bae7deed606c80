-- ===== src/Status/Courses.antt =====
-- What confirming that no equipment is needed, and resolving feedback, do to the events: no other limit
-- and no other status (backend/src/events/status/status.service.ts).
use is212_g5_t.Base.{
  ℕ, ◌≡◌, refl, inl, inr, Bool, not, ◌&&◌, ◌==◌, Option, none, some, arith, if◌then◌else◌, find_by,
}
use is212_g5_t.Schema.{Db, Event, AuthenticatedUser, RouteId, Refusal}
use is212_g5_t.Schema.Course.{Course, Course-kept, Course-same, update-Course}
use is212_g5_t.Transaction.{M, done, ◌>>=◌, transaction, writes, return}
use is212_g5_t.Transaction.Inverting.{
  transaction_cases, bind_done, require_then_done, throw_if_then_done,
}
use is212_g5_t.Checklist.{build_checklist}
use is212_g5_t.Status.{read_arrangements}
use is212_g5_t.Status.Planning.{
  planning_event, planning_row, confirm_no_equipment_for, confirm_no_equipment, store_confirmation,
  set_confirmed, set_feedback_resolution_for, set_feedback_resolution, resolve_item, check_of,
  feedback_can_be_resolved, planning_input, is_not_requested, names_item,
}
use is212_g5_t.Status.SafetyRequest.{planning_event_cases, planning_row_cases}

store_confirmation-Course :
    (event_id : ℕ) (confirmed : Option ℕ) (now : ℕ) (db : Db)
    → Course db (store_confirmation event_id confirmed now db).1
store_confirmation-Course event_id (some at) now db = Course-same db
store_confirmation-Course event_id none now db =
    update-Course (λ e. e.id == event_id) (set_confirmed now) db (λ e. refl) (λ e. refl)
      (λ e h. inl refl)

planning_event_done :
    (identity : Option AuthenticatedUser) (id : RouteId) (db : Db) (p : AuthenticatedUser × Event)
    (d : Db)
    → planning_event identity id db ≡ done p d
    → d ≡ db
planning_event_done identity id db p d run = elim (planning_event_cases identity id db) [
  | inl (user, event, ran, known) ↦ ground arith
  | inr (r, stopped) ↦ absurd (ground arith)
]

planning_row_done :
    (user : AuthenticatedUser) (event_id : ℕ) (db : Db) (row : Event) (d : Db)
    → planning_row user event_id db ≡ done row d
    → d ≡ db
planning_row_done user event_id db row d run = elim (planning_row_cases user event_id db) [
  | inl (r, ran, found, assigned, planned) ↦ ground arith
  | inr (r, stopped) ↦ absurd (ground arith)
]

-- A transaction that starts from a planned event.
planned-Course :
    {A : Type 0} (identity : Option AuthenticatedUser) (id : RouteId)
    (work : AuthenticatedUser × Event → M A) (db : Db)
    → ((p : AuthenticatedUser × Event) (a : A) (db' : Db) → work p db ≡ done a db' → Course db db')
    → Course db (transaction (planning_event identity id >>= work) db).1
planned-Course identity id work db h =
    elim (transaction_cases (planning_event identity id >>= work) db) [
      | inl same ↦ rw same (Course-same db)
      | inr (a, db', run, at) ↦
          let (p, d, ran, rest) = bind_done (planning_event identity id) db a db' work run in
          let same = planning_event_done identity id db p d ran in
          rw at (h p a db' (rw same at rest))
    ]

pub confirm_no_equipment-Course :
    (identity : Option AuthenticatedUser) (id : RouteId) (now : ℕ) (db : Db)
    → Course db (confirm_no_equipment identity id now db).1
unfolding confirm_no_equipment confirm_no_equipment_for
confirm_no_equipment-Course identity id now db = planned-Course identity id _ db λ p a db' run.
    let (row, d, ran, r₁) = bind_done (planning_row p.0 p.1.id) db a db' _ run in
    let same = planning_row_done p.0 p.1.id db row d ran in
    let list = build_checklist (planning_input row (read_arrangements p.1.id db) now) in
    let (allowed, r₂) =
      throw_if_then_done db a db'
        (not (not list.equipment_required && is_not_requested list.equipment_section.status))
        Refusal.equipment_required
        (writes (store_confirmation p.1.id row.equipment_confirmed_at now)) (rw same at r₁) in
    let ends : db' ≡ (store_confirmation p.1.id row.equipment_confirmed_at now db).1 =
      ground arith in
    rw ends (store_confirmation-Course p.1.id row.equipment_confirmed_at now db)

pub set_feedback_resolution-Course :
    (identity : Option AuthenticatedUser) (id : RouteId) (feedback_id : ℕ) (resolved : Bool)
    (now : ℕ) (db : Db)
    → Course db (set_feedback_resolution identity id feedback_id resolved now db).1
unfolding set_feedback_resolution set_feedback_resolution_for
set_feedback_resolution-Course identity id feedback_id resolved now db =
    planned-Course identity id _ db λ p a db' run.
      let (allowed, r₁) =
        throw_if_then_done db a db' (not (feedback_can_be_resolved (check_of p.1.id db)))
          Refusal.safety_check_not_requestable _ run in
      let d : Db = (resolve_item feedback_id p.1.id (if resolved then some now else none) db).1 in
      let (row, found, r₂) =
        require_then_done d a db' (find_by (names_item feedback_id p.1.id) db.feedback_items)
          Refusal.feedback_not_found (λ row. return (if resolved then some now else none)) r₁ in
      let ends : db' ≡ d = ground arith in rw ends (Course-kept db d refl refl)
