-- ===== src/Status/Endpoint.antt =====
-- What a status-change request can do (backend/src/events/status/status.service.ts).
use is212_g5_t.Base.{ℕ, ◌≡◌, refl, ◌⊎◌, inl, inr, false, Option, some, Option-cases, Bool-cases}
use is212_g5_t.Schema.{Event, Db, AuthenticatedUser, RouteId, Refusal}
use is212_g5_t.Transaction.{require, ◌>>=◌}
use is212_g5_t.Transaction.Reading.{
  Reads, after, transaction-after, reads_then, require-Reads, require_found,
}
use is212_g5_t.Registrations.Invariant.{Valid}
use is212_g5_t.Cancel.{Confirmation, cancel_work}
use is212_g5_t.Cancel.Requests.{cancel_work_cases, Cancelled-Valid}
use is212_g5_t.Status.{
  Target, to_cancelled, to_completed, to_confirmed, unsupported, is_assigned, id_of, found_by,
  assigned_event_or_throw, move, change_work, change_status,
}
use is212_g5_t.Status.Handlers.{
  Changed, ChangedOrNot, MayCancel-Changed, confirm_cases, complete_cases,
}

pub assigned_event_or_throw-Reads :
    (user : AuthenticatedUser) (id : RouteId) (db : Db)
    → Reads db (assigned_event_or_throw user id db)
unfolding assigned_event_or_throw
assigned_event_or_throw-Reads user id db = elim (Option-cases (found_by (id_of id) db.events)) [
  | inl gone ↦ inr (Refusal.event_not_found, rw gone refl)
  | inr (e, found) ↦ elim (Bool-cases (is_assigned user e)) [
    | inl assigned ↦ inl (e, rw (found, assigned) refl)
    | inr other ↦ inr (Refusal.not_assigned, rw (found, other) refl)
  ]
]

move_cases :
    (target : Target) (user : AuthenticatedUser) (event : Event) (now : ℕ) (db : Db)
    → ChangedOrNot user now db (after db (move target user event now db))
move_cases to_cancelled user event now db = inl refl
move_cases unsupported user event now db = inl refl
move_cases to_completed user event now db = complete_cases user event.id now db
move_cases to_confirmed user event now db = confirm_cases user event.id now db

change_status-Valid_cases :
    (identity : Option AuthenticatedUser) (id : RouteId) (target : Target) (body : Confirmation)
    (now : ℕ) (db : Db)
    → let db' = (change_status identity id target body now db).1 in
      (db' ≡ db)
      ⊎ ((user : AuthenticatedUser) × (identity ≡ some user)
          × Changed user now db db'
          × (Valid db → Valid db'))
unfolding change_status
change_status-Valid_cases identity id target body now db =
    rw (transaction-after (change_work identity id target body now) db) (by_target target)
  where
    P : Db → Type 0
    P db' =
        (db' ≡ db)
        ⊎ ((user : AuthenticatedUser) × (identity ≡ some user)
            × Changed user now db db'
            × (Valid db → Valid db'))

    moved :
        (target : Target)
        → P (
            after db (
              (require identity Refusal.authentication_required >>= λ user.
              assigned_event_or_throw user id >>= λ event. move target user event now)
                db))
    moved target =
        reads_then P (require identity Refusal.authentication_required) db _ (inl refl)
          (require-Reads identity Refusal.authentication_required db)
          λ user known.
            reads_then P (assigned_event_or_throw user id) db _ (inl refl)
              (assigned_event_or_throw-Reads user id db)
              λ event _. elim (move_cases target user event now db) [
                | inl same ↦ inl same
                | inr (changed, valid) ↦
                    inr (user, require_found identity _ user db known, changed, valid)
              ]

    cancelled : P (after db (cancel_work identity id body now db))
    cancelled = elim (cancel_work_cases identity id body now db) [
      | inl same ↦ inl same
      | inr (user, event_id, known, c) ↦ inr (
        user,
        known,
        MayCancel-Changed user event_id now db _ c,
        λ v. Cancelled-Valid event_id c.event user.uid now false db _ v c.outcome,
      )
    ]

    by_target : (target : Target) → P (after db (change_work identity id target body now db))
    by_target to_cancelled = unfold change_work in cancelled
    by_target to_completed = unfold change_work in moved to_completed
    by_target to_confirmed = unfold change_work in moved to_confirmed
    by_target unsupported = unfold change_work in moved unsupported

-- A status-change request changes nothing, or the caller is known and moves one event, whose assigned
-- coordinator they are, along a transition: a confirmation only when the arrangements are ready, a
-- completion only when the event has ended, each with one history row and no other event changed.
pub change_status_cases :
    (identity : Option AuthenticatedUser) (id : RouteId) (target : Target) (body : Confirmation)
    (now : ℕ) (db : Db)
    → let db' = (change_status identity id target body now db).1 in
      (db' ≡ db) ⊎ ((user : AuthenticatedUser) × (identity ≡ some user) × Changed user now db db')
change_status_cases identity id target body now db =
    elim (change_status-Valid_cases identity id target body now db) [
      | inl same ↦ inl same
      | inr (user, known, changed, valid) ↦ inr (user, known, changed)
    ]

-- Whatever a status-change request does, valid registration tables stay valid.
pub change_status-Valid :
    (identity : Option AuthenticatedUser) (id : RouteId) (target : Target) (body : Confirmation)
    (now : ℕ) (db : Db)
    → Valid db
    → Valid (change_status identity id target body now db).1
change_status-Valid identity id target body now db v =
    elim (change_status-Valid_cases identity id target body now db) [
      | inl same ↦ rw same v
      | inr (user, known, changed, valid) ↦ valid v
    ]
