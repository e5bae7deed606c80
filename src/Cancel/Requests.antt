-- ===== src/Cancel/Requests.antt =====
-- What a cancellation request can do, and that it keeps the registration tables valid
-- (backend/src/events/cancel/cancel-event.service.ts).
use native.Mathlib.Decide.{ℕ_discrete}
use is212_g5_t.Base.{ℕ, ◌≡◌, refl, sym, ◌∙◌, inl, inr, Bool, false, not, Option, some, arith, ◌⊎◌}
use is212_g5_t.Schema.{Event, Db, AuthenticatedUser, RouteId, uuid, malformed, Refusal, find_event}
use is212_g5_t.Transaction.{require, throw_if}
use is212_g5_t.Transaction.Reading.{
  Reads, after, transaction-after, reads_then, reads_before, throw_if-Reads, require-Reads,
  require_found,
}
use is212_g5_t.Registrations.Invariant.{Valid}
use is212_g5_t.Cancel.{
  Confirmation, may_cancel, cancel_work, is_confirmed, require_cancel_id, cancel,
}
use is212_g5_t.Cancel.Outcomes.{Cancelled, MayCancel, cancel_inside_cases}

require_cancel_id-Reads : (id : RouteId) (db : Db) → Reads db (require_cancel_id id db)
require_cancel_id-Reads (uuid id) db = inl (id, refl)
require_cancel_id-Reads malformed db = inr (Refusal.event_not_found, refl)

pub cancel_work_cases :
    (identity : Option AuthenticatedUser) (id : RouteId) (body : Confirmation) (now : ℕ) (db : Db)
    → let db' = after db (cancel_work identity id body now db) in
      (db' ≡ db)
      ⊎ ((user : AuthenticatedUser) × (event_id : ℕ) × (identity ≡ some user)
          × MayCancel db db' user event_id now false)
unfolding cancel_work
cancel_work_cases identity id body now db =
    reads_then P (require identity Refusal.authentication_required) db _ (inl refl)
      (require-Reads identity Refusal.authentication_required db)
      λ user known.
        reads_then P (require_cancel_id id) db _ (inl refl) (require_cancel_id-Reads id db)
          λ event_id _.
            let found = find_event event_id db.events in
            reads_then P (require found Refusal.event_not_found) db _ (inl refl)
              (require-Reads found Refusal.event_not_found db)
              λ event _.
                reads_before P (throw_if (not (may_cancel user event)) Refusal.cancel_forbidden) db
                  _ (inl refl) (throw_if-Reads _ Refusal.cancel_forbidden db)
                  λ _ _.
                    reads_before P (throw_if (not (is_confirmed body)) Refusal.cancel_not_confirmed)
                      db _ (inl refl) (throw_if-Reads _ Refusal.cancel_not_confirmed db)
                      λ _ _. elim (cancel_inside_cases user event_id now false db) [
                        | inl same ↦ inl same
                        | inr c ↦ inr (user, event_id, require_found identity _ user db known, c)
                      ]
  where
    P : Db → Type 0
    P db' =
        (db' ≡ db)
        ⊎ ((user : AuthenticatedUser) × (event_id : ℕ) × (identity ≡ some user)
            × MayCancel db db' user event_id now false)

-- A cancellation request changes nothing, or it comes from the assigned coordinator of an event
-- that may still be cancelled and cancels it: the event is Cancelled with one history row,
-- nothing stays held for it, every recipient has a notice, and no other event changes.
pub cancel_cases :
    (identity : Option AuthenticatedUser) (id : RouteId) (body : Confirmation) (now : ℕ) (db : Db)
    → let db' = (cancel identity id body now db).1 in
      (db' ≡ db)
      ⊎ ((user : AuthenticatedUser) × (event_id : ℕ) × (identity ≡ some user)
          × MayCancel db db' user event_id now false)
unfolding cancel
cancel_cases identity id body now db =
    rw (transaction-after (cancel_work identity id body now) db)
      (cancel_work_cases identity id body now db)

-- A cancellation leaves the registration tables valid.
pub Cancelled-Valid :
    (event_id : ℕ) (e : Event) (uid now : ℕ) (skip_organiser : Bool) (db db' : Db)
    → Valid db
    → Cancelled event_id e uid now skip_organiser db db'
    → Valid db'
Cancelled-Valid event_id e uid now skip_organiser db db' v c = record {
  ids = λ i. rw (c.released.ids i) (v.ids i);
  keys = λ k a. rw (c.released.keys k a) (v.keys k a);
  capacity = λ k x f. elim (ℕ_discrete k event_id) [
    | yes h ↦ rw h (omega (arith, c.released.no_places))
    | no h ↦ rw (c.released.others k h) (v.capacity k x (sym (c.other_events k h) ∙ f))
  ];
  no_idle = λ k x f. elim (ℕ_discrete k event_id) [
    | yes h ↦ inl (rw h c.released.no_waiting)
    | no h ↦
        rw (c.released.others k h, c.released.other_lists k h)
          (v.no_idle k x (sym (c.other_events k h) ∙ f))
  ];
}

-- Whatever a cancellation request does, valid registration tables stay valid.
pub cancel-Valid :
    (identity : Option AuthenticatedUser) (id : RouteId) (body : Confirmation) (now : ℕ) (db : Db)
    → Valid db
    → Valid (cancel identity id body now db).1
cancel-Valid identity id body now db v = elim (cancel_cases identity id body now db) [
  | inl same ↦ rw same v
  | inr (user, event_id, known, c) ↦
      Cancelled-Valid event_id c.event user.uid now false db _ v c.outcome
]
