-- ===== src/Venues/Runs.antt =====
-- The venue calls one after another, in the order of their instants.
use is212_g5_t.Base.{ℕ, ◌≤◌, Bool, Option, List, [], ◌∷◌}
use is212_g5_t.Schema.{Db, AuthenticatedUser, RouteId, Result, ok, err}
use is212_g5_t.Registrations.{Env}
use is212_g5_t.Venues.Holds.{
  HoldAction, process_expired_tentative_holds, process_tentative_hold_reminders,
}
use is212_g5_t.Venues.Service.{
  RequestBody, checked, submit, submit_as, approve_as, reject_as, act_as, cancel_as,
  submitted_or_throw, decision_or_throw, hold_action_or_throw, cancelled_or_throw, approve, reject,
  act_on_hold, cancel_booking,
}
use is212_g5_t.Venues.Apart.{Apart, Apart-later, Keeps-Apart}
use is212_g5_t.Venues.Approval.{approve_venue_booking-Apart}
use is212_g5_t.Venues.Changes.{
  reject_venue_booking-Keeps, cancel_coordinator_booking-Keeps, update_tentative_hold-Keeps,
  process_expired_tentative_holds-Keeps, process_tentative_hold_reminders-Keeps,
}
use is212_g5_t.Venues.Submitting.{submit_booking_request-Keeps, submit_tentative_hold_request-Keeps}

-- A call of venues.controller.ts, or a tick of tentative-hold-expiry.scheduler.ts.
pub data Call : Type 0 where
  submits : Option AuthenticatedUser → RouteId → Result RequestBody → Env → Call
  approves : Option AuthenticatedUser → Bool → RouteId → ℕ → Call
  rejects : Option AuthenticatedUser → Bool → RouteId → Option (List ℕ) → ℕ → Call
  acts : HoldAction → Option AuthenticatedUser → Bool → RouteId → ℕ → Call
  cancels : Option AuthenticatedUser → RouteId → Bool → ℕ → Call
  expires reminds : ℕ → Call

unfoldable pub serve : Call → Db → Db
serve (submits identity id body env) db = (submit identity id body env db).1
serve (approves identity permitted id now) db = (approve identity permitted id now db).1
serve (rejects identity permitted id reason now) db = (reject identity permitted id reason now db).1
serve (acts action identity permitted id now) db =
    (act_on_hold action identity permitted id now db).1
serve (cancels identity id confirmed now) db = (cancel_booking identity id confirmed db).1
serve (expires now) db = (process_expired_tentative_holds now db).1
serve (reminds now) db = (process_tentative_hold_reminders now db).1

abbrev pub instant : Call → ℕ
instant (submits identity id body env) = env.now
instant (approves identity permitted id now) = now
instant (rejects identity permitted id reason now) = now
instant (acts action identity permitted id now) = now
instant (cancels identity id confirmed now) = now
instant (expires now) = now
instant (reminds now) = now

abbrev pub run : List Call → Db → Db
run [] db = db
run (c ∷ cs) db = run cs (serve c db)

-- No call is earlier than the one before it.
abbrev pub InTime : ℕ → List Call → Type 0
InTime now [] = Unit
InTime now (c ∷ cs) = (now ≤ instant c) × InTime (instant c) cs

abbrev pub last_instant : ℕ → List Call → ℕ
last_instant now [] = now
last_instant now (c ∷ cs) = last_instant (instant c) cs

pub checked_keeps :
    {A B C : Type 0} (P : Db → Type 0) (r : Result A) (work : A → Db → B × Db)
    (finish : B → Result C) (db : Db)
    → P db
    → ((a : A) → P (work a db).1)
    → P (checked r work finish db).1
checked_keeps P (err e) work finish db p h = p
checked_keeps P (ok a) work finish db p h = h a

serve-Apart : (c : Call) (db : Db) → Apart (instant c) db → Apart (instant c) (serve c db)
unfolding serve submit approve reject act_on_hold cancel_booking
serve-Apart (submits identity id body env) db p =
    checked_keeps (Apart env.now) _ (submit_as env) submitted_or_throw db p by_kind
  where
    by_kind : (a : (AuthenticatedUser × ℕ) × RequestBody) → Apart env.now (submit_as env a db).1
    by_kind ((user, venue_id), RequestBody.for_booking input) =
        Keeps-Apart env.now db _ (submit_booking_request-Keeps venue_id user.uid input env db) p
    by_kind ((user, venue_id), RequestBody.for_hold input) =
        Keeps-Apart env.now db _
          (submit_tentative_hold_request-Keeps venue_id user.uid input env db) p
serve-Apart (approves identity permitted id now) db p =
    checked_keeps (Apart now) _ (approve_as now) decision_or_throw db p
      (λ (user, booking_id). approve_venue_booking-Apart user.uid booking_id now db p)
serve-Apart (rejects identity permitted id reason now) db p =
    checked_keeps (Apart now) _ (reject_as now) decision_or_throw db p
      (λ ((user, booking_id), text).
        Keeps-Apart now db _ (reject_venue_booking-Keeps user.uid booking_id text now db) p)
serve-Apart (acts action identity permitted id now) db p =
    checked_keeps (Apart now) _ (act_as action now) hold_action_or_throw db p (λ (user, booking_id).
      Keeps-Apart now db _ (update_tentative_hold-Keeps action user.uid booking_id now db) p)
serve-Apart (cancels identity id confirmed now) db p =
    checked_keeps (Apart now) _ (cancel_as confirmed) cancelled_or_throw db p (λ (user, booking_id).
      Keeps-Apart now db _ (cancel_coordinator_booking-Keeps user.uid booking_id confirmed now db)
        p)
serve-Apart (expires now) db p =
    Keeps-Apart now db _ (process_expired_tentative_holds-Keeps now db) p
serve-Apart (reminds now) db p =
    Keeps-Apart now db _ (process_tentative_hold_reminders-Keeps now db) p

-- Whatever requests are submitted, approved, rejected and cancelled and whatever holds are converted,
-- released, reminded and expired, in the order of time, no two live bookings of a venue meet in their
-- windows with setup and turnaround, when none did before.
pub run-Apart :
    (calls : List Call) (now : ℕ) (db : Db)
    → InTime now calls
    → Apart now db
    → Apart (last_instant now calls) (run calls db)
run-Apart [] now db t p = p
run-Apart (c ∷ cs) now db (le, t) p =
    run-Apart cs (instant c) (serve c db) t (serve-Apart c db (Apart-later now (instant c) db le p))
