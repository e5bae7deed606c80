-- ===== src/Venues/Courses.antt =====
-- What the venue calls do to the events: a submission may start the planning of one, and no other call
-- changes any.
use is212_g5_t.Base.{ℕ, none, ap, inl, inr}
use is212_g5_t.Schema.{Db, AuthenticatedUser, RequestKind}
use is212_g5_t.Schema.Course.{Course, Course-kept, Course-same}
use is212_g5_t.Venues.{set_booking}
use is212_g5_t.Venues.Notices.{Decision}
use is212_g5_t.Venues.Decisions.{approve_row, add_review, save_approval, approve_venue_booking}
use is212_g5_t.Venues.Service.{
  RequestBody, submit, submit_as, approve_as, reject_as, act_as, cancel_as, submitted_or_throw,
  decision_or_throw, hold_action_or_throw, cancelled_or_throw, approve, reject, act_on_hold,
  cancel_booking,
}
use is212_g5_t.Venues.Changes.{
  reject_venue_booking-Keeps, cancel_coordinator_booking-Keeps, update_tentative_hold-Keeps,
  process_expired_tentative_holds-Keeps, process_tentative_hold_reminders-Keeps,
}
use is212_g5_t.Venues.Submitting.{submit_booking_request-Keeps, submit_tentative_hold_request-Keeps}
use is212_g5_t.Venues.Outcomes.{notify_booking_decision-OnlyNotices, approve_venue_booking-Split}
use is212_g5_t.Venues.Runs.{
  Call, submits, approves, rejects, acts, cancels, expires, reminds, serve, checked_keeps,
}

save_approval-Course :
    (staff id now : ℕ) (kind : RequestKind) (db : Db)
    → Course db (save_approval staff id now kind db)
unfolding save_approval
save_approval-Course staff id now kind db =
    let told =
      notify_booking_decision-OnlyNotices id Decision.approved now kind
        (add_review id staff none (set_booking id (approve_row now) db)) in
    Course-kept db _ (ap (λ (d : Db). d.registrations) told) (ap (λ (d : Db). d.events) told)

approve_venue_booking-Course :
    (staff id now : ℕ) (db : Db) → Course db (approve_venue_booking staff id now db).1
approve_venue_booking-Course staff id now db = elim (approve_venue_booking-Split staff id now db) [
  | inl refused ↦ rw refused.1 (Course-same db)
  | inr (l, g, e) ↦ rw e (save_approval-Course staff id now l.booking.request_kind db)
]

pub serve-Course : (c : Call) (db : Db) → Course db (serve c db)
unfolding serve submit approve reject act_on_hold cancel_booking
serve-Course (submits identity id body env) db =
    checked_keeps (Course db) _ (submit_as env) submitted_or_throw db (Course-same db) by_kind
  where
    by_kind : (a : (AuthenticatedUser × ℕ) × RequestBody) → Course db (submit_as env a db).1
    by_kind ((user, venue_id), RequestBody.for_booking input) =
        (submit_booking_request-Keeps venue_id user.uid input env db).course
    by_kind ((user, venue_id), RequestBody.for_hold input) =
        (submit_tentative_hold_request-Keeps venue_id user.uid input env db).course
serve-Course (approves identity permitted id now) db =
    checked_keeps (Course db) _ (approve_as now) decision_or_throw db (Course-same db)
      (λ (user, booking_id). approve_venue_booking-Course user.uid booking_id now db)
serve-Course (rejects identity permitted id reason now) db =
    checked_keeps (Course db) _ (reject_as now) decision_or_throw db (Course-same db)
      (λ ((user, booking_id), text).
        (reject_venue_booking-Keeps user.uid booking_id text now db).course)
serve-Course (acts action identity permitted id now) db =
    checked_keeps (Course db) _ (act_as action now) hold_action_or_throw db (Course-same db)
      (λ (user, booking_id). (update_tentative_hold-Keeps action user.uid booking_id now db).course)
serve-Course (cancels identity id confirmed now) db =
    checked_keeps (Course db) _ (cancel_as confirmed) cancelled_or_throw db (Course-same db)
      (λ (user, booking_id).
        (cancel_coordinator_booking-Keeps user.uid booking_id confirmed now db).course)
serve-Course (expires now) db = (process_expired_tentative_holds-Keeps now db).course
serve-Course (reminds now) db = (process_tentative_hold_reminders-Keeps now db).course
