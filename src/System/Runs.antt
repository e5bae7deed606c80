-- ===== src/System/Runs.antt =====
-- What holds after any sequence of calls.
use is212_g5_t.Base.{ℕ, ◌≡◌, inl, inr, List, [], ◌∷◌, Option, count_if}
use is212_g5_t.Schema.{Db, AuthenticatedUser, RouteId, has_id}
use is212_g5_t.Waitlist.{settle_each, run_registration_close_job}
use is212_g5_t.Waitlist.Settling.{settle_if_due-eq-settle_locked}
use is212_g5_t.Registrations.Invariant.{Valid, settle_locked-Valid}
use is212_g5_t.Registrations.Registering.Outcomes.{register-Valid}
use is212_g5_t.Registrations.Joining.Outcomes.{join_waitlist-Valid}
use is212_g5_t.Registrations.Withdrawing.Validity.{withdraw-Valid}
use is212_g5_t.Registrations.Reading.{find_mine-Valid}
use is212_g5_t.Registrations.Settings.Validity.{update-Valid}
use is212_g5_t.Status.Endpoint.{change_status-Valid}
use is212_g5_t.Status.Planning.{request_safety_check}
use is212_g5_t.Status.SafetyRequest.{request_safety_check_cases}
use is212_g5_t.Status.Courses.{confirm_no_equipment-Course, set_feedback_resolution-Course}
use is212_g5_t.Venues.Courses.{serve-Course}
use is212_g5_t.System.Keeping.{
  assign-Keeps, reassign-Keeps, create-Keeps, decide-Keeps, kept-Valid, Course-Valid,
}
use is212_g5_t.System.{
  Call, registers, joins, withdraws, reads_mine, updates, changes_status, requests_check, closes,
  assigns, reassigns, files_request, decides_request, confirms_no_equipment, resolves_feedback,
  venue_call, serve, run,
}

-- gen_random_uuid gives no id that a row has.
abbrev pub IsFresh : Call → Db → Type 0
IsFresh (registers identity id validated env) db = count_if (has_id env.new_id) db.registrations ≡ 0
IsFresh (joins identity id body env) db = count_if (has_id env.new_id) db.registrations ≡ 0
IsFresh _ db = Unit

abbrev pub AllFresh : List Call → Db → Type 0
AllFresh [] db = Unit
AllFresh (call ∷ calls) db = IsFresh call db × AllFresh calls (serve call db)

settle_each-Valid : (ids : List ℕ) (now : ℕ) (db : Db) → Valid db → Valid (settle_each ids now db).1
unfolding settle_each
settle_each-Valid [] now db v = v
settle_each-Valid (id ∷ ids) now db v =
    settle_each-Valid ids now _
      (rw (settle_if_due-eq-settle_locked id now db) (settle_locked-Valid id now db v))

request_safety_check-Valid :
    (identity : Option AuthenticatedUser) (id : RouteId) (now : ℕ) (db : Db)
    → Valid db
    → Valid (request_safety_check identity id now db).1
request_safety_check-Valid identity id now db v =
    elim (request_safety_check_cases identity id now db) [
      | inl same ↦ rw same v
      | inr (user, event_id, known, r) ↦
          kept-Valid db (request_safety_check identity id now db).1 r.events r.registrations v
    ]

-- One call keeps the tables valid.
serve-Valid : (call : Call) (db : Db) → Valid db → IsFresh call db → Valid (serve call db)
unfolding serve run_registration_close_job
serve-Valid (registers identity id validated env) db v fresh =
    register-Valid identity id validated env db v fresh
serve-Valid (joins identity id body env) db v fresh =
    join_waitlist-Valid identity id body env db v fresh
serve-Valid (withdraws identity id body now) db v fresh = withdraw-Valid identity id body now db v
serve-Valid (reads_mine identity id now) db v fresh = find_mine-Valid identity id now db v
serve-Valid (updates identity id parsed now) db v fresh = update-Valid identity id parsed now db v
serve-Valid (changes_status identity id target body now) db v fresh =
    change_status-Valid identity id target body now db v
serve-Valid (requests_check identity id now) db v fresh =
    request_safety_check-Valid identity id now db v
serve-Valid (closes now) db v fresh = settle_each-Valid _ now db v
serve-Valid (assigns identity id body sql_now) db v fresh =
    (assign-Keeps identity id body sql_now db).0 v
serve-Valid (reassigns identity id body shown sql_now) db v fresh =
    (reassign-Keeps identity id body shown sql_now db).0 v
serve-Valid (files_request identity id body now new_id) db v fresh =
    (create-Keeps identity id body now new_id db).0 v
serve-Valid (decides_request identity id body now) db v fresh =
    (decide-Keeps identity id body now db).0 v
serve-Valid (confirms_no_equipment identity id now) db v fresh =
    Course-Valid db _ (confirm_no_equipment-Course identity id now db) v
serve-Valid (resolves_feedback identity id feedback_id resolved now) db v fresh =
    Course-Valid db _ (set_feedback_resolution-Course identity id feedback_id resolved now db) v
serve-Valid (venue_call call) db v fresh = Course-Valid db _ (serve-Course call db) v

-- After any sequence of calls, by anybody and in any order, that starts from valid tables and in
-- which each new id is fresh, the tables are valid: ids and the pairs of event and attendee are
-- unique, no event has more registered attendees than its limit, and nobody waits for a place while
-- one is free.
pub run-Valid : (calls : List Call) (db : Db) → Valid db → AllFresh calls db → Valid (run calls db)
unfolding run
run-Valid [] db v fresh = v
run-Valid (call ∷ calls) db v (fresh, rest) =
    run-Valid calls (serve call db) (serve-Valid call db v fresh) rest
