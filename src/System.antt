-- ===== src/System.antt =====
-- The calls of the modelled services one after another (backend/src/registrations,
-- backend/src/events, backend/src/lead, backend/src/venues):
-- each is one transaction, since the lock on the event's row serialises those of one event.
pub mod Runs
pub mod Lifecycle
pub mod Keeping
use is212_g5_t.Base.{ℕ, Bool, Option, List, [], ◌∷◌}
use is212_g5_t.Schema.{AuthenticatedUser, RouteId, Result, Db}
use is212_g5_t.Waitlist.{run_registration_close_job}
use is212_g5_t.Registrations.{Env, Body}
use is212_g5_t.Registrations.Registering.{RegistrationInput, register}
use is212_g5_t.Registrations.Joining.{join_waitlist}
use is212_g5_t.Registrations.Withdrawing.{withdraw}
use is212_g5_t.Registrations.Reading.{find_mine}
use is212_g5_t.Registrations.Settings.{update}
use is212_g5_t.Registrations.Settings.Rules.{SettingsPatch}
use is212_g5_t.Cancel.{Confirmation}
use is212_g5_t.Status.{Target, change_status}
use is212_g5_t.Lead.{assign, reassign}
use is212_g5_t.CancellationRequests.{CreateBody, DecisionBody, create, decide}
use is212_g5_t.Status.Planning.{request_safety_check, confirm_no_equipment, set_feedback_resolution}
use is212_g5_t.Venues

pub data Call : Type 0 where
  registers : Option AuthenticatedUser → RouteId → Result RegistrationInput → Env → Call
  joins : Option AuthenticatedUser → RouteId → Body → Env → Call
  withdraws : Option AuthenticatedUser → RouteId → Body → ℕ → Call
  reads_mine : Option AuthenticatedUser → RouteId → ℕ → Call
  updates : Option AuthenticatedUser → RouteId → Result (SettingsPatch × ℕ) → ℕ → Call
  changes_status : Option AuthenticatedUser → RouteId → Target → Confirmation → ℕ → Call
  requests_check : Option AuthenticatedUser → RouteId → ℕ → Call
  closes : ℕ → Call
  assigns : Option AuthenticatedUser → RouteId → Option RouteId → ℕ → Call
  reassigns : Option AuthenticatedUser → RouteId → Option RouteId → Option ℕ → ℕ → Call
  files_request : Option AuthenticatedUser → RouteId → CreateBody → ℕ → ℕ → Call
  decides_request : Option AuthenticatedUser → RouteId → DecisionBody → ℕ → Call
  confirms_no_equipment : Option AuthenticatedUser → RouteId → ℕ → Call
  resolves_feedback : Option AuthenticatedUser → RouteId → ℕ → Bool → ℕ → Call
  venue_call : Venues.Runs.Call → Call

unfoldable pub serve : Call → Db → Db
serve (registers identity id validated env) db = (register identity id validated env db).1
serve (joins identity id body env) db = (join_waitlist identity id body env db).1
serve (withdraws identity id body now) db = (withdraw identity id body now db).1
serve (reads_mine identity id now) db = (find_mine identity id now db).1
serve (updates identity id parsed now) db = (update identity id parsed now db).1
serve (changes_status identity id target body now) db =
    (change_status identity id target body now db).1
serve (requests_check identity id now) db = (request_safety_check identity id now db).1
serve (closes now) db = (run_registration_close_job now db).1
serve (assigns identity id body sql_now) db = (assign identity id body sql_now db).1
serve (reassigns identity id body shown sql_now) db = (reassign identity id body shown sql_now db).1
serve (files_request identity id body now new_id) db = (create identity id body now new_id db).1
serve (decides_request identity id body now) db = (decide identity id body now db).1
serve (confirms_no_equipment identity id now) db = (confirm_no_equipment identity id now db).1
serve (resolves_feedback identity id feedback_id resolved now) db =
    (set_feedback_resolution identity id feedback_id resolved now db).1
serve (venue_call call) db = Venues.Runs.serve call db

unfoldable pub run : List Call → Db → Db
run [] db = db
run (call ∷ calls) db = run calls (serve call db)
