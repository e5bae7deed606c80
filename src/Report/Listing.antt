-- ===== src/Report/Listing.antt =====
-- The registration report of an event and its download: RegistrationsService.getReport
-- (backend/src/registrations/registrations.service.ts), report-access.ts, and the export handler of
-- registrations.controller.ts.
use is212_g5_t.Base.{
  ℕ, ◌-◌, String, Bool, true, false, not, ◌&&◌, ◌||◌, ◌==◌, Option, none, some, some_eq, List, [],
  ◌∷◌, any, map, keep, codes, sort_in, if◌then◌else◌,
}
use is212_g5_t.Schema.{
  Event, Registration, RegistrationStatus, Db, AuthenticatedUser, RouteId, Refusal, Result, ok, err,
  is_coordinator, is_organiser, is_registered, is_waitlisted, find_event, registered_count,
  waitlisted_count,
}
use is212_g5_t.Transaction.{M, return, throw, throw_if, gets, require, ◌>>=◌, ◌>>◌}
use is212_g5_t.Waitlist.{lt_nulls_last, waitlist_position}
use is212_g5_t.Registrations.{require_event_id}
use is212_g5_t.Report.{Text, ReportRow, build_csv}
use is212_g5_t.Report.Filter.{
  StatusParameter, report_statuses, same_status, parse_report_status_filter,
}

-- The assigned coordinator, or the organiser who owns the event.
unfoldable pub can_view_event_registrations : AuthenticatedUser → Option ℕ → ℕ → Bool
can_view_event_registrations user coordinator_id organiser_id =
    (any is_coordinator user.roles && some_eq coordinator_id user.uid)
    || (any is_organiser user.roles && organiser_id == user.uid)

-- ORDER BY a list of columns, ascending, with nulls last: a later column tells where all before it
-- are equal.
abbrev pub order_by : {A : Type 0} → List (A → Option ℕ) → A → A → Bool
order_by [] a b = false
order_by (column ∷ columns) a b =
    lt_nulls_last (column a) (column b)
    || (not (lt_nulls_last (column b) (column a)) && order_by columns a b)

abbrev rank : Registration → ℕ
rank r = if is_registered r.status then 0 else if is_waitlisted r.status then 1 else 2

abbrev keep_if : {A : Type 0} → Bool → Option A → Option A
keep_if true o = o
keep_if false o = none

-- COALESCE(withdrawn_at, removed_at, updated_at).
abbrev coalesce : Option ℕ → ℕ → ℕ
coalesce none b = b
coalesce (some a) b = a

abbrev left_at : Registration → ℕ
left_at r = coalesce r.withdrawn_at (coalesce r.removed_at r.updated_at)

abbrev has_left : Registration → Bool
has_left r = not (is_registered r.status || is_waitlisted r.status)

-- The ORDER BY of the report's rows.
unfoldable pub report_columns : List (Registration → Option ℕ)
report_columns =
    (λ r. some (rank r))
    ∷ ((λ r. keep_if (is_registered r.status) (some r.created_at))
        ∷ ((λ r. keep_if (is_waitlisted r.status) r.joined_at)
            ∷ ((λ r. keep_if (is_waitlisted r.status) r.waitlist_seq)
                ∷ ((λ r. keep_if (has_left r) (some (left_at r)))
                    ∷ ((λ r. some r.created_at) ∷ ((λ r. some r.id) ∷ []))))))

unfoldable pub lists_before : Registration → Registration → Bool
lists_before a b = order_by report_columns a b

abbrev pub is_listed : ℕ → List RegistrationStatus → Registration → Bool
is_listed event_id statuses r = r.event_id == event_id && any (same_status r.status) statuses

unfoldable pub listed_rows : ℕ → List RegistrationStatus → Db → List Registration
listed_rows event_id statuses db =
    sort_in lists_before (keep (is_listed event_id statuses) db.registrations)

abbrev text_of : Option String → Text
text_of none = []
text_of (some t) = codes t

-- `value && {...}`: an empty text is left out.
abbrev truthy : Text → Option Text
truthy [] = none
truthy t = some t

unfoldable pub report_row : List Registration → Registration → ReportRow
report_row table r = record {
  registration_id = r.id;
  full_name = text_of r.full_name;
  email = text_of r.email;
  contact_number = text_of r.contact_number;
  registered_at = r.created_at;
  status = r.status;
  special_requirements = truthy (text_of r.special_requirements);
  waitlist_position = keep_if (is_waitlisted r.status) (waitlist_position table r);
  joined_at = keep_if (is_waitlisted r.status) r.joined_at;
}

pub record ReportEvent : Type 0 where
  pub id : ℕ
  pub name : String
  pub start_date_time : ℕ
  pub end_date_time : ℕ
  pub capacity : ℕ

pub record RegistrationReport : Type 0 where
  pub event : ReportEvent
  pub total_confirmed : ℕ
  pub waitlist_count : ℕ
  pub available_spots : ℕ
  pub generated_at : ℕ
  pub registrations : List ReportRow

abbrev pub db_statuses : Option (List RegistrationStatus) → List RegistrationStatus
db_statuses none = report_statuses
db_statuses (some filter) = filter

-- `Math.max(registration_limit - confirmed, 0)` is the subtraction that stops at 0.
unfoldable pub report_of : ℕ → Event → List RegistrationStatus → ℕ → Db → RegistrationReport
report_of event_id e statuses now db = record {
  event = record {
    id = e.id;
    name = e.event_name;
    start_date_time = e.start_date_time;
    end_date_time = e.end_date_time;
    capacity = e.registration_limit;
  };
  total_confirmed = registered_count event_id db.registrations;
  waitlist_count = waitlisted_count event_id db.registrations;
  available_spots = e.registration_limit - registered_count event_id db.registrations;
  generated_at = now;
  registrations = map (report_row db.registrations) (listed_rows event_id statuses db);
}

abbrev pub of_result : {A : Type 0} → Result A → M A
of_result (ok a) = return a
of_result (err e) = throw e

unfoldable pub get_report :
    Option AuthenticatedUser → RouteId → StatusParameter → ℕ → M RegistrationReport
get_report identity id status now = do
  user ← require identity Refusal.authentication_required
  event_id ← require_event_id id
  found ← gets (λ db. find_event event_id db.events)
  event ← require found Refusal.event_not_found
  throw_if (not (can_view_event_registrations user event.coordinator_id event.organiser_id))
      Refusal.report_forbidden
  filter ← of_result (parse_report_status_filter status)
  gets (report_of event_id event (db_statuses filter) now)

-- The format parameter: one of the two formats, or anything else.
pub data ExportFormat : Type 0 where
  csv pdf unknown : ExportFormat

-- The download: the text of the CSV, or the report that the PDF writer draws.
pub data Download : Type 0 where
  csv_file : Text → Download
  pdf_file : RegistrationReport → Download

abbrev pub download : ExportFormat → RegistrationReport → M Download
download csv report = return (csv_file (build_csv report.registrations))
download pdf report = return (pdf_file report)
download unknown report = throw Refusal.export_format_invalid

-- The access rule and the filter come first, then the format.
unfoldable pub export_report :
    Option AuthenticatedUser → RouteId → ExportFormat → StatusParameter → ℕ → M Download
export_report identity id format status now = do
  report ← get_report identity id status now
  download format report
