-- ===== src/Report/Delivery.antt =====
-- What a given registration report and its CSV hold
-- (backend/src/registrations/registrations.service.ts, getReport; registrations.controller.ts).
use is212_g5_t.Base.{
  ℕ, ◌+◌, ◌≤◌, subst, none, ◌≡◌, refl, ◌∙◌, ap, sym, true, Option, some, List, ◌∷◌, any, map, keep,
  arith, count_if, count_if-congr, sort_in-InOrder, InOrder, if◌then◌else◌, ◌==◌, ◌&&◌,
}
use is212_g5_t.Schema.{
  Event, Registration, RegistrationStatus, registered, waitlisted, withdrawn, removed, cancelled,
  Db, AuthenticatedUser, RouteId, uuid, ok, find_event, holds_place, waits, registered_count,
  waitlisted_count, is_registered, is_waitlisted,
}
use is212_g5_t.Transaction.{done}
use is212_g5_t.Transaction.Inverting.{bind_done}
use is212_g5_t.Registrations.Invariant.{Valid}
use is212_g5_t.Report.{Text, csv_header, build_csv}
use is212_g5_t.Report.Reader.{read_csv}
use is212_g5_t.Report.RoundTrip.{cells_of, read_csv-build_csv}
use is212_g5_t.Report.Filter.{
  StatusParameter, absent, report_statuses, same_status, parse_report_status_filter,
}
use is212_g5_t.Report.Listing.{
  can_view_event_registrations, lists_before, is_listed, listed_rows, report_row,
  RegistrationReport, db_statuses, report_of, get_report, csv, download, csv_file, export_report,
}
use is212_g5_t.Report.Contents.{get_report_done, has_status, count-status, lists_before_asym}

-- What the rows of a report are, against the table.
pub record Contents (user : AuthenticatedUser) (event_id : ℕ) (event : Event)
    (ss : List RegistrationStatus) (db : Db) (report : RegistrationReport) : Type 0 where
  pub found : find_event event_id db.events ≡ some event
  pub manages : can_view_event_registrations user event.coordinator_id event.organiser_id ≡ true
  pub rows : report.registrations ≡ map (report_row db.registrations) (listed_rows event_id ss db)
  pub order : InOrder lists_before (listed_rows event_id ss db)
  pub counts :
      (s : RegistrationStatus)
      → count_if (λ row. same_status row.status s) report.registrations
        ≡ (if any (same_status s) ss then count_if (has_status event_id s) db.registrations else 0)

report_of-Contents :
    (user : AuthenticatedUser) (event_id : ℕ) (event : Event) (ss : List RegistrationStatus)
    (now : ℕ) (db : Db)
    → find_event event_id db.events ≡ some event
    → can_view_event_registrations user event.coordinator_id event.organiser_id ≡ true
    → Contents user event_id event ss db (report_of event_id event ss now db)
unfolding report_of listed_rows
report_of-Contents user event_id event ss now db found manages = record {
  found = found;
  manages = manages;
  rows = refl;
  order =
      sort_in-InOrder lists_before lists_before_asym
        (keep (is_listed event_id ss) db.registrations);
  counts = λ s. count-status event_id event ss now db s;
}

-- A report is given only to a manager of the event that the route names, and changes nothing. Its
-- rows are in the order of the report, and of each status the filter names they are as many as the
-- event has in the table, of any other status none.
pub get_report_lem :
    (identity : Option AuthenticatedUser) (id : RouteId) (status : StatusParameter) (now : ℕ)
    (db : Db) (report : RegistrationReport) (db' : Db)
    → get_report identity id status now db ≡ done report db'
    → (db' ≡ db)
      × ((user : AuthenticatedUser) × (event_id : ℕ) × (event : Event) × (filter : Option
            (List RegistrationStatus))
          × (identity ≡ some user)
          × (id ≡ uuid event_id)
          × (parse_report_status_filter status ≡ ok filter)
          × Contents user event_id event (db_statuses filter) db report)
get_report_lem identity id status now db report db' run =
    let r = get_report_done identity id status now db report db' run in
    (
      r.unchanged,
      (
        r.user,
        r.event_id,
        r.event,
        r.filter,
        r.is_user,
        r.of_event,
        r.filtered,
        subst (Contents r.user r.event_id r.event (db_statuses r.filter) db) (sym r.holds) (
            report_of-Contents r.user r.event_id r.event (db_statuses r.filter) now db r.found
              r.manages),
      ),
    )

count-registered :
    (event_id : ℕ) (rows : List Registration)
    → count_if (has_status event_id registered) rows ≡ registered_count event_id rows
count-registered event_id rows =
    count_if-congr (has_status event_id registered) (holds_place event_id) rows
      (λ r. by_status r r.status)
  where
    by_status :
        (r : Registration) (s : RegistrationStatus)
        → (r.event_id == event_id && same_status s registered)
          ≡ (r.event_id == event_id && is_registered s)
    by_status r registered = refl
    by_status r waitlisted = refl
    by_status r withdrawn = refl
    by_status r removed = refl
    by_status r cancelled = refl

count-waitlisted :
    (event_id : ℕ) (rows : List Registration)
    → count_if (has_status event_id waitlisted) rows ≡ waitlisted_count event_id rows
count-waitlisted event_id rows =
    count_if-congr (has_status event_id waitlisted) (waits event_id) rows
      (λ r. by_status r r.status)
  where
    by_status :
        (r : Registration) (s : RegistrationStatus)
        → (r.event_id == event_id && same_status s waitlisted)
          ≡ (r.event_id == event_id && is_waitlisted s)
    by_status r registered = refl
    by_status r waitlisted = refl
    by_status r withdrawn = refl
    by_status r removed = refl
    by_status r cancelled = refl

no_filter :
    (filter : Option (List RegistrationStatus))
    → parse_report_status_filter absent ≡ ok filter
    → db_statuses filter ≡ report_statuses
unfolding parse_report_status_filter
no_filter none h = refl
no_filter (some ss) h = cc

-- The totals of a report and the rows that it lists.
abbrev pub Agrees : RegistrationReport → Type 0
Agrees report =
    (count_if (λ row. same_status row.status registered) report.registrations
      ≡ report.total_confirmed)
    × (count_if (λ row. same_status row.status waitlisted) report.registrations
        ≡ report.waitlist_count)
    × (report.total_confirmed + report.available_spots ≡ report.event.capacity)

report_of-Agrees :
    (event_id : ℕ) (event : Event) (now : ℕ) (db : Db)
    → registered_count event_id db.registrations ≤ event.registration_limit
    → Agrees (report_of event_id event report_statuses now db)
unfolding report_of
report_of-Agrees event_id event now db within = (
  count-status event_id event report_statuses now db registered
      ∙ count-registered event_id db.registrations,
  count-status event_id event report_statuses now db waitlisted
      ∙ count-waitlisted event_id db.registrations,
  omega (arith, within),
)

-- In valid tables, a report that is given without a filter agrees with itself: its confirmed and
-- waiting rows are as many as its totals say, and the confirmed and the free places make up the
-- capacity.
pub get_report-Agrees :
    (identity : Option AuthenticatedUser) (id : RouteId) (now : ℕ) (db : Db)
    (report : RegistrationReport) (db' : Db)
    → Valid db
    → get_report identity id absent now db ≡ done report db'
    → Agrees report
get_report-Agrees identity id now db report db' valid run =
    let r = get_report_done identity id absent now db report db' run in
    subst Agrees
      (sym (
        r.holds
        ∙ ap (λ ss. report_of r.event_id r.event ss now db) (no_filter r.filter r.filtered)))
      (report_of-Agrees r.event_id r.event now db (valid.capacity r.event_id r.event r.found))

file_of :
    (report : RegistrationReport) (db : Db) (file : Text) (db' : Db)
    → download csv report db ≡ done (csv_file file) db'
    → build_csv report.registrations ≡ file
file_of report db file db' h = ground (arith, h)

-- A CSV is downloaded only of a report that the caller is given, and by RFC 4180 it holds the header
-- and the rows of that report, in its order.
pub export_report-csv :
    (identity : Option AuthenticatedUser) (id : RouteId) (status : StatusParameter) (now : ℕ)
    (db : Db) (file : Text) (db' : Db)
    → export_report identity id csv status now db ≡ done (csv_file file) db'
    → (report : RegistrationReport) × (get_report identity id status now db ≡ done report db)
      × (read_csv file ≡ some (csv_header ∷ map cells_of report.registrations))
unfolding export_report
export_report-csv identity id status now db file db' run =
    let (report, db₁, given, r₁) =
      bind_done (get_report identity id status now) db (csv_file file) db' _ run in
    let r = get_report_done identity id status now db report db₁ given in
    (
      report,
      given ∙ ap (λ d. done report d) r.unchanged,
      rw (sym (file_of report db₁ file db' r₁)) (read_csv-build_csv report.registrations),
    )
