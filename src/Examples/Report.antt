-- ===== src/Examples/Report.antt =====
-- The registration report and its CSV at a small database.
use is212_g5_t.Base.{
  ℕ, ◌≡◌, refl, Option, none, some, List, [], ◌∷◌, map, codes, decimal, All, Has, ◌↔◌,
}
use is212_g5_t.Schema.{Event, RegistrationStatus, AuthenticatedUser, ok, uuid}
use is212_g5_t.Transaction.{done}
use is212_g5_t.Registrations.{require_event_id}
use is212_g5_t.Report.{Text, ReportRow, csv_header, build_csv, format_report_date_time}
use is212_g5_t.Report.Reader.{read_csv}
use is212_g5_t.Report.RoundTrip.{cells_of, IsHarmless, read_csv-build_csv, build_csv-IsHarmless}
use is212_g5_t.Report.Filter.{
  StatusParameter, text, ByFirstPlace, written, parse_report_status_filter,
  parse_report_status_filter-written,
}
use is212_g5_t.Report.Listing.{
  RegistrationReport, get_report, report_of, can_view_event_registrations, csv, csv_file,
  export_report, db_statuses,
}
use is212_g5_t.Report.Delivery.{
  Contents, Agrees, get_report_lem, get_report-Agrees, export_report-csv,
}
use is212_g5_t.Examples.Sample.{talk, sample, sample-Valid, coordinator}

-- A name with a comma and a quote, a number that a spreadsheet takes for a formula, and two lines.
abbrev awkward : ReportRow
awkward = record {
  registration_id = 5;
  full_name = 79 ∷ (44 ∷ (34 ∷ []));
  email = codes "a@x";
  contact_number = codes "+65";
  registered_at = 1790562600000;
  status = RegistrationStatus.registered;
  special_requirements = some (97 ∷ (13 ∷ (10 ∷ (98 ∷ []))));
  waitlist_position = none;
  joined_at = none;
}

-- The format of the comment in report-format.ts.
report_date_test : format_report_date_time 1790562600000 ≡ codes "28 Sep 2026 10:30"
unfolding format_report_date_time decimal
report_date_test = refl

read_csv-build_csv_example :
    read_csv (build_csv (awkward ∷ [])) ≡ some (csv_header ∷ map cells_of (awkward ∷ []))
read_csv-build_csv_example = read_csv-build_csv (awkward ∷ [])

build_csv-IsHarmless_example :
    (table : List (List Text)) × (read_csv (build_csv (awkward ∷ [])) ≡ some table)
    × All (All IsHarmless) table
build_csv-IsHarmless_example = build_csv-IsHarmless (awkward ∷ [])

abbrev listed : List RegistrationStatus
listed =
    RegistrationStatus.waitlisted
    ∷ (RegistrationStatus.registered ∷ (RegistrationStatus.waitlisted ∷ []))

parse_report_status_filter-written_example :
    (filter : List RegistrationStatus) × (parse_report_status_filter (text (written listed))
      ≡ ok (some filter))
    × ((t : RegistrationStatus) → Has t filter ↔ Has t listed)
    × ByFirstPlace listed filter
parse_report_status_filter-written_example =
    parse_report_status_filter-written RegistrationStatus.waitlisted
      (RegistrationStatus.registered ∷ (RegistrationStatus.waitlisted ∷ []))

-- The report of the sample's event without a filter.
abbrev all_rows : RegistrationReport
all_rows = report_of 1 talk (db_statuses none) 100 sample

given_all :
    get_report (some coordinator) (uuid 1) StatusParameter.absent 100 sample ≡ done all_rows sample
unfolding get_report require_event_id can_view_event_registrations parse_report_status_filter
given_all = refl

get_report_lem_example :
    (sample ≡ sample)
    × ((user : AuthenticatedUser) × (event_id : ℕ) × (event : Event) × (filter : Option
          (List RegistrationStatus))
        × (some coordinator ≡ some user)
        × (uuid 1 ≡ uuid event_id)
        × (parse_report_status_filter StatusParameter.absent ≡ ok filter)
        × Contents user event_id event (db_statuses filter) sample all_rows)
get_report_lem_example =
    get_report_lem (some coordinator) (uuid 1) StatusParameter.absent 100 sample all_rows sample
      given_all

get_report-Agrees_example : Agrees all_rows
get_report-Agrees_example =
    get_report-Agrees (some coordinator) (uuid 1) 100 sample all_rows sample sample-Valid given_all

exported :
    export_report (some coordinator) (uuid 1) csv StatusParameter.absent 100 sample
    ≡ done (csv_file (build_csv all_rows.registrations)) sample
unfolding export_report get_report require_event_id can_view_event_registrations
    parse_report_status_filter
exported = refl

export_report-csv_example :
    (report : RegistrationReport) × (get_report
        (some coordinator)
        (uuid 1)
        StatusParameter.absent
        100
        sample
      ≡ done report sample)
    × (read_csv (build_csv all_rows.registrations)
        ≡ some (csv_header ∷ map cells_of report.registrations))
export_report-csv_example =
    export_report-csv (some coordinator) (uuid 1) StatusParameter.absent 100 sample
      (build_csv all_rows.registrations) sample exported
