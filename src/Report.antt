-- ===== src/Report.antt =====
-- The CSV of the registration report (backend/src/registrations/report/export.service.ts,
-- report-format.ts, report-types.ts), on the code points of its texts.
pub mod Reader
pub mod RoundTrip
pub mod Filter
pub mod Listing
pub mod Contents
pub mod Delivery
use is212_g5_t.Base.{
  ℕ, ◌+◌, ◌-◌, ◌*◌, ◌/◌, ◌%◌, Bool, true, false, ◌||◌, Option, none, some, List, [], ◌∷◌, ◌++◌,
  ◌==◌, ltb, any, map, if◌then◌else◌, codes, join, decimal,
}
use is212_g5_t.Schema.{RegistrationStatus, registered, withdrawn, cancelled, waitlisted, removed}

abbrev pub Text : Type 0
Text = List ℕ

-- CSV_FORMULA_TRIGGERS: = + - @, tab and carriage return.
abbrev pub is_trigger : ℕ → Bool
is_trigger c = c == 61 || (c == 43 || (c == 45 || (c == 64 || (c == 9 || c == 13))))

-- A single quote goes before a cell that a spreadsheet would take for a formula.
unfoldable pub neutralize_csv_cell : Text → Text
neutralize_csv_cell [] = []
neutralize_csv_cell (c ∷ cs) = if is_trigger c then 39 ∷ (c ∷ cs) else c ∷ cs

-- Comma, quote, CR and LF.
abbrev pub is_special : ℕ → Bool
is_special c = c == 34 || (c == 44 || (c == 13 || c == 10))

abbrev pub double_quotes : Text → Text
double_quotes [] = []
double_quotes (c ∷ cs) =
    let rest = double_quotes cs in if c == 34 then 34 ∷ (34 ∷ rest) else c ∷ rest

unfoldable pub quote_csv_cell : Text → Text
quote_csv_cell cell = if any is_special cell then 34 ∷ (double_quotes cell ++ (34 ∷ [])) else cell

unfoldable pub to_csv_cell : Text → Text
unfolding neutralize_csv_cell quote_csv_cell
to_csv_cell value = quote_csv_cell (neutralize_csv_cell value)

-- REPORT_STATUS_LABELS.
unfoldable pub status_label : RegistrationStatus → Text
status_label registered = codes "Confirmed"
status_label waitlisted = codes "Waitlisted"
status_label withdrawn = codes "Withdrawn"
status_label removed = codes "Removed"
status_label cancelled = codes "Cancelled"

-- The Singapore calendar of an instant from 1970 on: Asia/Singapore is UTC+8 with no summer time.
pub record SgtFields : Type 0 where
  pub day : ℕ
  pub month : ℕ
  pub year : ℕ
  pub hour : ℕ
  pub minute : ℕ

-- The proleptic Gregorian date of a day number, counted from 1 March of the year 0.
abbrev civil : ℕ → ℕ → SgtFields
civil days minutes =
    let era = days / 146097 in
    let doe = days % 146097 in
    let yoe = (doe + doe / 36524 - doe / 1460 - doe / 146096) / 365 in
    let doy = doe - (365 * yoe + yoe / 4 - yoe / 100) in
    let mp = (5 * doy + 2) / 153 in
    record {
      day = doy - (153 * mp + 2) / 5 + 1;
      month = if ltb mp 10 then mp + 3 else mp - 9;
      year = yoe + era * 400 + (if ltb mp 10 then 0 else 1);
      hour = minutes / 60;
      minute = minutes % 60;
    }

unfoldable pub sgt_fields : ℕ → SgtFields
sgt_fields instant =
    let minutes = instant / 60000 + 480 in civil (minutes / 1440 + 719468) (minutes % 1440)

abbrev month_name : ℕ → Text
month_name m =
    if m == 1
    then codes "Jan"
    else if m == 2
    then codes "Feb"
    else if m == 3
    then codes "Mar"
    else if m == 4
    then codes "Apr"
    else if m == 5
    then codes "May"
    else if m == 6
    then codes "Jun"
    else if m == 7
    then codes "Jul"
    else if m == 8
    then codes "Aug"
    else if m == 9
    then codes "Sep"
    else if m == 10
    then codes "Oct"
    else if m == 11
    then codes "Nov"
    else codes "Dec"

abbrev two_digits : ℕ → Text
two_digits n = if ltb n 10 then 48 ∷ decimal n else decimal n

unfoldable pub date_of : SgtFields → Text
date_of f = decimal f.day ++ (32 ∷ (month_name f.month ++ (32 ∷ decimal f.year)))

unfoldable pub time_of : SgtFields → Text
time_of f = two_digits f.hour ++ (58 ∷ two_digits f.minute)

unfoldable pub format_report_date_time : ℕ → Text
unfolding sgt_fields date_of time_of
format_report_date_time instant = let f = sgt_fields instant in date_of f ++ (32 ∷ time_of f)

pub record ReportRow : Type 0 where
  pub registration_id : ℕ
  pub full_name : Text
  pub email : Text
  pub contact_number : Text
  pub registered_at : ℕ
  pub status : RegistrationStatus
  pub special_requirements : Option Text
  pub waitlist_position : Option ℕ
  pub joined_at : Option ℕ

abbrev or_empty : Option Text → Text
or_empty none = []
or_empty (some t) = t

-- The cells of a row before they are neutralised and quoted.
unfoldable pub row_values : ReportRow → List Text
unfolding format_report_date_time status_label
row_values r =
    r.full_name
    ∷ (r.email
        ∷ (r.contact_number
            ∷ (or_empty r.special_requirements
                ∷ (format_report_date_time r.registered_at ∷ (status_label r.status ∷ [])))))

abbrev pub csv_header : List Text
csv_header =
    codes "Name"
    ∷ (codes "Email"
        ∷ (codes "Contact Number"
            ∷ (codes "Special Requirements" ∷ (codes "Registration Date" ∷ (codes "Status" ∷ [])))))

abbrev pub crlf : Text
crlf = 13 ∷ (10 ∷ [])

abbrev pub add_line : Text → Text → Text
add_line line rest = line ++ (crlf ++ rest)

abbrev pub lines_of : List Text → Text
lines_of [] = []
lines_of (l ∷ ls) = add_line l (lines_of ls)

abbrev pub csv_row : ReportRow → Text
csv_row r = join (44 ∷ []) (map to_csv_cell (row_values r))

-- UTF-8 with a byte order mark, CRLF after every record; here before the encoding.
unfoldable pub build_csv : List ReportRow → Text
build_csv rows = 65279 ∷ lines_of (join (44 ∷ []) csv_header ∷ map csv_row rows)
