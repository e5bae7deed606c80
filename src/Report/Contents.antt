-- ===== src/Report/Contents.antt =====
-- What the registration report and its CSV hold
-- (backend/src/registrations/registrations.service.ts, getReport; registrations.controller.ts).
use is212_g5_t.Base.{
  ℕ, ◌≡◌, refl, ◌∙◌, Bool, true, false, not, ◌&&◌, ◌==◌, Option, some, List, [], ◌∷◌, any, keep,
  arith, count_if, count_if-map, count_if-keep, count_if-sort_in, if◌then◌else◌,
}
use is212_g5_t.Schema.{
  Event, Registration, RegistrationStatus, Db, AuthenticatedUser, RouteId, uuid, malformed, Refusal,
  Result, ok, err, find_event,
}
use is212_g5_t.Transaction.{M, done, ◌>>=◌}
use is212_g5_t.Transaction.Inverting.{require_then_done, throw_if_then_done}
use is212_g5_t.Registrations.{require_event_id}
use is212_g5_t.Report.Filter.{StatusParameter, same_status, parse_report_status_filter}
use is212_g5_t.Report.Listing.{
  can_view_event_registrations, order_by, report_columns, lists_before, is_listed, listed_rows,
  report_row, RegistrationReport, db_statuses, report_of, get_report, of_result,
}

order_by_asym :
    (columns : List (Registration → Option ℕ)) (a b : Registration)
    → order_by columns a b ≡ true
    → order_by columns b a ≡ false
order_by_asym [] a b h = cc
order_by_asym (column ∷ columns) a b h = ground (arith, order_by_asym columns a b)

pub lists_before_asym : (a b : Registration) → lists_before a b ≡ true → lists_before b a ≡ false
unfolding lists_before
lists_before_asym = order_by_asym report_columns

count-listed_rows :
    (event_id : ℕ) (statuses : List RegistrationStatus) (db : Db) (p : Registration → Bool)
    → count_if p (listed_rows event_id statuses db)
      ≡ count_if (λ r. is_listed event_id statuses r && p r) db.registrations
unfolding listed_rows
count-listed_rows event_id statuses db p =
    count_if-sort_in lists_before p (keep (is_listed event_id statuses) db.registrations)
    ∙ count_if-keep p (is_listed event_id statuses) db.registrations

-- The rows of the report are counted by status as the table's of that event.
any-same :
    (s t : RegistrationStatus) (ss : List RegistrationStatus)
    → same_status t s ≡ true
    → any (same_status t) ss ≡ any (same_status s) ss
any-same s t [] h = refl
any-same s t (u ∷ ss) h = ground (arith, any-same s t ss h)

abbrev pub has_status : ℕ → RegistrationStatus → Registration → Bool
has_status event_id s r = r.event_id == event_id && same_status r.status s

listed_status :
    (event_id : ℕ) (ss : List RegistrationStatus) (s : RegistrationStatus)
    (rows : List Registration)
    → count_if (λ r. is_listed event_id ss r && same_status r.status s) rows
      ≡ (if any (same_status s) ss then count_if (has_status event_id s) rows else 0)
listed_status event_id ss s [] = ground arith
listed_status event_id ss s (r ∷ rows) =
    ground (arith, any-same s r.status ss, listed_status event_id ss s rows)

-- The rows of the report with a status are those of the event in the table, where the filter names
-- it.
pub count-status :
    (event_id : ℕ) (e : Event) (ss : List RegistrationStatus) (now : ℕ) (db : Db)
    (s : RegistrationStatus)
    → count_if (λ row. same_status row.status s) (report_of event_id e ss now db).registrations
      ≡ (if any (same_status s) ss then count_if (has_status event_id s) db.registrations else 0)
unfolding report_of report_row
count-status event_id e ss now db s =
    count_if-map (λ row. same_status row.status s) (report_row db.registrations)
      (listed_rows event_id ss db)
    ∙ count-listed_rows event_id ss db (λ r. same_status r.status s)
    ∙ listed_status event_id ss s db.registrations

-- A report that is given: who asked, of which event, with which filter, and what the report holds.
pub record Reported (identity : Option AuthenticatedUser) (id : RouteId) (status : StatusParameter)
    (now : ℕ) (db : Db) (report : RegistrationReport) (db' : Db) : Type 0 where
  pub user : AuthenticatedUser
  pub event_id : ℕ
  pub event : Event
  pub filter : Option (List RegistrationStatus)
  pub is_user : identity ≡ some user
  pub of_event : id ≡ uuid event_id
  pub found : find_event event_id db.events ≡ some event
  pub manages : can_view_event_registrations user event.coordinator_id event.organiser_id ≡ true
  pub filtered : parse_report_status_filter status ≡ ok filter
  pub holds : report ≡ report_of event_id event (db_statuses filter) now db
  pub unchanged : db' ≡ db

result_done :
    {A B : Type 0} (r : Result A) (f : A → M B) (db : Db) (b : B) (db' : Db)
    → (of_result r >>= f) db ≡ done b db'
    → (a : A) × (r ≡ ok a) × (f a db ≡ done b db')
result_done (ok a) f db b db' run = (a, refl, run)
result_done (err e) f db b db' run = absurd (ground arith)

pub get_report_done :
    (identity : Option AuthenticatedUser) (id : RouteId) (status : StatusParameter) (now : ℕ)
    (db : Db) (report : RegistrationReport) (db' : Db)
    → get_report identity id status now db ≡ done report db'
    → Reported identity id status now db report db'
unfolding get_report require_event_id
get_report_done identity malformed status now db report db' run =
    let (user, is_user, r₁) =
      require_then_done db report db' identity Refusal.authentication_required _ run in
    absurd (ground arith)
get_report_done identity (uuid event_id) status now db report db' run =
    let (user, is_user, r₁) =
      require_then_done db report db' identity Refusal.authentication_required _ run in
    let (event, found, r₂) =
      require_then_done db report db' (find_event event_id db.events) Refusal.event_not_found _
        r₁ in
    let (may, r₃) =
      throw_if_then_done db report db'
        (not (can_view_event_registrations user event.coordinator_id event.organiser_id))
        Refusal.report_forbidden _ r₂ in
    let (filter, filtered, r₄) =
      result_done (parse_report_status_filter status) _ db report db' r₃ in
    record {
      user = user;
      event_id = event_id;
      event = event;
      filter = filter;
      is_user = is_user;
      of_event = refl;
      found = found;
      manages = ground (arith, may);
      filtered = filtered;
      holds = ground (arith, r₄);
      unchanged = ground (arith, r₄);
    }
