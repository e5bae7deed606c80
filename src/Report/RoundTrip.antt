-- ===== src/Report/RoundTrip.antt =====
-- The CSV of a report, read back by the reader of RFC 4180.
use is212_g5_t.Base.{
  All, Bool, true, false, some, List, [], ◌∷◌, ◌++◌, any, map, ◌≡◌, refl, ap, ◌∙◌, sym, arith, join,
  Bool-cases, inl, inr, if◌then◌else◌,
}
use mathlib.Core.List.{append_assoc, append-nil}
use is212_g5_t.Report.{
  is_trigger, Text, is_special, double_quotes, quote_csv_cell, neutralize_csv_cell, to_csv_cell,
  crlf, lines_of, ReportRow, row_values, csv_row, build_csv, csv_header,
}
use is212_g5_t.Report.Reader.{read_csv, at_row, Mode, State, run, finish}

abbrev at : Mode → Text → List Text → List (List Text) → State
at m c r rs = record { mode = m; cell = c; row = r; rows = rs }

-- In quotes the reader takes a text with its quotes doubled for that text.
run-double_quotes :
    (t c rest : Text) (r : List Text) (rs : List (List Text))
    → run (some (at Mode.quoted c r rs)) (double_quotes t ++ rest)
      ≡ run (some (at Mode.quoted (c ++ t) r rs)) rest
unfolding run
run-double_quotes [] c rest r rs =
    ap (λ d. run (some (at Mode.quoted d r rs)) rest) (sym (append-nil c))
run-double_quotes (x ∷ t) c rest r rs =
    ground (arith, run-double_quotes t (c ++ x ∷ []) rest r rs, append_assoc c (x ∷ []) t)

run_bare :
    (t c rest : Text) (r : List Text) (rs : List (List Text))
    → any is_special t ≡ false
    → run (some (at Mode.bare c r rs)) (t ++ rest) ≡ run (some (at Mode.bare (c ++ t) r rs)) rest
unfolding run
run_bare [] c rest r rs h = ap (λ d. run (some (at Mode.bare d r rs)) rest) (sym (append-nil c))
run_bare (x ∷ t) c rest r rs h =
    ground (arith, run_bare t (c ++ x ∷ []) rest r rs, append_assoc c (x ∷ []) t)

-- The modes in which a cell may end.
data MayEnd : Mode → Type 0 where
  at_start : MayEnd Mode.start
  after_bare : MayEnd Mode.bare
  after_quote : MayEnd Mode.quote

abbrev Reads : Text → Text → Type 0
Reads code t =
    (rest : Text) (r : List Text) (rs : List (List Text))
    → (m : Mode) × MayEnd m
      × (run (some (at Mode.start [] r rs)) (code ++ rest) ≡ run (some (at m t r rs)) rest)

run_unquoted : (t : Text) → any is_special t ≡ false → Reads t t
unfolding run
run_unquoted [] h rest r rs = (Mode.start, at_start, refl)
run_unquoted (x ∷ t) h rest r rs =
    (Mode.bare, after_bare, ground (arith, run_bare t (x ∷ []) rest r rs))

run_quoted : (t : Text) → Reads (34 ∷ (double_quotes t ++ (34 ∷ []))) t
unfolding run
run_quoted t rest r rs = (
  Mode.quote,
  after_quote,
  ap (run (some (at Mode.quoted [] r rs))) (append_assoc (double_quotes t) (34 ∷ []) rest)
      ∙ run-double_quotes t [] (34 ∷ rest) r rs,
)

run_either :
    (t : Text) (b : Bool)
    → any is_special t ≡ b
    → Reads (if b then 34 ∷ (double_quotes t ++ (34 ∷ [])) else t) t
run_either t true h = run_quoted t
run_either t false h = run_unquoted t h

quote_csv_cell-Reads : (t : Text) → Reads (quote_csv_cell t) t
unfolding quote_csv_cell
quote_csv_cell-Reads t = run_either t (any is_special t) refl

run_comma :
    (t rest : Text) (r : List Text) (rs : List (List Text))
    → (m : Mode) → MayEnd m
    → run (some (at m t r rs)) (44 ∷ rest) ≡ run (some (at Mode.start [] (r ++ (t ∷ [])) rs)) rest
unfolding run
run_comma t rest r rs _ at_start = refl
run_comma t rest r rs _ after_bare = refl
run_comma t rest r rs _ after_quote = refl

run-crlf :
    (t rest : Text) (r : List Text) (rs : List (List Text))
    → (m : Mode) → MayEnd m
    → run (some (at m t r rs)) (crlf ++ rest)
      ≡ run (some (at Mode.start [] [] (rs ++ ((r ++ (t ∷ [])) ∷ [])))) rest
unfolding run
run-crlf t rest r rs _ at_start = refl
run-crlf t rest r rs _ after_bare = refl
run-crlf t rest r rs _ after_quote = refl

abbrev line : List Text → Text
line cells = join (44 ∷ []) (map quote_csv_cell cells)

-- A line of cells is read as a row of them, whatever stands before it in the row.
run-line :
    (t : Text) (ts : List Text) (rest : Text) (r : List Text) (rs : List (List Text))
    → run (some (at Mode.start [] r rs)) (line (t ∷ ts) ++ (crlf ++ rest))
      ≡ run (some (at Mode.start [] [] (rs ++ ((r ++ (t ∷ ts)) ∷ [])))) rest
run-line t [] rest r rs =
    let (m, e, eq) = quote_csv_cell-Reads t (crlf ++ rest) r rs in eq ∙ run-crlf t rest r rs m e
run-line t (u ∷ ts) rest r rs =
    let (m, e, eq) = quote_csv_cell-Reads t (44 ∷ (line (u ∷ ts) ++ (crlf ++ rest))) r rs in
    ap (run (some (at Mode.start [] r rs)))
      (append_assoc (quote_csv_cell t) (44 ∷ line (u ∷ ts)) (crlf ++ rest))
    ∙ eq
    ∙ run_comma t (line (u ∷ ts) ++ (crlf ++ rest)) r rs m e
    ∙ run-line u ts rest (r ++ (t ∷ [])) rs
    ∙ ap (λ w. run (some (at Mode.start [] [] (rs ++ (w ∷ [])))) rest)
        (append_assoc r (t ∷ []) (u ∷ ts))

-- The cells of a row as the file holds them.
unfoldable pub cells_of : ReportRow → List Text
unfolding row_values
cells_of r = map neutralize_csv_cell (row_values r)

run-lines_of :
    (rows : List ReportRow) (rs : List (List Text))
    → run (some (at_row rs)) (lines_of (map csv_row rows)) ≡ some (at_row (rs ++ map cells_of rows))
unfolding run row_values to_csv_cell cells_of
run-lines_of [] rs = ap (λ w. some (at_row w)) (sym (append-nil rs))
run-lines_of (r ∷ rows) rs =
    run-line (neutralize_csv_cell r.full_name) _ (lines_of (map csv_row rows)) [] rs
    ∙ run-lines_of rows (rs ++ (cells_of r ∷ []))
    ∙ ap (λ w. some (at_row w)) (append_assoc rs (cells_of r ∷ []) (map cells_of rows))

-- The CSV of a list of rows, read back by RFC 4180, is the header and one record for each row, in
-- the order of the rows, whose cells are the values of the row, neutralised: commas, quotes and line
-- breaks in a value neither split a cell nor end a record.
pub read_csv-build_csv :
    (rows : List ReportRow) → read_csv (build_csv rows) ≡ some (csv_header ∷ map cells_of rows)
unfolding read_csv build_csv run quote_csv_cell
read_csv-build_csv rows = ap finish (run-lines_of rows (csv_header ∷ []))

-- A cell that a spreadsheet does not take for a formula.
abbrev pub IsHarmless : Text → Type 0
IsHarmless [] = Unit
IsHarmless (c ∷ cs) = is_trigger c ≡ false

neutralize_csv_cell-IsHarmless : (t : Text) → IsHarmless (neutralize_csv_cell t)
unfolding neutralize_csv_cell
neutralize_csv_cell-IsHarmless [] = tt
neutralize_csv_cell-IsHarmless (c ∷ cs) = elim (Bool-cases (is_trigger c)) [
  | inl h ↦ ground (arith, h)
  | inr h ↦ ground (arith, h)
]

All-IsHarmless : (ts : List Text) → All IsHarmless (map neutralize_csv_cell ts)
All-IsHarmless [] = tt
All-IsHarmless (t ∷ ts) = (neutralize_csv_cell-IsHarmless t, All-IsHarmless ts)

-- None of the cells of a record is a formula for a spreadsheet.
rows-IsHarmless : (rows : List ReportRow) → All (All IsHarmless) (map cells_of rows)
unfolding cells_of
rows-IsHarmless [] = tt
rows-IsHarmless (r ∷ rows) = (All-IsHarmless (row_values r), rows-IsHarmless rows)

-- The CSV of any list of rows is read by RFC 4180, and no cell of the table read from it, header
-- included, starts with a character that a spreadsheet takes for a formula.
pub build_csv-IsHarmless :
    (rows : List ReportRow)
    → (table : List (List Text)) × (read_csv (build_csv rows) ≡ some table)
      × All (All IsHarmless) table
build_csv-IsHarmless rows = (
  csv_header ∷ map cells_of rows,
  read_csv-build_csv rows,
  ((refl, (refl, (refl, (refl, (refl, (refl, tt)))))), rows-IsHarmless rows),
)
