-- ===== src/Report/Reader.antt =====
-- A reader of CSV by RFC 4180, on its own: records end with CRLF, cells are parted by commas, a cell
-- in quotes may hold any character, and a quote in it is doubled.
use is212_g5_t.Base.{ℕ, Option, none, some, List, [], ◌∷◌, ◌++◌, ◌==◌, if◌then◌else◌}
use is212_g5_t.Report.{Text}

-- Where the reader stands: at the start of a cell, in a bare cell, in a quoted one, after a quote in
-- it, or after a CR.
pub data Mode : Type 0 where
  start bare quoted quote cr : Mode

pub record State : Type 0 where
  pub mode : Mode
  pub cell : Text
  pub row : List Text
  pub rows : List (List Text)

abbrev pub add_char : State → Mode → ℕ → State
add_char s m c = record s { mode = m; cell = s.cell ++ (c ∷ []) }

abbrev pub end_cell : State → State
end_cell s = record s { mode = Mode.start; cell = []; row = s.row ++ (s.cell ∷ []) }

abbrev pub end_row : State → State
end_row s = record {
  mode = Mode.start;
  cell = [];
  row = [];
  rows = s.rows ++ ((s.row ++ (s.cell ∷ [])) ∷ []);
}

-- What follows a cell that may end here: a comma or a CR; else the last result.
abbrev pub close : State → ℕ → Option State → Option State
close s c otherwise =
    if c == 44
    then some (end_cell s)
    else if c == 13
    then some (record s { mode = Mode.cr })
    else otherwise

abbrev pub plain : State → ℕ → Option State
plain s c = if c == 34 then none else if c == 10 then none else some (add_char s Mode.bare c)

abbrev pub step_in : Mode → State → ℕ → Option State
step_in Mode.start s c =
    close s c (if c == 34 then some (record s { mode = Mode.quoted }) else plain s c)
step_in Mode.bare s c = close s c (plain s c)
step_in Mode.quoted s c =
    if c == 34 then some (record s { mode = Mode.quote }) else some (add_char s Mode.quoted c)
step_in Mode.quote s c = close s c (if c == 34 then some (add_char s Mode.quoted 34) else none)
step_in Mode.cr s c = if c == 10 then some (end_row s) else none

abbrev pub step : State → ℕ → Option State
step s c = step_in s.mode s c

abbrev pub next : Option State → ℕ → Option State
next none c = none
next (some s) c = step s c

unfoldable pub run : Option State → Text → Option State
run s [] = s
run s (c ∷ cs) = run (next s c) cs

abbrev pub finish_in : Mode → State → Option (List (List Text))
finish_in Mode.start s = some s.rows
finish_in _ s = none

abbrev pub finish : Option State → Option (List (List Text))
finish none = none
finish (some s) = finish_in s.mode s

abbrev pub at_row : List (List Text) → State
at_row rows = record { mode = Mode.start; cell = []; row = []; rows = rows }

-- After an optional byte order mark.
abbrev pub without_bom : Text → Text
without_bom [] = []
without_bom (c ∷ cs) = if c == 65279 then cs else c ∷ cs

unfoldable pub read_csv : Text → Option (List (List Text))
unfolding run
read_csv text = finish (run (some (at_row [])) (without_bom text))
