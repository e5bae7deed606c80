-- ===== src/Report/Filter.antt =====
-- The status filter of the registration report
-- (backend/src/registrations/report/report-status.ts).
use is212_g5_t.Base.{
  ℕ, Bool, true, false, not, ◌||◌, Option, none, some, List, [], ◌∷◌, any, map, keep, codes, trim,
  split, same_text, is_empty, if◌then◌else◌, join, ◌≡◌, refl, ◌++◌, ◌==◌, ap, ◌∙◌, suc, ◌<◌, ◌↔◌,
  Has, keep-Has, Has-keep, Bool-cases, inl, inr, sym, arith,
}
use is212_g5_t.Schema.{
  RegistrationStatus, registered, withdrawn, cancelled, waitlisted, removed, Refusal, Result, ok,
  err,
}
use is212_g5_t.Report.{Text}

-- The place of a status in REPORT_STATUSES, which are compared as texts.
abbrev pub place : RegistrationStatus → ℕ
place registered = 0
place waitlisted = 1
place withdrawn = 2
place removed = 3
place cancelled = 4

abbrev pub same_status : RegistrationStatus → RegistrationStatus → Bool
same_status s t = place s == place t

-- REPORT_STATUSES, which stand for the stored statuses one for one.
abbrev pub report_statuses : List RegistrationStatus
report_statuses = registered ∷ (waitlisted ∷ (withdrawn ∷ (removed ∷ (cancelled ∷ []))))

unfoldable pub report_status_text : RegistrationStatus → Text
report_status_text registered = codes "registered"
report_status_text waitlisted = codes "waitlisted"
report_status_text withdrawn = codes "withdrawn"
report_status_text removed = codes "removed"
report_status_text cancelled = codes "cancelled"

-- A query parameter: not given, a text, or what else the query parser makes of it.
pub data StatusParameter : Type 0 where
  absent : StatusParameter
  text : Text → StatusParameter
  other : StatusParameter

abbrev find_status : List RegistrationStatus → Text → Option RegistrationStatus
unfolding report_status_text
find_status [] t = none
find_status (s ∷ ss) t =
    let rest = find_status ss t in if same_text t (report_status_text s) then some s else rest

unfoldable pub status_of : Text → Option RegistrationStatus
unfolding find_status
status_of t = find_status report_statuses t

abbrev is_unknown : Text → Bool
unfolding status_of
is_unknown t = elim (status_of t) [ none ↦ true | some s ↦ false ]

abbrev add_known : Option RegistrationStatus → List RegistrationStatus → List RegistrationStatus
add_known none ss = ss
add_known (some s) ss = s ∷ ss

abbrev known : List Text → List RegistrationStatus
unfolding status_of
known [] = []
known (t ∷ ts) = add_known (status_of t) (known ts)

-- `[...new Set(values)]`: the first of each value, in the order of the list.
abbrev pub unique : List RegistrationStatus → List RegistrationStatus
unique [] = []
unique (s ∷ ss) = s ∷ keep (λ t. not (same_status s t)) (unique ss)

abbrev values_of : StatusParameter → List Text
values_of (text t) = map trim (split 44 t)
values_of _ = []

abbrev parse_values : List Text → Result (Option (List RegistrationStatus))
unfolding is_unknown known
parse_values values =
    if is_empty values || any is_unknown values
    then err Refusal.validation
    else ok (some (unique (known values)))

unfoldable pub parse_report_status_filter :
    StatusParameter → Result (Option (List RegistrationStatus))
unfolding parse_values
parse_report_status_filter absent = ok none
parse_report_status_filter raw = parse_values (values_of raw)

-- The parameter that a client writes for a list of statuses.
abbrev pub written : List RegistrationStatus → Text
unfolding report_status_text
written ss = join (44 ∷ []) (map report_status_text ss)

split_one :
    (s : RegistrationStatus)
    → map trim (split 44 (report_status_text s)) ≡ report_status_text s ∷ []
unfolding report_status_text
split_one registered = refl
split_one waitlisted = refl
split_one withdrawn = refl
split_one removed = refl
split_one cancelled = refl

split_first :
    (s : RegistrationStatus) (rest : Text)
    → map trim (split 44 (report_status_text s ++ (44 ∷ rest)))
      ≡ report_status_text s ∷ map trim (split 44 rest)
unfolding report_status_text
split_first registered rest = refl
split_first waitlisted rest = refl
split_first withdrawn rest = refl
split_first removed rest = refl
split_first cancelled rest = refl

split-written :
    (s : RegistrationStatus) (ss : List RegistrationStatus)
    → map trim (split 44 (written (s ∷ ss))) ≡ map report_status_text (s ∷ ss)
unfolding written
split-written s [] = split_one s
split-written s (t ∷ ts) =
    split_first s (written (t ∷ ts)) ∙ ap (λ w. report_status_text s ∷ w) (split-written t ts)

status_of_text : (s : RegistrationStatus) → status_of (report_status_text s) ≡ some s
unfolding status_of report_status_text
status_of_text registered = refl
status_of_text waitlisted = refl
status_of_text withdrawn = refl
status_of_text removed = refl
status_of_text cancelled = refl

known-map : (ss : List RegistrationStatus) → known (map report_status_text ss) ≡ ss
unfolding known
known-map [] = refl
known-map (s ∷ ss) = rw (status_of_text s) (ap (λ w. s ∷ w) (known-map ss))

none_unknown : (ss : List RegistrationStatus) → any is_unknown (map report_status_text ss) ≡ false
unfolding is_unknown
none_unknown [] = refl
none_unknown (s ∷ ss) = rw (is_unknown, status_of_text s) (none_unknown ss)

-- How many entries stand before the first place of a status.
abbrev pub first_place : RegistrationStatus → List RegistrationStatus → ℕ
first_place t [] = 0
first_place t (s ∷ ss) = if same_status t s then 0 else suc (first_place t ss)

-- Each entry's first place in a list is before those of the entries after it; so none comes twice.
abbrev pub ByFirstPlace : List RegistrationStatus → List RegistrationStatus → Type 0
ByFirstPlace list [] = Unit
ByFirstPlace list (s ∷ ss) =
    ((t : RegistrationStatus) → Has t ss → first_place s list < first_place t list)
    × ByFirstPlace list ss

same_status_iff : (s t : RegistrationStatus) → same_status s t ≡ true → s ≡ t
same_status_iff s t h = ground arith

unique-Has : (t : RegistrationStatus) (ss : List RegistrationStatus) → Has t (unique ss) → Has t ss
unique-Has t [] m = m
unique-Has t (s ∷ ss) (inl e) = inl e
unique-Has t (s ∷ ss) (inr m) =
    inr (unique-Has t ss (keep-Has (λ x. not (same_status s x)) (unique ss) t m).0)

Has-unique : (t : RegistrationStatus) (ss : List RegistrationStatus) → Has t ss → Has t (unique ss)
Has-unique t [] m = m
Has-unique t (s ∷ ss) (inl e) = inl e
Has-unique t (s ∷ ss) (inr m) = elim (Bool-cases (same_status s t)) [
  | inl same ↦ inl (sym (same_status_iff s t same))
  | inr differs ↦
      inr
        (Has-keep (λ x. not (same_status s x)) (unique ss) t (Has-unique t ss m) (rw differs refl))
]

-- Where none of the entries is `s`, their places behind it are in the same order.
ByFirstPlace-keep :
    (s : RegistrationStatus) (list ss : List RegistrationStatus)
    → ByFirstPlace list ss
    → ByFirstPlace (s ∷ list) (keep (λ x. not (same_status s x)) ss)
ByFirstPlace-keep s list [] h = tt
ByFirstPlace-keep s list (t ∷ ss) (least, h) = elim (Bool-cases (same_status s t)) [
  | inl same ↦ rw same (ByFirstPlace-keep s list ss h)
  | inr differs ↦ rw differs (
    λ u m.
        let (n, kept) = keep-Has (λ x. not (same_status s x)) ss u m in
        let lt = least u n in ground arith,
    ByFirstPlace-keep s list ss h,
  )
]

unique-ByFirstPlace : (ss : List RegistrationStatus) → ByFirstPlace ss (unique ss)
unique-ByFirstPlace [] = tt
unique-ByFirstPlace (s ∷ ss) = (
  λ t m. let (n, kept) = keep-Has (λ x. not (same_status s x)) (unique ss) t m in ground arith,
  ByFirstPlace-keep s ss (unique ss) (unique-ByFirstPlace ss),
)

-- The filter read from the text that names a list of one or more statuses, comma-separated, has the
-- statuses of the list and no others, each once, in the order of their first places in the list.
pub parse_report_status_filter-written :
    (s : RegistrationStatus) (ss : List RegistrationStatus)
    → (filter : List RegistrationStatus) × (parse_report_status_filter (text (written (s ∷ ss)))
        ≡ ok (some filter))
      × ((t : RegistrationStatus) → Has t filter ↔ Has t (s ∷ ss))
      × ByFirstPlace (s ∷ ss) filter
unfolding parse_report_status_filter parse_values
parse_report_status_filter-written s ss = (
  unique (s ∷ ss),
  rw (split-written s ss, none_unknown (s ∷ ss), known-map (s ∷ ss)) refl,
  λ t. (unique-Has t (s ∷ ss), Has-unique t (s ∷ ss)),
  unique-ByFirstPlace (s ∷ ss),
)
