-- ===== src/Checklist/Texts.antt =====
-- equipmentRequired (backend/src/events/status/checklist.ts), on the code units of a text.
use is212_g5_t.Base.{
  ℕ, ◌+◌, Bool, not, ◌&&◌, List, [], ◌∷◌, map, leb, if◌then◌else◌, is_empty, trim, same_text,
}

-- `toLowerCase` on the letters A to Z; no other code unit becomes a letter of "none".
abbrev pub to_lower : ℕ → ℕ
to_lower c = if leb 65 c && leb c 90 then 32 + c else c

abbrev none_text : List ℕ
none_text = 110 ∷ 111 ∷ 110 ∷ 101 ∷ []

unfoldable pub equipment_required : List ℕ → Bool
equipment_required needs =
    let text = map to_lower (trim needs) in not (is_empty text) && not (same_text text none_text)
