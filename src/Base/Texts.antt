-- ===== src/Base/Texts.antt =====
-- Texts as lists of their code points, or code units.
use Prim.Native.Char.{code}
use Prim.Native.Nat.{ℕ, zero, suc, ◌+◌, ◌/◌, ◌%◌}
use Prim.Native.String.{String}
use mathlib.Core.Bool.{Bool, true, false, ◌&&◌, ◌||◌}
use mathlib.Core.List.{List, [], ◌∷◌, ◌++◌}
use is212_g5_t.Base.Tests.{leb, ltb, ◌==◌, if◌then◌else◌}
use is212_g5_t.Base.Quantifiers.{is_empty}

-- White space of `trim`: tab to carriage return, space, no-break space and the Unicode spaces.
abbrev pub is_space : ℕ → Bool
is_space c =
    leb 9 c && leb c 13
    || (c == 32
        || (c == 160
            || (c == 5760
                || (leb 8192 c && leb c 8202
                    || (c == 8232
                        || (c == 8233
                            || (c == 8239 || (c == 8287 || (c == 12288 || c == 65279)))))))))

abbrev pub trim_start : List ℕ → List ℕ
trim_start [] = []
trim_start (c ∷ cs) = let rest = trim_start cs in if is_space c then rest else c ∷ cs

abbrev pub trim_end : List ℕ → List ℕ
trim_end [] = []
trim_end (c ∷ cs) = let rest = trim_end cs in if is_space c && is_empty rest then [] else c ∷ rest

-- `String.prototype.trim`.
abbrev pub trim : List ℕ → List ℕ
trim text = trim_end (trim_start text)

-- The code points of a literal, which are its code units where it is ASCII.
abbrev pub codes : String → List ℕ
codes String.[] = []
codes (String.◌∷◌ c s) = code c ∷ codes s

-- `Array.join` with one separator.
abbrev pub join : List ℕ → List (List ℕ) → List ℕ
join separator [] = []
join separator (t ∷ []) = t
join separator (t ∷ (u ∷ ts)) = t ++ (separator ++ join separator (u ∷ ts))

-- A number in decimal: the digits are fewer than the number and one.
decimal_within : ℕ → ℕ → List ℕ
decimal_within zero n = []
decimal_within (suc fuel) n =
    let more = decimal_within fuel (n / 10) ++ ((48 + n % 10) ∷ []) in
    if ltb n 10 then (48 + n) ∷ [] else more

unfoldable pub decimal : ℕ → List ℕ
unfolding decimal_within
decimal n = decimal_within (suc n) n

-- `===` on two texts.
abbrev pub same_text : List ℕ → List ℕ → Bool
same_text [] [] = true
same_text (a ∷ ws) (b ∷ bs) = a == b && same_text ws bs
same_text _ _ = false

-- `String.prototype.split` at one code unit.
abbrev pub add_first : ℕ → List (List ℕ) → List (List ℕ)
add_first c [] = (c ∷ []) ∷ []
add_first c (part ∷ parts) = (c ∷ part) ∷ parts

abbrev pub split : ℕ → List ℕ → List (List ℕ)
split separator [] = [] ∷ []
split separator (c ∷ cs) =
    let rest = split separator cs in if c == separator then [] ∷ rest else add_first c rest
