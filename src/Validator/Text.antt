-- ===== src/Validator/Text.antt =====
-- `std::str::from_utf8` and the trimming of an extension. A text is the list of its scalar values.
pub mod Extension
use file_recovery_engine.Prelude.{
  ℕ, ◌+◌, ◌-◌, ◌*◌, Bool, ◌||◌, ◌&&◌, Option, none, some, List, [], ◌∷◌, ◌++◌, suc,
}
use file_recovery_engine.Prelude.{ltb, leb, ◌==◌, if◌then◌else◌}
use file_recovery_engine.Prelude.Bytes.{Bytes}

abbrev pub between : ℕ → ℕ → ℕ → Bool
between lo hi b = leb lo b && leb b hi

-- Between two scalar values, or inside one: how many bytes are left, the bits so far and the range
-- of the next byte.
pub data Pending : Type 0 where
  start : Pending
  more : (left acc lo hi : ℕ) → Pending

abbrev pub utf8_step : Pending → ℕ → Option (Pending × List ℕ)
utf8_step start b =
    if ltb b 0x80
    then some (start, b ∷ [])
    else if between 0xC2 0xDF b
    then some (more 1 (b - 0xC0) 0x80 0xBF, [])
    else if b == 0xE0
    then some (more 2 0 0xA0 0xBF, [])
    else if b == 0xED
    then some (more 2 0xD 0x80 0x9F, [])
    else if between 0xE1 0xEF b
    then some (more 2 (b - 0xE0) 0x80 0xBF, [])
    else if b == 0xF0
    then some (more 3 0 0x90 0xBF, [])
    else if between 0xF1 0xF3 b
    then some (more 3 (b - 0xF0) 0x80 0xBF, [])
    else if b == 0xF4
    then some (more 3 4 0x80 0x8F, [])
    else none
utf8_step (more left acc lo hi) b =
    let next = acc * 64 + (b - 0x80) in
    if between lo hi b
    then (if left == 1 then some (start, next ∷ []) else some (more (left - 1) next 0x80 0xBF, []))
    else none

unfoldable pub utf8_chars : Pending → Bytes → Option (List ℕ)
utf8_chars start [] = some []
utf8_chars (more left acc lo hi) [] = none
utf8_chars pending (b ∷ bytes) = elim (utf8_step pending b) [
  | none ↦ none
  | some (next, chars) ↦ elim (utf8_chars next bytes) [
    | none ↦ none
    | some rest ↦ some (chars ++ rest)
  ]
]

abbrev pub from_utf8 : Bytes → Option (List ℕ)
from_utf8 bytes = utf8_chars start bytes

-- `ch.is_ascii_graphic() || ch.is_ascii_whitespace()`.
abbrev pub is_printable : ℕ → Bool
is_printable ch = between 0x21 0x7E ch || (ch == 32 || ch == 9 || ch == 10 || ch == 12 || ch == 13)

unfoldable pub count_printable : List ℕ → ℕ
count_printable [] = 0
count_printable (ch ∷ text) =
    let rest = count_printable text in if is_printable ch then suc rest else rest

-- `char::is_whitespace`.
abbrev pub is_whitespace : ℕ → Bool
is_whitespace ch =
    between 9 13 ch
    || ch == 32
    || ch == 0x85
    || ch == 0xA0
    || ch == 0x1680
    || between 0x2000 0x200A ch
    || ch == 0x2028
    || ch == 0x2029
    || ch == 0x202F
    || ch == 0x205F
    || ch == 0x3000

unfoldable pub trim_start : (ℕ → Bool) → List ℕ → List ℕ
trim_start skip [] = []
trim_start skip (ch ∷ text) = let rest = trim_start skip text in if skip ch then rest else ch ∷ text

unfoldable pub trim_end : (ℕ → Bool) → List ℕ → List ℕ
trim_end skip [] = []
trim_end skip (ch ∷ text) = elim (trim_end skip text) [
  | [] ↦ if skip ch then [] else ch ∷ []
  | c ∷ rest ↦ ch ∷ c ∷ rest
]

-- `raw_extension.trim().trim_start_matches('.').to_ascii_lowercase()`.
abbrev pub to_ascii_lowercase : List ℕ → List ℕ
to_ascii_lowercase [] = []
to_ascii_lowercase (ch ∷ text) =
    (if between 65 90 ch then ch + 32 else ch) ∷ to_ascii_lowercase text

unfoldable pub normalize_extension : List ℕ → List ℕ
unfolding trim_start trim_end
normalize_extension raw_extension =
    to_ascii_lowercase (
      trim_start (λ ch. ch == 46) (trim_start is_whitespace (trim_end is_whitespace raw_extension)))
