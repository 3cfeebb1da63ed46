-- ===== src/Prelude/Text.antt =====
-- `String::from_utf16`, `String::from_utf16_lossy` and their inverse. A text is the list of its
-- scalar values.
use file_recovery_engine.Prelude.{
  ℕ, zero, suc, ◌+◌, ◌-◌, ◌*◌, ◌/◌, ◌%◌, ◌≤◌, ◌<◌, ◌≡◌, refl, ap, ◌∙◌, arith, inl, inr, ◌⊎◌,
}
use file_recovery_engine.Prelude.{
  Bool, true, false, ◌&&◌, Option, none, some, List, [], ◌∷◌, ◌++◌, ltb, leb, if◌then◌else◌, length,
  All, Bool-cases,
}
use mathlib.Core.Path.{subst}
use file_recovery_engine.Prelude.Bytes.{Bytes}

-- The text behind one more element.
abbrev then_char : ℕ → Option (List ℕ) → Option (List ℕ)
then_char c none = none
then_char c (some rest) = some (c ∷ rest)

-- `u16::from_le_bytes` over pairs of bytes; `none` is the panic of an odd byte at the end.
unfoldable pub code_units : Bytes → Option (List ℕ)
code_units [] = some []
code_units (b ∷ []) = none
code_units (b ∷ c ∷ bytes) = then_char (b + 256 * c) (code_units bytes)

-- Surrogates come in pairs, a high one and then a low one.
abbrev pub is_high : ℕ → Bool
is_high u = leb 0xD800 u && ltb u 0xDC00

abbrev pub is_low : ℕ → Bool
is_low u = leb 0xDC00 u && ltb u 0xE000

abbrev pub joined : ℕ → ℕ → ℕ
joined high low = 0x10000 + (high - 0xD800) * 1024 + (low - 0xDC00)

-- `String::from_utf16`. The first argument is a high surrogate that waits for its low one.
unfoldable pub decode_utf16 : Option ℕ → List ℕ → Option (List ℕ)
decode_utf16 none [] = some []
decode_utf16 (some high) [] = none
decode_utf16 none (u ∷ units) = elim (is_high u) [
  | true ↦ decode_utf16 (some u) units
  | false ↦ elim (is_low u) [ true ↦ none | false ↦ then_char u (decode_utf16 none units) ]
]
decode_utf16 (some high) (u ∷ units) = elim (is_low u) [
  | true ↦ then_char (joined high u) (decode_utf16 none units)
  | false ↦ none
]

-- `String::from_utf16_lossy`: U+FFFD in place of a surrogate without its partner.
unfoldable pub from_utf16_lossy : Option ℕ → List ℕ → List ℕ
from_utf16_lossy none [] = []
from_utf16_lossy (some high) [] = 0xFFFD ∷ []
from_utf16_lossy none (u ∷ units) = elim (is_high u) [
  | true ↦ from_utf16_lossy (some u) units
  | false ↦ elim (is_low u) [
    | true ↦ 0xFFFD ∷ from_utf16_lossy none units
    | false ↦ u ∷ from_utf16_lossy none units
  ]
]
from_utf16_lossy (some high) (u ∷ units) = elim (is_low u) [
  | true ↦ joined high u ∷ from_utf16_lossy none units
  | false ↦ elim (is_high u) [
    | true ↦ 0xFFFD ∷ from_utf16_lossy (some u) units
    | false ↦ 0xFFFD ∷ u ∷ from_utf16_lossy none units
  ]
]

-- A Unicode scalar value: what a `char` of Rust holds.
abbrev pub IsScalar : ℕ → Type 0
IsScalar c = (c < 0xD800) ⊎ ((0xE000 ≤ c) × (c < 0x110000))

-- The code units of a text and their bytes, little-endian.
abbrev pub utf16_char : ℕ → List ℕ
utf16_char c =
    if ltb c 0x10000
    then c ∷ []
    else (0xD800 + (c - 0x10000) / 1024) ∷ (0xDC00 + (c - 0x10000) % 1024) ∷ []

unfoldable pub encode_utf16 : List ℕ → List ℕ
encode_utf16 [] = []
encode_utf16 (c ∷ text) = utf16_char c ++ encode_utf16 text

unfoldable pub unit_bytes : List ℕ → Bytes
unit_bytes [] = []
unit_bytes (u ∷ units) = (u % 256) ∷ (u / 256) ∷ unit_bytes units

decode_narrow :
    (c : ℕ) (units : List ℕ)
    → IsScalar c
    → c < 0x10000
    → decode_utf16 none (c ∷ units) ≡ then_char c (decode_utf16 none units)
unfolding decode_utf16
decode_narrow c units h k =
    let high : is_high c ≡ false = ground arith in
    let low : is_low c ≡ false = ground arith in ground arith

decode_wide :
    (high low : ℕ) (units : List ℕ)
    → is_high high ≡ true
    → is_low low ≡ true
    → decode_utf16 none (high ∷ low ∷ units) ≡ then_char (joined high low) (decode_utf16 none units)
unfolding decode_utf16
decode_wide high low units h k = ground arith

decode_char :
    (c : ℕ) (units : List ℕ)
    → IsScalar c
    → decode_utf16 none (utf16_char c ++ units) ≡ then_char c (decode_utf16 none units)
decode_char c units h = elim (Bool-cases (ltb c 0x10000)) [
  | inl narrow ↦ rw narrow (decode_narrow c units h (ground arith))
  | inr wide ↦
      let r : ℕ = c - 0x10000 in
      let split : c ≡ 0x10000 + r = ground arith in
      let small : r / 1024 < 1024 = ground arith in
      let whole : joined (0xD800 + r / 1024) (0xDC00 + r % 1024) ≡ c = omega arith in
      rw wide (
        subst
          (λ x.
            decode_utf16 none ((0xD800 + r / 1024) ∷ (0xDC00 + r % 1024) ∷ units)
            ≡ then_char x (decode_utf16 none units))
          whole
          (decode_wide (0xD800 + r / 1024) (0xDC00 + r % 1024) units (ground arith) (ground arith)))
]

pub decode_utf16-encode_utf16 :
    (text : List ℕ) → All IsScalar text → decode_utf16 none (encode_utf16 text) ≡ some text
unfolding encode_utf16
decode_utf16-encode_utf16 [] h = unfold decode_utf16 in refl
decode_utf16-encode_utf16 (c ∷ text) h =
    decode_char c (encode_utf16 text) h.0 ∙ ap (then_char c) (decode_utf16-encode_utf16 text h.1)

pub code_units-unit_bytes : (units : List ℕ) → code_units (unit_bytes units) ≡ some units
unfolding code_units unit_bytes
code_units-unit_bytes [] = refl
code_units-unit_bytes (u ∷ units) =
    let same : u % 256 + 256 * (u / 256) ≡ u = omega arith in
    rw (code_units-unit_bytes units, same) refl

-- An even number of bytes makes code units.
pub code_units_total :
    (n : ℕ) (bytes : Bytes)
    → length bytes ≡ n * 2
    → (units : List ℕ) × (code_units bytes ≡ some units)
unfolding code_units
code_units_total n [] h = ([], refl)
code_units_total zero (b ∷ bytes) h = absurd (omega arith)
code_units_total (suc n) (b ∷ []) h = absurd (omega arith)
code_units_total (suc n) (b ∷ c ∷ bytes) h =
    let (rest, e) = code_units_total n bytes (omega arith) in
    ((b + 256 * c) ∷ rest, ap (then_char (b + 256 * c)) e)

pub length-unit_bytes : (units : List ℕ) → length (unit_bytes units) ≡ length units * 2
unfolding unit_bytes
length-unit_bytes [] = refl
length-unit_bytes (u ∷ units) = omega (arith, length-unit_bytes units)
