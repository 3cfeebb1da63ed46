-- ===== src/Mft/Words.antt =====
-- Two bytes as a little-endian word: what `read_u16` returns, byte by byte.
use file_recovery_engine.Prelude.{
  ℕ, zero, suc, ◌+◌, ◌-◌, ◌*◌, ◌/◌, ◌%◌, ◌≤◌, ◌<◌, ◌≡◌, refl, ◌∙◌, sym, ap, arith, some, [], ◌∷◌,
  All, All-get_elem?,
}
use file_recovery_engine.Prelude.{length, get_elem?, take, drop}
use file_recovery_engine.Prelude.Outcome.{ok, ok-injective}
use file_recovery_engine.Prelude.Bytes.{Bytes, IsByte, get_range, from_le}
use file_recovery_engine.Mft.Fields.{read_u16}
use mathlib.Core.Option.{some-injective}
use mathlib.Core.Path.{ap₂}

take_two :
    (bytes : Bytes) (offset x y : ℕ)
    → get_elem? bytes offset ≡ some x
    → get_elem? bytes (suc offset) ≡ some y
    → (take 2 (drop offset bytes) ≡ x ∷ y ∷ []) × (offset + 2 ≤ length bytes)
take_two [] offset x y hx hy = absurd (cc)
take_two (a ∷ []) zero x y hx hy = absurd (cc)
take_two (a ∷ b ∷ bytes) zero x y hx hy =
    (ap₂ (λ s t. s ∷ t ∷ []) (some-injective a x hx) (some-injective b y hy), omega arith)
take_two (a ∷ bytes) (suc offset) x y hx hy =
    let (same, size) = take_two bytes offset x y hx hy in (same, omega arith)

pub two_bytes :
    (bytes : Bytes) (offset : ℕ)
    → offset + 2 ≤ length bytes
    → (x : ℕ) × (y : ℕ) × (get_elem? bytes offset ≡ some x)
      × (get_elem? bytes (suc offset) ≡ some y)
two_bytes [] offset h = absurd (omega arith)
two_bytes (a ∷ []) zero h = absurd (omega arith)
two_bytes (a ∷ b ∷ bytes) zero h = (a, b, refl, refl)
two_bytes (a ∷ bytes) (suc offset) h = two_bytes bytes offset (omega arith)

-- A word is read from two bytes that are there.
pub read_u16_of :
    (bytes : Bytes) (offset x y : ℕ)
    → get_elem? bytes offset ≡ some x
    → get_elem? bytes (suc offset) ≡ some y
    → read_u16 bytes offset ≡ ok (x + 256 * y)
unfolding read_u16 get_range from_le
read_u16_of bytes offset x y hx hy =
    let (pair, size) = take_two bytes offset x y hx hy in
    let two : offset + 2 - offset ≡ 2 = omega arith in ground (arith, pair, two)

-- The two bytes of a word that was read.
pub read_u16_parts :
    (bytes : Bytes) (offset : ℕ) {v : ℕ}
    → All IsByte bytes
    → read_u16 bytes offset ≡ ok v
    → (get_elem? bytes offset ≡ some (v % 256))
      × (get_elem? bytes (suc offset) ≡ some (v / 256 % 256))
      × (offset + 2 ≤ length bytes)
unfolding read_u16 get_range
read_u16_parts bytes offset {v} h e =
    let size : offset + 2 ≤ length bytes = ground arith in
    let (x, y, hx, hy) = two_bytes bytes offset size in
    let whole : x + 256 * y ≡ v = ok-injective (sym (read_u16_of bytes offset x y hx hy) ∙ e) in
    let small_x : x < 256 = All-get_elem? IsByte bytes offset h hx in
    let small_y : y < 256 = All-get_elem? IsByte bytes (suc offset) h hy in
    (hx ∙ ap some (omega arith), hy ∙ ap some (omega arith), size)
