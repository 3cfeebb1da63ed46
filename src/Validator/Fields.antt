-- ===== src/Validator/Fields.antt =====
-- Indexing, slicing and searching in the bytes of a candidate.
use file_recovery_engine.Prelude.{
  ℕ, suc, ◌+◌, ◌≤◌, ◌<◌, ◌≡◌, arith, Bool, true, false, ◌||◌, Option, none, some, [], ◌∷◌,
}
use file_recovery_engine.Prelude.{ltb, ◌==◌, if◌then◌else◌, length, get_elem?, get_elem?-some}
use file_recovery_engine.Prelude.Outcome.{ok, or_panic, ◌>>=◌}
use file_recovery_engine.Prelude.Bytes.{
  Bytes, get_range, get_range_total, from_le, from_be, starts_with, window_position,
}
use file_recovery_engine.Validator.Types.{Judged}

-- `bytes[i]` and `bytes[start..stop]`.
abbrev pub byte_at : Bytes → ℕ → Judged ℕ
byte_at bytes i = or_panic (get_elem? bytes i)

abbrev pub slice : Bytes → ℕ → ℕ → Judged Bytes
slice bytes start stop = or_panic (get_range bytes start stop)

-- `u16::from_le_bytes`, `u32::from_le_bytes` and `u32::from_be_bytes` of the bytes at an index.
unfoldable pub u16_le : Bytes → ℕ → Judged ℕ
u16_le bytes at = do buf ← slice bytes at (at + 2); ok (from_le buf)

unfoldable pub u32_le : Bytes → ℕ → Judged ℕ
u32_le bytes at = do buf ← slice bytes at (at + 4); ok (from_le buf)

unfoldable pub u32_be : Bytes → ℕ → Judged ℕ
u32_be bytes at = do buf ← slice bytes at (at + 4); ok (from_be buf)

abbrev pub is_none {ℓ} : {A : Type ℓ} → Option A → Bool
is_none none = true
is_none (some a) = false

-- `bytes.last().copied() == Some(value)`.
unfoldable pub ends_with_byte : Bytes → ℕ → Bool
ends_with_byte [] value = false
ends_with_byte (b ∷ []) value = b == value
ends_with_byte (b ∷ c ∷ bytes) value = ends_with_byte (c ∷ bytes) value

-- `bytes.windows(n).rposition(|window| window == needle)`.
unfoldable pub window_rposition : Bytes → Bytes → Option ℕ
unfolding starts_with
window_rposition [] needle = none
window_rposition (b ∷ bs) needle = elim (window_rposition bs needle) [
  | some i ↦ some (suc i)
  | none ↦ if starts_with (b ∷ bs) needle then some 0 else none
]

unfoldable pub find_subsequence : Bytes → Bytes → Option ℕ
find_subsequence haystack needle =
    if length needle == 0 || ltb (length haystack) (length needle)
    then none
    else window_position haystack needle

unfoldable pub find_last_subsequence : Bytes → Bytes → Option ℕ
find_last_subsequence haystack needle =
    if length needle == 0 || ltb (length haystack) (length needle)
    then none
    else window_rposition haystack needle

-- `iter().position(|value| *value == 0)`.
unfoldable pub position_of_zero : Bytes → Option ℕ
position_of_zero [] = none
position_of_zero (b ∷ bs) =
    if b == 0 then some 0 else elim (position_of_zero bs) [ none ↦ none | some i ↦ some (suc i) ]

pub u16_le_total :
    (bytes : Bytes) (at : ℕ) → at + 2 ≤ length bytes → (v : ℕ) × (u16_le bytes at ≡ ok v)
unfolding u16_le
u16_le_total bytes at h =
    let (buf, found, _) = get_range_total bytes at (at + 2) (omega arith) h in
    (from_le buf, rw found)

pub u32_le_total :
    (bytes : Bytes) (at : ℕ) → at + 4 ≤ length bytes → (v : ℕ) × (u32_le bytes at ≡ ok v)
unfolding u32_le
u32_le_total bytes at h =
    let (buf, found, _) = get_range_total bytes at (at + 4) (omega arith) h in
    (from_le buf, rw found)

pub u32_be_total :
    (bytes : Bytes) (at : ℕ) → at + 4 ≤ length bytes → (v : ℕ) × (u32_be bytes at ≡ ok v)
unfolding u32_be
u32_be_total bytes at h =
    let (buf, found, _) = get_range_total bytes at (at + 4) (omega arith) h in
    (from_be buf, rw found)

pub slice_total :
    (bytes : Bytes) (start stop : ℕ)
    → start ≤ stop
    → stop ≤ length bytes
    → (bs : Bytes) × (slice bytes start stop ≡ ok bs)
slice_total bytes start stop h k =
    let (bs, found, _) = get_range_total bytes start stop h k in (bs, rw found)

pub byte_at_total : (bytes : Bytes) (i : ℕ) → i < length bytes → (v : ℕ) × (byte_at bytes i ≡ ok v)
byte_at_total bytes i h = let (v, found) = get_elem?-some bytes i h in (v, rw found)
