-- ===== src/Prelude/Bytes.antt =====
-- Byte slices: ranges, little- and big-endian numbers, searches for a byte string.
use Prim.Native.Nat.{ℕ, zero, suc, ◌+◌, ◌-◌, ◌*◌, ◌^◌, ◌≤◌, ◌<◌}
use mathlib.Core.Path.{◌≡◌, sym}
use mathlib.Core.Bool.{Bool, true, false, ◌&&◌}
use mathlib.Core.Option
use mathlib.Core.Option.{Option, none, some, some-injective}
use mathlib.Core.List.{List, [], ◌∷◌}
use mathlib.Core.Logic.{◌⊎◌, inl, inr}
use Prim.Native.Char.{code}
use Prim.Native.String.{String}
use native.Mathlib.Omega.{arith}
use native.Mathlib.Nat.{pow-suc}
use file_recovery_engine.Prelude.Tests.{leb, ◌==◌, if◌then◌else◌, Bool-cases, Option-cases}
use file_recovery_engine.Prelude.Lists.{length, take, drop, All, length-take, length-drop}

abbrev pub IsByte : ℕ → Type 0
IsByte b = b < 256

abbrev pub Bytes : Type 0
Bytes = List ℕ

-- `bytes.get(start..stop)`; as an index expression, `none` is the panic.
unfoldable pub get_range : Bytes → ℕ → ℕ → Option Bytes
get_range bytes start stop =
    if leb start stop && leb stop (length bytes)
    then some (take (stop - start) (drop start bytes))
    else none

-- `from_le_bytes` and `from_be_bytes`.
unfoldable pub from_le : Bytes → ℕ
from_le [] = 0
from_le (b ∷ bs) = b + 256 * from_le bs

unfoldable pub from_be_onto : ℕ → Bytes → ℕ
from_be_onto acc [] = acc
from_be_onto acc (b ∷ bs) = from_be_onto (acc * 256 + b) bs

abbrev pub from_be : Bytes → ℕ
from_be bs = from_be_onto 0 bs

-- `bytes.starts_with(needle)`.
unfoldable pub starts_with : Bytes → Bytes → Bool
starts_with bs [] = true
starts_with [] (n ∷ ns) = false
starts_with (b ∷ bs) (n ∷ ns) = b == n && starts_with bs ns

-- `bytes.windows(needle.len()).position(|window| window == needle)`, for a needle with an element.
unfoldable pub window_position : Bytes → Bytes → Option ℕ
unfolding starts_with
window_position [] needle = none
window_position (b ∷ bs) needle =
    if starts_with (b ∷ bs) needle then some 0 else Option.map suc (window_position bs needle)

pub get_range_total :
    (bytes : Bytes) (start stop : ℕ)
    → start ≤ stop
    → stop ≤ length bytes
    → (bs : Bytes) × (get_range bytes start stop ≡ some bs) × (length bs ≡ stop - start)
unfolding get_range
get_range_total bytes start stop h k = (
  take (stop - start) (drop start bytes),
  ground arith,
  omega (arith, length-take (stop - start) (drop start bytes), length-drop start bytes),
)

get_range-inv :
    (bytes : Bytes) (start stop : ℕ) {bs : Bytes}
    → get_range bytes start stop ≡ some bs
    → (start ≤ stop) × (stop ≤ length bytes) × (bs ≡ take (stop - start) (drop start bytes))
unfolding get_range
get_range-inv bytes start stop e = ground arith

pub get_range-length :
    (bytes : Bytes) (start size : ℕ) (bs : Bytes)
    → get_range bytes start (start + size) ≡ some bs
    → length bs ≡ size
get_range-length bytes start size bs e =
    let (lo, hi, eq) = get_range-inv bytes start (start + size) e in
    rw eq (
      omega (arith, length-take (start + size - start) (drop start bytes), length-drop start bytes))

All-take : (n : ℕ) (bs : Bytes) → All IsByte bs → All IsByte (take n bs)
All-take zero bs h = tt
All-take (suc n) [] h = tt
All-take (suc n) (b ∷ bs) h = (h.0, All-take n bs h.1)

All-drop : (n : ℕ) (bs : Bytes) → All IsByte bs → All IsByte (drop n bs)
All-drop zero bs h = h
All-drop (suc n) [] h = tt
All-drop (suc n) (b ∷ bs) h = All-drop n bs h.1

-- A range that is read holds bytes and has the length that was asked for.
pub get_range-some :
    (bytes : Bytes) (start stop : ℕ) {bs : Bytes}
    → get_range bytes start stop ≡ some bs
    → All IsByte bytes
    → All IsByte bs × (length bs + start ≡ stop) × (stop ≤ length bytes)
get_range-some bytes start stop e h =
    let (lo, hi, eq) = get_range-inv bytes start stop e in
    rw eq (
      All-take (stop - start) (drop start bytes) (All-drop start bytes h),
      omega (arith, length-take (stop - start) (drop start bytes), length-drop start bytes),
      hi,
    )

pub from_le-lt : (bs : Bytes) → All IsByte bs → from_le bs < 256 ^ length bs
unfolding from_le
from_le-lt [] h = omega arith
from_le-lt (b ∷ bs) h = omega (arith, from_le-lt bs h.1, pow-suc 256 (length bs))

starts_with-le : (bs needle : Bytes) → starts_with bs needle ≡ true → length needle ≤ length bs
unfolding starts_with
starts_with-le bs [] h = omega arith
starts_with-le [] (n ∷ ns) h = absurd (ground arith)
starts_with-le (b ∷ bs) (n ∷ ns) h = omega (arith, starts_with-le bs ns (ground arith))

window_position-inv :
    (b : ℕ) (bs needle : Bytes) (i : ℕ)
    → window_position (b ∷ bs) needle ≡ some i
    → ((i ≡ 0) × (starts_with (b ∷ bs) needle ≡ true))
      ⊎ ((j : ℕ) × (i ≡ suc j)
          × (starts_with (b ∷ bs) needle ≡ false)
          × (window_position bs needle ≡ some j))
unfolding window_position
window_position-inv b bs needle i e = elim (Bool-cases (starts_with (b ∷ bs) needle)) [
  | inl here ↦ inl (sym (some-injective _ _ (rw here at e)), here)
  | inr later ↦ elim (Option-cases (window_position bs needle)) [
    | inl no_more ↦ absurd (cc (rw (later, no_more) at e))
    | inr (j, found) ↦ inr (j, sym (some-injective _ _ (rw (later, found) at e)), later, found)
  ]
]

-- The window that is found lies inside the bytes.
pub window_position-le :
    (bs needle : Bytes) (i : ℕ) → window_position bs needle ≡ some i → i + length needle ≤ length bs
window_position-le [] needle i e = absurd (unfold window_position in cc e)
window_position-le (b ∷ bs) needle i e = elim (window_position-inv b bs needle i e) [
  | inl (eq, here) ↦ omega (arith, starts_with-le (b ∷ bs) needle here)
  | inr (j, eq, later, found) ↦ omega (arith, window_position-le bs needle j found)
]

-- It is the first one, and it matches.
pub window_position_first :
    (bs needle : Bytes) (i : ℕ)
    → window_position bs needle ≡ some i
    → (starts_with (drop i bs) needle ≡ true)
      × ((j : ℕ) → j < i → starts_with (drop j bs) needle ≡ false)
window_position_first [] needle i e = absurd (unfold window_position in cc e)
window_position_first (b ∷ bs) needle zero e = elim (window_position-inv b bs needle zero e) [
  | inl (eq, here) ↦ (here, λ j h. absurd (omega arith))
  | inr (j, eq, later, found) ↦ absurd (omega arith)
]
window_position_first (b ∷ bs) needle (suc i) e = elim (window_position-inv b bs needle (suc i) e) [
  | inl (eq, here) ↦ absurd (omega arith)
  | inr (j, eq, later, found) ↦
      let same : j ≡ i = omega arith in
      let rest = window_position_first bs needle i (rw same at found) in
      (rest.0, elim [ zero ↦ λ h. later | suc k ↦ λ h. rest.1 k (omega arith) ])
]

-- Equality of two byte slices.
unfoldable pub bytes_eq : Bytes → Bytes → Bool
bytes_eq [] [] = true
bytes_eq [] (c ∷ cs) = false
bytes_eq (b ∷ bs) [] = false
bytes_eq (b ∷ bs) (c ∷ cs) = b == c && bytes_eq bs cs

-- The bytes of an ASCII literal.
abbrev pub ascii : String → Bytes
ascii String.[] = []
ascii (String.◌∷◌ c s) = code c ∷ ascii s

-- A Rust slice has at most `isize::MAX` bytes, so no sum of its length and a small number wraps.
abbrev pub IsSlice : Bytes → Type 0
IsSlice bytes = length bytes < 9223372036854775808

-- A test of `IsByte` on every element, for concrete bytes.
abbrev pub all_bytes : Bytes → Bool
all_bytes [] = true
all_bytes (b ∷ bs) = leb (b + 1) 256 && all_bytes bs

pub all_bytes_sound : (bs : Bytes) → all_bytes bs ≡ true → All IsByte bs
all_bytes_sound [] h = tt
all_bytes_sound (b ∷ bs) h = (ground arith, all_bytes_sound bs (ground arith))
