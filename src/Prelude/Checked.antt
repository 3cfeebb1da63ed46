-- ===== src/Prelude/Checked.antt =====
-- Checked and saturating arithmetic of Rust's unsigned integers.
use Prim.Native.Nat.{ℕ, zero, suc, ◌+◌, ◌-◌, ◌*◌, ◌/◌, ◌%◌, ◌^◌, ◌<◌, min}
use mathlib.Core.Path.{◌≡◌}
use mathlib.Core.Bool.{Bool, true, false, ◌||◌}
use mathlib.Core.Logic.{◌↔◌, inl, inr}
use mathlib.Core.Option.{Option, none, some}
use native.Mathlib.Omega.{arith}
use file_recovery_engine.Prelude.Tests.{ltb, ◌==◌, if◌then◌else◌, ==→≡, ==-refl, Bool-cases}

abbrev pub u32_mod : ℕ
u32_mod = 4294967296

abbrev pub u64_mod : ℕ
u64_mod = 18446744073709551616

-- `u64::checked_add` and `u64::checked_mul`; `usize` has 64 bits too.
unfoldable pub checked_add : ℕ → ℕ → Option ℕ
checked_add a b = if ltb (a + b) u64_mod then some (a + b) else none

unfoldable pub checked_mul : ℕ → ℕ → Option ℕ
checked_mul a b = if ltb (a * b) u64_mod then some (a * b) else none

-- `u32::checked_mul` and `u32::saturating_mul`.
unfoldable pub checked_mul32 : ℕ → ℕ → Option ℕ
checked_mul32 a b = if ltb (a * b) u32_mod then some (a * b) else none

unfoldable pub saturating_mul32 : ℕ → ℕ → ℕ
saturating_mul32 a b = min (a * b) (u32_mod - 1)

-- `is_power_of_two` on an integer of `w` bits.
unfoldable pub is_power_of_two : ℕ → ℕ → Bool
is_power_of_two zero v = false
is_power_of_two (suc w) v = v == 2 ^ w || is_power_of_two w v

pub is_power_of_two_sound : (w v : ℕ) → is_power_of_two w v ≡ true → (k : ℕ) × (k < w) × (v ≡ 2 ^ k)
unfolding is_power_of_two
is_power_of_two_sound zero v h = absurd (ground arith)
is_power_of_two_sound (suc w) v h = elim (Bool-cases (v == 2 ^ w)) [
  | inl e ↦ (w, omega arith, ==→≡ _ _ e)
  | inr e ↦ let (k, lt, eq) = is_power_of_two_sound w v (rw e at h) in (k, omega arith, eq)
]

is_power_of_two_complete : (w k : ℕ) → k < w → is_power_of_two w (2 ^ k) ≡ true
unfolding is_power_of_two
is_power_of_two_complete zero k h = absurd (omega arith)
is_power_of_two_complete (suc w) k h = elim (Bool-cases (k == w)) [
  | inl e ↦ rw (==→≡ k w e) (rw (==-refl (2 ^ w)))
  | inr e ↦ ground (arith, is_power_of_two_complete w k (ground arith))
]

pub is_power_of_two_iff :
    (w v : ℕ) → (is_power_of_two w v ≡ true) ↔ ((k : ℕ) × (k < w) × (v ≡ 2 ^ k))
is_power_of_two_iff w v =
    (is_power_of_two_sound w v, λ p. rw p.2 (is_power_of_two_complete w p.0 p.1))

pub checked_add-some : (a b : ℕ) {c : ℕ} → checked_add a b ≡ some c → (c ≡ a + b) × (c < u64_mod)
unfolding checked_add
checked_add-some a b h = ground arith

pub checked_mul-some : (a b : ℕ) {c : ℕ} → checked_mul a b ≡ some c → (c ≡ a * b) × (c < u64_mod)
unfolding checked_mul
checked_mul-some a b h = ground arith

pub checked_mul32-some :
    (a b : ℕ) {c : ℕ} → checked_mul32 a b ≡ some c → (c ≡ a * b) × (c < u32_mod)
unfolding checked_mul32
checked_mul32-some a b h = ground arith

-- `u32::checked_add`.
unfoldable pub checked_add32 : ℕ → ℕ → Option ℕ
checked_add32 a b = if ltb (a + b) u32_mod then some (a + b) else none

-- `usize::saturating_mul` and `usize::saturating_add`.
unfoldable pub saturating_mul : ℕ → ℕ → ℕ
saturating_mul a b = min (a * b) (u64_mod - 1)

unfoldable pub saturating_add : ℕ → ℕ → ℕ
saturating_add a b = min (a + b) (u64_mod - 1)

-- `v & mask != 0`, for a mask of one bit.
unfoldable pub has_bit : ℕ → ℕ → Bool
has_bit v mask = v / mask % 2 == 1
