-- ===== src/Prelude/Scale.antt =====
-- Division with remainder by a variable.
use Prim.Native.Nat.{◌-◌, ℕ, zero, suc, ◌+◌, ◌*◌, ◌/◌, ◌%◌, ◌<◌}
use mathlib.Core.Path.{◌≡◌, ap, sym}
use native.Mathlib.Omega.{arith}
use native.Mathlib.Nat.{
  div-add-mod, mod-lt, div-div-eq-div-mul, mod-mod_of_dvd, dvd-mul_right, mod-eq_of_lt,
  mod-eq-sub-mod,
}
use native.Mathlib.Decide.{dec_lt}
use mathlib.Core.Logic.{◌⊎◌, inl, inr}

-- A number below `s` and a multiple of `s` are determined by their sum.
pub div_mod_unique :
    (s q r q' r' : ℕ) → r < s → r' < s → q * s + r ≡ q' * s + r' → (q ≡ q') × (r ≡ r')
div_mod_unique s zero r zero r' h h' e = omega arith
div_mod_unique s zero r (suc q') r' h h' e = absurd (omega arith)
div_mod_unique s (suc q) r zero r' h h' e = absurd (omega arith)
div_mod_unique s (suc q) r (suc q') r' h h' e =
    let rest = div_mod_unique s q r q' r' h h' (omega arith) in (ap suc rest.0, rest.1)

pub eq_of_div_mod : (a b s : ℕ) → a / s ≡ b / s → a % s ≡ b % s → a ≡ b
eq_of_div_mod a b s p q = omega (arith, div-add-mod a s, div-add-mod b s, ap (λ (t : ℕ). t * s) p)

-- Splitting by `s * d` and then by `s` is splitting by `s` and then by `d`.
module _ (a s d : ℕ) (pos : 0 < s) where
  pub div-mul_split : a / (s * d) ≡ a / s / d
  div-mul_split = sym (div-div-eq-div-mul a s d)

  pub mod-mul_mod : a % (s * d) % s ≡ a % s
  mod-mul_mod = mod-mod_of_dvd s a (dvd-mul_right s d)

  pub mod-mul_div : a % (s * d) / s ≡ a / s % d
  mod-mul_div =
      (div_mod_unique s (a % (s * d) / s) (a % s) (a / s % d) (a % s) (mod-lt a pos) (mod-lt a pos)
        (omega (
          arith,
          div-add-mod (a % (s * d)) s,
          mod-mul_mod,
          div-add-mod a (s * d),
          div-mul_split,
          ap (λ (t : ℕ). s * d * t) div-mul_split,
          div-add-mod a s,
          ap (λ (t : ℕ). s * t) (div-add-mod (a / s) d),
        ))).0

-- A quotient and a remainder put together again.
pub div_of_parts : (q r s : ℕ) → r < s → (q * s + r) / s ≡ q
div_of_parts q r s h =
    (div_mod_unique s ((q * s + r) / s) ((q * s + r) % s) q r (mod-lt _ (omega arith)) h
      (omega (arith, div-add-mod (q * s + r) s))).0

pub mod_of_parts : (q r s : ℕ) → r < s → (q * s + r) % s ≡ r
mod_of_parts q r s h =
    (div_mod_unique s ((q * s + r) / s) ((q * s + r) % s) q r (mod-lt _ (omega arith)) h
      (omega (arith, div-add-mod (q * s + r) s))).1

-- A remainder below twice its divisor.
pub mod_below_twice : (a n : ℕ) → a < n + n → (a % n ≡ a) ⊎ (a % n + n ≡ a)
mod_below_twice a n h = elim (dec_lt a n) [
  | yes small ↦ inl (mod-eq_of_lt small)
  | no big ↦ inr (
      omega (
        arith,
        mod-eq-sub-mod {n = a} {m = n} (omega arith),
        mod-eq_of_lt {n = a - n} {m = n} (omega arith),
      ))
]
