-- ===== src/Prelude/Words.antt =====
-- Little-endian encodings and what a read finds where one lies.
use file_recovery_engine.Prelude.{
  ℕ, zero, suc, ◌+◌, ◌-◌, ◌/◌, ◌%◌, ◌^◌, ◌≤◌, ◌<◌, ◌≡◌, refl, ap, ◌∙◌, arith, true, false, some,
  List, [], ◌∷◌, ◌++◌,
}
use file_recovery_engine.Prelude.{ltb, le→leb, length, take, drop, length-append, length-drop}
use file_recovery_engine.Prelude.Checked.{u64_mod}
use file_recovery_engine.Prelude.Outcome.{ok}
use file_recovery_engine.Prelude.Bytes.{Bytes, get_range, from_le}
use file_recovery_engine.Prelude.Int.{ℤ, pos, negsuc, fits_i64, as_i64}
use file_recovery_engine.Prelude.Readers.{read_le}
use native.Mathlib.Nat.{pow-suc}
use native.Mathlib.Numerals.{unary_clauses}

-- `to_le_bytes` of an integer of `w` bytes.
abbrev pub to_le : ℕ → ℕ → Bytes
to_le zero v = []
to_le (suc w) v = (v % 256) ∷ to_le w (v / 256)

-- The bit pattern of an `i64`.
abbrev pub i64_bits : ℤ → ℕ
i64_bits (pos n) = n
i64_bits (negsuc n) = u64_mod - 1 - n

pub as_i64-i64_bits : (z : ℤ) → fits_i64 z ≡ true → as_i64 (i64_bits z) ≡ z
unfolding as_i64
as_i64-i64_bits (pos n) h = ground arith
as_i64-i64_bits (negsuc n) h =
    let big : ltb (u64_mod - 1 - n) 9223372036854775808 ≡ false = ground arith in
    let same : u64_mod - 1 - (u64_mod - 1 - n) ≡ n = ground arith in rw (big, same) refl

pub i64_bits-lt : (z : ℤ) → fits_i64 z ≡ true → i64_bits z < 256 ^ 8
i64_bits-lt (pos n) h = ground arith
i64_bits-lt (negsuc n) h = ground arith

pub from_le-to_le : (w v : ℕ) → v < 256 ^ w → from_le (to_le w v) ≡ v
unfolding from_le
from_le-to_le zero v h = omega arith
from_le-to_le (suc w) v h =
    let small : v / 256 < 256 ^ w = omega (arith, pow-suc 256 w) in
    omega (arith, from_le-to_le w (v / 256) small)

pub length-to_le : (w v : ℕ) → length (to_le w v) ≡ w
length-to_le zero v = refl
length-to_le (suc w) v = ap suc (length-to_le w (v / 256))

module _ {ℓ} {A : Type ℓ} where
  pub take-append : (xs ys : List A) → take (length xs) (xs ++ ys) ≡ xs
  take-append [] ys = refl
  take-append (x ∷ xs) ys = ap (λ zs. x ∷ zs) (take-append xs ys)

  pub drop-append : (xs ys : List A) → drop (length xs) (xs ++ ys) ≡ ys
  drop-append [] ys = refl
  drop-append (x ∷ xs) ys = drop-append xs ys

  pub drop-drop : (m n : ℕ) (xs : List A) → drop n (drop m xs) ≡ drop (m + n) xs
  drop-drop zero n xs = let e : n ≡ 0 + n = omega arith in ap (λ k. drop k xs) e
  drop-drop (suc m) zero [] = simp unary_clauses refl
  drop-drop (suc m) (suc n) [] = simp unary_clauses refl
  drop-drop (suc m) n (x ∷ xs) =
      let e : suc (m + n) ≡ suc m + n = omega arith in
      drop-drop m n xs ∙ ap (λ k. drop k (x ∷ xs)) e

-- A word is read where its bytes lie.
pub read_le-to_le {ℓ} :
    {E : Type ℓ} (w v : ℕ) (bytes rest : Bytes) (offset : ℕ)
    → v < 256 ^ w
    → offset ≤ length bytes
    → drop offset bytes ≡ to_le w v ++ rest
    → read_le {E = E} w bytes offset ≡ ok v
unfolding read_le
read_le-to_le w v bytes rest offset h inside e =
    let long : offset + w ≤ length bytes = omega (
      arith,
      length-drop offset bytes,
      ap length e,
      length-append (to_le w v) rest,
      length-to_le w v,
    ) in
    let size : offset + w - offset ≡ length (to_le w v) = omega (arith, length-to_le w v) in
    let word : take (offset + w - offset) (drop offset bytes) ≡ to_le w v =
      rw (e, size) (take-append (to_le w v) rest) in
    let found : get_range bytes offset (offset + w) ≡ some (to_le w v) =
      unfold get_range in
      rw (le→leb offset (offset + w) (omega arith), le→leb (offset + w) (length bytes) long, word)
        refl in
    rw found (ap ok (from_le-to_le w v h))
