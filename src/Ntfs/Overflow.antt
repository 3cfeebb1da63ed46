-- ===== src/Ntfs/Overflow.antt =====
-- The overflow error of the boot sector parser never occurs.
use file_recovery_engine.Prelude.{
  ℕ, zero, suc, ◌*◌, ◌^◌, ◌≤◌, ◌<◌, ◌≡◌, ◌≢◌, refl, arith, Bool, true, false, not, ◌||◌, Option,
  some, inl, inr, String,
}
use file_recovery_engine.Prelude.{ltb, ◌==◌, ==→≡, length, get_elem?, lt→ltb, Bool-cases}
use file_recovery_engine.Prelude.Outcome.{
  Outcome, ok, err, panic, stuck, ok_or, or_panic, fail_if, ◌>>=◌, ◌>>◌,
}
use file_recovery_engine.Prelude.Checked.{checked_mul32, is_power_of_two}
use file_recovery_engine.Prelude.Bytes.{Bytes, get_range, bytes_eq}
use native.Mathlib.Nat.{pow-suc, mul-le-mul, one-le-pow}
use file_recovery_engine.Ntfs.Sector.{
  BootSectorParseError, arithmetic_overflow, read_u16_le, read_u64_le, ntfs_oem_id, parse_geometry,
  parse_record_sizes, parse_boot_sector,
}
use file_recovery_engine.Ntfs.Valid.{accepted_power}

-- A power of two of `w` bits is below 2 ^ w.
power_lt : (w v : ℕ) → is_power_of_two w v ≡ true → v < 2 ^ w
unfolding is_power_of_two
power_lt zero v h = absurd (cc)
power_lt (suc w) v h = elim (Bool-cases (v == 2 ^ w)) [
  | inl e ↦ omega (arith, ==→≡ _ _ e, pow-suc 2 w, one-le-pow w 2)
  | inr e ↦ omega (arith, pow-suc 2 w, power_lt w v (rw e at h))
]

cluster_fits :
    (bps spc : ℕ)
    → (bps == 0 || not (is_power_of_two 16 bps)) ≡ false
    → (spc == 0 || not (is_power_of_two 8 spc)) ≡ false
    → checked_mul32 bps spc ≡ some (bps * spc)
unfolding checked_mul32
cluster_fits bps spc h k =
    let small : bps < 65536 = power_lt 16 bps (accepted_power 16 bps h) in
    let few : spc < 256 = power_lt 8 spc (accepted_power 8 spc k) in
    let product : bps * spc ≤ 65535 * 255 =
      mul-le-mul {n₂ = 65535} {m₂ = 255} (omega arith) (omega arith) in
    let below : ltb (bps * spc) 4294967296 ≡ true = lt→ltb _ _ (omega arith) in rw below

-- A step that does not end in the error `x` behaves like this under a bind and behind a guard.
module _ {ℓ κ ι} {E : Type ℓ} {A : Type κ} {B : Type ι} (x : E) where
  Never-bind :
      (m : Outcome E A) (f : A → Outcome E B)
      → m ≢ err x
      → ((a : A) → m ≡ ok a → f a ≢ err x)
      → (m >>= f) ≢ err x
  Never-bind (ok a) f h k = k a refl
  Never-bind (err y) f h k = λ p. h (cc)
  Never-bind panic f h k = λ p. cc
  Never-bind stuck f h k = λ p. cc

module _ {ℓ κ} {E : Type ℓ} {A : Type κ} (x : E) where
  Never-fail_if :
      (b : Bool) (y : E) (m : Outcome E A)
      → y ≢ x
      → (b ≡ false → m ≢ err x)
      → (fail_if b y >> m) ≢ err x
  Never-fail_if true y m h k = λ p. h (cc)
  Never-fail_if false y m h k = k refl

  or_panic-Never : (o : Option A) → or_panic o ≢ err x
  or_panic-Never o = ground arith

  ok_or-Never : (o : Option A) (y : E) → y ≢ x → ok_or o y ≢ err x
  ok_or-Never o y h = grind arith

read_u16_le-Never :
    (bytes : Bytes) (offset : ℕ) (x : BootSectorParseError) → read_u16_le bytes offset ≢ err x
unfolding read_u16_le
read_u16_le-Never bytes offset x = ground arith

read_u64_le-Never :
    (bytes : Bytes) (offset : ℕ) (x : BootSectorParseError) → read_u64_le bytes offset ≢ err x
unfolding read_u64_le
read_u64_le-Never bytes offset x = ground arith

parse_geometry_no_overflow :
    (bytes : Bytes) (what : String) → parse_geometry bytes ≢ err (arithmetic_overflow what)
unfolding parse_geometry
parse_geometry_no_overflow bytes what =
    let x = arithmetic_overflow what in
    Never-fail_if x (ltb (length bytes) 512) _ _ (λ p. cc)
      λ _. Never-bind x _ _ (or_panic-Never x (get_range bytes 0x03 0x0B)) λ oem _.
        Never-fail_if x (not (bytes_eq oem ntfs_oem_id)) _ _ (λ p. cc)
          λ _. Never-bind x _ _ (read_u16_le-Never bytes 0x1FE x) λ signature _.
            Never-fail_if x (not (signature == 0xAA55)) _ _ (λ p. cc)
              λ _. Never-bind x _ _ (read_u16_le-Never bytes 0x0B x) λ bps _.
                Never-fail_if x (bps == 0 || not (is_power_of_two 16 bps)) _ _ (λ p. cc)
                  λ h. Never-bind x _ _ (or_panic-Never x (get_elem? bytes 0x0D)) λ spc _.
                    Never-fail_if x (spc == 0 || not (is_power_of_two 8 spc)) _ _ (λ p. cc)
                      λ k. rw (cluster_fits bps spc h k) (λ p. cc)

parse_record_sizes_no_overflow :
    (bytes : Bytes) (cluster : ℕ) (what : String)
    → parse_record_sizes bytes cluster ≢ err (arithmetic_overflow what)
unfolding parse_record_sizes
parse_record_sizes_no_overflow bytes cluster what = ground arith

-- `parse_boot_sector` never refuses a sector for an overflow of the cluster size: the product of
-- a power of two of 16 bits and one of 8 bits fits 32 bits.
pub parse_boot_sector_no_overflow :
    (bytes : Bytes) (what : String) → parse_boot_sector bytes ≢ err (arithmetic_overflow what)
unfolding parse_boot_sector
parse_boot_sector_no_overflow bytes what =
    let x = arithmetic_overflow what in
    Never-bind x _ _ (parse_geometry_no_overflow bytes what) λ r _.
      Never-bind x _ _ (parse_record_sizes_no_overflow bytes r.2 what) λ sizes _.
        Never-bind x _ _ (read_u64_le-Never bytes 0x28 x) λ total _.
          Never-bind x _ _ (read_u64_le-Never bytes 0x30 x) λ mft _.
            Never-bind x _ _ (read_u64_le-Never bytes 0x38 x)
              λ mirror _. Never-bind x _ _ (read_u64_le-Never bytes 0x48 x) λ serial _. λ p. cc
