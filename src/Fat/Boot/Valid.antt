-- ===== src/Fat/Boot/Valid.antt =====
-- The boot sector parser on arbitrary bytes, and what a sector that it accepts satisfies.
use file_recovery_engine.Prelude.{
  ℕ, ◌+◌, ◌*◌, ◌^◌, ◌≤◌, ◌<◌, ◌≡◌, arith, false, not, ◌||◌, ◌&&◌, inl, inr, ltb, leb, ◌==◌, length,
  Bool-cases, some,
}
use file_recovery_engine.Prelude.Outcome.{Safe, Safe-ok, Safe-bind, Safe-fail_if, Safe-ok_or}
use file_recovery_engine.Prelude.Checked.{
  checked_mul32, checked_add32, is_power_of_two, is_power_of_two_sound,
}
use file_recovery_engine.Prelude.Bytes.{Bytes, bytes_eq}
use file_recovery_engine.Prelude.Readers.{read_le-Safe, byte_at-Safe, range-Safe}
use native.Mathlib.Nat.{pow-le-pow_right}
use file_recovery_engine.Fat.Types.{FatBootSector, FatFilesystemKind, fat32, ex_fat}
use file_recovery_engine.Fat.Boot.{
  read_u16_le, read_u32_le, read_u64_le, is_valid_sector_size, is_valid_cluster_factor,
  checked_shl_one, parse_fat32_boot_sector, parse_exfat_boot_sector, parse_boot_sector,
  exfat_oem_id,
}

pub read_u16_le-Safe :
    (bytes : Bytes) (offset : ℕ)
    → offset + 2 ≤ length bytes
    → Safe (λ v. Unit {0}) (read_u16_le bytes offset)
unfolding read_u16_le
read_u16_le-Safe bytes offset h = read_le-Safe 2 bytes offset h

pub read_u32_le-Safe :
    (bytes : Bytes) (offset : ℕ)
    → offset + 4 ≤ length bytes
    → Safe (λ v. Unit {0}) (read_u32_le bytes offset)
unfolding read_u32_le
read_u32_le-Safe bytes offset h = read_le-Safe 4 bytes offset h

pub read_u64_le-Safe :
    (bytes : Bytes) (offset : ℕ)
    → offset + 8 ≤ length bytes
    → Safe (λ v. Unit {0}) (read_u64_le bytes offset)
unfolding read_u64_le
read_u64_le-Safe bytes offset h = read_le-Safe 8 bytes offset h

-- The data region of a FAT32 volume lies behind its FATs.
abbrev pub HasRegions : FatBootSector → FatFilesystemKind → Type 0
HasRegions boot fat32 =
    boot.data_region_offset_sectors
    ≡ boot.fat_offset_sectors + boot.fat_count * boot.fat_length_sectors
HasRegions boot ex_fat = Unit {0}

pub record IsValid (boot : FatBootSector) : Type 0 where
  pub sector_size : (k : ℕ) × (9 ≤ k) × (k ≤ 12) × (boot.bytes_per_sector ≡ 2 ^ k)
  pub cluster_size : (k : ℕ) × (k < 8) × (boot.sectors_per_cluster ≡ 2 ^ k)
  pub fats : 1 ≤ boot.fat_count
  pub root : 2 ≤ boot.root_dir_first_cluster
  pub regions : HasRegions boot boot.filesystem

small_power : (k : ℕ) → k < 16 → 512 ≤ 2 ^ k → 2 ^ k ≤ 4096 → (9 ≤ k) × (k ≤ 12)
small_power k h lo hi =
    let below : 8 < k = elim (Bool-cases (leb k 8)) [
      | inl few ↦
          let less : 2 ^ k ≤ 2 ^ 8 =
            pow-le-pow_right {n = 2} (omega arith) {i = k} {j = 8} (ground arith) in
          absurd (omega arith)
      | inr many ↦ ground arith
    ] in
    let above : k < 13 = elim (Bool-cases (leb 13 k)) [
      | inl many ↦
          let more : 2 ^ 13 ≤ 2 ^ k =
            pow-le-pow_right {n = 2} (omega arith) {i = 13} {j = k} (ground arith) in
          absurd (omega arith)
      | inr few ↦ ground arith
    ] in
    (omega arith, omega arith)

sector_power :
    (v : ℕ) → not (is_valid_sector_size v) ≡ false → (k : ℕ) × (9 ≤ k) × (k ≤ 12) × (v ≡ 2 ^ k)
unfolding is_valid_sector_size
sector_power v h = elim (Bool-cases (is_power_of_two 16 v)) [
  | inr other ↦ absurd (ground arith)
  | inl power ↦
      let (k, lt, eq) = is_power_of_two_sound 16 v power in
      let (lo, hi) = small_power k lt (ground arith) (ground arith) in (k, lo, hi, eq)
]

cluster_power : (v : ℕ) → not (is_valid_cluster_factor v) ≡ false → (k : ℕ) × (k < 8) × (v ≡ 2 ^ k)
unfolding is_valid_cluster_factor
cluster_power v h = elim (Bool-cases (is_power_of_two 8 v)) [
  | inr other ↦ absurd (ground arith)
  | inl power ↦ is_power_of_two_sound 8 v power
]

positive : (v : ℕ) → (v == 0) ≡ false → 1 ≤ v
positive v h = ground arith

not_small : (v : ℕ) → ltb v 2 ≡ false → 2 ≤ v
not_small v h = ground arith

regions_sum :
    (reserved fats size region offset : ℕ)
    → checked_mul32 fats size ≡ some region
    → checked_add32 reserved region ≡ some offset
    → offset ≡ reserved + fats * size
unfolding checked_mul32 checked_add32
regions_sum reserved fats size region offset h k = ground arith

parse_fat32_boot_sector-Safe :
    (bytes : Bytes) → 512 ≤ length bytes → Safe IsValid (parse_fat32_boot_sector bytes)
unfolding parse_fat32_boot_sector
parse_fat32_boot_sector-Safe bytes long =
    Safe-bind _ _ (read_u16_le-Safe bytes 0x1FE (omega arith)) λ signature _ _.
      Safe-fail_if (not (signature == 0xAA55)) _ _ λ signed.
        Safe-bind _ _ (read_u16_le-Safe bytes 0x0B (omega arith)) λ bps _ _.
          Safe-fail_if (not (is_valid_sector_size bps)) _ _ λ sized.
            Safe-bind _ _ (byte_at-Safe bytes 0x0D (omega arith)) λ spc _ _.
              Safe-fail_if (not (is_valid_cluster_factor spc)) _ _ λ clustered.
                Safe-bind _ _ (read_u16_le-Safe bytes 0x0E (omega arith)) λ reserved _ _.
                  Safe-bind _ _ (byte_at-Safe bytes 0x10 (omega arith)) λ fats _ _.
                    Safe-fail_if (fats == 0) _ _ λ some_fat.
                      Safe-bind _ _ (read_u16_le-Safe bytes 0x16 (omega arith)) λ size_16 _ _.
                        Safe-bind _ _ (read_u32_le-Safe bytes 0x24 (omega arith)) λ size_32 _ _.
                          Safe-fail_if (not (size_16 == 0) || size_32 == 0) _ _ λ fat_32.
                            Safe-bind _ _ (read_u16_le-Safe bytes 0x13 (omega arith))
                              λ total_16 _ _.
                                Safe-bind _ _ (read_u32_le-Safe bytes 0x20 (omega arith))
                                  λ total_32 _ _.
                                    Safe-bind _ _ (read_u32_le-Safe bytes 0x2C (omega arith))
                                      λ root _ _. Safe-fail_if (ltb root 2) _ _ λ rooted.
                                        Safe-bind _ _
                                          (Safe-ok_or {P = λ r. checked_mul32 fats size_32 ≡ some r}
                                            (checked_mul32 fats size_32) _ λ r e. e)
                                          λ region _ at_region.
                                            Safe-bind _ _
                                              (Safe-ok_or
                                                {P = λ r. checked_add32 reserved region ≡ some r}
                                                (checked_add32 reserved region) _ λ r e. e)
                                              λ offset _ at_offset.
                                                Safe-bind _ _
                                                  (read_u32_le-Safe bytes 0x43 (omega arith))
                                                  λ serial _ _. Safe-ok (record {
                                                    sector_size = sector_power bps sized;
                                                    cluster_size = cluster_power spc clustered;
                                                    fats = positive fats some_fat;
                                                    root = not_small root rooted;
                                                    regions =
                                                        regions_sum reserved fats size_32 region
                                                          offset at_region at_offset;
                                                  })

parse_exfat_boot_sector-Safe :
    (bytes : Bytes) → 512 ≤ length bytes → Safe IsValid (parse_exfat_boot_sector bytes)
unfolding parse_exfat_boot_sector
parse_exfat_boot_sector-Safe bytes long =
    Safe-bind _ _ (read_u16_le-Safe bytes 0x1FE (omega arith)) λ signature _ _.
      Safe-fail_if (not (signature == 0xAA55)) _ _ λ signed.
        Safe-bind _ _ (byte_at-Safe bytes 0x6C (omega arith)) λ sector_shift _ _.
          Safe-fail_if (not (leb 9 sector_shift && leb sector_shift 12)) _ _ λ _.
            Safe-bind _ _ (byte_at-Safe bytes 0x6D (omega arith)) λ cluster_shift _ _.
              Safe-fail_if (ltb 12 cluster_shift) _ _ λ _.
                Safe-bind _ _
                  (Safe-ok_or {P = λ _. Unit {0}} (checked_shl_one 16 sector_shift) _ λ _ _. tt)
                  λ bps _ _.
                    Safe-bind _ _
                      (Safe-ok_or {P = λ _. Unit {0}} (checked_shl_one 8 cluster_shift) _ λ _ _. tt)
                      λ spc _ _. Safe-fail_if (not (is_valid_sector_size bps)) _ _ λ sized.
                        Safe-fail_if (not (is_valid_cluster_factor spc)) _ _ λ clustered.
                          Safe-bind _ _ (byte_at-Safe bytes 0x6E (omega arith)) λ fats _ _.
                            Safe-fail_if (fats == 0) _ _ λ some_fat.
                              Safe-bind _ _ (read_u32_le-Safe bytes 0x60 (omega arith)) λ root _ _.
                                Safe-fail_if (ltb root 2) _ _ λ rooted.
                                  Safe-bind _ _ (read_u64_le-Safe bytes 0x48 (omega arith))
                                    λ total _ _.
                                      Safe-bind _ _ (read_u32_le-Safe bytes 0x50 (omega arith))
                                        λ fat_offset _ _.
                                          Safe-bind _ _ (read_u32_le-Safe bytes 0x54 (omega arith))
                                            λ fat_length _ _.
                                              Safe-bind _ _
                                                (read_u32_le-Safe bytes 0x58 (omega arith))
                                                λ data_offset _ _.
                                                  Safe-bind _ _
                                                    (read_u32_le-Safe bytes 0x64 (omega arith))
                                                    λ serial _ _. Safe-ok (record {
                                                      sector_size = sector_power bps sized;
                                                      cluster_size = cluster_power spc clustered;
                                                      fats = positive fats some_fat;
                                                      root = not_small root rooted;
                                                      regions = tt;
                                                    })

-- On every byte slice the parser returns, and a sector that it accepts is valid: the sector size
-- is a power of two from 512 to 4096, a cluster has a power of two below 2 ^ 8 of sectors, there is
-- a FAT, the root directory starts at cluster 2 or later, and on FAT32 the data region starts where
-- the reserved sectors and all FATs end, without an overflow of 32 bits.
pub parse_boot_sector-Safe : (bytes : Bytes) → Safe IsValid (parse_boot_sector bytes)
unfolding parse_boot_sector
parse_boot_sector-Safe bytes = Safe-fail_if (ltb (length bytes) 512) _ _ λ long.
    Safe-bind _ _ (range-Safe bytes 0x03 0x0B (omega arith) (ground arith)) λ oem _ _.
      elim (Bool-cases (bytes_eq oem exfat_oem_id)) [
        | inl exfat ↦ rw exfat (parse_exfat_boot_sector-Safe bytes (ground arith))
        | inr other ↦ rw other (parse_fat32_boot_sector-Safe bytes (ground arith))
      ]
