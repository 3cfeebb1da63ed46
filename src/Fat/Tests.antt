-- ===== src/Fat/Tests.antt =====
-- A FAT32 volume of four sectors: the boot sector, a FAT, the root directory with a deleted file,
-- and a free sector.
use file_recovery_engine.Prelude.{
  ℕ, ◌≤◌, ◌≡◌, refl, arith, false, List, [], ◌∷◌, ◌++◌, set, replicate, ◌↔◌,
}
use file_recovery_engine.Prelude.Outcome.{ok, err, Safe}
use file_recovery_engine.Prelude.Bytes.{Bytes, get_range, from_le, bytes_eq}
use file_recovery_engine.Prelude.Readers.{read_le, byte_at}
use file_recovery_engine.Prelude.Checked.{
  checked_add, checked_mul, checked_mul32, checked_add32, is_power_of_two, has_bit,
}
use file_recovery_engine.Validator.Text.{trim_start, trim_end}
use file_recovery_engine.Fat.Types.{
  FatBootSector, fat32, fat_offset_bytes, cluster_offset_bytes, cluster_size_bytes,
  data_region_offset_bytes, invalid_shift_value,
}
use file_recovery_engine.Fat.Boot.{
  checked_shl_one, read_u16_le, read_u32_le, is_valid_sector_size, is_valid_cluster_factor,
  parse_boot_sector, parse_fat32_boot_sector, parse_exfat_boot_sector,
}
use file_recovery_engine.Fat.Boot.Valid.{IsValid}
use file_recovery_engine.Fat.Chain.{
  read_slice, read_fat_entry, ends_chain, is_unusable, chain_loop, collect_cluster_chain,
  read_cluster,
}
use file_recovery_engine.Fat.Chain.Links.{Linked, Distinct, collect_cluster_chain_iff}
use mathlib.Core.Option
use file_recovery_engine.Fat.Names.{
  decode_short_name, sanitize_name, join_candidate_path, is_dot_entry,
}
use file_recovery_engine.Fat.Scan.Queue.{pop_unvisited, scan_from_root}
use file_recovery_engine.Fat.Scan.Fat32.{
  scan_entry, entry_name, scan_named, scan_fat32_deleted_entries,
}
use file_recovery_engine.Fat.Scan.{quick_scan_deleted_root_entries}
use file_recovery_engine.Fat.Scan.Quick.{Found, quick_scan_deleted_root_entries-Safe}

-- Bytes at their offsets.
abbrev patched : List (ℕ × ℕ) → Bytes → Bytes
patched [] bytes = bytes
patched ((offset, b) ∷ patches) bytes = set (patched patches bytes) offset b

abbrev boot_bytes : Bytes
boot_bytes =
    patched
      ((0x0C, 2)
        ∷ (0x0D, 1)
        ∷ (0x0E, 1)
        ∷ (0x10, 1)
        ∷ (0x20, 4)
        ∷ (0x24, 1)
        ∷ (0x2C, 2)
        ∷ (0x1FE, 0x55)
        ∷ (0x1FF, 0xAA)
        ∷ [])
      (replicate 512 0)

abbrev fat_bytes : Bytes
fat_bytes = patched ((8, 0xFF) ∷ (9, 0xFF) ∷ (10, 0xFF) ∷ (11, 0x0F) ∷ []) (replicate 512 0)

-- `?AB.T`, whose first character is lost, from cluster 3 on, with 7 bytes.
abbrev root_bytes : Bytes
root_bytes =
    patched ((0, 0xE5) ∷ (1, 65) ∷ (2, 66) ∷ (3, 32) ∷ (8, 84) ∷ (9, 32) ∷ (26, 3) ∷ (28, 7) ∷ [])
      (replicate 512 0)

abbrev image : Bytes
image = boot_bytes ++ fat_bytes ++ root_bytes ++ replicate 512 0

abbrev volume : FatBootSector
volume = record {
  filesystem = fat32;
  bytes_per_sector = 512;
  sectors_per_cluster = 1;
  fat_count = 1;
  total_sectors = 4;
  fat_offset_sectors = 1;
  fat_length_sectors = 1;
  data_region_offset_sectors = 2;
  root_dir_first_cluster = 2;
  volume_serial = 0;
}

parsed_volume : parse_boot_sector image ≡ ok volume
unfolding parse_boot_sector parse_fat32_boot_sector read_u16_le read_u32_le read_le byte_at
    get_range from_le bytes_eq is_valid_sector_size is_valid_cluster_factor is_power_of_two
    checked_mul32 checked_add32
parsed_volume = refl

root_chain : collect_cluster_chain image volume 2 256 ≡ ok (2 ∷ [])
unfolding collect_cluster_chain chain_loop read_fat_entry fat_offset_bytes read_slice read_le
    get_range from_le checked_mul checked_add ends_chain is_unusable
root_chain = refl

-- The scan finds `_AB.T` in the root directory.
found_entries :
    scan_fat32_deleted_entries image volume 8 256
    ≡ ok (
        record {
          filesystem = fat32;
          name = 95 ∷ 65 ∷ 66 ∷ 46 ∷ 84 ∷ [];
          path = 46 ∷ 92 ∷ 95 ∷ 65 ∷ 66 ∷ 46 ∷ 84 ∷ [];
          is_directory = false;
          start_cluster = 3;
          size_bytes = 7;
        }
        ∷ [])
unfolding scan_fat32_deleted_entries scan_from_root pop_unvisited collect_cluster_chain chain_loop
    read_fat_entry fat_offset_bytes read_slice read_le get_range from_le checked_mul checked_add
    ends_chain is_unusable scan_entry byte_at entry_name decode_short_name sanitize_name trim_start
    trim_end has_bit scan_named join_candidate_path bytes_eq is_dot_entry read_cluster
    cluster_offset_bytes data_region_offset_bytes cluster_size_bytes Option.bind
found_entries = refl

collect_cluster_chain_iff_example :
    (collect_cluster_chain image volume 2 256 ≡ ok (2 ∷ []))
    ↔ ((2 ≤ 2) × Linked image volume 2 (2 ∷ []) × Distinct (2 ∷ []) × (1 ≤ 256))
collect_cluster_chain_iff_example =
    collect_cluster_chain_iff image volume 2 256 (2 ∷ []) (omega arith)

quick_scan_deleted_root_entries-Safe_example :
    Safe (λ r. IsValid r.0 × Found image r.0 256 8 r.1) (quick_scan_deleted_root_entries image 8)
quick_scan_deleted_root_entries-Safe_example = quick_scan_deleted_root_entries-Safe image 8

-- A boot sector of exFAT with sectors of 512 bytes and clusters of 256 sectors.
abbrev exfat_bytes : Bytes
exfat_bytes =
    patched
      ((3, 69)
        ∷ (4, 88)
        ∷ (5, 70)
        ∷ (6, 65)
        ∷ (7, 84)
        ∷ (8, 32)
        ∷ (9, 32)
        ∷ (10, 32)
        ∷ (0x60, 4)
        ∷ (0x6C, 9)
        ∷ (0x6D, 8)
        ∷ (0x6E, 1)
        ∷ (0x1FE, 0x55)
        ∷ (0x1FF, 0xAA)
        ∷ [])
      (replicate 512 0)

-- A shift of 8 is refused.
large_shift :
    parse_exfat_boot_sector exfat_bytes ≡ err (invalid_shift_value "sectors_per_cluster_shift" 8)
unfolding parse_exfat_boot_sector read_u16_le read_le byte_at get_range from_le checked_shl_one
large_shift = refl
