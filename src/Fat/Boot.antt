-- ===== src/Fat/Boot.antt =====
-- The boot sector parser of `fr-fat`.
pub mod Valid
use file_recovery_engine.Prelude.{
  ℕ, ◌+◌, ◌*◌, ◌^◌, Bool, not, ◌||◌, ◌&&◌, Option, none, some, String,
}
use file_recovery_engine.Prelude.{ltb, leb, ◌==◌, if◌then◌else◌, length}
use file_recovery_engine.Prelude.Outcome.{ok, fail_if, or_panic, ok_or, ◌>>=◌, ◌>>◌}
use file_recovery_engine.Prelude.Checked.{checked_mul32, checked_add32, is_power_of_two}
use file_recovery_engine.Prelude.Bytes.{Bytes, get_range, bytes_eq, ascii}
use file_recovery_engine.Prelude.Readers.{read_le, byte_at}
use file_recovery_engine.Fat.Types.{
  FatBootSector, fat32, ex_fat, Parsed, buffer_too_small, invalid_boot_signature,
  unsupported_filesystem, invalid_bytes_per_sector, invalid_sectors_per_cluster, invalid_fat_count,
  invalid_root_cluster, invalid_shift_value, arithmetic_overflow,
}

abbrev pub exfat_oem_id : Bytes
exfat_oem_id = ascii "EXFAT   "

unfoldable pub read_u16_le : Bytes → ℕ → Parsed ℕ
read_u16_le bytes offset = read_le 2 bytes offset

unfoldable pub read_u32_le : Bytes → ℕ → Parsed ℕ
read_u32_le bytes offset = read_le 4 bytes offset

unfoldable pub read_u64_le : Bytes → ℕ → Parsed ℕ
read_u64_le bytes offset = read_le 8 bytes offset

unfoldable pub is_valid_sector_size : ℕ → Bool
is_valid_sector_size value = leb 512 value && leb value 4096 && is_power_of_two 16 value

unfoldable pub is_valid_cluster_factor : ℕ → Bool
is_valid_cluster_factor value = not (value == 0) && is_power_of_two 8 value

-- `1.checked_shl(shift)` on an integer of `width` bits.
unfoldable pub checked_shl_one : ℕ → ℕ → Option ℕ
checked_shl_one width shift = if ltb shift width then some (2 ^ shift) else none

unfoldable pub parse_fat32_boot_sector : Bytes → Parsed FatBootSector
parse_fat32_boot_sector bytes = do
  boot_signature ← read_u16_le bytes 0x1FE
  fail_if (not (boot_signature == 0xAA55)) (invalid_boot_signature boot_signature)
  bytes_per_sector ← read_u16_le bytes 0x0B
  fail_if (not (is_valid_sector_size bytes_per_sector)) (invalid_bytes_per_sector bytes_per_sector)
  sectors_per_cluster ← byte_at bytes 0x0D
  fail_if (not (is_valid_cluster_factor sectors_per_cluster))
      (invalid_sectors_per_cluster sectors_per_cluster)
  reserved_sector_count ← read_u16_le bytes 0x0E
  fat_count ← byte_at bytes 0x10
  fail_if (fat_count == 0) (invalid_fat_count fat_count)
  sectors_per_fat_16 ← read_u16_le bytes 0x16
  sectors_per_fat_32 ← read_u32_le bytes 0x24
  fail_if (not (sectors_per_fat_16 == 0) || sectors_per_fat_32 == 0) unsupported_filesystem
  total_sectors_16 ← read_u16_le bytes 0x13
  total_sectors_32 ← read_u32_le bytes 0x20
  root_cluster ← read_u32_le bytes 0x2C
  fail_if (ltb root_cluster 2) (invalid_root_cluster root_cluster)
  fat_region_sectors ←
      ok_or (checked_mul32 fat_count sectors_per_fat_32) (arithmetic_overflow "FAT region sectors")
  data_region_offset_sectors ←
      ok_or (checked_add32 reserved_sector_count fat_region_sectors)
        (arithmetic_overflow "data region offset sectors")
  volume_serial ← read_u32_le bytes 0x43
  ok (record {
    filesystem = fat32;
    bytes_per_sector = bytes_per_sector;
    sectors_per_cluster = sectors_per_cluster;
    fat_count = fat_count;
    total_sectors = if total_sectors_16 == 0 then total_sectors_32 else total_sectors_16;
    fat_offset_sectors = reserved_sector_count;
    fat_length_sectors = sectors_per_fat_32;
    data_region_offset_sectors = data_region_offset_sectors;
    root_dir_first_cluster = root_cluster;
    volume_serial = volume_serial;
  })

unfoldable pub parse_exfat_boot_sector : Bytes → Parsed FatBootSector
parse_exfat_boot_sector bytes = do
  boot_signature ← read_u16_le bytes 0x1FE
  fail_if (not (boot_signature == 0xAA55)) (invalid_boot_signature boot_signature)
  bytes_per_sector_shift ← byte_at bytes 0x6C
  fail_if (not (leb 9 bytes_per_sector_shift && leb bytes_per_sector_shift 12))
      (invalid_shift_value "bytes_per_sector_shift" bytes_per_sector_shift)
  sectors_per_cluster_shift ← byte_at bytes 0x6D
  fail_if (ltb 12 sectors_per_cluster_shift)
      (invalid_shift_value "sectors_per_cluster_shift" sectors_per_cluster_shift)
  bytes_per_sector ←
      ok_or (checked_shl_one 16 bytes_per_sector_shift)
        (invalid_shift_value "bytes_per_sector_shift" bytes_per_sector_shift)
  sectors_per_cluster ←
      ok_or (checked_shl_one 8 sectors_per_cluster_shift)
        (invalid_shift_value "sectors_per_cluster_shift" sectors_per_cluster_shift)
  fail_if (not (is_valid_sector_size bytes_per_sector)) (invalid_bytes_per_sector bytes_per_sector)
  fail_if (not (is_valid_cluster_factor sectors_per_cluster))
      (invalid_sectors_per_cluster sectors_per_cluster)
  fat_count ← byte_at bytes 0x6E
  fail_if (fat_count == 0) (invalid_fat_count fat_count)
  root_cluster ← read_u32_le bytes 0x60
  fail_if (ltb root_cluster 2) (invalid_root_cluster root_cluster)
  total_sectors ← read_u64_le bytes 0x48
  fat_offset_sectors ← read_u32_le bytes 0x50
  fat_length_sectors ← read_u32_le bytes 0x54
  data_region_offset_sectors ← read_u32_le bytes 0x58
  volume_serial ← read_u32_le bytes 0x64
  ok (record {
    filesystem = ex_fat;
    bytes_per_sector = bytes_per_sector;
    sectors_per_cluster = sectors_per_cluster;
    fat_count = fat_count;
    total_sectors = total_sectors;
    fat_offset_sectors = fat_offset_sectors;
    fat_length_sectors = fat_length_sectors;
    data_region_offset_sectors = data_region_offset_sectors;
    root_dir_first_cluster = root_cluster;
    volume_serial = volume_serial;
  })

unfoldable pub parse_boot_sector : Bytes → Parsed FatBootSector
parse_boot_sector bytes = do
  fail_if (ltb (length bytes) 512) (buffer_too_small 512 (length bytes))
  oem_id ← or_panic (get_range bytes 0x03 0x0B)
  (if bytes_eq oem_id exfat_oem_id
      then parse_exfat_boot_sector bytes
      else parse_fat32_boot_sector bytes)
