-- ===== src/Ntfs/Sector.antt =====
-- The boot sector parser and the sizes derived from a parsed sector.
use file_recovery_engine.Prelude.{
  ℕ, zero, suc, ◌+◌, ◌-◌, ◌*◌, ◌^◌, not, ◌||◌, Option, none, some, String,
}
use file_recovery_engine.Prelude.{ltb, ◌==◌, if◌then◌else◌, length, get_elem?}
use file_recovery_engine.Prelude.Outcome.{Outcome, ok, fail_if, or_panic, ok_or, ◌>>=◌, ◌>>◌}
use file_recovery_engine.Prelude.Checked.{checked_mul, checked_mul32, is_power_of_two}
use file_recovery_engine.Prelude.Bytes.{Bytes, get_range, from_le, bytes_eq, ascii}
use file_recovery_engine.Prelude.Int.{ℤ, pos, negsuc}

abbrev pub ntfs_oem_id : Bytes
ntfs_oem_id = ascii "NTFS    "

pub record NtfsBootSector : Type 0 where
  pub bytes_per_sector : ℕ
  pub sectors_per_cluster : ℕ
  pub total_sectors : ℕ
  pub mft_cluster : ℕ
  pub mft_mirror_cluster : ℕ
  pub file_record_size_bytes : ℕ
  pub index_record_size_bytes : ℕ
  pub volume_serial : ℕ

-- The product of a `u16` and a `u8` fits a `u32`.
unfoldable pub cluster_size_bytes : NtfsBootSector → ℕ
cluster_size_bytes self = self.bytes_per_sector * self.sectors_per_cluster

unfoldable pub volume_size_bytes : NtfsBootSector → Option ℕ
volume_size_bytes self = checked_mul self.total_sectors self.bytes_per_sector

unfoldable pub mft_offset_bytes : NtfsBootSector → Option ℕ
mft_offset_bytes self = checked_mul self.mft_cluster (cluster_size_bytes self)

unfoldable pub mft_mirror_offset_bytes : NtfsBootSector → Option ℕ
mft_mirror_offset_bytes self = checked_mul self.mft_mirror_cluster (cluster_size_bytes self)

pub data BootSectorParseError : Type 0 where
  buffer_too_small : (expected actual : ℕ) → BootSectorParseError
  invalid_boot_signature : ℕ → BootSectorParseError
  invalid_oem_id : Bytes → BootSectorParseError
  invalid_bytes_per_sector : ℕ → BootSectorParseError
  invalid_sectors_per_cluster : ℕ → BootSectorParseError
  invalid_file_record_size : ℤ → BootSectorParseError
  invalid_index_record_size : ℤ → BootSectorParseError
  arithmetic_overflow : String → BootSectorParseError

abbrev pub Parsed {ℓ} : Type ℓ → Type ℓ
Parsed A = Outcome BootSectorParseError A

unfoldable pub read_u16_le : Bytes → ℕ → Parsed ℕ
read_u16_le bytes offset = do buf ← or_panic (get_range bytes offset (offset + 2)); ok (from_le buf)

unfoldable pub read_u64_le : Bytes → ℕ → Parsed ℕ
read_u64_le bytes offset = do buf ← or_panic (get_range bytes offset (offset + 8)); ok (from_le buf)

-- The `i8` with the bit pattern of a `u8`.
unfoldable pub as_i8 : ℕ → ℤ
as_i8 b = if ltb b 128 then pos b else negsuc (255 - b)

-- `none` is `Err(())`. A shift by the width of a `u32` or more is refused by `checked_shl`.
unfoldable pub decode_record_size : ℤ → ℕ → Option ℕ
decode_record_size (pos zero) cluster_size = none
decode_record_size (pos (suc n)) cluster_size = checked_mul32 cluster_size (suc n)
decode_record_size (negsuc n) cluster_size = if ltb (suc n) 32 then some (2 ^ suc n) else none

-- `parse_boot_sector` up to the cluster size: the sector size, the sectors of a cluster and their
-- product.
unfoldable pub parse_geometry : Bytes → Parsed (ℕ × ℕ × ℕ)
parse_geometry bytes = do
  fail_if (ltb (length bytes) 512) (buffer_too_small 512 (length bytes))
  oem_id ← or_panic (get_range bytes 0x03 0x0B)
  fail_if (not (bytes_eq oem_id ntfs_oem_id)) (invalid_oem_id oem_id)
  boot_signature ← read_u16_le bytes 0x1FE
  fail_if (not (boot_signature == 0xAA55)) (invalid_boot_signature boot_signature)
  bytes_per_sector ← read_u16_le bytes 0x0B
  fail_if (bytes_per_sector == 0 || not (is_power_of_two 16 bytes_per_sector))
      (invalid_bytes_per_sector bytes_per_sector)
  sectors_per_cluster ← or_panic (get_elem? bytes 0x0D)
  fail_if (sectors_per_cluster == 0 || not (is_power_of_two 8 sectors_per_cluster))
      (invalid_sectors_per_cluster sectors_per_cluster)
  cluster_size ←
      ok_or (checked_mul32 bytes_per_sector sectors_per_cluster)
        (arithmetic_overflow "cluster size")
  ok (bytes_per_sector, sectors_per_cluster, cluster_size)

-- The two sizes of a record.
unfoldable pub parse_record_sizes : Bytes → ℕ → Parsed (ℕ × ℕ)
parse_record_sizes bytes cluster_size = do
  file_record_size_raw ← or_panic (get_elem? bytes 0x40)
  file_record_size_bytes ←
      ok_or (decode_record_size (as_i8 file_record_size_raw) cluster_size)
        (invalid_file_record_size (as_i8 file_record_size_raw))
  index_record_size_raw ← or_panic (get_elem? bytes 0x44)
  index_record_size_bytes ←
      ok_or (decode_record_size (as_i8 index_record_size_raw) cluster_size)
        (invalid_index_record_size (as_i8 index_record_size_raw))
  ok (file_record_size_bytes, index_record_size_bytes)

unfoldable pub parse_boot_sector : Bytes → Parsed NtfsBootSector
parse_boot_sector bytes = do
  (bytes_per_sector, sectors_per_cluster, cluster_size) ← parse_geometry bytes
  (file_record_size_bytes, index_record_size_bytes) ← parse_record_sizes bytes cluster_size
  total_sectors ← read_u64_le bytes 0x28
  mft_cluster ← read_u64_le bytes 0x30
  mft_mirror_cluster ← read_u64_le bytes 0x38
  volume_serial ← read_u64_le bytes 0x48
  ok (record {
    bytes_per_sector = bytes_per_sector;
    sectors_per_cluster = sectors_per_cluster;
    total_sectors = total_sectors;
    mft_cluster = mft_cluster;
    mft_mirror_cluster = mft_mirror_cluster;
    file_record_size_bytes = file_record_size_bytes;
    index_record_size_bytes = index_record_size_bytes;
    volume_serial = volume_serial;
  })
