-- ===== src/Fat/Types.antt =====
-- The boot sector, the deleted entries and the errors of `fr-fat`.
use file_recovery_engine.Prelude.{ℕ, ◌-◌, ◌*◌, Bool, Option, none, List, String}
use file_recovery_engine.Prelude.{ltb, if◌then◌else◌}
use file_recovery_engine.Prelude.Checked.{checked_add, checked_mul}
use file_recovery_engine.Prelude.Outcome.{Outcome}
use mathlib.Core.Option

pub data FatFilesystemKind : Type 0 where
  fat32 : FatFilesystemKind
  ex_fat : FatFilesystemKind

pub record FatBootSector : Type 0 where
  pub filesystem : FatFilesystemKind
  pub bytes_per_sector : ℕ
  pub sectors_per_cluster : ℕ
  pub fat_count : ℕ
  pub total_sectors : ℕ
  pub fat_offset_sectors : ℕ
  pub fat_length_sectors : ℕ
  pub data_region_offset_sectors : ℕ
  pub root_dir_first_cluster : ℕ
  pub volume_serial : ℕ

-- The product of a `u16` and a `u8` fits a `u32`.
unfoldable pub cluster_size_bytes : FatBootSector → ℕ
cluster_size_bytes self = self.bytes_per_sector * self.sectors_per_cluster

unfoldable pub fat_offset_bytes : FatBootSector → Option ℕ
fat_offset_bytes self = checked_mul self.fat_offset_sectors self.bytes_per_sector

unfoldable pub data_region_offset_bytes : FatBootSector → Option ℕ
data_region_offset_bytes self = checked_mul self.data_region_offset_sectors self.bytes_per_sector

unfoldable pub cluster_offset_bytes : FatBootSector → ℕ → Option ℕ
unfolding cluster_size_bytes data_region_offset_bytes
cluster_offset_bytes self cluster_number =
    if ltb cluster_number 2
    then none
    else Option.bind (data_region_offset_bytes self) λ data_start.
      Option.bind (checked_mul (cluster_number - 2) (cluster_size_bytes self))
        λ cluster_delta. checked_add data_start cluster_delta

pub data BootSectorParseError : Type 0 where
  buffer_too_small : (expected actual : ℕ) → BootSectorParseError
  invalid_boot_signature : ℕ → BootSectorParseError
  unsupported_filesystem : BootSectorParseError
  invalid_bytes_per_sector : ℕ → BootSectorParseError
  invalid_sectors_per_cluster : ℕ → BootSectorParseError
  invalid_fat_count : ℕ → BootSectorParseError
  invalid_root_cluster : ℕ → BootSectorParseError
  invalid_shift_value : (field : String) (value : ℕ) → BootSectorParseError
  arithmetic_overflow : String → BootSectorParseError

abbrev pub Parsed {ℓ} : Type ℓ → Type ℓ
Parsed A = Outcome BootSectorParseError A

-- Names and paths are lists of scalar values.
pub record FatDeletedEntry : Type 0 where
  pub filesystem : FatFilesystemKind
  pub name : List ℕ
  pub path : List ℕ
  pub is_directory : Bool
  pub start_cluster : ℕ
  pub size_bytes : ℕ

pub data ScanError : Type 0 where
  boot : BootSectorParseError → ScanError
  invalid_cluster : ℕ → ScanError
  scan_overflow : String → ScanError
  out_of_bounds : (offset size image_len : ℕ) → ScanError
  cluster_loop : ℕ → ScanError
  directory_entry_truncated : ScanError

abbrev pub Scanned {ℓ} : Type ℓ → Type ℓ
Scanned A = Outcome ScanError A
