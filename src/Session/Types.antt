-- ===== src/Session/Types.antt =====
-- The candidates, the summary and the errors of the quick scan. Names and paths are lists of scalar
-- values, and a record's parse error stands for its text.
use file_recovery_engine.Prelude.{ℕ, Bool, Option, List}
use file_recovery_engine.Prelude.Outcome.{Outcome}
use file_recovery_engine.Scoring.Types.{EvidenceSource}
use file_recovery_engine.Mft.Types.{MftParseError}
use file_recovery_engine.Ntfs.Sector.{NtfsBootSector, BootSectorParseError}

abbrev pub max_ntfs_file_record_size : ℕ
max_ntfs_file_record_size = 1048576

abbrev pub max_consecutive_empty_mft_records : ℕ
max_consecutive_empty_mft_records = 16384

pub record QuickScanConfig : Type 0 where
  pub max_records : ℕ

pub record QuickScanRecordError : Type 0 where
  pub record_index : ℕ
  pub reason : MftParseError

pub record QuickScanCandidate : Type 0 where
  pub record_index : ℕ
  pub record_number : ℕ
  pub is_ghost_record : Bool
  pub in_use : Bool
  pub deleted : Bool
  pub is_directory : Bool
  pub has_non_resident_data : Bool
  pub has_named_data_streams : Bool
  pub has_compressed_data : Bool
  pub has_sparse_data : Bool
  pub has_encrypted_data : Bool
  pub usn_reason_mask : Option ℕ
  pub name : Option (List ℕ)
  pub parent_record_number : Option ℕ
  pub reconstructed_path : Option (List ℕ)
  pub allocated_size_bytes : Option ℕ
  pub data_size_bytes : Option ℕ
  pub file_attributes : Option ℕ
  pub created_filetime_utc : Option ℕ
  pub modified_filetime_utc : Option ℕ
  pub mft_modified_filetime_utc : Option ℕ
  pub accessed_filetime_utc : Option ℕ
  pub evidence_sources : List EvidenceSource

pub record QuickScanSummary : Type 0 where
  pub boot_sector : NtfsBootSector
  pub parsed_records : ℕ
  pub parse_failures : ℕ
  pub resident_attribute_count : ℕ
  pub non_resident_attribute_count : ℕ
  pub deleted_records : ℕ
  pub directory_records : ℕ
  pub named_records : ℕ
  pub records_with_non_resident_data : ℕ
  pub usn_enriched_records : ℕ
  pub usn_ghost_records : ℕ
  pub candidates : List QuickScanCandidate
  pub record_errors : List QuickScanRecordError

-- The errors of a scan of bytes in memory; those of a device's reads are not among them.
pub data QuickScanError : Type 0 where
  boot_sector_error : BootSectorParseError → QuickScanError
  invalid_mft_offset : QuickScanError
  mft_out_of_bounds : (mft_offset source_len : ℕ) → QuickScanError
  invalid_file_record_size : ℕ → QuickScanError

abbrev pub Scanned {ℓ} : Type ℓ → Type ℓ
Scanned A = Outcome QuickScanError A
