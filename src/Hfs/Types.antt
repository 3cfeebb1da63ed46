-- ===== src/Hfs/Types.antt =====
-- The volume header, the candidates and the errors of `fr-hfs`.
use file_recovery_engine.Prelude.{ℕ, Bool, List}
use file_recovery_engine.Prelude.Outcome.{Outcome}

pub record HfsVolumeHeader : Type 0 where
  pub signature : ℕ
  pub version : ℕ
  pub block_size_bytes : ℕ
  pub total_blocks : ℕ
  pub file_count : ℕ
  pub folder_count : ℕ

pub data VolumeHeaderParseError : Type 0 where
  buffer_too_small : (expected actual : ℕ) → VolumeHeaderParseError
  invalid_signature : ℕ → VolumeHeaderParseError
  invalid_version : ℕ → VolumeHeaderParseError
  invalid_block_size : ℕ → VolumeHeaderParseError
  invalid_block_count : ℕ → VolumeHeaderParseError

-- Names and paths are lists of scalar values.
pub record HfsDeletedCandidate : Type 0 where
  pub cnid : ℕ
  pub size_bytes : ℕ
  pub name : List ℕ
  pub path : List ℕ
  pub is_directory : Bool

pub data ScanError : Type 0 where
  header : VolumeHeaderParseError → ScanError

abbrev pub Parsed {ℓ} : Type ℓ → Type ℓ
Parsed A = Outcome VolumeHeaderParseError A

abbrev pub Scanned {ℓ} : Type ℓ → Type ℓ
Scanned A = Outcome ScanError A
