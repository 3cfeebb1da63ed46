-- ===== src/Raid/Types.antt =====
-- The data of `fr-raid`. A `u32`, a `u64` and a `u8` are natural numbers.
use file_recovery_engine.Prelude.{ℕ, Bool, true, false, Option, List, String}

pub data RaidMetadataFamily : Type 0 where
  linux_md windows_storage_spaces intel_imsm ddf : RaidMetadataFamily

pub data RaidLevel : Type 0 where
  raid0 raid1 raid4 raid5 raid6 raid10 unknown : RaidLevel

pub data ParityRotation : Type 0 where
  left_symmetric right_symmetric unknown : ParityRotation

pub record RaidLayout : Type 0 where
  pub metadata_family : RaidMetadataFamily
  pub level : RaidLevel
  pub member_count : ℕ
  pub stripe_size_bytes : ℕ
  pub data_offset_bytes : ℕ
  pub parity_rotation : ParityRotation
  pub disk_order : List ℕ
  pub confidence_score : ℕ

pub record RaidManualOverride : Type 0 where
  pub level : Option RaidLevel
  pub stripe_size_bytes : Option ℕ
  pub data_offset_bytes : Option ℕ
  pub parity_rotation : Option ParityRotation
  pub disk_order : Option (List ℕ)

pub record RaidLogicalMapping : Type 0 where
  pub member_index : ℕ
  pub member_offset_bytes : ℕ
  pub parity_member_index : Option ℕ

pub record RaidDegradedAssessment : Type 0 where
  pub missing_member_count : ℕ
  pub sample_count : ℕ
  pub recoverable_sample_count : ℕ
  pub recoverability_percent : ℕ
  pub confidence_penalty : ℕ
  pub recommendation : String

pub data RaidError : Type 0 where
  buffer_too_small : ℕ → ℕ → RaidError
  invalid_member_count : ℕ → RaidError
  invalid_stripe_size : ℕ → RaidError
  invalid_disk_order : RaidError
  arithmetic_overflow : String → RaidError
  unsupported_layout : RaidError

-- `level != RaidLevel::Unknown` and `rotation != ParityRotation::Unknown`.
abbrev pub known_level : RaidLevel → Bool
known_level RaidLevel.unknown = false
known_level _ = true

abbrev pub known_rotation : ParityRotation → Bool
known_rotation ParityRotation.unknown = false
known_rotation _ = true
