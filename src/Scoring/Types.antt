-- ===== src/Scoring/Types.antt =====
-- The data of `fr-types`.
use file_recovery_engine.Prelude.{ℕ, Bool, false, Option, List, String}

pub data RecoverySourceKind : Type 0 where
  physical_disk volume image_file : RecoverySourceKind

pub data EvidenceSource : Type 0 where
  mft directory_index usn vss carve : EvidenceSource

pub data ConfidenceTier : Type 0 where
  very_high high medium low very_low : ConfidenceTier

pub record RecoveryCandidate : Type 0 where
  pub id : String
  pub original_name : Option String
  pub original_path : Option String
  pub recovered_path : Option String
  pub size_bytes : ℕ
  pub evidence : List EvidenceSource
  pub confidence : ConfidenceTier
  pub partial : Bool

pub record ScanSessionState : Type 0 where
  pub session_id : String
  pub checkpoint : String
  pub canceled : Bool

-- `ScanSessionState::new`.
abbrev pub new_session : String → String → ScanSessionState
new_session session_id checkpoint = record {
  session_id = session_id;
  checkpoint = checkpoint;
  canceled = false;
}
