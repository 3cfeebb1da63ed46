-- ===== src/Usn/Types.antt =====
-- The records of the USN journal and the errors of its parser.
use file_recovery_engine.Prelude.{ℕ, List}
use file_recovery_engine.Prelude.Int.{ℤ}
use file_recovery_engine.Prelude.Outcome.{Outcome}

abbrev pub usn_record_min_v2 : ℕ
usn_record_min_v2 = 60

abbrev pub usn_record_min_v3 : ℕ
usn_record_min_v3 = 76

-- A file name is the list of its scalar values.
pub record UsnRecord : Type 0 where
  pub major_version : ℕ
  pub minor_version : ℕ
  pub file_reference_number : ℕ
  pub parent_file_reference_number : ℕ
  pub usn : ℤ
  pub timestamp_100ns : ℤ
  pub reason : ℕ
  pub source_info : ℕ
  pub security_id : ℕ
  pub file_attributes : ℕ
  pub file_name : List ℕ

pub data UsnParseError : Type 0 where
  truncated_record_header : (offset : ℕ) → UsnParseError
  invalid_record_length : (offset size : ℕ) → UsnParseError
  unsupported_version : (offset major minor : ℕ) → UsnParseError
  truncated_record_body : (offset size remaining : ℕ) → UsnParseError
  invalid_file_name_range :
      (offset file_name_offset file_name_length record_length : ℕ) → UsnParseError
  invalid_file_name_encoding : (offset : ℕ) → UsnParseError

abbrev pub Parsed {ℓ} : Type ℓ → Type ℓ
Parsed A = Outcome UsnParseError A
