-- ===== src/Mft/Types.antt =====
-- The data of `fr-mft`. A name is the list of its Unicode scalar values.
use file_recovery_engine.Prelude.{ℕ, Option, List}
use file_recovery_engine.Prelude.Bytes.{Bytes}
use file_recovery_engine.Prelude.Int.{ℤ}

pub record MftRecordHeader : Type 0 where
  pub usa_offset : ℕ
  pub usa_count : ℕ
  pub sequence_number : ℕ
  pub hard_link_count : ℕ
  pub first_attribute_offset : ℕ
  pub flags : ℕ
  pub bytes_in_use : ℕ
  pub bytes_allocated : ℕ
  pub base_record_reference : ℕ
  pub next_attribute_id : ℕ
  pub record_number : ℕ

pub record DataRun : Type 0 where
  pub cluster_count : ℕ
  pub lcn : Option ℤ

pub record ResidentAttribute : Type 0 where
  pub value : Bytes
  pub resident_flags : ℕ

pub record NonResidentAttribute : Type 0 where
  pub lowest_vcn : ℕ
  pub highest_vcn : ℕ
  pub compression_unit_size : ℕ
  pub allocated_size : ℕ
  pub data_size : ℕ
  pub initialized_size : ℕ
  pub compressed_size : Option ℕ
  pub mapping_pairs : Bytes
  pub data_runs : List DataRun

pub data AttributeForm : Type 0 where
  resident : ResidentAttribute → AttributeForm
  non_resident : NonResidentAttribute → AttributeForm

pub record AttributeRecord : Type 0 where
  pub attribute_type : ℕ
  pub name : Option (List ℕ)
  pub flags : ℕ
  pub attribute_id : ℕ
  pub form : AttributeForm

pub record MftRecord : Type 0 where
  pub header : MftRecordHeader
  pub attributes : List AttributeRecord

pub data MftParseError : Type 0 where
  buffer_too_small : ℕ → ℕ → MftParseError
  invalid_sector_size : ℕ → MftParseError
  invalid_signature : Bytes → MftParseError
  invalid_update_sequence_array : ℕ → ℕ → MftParseError
  fixup_mismatch : ℕ → ℕ → ℕ → MftParseError
  invalid_bytes_in_use : ℕ → MftParseError
  invalid_first_attribute_offset : ℕ → MftParseError
  invalid_attribute_length : ℕ → ℕ → MftParseError
  attribute_out_of_bounds : ℕ → ℕ → ℕ → MftParseError
  invalid_non_resident_flag : ℕ → MftParseError
  invalid_name_bounds : MftParseError
  invalid_utf16_name : MftParseError
  invalid_resident_value_bounds : MftParseError
  invalid_mapping_pairs_offset : ℕ → MftParseError
  invalid_data_run_header : ℕ → MftParseError
  invalid_data_run_length : MftParseError
  data_run_out_of_bounds : MftParseError
  data_run_lcn_overflow : MftParseError
