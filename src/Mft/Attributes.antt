-- ===== src/Mft/Attributes.antt =====
-- The attributes of a file record: names, resident and non-resident forms.
pub mod Total
use Prim.Native.Nat.{bit_and}
use file_recovery_engine.Prelude.{
  ℕ, zero, suc, ◌+◌, ◌-◌, ◌*◌, ◌/◌, ◌%◌, Bool, true, false, not, ◌||◌, ◌&&◌,
}
use file_recovery_engine.Prelude.{Option, none, some, List, [], ◌∷◌, ◌++◌}
use file_recovery_engine.Prelude.{ltb, leb, ◌==◌, if◌then◌else◌, length, get_elem?, drop}
use file_recovery_engine.Prelude.Outcome.{
  ok, err, panic, stuck, fail_if, or_panic, ok_or, ◌>>=◌, ◌>>◌,
}
use file_recovery_engine.Prelude.Checked.{checked_mul, u32_mod}
use file_recovery_engine.Prelude.Bytes.{Bytes, get_range, from_le}
use file_recovery_engine.Prelude.Text.{code_units, decode_utf16}
use file_recovery_engine.Mft.Types.{AttributeForm, resident, non_resident}
use file_recovery_engine.Mft.Types.{
  invalid_name_bounds, invalid_utf16_name, invalid_attribute_length,
}
use file_recovery_engine.Mft.Types.{invalid_resident_value_bounds, invalid_mapping_pairs_offset}
use file_recovery_engine.Mft.Fields.{Parsed, read_u16, read_u32, read_u64}
use file_recovery_engine.Mft.Runs.{parse_data_runs}

unfoldable pub parse_attribute_name : Bytes → ℕ → ℕ → Parsed (Option (List ℕ))
parse_attribute_name attribute_bytes name_offset name_length =
    if name_length == 0 then ok none else do
      name_bytes_len ← ok_or (checked_mul name_length 2) invalid_name_bounds
      fail_if (ltb (length attribute_bytes) (name_offset + name_bytes_len)) invalid_name_bounds
      name_bytes ← or_panic (get_range attribute_bytes name_offset (name_offset + name_bytes_len))
      units ← or_panic (code_units name_bytes)
      name ← ok_or (decode_utf16 none units) invalid_utf16_name
      ok (some name)

unfoldable pub parse_resident_attribute : Bytes → Parsed AttributeForm
parse_resident_attribute attribute_bytes = do
  fail_if (ltb (length attribute_bytes) 24)
      (invalid_attribute_length 0 (length attribute_bytes % u32_mod))
  value_length ← read_u32 attribute_bytes 0x10
  value_offset ← read_u16 attribute_bytes 0x14
  resident_flags ← or_panic (get_elem? attribute_bytes 0x16)
  fail_if (ltb (length attribute_bytes) (value_offset + value_length)) invalid_resident_value_bounds
  value ← or_panic (get_range attribute_bytes value_offset (value_offset + value_length))
  ok (resident (record { value = value; resident_flags = resident_flags }))

-- `if attribute_bytes.len() >= 72 { Some(read_u64(attribute_bytes, 0x40)) } else { None }`.
pub read_compressed_size : Bytes → Parsed (Option ℕ)
read_compressed_size attribute_bytes =
    if leb 72 (length attribute_bytes)
    then (read_u64 attribute_bytes 0x40 >>= λ size. ok (some size))
    else ok none

unfoldable pub parse_non_resident_attribute : Bytes → Parsed AttributeForm
unfolding read_compressed_size
parse_non_resident_attribute attribute_bytes = do
  fail_if (ltb (length attribute_bytes) 64)
      (invalid_attribute_length 0 (length attribute_bytes % u32_mod))
  lowest_vcn ← read_u64 attribute_bytes 0x10
  highest_vcn ← read_u64 attribute_bytes 0x18
  mapping_pairs_offset ← read_u16 attribute_bytes 0x20
  compression_unit_size ← read_u16 attribute_bytes 0x22
  allocated_size ← read_u64 attribute_bytes 0x28
  data_size ← read_u64 attribute_bytes 0x30
  initialized_size ← read_u64 attribute_bytes 0x38
  compressed_size ← read_compressed_size attribute_bytes
  fail_if (ltb (length attribute_bytes) mapping_pairs_offset)
      (invalid_mapping_pairs_offset mapping_pairs_offset)
  mapping_pairs ← or_panic (get_range attribute_bytes mapping_pairs_offset (length attribute_bytes))
  data_runs ← parse_data_runs mapping_pairs
  ok (
      non_resident (record {
        lowest_vcn = lowest_vcn;
        highest_vcn = highest_vcn;
        compression_unit_size = compression_unit_size;
        allocated_size = allocated_size;
        data_size = data_size;
        initialized_size = initialized_size;
        compressed_size = compressed_size;
        mapping_pairs = mapping_pairs;
        data_runs = data_runs;
      }))
