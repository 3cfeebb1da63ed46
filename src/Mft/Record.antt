-- ===== src/Mft/Record.antt =====
-- `parse_mft_record`: a file record from its raw bytes.
pub mod Total
use Prim.Native.Nat.{bit_and}
use file_recovery_engine.Prelude.{ℕ, zero, suc, ◌+◌, Bool, not, ◌||◌, List, [], ◌∷◌, ◌++◌}
use file_recovery_engine.Prelude.{ltb, leb, ◌==◌, if◌then◌else◌, length, get_elem?}
use file_recovery_engine.Prelude.Outcome.{ok, err, stuck, fail_if, or_panic, ◌>>=◌, ◌>>◌}
use file_recovery_engine.Prelude.Bytes.{Bytes, get_range, bytes_eq, ascii}
use file_recovery_engine.Mft.Types.{MftRecord, MftRecordHeader, AttributeRecord, AttributeForm}
use file_recovery_engine.Mft.Types.{buffer_too_small, invalid_sector_size, invalid_signature}
use file_recovery_engine.Mft.Types.{invalid_bytes_in_use, invalid_first_attribute_offset}
use file_recovery_engine.Mft.Types.{attribute_out_of_bounds, invalid_attribute_length}
use file_recovery_engine.Mft.Types.{invalid_non_resident_flag}
use file_recovery_engine.Mft.Fields.{Parsed, read_u16, read_u32, read_u64}
use file_recovery_engine.Mft.Fixup.{apply_update_sequence_fixup}
use file_recovery_engine.Mft.Attributes.{parse_attribute_name, parse_resident_attribute}
use file_recovery_engine.Mft.Attributes.{parse_non_resident_attribute}

abbrev pub attribute_type_end : ℕ
attribute_type_end = 0xFFFF_FFFF

-- `MftRecordHeader::in_use` and `MftRecordHeader::is_directory`.
unfoldable pub in_use : MftRecordHeader → Bool
in_use header = not (bit_and header.flags 0x0001 == 0)

unfoldable pub is_directory : MftRecordHeader → Bool
is_directory header = not (bit_and header.flags 0x0002 == 0)

-- The `match` on the non-resident flag.
pub parse_form : ℕ → Bytes → Parsed AttributeForm
parse_form flag attribute_bytes =
    if flag == 0
    then parse_resident_attribute attribute_bytes
    else if flag == 1
    then parse_non_resident_attribute attribute_bytes
    else err (invalid_non_resident_flag flag)

-- The attribute at `cursor`, which is `attribute_length` bytes long.
pub parse_attribute : Bytes → ℕ → ℕ → ℕ → Parsed AttributeRecord
unfolding parse_form
parse_attribute fixed cursor attribute_length attribute_type = do
  let attribute_end = cursor + attribute_length
  non_resident_flag ← or_panic (get_elem? fixed (cursor + 8))
  name_length ← or_panic (get_elem? fixed (cursor + 9))
  name_offset ← read_u16 fixed (cursor + 10)
  flags ← read_u16 fixed (cursor + 12)
  attribute_id ← read_u16 fixed (cursor + 14)
  attribute_bytes ← or_panic (get_range fixed cursor attribute_end)
  name ← parse_attribute_name attribute_bytes name_offset name_length
  form ← parse_form non_resident_flag attribute_bytes
  ok (record {
    attribute_type = attribute_type;
    name = name;
    flags = flags;
    attribute_id = attribute_id;
    form = form;
  })

-- `while cursor + 4 <= parse_limit`. A round takes sixteen bytes or ends the loop.
pub attributes_loop : Bytes → ℕ → ℕ → ℕ → List AttributeRecord → Parsed (List AttributeRecord)
unfolding parse_attribute
attributes_loop fixed parse_limit zero cursor attributes =
    if leb (cursor + 4) parse_limit then stuck else ok attributes
attributes_loop fixed parse_limit (suc fuel) cursor attributes =
    if not (leb (cursor + 4) parse_limit) then ok attributes else do
      attribute_type ← read_u32 fixed cursor
      if attribute_type == attribute_type_end then ok attributes else do
        fail_if (ltb parse_limit (cursor + 16)) (attribute_out_of_bounds cursor 16 parse_limit)
        attribute_length ← read_u32 fixed (cursor + 4)
        fail_if (ltb attribute_length 16) (invalid_attribute_length cursor attribute_length)
        fail_if (ltb parse_limit (cursor + attribute_length))
            (attribute_out_of_bounds cursor attribute_length parse_limit)
        attribute ← parse_attribute fixed cursor attribute_length attribute_type
        attributes_loop fixed parse_limit fuel (cursor + attribute_length)
            (attributes ++ (attribute ∷ []))

-- The header, from the fixed bytes and the two fields that are checked before it is built.
pub parse_header : Bytes → ℕ → ℕ → Parsed MftRecordHeader
parse_header fixed bytes_in_use first_attribute_offset = do
  usa_offset ← read_u16 fixed 0x04
  usa_count ← read_u16 fixed 0x06
  sequence_number ← read_u16 fixed 0x10
  hard_link_count ← read_u16 fixed 0x12
  flags ← read_u16 fixed 0x16
  bytes_allocated ← read_u32 fixed 0x1C
  base_record_reference ← read_u64 fixed 0x20
  next_attribute_id ← read_u16 fixed 0x28
  record_number ← read_u32 fixed 0x2C
  ok (record {
    usa_offset = usa_offset;
    usa_count = usa_count;
    sequence_number = sequence_number;
    hard_link_count = hard_link_count;
    first_attribute_offset = first_attribute_offset;
    flags = flags;
    bytes_in_use = bytes_in_use;
    bytes_allocated = bytes_allocated;
    base_record_reference = base_record_reference;
    next_attribute_id = next_attribute_id;
    record_number = record_number;
  })

-- The part of `parse_mft_record` behind the fixup.
pub parse_fixed : Bytes → Parsed MftRecord
unfolding attributes_loop parse_header
parse_fixed fixed = do
  signature ← or_panic (get_range fixed 0x00 0x04)
  fail_if (not (bytes_eq signature (ascii "FILE"))) (invalid_signature signature)
  bytes_in_use ← read_u32 fixed 0x18
  fail_if (bytes_in_use == 0 || ltb (length fixed) bytes_in_use) (invalid_bytes_in_use bytes_in_use)
  first_attribute_offset ← read_u16 fixed 0x14
  fail_if (leb bytes_in_use first_attribute_offset)
      (invalid_first_attribute_offset first_attribute_offset)
  header ← parse_header fixed bytes_in_use first_attribute_offset
  attributes ← attributes_loop fixed bytes_in_use bytes_in_use first_attribute_offset []
  ok (record { header = header; attributes = attributes })

unfoldable pub parse_mft_record : Bytes → ℕ → Parsed MftRecord
unfolding parse_fixed
parse_mft_record record_bytes bytes_per_sector = do
  fail_if (ltb (length record_bytes) 48) (buffer_too_small 48 (length record_bytes))
  fail_if (ltb bytes_per_sector 2) (invalid_sector_size bytes_per_sector)
  fixed ← apply_update_sequence_fixup record_bytes bytes_per_sector
  parse_fixed fixed
