-- ===== src/Usn/Parse.antt =====
-- The record parser of the USN journal.
use file_recovery_engine.Prelude.{
  ℕ, zero, suc, ◌%◌, Bool, true, not, ◌||◌, ◌&&◌, none, List, [], ◌∷◌,
}
use file_recovery_engine.Prelude.{ltb, leb, ◌==◌, if◌then◌else◌, length, drop}
use file_recovery_engine.Prelude.Outcome.{ok, err, stuck, fail_if, or_panic, ok_or, ◌>>=◌, ◌>>◌}
use file_recovery_engine.Prelude.Checked.{u32_mod, checked_add, saturating_add}
use file_recovery_engine.Prelude.Bytes.{Bytes, get_range}
use file_recovery_engine.Prelude.Readers.{read_le}
use file_recovery_engine.Prelude.Int.{ℤ, as_i64}
use file_recovery_engine.Prelude.Text.{code_units, decode_utf16}
use file_recovery_engine.Usn.Types.{
  UsnRecord, Parsed, usn_record_min_v2, usn_record_min_v3, truncated_record_header,
  invalid_record_length, unsupported_version, truncated_record_body, invalid_file_name_range,
  invalid_file_name_encoding,
}

unfoldable pub read_u16 : Bytes → ℕ → Parsed ℕ
read_u16 bytes offset = read_le 2 bytes offset

unfoldable pub read_u32 : Bytes → ℕ → Parsed ℕ
read_u32 bytes offset = read_le 4 bytes offset

unfoldable pub read_u64 : Bytes → ℕ → Parsed ℕ
read_u64 bytes offset = read_le 8 bytes offset

unfoldable pub read_i64 : Bytes → ℕ → Parsed ℤ
read_i64 bytes offset = do v ← read_le 8 bytes offset; ok (as_i64 v)

unfoldable pub parse_utf16_file_name : Bytes → ℕ → ℕ → ℕ → Parsed (List ℕ)
parse_utf16_file_name usn_record offset name_offset name_length =
    let outside =
      invalid_file_name_range offset name_offset name_length (length usn_record % u32_mod) in
    do
      fail_if (not (name_length % 2 == 0)) outside
      name_end ← ok_or (checked_add name_offset name_length) outside
      fail_if (ltb (length usn_record) name_end || leb (length usn_record) name_offset) outside
      name_slice ← or_panic (get_range usn_record name_offset name_end)
      utf16_units ← or_panic (code_units name_slice)
      ok_or (decode_utf16 none utf16_units) (invalid_file_name_encoding offset)

unfoldable pub parse_v2_record : Bytes → ℕ → ℕ → ℕ → Parsed UsnRecord
parse_v2_record usn_record offset major minor = do
  fail_if (ltb (length usn_record) usn_record_min_v2)
      (invalid_record_length offset (length usn_record % u32_mod))
  file_reference_number ← read_u64 usn_record 8
  parent_file_reference_number ← read_u64 usn_record 16
  usn ← read_i64 usn_record 24
  timestamp_100ns ← read_i64 usn_record 32
  reason ← read_u32 usn_record 40
  source_info ← read_u32 usn_record 44
  security_id ← read_u32 usn_record 48
  file_attributes ← read_u32 usn_record 52
  file_name_length ← read_u16 usn_record 56
  file_name_offset ← read_u16 usn_record 58
  file_name ← parse_utf16_file_name usn_record offset file_name_offset file_name_length
  ok (record {
    major_version = major;
    minor_version = minor;
    file_reference_number = file_reference_number;
    parent_file_reference_number = parent_file_reference_number;
    usn = usn;
    timestamp_100ns = timestamp_100ns;
    reason = reason;
    source_info = source_info;
    security_id = security_id;
    file_attributes = file_attributes;
    file_name = file_name;
  })

unfoldable pub parse_v3_record : Bytes → ℕ → ℕ → ℕ → Parsed UsnRecord
parse_v3_record usn_record offset major minor = do
  fail_if (ltb (length usn_record) usn_record_min_v3)
      (invalid_record_length offset (length usn_record % u32_mod))
  file_reference_number ← read_u64 usn_record 8
  parent_file_reference_number ← read_u64 usn_record 24
  usn ← read_i64 usn_record 40
  timestamp_100ns ← read_i64 usn_record 48
  reason ← read_u32 usn_record 56
  source_info ← read_u32 usn_record 60
  security_id ← read_u32 usn_record 64
  file_attributes ← read_u32 usn_record 68
  file_name_length ← read_u16 usn_record 72
  file_name_offset ← read_u16 usn_record 74
  file_name ← parse_utf16_file_name usn_record offset file_name_offset file_name_length
  ok (record {
    major_version = major;
    minor_version = minor;
    file_reference_number = file_reference_number;
    parent_file_reference_number = parent_file_reference_number;
    usn = usn;
    timestamp_100ns = timestamp_100ns;
    reason = reason;
    source_info = source_info;
    security_id = security_id;
    file_attributes = file_attributes;
    file_name = file_name;
  })

-- `remaining.iter().all(|value| *value == 0)`.
unfoldable pub all_zero : Bytes → Bool
all_zero [] = true
all_zero (b ∷ bytes) = b == 0 && all_zero bytes

-- `match major`.
unfoldable pub parse_version : Bytes → ℕ → ℕ → ℕ → Parsed UsnRecord
parse_version record_slice offset major minor =
    if major == 2
    then parse_v2_record record_slice offset major minor
    else if major == 3
    then parse_v3_record record_slice offset major minor
    else err (unsupported_version offset major minor)

-- The body of the loop behind the tests that leave it: the record at the start of `remaining`.
unfoldable pub parse_next : Bytes → ℕ → ℕ → Parsed UsnRecord
parse_next remaining offset record_length = do
  fail_if (ltb record_length usn_record_min_v2) (invalid_record_length offset record_length)
  fail_if (ltb (length remaining) record_length)
      (truncated_record_body offset record_length (length remaining))
  major ← read_u16 remaining 4
  minor ← read_u16 remaining 6
  record_slice ← or_panic (get_range remaining 0 record_length)
  parse_version record_slice offset major minor

-- The loop from `offset` on. It runs on fuel, which only counts its rounds.
unfoldable pub records_loop : ℕ → Bytes → ℕ → Parsed (List UsnRecord)
records_loop zero bytes offset = stuck
records_loop (suc fuel) bytes offset =
    if leb (length bytes) offset
    then ok []
    else let remaining = drop offset bytes in
      if all_zero remaining
      then ok []
      else if ltb (length remaining) 8
      then err (truncated_record_header offset)
      else read_u32 remaining 0 >>= λ record_length.
          if record_length == 0
          then ok []
          else parse_next remaining offset record_length >>= λ parsed.
              records_loop fuel bytes (saturating_add offset record_length) >>= λ rest.
              ok (parsed ∷ rest)

-- A record takes a byte or more, so the loop has a round for every byte and one for the test that
-- leaves it.
unfoldable pub parse_usn_records : Bytes → Parsed (List UsnRecord)
parse_usn_records bytes = records_loop (suc (length bytes)) bytes 0
