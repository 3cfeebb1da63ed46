-- ===== src/Usn/Encode/Fields.antt =====
-- The parser of a record of version 2 on the bytes of one.
use file_recovery_engine.Prelude.{
  ℕ, ◌+◌, ◌-◌, ◌*◌, ◌%◌, ◌≤◌, ◌<◌, ◌≡◌, refl, ap, arith, true, false, some, ◌++◌, ltb, leb, ◌==◌,
  le→leb,
}
use file_recovery_engine.Prelude.{length, drop, length-append}
use file_recovery_engine.Prelude.Outcome.{ok}
use file_recovery_engine.Prelude.Bytes.{Bytes, get_range}
use file_recovery_engine.Prelude.Checked.{checked_add}
use file_recovery_engine.Prelude.Text.{
  encode_utf16, decode_utf16-encode_utf16, code_units-unit_bytes, length-unit_bytes,
}
use file_recovery_engine.Prelude.Words.{
  to_le, i64_bits, i64_bits-lt, as_i64-i64_bits, take-append, read_le-to_le,
}
use file_recovery_engine.Prelude.Int.{ℤ, fits_i64}
use file_recovery_engine.Usn.Types.{UsnRecord, UsnParseError}
use file_recovery_engine.Usn.Parse.{
  read_u16, read_u32, read_u64, read_i64, parse_utf16_file_name, parse_v2_record,
}
use file_recovery_engine.Usn.Encode.{Entry, name_bytes, entry_size, encode_entry, IsEncodable}

pub length-encode_entry : (e : Entry) → length (encode_entry e) ≡ entry_size e
unfolding encode_entry
length-encode_entry (r, padding) = omega arith

name_even : (r : UsnRecord) → (length (name_bytes r) % 2 == 0) ≡ true
name_even r =
    let n : ℕ = length (encode_utf16 r.file_name) in
    let e : length (name_bytes r) ≡ n * 2 = length-unit_bytes (encode_utf16 r.file_name) in
    ground arith

name_slice :
    (r : UsnRecord) (padding : Bytes)
    → get_range (encode_entry (r, padding)) 60 (60 + length (name_bytes r)) ≡ some (name_bytes r)
unfolding get_range
name_slice r padding =
    let n : ℕ = length (name_bytes r) in
    let start : drop 60 (encode_entry (r, padding)) ≡ name_bytes r ++ padding =
      unfold encode_entry in refl in
    let long : 60 + n ≤ length (encode_entry (r, padding)) =
      omega (arith, length-encode_entry (r, padding), length-append (name_bytes r) padding) in
    let size : 60 + n - 60 ≡ n = omega arith in
    rw
      (
        le→leb 60 (60 + n) (omega arith),
        le→leb (60 + n) _ long,
        start,
        size,
        take-append (name_bytes r) padding,
      )
      refl

parse_name :
    (r : UsnRecord) (padding : Bytes) (offset : ℕ)
    → IsEncodable (r, padding)
    → parse_utf16_file_name (encode_entry (r, padding)) offset 60 (length (name_bytes r))
      ≡ ok r.file_name
unfolding parse_utf16_file_name checked_add
parse_name r padding offset (_, _, _, _, _, _, _, _, _, _, scalars, small, room, _) =
    let n : ℕ = length (name_bytes r) in
    let fits : ltb (60 + n) 18446744073709551616 ≡ true = ground arith in
    let long : ltb (length (encode_entry (r, padding))) (60 + n) ≡ false =
      ground (arith, length-encode_entry (r, padding), length-append (name_bytes r) padding) in
    let inside : leb (length (encode_entry (r, padding))) 60 ≡ false =
      ground (arith, length-encode_entry (r, padding)) in
    rw
      (
        name_even r,
        fits,
        long,
        inside,
        name_slice r padding,
        code_units-unit_bytes (encode_utf16 r.file_name),
        decode_utf16-encode_utf16 r.file_name scalars,
      )
      refl

module _ (e : Entry) where
  u16_at :
      (v offset : ℕ) (rest : Bytes)
      → v < 65536
      → offset ≤ 60
      → drop offset (encode_entry e) ≡ to_le 2 v ++ rest
      → read_u16 (encode_entry e) offset ≡ ok v
  unfolding read_u16
  u16_at v offset rest h k d =
      read_le-to_le 2 v (encode_entry e) rest offset h (omega (arith, length-encode_entry e)) d

  u32_at :
      (v offset : ℕ) (rest : Bytes)
      → v < 4294967296
      → offset ≤ 60
      → drop offset (encode_entry e) ≡ to_le 4 v ++ rest
      → read_u32 (encode_entry e) offset ≡ ok v
  unfolding read_u32
  u32_at v offset rest h k d =
      read_le-to_le 4 v (encode_entry e) rest offset h (omega (arith, length-encode_entry e)) d

  u64_at :
      (v offset : ℕ) (rest : Bytes)
      → v < 18446744073709551616
      → offset ≤ 60
      → drop offset (encode_entry e) ≡ to_le 8 v ++ rest
      → read_u64 (encode_entry e) offset ≡ ok v
  unfolding read_u64
  u64_at v offset rest h k d =
      read_le-to_le 8 v (encode_entry e) rest offset h (omega (arith, length-encode_entry e)) d

  i64_at :
      (z : ℤ) (offset : ℕ) (rest : Bytes)
      → fits_i64 z ≡ true
      → offset ≤ 60
      → drop offset (encode_entry e) ≡ to_le 8 (i64_bits z) ++ rest
      → read_i64 (encode_entry e) offset ≡ ok z
  unfolding read_i64
  i64_at z offset rest h k d =
      rw
        (read_le-to_le {E = UsnParseError} 8 (i64_bits z) (encode_entry e) rest offset
          (i64_bits-lt z h) (omega (arith, length-encode_entry e)) d)
        (ap ok (as_i64-i64_bits z h))

-- The record comes back from its bytes.
pub parse_entry :
    (r : UsnRecord) (padding : Bytes) (offset : ℕ)
    → IsEncodable (r, padding)
    → parse_v2_record (encode_entry (r, padding)) offset r.major_version r.minor_version ≡ ok r
unfolding parse_v2_record
parse_entry r padding offset h =
    let e : Entry = (r, padding) in
    let (_, h1, h2, h3, h4, h5, h6, h7, h8, h9, _, small, _, _) = h in
    let long : ltb (length (encode_entry e)) 60 ≡ false = ground (arith, length-encode_entry e) in
    rw
      (
        long,
        u64_at e r.file_reference_number 8 (drop 16 (encode_entry e)) h2 (omega arith)
            (unfold encode_entry in refl),
        u64_at e r.parent_file_reference_number 16 (drop 24 (encode_entry e)) h3 (omega arith)
            (unfold encode_entry in refl),
        i64_at e r.usn 24 (drop 32 (encode_entry e)) h4 (omega arith) (unfold encode_entry in refl),
        i64_at e r.timestamp_100ns 32 (drop 40 (encode_entry e)) h5 (omega arith)
            (unfold encode_entry in refl),
        u32_at e r.reason 40 (drop 44 (encode_entry e)) h6 (omega arith)
            (unfold encode_entry in refl),
        u32_at e r.source_info 44 (drop 48 (encode_entry e)) h7 (omega arith)
            (unfold encode_entry in refl),
        u32_at e r.security_id 48 (drop 52 (encode_entry e)) h8 (omega arith)
            (unfold encode_entry in refl),
        u32_at e r.file_attributes 52 (drop 56 (encode_entry e)) h9 (omega arith)
            (unfold encode_entry in refl),
        u16_at e (length (name_bytes r)) 56 (drop 58 (encode_entry e)) small (omega arith)
            (unfold encode_entry in refl),
        u16_at e 60 58 (drop 60 (encode_entry e)) (omega arith) (omega arith)
            (unfold encode_entry in refl),
        parse_name r padding offset h,
      )
      refl
