-- ===== src/Usn/Encode.antt =====
-- The journal's bytes for a list of records of version 2, and the parser on them.
pub mod Fields
pub mod RoundTrip
use file_recovery_engine.Prelude.{
  ℕ, zero, suc, ◌+◌, ◌*◌, ◌≤◌, ◌<◌, ◌≡◌, refl, true, List, [], ◌∷◌, ◌++◌, All, length, replicate,
}
use file_recovery_engine.Prelude.Bytes.{Bytes}
use file_recovery_engine.Prelude.Int.{fits_i64}
use file_recovery_engine.Prelude.Text.{IsScalar, encode_utf16, unit_bytes}
use file_recovery_engine.Prelude.Words.{to_le, i64_bits}
use file_recovery_engine.Usn.Types.{UsnRecord}

-- A record and the bytes that pad it.
abbrev pub Entry : Type 0
Entry = UsnRecord × Bytes

abbrev pub name_bytes : UsnRecord → Bytes
name_bytes r = unit_bytes (encode_utf16 r.file_name)

abbrev pub entry_size : Entry → ℕ
entry_size (r, padding) = 60 + length (name_bytes r ++ padding)

-- The fields of a record of version 2 in the order of the journal; the name follows at 60.
unfoldable pub encode_entry : Entry → Bytes
encode_entry (r, padding) =
    to_le 4 (entry_size (r, padding))
    ++ to_le 2 2
    ++ to_le 2 r.minor_version
    ++ to_le 8 r.file_reference_number
    ++ to_le 8 r.parent_file_reference_number
    ++ to_le 8 (i64_bits r.usn)
    ++ to_le 8 (i64_bits r.timestamp_100ns)
    ++ to_le 4 r.reason
    ++ to_le 4 r.source_info
    ++ to_le 4 r.security_id
    ++ to_le 4 r.file_attributes
    ++ to_le 2 (length (name_bytes r))
    ++ to_le 2 60
    ++ name_bytes r
    ++ padding

unfoldable pub encode_entries : List Entry → Bytes
unfolding encode_entry
encode_entries [] = []
encode_entries (e ∷ entries) = encode_entry e ++ encode_entries entries

unfoldable pub records_of : List Entry → List UsnRecord
records_of [] = []
records_of ((r, padding) ∷ entries) = r ∷ records_of entries

-- The values of the fields fit their widths, and so do the sizes of the name and of the record.
-- There is a name or padding, since the parser refuses a name that starts at the record's end.
abbrev pub IsEncodable : Entry → Type 0
IsEncodable (r, padding) =
    (r.major_version ≡ 2)
    × (r.minor_version < 65536)
    × (r.file_reference_number < 18446744073709551616)
    × (r.parent_file_reference_number < 18446744073709551616)
    × (fits_i64 r.usn ≡ true)
    × (fits_i64 r.timestamp_100ns ≡ true)
    × (r.reason < 4294967296)
    × (r.source_info < 4294967296)
    × (r.security_id < 4294967296)
    × (r.file_attributes < 4294967296)
    × All IsScalar r.file_name
    × (length (name_bytes r) < 65536)
    × (60 < entry_size (r, padding))
    × (entry_size (r, padding) < 4294967296)
