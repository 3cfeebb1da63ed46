-- ===== src/Usn/Tests.antt =====
-- Records of the journal, and the theorems on them.
use file_recovery_engine.Prelude.{◌≡◌, refl, arith, List, [], ◌∷◌, ◌++◌, replicate, inl, inr}
use file_recovery_engine.Prelude.Outcome.{ok, Returns}
use file_recovery_engine.Prelude.Int.{pos, negsuc}
use file_recovery_engine.Prelude.Checked.{has_bit}
use file_recovery_engine.Prelude.Text.{encode_utf16, unit_bytes}
use file_recovery_engine.Usn.Types.{UsnRecord}
use file_recovery_engine.Usn.Reasons.{labels_loop, decode_reason_labels}
use file_recovery_engine.Usn.Parse.{parse_usn_records}
use file_recovery_engine.Usn.Total.{parse_usn_records-Returns}
use file_recovery_engine.Usn.Encode.{Entry, IsEncodable, encode_entry, encode_entries, records_of}
use file_recovery_engine.Usn.Encode.RoundTrip.{parse_usn_records-encode_entries}

abbrev deletion : UsnRecord
deletion = record {
  major_version = 2;
  minor_version = 0;
  file_reference_number = 281474976710700;
  parent_file_reference_number = 5;
  usn = pos 4096;
  timestamp_100ns = negsuc 3;
  reason = 0x80000200;
  source_info = 0;
  security_id = 258;
  file_attributes = 32;
  file_name = 97 ∷ 0x1F600 ∷ 46 ∷ 116 ∷ [];
}

abbrev padded : Entry
padded = (deletion, 1 ∷ 2 ∷ 3 ∷ [])

abbrev entries : List Entry
entries = padded ∷ padded ∷ []

deletion_labels : decode_reason_labels deletion.reason ≡ "file-delete" ∷ "close" ∷ []
unfolding decode_reason_labels labels_loop has_bit
deletion_labels = refl

padded-IsEncodable : IsEncodable padded
unfolding encode_utf16 unit_bytes
padded-IsEncodable = (
  refl,
  omega arith,
  omega arith,
  omega arith,
  refl,
  refl,
  omega arith,
  omega arith,
  omega arith,
  omega arith,
  (
    inl (omega arith),
    (inr (omega arith, omega arith), (inl (omega arith), (inl (omega arith), tt))),
  ),
  omega arith,
  omega arith,
  omega arith,
)

parse_usn_records-encode_entries_example :
    parse_usn_records (encode_entries entries ++ replicate 5 0) ≡ ok (records_of entries)
unfolding encode_entries encode_entry encode_utf16 unit_bytes
parse_usn_records-encode_entries_example =
    parse_usn_records-encode_entries entries 5 (padded-IsEncodable, (padded-IsEncodable, tt))
      (omega arith)

parse_usn_records-Returns_example :
    Returns (parse_usn_records (60 ∷ 0 ∷ 0 ∷ 0 ∷ 2 ∷ 0 ∷ 0 ∷ 0 ∷ 7 ∷ []))
parse_usn_records-Returns_example =
    parse_usn_records-Returns (60 ∷ 0 ∷ 0 ∷ 0 ∷ 2 ∷ 0 ∷ 0 ∷ 0 ∷ 7 ∷ []) (omega arith)
