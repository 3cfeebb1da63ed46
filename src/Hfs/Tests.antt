-- ===== src/Hfs/Tests.antt =====
-- An image with the record of one deleted file at its start and the volume header at 1024.
use file_recovery_engine.Prelude.{◌≡◌, refl, arith, false, [], ◌∷◌, ◌++◌, replicate}
use file_recovery_engine.Prelude.Outcome.{ok, Safe}
use file_recovery_engine.Prelude.Bytes.{
  Bytes, get_range, from_le, from_be_onto, bytes_eq, ascii, starts_with,
}
use file_recovery_engine.Prelude.Readers.{read_le, byte_at}
use file_recovery_engine.Prelude.Checked.{is_power_of_two, saturating_add, has_bit}
use file_recovery_engine.Validator.Text.{utf8_chars, trim_start, trim_end}
use mathlib.Core.Option
use file_recovery_engine.Hfs.Types.{HfsVolumeHeader}
use file_recovery_engine.Hfs.Header.{IsValid, read_u16_be, read_u32_be, parse_volume_header}
use file_recovery_engine.Hfs.Tombstone.{
  read_u32_le, read_u64_le, replace_slashes, normalize_candidate_path, any_control,
  decode_metadata_text, tombstone_path, tombstone_texts, tombstone_fields, parse_tombstone_record,
}
use file_recovery_engine.Hfs.Scan.{
  was_seen, keep_candidate, scan_round, scan_loop, scan_deleted_candidates_with_header,
  scan_deleted_candidates,
}
use file_recovery_engine.Hfs.Scan.Kept.{Recovered}
use file_recovery_engine.Hfs.Scan.Sound.{scan_deleted_candidates-Safe}

-- The file `a.b` in the directory `d`, with number 7 and 9 bytes.
abbrev tombstone : Bytes
tombstone =
    ascii "HFSDEL"
    ++ 0 ∷ 0 ∷ 7 ∷ 0 ∷ 0 ∷ 0 ∷ 9 ∷ 0 ∷ 0 ∷ 0 ∷ 0 ∷ 0 ∷ 0 ∷ 0 ∷ 0 ∷ 3 ∷ 6 ∷ 0 ∷ []
    ++ ascii "a.b"
    ++ replicate 93 0
    ++ ascii "/d/a.b"
    ++ replicate 186 0

abbrev volume_bytes : Bytes
volume_bytes =
    0x48 ∷ 0x2B ∷ 0 ∷ 4 ∷ replicate 28 0
    ++ 0 ∷ 0 ∷ 0 ∷ 3 ∷ 0 ∷ 0 ∷ 0 ∷ 2 ∷ 0 ∷ 0 ∷ 16 ∷ 0 ∷ 0 ∷ 0 ∷ 1 ∷ 0 ∷ replicate 464 0

abbrev image : Bytes
image = tombstone ++ replicate 712 0 ++ volume_bytes

abbrev volume : HfsVolumeHeader
volume = record {
  signature = 0x482B;
  version = 4;
  block_size_bytes = 4096;
  total_blocks = 256;
  file_count = 3;
  folder_count = 2;
}

parsed_volume : parse_volume_header image ≡ ok volume
unfolding parse_volume_header read_u16_be read_u32_be get_range from_be_onto is_power_of_two
parsed_volume = refl

-- `.\d\a.b`
found_entries :
    scan_deleted_candidates_with_header image volume 1
    ≡ ok (
        record {
          cnid = 7;
          size_bytes = 9;
          name = 97 ∷ 46 ∷ 98 ∷ [];
          path = 46 ∷ 92 ∷ 100 ∷ 92 ∷ 97 ∷ 46 ∷ 98 ∷ [];
          is_directory = false;
        }
        ∷ [])
unfolding scan_deleted_candidates_with_header scan_loop scan_round get_range bytes_eq
    parse_tombstone_record read_u32_le read_u64_le read_le from_le byte_at tombstone_fields
    tombstone_texts tombstone_path decode_metadata_text utf8_chars trim_start trim_end any_control
    normalize_candidate_path replace_slashes starts_with has_bit keep_candidate was_seen
    saturating_add Option.bind
found_entries = refl

scan_deleted_candidates-Safe_example :
    Safe (λ r. IsValid r.0 × Recovered image 1 r.1) (scan_deleted_candidates image 1)
scan_deleted_candidates-Safe_example = scan_deleted_candidates-Safe image 1 (omega arith)
