-- ===== src/Session/Scan.antt =====
-- The quick scan of the file records of an NTFS volume in memory.
pub mod Counts
pub mod Total
use file_recovery_engine.Prelude.{
  ℕ, zero, suc, ◌+◌, ◌-◌, Bool, true, false, ◌||◌, ◌&&◌, Option, none, some, List, [], ◌∷◌, ◌++◌,
  ◌⊎◌, inl, inr,
}
use file_recovery_engine.Prelude.{ltb, leb, ◌==◌, if◌then◌else◌, length}
use file_recovery_engine.Prelude.Outcome.{
  Outcome, ok, err, panic, stuck, fail_if, or_panic, ok_or, ◌>>=◌, ◌>>◌,
}
use file_recovery_engine.Prelude.Checked.{checked_add, saturating_mul, saturating_add}
use file_recovery_engine.Prelude.Bytes.{Bytes, get_range}
use file_recovery_engine.Mft.Types.{
  MftRecord, MftParseError, AttributeRecord, AttributeForm, resident, non_resident,
}
use file_recovery_engine.Mft.Record.{parse_mft_record}
use file_recovery_engine.Ntfs.Sector.{
  NtfsBootSector, BootSectorParseError, parse_boot_sector, mft_offset_bytes,
}
use file_recovery_engine.Session.Types.{
  QuickScanConfig, QuickScanCandidate, QuickScanSummary, QuickScanRecordError, Scanned,
  boot_sector_error, invalid_mft_offset, mft_out_of_bounds, invalid_file_record_size,
  max_ntfs_file_record_size, max_consecutive_empty_mft_records,
}
use file_recovery_engine.Session.Candidate.{build_candidate, is_some, is_non_resident}
use file_recovery_engine.Session.Paths.{reconstruct_paths}
use file_recovery_engine.Session.Order.{bit, sort_quick_scan_candidates_for_recent_deletes}
use mathlib.Core.Option

-- What the loop over the records has counted and found.
pub record ScanState : Type 0 where
  pub parsed_records : ℕ
  pub resident_attribute_count : ℕ
  pub non_resident_attribute_count : ℕ
  pub deleted_records : ℕ
  pub directory_records : ℕ
  pub named_records : ℕ
  pub records_with_non_resident_data : ℕ
  pub candidates : List QuickScanCandidate
  pub record_errors : List QuickScanRecordError
  pub consecutive_empty_records : ℕ

abbrev pub initial : ScanState
initial = record {
  parsed_records = 0;
  resident_attribute_count = 0;
  non_resident_attribute_count = 0;
  deleted_records = 0;
  directory_records = 0;
  named_records = 0;
  records_with_non_resident_data = 0;
  candidates = [];
  record_errors = [];
  consecutive_empty_records = 0;
}

-- `remaining.iter().all(|b| *b == 0)`.
unfoldable pub is_empty_record : Bytes → Bool
is_empty_record [] = true
is_empty_record (b ∷ bytes) = b == 0 && is_empty_record bytes

unfoldable pub count_non_resident : List AttributeRecord → ℕ
count_non_resident [] = 0
count_non_resident (attribute ∷ attributes) =
    bit (is_non_resident attribute.form) + count_non_resident attributes

unfoldable pub count_resident : List AttributeRecord → ℕ
count_resident [] = 0
count_resident (attribute ∷ attributes) =
    (1 - bit (is_non_resident attribute.form)) + count_resident attributes

-- A record that was parsed: its attributes and its candidate are counted.
unfoldable pub add_candidate : MftRecord → QuickScanCandidate → ScanState → ScanState
unfolding count_non_resident count_resident
add_candidate mft_record c s = record s {
  parsed_records = s.parsed_records + 1;
  resident_attribute_count = s.resident_attribute_count + count_resident mft_record.attributes;
  non_resident_attribute_count =
      s.non_resident_attribute_count + count_non_resident mft_record.attributes;
  deleted_records = s.deleted_records + bit c.deleted;
  directory_records = s.directory_records + bit c.is_directory;
  named_records = s.named_records + bit (is_some c.name);
  records_with_non_resident_data = s.records_with_non_resident_data + bit c.has_non_resident_data;
  candidates = s.candidates ++ c ∷ [];
  consecutive_empty_records = 0;
}

unfoldable pub add_error : ℕ → MftParseError → ScanState → ScanState
add_error index error s = record s {
  record_errors = s.record_errors ++ record { record_index = index; reason = error } ∷ [];
  consecutive_empty_records = 0;
}

-- `match parse_mft_record(...)`: a parse error is recorded, and the scan goes on.
unfoldable pub add_parsed : ℕ → Outcome MftParseError MftRecord → ScanState → Scanned ScanState
unfolding add_candidate add_error
add_parsed index (ok mft_record) s =
    build_candidate index mft_record >>= λ c. ok (add_candidate mft_record c s)
add_parsed index (err error) s = ok (add_error index error s)
add_parsed index panic s = panic
add_parsed index stuck s = stuck

-- The bytes of a record; `none` leaves the loop.
unfoldable pub record_bounds : ℕ → ℕ → ℕ → Option (ℕ × ℕ)
record_bounds mft_offset record_size index =
    Option.bind (checked_add mft_offset (saturating_mul index record_size))
      λ offset. Option.map (λ end. (offset, end)) (checked_add offset record_size)

-- One round on the bytes of a record. The Boolean says whether the loop goes on.
unfoldable pub scan_record : ℕ → ℕ → Bytes → ScanState → Scanned (Bool × ScanState)
unfolding add_parsed
scan_record sector_size index record_bytes s =
    if is_empty_record record_bytes
    then (let empty = saturating_add s.consecutive_empty_records 1 in
        ok (
          ltb empty max_consecutive_empty_mft_records,
          record s { consecutive_empty_records = empty },
        ))
    else add_parsed index (parse_mft_record record_bytes sector_size) s >>= λ after.
        ok (true, after)

unfoldable pub scan_bounds : Bytes → ℕ → ℕ → Option (ℕ × ℕ) → ScanState → Scanned (Bool × ScanState)
unfolding scan_record
scan_bounds source_bytes sector_size index none s = ok (false, s)
scan_bounds source_bytes sector_size index (some (offset, end)) s =
    if ltb (length source_bytes) end
    then ok (false, s)
    else or_panic (get_range source_bytes offset end) >>= λ record_bytes.
        scan_record sector_size index record_bytes s

-- `for index in 0..config.max_records`, by the rounds that are left.
unfoldable pub records_loop : ℕ → Bytes → ℕ → ℕ → ℕ → ℕ → ScanState → Scanned ScanState
unfolding record_bounds scan_bounds
records_loop zero source_bytes mft_offset record_size sector_size index s = ok s
records_loop (suc left) source_bytes mft_offset record_size sector_size index s =
    scan_bounds source_bytes sector_size index (record_bounds mft_offset record_size index) s
    >>= λ (more, after).
        if more
        then records_loop left source_bytes mft_offset record_size sector_size (index + 1) after
        else ok after

abbrev from_boot {ℓ} : {A : Type ℓ} → Outcome BootSectorParseError A → Scanned A
from_boot (ok a) = ok a
from_boot (err e) = err (boot_sector_error e)
from_boot panic = panic
from_boot stuck = stuck

-- The summary that is made of the state behind the loop.
unfoldable pub summarize : NtfsBootSector → ScanState → QuickScanSummary
summarize boot_sector s = record {
  boot_sector = boot_sector;
  parsed_records = s.parsed_records;
  parse_failures = length s.record_errors;
  resident_attribute_count = s.resident_attribute_count;
  non_resident_attribute_count = s.non_resident_attribute_count;
  deleted_records = s.deleted_records;
  directory_records = s.directory_records;
  named_records = s.named_records;
  records_with_non_resident_data = s.records_with_non_resident_data;
  usn_enriched_records = 0;
  usn_ghost_records = 0;
  candidates = sort_quick_scan_candidates_for_recent_deletes (reconstruct_paths s.candidates);
  record_errors = s.record_errors;
}

unfoldable pub quick_scan_ntfs_metadata : Bytes → QuickScanConfig → Scanned QuickScanSummary
unfolding records_loop summarize
quick_scan_ntfs_metadata source_bytes config = do
  boot_sector ← from_boot (parse_boot_sector source_bytes)
  mft_offset ← ok_or (mft_offset_bytes boot_sector) invalid_mft_offset
  fail_if (leb (length source_bytes) mft_offset)
      (mft_out_of_bounds mft_offset (length source_bytes))
  fail_if
      (ltb boot_sector.file_record_size_bytes 256
        || ltb max_ntfs_file_record_size boot_sector.file_record_size_bytes)
      (invalid_file_record_size boot_sector.file_record_size_bytes)
  s ←
      records_loop config.max_records source_bytes mft_offset boot_sector.file_record_size_bytes
        boot_sector.bytes_per_sector 0 initial
  ok (summarize boot_sector s)
