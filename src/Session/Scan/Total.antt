-- ===== src/Session/Scan/Total.antt =====
-- The quick scan on arbitrary bytes, and what its summary promises.
use file_recovery_engine.Prelude.{
  ℕ, ◌+◌, ◌≤◌, ◌≡◌, refl, sym, ◌∙◌, arith, Bool, ◌||◌, List, ltb, leb, length,
}
use file_recovery_engine.Prelude.Outcome.{
  Outcome, ok, err, panic, stuck, Returns, Safe, Safe-ok, Safe-err, Safe-bind, Safe-fail_if,
  Safe-ok_or,
}
use file_recovery_engine.Prelude.Bytes.{Bytes, IsSlice}
use file_recovery_engine.Ntfs.Sector.{NtfsBootSector, BootSectorParseError, mft_offset_bytes}
use file_recovery_engine.Ntfs.Valid.{parse_boot_sector-Returns}
use file_recovery_engine.Session.Types.{QuickScanConfig, QuickScanCandidate, QuickScanSummary}
use file_recovery_engine.Session.Paths.{reconstruct_paths, set_path, Known}
use file_recovery_engine.Session.Paths.Ancestors.{count-reconstruct_paths}
use file_recovery_engine.Session.Order.{sort_quick_scan_candidates_for_recent_deletes}
use file_recovery_engine.Session.Order.Sorted.{count, count-sort, IsSorted, sort_IsSorted}
use file_recovery_engine.Session.Scan.{
  ScanState, initial, from_boot, summarize, quick_scan_ntfs_metadata,
}
use file_recovery_engine.Session.Scan.Counts.{
  any, gone, folder, named, outside, Counted, more_rounds_to, records_loop-Safe,
}

-- What the summary promises.
pub record IsCounted (max_records : ℕ) (summary : QuickScanSummary) : Type 0 where
  pub parsed : summary.parsed_records ≡ count any summary.candidates
  pub failures : summary.parse_failures ≡ length summary.record_errors
  pub deleted : summary.deleted_records ≡ count gone summary.candidates
  pub directories : summary.directory_records ≡ count folder summary.candidates
  pub names : summary.named_records ≡ count named summary.candidates
  pub non_resident : summary.records_with_non_resident_data ≡ count outside summary.candidates
  pub limit : summary.parsed_records + summary.parse_failures ≤ max_records
  pub sorted : IsSorted summary.candidates

-- Sorting and paths leave a count as it is.
same_count :
    (test : QuickScanCandidate → Bool) (candidates : List QuickScanCandidate)
    → ((known : Known) (c : QuickScanCandidate) → test (set_path known c) ≡ test c)
    → count test (sort_quick_scan_candidates_for_recent_deletes (reconstruct_paths candidates))
      ≡ count test candidates
same_count test candidates h =
    count-sort test (reconstruct_paths candidates) ∙ count-reconstruct_paths test candidates h

summarize-IsCounted :
    (max_records : ℕ) (boot : NtfsBootSector) (s : ScanState)
    → Counted max_records s
    → IsCounted max_records (summarize boot s)
unfolding summarize set_path
summarize-IsCounted max_records boot s h = record {
  parsed = h.parsed ∙ sym (same_count any s.candidates (λ known c. refl));
  failures = refl;
  deleted = h.deleted ∙ sym (same_count gone s.candidates (λ known c. refl));
  directories = h.directories ∙ sym (same_count folder s.candidates (λ known c. refl));
  names = h.names ∙ sym (same_count named s.candidates (λ known c. refl));
  non_resident = h.non_resident ∙ sym (same_count outside s.candidates (λ known c. refl));
  limit = h.rounds_taken;
  sorted = sort_IsSorted (reconstruct_paths s.candidates);
}

from_boot-Safe :
    (m : Outcome BootSectorParseError NtfsBootSector)
    → Returns m
    → Safe (λ _. Unit {0}) (from_boot m)
from_boot-Safe (ok b) h = Safe-ok tt
from_boot-Safe (err e) h = Safe-err
from_boot-Safe panic h = absurd (h.0 refl)
from_boot-Safe stuck h = absurd (h.1 refl)

initial-Counted : Counted 0 initial
initial-Counted = record {
  parsed = refl;
  deleted = refl;
  directories = refl;
  names = refl;
  non_resident = refl;
  rounds_taken = omega arith;
}

-- On every byte slice the quick scan of an NTFS volume returns, with an error or with a summary. The
-- summary's candidates are sorted: deleted ones first, then by falling recency, then by rising
-- index. Its counts of parsed, deleted, directory, named and non-resident records are the numbers
-- of such candidates, its failures those of the errors, and both together are at most as many as
-- the records asked for.
pub quick_scan_ntfs_metadata-Safe :
    (source : Bytes) (config : QuickScanConfig)
    → IsSlice source
    → Safe (IsCounted config.max_records) (quick_scan_ntfs_metadata source config)
unfolding quick_scan_ntfs_metadata
quick_scan_ntfs_metadata-Safe source config slice =
    Safe-bind _ _ (from_boot-Safe _ (parse_boot_sector-Returns source)) λ boot _ _.
      Safe-bind _ _ (Safe-ok_or {P = λ _. Unit {0}} (mft_offset_bytes boot) _ λ _ _. tt)
        λ mft_offset _ _. Safe-fail_if (leb (length source) mft_offset) _ _ λ _.
          Safe-fail_if
            (ltb boot.file_record_size_bytes 256 || ltb 1048576 boot.file_record_size_bytes) _ _
            λ _.
              Safe-bind _ _
                (records_loop-Safe config.max_records 0 source mft_offset
                  boot.file_record_size_bytes boot.bytes_per_sector 0 initial slice initial-Counted)
                λ s _ h. Safe-ok (
                  summarize-IsCounted config.max_records boot s
                    (more_rounds_to (0 + config.max_records) config.max_records s (omega arith) h))
