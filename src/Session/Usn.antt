-- ===== src/Session/Usn.antt =====
-- The enrichment of candidates with the records of the USN journal: matches and ghosts.
pub mod Index
pub mod Match
pub mod Matched
pub mod Kept
use Prim.Native.Nat.{bit_and, bit_or}
use file_recovery_engine.Prelude.{
  ℕ, zero, suc, ◌+◌, ◌-◌, ◌%◌, Bool, true, false, not, ◌||◌, ◌&&◌, Option, none, some, List, [],
  ◌∷◌, ◌++◌, min,
}
use file_recovery_engine.Prelude.{ltb, leb, ◌==◌, if◌then◌else◌, length, contains}
use file_recovery_engine.Prelude.Outcome.{ok, ◌>>=◌}
use file_recovery_engine.Prelude.Checked.{u32_mod, u64_mod, has_bit, saturating_add}
use file_recovery_engine.Prelude.Bytes.{Bytes, bytes_eq}
use file_recovery_engine.Prelude.Int.{ℤ, pos, negsuc, lebℤ}
use file_recovery_engine.Validator.Text.{trim_start, trim_end, is_whitespace, to_ascii_lowercase}
use file_recovery_engine.Scoring.Types.{EvidenceSource}
use file_recovery_engine.Usn.Types.{UsnRecord, Parsed}
use file_recovery_engine.Usn.Parse.{parse_usn_records}
use file_recovery_engine.Session.Types.{QuickScanCandidate, QuickScanSummary}
use file_recovery_engine.Session.Paths.{reconstruct_paths}
use file_recovery_engine.Session.Maps.{find, upsert}
use file_recovery_engine.Session.Usn.Index.{
  UsnAggregate, trim, is_empty, should_surface_ghost_candidate, has_named_data_reason, ByRecord,
  build_usn_indexes,
}
use file_recovery_engine.Session.Usn.Match.{apply_usn_matches_to_existing_candidates}

pub record UsnEnrichmentStats : Type 0 where
  pub matched_existing : ℕ
  pub ghost_added : ℕ

abbrev filetime_of : ℤ → Option ℕ
filetime_of (pos zero) = none
filetime_of (pos (suc n)) = some (suc n)
filetime_of (negsuc n) = none

unfoldable pub ghost_candidate : ℕ → UsnAggregate → QuickScanCandidate
ghost_candidate record_number a =
    let timestamp = filetime_of a.latest_timestamp_100ns in
    record {
      record_index = u64_mod - 1;
      record_number = record_number;
      is_ghost_record = true;
      in_use = false;
      deleted = true;
      is_directory = has_bit a.latest_file_attributes 0x0010;
      has_non_resident_data = false;
      has_named_data_streams = has_named_data_reason a.reason_mask;
      has_compressed_data = has_bit a.latest_file_attributes 0x0800;
      has_sparse_data = has_bit a.latest_file_attributes 0x0200;
      has_encrypted_data = has_bit a.latest_file_attributes 0x4000;
      usn_reason_mask = some a.reason_mask;
      name = if is_empty (trim a.latest_name) then none else some a.latest_name;
      parent_record_number = some a.latest_parent_record;
      reconstructed_path = none;
      allocated_size_bytes = none;
      data_size_bytes = none;
      file_attributes = some a.latest_file_attributes;
      created_filetime_utc = timestamp;
      modified_filetime_utc = timestamp;
      mft_modified_filetime_utc = timestamp;
      accessed_filetime_utc = timestamp;
      evidence_sources = EvidenceSource.usn ∷ [];
    }

abbrev pub record_numbers : List QuickScanCandidate → List ℕ
record_numbers [] = []
record_numbers (c ∷ candidates) = c.record_number ∷ record_numbers candidates

-- The ghosts, in the order in which the map's entries come.
unfoldable pub ghosts_loop : List ℕ → ByRecord → List QuickScanCandidate
unfolding ghost_candidate
ghosts_loop existing [] = []
ghosts_loop existing ((record_number, a) ∷ entries) =
    let rest = ghosts_loop existing entries in
    if contains record_number existing
      || leb u32_mod record_number
      || not (should_surface_ghost_candidate a.reason_mask)
    then rest
    else ghost_candidate record_number a ∷ rest

-- A slice cannot grow: the ghosts are left out.
unfoldable pub overwrite :
    List QuickScanCandidate → List QuickScanCandidate → List QuickScanCandidate
overwrite [] owned = []
overwrite (c ∷ candidates) [] = c ∷ candidates
overwrite (c ∷ candidates) (updated ∷ owned) = updated ∷ overwrite candidates owned

-- The standard library does not say in which order a map's entries come: `iterate` is that order.
module _ (iterate : ByRecord → ByRecord) where
  unfoldable pub append_usn_ghost_candidates :
      List QuickScanCandidate → ByRecord → List QuickScanCandidate × ℕ
  unfolding ghosts_loop
  append_usn_ghost_candidates candidates by_record =
      let ghosts = ghosts_loop (record_numbers candidates) (iterate by_record) in
      (candidates ++ ghosts, length ghosts)

  unfoldable pub enrich_candidates_with_usn_records :
      List QuickScanCandidate → List UsnRecord → List QuickScanCandidate × UsnEnrichmentStats
  unfolding build_usn_indexes apply_usn_matches_to_existing_candidates append_usn_ghost_candidates
  enrich_candidates_with_usn_records candidates [] =
      (candidates, record { matched_existing = 0; ghost_added = 0 })
  enrich_candidates_with_usn_records candidates (r ∷ usn_records) =
      let indexes = build_usn_indexes candidates (r ∷ usn_records) in
      let (existing, matched) = apply_usn_matches_to_existing_candidates indexes candidates in
      let (all, added) = append_usn_ghost_candidates existing indexes.by_record_number in
      (
        if ltb 0 added then reconstruct_paths all else all,
        record { matched_existing = matched; ghost_added = added },
      )

  unfoldable pub enrich_summary_with_usn_records :
      QuickScanSummary → List UsnRecord → QuickScanSummary × UsnEnrichmentStats
  unfolding enrich_candidates_with_usn_records
  enrich_summary_with_usn_records summary usn_records =
      let (candidates, stats) = enrich_candidates_with_usn_records summary.candidates usn_records in
      (
        record summary {
          candidates = candidates;
          usn_enriched_records = saturating_add summary.usn_enriched_records stats.matched_existing;
          usn_ghost_records = saturating_add summary.usn_ghost_records stats.ghost_added;
        },
        stats,
      )

  unfoldable pub enrich_candidates_with_usn_journal_bytes :
      List QuickScanCandidate → Bytes → Parsed (List QuickScanCandidate × UsnEnrichmentStats)
  unfolding enrich_candidates_with_usn_records
  enrich_candidates_with_usn_journal_bytes candidates usn_journal_bytes =
      parse_usn_records usn_journal_bytes >>= λ usn_records.
      ok (enrich_candidates_with_usn_records candidates usn_records)

  unfoldable pub apply_usn_evidence :
      List QuickScanCandidate → List UsnRecord → List QuickScanCandidate × ℕ
  unfolding enrich_candidates_with_usn_records overwrite
  apply_usn_evidence candidates usn_records =
      let (owned, stats) = enrich_candidates_with_usn_records candidates usn_records in
      (overwrite candidates owned, stats.matched_existing)
