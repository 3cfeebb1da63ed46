-- ===== src/Session/Tests.antt =====
-- A volume whose records are not there, candidates, a journal and an orchestrator, and the theorems
-- on them.
use file_recovery_engine.Prelude.{
  ℕ, ◌≡◌, refl, arith, true, false, none, some, List, [], ◌∷◌, set, replicate, Option,
}
use file_recovery_engine.Prelude.Outcome.{Safe}
use file_recovery_engine.Prelude.Bytes.{Bytes}
use file_recovery_engine.Prelude.Int.{pos}
use file_recovery_engine.Scoring.Types.{EvidenceSource}
use file_recovery_engine.Usn.Types.{UsnRecord}
use file_recovery_engine.Session.Types.{QuickScanCandidate}
use file_recovery_engine.Session.Paths.{reconstruct_paths, set_path, climb, lookup, join_reversed}
use file_recovery_engine.Session.Paths.Ancestors.{HavePaths, reconstruct_paths-HasPath}
use file_recovery_engine.Session.Scan.{quick_scan_ntfs_metadata}
use file_recovery_engine.Session.Scan.Total.{IsCounted, quick_scan_ntfs_metadata-Safe}
use file_recovery_engine.Session.Usn.{enrich_candidates_with_usn_records}
use file_recovery_engine.Session.Usn.Kept.{
  Enrichment, enrich_candidates_with_usn_records-Enrichment,
}
use file_recovery_engine.Prelude.Bytes.{bytes_eq}
use file_recovery_engine.Session.Logfile.{
  LogfileCorrelator, apply_logfile_correlation, hint_name, hint_parent, hint_path,
}
use file_recovery_engine.Session.Logfile.Kept.{AllHinted, apply_logfile_correlation-AllHinted}
use file_recovery_engine.Session.Maps.{find, upsert}
use file_recovery_engine.Session.Orchestrator.{
  Sessions, get, new_record, start_session, checkpoint, cancel,
}
use file_recovery_engine.Session.Orchestrator.History.{
  Filed, empty, after, started, Reached-Filed, here, start_other, mark_any, IsCanceled,
  cancel_permanent,
}

-- An NTFS boot sector whose file records start in cluster 1, and one record behind it.
abbrev source : Bytes
source =
    set
      (set
        (set
          (set
            (set
              (set
                (set
                  (set
                    (set
                      (set (set (set (set (set (set (replicate 2048 0) 3 78) 4 84) 5 70) 6 83) 7 32)
                        8 32)
                      9 32)
                    10 32)
                  12 2)
                13 1)
              48 1)
            64 246)
          68 1)
        510 85)
      511 170

quick_scan_ntfs_metadata-Safe_example :
    Safe (IsCounted 3) (quick_scan_ntfs_metadata source (record { max_records = 3 }))
quick_scan_ntfs_metadata-Safe_example =
    quick_scan_ntfs_metadata-Safe source (record { max_records = 3 }) (omega arith)

abbrev candidate : ℕ → Option (List ℕ) → Option ℕ → QuickScanCandidate
candidate number name parent = record {
  record_index = number;
  record_number = number;
  is_ghost_record = false;
  in_use = false;
  deleted = true;
  is_directory = false;
  has_non_resident_data = false;
  has_named_data_streams = false;
  has_compressed_data = false;
  has_sparse_data = false;
  has_encrypted_data = false;
  usn_reason_mask = none;
  name = name;
  parent_record_number = parent;
  reconstructed_path = none;
  allocated_size_bytes = none;
  data_size_bytes = none;
  file_attributes = none;
  created_filetime_utc = none;
  modified_filetime_utc = none;
  mft_modified_filetime_utc = none;
  accessed_filetime_utc = none;
  evidence_sources = EvidenceSource.mft ∷ [];
}

-- `f` in `d`, where `d` is its own parent.
abbrev candidates : List QuickScanCandidate
candidates = candidate 7 (some (102 ∷ [])) (some 6) ∷ candidate 6 (some (100 ∷ [])) (some 6) ∷ []

abbrev paths : List QuickScanCandidate → List (Option (List ℕ))
paths [] = []
paths (c ∷ cs) = c.reconstructed_path ∷ paths cs

candidate_paths :
    paths (reconstruct_paths candidates)
    ≡ some (100 ∷ 92 ∷ 102 ∷ []) ∷ some (100 ∷ 92 ∷ 100 ∷ []) ∷ []
unfolding reconstruct_paths set_path climb lookup join_reversed
candidate_paths = refl

reconstruct_paths-HasPath_example : HavePaths candidates candidates (reconstruct_paths candidates)
reconstruct_paths-HasPath_example = reconstruct_paths-HasPath candidates

-- A deletion of record 9, which is no candidate, and a rename of record 7.
abbrev journal : List UsnRecord
journal =
    record {
      major_version = 2;
      minor_version = 0;
      file_reference_number = 9;
      parent_file_reference_number = 6;
      usn = pos 1;
      timestamp_100ns = pos 5;
      reason = 0x200;
      source_info = 0;
      security_id = 0;
      file_attributes = 32;
      file_name = 103 ∷ [];
    }
    ∷ record {
      major_version = 2;
      minor_version = 0;
      file_reference_number = 7;
      parent_file_reference_number = 6;
      usn = pos 2;
      timestamp_100ns = pos 6;
      reason = 0x2000;
      source_info = 0;
      security_id = 0;
      file_attributes = 32;
      file_name = 104 ∷ [];
    }
    ∷ []

enrich_candidates_with_usn_records-Enrichment_example :
    (let r = enrich_candidates_with_usn_records (λ entries. entries) candidates journal in
      Enrichment candidates r.0 r.1.matched_existing r.1.ghost_added)
enrich_candidates_with_usn_records-Enrichment_example =
    enrich_candidates_with_usn_records-Enrichment (λ entries. entries) candidates journal

-- A correlator that names record 6.
abbrev naming : LogfileCorrelator
naming inputs =
    record {
      record_number = 6;
      inferred_parent_record_number = none;
      inferred_name = some (101 ∷ []);
      inferred_reconstructed_path = none;
      explanation = "rename";
    }
    ∷ []

hinted_paths :
    paths (apply_logfile_correlation candidates naming).0
    ≡ some (101 ∷ 92 ∷ 102 ∷ []) ∷ some (101 ∷ 92 ∷ 101 ∷ []) ∷ []
unfolding apply_logfile_correlation hint_name hint_parent hint_path bytes_eq find reconstruct_paths
    set_path climb lookup join_reversed
hinted_paths = refl

apply_logfile_correlation-AllHinted_example :
    AllHinted candidates (apply_logfile_correlation candidates naming).0
apply_logfile_correlation-AllHinted_example = apply_logfile_correlation-AllHinted candidates naming

abbrev one_session : Sessions
one_session = ("a", new_record 1 "a") ∷ []

one_session-started : (start_session 1 "a" []).0 ≡ one_session
unfolding start_session upsert
one_session-started = refl

Reached-Filed_example : Filed (start_session 1 "a" []).0
Reached-Filed_example =
    Reached-Filed (start_session 1 "a" []).0
      (after [] (start_session 1 "a" []).0 empty (started 1 "a"))

abbrev last : Sessions
last = (checkpoint 4 "a" "half" (start_session 3 "b" (cancel 2 "a" one_session).0).0).0

cancel_permanent_example : IsCanceled "a" last
unfolding get find
cancel_permanent_example = cancel_permanent 2 "a" one_session last (new_record 1 "a") refl (
    start_other 3 "b" (cancel 2 "a" one_session).0 refl
      (mark_any 4 "a" "half" (start_session 3 "b" (cancel 2 "a" one_session).0).0 here))
