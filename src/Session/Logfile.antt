-- ===== src/Session/Logfile.antt =====
-- The correlation of candidates with hints from the log file, and the interface of `fr-logfile`.
pub mod Kept
use file_recovery_engine.Prelude.{
  ℕ, zero, suc, ◌+◌, Bool, true, false, not, ◌||◌, ◌&&◌, Option, none, some, List, [], ◌∷◌, ◌++◌,
  String,
}
use file_recovery_engine.Prelude.{◌==◌, if◌then◌else◌}
use file_recovery_engine.Prelude.Bytes.{bytes_eq}
use file_recovery_engine.Scoring.Types.{EvidenceSource}
use file_recovery_engine.Session.Types.{QuickScanCandidate}
use file_recovery_engine.Session.Maps.{find, upsert}
use file_recovery_engine.Session.Paths.{reconstruct_paths}
use file_recovery_engine.Session.Usn.Index.{same_number}
use file_recovery_engine.Session.Usn.Match.{same_name, same_parent}

pub record LogfileCorrelationInput : Type 0 where
  pub record_number : ℕ
  pub parent_record_number : Option ℕ
  pub name : Option (List ℕ)
  pub reconstructed_path : Option (List ℕ)

pub record LogfileCorrelationHint : Type 0 where
  pub record_number : ℕ
  pub inferred_parent_record_number : Option ℕ
  pub inferred_name : Option (List ℕ)
  pub inferred_reconstructed_path : Option (List ℕ)
  pub explanation : String

-- The trait `LogfileCorrelator` and its implementation that finds nothing.
abbrev pub LogfileCorrelator : Type 0
LogfileCorrelator = List LogfileCorrelationInput → List LogfileCorrelationHint

unfoldable pub noop_logfile_correlator : LogfileCorrelator
noop_logfile_correlator candidates = []

-- A candidate with the number of its changes, and whether the paths are dirty.
pub record Hinting : Type 0 where
  pub candidate : QuickScanCandidate
  pub changed : ℕ
  pub path_dirty : Bool

unfoldable pub hint_name : Option (List ℕ) → Hinting → Hinting
hint_name none h = h
hint_name (some name) h = if same_name h.candidate.name name then h else record {
  candidate = record h.candidate { name = some name };
  changed = h.changed + 1;
  path_dirty = true;
}

unfoldable pub hint_parent : Option ℕ → Hinting → Hinting
hint_parent none h = h
hint_parent (some parent_record) h =
    if same_parent h.candidate.parent_record_number parent_record then h else record {
      candidate = record h.candidate { parent_record_number = some parent_record };
      changed = h.changed + 1;
      path_dirty = true;
    }

unfoldable pub hint_path : Option (List ℕ) → Hinting → Hinting
hint_path none h = h
hint_path (some path) h = if same_name h.candidate.reconstructed_path path then h else record {
  candidate = record h.candidate { reconstructed_path = some path };
  changed = h.changed + 1;
  path_dirty = h.path_dirty;
}

abbrev is_directory_index : EvidenceSource → Bool
is_directory_index EvidenceSource.directory_index = true
is_directory_index other = false

abbrev pub has_directory_index : List EvidenceSource → Bool
has_directory_index [] = false
has_directory_index (source ∷ sources) = is_directory_index source || has_directory_index sources

unfoldable pub hint_evidence : Hinting → Hinting
hint_evidence h = record h {
  candidate = record h.candidate {
    evidence_sources =
        if has_directory_index h.candidate.evidence_sources
        then h.candidate.evidence_sources
        else h.candidate.evidence_sources ++ EvidenceSource.directory_index ∷ [];
  };
}

unfoldable pub apply_hint : Option LogfileCorrelationHint → Hinting → Hinting
unfolding hint_evidence
apply_hint none h = h
apply_hint (some hint) h = hint_evidence (
    hint_path hint.inferred_reconstructed_path
      (hint_parent hint.inferred_parent_record_number (hint_name hint.inferred_name h)))

abbrev pub Hints : Type 0
Hints = List (ℕ × LogfileCorrelationHint)

-- A later hint of a record replaces an earlier one.
unfoldable pub by_record : List LogfileCorrelationHint → Hints → Hints
unfolding upsert
by_record [] hints = hints
by_record (hint ∷ rest) hints =
    by_record rest (upsert same_number hint.record_number (λ old. hint) hints)

unfoldable pub hints_loop : Hints → List QuickScanCandidate → List QuickScanCandidate × ℕ × Bool
unfolding find apply_hint
hints_loop hints [] = ([], 0, false)
hints_loop hints (c ∷ candidates) =
    let h =
      apply_hint (find same_number c.record_number hints)
        (record { candidate = c; changed = 0; path_dirty = false }) in
    let (rest, changed, dirty) = hints_loop hints candidates in
    (h.candidate ∷ rest, h.changed + changed, h.path_dirty || dirty)

unfoldable pub apply_logfile_correlation_hints :
    List QuickScanCandidate → List LogfileCorrelationHint → List QuickScanCandidate × ℕ
unfolding by_record hints_loop
apply_logfile_correlation_hints candidates [] = (candidates, 0)
apply_logfile_correlation_hints candidates (hint ∷ hints) =
    let (after, changed, dirty) = hints_loop (by_record (hint ∷ hints) []) candidates in
    (if dirty then reconstruct_paths after else after, changed)

unfoldable pub collect_logfile_correlation_inputs :
    List QuickScanCandidate → List LogfileCorrelationInput
collect_logfile_correlation_inputs [] = []
collect_logfile_correlation_inputs (c ∷ candidates) =
    record {
      record_number = c.record_number;
      parent_record_number = c.parent_record_number;
      name = c.name;
      reconstructed_path = c.reconstructed_path;
    }
    ∷ collect_logfile_correlation_inputs candidates

unfoldable pub apply_logfile_correlation :
    List QuickScanCandidate → LogfileCorrelator → List QuickScanCandidate × ℕ
unfolding apply_logfile_correlation_hints collect_logfile_correlation_inputs
apply_logfile_correlation candidates correlate =
    apply_logfile_correlation_hints candidates
      (correlate (collect_logfile_correlation_inputs candidates))
