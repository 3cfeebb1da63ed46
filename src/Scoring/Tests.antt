-- ===== src/Scoring/Tests.antt =====
-- A carved candidate, and the theorems on it.
use file_recovery_engine.Prelude.{◌≤◌, ◌≡◌, refl, true, false, none, some, List, [], ◌∷◌}
use file_recovery_engine.Scoring.Types.{
  RecoveryCandidate, EvidenceSource, mft, usn, carve, very_low,
}
use file_recovery_engine.Scoring.Score.{contains, score_candidate, score_candidate_with_reasons}
use file_recovery_engine.Scoring.Order.{
  with_evidence, with_partial, score_partial, score_of_more_evidence, score_without_metadata,
}

abbrev candidate_of : List EvidenceSource → RecoveryCandidate
candidate_of evidence = record {
  id = "1";
  original_name = some "doc.txt";
  original_path = some "/a/doc.txt";
  recovered_path = none;
  size_bytes = 100;
  evidence = evidence;
  confidence = very_low;
  partial = false;
}

score_partial_example :
    ((score_candidate_with_reasons (candidate_of (mft ∷ []))).score ≤ 100)
    × ((score_candidate_with_reasons (with_partial (candidate_of (mft ∷ [])) true)).score
        ≤ (score_candidate_with_reasons (with_partial (candidate_of (mft ∷ [])) false)).score)
score_partial_example = score_partial (candidate_of (mft ∷ []))

score_of_more_evidence_example :
    (score_candidate_with_reasons (candidate_of (usn ∷ []))).score
    ≤ (score_candidate_with_reasons
        (with_evidence (candidate_of (usn ∷ [])) (carve ∷ usn ∷ []))).score
score_of_more_evidence_example = score_of_more_evidence (candidate_of (usn ∷ [])) carve

score_without_metadata_example :
    ((score_candidate_with_reasons (candidate_of (carve ∷ []))).score ≤ 16)
    × (score_candidate (candidate_of (carve ∷ [])) ≡ very_low)
unfolding contains
score_without_metadata_example =
    score_without_metadata (candidate_of (carve ∷ [])) refl refl refl refl
