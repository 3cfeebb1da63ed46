-- ===== src/Scoring/Score.antt =====
-- `score_candidate_with_reasons`: a score out of 100, its tier and the reasons.
use file_recovery_engine.Prelude.{
  ℕ, Bool, true, false, not, ◌||◌, ◌&&◌, Option, none, some, List, [], ◌∷◌, ◌++◌, String,
}
use file_recovery_engine.Prelude.{leb, if◌then◌else◌}
use file_recovery_engine.Prelude.Int.{ℤ, pos, negsuc, ◌+ℤ◌}
use file_recovery_engine.Scoring.Types.{RecoveryCandidate, EvidenceSource, ConfidenceTier}
use file_recovery_engine.Scoring.Types.{mft, directory_index, usn, vss, carve}
use file_recovery_engine.Scoring.Types.{very_high, high, medium, low, very_low}

pub record ScoredConfidence : Type 0 where
  pub score : ℕ
  pub tier : ConfidenceTier
  pub reasons : List String

-- The derived equality of `EvidenceSource`.
abbrev pub same_source : EvidenceSource → EvidenceSource → Bool
same_source mft mft = true
same_source directory_index directory_index = true
same_source usn usn = true
same_source vss vss = true
same_source carve carve = true
same_source _ _ = false

-- `evidence.contains(&source)` on the set of the candidate's evidence.
unfoldable pub contains : List EvidenceSource → EvidenceSource → Bool
contains [] source = false
contains (s ∷ evidence) source = same_source s source || contains evidence source

unfoldable pub map_score_to_tier : ℕ → ConfidenceTier
map_score_to_tier score =
    if leb 85 score && leb score 100
    then very_high
    else if leb 70 score && leb score 84
    then high
    else if leb 50 score && leb score 69
    then medium
    else if leb 30 score && leb score 49
    then low
    else very_low

-- `score.clamp(0, 100) as u8` and `score.min(35)`.
abbrev pub clamp_100 : ℤ → ℕ
clamp_100 (pos n) = if leb n 100 then n else 100
clamp_100 (negsuc n) = 0

abbrev pub min_35 : ℤ → ℤ
min_35 (pos n) = if leb n 35 then pos n else pos 35
min_35 (negsuc n) = negsuc n

-- `if b { score += points; reasons.push(reason); }`.
abbrev pub award : Bool → ℤ → String → ℤ × List String → ℤ × List String
award true points reason (score, reasons) = (score +ℤ points, reasons ++ (reason ∷ []))
award false points reason (score, reasons) = (score, reasons)

abbrev pub cap : Bool → ℤ × List String → ℤ × List String
cap true (score, reasons) = (min_35 score, reasons ++ ("Carve-only candidate confidence cap" ∷ []))
cap false (score, reasons) = (score, reasons)

-- The score and the reasons, from the five tests of the evidence, `has_metadata_path` and
-- `candidate.partial`.
unfoldable pub tally : Bool → Bool → Bool → Bool → Bool → Bool → Bool → ℤ × List String
tally m d u v c path partial =
    let s = award m (pos 80) "MFT metadata present" (pos 0, []) in
    let s = award d (pos 10) "Directory index corroboration" s in
    let s = award u (pos 12) "USN journal corroboration" s in
    let s = award v (pos 15) "VSS snapshot corroboration" s in
    let s = award c (pos 8) "Signature-based carving evidence" s in
    let s = award path (pos 8) "Original name/path reconstructed" s in
    let s = award (not path) (negsuc 14) "Original name/path incomplete" s in
    let s = award partial (negsuc 29) "Partial data recovery" s in
    let metadata_evidence = m || d || u || v in cap (not metadata_evidence && c) s

abbrev pub is_some {ℓ} : {A : Type ℓ} → Option A → Bool
is_some none = false
is_some (some a) = true

unfoldable pub score_candidate_with_reasons : RecoveryCandidate → ScoredConfidence
score_candidate_with_reasons candidate =
    let has_metadata_path = is_some candidate.original_name && is_some candidate.original_path in
    let s =
      tally (contains candidate.evidence mft) (contains candidate.evidence directory_index)
        (contains candidate.evidence usn) (contains candidate.evidence vss)
        (contains candidate.evidence carve) has_metadata_path candidate.partial in
    let bounded_score = clamp_100 s.0 in
    record { score = bounded_score; tier = map_score_to_tier bounded_score; reasons = s.1 }

unfoldable pub score_candidate : RecoveryCandidate → ConfidenceTier
unfolding score_candidate_with_reasons
score_candidate candidate = (score_candidate_with_reasons candidate).tier
