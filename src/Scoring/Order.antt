-- ===== src/Scoring/Order.antt =====
-- What evidence, a missing path and a partial recovery do to a score.
use file_recovery_engine.Prelude.{
  ℕ, ◌≤◌, ◌≡◌, refl, arith, Bool, true, false, ◌||◌, ◌&&◌, List, ◌∷◌, leb, leb→le,
}
use file_recovery_engine.Scoring.Types.{
  RecoveryCandidate, EvidenceSource, mft, directory_index, usn, vss, carve, very_low,
}
use file_recovery_engine.Scoring.Score.{
  same_source, contains, map_score_to_tier, clamp_100, tally, is_some, score_candidate_with_reasons,
  score_candidate,
}

-- A test that every Boolean passes, decided by running it.
abbrev both : (Bool → Bool) → Bool
both f = f true && f false

both_sound : (f : Bool → Bool) → both f ≡ true → (b : Bool) → f b ≡ true
both_sound f h true = ground arith
both_sound f h false = ground arith

-- The same for the seven tests that a score is made of.
abbrev Test : Type 0
Test = Bool → Bool → Bool → Bool → Bool → Bool → Bool → Bool

abbrev every : Test → Bool
every f = both λ m.
    both λ d. both λ u. both λ v. both λ c. both λ path. both λ partial. f m d u v c path partial

every_sound :
    (f : Test) → every f ≡ true → (m d u v c path partial : Bool) → f m d u v c path partial ≡ true
every_sound f h m d u v c path partial =
    let h_m =
      both_sound
        (λ m'. both λ d'. both λ u'.
          both λ v'. both λ c'. both λ path'. both λ partial'. f m' d' u' v' c' path' partial')
        h m in
    let h_d =
      both_sound
        (λ d'.
          both λ u'.
            both λ v'. both λ c'. both λ path'. both λ partial'. f m d' u' v' c' path' partial')
        h_m d in
    let h_u =
      both_sound
        (λ u'. both λ v'. both λ c'. both λ path'. both λ partial'. f m d u' v' c' path' partial')
        h_d u in
    let h_v =
      both_sound (λ v'. both λ c'. both λ path'. both λ partial'. f m d u v' c' path' partial') h_u
        v in
    let h_c = both_sound (λ c'. both λ path'. both λ partial'. f m d u v c' path' partial') h_v c in
    let h_path = both_sound (λ path'. both λ partial'. f m d u v c path' partial') h_c path in
    both_sound (λ partial'. f m d u v c path partial') h_path partial

abbrev points : Bool → Bool → Bool → Bool → Bool → Bool → Bool → ℕ
points m d u v c path partial = clamp_100 ((tally m d u v c path partial).0)

and_left : (a b : Bool) → (a && b) ≡ true → a ≡ true
and_left a b h = ground arith

and_right : (a b : Bool) → (a && b) ≡ true → b ≡ true
and_right a b h = ground arith

last_of_five :
    (a b c d e : Bool)
    → a ≡ false
    → b ≡ false
    → c ≡ false
    → d ≡ false
    → (a || b || c || d || e) ≡ true
    → e ≡ true
last_of_five a b c d e ha hb hc hd h = ground arith

tier_of_low : (n : ℕ) → n ≤ 16 → map_score_to_tier n ≡ very_low
unfolding map_score_to_tier
tier_of_low n h = ground arith

-- One more piece of evidence, whatever it is, never lowers the points.
points_of_one_more :
    (s : EvidenceSource)
    → every (λ m d u v c path partial. leb (points m d u v c path partial) (
        points
          (same_source s mft || m)
          (same_source s directory_index || d)
          (same_source s usn || u)
          (same_source s vss || v)
          (same_source s carve || c)
          path
          partial))
      ≡ true
unfolding tally
points_of_one_more mft = refl
points_of_one_more directory_index = refl
points_of_one_more usn = refl
points_of_one_more vss = refl
points_of_one_more carve = refl

-- The whole of a score, for every outcome of the seven tests.
partial_points :
    every (λ m d u v c path partial.
      leb (points m d u v c path true) (points m d u v c path false)
      && leb (points m d u v c path partial) 100)
    ≡ true
unfolding tally
partial_points = refl

carved_points :
    every (λ m d u v c path partial. m || d || u || v || leb (points m d u v c path partial) 16)
    ≡ true
unfolding tally
carved_points = refl

abbrev pub with_evidence : RecoveryCandidate → List EvidenceSource → RecoveryCandidate
with_evidence candidate evidence = record candidate { evidence = evidence }

abbrev pub with_partial : RecoveryCandidate → Bool → RecoveryCandidate
with_partial candidate partial = record candidate { partial = partial }

abbrev has_path : RecoveryCandidate → Bool
has_path candidate = is_some candidate.original_name && is_some candidate.original_path

-- No score is above 100, and a candidate that is partial scores no more than the same candidate
-- whole.
pub score_partial :
    (candidate : RecoveryCandidate)
    → ((score_candidate_with_reasons candidate).score ≤ 100)
      × ((score_candidate_with_reasons (with_partial candidate true)).score
          ≤ (score_candidate_with_reasons (with_partial candidate false)).score)
unfolding score_candidate_with_reasons
score_partial candidate =
    let e = candidate.evidence in
    let h =
      every_sound
        (λ m d u v c path partial.
          leb (points m d u v c path true) (points m d u v c path false)
          && leb (points m d u v c path partial) 100)
        partial_points (contains e mft) (contains e directory_index) (contains e usn)
        (contains e vss) (contains e carve) (has_path candidate) candidate.partial in
    (leb→le _ _ (and_right _ _ h), leb→le _ _ (and_left _ _ h))

-- One more piece of evidence of any kind, a carved signature included, never lowers a score.
pub score_of_more_evidence :
    (candidate : RecoveryCandidate) (s : EvidenceSource)
    → (score_candidate_with_reasons candidate).score
      ≤ (score_candidate_with_reasons (with_evidence candidate (s ∷ candidate.evidence))).score
unfolding score_candidate_with_reasons contains
score_of_more_evidence candidate s =
    let e = candidate.evidence in
    leb→le _ _ (
      every_sound
        (λ m d u v c path partial. leb (points m d u v c path partial) (
          points (same_source s mft || m) (same_source s directory_index || d)
            (same_source s usn || u) (same_source s vss || v) (same_source s carve || c) path
            partial))
        (points_of_one_more s) (contains e mft) (contains e directory_index) (contains e usn)
        (contains e vss) (contains e carve) (has_path candidate) candidate.partial)

-- A candidate without evidence from metadata scores 16 at most and is of the lowest tier, whatever
-- the rest of it says: the cap of 35 on carved candidates never takes effect.
pub score_without_metadata :
    (candidate : RecoveryCandidate)
    → contains candidate.evidence mft ≡ false
    → contains candidate.evidence directory_index ≡ false
    → contains candidate.evidence usn ≡ false
    → contains candidate.evidence vss ≡ false
    → ((score_candidate_with_reasons candidate).score ≤ 16) × (score_candidate candidate ≡ very_low)
unfolding score_candidate_with_reasons score_candidate
score_without_metadata candidate hm hd hu hv =
    let e = candidate.evidence in
    let h =
      every_sound
        (λ m d u v c path partial. m || d || u || v || leb (points m d u v c path partial) 16)
        carved_points (contains e mft) (contains e directory_index) (contains e usn)
        (contains e vss) (contains e carve) (has_path candidate) candidate.partial in
    let low_score : (score_candidate_with_reasons candidate).score ≤ 16 =
      leb→le _ _ (last_of_five _ _ _ _ _ hm hd hu hv h) in
    (low_score, tier_of_low _ low_score)

-- Only the set of the evidence counts: its order and its repetitions do not.
score_of_same_set :
    (candidate : RecoveryCandidate) (evidence : List EvidenceSource)
    → ((s : EvidenceSource) → contains candidate.evidence s ≡ contains evidence s)
    → score_candidate_with_reasons candidate
      ≡ score_candidate_with_reasons (with_evidence candidate evidence)
unfolding score_candidate_with_reasons
score_of_same_set candidate evidence same =
    rw (same mft, same directory_index, same usn, same vss, same carve) refl
