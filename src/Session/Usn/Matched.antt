-- ===== src/Session/Usn/Matched.antt =====
-- What a match with the journal keeps of a candidate.
use file_recovery_engine.Prelude.{
  ℕ, ◌≤◌, ◌≡◌, refl, ap, sym, ◌⊎◌, arith, false, Option, none, some, List, [], ◌∷◌, ◌++◌, inl, inr,
  ◌==◌, length, Bool-cases,
}
use file_recovery_engine.Scoring.Types.{EvidenceSource}
use file_recovery_engine.Session.Types.{QuickScanCandidate}
use file_recovery_engine.Session.Paths.{Known, known_names, set_path, set_paths, reconstruct_paths}
use file_recovery_engine.Session.Usn.Index.{UsnAggregate, UsnIndexes, same_number}
use file_recovery_engine.Session.Usn.Match.{
  is_renamed, apply_rename_hint, mask_of, matched_reason, add_usn_evidence, has_usn,
  match_candidate, match_loop, apply_usn_matches_to_existing_candidates,
}
use file_recovery_engine.Session.Maps.{find}

-- A candidate before and after: it is the same record, and its evidence is kept, with one mark of
-- the journal at most added behind it.
pub record Enriched (before after : QuickScanCandidate) : Type 0 where
  pub at_index : after.record_index ≡ before.record_index
  pub number : after.record_number ≡ before.record_number
  pub ghost : after.is_ghost_record ≡ before.is_ghost_record
  pub use_mark : after.in_use ≡ before.in_use
  pub deletion : after.deleted ≡ before.deleted
  pub directory : after.is_directory ≡ before.is_directory
  pub evidence :
      (after.evidence_sources ≡ before.evidence_sources)
      ⊎ ((has_usn before.evidence_sources ≡ false)
          × (after.evidence_sources ≡ before.evidence_sources ++ EvidenceSource.usn ∷ []))

-- The candidates, one by one.
abbrev pub AllEnriched : List QuickScanCandidate → List QuickScanCandidate → Type 0
AllEnriched [] [] = Unit {0}
AllEnriched [] (d ∷ after) = ⊥
AllEnriched (c ∷ before) [] = ⊥
AllEnriched (c ∷ before) (d ∷ after) = Enriched c d × AllEnriched before after

pub same_candidate : (c : QuickScanCandidate) → Enriched c c
same_candidate c = record {
  at_index = refl;
  number = refl;
  ghost = refl;
  use_mark = refl;
  deletion = refl;
  directory = refl;
  evidence = inl refl;
}

rename-Enriched :
    (found : Option UsnAggregate) (c : QuickScanCandidate)
    → Enriched c (apply_rename_hint found c).0
      × ((apply_rename_hint found c).0.evidence_sources ≡ c.evidence_sources)
unfolding apply_rename_hint
rename-Enriched none c = (same_candidate c, refl)
rename-Enriched (some a) c = elim (Bool-cases (is_renamed a c)) [
  | inr kept ↦ rw kept (same_candidate c, refl)
  | inl renamed ↦ rw renamed (
    record {
      at_index = refl;
      number = refl;
      ghost = refl;
      use_mark = refl;
      deletion = refl;
      directory = refl;
      evidence = inl refl;
    },
    refl,
  )
]

pub set_path-Enriched :
    (known : Known) (c d : QuickScanCandidate) → Enriched c d → Enriched c (set_path known d)
unfolding set_path
set_path-Enriched known c d h = record {
  at_index = h.at_index;
  number = h.number;
  ghost = h.ghost;
  use_mark = h.use_mark;
  deletion = h.deletion;
  directory = h.directory;
  evidence = h.evidence;
}

add_usn_evidence-Enriched :
    (reason : ℕ) (c d : QuickScanCandidate)
    → Enriched c d
    → d.evidence_sources ≡ c.evidence_sources
    → Enriched c (add_usn_evidence reason d)
unfolding add_usn_evidence
add_usn_evidence-Enriched reason c d h same = record {
  at_index = h.at_index;
  number = h.number;
  ghost = h.ghost;
  use_mark = h.use_mark;
  deletion = h.deletion;
  directory = h.directory;
  evidence = elim (Bool-cases (has_usn d.evidence_sources)) [
    | inl there ↦ rw there (inl same)
    | inr missing ↦
        rw missing
          (inr (rw (sym same) missing, ap (λ sources. sources ++ EvidenceSource.usn ∷ []) same))
  ];
}

match_candidate-Enriched :
    (indexes : UsnIndexes) (c : QuickScanCandidate) → Enriched c (match_candidate indexes c).0
unfolding match_candidate
match_candidate-Enriched indexes c =
    let found : Option UsnAggregate = find same_number c.record_number indexes.by_record_number in
    let renamed : QuickScanCandidate = (apply_rename_hint found c).0 in
    let (h, same) = rename-Enriched found c in
    elim (Bool-cases (matched_reason indexes (mask_of found) renamed == 0)) [
      | inl unmatched ↦ rw unmatched h
      | inr matched ↦ rw matched (add_usn_evidence-Enriched _ c renamed h same)
    ]

match_loop-Enriched :
    (indexes : UsnIndexes) (candidates : List QuickScanCandidate)
    → AllEnriched candidates (match_loop indexes candidates).0
      × ((match_loop indexes candidates).1 ≤ length candidates)
unfolding match_loop
match_loop-Enriched indexes [] = (tt, omega arith)
match_loop-Enriched indexes (c ∷ candidates) =
    let (rest, few) = match_loop-Enriched indexes candidates in
    (
      (match_candidate-Enriched indexes c, rest),
      elim (Bool-cases (match_candidate indexes c).1) [
        | inl matched ↦ rw matched (omega arith)
        | inr unmatched ↦ rw unmatched (omega arith)
      ],
    )

pub set_paths-AllEnriched :
    (known : Known) (before after : List QuickScanCandidate)
    → AllEnriched before after
    → AllEnriched before (set_paths known after)
unfolding set_paths
set_paths-AllEnriched known [] [] h = tt
set_paths-AllEnriched known [] (d ∷ after) h = absurd h
set_paths-AllEnriched known (c ∷ before) [] h = absurd h
set_paths-AllEnriched known (c ∷ before) (d ∷ after) h =
    (set_path-Enriched known c d h.0, set_paths-AllEnriched known before after h.1)

reconstruct_paths-AllEnriched :
    (before after : List QuickScanCandidate)
    → AllEnriched before after
    → AllEnriched before (reconstruct_paths after)
unfolding reconstruct_paths
reconstruct_paths-AllEnriched before after h =
    set_paths-AllEnriched (known_names after []) before after h

pub matches-Enriched :
    (indexes : UsnIndexes) (candidates : List QuickScanCandidate)
    → AllEnriched candidates (apply_usn_matches_to_existing_candidates indexes candidates).0
      × ((apply_usn_matches_to_existing_candidates indexes candidates).1 ≤ length candidates)
unfolding apply_usn_matches_to_existing_candidates
matches-Enriched indexes candidates =
    let (enriched, few) = match_loop-Enriched indexes candidates in
    (
      elim (Bool-cases (match_loop indexes candidates).2) [
        | inl dirty ↦ rw dirty (reconstruct_paths-AllEnriched candidates _ enriched)
        | inr clean ↦ rw clean enriched
      ],
      few,
    )
