-- ===== src/Session/Usn/Kept.antt =====
-- What the enrichment keeps of the candidates, and what it adds.
use file_recovery_engine.Prelude.{
  ℕ, suc, ◌≤◌, ◌<◌, ◌≡◌, refl, ap, sym, arith, true, false, not, ◌||◌, some, List, [], ◌∷◌, ◌++◌,
  inl, inr, ltb, leb, length, contains, Bool-cases, All, if◌then◌else◌,
}
use mathlib.Core.Path.{ap₂}
use mathlib.Core.List.{append-nil}
use file_recovery_engine.Prelude.Checked.{u32_mod}
use file_recovery_engine.Scoring.Types.{EvidenceSource}
use file_recovery_engine.Usn.Types.{UsnRecord}
use file_recovery_engine.Session.Types.{QuickScanCandidate}
use file_recovery_engine.Session.Paths.{Known, known_names, set_path, set_paths, reconstruct_paths}
use file_recovery_engine.Session.Usn.Index.{
  UsnIndexes, ByRecord, should_surface_ghost_candidate, build_usn_indexes,
}
use file_recovery_engine.Session.Usn.Match.{apply_usn_matches_to_existing_candidates}
use file_recovery_engine.Session.Usn.{
  ghost_candidate, record_numbers, ghosts_loop, append_usn_ghost_candidates,
  enrich_candidates_with_usn_records, overwrite, apply_usn_evidence,
}
use file_recovery_engine.Session.Usn.Matched.{
  AllEnriched, same_candidate, set_paths-AllEnriched, matches-Enriched,
}

-- A ghost: a deleted record of 32 bits that is none of the candidates, with the journal as its only
-- evidence and a reason that surfaces it.
pub record IsGhost (candidates : List QuickScanCandidate) (g : QuickScanCandidate) : Type 0 where
  pub ghost : g.is_ghost_record ≡ true
  pub deletion : g.deleted ≡ true
  pub unused : g.in_use ≡ false
  pub new : contains g.record_number (record_numbers candidates) ≡ false
  pub small : g.record_number < u32_mod
  pub evidence : g.evidence_sources ≡ EvidenceSource.usn ∷ []
  pub mask : ℕ
  pub at_mask : g.usn_reason_mask ≡ some mask
  pub surfaces : should_surface_ghost_candidate mask ≡ true

ghosts_loop-IsGhost :
    (candidates : List QuickScanCandidate) (entries : ByRecord)
    → All (IsGhost candidates) (ghosts_loop (record_numbers candidates) entries)
unfolding ghosts_loop ghost_candidate
ghosts_loop-IsGhost candidates [] = tt
ghosts_loop-IsGhost candidates ((number, a) ∷ entries) =
    elim (Bool-cases (
      contains number (record_numbers candidates)
      || leb u32_mod number
      || not (should_surface_ghost_candidate a.reason_mask))) [
        | inl skipped ↦ rw skipped (ghosts_loop-IsGhost candidates entries)
        | inr surfaced ↦ rw surfaced (
          record {
            ghost = refl;
            deletion = refl;
            unused = refl;
            new = ground arith;
            small = ground arith;
            evidence = refl;
            mask = a.reason_mask;
            at_mask = refl;
            surfaces = ground arith;
          },
          ghosts_loop-IsGhost candidates entries,
        )
      ]

set_path-IsGhost :
    (known : Known) (candidates : List QuickScanCandidate) (g : QuickScanCandidate)
    → IsGhost candidates g
    → IsGhost candidates (set_path known g)
unfolding set_path
set_path-IsGhost known candidates g h = record {
  ghost = h.ghost;
  deletion = h.deletion;
  unused = h.unused;
  new = h.new;
  small = h.small;
  evidence = h.evidence;
  mask = h.mask;
  at_mask = h.at_mask;
  surfaces = h.surfaces;
}

set_paths-IsGhost :
    (known : Known) (candidates ghosts : List QuickScanCandidate)
    → All (IsGhost candidates) ghosts
    → All (IsGhost candidates) (set_paths known ghosts)
      × (length (set_paths known ghosts) ≡ length ghosts)
unfolding set_paths
set_paths-IsGhost known candidates [] h = (tt, refl)
set_paths-IsGhost known candidates (g ∷ ghosts) h =
    let (rest, size) = set_paths-IsGhost known candidates ghosts h.1 in
    ((set_path-IsGhost known candidates g h.0, rest), ap suc size)

set_paths-append :
    (known : Known) (xs ys : List QuickScanCandidate)
    → set_paths known (xs ++ ys) ≡ set_paths known xs ++ set_paths known ys
unfolding set_paths
set_paths-append known [] ys = refl
set_paths-append known (x ∷ xs) ys = ap (λ zs. set_path known x ∷ zs) (set_paths-append known xs ys)

same_numbers :
    (before after : List QuickScanCandidate)
    → AllEnriched before after
    → record_numbers after ≡ record_numbers before
same_numbers [] [] h = refl
same_numbers [] (d ∷ after) h = absurd h
same_numbers (c ∷ before) [] h = absurd h
same_numbers (c ∷ before) (d ∷ after) h =
    ap₂ (λ n ns. n ∷ ns) h.0.number (same_numbers before after h.1)

-- The candidates after an enrichment: the old ones in their order, and ghosts behind them.
pub record Enrichment (candidates after : List QuickScanCandidate) (matched added : ℕ)
    : Type 0 where
  pub existing : List QuickScanCandidate
  pub ghosts : List QuickScanCandidate
  pub parts : after ≡ existing ++ ghosts
  pub kept : AllEnriched candidates existing
  pub new : All (IsGhost candidates) ghosts
  pub counted : added ≡ length ghosts
  pub few : matched ≤ length candidates

-- Paths leave an enrichment one.
reconstruct_paths-Enrichment :
    (candidates existing ghosts : List QuickScanCandidate) (matched : ℕ)
    → AllEnriched candidates existing
    → All (IsGhost candidates) ghosts
    → matched ≤ length candidates
    → Enrichment candidates (reconstruct_paths (existing ++ ghosts)) matched (length ghosts)
unfolding reconstruct_paths
reconstruct_paths-Enrichment candidates existing ghosts matched h k few =
    let known : Known = known_names (existing ++ ghosts) [] in
    let (still, size) = set_paths-IsGhost known candidates ghosts k in
    record {
      existing = set_paths known existing;
      ghosts = set_paths known ghosts;
      parts = set_paths-append known existing ghosts;
      kept = set_paths-AllEnriched known candidates existing h;
      new = still;
      counted = sym size;
      few = few;
    }

append-Enrichment :
    (candidates existing ghosts : List QuickScanCandidate) (matched : ℕ)
    → AllEnriched candidates existing
    → All (IsGhost candidates) ghosts
    → matched ≤ length candidates
    → Enrichment candidates
        (if ltb 0 (length ghosts)
          then reconstruct_paths (existing ++ ghosts)
          else existing ++ ghosts)
        matched
        (length ghosts)
append-Enrichment candidates existing ghosts matched h k few =
    elim (Bool-cases (ltb 0 (length ghosts))) [
      | inl some_ghost ↦
          rw some_ghost (reconstruct_paths-Enrichment candidates existing ghosts matched h k few)
      | inr no_ghost ↦ rw no_ghost (record {
        existing = existing;
        ghosts = ghosts;
        parts = refl;
        kept = h;
        new = k;
        counted = refl;
        few = few;
      })
    ]

no_ghost_empty : (candidates : List QuickScanCandidate) → AllEnriched candidates candidates
no_ghost_empty [] = tt
no_ghost_empty (c ∷ candidates) = (same_candidate c, no_ghost_empty candidates)

-- Whatever the journal says and in whatever order the map's entries come, the candidates stay in
-- their order as the same records, with their evidence and at most one new mark of the journal, and
-- ghosts follow them. A ghost is a deleted record whose number fits 32 bits and is none of the
-- candidates', with a reason that surfaces it. The ghosts are as many as the statistics say, and no
-- more candidates are matched than there are.
pub enrich_candidates_with_usn_records-Enrichment :
    (iterate : ByRecord → ByRecord) (candidates : List QuickScanCandidate)
    (usn_records : List UsnRecord)
    → let r = enrich_candidates_with_usn_records iterate candidates usn_records in
      Enrichment candidates r.0 r.1.matched_existing r.1.ghost_added
unfolding enrich_candidates_with_usn_records append_usn_ghost_candidates
enrich_candidates_with_usn_records-Enrichment iterate candidates [] = record {
  existing = candidates;
  ghosts = [];
  parts = sym (append-nil candidates);
  kept = no_ghost_empty candidates;
  new = tt;
  counted = refl;
  few = omega arith;
}
enrich_candidates_with_usn_records-Enrichment iterate candidates (r ∷ usn_records) =
    let indexes : UsnIndexes = build_usn_indexes candidates (r ∷ usn_records) in
    let existing : List QuickScanCandidate =
      (apply_usn_matches_to_existing_candidates indexes candidates).0 in
    let (enriched, few) = matches-Enriched indexes candidates in
    append-Enrichment candidates existing
      (ghosts_loop (record_numbers existing) (iterate indexes.by_record_number))
      (apply_usn_matches_to_existing_candidates indexes candidates).1 enriched
      (rw (same_numbers candidates existing enriched)
        (ghosts_loop-IsGhost candidates (iterate indexes.by_record_number)))
      few

overwrite-existing :
    (candidates existing ghosts : List QuickScanCandidate)
    → AllEnriched candidates existing
    → overwrite candidates (existing ++ ghosts) ≡ existing
unfolding overwrite
overwrite-existing [] [] ghosts h = refl
overwrite-existing [] (d ∷ existing) ghosts h = absurd h
overwrite-existing (c ∷ candidates) [] ghosts h = absurd h
overwrite-existing (c ∷ candidates) (d ∷ existing) ghosts h =
    ap (λ ds. d ∷ ds) (overwrite-existing candidates existing ghosts h.1)

-- On a slice that cannot grow, every candidate is enriched in its place and no ghost is added.
pub apply_usn_evidence-AllEnriched :
    (iterate : ByRecord → ByRecord) (candidates : List QuickScanCandidate)
    (usn_records : List UsnRecord)
    → AllEnriched candidates (apply_usn_evidence iterate candidates usn_records).0
unfolding apply_usn_evidence
apply_usn_evidence-AllEnriched iterate candidates usn_records =
    let e = enrich_candidates_with_usn_records-Enrichment iterate candidates usn_records in
    rw (e.parts, overwrite-existing candidates e.existing e.ghosts e.kept) e.kept
