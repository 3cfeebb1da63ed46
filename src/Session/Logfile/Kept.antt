-- ===== src/Session/Logfile/Kept.antt =====
-- What the hints of the log file keep of the candidates.
use file_recovery_engine.Prelude.{
  ℕ, ◌≡◌, refl, sym, ap, ◌⊎◌, false, Option, none, some, List, [], ◌∷◌, ◌++◌, inl, inr, Bool-cases,
}
use file_recovery_engine.Scoring.Types.{EvidenceSource}
use file_recovery_engine.Session.Types.{QuickScanCandidate}
use file_recovery_engine.Session.Maps.{find}
use file_recovery_engine.Session.Paths.{Known, known_names, set_path, set_paths, reconstruct_paths}
use file_recovery_engine.Session.Usn.Index.{same_number}
use file_recovery_engine.Session.Usn.Match.{same_name, same_parent}
use file_recovery_engine.Session.Logfile.{
  LogfileCorrelationHint, LogfileCorrelator, Hinting, Hints, hint_name, hint_parent, hint_path,
  hint_evidence, has_directory_index, apply_hint, by_record, hints_loop,
  apply_logfile_correlation_hints, apply_logfile_correlation,
}

-- The same record, in the same state, with its other evidence.
pub record SameRecord (before after : QuickScanCandidate) : Type 0 where
  pub at_index : after.record_index ≡ before.record_index
  pub number : after.record_number ≡ before.record_number
  pub deletion : after.deleted ≡ before.deleted
  pub mask : after.usn_reason_mask ≡ before.usn_reason_mask
  pub size : after.data_size_bytes ≡ before.data_size_bytes

-- The evidence is kept; the directory index may be added behind it, if it was not there.
abbrev KeepsEvidence : QuickScanCandidate → QuickScanCandidate → Type 0
KeepsEvidence before after =
    (after.evidence_sources ≡ before.evidence_sources)
    ⊎ ((has_directory_index before.evidence_sources ≡ false)
        × (after.evidence_sources ≡ before.evidence_sources ++ EvidenceSource.directory_index ∷ []))

abbrev SameEvidence : QuickScanCandidate → QuickScanCandidate → Type 0
SameEvidence before after = after.evidence_sources ≡ before.evidence_sources

abbrev pub AllHinted : List QuickScanCandidate → List QuickScanCandidate → Type 0
AllHinted [] [] = Unit {0}
AllHinted [] (d ∷ after) = ⊥
AllHinted (c ∷ before) [] = ⊥
AllHinted (c ∷ before) (d ∷ after) = (SameRecord c d × KeepsEvidence c d) × AllHinted before after

abbrev Plain : QuickScanCandidate → QuickScanCandidate → Type 0
Plain before after = SameRecord before after × SameEvidence before after

module _ (c : QuickScanCandidate) where
  renamed :
      (name : Option (List ℕ)) (d : QuickScanCandidate)
      → Plain c d
      → Plain c (record d { name = name })
  renamed name d (h, e) = (
    record {
      at_index = h.at_index;
      number = h.number;
      deletion = h.deletion;
      mask = h.mask;
      size = h.size;
    },
    e,
  )

  moved :
      (parent : Option ℕ) (d : QuickScanCandidate)
      → Plain c d
      → Plain c (record d { parent_record_number = parent })
  moved parent d (h, e) = (
    record {
      at_index = h.at_index;
      number = h.number;
      deletion = h.deletion;
      mask = h.mask;
      size = h.size;
    },
    e,
  )

  repathed :
      (path : Option (List ℕ)) (d : QuickScanCandidate)
      → Plain c d
      → Plain c (record d { reconstructed_path = path })
  repathed path d (h, e) = (
    record {
      at_index = h.at_index;
      number = h.number;
      deletion = h.deletion;
      mask = h.mask;
      size = h.size;
    },
    e,
  )

  hint_name-Plain :
      (o : Option (List ℕ)) (h : Hinting) → Plain c h.candidate → Plain c (hint_name o h).candidate
  unfolding hint_name
  hint_name-Plain none h k = k
  hint_name-Plain (some name) h k = elim (Bool-cases (same_name h.candidate.name name)) [
    | inl same ↦ rw same k
    | inr new ↦ rw new (renamed (some name) h.candidate k)
  ]

  hint_parent-Plain :
      (o : Option ℕ) (h : Hinting) → Plain c h.candidate → Plain c (hint_parent o h).candidate
  unfolding hint_parent
  hint_parent-Plain none h k = k
  hint_parent-Plain (some parent) h k =
      elim (Bool-cases (same_parent h.candidate.parent_record_number parent)) [
        | inl same ↦ rw same k
        | inr new ↦ rw new (moved (some parent) h.candidate k)
      ]

  hint_path-Plain :
      (o : Option (List ℕ)) (h : Hinting) → Plain c h.candidate → Plain c (hint_path o h).candidate
  unfolding hint_path
  hint_path-Plain none h k = k
  hint_path-Plain (some path) h k =
      elim (Bool-cases (same_name h.candidate.reconstructed_path path)) [
        | inl same ↦ rw same k
        | inr new ↦ rw new (repathed (some path) h.candidate k)
      ]

  hint_evidence-Keeps :
      (h : Hinting)
      → Plain c h.candidate
      → SameRecord c (hint_evidence h).candidate × KeepsEvidence c (hint_evidence h).candidate
  unfolding hint_evidence
  hint_evidence-Keeps h (k, same) = (
    record {
      at_index = k.at_index;
      number = k.number;
      deletion = k.deletion;
      mask = k.mask;
      size = k.size;
    },
    elim (Bool-cases (has_directory_index h.candidate.evidence_sources)) [
      | inl there ↦ rw there (inl same)
      | inr missing ↦ rw missing (
          inr (
            rw (sym same) missing,
            ap (λ sources. sources ++ EvidenceSource.directory_index ∷ []) same,
          ))
    ],
  )

  apply_hint-Keeps :
      (o : Option LogfileCorrelationHint) (h : Hinting)
      → Plain c h.candidate
      → SameRecord c (apply_hint o h).candidate × KeepsEvidence c (apply_hint o h).candidate
  unfolding apply_hint
  apply_hint-Keeps none h k = (k.0, inl k.1)
  apply_hint-Keeps (some hint) h k =
      let named : Hinting = hint_name hint.inferred_name h in
      let moved_on : Hinting = hint_parent hint.inferred_parent_record_number named in
      hint_evidence-Keeps (hint_path hint.inferred_reconstructed_path moved_on) (
        hint_path-Plain hint.inferred_reconstructed_path moved_on (
          hint_parent-Plain hint.inferred_parent_record_number named
            (hint_name-Plain hint.inferred_name h k)))

hints_loop-AllHinted :
    (hints : Hints) (candidates : List QuickScanCandidate)
    → AllHinted candidates (hints_loop hints candidates).0
unfolding hints_loop
hints_loop-AllHinted hints [] = tt
hints_loop-AllHinted hints (c ∷ candidates) = (
  apply_hint-Keeps c (find same_number c.record_number hints)
      (record { candidate = c; changed = 0; path_dirty = false })
      (record { at_index = refl; number = refl; deletion = refl; mask = refl; size = refl }, refl),
  hints_loop-AllHinted hints candidates,
)

set_paths-AllHinted :
    (known : Known) (before after : List QuickScanCandidate)
    → AllHinted before after
    → AllHinted before (set_paths known after)
unfolding set_paths set_path
set_paths-AllHinted known [] [] h = tt
set_paths-AllHinted known [] (d ∷ after) h = absurd h
set_paths-AllHinted known (c ∷ before) [] h = absurd h
set_paths-AllHinted known (c ∷ before) (d ∷ after) ((k, e), rest) = (
  (
    record {
      at_index = k.at_index;
      number = k.number;
      deletion = k.deletion;
      mask = k.mask;
      size = k.size;
    },
    e,
  ),
  set_paths-AllHinted known before after rest,
)

unhinted : (candidates : List QuickScanCandidate) → AllHinted candidates candidates
unhinted [] = tt
unhinted (c ∷ candidates) = (
  (record { at_index = refl; number = refl; deletion = refl; mask = refl; size = refl }, inl refl),
  unhinted candidates,
)

hints-AllHinted :
    (candidates : List QuickScanCandidate) (hints : List LogfileCorrelationHint)
    → AllHinted candidates (apply_logfile_correlation_hints candidates hints).0
unfolding apply_logfile_correlation_hints reconstruct_paths
hints-AllHinted candidates [] = unhinted candidates
hints-AllHinted candidates (hint ∷ hints) =
    let index : Hints = by_record (hint ∷ hints) [] in
    let h = hints_loop-AllHinted index candidates in
    elim (Bool-cases (hints_loop index candidates).2) [
      | inl dirty ↦
          rw dirty
            (set_paths-AllHinted (known_names (hints_loop index candidates).0 []) candidates _ h)
      | inr clean ↦ rw clean h
    ]

-- Whatever a correlator says, every candidate stays in its place as the same record in the same
-- state, with its evidence, and the directory index is added to it at most once.
pub apply_logfile_correlation-AllHinted :
    (candidates : List QuickScanCandidate) (correlate : LogfileCorrelator)
    → AllHinted candidates (apply_logfile_correlation candidates correlate).0
unfolding apply_logfile_correlation
apply_logfile_correlation-AllHinted candidates correlate = hints-AllHinted candidates _
