-- ===== src/Session/Usn/Match.antt =====
-- The match of a candidate with the journal, and the loop over the candidates.
use Prim.Native.Nat.{bit_or}
use file_recovery_engine.Prelude.{
  ℕ, ◌+◌, Bool, true, false, not, ◌||◌, ◌&&◌, Option, none, some, List, [], ◌∷◌, ◌++◌,
}
use file_recovery_engine.Prelude.{◌==◌, if◌then◌else◌}
use file_recovery_engine.Prelude.Bytes.{bytes_eq}
use file_recovery_engine.Scoring.Types.{EvidenceSource}
use file_recovery_engine.Session.Types.{QuickScanCandidate}
use file_recovery_engine.Session.Paths.{reconstruct_paths}
use file_recovery_engine.Session.Maps.{find}
use file_recovery_engine.Session.Usn.Index.{
  UsnAggregate, same_number, same_name_parent, ntfs_record_number, trim, is_empty,
  normalize_case_key, should_apply_rename_hint, or_zero, ByNameParent, ByPath, UsnIndexes,
}

abbrev pub same_name : Option (List ℕ) → List ℕ → Bool
same_name none other = false
same_name (some name) other = bytes_eq name other

abbrev pub same_parent : Option ℕ → ℕ → Bool
same_parent none other = false
same_parent (some parent) other = parent == other

-- The journal's last record of the file renames it, and to something else.
unfoldable pub is_renamed : UsnAggregate → QuickScanCandidate → Bool
is_renamed a c =
    should_apply_rename_hint a.latest_reason
    && not (is_empty (trim a.latest_name))
    && (not (same_name c.name a.latest_name)
        || not (same_parent c.parent_record_number a.latest_parent_record))

-- The rename hint of the record match. The Boolean says whether the paths are dirty.
unfoldable pub apply_rename_hint :
    Option UsnAggregate → QuickScanCandidate → QuickScanCandidate × Bool
apply_rename_hint none c = (c, false)
apply_rename_hint (some a) c =
    if is_renamed a c
    then (
      record c { name = some a.latest_name; parent_record_number = some a.latest_parent_record },
      true,
    )
    else (c, false)

abbrev pub mask_of : Option UsnAggregate → ℕ
mask_of none = 0
mask_of (some a) = a.reason_mask

abbrev path_reason : ByPath → Option (List ℕ) → ℕ
path_reason by_path none = 0
path_reason by_path (some path) = or_zero (find bytes_eq (normalize_case_key path) by_path)

abbrev name_reason : ByNameParent → Option (List ℕ) → Option ℕ → ℕ
name_reason by_name_parent (some name) (some parent) =
    or_zero
      (find same_name_parent (normalize_case_key name, ntfs_record_number parent) by_name_parent)
name_reason by_name_parent name parent = 0

-- The reasons by path and by name count only if there is none by record number.
unfoldable pub matched_reason : UsnIndexes → ℕ → QuickScanCandidate → ℕ
unfolding find normalize_case_key
matched_reason indexes by_number c =
    if by_number == 0
    then bit_or (path_reason indexes.by_path c.reconstructed_path)
        (name_reason indexes.by_name_parent c.name c.parent_record_number)
    else by_number

abbrev pub is_usn : EvidenceSource → Bool
is_usn EvidenceSource.usn = true
is_usn other = false

abbrev pub has_usn : List EvidenceSource → Bool
has_usn [] = false
has_usn (source ∷ sources) = is_usn source || has_usn sources

unfoldable pub add_usn_evidence : ℕ → QuickScanCandidate → QuickScanCandidate
add_usn_evidence reason c = record c {
  evidence_sources =
      if has_usn c.evidence_sources
      then c.evidence_sources
      else c.evidence_sources ++ EvidenceSource.usn ∷ [];
  usn_reason_mask = some (bit_or (or_zero c.usn_reason_mask) reason);
}

-- What the loop over the candidates has counted, and whether the paths are dirty.
unfoldable pub match_candidate : UsnIndexes → QuickScanCandidate → QuickScanCandidate × Bool × Bool
unfolding find matched_reason
match_candidate indexes c =
    let found = find same_number c.record_number indexes.by_record_number in
    let (renamed, dirty) = apply_rename_hint found c in
    let reason = matched_reason indexes (mask_of found) renamed in
    if reason == 0 then (renamed, false, dirty) else (add_usn_evidence reason renamed, true, dirty)

unfoldable pub match_loop :
    UsnIndexes → List QuickScanCandidate → List QuickScanCandidate × ℕ × Bool
match_loop indexes [] = ([], 0, false)
match_loop indexes (c ∷ candidates) =
    let (after, matched, dirty) = match_candidate indexes c in
    let (rest, enriched, later_dirty) = match_loop indexes candidates in
    (after ∷ rest, (if matched then enriched + 1 else enriched), dirty || later_dirty)

unfoldable pub apply_usn_matches_to_existing_candidates :
    UsnIndexes → List QuickScanCandidate → List QuickScanCandidate × ℕ
unfolding match_loop
apply_usn_matches_to_existing_candidates indexes candidates =
    let (after, enriched, dirty) = match_loop indexes candidates in
    (if dirty then reconstruct_paths after else after, enriched)
