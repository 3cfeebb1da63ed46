-- ===== src/Session/Order.antt =====
-- The order of the candidates: deleted ones first, then the recent ones, then by record index.
pub mod Sorted
use file_recovery_engine.Prelude.{
  ℕ, Bool, true, false, not, ◌||◌, ◌&&◌, Option, none, some, List, [], ◌∷◌, ltb, leb, ◌==◌,
  if◌then◌else◌,
}
use file_recovery_engine.Session.Types.{QuickScanCandidate}

abbrev pub or_else : Option ℕ → Option ℕ → Option ℕ
or_else none other = other
or_else (some v) other = some v

abbrev pub unwrap_or_zero : Option ℕ → ℕ
unwrap_or_zero none = 0
unwrap_or_zero (some v) = v

unfoldable pub quick_scan_candidate_recency_key : QuickScanCandidate → ℕ
quick_scan_candidate_recency_key c = unwrap_or_zero (
    or_else c.modified_filetime_utc (
      or_else c.mft_modified_filetime_utc (or_else c.created_filetime_utc c.accessed_filetime_utc)))

abbrev pub bit : Bool → ℕ
bit false = 0
bit true = 1

-- The comparison does not put `right` before `left`.
unfoldable pub in_order : QuickScanCandidate → QuickScanCandidate → Bool
in_order left right =
    let l = quick_scan_candidate_recency_key left in
    let r = quick_scan_candidate_recency_key right in
    ltb (bit right.deleted) (bit left.deleted)
    || (bit right.deleted == bit left.deleted
        && (ltb r l || (r == l && leb left.record_index right.record_index)))

-- `sort_by` is stable: a candidate stays in front of later ones that it compares equal to.
unfoldable pub insert_candidate :
    QuickScanCandidate → List QuickScanCandidate → List QuickScanCandidate
insert_candidate c [] = c ∷ []
insert_candidate c (d ∷ candidates) =
    let rest = insert_candidate c candidates in
    if in_order c d then c ∷ d ∷ candidates else d ∷ rest

unfoldable pub sort_quick_scan_candidates_for_recent_deletes :
    List QuickScanCandidate → List QuickScanCandidate
unfolding insert_candidate
sort_quick_scan_candidates_for_recent_deletes [] = []
sort_quick_scan_candidates_for_recent_deletes (c ∷ candidates) =
    insert_candidate c (sort_quick_scan_candidates_for_recent_deletes candidates)
