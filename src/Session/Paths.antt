-- ===== src/Session/Paths.antt =====
-- Paths from the parents of the candidates.
pub mod Ancestors
use file_recovery_engine.Prelude.{
  ℕ, zero, suc, Bool, Option, none, some, List, [], ◌∷◌, ◌++◌, ◌==◌, if◌then◌else◌, contains,
}
use file_recovery_engine.Session.Types.{QuickScanCandidate}

-- `HashMap<u64, (Option<u64>, String)>`: the last entry of a key in front.
abbrev pub Known : Type 0
Known = List (ℕ × Option ℕ × List ℕ)

unfoldable pub lookup : ℕ → Known → Option (Option ℕ × List ℕ)
lookup key [] = none
lookup key ((k, parent, name) ∷ known) =
    let rest = lookup key known in if key == k then some (parent, name) else rest

abbrev pub know : QuickScanCandidate → Option (List ℕ) → Known → Known
know c none known = known
know c (some name) known = (c.record_number, c.parent_record_number, name) ∷ known

unfoldable pub known_names : List QuickScanCandidate → Known → Known
known_names [] known = known
known_names (c ∷ candidates) known = known_names candidates (know c c.name known)

-- The name of a known parent, and those that its own parent leads to.
abbrev push_parent : Option (Option ℕ × List ℕ) → (Option ℕ → List (List ℕ)) → List (List ℕ)
push_parent none onward = []
push_parent (some (next_parent, parent_name)) onward = parent_name ∷ onward next_parent

-- The loop over the parents: the names that it pushes, at most `left`.
unfoldable pub climb : ℕ → Known → List ℕ → Option ℕ → List (List ℕ)
climb zero known seen parent = []
climb (suc left) known seen none = []
climb (suc left) known seen (some parent_record) =
    if contains parent_record seen
    then []
    else push_parent (lookup parent_record known)
        (λ next_parent. climb left known (parent_record ∷ seen) next_parent)

-- `segments.reverse()` and `segments.join("\\")`.
unfoldable pub join_reversed : List (List ℕ) → List ℕ
join_reversed [] = []
join_reversed (segment ∷ []) = segment
join_reversed (segment ∷ parent ∷ segments) = join_reversed (parent ∷ segments) ++ 92 ∷ segment

-- A path has at most 32 segments: the name and 31 of its parents.
abbrev pub path_of : Known → Option ℕ → Option (List ℕ) → Option (List ℕ) → Option (List ℕ)
path_of known parent none path = path
path_of known parent (some name) path = some (join_reversed (name ∷ climb 31 known [] parent))

unfoldable pub set_path : Known → QuickScanCandidate → QuickScanCandidate
set_path known c = record c {
  reconstructed_path = path_of known c.parent_record_number c.name c.reconstructed_path;
}

unfoldable pub set_paths : Known → List QuickScanCandidate → List QuickScanCandidate
set_paths known [] = []
set_paths known (c ∷ candidates) = set_path known c ∷ set_paths known candidates

unfoldable pub reconstruct_paths : List QuickScanCandidate → List QuickScanCandidate
unfolding known_names set_paths
reconstruct_paths candidates = set_paths (known_names candidates []) candidates
