-- ===== src/Session/Paths/Ancestors.antt =====
-- The paths: each candidate keeps what it is, and its path names its ancestors among the others.
use file_recovery_engine.Prelude.{
  ℕ, zero, suc, ◌+◌, ◌≡◌, refl, ap, ◌⊎◌, Bool, true, false, Option, none, some, List, [], ◌∷◌, inl,
  inr, Bool-cases, Option-cases, contains, All, ◌≢◌, sym, ◌∙◌, arith, ◌==◌, ==→≡, ◌++◌,
}
use mathlib.Core.Path.{subst}
use mathlib.Core.Option.{some-injective}
use mathlib.Core.List.{append_assoc}
use file_recovery_engine.Session.Types.{QuickScanCandidate}
use file_recovery_engine.Session.Order.{bit}
use file_recovery_engine.Session.Order.Sorted.{count}
use file_recovery_engine.Session.Paths.{
  Known, lookup, know, known_names, climb, join_reversed, path_of, set_path, set_paths,
  reconstruct_paths,
}

-- Not the candidate of a record number: another number, or no name.
abbrev pub IsOther : ℕ → QuickScanCandidate → Type 0
IsOther p c = (c.record_number ≢ p) ⊎ (c.name ≡ none)

-- The last candidate that has a record number and a name, with this parent and this name.
pub record IsLast (candidates : List QuickScanCandidate) (p : ℕ) (parent : Option ℕ) (name : List ℕ)
    : Type 0 where
  pub before : List QuickScanCandidate
  pub here : QuickScanCandidate
  pub after : List QuickScanCandidate
  pub split : candidates ≡ before ++ here ∷ after
  pub numbered : here.record_number ≡ p
  pub named : here.name ≡ some name
  pub child_of : here.parent_record_number ≡ parent
  pub last : All (IsOther p) after

-- What the map of the names holds for a record number, over the map that was there before.
abbrev Holds : List QuickScanCandidate → Known → ℕ → Option (Option ℕ × List ℕ) → Type 0
Holds candidates known p found =
    (All (IsOther p) candidates × (found ≡ lookup p known))
    ⊎ ((parent : Option ℕ) × (name : List ℕ) × IsLast candidates p parent name
        × (found ≡ some (parent, name)))

Holds-cons :
    (c : QuickScanCandidate) (candidates : List QuickScanCandidate) (known : Known) (p : ℕ)
    (own : Option (List ℕ)) {found : Option (Option ℕ × List ℕ)}
    → c.name ≡ own
    → Holds candidates (know c own known) p found
    → Holds (c ∷ candidates) known p found
unfolding lookup
Holds-cons c candidates known p own e (inr (parent, name, later, found)) = inr (
  parent,
  name,
  record {
    before = c ∷ later.before;
    here = later.here;
    after = later.after;
    split = ap (λ cs. c ∷ cs) later.split;
    numbered = later.numbered;
    named = later.named;
    child_of = later.child_of;
    last = later.last;
  },
  found,
)
Holds-cons c candidates known p none e (inl (others, found)) = inl ((inr e, others), found)
Holds-cons c candidates known p (some name) e (inl (others, found)) =
    elim (Bool-cases (p == c.record_number)) [
      | inl same ↦ inr (
        c.parent_record_number,
        name,
        record {
          before = [];
          here = c;
          after = candidates;
          split = refl;
          numbered = sym (==→≡ p c.record_number same);
          named = e;
          child_of = refl;
          last = others;
        },
        rw same at found,
      )
      | inr other ↦ inl ((inl (λ q. ground arith), others), rw other at found)
    ]

lookup-Holds :
    (candidates : List QuickScanCandidate) (known : Known) (p : ℕ)
    → Holds candidates known p (lookup p (known_names candidates known))
unfolding known_names
lookup-Holds [] known p = inl (tt, refl)
lookup-Holds (c ∷ candidates) known p =
    Holds-cons c candidates known p c.name refl (lookup-Holds candidates (know c c.name known) p)

found-IsLast :
    (candidates : List QuickScanCandidate) (p : ℕ) (parent : Option ℕ) (name : List ℕ)
    → lookup p (known_names candidates []) ≡ some (parent, name)
    → IsLast candidates p parent name
unfolding lookup
found-IsLast candidates p parent name e = elim (lookup-Holds candidates [] p) [
  | inl (others, missing) ↦ absurd (cc)
  | inr (parent', name', last, found) ↦
      let same : (parent', name') ≡ (parent, name) = some-injective _ _ (sym found ∙ e) in
      subst (λ t. IsLast candidates p t.0 t.1) same last
]

unknown-IsOther :
    (candidates : List QuickScanCandidate) (p : ℕ)
    → lookup p (known_names candidates []) ≡ none
    → All (IsOther p) candidates
unknown-IsOther candidates p e = elim (lookup-Holds candidates [] p) [
  | inl (others, missing) ↦ others
  | inr (parent, name, last, found) ↦ absurd (cc)
]

-- The names of the ancestors from `parent` on: each is that of the last named candidate with the
-- record number that the one before it has as its parent, and no record number comes twice. The
-- list ends where there is no parent, the parent has no named candidate or was there before, or
-- where it has the length of the limit.
abbrev pub Ancestors : List QuickScanCandidate → ℕ → List ℕ → Option ℕ → List (List ℕ) → Type 0
Ancestors candidates left seen parent [] =
    (left ≡ 0)
    ⊎ (parent ≡ none)
    ⊎ ((p : ℕ) × (parent ≡ some p) × (contains p seen ≡ true))
    ⊎ ((p : ℕ) × (parent ≡ some p) × All (IsOther p) candidates)
Ancestors candidates left seen parent (name ∷ names) =
    (p : ℕ) × (rest : ℕ) × (next : Option ℕ) × (parent ≡ some p)
    × (left ≡ suc rest)
    × (contains p seen ≡ false)
    × IsLast candidates p next name
    × Ancestors candidates rest (p ∷ seen) next names

climb-Ancestors :
    (candidates : List QuickScanCandidate) (left : ℕ) (seen : List ℕ) (parent : Option ℕ)
    → Ancestors candidates left seen parent (climb left (known_names candidates []) seen parent)
unfolding climb
climb-Ancestors candidates zero seen parent = inl refl
climb-Ancestors candidates (suc left) seen none = inr (inl refl)
climb-Ancestors candidates (suc left) seen (some p) = elim (Bool-cases (contains p seen)) [
  | inl repeated ↦ rw repeated (inr (inr (inl (p, refl, repeated))))
  | inr fresh ↦ elim (Option-cases (lookup p (known_names candidates []))) [
    | inl unknown ↦
        rw (fresh, unknown) (inr (inr (inr (p, refl, unknown-IsOther candidates p unknown))))
    | inr ((next, name), found) ↦
        rw (fresh, found)
          (
            p,
            left,
            next,
            refl,
            refl,
            fresh,
            found-IsLast candidates p next name found,
            climb-Ancestors candidates left (p ∷ seen) next,
          )
  ]
]

-- The directories of a path, from the farthest ancestor on, each with a backslash behind it.
abbrev pub directories : List (List ℕ) → List ℕ
directories [] = []
directories (name ∷ ancestors) = (directories ancestors ++ name) ++ 92 ∷ []

join_reversed-directories :
    (name : List ℕ) (ancestors : List (List ℕ))
    → join_reversed (name ∷ ancestors) ≡ directories ancestors ++ name
unfolding join_reversed
join_reversed-directories name [] = refl
join_reversed-directories name (parent ∷ ancestors) =
    ap (λ path. path ++ 92 ∷ name) (join_reversed-directories parent ancestors)
    ∙ sym (append_assoc (directories ancestors ++ parent) (92 ∷ []) name)

-- A candidate and what it becomes: all but its path is kept. Without a name it keeps its path too;
-- with one its path is the name behind those of its ancestors, the nearest one next to it.
pub record HasPath (candidates : List QuickScanCandidate) (c d : QuickScanCandidate) : Type 0 where
  pub kept : d ≡ record c { reconstructed_path = d.reconstructed_path }
  pub path :
      ((c.name ≡ none) × (d.reconstructed_path ≡ c.reconstructed_path))
      ⊎ ((name : List ℕ) × (ancestors : List (List ℕ)) × (c.name ≡ some name)
          × Ancestors candidates 31 [] c.parent_record_number ancestors
          × (d.reconstructed_path ≡ some (directories ancestors ++ name)))

-- The same number of candidates, and one by one.
abbrev pub HavePaths :
    List QuickScanCandidate → List QuickScanCandidate → List QuickScanCandidate → Type 0
HavePaths candidates [] [] = Unit {0}
HavePaths candidates [] (d ∷ after) = ⊥
HavePaths candidates (c ∷ before) [] = ⊥
HavePaths candidates (c ∷ before) (d ∷ after) =
    HasPath candidates c d × HavePaths candidates before after

set_path-HasPath :
    (candidates : List QuickScanCandidate) (c : QuickScanCandidate)
    → HasPath candidates c (set_path (known_names candidates []) c)
unfolding set_path
set_path-HasPath candidates c =
    let known = known_names candidates [] in
    record {
      kept = refl;
      path = elim (Option-cases c.name) [
        | inl unnamed ↦
            inl (
              unnamed,
              ap (λ n. path_of known c.parent_record_number n c.reconstructed_path) unnamed,
            )
        | inr (name, named) ↦
            let ancestors = climb 31 known [] c.parent_record_number in
            inr (
              name,
              ancestors,
              named,
              climb-Ancestors candidates 31 [] c.parent_record_number,
              ap (λ n. path_of known c.parent_record_number n c.reconstructed_path) named
                  ∙ ap some (join_reversed-directories name ancestors),
            )
      ];
    }

set_paths-HavePaths :
    (candidates before : List QuickScanCandidate)
    → HavePaths candidates before (set_paths (known_names candidates []) before)
unfolding set_paths
set_paths-HavePaths candidates [] = tt
set_paths-HavePaths candidates (c ∷ before) =
    (set_path-HasPath candidates c, set_paths-HavePaths candidates before)

count-set_paths :
    (test : QuickScanCandidate → Bool) (known : Known) (candidates : List QuickScanCandidate)
    → ((c : QuickScanCandidate) → test (set_path known c) ≡ test c)
    → count test (set_paths known candidates) ≡ count test candidates
unfolding set_paths
count-set_paths test known [] h = refl
count-set_paths test known (c ∷ candidates) h =
    rw (h c) (ap (λ n. bit (test c) + n) (count-set_paths test known candidates h))

-- As many candidates come out as go in, in their order, and each keeps all but its path. One without
-- a name keeps its path; one with a name gets the path of its ancestors, the farthest first, joined
-- by backslashes, with its name at the end. An ancestor is the last named candidate with the record
-- number that the one below it names as its parent. There are at most 31 of them, none twice, up to
-- the first number that no named candidate has or that was there before.
pub reconstruct_paths-HasPath :
    (candidates : List QuickScanCandidate)
    → HavePaths candidates candidates (reconstruct_paths candidates)
unfolding reconstruct_paths
reconstruct_paths-HasPath candidates = set_paths-HavePaths candidates candidates

-- A path changes no count that does not look at paths.
pub count-reconstruct_paths :
    (test : QuickScanCandidate → Bool) (candidates : List QuickScanCandidate)
    → ((known : Known) (c : QuickScanCandidate) → test (set_path known c) ≡ test c)
    → count test (reconstruct_paths candidates) ≡ count test candidates
unfolding reconstruct_paths
count-reconstruct_paths test candidates h =
    count-set_paths test (known_names candidates []) candidates (h (known_names candidates []))
