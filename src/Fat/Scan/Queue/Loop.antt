-- ===== src/Fat/Scan/Queue/Loop.antt =====
-- The loop over the directories: it ends, since no directory is read twice, and it keeps what the
-- scan of one directory keeps.
use file_recovery_engine.Prelude.{
  ℕ, zero, suc, ◌+◌, ◌≤◌, ◌<◌, ◌≡◌, refl, arith, true, false, Bool, some, List, [], ◌∷◌, ◌++◌, inl,
  inr,
}
use file_recovery_engine.Prelude.{
  leb, ◌==◌, length, contains, Bool-cases, Option-cases, All, if◌then◌else◌, length-append, ==→≡,
}
use file_recovery_engine.Prelude.Outcome.{Safe, Safe-ok, Safe-bind}
use mathlib.Core.Path.{subst}
use mathlib.Core.Option.{some-injective}
use file_recovery_engine.Fat.Types.{FatBootSector, FatDeletedEntry, Scanned}
use file_recovery_engine.Fat.Scan.Queue.{
  Directory, ScanState, Flow, next, stop, full, push_entry, push_directory, queue_directory,
  pop_unvisited, Scan, go_on, resume, directories_loop, scan_from_root,
}

-- How many numbers below `n` are not in the list.
abbrev room : ℕ → List ℕ → ℕ
room zero visited = 0
room (suc n) visited = let below = room n visited in if contains n visited then below else suc below

room-le : (n : ℕ) (visited : List ℕ) → room n visited ≤ n
room-le zero visited = omega arith
room-le (suc n) visited = ground (arith, room-le n visited)

room_mono : (n c : ℕ) (visited : List ℕ) → room n (c ∷ visited) ≤ room n visited
room_mono zero c visited = omega arith
room_mono (suc n) c visited = ground (arith, room_mono n c visited)

room-shrinks :
    (n c : ℕ) (visited : List ℕ)
    → contains c visited ≡ false
    → c < n
    → room n (c ∷ visited) < room n visited
room-shrinks zero c visited fresh h = absurd (omega arith)
room-shrinks (suc n) c visited fresh h = elim (Bool-cases (n == c)) [
  | inl same ↦
      let unseen : contains n visited ≡ false = rw (==→≡ n c same) fresh in
      rw (same, unseen) (omega (arith, room_mono n c visited))
  | inr other ↦
      let below : c < n = ground arith in ground (arith, room-shrinks n c visited fresh below)
]

module _ (PDir : Directory → Type 0) where
  -- The directory that is taken was not visited, and it and those behind it were waiting.
  pop_unvisited-some :
      (visited : List ℕ) (directories : List Directory) {directory : Directory}
      {later : List Directory}
      → pop_unvisited visited directories ≡ some (directory, later)
      → All PDir directories
      → (contains directory.0 visited ≡ false) × PDir directory × All PDir later
  unfolding pop_unvisited
  pop_unvisited-some visited [] e h = absurd (cc)
  pop_unvisited-some visited (d ∷ directories) {directory} {later} e h =
      elim (Bool-cases (contains d.0 visited)) [
        | inl seen ↦ pop_unvisited-some visited directories (rw seen at e) h.1
        | inr fresh ↦
            let same : (d, directories) ≡ (directory, later) = some-injective _ _ (rw fresh at e) in
            subst (λ p. (contains p.0.0 visited ≡ false) × PDir p.0 × All PDir p.1) same
              (fresh, h.0, h.1)
      ]

-- What the state keeps while the scan goes on, and what it has at the end.
module _ (max_entries : ℕ) (PDir : Directory → Type 0) (PEntry : FatDeletedEntry → Type 0) where
  abbrev pub Kept : ScanState → Type 0
  Kept s = All PDir s.directories × All PEntry s.entries × (length s.entries < max_entries)

  abbrev pub Result : List FatDeletedEntry → Type 0
  Result entries = All PEntry entries × (length entries ≤ max_entries)

  abbrev pub KeptFlow : Flow → Type 0
  KeptFlow (next s) = Kept s
  KeptFlow (stop s) = Kept s
  KeptFlow (full entries) = Result entries

  pub go_on-Safe :
      (rest : ScanState → Scanned Flow) (flow : Flow)
      → ((s : ScanState) → Kept s → Safe KeptFlow (rest s))
      → KeptFlow flow
      → Safe KeptFlow (go_on rest flow)
  go_on-Safe rest (next s) k h = k s h
  go_on-Safe rest (stop s) k h = Safe-ok h
  go_on-Safe rest (full entries) k h = Safe-ok h

  All-snoc {ℓ} :
      {A : Type ℓ} (P : A → Type 0) (xs : List A) (x : A) → All P xs → P x → All P (xs ++ x ∷ [])
  All-snoc P [] x h k = (k, tt)
  All-snoc P (y ∷ xs) x h k = (h.0, All-snoc P xs x h.1 k)

  pub push_entry-Kept :
      (entry : FatDeletedEntry) (s : ScanState)
      → PEntry entry
      → Kept s
      → KeptFlow (push_entry max_entries entry s)
  unfolding push_entry
  push_entry-Kept entry s h (directories, entries, room_left) =
      let all = All-snoc PEntry s.entries entry entries h in
      let size : length (s.entries ++ entry ∷ []) ≡ length s.entries + 1 =
        length-append s.entries (entry ∷ []) in
      elim (Bool-cases (leb max_entries (length (s.entries ++ entry ∷ [])))) [
        | inl last ↦ rw last (all, omega arith)
        | inr more ↦ rw more (directories, all, ground arith)
      ]

  pub queue_directory-Kept :
      (wanted : Bool) (directory : Directory) (s : ScanState)
      → (wanted ≡ true → PDir directory)
      → Kept s
      → Kept (queue_directory wanted directory s)
  unfolding queue_directory push_directory
  queue_directory-Kept true directory s h k =
      (All-snoc PDir s.directories directory k.0 (h refl), k.1, k.2)
  queue_directory-Kept false directory s h k = k

  -- The scan of a directory keeps the state, and only reads directories below a bound.
  module _ (bound : ℕ) (scan : Scan)
      (scan-Kept : (directory : Directory) (directories : List Directory)
          (entries : List FatDeletedEntry)
        → PDir directory
        → Kept (record { entries = entries; directories = directories; long_name_parts = [] })
        → Safe
            (λ flow. (directory.0 < bound) × KeptFlow flow)
            (scan directory directories entries)) where
    resume-Safe :
        (rest : ScanState → Scanned (List FatDeletedEntry)) (flow : Flow)
        → ((s : ScanState) → Kept s → Safe Result (rest s))
        → KeptFlow flow
        → Safe Result (resume rest flow)
    resume-Safe rest (next s) k h = k s h
    resume-Safe rest (stop s) k h = k s h
    resume-Safe rest (full entries) k h = Safe-ok h

    pub directories_loop-Safe :
        (fuel : ℕ) (visited : List ℕ) (directories : List Directory)
        (entries : List FatDeletedEntry)
        → Kept (record { entries = entries; directories = directories; long_name_parts = [] })
        → room bound visited < fuel
        → Safe Result (directories_loop fuel scan visited directories entries)
    unfolding directories_loop
    directories_loop-Safe zero visited directories entries h enough = absurd (omega arith)
    directories_loop-Safe (suc fuel) visited directories entries h enough =
        elim (Option-cases (pop_unvisited visited directories)) [
          | inl empty ↦ rw empty (Safe-ok (h.1, omega arith))
          | inr ((directory, later), popped) ↦
              let (fresh, wanted, waiting) =
                pop_unvisited-some PDir visited directories popped h.0 in
              rw popped (
                Safe-bind (scan directory later entries) _
                  (scan-Kept directory later entries wanted (waiting, h.1, h.2))
                  λ flow e (below, kept).
                    resume-Safe _ flow
                      (λ s g.
                        directories_loop-Safe fuel (directory.0 ∷ visited) s.directories s.entries g
                          (omega (arith, room-shrinks bound directory.0 visited fresh below)))
                      kept)
        ]

    -- With fuel for every directory below the bound, and one round for the test that leaves the
    -- loop.
    pub scan_from_root-Safe :
        (fuel : ℕ) (boot : FatBootSector)
        → PDir (boot.root_dir_first_cluster, 46 ∷ [])
        → 0 < max_entries
        → bound < fuel
        → Safe Result (scan_from_root fuel boot scan)
    unfolding scan_from_root
    scan_from_root-Safe fuel boot h some_entry enough =
        directories_loop-Safe fuel [] ((boot.root_dir_first_cluster, 46 ∷ []) ∷ []) []
          ((h, tt), tt, some_entry) (omega (arith, room-le bound []))
