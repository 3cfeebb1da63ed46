-- ===== src/Fat/Scan/Queue.antt =====
-- What both scans share: the directories that wait in a queue, the entries that are found, and the
-- loop over the directories.
pub mod Loop
use file_recovery_engine.Prelude.{
  ℕ, zero, suc, ◌+◌, Bool, true, false, Option, none, some, List, [], ◌∷◌, ◌++◌,
}
use file_recovery_engine.Prelude.{leb, if◌then◌else◌, length, contains}
use file_recovery_engine.Prelude.Outcome.{ok, stuck, ◌>>=◌}
use file_recovery_engine.Fat.Types.{FatBootSector, FatDeletedEntry, Scanned}

-- A directory that waits: its first cluster and its path.
abbrev pub Directory : Type 0
Directory = ℕ × List ℕ

pub record ScanState : Type 0 where
  pub entries : List FatDeletedEntry
  pub directories : List Directory
  pub long_name_parts : List (List ℕ)

-- What follows an entry: the next one, the end of the directory, or the end of the scan, when
-- enough entries are found.
pub data Flow : Type 0 where
  next : ScanState → Flow
  stop : ScanState → Flow
  full : List FatDeletedEntry → Flow

unfoldable pub push_directory : Bool → Directory → List Directory → List Directory
push_directory wanted directory directories =
    if wanted then directories ++ directory ∷ [] else directories

-- `entries.push(entry)` and the test that leaves the scan.
unfoldable pub push_entry : ℕ → FatDeletedEntry → ScanState → Flow
push_entry max_entries entry s =
    let entries = s.entries ++ entry ∷ [] in
    if leb max_entries (length entries)
    then full entries
    else next (record {
      entries = entries;
      directories = s.directories;
      long_name_parts = s.long_name_parts;
    })

unfoldable pub queue_directory : Bool → Directory → ScanState → ScanState
unfolding push_directory
queue_directory wanted directory s = record {
  entries = s.entries;
  directories = push_directory wanted directory s.directories;
  long_name_parts = s.long_name_parts;
}

abbrev pub is_empty : List ℕ → Bool
is_empty [] = true
is_empty (c ∷ text) = false

-- `directories.pop_front()`, again as long as the directory was visited.
unfoldable pub pop_unvisited : List ℕ → List Directory → Option (Directory × List Directory)
pop_unvisited visited [] = none
pop_unvisited visited (directory ∷ directories) =
    let later = pop_unvisited visited directories in
    if contains directory.0 visited then later else some (directory, directories)

-- What reads one directory, with the queue and the entries so far.
abbrev pub Scan : Type 0
Scan = Directory → List Directory → List FatDeletedEntry → Scanned Flow

-- Going on behind an entry, a cluster or a set: only `next` does.
abbrev pub go_on : (ScanState → Scanned Flow) → Flow → Scanned Flow
go_on rest (next s) = rest s
go_on rest (stop s) = ok (stop s)
go_on rest (full entries) = ok (full entries)

-- Going on behind a directory: only `full` leaves the scan.
abbrev pub resume :
    (ScanState → Scanned (List FatDeletedEntry)) → Flow → Scanned (List FatDeletedEntry)
resume rest (next s) = rest s
resume rest (stop s) = rest s
resume rest (full entries) = ok entries

-- `while let Some(directory) = ...`: what follows the loop and its body.
abbrev while_some :
    Option (Directory × List Directory)
    → Scanned (List FatDeletedEntry)
    → (Directory → List Directory → Scanned (List FatDeletedEntry))
    → Scanned (List FatDeletedEntry)
while_some none after body = after
while_some (some (directory, later)) after body = body directory later

-- The queue's loop. Fuel counts the directories that are read.
unfoldable pub directories_loop :
    ℕ → Scan → List ℕ → List Directory → List FatDeletedEntry → Scanned (List FatDeletedEntry)
directories_loop zero scan visited directories entries = stuck
directories_loop (suc fuel) scan visited directories entries =
    while_some (pop_unvisited visited directories) (ok entries) λ directory later.
      scan directory later entries
      >>= resume (λ s. directories_loop fuel scan (directory.0 ∷ visited) s.directories s.entries)

-- The scan starts with the root directory, whose path is `.`.
unfoldable pub scan_from_root : ℕ → FatBootSector → Scan → Scanned (List FatDeletedEntry)
unfolding directories_loop
scan_from_root fuel boot scan =
    directories_loop fuel scan [] ((boot.root_dir_first_cluster, 46 ∷ []) ∷ []) []
