-- ===== src/Fat/Scan/Fat32.antt =====
-- The FAT32 scan: the entries of a cluster, the clusters of a directory and the directories.
pub mod Reached
pub mod Sound
use file_recovery_engine.Prelude.{
  ℕ, zero, suc, ◌+◌, ◌*◌, ◌/◌, Bool, true, false, not, ◌||◌, ◌&&◌, Option, none, some, List, [],
  ◌∷◌, ◌++◌,
}
use file_recovery_engine.Prelude.{leb, ◌==◌, if◌then◌else◌, length, take, drop, contains}
use file_recovery_engine.Prelude.Outcome.{ok, stuck, ◌>>=◌, ◌>>◌}
use file_recovery_engine.Prelude.Checked.{has_bit}
use file_recovery_engine.Prelude.Bytes.{Bytes}
use file_recovery_engine.Prelude.Readers.{read_le, byte_at}
use file_recovery_engine.Fat.Types.{FatBootSector, FatDeletedEntry, fat32, Scanned}
use file_recovery_engine.Fat.Chain.{collect_cluster_chain, read_cluster}
use file_recovery_engine.Fat.Scan.Queue.{
  Directory, ScanState, Flow, next, stop, full, push_entry, queue_directory, is_empty, go_on,
  scan_from_root,
}
use file_recovery_engine.Fat.Names.{
  decode_lfn_part, decode_short_name, sanitize_name, join_candidate_path, is_dot_entry,
}

-- `chunks_exact(32)`, by the number of chunks.
unfoldable pub chunks : ℕ → Bytes → List Bytes
chunks zero bytes = []
chunks (suc count) bytes = take 32 bytes ∷ chunks count (drop 32 bytes)

abbrev pub chunks_exact : Bytes → List Bytes
chunks_exact bytes = chunks (length bytes / 32) bytes

abbrev pub concat : List (List ℕ) → List ℕ
concat [] = []
concat (part ∷ parts) = part ++ concat parts

-- The parts of the long name in front of the entry, or the short name.
unfoldable pub entry_name : Bytes → List (List ℕ) → Scanned (List ℕ)
entry_name entry [] = decode_short_name entry
entry_name entry (part ∷ parts) = ok (concat (part ∷ parts))

-- An entry of a long name: its part goes in front of the others.
unfoldable pub keep_part : List ℕ → ScanState → ScanState
keep_part [] s = s
keep_part (c ∷ part) s = record {
  entries = s.entries;
  directories = s.directories;
  long_name_parts = (c ∷ part) ∷ s.long_name_parts;
}

-- An entry that has a name: a directory is queued, and a deleted entry is reported.
unfoldable pub scan_named : ℕ → List ℕ → Bytes → ℕ → Bool → List ℕ → ScanState → Scanned Flow
unfolding queue_directory push_entry
scan_named max_entries directory_path entry attributes deleted name s =
    read_le 2 entry 20 >>= λ first_cluster_high. read_le 2 entry 26 >>= λ first_cluster_low.
    let start_cluster = first_cluster_high * 65536 + first_cluster_low in
    let path = join_candidate_path directory_path name in
    let is_directory = has_bit attributes 0x10 in
    let wanted = is_directory && leb 2 start_cluster && not (is_dot_entry name) in
    let queued = queue_directory wanted (start_cluster, path) s in
    if deleted
    then (read_le 4 entry 28 >>= λ size_bytes. ok (
        push_entry max_entries
          (record {
            filesystem = fat32;
            name = name;
            path = path;
            is_directory = is_directory;
            start_cluster = start_cluster;
            size_bytes = size_bytes;
          })
          queued))
    else ok (next queued)

unfoldable pub clear_parts : ScanState → ScanState
clear_parts s = record { entries = s.entries; directories = s.directories; long_name_parts = [] }

-- One entry of 32 bytes.
unfoldable pub scan_entry : ℕ → List ℕ → Bytes → ScanState → Scanned Flow
unfolding clear_parts
scan_entry max_entries directory_path entry s = byte_at entry 0 >>= λ first.
    if first == 0x00
    then ok (stop s)
    else byte_at entry 11 >>= λ attributes.
        if attributes == 0x0F
        then (decode_lfn_part entry >>= λ part. ok (next (keep_part part s)))
        else entry_name entry s.long_name_parts >>= λ raw_name.
            let name = sanitize_name raw_name in
            if has_bit attributes 0x08 || is_empty name
            then ok (next (clear_parts s))
            else scan_named max_entries directory_path entry attributes (first == 0xE5) name
                (clear_parts s)

-- The entries of a cluster. `full` leaves the whole scan.
unfoldable pub scan_entries : ℕ → List ℕ → List Bytes → ScanState → Scanned Flow
scan_entries max_entries directory_path [] s = ok (next s)
scan_entries max_entries directory_path (entry ∷ rest) s =
    scan_entry max_entries directory_path entry s
    >>= go_on (λ after. scan_entries max_entries directory_path rest after)

-- The clusters of a directory.
unfoldable pub scan_clusters :
    Bytes → FatBootSector → ℕ → List ℕ → List ℕ → ScanState → Scanned Flow
unfolding chunks scan_entries
scan_clusters image boot max_entries directory_path [] s = ok (next s)
scan_clusters image boot max_entries directory_path (cluster ∷ chain) s =
    read_cluster image boot cluster >>= λ cluster_bytes.
    scan_entries max_entries directory_path (chunks_exact cluster_bytes) s
    >>= go_on (λ after. scan_clusters image boot max_entries directory_path chain after)

-- A directory that was not visited: its chain, and the entries of its clusters.
unfoldable pub scan_fat32_directory :
    Bytes → FatBootSector → ℕ → ℕ → Directory → List Directory → List FatDeletedEntry → Scanned Flow
unfolding scan_clusters
scan_fat32_directory image boot max_entries max_clusters (cluster, path) directories entries = do
  chain ← collect_cluster_chain image boot cluster max_clusters
  scan_clusters image boot max_entries path chain
      (record { entries = entries; directories = directories; long_name_parts = [] })

-- A directory is read only if the FAT entry of its first cluster lies in the image, and no
-- directory is read twice, so the fuel is enough.
unfoldable pub scan_fat32_deleted_entries :
    Bytes → FatBootSector → ℕ → ℕ → Scanned (List FatDeletedEntry)
unfolding scan_fat32_directory
scan_fat32_deleted_entries image boot max_entries max_directory_clusters =
    scan_from_root (2 + length image) boot
      (scan_fat32_directory image boot max_entries max_directory_clusters)
