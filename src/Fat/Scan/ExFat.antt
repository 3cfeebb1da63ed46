-- ===== src/Fat/Scan/ExFat.antt =====
-- The exFAT scan: the secondary entries of a set, the sets of a directory and the directories.
pub mod Reached
pub mod Set
pub mod Sound
use file_recovery_engine.Prelude.{
  ℕ, zero, suc, ◌+◌, ◌*◌, Bool, true, false, not, ◌||◌, ◌&&◌, Option, none, some, List, [], ◌∷◌,
  ◌++◌,
}
use file_recovery_engine.Prelude.{ltb, leb, ◌==◌, if◌then◌else◌, length, take}
use file_recovery_engine.Prelude.Outcome.{ok, stuck, fail_if, or_panic, ok_or, ◌>>=◌, ◌>>◌}
use file_recovery_engine.Prelude.Checked.{has_bit, checked_add}
use file_recovery_engine.Prelude.Bytes.{Bytes, get_range}
use file_recovery_engine.Prelude.Readers.{read_le, byte_at}
use file_recovery_engine.Prelude.Text.{from_utf16_lossy}
use file_recovery_engine.Fat.Types.{
  FatBootSector, FatDeletedEntry, ex_fat, Scanned, scan_overflow, directory_entry_truncated,
}
use file_recovery_engine.Fat.Chain.{read_directory_bytes}
use file_recovery_engine.Fat.Names.{sanitize_name, join_candidate_path}
use file_recovery_engine.Fat.Scan.Queue.{
  Directory, ScanState, Flow, next, stop, full, queue_directory, push_entry, is_empty, go_on,
  scan_from_root,
}

-- What the secondary entries of a set say.
pub record EntrySet : Type 0 where
  pub stream_entry_seen : Bool
  pub name_length : ℕ
  pub start_cluster : ℕ
  pub data_length : ℕ
  pub name_units : List ℕ

abbrev pub no_entries : EntrySet
no_entries = record {
  stream_entry_seen = false;
  name_length = 0;
  start_cluster = 0;
  data_length = 0;
  name_units = [];
}

-- The loop over the code units of a name entry, by the units that are left.
unfoldable pub name_loop : ℕ → Bytes → ℕ → Scanned (List ℕ)
name_loop zero secondary offset = ok []
name_loop (suc left) secondary offset = read_le 2 secondary offset >>= λ code.
    if code == 0x0000
    then ok []
    else name_loop left secondary (offset + 2) >>= λ rest.
        ok (if code == 0xFFFF then rest else code ∷ rest)

-- `match secondary[0]`.
unfoldable pub read_secondary : Bytes → EntrySet → Scanned EntrySet
unfolding name_loop
read_secondary secondary s = byte_at secondary 0 >>= λ entry_type.
    if entry_type == 0x40 || entry_type == 0xC0
    then (byte_at secondary 3 >>= λ name_length. read_le 4 secondary 20 >>= λ start_cluster.
        read_le 8 secondary 24 >>= λ data_length. ok (record {
          stream_entry_seen = true;
          name_length = name_length;
          start_cluster = start_cluster;
          data_length = data_length;
          name_units = s.name_units;
        }))
    else if entry_type == 0x41 || entry_type == 0xC1
    then (name_loop 15 secondary 2 >>= λ units. ok (record {
      stream_entry_seen = s.stream_entry_seen;
      name_length = s.name_length;
      start_cluster = s.start_cluster;
      data_length = s.data_length;
      name_units = s.name_units ++ units;
    }))
    else ok s

-- The secondary entries from `index` on, by their number.
unfoldable pub secondary_loop : ℕ → ℕ → Bytes → ℕ → EntrySet → Scanned EntrySet
secondary_loop zero index directory_bytes offset s = ok s
secondary_loop (suc left) index directory_bytes offset s = do
  secondary_offset ←
      ok_or (checked_add offset ((index + 1) * 32)) (scan_overflow "exfat secondary entry offset")
  fail_if (ltb (length directory_bytes) (secondary_offset + 32)) directory_entry_truncated
  secondary ← or_panic (get_range directory_bytes secondary_offset (secondary_offset + 32))
  after ← read_secondary secondary s
  secondary_loop left (index + 1) directory_bytes offset after

-- `if name_length > 0 && name_units.len() > name_length { name_units.truncate(name_length) }`.
unfoldable pub truncate_name : EntrySet → List ℕ
truncate_name s =
    if ltb 0 s.name_length && ltb s.name_length (length s.name_units)
    then take s.name_length s.name_units
    else s.name_units

-- A set with a stream entry: a directory is queued, and a deleted entry is reported.
unfoldable pub report_set : ℕ → List ℕ → ℕ → Bool → EntrySet → ScanState → Flow
unfolding truncate_name
report_set max_entries directory_path attributes deleted found s =
    let name = sanitize_name (from_utf16_lossy none (truncate_name found)) in
    let path = join_candidate_path directory_path name in
    let is_directory = has_bit attributes 0x10 in
    let queued =
      queue_directory (is_directory && leb 2 found.start_cluster) (found.start_cluster, path) s in
    if not found.stream_entry_seen || is_empty name
    then next s
    else if deleted
    then push_entry max_entries
        (record {
          filesystem = ex_fat;
          name = name;
          path = path;
          is_directory = is_directory;
          start_cluster = found.start_cluster;
          size_bytes = found.data_length;
        })
        queued
    else next queued

-- The set that starts at `offset` and the offset behind it.
unfoldable pub scan_set : ℕ → List ℕ → Bytes → ℕ → Bool → Bytes → ScanState → Scanned (ℕ × Flow)
unfolding secondary_loop
scan_set max_entries directory_path directory_bytes offset deleted entry s = do
  secondary_count ← byte_at entry 1
  attributes ← read_le 2 entry 4
  found ← secondary_loop secondary_count 0 directory_bytes offset no_entries
  after ←
      ok_or (checked_add offset ((secondary_count + 1) * 32)) (scan_overflow "exfat entry advance")
  ok (after, report_set max_entries directory_path attributes deleted found s)

-- One round of the loop over the sets: the offset of the next one, and how to go on.
unfoldable pub scan_round : ℕ → List ℕ → Bytes → ℕ → ScanState → Scanned (ℕ × Flow)
scan_round max_entries directory_path directory_bytes offset s = do
  entry ← or_panic (get_range directory_bytes offset (offset + 32))
  entry_type ← byte_at entry 0
  (if entry_type == 0x00
      then ok (offset, stop s)
      else if not (entry_type == 0x05) && not (entry_type == 0x85)
      then (ok_or (checked_add offset 32) (scan_overflow "exfat entry step") >>= λ after.
          ok (after, next s))
      else scan_set max_entries directory_path directory_bytes offset (entry_type == 0x05) entry s)

-- `while offset + 32 <= directory_bytes.len()`, on fuel.
unfoldable pub sets_loop : ℕ → ℕ → List ℕ → Bytes → ℕ → ScanState → Scanned Flow
sets_loop zero max_entries directory_path directory_bytes offset s = stuck
sets_loop (suc fuel) max_entries directory_path directory_bytes offset s =
    if ltb (length directory_bytes) (offset + 32)
    then ok (next s)
    else scan_round max_entries directory_path directory_bytes offset s >>= λ (after, flow).
        go_on (λ found. sets_loop fuel max_entries directory_path directory_bytes after found) flow

-- A set takes 32 bytes or more.
unfoldable pub scan_exfat_directory :
    Bytes → FatBootSector → ℕ → ℕ → Directory → List Directory → List FatDeletedEntry → Scanned Flow
unfolding sets_loop
scan_exfat_directory image boot max_entries max_clusters (cluster, path) directories entries = do
  directory_bytes ← read_directory_bytes image boot cluster max_clusters
  sets_loop (1 + length directory_bytes) max_entries path directory_bytes 0
      (record { entries = entries; directories = directories; long_name_parts = [] })

unfoldable pub scan_exfat_deleted_entries :
    Bytes → FatBootSector → ℕ → ℕ → Scanned (List FatDeletedEntry)
unfolding scan_exfat_directory
scan_exfat_deleted_entries image boot max_entries max_directory_clusters =
    scan_from_root (2 + length image) boot
      (scan_exfat_directory image boot max_entries max_directory_clusters)
