-- ===== src/Fat/Scan/Fat32/Sound.antt =====
-- The FAT32 scan returns, and what it reports are deleted entries of directories of the volume.
use file_recovery_engine.Prelude.{
  ℕ, zero, suc, ◌+◌, ◌-◌, ◌*◌, ◌/◌, ◌≤◌, ◌<◌, ◌≡◌, refl, ap, ◌∙◌, arith, Bool, true, false, not,
  ◌||◌, ◌&&◌, List, [], ◌∷◌, inl, inr, some,
}
use file_recovery_engine.Prelude.{
  leb, le→leb, ◌==◌, length, contains, drop, Bool-cases, All, ==→≡, ==-refl,
}
use file_recovery_engine.Prelude.Outcome.{ok, Safe, Safe-ok, Safe-bind, Safe-weaken}
use file_recovery_engine.Prelude.Checked.{has_bit}
use file_recovery_engine.Prelude.Bytes.{Bytes, get_range, get_range-length}
use file_recovery_engine.Prelude.Readers.{read_le-Safe, byte_at, byte_at-Safe}
use file_recovery_engine.Prelude.Words.{drop-drop}
use file_recovery_engine.Fat.Types.{FatBootSector, FatDeletedEntry, ScanError}
use file_recovery_engine.Fat.Chain.{collect_cluster_chain, read_cluster}
use file_recovery_engine.Fat.Chain.Total.{read_cluster-Safe, collect_cluster_chain-Safe}
use file_recovery_engine.Fat.Names.Total.{join_candidate_path_lem}
use file_recovery_engine.Fat.Names.{sanitize_name, join_candidate_path, is_dot_entry}
use file_recovery_engine.Fat.Names.Total.{decode_lfn_part-Safe, decode_short_name-Safe}
use file_recovery_engine.Fat.Scan.Queue.{Directory, ScanState, Flow, is_empty}
use file_recovery_engine.Fat.Scan.Queue.Loop.{
  Kept, KeptFlow, Result, go_on-Safe, push_entry-Kept, queue_directory-Kept, scan_from_root-Safe,
}
use file_recovery_engine.Fat.Scan.Fat32.{
  chunks, chunks_exact, entry_name, keep_part, scan_named, clear_parts, scan_entry, scan_entries,
  scan_clusters, scan_fat32_directory, scan_fat32_deleted_entries,
}
use file_recovery_engine.Fat.Scan.Fat32.Reached.{Fields, Lies, Reached, root, child, IsReported}

-- The chunks are the slices of 32 bytes.
chunks-slices :
    (count : ℕ) (bytes : Bytes) (start : ℕ)
    → (start + count) * 32 ≤ length bytes
    → All
        (λ entry. (index : ℕ) × (get_range bytes (index * 32) (index * 32 + 32) ≡ some entry))
        (chunks count (drop (start * 32) bytes))
unfolding chunks get_range
chunks-slices zero bytes start h = tt
chunks-slices (suc count) bytes start h =
    let size : start * 32 + 32 - start * 32 ≡ 32 = omega arith in
    let onward : drop 32 (drop (start * 32) bytes) ≡ drop ((start + 1) * 32) bytes =
      drop-drop (start * 32) 32 bytes ∙ ap (λ k. drop k bytes) (omega arith) in
    (
      (
        start,
        rw
            (
              le→leb (start * 32) (start * 32 + 32) (omega arith),
              le→leb (start * 32 + 32) (length bytes) (omega arith),
              size,
            )
            refl,
      ),
      rw onward (chunks-slices count bytes (start + 1) (omega arith)),
    )

contained_behind :
    (y : ℕ) (ys xs : List ℕ)
    → All (λ x. contains x ys ≡ true) xs
    → All (λ x. contains x (y ∷ ys) ≡ true) xs
contained_behind y ys [] h = tt
contained_behind y ys (x ∷ xs) h = (ground (arith, h.0), contained_behind y ys xs h.1)

wanted_bit : (a b c : Bool) → (a && b && c) ≡ true → a ≡ true
wanted_bit a b c e = ground arith

All-contained : (xs : List ℕ) → All (λ x. contains x xs ≡ true) xs
All-contained [] = tt
All-contained (x ∷ xs) = (ground (arith, ==-refl x), contained_behind x xs xs (All-contained xs))

module _ (max_entries : ℕ) (image : Bytes) (boot : FatBootSector) (cap : ℕ) where
  abbrev Keeps : ScanState → Type 0
  Keeps s = Kept max_entries (Reached image boot cap) (IsReported image boot cap) s

  abbrev KeepsFlow : Flow → Type 0
  KeepsFlow flow = KeptFlow max_entries (Reached image boot cap) (IsReported image boot cap) flow

  module _ (first : ℕ) (path : List ℕ) (reached : Reached image boot cap (first, path))
      (entry : Bytes) (size : length entry ≡ 32) (lies : Lies image boot cap first entry) where
    scan_named-Safe :
        (attributes : ℕ) (deleted : Bool) (name : List ℕ) (s : ScanState)
        → byte_at {E = ScanError} entry 11 ≡ ok attributes
        → has_bit attributes 0x08 ≡ false
        → (deleted ≡ true → byte_at {E = ScanError} entry 0 ≡ ok 0xE5)
        → Keeps s
        → Safe KeepsFlow (scan_named max_entries path entry attributes deleted name s)
    unfolding scan_named
    scan_named-Safe attributes deleted name s at_attributes no_label marked h =
        Safe-bind _ _ (read_le-Safe 2 entry 20 (omega arith)) λ high at_high _.
          Safe-bind _ _ (read_le-Safe 2 entry 26 (omega arith)) λ low at_low _.
            let start : ℕ = high * 65536 + low in
            let fields : Fields entry attributes start = record {
              at_attributes = at_attributes;
              high = high;
              low = low;
              at_high = at_high;
              at_low = at_low;
              start_of = refl;
            } in
            let is_directory : Bool = has_bit attributes 0x10 in
            let wanted : Bool = is_directory && leb 2 start && not (is_dot_entry name) in
            let kept =
              queue_directory-Kept max_entries (Reached image boot cap) (IsReported image boot cap)
                wanted (start, join_candidate_path path name) s
                (λ e. rw (join_candidate_path_lem path name) (
                  child first path entry attributes start name reached lies fields
                    (wanted_bit is_directory (leb 2 start) (not (is_dot_entry name)) e)
                    (ground arith)))
                h in
            elim (Bool-cases deleted) [
              | inr present ↦ rw present (Safe-ok kept)
              | inl gone ↦ rw gone (
                  Safe-bind _ _ (read_le-Safe 4 entry 28 (omega arith)) λ bytes at_size _. Safe-ok (
                    push_entry-Kept max_entries (Reached image boot cap) (IsReported image boot cap)
                      _ _
                      (record {
                        first = first;
                        path = path;
                        reached = reached;
                        entry = entry;
                        lies = lies;
                        deleted = marked gone;
                        attributes = attributes;
                        fields = fields;
                        no_label = no_label;
                        directory = refl;
                        size = at_size;
                        path_of = join_candidate_path_lem path name;
                        kind = refl;
                      })
                      kept))
            ]

    keep_part-Keeps : (part : List ℕ) (s : ScanState) → Keeps s → Keeps (keep_part part s)
    unfolding keep_part
    keep_part-Keeps [] s h = h
    keep_part-Keeps (c ∷ part) s h = h

    entry_name-Safe : (parts : List (List ℕ)) → Safe (λ _. Unit {0}) (entry_name entry parts)
    unfolding entry_name
    entry_name-Safe [] = decode_short_name-Safe entry size
    entry_name-Safe (part ∷ parts) = Safe-ok tt

    scan_entry-Safe :
        (s : ScanState) → Keeps s → Safe KeepsFlow (scan_entry max_entries path entry s)
    unfolding scan_entry clear_parts
    scan_entry-Safe s h = Safe-bind _ _ (byte_at-Safe entry 0 (omega arith)) λ head at_head _.
        elim (Bool-cases (head == 0x00)) [
          | inl last ↦ rw last (Safe-ok h)
          | inr used ↦ rw used (
              Safe-bind _ _ (byte_at-Safe entry 11 (omega arith)) λ attributes at_attributes _.
                elim (Bool-cases (attributes == 0x0F)) [
                  | inl long_name ↦ rw long_name (
                      Safe-bind _ _ (decode_lfn_part-Safe entry size)
                        λ part _ _. Safe-ok (keep_part-Keeps part s h))
                  | inr short_name ↦ rw short_name (
                      Safe-bind _ _ (entry_name-Safe s.long_name_parts) λ raw_name _ _.
                        elim (Bool-cases
                          (has_bit attributes 0x08 || is_empty (sanitize_name raw_name))) [
                            | inl skipped ↦ rw skipped (Safe-ok h)
                            | inr named ↦ rw named (
                                scan_named-Safe attributes (head == 0xE5) (sanitize_name raw_name) _
                                  at_attributes (ground arith)
                                  (λ e. at_head ∙ ap ok (==→≡ head 0xE5 e)) h)
                          ])
                ])
        ]

  module _ (first : ℕ) (path : List ℕ) (reached : Reached image boot cap (first, path)) where
    chunks_lie :
        (chain : List ℕ) (cluster : ℕ) (bytes : Bytes)
        → collect_cluster_chain image boot first cap ≡ ok chain
        → contains cluster chain ≡ true
        → read_cluster image boot cluster ≡ ok bytes
        → (entries : List Bytes)
        → All
            (λ entry. (index : ℕ) × (get_range bytes (index * 32) (index * 32 + 32) ≡ some entry))
            entries
        → All (λ entry. (length entry ≡ 32) × Lies image boot cap first entry) entries
    chunks_lie chain cluster bytes e h read [] k = tt
    chunks_lie chain cluster bytes e h read (entry ∷ entries) ((index, slot), k) = (
      (
        get_range-length bytes (index * 32) 32 entry slot,
        record {
          chain = chain;
          collected = e;
          cluster = cluster;
          in_chain = h;
          bytes = bytes;
          cluster_read = read;
          index = index;
          slot = slot;
        },
      ),
      chunks_lie chain cluster bytes e h read entries k,
    )

    scan_entries-Safe :
        (entries : List Bytes) (s : ScanState)
        → All (λ entry. (length entry ≡ 32) × Lies image boot cap first entry) entries
        → Keeps s
        → Safe KeepsFlow (scan_entries max_entries path entries s)
    unfolding scan_entries
    scan_entries-Safe [] s h k = Safe-ok k
    scan_entries-Safe (entry ∷ entries) s h k =
        Safe-bind _ _ (scan_entry-Safe first path reached entry h.0.0 h.0.1 s k) λ flow _ kept.
          go_on-Safe max_entries (Reached image boot cap) (IsReported image boot cap) _ flow
            (λ after g. scan_entries-Safe entries after h.1 g) kept

    scan_clusters-Safe :
        (chain rest : List ℕ) (s : ScanState)
        → collect_cluster_chain image boot first cap ≡ ok chain
        → All (λ cluster. contains cluster chain ≡ true) rest
        → Keeps s
        → Safe KeepsFlow (scan_clusters image boot max_entries path rest s)
    unfolding scan_clusters
    scan_clusters-Safe chain [] s e h k = Safe-ok k
    scan_clusters-Safe chain (cluster ∷ rest) s e h k =
        Safe-bind _ _ (read_cluster-Safe image boot cluster) λ bytes read _.
          Safe-bind _ _
            (scan_entries-Safe (chunks_exact bytes) s
              (chunks_lie chain cluster bytes e h.0 read _
                (chunks-slices (length bytes / 32) bytes 0 (omega arith)))
              k)
            λ flow _ kept.
              go_on-Safe max_entries (Reached image boot cap) (IsReported image boot cap) _ flow
                (λ after g. scan_clusters-Safe chain rest after e h.1 g) kept

  scan_fat32_directory-Safe :
      0 < cap
      → (directory : Directory) (directories : List Directory) (entries : List FatDeletedEntry)
      → Reached image boot cap directory
      → Keeps (record { entries = entries; directories = directories; long_name_parts = [] })
      → Safe
          (λ flow. (directory.0 < length image) × KeepsFlow flow)
          (scan_fat32_directory image boot max_entries cap directory directories entries)
  unfolding scan_fat32_directory
  scan_fat32_directory-Safe some_cluster (first, path) directories entries reached h =
      Safe-bind _ _ (collect_cluster_chain-Safe image boot first cap some_cluster) λ chain e inside.
        Safe-weaken _
          (scan_clusters-Safe first path reached chain chain _ e (All-contained chain) h)
          λ flow g. (inside, g)

-- With caps that are not zero, the scan of a FAT32 volume returns on every image, and its loop over
-- the directories ends. It reports at most as many entries as asked for. Each is a deleted entry
-- of 32 bytes in a cluster of a directory's chain, where a directory is the root or one that an
-- entry of such a directory names; its first cluster, size, directory mark and path are those of
-- that entry, and the entry is no volume label.
pub scan_fat32_deleted_entries-Safe :
    (image : Bytes) (boot : FatBootSector) (max_entries cap : ℕ)
    → 0 < max_entries
    → 0 < cap
    → Safe
        (Result max_entries (Reached image boot cap) (IsReported image boot cap))
        (scan_fat32_deleted_entries image boot max_entries cap)
unfolding scan_fat32_deleted_entries
scan_fat32_deleted_entries-Safe image boot max_entries cap some_entry some_cluster =
    scan_from_root-Safe max_entries (Reached image boot cap) (IsReported image boot cap)
      (length image) (scan_fat32_directory image boot max_entries cap)
      (scan_fat32_directory-Safe max_entries image boot cap some_cluster) (2 + length image) boot
      root some_entry (omega arith)
