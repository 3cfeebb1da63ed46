-- ===== src/Fat/Scan/ExFat/Sound.antt =====
-- The exFAT scan returns, and what it reports are deleted sets of a directory.
use file_recovery_engine.Prelude.{
  ℕ, zero, suc, ◌+◌, ◌*◌, ◌≤◌, ◌<◌, ◌≡◌, refl, ◌⊎◌, arith, Bool, true, false, not, ◌||◌, ◌&&◌, List,
  [], inl, inr, some, none,
}
use file_recovery_engine.Prelude.{leb, ltb, ◌==◌, length, Bool-cases, ==→≡}
use file_recovery_engine.Prelude.Outcome.{ok, Safe, Safe-ok, Safe-bind, Safe-weaken, Safe-ok_or}
use file_recovery_engine.Prelude.Checked.{checked_add, checked_add-some, has_bit}
use file_recovery_engine.Prelude.Text.{from_utf16_lossy}
use file_recovery_engine.Prelude.Bytes.{Bytes, get_range, get_range_total, get_range-length}
use file_recovery_engine.Prelude.Readers.{read_le-Safe, byte_at, byte_at-Safe}
use file_recovery_engine.Fat.Types.{FatBootSector, FatDeletedEntry, Scanned, ScanError}
use file_recovery_engine.Fat.Chain.{read_directory_bytes}
use file_recovery_engine.Fat.Chain.Total.{read_directory_bytes-Safe}
use file_recovery_engine.Fat.Names.Total.{join_candidate_path_lem}
use file_recovery_engine.Fat.Names.{sanitize_name, join_candidate_path}
use file_recovery_engine.Fat.Scan.Queue.{
  Directory, ScanState, Flow, next, stop, full, is_empty, go_on,
}
use file_recovery_engine.Fat.Scan.Queue.Loop.{
  Kept, KeptFlow, Result, push_entry-Kept, queue_directory-Kept, scan_from_root-Safe,
}
use file_recovery_engine.Fat.Scan.ExFat.Reached.{Reached, root, child, FileSet, IsDeletedSet}
use file_recovery_engine.Fat.Scan.ExFat.Set.{secondary_loop-Safe, Told-LastStream}
use file_recovery_engine.Fat.Scan.ExFat.{
  EntrySet, no_entries, truncate_name, report_set, scan_set, scan_round, sets_loop,
  scan_exfat_directory, scan_exfat_deleted_entries,
}

file_mark :
    (mark : ℕ) → (not (mark == 0x05) && not (mark == 0x85)) ≡ false → (mark ≡ 0x05) ⊎ (mark ≡ 0x85)
file_mark mark h = elim (Bool-cases (mark == 0x05)) [
  | inl gone ↦ inl (==→≡ mark 0x05 gone)
  | inr other ↦ inr (==→≡ mark 0x85 (ground arith))
]

module _ (max_entries : ℕ) (image : Bytes) (boot : FatBootSector) (cap : ℕ) where
  abbrev Waits : Directory → Type 0
  Waits directory = Reached image boot cap directory

  abbrev Keeps : ScanState → Type 0
  Keeps s = Kept max_entries Waits (IsDeletedSet image boot cap) s

  abbrev KeepsFlow : Flow → Type 0
  KeepsFlow flow = KeptFlow max_entries Waits (IsDeletedSet image boot cap) flow

  module _ (first : ℕ) (bytes : Bytes)
      (directory_read : read_directory_bytes image boot first cap ≡ ok bytes) (path : List ℕ)
      (reached : Reached image boot cap (first, path)) where
    report_set-Keeps :
        (offset mark attributes : ℕ) (deleted : Bool) (found : EntrySet) (s : ScanState)
        → (mark ≡ 0x05) ⊎ (mark ≡ 0x85)
        → (deleted ≡ true → mark ≡ 0x05)
        → (found.stream_entry_seen ≡ true
            → FileSet image boot cap first mark attributes found.start_cluster found.data_length)
        → Keeps s
        → KeepsFlow (report_set max_entries path attributes deleted found s)
    unfolding report_set
    report_set-Keeps offset mark attributes deleted found s file marked told h =
        let name : List ℕ = sanitize_name (from_utf16_lossy none (truncate_name found)) in
        elim (Bool-cases (not found.stream_entry_seen || is_empty name)) [
          | inl skipped ↦ rw skipped h
          | inr reported ↦
              let set = told (ground arith) in
              let kept =
                queue_directory-Kept max_entries Waits (IsDeletedSet image boot cap)
                  (has_bit attributes 0x10 && leb 2 found.start_cluster)
                  (found.start_cluster, join_candidate_path path name) s
                  (λ e. rw (join_candidate_path_lem path name) (
                    child first path mark attributes found.start_cluster found.data_length name
                      reached set file (ground arith) (ground arith)))
                  h in
              elim (Bool-cases deleted) [
                | inr present ↦ rw (reported, present) kept
                | inl gone ↦
                    rw (reported, gone)
                      (push_entry-Kept max_entries Waits (IsDeletedSet image boot cap) _ _
                        (record {
                          first = first;
                          path = path;
                          reached = reached;
                          attributes = attributes;
                          set = rw (marked gone) at set;
                          directory = refl;
                          path_of = join_candidate_path_lem path name;
                          named = ground arith;
                          kind = refl;
                        })
                        kept)
              ]
        ]

    -- A round goes on behind the entry.
    abbrev Onward : ℕ → ℕ × Flow → Type 0
    Onward offset (after, next s) = (offset + 32 ≤ after) × Keeps s
    Onward offset (after, stop s) = Keeps s
    Onward offset (after, full entries) = KeepsFlow (full entries)

    Onward-of :
        (offset after : ℕ) (flow : Flow)
        → offset + 32 ≤ after
        → KeepsFlow flow
        → Onward offset (after, flow)
    Onward-of offset after (next s) h k = (h, k)
    Onward-of offset after (stop s) h k = k
    Onward-of offset after (full entries) h k = k

    scan_set-Safe :
        (offset mark : ℕ) (entry : Bytes) (deleted : Bool) (s : ScanState)
        → get_range bytes offset (offset + 32) ≡ some entry
        → byte_at {E = ScanError} entry 0 ≡ ok mark
        → (mark ≡ 0x05) ⊎ (mark ≡ 0x85)
        → (deleted ≡ true → mark ≡ 0x05)
        → Keeps s
        → Safe (Onward offset) (scan_set max_entries path bytes offset deleted entry s)
    unfolding scan_set
    scan_set-Safe offset mark entry deleted s slot at_mark file marked h =
        let size : length entry ≡ 32 = get_range-length bytes offset 32 entry slot in
        Safe-bind _ _ (byte_at-Safe entry 1 (omega arith)) λ count at_count _.
          Safe-bind _ _ (read_le-Safe 2 entry 4 (omega arith)) λ attributes at_attributes _.
            Safe-bind _ _ (secondary_loop-Safe bytes offset count 0 no_entries) λ found _ told.
              Safe-bind _ _
                (Safe-ok_or {P = λ after. after ≡ offset + (count + 1) * 32}
                  (checked_add offset ((count + 1) * 32)) _
                  λ after e. (checked_add-some offset ((count + 1) * 32) e).0)
                λ after _ sum. Safe-ok (
                  Onward-of offset after _ (omega arith) (
                    report_set-Keeps offset mark attributes deleted found s file marked
                      (λ seen. record {
                        bytes = bytes;
                        directory_read = directory_read;
                        offset = offset;
                        entry = entry;
                        slot = slot;
                        at_mark = at_mark;
                        count = count;
                        at_count = at_count;
                        at_attributes = at_attributes;
                        stream = Told-LastStream bytes offset count no_entries found refl seen told;
                      })
                      h))

    scan_round-Safe :
        (offset : ℕ) (s : ScanState)
        → offset + 32 ≤ length bytes
        → Keeps s
        → Safe (Onward offset) (scan_round max_entries path bytes offset s)
    unfolding scan_round
    scan_round-Safe offset s inside h =
        let (entry, slot, size) = get_range_total bytes offset (offset + 32) (omega arith) inside in
        rw slot (
          Safe-bind _ _ (byte_at-Safe entry 0 (omega arith)) λ entry_type at_type _.
            elim (Bool-cases (entry_type == 0x00)) [
              | inl last ↦ rw last (Safe-ok h)
              | inr used ↦
                  elim (Bool-cases (not (entry_type == 0x05) && not (entry_type == 0x85))) [
                    | inl other ↦
                        rw (used, other)
                          (Safe-bind _ _
                            (Safe-ok_or {P = λ after. after ≡ offset + 32} (checked_add offset 32) _
                              λ after e. (checked_add-some offset 32 e).0)
                            λ after _ sum. Safe-ok (omega arith, h))
                    | inr file ↦
                        rw (used, file)
                          (scan_set-Safe offset entry_type entry (entry_type == 0x05) s slot at_type
                            (file_mark entry_type file) (λ e. ==→≡ entry_type 0x05 e) h)
                  ]
            ])

    after_round-Safe :
        (rest : ℕ → ScanState → Scanned Flow) (offset : ℕ) (r : ℕ × Flow)
        → ((after : ℕ) (s : ScanState)
            → offset + 32 ≤ after
            → Keeps s
            → Safe KeepsFlow (rest after s))
        → Onward offset r
        → Safe KeepsFlow (go_on (rest r.0) r.1)
    after_round-Safe rest offset (after, next s) k (h, g) = k after s h g
    after_round-Safe rest offset (after, stop s) k h = Safe-ok h
    after_round-Safe rest offset (after, full entries) k h = Safe-ok h

    sets_loop-Safe :
        (fuel offset : ℕ) (s : ScanState)
        → length bytes < fuel + offset
        → 0 < fuel
        → Keeps s
        → Safe KeepsFlow (sets_loop fuel max_entries path bytes offset s)
    unfolding sets_loop
    sets_loop-Safe zero offset s h some_fuel k = absurd (omega arith)
    sets_loop-Safe (suc fuel) offset s h some_fuel k =
        elim (Bool-cases (ltb (length bytes) (offset + 32))) [
          | inl done ↦ rw done (Safe-ok k)
          | inr more ↦ rw more (
              Safe-bind _ _ (scan_round-Safe offset s (ground arith) k) λ r _ onward.
                after_round-Safe (λ after found. sets_loop fuel max_entries path bytes after found)
                  offset r
                  (λ after found far g.
                    sets_loop-Safe fuel after found (ground arith) (ground arith) g)
                  onward)
        ]

  scan_exfat_directory-Safe :
      0 < cap
      → (directory : Directory) (directories : List Directory) (entries : List FatDeletedEntry)
      → Reached image boot cap directory
      → Keeps (record { entries = entries; directories = directories; long_name_parts = [] })
      → Safe
          (λ flow. (directory.0 < length image) × KeepsFlow flow)
          (scan_exfat_directory image boot max_entries cap directory directories entries)
  unfolding scan_exfat_directory
  scan_exfat_directory-Safe some_cluster (first, path) directories entries reached h =
      Safe-bind _ _ (read_directory_bytes-Safe image boot first cap some_cluster) λ bytes e inside.
        Safe-weaken _
          (sets_loop-Safe first bytes e path reached (1 + length bytes) 0 _ (omega arith)
            (omega arith) h)
          λ flow g. (inside, g)

-- With caps that are not zero, the scan of an exFAT volume returns on every image, and its loops
-- end. It reports at most as many entries as asked for. Each has a name and is a set, marked as that
-- of a deleted file, of a directory that the root leads to; its first cluster and size are those of
-- the last stream entry of the set, and its directory mark and path are those of the set.
pub scan_exfat_deleted_entries-Safe :
    (image : Bytes) (boot : FatBootSector) (max_entries cap : ℕ)
    → 0 < max_entries
    → 0 < cap
    → Safe
        (Result max_entries (Reached image boot cap) (IsDeletedSet image boot cap))
        (scan_exfat_deleted_entries image boot max_entries cap)
unfolding scan_exfat_deleted_entries
scan_exfat_deleted_entries-Safe image boot max_entries cap some_entry some_cluster =
    scan_from_root-Safe max_entries (Reached image boot cap) (IsDeletedSet image boot cap)
      (length image) (scan_exfat_directory image boot max_entries cap)
      (scan_exfat_directory-Safe max_entries image boot cap some_cluster) (2 + length image) boot
      root some_entry (omega arith)
