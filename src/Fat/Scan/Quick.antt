-- ===== src/Fat/Scan/Quick.antt =====
-- The quick scan: the boot sector, and then the directories with at most 256 clusters each.
use file_recovery_engine.Prelude.{ℕ, ◌≤◌, ◌<◌, arith, List, inl, inr, ◌==◌, length, All, Bool-cases}
use file_recovery_engine.Prelude.Outcome.{ok, err, panic, stuck, Safe, Safe-ok, Safe-err, Safe-bind}
use file_recovery_engine.Prelude.Bytes.{Bytes}
use file_recovery_engine.Fat.Types.{
  FatBootSector, FatFilesystemKind, fat32, ex_fat, FatDeletedEntry, Parsed,
}
use file_recovery_engine.Fat.Boot.Valid.{IsValid, parse_boot_sector-Safe}
use file_recovery_engine.Fat.Scan.Fat32.{scan_fat32_deleted_entries}
use file_recovery_engine.Fat.Scan.Fat32.Reached.{IsReported}
use file_recovery_engine.Fat.Scan.Fat32.Sound.{scan_fat32_deleted_entries-Safe}
use file_recovery_engine.Fat.Scan.ExFat.{scan_exfat_deleted_entries}
use file_recovery_engine.Fat.Scan.ExFat.Sound.{scan_exfat_deleted_entries-Safe}
use file_recovery_engine.Fat.Scan.ExFat.Reached.{IsDeletedSet}
use file_recovery_engine.Fat.Scan.{
  from_boot, scan_deleted_entries_with_boot, quick_scan_deleted_root_entries,
}

-- What an entry stems from, by the kind of the volume.
abbrev pub IsFound : FatFilesystemKind → Bytes → FatBootSector → ℕ → FatDeletedEntry → Type 0
IsFound fat32 image volume cap e = IsReported image volume cap e
IsFound ex_fat image volume cap e = IsDeletedSet image volume cap e

abbrev pub Found : Bytes → FatBootSector → ℕ → ℕ → List FatDeletedEntry → Type 0
Found image volume cap max_entries entries =
    All (λ e. IsFound volume.filesystem image volume cap e) entries × (length entries ≤ max_entries)

from_boot-Safe : (m : Parsed FatBootSector) → Safe IsValid m → Safe IsValid (from_boot m)
from_boot-Safe (ok volume) h = Safe-ok h.holds
from_boot-Safe (err e) h = Safe-err
from_boot-Safe panic h = absurd h.holds
from_boot-Safe stuck h = absurd h.holds

by_kind :
    (image : Bytes) (volume : FatBootSector) (kind : FatFilesystemKind) (max_entries cap : ℕ)
    → 0 < max_entries
    → 0 < cap
    → Safe
        (λ entries.
          All (λ e. IsFound kind image volume cap e) entries × (length entries ≤ max_entries))
        (elim kind [
          | fat32 ↦ scan_fat32_deleted_entries image volume max_entries cap
          | ex_fat ↦ scan_exfat_deleted_entries image volume max_entries cap
        ])
by_kind image volume fat32 max_entries cap h k =
    scan_fat32_deleted_entries-Safe image volume max_entries cap h k
by_kind image volume ex_fat max_entries cap h k =
    scan_exfat_deleted_entries-Safe image volume max_entries cap h k

pub scan_deleted_entries_with_boot-Safe :
    (image : Bytes) (volume : FatBootSector) (max_entries cap : ℕ)
    → 0 < cap
    → Safe
        (Found image volume cap max_entries)
        (scan_deleted_entries_with_boot image volume max_entries cap)
unfolding scan_deleted_entries_with_boot
scan_deleted_entries_with_boot-Safe image volume max_entries cap some_cluster =
    elim (Bool-cases (max_entries == 0)) [
      | inl no_entry ↦ rw no_entry (Safe-ok (tt, omega arith))
      | inr some_entry ↦
          rw some_entry
            (by_kind image volume volume.filesystem max_entries cap (ground arith) some_cluster)
    ]

-- On every image and for every number of entries the quick scan returns: with an error, or with a
-- boot sector and a list of entries. Then the boot sector is valid and there are at most as many
-- entries as asked for. Each stands in a directory that the root leads to, and its path is its name
-- in that directory. On FAT32 it is a deleted entry of a cluster of the directory's chain, with that
-- entry's first cluster, size and directory mark. On exFAT it is a set with the mark of a deleted
-- file, with that set's directory mark and the first cluster and size of its last stream entry.
pub quick_scan_deleted_root_entries-Safe :
    (image : Bytes) (max_entries : ℕ)
    → Safe
        (λ r. IsValid r.0 × Found image r.0 256 max_entries r.1)
        (quick_scan_deleted_root_entries image max_entries)
unfolding quick_scan_deleted_root_entries
quick_scan_deleted_root_entries-Safe image max_entries =
    Safe-bind _ _ (from_boot-Safe _ (parse_boot_sector-Safe image)) λ volume _ valid.
      Safe-bind _ _ (scan_deleted_entries_with_boot-Safe image volume max_entries 256 (omega arith))
        λ entries _ found. Safe-ok (valid, found)
