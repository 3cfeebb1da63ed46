-- ===== src/Fat/Scan.antt =====
-- The scan of a volume for deleted directory entries.
pub mod Queue
pub mod Quick
pub mod Fat32
pub mod ExFat
use file_recovery_engine.Prelude.{ℕ, List, []}
use file_recovery_engine.Prelude.{◌==◌, if◌then◌else◌}
use file_recovery_engine.Prelude.Outcome.{Outcome, ok, err, panic, stuck, ◌>>=◌}
use file_recovery_engine.Prelude.Bytes.{Bytes}
use file_recovery_engine.Fat.Types.{
  FatBootSector, FatFilesystemKind, fat32, ex_fat, FatDeletedEntry, Scanned, ScanError, Parsed,
  boot,
}
use file_recovery_engine.Fat.Boot.{parse_boot_sector}
use file_recovery_engine.Fat.Scan.Fat32.{scan_fat32_deleted_entries}
use file_recovery_engine.Fat.Scan.ExFat.{scan_exfat_deleted_entries}

unfoldable pub scan_deleted_entries_with_boot :
    Bytes → FatBootSector → ℕ → ℕ → Scanned (List FatDeletedEntry)
scan_deleted_entries_with_boot image volume max_entries max_directory_clusters =
    if max_entries == 0 then ok [] else elim volume.filesystem [
      | fat32 ↦ scan_fat32_deleted_entries image volume max_entries max_directory_clusters
      | ex_fat ↦ scan_exfat_deleted_entries image volume max_entries max_directory_clusters
    ]

unfoldable pub scan_deleted_root_entries_with_boot :
    Bytes → FatBootSector → ℕ → ℕ → Scanned (List FatDeletedEntry)
scan_deleted_root_entries_with_boot image volume max_entries max_directory_clusters =
    scan_deleted_entries_with_boot image volume max_entries max_directory_clusters

-- `?` wraps an error of the boot sector parser.
abbrev from_boot {ℓ} : {A : Type ℓ} → Parsed A → Scanned A
from_boot (ok a) = ok a
from_boot (err e) = err (boot e)
from_boot panic = panic
from_boot stuck = stuck

unfoldable pub quick_scan_deleted_root_entries :
    Bytes → ℕ → Scanned (FatBootSector × List FatDeletedEntry)
quick_scan_deleted_root_entries image max_entries = do
  volume ← from_boot (parse_boot_sector image)
  entries ← scan_deleted_entries_with_boot image volume max_entries 256
  ok (volume, entries)
