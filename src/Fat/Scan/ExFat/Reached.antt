-- ===== src/Fat/Scan/ExFat/Reached.antt =====
-- The directories of an exFAT volume and the sets of entries in them, as relations: what a scan may
-- report.
use file_recovery_engine.Prelude.{
  ℕ, zero, suc, ◌+◌, ◌*◌, ◌≤◌, ◌≡◌, ◌≢◌, ◌⊎◌, true, false, List, [], ◌∷◌, ◌++◌, some,
}
use file_recovery_engine.Prelude.Outcome.{ok}
use file_recovery_engine.Prelude.Checked.{has_bit}
use file_recovery_engine.Prelude.Bytes.{Bytes, get_range}
use file_recovery_engine.Prelude.Readers.{read_le, byte_at}
use file_recovery_engine.Fat.Types.{FatBootSector, FatDeletedEntry, ex_fat, ScanError}
use file_recovery_engine.Fat.Chain.{read_directory_bytes}
use file_recovery_engine.Fat.Scan.Queue.{Directory, is_empty}

-- A stream entry, in use or not, with the first cluster and the size that it gives.
pub record IsStream (secondary : Bytes) (start size : ℕ) : Type 0 where
  pub marked :
      (byte_at {E = ScanError} secondary 0 ≡ ok 0x40)
      ⊎ (byte_at {E = ScanError} secondary 0 ≡ ok 0xC0)
  pub at_start : read_le {E = ScanError} 4 secondary 20 ≡ ok start
  pub at_size : read_le {E = ScanError} 8 secondary 24 ≡ ok size

pub record IsNoStream (secondary : Bytes) : Type 0 where
  pub mark : ℕ
  pub at_mark : byte_at {E = ScanError} secondary 0 ≡ ok mark
  pub not_used : mark ≢ 0x40
  pub used : mark ≢ 0xC0

-- The secondary entry of this index in the set that starts at `offset`.
abbrev pub Secondary : Bytes → ℕ → ℕ → Bytes → Type 0
Secondary bytes offset index secondary =
    get_range bytes (offset + (index + 1) * 32) (offset + (index + 1) * 32 + 32) ≡ some secondary

-- None of so many secondary entries from an index on is a stream entry.
abbrev pub NoStreams : Bytes → ℕ → ℕ → ℕ → Type 0
NoStreams bytes offset index zero = Unit {0}
NoStreams bytes offset index (suc left) =
    ((secondary : Bytes) × Secondary bytes offset index secondary × IsNoStream secondary)
    × NoStreams bytes offset (index + 1) left

-- The last stream entry among the secondary entries before `count`.
pub record LastStream (bytes : Bytes) (offset count start size : ℕ) : Type 0 where
  pub index : ℕ
  pub later : ℕ
  pub counted : index + 1 + later ≡ count
  pub secondary : Bytes
  pub slot : Secondary bytes offset index secondary
  pub stream : IsStream secondary start size
  pub last : NoStreams bytes offset (index + 1) later

module _ (image : Bytes) (boot : FatBootSector) (cap : ℕ) where
  -- A set of the directory that starts at the cluster `first`: its mark, its attributes, and the
  -- first cluster and the size of its last stream entry.
  pub record FileSet (first mark attributes start size : ℕ) : Type 0 where
    pub bytes : Bytes
    pub directory_read : read_directory_bytes image boot first cap ≡ ok bytes
    pub offset : ℕ
    pub entry : Bytes
    pub slot : get_range bytes offset (offset + 32) ≡ some entry
    pub at_mark : byte_at {E = ScanError} entry 0 ≡ ok mark
    pub count : ℕ
    pub at_count : byte_at {E = ScanError} entry 1 ≡ ok count
    pub at_attributes : read_le {E = ScanError} 2 entry 4 ≡ ok attributes
    pub stream : LastStream bytes offset count start size

  -- A directory is the root, or a set of a directory, deleted or not, that is marked as one.
  pub data Reached : Directory → Type 0 where
    root : Reached (boot.root_dir_first_cluster, 46 ∷ [])
    child :
        (first : ℕ) (path : List ℕ) (mark attributes start size : ℕ) (name : List ℕ)
        → Reached (first, path)
        → FileSet first mark attributes start size
        → (mark ≡ 0x05) ⊎ (mark ≡ 0x85)
        → has_bit attributes 0x10 ≡ true
        → 2 ≤ start
        → Reached (start, path ++ 92 ∷ name)

  -- A reported entry is a deleted set of a directory that is reached.
  pub record IsDeletedSet (e : FatDeletedEntry) : Type 0 where
    pub first : ℕ
    pub path : List ℕ
    pub reached : Reached (first, path)
    pub attributes : ℕ
    pub set : FileSet first 0x05 attributes e.start_cluster e.size_bytes
    pub directory : e.is_directory ≡ has_bit attributes 0x10
    pub path_of : e.path ≡ path ++ 92 ∷ e.name
    pub named : is_empty e.name ≡ false
    pub kind : e.filesystem ≡ ex_fat
