-- ===== src/Fat/Scan/Fat32/Reached.antt =====
-- The directories of a FAT32 volume and their entries, as relations: what a scan may report.
use file_recovery_engine.Prelude.{
  ℕ, ◌+◌, ◌*◌, ◌≤◌, ◌≡◌, true, false, List, [], ◌∷◌, ◌++◌, contains, some,
}
use file_recovery_engine.Prelude.Outcome.{ok}
use file_recovery_engine.Prelude.Checked.{has_bit}
use file_recovery_engine.Prelude.Bytes.{Bytes, get_range}
use file_recovery_engine.Prelude.Readers.{read_le, byte_at}
use file_recovery_engine.Fat.Types.{FatBootSector, FatDeletedEntry, fat32, ScanError}
use file_recovery_engine.Fat.Chain.{collect_cluster_chain, read_cluster}
use file_recovery_engine.Fat.Scan.Queue.{Directory}

-- The fields of an entry that a scan reports.
pub record Fields (entry : Bytes) (attributes start : ℕ) : Type 0 where
  pub at_attributes : byte_at {E = ScanError} entry 11 ≡ ok attributes
  pub high : ℕ
  pub low : ℕ
  pub at_high : read_le {E = ScanError} 2 entry 20 ≡ ok high
  pub at_low : read_le {E = ScanError} 2 entry 26 ≡ ok low
  pub start_of : start ≡ high * 65536 + low

module _ (image : Bytes) (boot : FatBootSector) (cap : ℕ) where
  -- The 32 bytes at `index` of a cluster of the chain that starts at `first`.
  pub record Lies (first : ℕ) (entry : Bytes) : Type 0 where
    pub chain : List ℕ
    pub collected : collect_cluster_chain image boot first cap ≡ ok chain
    pub cluster : ℕ
    pub in_chain : contains cluster chain ≡ true
    pub bytes : Bytes
    pub cluster_read : read_cluster image boot cluster ≡ ok bytes
    pub index : ℕ
    pub slot : get_range bytes (index * 32) (index * 32 + 32) ≡ some entry

  -- A directory is the root, or an entry of a directory that is marked as one.
  pub data Reached : Directory → Type 0 where
    root : Reached (boot.root_dir_first_cluster, 46 ∷ [])
    child :
        (first : ℕ) (path : List ℕ) (entry : Bytes) (attributes start : ℕ) (name : List ℕ)
        → Reached (first, path)
        → Lies first entry
        → Fields entry attributes start
        → has_bit attributes 0x10 ≡ true
        → 2 ≤ start
        → Reached (start, path ++ 92 ∷ name)

  -- A reported entry is a deleted entry of a directory that is reached.
  pub record IsReported (e : FatDeletedEntry) : Type 0 where
    pub first : ℕ
    pub path : List ℕ
    pub reached : Reached (first, path)
    pub entry : Bytes
    pub lies : Lies first entry
    pub deleted : byte_at {E = ScanError} entry 0 ≡ ok 0xE5
    pub attributes : ℕ
    pub fields : Fields entry attributes e.start_cluster
    pub no_label : has_bit attributes 0x08 ≡ false
    pub directory : e.is_directory ≡ has_bit attributes 0x10
    pub size : read_le {E = ScanError} 4 entry 28 ≡ ok e.size_bytes
    pub path_of : e.path ≡ path ++ 92 ∷ e.name
    pub kind : e.filesystem ≡ fat32
