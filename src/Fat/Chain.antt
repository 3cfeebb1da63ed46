-- ===== src/Fat/Chain.antt =====
-- Cluster chains: the FAT entry of a cluster, the chain from a cluster on and a cluster's bytes.
pub mod Total
pub mod Links
use file_recovery_engine.Prelude.{
  ℕ, zero, suc, ◌+◌, ◌*◌, ◌%◌, ◌||◌, ◌&&◌, Bool, List, [], ◌∷◌, ◌++◌,
}
use file_recovery_engine.Prelude.{ltb, leb, ◌==◌, if◌then◌else◌, length, contains}
use file_recovery_engine.Prelude.Outcome.{ok, err, fail_if, or_panic, ok_or, ◌>>=◌, ◌>>◌}
use file_recovery_engine.Prelude.Checked.{checked_add, checked_mul}
use file_recovery_engine.Prelude.Bytes.{Bytes, get_range}
use file_recovery_engine.Prelude.Readers.{read_le}
use file_recovery_engine.Fat.Types.{
  FatBootSector, Scanned, fat_offset_bytes, cluster_offset_bytes, cluster_size_bytes,
  invalid_cluster, scan_overflow, out_of_bounds, cluster_loop,
}

abbrev pub fat_chain_bad_cluster : ℕ
fat_chain_bad_cluster = 0x0FFFFFF7

abbrev pub fat_chain_eoc_min : ℕ
fat_chain_eoc_min = 0x0FFFFFF8

abbrev pub fat_chain_reserved_min : ℕ
fat_chain_reserved_min = 0x0FFFFFF0

unfoldable pub read_slice : Bytes → ℕ → ℕ → Scanned Bytes
read_slice image offset size = do
  end ← ok_or (checked_add offset size) (scan_overflow "slice bounds")
  fail_if (ltb (length image) end) (out_of_bounds offset size (length image))
  or_panic (get_range image offset end)

-- `usize::try_from` succeeds on every `u64`, since `usize` has 64 bits.
unfoldable pub read_fat_entry : Bytes → FatBootSector → ℕ → Scanned ℕ
read_fat_entry image boot cluster = do
  fat_offset ← ok_or (fat_offset_bytes boot) (scan_overflow "fat offset bytes")
  cluster_offset ← ok_or (checked_mul cluster 4) (scan_overflow "fat cluster offset")
  entry_offset ←
      ok_or (checked_add fat_offset cluster_offset) (scan_overflow "fat entry absolute offset")
  slice ← read_slice image entry_offset 4
  raw ← read_le 4 slice 0
  ok (raw % 0x10000000)

unfoldable pub read_cluster : Bytes → FatBootSector → ℕ → Scanned Bytes
read_cluster image boot cluster = do
  cluster_offset ← ok_or (cluster_offset_bytes boot cluster) (invalid_cluster cluster)
  read_slice image cluster_offset (cluster_size_bytes boot)

-- The two tests on the next cluster: the chain ends here, and the entry names no cluster.
unfoldable pub ends_chain : ℕ → Bool
ends_chain next = next == 0 || leb fat_chain_eoc_min next

unfoldable pub is_unusable : ℕ → Bool
is_unusable next =
    ltb next 2
    || next == fat_chain_bad_cluster
    || (leb fat_chain_reserved_min next && ltb next fat_chain_eoc_min)

-- The rounds that are left, the clusters seen and the current one. When no round is left, the
-- chain has not ended.
unfoldable pub chain_loop : Bytes → FatBootSector → ℕ → List ℕ → ℕ → Scanned (List ℕ)
chain_loop image boot zero seen current =
    err (scan_overflow "directory cluster chain exceeded traversal cap")
chain_loop image boot (suc rounds) seen current =
    if contains current seen
    then err (cluster_loop current)
    else read_fat_entry image boot current >>= λ next.
        if ends_chain next
        then ok (current ∷ [])
        else if is_unusable next
        then err (invalid_cluster next)
        else chain_loop image boot rounds (current ∷ seen) next >>= λ chain. ok (current ∷ chain)

unfoldable pub collect_cluster_chain : Bytes → FatBootSector → ℕ → ℕ → Scanned (List ℕ)
collect_cluster_chain image boot start_cluster max_clusters =
    if ltb start_cluster 2
    then err (invalid_cluster start_cluster)
    else if max_clusters == 0
    then ok []
    else chain_loop image boot max_clusters [] start_cluster

-- The clusters of a chain, one behind the other.
unfoldable pub read_clusters : Bytes → FatBootSector → List ℕ → Scanned Bytes
read_clusters image boot [] = ok []
read_clusters image boot (cluster ∷ chain) = do
  bytes ← read_cluster image boot cluster
  rest ← read_clusters image boot chain
  ok (bytes ++ rest)

unfoldable pub read_directory_bytes : Bytes → FatBootSector → ℕ → ℕ → Scanned Bytes
read_directory_bytes image boot directory_cluster max_directory_clusters = do
  chain ← collect_cluster_chain image boot directory_cluster max_directory_clusters
  read_clusters image boot chain
