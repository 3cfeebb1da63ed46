-- ===== src/Fat/Chain/Total.antt =====
-- Reads of the image and chains, on arbitrary bytes.
use file_recovery_engine.Prelude.{
  ℕ, zero, suc, ◌+◌, ◌*◌, ◌≤◌, ◌<◌, ◌≡◌, arith, false, List, [], ◌∷◌, inl, inr, ltb, ◌==◌, length,
  contains, Bool-cases,
}
use file_recovery_engine.Prelude.Outcome.{
  Safe, Safe-ok, Safe-err, Safe-bind, Safe-fail_if, Safe-ok_or, Safe-weaken,
}
use file_recovery_engine.Prelude.Checked.{
  checked_add, checked_mul, checked_add-some, checked_mul-some,
}
use file_recovery_engine.Prelude.Bytes.{Bytes}
use file_recovery_engine.Prelude.Readers.{read_le-Safe, range-Safe}
use file_recovery_engine.Fat.Types.{
  FatBootSector, fat_offset_bytes, cluster_offset_bytes, cluster_size_bytes,
}
use file_recovery_engine.Fat.Chain.{
  read_slice, read_fat_entry, read_cluster, ends_chain, is_unusable, chain_loop,
  collect_cluster_chain, read_clusters, read_directory_bytes,
}

read_slice-Safe :
    (image : Bytes) (offset size : ℕ)
    → Safe
        (λ bs. (length bs ≡ size) × (offset + size ≤ length image))
        (read_slice image offset size)
unfolding read_slice
read_slice-Safe image offset size =
    Safe-bind _ _
      (Safe-ok_or {P = λ stop. stop ≡ offset + size} (checked_add offset size) _
        λ stop e. (checked_add-some offset size e).0)
      λ stop _ sum. Safe-fail_if (ltb (length image) stop) _ _ λ inside.
        Safe-weaken _ (range-Safe image offset stop (omega arith) (ground arith))
          λ bs e. (omega arith, ground arith)

-- A FAT entry that is read lies in the image, behind those of the clusters before it.
read_fat_entry-Safe :
    (image : Bytes) (boot : FatBootSector) (cluster : ℕ)
    → Safe (λ next. (cluster < length image)) (read_fat_entry image boot cluster)
unfolding read_fat_entry
read_fat_entry-Safe image boot cluster =
    Safe-bind _ _ (Safe-ok_or {P = λ _. Unit {0}} (fat_offset_bytes boot) _ λ _ _. tt) λ start _ _.
      Safe-bind _ _
        (Safe-ok_or {P = λ v. v ≡ cluster * 4} (checked_mul cluster 4) _
          λ v e. (checked_mul-some cluster 4 e).0)
        λ delta _ product.
          Safe-bind _ _
            (Safe-ok_or {P = λ v. v ≡ start + delta} (checked_add start delta) _
              λ v e. (checked_add-some start delta e).0)
            λ offset _ sum. Safe-bind _ _ (read_slice-Safe image offset 4) λ slice _ inside.
              Safe-bind _ _ (read_le-Safe 4 slice 0 (omega arith)) λ raw _ _. Safe-ok (omega arith)

pub read_cluster-Safe :
    (image : Bytes) (boot : FatBootSector) (cluster : ℕ)
    → Safe (λ bytes. length bytes ≡ cluster_size_bytes boot) (read_cluster image boot cluster)
unfolding read_cluster
read_cluster-Safe image boot cluster =
    Safe-bind _ _ (Safe-ok_or {P = λ _. Unit {0}} (cluster_offset_bytes boot cluster) _ λ _ _. tt)
      λ offset _ _.
        Safe-weaken _ (read_slice-Safe image offset (cluster_size_bytes boot)) λ bs h. h.0

chain_loop-Safe :
    (image : Bytes) (boot : FatBootSector) (rounds : ℕ) (seen : List ℕ) (current : ℕ)
    → Safe (λ chain. (current < length image)) (chain_loop image boot rounds seen current)
unfolding chain_loop
chain_loop-Safe image boot zero seen current = Safe-err
chain_loop-Safe image boot (suc rounds) seen current = elim (Bool-cases (contains current seen)) [
  | inl repeated ↦ rw repeated Safe-err
  | inr fresh ↦ rw fresh (
      Safe-bind (read_fat_entry image boot current) _ (read_fat_entry-Safe image boot current)
        λ next _ inside. elim (Bool-cases (ends_chain next)) [
          | inl last ↦ rw last (Safe-ok inside)
          | inr more ↦ elim (Bool-cases (is_unusable next)) [
            | inl bad ↦ rw (more, bad) Safe-err
            | inr good ↦
                rw (more, good)
                  (Safe-bind (chain_loop image boot rounds (current ∷ seen) next) _
                    (chain_loop-Safe image boot rounds (current ∷ seen) next)
                    λ chain _ _. Safe-ok inside)
          ]
        ])
]

-- With a cap on the clusters that is not zero, the FAT entry of the first cluster lies in the image.
pub collect_cluster_chain-Safe :
    (image : Bytes) (boot : FatBootSector) (start cap : ℕ)
    → 0 < cap
    → Safe (λ chain. start < length image) (collect_cluster_chain image boot start cap)
unfolding collect_cluster_chain
collect_cluster_chain-Safe image boot start cap some_round = elim (Bool-cases (ltb start 2)) [
  | inl small ↦ rw small Safe-err
  | inr large ↦
      let counted : (cap == 0) ≡ false = ground arith in
      rw (large, counted) (chain_loop-Safe image boot cap [] start)
]

read_clusters-Safe :
    (image : Bytes) (boot : FatBootSector) (chain : List ℕ)
    → Safe (λ _. Unit {0}) (read_clusters image boot chain)
unfolding read_clusters
read_clusters-Safe image boot [] = Safe-ok tt
read_clusters-Safe image boot (cluster ∷ chain) =
    Safe-bind _ _ (read_cluster-Safe image boot cluster)
      λ bytes _ _. Safe-bind _ _ (read_clusters-Safe image boot chain) λ rest _ _. Safe-ok tt

pub read_directory_bytes-Safe :
    (image : Bytes) (boot : FatBootSector) (start cap : ℕ)
    → 0 < cap
    → Safe (λ _. start < length image) (read_directory_bytes image boot start cap)
unfolding read_directory_bytes
read_directory_bytes-Safe image boot start cap some_round =
    Safe-bind _ _ (collect_cluster_chain-Safe image boot start cap some_round)
      λ chain _ inside. Safe-weaken _ (read_clusters-Safe image boot chain) λ bytes _. inside
