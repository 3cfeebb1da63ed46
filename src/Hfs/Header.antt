-- ===== src/Hfs/Header.antt =====
-- The volume header parser of `fr-hfs`, and what a header that it accepts satisfies.
use file_recovery_engine.Prelude.{
  ℕ, ◌+◌, ◌^◌, ◌≤◌, ◌<◌, ◌≡◌, arith, Bool, false, not, ◌||◌, ◌&&◌, ltb, ◌==◌, length, ◌⊎◌, inl, inr,
  Bool-cases,
}
use file_recovery_engine.Prelude.Outcome.{
  ok, fail_if, or_panic, ◌>>=◌, ◌>>◌, Safe, Safe-ok, Safe-bind, Safe-fail_if,
}
use file_recovery_engine.Prelude.Checked.{is_power_of_two, is_power_of_two_sound}
use file_recovery_engine.Prelude.Bytes.{Bytes, get_range, from_be}
use file_recovery_engine.Prelude.Readers.{range-Safe}
use file_recovery_engine.Hfs.Types.{
  HfsVolumeHeader, Parsed, buffer_too_small, invalid_signature, invalid_version, invalid_block_size,
  invalid_block_count,
}

unfoldable pub read_u16_be : Bytes → ℕ → Parsed ℕ
read_u16_be bytes offset = do
  value ← or_panic (get_range bytes offset (offset + 2))
  ok (from_be value)

unfoldable pub read_u32_be : Bytes → ℕ → Parsed ℕ
read_u32_be bytes offset = do
  value ← or_panic (get_range bytes offset (offset + 4))
  ok (from_be value)

-- The header of 512 bytes lies at 1024. Its signature is `H+` or `HX`.
unfoldable pub parse_volume_header : Bytes → Parsed HfsVolumeHeader
parse_volume_header image = do
  fail_if (ltb (length image) 1536) (buffer_too_small 1536 (length image))
  signature ← read_u16_be image 1024
  fail_if (not (signature == 0x482B) && not (signature == 0x4858)) (invalid_signature signature)
  version ← read_u16_be image 1026
  fail_if (not (version == 4) && not (version == 5)) (invalid_version version)
  block_size_bytes ← read_u32_be image 1064
  fail_if (ltb block_size_bytes 512 || not (is_power_of_two 32 block_size_bytes))
      (invalid_block_size block_size_bytes)
  total_blocks ← read_u32_be image 1068
  fail_if (total_blocks == 0) (invalid_block_count total_blocks)
  file_count ← read_u32_be image 1056
  folder_count ← read_u32_be image 1060
  ok (record {
    signature = signature;
    version = version;
    block_size_bytes = block_size_bytes;
    total_blocks = total_blocks;
    file_count = file_count;
    folder_count = folder_count;
  })

pub record IsValid (header : HfsVolumeHeader) : Type 0 where
  pub signed : (header.signature ≡ 0x482B) ⊎ (header.signature ≡ 0x4858)
  pub versioned : (header.version ≡ 4) ⊎ (header.version ≡ 5)
  pub block_size : (k : ℕ) × (k < 32) × (header.block_size_bytes ≡ 2 ^ k)
  pub block_size_min : 512 ≤ header.block_size_bytes
  pub blocks : 1 ≤ header.total_blocks

read_u16_be-Safe :
    (bytes : Bytes) (offset : ℕ)
    → offset + 2 ≤ length bytes
    → Safe (λ v. Unit {0}) (read_u16_be bytes offset)
unfolding read_u16_be
read_u16_be-Safe bytes offset h =
    Safe-bind _ _ (range-Safe bytes offset (offset + 2) (omega arith) h) λ value _ _. Safe-ok tt

read_u32_be-Safe :
    (bytes : Bytes) (offset : ℕ)
    → offset + 4 ≤ length bytes
    → Safe (λ v. Unit {0}) (read_u32_be bytes offset)
unfolding read_u32_be
read_u32_be-Safe bytes offset h =
    Safe-bind _ _ (range-Safe bytes offset (offset + 4) (omega arith) h) λ value _ _. Safe-ok tt

one_of : (v a b : ℕ) → (not (v == a) && not (v == b)) ≡ false → (v ≡ a) ⊎ (v ≡ b)
one_of v a b h = elim (Bool-cases (v == a)) [
  | inl first ↦ inl (ground arith)
  | inr other ↦ inr (ground arith)
]

block_power :
    (v : ℕ) → (ltb v 512 || not (is_power_of_two 32 v)) ≡ false → (k : ℕ) × (k < 32) × (v ≡ 2 ^ k)
block_power v h = elim (Bool-cases (is_power_of_two 32 v)) [
  | inl power ↦ is_power_of_two_sound 32 v power
  | inr other ↦ absurd (ground arith)
]

block_min : (v : ℕ) (b : Bool) → (ltb v 512 || b) ≡ false → 512 ≤ v
block_min v b h = ground arith

pub parse_volume_header-Safe : (image : Bytes) → Safe IsValid (parse_volume_header image)
unfolding parse_volume_header
parse_volume_header-Safe image = Safe-fail_if (ltb (length image) 1536) _ _ λ short.
    let long : 1536 ≤ length image = ground arith in
    Safe-bind _ _ (read_u16_be-Safe image 1024 (omega arith)) λ signature _ _.
      Safe-fail_if (not (signature == 0x482B) && not (signature == 0x4858)) _ _ λ signed.
        Safe-bind _ _ (read_u16_be-Safe image 1026 (omega arith)) λ version _ _.
          Safe-fail_if (not (version == 4) && not (version == 5)) _ _ λ versioned.
            Safe-bind _ _ (read_u32_be-Safe image 1064 (omega arith)) λ size _ _.
              Safe-fail_if (ltb size 512 || not (is_power_of_two 32 size)) _ _ λ sized.
                Safe-bind _ _ (read_u32_be-Safe image 1068 (omega arith)) λ blocks _ _.
                  Safe-fail_if (blocks == 0) _ _ λ some_block.
                    Safe-bind _ _ (read_u32_be-Safe image 1056 (omega arith)) λ files _ _.
                      Safe-bind _ _ (read_u32_be-Safe image 1060 (omega arith)) λ folders _ _.
                        Safe-ok (record {
                          signed = one_of signature 0x482B 0x4858 signed;
                          versioned = one_of version 4 5 versioned;
                          block_size = block_power size sized;
                          block_size_min = block_min size _ sized;
                          blocks = ground arith;
                        })
