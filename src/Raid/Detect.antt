-- ===== src/Raid/Detect.antt =====
-- `detect_layout` and the four detectors of RAID metadata.
pub mod Valid
pub mod Total
use file_recovery_engine.Prelude.{ℕ, zero, suc, ◌+◌, ◌*◌, Bool, true, false, not, ◌||◌}
use file_recovery_engine.Prelude.{Option, none, some, List, [], ◌∷◌, String}
use file_recovery_engine.Prelude.{ltb, ◌==◌, if◌then◌else◌, length}
use file_recovery_engine.Prelude.Outcome.{Outcome, ok, err, ok_or, or_panic, fail_if, ◌>>=◌, ◌>>◌}
use file_recovery_engine.Prelude.Checked.{checked_mul, saturating_mul32}
use file_recovery_engine.Prelude.Bytes.{Bytes, ascii, get_range, bytes_eq}
use file_recovery_engine.Raid.Types.{
  RaidLayout, RaidError, invalid_member_count, arithmetic_overflow,
}
use file_recovery_engine.Raid.Types.{linux_md, windows_storage_spaces, intel_imsm, ddf}
use file_recovery_engine.Raid.Types.{ParityRotation, left_symmetric, right_symmetric}
use file_recovery_engine.Raid.Types.{known_level, known_rotation}
use file_recovery_engine.Raid.Fields.{read_u32_le, read_i32_le, read_u64_le, find_signature_offset}
use file_recovery_engine.Raid.Fields.{normalize_stripe_size, score_metadata_confidence}
use file_recovery_engine.Raid.Fields.{map_md_level, map_spaces_level, map_imsm_level, map_ddf_level}
use file_recovery_engine.Raid.Fields.{map_md_parity_rotation}

abbrev pub md_superblock_v1_offset : ℕ
md_superblock_v1_offset = 4096

abbrev pub md_superblock_v1_size : ℕ
md_superblock_v1_size = 4096

abbrev pub md_magic : ℕ
md_magic = 0xA92B4EFC

abbrev pub spaces_header_offset : ℕ
spaces_header_offset = 0x200

abbrev pub spaces_signature : Bytes
spaces_signature = ascii "SPACES_RAID"

abbrev pub imsm_signature : Bytes
imsm_signature = ascii "Intel Raid ISM Cfg Sig."

abbrev pub ddf_signature : Bytes
ddf_signature = ascii "DDF_HDR"

abbrev pub Detection : Type 0
Detection = Outcome RaidError (Option RaidLayout)

-- `(0..count).collect()`.
unfoldable pub range_from : ℕ → ℕ → List ℕ
range_from first zero = []
range_from first (suc count) = first ∷ range_from (suc first) count

unfoldable pub detect_mdraid_layout : Bytes → Detection
detect_mdraid_layout image =
    if ltb (length image) (md_superblock_v1_offset + md_superblock_v1_size) then ok none else do
      let base = md_superblock_v1_offset
      magic ← read_u32_le image base
      if not (magic == md_magic) then ok none else do
        major_version ← read_u32_le image (base + 4)
        if major_version == 0 then ok none else do
          raw_level ← read_i32_le image (base + 0x48)
          raw_layout ← read_u32_le image (base + 0x4C)
          raw_chunk_size ← read_u32_le image (base + 0x50)
          raid_disks ← read_u32_le image (base + 0x5C)
          fail_if (ltb raid_disks 2) (invalid_member_count raid_disks)
          data_offset_sectors ← read_u64_le image (base + 0x80)
          data_offset_bytes ←
              ok_or (checked_mul data_offset_sectors 512)
                (arithmetic_overflow "md data offset bytes")
          let stripe_size_bytes = normalize_stripe_size raw_chunk_size
          let level = map_md_level raw_level
          let parity_rotation = map_md_parity_rotation raw_layout
          let confidence =
              score_metadata_confidence raid_disks (not (raw_chunk_size == 0)) (known_level level)
                (known_rotation parity_rotation)
          ok (
              some (record {
                metadata_family = linux_md;
                level = level;
                member_count = raid_disks;
                stripe_size_bytes = stripe_size_bytes;
                data_offset_bytes = data_offset_bytes;
                parity_rotation = parity_rotation;
                disk_order = range_from 0 raid_disks;
                confidence_score = confidence;
              }))

-- The `match` on `raw_parity` of `detect_storage_spaces_layout`.
abbrev spaces_rotation : ℕ → ParityRotation
spaces_rotation raw_parity =
    if raw_parity == 1
    then right_symmetric
    else if raw_parity == 2
    then left_symmetric
    else ParityRotation.unknown

unfoldable pub detect_storage_spaces_layout : Bytes → Detection
detect_storage_spaces_layout image =
    if ltb (length image) (spaces_header_offset + 0x220) then ok none else do
      let base = spaces_header_offset
      signature ← or_panic (get_range image base (base + length spaces_signature))
      if not (bytes_eq signature spaces_signature) then ok none else do
        raw_level ← read_u32_le image (base + 0x10)
        raw_stripe_kib ← read_u32_le image (base + 0x14)
        member_count ← read_u32_le image (base + 0x18)
        raw_offset_kib ← read_u32_le image (base + 0x1C)
        raw_parity ← read_u32_le image (base + 0x20)
        fail_if (ltb member_count 2) (invalid_member_count member_count)
        let stripe_size_bytes = normalize_stripe_size (saturating_mul32 raw_stripe_kib 1024)
        data_offset_bytes ←
            ok_or (checked_mul raw_offset_kib 1024)
              (arithmetic_overflow "storage spaces data offset bytes")
        let level = map_spaces_level raw_level
        let parity_rotation = spaces_rotation raw_parity
        let confidence =
            score_metadata_confidence member_count (not (raw_stripe_kib == 0)) (known_level level)
              (known_rotation parity_rotation)
        ok (
            some (record {
              metadata_family = windows_storage_spaces;
              level = level;
              member_count = member_count;
              stripe_size_bytes = stripe_size_bytes;
              data_offset_bytes = data_offset_bytes;
              parity_rotation = parity_rotation;
              disk_order = range_from 0 member_count;
              confidence_score = confidence;
            }))

-- `detect_imsm_layout` behind the search for its signature.
unfoldable pub imsm_layout_at : Bytes → ℕ → Detection
imsm_layout_at image base = if ltb (length image) (base + 0x58) then ok none else do
  raw_level ← read_u32_le image (base + 0x40)
  member_count ← read_u32_le image (base + 0x44)
  fail_if (ltb member_count 2) (invalid_member_count member_count)
  raw_stripe_kib ← read_u32_le image (base + 0x48)
  raw_offset_sectors ← read_u64_le image (base + 0x50)
  let stripe_size_bytes = normalize_stripe_size (saturating_mul32 raw_stripe_kib 1024)
  data_offset_bytes ←
      ok_or (checked_mul raw_offset_sectors 512) (arithmetic_overflow "imsm data offset bytes")
  let level = map_imsm_level raw_level
  let confidence =
      score_metadata_confidence member_count (not (raw_stripe_kib == 0)) (known_level level) true
  ok (
      some (record {
        metadata_family = intel_imsm;
        level = level;
        member_count = member_count;
        stripe_size_bytes = stripe_size_bytes;
        data_offset_bytes = data_offset_bytes;
        parity_rotation = left_symmetric;
        disk_order = range_from 0 member_count;
        confidence_score = confidence;
      }))

unfoldable pub detect_imsm_layout : Bytes → Detection
detect_imsm_layout image = elim (find_signature_offset image imsm_signature) [
  | none ↦ ok none
  | some base ↦ imsm_layout_at image base
]

-- The `match` on `raw_parity` of `detect_ddf_layout`.
abbrev ddf_rotation : ℕ → ParityRotation
ddf_rotation raw_parity =
    if raw_parity == 1
    then left_symmetric
    else if raw_parity == 2
    then right_symmetric
    else ParityRotation.unknown

-- `detect_ddf_layout` behind the search for its signature.
unfoldable pub ddf_layout_at : Bytes → ℕ → Detection
ddf_layout_at image base = if ltb (length image) (base + 0x60) then ok none else do
  raw_level ← read_u32_le image (base + 0x24)
  member_count ← read_u32_le image (base + 0x28)
  fail_if (ltb member_count 2) (invalid_member_count member_count)
  raw_stripe_kib ← read_u32_le image (base + 0x2C)
  raw_offset_lba ← read_u64_le image (base + 0x30)
  raw_parity ← read_u32_le image (base + 0x38)
  let stripe_size_bytes = normalize_stripe_size (saturating_mul32 raw_stripe_kib 1024)
  data_offset_bytes ←
      ok_or (checked_mul raw_offset_lba 512) (arithmetic_overflow "ddf data offset bytes")
  let level = map_ddf_level raw_level
  let parity_rotation = ddf_rotation raw_parity
  let confidence =
      score_metadata_confidence member_count (not (raw_stripe_kib == 0)) (known_level level)
        (known_rotation parity_rotation)
  ok (
      some (record {
        metadata_family = ddf;
        level = level;
        member_count = member_count;
        stripe_size_bytes = stripe_size_bytes;
        data_offset_bytes = data_offset_bytes;
        parity_rotation = parity_rotation;
        disk_order = range_from 0 member_count;
        confidence_score = confidence;
      }))

unfoldable pub detect_ddf_layout : Bytes → Detection
detect_ddf_layout image = elim (find_signature_offset image ddf_signature) [
  | none ↦ ok none
  | some base ↦ ddf_layout_at image base
]

-- `if let Some(layout) = detector(image)? { return Ok(Some(layout)); }`, then what follows.
unfoldable pub or_else : Detection → Detection → Detection
or_else (ok (some layout)) later = ok (some layout)
or_else (ok none) later = later
or_else (err e) later = err e
or_else Outcome.panic later = Outcome.panic
or_else Outcome.stuck later = Outcome.stuck

unfoldable pub detect_layout : Bytes → Detection
unfolding or_else detect_mdraid_layout detect_storage_spaces_layout detect_imsm_layout
    detect_ddf_layout
detect_layout image = or_else (detect_mdraid_layout image) (
    or_else (detect_storage_spaces_layout image)
      (or_else (detect_imsm_layout image) (or_else (detect_ddf_layout image) (ok none))))
