-- ===== src/Raid/Detect/Total.antt =====
-- No image makes the detection panic, and what is too short is read as no metadata at all.
use file_recovery_engine.Prelude.{ℕ, arith}
use file_recovery_engine.Prelude.Outcome.{Returns}
use file_recovery_engine.Prelude.Bytes.{Bytes, get_range_total}
use file_recovery_engine.Raid.Fields.{read_u32_le, read_i32_le, read_u64_le}
use file_recovery_engine.Raid.Detect.{Detection, detect_mdraid_layout, or_else}
use file_recovery_engine.Raid.Detect.{detect_storage_spaces_layout, imsm_layout_at, ddf_layout_at}
use file_recovery_engine.Raid.Detect.{detect_imsm_layout, detect_ddf_layout, detect_layout}

read_u32_le-Returns : (image : Bytes) (offset : ℕ) → Returns (read_u32_le image offset)
unfolding read_u32_le
read_u32_le-Returns image offset = ground arith

read_i32_le-Returns : (image : Bytes) (offset : ℕ) → Returns (read_i32_le image offset)
unfolding read_i32_le
read_i32_le-Returns image offset = ground arith

read_u64_le-Returns : (image : Bytes) (offset : ℕ) → Returns (read_u64_le image offset)
unfolding read_u64_le
read_u64_le-Returns image offset = ground arith

mdraid-Returns : (image : Bytes) → Returns (detect_mdraid_layout image)
unfolding detect_mdraid_layout
mdraid-Returns image = grind (arith, read_u32_le-Returns, read_i32_le-Returns, read_u64_le-Returns)

spaces-Returns : (image : Bytes) → Returns (detect_storage_spaces_layout image)
unfolding detect_storage_spaces_layout
spaces-Returns image = grind (arith, read_u32_le-Returns, get_range_total image 512 523)

imsm_layout_at-Returns : (image : Bytes) (base : ℕ) → Returns (imsm_layout_at image base)
unfolding imsm_layout_at
imsm_layout_at-Returns image base = grind (arith, read_u32_le-Returns, read_u64_le-Returns)

ddf_layout_at-Returns : (image : Bytes) (base : ℕ) → Returns (ddf_layout_at image base)
unfolding ddf_layout_at
ddf_layout_at-Returns image base = grind (arith, read_u32_le-Returns, read_u64_le-Returns)

imsm-Returns : (image : Bytes) → Returns (detect_imsm_layout image)
unfolding detect_imsm_layout
imsm-Returns image = grind (arith, imsm_layout_at-Returns)

ddf-Returns : (image : Bytes) → Returns (detect_ddf_layout image)
unfolding detect_ddf_layout
ddf-Returns image = grind (arith, ddf_layout_at-Returns)

or_else-Returns : (a b : Detection) → Returns a → Returns b → Returns (or_else a b)
unfolding or_else
or_else-Returns a b h k = ground arith

-- On every byte string `detect_layout` returns, with a layout, with none or with an error: no read
-- or slice runs out of range.
pub detect_layout-Returns : (image : Bytes) → Returns (detect_layout image)
unfolding detect_layout
detect_layout-Returns image = or_else-Returns _ _ (mdraid-Returns image) (
    or_else-Returns _ _ (spaces-Returns image) (
      or_else-Returns _ _ (imsm-Returns image)
        (or_else-Returns _ _ (ddf-Returns image) (λ p. cc, λ p. cc))))
