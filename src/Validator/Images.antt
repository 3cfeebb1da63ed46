-- ===== src/Validator/Images.antt =====
-- The validators of images: JPEG, PNG, GIF, BMP, TIFF and WEBP.
pub mod Total
pub mod Chunks
use file_recovery_engine.Prelude.{
  ℕ, zero, suc, ◌+◌, ◌-◌, ◌*◌, Bool, true, false, not, ◌||◌, ◌&&◌, Option, none, some, List, [],
  ◌∷◌, ◌++◌, ◌⊎◌, inl, inr,
}
use file_recovery_engine.Prelude.{ltb, leb, ◌==◌, if◌then◌else◌, length}
use file_recovery_engine.Prelude.Outcome.{ok, panic, stuck, or_panic, ◌>>=◌}
use file_recovery_engine.Prelude.Checked.{checked_add}
use file_recovery_engine.Prelude.Bytes.{
  Bytes, get_range, bytes_eq, ascii, starts_with, window_position,
}
use file_recovery_engine.Validator.Types.{
  FileFormat, ValidationReport, Judged, valid, partial, invalid, report, message,
}
use file_recovery_engine.Validator.Fields.{
  byte_at, slice, u16_le, u32_le, u32_be, is_none, ends_with_byte, find_subsequence,
  find_last_subsequence, position_of_zero,
}
use Prim.Native.Nat.{bit_and}

unfoldable pub validate_jpeg : Bytes → Judged ValidationReport
validate_jpeg bytes =
    if ltb (length bytes) 4
    then ok (invalid FileFormat.jpeg "JPEG candidate too small")
    else if not (starts_with bytes (0xFF ∷ 0xD8 ∷ 0xFF ∷ []))
    then ok (invalid FileFormat.jpeg "JPEG SOI marker missing")
    else if is_none (find_subsequence bytes (0xFF ∷ 0xD9 ∷ []))
    then ok (partial FileFormat.jpeg "JPEG EOI marker missing (likely truncated)")
    else ok (valid FileFormat.jpeg)

abbrev pub png_sig : Bytes
png_sig = 0x89 ∷ 80 ∷ 78 ∷ 71 ∷ 13 ∷ 10 ∷ 26 ∷ 10 ∷ []

-- What the loop over the chunks ends with: a report that the function returns at once, or the flag
-- `saw_iend`.
abbrev pub Scan : Type 0
Scan = ValidationReport ⊎ Bool

-- What one round decides behind its two reads: the end of the loop, or the cursor of the next
-- round.
unfoldable pub png_round : Bytes → ℕ → ℕ → Bytes → Scan ⊎ ℕ
png_round bytes cursor chunk_len chunk_type = elim (checked_add cursor 12) [
  | none ↦ inl (inl (invalid FileFormat.png "PNG chunk size overflow"))
  | some v ↦ elim (checked_add v chunk_len) [
    | none ↦ inl (inl (invalid FileFormat.png "PNG chunk size overflow"))
    | some next ↦
        if ltb (length bytes) next
        then inl (inl (partial FileFormat.png "PNG chunk truncated"))
        else if bytes_eq chunk_type (ascii "IEND")
        then inl (inr true)
        else inr next
  ]
]

unfoldable pub png_chunk : Bytes → ℕ → Judged (Scan ⊎ ℕ)
png_chunk bytes cursor = do
  chunk_len ← u32_be bytes cursor
  chunk_type ← slice bytes (cursor + 4) (cursor + 8)
  ok (png_round bytes cursor chunk_len chunk_type)

-- `while cursor + 12 <= bytes.len()`. A round takes twelve bytes or ends the loop.
pub png_loop : Bytes → ℕ → ℕ → Judged Scan
png_loop bytes zero cursor = if leb (cursor + 12) (length bytes) then stuck else ok (inr false)
png_loop bytes (suc fuel) cursor =
    if not (leb (cursor + 12) (length bytes))
    then ok (inr false)
    else (png_chunk bytes cursor >>= λ round. elim round [
      | inl end ↦ ok end
      | inr next ↦ png_loop bytes fuel next
    ])

pub png_end : Scan → ValidationReport
png_end (inl report) = report
png_end (inr false) = partial FileFormat.png "PNG IEND chunk missing (likely truncated)"
png_end (inr true) = valid FileFormat.png

unfoldable pub validate_png : Bytes → Judged ValidationReport
unfolding png_loop png_end
validate_png bytes =
    if ltb (length bytes) (8 + 12)
    then ok (invalid FileFormat.png "PNG candidate too small")
    else if not (starts_with bytes png_sig)
    then ok (invalid FileFormat.png "PNG signature mismatch")
    else (png_loop bytes (length bytes) 8 >>= λ scan. ok (png_end scan))

unfoldable pub validate_gif : Bytes → Judged ValidationReport
validate_gif bytes =
    if ltb (length bytes) 13
    then ok (invalid FileFormat.gif "GIF candidate too small")
    else if not (starts_with bytes (ascii "GIF87a")) && not (starts_with bytes (ascii "GIF89a"))
    then ok (invalid FileFormat.gif "GIF signature mismatch")
    else if not (ends_with_byte bytes 0x3B)
    then ok (partial FileFormat.gif "GIF trailer missing (likely truncated)")
    else ok (valid FileFormat.gif)

unfoldable pub validate_bmp : Bytes → Judged ValidationReport
validate_bmp bytes =
    if ltb (length bytes) 54 then ok (invalid FileFormat.bmp "BMP candidate too small") else do
      magic ← slice bytes 0 2
      if not (bytes_eq magic (ascii "BM"))
          then ok (invalid FileFormat.bmp "BMP signature mismatch")
          else do
            declared_size ← u32_le bytes 2
            if ltb declared_size 54
                then ok (invalid FileFormat.bmp "BMP declared size is implausible")
                else if ltb (length bytes) declared_size
                then ok (
                    partial FileFormat.bmp
                      "BMP declared size exceeds captured bytes (likely truncated)")
                else ok (valid FileFormat.bmp)

unfoldable pub validate_tiff : Bytes → Judged ValidationReport
validate_tiff bytes =
    let little_endian = starts_with bytes (73 ∷ 73 ∷ 42 ∷ 0 ∷ []) in
    let big_endian = starts_with bytes (77 ∷ 77 ∷ 0 ∷ 42 ∷ []) in
    if ltb (length bytes) 8
    then ok (invalid FileFormat.tiff "TIFF candidate too small")
    else if not little_endian && not big_endian
    then ok (invalid FileFormat.tiff "TIFF signature mismatch")
    else do
      ifd_offset ← (if little_endian then u32_le bytes 4 else u32_be bytes 4)
      if leb (length bytes) ifd_offset
          then ok (
              partial FileFormat.tiff
                "TIFF first IFD offset exceeds captured bytes (likely truncated)")
          else ok (valid FileFormat.tiff)

unfoldable pub validate_webp : Bytes → Judged ValidationReport
validate_webp bytes =
    if ltb (length bytes) 16 then ok (invalid FileFormat.webp "WEBP candidate too small") else do
      riff ← slice bytes 0 4
      kind ← slice bytes 8 12
      if not (bytes_eq riff (ascii "RIFF")) || not (bytes_eq kind (ascii "WEBP"))
          then ok (invalid FileFormat.webp "WEBP RIFF/WEBP markers missing")
          else do
            size ← u32_le bytes 4
            if ltb (length bytes) (size + 8)
                then ok (
                    partial FileFormat.webp
                      "WEBP RIFF size exceeds captured bytes (likely truncated)")
                else ok (valid FileFormat.webp)
