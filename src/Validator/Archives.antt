-- ===== src/Validator/Archives.antt =====
-- The validators of documents and archives: PDF, ZIP, GZIP, 7z, RAR, Office containers, text and RTF.
pub mod Total
use file_recovery_engine.Prelude.{
  ℕ, zero, suc, ◌+◌, ◌-◌, ◌*◌, Bool, true, false, not, ◌||◌, ◌&&◌, Option, none, some, List, [],
  ◌∷◌, ◌++◌, ◌⊎◌, inl, inr,
}
use file_recovery_engine.Prelude.{ltb, leb, ◌==◌, if◌then◌else◌, length}
use file_recovery_engine.Prelude.Outcome.{ok, panic, stuck, or_panic, ◌>>=◌}
use file_recovery_engine.Prelude.Checked.{checked_add}
use file_recovery_engine.Prelude.Bytes.{
  Bytes, get_range, bytes_eq, ascii, starts_with, window_position,
}
use file_recovery_engine.Validator.Types.{
  FileFormat, ValidationReport, Judged, valid, partial, invalid, report, message,
}
use file_recovery_engine.Validator.Fields.{
  byte_at, slice, u16_le, u32_le, u32_be, is_none, ends_with_byte, find_subsequence,
  find_last_subsequence, position_of_zero,
}
use Prim.Native.Nat.{bit_and}
use file_recovery_engine.Validator.Text.{from_utf8, count_printable}
use file_recovery_engine.Prelude.{max}

-- `bytes.windows(token.len()).any(|window| window == token)`.
abbrev pub any_window : Bytes → Bytes → Bool
any_window bytes token = not (is_none (window_position bytes token))

unfoldable pub validate_pdf : Bytes → Judged ValidationReport
validate_pdf bytes =
    if ltb (length bytes) 8
    then ok (invalid FileFormat.pdf "PDF candidate too small")
    else if not (starts_with bytes (ascii "%PDF-"))
    then ok (invalid FileFormat.pdf "PDF header marker missing")
    else if not (any_window bytes (ascii "%%EOF"))
    then ok (partial FileFormat.pdf "PDF EOF marker missing (likely truncated)")
    else ok (valid FileFormat.pdf)

unfoldable pub has_plausible_zip_local_header : Bytes → Judged Bool
has_plausible_zip_local_header bytes = if ltb (length bytes) 30 then ok false else do
  name_len ← u16_le bytes 26
  extra_len ← u16_le bytes 28
  elim (checked_add 30 name_len) [
    | none ↦ ok false
    | some name_end ↦ elim (checked_add name_end extra_len) [
      | none ↦ ok false
      | some header_end ↦
          if name_len == 0 || ltb (length bytes) header_end then ok false else ok true
    ]
  ]

unfoldable pub validate_zip : Bytes → Judged ValidationReport
validate_zip bytes =
    if ltb (length bytes) 30
    then ok (invalid FileFormat.zip "ZIP candidate too small")
    else if not (starts_with bytes (80 ∷ 75 ∷ 3 ∷ 4 ∷ []))
    then ok (invalid FileFormat.zip "ZIP local header missing")
    else do
      plausible ← has_plausible_zip_local_header bytes
      if not plausible
          then ok (invalid FileFormat.zip "ZIP local header fields are inconsistent")
          else if is_none (find_last_subsequence bytes (80 ∷ 75 ∷ 5 ∷ 6 ∷ []))
          then ok (partial FileFormat.zip "ZIP EOCD marker missing (likely truncated)")
          else ok (valid FileFormat.zip)

-- The cursor behind a field of a GZIP header, or the report that the function returns.
abbrev pub Step : Type 0
Step = ValidationReport ⊎ ℕ

abbrev pub then_step : Judged Step → (ℕ → Judged Step) → Judged Step
then_step m f = m >>= λ step. elim step [ inl report ↦ ok (inl report) | inr cursor ↦ f cursor ]

unfoldable pub gzip_extra : Bytes → ℕ → ℕ → Judged Step
gzip_extra bytes flags cursor =
    if bit_and flags 0x04 == 0
    then ok (inr cursor)
    else if ltb (length bytes) (cursor + 2)
    then ok (inl (partial FileFormat.gzip "GZIP FEXTRA header is truncated"))
    else do
      extra_len ← u16_le bytes cursor
      if ltb (length bytes) (cursor + 2 + extra_len)
          then ok (inl (partial FileFormat.gzip "GZIP FEXTRA payload is truncated"))
          else ok (inr (cursor + 2 + extra_len))

-- One round of `for flag in [0x08u8, 0x10u8]`.
unfoldable pub gzip_string : Bytes → ℕ → ℕ → ℕ → Judged Step
gzip_string bytes flags flag cursor = if bit_and flags flag == 0 then ok (inr cursor) else do
  rest ← slice bytes cursor (length bytes)
  elim (position_of_zero rest) [
    | none ↦ ok (inl (partial FileFormat.gzip "GZIP optional string field is truncated"))
    | some end ↦
        if ltb (length bytes) (cursor + (end + 1))
        then ok
            (inl (partial FileFormat.gzip "GZIP optional string field overran candidate length"))
        else ok (inr (cursor + (end + 1)))
  ]

unfoldable pub gzip_crc : Bytes → ℕ → ℕ → Judged Step
gzip_crc bytes flags cursor =
    if bit_and flags 0x02 == 0
    then ok (inr cursor)
    else if ltb (length bytes) (cursor + 2)
    then ok (inl (partial FileFormat.gzip "GZIP header CRC is truncated"))
    else ok (inr (cursor + 2))

unfoldable pub gzip_fields : Bytes → ℕ → Judged Step
gzip_fields bytes flags = then_step (gzip_extra bytes flags 10) λ cursor.
    then_step (gzip_string bytes flags 0x08 cursor) λ cursor.
      then_step (gzip_string bytes flags 0x10 cursor) λ cursor. gzip_crc bytes flags cursor

unfoldable pub gzip_end : Bytes → Step → ValidationReport
gzip_end bytes (inl report) = report
gzip_end bytes (inr cursor) =
    if ltb (length bytes) (cursor + 8)
    then partial FileFormat.gzip "GZIP trailer missing (likely truncated)"
    else valid FileFormat.gzip

unfoldable pub validate_gzip : Bytes → Judged ValidationReport
validate_gzip bytes =
    if ltb (length bytes) 10 then ok (invalid FileFormat.gzip "GZIP candidate too small") else do
      b0 ← byte_at bytes 0
      b1 ← byte_at bytes 1
      b2 ← byte_at bytes 2
      if not (b0 == 0x1F) || not (b1 == 0x8B) || not (b2 == 0x08)
          then ok (invalid FileFormat.gzip "GZIP signature mismatch")
          else do flags ← byte_at bytes 3; step ← gzip_fields bytes flags; ok (gzip_end bytes step)

unfoldable pub validate_sevenz : Bytes → Judged ValidationReport
validate_sevenz bytes =
    if ltb (length bytes) 32 then ok (invalid FileFormat.seven_zip "7z candidate too small") else do
      signature ← slice bytes 0 6
      if not (bytes_eq signature (55 ∷ 122 ∷ 0xBC ∷ 0xAF ∷ 0x27 ∷ 0x1C ∷ []))
          then ok (invalid FileFormat.seven_zip "7z signature mismatch")
          else ok (valid FileFormat.seven_zip)

unfoldable pub validate_rar : Bytes → Judged ValidationReport
validate_rar bytes =
    if ltb (length bytes) 16
    then ok (invalid FileFormat.rar "RAR candidate too small")
    else if not (starts_with bytes (ascii "Rar!" ++ (0x1A ∷ 0x07 ∷ 0x00 ∷ [])))
        && not (starts_with bytes (ascii "Rar!" ++ (0x1A ∷ 0x07 ∷ 0x01 ∷ 0x00 ∷ [])))
    then ok (invalid FileFormat.rar "RAR signature mismatch")
    else ok (valid FileFormat.rar)

unfoldable pub required_tokens : FileFormat → List Bytes
required_tokens FileFormat.docx = ascii "[Content_Types].xml" ∷ ascii "word/" ∷ []
required_tokens FileFormat.xlsx = ascii "[Content_Types].xml" ∷ ascii "xl/" ∷ []
required_tokens FileFormat.pptx = ascii "[Content_Types].xml" ∷ ascii "ppt/" ∷ []
required_tokens _ = []

-- `for token in required_tokens`.
unfoldable pub check_tokens : Bytes → List Bytes → ValidationReport → ValidationReport
check_tokens bytes [] zip_report = zip_report
check_tokens bytes (token ∷ tokens) zip_report =
    let rest = check_tokens bytes tokens zip_report in
    if not (any_window bytes token)
    then record zip_report {
      is_valid = false;
      partial = false;
      reasons = zip_report.reasons ++ (message "Office container token missing" ∷ []);
    }
    else rest

unfoldable pub validate_office_zip : Bytes → FileFormat → Judged ValidationReport
validate_office_zip bytes format = do
  zip_report ← validate_zip bytes
  if not zip_report.is_valid
      then ok (record zip_report { format = format })
      else ok (record (check_tokens bytes (required_tokens format) zip_report) { format = format })

-- `ratio_below p n` is `p as f32 / n as f32 < 0.85`.
unfoldable pub validate_utf8_text : (ℕ → ℕ → Bool) → Bytes → Judged ValidationReport
validate_utf8_text ratio_below bytes =
    if ltb (length bytes) 4
    then ok (invalid FileFormat.utf8_text "Text candidate too small")
    else elim (from_utf8 bytes) [
      | none ↦ ok (invalid FileFormat.utf8_text "UTF-8 decoding failed")
      | some text ↦
          if ratio_below (count_printable text) (max (length text) 1)
          then ok (
              invalid FileFormat.utf8_text "UTF-8 text contains excessive non-printable characters")
          else ok (valid FileFormat.utf8_text)
    ]

unfoldable pub validate_rtf : Bytes → Judged ValidationReport
validate_rtf bytes =
    if ltb (length bytes) 6
    then ok (invalid FileFormat.rtf "RTF candidate too small")
    else if not (starts_with bytes (123 ∷ 92 ∷ 114 ∷ 116 ∷ 102 ∷ []))
    then ok (invalid FileFormat.rtf "RTF signature mismatch")
    else if not (ends_with_byte bytes 125)
    then ok (partial FileFormat.rtf "RTF closing brace missing (likely truncated)")
    else ok (valid FileFormat.rtf)
