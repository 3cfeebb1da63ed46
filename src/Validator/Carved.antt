-- ===== src/Validator/Carved.antt =====
-- `validate_carved_bytes_with_extension`: the validator of a format and the check of an extension.
pub mod Total
use file_recovery_engine.Prelude.{ℕ, Bool, Option, none, some, List, [], ◌∷◌, ◌++◌, if◌then◌else◌}
use file_recovery_engine.Prelude.Outcome.{ok, ◌>>=◌}
use file_recovery_engine.Prelude.Bytes.{Bytes, bytes_eq}
use file_recovery_engine.Validator.Types.{
  FileFormat, ValidationReport, Judged, default_extension, extension_mismatch,
}
use file_recovery_engine.Validator.Text.{normalize_extension}
use file_recovery_engine.Validator.Images.{
  validate_jpeg, validate_png, validate_gif, validate_bmp, validate_tiff, validate_webp,
}
use file_recovery_engine.Validator.Archives.{
  validate_pdf, validate_zip, validate_gzip, validate_sevenz, validate_rar, validate_office_zip,
  validate_utf8_text, validate_rtf,
}
use file_recovery_engine.Validator.Media.{
  validate_mp4, validate_avi, validate_midi, validate_ogg, validate_flac, validate_mp3,
  validate_wav, validate_thumbcache_db,
}

-- `apply_extension_check` behind the normalisation of the extension.
unfoldable pub note_extension : ValidationReport → List ℕ → ValidationReport
note_extension report [] = record report { extension_matches = none }
note_extension report (ch ∷ rest) =
    let normalized = ch ∷ rest in
    let expected = default_extension report.format in
    let matches = bytes_eq normalized expected in
    record report {
      extension_matches = some matches;
      reasons =
          if matches
          then report.reasons
          else report.reasons ++ (extension_mismatch expected normalized ∷ []);
    }

unfoldable pub apply_extension_check : ValidationReport → Option (List ℕ) → ValidationReport
apply_extension_check report none = record report { extension_matches = none }
apply_extension_check report (some raw_extension) =
    note_extension report (normalize_extension raw_extension)

module _ (ratio_below : ℕ → ℕ → Bool) where
  -- The `match` on the format.
  unfoldable pub validate_format : FileFormat → Bytes → Judged ValidationReport
  validate_format FileFormat.jpeg bytes = validate_jpeg bytes
  validate_format FileFormat.png bytes = validate_png bytes
  validate_format FileFormat.gif bytes = validate_gif bytes
  validate_format FileFormat.bmp bytes = validate_bmp bytes
  validate_format FileFormat.tiff bytes = validate_tiff bytes
  validate_format FileFormat.webp bytes = validate_webp bytes
  validate_format FileFormat.pdf bytes = validate_pdf bytes
  validate_format FileFormat.zip bytes = validate_zip bytes
  validate_format FileFormat.gzip bytes = validate_gzip bytes
  validate_format FileFormat.seven_zip bytes = validate_sevenz bytes
  validate_format FileFormat.rar bytes = validate_rar bytes
  validate_format FileFormat.docx bytes = validate_office_zip bytes FileFormat.docx
  validate_format FileFormat.xlsx bytes = validate_office_zip bytes FileFormat.xlsx
  validate_format FileFormat.pptx bytes = validate_office_zip bytes FileFormat.pptx
  validate_format FileFormat.utf8_text bytes = validate_utf8_text ratio_below bytes
  validate_format FileFormat.rtf bytes = validate_rtf bytes
  validate_format FileFormat.mp4 bytes = validate_mp4 bytes
  validate_format FileFormat.avi bytes = validate_avi bytes
  validate_format FileFormat.midi bytes = validate_midi bytes
  validate_format FileFormat.ogg bytes = validate_ogg bytes
  validate_format FileFormat.flac bytes = validate_flac bytes
  validate_format FileFormat.mp3 bytes = validate_mp3 bytes
  validate_format FileFormat.wav bytes = validate_wav bytes
  validate_format FileFormat.thumbcache_db bytes = validate_thumbcache_db bytes

  unfoldable pub validate_carved_bytes_with_extension :
      FileFormat → Bytes → Option (List ℕ) → Judged ValidationReport
  unfolding validate_format
  validate_carved_bytes_with_extension format bytes extension = do
    report ← validate_format format bytes
    ok (apply_extension_check (record report { format = format }) extension)

  unfoldable pub validate_carved_bytes : FileFormat → Bytes → Judged ValidationReport
  unfolding validate_carved_bytes_with_extension
  validate_carved_bytes format bytes = validate_carved_bytes_with_extension format bytes none
