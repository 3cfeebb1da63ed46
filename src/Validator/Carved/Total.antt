-- ===== src/Validator/Carved/Total.antt =====
-- The validators on arbitrary bytes, all formats together, and the check of an extension.
use mathlib.Core.Path.{ap₂, subst}
use mathlib.Core.Option.{some-injective}
use file_recovery_engine.Prelude.{
  ◌↔◌, ◌≢◌, ==→≡, ℕ, ◌≡◌, refl, ap, arith, Bool, true, none, some, List, [], ◌∷◌,
}
use file_recovery_engine.Prelude.Outcome.{ok, err, panic, stuck, ◌>>=◌}
use file_recovery_engine.Prelude.Bytes.{Bytes, bytes_eq}
use file_recovery_engine.Validator.Types.{
  FileFormat, ValidationReport, Judged, default_extension, coherent, coherent_report,
}
use file_recovery_engine.Validator.Text.{normalize_extension}
use file_recovery_engine.Validator.Text.Extension.{IsSpelling, is_plain, normalize_extension_iff}
use file_recovery_engine.Validator.Carved.{
  note_extension, apply_extension_check, validate_format, validate_carved_bytes_with_extension,
  validate_carved_bytes,
}
use file_recovery_engine.Validator.Images.Total.{
  validate_jpeg-coherent, validate_png-coherent, validate_gif-coherent, validate_bmp-coherent,
  validate_tiff-coherent, validate_webp-coherent,
}
use file_recovery_engine.Validator.Archives.Total.{
  validate_pdf-coherent, validate_zip-coherent, validate_gzip-coherent, validate_sevenz-coherent,
  validate_rar-coherent, validate_office_zip-coherent, validate_utf8_text-coherent,
  validate_rtf-coherent,
}
use file_recovery_engine.Validator.Media.Total.{
  validate_mp4-coherent, validate_avi-coherent, validate_midi-coherent, validate_ogg-coherent,
  validate_flac-coherent, validate_mp3-coherent, validate_wav-coherent,
  validate_thumbcache_db-coherent,
}

module _ (ratio_below : ℕ → ℕ → Bool) where
  validate_format-coherent :
      (format : FileFormat) (bytes : Bytes)
      → coherent (validate_format ratio_below format bytes) ≡ true
  unfolding validate_format
  validate_format-coherent FileFormat.jpeg bytes = validate_jpeg-coherent bytes
  validate_format-coherent FileFormat.png bytes = validate_png-coherent bytes
  validate_format-coherent FileFormat.gif bytes = validate_gif-coherent bytes
  validate_format-coherent FileFormat.bmp bytes = validate_bmp-coherent bytes
  validate_format-coherent FileFormat.tiff bytes = validate_tiff-coherent bytes
  validate_format-coherent FileFormat.webp bytes = validate_webp-coherent bytes
  validate_format-coherent FileFormat.pdf bytes = validate_pdf-coherent bytes
  validate_format-coherent FileFormat.zip bytes = validate_zip-coherent bytes
  validate_format-coherent FileFormat.gzip bytes = validate_gzip-coherent bytes
  validate_format-coherent FileFormat.seven_zip bytes = validate_sevenz-coherent bytes
  validate_format-coherent FileFormat.rar bytes = validate_rar-coherent bytes
  validate_format-coherent FileFormat.docx bytes =
      validate_office_zip-coherent bytes FileFormat.docx
  validate_format-coherent FileFormat.xlsx bytes =
      validate_office_zip-coherent bytes FileFormat.xlsx
  validate_format-coherent FileFormat.pptx bytes =
      validate_office_zip-coherent bytes FileFormat.pptx
  validate_format-coherent FileFormat.utf8_text bytes =
      validate_utf8_text-coherent ratio_below bytes
  validate_format-coherent FileFormat.rtf bytes = validate_rtf-coherent bytes
  validate_format-coherent FileFormat.mp4 bytes = validate_mp4-coherent bytes
  validate_format-coherent FileFormat.avi bytes = validate_avi-coherent bytes
  validate_format-coherent FileFormat.midi bytes = validate_midi-coherent bytes
  validate_format-coherent FileFormat.ogg bytes = validate_ogg-coherent bytes
  validate_format-coherent FileFormat.flac bytes = validate_flac-coherent bytes
  validate_format-coherent FileFormat.mp3 bytes = validate_mp3-coherent bytes
  validate_format-coherent FileFormat.wav bytes = validate_wav-coherent bytes
  validate_format-coherent FileFormat.thumbcache_db bytes = validate_thumbcache_db-coherent bytes

-- The report that is handed out when no extension is given.
with_format :
    (format : FileFormat) (m : Judged ValidationReport)
    → coherent m ≡ true
    → (r : ValidationReport) × ((m >>= λ r.
          ok (apply_extension_check (record r { format = format }) none))
        ≡ ok r)
      × (coherent_report r ≡ true)
      × (r.format ≡ format)
      × (r.extension_matches ≡ none)
unfolding apply_extension_check
with_format format (ok r) h =
    (record r { format = format; extension_matches = none }, refl, h, refl, refl)
with_format format (err e) h = absurd (cc)
with_format format panic h = absurd (cc)
with_format format stuck h = absurd (cc)

-- For every format and every byte string `validate_carved_bytes` returns a report: no index is out
-- of range and every loop ends, whatever the comparison of the text ratio answers. The report names
-- the format, it is partial only if it is valid, and it has a reason exactly if it is not both valid
-- and whole.
pub validate_carved_bytes-coherent :
    (ratio_below : ℕ → ℕ → Bool) (format : FileFormat) (bytes : Bytes)
    → (r : ValidationReport) × (validate_carved_bytes ratio_below format bytes ≡ ok r)
      × (coherent_report r ≡ true)
      × (r.format ≡ format)
      × (r.extension_matches ≡ none)
unfolding validate_carved_bytes
validate_carved_bytes-coherent ratio_below format bytes =
    with_format format (validate_format ratio_below format bytes)
      (validate_format-coherent ratio_below format bytes)

bytes_eq_sound : (a b : Bytes) → bytes_eq a b ≡ true → a ≡ b
unfolding bytes_eq
bytes_eq_sound [] [] h = refl
bytes_eq_sound [] (c ∷ b) h = absurd (cc)
bytes_eq_sound (c ∷ a) [] h = absurd (cc)
bytes_eq_sound (c ∷ a) (d ∷ b) h =
    ap₂ (λ x xs. x ∷ xs) (==→≡ c d (ground arith)) (bytes_eq_sound a b (ground arith))

bytes_eq_self : (a : Bytes) → bytes_eq a a ≡ true
unfolding bytes_eq
bytes_eq_self [] = refl
bytes_eq_self (c ∷ a) = ground (arith, bytes_eq_self a)

-- What the check of an extension does to a report: the verdict stays.
abbrev pub Checked : ValidationReport → List ℕ → ValidationReport → Type 0
Checked r raw_extension checked =
    (checked.is_valid ≡ r.is_valid)
    × (checked.partial ≡ r.partial)
    × (checked.format ≡ r.format)
    × ((checked.extension_matches ≡ some true)
        ↔ IsSpelling raw_extension (default_extension r.format))

plain : (format : FileFormat) → is_plain (default_extension format) ≡ true
unfolding default_extension
plain FileFormat.jpeg = refl
plain FileFormat.png = refl
plain FileFormat.gif = refl
plain FileFormat.bmp = refl
plain FileFormat.tiff = refl
plain FileFormat.webp = refl
plain FileFormat.pdf = refl
plain FileFormat.zip = refl
plain FileFormat.gzip = refl
plain FileFormat.seven_zip = refl
plain FileFormat.rar = refl
plain FileFormat.docx = refl
plain FileFormat.xlsx = refl
plain FileFormat.pptx = refl
plain FileFormat.utf8_text = refl
plain FileFormat.rtf = refl
plain FileFormat.mp4 = refl
plain FileFormat.avi = refl
plain FileFormat.midi = refl
plain FileFormat.ogg = refl
plain FileFormat.flac = refl
plain FileFormat.mp3 = refl
plain FileFormat.wav = refl
plain FileFormat.thumbcache_db = refl

unnamed : (extension : List ℕ) → is_plain extension ≡ true → [] ≢ extension
unnamed [] h e = cc
unnamed (c ∷ extension) h e = cc

check_of :
    (r : ValidationReport) (normalized : List ℕ)
    → ((note_extension r normalized).is_valid ≡ r.is_valid)
      × ((note_extension r normalized).partial ≡ r.partial)
      × ((note_extension r normalized).format ≡ r.format)
      × (((note_extension r normalized).extension_matches ≡ some true)
          ↔ (normalized ≡ default_extension r.format))
unfolding note_extension
check_of r [] = (
  refl,
  refl,
  refl,
  ((λ p. cc), (λ p. absurd (unnamed (default_extension r.format) (plain r.format) p))),
)
check_of r (ch ∷ rest) = (
  refl,
  refl,
  refl,
  (
    (λ p. bytes_eq_sound _ _ (some-injective _ _ p)),
    (λ p. ap some (subst (λ x. bytes_eq (ch ∷ rest) x ≡ true) p (bytes_eq_self (ch ∷ rest)))),
  ),
)

-- The match, in terms of the text that was given.
spelled_match :
    (r : ValidationReport) (raw_extension : List ℕ)
    → Checked r raw_extension (note_extension r (normalize_extension raw_extension))
spelled_match r raw_extension =
    let (valid, partial, format, matched) = check_of r (normalize_extension raw_extension) in
    let spelled =
      normalize_extension_iff raw_extension (default_extension r.format) (plain r.format) in
    (valid, partial, format, ((λ p. spelled.0 (matched.0 p)), (λ p. matched.1 (spelled.1 p))))

extension_of :
    (format : FileFormat) (raw_extension : List ℕ) (m : Judged ValidationReport)
    → coherent m ≡ true
    → (r : ValidationReport) × (checked : ValidationReport) × ((m >>= λ r.
          ok (apply_extension_check (record r { format = format }) none))
        ≡ ok r)
      × ((m >>= λ r. ok (apply_extension_check (record r { format = format }) (some raw_extension)))
          ≡ ok checked)
      × (r.format ≡ format)
      × Checked r raw_extension checked
unfolding apply_extension_check
extension_of format raw_extension (ok r) h =
    let plain = record r { format = format; extension_matches = none } in
    (plain, _, refl, refl, refl, spelled_match (record r { format = format }) raw_extension)
extension_of format raw_extension (err e) h = absurd (cc)
extension_of format raw_extension panic h = absurd (cc)
extension_of format raw_extension stuck h = absurd (cc)

-- An extension never changes the verdict on the bytes: the report with it has the validity, the
-- partial flag and the format of the report without it. It says that the extension matches exactly
-- if the text is the format's extension, its letters in either case, with any dots in front of it
-- and any white space around both.
pub validate_carved_bytes_with_extension-Checked :
    (ratio_below : ℕ → ℕ → Bool) (format : FileFormat) (bytes : Bytes) (raw_extension : List ℕ)
    → (r : ValidationReport) × (checked : ValidationReport) × (validate_carved_bytes ratio_below
          format bytes
        ≡ ok r)
      × (validate_carved_bytes_with_extension ratio_below format bytes (some raw_extension)
          ≡ ok checked)
      × (r.format ≡ format)
      × Checked r raw_extension checked
unfolding validate_carved_bytes validate_carved_bytes_with_extension
validate_carved_bytes_with_extension-Checked ratio_below format bytes raw_extension =
    extension_of format raw_extension (validate_format ratio_below format bytes)
      (validate_format-coherent ratio_below format bytes)
