-- ===== src/Validator/Archives/Total.antt =====
-- The validators of documents and archives on arbitrary bytes.
use file_recovery_engine.Prelude.{
  ℕ, ◌≤◌, ◌≡◌, refl, arith, Bool, true, false, not, ◌||◌, List, [], ◌∷◌, inl, inr,
}
use file_recovery_engine.Prelude.{ltb, leb, ◌==◌, if◌then◌else◌, length, Bool-cases, leb→le}
use file_recovery_engine.Prelude.Outcome.{ok, err, panic, stuck, ◌>>=◌}
use file_recovery_engine.Prelude.Checked.{checked_add}
use file_recovery_engine.Prelude.Bytes.{Bytes}
use file_recovery_engine.Validator.Types.{
  FileFormat, ValidationReport, Judged, invalid, report, coherent, coherent_report,
}
use file_recovery_engine.Validator.Fields.{u16_le_total, slice_total, byte_at_total}
use file_recovery_engine.Validator.Archives.{
  validate_pdf, validate_zip, has_plausible_zip_local_header, validate_gzip, gzip_extra,
  gzip_string, gzip_crc, gzip_fields, gzip_end, then_step, validate_sevenz, validate_rar,
  validate_office_zip, check_tokens, required_tokens, validate_utf8_text, validate_rtf, Step,
}

pub validate_pdf-coherent : (bytes : Bytes) → coherent (validate_pdf bytes) ≡ true
unfolding validate_pdf
validate_pdf-coherent bytes = ground arith

pub validate_zip-coherent : (bytes : Bytes) → coherent (validate_zip bytes) ≡ true
unfolding validate_zip has_plausible_zip_local_header checked_add
validate_zip-coherent bytes = grind (arith, u16_le_total bytes 26, u16_le_total bytes 28)

pub validate_sevenz-coherent : (bytes : Bytes) → coherent (validate_sevenz bytes) ≡ true
unfolding validate_sevenz
validate_sevenz-coherent bytes = grind (arith, slice_total bytes 0 6)

pub validate_rar-coherent : (bytes : Bytes) → coherent (validate_rar bytes) ≡ true
unfolding validate_rar
validate_rar-coherent bytes = ground arith

pub validate_rtf-coherent : (bytes : Bytes) → coherent (validate_rtf bytes) ≡ true
unfolding validate_rtf
validate_rtf-coherent bytes = ground arith

pub validate_utf8_text-coherent :
    (ratio_below : ℕ → ℕ → Bool) (bytes : Bytes)
    → coherent (validate_utf8_text ratio_below bytes) ≡ true
unfolding validate_utf8_text
validate_utf8_text-coherent ratio_below bytes = ground arith

check_tokens-coherent :
    (bytes : Bytes) (tokens : List Bytes) (r : ValidationReport)
    → r.is_valid ≡ true
    → coherent_report r ≡ true
    → coherent_report (check_tokens bytes tokens r) ≡ true
unfolding check_tokens
check_tokens-coherent bytes [] r v h = h
check_tokens-coherent bytes (token ∷ tokens) r v h =
    grind (arith, check_tokens-coherent bytes tokens r v h)

-- What a field of the header may come to: a coherent report, or a cursor within the bytes.
abbrev good_step : ℕ → Judged Step → Bool
good_step size (ok (inl report)) = coherent_report report
good_step size (ok (inr cursor)) = leb cursor size
good_step size _ = false

gzip_extra-good_step :
    (bytes : Bytes) (flags cursor : ℕ)
    → cursor ≤ length bytes
    → good_step (length bytes) (gzip_extra bytes flags cursor) ≡ true
unfolding gzip_extra
gzip_extra-good_step bytes flags cursor h = grind (arith, u16_le_total bytes cursor)

gzip_string-good_step :
    (bytes : Bytes) (flags flag cursor : ℕ)
    → cursor ≤ length bytes
    → good_step (length bytes) (gzip_string bytes flags flag cursor) ≡ true
unfolding gzip_string
gzip_string-good_step bytes flags flag cursor h =
    grind (arith, slice_total bytes cursor (length bytes))

gzip_crc-good_step :
    (bytes : Bytes) (flags cursor : ℕ)
    → cursor ≤ length bytes
    → good_step (length bytes) (gzip_crc bytes flags cursor) ≡ true
unfolding gzip_crc
gzip_crc-good_step bytes flags cursor h = ground arith

good_step-then_step :
    (size : ℕ) (m : Judged Step) (f : ℕ → Judged Step)
    → good_step size m ≡ true
    → ((cursor : ℕ) → cursor ≤ size → good_step size (f cursor) ≡ true)
    → good_step size (then_step m f) ≡ true
good_step-then_step size (ok (inl report)) f h k = h
good_step-then_step size (ok (inr cursor)) f h k = k cursor (leb→le _ _ h)
good_step-then_step size (err e) f h k = absurd (cc)
good_step-then_step size panic f h k = absurd (cc)
good_step-then_step size stuck f h k = absurd (cc)

gzip_fields-good_step :
    (bytes : Bytes) (flags : ℕ)
    → 10 ≤ length bytes
    → good_step (length bytes) (gzip_fields bytes flags) ≡ true
unfolding gzip_fields
gzip_fields-good_step bytes flags h =
    let size = length bytes in
    good_step-then_step size _ _ (gzip_extra-good_step bytes flags 10 h) λ at_names in_names.
      good_step-then_step size _ _ (gzip_string-good_step bytes flags 0x08 at_names in_names)
        λ at_comment in_comment.
          good_step-then_step size _ _
            (gzip_string-good_step bytes flags 0x10 at_comment in_comment)
            λ at_crc in_crc. gzip_crc-good_step bytes flags at_crc in_crc

coherent-gzip_end :
    (bytes : Bytes) (m : Judged Step)
    → good_step (length bytes) m ≡ true
    → coherent (m >>= λ step. ok (gzip_end bytes step)) ≡ true
unfolding gzip_end
coherent-gzip_end bytes (ok (inl report)) h = h
coherent-gzip_end bytes (ok (inr cursor)) h = ground arith
coherent-gzip_end bytes (err e) h = absurd (cc)
coherent-gzip_end bytes panic h = absurd (cc)
coherent-gzip_end bytes stuck h = absurd (cc)

choose :
    (b : Bool) (m n : Judged ValidationReport)
    → coherent m ≡ true
    → coherent n ≡ true
    → coherent (if b then m else n) ≡ true
choose true m n h k = h
choose false m n h k = k

pub validate_gzip-coherent : (bytes : Bytes) → coherent (validate_gzip bytes) ≡ true
unfolding validate_gzip
validate_gzip-coherent bytes = elim (Bool-cases (ltb (length bytes) 10)) [
  | inl short ↦ rw short refl
  | inr long ↦
      let (b0, e) = byte_at_total bytes 0 (ground arith) in
      let (b1, f) = byte_at_total bytes 1 (ground arith) in
      let (b2, g) = byte_at_total bytes 2 (ground arith) in
      let (flags, i) = byte_at_total bytes 3 (ground arith) in
      let fields = gzip_fields-good_step bytes flags (ground arith) in
      let ended = coherent-gzip_end bytes (gzip_fields bytes flags) fields in
      rw (long, e, f, g, i)
        (choose (not (b0 == 0x1F) || not (b1 == 0x8B) || not (b2 == 0x08))
          (ok (invalid FileFormat.gzip "GZIP signature mismatch")) _ refl ended)
]

office_if :
    (bytes : Bytes) (format : FileFormat) (r : ValidationReport) (v : Bool)
    → r.is_valid ≡ v
    → coherent_report r ≡ true
    → coherent (
        if not v
        then ok (record r { format = format })
        else ok (record (check_tokens bytes (required_tokens format) r) { format = format }))
      ≡ true
office_if bytes format r true v h = check_tokens-coherent bytes (required_tokens format) r v h
office_if bytes format r false v h = h

office_of :
    (bytes : Bytes) (format : FileFormat) (m : Judged ValidationReport)
    → coherent m ≡ true
    → coherent (
        m >>= λ r.
        if not r.is_valid
        then ok (record r { format = format })
        else ok (record (check_tokens bytes (required_tokens format) r) { format = format }))
      ≡ true
office_of bytes format (ok r) h = office_if bytes format r r.is_valid refl h
office_of bytes format (err e) h = absurd (cc)
office_of bytes format panic h = absurd (cc)
office_of bytes format stuck h = absurd (cc)

pub validate_office_zip-coherent :
    (bytes : Bytes) (format : FileFormat) → coherent (validate_office_zip bytes format) ≡ true
unfolding validate_office_zip
validate_office_zip-coherent bytes format =
    office_of bytes format (validate_zip bytes) (validate_zip-coherent bytes)
