-- ===== src/Validator/Images/Total.antt =====
-- The image validators on arbitrary bytes.
use file_recovery_engine.Prelude.{
  ℕ, zero, suc, ◌+◌, ◌≤◌, ◌≡◌, refl, arith, Bool, true, false, ◌⊎◌, inl, inr,
}
use file_recovery_engine.Prelude.{leb, length, Bool-cases, leb→le}
use file_recovery_engine.Prelude.Outcome.{ok, err, panic, stuck, ◌>>=◌}
use file_recovery_engine.Prelude.Checked.{checked_add}
use file_recovery_engine.Prelude.Bytes.{Bytes}
use file_recovery_engine.Validator.Types.{Judged, report, coherent, coherent_report}
use file_recovery_engine.Validator.Fields.{u32_le_total, u32_be_total, slice_total}
use file_recovery_engine.Validator.Images.{
  Scan, validate_jpeg, validate_png, validate_gif, validate_bmp, validate_tiff, validate_webp,
  png_chunk, png_round, png_loop, png_end,
}

pub validate_jpeg-coherent : (bytes : Bytes) → coherent (validate_jpeg bytes) ≡ true
unfolding validate_jpeg
validate_jpeg-coherent bytes = ground arith

pub validate_gif-coherent : (bytes : Bytes) → coherent (validate_gif bytes) ≡ true
unfolding validate_gif
validate_gif-coherent bytes = ground arith

pub validate_bmp-coherent : (bytes : Bytes) → coherent (validate_bmp bytes) ≡ true
unfolding validate_bmp
validate_bmp-coherent bytes = grind (arith, slice_total bytes 0 2, u32_le_total bytes 2)

pub validate_tiff-coherent : (bytes : Bytes) → coherent (validate_tiff bytes) ≡ true
unfolding validate_tiff
validate_tiff-coherent bytes = grind (arith, u32_be_total bytes 4, u32_le_total bytes 4)

pub validate_webp-coherent : (bytes : Bytes) → coherent (validate_webp bytes) ≡ true
unfolding validate_webp
validate_webp-coherent bytes =
    grind (arith, slice_total bytes 0 4, slice_total bytes 8 12, u32_le_total bytes 4)

abbrev pub coherent_scan : Scan → Bool
coherent_scan (inl report) = coherent_report report
coherent_scan (inr saw_iend) = true

-- What a round of the loop may come to: a coherent end, or a cursor twelve bytes further at least.
abbrev good_round : ℕ → Judged (Scan ⊎ ℕ) → Bool
good_round cursor (ok (inl scan)) = coherent_scan scan
good_round cursor (ok (inr next)) = leb (cursor + 12) next
good_round cursor _ = false

png_chunk-good_round :
    (bytes : Bytes) (cursor : ℕ)
    → cursor + 12 ≤ length bytes
    → good_round cursor (png_chunk bytes cursor) ≡ true
unfolding png_chunk png_round checked_add
png_chunk-good_round bytes cursor h =
    let (size, e) = u32_be_total bytes cursor (omega arith) in
    let (kind, f) = slice_total bytes (cursor + 4) (cursor + 8) (omega arith) (omega arith) in
    rw (e, f) (ground arith)

abbrev good_scan : Judged Scan → Bool
good_scan (ok scan) = coherent_scan scan
good_scan _ = false

good_scan-round :
    (cursor : ℕ) (m : Judged (Scan ⊎ ℕ)) (f : ℕ → Judged Scan)
    → good_round cursor m ≡ true
    → ((next : ℕ) → cursor + 12 ≤ next → good_scan (f next) ≡ true)
    → good_scan (m >>= λ round. elim round [ inl end ↦ ok end | inr next ↦ f next ]) ≡ true
good_scan-round cursor (ok (inl scan)) f h k = h
good_scan-round cursor (ok (inr next)) f h k = k next (leb→le _ _ h)
good_scan-round cursor (err e) f h k = absurd (cc)
good_scan-round cursor panic f h k = absurd (cc)
good_scan-round cursor stuck f h k = absurd (cc)

png_loop-good_scan :
    (bytes : Bytes) (fuel cursor : ℕ)
    → length bytes ≤ fuel + cursor
    → good_scan (png_loop bytes fuel cursor) ≡ true
unfolding png_loop
png_loop-good_scan bytes zero cursor h = ground arith
png_loop-good_scan bytes (suc fuel) cursor h =
    elim (Bool-cases (leb (cursor + 12) (length bytes))) [
      | inr done ↦ rw done refl
      | inl more ↦ rw more (
          good_scan-round cursor (png_chunk bytes cursor) (png_loop bytes fuel)
            (png_chunk-good_round bytes cursor (leb→le _ _ more))
            (λ next further. png_loop-good_scan bytes fuel next (omega arith)))
    ]

coherent-png_end :
    (m : Judged Scan) → good_scan m ≡ true → coherent (m >>= λ scan. ok (png_end scan)) ≡ true
unfolding png_end
coherent-png_end (ok (inl report)) h = h
coherent-png_end (ok (inr true)) h = refl
coherent-png_end (ok (inr false)) h = refl
coherent-png_end (err e) h = absurd (cc)
coherent-png_end panic h = absurd (cc)
coherent-png_end stuck h = absurd (cc)

pub validate_png-coherent : (bytes : Bytes) → coherent (validate_png bytes) ≡ true
unfolding validate_png
validate_png-coherent bytes =
    let ended = coherent-png_end _ (png_loop-good_scan bytes (length bytes) 8 (omega arith)) in
    ground arith
