-- ===== src/Validator/Media/Total.antt =====
-- The media validators on arbitrary bytes.
use file_recovery_engine.Prelude.{
  ℕ, zero, suc, ◌+◌, ◌*◌, ◌≤◌, ◌<◌, ◌≡◌, refl, arith, Bool, true, false, ◌&&◌, ◌⊎◌, inl, inr,
}
use file_recovery_engine.Prelude.{ltb, leb, if◌then◌else◌, length, Bool-cases}
use file_recovery_engine.Prelude.Outcome.{ok, err, panic, stuck, ◌>>=◌}
use file_recovery_engine.Prelude.Bytes.{Bytes}
use file_recovery_engine.Validator.Types.{
  FileFormat, ValidationReport, Judged, partial, report, coherent, coherent_report,
}
use file_recovery_engine.Validator.Fields.{u32_le_total, u32_be_total, slice_total, byte_at_total}
use file_recovery_engine.Validator.Media.{
  validate_mp4, validate_avi, validate_midi, midi_track, validate_ogg, ogg_segments, validate_flac,
  flac_block, flac_loop, flac_end, validate_mp3, validate_wav, validate_thumbcache_db,
}

pub validate_mp4-coherent : (bytes : Bytes) → coherent (validate_mp4 bytes) ≡ true
unfolding validate_mp4
validate_mp4-coherent bytes = grind (arith, u32_be_total bytes 0, slice_total bytes 4 8)

pub validate_avi-coherent : (bytes : Bytes) → coherent (validate_avi bytes) ≡ true
unfolding validate_avi
validate_avi-coherent bytes =
    grind (arith, slice_total bytes 0 4, slice_total bytes 8 12, u32_le_total bytes 4)

midi_track-coherent : (bytes : Bytes) (end : ℕ) → coherent (midi_track bytes end) ≡ true
unfolding midi_track
midi_track-coherent bytes end =
    grind (arith, slice_total bytes end (end + 4), u32_be_total bytes (end + 4))

pub validate_midi-coherent : (bytes : Bytes) → coherent (validate_midi bytes) ≡ true
unfolding validate_midi
validate_midi-coherent bytes =
    grind (arith, slice_total bytes 0 4, u32_be_total bytes 4, midi_track-coherent)

ogg_segments-coherent :
    (bytes : Bytes) (segments : ℕ) → coherent (ogg_segments bytes segments) ≡ true
unfolding ogg_segments
ogg_segments-coherent bytes segments = grind (arith, slice_total bytes 27 (27 + segments))

pub validate_ogg-coherent : (bytes : Bytes) → coherent (validate_ogg bytes) ≡ true
unfolding validate_ogg
validate_ogg-coherent bytes = grind (
  arith,
  slice_total bytes 0 4,
  byte_at_total bytes 4,
  byte_at_total bytes 26,
  ogg_segments-coherent,
)

pub validate_mp3-coherent : (bytes : Bytes) → coherent (validate_mp3 bytes) ≡ true
unfolding validate_mp3
validate_mp3-coherent bytes = grind (arith, byte_at_total bytes 0, byte_at_total bytes 1)

pub validate_wav-coherent : (bytes : Bytes) → coherent (validate_wav bytes) ≡ true
unfolding validate_wav
validate_wav-coherent bytes =
    grind (arith, slice_total bytes 0 4, slice_total bytes 8 12, u32_le_total bytes 4)

pub validate_thumbcache_db-coherent :
    (bytes : Bytes) → coherent (validate_thumbcache_db bytes) ≡ true
unfolding validate_thumbcache_db
validate_thumbcache_db-coherent bytes = ground arith

-- What a metadata block may come to: a coherent report, or a cursor four bytes further at least,
-- within the bytes.
abbrev good_block : ℕ → ℕ → Judged (ValidationReport ⊎ (ℕ × Bool × Bool)) → Bool
good_block size cursor (ok (inl report)) = coherent_report report
good_block size cursor (ok (inr t)) = leb (cursor + 4) (t.0) && leb (t.0) size
good_block size cursor _ = false

within :
    (size from len cursor : ℕ) (saw last : Bool)
    → from ≡ cursor + 4
    → good_block size cursor (
        if ltb size (from + len)
        then ok (inl (partial FileFormat.flac "FLAC metadata block truncated"))
        else ok (inr (from + len, saw, last)))
      ≡ true
within size from len cursor saw last h = ground arith

flac_block-good_block :
    (bytes : Bytes) (cursor : ℕ) (saw : Bool)
    → good_block (length bytes) cursor (flac_block bytes cursor saw) ≡ true
unfolding flac_block
flac_block-good_block bytes cursor saw = elim (Bool-cases (ltb (length bytes) (cursor + 4))) [
  | inl short ↦ rw short refl
  | inr long ↦
      let (header, e) = byte_at_total bytes cursor (ground arith) in
      let (b1, f) = byte_at_total bytes (cursor + 1) (ground arith) in
      let (b2, g) = byte_at_total bytes (cursor + 2) (ground arith) in
      let (b3, i) = byte_at_total bytes (cursor + 3) (ground arith) in
      rw (long, e, f, g, i)
        (within (length bytes) (cursor + 4) (b1 * 65536 + b2 * 256 + b3) cursor _ _ refl)
]

flac_end-coherent : (saw : Bool) → coherent_report (flac_end saw) ≡ true
unfolding flac_end
flac_end-coherent true = refl
flac_end-coherent false = refl

abbrev after_block :
    (ℕ → Bool → Judged ValidationReport)
    → ValidationReport ⊎ (ℕ × Bool × Bool)
    → Judged ValidationReport
after_block f (inl report) = ok report
after_block f (inr (next, saw, is_last)) = if is_last then ok (flac_end saw) else f next saw

coherent-after_block :
    (size cursor : ℕ) (m : Judged (ValidationReport ⊎ (ℕ × Bool × Bool)))
    (f : ℕ → Bool → Judged ValidationReport)
    → good_block size cursor m ≡ true
    → ((next : ℕ) (saw : Bool) → cursor + 4 ≤ next → next ≤ size → coherent (f next saw) ≡ true)
    → coherent (m >>= after_block f) ≡ true
coherent-after_block size cursor (ok (inl report)) f h k = h
coherent-after_block size cursor (ok (inr (next, saw, true))) f h k = flac_end-coherent saw
coherent-after_block size cursor (ok (inr (next, saw, false))) f h k =
    k next saw (ground arith) (ground arith)
coherent-after_block size cursor (err e) f h k = absurd (cc)
coherent-after_block size cursor panic f h k = absurd (cc)
coherent-after_block size cursor stuck f h k = absurd (cc)

flac_loop-coherent :
    (bytes : Bytes) (fuel cursor : ℕ) (saw : Bool)
    → cursor ≤ length bytes
    → length bytes < fuel + cursor
    → coherent (flac_loop bytes fuel cursor saw) ≡ true
unfolding flac_loop
flac_loop-coherent bytes zero cursor saw h k = absurd (omega arith)
flac_loop-coherent bytes (suc fuel) cursor saw h k =
    coherent-after_block (length bytes) cursor (flac_block bytes cursor saw) (flac_loop bytes fuel)
      (flac_block-good_block bytes cursor saw)
      (λ next saw further inside. flac_loop-coherent bytes fuel next saw inside (omega arith))

pub validate_flac-coherent : (bytes : Bytes) → coherent (validate_flac bytes) ≡ true
unfolding validate_flac
validate_flac-coherent bytes =
    grind (arith, slice_total bytes 0 4, flac_loop-coherent bytes (length bytes) 4 false)
