-- ===== src/Validator/Media.antt =====
-- The validators of media: MP4, AVI, MIDI, OGG, FLAC, MP3, WAV and thumbnail caches.
pub mod Total
use file_recovery_engine.Prelude.{
  ℕ, zero, suc, ◌+◌, ◌-◌, ◌*◌, Bool, true, false, not, ◌||◌, ◌&&◌, Option, none, some, List, [],
  ◌∷◌, ◌++◌, ◌⊎◌, inl, inr,
}
use file_recovery_engine.Prelude.{ltb, leb, ◌==◌, if◌then◌else◌, length}
use file_recovery_engine.Prelude.Outcome.{ok, panic, stuck, or_panic, ◌>>=◌}
use file_recovery_engine.Prelude.Bytes.{Bytes, get_range, bytes_eq, ascii, starts_with}
use file_recovery_engine.Validator.Types.{
  FileFormat, ValidationReport, Judged, valid, partial, invalid,
}
use file_recovery_engine.Validator.Fields.{byte_at, slice, u16_le, u32_le, u32_be}
use Prim.Native.Nat.{bit_and}

unfoldable pub validate_mp4 : Bytes → Judged ValidationReport
validate_mp4 bytes =
    if ltb (length bytes) 16 then ok (invalid FileFormat.mp4 "MP4 candidate too small") else do
      box_size ← u32_be bytes 0
      kind ← slice bytes 4 8
      if not (bytes_eq kind (ascii "ftyp"))
          then ok (invalid FileFormat.mp4 "MP4 ftyp box missing")
          else if ltb box_size 16
          then ok (invalid FileFormat.mp4 "MP4 ftyp box size is implausible")
          else if ltb (length bytes) box_size
          then ok (partial FileFormat.mp4 "MP4 ftyp box exceeds captured bytes (likely truncated)")
          else ok (valid FileFormat.mp4)

unfoldable pub validate_avi : Bytes → Judged ValidationReport
validate_avi bytes =
    if ltb (length bytes) 12 then ok (invalid FileFormat.avi "AVI candidate too small") else do
      riff ← slice bytes 0 4
      kind ← slice bytes 8 12
      if not (bytes_eq riff (ascii "RIFF")) || not (bytes_eq kind (ascii "AVI "))
          then ok (invalid FileFormat.avi "AVI RIFF/AVI markers missing")
          else do
            size ← u32_le bytes 4
            if ltb (length bytes) (size + 8)
                then ok (
                    partial FileFormat.avi
                      "AVI RIFF size exceeds captured bytes (likely truncated)")
                else ok (valid FileFormat.avi)

-- The first track, behind a header that ends at `header_end`.
unfoldable pub midi_track : Bytes → ℕ → Judged ValidationReport
midi_track bytes header_end =
    if ltb (length bytes) header_end
    then ok (partial FileFormat.midi "MIDI header truncated")
    else if ltb (length bytes) (header_end + 8)
    then ok (partial FileFormat.midi "MIDI first track header truncated")
    else do
      kind ← slice bytes header_end (header_end + 4)
      if not (bytes_eq kind (ascii "MTrk"))
          then ok (invalid FileFormat.midi "MIDI track marker missing")
          else do
            track_len ← u32_be bytes (header_end + 4)
            if ltb (length bytes) (header_end + 8 + track_len)
                then ok (partial FileFormat.midi "MIDI track payload truncated")
                else ok (valid FileFormat.midi)

unfoldable pub validate_midi : Bytes → Judged ValidationReport
validate_midi bytes =
    if ltb (length bytes) 14 then ok (invalid FileFormat.midi "MIDI candidate too small") else do
      kind ← slice bytes 0 4
      if not (bytes_eq kind (ascii "MThd"))
          then ok (invalid FileFormat.midi "MIDI header marker missing")
          else do
            header_len ← u32_be bytes 4
            if ltb header_len 6
                then ok (invalid FileFormat.midi "MIDI header length is implausible")
                else midi_track bytes (8 + header_len)

unfoldable pub sum : Bytes → ℕ
sum [] = 0
sum (b ∷ bs) = b + sum bs

-- The segment table and the payload of a page with `segment_count` segments.
unfoldable pub ogg_segments : Bytes → ℕ → Judged ValidationReport
ogg_segments bytes segment_count =
    if ltb (length bytes) (27 + segment_count)
    then ok (partial FileFormat.ogg "OGG segment table truncated")
    else do
      table ← slice bytes 27 (27 + segment_count)
      if ltb (length bytes) (27 + segment_count + sum table)
          then ok (partial FileFormat.ogg "OGG page payload truncated")
          else ok (valid FileFormat.ogg)

unfoldable pub validate_ogg : Bytes → Judged ValidationReport
validate_ogg bytes =
    if ltb (length bytes) 27 then ok (invalid FileFormat.ogg "OGG candidate too small") else do
      kind ← slice bytes 0 4
      if not (bytes_eq kind (ascii "OggS"))
          then ok (invalid FileFormat.ogg "OGG capture pattern missing")
          else do
            version ← byte_at bytes 4
            if not (version == 0)
                then ok (invalid FileFormat.ogg "OGG version is unsupported")
                else (byte_at bytes 26 >>= λ segment_count. ogg_segments bytes segment_count)

-- One metadata block at `cursor`: a report that the function returns, or the cursor behind the
-- block, `saw_streaminfo` and whether the block is the last one.
unfoldable pub flac_block : Bytes → ℕ → Bool → Judged (ValidationReport ⊎ (ℕ × Bool × Bool))
flac_block bytes cursor saw_streaminfo =
    if ltb (length bytes) (cursor + 4)
    then ok (inl (partial FileFormat.flac "FLAC metadata header truncated"))
    else do
      header ← byte_at bytes cursor
      b1 ← byte_at bytes (cursor + 1)
      b2 ← byte_at bytes (cursor + 2)
      b3 ← byte_at bytes (cursor + 3)
      let is_last = not (bit_and header 0x80 == 0)
      let block_type = bit_and header 0x7F
      let block_len = b1 * 65536 + b2 * 256 + b3
      let saw = if block_type == 0 then true else saw_streaminfo
      if ltb (length bytes) (cursor + 4 + block_len)
          then ok (inl (partial FileFormat.flac "FLAC metadata block truncated"))
          else ok (inr (cursor + 4 + block_len, saw, is_last))

pub flac_end : Bool → ValidationReport
flac_end false = invalid FileFormat.flac "FLAC STREAMINFO metadata block missing"
flac_end true = valid FileFormat.flac

-- `loop`. A round takes four bytes or ends the loop.
pub flac_loop : Bytes → ℕ → ℕ → Bool → Judged ValidationReport
unfolding flac_end
flac_loop bytes zero cursor saw_streaminfo = stuck
flac_loop bytes (suc fuel) cursor saw_streaminfo =
    flac_block bytes cursor saw_streaminfo >>= λ round. elim round [
      | inl report ↦ ok report
      | inr (next, saw, is_last) ↦
          let rest = flac_loop bytes fuel next saw in if is_last then ok (flac_end saw) else rest
    ]

unfoldable pub validate_flac : Bytes → Judged ValidationReport
unfolding flac_loop
validate_flac bytes =
    if ltb (length bytes) 8 then ok (invalid FileFormat.flac "FLAC candidate too small") else do
      kind ← slice bytes 0 4
      if not (bytes_eq kind (ascii "fLaC"))
          then ok (invalid FileFormat.flac "FLAC signature mismatch")
          else flac_loop bytes (length bytes) 4 false

unfoldable pub validate_mp3 : Bytes → Judged ValidationReport
validate_mp3 bytes =
    if ltb (length bytes) 4 then ok (invalid FileFormat.mp3 "MP3 candidate too small") else do
      b0 ← byte_at bytes 0
      b1 ← byte_at bytes 1
      let has_id3 = starts_with bytes (ascii "ID3")
      let has_frame_sync = b0 == 0xFF && bit_and b1 0xE0 == 0xE0
      if not has_id3 && not has_frame_sync
          then ok (invalid FileFormat.mp3 "MP3 signature missing")
          else if ltb (length bytes) 256
          then ok (partial FileFormat.mp3 "MP3 stream appears truncated")
          else ok (valid FileFormat.mp3)

unfoldable pub validate_wav : Bytes → Judged ValidationReport
validate_wav bytes =
    if ltb (length bytes) 12 then ok (invalid FileFormat.wav "WAV candidate too small") else do
      riff ← slice bytes 0 4
      kind ← slice bytes 8 12
      if not (bytes_eq riff (ascii "RIFF")) || not (bytes_eq kind (ascii "WAVE"))
          then ok (invalid FileFormat.wav "WAV RIFF/WAVE markers missing")
          else do
            size ← u32_le bytes 4
            if ltb (length bytes) (size + 8)
                then ok (
                    partial FileFormat.wav
                      "WAV RIFF size exceeds captured bytes (likely truncated)")
                else ok (valid FileFormat.wav)

unfoldable pub validate_thumbcache_db : Bytes → Judged ValidationReport
validate_thumbcache_db bytes =
    if ltb (length bytes) 128
    then ok (invalid FileFormat.thumbcache_db "Thumbcache candidate too small")
    else if not (starts_with bytes (ascii "CMMM"))
    then ok (invalid FileFormat.thumbcache_db "Thumbcache CMMM header missing")
    else if ltb (length bytes) 1024
    then ok (partial FileFormat.thumbcache_db "Thumbcache payload appears truncated")
    else ok (valid FileFormat.thumbcache_db)
