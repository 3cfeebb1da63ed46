-- ===== src/Validator/Types.antt =====
-- Formats and reports. A report's reasons are its messages in order.
use file_recovery_engine.Prelude.{
  ℕ, Bool, true, false, not, ◌&&◌, if◌then◌else◌, Option, none, List, [], ◌∷◌, String,
}
use file_recovery_engine.Prelude.Outcome.{Outcome}
use file_recovery_engine.Prelude.Bytes.{Bytes, ascii}

pub data FileFormat : Type 0 where
  jpeg png gif bmp tiff webp pdf zip gzip seven_zip rar docx xlsx pptx : FileFormat
  utf8_text rtf mp4 avi midi ogg flac mp3 wav thumbcache_db : FileFormat

unfoldable pub default_extension : FileFormat → Bytes
default_extension FileFormat.jpeg = ascii "jpg"
default_extension FileFormat.png = ascii "png"
default_extension FileFormat.gif = ascii "gif"
default_extension FileFormat.bmp = ascii "bmp"
default_extension FileFormat.tiff = ascii "tiff"
default_extension FileFormat.webp = ascii "webp"
default_extension FileFormat.pdf = ascii "pdf"
default_extension FileFormat.zip = ascii "zip"
default_extension FileFormat.gzip = ascii "gz"
default_extension FileFormat.seven_zip = ascii "7z"
default_extension FileFormat.rar = ascii "rar"
default_extension FileFormat.docx = ascii "docx"
default_extension FileFormat.xlsx = ascii "xlsx"
default_extension FileFormat.pptx = ascii "pptx"
default_extension FileFormat.utf8_text = ascii "txt"
default_extension FileFormat.rtf = ascii "rtf"
default_extension FileFormat.mp4 = ascii "mp4"
default_extension FileFormat.avi = ascii "avi"
default_extension FileFormat.midi = ascii "mid"
default_extension FileFormat.ogg = ascii "ogg"
default_extension FileFormat.flac = ascii "flac"
default_extension FileFormat.mp3 = ascii "mp3"
default_extension FileFormat.wav = ascii "wav"
default_extension FileFormat.thumbcache_db = ascii "db"

-- `extension_mismatch` is the formatted message, with the two extensions that it shows.
pub data Reason : Type 0 where
  message : String → Reason
  extension_mismatch : (expected found : List ℕ) → Reason

pub record ValidationReport : Type 0 where
  pub format : FileFormat
  pub is_valid : Bool
  pub partial : Bool
  pub extension_matches : Option Bool
  pub reasons : List Reason

abbrev pub report : FileFormat → Bool → Bool → List Reason → ValidationReport
report format is_valid partial reasons = record {
  format = format;
  is_valid = is_valid;
  partial = partial;
  extension_matches = none;
  reasons = reasons;
}

-- The three constructors of a report, with the one reason that their callers push.
abbrev pub valid : FileFormat → ValidationReport
valid format = report format true false []

abbrev pub partial : FileFormat → String → ValidationReport
partial format reason = report format true true (message reason ∷ [])

abbrev pub invalid : FileFormat → String → ValidationReport
invalid format reason = report format false false (message reason ∷ [])

-- The validators return no error; they could only panic.
pub data NoError : Type 0 where

abbrev pub Judged {ℓ} : Type ℓ → Type ℓ
Judged A = Outcome NoError A

abbrev no_reason : List Reason → Bool
no_reason [] = true
no_reason (r ∷ reasons) = false

-- A report of a validator: it is partial only if it is valid, and it gives a reason exactly if it is
-- not valid and whole.
abbrev pub coherent_report : ValidationReport → Bool
coherent_report r =
    if r.is_valid
    then (if r.partial then not (no_reason r.reasons) else no_reason r.reasons)
    else not r.partial && not (no_reason r.reasons)

abbrev pub coherent : Judged ValidationReport → Bool
coherent (Outcome.ok r) = coherent_report r
coherent _ = false
