-- ===== src/Validator/Tests.antt =====
-- A truncated PNG, and the theorems on it.
use file_recovery_engine.Prelude.{ℕ, ◌*◌, ◌≡◌, Bool, true, none, some, [], ◌∷◌}
use file_recovery_engine.Prelude.Outcome.{ok}
use file_recovery_engine.Prelude.Bytes.{Bytes}
use file_recovery_engine.Prelude.{ltb}
use file_recovery_engine.Validator.Types.{FileFormat, ValidationReport, coherent_report}
use file_recovery_engine.Prelude.{◌↔◌, arith}
use file_recovery_engine.Prelude.Bytes.{starts_with}
use file_recovery_engine.Validator.Images.{png_sig, validate_png}
use file_recovery_engine.Validator.Images.Chunks.{Chunks, whole, validate_png_iff}
use file_recovery_engine.Validator.Carved.{
  validate_carved_bytes, validate_carved_bytes_with_extension,
}
use file_recovery_engine.Validator.Carved.Total.{
  Checked, validate_carved_bytes-coherent, validate_carved_bytes_with_extension-Checked,
}

-- The signature and a chunk that claims 255 bytes of data.
abbrev cut_png : Bytes
cut_png =
    137 ∷ 80 ∷ 78 ∷ 71 ∷ 13 ∷ 10 ∷ 26 ∷ 10 ∷ 0 ∷ 0 ∷ 0 ∷ 255 ∷ 73 ∷ 68 ∷ 65 ∷ 84 ∷ 1 ∷ 2 ∷ 3 ∷ 4
    ∷ []

-- The ratio in whole numbers.
abbrev below_85_percent : ℕ → ℕ → Bool
below_85_percent printable total = ltb (printable * 100) (total * 85)

validate_carved_bytes-coherent_example :
    (r : ValidationReport) × (validate_carved_bytes below_85_percent FileFormat.png cut_png ≡ ok r)
    × (coherent_report r ≡ true)
    × (r.format ≡ FileFormat.png)
    × (r.extension_matches ≡ none)
validate_carved_bytes-coherent_example =
    validate_carved_bytes-coherent below_85_percent FileFormat.png cut_png

validate_carved_bytes_with_extension-Checked_example :
    (r : ValidationReport) × (checked : ValidationReport) × (validate_carved_bytes below_85_percent
        FileFormat.png cut_png
      ≡ ok r)
    × (validate_carved_bytes_with_extension below_85_percent FileFormat.png cut_png
          (some (46 ∷ 80 ∷ 78 ∷ 71 ∷ []))
        ≡ ok checked)
    × (r.format ≡ FileFormat.png)
    × Checked r (46 ∷ 80 ∷ 78 ∷ 71 ∷ []) checked
validate_carved_bytes_with_extension-Checked_example =
    validate_carved_bytes_with_extension-Checked below_85_percent FileFormat.png cut_png
      (46 ∷ 80 ∷ 78 ∷ 71 ∷ [])

validate_png_iff_example :
    (whole (validate_png cut_png) ≡ true)
    ↔ ((starts_with cut_png png_sig ≡ true) × Chunks cut_png 8)
validate_png_iff_example = validate_png_iff cut_png (omega arith)
