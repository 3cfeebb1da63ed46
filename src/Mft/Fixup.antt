-- ===== src/Mft/Fixup.antt =====
-- `apply_update_sequence_fixup`: the last two bytes of each sector are checked against the update
-- sequence number and replaced from the update sequence array.
pub mod Total
pub mod Repairs
pub mod Restores
use file_recovery_engine.Prelude.{ℕ, zero, suc, ◌+◌, ◌-◌, ◌*◌, ◌/◌, ◌%◌, Bool, not, ◌||◌, List}
use file_recovery_engine.Prelude.{ltb, leb, ◌==◌, if◌then◌else◌, length, set}
use file_recovery_engine.Prelude.Outcome.{ok, err, panic, fail_if, ◌>>=◌, ◌>>◌}
use file_recovery_engine.Prelude.Checked.{saturating_mul}
use file_recovery_engine.Prelude.Bytes.{Bytes}
use file_recovery_engine.Mft.Types.{fixup_mismatch, invalid_update_sequence_array}
use file_recovery_engine.Mft.Fields.{Parsed, read_u16}

-- `fixed[offset..offset + 2].copy_from_slice(&value.to_le_bytes())`.
pub write_u16 : Bytes → ℕ → ℕ → Parsed Bytes
write_u16 fixed offset value =
    if leb (offset + 2) (length fixed)
    then ok (set (set fixed offset (value % 256)) (offset + 1) (value / 256 % 256))
    else panic

module _ (record_bytes : Bytes) (bytes_per_sector usa_offset usa_count sequence_number : ℕ) where
  -- The body of the loop, for one sector.
  pub fixup_sector : ℕ → Bytes → Parsed Bytes
  unfolding write_u16
  fixup_sector sector fixed = do
    let end_of_sector = saturating_mul sector bytes_per_sector
    fail_if (ltb end_of_sector 2 || ltb (length fixed) end_of_sector)
        (invalid_update_sequence_array usa_offset usa_count)
    let fixup_offset = end_of_sector - 2
    current_value ← read_u16 fixed fixup_offset
    fail_if (not (current_value == sequence_number))
        (fixup_mismatch (sector - 1) sequence_number current_value)
    replacement ← read_u16 record_bytes (usa_offset + sector * 2)
    write_u16 fixed fixup_offset replacement

  -- `for sector in 1..usa_count`, at `sector` with `left` rounds to go.
  pub fixup_loop : ℕ → ℕ → Bytes → Parsed Bytes
  unfolding fixup_sector
  fixup_loop zero sector fixed = ok fixed
  fixup_loop (suc left) sector fixed = fixup_sector sector fixed >>= fixup_loop left (sector + 1)

unfoldable pub apply_update_sequence_fixup : Bytes → ℕ → Parsed Bytes
unfolding fixup_loop
apply_update_sequence_fixup record_bytes bytes_per_sector = do
  usa_offset ← read_u16 record_bytes 0x04
  usa_count ← read_u16 record_bytes 0x06
  fail_if (usa_count == 0) (invalid_update_sequence_array usa_offset 0)
  let usa_bytes = saturating_mul usa_count 2
  fail_if (ltb (length record_bytes) (usa_offset + usa_bytes))
      (invalid_update_sequence_array usa_offset usa_count)
  sequence_number ← read_u16 record_bytes usa_offset
  fixup_loop record_bytes bytes_per_sector usa_offset usa_count sequence_number (usa_count - 1) 1
      record_bytes
