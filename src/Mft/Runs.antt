-- ===== src/Mft/Runs.antt =====
-- `parse_data_runs`: the mapping pairs of a non-resident attribute.
pub mod Total
use Prim.Native.Nat.{bit_and}
use file_recovery_engine.Prelude.{ℕ, zero, suc, ◌+◌, ◌-◌, ◌/◌, Bool, true, false, not, ◌||◌, ◌&&◌}
use file_recovery_engine.Prelude.{Option, none, some, List, [], ◌∷◌, ◌++◌}
use file_recovery_engine.Prelude.{ltb, leb, ◌==◌, if◌then◌else◌, length, get_elem?, replicate}
use file_recovery_engine.Prelude.Outcome.{
  ok, err, panic, stuck, fail_if, or_panic, ok_or, ◌>>=◌, ◌>>◌,
}
use file_recovery_engine.Prelude.Bytes.{Bytes, get_range, from_le}
use file_recovery_engine.Prelude.Int.{ℤ, pos, checked_addℤ, as_i64}
use file_recovery_engine.Mft.Types.{DataRun, invalid_data_run_header, invalid_data_run_length}
use file_recovery_engine.Mft.Types.{data_run_out_of_bounds, data_run_lcn_overflow}
use file_recovery_engine.Mft.Fields.{Parsed}

-- `out[..bytes.len()].copy_from_slice(bytes)` on eight zeros, and the number; the callers hand in
-- eight bytes at most, and a longer slice would panic.
unfoldable pub parse_unsigned_le : Bytes → Parsed ℕ
parse_unsigned_le bytes =
    if leb (length bytes) 8 then ok (from_le (bytes ++ replicate (8 - length bytes) 0)) else panic

-- `!bytes.is_empty() && bytes[bytes.len() - 1] & 0x80 != 0`.
pub is_negative : Bytes → Bool
is_negative [] = false
is_negative (b ∷ []) = not (bit_and b 0x80 == 0)
is_negative (b ∷ c ∷ bs) = is_negative (c ∷ bs)

unfoldable pub parse_signed_le : Bytes → Parsed ℤ
unfolding is_negative
parse_signed_le bytes =
    if leb (length bytes) 8
    then ok (
        as_i64
          (from_le (bytes ++ replicate (8 - length bytes) (if is_negative bytes then 0xFF else 0))))
    else panic

-- The LCN of a run and the LCN that the next run counts from.
pub run_lcn : ℕ → Bytes → ℤ → Parsed (Option ℤ × ℤ)
run_lcn offset_size run_offset_slice current_lcn =
    if offset_size == 0 then ok (none, current_lcn) else do
      lcn_delta ← parse_signed_le run_offset_slice
      next_lcn ← ok_or (checked_addℤ current_lcn lcn_delta) data_run_lcn_overflow
      ok (some next_lcn, next_lcn)

-- One round of the loop behind the header byte: the run, the LCN and the cursor after it.
pub parse_run : Bytes → ℕ → ℕ → ℤ → Parsed (DataRun × ℤ × ℕ)
unfolding run_lcn
parse_run mapping_pairs header cursor current_lcn = do
  let length_size = bit_and header 0x0F
  let offset_size = header / 16
  fail_if (length_size == 0 || ltb 8 length_size || ltb 8 offset_size)
      (invalid_data_run_header header)
  fail_if (ltb (length mapping_pairs) (cursor + length_size + offset_size)) data_run_out_of_bounds
  length_slice ← or_panic (get_range mapping_pairs cursor (cursor + length_size))
  run_length ← parse_unsigned_le length_slice
  fail_if (run_length == 0) invalid_data_run_length
  run_offset_slice ←
      or_panic (get_range mapping_pairs (cursor + length_size) (cursor + length_size + offset_size))
  (lcn, next_lcn) ← run_lcn offset_size run_offset_slice current_lcn
  ok (
    record { cluster_count = run_length; lcn = lcn },
    next_lcn,
    cursor + length_size + offset_size,
  )

-- `while cursor < mapping_pairs.len()`. A round takes two bytes or ends the loop.
pub runs_loop : Bytes → ℕ → ℕ → ℤ → List DataRun → Parsed (List DataRun)
unfolding parse_run
runs_loop mapping_pairs zero cursor current_lcn runs =
    if ltb cursor (length mapping_pairs) then stuck else ok runs
runs_loop mapping_pairs (suc fuel) cursor current_lcn runs =
    if not (ltb cursor (length mapping_pairs)) then ok runs else do
      header ← or_panic (get_elem? mapping_pairs cursor)
      if header == 0 then ok runs else do
        (run, next_lcn, next) ← parse_run mapping_pairs header (cursor + 1) current_lcn
        runs_loop mapping_pairs fuel next next_lcn (runs ++ (run ∷ []))

unfoldable pub parse_data_runs : Bytes → Parsed (List DataRun)
unfolding runs_loop
parse_data_runs mapping_pairs = runs_loop mapping_pairs (length mapping_pairs) 0 (pos 0) []
