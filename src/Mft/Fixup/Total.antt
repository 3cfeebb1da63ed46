-- ===== src/Mft/Fixup/Total.antt =====
-- `apply_update_sequence_fixup` never faults on a record that holds its fixed fields.
use file_recovery_engine.Prelude.{
  ℕ, zero, suc, ◌+◌, ◌-◌, ◌*◌, ◌/◌, ◌%◌, ◌≤◌, ◌<◌, ◌≡◌, ◌∙◌, arith, false,
}
use file_recovery_engine.Prelude.{ltb, ◌==◌, length, length-set, set}
use file_recovery_engine.Prelude.Outcome.{
  ok, Returns, Returns-bind, bind-eq-ok, fail_if-eq-ok, Returns-fail_if,
}
use file_recovery_engine.Prelude.Checked.{saturating_mul}
use file_recovery_engine.Prelude.Bytes.{Bytes, IsSlice}
use file_recovery_engine.Mft.Fields.{read_u16, read_u16_total}
use file_recovery_engine.Mft.Fixup.{
  write_u16, fixup_sector, fixup_loop, apply_update_sequence_fixup,
}

write_u16-length :
    (fixed : Bytes) (offset value : ℕ) {out : Bytes}
    → write_u16 fixed offset value ≡ ok out
    → length out ≡ length fixed
unfolding write_u16
write_u16-length fixed offset value e = ground (
  arith,
  length-set (set fixed offset (value % 256)) (offset + 1) (value / 256 % 256),
  length-set fixed offset (value % 256),
)

module _ (record_bytes : Bytes) (bps usa_offset usa_count seq : ℕ) where
  pub fixup_sector-length :
      (sector : ℕ) (fixed : Bytes) {out : Bytes}
      → fixup_sector record_bytes bps usa_offset usa_count seq sector fixed ≡ ok out
      → length out ≡ length fixed
  unfolding fixup_sector
  fixup_sector-length sector fixed e = grind (arith, write_u16-length)

  fixup_loop-length :
      (left sector : ℕ) (fixed : Bytes) {out : Bytes}
      → fixup_loop record_bytes bps usa_offset usa_count seq left sector fixed ≡ ok out
      → length out ≡ length fixed
  unfolding fixup_loop
  fixup_loop-length zero sector fixed e = ground arith
  fixup_loop-length (suc left) sector fixed e =
      let (mid, first, rest) = bind-eq-ok _ _ e in
      fixup_loop-length left (sector + 1) mid rest ∙ fixup_sector-length sector fixed first

module _ (record_bytes : Bytes) (bps usa_offset usa_count seq : ℕ)
    (array_fits : usa_offset + usa_count * 2 ≤ length record_bytes) where
  fixup_sector-Returns :
      (sector : ℕ) (fixed : Bytes)
      → sector < usa_count
      → Returns (fixup_sector record_bytes bps usa_offset usa_count seq sector fixed)
  unfolding fixup_sector write_u16
  fixup_sector-Returns sector fixed h =
      let tail = saturating_mul sector bps - 2 in
      grind
        (arith, read_u16_total fixed tail, read_u16_total record_bytes (usa_offset + sector * 2))

  fixup_loop-Returns :
      (left sector : ℕ) (fixed : Bytes)
      → left + sector ≤ usa_count
      → Returns (fixup_loop record_bytes bps usa_offset usa_count seq left sector fixed)
  unfolding fixup_loop
  fixup_loop-Returns zero sector fixed h = (λ p. cc, λ p. cc)
  fixup_loop-Returns (suc left) sector fixed h =
      Returns-bind _ _ (fixup_sector-Returns sector fixed (omega arith))
        (λ out e. fixup_loop-Returns left (sector + 1) out (omega arith))

array_in_record :
    (record_bytes : Bytes) (offset count : ℕ)
    → IsSlice record_bytes
    → ltb (length record_bytes) (offset + saturating_mul count 2) ≡ false
    → offset + count * 2 ≤ length record_bytes
unfolding saturating_mul
array_in_record record_bytes offset count h e = ground arith

-- On a record of 8 bytes or more the fixup returns, with the fixed bytes or with an error, for
-- every sector size.
pub apply_update_sequence_fixup-Returns :
    (record_bytes : Bytes) (bps : ℕ)
    → IsSlice record_bytes
    → 8 ≤ length record_bytes
    → Returns (apply_update_sequence_fixup record_bytes bps)
unfolding apply_update_sequence_fixup
apply_update_sequence_fixup-Returns record_bytes bps slice h =
    let (offset, at_offset) = read_u16_total record_bytes 4 (omega arith) in
    let (count, at_count) = read_u16_total record_bytes 6 (omega arith) in
    rw (at_offset, at_count)
      (Returns-fail_if (count == 0) _ _ (λ some_count.
        Returns-fail_if (ltb (length record_bytes) (offset + saturating_mul count 2)) _ _
          (λ in_record.
            let fits = array_in_record record_bytes offset count slice in_record in
            let positive : 1 ≤ count = ground arith in
            let (seq, at_seq) = read_u16_total record_bytes offset (omega arith) in
            rw at_seq (
              fixup_loop-Returns record_bytes bps offset count seq fits (count - 1) 1 record_bytes
                (omega arith)))))

-- What a successful fixup has read, and the run of its loop.
pub record Ran (record_bytes : Bytes) (bps : ℕ) (out : Bytes) : Type 0 where
  pub offset : ℕ
  pub count : ℕ
  pub seq : ℕ
  pub at_offset : read_u16 record_bytes 0x04 ≡ ok offset
  pub at_count : read_u16 record_bytes 0x06 ≡ ok count
  pub positive : 1 ≤ count
  pub in_record : ltb (length record_bytes) (offset + saturating_mul count 2) ≡ false
  pub at_seq : read_u16 record_bytes offset ≡ ok seq
  pub looped : fixup_loop record_bytes bps offset count seq (count - 1) 1 record_bytes ≡ ok out

pub apply_update_sequence_fixup-Ran :
    (record_bytes : Bytes) (bps : ℕ) {out : Bytes}
    → apply_update_sequence_fixup record_bytes bps ≡ ok out
    → Ran record_bytes bps out
unfolding apply_update_sequence_fixup
apply_update_sequence_fixup-Ran record_bytes bps e =
    let (offset, at_offset, e₁) = bind-eq-ok (read_u16 record_bytes 0x04) _ e in
    let (count, at_count, e₂) = bind-eq-ok (read_u16 record_bytes 0x06) _ e₁ in
    let (some_count, e₃) = fail_if-eq-ok (count == 0) _ _ e₂ in
    let (in_record, e₄) =
      fail_if-eq-ok (ltb (length record_bytes) (offset + saturating_mul count 2)) _ _ e₃ in
    let (seq, at_seq, looped) = bind-eq-ok (read_u16 record_bytes offset) _ e₄ in
    record {
      offset = offset;
      count = count;
      seq = seq;
      at_offset = at_offset;
      at_count = at_count;
      positive = ground arith;
      in_record = in_record;
      at_seq = at_seq;
      looped = looped;
    }

pub apply_update_sequence_fixup-length :
    (record_bytes : Bytes) (bps : ℕ) {out : Bytes}
    → apply_update_sequence_fixup record_bytes bps ≡ ok out
    → length out ≡ length record_bytes
apply_update_sequence_fixup-length record_bytes bps e =
    let r = apply_update_sequence_fixup-Ran record_bytes bps e in
    fixup_loop-length record_bytes bps r.offset r.count r.seq (r.count - 1) 1 record_bytes r.looped
