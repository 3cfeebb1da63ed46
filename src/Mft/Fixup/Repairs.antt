-- ===== src/Mft/Fixup/Repairs.antt =====
-- One round of the fixup loop, position by position.
use file_recovery_engine.Prelude.{
  ℕ, suc, ◌+◌, ◌-◌, ◌*◌, ◌/◌, ◌%◌, ◌≤◌, ◌<◌, ◌≡◌, ◌≢◌, ◌⊎◌, refl, ◌∙◌, sym, arith, false, All, not,
  ◌||◌,
}
use file_recovery_engine.Prelude.{
  ltb, ◌==◌, length, get_elem?, set, length-set, get_elem?-set_self, get_elem?-set_ne,
}
use file_recovery_engine.Prelude.Outcome.{ok, bind-eq-ok, fail_if-eq-ok}
use file_recovery_engine.Prelude.Checked.{saturating_mul}
use file_recovery_engine.Prelude.Bytes.{Bytes, IsByte, IsSlice, get_range}
use file_recovery_engine.Mft.Fields.{read_u16}
use file_recovery_engine.Mft.Words.{read_u16_parts}
use file_recovery_engine.Mft.Fixup.{write_u16, fixup_sector}

read_u16-inside :
    (bytes : Bytes) (offset : ℕ) {v : ℕ} → read_u16 bytes offset ≡ ok v → offset + 2 ≤ length bytes
unfolding read_u16 get_range
read_u16-inside bytes offset e = ground arith

-- The position lies off the last two bytes of the sector.
abbrev pub Outside : ℕ → ℕ → ℕ → Type 0
Outside bps sector j = (j + 2 < sector * bps) ⊎ (sector * bps ≤ j)

module _ (record_bytes : Bytes) (bps offset count seq : ℕ) where
  -- One round, in plain terms.
  pub record Round (sector : ℕ) (fixed out : Bytes) : Type 0 where
    pub value : ℕ
    pub wide : 2 ≤ sector * bps
    pub inside : sector * bps ≤ length fixed
    pub current : read_u16 fixed (sector * bps - 2) ≡ ok seq
    pub entry : read_u16 record_bytes (offset + sector * 2) ≡ ok value
    pub written :
        set (set fixed (sector * bps - 2) (value % 256)) (sector * bps - 1) (value / 256 % 256)
        ≡ out

  Round-of_parts :
      (sector : ℕ) (fixed : Bytes) {out : Bytes} (end current value : ℕ)
      → saturating_mul sector bps ≡ end
      → IsSlice fixed
      → (ltb end 2 || ltb (length fixed) end) ≡ false
      → read_u16 fixed (end - 2) ≡ ok current
      → not (current == seq) ≡ false
      → read_u16 record_bytes (offset + sector * 2) ≡ ok value
      → write_u16 fixed (end - 2) value ≡ ok out
      → Round sector fixed out
  unfolding saturating_mul write_u16
  Round-of_parts sector fixed end current value e slice bounds at_tail same entry written =
      let whole : sector * bps ≡ end = ground arith in
      let exact : current ≡ seq = ground arith in
      let last : end - 2 + 1 ≡ end - 1 = ground arith in
      record {
        value = value;
        wide = ground arith;
        inside = ground arith;
        current = rw whole (rw exact at at_tail);
        entry = entry;
        written = rw whole (ground (arith, last));
      }

  pub fixup_sector-Round :
      (sector : ℕ) (fixed : Bytes) {out : Bytes}
      → IsSlice fixed
      → fixup_sector record_bytes bps offset count seq sector fixed ≡ ok out
      → Round sector fixed out
  unfolding fixup_sector
  fixup_sector-Round sector fixed slice e =
      let end = saturating_mul sector bps in
      let (bounds, e') = fail_if-eq-ok (ltb end 2 || ltb (length fixed) end) _ _ e in
      let (current, at_tail, f) = bind-eq-ok (read_u16 fixed (end - 2)) _ e' in
      let (same, f') = fail_if-eq-ok (not (current == seq)) _ _ f in
      let (value, entry, g) = bind-eq-ok (read_u16 record_bytes (offset + sector * 2)) _ f' in
      Round-of_parts sector fixed end current value refl slice bounds at_tail same entry g

  -- What one round changes, position by position.
  pub Round-low :
      {sector : ℕ} {fixed out : Bytes}
      → All IsByte record_bytes
      → Round sector fixed out
      → get_elem? out (sector * bps - 2) ≡ get_elem? record_bytes (offset + sector * 2)
  Round-low {sector = sector} {fixed = fixed} h r =
      let t = sector * bps - 2 in
      rw (← r.written) (
        get_elem?-set_ne (set fixed t (r.value % 256)) (sector * bps - 1) t (r.value / 256 % 256)
          (omega (arith, r.wide))
        ∙ get_elem?-set_self fixed t (r.value % 256) (omega (arith, r.wide, r.inside))
        ∙ sym (read_u16_parts record_bytes (offset + sector * 2) h r.entry).0)

  pub Round-high :
      {sector : ℕ} {fixed out : Bytes}
      → All IsByte record_bytes
      → Round sector fixed out
      → get_elem? out (sector * bps - 1) ≡ get_elem? record_bytes (suc (offset + sector * 2))
  Round-high {sector = sector} {fixed = fixed} h r =
      let t = sector * bps - 2 in
      rw (← r.written) (
        get_elem?-set_self (set fixed t (r.value % 256)) (sector * bps - 1) (r.value / 256 % 256)
          (omega (arith, r.wide, r.inside, length-set fixed t (r.value % 256)))
        ∙ sym (read_u16_parts record_bytes (offset + sector * 2) h r.entry).1)

  pub Round-kept :
      {sector : ℕ} {fixed out : Bytes} (j : ℕ)
      → Round sector fixed out
      → Outside bps sector j
      → get_elem? out j ≡ get_elem? fixed j
  Round-kept {sector = sector} {fixed = fixed} j r off =
      let t = sector * bps - 2 in
      let far : (t ≢ j) × (sector * bps - 1 ≢ j) = omega (arith, r.wide, off) in
      rw (← r.written) (
        get_elem?-set_ne (set fixed t (r.value % 256)) (sector * bps - 1) j (r.value / 256 % 256)
          far.1
        ∙ get_elem?-set_ne fixed t j (r.value % 256) far.0)
