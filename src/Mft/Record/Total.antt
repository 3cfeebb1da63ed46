-- ===== src/Mft/Record/Total.antt =====
-- `parse_mft_record` on arbitrary bytes.
use file_recovery_engine.Prelude.{
  ℕ, zero, suc, ◌+◌, ◌≤◌, arith, not, ◌||◌, List, [], ◌∷◌, ◌++◌, inl, inr,
}
use file_recovery_engine.Prelude.{ltb, leb, ◌==◌, Bool-cases, length, get_elem?-some}
use file_recovery_engine.Prelude.Outcome.{Returns, Returns-bind, Returns-fail_if}
use file_recovery_engine.Prelude.Bytes.{Bytes, IsSlice, bytes_eq, ascii, get_range_total}
use file_recovery_engine.Mft.Types.{AttributeRecord}
use file_recovery_engine.Mft.Fields.{read_u16_total, read_u32_total, read_u64_total}
use file_recovery_engine.Mft.Fixup.Total.{
  apply_update_sequence_fixup-Returns, apply_update_sequence_fixup-length,
}
use file_recovery_engine.Mft.Attributes.Total.{
  parse_attribute_name-Returns, parse_resident_attribute-Returns,
  parse_non_resident_attribute-Returns,
}
use file_recovery_engine.Mft.Record.{
  parse_form, parse_attribute, attributes_loop, attribute_type_end, parse_header, parse_fixed,
  parse_mft_record,
}

parse_form-Returns : (flag : ℕ) (bytes : Bytes) → Returns (parse_form flag bytes)
unfolding parse_form
parse_form-Returns flag bytes =
    grind
      (arith, parse_resident_attribute-Returns bytes, parse_non_resident_attribute-Returns bytes)

parse_attribute-Returns :
    (fixed : Bytes) (cursor size type : ℕ)
    → 16 ≤ size
    → cursor + size ≤ length fixed
    → Returns (parse_attribute fixed cursor size type)
unfolding parse_attribute
parse_attribute-Returns fixed cursor size type h k =
    let (flag, e) = get_elem?-some fixed (cursor + 8) (omega arith) in
    let (name_length, f) = get_elem?-some fixed (cursor + 9) (omega arith) in
    let (name_offset, g) = read_u16_total fixed (cursor + 10) (omega arith) in
    let (flags, i) = read_u16_total fixed (cursor + 12) (omega arith) in
    let (id, j) = read_u16_total fixed (cursor + 14) (omega arith) in
    let (bytes, l, m) = get_range_total fixed cursor (cursor + size) (omega arith) k in
    rw (e, f, g, i, j, l)
      (Returns-bind _ _ (parse_attribute_name-Returns bytes name_offset name_length)
        (λ name _. Returns-bind _ _ (parse_form-Returns flag bytes) (λ form _. (λ p. cc, λ p. cc))))

attributes_loop-Returns :
    (fixed : Bytes) (limit fuel cursor : ℕ) (attributes : List AttributeRecord)
    → limit ≤ length fixed
    → limit ≤ fuel + cursor
    → Returns (attributes_loop fixed limit fuel cursor attributes)
unfolding attributes_loop
attributes_loop-Returns fixed limit zero cursor attributes h k = ground arith
attributes_loop-Returns fixed limit (suc fuel) cursor attributes h k =
    elim (Bool-cases (leb (cursor + 4) limit)) [
      | inr done ↦ rw done (λ p. cc, λ p. cc)
      | inl more ↦
          let (type, e) = read_u32_total fixed cursor (ground arith) in
          elim (Bool-cases (type == attribute_type_end)) [
            | inl last ↦ rw (more, e, last) (λ p. cc, λ p. cc)
            | inr next ↦
                rw (more, e, next)
                  (Returns-fail_if (ltb limit (cursor + 16)) _ _ λ enough.
                    let (size, f) = read_u32_total fixed (cursor + 4) (ground arith) in
                    rw f (
                      Returns-fail_if (ltb size 16) _ _ λ wide.
                        Returns-fail_if (ltb limit (cursor + size)) _ _ λ inside.
                          let fits : cursor + size ≤ length fixed = ground arith in
                          let large : 16 ≤ size = ground arith in
                          Returns-bind _ _
                            (parse_attribute-Returns fixed cursor size type large fits)
                            (λ attribute _.
                              attributes_loop-Returns fixed limit fuel (cursor + size)
                                (attributes ++ (attribute ∷ [])) h (omega arith))))
          ]
    ]

parse_header-Returns :
    (fixed : Bytes) (used first : ℕ) → 48 ≤ length fixed → Returns (parse_header fixed used first)
unfolding parse_header
parse_header-Returns fixed used first h = grind (
  arith,
  read_u16_total fixed 0x04,
  read_u16_total fixed 0x06,
  read_u16_total fixed 0x10,
  read_u16_total fixed 0x12,
  read_u16_total fixed 0x16,
  read_u32_total fixed 0x1C,
  read_u64_total fixed 0x20,
  read_u16_total fixed 0x28,
  read_u32_total fixed 0x2C,
)

parse_fixed-Returns : (fixed : Bytes) → 48 ≤ length fixed → Returns (parse_fixed fixed)
unfolding parse_fixed
parse_fixed-Returns fixed h =
    let (signature, e, size) = get_range_total fixed 0x00 0x04 (omega arith) (omega arith) in
    let (used, f) = read_u32_total fixed 0x18 (omega arith) in
    let (first, g) = read_u16_total fixed 0x14 (omega arith) in
    rw (e, f, g)
      (Returns-fail_if (not (bytes_eq signature (ascii "FILE"))) _ _ λ signed.
        Returns-fail_if (used == 0 || ltb (length fixed) used) _ _ λ within.
          Returns-fail_if (leb used first) _ _ λ before.
            Returns-bind _ _ (parse_header-Returns fixed used first h) λ header _.
              Returns-bind _ _
                (attributes_loop-Returns fixed used used first [] (ground arith) (omega arith))
                (λ attributes _. (λ p. cc, λ p. cc)))

-- On every byte string and for every sector size `parse_mft_record` returns, with a record or with
-- an error: no read runs out of range, and each of its three loops ends.
pub parse_mft_record-Returns :
    (bytes : Bytes) (bps : ℕ) → IsSlice bytes → Returns (parse_mft_record bytes bps)
unfolding parse_mft_record
parse_mft_record-Returns bytes bps slice = Returns-fail_if (ltb (length bytes) 48) _ _ λ long.
    Returns-fail_if (ltb bps 2) _ _ λ wide.
      Returns-bind _ _ (apply_update_sequence_fixup-Returns bytes bps slice (ground arith))
        λ fixed e.
          parse_fixed-Returns fixed
            (let same = apply_update_sequence_fixup-length bytes bps e in ground arith)
