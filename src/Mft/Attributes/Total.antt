-- ===== src/Mft/Attributes/Total.antt =====
-- The attribute parsers on arbitrary bytes.
use file_recovery_engine.Prelude.{ℕ, ◌+◌, ◌*◌, ◌≤◌, ◌≡◌, arith, some, none, List, inl, inr}
use file_recovery_engine.Prelude.{ltb, ◌==◌, Bool-cases, Option-cases, length, get_elem?-some}
use file_recovery_engine.Prelude.Outcome.{Returns}
use file_recovery_engine.Prelude.Checked.{u64_mod, checked_mul}
use file_recovery_engine.Prelude.Bytes.{Bytes, get_range, get_range_total}
use file_recovery_engine.Mft.Fields.{read_u16_total, read_u32_total, read_u64_total}
use file_recovery_engine.Mft.Runs.Total.{parse_data_runs-Returns}
use file_recovery_engine.Prelude.Text.{code_units, decode_utf16, code_units_total}
use file_recovery_engine.Mft.Attributes.{
  parse_attribute_name, parse_resident_attribute, parse_non_resident_attribute,
  read_compressed_size,
}

-- The slice that is cut for a name holds whole code units.
named_units :
    (bytes : Bytes) (offset size : ℕ)
    → offset + size * 2 ≤ length bytes
    → (bs : Bytes) × (units : List ℕ) × (get_range bytes offset (offset + size * 2) ≡ some bs)
      × (code_units bs ≡ some units)
named_units bytes offset size h =
    let (bs, found, long) = get_range_total bytes offset (offset + size * 2) (omega arith) h in
    let (units, decoded) = code_units_total size bs (omega arith) in (bs, units, found, decoded)

pub parse_attribute_name-Returns :
    (bytes : Bytes) (offset size : ℕ) → Returns (parse_attribute_name bytes offset size)
unfolding parse_attribute_name checked_mul
parse_attribute_name-Returns bytes offset size = elim (Bool-cases (size == 0)) [
  | inl unnamed ↦ rw unnamed (λ p. cc, λ p. cc)
  | inr named ↦ elim (Bool-cases (ltb (size * 2) u64_mod)) [
    | inr large ↦ rw (named, large) (λ p. cc, λ p. cc)
    | inl small ↦ elim (Bool-cases (ltb (length bytes) (offset + size * 2))) [
      | inl short ↦ rw (named, small, short) (λ p. cc, λ p. cc)
      | inr long ↦
          let (bs, units, e, f) = named_units bytes offset size (ground arith) in
          elim (Option-cases (decode_utf16 none units)) [
            | inl malformed ↦ rw (named, small, long, e, f, malformed) (λ p. cc, λ p. cc)
            | inr (name, decoded) ↦ rw (named, small, long, e, f, decoded) (λ p. cc, λ p. cc)
          ]
    ]
  ]
]

pub parse_resident_attribute-Returns : (bytes : Bytes) → Returns (parse_resident_attribute bytes)
unfolding parse_resident_attribute
parse_resident_attribute-Returns bytes = elim (Bool-cases (ltb (length bytes) 24)) [
  | inl short ↦ rw short (λ p. cc, λ p. cc)
  | inr long ↦
      let (value_length, e) = read_u32_total bytes 0x10 (ground arith) in
      let (offset, f) = read_u16_total bytes 0x14 (ground arith) in
      let (flags, g) = get_elem?-some bytes 0x16 (ground arith) in
      rw (long, e, f, g) (grind (arith, get_range_total bytes offset (offset + value_length)))
]

pub parse_non_resident_attribute-Returns :
    (bytes : Bytes) → Returns (parse_non_resident_attribute bytes)
unfolding parse_non_resident_attribute read_compressed_size
parse_non_resident_attribute-Returns bytes = elim (Bool-cases (ltb (length bytes) 64)) [
  | inl short ↦ rw short (λ p. cc, λ p. cc)
  | inr long ↦
      let (lowest, e) = read_u64_total bytes 0x10 (ground arith) in
      let (highest, f) = read_u64_total bytes 0x18 (ground arith) in
      let (offset, g) = read_u16_total bytes 0x20 (ground arith) in
      rw (long, e, f, g)
        (grind (
          arith,
          read_u16_total bytes 0x22,
          read_u64_total bytes 0x28,
          read_u64_total bytes 0x30,
          read_u64_total bytes 0x38,
          read_u64_total bytes 0x40,
          get_range_total bytes offset (length bytes),
          parse_data_runs-Returns,
        ))
]
