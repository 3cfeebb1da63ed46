-- ===== src/Usn/Total.antt =====
-- The journal parser on arbitrary bytes.
use file_recovery_engine.Prelude.{
  ℕ, zero, suc, ◌+◌, ◌≤◌, ◌<◌, ◌≡◌, arith, some, none, inl, inr, List,
}
use file_recovery_engine.Prelude.{
  ltb, leb, ◌==◌, ◌%◌, ◌/◌, ◌||◌, true, Bool-cases, Option-cases, length, drop, length-drop,
}
use file_recovery_engine.Prelude.Outcome.{ok, Returns, Returns-bind}
use file_recovery_engine.Prelude.Checked.{u64_mod, checked_add, saturating_add}
use file_recovery_engine.Prelude.Bytes.{Bytes, IsSlice, get_range, get_range_total}
use file_recovery_engine.Prelude.Readers.{read_le_total}
use file_recovery_engine.Prelude.Int.{as_i64, ℤ}
use file_recovery_engine.Prelude.Text.{code_units, decode_utf16, code_units_total}
use file_recovery_engine.Usn.Types.{UsnRecord, UsnParseError}
use file_recovery_engine.Usn.Parse.{
  read_u16, read_u32, read_u64, read_i64, parse_utf16_file_name, parse_v2_record, parse_v3_record,
  parse_version, parse_next, records_loop, parse_usn_records, all_zero,
}

pub u16_total :
    (bytes : Bytes) (offset : ℕ)
    → offset + 2 ≤ length bytes
    → (v : ℕ) × (read_u16 bytes offset ≡ ok v)
unfolding read_u16
u16_total bytes offset h = read_le_total 2 bytes offset h

pub u32_total :
    (bytes : Bytes) (offset : ℕ)
    → offset + 4 ≤ length bytes
    → (v : ℕ) × (read_u32 bytes offset ≡ ok v)
unfolding read_u32
u32_total bytes offset h = read_le_total 4 bytes offset h

pub u64_total :
    (bytes : Bytes) (offset : ℕ)
    → offset + 8 ≤ length bytes
    → (v : ℕ) × (read_u64 bytes offset ≡ ok v)
unfolding read_u64
u64_total bytes offset h = read_le_total 8 bytes offset h

pub i64_total :
    (bytes : Bytes) (offset : ℕ)
    → offset + 8 ≤ length bytes
    → (v : ℤ) × (read_i64 bytes offset ≡ ok v)
unfolding read_i64
i64_total bytes offset h =
    let (v, e) = read_le_total {E = UsnParseError} 8 bytes offset h in (as_i64 v, rw e)

-- The slice of a name holds whole code units.
name_units :
    (bytes : Bytes) (offset size : ℕ)
    → offset + size ≤ length bytes
    → (size % 2 == 0) ≡ true
    → (bs : Bytes) × (units : List ℕ) × (get_range bytes offset (offset + size) ≡ some bs)
      × (code_units bs ≡ some units)
name_units bytes offset size h even =
    let (bs, found, long) = get_range_total bytes offset (offset + size) (omega arith) h in
    let (units, decoded) = code_units_total (size / 2) bs (ground arith) in
    (bs, units, found, decoded)

pub parse_utf16_file_name-Returns :
    (bytes : Bytes) (offset name_offset name_length : ℕ)
    → Returns (parse_utf16_file_name bytes offset name_offset name_length)
unfolding parse_utf16_file_name checked_add
parse_utf16_file_name-Returns bytes offset start size = elim (Bool-cases (size % 2 == 0)) [
  | inr odd ↦ rw odd (λ p. cc, λ p. cc)
  | inl even ↦ elim (Bool-cases (ltb (start + size) u64_mod)) [
    | inr large ↦ rw (even, large) (λ p. cc, λ p. cc)
    | inl small ↦
        elim (Bool-cases (ltb (length bytes) (start + size) || leb (length bytes) start)) [
          | inl outside ↦ rw (even, small, outside) (λ p. cc, λ p. cc)
          | inr inside ↦
              let (bs, units, e, f) = name_units bytes start size (ground arith) even in
              elim (Option-cases (decode_utf16 none units)) [
                | inl malformed ↦ rw (even, small, inside, e, f, malformed) (λ p. cc, λ p. cc)
                | inr (name, decoded) ↦ rw (even, small, inside, e, f, decoded) (λ p. cc, λ p. cc)
              ]
        ]
  ]
]

pub parse_v2_record-Returns :
    (bytes : Bytes) (offset major minor : ℕ) → Returns (parse_v2_record bytes offset major minor)
unfolding parse_v2_record
parse_v2_record-Returns bytes offset major minor = elim (Bool-cases (ltb (length bytes) 60)) [
  | inl short ↦ rw short (λ p. cc, λ p. cc)
  | inr long ↦
      let (a, ea) = u64_total bytes 8 (ground arith) in
      let (b, eb) = u64_total bytes 16 (ground arith) in
      let (c, ec) = i64_total bytes 24 (ground arith) in
      let (d, ed) = i64_total bytes 32 (ground arith) in
      let (f, ef) = u32_total bytes 40 (ground arith) in
      let (g, eg) = u32_total bytes 44 (ground arith) in
      let (h, eh) = u32_total bytes 48 (ground arith) in
      let (k, ek) = u32_total bytes 52 (ground arith) in
      let (l, el) = u16_total bytes 56 (ground arith) in
      let (m, em) = u16_total bytes 58 (ground arith) in
      rw (long, ea, eb, ec, ed, ef, eg, eh, ek, el, em)
        (Returns-bind (parse_utf16_file_name bytes offset m l) _
          (parse_utf16_file_name-Returns bytes offset m l) (λ name e. (λ p. cc, λ p. cc)))
]

pub parse_v3_record-Returns :
    (bytes : Bytes) (offset major minor : ℕ) → Returns (parse_v3_record bytes offset major minor)
unfolding parse_v3_record
parse_v3_record-Returns bytes offset major minor = elim (Bool-cases (ltb (length bytes) 76)) [
  | inl short ↦ rw short (λ p. cc, λ p. cc)
  | inr long ↦
      let (a, ea) = u64_total bytes 8 (ground arith) in
      let (b, eb) = u64_total bytes 24 (ground arith) in
      let (c, ec) = i64_total bytes 40 (ground arith) in
      let (d, ed) = i64_total bytes 48 (ground arith) in
      let (f, ef) = u32_total bytes 56 (ground arith) in
      let (g, eg) = u32_total bytes 60 (ground arith) in
      let (h, eh) = u32_total bytes 64 (ground arith) in
      let (k, ek) = u32_total bytes 68 (ground arith) in
      let (l, el) = u16_total bytes 72 (ground arith) in
      let (m, em) = u16_total bytes 74 (ground arith) in
      rw (long, ea, eb, ec, ed, ef, eg, eh, ek, el, em)
        (Returns-bind (parse_utf16_file_name bytes offset m l) _
          (parse_utf16_file_name-Returns bytes offset m l) (λ name e. (λ p. cc, λ p. cc)))
]

parse_version-Returns :
    (bytes : Bytes) (offset major minor : ℕ) → Returns (parse_version bytes offset major minor)
unfolding parse_version
parse_version-Returns bytes offset major minor = elim (Bool-cases (major == 2)) [
  | inl two ↦ rw two (parse_v2_record-Returns bytes offset major minor)
  | inr other ↦ elim (Bool-cases (major == 3)) [
    | inl three ↦ rw (other, three) (parse_v3_record-Returns bytes offset major minor)
    | inr unknown ↦ rw (other, unknown) (λ p. cc, λ p. cc)
  ]
]

-- A record that is accepted is as long as its header says.
parse_next-Returns : (bytes : Bytes) (offset size : ℕ) → Returns (parse_next bytes offset size)
unfolding parse_next
parse_next-Returns bytes offset size = elim (Bool-cases (ltb size 60)) [
  | inl short ↦ rw short (λ p. cc, λ p. cc)
  | inr long ↦ elim (Bool-cases (ltb (length bytes) size)) [
    | inl cut ↦ rw (long, cut) (λ p. cc, λ p. cc)
    | inr whole ↦
        let (major, e) = u16_total bytes 4 (ground arith) in
        let (minor, f) = u16_total bytes 6 (ground arith) in
        let (bs, found, _) = get_range_total bytes 0 size (omega arith) (ground arith) in
        rw (long, whole, e, f, found) (parse_version-Returns bs offset major minor)
  ]
]

parse_next-size :
    (bytes : Bytes) (offset size : ℕ) {parsed : UsnRecord}
    → parse_next bytes offset size ≡ ok parsed
    → (60 ≤ size) × (size ≤ length bytes)
unfolding parse_next
parse_next-size bytes offset size e = ground arith

records_loop-Returns :
    (fuel : ℕ) (bytes : Bytes) (offset : ℕ)
    → IsSlice bytes
    → offset ≤ length bytes
    → length bytes < fuel + offset
    → Returns (records_loop fuel bytes offset)
unfolding records_loop
records_loop-Returns zero bytes offset s inside h = absurd (ground arith)
records_loop-Returns (suc fuel) bytes offset s inside h =
    elim (Bool-cases (leb (length bytes) offset)) [
      | inl done ↦ rw done (λ p. cc, λ p. cc)
      | inr going ↦ elim (Bool-cases (all_zero (drop offset bytes))) [
        | inl padding ↦ rw (going, padding) (λ p. cc, λ p. cc)
        | inr filled ↦ elim (Bool-cases (ltb (length (drop offset bytes)) 8)) [
          | inl short ↦ rw (going, filled, short) (λ p. cc, λ p. cc)
          | inr long ↦
              let (size, e) = u32_total (drop offset bytes) 0 (ground arith) in
              elim (Bool-cases (size == 0)) [
                | inl last ↦ rw (going, filled, long, e, last) (λ p. cc, λ p. cc)
                | inr more ↦
                    rw (going, filled, long, e, more)
                      (Returns-bind (parse_next (drop offset bytes) offset size) _
                        (parse_next-Returns (drop offset bytes) offset size)
                        (λ parsed f.
                          let room = parse_next-size (drop offset bytes) offset size f in
                          let next : saturating_add offset size ≡ offset + size =
                            unfold saturating_add in omega (arith, length-drop offset bytes) in
                          Returns-bind (records_loop fuel bytes (saturating_add offset size)) _
                            (rw next (
                              records_loop-Returns fuel bytes (offset + size) s
                                (omega (arith, length-drop offset bytes))
                                (omega (arith, length-drop offset bytes))))
                            (λ rest g. (λ p. cc, λ p. cc))))
              ]
        ]
      ]
    ]

-- On every byte slice, of whatever content, the parser hands a list of records or an error to its
-- caller: no index and no slice expression in it is out of range, and its loop ends.
pub parse_usn_records-Returns : (bytes : Bytes) → IsSlice bytes → Returns (parse_usn_records bytes)
unfolding parse_usn_records
parse_usn_records-Returns bytes s =
    records_loop-Returns (suc (length bytes)) bytes 0 s (omega arith) (omega arith)
