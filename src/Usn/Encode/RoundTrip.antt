-- ===== src/Usn/Encode/RoundTrip.antt =====
-- The parser on the journal's bytes for a list of records.
use file_recovery_engine.Prelude.{
  ℕ, zero, suc, ◌+◌, ◌-◌, ◌≤◌, ◌<◌, ◌≡◌, refl, ap, sym, ◌∙◌, arith, true, false, some, List, [],
  ◌∷◌, ◌++◌, inl, inr, ltb, leb, ◌==◌, le→leb, Bool-cases,
}
use file_recovery_engine.Prelude.{All, length, replicate, drop, length-append, length-drop}
use file_recovery_engine.Prelude.Outcome.{ok}
use mathlib.Core.List.{append_assoc}
use file_recovery_engine.Prelude.Bytes.{Bytes, IsSlice, get_range, from_le}
use file_recovery_engine.Prelude.Checked.{saturating_add}
use file_recovery_engine.Prelude.Words.{
  to_le, from_le-to_le, take-append, drop-append, drop-drop, read_le-to_le,
}
use file_recovery_engine.Usn.Parse.{
  read_u16, read_u32, parse_version, parse_next, all_zero, records_loop, parse_usn_records,
}
use file_recovery_engine.Usn.Encode.{
  Entry, entry_size, encode_entry, encode_entries, records_of, IsEncodable,
}
use file_recovery_engine.Usn.Encode.Fields.{length-encode_entry, parse_entry}

all_zero-from_le : (xs ys : Bytes) → all_zero (xs ++ ys) ≡ true → from_le xs ≡ 0
unfolding all_zero from_le
all_zero-from_le [] ys h = refl
all_zero-from_le (x ∷ xs) ys h = ground (arith, all_zero-from_le xs ys (ground arith))

all_zero-replicate : (n : ℕ) → all_zero (replicate n 0) ≡ true
unfolding all_zero
all_zero-replicate zero = refl
all_zero-replicate (suc n) = all_zero-replicate n

-- What the loop reads before it hands an entry to `parse_v2_record`.
module _ (e : Entry) (rest : Bytes) where
  abbrev remaining : Bytes
  remaining = encode_entry e ++ rest

  remaining-filled : 0 < entry_size e → entry_size e < 4294967296 → all_zero remaining ≡ false
  remaining-filled some_size small = elim (Bool-cases (all_zero remaining)) [
    | inr filled ↦ filled
    | inl padding ↦
        let none_left : from_le (to_le 4 (entry_size e)) ≡ 0 =
          all_zero-from_le (to_le 4 (entry_size e)) (drop 4 remaining)
            (unfold encode_entry in padding) in
        absurd (omega (arith, from_le-to_le 4 (entry_size e) (omega arith)))
  ]

  size_read : entry_size e < 4294967296 → read_u32 remaining 0 ≡ ok (entry_size e)
  unfolding read_u32
  size_read small =
      read_le-to_le 4 (entry_size e) remaining (drop 4 remaining) 0 small (omega arith)
        (unfold encode_entry in refl)

  major_read : read_u16 remaining 4 ≡ ok 2
  unfolding read_u16
  major_read =
      read_le-to_le 2 2 remaining (drop 6 remaining) 4 (omega arith)
        (omega (arith, length-encode_entry e, length-append (encode_entry e) rest))
        (unfold encode_entry in refl)

  minor_read : e.0.minor_version < 65536 → read_u16 remaining 6 ≡ ok e.0.minor_version
  unfolding read_u16
  minor_read small =
      read_le-to_le 2 e.0.minor_version remaining (drop 8 remaining) 6 small
        (omega (arith, length-encode_entry e, length-append (encode_entry e) rest))
        (unfold encode_entry in refl)

  slice_read : get_range remaining 0 (entry_size e) ≡ some (encode_entry e)
  unfolding get_range
  slice_read =
      let long : entry_size e ≤ length remaining =
        omega (arith, length-encode_entry e, length-append (encode_entry e) rest) in
      let size : entry_size e - 0 ≡ length (encode_entry e) =
        omega (arith, length-encode_entry e) in
      rw
        (
          le→leb 0 (entry_size e) (omega arith),
          le→leb (entry_size e) (length remaining) long,
          size,
          take-append (encode_entry e) rest,
        )
        refl

parse_next-entry :
    (e : Entry) (rest : Bytes) (offset : ℕ)
    → IsEncodable e
    → parse_next (encode_entry e ++ rest) offset (entry_size e) ≡ ok e.0
unfolding parse_next parse_version
parse_next-entry (r, padding) rest offset h =
    let e : Entry = (r, padding) in
    let enough : ltb (entry_size e) 60 ≡ false = ground arith in
    let whole : ltb (length (encode_entry e ++ rest)) (entry_size e) ≡ false =
      ground (arith, length-encode_entry e, length-append (encode_entry e) rest) in
    rw (enough, whole, major_read e rest, minor_read e rest h.1, slice_read e rest, sym h.0)
      (parse_entry r padding offset h)

entry_room : (e : Entry) → IsEncodable e → (60 < entry_size e) × (entry_size e < 4294967296)
entry_room (r, padding) h = ground arith

records_loop-entries :
    (fuel n offset : ℕ) (bytes : Bytes) (entries : List Entry)
    → IsSlice bytes
    → All IsEncodable entries
    → offset ≤ length bytes
    → length bytes < fuel + offset
    → drop offset bytes ≡ encode_entries entries ++ replicate n 0
    → records_loop fuel bytes offset ≡ ok (records_of entries)
unfolding records_loop encode_entries records_of
records_loop-entries zero n offset bytes entries s h inside room d = absurd (omega arith)
records_loop-entries (suc fuel) n offset bytes [] s h inside room d =
    elim (Bool-cases (leb (length bytes) offset)) [
      | inl done ↦ rw done refl
      | inr going ↦ rw (going, d, all_zero-replicate n) refl
    ]
records_loop-entries (suc fuel) n offset bytes (e ∷ entries) s (here, later) inside room d =
    let rest : Bytes = encode_entries entries ++ replicate n 0 in
    let split : drop offset bytes ≡ encode_entry e ++ rest =
      d ∙ append_assoc (encode_entry e) (encode_entries entries) (replicate n 0) in
    let size : length bytes ≡ offset + entry_size e + length rest = omega (
      arith,
      length-drop offset bytes,
      ap length split,
      length-append (encode_entry e) rest,
      length-encode_entry e,
    ) in
    let (some_size, small) = entry_room e here in
    let going : leb (length bytes) offset ≡ false = ground arith in
    let enough : ltb (length (encode_entry e ++ rest)) 8 ≡ false =
      ground (arith, length-append (encode_entry e) rest, length-encode_entry e) in
    let more : (entry_size e == 0) ≡ false = ground arith in
    let next : saturating_add offset (entry_size e) ≡ offset + entry_size e =
      unfold saturating_add in omega arith in
    let after : drop (offset + entry_size e) bytes ≡ rest =
      sym (drop-drop offset (entry_size e) bytes)
      ∙ rw (split, sym (length-encode_entry e)) (drop-append (encode_entry e) rest) in
    rw
      (
        going,
        split,
        remaining-filled e rest (omega arith) small,
        enough,
        size_read e rest small,
        more,
        parse_next-entry e rest offset here,
        next,
        records_loop-entries fuel n (offset + entry_size e) bytes entries s later (omega arith)
            (omega arith) after,
      )
      refl

-- The bytes of a list of records of version 2 whose fields fit their widths, each with any padding
-- behind its name, but with some padding if the name is empty, followed by zeros, are parsed to that
-- list of records. The bytes are at most `isize::MAX`.
pub parse_usn_records-encode_entries :
    (entries : List Entry) (n : ℕ)
    → All IsEncodable entries
    → IsSlice (encode_entries entries ++ replicate n 0)
    → parse_usn_records (encode_entries entries ++ replicate n 0) ≡ ok (records_of entries)
unfolding parse_usn_records
parse_usn_records-encode_entries entries n h s =
    let bytes : Bytes = encode_entries entries ++ replicate n 0 in
    records_loop-entries (suc (length bytes)) n 0 bytes entries s h (omega arith) (omega arith) refl
