-- ===== src/Fat/Names.antt =====
-- Names of directory entries: long name parts, short names and paths. A text is the list of its
-- scalar values.
pub mod Total
use file_recovery_engine.Prelude.{
  ℕ, zero, suc, ◌+◌, ◌*◌, Bool, ◌||◌, ◌&&◌, List, [], ◌∷◌, ◌++◌, none,
}
use file_recovery_engine.Prelude.{ltb, leb, ◌==◌, if◌then◌else◌, length}
use file_recovery_engine.Prelude.Outcome.{Outcome, ok, or_panic, ◌>>=◌, ◌>>◌}
use file_recovery_engine.Prelude.Bytes.{Bytes, get_range, bytes_eq}
use file_recovery_engine.Prelude.Readers.{read_le}
use file_recovery_engine.Prelude.Text.{from_utf16_lossy}
use file_recovery_engine.Validator.Text.{trim_start, trim_end, is_whitespace}
use file_recovery_engine.Fat.Types.{Scanned}

-- The loop `while offset < end`; `rounds` is half of the bytes that are left.
unfoldable pub append_lfn_range : ℕ → Bytes → ℕ → Scanned (List ℕ)
append_lfn_range zero entry offset = ok []
append_lfn_range (suc rounds) entry offset = read_le 2 entry offset >>= λ code.
    if code == 0x0000 || code == 0xFFFF
    then ok []
    else append_lfn_range rounds entry (offset + 2) >>= λ rest. ok (code ∷ rest)

-- The ranges 1..10, 14..25 and 28..31 hold 5, 6 and 2 code units.
unfoldable pub decode_lfn_part : Bytes → Scanned (List ℕ)
decode_lfn_part entry = do
  first ← append_lfn_range 5 entry 1
  second ← append_lfn_range 6 entry 14
  third ← append_lfn_range 2 entry 28
  ok (from_utf16_lossy none (first ++ second ++ third))

unfoldable pub decode_ascii_component : ℕ → ℕ
decode_ascii_component byte = if leb 0x20 byte && leb byte 0x7E then byte else 95

-- The characters up to a blank or a zero.
unfoldable pub decode_component : Bytes → List ℕ
decode_component [] = []
decode_component (value ∷ bytes) =
    let rest = decode_component bytes in
    if value == 32 || value == 0 then [] else decode_ascii_component value ∷ rest

-- At index 0 the mark of a deleted entry is replaced by `_`.
unfoldable pub decode_base : Bytes → List ℕ
unfolding decode_component decode_ascii_component
decode_base [] = []
decode_base (value ∷ bytes) =
    let rest = decode_component bytes in
    if value == 32 || value == 0
    then []
    else (if value == 0xE5 then 95 else decode_ascii_component value) ∷ rest

abbrev with_extension : List ℕ → List ℕ → List ℕ
with_extension base [] = base
with_extension base (c ∷ extension) = base ++ 46 ∷ c ∷ extension

unfoldable pub decode_short_name : Bytes → Scanned (List ℕ)
unfolding decode_base
decode_short_name entry = do
  base ← or_panic (get_range entry 0 8)
  extension ← or_panic (get_range entry 8 11)
  ok (with_extension (decode_base base) (decode_component extension))

-- `name.trim_matches(char::from(0)).trim()`.
unfoldable pub sanitize_name : List ℕ → List ℕ
sanitize_name name =
    let inner = trim_end (λ c. c == 0) (trim_start (λ c. c == 0) name) in
    trim_end is_whitespace (trim_start is_whitespace inner)

unfoldable pub join_candidate_path : List ℕ → List ℕ → List ℕ
join_candidate_path parent_path name =
    if bytes_eq parent_path (46 ∷ []) then 46 ∷ 92 ∷ name else parent_path ++ 92 ∷ name

unfoldable pub is_dot_entry : List ℕ → Bool
is_dot_entry name = bytes_eq name (46 ∷ []) || bytes_eq name (46 ∷ 46 ∷ [])
