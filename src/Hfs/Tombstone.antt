-- ===== src/Hfs/Tombstone.antt =====
-- The record of a deleted file: its fields, its name and its path.
pub mod Total
use file_recovery_engine.Prelude.{
  ℕ, ◌+◌, Bool, false, ◌||◌, Option, none, some, List, [], ◌∷◌, ◌++◌,
}
use mathlib.Core.Option
use file_recovery_engine.Prelude.{ltb, ◌==◌, if◌then◌else◌, length}
use file_recovery_engine.Prelude.Outcome.{ok, or_panic, ◌>>=◌}
use file_recovery_engine.Prelude.Checked.{has_bit}
use file_recovery_engine.Prelude.Bytes.{Bytes, get_range, starts_with}
use file_recovery_engine.Prelude.Readers.{read_le, byte_at}
use file_recovery_engine.Validator.Text.{from_utf8, trim_start, trim_end, is_whitespace}
use file_recovery_engine.Hfs.Types.{HfsDeletedCandidate, Scanned}

abbrev pub hfs_tombstone_record_size : ℕ
hfs_tombstone_record_size = 312

unfoldable pub read_u32_le : Bytes → ℕ → Scanned ℕ
read_u32_le bytes offset = read_le 4 bytes offset

unfoldable pub read_u64_le : Bytes → ℕ → Scanned ℕ
read_u64_le bytes offset = read_le 8 bytes offset

-- `path.replace('/', r"\")`.
unfoldable pub replace_slashes : List ℕ → List ℕ
replace_slashes [] = []
replace_slashes (ch ∷ path) = (if ch == 47 then 92 else ch) ∷ replace_slashes path

-- `.\`, the root of every path.
abbrev pub root_path : List ℕ
root_path = 46 ∷ 92 ∷ []

abbrev pub under_root : List ℕ → List ℕ
under_root [] = root_path
under_root (ch ∷ normalized) =
    if starts_with (ch ∷ normalized) root_path
    then ch ∷ normalized
    else root_path ++ trim_start (λ c. c == 92) (ch ∷ normalized)

unfoldable pub normalize_candidate_path : List ℕ → List ℕ
normalize_candidate_path path = under_root (replace_slashes path)

-- `text.as_bytes().iter().any(|value| *value < 0x20)`: a byte below 0x80 is a scalar value.
unfoldable pub any_control : List ℕ → Bool
any_control [] = false
any_control (ch ∷ text) = ltb ch 0x20 || any_control text

abbrev pub plain_text : List ℕ → Option (List ℕ)
plain_text [] = none
plain_text (ch ∷ text) = if any_control (ch ∷ text) then none else some (ch ∷ text)

abbrev pub trimmed : List ℕ → List ℕ
trimmed text =
    let inner = trim_end (λ c. c == 0) (trim_start (λ c. c == 0) text) in
    trim_end is_whitespace (trim_start is_whitespace inner)

unfoldable pub decode_metadata_text : Bytes → Option (List ℕ)
decode_metadata_text bytes = Option.bind (from_utf8 bytes) λ text. plain_text (trimmed text)

-- The path, or the name in the root where no path is given.
unfoldable pub tombstone_path : Bytes → ℕ → List ℕ → Scanned (Option (List ℕ))
tombstone_path bytes path_len name =
    if path_len == 0
    then ok (some (root_path ++ name))
    else or_panic (get_range bytes 120 (120 + path_len)) >>= λ path_bytes.
        ok (elim (decode_metadata_text path_bytes) [
          | none ↦ none
          | some path ↦ some (normalize_candidate_path path)
        ])

abbrev pub deleted_candidate : ℕ → ℕ → ℕ → List ℕ → Option (List ℕ) → Option HfsDeletedCandidate
deleted_candidate cnid size_bytes flags name none = none
deleted_candidate cnid size_bytes flags name (some path) = some (record {
  cnid = cnid;
  size_bytes = size_bytes;
  name = name;
  path = path;
  is_directory = has_bit flags 0x01;
})

-- The name and the path of a record, if their lengths are in range.
unfoldable pub tombstone_texts : Bytes → ℕ → ℕ → ℕ → ℕ → ℕ → Scanned (Option HfsDeletedCandidate)
unfolding tombstone_path
tombstone_texts bytes cnid size_bytes flags name_len path_len =
    if name_len == 0 || ltb 96 name_len || ltb 192 path_len
    then ok none
    else or_panic (get_range bytes 24 (24 + name_len)) >>= λ name_bytes.
        elim (decode_metadata_text name_bytes) [
          | none ↦ ok none
          | some name ↦ tombstone_path bytes path_len name >>= λ path.
              ok (deleted_candidate cnid size_bytes flags name path)
        ]

unfoldable pub tombstone_fields : Bytes → ℕ → Scanned (Option HfsDeletedCandidate)
tombstone_fields bytes cnid = do
  size_bytes ← read_u64_le bytes 12
  flags ← byte_at bytes 20
  name_len ← byte_at bytes 21
  path_len ← byte_at bytes 22
  tombstone_texts bytes cnid size_bytes flags name_len path_len

unfoldable pub parse_tombstone_record : Bytes → Scanned (Option HfsDeletedCandidate)
parse_tombstone_record bytes =
    if ltb (length bytes) hfs_tombstone_record_size
    then ok none
    else read_u32_le bytes 8 >>= λ cnid. if cnid == 0 then ok none else tombstone_fields bytes cnid
