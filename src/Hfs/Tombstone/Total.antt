-- ===== src/Hfs/Tombstone/Total.antt =====
-- A record of 312 bytes is read without a panic, and what a candidate from it satisfies.
use file_recovery_engine.Prelude.{
  ℕ, ◌+◌, ◌≤◌, ◌≡◌, refl, arith, true, false, ◌||◌, Option, none, some, List, [], ◌∷◌, ◌++◌, All,
  ltb, ◌==◌, length, inl, inr, Bool-cases, Option-cases,
}
use mathlib.Core.Path.{subst}
use mathlib.Core.Option
use mathlib.Core.Option.{some-injective}
use file_recovery_engine.Prelude.Outcome.{ok, Safe, Safe-ok, Safe-bind}
use file_recovery_engine.Prelude.Checked.{has_bit}
use file_recovery_engine.Prelude.Bytes.{Bytes, starts_with}
use file_recovery_engine.Prelude.Readers.{read_le, byte_at, read_le-Safe, byte_at-Safe, range-Safe}
use file_recovery_engine.Validator.Text.{trim_start, from_utf8}
use file_recovery_engine.Hfs.Types.{HfsDeletedCandidate, ScanError}
use file_recovery_engine.Hfs.Tombstone.{
  hfs_tombstone_record_size, read_u32_le, read_u64_le, root_path, under_root, replace_slashes,
  normalize_candidate_path, any_control, plain_text, trimmed, deleted_candidate,
  decode_metadata_text, tombstone_path, tombstone_texts, tombstone_fields, parse_tombstone_record,
}

-- Text that is not empty and has no character below 0x20.
abbrev pub IsText : List ℕ → Type 0
IsText text = (1 ≤ length text) × All (λ ch. 0x20 ≤ ch) text

abbrev pub IsPath : List ℕ → Type 0
IsPath path = starts_with path root_path ≡ true

-- The numbers and the flags of a record, and a candidate that has them.
pub record HasNumbers (bytes : Bytes) (cnid size_bytes flags : ℕ) : Type 0 where
  pub at_cnid : read_le {E = ScanError} 4 bytes 8 ≡ ok cnid
  pub at_size : read_le {E = ScanError} 8 bytes 12 ≡ ok size_bytes
  pub at_flags : byte_at {E = ScanError} bytes 20 ≡ ok flags

pub record IsCandidate (bytes : Bytes) (c : HfsDeletedCandidate) : Type 0 where
  pub flags : ℕ
  pub numbers : HasNumbers bytes c.cnid c.size_bytes flags
  pub directory : c.is_directory ≡ has_bit flags 0x01
  pub numbered : 1 ≤ c.cnid
  pub named : IsText c.name
  pub placed : IsPath c.path

abbrev pub IsFound : Bytes → Option HfsDeletedCandidate → Type 0
IsFound bytes none = Unit {0}
IsFound bytes (some c) = IsCandidate bytes c

starts_with-root : (text : List ℕ) → starts_with (root_path ++ text) root_path ≡ true
unfolding starts_with
starts_with-root text = refl

under_root-IsPath : (normalized : List ℕ) → IsPath (under_root normalized)
under_root-IsPath [] = starts_with-root []
under_root-IsPath (ch ∷ normalized) = elim (Bool-cases (starts_with (ch ∷ normalized) root_path)) [
  | inl already ↦ rw already already
  | inr other ↦ rw other (starts_with-root (trim_start (λ c. c == 92) (ch ∷ normalized)))
]

pub normalize_candidate_path-IsPath : (path : List ℕ) → IsPath (normalize_candidate_path path)
unfolding normalize_candidate_path
normalize_candidate_path-IsPath path = under_root-IsPath (replace_slashes path)

any_control_none : (text : List ℕ) → any_control text ≡ false → All (λ ch. 0x20 ≤ ch) text
unfolding any_control
any_control_none [] h = tt
any_control_none (ch ∷ text) h = (ground arith, any_control_none text (ground arith))

plain_text-IsText : (text : List ℕ) {name : List ℕ} → plain_text text ≡ some name → IsText name
plain_text-IsText [] e = absurd (cc)
plain_text-IsText (ch ∷ text) e = elim (Bool-cases (any_control (ch ∷ text))) [
  | inl control ↦ absurd (cc (rw control at e))
  | inr plain ↦
      subst IsText (some-injective _ _ (rw plain at e))
        (omega arith, any_control_none (ch ∷ text) plain)
]

bind-IsText :
    (decoded : Option (List ℕ)) {name : List ℕ}
    → Option.bind decoded (λ text. plain_text (trimmed text)) ≡ some name
    → IsText name
unfolding Option.bind
bind-IsText none e = absurd (cc)
bind-IsText (some text) e = plain_text-IsText (trimmed text) e

decode_metadata_text-IsText :
    (bytes : Bytes) {name : List ℕ} → decode_metadata_text bytes ≡ some name → IsText name
unfolding decode_metadata_text
decode_metadata_text-IsText bytes e = bind-IsText (from_utf8 bytes) e

abbrev IsSomePath : Option (List ℕ) → Type 0
IsSomePath none = Unit {0}
IsSomePath (some path) = IsPath path

normalized-IsSomePath :
    (text : Option (List ℕ))
    → IsSomePath (elim text [ none ↦ none | some path ↦ some (normalize_candidate_path path) ])
normalized-IsSomePath none = tt
normalized-IsSomePath (some path) = normalize_candidate_path-IsPath path

tombstone_path-Safe :
    (bytes : Bytes) (path_len : ℕ) (name : List ℕ)
    → path_len ≤ 192
    → 312 ≤ length bytes
    → Safe IsSomePath (tombstone_path bytes path_len name)
unfolding tombstone_path
tombstone_path-Safe bytes path_len name h long = elim (Bool-cases (path_len == 0)) [
  | inl no_path ↦ rw no_path (Safe-ok (starts_with-root name))
  | inr some_path ↦ rw some_path (
      Safe-bind _ _ (range-Safe bytes 120 (120 + path_len) (omega arith) (omega arith))
        λ path_bytes _ _. Safe-ok (normalized-IsSomePath (decode_metadata_text path_bytes)))
]

deleted_candidate-IsFound :
    (bytes : Bytes) (cnid size_bytes flags : ℕ) (name : List ℕ) (path : Option (List ℕ))
    → HasNumbers bytes cnid size_bytes flags
    → 1 ≤ cnid
    → IsText name
    → IsSomePath path
    → IsFound bytes (deleted_candidate cnid size_bytes flags name path)
deleted_candidate-IsFound bytes cnid size_bytes flags name none numbers h k placed = tt
deleted_candidate-IsFound bytes cnid size_bytes flags name (some path) numbers h k placed = record {
  flags = flags;
  numbers = numbers;
  directory = refl;
  numbered = h;
  named = k;
  placed = placed;
}

tombstone_texts-Safe :
    (bytes : Bytes) (cnid size_bytes flags name_len path_len : ℕ)
    → HasNumbers bytes cnid size_bytes flags
    → 1 ≤ cnid
    → 312 ≤ length bytes
    → Safe (IsFound bytes) (tombstone_texts bytes cnid size_bytes flags name_len path_len)
unfolding tombstone_texts
tombstone_texts-Safe bytes cnid size_bytes flags name_len path_len numbers numbered long =
    elim (Bool-cases (name_len == 0 || ltb 96 name_len || ltb 192 path_len)) [
      | inl refused ↦ rw refused (Safe-ok tt)
      | inr accepted ↦ rw accepted (
          let h : name_len ≤ 96 = ground arith in
          let k : path_len ≤ 192 = ground arith in
          Safe-bind _ _ (range-Safe bytes 24 (24 + name_len) (omega arith) (omega arith))
            λ name_bytes _ _. elim (Option-cases (decode_metadata_text name_bytes)) [
              | inl no_text ↦ rw no_text (Safe-ok tt)
              | inr (name, decoded) ↦ rw decoded (
                  Safe-bind _ _ (tombstone_path-Safe bytes path_len name k long) λ path _ placed.
                    Safe-ok (
                      deleted_candidate-IsFound bytes cnid size_bytes flags name path numbers
                        numbered (decode_metadata_text-IsText name_bytes decoded) placed))
            ])
    ]

tombstone_fields-Safe :
    (bytes : Bytes) (cnid : ℕ)
    → read_le {E = ScanError} 4 bytes 8 ≡ ok cnid
    → 1 ≤ cnid
    → 312 ≤ length bytes
    → Safe (IsFound bytes) (tombstone_fields bytes cnid)
unfolding tombstone_fields read_u64_le
tombstone_fields-Safe bytes cnid at_cnid numbered long =
    Safe-bind _ _ (read_le-Safe 8 bytes 12 (omega arith)) λ size_bytes at_size _.
      Safe-bind _ _ (byte_at-Safe bytes 20 (omega arith)) λ flags at_flags _.
        Safe-bind _ _ (byte_at-Safe bytes 21 (omega arith)) λ name_len _ _.
          Safe-bind _ _ (byte_at-Safe bytes 22 (omega arith)) λ path_len _ _.
            tombstone_texts-Safe bytes cnid size_bytes flags name_len path_len
              (record { at_cnid = at_cnid; at_size = at_size; at_flags = at_flags }) numbered long

-- A record of any length is read without a panic.
pub parse_tombstone_record-Safe :
    (bytes : Bytes) → Safe (IsFound bytes) (parse_tombstone_record bytes)
unfolding parse_tombstone_record read_u32_le
parse_tombstone_record-Safe bytes =
    elim (Bool-cases (ltb (length bytes) hfs_tombstone_record_size)) [
      | inl short ↦ rw short (Safe-ok tt)
      | inr long ↦ rw long (
          let enough : 312 ≤ length bytes = ground arith in
          Safe-bind _ _ (read_le-Safe 4 bytes 8 (omega arith)) λ cnid at_cnid _.
            elim (Bool-cases (cnid == 0)) [
              | inl unnumbered ↦ rw unnumbered (Safe-ok tt)
              | inr numbered ↦
                  rw numbered (tombstone_fields-Safe bytes cnid at_cnid (ground arith) enough)
            ])
    ]
