-- ===== src/Session/Usn/Index.antt =====
-- What the records of the USN journal say, by record number, by name and parent, and by path.
use Prim.Native.Nat.{bit_or}
use file_recovery_engine.Prelude.{
  ℕ, ◌%◌, Bool, true, false, ◌||◌, ◌&&◌, Option, none, some, List, [], ◌∷◌,
}
use file_recovery_engine.Prelude.{◌==◌, if◌then◌else◌}
use file_recovery_engine.Prelude.Checked.{has_bit}
use file_recovery_engine.Prelude.Bytes.{bytes_eq}
use file_recovery_engine.Prelude.Int.{ℤ, lebℤ}
use file_recovery_engine.Validator.Text.{trim_start, trim_end, is_whitespace, to_ascii_lowercase}
use file_recovery_engine.Usn.Types.{UsnRecord}
use file_recovery_engine.Session.Types.{QuickScanCandidate}
use file_recovery_engine.Session.Maps.{find, upsert}

pub record UsnAggregate : Type 0 where
  pub reason_mask : ℕ
  pub latest_usn : ℤ
  pub latest_reason : ℕ
  pub latest_name : List ℕ
  pub latest_parent_record : ℕ
  pub latest_file_attributes : ℕ
  pub latest_timestamp_100ns : ℤ

abbrev pub same_number : ℕ → ℕ → Bool
same_number a b = a == b

abbrev pub same_name_parent : List ℕ × ℕ → List ℕ × ℕ → Bool
same_name_parent (name, parent) (other, number) = bytes_eq name other && parent == number

abbrev pub ntfs_record_number : ℕ → ℕ
ntfs_record_number reference = reference % 0x1000000000000

abbrev pub trim : List ℕ → List ℕ
trim text = trim_end is_whitespace (trim_start is_whitespace text)

abbrev pub is_empty : List ℕ → Bool
is_empty [] = true
is_empty (c ∷ text) = false

unfoldable pub normalize_case_key : List ℕ → List ℕ
normalize_case_key value = to_ascii_lowercase (trim value)

-- The masks are those of `fr-usn`: file delete and the two of a rename; rename to and create; the
-- three of named data.
unfoldable pub should_surface_ghost_candidate : ℕ → Bool
should_surface_ghost_candidate reason_mask =
    has_bit reason_mask 0x0200 || has_bit reason_mask 0x1000 || has_bit reason_mask 0x2000

unfoldable pub should_apply_rename_hint : ℕ → Bool
should_apply_rename_hint reason_mask = has_bit reason_mask 0x2000 || has_bit reason_mask 0x0100

abbrev pub has_named_data_reason : ℕ → Bool
has_named_data_reason reason_mask =
    has_bit reason_mask 0x10 || has_bit reason_mask 0x20 || has_bit reason_mask 0x40

-- `and_modify` and `or_insert_with`.
unfoldable pub aggregate : UsnRecord → Option UsnAggregate → UsnAggregate
aggregate r none = record {
  reason_mask = r.reason;
  latest_usn = r.usn;
  latest_reason = r.reason;
  latest_name = r.file_name;
  latest_parent_record = ntfs_record_number r.parent_file_reference_number;
  latest_file_attributes = r.file_attributes;
  latest_timestamp_100ns = r.timestamp_100ns;
}
aggregate r (some a) =
    if lebℤ a.latest_usn r.usn
    then record {
      reason_mask = bit_or a.reason_mask r.reason;
      latest_usn = r.usn;
      latest_reason = r.reason;
      latest_name = r.file_name;
      latest_parent_record = ntfs_record_number r.parent_file_reference_number;
      latest_file_attributes = r.file_attributes;
      latest_timestamp_100ns = r.timestamp_100ns;
    }
    else record a { reason_mask = bit_or a.reason_mask r.reason }

abbrev pub or_zero : Option ℕ → ℕ
or_zero none = 0
or_zero (some v) = v

abbrev pub ByRecord : Type 0
ByRecord = List (ℕ × UsnAggregate)

abbrev pub ByNameParent : Type 0
ByNameParent = List ((List ℕ × ℕ) × ℕ)

abbrev pub ByPath : Type 0
ByPath = List (List ℕ × ℕ)

-- The loop over the journal's records.
unfoldable pub index_records : List UsnRecord → ByRecord → ByNameParent → ByRecord × ByNameParent
unfolding upsert aggregate normalize_case_key
index_records [] by_record by_name_parent = (by_record, by_name_parent)
index_records (r ∷ usn_records) by_record by_name_parent =
    index_records usn_records
      (upsert same_number (ntfs_record_number r.file_reference_number) (aggregate r) by_record)
      (upsert same_name_parent
        (normalize_case_key r.file_name, ntfs_record_number r.parent_file_reference_number)
        (λ reason. bit_or (or_zero reason) r.reason) by_name_parent)

-- `entry(path).or_insert(reason)`.
abbrev pub add_path : Option (List ℕ) → Option UsnAggregate → ByPath → ByPath
add_path none a by_path = by_path
add_path (some path) none by_path = by_path
add_path (some path) (some a) by_path =
    upsert bytes_eq (normalize_case_key path)
      (λ reason. elim reason [ none ↦ a.reason_mask | some old ↦ old ]) by_path

-- The loop over the candidates.
unfoldable pub index_paths : List QuickScanCandidate → ByRecord → ByPath → ByPath
unfolding find
index_paths [] by_record by_path = by_path
index_paths (c ∷ candidates) by_record by_path =
    index_paths candidates by_record
      (add_path c.reconstructed_path (find same_number c.record_number by_record) by_path)

pub record UsnIndexes : Type 0 where
  pub by_record_number : ByRecord
  pub by_name_parent : ByNameParent
  pub by_path : ByPath

unfoldable pub build_usn_indexes : List QuickScanCandidate → List UsnRecord → UsnIndexes
unfolding index_records index_paths
build_usn_indexes candidates usn_records =
    let (by_record, by_name_parent) = index_records usn_records [] [] in
    record {
      by_record_number = by_record;
      by_name_parent = by_name_parent;
      by_path = index_paths candidates by_record [];
    }
