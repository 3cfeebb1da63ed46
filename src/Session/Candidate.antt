-- ===== src/Session/Candidate.antt =====
-- The candidate of a file record: its flags and its first readable file name.
pub mod Total
use file_recovery_engine.Prelude.{
  ℕ, ◌+◌, ◌*◌, ◌%◌, Bool, true, false, not, ◌||◌, ◌&&◌, Option, none, some, List, [], ◌∷◌,
}
use file_recovery_engine.Prelude.{ltb, ◌==◌, if◌then◌else◌, length}
use file_recovery_engine.Prelude.Outcome.{ok, or_panic, ◌>>=◌}
use file_recovery_engine.Prelude.Checked.{has_bit, checked_add, checked_mul}
use file_recovery_engine.Prelude.Bytes.{Bytes, get_range}
use file_recovery_engine.Prelude.Readers.{read_le, byte_at}
use file_recovery_engine.Prelude.Text.{code_units, decode_utf16}
use file_recovery_engine.Mft.Types.{
  MftRecord, AttributeRecord, AttributeForm, resident, non_resident,
}
use file_recovery_engine.Mft.Record.{in_use, is_directory}
use file_recovery_engine.Scoring.Types.{EvidenceSource}
use file_recovery_engine.Session.Types.{QuickScanCandidate, Scanned}
use mathlib.Core.Option

abbrev attribute_type_file_name : ℕ
attribute_type_file_name = 0x30

abbrev attribute_type_data : ℕ
attribute_type_data = 0x80

pub record FileNameMetadata : Type 0 where
  pub parent_record_number : ℕ
  pub name : List ℕ
  pub allocated_size_bytes : ℕ
  pub data_size_bytes : ℕ
  pub file_attributes : ℕ
  pub created_filetime_utc : ℕ
  pub modified_filetime_utc : ℕ
  pub mft_modified_filetime_utc : ℕ
  pub accessed_filetime_utc : ℕ

-- `String::from_utf16(&code_units).ok()?` and the test for an empty name.
abbrev pub filled : Option (List ℕ) → Option (List ℕ)
filled none = none
filled (some []) = none
filled (some (c ∷ text)) = some (c ∷ text)

-- The name that ends at `name_end`, if that did not overflow.
unfoldable pub name_up_to : Bytes → Option ℕ → Scanned (Option (List ℕ))
name_up_to value none = ok none
name_up_to value (some name_end) =
    if ltb (length value) name_end
    then ok none
    else or_panic (get_range value 0x42 name_end) >>= λ slice.
        or_panic (code_units slice) >>= λ units. ok (filled (decode_utf16 none units))

unfoldable pub parse_file_name_value : Bytes → Scanned (Option FileNameMetadata)
unfolding name_up_to
parse_file_name_value value = if ltb (length value) 0x42 then ok none else do
  parent_ref ← read_le 8 value 0
  created ← read_le 8 value 0x08
  modified ← read_le 8 value 0x10
  mft_modified ← read_le 8 value 0x18
  accessed ← read_le 8 value 0x20
  allocated ← read_le 8 value 0x28
  data_size ← read_le 8 value 0x30
  attributes ← read_le 4 value 0x38
  name_len ← byte_at value 0x40
  name ← name_up_to value (Option.bind (checked_mul name_len 2) (checked_add 0x42))
  ok (
      Option.map
        (λ text. record {
          parent_record_number = parent_ref % 0x1000000000000;
          name = text;
          allocated_size_bytes = allocated;
          data_size_bytes = data_size;
          file_attributes = attributes;
          created_filetime_utc = created;
          modified_filetime_utc = modified;
          mft_modified_filetime_utc = mft_modified;
          accessed_filetime_utc = accessed;
        })
        name)

unfoldable pub extract_file_name : AttributeForm → Scanned (Option FileNameMetadata)
unfolding parse_file_name_value
extract_file_name (resident form) = parse_file_name_value form.value
extract_file_name (non_resident form) = ok none

abbrev pub is_non_resident : AttributeForm → Bool
is_non_resident (resident form) = false
is_non_resident (non_resident form) = true

abbrev pub is_some {ℓ} : {A : Type ℓ} → Option A → Bool
is_some none = false
is_some (some a) = true

-- The marks that an attribute sets.
unfoldable pub mark_attribute : AttributeRecord → QuickScanCandidate → QuickScanCandidate
mark_attribute attribute c =
    let is_data = attribute.attribute_type == attribute_type_data in
    record c {
      has_compressed_data = c.has_compressed_data || has_bit attribute.flags 0x0001;
      has_sparse_data = c.has_sparse_data || has_bit attribute.flags 0x8000;
      has_encrypted_data = c.has_encrypted_data || has_bit attribute.flags 0x4000;
      has_non_resident_data =
          c.has_non_resident_data || (is_data && is_non_resident attribute.form);
      has_named_data_streams = c.has_named_data_streams || (is_data && is_some attribute.name);
    }

unfoldable pub take_metadata : Option FileNameMetadata → QuickScanCandidate → QuickScanCandidate
take_metadata none c = c
take_metadata (some metadata) c = record c {
  name = some metadata.name;
  parent_record_number = some metadata.parent_record_number;
  allocated_size_bytes = some metadata.allocated_size_bytes;
  data_size_bytes = some metadata.data_size_bytes;
  file_attributes = some metadata.file_attributes;
  created_filetime_utc = some metadata.created_filetime_utc;
  modified_filetime_utc = some metadata.modified_filetime_utc;
  mft_modified_filetime_utc = some metadata.mft_modified_filetime_utc;
  accessed_filetime_utc = some metadata.accessed_filetime_utc;
}

-- The loop over the attributes. A file name counts until there is a name.
unfoldable pub attributes_loop :
    List AttributeRecord → QuickScanCandidate → Scanned QuickScanCandidate
unfolding mark_attribute take_metadata
attributes_loop [] c = ok c
attributes_loop (attribute ∷ attributes) c =
    let marked = mark_attribute attribute c in
    if is_some c.name || not (attribute.attribute_type == attribute_type_file_name)
    then attributes_loop attributes marked
    else extract_file_name attribute.form >>= λ metadata.
        attributes_loop attributes (take_metadata metadata marked)

unfoldable pub build_candidate : ℕ → MftRecord → Scanned QuickScanCandidate
unfolding attributes_loop
build_candidate record_index mft_record = attributes_loop mft_record.attributes (record {
  record_index = record_index;
  record_number = mft_record.header.record_number;
  is_ghost_record = false;
  in_use = in_use mft_record.header;
  deleted = not (in_use mft_record.header);
  is_directory = is_directory mft_record.header;
  has_non_resident_data = false;
  has_named_data_streams = false;
  has_compressed_data = false;
  has_sparse_data = false;
  has_encrypted_data = false;
  usn_reason_mask = none;
  name = none;
  parent_record_number = none;
  reconstructed_path = none;
  allocated_size_bytes = none;
  data_size_bytes = none;
  file_attributes = none;
  created_filetime_utc = none;
  modified_filetime_utc = none;
  mft_modified_filetime_utc = none;
  accessed_filetime_utc = none;
  evidence_sources = EvidenceSource.mft ∷ [];
})
