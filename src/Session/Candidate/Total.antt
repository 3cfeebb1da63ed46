-- ===== src/Session/Candidate/Total.antt =====
-- The candidate of a record, on arbitrary attributes.
use file_recovery_engine.Prelude.{
  ℕ, ◌+◌, ◌*◌, ◌≤◌, ◌≡◌, refl, arith, not, ◌||◌, ◌==◌, Option, none, some, List, [], ◌∷◌, inl, inr,
  ltb, length, Bool-cases,
}
use file_recovery_engine.Prelude.Outcome.{Safe, Safe-ok, Safe-bind}
use file_recovery_engine.Prelude.Checked.{u64_mod, checked_add, checked_mul}
use file_recovery_engine.Prelude.Bytes.{Bytes, get_range_total}
use file_recovery_engine.Prelude.Readers.{read_le-Safe, byte_at-Safe}
use file_recovery_engine.Prelude.Text.{code_units_total}
use file_recovery_engine.Mft.Types.{
  MftRecord, AttributeRecord, AttributeForm, resident, non_resident,
}
use file_recovery_engine.Mft.Record.{in_use, is_directory}
use file_recovery_engine.Scoring.Types.{EvidenceSource}
use file_recovery_engine.Session.Types.{QuickScanCandidate}
use file_recovery_engine.Session.Candidate.{
  name_up_to, parse_file_name_value, extract_file_name, mark_attribute, take_metadata, is_some,
  attributes_loop, build_candidate, FileNameMetadata, attribute_type_file_name,
}
use mathlib.Core.Option

-- A name that ends behind whole code units.
name_slice-Safe :
    (value : Bytes) (size : ℕ) → Safe (λ _. Unit {0}) (name_up_to value (some (0x42 + size * 2)))
unfolding name_up_to
name_slice-Safe value size = elim (Bool-cases (ltb (length value) (0x42 + size * 2))) [
  | inl short ↦ rw short (Safe-ok tt)
  | inr long ↦
      let (slice, found, long_enough) =
        get_range_total value 0x42 (0x42 + size * 2) (omega arith) (ground arith) in
      let (units, decoded) = code_units_total size slice (omega arith) in
      rw (long, found, decoded) (Safe-ok tt)
]

name_up_to-Safe :
    (value : Bytes) (size : ℕ)
    → Safe (λ _. Unit {0}) (name_up_to value (Option.bind (checked_mul size 2) (checked_add 0x42)))
unfolding checked_mul checked_add Option.bind
name_up_to-Safe value size = elim (Bool-cases (ltb (size * 2) u64_mod)) [
  | inr large ↦ rw large (unfold name_up_to in Safe-ok tt)
  | inl small ↦ elim (Bool-cases (ltb (0x42 + size * 2) u64_mod)) [
    | inr over ↦ rw (small, over) (unfold name_up_to in Safe-ok tt)
    | inl within ↦ rw (small, within) (name_slice-Safe value size)
  ]
]

parse_file_name_value-Safe : (value : Bytes) → Safe (λ _. Unit {0}) (parse_file_name_value value)
unfolding parse_file_name_value
parse_file_name_value-Safe value = elim (Bool-cases (ltb (length value) 0x42)) [
  | inl short ↦ rw short (Safe-ok tt)
  | inr long ↦
      let h : 0x42 ≤ length value = ground arith in
      rw long (
        Safe-bind _ _ (read_le-Safe 8 value 0 (omega arith)) λ parent _ _.
          Safe-bind _ _ (read_le-Safe 8 value 0x08 (omega arith)) λ created _ _.
            Safe-bind _ _ (read_le-Safe 8 value 0x10 (omega arith)) λ modified _ _.
              Safe-bind _ _ (read_le-Safe 8 value 0x18 (omega arith)) λ mft_modified _ _.
                Safe-bind _ _ (read_le-Safe 8 value 0x20 (omega arith)) λ accessed _ _.
                  Safe-bind _ _ (read_le-Safe 8 value 0x28 (omega arith)) λ allocated _ _.
                    Safe-bind _ _ (read_le-Safe 8 value 0x30 (omega arith)) λ data_size _ _.
                      Safe-bind _ _ (read_le-Safe 4 value 0x38 (omega arith)) λ attributes _ _.
                        Safe-bind _ _ (byte_at-Safe value 0x40 (omega arith)) λ size _ _.
                          Safe-bind _ _ (name_up_to-Safe value size) λ name _ _. Safe-ok tt)
]

extract_file_name-Safe : (form : AttributeForm) → Safe (λ _. Unit {0}) (extract_file_name form)
unfolding extract_file_name
extract_file_name-Safe (resident form) = parse_file_name_value-Safe form.value
extract_file_name-Safe (non_resident form) = Safe-ok tt

-- What an attribute does not change.
pub record IsCandidateOf (index : ℕ) (r : MftRecord) (c : QuickScanCandidate) : Type 0 where
  pub at_index : c.record_index ≡ index
  pub number : c.record_number ≡ r.header.record_number
  pub use_mark : c.in_use ≡ in_use r.header
  pub deletion : c.deleted ≡ not (in_use r.header)
  pub directory : c.is_directory ≡ is_directory r.header
  pub evidence : c.evidence_sources ≡ EvidenceSource.mft ∷ []

module _ (index : ℕ) (r : MftRecord) where
  mark_attribute-keeps :
      (attribute : AttributeRecord) (c : QuickScanCandidate)
      → IsCandidateOf index r c
      → IsCandidateOf index r (mark_attribute attribute c)
  unfolding mark_attribute
  mark_attribute-keeps attribute c h = record {
    at_index = h.at_index;
    number = h.number;
    use_mark = h.use_mark;
    deletion = h.deletion;
    directory = h.directory;
    evidence = h.evidence;
  }

  take_metadata-keeps :
      (metadata : Option FileNameMetadata) (c : QuickScanCandidate)
      → IsCandidateOf index r c
      → IsCandidateOf index r (take_metadata metadata c)
  unfolding take_metadata
  take_metadata-keeps none c h = h
  take_metadata-keeps (some metadata) c h = record {
    at_index = h.at_index;
    number = h.number;
    use_mark = h.use_mark;
    deletion = h.deletion;
    directory = h.directory;
    evidence = h.evidence;
  }

  attributes_loop-Safe :
      (attributes : List AttributeRecord) (c : QuickScanCandidate)
      → IsCandidateOf index r c
      → Safe (IsCandidateOf index r) (attributes_loop attributes c)
  unfolding attributes_loop
  attributes_loop-Safe [] c h = Safe-ok h
  attributes_loop-Safe (attribute ∷ attributes) c h =
      elim (Bool-cases
        (is_some c.name || not (attribute.attribute_type == attribute_type_file_name))) [
          | inl skipped ↦
              rw skipped (attributes_loop-Safe attributes _ (mark_attribute-keeps attribute c h))
          | inr wanted ↦ rw wanted (
              Safe-bind _ _ (extract_file_name-Safe attribute.form) λ metadata _ _.
                attributes_loop-Safe attributes _
                  (take_metadata-keeps metadata _ (mark_attribute-keeps attribute c h)))
        ]

  pub build_candidate-Safe : Safe (IsCandidateOf index r) (build_candidate index r)
  unfolding build_candidate
  build_candidate-Safe = attributes_loop-Safe r.attributes _ (record {
    at_index = refl;
    number = refl;
    use_mark = refl;
    deletion = refl;
    directory = refl;
    evidence = refl;
  })
