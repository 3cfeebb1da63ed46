-- ===== src/Raid/Detect/Valid.antt =====
-- A layout that a detector returns is well formed, so that it can be mapped at once.
use file_recovery_engine.Prelude.{
  ℕ, zero, suc, ◌+◌, ◌≤◌, ◌<◌, ◌^◌, ◌≡◌, ◌⊎◌, arith, true, none, some, refl, ap, inl, inr,
  Option-cases,
}
use file_recovery_engine.Prelude.{get_elem?, length, All}
use file_recovery_engine.Prelude.Outcome.{ok, err, panic, stuck}
use file_recovery_engine.Prelude.Checked.{u32_mod}
use file_recovery_engine.Prelude.Bytes.{
  Bytes, IsByte, get_range, get_range-some, from_le, from_le-lt,
}
use file_recovery_engine.Raid.Types.{RaidLayout}
use file_recovery_engine.Raid.Fields.{read_u32_le, find_signature_offset, is_valid_stripe_size}
use file_recovery_engine.Raid.Fields.{normalize_stripe_size_valid, score_metadata_confidence_bounds}
use file_recovery_engine.Raid.Order.Exact.{IsMemberOrder}
use file_recovery_engine.Raid.Detect.{range_from, Detection, detect_mdraid_layout, or_else}
use file_recovery_engine.Raid.Detect.{detect_storage_spaces_layout, imsm_layout_at, ddf_layout_at}
use file_recovery_engine.Raid.Detect.{detect_imsm_layout, detect_ddf_layout, detect_layout}
use file_recovery_engine.Raid.Detect.{imsm_signature, ddf_signature}
use file_recovery_engine.Raid.Map.Shape.{IsValid}

length-range_from : (first count : ℕ) → length (range_from first count) ≡ count
unfolding range_from
length-range_from first zero = refl
length-range_from first (suc count) = ap suc (length-range_from (suc first) count)

get_elem?-range_from :
    (first count i : ℕ) {v : ℕ}
    → get_elem? (range_from first count) i ≡ some v
    → (v ≡ first + i) × (i < count)
unfolding range_from
get_elem?-range_from first zero i e = absurd (cc)
get_elem?-range_from first (suc count) zero e = ground arith
get_elem?-range_from first (suc count) (suc i) e =
    omega (arith, get_elem?-range_from (suc first) count i e)

range_from-IsMemberOrder : (n : ℕ) → IsMemberOrder n (range_from 0 n)
range_from-IsMemberOrder n = record {
  counted = length-range_from 0 n;
  below = λ i e. omega (arith, get_elem?-range_from 0 n i e);
  distinct = λ i j e f. omega (arith, get_elem?-range_from 0 n i e, get_elem?-range_from 0 n j f);
}

read_u32_le-lt :
    (image : Bytes) (offset v : ℕ)
    → All IsByte image
    → read_u32_le image offset ≡ ok v
    → v < u32_mod
unfolding read_u32_le
read_u32_le-lt image offset v h e = elim (Option-cases (get_range image offset (offset + 4))) [
  | inl none_there ↦ absurd (cc (rw none_there at e))
  | inr (bs, found) ↦
      let (bytes, size, _) = get_range-some image offset (offset + 4) found h in
      let four : length bs ≡ 4 = omega (arith, size) in
      let bound : from_le bs < 256 ^ 4 = rw four at (from_le-lt bs bytes) in ground (arith, bound)
]

-- What every detector fills in.
pub record IsFilled (l : RaidLayout) : Type 0 where
  pub members : 2 ≤ l.member_count
  pub count_fits : l.member_count < u32_mod
  pub striped : is_valid_stripe_size l.stripe_size_bytes ≡ true
  pub ordered : l.disk_order ≡ range_from 0 l.member_count
  pub trusted : (60 ≤ l.confidence_score) × (l.confidence_score ≤ 99)

module _ (image : Bytes) (l : RaidLayout) (h : All IsByte image) where
  mdraid-IsFilled : detect_mdraid_layout image ≡ ok (some l) → IsFilled l
  unfolding detect_mdraid_layout
  mdraid-IsFilled e = record {
    members = ground arith;
    count_fits = ground (arith, read_u32_le-lt image 4188 l.member_count h);
    striped = grind (arith, normalize_stripe_size_valid);
    ordered = ground arith;
    trusted = grind (arith, score_metadata_confidence_bounds);
  }

  spaces-IsFilled : detect_storage_spaces_layout image ≡ ok (some l) → IsFilled l
  unfolding detect_storage_spaces_layout
  spaces-IsFilled e = record {
    members = ground arith;
    count_fits = ground (arith, read_u32_le-lt image 536 l.member_count h);
    striped = grind (arith, normalize_stripe_size_valid);
    ordered = ground arith;
    trusted = grind (arith, score_metadata_confidence_bounds);
  }

  imsm-IsFilled : (base : ℕ) → imsm_layout_at image base ≡ ok (some l) → IsFilled l
  unfolding imsm_layout_at
  imsm-IsFilled base e = record {
    members = ground arith;
    count_fits = ground (arith, read_u32_le-lt image (base + 0x44) l.member_count h);
    striped = grind (arith, normalize_stripe_size_valid);
    ordered = ground arith;
    trusted = grind (arith, score_metadata_confidence_bounds);
  }

  ddf-IsFilled : (base : ℕ) → ddf_layout_at image base ≡ ok (some l) → IsFilled l
  unfolding ddf_layout_at
  ddf-IsFilled base e = record {
    members = ground arith;
    count_fits = ground (arith, read_u32_le-lt image (base + 0x28) l.member_count h);
    striped = grind (arith, normalize_stripe_size_valid);
    ordered = ground arith;
    trusted = grind (arith, score_metadata_confidence_bounds);
  }

-- One detector of the chain has found what the chain returns.
or_else-inv :
    (a b : Detection) {l : RaidLayout}
    → or_else a b ≡ ok (some l)
    → (a ≡ ok (some l)) ⊎ (b ≡ ok (some l))
unfolding or_else
or_else-inv (ok none) b e = inr e
or_else-inv (ok (some x)) b e = inl e
or_else-inv (err x) b e = absurd (cc)
or_else-inv panic b e = absurd (cc)
or_else-inv stuck b e = absurd (cc)

imsm_found :
    (image : Bytes) {l : RaidLayout}
    → detect_imsm_layout image ≡ ok (some l)
    → (base : ℕ) × (imsm_layout_at image base ≡ ok (some l))
unfolding detect_imsm_layout
imsm_found image e = elim (Option-cases (find_signature_offset image imsm_signature)) [
  | inl missing ↦ absurd (cc (rw (missing, detect_imsm_layout) at e))
  | inr (base, found) ↦ (base, rw (found, detect_imsm_layout) at e)
]

ddf_found :
    (image : Bytes) {l : RaidLayout}
    → detect_ddf_layout image ≡ ok (some l)
    → (base : ℕ) × (ddf_layout_at image base ≡ ok (some l))
unfolding detect_ddf_layout
ddf_found image e = elim (Option-cases (find_signature_offset image ddf_signature)) [
  | inl missing ↦ absurd (cc (rw (missing, detect_ddf_layout) at e))
  | inr (base, found) ↦ (base, rw (found, detect_ddf_layout) at e)
]

pub detect_layout-IsFilled :
    (image : Bytes) (l : RaidLayout)
    → All IsByte image
    → detect_layout image ≡ ok (some l)
    → IsFilled l
unfolding detect_layout
detect_layout-IsFilled image l h e = elim (or_else-inv (detect_mdraid_layout image) _ e) [
  | inl md ↦ mdraid-IsFilled image l h md
  | inr e ↦ elim (or_else-inv (detect_storage_spaces_layout image) _ e) [
    | inl spaces ↦ spaces-IsFilled image l h spaces
    | inr e ↦ elim (or_else-inv (detect_imsm_layout image) _ e) [
      | inl imsm ↦ let (base, found) = imsm_found image imsm in imsm-IsFilled image l h base found
      | inr e ↦ elim (or_else-inv (detect_ddf_layout image) (ok none) e) [
        | inl ddf ↦ let (base, found) = ddf_found image ddf in ddf-IsFilled image l h base found
        | inr e ↦ absurd (cc)
      ]
    ]
  ]
]

-- Whatever the bytes of the image, a layout that `detect_layout` finds is well formed, with its
-- members in their natural order and a confidence from 60 to 99.
pub detect_layout-IsValid :
    (image : Bytes) (l : RaidLayout)
    → All IsByte image
    → detect_layout image ≡ ok (some l)
    → IsValid l
      × (l.disk_order ≡ range_from 0 l.member_count)
      × (60 ≤ l.confidence_score)
      × (l.confidence_score ≤ 99)
detect_layout-IsValid image l h e =
    let f = detect_layout-IsFilled image l h e in
    (
      record {
        members = f.members;
        striped = f.striped;
        ordered = rw f.ordered (range_from-IsMemberOrder l.member_count);
        count_fits = f.count_fits;
      },
      f.ordered,
      f.trusted.0,
      f.trusted.1,
    )
