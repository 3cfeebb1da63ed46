-- ===== src/Raid/Tests.antt =====
-- Concrete arrays and images, and the theorems on them.
use file_recovery_engine.Prelude.{
  ℕ, ◌/◌, ◌*◌, ◌≤◌, ◌<◌, ◌≡◌, ◌≢◌, ◌↔◌, refl, arith, true, none, some, [], ◌∷◌, ◌&&◌, ltb,
}
use file_recovery_engine.Prelude.Outcome.{ok, err, Returns}
use file_recovery_engine.Prelude.Checked.{u64_mod, checked_mul, checked_add, saturating_mul32}
use file_recovery_engine.Prelude.Bytes.{Bytes, get_range, from_le, all_bytes_sound}
use native.Mathlib.Nat.{mul-div_cancel_left}
use file_recovery_engine.Raid.Types.{
  RaidLayout, RaidLevel, RaidLogicalMapping, RaidManualOverride, RaidDegradedAssessment, linux_md,
  intel_imsm, raid0, raid1, raid5, raid6, left_symmetric, unsupported_layout,
}
use file_recovery_engine.Raid.Fields.{
  is_valid_stripe_size, find_signature_offset, read_u32_le, read_u64_le, map_imsm_level,
  normalize_stripe_size, score_metadata_confidence,
}
use file_recovery_engine.Raid.Order.{validate_disk_order}
use file_recovery_engine.Raid.Order.Exact.{validate_disk_order_iff, IsMemberOrder}
use file_recovery_engine.Raid.Detect.{detect_layout, detect_imsm_layout, imsm_layout_at, range_from}
use file_recovery_engine.Raid.Detect.Total.{detect_layout-Returns}
use file_recovery_engine.Raid.Detect.Valid.{detect_layout-IsValid}
use file_recovery_engine.Raid.Override.{apply_manual_override, resolve_layout_with_override}
use file_recovery_engine.Raid.Override.Valid.{
  apply_manual_override-IsValid, resolve_layout_with_override-IsValid, Overrides,
}
use file_recovery_engine.Raid.Map.{map_logical_offset, map_raid5, parity_position}
use file_recovery_engine.Raid.Map.Shape.{IsValid, supported}
use file_recovery_engine.Raid.Map.Refine.{
  Refines, map_logical_offset-Refines, map_logical_offset_unsupported,
}
use file_recovery_engine.Raid.Map.Injective.{
  map_logical_offset_inj, parity_member-ne-member, map_logical_offset_bounds, IsBelow,
}
use file_recovery_engine.Raid.Degraded.{
  contains, normalize_missing_members, is_mapping_recoverable, assess_degraded_layout,
}
use file_recovery_engine.Raid.Degraded.Missing.{normalize_missing_members_lem, IsIncreasing}
use file_recovery_engine.Raid.Degraded.Survival.{is_mapping_recoverable_iff, Survives}
use file_recovery_engine.Raid.Degraded.Samples.{assess_degraded_layout_total}
use file_recovery_engine.Raid.Degraded.Extremes.{
  assess_degraded_layout_intact, assess_degraded_layout_raid1,
}

-- Four members in a shuffled order, with stripes of 64 KiB behind 1 MiB.
abbrev array_of : RaidLevel → RaidLayout
array_of level = record {
  metadata_family = linux_md;
  level = level;
  member_count = 4;
  stripe_size_bytes = 65536;
  data_offset_bytes = 1048576;
  parity_rotation = left_symmetric;
  disk_order = 2 ∷ 0 ∷ 3 ∷ 1 ∷ [];
  confidence_score = 90;
}

shuffled : validate_disk_order (2 ∷ 0 ∷ 3 ∷ 1 ∷ []) 4 ≡ ok tt
unfolding validate_disk_order
shuffled = refl

striped_64_kib : is_valid_stripe_size 65536 ≡ true
unfolding is_valid_stripe_size
striped_64_kib = refl

array_of-IsValid : (level : RaidLevel) → IsValid (array_of level)
array_of-IsValid level = record {
  members = omega arith;
  striped = striped_64_kib;
  ordered = (validate_disk_order_iff (2 ∷ 0 ∷ 3 ∷ 1 ∷ []) 4).0 shuffled;
  count_fits = omega arith;
}

-- Offset 200000 lies in the second stripe set, on its first data member.
abbrev mapped : RaidLogicalMapping
mapped = record { member_index = 1; member_offset_bytes = 1117504; parity_member_index = some 3 }

mapped_200000 : map_logical_offset (array_of raid5) 200000 ≡ ok mapped
unfolding map_logical_offset map_raid5 validate_disk_order is_valid_stripe_size parity_position
    checked_mul checked_add
mapped_200000 = refl

validate_disk_order_iff_example :
    (validate_disk_order (2 ∷ 0 ∷ 3 ∷ 1 ∷ []) 4 ≡ ok tt) ↔ IsMemberOrder 4 (2 ∷ 0 ∷ 3 ∷ 1 ∷ [])
validate_disk_order_iff_example = validate_disk_order_iff (2 ∷ 0 ∷ 3 ∷ 1 ∷ []) 4

map_logical_offset-Refines_example :
    Refines raid5 (array_of raid5) 200000 (map_logical_offset (array_of raid5) 200000)
unfolding supported
map_logical_offset-Refines_example =
    map_logical_offset-Refines (array_of raid5) 200000 (array_of-IsValid raid5) refl

map_logical_offset_unsupported_example :
    map_logical_offset (array_of raid6) 200000 ≡ err unsupported_layout
unfolding supported
map_logical_offset_unsupported_example =
    map_logical_offset_unsupported (array_of raid6) 200000 (array_of-IsValid raid6) refl

map_logical_offset_inj_example : ◌≡◌ {A = ℕ} 200000 200000
map_logical_offset_inj_example =
    map_logical_offset_inj (array_of raid5) 200000 200000 mapped mapped (array_of-IsValid raid5)
      mapped_200000 mapped_200000 refl refl

parity_member-ne-member_example : ◌≢◌ {A = ℕ} 3 1
parity_member-ne-member_example =
    parity_member-ne-member (array_of raid5) 200000 mapped (array_of-IsValid raid5) mapped_200000
      refl

map_logical_offset_bounds_example :
    (1 < 4) × IsBelow 4 mapped.parity_member_index × (1048576 ≤ 1117504) × (1117504 < u64_mod)
map_logical_offset_bounds_example =
    map_logical_offset_bounds (array_of raid5) 200000 mapped (array_of-IsValid raid5) mapped_200000

is_mapping_recoverable_iff_example :
    (is_mapping_recoverable raid5 mapped (normalize_missing_members (1 ∷ 9 ∷ 1 ∷ []) 4) ≡ true)
    ↔ Survives raid5 mapped (1 ∷ 9 ∷ 1 ∷ []) 4
is_mapping_recoverable_iff_example =
    is_mapping_recoverable_iff (array_of raid5) 200000 mapped (1 ∷ 9 ∷ 1 ∷ [])
      (array_of-IsValid raid5) mapped_200000 (λ p. cc)

normalize_missing_members_lem_example :
    IsIncreasing (normalize_missing_members (3 ∷ 1 ∷ 9 ∷ 1 ∷ []) 4)
    × ((v : ℕ)
        → contains (normalize_missing_members (3 ∷ 1 ∷ 9 ∷ 1 ∷ []) 4) v
          ≡ (contains (3 ∷ 1 ∷ 9 ∷ 1 ∷ []) v && ltb v 4))
normalize_missing_members_lem_example = normalize_missing_members_lem (3 ∷ 1 ∷ 9 ∷ 1 ∷ []) 4

-- A percentage, rounded down.
abbrev percent_down : ℕ → ℕ → ℕ
percent_down recoverable samples = recoverable * 100 / samples

percent_down_all : (n : ℕ) → 0 < n → percent_down n n ≡ 100
percent_down_all n h = mul-div_cancel_left 100 h

assess_degraded_layout_total_example :
    (a : RaidDegradedAssessment) × (assess_degraded_layout percent_down (array_of raid5) (1 ∷ []) 32
      ≡ ok a)
    × (8 ≤ a.sample_count)
    × (a.sample_count ≤ 1024)
    × (a.recoverable_sample_count ≤ a.sample_count)
    × (a.confidence_penalty ≤ 60)
assess_degraded_layout_total_example =
    assess_degraded_layout_total percent_down (array_of raid5) (1 ∷ []) 32 (array_of-IsValid raid5)

assess_degraded_layout_intact_example :
    (a : RaidDegradedAssessment) × (assess_degraded_layout percent_down (array_of raid5) (7 ∷ []) 32
      ≡ ok a)
    × (a.recoverable_sample_count ≡ a.sample_count)
    × (a.recoverability_percent ≡ 100)
    × (a.confidence_penalty ≡ 0)
unfolding supported contains
assess_degraded_layout_intact_example =
    assess_degraded_layout_intact percent_down percent_down_all (array_of raid5) (7 ∷ []) 32
      (array_of-IsValid raid5) (omega arith) refl (λ w h. ground arith)

assess_degraded_layout_raid1_example :
    (a : RaidDegradedAssessment) × (assess_degraded_layout percent_down
        (array_of raid1)
        (0 ∷ 1 ∷ 2 ∷ 3 ∷ [])
        32
      ≡ ok a)
    × (a.recoverable_sample_count ≡ a.sample_count)
    × (a.recoverability_percent ≡ 100)
    × (a.confidence_penalty ≡ 0)
assess_degraded_layout_raid1_example =
    assess_degraded_layout_raid1 percent_down percent_down_all (array_of raid1) (0 ∷ 1 ∷ 2 ∷ 3 ∷ [])
      32 (array_of-IsValid raid1) (omega arith) refl

-- An override of the level and of the order.
abbrev to_raid0 : RaidManualOverride
to_raid0 = record {
  level = some raid0;
  stripe_size_bytes = none;
  data_offset_bytes = none;
  parity_rotation = none;
  disk_order = some (3 ∷ 2 ∷ 1 ∷ 0 ∷ []);
}

abbrev overridden_array : RaidLayout
overridden_array = record (array_of raid0) {
  disk_order = 3 ∷ 2 ∷ 1 ∷ 0 ∷ [];
  confidence_score = 90;
}

overridden_to_raid0 : apply_manual_override (array_of raid5) to_raid0 ≡ ok overridden_array
unfolding apply_manual_override validate_disk_order is_valid_stripe_size
overridden_to_raid0 = refl

apply_manual_override-IsValid_example :
    IsValid overridden_array × Overrides (array_of raid5) to_raid0 overridden_array
apply_manual_override-IsValid_example =
    apply_manual_override-IsValid (array_of raid5) to_raid0 overridden_array
      (array_of-IsValid raid5) overridden_to_raid0

-- An image that holds the metadata of a RAID 5 array of three members.
abbrev imsm_image : Bytes
imsm_image =
    73 ∷ 110 ∷ 116 ∷ 101 ∷ 108 ∷ 32 ∷ 82 ∷ 97 ∷ 105 ∷ 100 ∷ 32 ∷ 73 ∷ 83 ∷ 77 ∷ 32 ∷ 67 ∷ 102 ∷ 103
    ∷ 32 ∷ 83 ∷ 105 ∷ 103 ∷ 46 ∷ 0 ∷ 0 ∷ 0 ∷ 0 ∷ 0 ∷ 0 ∷ 0 ∷ 0 ∷ 0 ∷ 0 ∷ 0 ∷ 0 ∷ 0 ∷ 0 ∷ 0 ∷ 0 ∷ 0
    ∷ 0 ∷ 0 ∷ 0 ∷ 0 ∷ 0 ∷ 0 ∷ 0 ∷ 0 ∷ 0 ∷ 0 ∷ 0 ∷ 0 ∷ 0 ∷ 0 ∷ 0 ∷ 0 ∷ 0 ∷ 0 ∷ 0 ∷ 0 ∷ 0 ∷ 0 ∷ 0 ∷ 0
    ∷ 2 ∷ 0 ∷ 0 ∷ 0 ∷ 3 ∷ 0 ∷ 0 ∷ 0 ∷ 64 ∷ 0 ∷ 0 ∷ 0 ∷ 0 ∷ 0 ∷ 0 ∷ 0 ∷ 0 ∷ 8 ∷ 0 ∷ 0 ∷ 0 ∷ 0 ∷ 0 ∷ 0
    ∷ []

abbrev imsm_layout : RaidLayout
imsm_layout = record {
  metadata_family = intel_imsm;
  level = raid5;
  member_count = 3;
  stripe_size_bytes = 65536;
  data_offset_bytes = 1048576;
  parity_rotation = left_symmetric;
  disk_order = 0 ∷ 1 ∷ 2 ∷ [];
  confidence_score = 99;
}

imsm_detected : detect_layout imsm_image ≡ ok (some imsm_layout)
unfolding detect_layout find_signature_offset imsm_layout_at detect_imsm_layout read_u32_le
    read_u64_le get_range from_le checked_mul map_imsm_level normalize_stripe_size
    score_metadata_confidence saturating_mul32 range_from
imsm_detected = refl

detect_layout-Returns_example : Returns (detect_layout imsm_image)
detect_layout-Returns_example = detect_layout-Returns imsm_image

detect_layout-IsValid_example :
    IsValid imsm_layout
    × (0 ∷ 1 ∷ 2 ∷ [] ≡ range_from 0 3)
    × (60 ≤ imsm_layout.confidence_score)
    × (imsm_layout.confidence_score ≤ 99)
detect_layout-IsValid_example =
    detect_layout-IsValid imsm_image imsm_layout (all_bytes_sound imsm_image refl) imsm_detected

imsm_resolved : resolve_layout_with_override imsm_image none ≡ ok (some imsm_layout)
unfolding resolve_layout_with_override detect_layout find_signature_offset imsm_layout_at
    detect_imsm_layout read_u32_le read_u64_le get_range from_le checked_mul map_imsm_level
    normalize_stripe_size score_metadata_confidence saturating_mul32 range_from
imsm_resolved = refl

resolve_layout_with_override-IsValid_example : IsValid imsm_layout
resolve_layout_with_override-IsValid_example =
    resolve_layout_with_override-IsValid imsm_image none imsm_layout
      (all_bytes_sound imsm_image refl) imsm_resolved
