-- ===== src/Raid/Map.antt =====
-- `map_logical_offset`: from a logical offset to a member and an offset on it.
pub mod Shape
pub mod Refine
pub mod Places
pub mod Injective
pub mod Covers
use file_recovery_engine.Prelude.{ℕ, ◌+◌, ◌-◌, ◌*◌, ◌/◌, ◌%◌, Bool, true, false, not, ◌||◌}
use file_recovery_engine.Prelude.{Option, none, some, List, String}
use file_recovery_engine.Prelude.{ltb, ◌==◌, if◌then◌else◌, get_elem?}
use file_recovery_engine.Prelude.Outcome.{Outcome, ok, err, ok_or, or_panic, fail_if, ◌>>=◌, ◌>>◌}
use file_recovery_engine.Prelude.Checked.{checked_add, checked_mul, checked_mul32, checked_add32}
use file_recovery_engine.Raid.Types.{RaidLayout, RaidError, RaidLogicalMapping, RaidLevel}
use file_recovery_engine.Raid.Types.{raid0, raid1, raid4, raid5, raid6, raid10}
use file_recovery_engine.Raid.Types.{ParityRotation, left_symmetric, right_symmetric}
use file_recovery_engine.Raid.Types.{invalid_member_count, invalid_stripe_size}
use file_recovery_engine.Raid.Types.{arithmetic_overflow, unsupported_layout}
use file_recovery_engine.Raid.Fields.{is_valid_stripe_size}
use file_recovery_engine.Raid.Order.{validate_disk_order}

abbrev pub Mapped : Type 0
Mapped = Outcome RaidError RaidLogicalMapping

-- `data_offset.checked_add(stripes.checked_mul(stripe)?)`, then `checked_add(stripe_offset)`:
-- the expression that four of the mappings share, with the texts of its two errors.
member_offset : RaidLayout → String → String → ℕ → ℕ → Outcome RaidError ℕ
member_offset layout delta_text offset_text stripes stripe_offset = do
  delta ← ok_or (checked_mul stripes layout.stripe_size_bytes) (arithmetic_overflow delta_text)
  start ← ok_or (checked_add layout.data_offset_bytes delta) (arithmetic_overflow offset_text)
  ok_or (checked_add start stripe_offset) (arithmetic_overflow offset_text)

unfoldable pub map_raid0 : RaidLayout → ℕ → Mapped
unfolding member_offset
map_raid0 layout offset = do
  let stripe = layout.stripe_size_bytes
  let stripe_number = offset / stripe
  let stripe_offset = offset % stripe
  let member_position = stripe_number % layout.member_count
  let member_stripe_index = stripe_number / layout.member_count
  bytes ←
      member_offset layout "raid0 member stripe delta" "raid0 member offset" member_stripe_index
        stripe_offset
  member ← or_panic (get_elem? layout.disk_order member_position)
  ok (record { member_index = member; member_offset_bytes = bytes; parity_member_index = none })

unfoldable pub map_raid1 : RaidLayout → ℕ → Mapped
map_raid1 layout offset = do
  bytes ←
      ok_or (checked_add layout.data_offset_bytes offset)
        (arithmetic_overflow "raid1 member offset")
  member ← or_panic (get_elem? layout.disk_order 0)
  ok (record { member_index = member; member_offset_bytes = bytes; parity_member_index = none })

unfoldable pub map_raid4 : RaidLayout → ℕ → Mapped
unfolding member_offset
map_raid4 layout offset = do
  let stripe = layout.stripe_size_bytes
  let data_disks = layout.member_count - 1
  fail_if (ltb data_disks 1) unsupported_layout
  full_data_stripe ←
      ok_or (checked_mul stripe data_disks) (arithmetic_overflow "raid4 full stripe bytes")
  let stripe_set = offset / full_data_stripe
  let in_set = offset % full_data_stripe
  let data_position = in_set / stripe
  let stripe_offset = in_set % stripe
  bytes ←
      member_offset layout "raid4 member stripe delta" "raid4 member offset" stripe_set
        stripe_offset
  parity ← or_panic (get_elem? layout.disk_order (layout.member_count - 1))
  member ← or_panic (get_elem? layout.disk_order data_position)
  ok (record {
    member_index = member;
    member_offset_bytes = bytes;
    parity_member_index = some parity;
  })

-- The `match` on the rotation, for a stripe set of an array of `n` members.
unfoldable pub parity_position : ParityRotation → ℕ → ℕ → ℕ
parity_position right_symmetric n stripe_set = stripe_set % n
parity_position left_symmetric n stripe_set = (n - 1 - stripe_set % n) % n
parity_position ParityRotation.unknown n stripe_set = (n - 1 - stripe_set % n) % n

unfoldable pub map_raid5 : RaidLayout → ℕ → Mapped
unfolding member_offset
map_raid5 layout offset = do
  fail_if (ltb layout.member_count 3) unsupported_layout
  let stripe = layout.stripe_size_bytes
  let data_disks = layout.member_count - 1
  full_data_stripe ←
      ok_or (checked_mul stripe data_disks) (arithmetic_overflow "raid5 full stripe bytes")
  let stripe_set = offset / full_data_stripe
  let in_set = offset % full_data_stripe
  let data_position = in_set / stripe
  let stripe_offset = in_set % stripe
  let parity_at = parity_position layout.parity_rotation layout.member_count stripe_set
  let data_member_position = (parity_at + 1 + data_position) % layout.member_count
  bytes ←
      member_offset layout "raid5 member stripe delta" "raid5 member offset" stripe_set
        stripe_offset
  member ← or_panic (get_elem? layout.disk_order data_member_position)
  parity ← or_panic (get_elem? layout.disk_order parity_at)
  ok (record {
    member_index = member;
    member_offset_bytes = bytes;
    parity_member_index = some parity;
  })

unfoldable pub map_raid10 : RaidLayout → ℕ → Mapped
unfolding member_offset
map_raid10 layout offset = do
  fail_if (ltb layout.member_count 4 || not (layout.member_count % 2 == 0)) unsupported_layout
  let stripe = layout.stripe_size_bytes
  let mirror_pair_count = layout.member_count / 2
  fail_if (mirror_pair_count == 0) unsupported_layout
  let stripe_number = offset / stripe
  let stripe_offset = offset % stripe
  let pair_position = stripe_number % mirror_pair_count
  let pair_stripe_index = stripe_number / mirror_pair_count
  primary_position ←
      ok_or (checked_mul32 pair_position 2) (arithmetic_overflow "raid10 primary position")
  mirror_position ←
      ok_or (checked_add32 primary_position 1) (arithmetic_overflow "raid10 mirror position")
  bytes ←
      member_offset layout "raid10 member stripe delta" "raid10 member offset" pair_stripe_index
        stripe_offset
  member ← or_panic (get_elem? layout.disk_order primary_position)
  mirror ← or_panic (get_elem? layout.disk_order mirror_position)
  ok (record {
    member_index = member;
    member_offset_bytes = bytes;
    parity_member_index = some mirror;
  })

-- The `match` on the level.
unfoldable pub map_level : RaidLevel → RaidLayout → ℕ → Mapped
map_level raid0 layout offset = map_raid0 layout offset
map_level raid1 layout offset = map_raid1 layout offset
map_level raid4 layout offset = map_raid4 layout offset
map_level raid5 layout offset = map_raid5 layout offset
map_level raid10 layout offset = map_raid10 layout offset
map_level raid6 layout offset = err unsupported_layout
map_level RaidLevel.unknown layout offset = err unsupported_layout

-- The three checks that `map_logical_offset` and `assess_degraded_layout` begin with.
unfoldable pub check_layout : RaidLayout → Outcome RaidError (Unit {0})
check_layout layout = do
  fail_if (ltb layout.member_count 2) (invalid_member_count layout.member_count)
  fail_if (not (is_valid_stripe_size layout.stripe_size_bytes))
      (invalid_stripe_size layout.stripe_size_bytes)
  validate_disk_order layout.disk_order layout.member_count

unfoldable pub map_logical_offset : RaidLayout → ℕ → Mapped
unfolding check_layout map_level
map_logical_offset layout offset = do check_layout layout; map_level layout.level layout offset
