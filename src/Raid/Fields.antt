-- ===== src/Raid/Fields.antt =====
-- The field readers and decoders of `fr-raid`. An `i32` is its bit pattern: the levels that
-- `map_md_level` knows are not negative, so the comparison is that of the patterns.
use file_recovery_engine.Prelude.{ℕ, ◌+◌, ◌*◌, ◌≤◌, ◌≡◌, min, arith}
use file_recovery_engine.Prelude.{Bool, true, ◌&&◌, ◌||◌, Option, none}
use file_recovery_engine.Prelude.{ltb, leb, ◌==◌, if◌then◌else◌, length}
use file_recovery_engine.Prelude.Outcome.{Outcome, ok, ok_or, ◌>>=◌}
use file_recovery_engine.Prelude.Checked.{is_power_of_two}
use file_recovery_engine.Prelude.Bytes.{Bytes, get_range, from_le, window_position}
use file_recovery_engine.Raid.Types.{RaidLevel, raid0, raid1, raid4, raid5, raid6, raid10}
use file_recovery_engine.Raid.Types.{ParityRotation, left_symmetric, right_symmetric}
use file_recovery_engine.Raid.Types.{RaidError, buffer_too_small}

unfoldable pub read_u32_le : Bytes → ℕ → Outcome RaidError ℕ
read_u32_le bytes offset = do
  slice ← ok_or (get_range bytes offset (offset + 4)) (buffer_too_small (offset + 4) (length bytes))
  ok (from_le slice)

unfoldable pub read_i32_le : Bytes → ℕ → Outcome RaidError ℕ
read_i32_le bytes offset = do
  slice ← ok_or (get_range bytes offset (offset + 4)) (buffer_too_small (offset + 4) (length bytes))
  ok (from_le slice)

unfoldable pub read_u64_le : Bytes → ℕ → Outcome RaidError ℕ
read_u64_le bytes offset = do
  slice ← ok_or (get_range bytes offset (offset + 8)) (buffer_too_small (offset + 8) (length bytes))
  ok (from_le slice)

unfoldable pub find_signature_offset : Bytes → Bytes → Option ℕ
unfolding window_position
find_signature_offset bytes signature =
    if length signature == 0 || ltb (length bytes) (length signature)
    then none
    else window_position bytes signature

unfoldable pub is_valid_stripe_size : ℕ → Bool
unfolding is_power_of_two
is_valid_stripe_size value =
    leb (4 * 1024) value && leb value (4 * 1024 * 1024) && is_power_of_two 32 value

unfoldable pub normalize_stripe_size : ℕ → ℕ
unfolding is_valid_stripe_size
normalize_stripe_size raw = if is_valid_stripe_size raw then raw else 64 * 1024

unfoldable pub map_md_level : ℕ → RaidLevel
map_md_level value =
    if value == 0
    then raid0
    else if value == 1
    then raid1
    else if value == 4
    then raid4
    else if value == 5
    then raid5
    else if value == 6
    then raid6
    else if value == 10
    then raid10
    else RaidLevel.unknown

unfoldable pub map_spaces_level : ℕ → RaidLevel
map_spaces_level value =
    if value == 0
    then raid0
    else if value == 1
    then raid1
    else if value == 4
    then raid4
    else if value == 5
    then raid5
    else if value == 6
    then raid6
    else if value == 10
    then raid10
    else RaidLevel.unknown

unfoldable pub map_imsm_level : ℕ → RaidLevel
map_imsm_level value =
    if value == 0
    then raid0
    else if value == 1
    then raid1
    else if value == 2
    then raid5
    else if value == 3
    then raid10
    else RaidLevel.unknown

unfoldable pub map_ddf_level : ℕ → RaidLevel
map_ddf_level value =
    if value == 0
    then raid0
    else if value == 1
    then raid1
    else if value == 4
    then raid4
    else if value == 5
    then raid5
    else if value == 6
    then raid6
    else if value == 10
    then raid10
    else RaidLevel.unknown

unfoldable pub map_md_parity_rotation : ℕ → ParityRotation
map_md_parity_rotation layout =
    if layout == 0
    then left_symmetric
    else if layout == 1
    then right_symmetric
    else ParityRotation.unknown

-- `score.saturating_add(step)` on a `u8`, if the test holds.
abbrev add_if : Bool → ℕ → ℕ → ℕ
add_if test step score = if test then min (score + step) 255 else score

unfoldable pub score_metadata_confidence : ℕ → Bool → Bool → Bool → ℕ
score_metadata_confidence member_count has_chunk known_level known_parity =
    min
      (add_if known_parity 10
        (add_if has_chunk 15 (add_if known_level 15 (add_if (leb 2 member_count) 20 40))))
      99

pub normalize_stripe_size_valid :
    (raw : ℕ) → is_valid_stripe_size (normalize_stripe_size raw) ≡ true
unfolding normalize_stripe_size
normalize_stripe_size_valid raw = ground arith

-- At two members or more the score is 60 and at most 99.
pub score_metadata_confidence_bounds :
    (n : ℕ) (c l p : Bool)
    → 2 ≤ n
    → (60 ≤ score_metadata_confidence n c l p) × (score_metadata_confidence n c l p ≤ 99)
unfolding score_metadata_confidence
score_metadata_confidence_bounds n c l p h = ground arith
