-- ===== src/Raid/Override.antt =====
-- `apply_manual_override` and `resolve_layout_with_override`.
pub mod Valid
use file_recovery_engine.Prelude.{ℕ, ◌-◌, Bool, true, false, not, ◌&&◌, Option, none, some, List}
use file_recovery_engine.Prelude.{ltb, if◌then◌else◌}
use file_recovery_engine.Prelude.Outcome.{Outcome, ok, err, fail_if, ◌>>=◌, ◌>>◌}
use file_recovery_engine.Prelude.Bytes.{Bytes}
use file_recovery_engine.Raid.Types.{RaidLayout, RaidError, RaidManualOverride, RaidLevel}
use file_recovery_engine.Raid.Types.{ParityRotation, invalid_stripe_size, known_level}
use file_recovery_engine.Raid.Fields.{is_valid_stripe_size}
use file_recovery_engine.Raid.Order.{validate_disk_order}
use file_recovery_engine.Raid.Detect.{Detection, detect_layout}

-- The five `if let Some(..)` blocks of `apply_manual_override`, in their order.
override_level : Option RaidLevel → RaidLayout → RaidLayout
override_level none layout = layout
override_level (some level) layout = record layout {
  level = level;
  confidence_score =
      if not (known_level level) && ltb 5 layout.confidence_score
      then layout.confidence_score - 5
      else layout.confidence_score;
}

override_stripe : Option ℕ → RaidLayout → Outcome RaidError RaidLayout
override_stripe none layout = ok layout
override_stripe (some stripe_size) layout =
    if not (is_valid_stripe_size stripe_size)
    then err (invalid_stripe_size stripe_size)
    else ok (record layout { stripe_size_bytes = stripe_size })

override_data_offset : Option ℕ → RaidLayout → RaidLayout
override_data_offset none layout = layout
override_data_offset (some data_offset) layout = record layout { data_offset_bytes = data_offset }

override_rotation : Option ParityRotation → RaidLayout → RaidLayout
override_rotation none layout = layout
override_rotation (some rotation) layout = record layout { parity_rotation = rotation }

override_order : Option (List ℕ) → RaidLayout → Outcome RaidError RaidLayout
override_order none layout = ok layout
override_order (some order) layout = do
  validate_disk_order order layout.member_count
  ok (record layout { disk_order = order })

unfoldable pub apply_manual_override :
    RaidLayout → RaidManualOverride → Outcome RaidError RaidLayout
unfolding override_level override_stripe override_data_offset override_rotation override_order
apply_manual_override base cfg = do
  striped ← override_stripe cfg.stripe_size_bytes (override_level cfg.level base)
  override_order cfg.disk_order
      (override_rotation cfg.parity_rotation (override_data_offset cfg.data_offset_bytes striped))

-- `apply_manual_override(&base, value).map(Some)`, or the base where no override is given.
override_detected : Option RaidManualOverride → RaidLayout → Detection
override_detected none base = ok (some base)
override_detected (some cfg) base = do layout ← apply_manual_override base cfg; ok (some layout)

unfoldable pub resolve_layout_with_override : Bytes → Option RaidManualOverride → Detection
unfolding override_detected
resolve_layout_with_override image cfg = do
  detected ← detect_layout image
  elim detected [ none ↦ ok none | some base ↦ override_detected cfg base ]
