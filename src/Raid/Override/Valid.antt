-- ===== src/Raid/Override/Valid.antt =====
-- `apply_manual_override`: what it keeps, what it replaces and what it refuses.
use file_recovery_engine.Prelude.{
  ◌≤◌, ◌≡◌, ◌⊎◌, arith, Option, none, some, sym, inl, inr, true, All,
}
use file_recovery_engine.Prelude.Outcome.{ok, bind-eq-ok, ok-injective}
use file_recovery_engine.Prelude.Bytes.{Bytes, IsByte}
use file_recovery_engine.Raid.Types.{RaidLayout, RaidManualOverride}
use file_recovery_engine.Raid.Fields.{is_valid_stripe_size}
use file_recovery_engine.Raid.Order.{validate_disk_order}
use file_recovery_engine.Raid.Order.Exact.{validate_disk_order_iff}
use file_recovery_engine.Raid.Detect.{detect_layout}
use file_recovery_engine.Raid.Detect.Valid.{detect_layout-IsValid}
use file_recovery_engine.Raid.Override.{
  apply_manual_override, resolve_layout_with_override, override_detected,
}
use file_recovery_engine.Raid.Map.Shape.{IsValid}
use mathlib.Core.Option.{some-injective}

-- The value that an override gives, or the one that stood there before.
abbrev overridden {ℓ} : {A : Type ℓ} → Option A → A → A
overridden none old = old
overridden (some new) old = new

-- Every field of a layout that `apply_manual_override` returns, and the order it was checked for.
pub record Overrides (base : RaidLayout) (cfg : RaidManualOverride) (l : RaidLayout) : Type 0 where
  pub level : l.level ≡ overridden cfg.level base.level
  pub count : l.member_count ≡ base.member_count
  pub stripe : l.stripe_size_bytes ≡ overridden cfg.stripe_size_bytes base.stripe_size_bytes
  pub start : l.data_offset_bytes ≡ overridden cfg.data_offset_bytes base.data_offset_bytes
  pub rotation : l.parity_rotation ≡ overridden cfg.parity_rotation base.parity_rotation
  pub order : l.disk_order ≡ overridden cfg.disk_order base.disk_order
  pub family : l.metadata_family ≡ base.metadata_family
  pub trust : l.confidence_score ≤ base.confidence_score
  pub striped :
      is_valid_stripe_size base.stripe_size_bytes ≡ true
      → is_valid_stripe_size l.stripe_size_bytes ≡ true
  pub checked :
      validate_disk_order base.disk_order base.member_count ≡ ok tt
      → validate_disk_order l.disk_order base.member_count ≡ ok tt

apply_manual_override-Overrides :
    (base : RaidLayout) (cfg : RaidManualOverride) (l : RaidLayout)
    → apply_manual_override base cfg ≡ ok l
    → Overrides base cfg l
unfolding apply_manual_override
apply_manual_override-Overrides base cfg l e = ground arith

-- An override keeps a well formed layout well formed, gives it every value that the override names
-- and keeps every value that it does not name; the family and the member count stay, and the
-- confidence does not grow.
pub apply_manual_override-IsValid :
    (base : RaidLayout) (cfg : RaidManualOverride) (l : RaidLayout)
    → IsValid base
    → apply_manual_override base cfg ≡ ok l
    → IsValid l × Overrides base cfg l
apply_manual_override-IsValid base cfg l v e =
    let o = apply_manual_override-Overrides base cfg l e in
    let order = validate_disk_order_iff in
    (
      record {
        members = omega (arith, v.members, o.count);
        striped = o.striped v.striped;
        ordered = rw o.count (
            (order l.disk_order base.member_count).0
              (o.checked ((order base.disk_order base.member_count).1 v.ordered)));
        count_fits = omega (arith, v.count_fits, o.count);
      },
      o,
    )

override_detected-inv :
    (cfg : Option RaidManualOverride) (base l : RaidLayout)
    → override_detected cfg base ≡ ok (some l)
    → (l ≡ base) ⊎ ((c : RaidManualOverride) × (apply_manual_override base c ≡ ok l))
unfolding override_detected
override_detected-inv none base l e = inl (sym (some-injective _ _ (ok-injective e)))
override_detected-inv (some c) base l e =
    let (l', applied, same) = bind-eq-ok (apply_manual_override base c) _ e in
    inr (c, rw (some-injective _ _ (ok-injective same)) at applied)

-- A layout that is resolved from the bytes of an image, with or without an override, is well
-- formed, and so can be handed to `map_logical_offset`.
pub resolve_layout_with_override-IsValid :
    (image : Bytes) (cfg : Option RaidManualOverride) (l : RaidLayout)
    → All IsByte image
    → resolve_layout_with_override image cfg ≡ ok (some l)
    → IsValid l
unfolding resolve_layout_with_override
resolve_layout_with_override-IsValid image cfg l h e =
    let (found, detected, rest) = bind-eq-ok (detect_layout image) _ e in go found detected rest
  where
    from_base :
        (base : RaidLayout) → IsValid base → override_detected cfg base ≡ ok (some l) → IsValid l
    from_base base v r = elim (override_detected-inv cfg base l r) [
      | inl same ↦ rw same v
      | inr (c, applied) ↦ (apply_manual_override-IsValid base c l v applied).0
    ]

    go :
        (found : Option RaidLayout)
        → detect_layout image ≡ ok found
        → (elim found [ none ↦ ok none | some base ↦ override_detected cfg base ]) ≡ ok (some l)
        → IsValid l
    go none d r = absurd (cc)
    go (some base) d r = from_base base (detect_layout-IsValid image base h d).0 r
