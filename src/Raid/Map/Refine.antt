-- ===== src/Raid/Map/Refine.antt =====
-- `map_logical_offset` against the striping of `Raid.Map.Shape`: on a layout that passes the
-- checks it finds the place of the striping, or refuses for one of two reasons.
use file_recovery_engine.Prelude.{
  ℕ, ◌+◌, ◌-◌, ◌*◌, ◌/◌, ◌%◌, ◌≤◌, ◌<◌, ◌≡◌, refl, arith, sym, ◌∙◌, ap,
}
use mathlib.Core.Path.{subst}
use file_recovery_engine.Prelude.{true, false, Option, none, some, String, inl, inr}
use file_recovery_engine.Prelude.{ltb, leb, ◌==◌, get_elem?, get_elem?-some, Bool-cases}
use file_recovery_engine.Prelude.{lt→ltb, ltb→lt, leb→le}
use file_recovery_engine.Prelude.Outcome.{ok, err, ◌>>=◌}
use file_recovery_engine.Prelude.Checked.{u32_mod, u64_mod, checked_add, checked_mul}
use file_recovery_engine.Prelude.Checked.{checked_mul32, checked_add32}
use file_recovery_engine.Prelude.Scale.{div-mul_split, mod-mul_mod, mod-mul_div}
use file_recovery_engine.Raid.Types.{RaidLayout, RaidLevel, RaidLogicalMapping}
use file_recovery_engine.Raid.Types.{raid0, raid1, raid4, raid5, raid6, raid10}
use file_recovery_engine.Raid.Types.{arithmetic_overflow, unsupported_layout}
use file_recovery_engine.Raid.Order.Exact.{validate_disk_order_iff}
use file_recovery_engine.Raid.Map.{
  Mapped, member_offset, map_raid0, map_raid1, map_raid4, map_raid5,
}
use file_recovery_engine.Raid.Map.{map_raid10, map_level, check_layout, map_logical_offset}
use file_recovery_engine.Raid.Map.Shape.{
  supported, columns, data_position, companion_position, parity_place,
}
use file_recovery_engine.Raid.Map.Shape.{
  physical, data_place, companion_place, LocatedAs, Located, IsValid,
}
use file_recovery_engine.Raid.Map.Shape.{stripe_size_bounds, full_stripe_fits, row_of, column_of}
use file_recovery_engine.Raid.Map.Places.{parity_place-lt, parity_position-parity_place}
use native.Mathlib.Nat.{mod-lt, div-add-mod, div-one, mod-one}
use mathlib.Core.Option

pub check_layout-IsValid : (l : RaidLayout) → IsValid l → check_layout l ≡ ok tt
unfolding check_layout
check_layout-IsValid l v =
    ground (arith, (validate_disk_order_iff l.disk_order l.member_count).1 v.ordered)

member_at :
    (l : RaidLayout) (position : ℕ)
    → IsValid l
    → position < l.member_count
    → (v : ℕ) × (get_elem? l.disk_order position ≡ some v)
member_at l position v h = get_elem?-some l.disk_order position (omega (arith, v.ordered.counted))

module _ (l : RaidLayout) (delta_text offset_text : String) (stripes within : ℕ) where
  abbrev reached : ℕ
  reached = l.data_offset_bytes + stripes * l.stripe_size_bytes + within

  member_offset_fits :
      reached < u64_mod → member_offset l delta_text offset_text stripes within ≡ ok reached
  unfolding member_offset checked_add checked_mul
  member_offset_fits h = ground arith

  member_offset_overflow :
      u64_mod ≤ reached
      → (t : String) × (member_offset l delta_text offset_text stripes within
          ≡ err (arithmetic_overflow t))
  unfolding member_offset checked_add checked_mul
  member_offset_overflow h = elim (Bool-cases (ltb (stripes * l.stripe_size_bytes) u64_mod)) [
    | inr wide ↦ (delta_text, ground arith)
    | inl narrow ↦ (offset_text, ground arith)
  ]

-- What a level does on a layout that passes the checks.
pub record Refines (level : RaidLevel) (l : RaidLayout) (offset : ℕ) (r : Mapped) : Type 0 where
  pub fits :
      physical level l offset < u64_mod
      → (m : RaidLogicalMapping) × (r ≡ ok m) × LocatedAs level l offset m
  pub overflows :
      u64_mod ≤ physical level l offset → (t : String) × (r ≡ err (arithmetic_overflow t))

module _ (level : RaidLevel) (l : RaidLayout) (offset : ℕ) where
  -- A level that computes the offset on the member and then looks its members up.
  settle :
      (delta_text offset_text : String) (member : ℕ) (companion : Option ℕ) (r : Mapped)
      → get_elem? l.disk_order (data_place level l offset) ≡ some member
      → companion ≡ Option.bind (companion_place level l offset) (get_elem? l.disk_order)
      → r ≡ (
          member_offset l delta_text offset_text
            (row_of level l offset)
            (offset % l.stripe_size_bytes)
          >>= λ bytes. ok (record {
            member_index = member;
            member_offset_bytes = bytes;
            parity_member_index = companion;
          }))
      → Refines level l offset r
  settle delta_text offset_text member companion r hm hc e = record {
    fits = λ h. (
      record {
        member_index = member;
        member_offset_bytes = physical level l offset;
        parity_member_index = companion;
      },
      e ∙ rw (member_offset_fits l delta_text offset_text _ _ h),
      record { member = hm; bytes = refl; companion = hc },
    );
    overflows = λ h.
        let (text, failed) = member_offset_overflow l delta_text offset_text _ _ h in
        (text, e ∙ rw failed);
  }

module _ (l : RaidLayout) (offset : ℕ) (v : IsValid l) where
  stripe-pos : 0 < l.stripe_size_bytes
  stripe-pos = omega (arith, stripe_size_bounds l.stripe_size_bytes v.striped)

  raid0-Refines : Refines raid0 l offset (map_raid0 l offset)
  unfolding map_raid0 columns data_position companion_position Option.bind
  raid0-Refines =
      let found = member_at l (column_of raid0 l offset) v (mod-lt _ (omega (arith, v.members))) in
      settle raid0 l offset "raid0 member stripe delta" "raid0 member offset" found.0 none _ found.1
        refl (rw found.1)

  raid1-Refines : Refines raid1 l offset (map_raid1 l offset)
  unfolding map_raid1 columns data_position companion_position Option.bind checked_add
  raid1-Refines =
      let found = member_at l 0 v (omega (arith, v.members)) in
      let same : physical raid1 l offset ≡ l.data_offset_bytes + offset = omega (
        arith,
        div-add-mod offset l.stripe_size_bytes,
        ap (λ (t : ℕ). t * l.stripe_size_bytes) (div-one (offset / l.stripe_size_bytes)),
      ) in
      record {
        fits = λ h. (
          record {
            member_index = found.0;
            member_offset_bytes = l.data_offset_bytes + offset;
            parity_member_index = none;
          },
          ground (arith, found.1, same),
          record {
            member = rw (mod-one (offset / l.stripe_size_bytes)) found.1;
            bytes = sym same;
            companion = refl;
          },
        );
        overflows = λ h. ("raid1 member offset", ground (arith, same));
      }

  data_disks_fit :
      checked_mul l.stripe_size_bytes (l.member_count - 1)
      ≡ some (l.stripe_size_bytes * (l.member_count - 1))
  unfolding checked_mul
  data_disks_fit =
      let (lo, hi) = stripe_size_bounds l.stripe_size_bytes v.striped in
      rw (lt→ltb _ _ (full_stripe_fits l.stripe_size_bytes l.member_count hi v.count_fits))

  raid4-Refines : Refines raid4 l offset (map_raid4 l offset)
  unfolding map_raid4 columns data_position companion_position Option.bind
  raid4-Refines =
      let n = l.member_count in
      let s = l.stripe_size_bytes in
      let column = mod-lt (offset / s) {m = n - 1} (omega (arith, v.members)) in
      let found = member_at l (column_of raid4 l offset) v (omega (arith, v.members)) in
      let parity = member_at l (n - 1) v (omega (arith, v.members)) in
      let some_data : ltb (n - 1) 1 ≡ false = ground (arith, v.members) in
      settle raid4 l offset "raid4 member stripe delta" "raid4 member offset" found.0
        (some parity.0) _ found.1 (sym parity.1)
        (rw (
          some_data,
          data_disks_fit,
          div-mul_split offset s (n - 1) stripe-pos,
          mod-mul_mod offset s (n - 1) stripe-pos,
          mod-mul_div offset s (n - 1) stripe-pos,
          parity.1,
          found.1,
        ))

  raid5-Refines : leb 3 l.member_count ≡ true → Refines raid5 l offset (map_raid5 l offset)
  unfolding map_raid5 columns data_position companion_position Option.bind
  raid5-Refines three =
      let n = l.member_count in
      let s = l.stripe_size_bytes in
      let found = member_at l (data_place raid5 l offset) v (mod-lt _ (omega (arith, v.members))) in
      let parity =
        member_at l (parity_place l.parity_rotation n (row_of raid5 l offset)) v
          (parity_place-lt l.parity_rotation n _ (omega (arith, v.members))) in
      let enough : ltb n 3 ≡ false = ground arith in
      settle raid5 l offset "raid5 member stripe delta" "raid5 member offset" found.0
        (some parity.0) _ found.1 (sym parity.1)
        (rw (
          enough,
          data_disks_fit,
          div-mul_split offset s (n - 1) stripe-pos,
          mod-mul_mod offset s (n - 1) stripe-pos,
          mod-mul_div offset s (n - 1) stripe-pos,
          parity_position-parity_place l.parity_rotation n (row_of raid5 l offset)
              (omega (arith, v.members)),
          found.1,
          parity.1,
        ))

  raid10-Refines :
      leb 4 l.member_count ≡ true
      → (l.member_count % 2 == 0) ≡ true
      → Refines raid10 l offset (map_raid10 l offset)
  unfolding map_raid10 columns data_position companion_position Option.bind
  raid10-Refines four even =
      let n = l.member_count in
      let s = l.stripe_size_bytes in
      let col = column_of raid10 l offset in
      let col_lt : col < n / 2 = mod-lt (offset / s) (omega (arith, leb→le 4 n four)) in
      let found = member_at l (col * 2) v (omega arith) in
      let mirror = member_at l (col * 2 + 1) v (omega arith) in
      let enough : ltb n 4 ≡ false = ground arith in
      let pairs : (n / 2 == 0) ≡ false = ground arith in
      let double : checked_mul32 col 2 ≡ some (col * 2) =
        unfold checked_mul32 in rw (lt→ltb (col * 2) u32_mod (omega (arith, v.count_fits))) in
      let next : checked_add32 (col * 2) 1 ≡ some (col * 2 + 1) =
        unfold checked_add32 in rw (lt→ltb (col * 2 + 1) u32_mod (omega (arith, v.count_fits))) in
      settle raid10 l offset "raid10 member stripe delta" "raid10 member offset" found.0
        (some mirror.0) _ found.1 (sym mirror.1)
        (rw (enough, even, pairs, double, next, found.1, mirror.1))

  map_level-Refines :
      (level : RaidLevel)
      → supported level l.member_count ≡ true
      → Refines level l offset (map_level level l offset)
  unfolding map_level supported
  map_level-Refines raid0 h = raid0-Refines
  map_level-Refines raid1 h = raid1-Refines
  map_level-Refines raid4 h = raid4-Refines
  map_level-Refines raid5 h = raid5-Refines h
  map_level-Refines raid10 h = raid10-Refines (ground arith) (ground arith)
  map_level-Refines raid6 h = absurd (cc)
  map_level-Refines RaidLevel.unknown h = absurd (cc)

  map_level_unsupported :
      (level : RaidLevel)
      → supported level l.member_count ≡ false
      → map_level level l offset ≡ err unsupported_layout
  unfolding map_level supported map_raid5 map_raid10
  map_level_unsupported raid0 h = absurd (cc)
  map_level_unsupported raid1 h = absurd (cc)
  map_level_unsupported raid4 h = absurd (cc)
  map_level_unsupported raid5 h = ground arith
  map_level_unsupported raid10 h = ground arith
  map_level_unsupported raid6 h = refl
  map_level_unsupported RaidLevel.unknown h = refl

-- On a well formed layout of a level that can be assembled `map_logical_offset` returns the place
-- that the striping gives if its byte fits a `u64`, and an arithmetic error if it does not.
pub map_logical_offset-Refines :
    (l : RaidLayout) (offset : ℕ)
    → IsValid l
    → supported l.level l.member_count ≡ true
    → Refines l.level l offset (map_logical_offset l offset)
unfolding map_logical_offset
map_logical_offset-Refines l offset v s =
    rw (check_layout-IsValid l v) (map_level-Refines l offset v l.level s)

-- On a well formed layout of RAID 6, of an unknown level, of RAID 5 with two members, or of RAID 10
-- with an odd count or fewer than four members, it refuses the layout as unsupported.
pub map_logical_offset_unsupported :
    (l : RaidLayout) (offset : ℕ)
    → IsValid l
    → supported l.level l.member_count ≡ false
    → map_logical_offset l offset ≡ err unsupported_layout
unfolding map_logical_offset
map_logical_offset_unsupported l offset v s =
    rw (check_layout-IsValid l v) (map_level_unsupported l offset v l.level s)

-- A mapping that is returned points where the striping says, whatever the layout.
pub map_logical_offset-Located :
    (l : RaidLayout) (offset : ℕ) {m : RaidLogicalMapping}
    → IsValid l
    → map_logical_offset l offset ≡ ok m
    → Located l offset m
map_logical_offset-Located l offset {m} v e = elim (Bool-cases (supported l.level l.member_count)) [
  | inr no_way ↦ absurd (cc (map_logical_offset_unsupported l offset v no_way))
  | inl fine ↦
      let refined = map_logical_offset-Refines l offset v fine in
      elim (Bool-cases (ltb (physical l.level l offset) u64_mod)) [
        | inl small ↦
            let (m', returned, located) = refined.fits (ltb→lt _ _ small) in
            let same : m' ≡ m = cc in subst (LocatedAs l.level l offset) same located
        | inr big ↦ let (text, failed) = refined.overflows (ground arith) in absurd (cc)
      ]
]
