-- ===== src/Raid/Map/Injective.antt =====
-- Distinct logical offsets lie on distinct physical bytes, and parity lies off the data.
use file_recovery_engine.Prelude.{ℕ, ◌/◌, ◌%◌, ◌≤◌, ◌<◌, ◌≡◌, ◌≢◌, arith, inl, inr, sym, ◌∙◌, ap}
use file_recovery_engine.Prelude.{true, Option, none, some, Bool-cases, get_elem?}
use file_recovery_engine.Prelude.Outcome.{ok}
use file_recovery_engine.Prelude.Scale.{div_mod_unique, eq_of_div_mod}
use file_recovery_engine.Raid.Types.{RaidLayout, RaidLogicalMapping}
use file_recovery_engine.Raid.Map.{map_logical_offset}
use file_recovery_engine.Raid.Map.Shape.{supported, columns, data_position}
use file_recovery_engine.Raid.Map.Shape.{
  row_of, column_of, data_place, companion_place, IsValid, stripe_size_bounds, columns-pos,
}
use file_recovery_engine.Raid.Map.Refine.{
  map_logical_offset-Refines, map_logical_offset-Located, map_logical_offset_unsupported,
}
use file_recovery_engine.Raid.Map.Places.{data_position_inj, companion-ne-data}
use native.Mathlib.Nat.{mod-lt}
use native.Mathlib.Decide.{dec_lt}
use file_recovery_engine.Prelude.Checked.{u64_mod}
use mathlib.Core.Option

pub mapped_supported :
    (l : RaidLayout) (offset : ℕ) {m : RaidLogicalMapping}
    → IsValid l
    → map_logical_offset l offset ≡ ok m
    → supported l.level l.member_count ≡ true
mapped_supported l offset v e = elim (Bool-cases (supported l.level l.member_count)) [
  | inl fine ↦ fine
  | inr no_way ↦ absurd (cc (map_logical_offset_unsupported l offset v no_way))
]

-- On a well formed layout two logical offsets that `map_logical_offset` sends to the same byte of
-- the same member are one offset.
pub map_logical_offset_inj :
    (l : RaidLayout) (a b : ℕ) (m m' : RaidLogicalMapping)
    → IsValid l
    → map_logical_offset l a ≡ ok m
    → map_logical_offset l b ≡ ok m'
    → m.member_index ≡ m'.member_index
    → m.member_offset_bytes ≡ m'.member_offset_bytes
    → a ≡ b
map_logical_offset_inj l a b m m' v ea eb same_member same_byte =
    let s = l.stripe_size_bytes in
    let n = l.member_count in
    let d = columns l.level n in
    let at_a = map_logical_offset-Located l a v ea in
    let at_b = map_logical_offset-Located l b v eb in
    let stripe-pos : 0 < s = omega (arith, stripe_size_bounds s v.striped) in
    let cols-pos : 0 < d = columns-pos l.level n v.members in
    let (same_row, same_within) =
      div_mod_unique s (row_of l.level l a) (a % s) (row_of l.level l b) (b % s)
        (mod-lt a stripe-pos) (mod-lt b stripe-pos) (omega (arith, at_a.bytes, at_b.bytes)) in
    let same_place : data_place l.level l a ≡ data_place l.level l b =
      v.ordered.distinct _ _ at_a.member (at_b.member ∙ ap some (sym same_member)) in
    let same_column : column_of l.level l a ≡ column_of l.level l b =
      data_position_inj l.parity_rotation n (row_of l.level l a) l.level _ _
        (mapped_supported l a v ea) (mod-lt _ cols-pos) (mod-lt _ cols-pos)
        (same_place
          ∙ ap (λ r. data_position l.level l.parity_rotation n r (column_of l.level l b))
              (sym same_row)) in
    eq_of_div_mod a b s (eq_of_div_mod (a / s) (b / s) d same_row same_column) same_within

-- Where a mapping names a parity or mirror member, it is not the member that holds the data.
pub parity_member-ne-member :
    (l : RaidLayout) (offset : ℕ) (m : RaidLogicalMapping) {p : ℕ}
    → IsValid l
    → map_logical_offset l offset ≡ ok m
    → m.parity_member_index ≡ some p
    → p ≢ m.member_index
parity_member-ne-member l offset m {p} v e has same =
    let located = map_logical_offset-Located l offset v e in
    let (place, beside, holds) =
      (Option.bind-eq-some_iff (companion_place l.level l offset) (get_elem? l.disk_order)).0
        (sym located.companion ∙ has) in
    companion-ne-data l.parity_rotation l.member_count (row_of l.level l offset) l.level
      (column_of l.level l offset) (mod-lt _ (columns-pos l.level l.member_count v.members)) beside
      (v.ordered.distinct _ _ holds (located.member ∙ ap some (sym same)))

-- A member that is there has an index below the count.
abbrev pub IsBelow : ℕ → Option ℕ → Type 0
IsBelow count none = Unit {0}
IsBelow count (some v) = v < count

companion-IsBelow :
    (l : RaidLayout) (place companion : Option ℕ)
    → IsValid l
    → companion ≡ Option.bind place (get_elem? l.disk_order)
    → IsBelow l.member_count companion
unfolding Option.bind
companion-IsBelow l place none v e = tt
companion-IsBelow l none (some c) v e = absurd (cc)
companion-IsBelow l (some p) (some c) v e = v.ordered.below p (sym e)

-- The member of a mapping, and its parity or mirror where it names one, are members of the array,
-- and its byte is at or behind the start of the data and fits a `u64`.
pub map_logical_offset_bounds :
    (l : RaidLayout) (offset : ℕ) (m : RaidLogicalMapping)
    → IsValid l
    → map_logical_offset l offset ≡ ok m
    → (m.member_index < l.member_count)
      × IsBelow l.member_count m.parity_member_index
      × (l.data_offset_bytes ≤ m.member_offset_bytes)
      × (m.member_offset_bytes < u64_mod)
map_logical_offset_bounds l offset m v e =
    let located = map_logical_offset-Located l offset v e in
    let refined = map_logical_offset-Refines l offset v (mapped_supported l offset v e) in
    (
      v.ordered.below _ located.member,
      companion-IsBelow l (companion_place l.level l offset) m.parity_member_index v
          located.companion,
      omega (arith, located.bytes),
      elim (dec_lt m.member_offset_bytes u64_mod) [
        | yes fits ↦ fits
        | no wide ↦
            let (text, failed) = refined.overflows (omega (arith, located.bytes)) in absurd (cc)
      ],
    )
