-- ===== src/Raid/Map/Shape.antt =====
-- The striping that a layout stands for, as plain arithmetic: rows of stripes over the columns
-- that hold data. It is written without the checks and the machine words of the code.
use file_recovery_engine.Prelude.{ℕ, zero, suc, ◌+◌, ◌-◌, ◌*◌, ◌/◌, ◌%◌, ◌≤◌, ◌<◌, ◌≡◌, arith}
use file_recovery_engine.Prelude.{Bool, true, false, ◌&&◌, Option, none, some}
use file_recovery_engine.Prelude.{leb, ◌==◌, if◌then◌else◌, get_elem?}
use file_recovery_engine.Prelude.Checked.{u32_mod, u64_mod}
use file_recovery_engine.Raid.Types.{RaidLayout, RaidLevel, RaidLogicalMapping, ParityRotation}
use file_recovery_engine.Raid.Types.{raid0, raid1, raid4, raid5, raid6, raid10}
use file_recovery_engine.Raid.Types.{left_symmetric, right_symmetric}
use file_recovery_engine.Raid.Fields.{is_valid_stripe_size}
use file_recovery_engine.Raid.Order.Exact.{IsMemberOrder}
use mathlib.Core.Option
use native.Mathlib.Nat.{mul-le-mul_left}

-- The levels that can be assembled, with the member counts that they need.
unfoldable pub supported : RaidLevel → ℕ → Bool
supported raid0 n = true
supported raid1 n = true
supported raid4 n = true
supported raid5 n = leb 3 n
supported raid10 n = leb 4 n && n % 2 == 0
supported raid6 n = false
supported RaidLevel.unknown n = false

-- How many stripes of a row hold data that differ from one another.
unfoldable pub columns : RaidLevel → ℕ → ℕ
columns raid0 n = n
columns raid1 n = 1
columns raid4 n = n - 1
columns raid5 n = n - 1
columns raid10 n = n / 2
columns raid6 n = 1
columns RaidLevel.unknown n = 1

-- One place on, and one place back, in a ring of `n` places.
unfoldable pub next_place : ℕ → ℕ → ℕ
next_place n p = if p + 1 == n then 0 else p + 1

unfoldable pub previous_place : ℕ → ℕ → ℕ
previous_place n zero = n - 1
previous_place n (suc p) = p

-- The place of the parity of RAID 5 in a row. Right symmetric: it starts at the first member and
-- goes on by a place with each row. Otherwise it starts at the last and goes back.
unfoldable pub parity_place : ParityRotation → ℕ → ℕ → ℕ
unfolding next_place previous_place
parity_place right_symmetric n zero = 0
parity_place right_symmetric n (suc row) = next_place n (parity_place right_symmetric n row)
parity_place left_symmetric n zero = n - 1
parity_place left_symmetric n (suc row) = previous_place n (parity_place left_symmetric n row)
parity_place ParityRotation.unknown n zero = n - 1
parity_place ParityRotation.unknown n (suc row) =
    previous_place n (parity_place ParityRotation.unknown n row)

-- The place in the disk order of a data stripe, and that of the parity or the mirror beside it.
unfoldable pub data_position : RaidLevel → ParityRotation → ℕ → ℕ → ℕ → ℕ
data_position raid5 rotation n row col = (parity_place rotation n row + 1 + col) % n
data_position raid10 rotation n row col = col * 2
data_position level rotation n row col = col

unfoldable pub companion_position : RaidLevel → ParityRotation → ℕ → ℕ → ℕ → Option ℕ
companion_position raid4 rotation n row col = some (n - 1)
companion_position raid5 rotation n row col = some (parity_place rotation n row)
companion_position raid10 rotation n row col = some (col * 2 + 1)
companion_position level rotation n row col = none

module _ (level : RaidLevel) (l : RaidLayout) (offset : ℕ) where
  abbrev pub row_of : ℕ
  row_of = offset / l.stripe_size_bytes / columns level l.member_count

  abbrev pub column_of : ℕ
  column_of = offset / l.stripe_size_bytes % columns level l.member_count

  abbrev pub data_place : ℕ
  data_place = data_position level l.parity_rotation l.member_count row_of column_of

  abbrev pub companion_place : Option ℕ
  companion_place = companion_position level l.parity_rotation l.member_count row_of column_of

  abbrev pub physical : ℕ
  physical = l.data_offset_bytes + row_of * l.stripe_size_bytes + offset % l.stripe_size_bytes

-- A mapping that points where the striping says: the member at its place of the disk order, the
-- byte of its row, and the companion.
pub record LocatedAs (level : RaidLevel) (l : RaidLayout) (offset : ℕ) (m : RaidLogicalMapping)
    : Type 0 where
  pub member : get_elem? l.disk_order (data_place level l offset) ≡ some m.member_index
  pub bytes : m.member_offset_bytes ≡ physical level l offset
  pub companion :
      m.parity_member_index ≡ Option.bind (companion_place level l offset) (get_elem? l.disk_order)

abbrev pub Located : RaidLayout → ℕ → RaidLogicalMapping → Type 0
Located l offset m = LocatedAs l.level l offset m

-- What `check_layout` demands, with the ranges of the machine integers.
pub record IsValid (l : RaidLayout) : Type 0 where
  pub members : 2 ≤ l.member_count
  pub striped : is_valid_stripe_size l.stripe_size_bytes ≡ true
  pub ordered : IsMemberOrder l.member_count l.disk_order
  pub count_fits : l.member_count < u32_mod

pub stripe_size_bounds : (s : ℕ) → is_valid_stripe_size s ≡ true → (4096 ≤ s) × (s ≤ 4194304)
unfolding is_valid_stripe_size
stripe_size_bounds s h = ground arith

pub columns-pos : (level : RaidLevel) (n : ℕ) → 2 ≤ n → 0 < columns level n
unfolding columns
columns-pos raid0 n h = omega arith
columns-pos raid1 n h = omega arith
columns-pos level n h = omega arith

-- The product of a stripe size and a member count fits 64 bits.
pub full_stripe_fits : (s n : ℕ) → s ≤ 4194304 → n < u32_mod → s * (n - 1) < u64_mod
full_stripe_fits s n h k = omega (arith, mul-le-mul_left (n - 1) h)
