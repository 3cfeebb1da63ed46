-- ===== src/Raid/Map/Covers.antt =====
-- The striping leaves no byte of a member unused, but for the mirrors of RAID 1.
use file_recovery_engine.Prelude.{ℕ, ◌<◌, ◌≡◌, ◌⊎◌}
use file_recovery_engine.Prelude.{some}
use file_recovery_engine.Raid.Types.{RaidLevel, ParityRotation}
use file_recovery_engine.Raid.Map.Shape.{columns, data_position, companion_position}
use mathlib.Core.Option

-- A column of the row whose data or whose companion lies at the place `p`.
record Serves (level : RaidLevel) (rotation : ParityRotation) (n row p : ℕ) : Type 0 where
  column : ℕ
  in_row : column < columns level n
  holds :
      (data_position level rotation n row column ≡ p)
      ⊎ (companion_position level rotation n row column ≡ some p)
