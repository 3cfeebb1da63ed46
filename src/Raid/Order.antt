-- ===== src/Raid/Order.antt =====
-- `validate_disk_order`: the loop over the order with its table of members seen.
pub mod Exact
use file_recovery_engine.Prelude.{ℕ, ◌==◌, Bool, true, false, not, none, some, List, [], ◌∷◌}
use file_recovery_engine.Prelude.{leb, if◌then◌else◌, length, get_elem?, set, replicate}
use file_recovery_engine.Prelude.Outcome.{Outcome, ok, err, panic}
use file_recovery_engine.Raid.Types.{RaidError, invalid_disk_order}

-- The loop body reads `seen[*value as usize]` and then writes it.
pub order_loop : ℕ → List Bool → List ℕ → Outcome RaidError (Unit {0})
order_loop member_count seen [] = ok tt
order_loop member_count seen (value ∷ order) =
    let rest = order_loop member_count (set seen value true) order in
    if leb member_count value then err invalid_disk_order else elim (get_elem? seen value) [
      | none ↦ panic
      | some true ↦ err invalid_disk_order
      | some false ↦ rest
    ]

unfoldable pub validate_disk_order : List ℕ → ℕ → Outcome RaidError (Unit {0})
unfolding order_loop
validate_disk_order order member_count =
    if not (length order == member_count)
    then err invalid_disk_order
    else order_loop member_count (replicate member_count false) order
