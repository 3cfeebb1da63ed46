-- ===== src/Raid/Degraded/Extremes.antt =====
-- The assessment of an array with no member missing, and of RAID 1 with any members missing.
use file_recovery_engine.Prelude.{ℕ, ◌+◌, ◌≤◌, ◌<◌, ◌≡◌, ◌∙◌, true, false, List, none, refl}
use file_recovery_engine.Prelude.Outcome.{ok}
use file_recovery_engine.Prelude.Checked.{u64_mod}
use file_recovery_engine.Raid.Types.{
  RaidLayout, RaidLogicalMapping, RaidLevel, RaidDegradedAssessment,
}
use file_recovery_engine.Raid.Types.{raid0, raid1, raid4, raid5, raid6, raid10}
use file_recovery_engine.Raid.Map.Shape.{IsValid, LocatedAs, supported, companion_position}
use file_recovery_engine.Raid.Map.Refine.{map_logical_offset-Located}
use file_recovery_engine.Raid.Map.Injective.{map_logical_offset_bounds}
use file_recovery_engine.Raid.Degraded.{contains, is_mapping_recoverable, assess_degraded_layout}
use file_recovery_engine.Raid.Degraded.Survival.{lost, contains-lost}
use file_recovery_engine.Raid.Degraded.Samples.{all_samples}
use mathlib.Core.Option
use mathlib.Core.Path.{subst}
use native.Mathlib.Omega.{arith}

present_recoverable :
    (level : RaidLevel) (n : ℕ) (m : RaidLogicalMapping) (missing : List ℕ)
    → supported level n ≡ true
    → contains missing m.member_index ≡ false
    → is_mapping_recoverable level m missing ≡ true
unfolding is_mapping_recoverable supported
present_recoverable raid0 n m missing s h = rw h
present_recoverable raid1 n m missing s h = rw h
present_recoverable raid4 n m missing s h = rw h
present_recoverable raid5 n m missing s h = rw h
present_recoverable raid10 n m missing s h = rw h
present_recoverable raid6 n m missing s h = absurd (cc)
present_recoverable RaidLevel.unknown n m missing s h = absurd (cc)

-- RAID 1 mappings name no mirror, so the test for a missing mirror never holds.
raid1_recoverable :
    (m : RaidLogicalMapping) (missing : List ℕ)
    → m.parity_member_index ≡ none
    → is_mapping_recoverable raid1 m missing ≡ true
unfolding is_mapping_recoverable
raid1_recoverable m missing e = ground arith

-- `percent` is the rounded percentage, of which it is used that all of `n` samples are 100 percent.
module _ (percent : ℕ → ℕ → ℕ) (percent_all : (n : ℕ) → 0 < n → percent n n ≡ 100) (l : RaidLayout)
    (missing : List ℕ) (count : ℕ) (v : IsValid l)
    (room : l.data_offset_bytes + 4294967296 ≤ u64_mod) where
  -- With no member of the array missing, a well formed layout of a level that can be assembled,
  -- with 4 GiB of offsets left behind the start of its data, is assessed as fully recoverable, at
  -- no cost in confidence.
  pub assess_degraded_layout_intact :
      supported l.level l.member_count ≡ true
      → ((w : ℕ) → w < l.member_count → contains missing w ≡ false)
      → (a : RaidDegradedAssessment) × (assess_degraded_layout percent l missing count ≡ ok a)
        × (a.recoverable_sample_count ≡ a.sample_count)
        × (a.recoverability_percent ≡ 100)
        × (a.confidence_penalty ≡ 0)
  assess_degraded_layout_intact s intact =
      all_samples percent percent_all l missing count v s room λ offset m e.
        let inside = (map_logical_offset_bounds l offset m v e).0 in
        present_recoverable l.level l.member_count m (lost missing l.member_count) s (
          contains-lost missing l.member_count m.member_index inside ∙ intact m.member_index inside)

  -- A well formed RAID 1 layout with 4 GiB of offsets left behind the start of its data is assessed
  -- as fully recoverable, at no cost in confidence, whatever members are missing, all of them
  -- included.
  pub assess_degraded_layout_raid1 :
      l.level ≡ raid1
      → (a : RaidDegradedAssessment) × (assess_degraded_layout percent l missing count ≡ ok a)
        × (a.recoverable_sample_count ≡ a.sample_count)
        × (a.recoverability_percent ≡ 100)
        × (a.confidence_penalty ≡ 0)
  unfolding supported companion_position Option.bind
  assess_degraded_layout_raid1 one =
      all_samples percent percent_all l missing count v (rw one refl) room λ offset m e.
        let at : LocatedAs raid1 l offset m =
          subst (λ level. LocatedAs level l offset m) one
            (map_logical_offset-Located l offset v e) in
        rw one (raid1_recoverable m (lost missing l.member_count) at.companion)
