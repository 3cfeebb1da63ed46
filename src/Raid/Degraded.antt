-- ===== src/Raid/Degraded.antt =====
-- `assess_degraded_layout` and its helpers. The rounded percentage is computed in `f64`; it is the
-- parameter `percent`, a function of the recoverable and of all samples.
pub mod Missing
pub mod Survival
pub mod Samples
pub mod Extremes
use Prim.Native.String.{◌++◌ as str_append}
use file_recovery_engine.Prelude.{ℕ, zero, suc, ◌+◌, ◌-◌, min, max, Bool, true, false, not, ◌||◌}
use file_recovery_engine.Prelude.{Option, none, some, List, [], ◌∷◌, String}
use file_recovery_engine.Prelude.{ltb, leb, ◌==◌, if◌then◌else◌, length}
use file_recovery_engine.Prelude.Outcome.{Outcome, ok, err, panic, stuck, ok_or, ◌>>=◌, ◌>>◌}
use file_recovery_engine.Prelude.Checked.{checked_mul}
use file_recovery_engine.Raid.Types.{RaidLayout, RaidError, RaidLogicalMapping, RaidLevel}
use file_recovery_engine.Raid.Types.{raid0, raid1, raid4, raid5, raid6, raid10, arithmetic_overflow}
use file_recovery_engine.Raid.Types.{RaidDegradedAssessment}
use file_recovery_engine.Raid.Map.{Mapped, map_logical_offset, check_layout}

-- `members.contains(&value)`.
unfoldable pub contains : List ℕ → ℕ → Bool
contains [] value = false
contains (x ∷ xs) value = value == x || contains xs value

-- `.filter(|value| *value < member_count)`.
pub keep_below : ℕ → List ℕ → List ℕ
keep_below member_count [] = []
keep_below member_count (x ∷ xs) =
    let rest = keep_below member_count xs in if ltb x member_count then x ∷ rest else rest

-- `members.sort_unstable()`: on numbers every sorting function gives this list.
pub insert_sorted : ℕ → List ℕ → List ℕ
insert_sorted x [] = x ∷ []
insert_sorted x (y ∷ ys) = if leb x y then x ∷ y ∷ ys else y ∷ insert_sorted x ys

pub sort : List ℕ → List ℕ
unfolding insert_sorted
sort [] = []
sort (x ∷ xs) = insert_sorted x (sort xs)

-- `members.dedup()`: an element equal to the one before it is dropped.
pub dedup_after : ℕ → List ℕ → List ℕ
dedup_after last [] = []
dedup_after last (x ∷ xs) = let rest = dedup_after x xs in if x == last then rest else x ∷ rest

pub dedup : List ℕ → List ℕ
unfolding dedup_after
dedup [] = []
dedup (x ∷ xs) = x ∷ dedup_after x xs

unfoldable pub normalize_missing_members : List ℕ → ℕ → List ℕ
unfolding keep_below sort dedup
normalize_missing_members missing_members member_count =
    dedup (sort (keep_below member_count missing_members))

-- `mapping.parity_member_index.is_some_and(|value| missing_members.contains(&value))`.
abbrev pub parity_missing : Option ℕ → List ℕ → Bool
parity_missing none missing = false
parity_missing (some value) missing = contains missing value

pub is_mapping_recoverable : RaidLevel → RaidLogicalMapping → List ℕ → Bool
unfolding contains
is_mapping_recoverable raid0 mapping missing = not (contains missing mapping.member_index)
is_mapping_recoverable raid1 mapping missing =
    not (contains missing mapping.member_index)
    || not (parity_missing mapping.parity_member_index missing)
is_mapping_recoverable raid4 mapping missing =
    if contains missing mapping.member_index then leb (length missing) 1 else true
is_mapping_recoverable raid5 mapping missing =
    if contains missing mapping.member_index then leb (length missing) 1 else true
is_mapping_recoverable raid6 mapping missing = leb (length missing) 2
is_mapping_recoverable raid10 mapping missing =
    not (contains missing mapping.member_index)
    || not (parity_missing mapping.parity_member_index missing)
is_mapping_recoverable RaidLevel.unknown mapping missing = false

-- `{level:?}`.
level_debug : RaidLevel → String
level_debug raid0 = "Raid0"
level_debug raid1 = "Raid1"
level_debug raid4 = "Raid4"
level_debug raid5 = "Raid5"
level_debug raid6 = "Raid6"
level_debug raid10 = "Raid10"
level_debug RaidLevel.unknown = "Unknown"

pub build_degraded_recommendation : RaidLevel → ℕ → ℕ → String
unfolding level_debug
build_degraded_recommendation level missing_member_count recoverability_percent =
    if missing_member_count == 0
    then "No missing members detected; run full recovery path."
    else if leb 95 recoverability_percent
    then str_append (level_debug level)
        " degraded profile appears recoverable; continue with cautious export and parity verification."
    else if leb 60 recoverability_percent
    then str_append (level_debug level)
        " degraded profile has mixed recoverability; export critical ranges first and validate hashes."
    else str_append (level_debug level)
        " degraded profile has low recoverability; prefer clone-first triage and manual layout overrides."

-- The `match` on the mapping of a sample, with its `continue` on an error, and the count.
pub tally : RaidLevel → List ℕ → Mapped → ℕ → Outcome RaidError ℕ
tally level missing (ok mapping) recoverable =
    ok (if is_mapping_recoverable level mapping missing then recoverable + 1 else recoverable)
tally level missing (err e) recoverable = ok recoverable
tally level missing panic recoverable = panic
tally level missing stuck recoverable = stuck

-- `for index in 0..samples`, at `index` with `left` rounds to go.
pub sample_loop : RaidLayout → List ℕ → ℕ → ℕ → ℕ → Outcome RaidError ℕ
unfolding tally
sample_loop layout missing zero index recoverable = ok recoverable
sample_loop layout missing (suc left) index recoverable = do
  logical_offset ←
      ok_or (checked_mul index layout.stripe_size_bytes)
        (arithmetic_overflow "degraded assessment logical offset")
  counted ← tally layout.level missing (map_logical_offset layout logical_offset) recoverable
  sample_loop layout missing left (index + 1) counted

-- `sample_count.max(8).min(1024)`.
abbrev pub samples_of : ℕ → ℕ
samples_of sample_count = min (max sample_count 8) 1024

unfoldable pub assess_degraded_layout :
    (ℕ → ℕ → ℕ) → RaidLayout → List ℕ → ℕ → Outcome RaidError RaidDegradedAssessment
unfolding sample_loop build_degraded_recommendation
assess_degraded_layout percent layout missing_members sample_count = do
  check_layout layout
  let normalized_missing = normalize_missing_members missing_members layout.member_count
  let samples = samples_of sample_count
  recoverable ← sample_loop layout normalized_missing samples 0 0
  let recoverability_percent = percent recoverable samples
  ok (record {
    missing_member_count = length normalized_missing;
    sample_count = samples;
    recoverable_sample_count = recoverable;
    recoverability_percent = recoverability_percent;
    confidence_penalty = min (100 - recoverability_percent) 60;
    recommendation =
        build_degraded_recommendation layout.level (length normalized_missing)
          recoverability_percent;
  })
