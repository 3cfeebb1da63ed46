-- ===== src/Raid/Degraded/Samples.antt =====
-- The sampling loop of `assess_degraded_layout`.
use file_recovery_engine.Prelude.{
  ℕ, zero, suc, ◌+◌, ◌-◌, ◌*◌, ◌/◌, ◌≤◌, ◌<◌, ◌≡◌, ◌⊎◌, refl, ◌∙◌, ap, arith, true, List, inl, inr,
  some, min,
}
use file_recovery_engine.Prelude.{ltb, Bool-cases, length, ltb→lt, lt→ltb, if◌then◌else◌}
use file_recovery_engine.Prelude.Outcome.{ok, err}
use file_recovery_engine.Prelude.Checked.{u64_mod, checked_mul}
use file_recovery_engine.Raid.Types.{
  RaidLayout, RaidLogicalMapping, RaidLevel, RaidError, RaidDegradedAssessment,
}
use file_recovery_engine.Raid.Map.{map_logical_offset}
use file_recovery_engine.Raid.Map.Shape.{IsValid, supported, columns, physical, stripe_size_bounds}
use file_recovery_engine.Raid.Map.Refine.{
  check_layout-IsValid, map_logical_offset-Refines, map_logical_offset_unsupported,
}
use file_recovery_engine.Raid.Degraded.{
  normalize_missing_members, is_mapping_recoverable, tally, sample_loop, samples_of,
  assess_degraded_layout, build_degraded_recommendation,
}
use native.Mathlib.Nat.{div-add-mod, div-le_self, mul-le-mul_left}

-- A mapping of a well formed layout never ends in a fault of the model.
mapped_or_refused :
    (l : RaidLayout) (offset : ℕ)
    → IsValid l
    → ((m : RaidLogicalMapping) × (map_logical_offset l offset ≡ ok m))
      ⊎ ((e : RaidError) × (map_logical_offset l offset ≡ err e))
mapped_or_refused l offset v = elim (Bool-cases (supported l.level l.member_count)) [
  | inr no_way ↦ inr (_, map_logical_offset_unsupported l offset v no_way)
  | inl fine ↦
      let refined = map_logical_offset-Refines l offset v fine in
      elim (Bool-cases (ltb (physical l.level l offset) u64_mod)) [
        | inl small ↦ let (m, e, _) = refined.fits (ltb→lt _ _ small) in inl (m, e)
        | inr big ↦ let (text, e) = refined.overflows (ground arith) in inr (_, e)
      ]
]

-- The byte on the member lies no further behind the start of the data than the logical offset.
physical-le :
    (level : RaidLevel) (l : RaidLayout) (offset : ℕ)
    → physical level l offset ≤ l.data_offset_bytes + offset
physical-le level l offset =
    let s = l.stripe_size_bytes in
    omega (
      arith,
      div-add-mod offset s,
      mul-le-mul_left s (div-le_self (offset / s) (columns level l.member_count)),
    )

sample_fits : (s index : ℕ) → s ≤ 4194304 → index < 1024 → index * s < 4294967296
sample_fits s index h k = omega (arith, mul-le-mul_left index h)

sample_loop_done :
    (l : RaidLayout) (missing : List ℕ) (index recoverable : ℕ)
    → sample_loop l missing 0 index recoverable ≡ ok recoverable
unfolding sample_loop
sample_loop_done l missing index recoverable = refl

module _ (l : RaidLayout) (missing : List ℕ) (v : IsValid l) where
  sample_offset :
      (index : ℕ)
      → index < 1024
      → checked_mul index l.stripe_size_bytes ≡ some (index * l.stripe_size_bytes)
  unfolding checked_mul
  sample_offset index h =
      let small =
        sample_fits l.stripe_size_bytes index (stripe_size_bounds l.stripe_size_bytes v.striped).1
          h in
      rw (lt→ltb (index * l.stripe_size_bytes) u64_mod (omega arith))

  -- One round adds one or nothing, and goes on.
  sample_step :
      (left index recoverable : ℕ)
      → index < 1024
      → (counted : ℕ) × (sample_loop l missing (suc left) index recoverable
          ≡ sample_loop l missing left (index + 1) counted)
        × (recoverable ≤ counted)
        × (counted ≤ recoverable + 1)
  unfolding sample_loop tally
  sample_step left index recoverable h =
      elim (mapped_or_refused l (index * l.stripe_size_bytes) v) [
        | inl (m, e) ↦ (
          if is_mapping_recoverable l.level m missing then recoverable + 1 else recoverable,
          rw (sample_offset index h, e),
          ground arith,
          ground arith,
        )
        | inr (x, e) ↦ (recoverable, rw (sample_offset index h, e), omega arith, omega arith)
      ]

  sample_loop_total :
      (left index recoverable : ℕ)
      → left + index ≤ 1024
      → (r : ℕ) × (sample_loop l missing left index recoverable ≡ ok r)
        × (recoverable ≤ r)
        × (r ≤ recoverable + left)
  sample_loop_total zero index recoverable h =
      (recoverable, sample_loop_done l missing index recoverable, omega arith, omega arith)
  sample_loop_total (suc left) index recoverable h =
      let (counted, step, lo, hi) = sample_step left index recoverable (omega arith) in
      let (r, run, lower, upper) = sample_loop_total left (index + 1) counted (omega arith) in
      (r, step ∙ run, omega arith, omega arith)

  -- If every mapping counts as recoverable, so does every sample.
  module _ (assembled : supported l.level l.member_count ≡ true)
      (room : l.data_offset_bytes + 4294967296 ≤ u64_mod)
      (all_recoverable : (offset : ℕ) (m : RaidLogicalMapping)
        → map_logical_offset l offset ≡ ok m
        → is_mapping_recoverable l.level m missing ≡ true) where
    full_step :
        (left index recoverable : ℕ)
        → index < 1024
        → sample_loop l missing (suc left) index recoverable
          ≡ sample_loop l missing left (index + 1) (recoverable + 1)
    unfolding sample_loop tally
    full_step left index recoverable h =
        let offset = index * l.stripe_size_bytes in
        let small =
          sample_fits l.stripe_size_bytes index (stripe_size_bounds l.stripe_size_bytes v.striped).1
            h in
        let fits : physical l.level l offset < u64_mod =
          omega (arith, physical-le l.level l offset) in
        let (m, e, _) = (map_logical_offset-Refines l offset v assembled).fits fits in
        rw (sample_offset index h, e, all_recoverable offset m e)

    pub sample_loop_full :
        (left index recoverable : ℕ)
        → left + index ≤ 1024
        → sample_loop l missing left index recoverable ≡ ok (recoverable + left)
    sample_loop_full zero index recoverable h =
        sample_loop_done l missing index recoverable ∙ ap ok (omega arith)
    sample_loop_full (suc left) index recoverable h =
        full_step left index recoverable (omega arith)
        ∙ sample_loop_full left (index + 1) (recoverable + 1) (omega arith)
        ∙ ap ok (omega arith)

-- The assessment that goes with a count of recoverable samples.
abbrev assessment : (ℕ → ℕ → ℕ) → RaidLayout → List ℕ → ℕ → ℕ → RaidDegradedAssessment
assessment percent l missing samples r = record {
  missing_member_count = length missing;
  sample_count = samples;
  recoverable_sample_count = r;
  recoverability_percent = percent r samples;
  confidence_penalty = min (100 - percent r samples) 60;
  recommendation = build_degraded_recommendation l.level (length missing) (percent r samples);
}

assess_counted :
    (percent : ℕ → ℕ → ℕ) (l : RaidLayout) (missing : List ℕ) (count r : ℕ)
    → IsValid l
    → sample_loop l (normalize_missing_members missing l.member_count) (samples_of count) 0 0 ≡ ok r
    → assess_degraded_layout percent l missing count
      ≡ ok (
          assessment percent l
            (normalize_missing_members missing l.member_count)
            (samples_of count)
            r)
unfolding assess_degraded_layout
assess_counted percent l missing count r v run = rw (check_layout-IsValid l v, run)

-- Every well formed layout is assessed, whatever members are missing: the assessment takes 8 to
-- 1024 samples, counts no more of them as recoverable, and costs at most 60 points of confidence.
pub assess_degraded_layout_total :
    (percent : ℕ → ℕ → ℕ) (l : RaidLayout) (missing : List ℕ) (count : ℕ)
    → IsValid l
    → (a : RaidDegradedAssessment) × (assess_degraded_layout percent l missing count ≡ ok a)
      × (8 ≤ a.sample_count)
      × (a.sample_count ≤ 1024)
      × (a.recoverable_sample_count ≤ a.sample_count)
      × (a.confidence_penalty ≤ 60)
assess_degraded_layout_total percent l missing count v =
    let lost = normalize_missing_members missing l.member_count in
    let (r, run, lo, hi) = sample_loop_total l lost v (samples_of count) 0 0 (omega arith) in
    (
      assessment percent l lost (samples_of count) r,
      assess_counted percent l missing count r v run,
      omega arith,
      omega arith,
      omega arith,
      omega arith,
    )

module _ (percent : ℕ → ℕ → ℕ) (percent_all : (n : ℕ) → 0 < n → percent n n ≡ 100) where
  pub all_samples :
      (l : RaidLayout) (missing : List ℕ) (count : ℕ)
      → IsValid l
      → supported l.level l.member_count ≡ true
      → l.data_offset_bytes + 4294967296 ≤ u64_mod
      → ((offset : ℕ) (m : RaidLogicalMapping)
          → map_logical_offset l offset ≡ ok m
          → is_mapping_recoverable l.level m (normalize_missing_members missing l.member_count)
            ≡ true)
      → (a : RaidDegradedAssessment) × (assess_degraded_layout percent l missing count ≡ ok a)
        × (a.recoverable_sample_count ≡ a.sample_count)
        × (a.recoverability_percent ≡ 100)
        × (a.confidence_penalty ≡ 0)
  all_samples l missing count v s room all_recoverable =
      let lost = normalize_missing_members missing l.member_count in
      let samples = samples_of count in
      let run : sample_loop l lost samples 0 0 ≡ ok samples =
        sample_loop_full l lost v s room all_recoverable samples 0 0 (omega arith)
        ∙ ap ok (omega arith) in
      let full : percent samples samples ≡ 100 = percent_all samples (omega arith) in
      (
        assessment percent l lost samples samples,
        assess_counted percent l missing count samples v run,
        refl,
        full,
        omega (arith, full),
      )
