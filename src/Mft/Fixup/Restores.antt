-- ===== src/Mft/Fixup/Restores.antt =====
-- What a successful fixup has done to each sector tail, and to nothing else.
use file_recovery_engine.Prelude.{
  ℕ, zero, suc, ◌+◌, ◌-◌, ◌*◌, ◌≤◌, ◌<◌, ◌≡◌, inl, inr, refl, ◌∙◌, sym, ap, arith, All, length,
  get_elem?,
}
use file_recovery_engine.Prelude.Outcome.{ok, bind-eq-ok, ok-injective}
use file_recovery_engine.Prelude.Bytes.{Bytes, IsByte, IsSlice}
use file_recovery_engine.Mft.Fields.{read_u16}
use file_recovery_engine.Mft.Words.{read_u16_of, two_bytes}
use file_recovery_engine.Mft.Fixup.{fixup_loop, apply_update_sequence_fixup}
use file_recovery_engine.Mft.Fixup.Total.{Ran, apply_update_sequence_fixup-Ran, fixup_sector-length}
use file_recovery_engine.Mft.Fixup.Repairs.{
  Outside, Round, fixup_sector-Round, Round-low, Round-high, Round-kept,
}
use native.Mathlib.Nat.{mul-le-mul_left, add-zero}
use mathlib.Core.Path.{subst}
use native.Mathlib.Decide.{ℕ_discrete}

-- A sector's tail is off the tail of every other sector.
tails_apart :
    (bps k sector : ℕ) → 2 ≤ bps → 1 ≤ k → k < sector → (k * bps + 2 ≤ sector * bps) × (2 ≤ k * bps)
tails_apart bps k sector wide one lt = omega (
  arith,
  mul-le-mul_left {m = suc k} {n = sector} bps lt,
  mul-le-mul_left {m = 1} {n = k} bps one,
)

module _ (record_bytes : Bytes) (bps offset count seq : ℕ) where
  -- The tail of a sector held the update sequence number, and holds the bytes of its entry of the
  -- update sequence array now.
  pub record Repaired (sector : ℕ) (out : Bytes) : Type 0 where
    pub inside : sector * bps ≤ length record_bytes
    pub untorn : read_u16 record_bytes (sector * bps - 2) ≡ ok seq
    pub low : get_elem? out (sector * bps - 2) ≡ get_elem? record_bytes (offset + sector * 2)
    pub high : get_elem? out (sector * bps - 1) ≡ get_elem? record_bytes (offset + sector * 2 + 1)

  -- The loop before `sector`: the tails behind it are repaired, all else is the record's.
  record Tracks (sector : ℕ) (fixed : Bytes) : Type 0 where
    size : length fixed ≡ length record_bytes
    repaired : (k : ℕ) → 1 ≤ k → k < sector → Repaired k fixed
    kept :
        (j : ℕ)
        → ((k : ℕ) → 1 ≤ k → k < sector → Outside bps k j)
        → get_elem? fixed j ≡ get_elem? record_bytes j

  module _ (slice : IsSlice record_bytes) (bytes : All IsByte record_bytes) (wide : 2 ≤ bps) where
    -- The tail of the sector at hand is still the record's.
    tail_untouched :
        (sector : ℕ) (fixed out : Bytes)
        → Tracks sector fixed
        → Round record_bytes bps offset count seq sector fixed out
        → read_u16 record_bytes (sector * bps - 2) ≡ ok seq
    tail_untouched sector fixed out t r =
        let at = sector * bps - 2 in
        let (x, y, hx, hy) = two_bytes fixed at (omega (arith, r.wide, r.inside)) in
        let low =
          t.kept at (λ k one lt. inr (omega (arith, tails_apart bps k sector wide one lt))) in
        let high =
          t.kept (suc at) (λ k one lt. inr (omega (arith, tails_apart bps k sector wide one lt))) in
        read_u16_of record_bytes at x y (sym low ∙ hx) (sym high ∙ hy)
        ∙ sym (read_u16_of fixed at x y hx hy)
        ∙ r.current

    next_Repaired :
        (sector : ℕ) (fixed out : Bytes)
        → Tracks sector fixed
        → Round record_bytes bps offset count seq sector fixed out
        → Repaired sector out
    next_Repaired sector fixed out t r = record {
      inside = omega (arith, r.inside, t.size);
      untorn = tail_untouched sector fixed out t r;
      low = Round-low record_bytes bps offset count seq bytes r;
      high =
          Round-high record_bytes bps offset count seq bytes r
          ∙ ap (get_elem? record_bytes) (omega arith);
    }

    old_Repaired :
        (sector k : ℕ) (fixed out : Bytes)
        → 1 ≤ k
        → k < sector
        → Repaired k fixed
        → Round record_bytes bps offset count seq sector fixed out
        → Repaired k out
    old_Repaired sector k fixed out one lt p r =
        let apart = tails_apart bps k sector wide one lt in
        record {
          inside = p.inside;
          untorn = p.untorn;
          low =
              Round-kept record_bytes bps offset count seq _ r (inl (omega (arith, apart))) ∙ p.low;
          high =
              Round-kept record_bytes bps offset count seq _ r (inl (omega (arith, apart)))
              ∙ p.high;
        }

    Tracks-step :
        (sector : ℕ) (fixed out : Bytes)
        → 1 ≤ sector
        → Tracks sector fixed
        → length out ≡ length fixed
        → Round record_bytes bps offset count seq sector fixed out
        → Tracks (suc sector) out
    Tracks-step sector fixed out first t same r = record {
      size = same ∙ t.size;
      repaired = λ k one lt. elim (ℕ_discrete k sector) [
        | yes here ↦ subst (λ n. Repaired n out) (sym here) (next_Repaired sector fixed out t r)
        | no before ↦
            old_Repaired sector k fixed out one (omega arith) (t.repaired k one (omega arith)) r
      ];
      kept = λ j off.
          Round-kept record_bytes bps offset count seq j r (off sector first (omega arith))
          ∙ t.kept j (λ k one lt. off k one (omega arith));
    }

    Tracks-loop :
        (left sector : ℕ) (fixed : Bytes) {out : Bytes}
        → 1 ≤ sector
        → Tracks sector fixed
        → fixup_loop record_bytes bps offset count seq left sector fixed ≡ ok out
        → Tracks (sector + left) out
    unfolding fixup_loop
    Tracks-loop zero sector fixed first t e = rw add-zero (subst (Tracks sector) (ok-injective e) t)
    Tracks-loop (suc left) sector fixed {out} first t e =
        let (mid, ran, rest) = bind-eq-ok _ _ e in
        let size = fixup_sector-length record_bytes bps offset count seq sector fixed ran in
        let short : IsSlice fixed = omega (arith, t.size, slice) in
        let r = fixup_sector-Round record_bytes bps offset count seq sector fixed short ran in
        let next : Tracks (sector + 1) mid =
          subst (λ n. Tracks n mid) (omega arith) (Tracks-step sector fixed mid first t size r) in
        subst (λ n. Tracks n out) (omega arith)
          (Tracks-loop left (sector + 1) mid (omega arith) next rest)

-- A successful fixup, with sectors of two bytes or more, has found the update sequence number at
-- the end of each sector that the update sequence array covers, so that a record with a torn
-- sector is refused. It has put the sector's entry of the array there, and has kept every other
-- byte.
pub apply_update_sequence_fixup_restores :
    (record_bytes out : Bytes) (bps : ℕ)
    → IsSlice record_bytes
    → All IsByte record_bytes
    → 2 ≤ bps
    → apply_update_sequence_fixup record_bytes bps ≡ ok out
    → (r : Ran record_bytes bps out) × ((k : ℕ)
        → 1 ≤ k
        → k < r.count
        → Repaired record_bytes bps r.offset r.count r.seq k out)
      × ((j : ℕ)
          → ((k : ℕ) → 1 ≤ k → k < r.count → Outside bps k j)
          → get_elem? out j ≡ get_elem? record_bytes j)
apply_update_sequence_fixup_restores record_bytes out bps slice bytes wide e =
    let r = apply_update_sequence_fixup-Ran record_bytes bps e in
    let start : Tracks record_bytes bps r.offset r.count r.seq 1 record_bytes = record {
      size = refl;
      repaired = λ k one lt. absurd (omega arith);
      kept = λ j off. refl;
    } in
    let t =
      Tracks-loop record_bytes bps r.offset r.count r.seq slice bytes wide (r.count - 1) 1
        record_bytes (omega arith) start r.looped in
    let last : 1 + (r.count - 1) ≡ r.count = omega (arith, r.positive) in
    (
      r,
      λ k one lt. t.repaired k one (omega (arith, last)),
      λ j off. t.kept j (λ k one lt. off k one (omega (arith, last))),
    )
