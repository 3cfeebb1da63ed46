-- ===== src/Raid/Map/Places.antt =====
-- The places of a row: the code's parity is that of the striping, data and companion lie in the disk order, apart from one another.
use file_recovery_engine.Prelude.{
  ℕ, zero, suc, ◌+◌, ◌-◌, ◌%◌, ◌<◌, ◌≡◌, ◌≢◌, ◌⊎◌, refl, sym, ap, ◌∙◌, arith, inl, inr,
}
use file_recovery_engine.Prelude.{true, some}
use file_recovery_engine.Prelude.Scale.{mod_below_twice}
use file_recovery_engine.Raid.Types.{RaidLevel, ParityRotation}
use file_recovery_engine.Raid.Types.{raid4, raid5, raid10}
use file_recovery_engine.Raid.Types.{left_symmetric, right_symmetric}
use file_recovery_engine.Raid.Map.{parity_position}
use file_recovery_engine.Raid.Map.Shape.{
  supported, columns, data_position, companion_position, next_place, previous_place, parity_place,
}
use native.Mathlib.Nat.{mod-lt, mod-add-mod, mod-eq_of_lt, zero-mod}

-- The remainder of the next number: one more, or back at zero.
next_mod :
    (row n : ℕ)
    → 0 < n
    → ((row % n + 1 < n) × (suc row % n ≡ row % n + 1)) ⊎ ((row % n + 1 ≡ n) × (suc row % n ≡ 0))
next_mod row n h =
    let small : row % n < n = mod-lt row h in
    let step : (row % n + 1) % n ≡ suc row % n =
      mod-add-mod row n 1 ∙ ap (λ (t : ℕ). t % n) (omega arith) in
    let size : suc row % n < n = mod-lt (suc row) h in
    elim (mod_below_twice (row % n + 1) n (omega arith)) [
      | inl e ↦ inl (omega arith, omega arith)
      | inr e ↦ inr (omega arith, omega arith)
    ]

next_place-inside : (n p : ℕ) → p + 1 < n → next_place n p ≡ p + 1
unfolding next_place
next_place-inside n p h = ground arith

next_place-last : (n p : ℕ) → p + 1 ≡ n → next_place n p ≡ 0
unfolding next_place
next_place-last n p h = ground arith

previous_place-pos : (n p : ℕ) → 0 < p → previous_place n p + 1 ≡ p
unfolding previous_place
previous_place-pos n zero h = absurd (omega arith)
previous_place-pos n (suc p) h = omega arith

previous_place-zero : (n p : ℕ) → p ≡ 0 → previous_place n p ≡ n - 1
unfolding previous_place
previous_place-zero n zero h = refl
previous_place-zero n (suc p) h = absurd (omega arith)

next_remainder : (row n : ℕ) → 0 < n → suc row % n ≡ next_place n (row % n)
next_remainder row n h = elim (next_mod row n h) [
  | inl (inside, e) ↦ omega (arith, next_place-inside n (row % n) inside)
  | inr (last, e) ↦ omega (arith, next_place-last n (row % n) last)
]

-- Seen from the last place, going on is going back.
previous_remainder : (row n : ℕ) → 0 < n → n - 1 - suc row % n ≡ previous_place n (n - 1 - row % n)
previous_remainder row n h = elim (next_mod row n h) [
  | inl (inside, e) ↦ omega (arith, previous_place-pos n (n - 1 - row % n) (omega arith))
  | inr (last, e) ↦ omega (arith, previous_place-zero n (n - 1 - row % n) (omega arith))
]

forward_place : (n row : ℕ) → 0 < n → row % n ≡ parity_place right_symmetric n row
unfolding parity_place
forward_place n zero h = zero-mod n
forward_place n (suc row) h =
    next_remainder row n h ∙ ap (λ p. next_place n p) (forward_place n row h)

backward_place : (n row : ℕ) → 0 < n → n - 1 - row % n ≡ parity_place left_symmetric n row
unfolding parity_place
backward_place n zero h = omega (arith, zero-mod n)
backward_place n (suc row) h =
    previous_remainder row n h ∙ ap (λ p. previous_place n p) (backward_place n row h)

unknown_place :
    (n row : ℕ) → parity_place ParityRotation.unknown n row ≡ parity_place left_symmetric n row
unfolding parity_place
unknown_place n zero = refl
unknown_place n (suc row) = ap (λ p. previous_place n p) (unknown_place n row)

-- The code's position of the parity is its place in the striping.
pub parity_position-parity_place :
    (rotation : ParityRotation) (n row : ℕ)
    → 0 < n
    → parity_position rotation n row ≡ parity_place rotation n row
unfolding parity_position
parity_position-parity_place right_symmetric n row h = forward_place n row h
parity_position-parity_place left_symmetric n row h =
    mod-eq_of_lt (omega arith) ∙ backward_place n row h
parity_position-parity_place ParityRotation.unknown n row h =
    mod-eq_of_lt (omega arith) ∙ backward_place n row h ∙ sym (unknown_place n row)

pub parity_place-lt :
    (rotation : ParityRotation) (n row : ℕ) → 0 < n → parity_place rotation n row < n
parity_place-lt right_symmetric n row h = omega (arith, forward_place n row h, mod-lt row h)
parity_place-lt left_symmetric n row h = omega (arith, backward_place n row h)
parity_place-lt ParityRotation.unknown n row h =
    omega (arith, backward_place n row h, unknown_place n row)

-- Going on by one place or more, and by fewer than `n`, from a place of a ring of `n`.
ring_step_ne : (n p c : ℕ) → p < n → c < n - 1 → p ≢ (p + 1 + c) % n
ring_step_ne n p c h k = elim (mod_below_twice (p + 1 + c) n (omega arith)) [
  | inl e ↦ omega arith
  | inr e ↦ omega arith
]

ring_step_inj :
    (n p c d : ℕ) → p < n → c < n - 1 → d < n - 1 → (p + 1 + c) % n ≡ (p + 1 + d) % n → c ≡ d
ring_step_inj n p c d h k m e =
    let first = mod_below_twice (p + 1 + c) n (omega arith) in
    let second = mod_below_twice (p + 1 + d) n (omega arith) in
    let c_small : (p + 1 + c) % n < n = mod-lt _ (omega arith) in
    let d_small : (p + 1 + d) % n < n = mod-lt _ (omega arith) in omega (arith, first, second)

module _ (rotation : ParityRotation) (n row : ℕ) where
  -- Two columns of a row have two places.
  pub data_position_inj :
      (level : RaidLevel) (c d : ℕ)
      → supported level n ≡ true
      → c < columns level n
      → d < columns level n
      → data_position level rotation n row c ≡ data_position level rotation n row d
      → c ≡ d
  unfolding data_position columns supported
  data_position_inj raid5 c d s hc hd e =
      ring_step_inj n (parity_place rotation n row) c d
        (parity_place-lt rotation n row (omega arith)) hc hd e
  data_position_inj raid10 c d s hc hd e = omega arith
  data_position_inj level c d s hc hd e = e

  -- A companion never lies on the member that holds the data.
  pub companion-ne-data :
      (level : RaidLevel) (c : ℕ) {p : ℕ}
      → c < columns level n
      → companion_position level rotation n row c ≡ some p
      → p ≢ data_position level rotation n row c
  unfolding data_position columns companion_position
  companion-ne-data raid4 c h e = ground arith
  companion-ne-data raid5 c h e = ground (
    arith,
    ring_step_ne n (parity_place rotation n row) c (parity_place-lt rotation n row (omega arith)) h,
  )
  companion-ne-data raid10 c h e = ground arith
  companion-ne-data level c h e = ground arith
