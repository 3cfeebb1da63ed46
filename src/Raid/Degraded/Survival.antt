-- ===== src/Raid/Degraded/Survival.antt =====
-- `is_mapping_recoverable` against what a level can stand.
use file_recovery_engine.Prelude.{
  ℕ, ◌+◌, ◌<◌, ◌≡◌, ◌≢◌, ◌↔◌, ◌⊎◌, refl, ◌∙◌, sym, arith, true, false, ◌||◌, List, [], ◌∷◌, inl,
  inr, some,
}
use file_recovery_engine.Prelude.{ltb, leb, Bool-cases, length, not, if◌then◌else◌, lt→ltb, ltb→lt}
use file_recovery_engine.Raid.Types.{
  RaidLogicalMapping, RaidLevel, raid0, raid1, raid4, raid5, raid6, raid10,
}
use mathlib.Core.Bool.{and-true, and-eq-true_iff}
use native.Mathlib.Decide.{ℕ_discrete}
use file_recovery_engine.Prelude.Outcome.{ok}
use file_recovery_engine.Raid.Types.{RaidLayout}
use file_recovery_engine.Raid.Map.{map_logical_offset}
use file_recovery_engine.Raid.Map.Shape.{IsValid, LocatedAs, supported, columns, companion_position}
use file_recovery_engine.Raid.Map.Refine.{map_logical_offset-Located}
use file_recovery_engine.Raid.Map.Injective.{mapped_supported, map_logical_offset_bounds}
use mathlib.Core.Option
use mathlib.Core.Option.{some-injective}
use mathlib.Core.Path.{subst}
use native.Mathlib.Nat.{mod-lt}
use file_recovery_engine.Prelude.{get_elem?-some, ◌/◌, ◌%◌, ◌*◌}
use file_recovery_engine.Raid.Degraded.{contains, normalize_missing_members, is_mapping_recoverable}
use file_recovery_engine.Raid.Degraded.Missing.{IsIncreasing, normalize_missing_members_lem}

only_one :
    (ys : List ℕ) (a w : ℕ)
    → contains ys a ≡ true
    → leb (length ys) 1 ≡ true
    → contains ys w ≡ true
    → w ≡ a
unfolding contains
only_one [] a w h le k = absurd (ground arith)
only_one (x ∷ []) a w h le k = ground arith
only_one (x ∷ y ∷ ys) a w h le k = absurd (ground arith)

at_most_one :
    (ys : List ℕ) (a : ℕ)
    → IsIncreasing ys
    → ((w : ℕ) → contains ys w ≡ true → w ≡ a)
    → leb (length ys) 1 ≡ true
unfolding contains
at_most_one [] a inc only = refl
at_most_one (x ∷ []) a inc only = refl
at_most_one (x ∷ y ∷ ys) a inc only =
    absurd (omega (arith, inc.0, only x (ground arith), only y (ground arith)))

module _ (missing : List ℕ) (n : ℕ) where
  abbrev pub lost : List ℕ
  lost = normalize_missing_members missing n

  pub contains-lost : (w : ℕ) → w < n → contains lost w ≡ contains missing w
  contains-lost w h =
      (normalize_missing_members_lem missing n).1 w
      ∙ rw (lt→ltb w n h) (and-true (contains missing w))

  -- With one parity member a data member can be lost exactly if nothing else is.
  parity_survives :
      (a : ℕ)
      → a < n
      → ((if contains lost a then leb (length lost) 1 else true) ≡ true)
        ↔ ((contains missing a ≡ false) ⊎ ((w : ℕ) → w < n → w ≢ a → contains missing w ≡ false))
  parity_survives a h = (sound, complete)
    where
      sound :
          (if contains lost a then leb (length lost) 1 else true) ≡ true
          → (contains missing a ≡ false) ⊎ ((w : ℕ) → w < n → w ≢ a → contains missing w ≡ false)
      sound e = elim (Bool-cases (contains lost a)) [
        | inr safe ↦ inl (sym (contains-lost a h) ∙ safe)
        | inl gone ↦ inr (λ w hw ne. elim (Bool-cases (contains missing w)) [
          | inr kept ↦ kept
          | inl also ↦
              absurd (ne (only_one lost a w gone (rw gone at e) (contains-lost w hw ∙ also)))
        ])
      ]

      complete :
          (contains missing a ≡ false) ⊎ ((w : ℕ) → w < n → w ≢ a → contains missing w ≡ false)
          → (if contains lost a then leb (length lost) 1 else true) ≡ true
      complete (inl safe) = rw (contains-lost a h ∙ safe)
      complete (inr others) = elim (Bool-cases (contains lost a)) [
        | inr safe ↦ rw safe
        | inl gone ↦ rw gone (
            at_most_one lost a (normalize_missing_members_lem missing n).0 (λ w k.
              elim (ℕ_discrete w a) [
                | yes same ↦ same
                | no ne ↦
                    let both =
                      (and-eq-true_iff (contains missing w) (ltb w n)).0
                        (sym ((normalize_missing_members_lem missing n).1 w) ∙ k) in
                    absurd (cc (both.0, others w (ltb→lt w n both.1) ne))
              ]))
      ]

-- What each level can stand, for the members that the caller names as missing: RAID 0 no loss of
-- the data member; RAID 4 and 5 its loss if every other member is there; RAID 10 its loss if its
-- mirror is there.
abbrev pub Survives : RaidLevel → RaidLogicalMapping → List ℕ → ℕ → Type 0
Survives raid0 m missing n = contains missing m.member_index ≡ false
Survives raid4 m missing n =
    (contains missing m.member_index ≡ false)
    ⊎ ((w : ℕ) → w < n → w ≢ m.member_index → contains missing w ≡ false)
Survives raid5 m missing n =
    (contains missing m.member_index ≡ false)
    ⊎ ((w : ℕ) → w < n → w ≢ m.member_index → contains missing w ≡ false)
Survives raid10 m missing n =
    (contains missing m.member_index ≡ false)
    ⊎ ((p : ℕ) × (m.parity_member_index ≡ some p) × (contains missing p ≡ false))
Survives raid1 m missing n = ⊥
Survives raid6 m missing n = ⊥
Survives RaidLevel.unknown m missing n = ⊥

mirror_survives :
    (missing : List ℕ) (n a p : ℕ)
    → a < n
    → p < n
    → ((not (contains (lost missing n) a) || not (contains (lost missing n) p)) ≡ true)
      ↔ ((contains missing a ≡ false) ⊎ (contains missing p ≡ false))
mirror_survives missing n a p h k =
    rw (contains-lost missing n a h, contains-lost missing n p k) (ground arith)

-- The place of the mirror of RAID 10 is always named, and is one of the array.
companion_found :
    (l : RaidLayout) (offset : ℕ) (m : RaidLogicalMapping)
    → IsValid l
    → map_logical_offset l offset ≡ ok m
    → l.level ≡ raid10
    → (p : ℕ) × (m.parity_member_index ≡ some p) × (p < l.member_count)
unfolding companion_position columns Option.bind
companion_found l offset m v e ten =
    let n = l.member_count in
    let at : LocatedAs raid10 l offset m =
      subst (λ level. LocatedAs level l offset m) ten (map_logical_offset-Located l offset v e) in
    let place : ℕ = offset / l.stripe_size_bytes % (n / 2) * 2 + 1 in
    let inside : place < n =
      omega (arith, mod-lt (offset / l.stripe_size_bytes) {m = n / 2} (omega (arith, v.members))) in
    let (p, named) = get_elem?-some l.disk_order place (omega (arith, v.ordered.counted)) in
    (p, at.companion ∙ named, v.ordered.below place named)

module _ (m : RaidLogicalMapping) (missing : List ℕ) (n : ℕ) (inside : m.member_index < n) where
  Survives-level :
      (level : RaidLevel)
      → supported level n ≡ true
      → level ≢ raid1
      → (level ≡ raid10 → (p : ℕ) × (m.parity_member_index ≡ some p) × (p < n))
      → (is_mapping_recoverable level m (lost missing n) ≡ true) ↔ Survives level m missing n
  unfolding is_mapping_recoverable supported
  Survives-level raid0 s ne mirror =
      rw (contains-lost missing n m.member_index inside) (ground arith)
  Survives-level raid1 s ne mirror = absurd (ne refl)
  Survives-level raid4 s ne mirror = parity_survives missing n m.member_index inside
  Survives-level raid5 s ne mirror = parity_survives missing n m.member_index inside
  Survives-level raid6 s ne mirror = absurd (cc)
  Survives-level RaidLevel.unknown s ne mirror = absurd (cc)
  Survives-level raid10 s ne mirror =
      let (p, named, below) = mirror refl in
      let decided = mirror_survives missing n m.member_index p inside below in
      (
        λ r. elim (decided.0 (rw named at r)) [ inl a ↦ inl a | inr b ↦ inr (p, named, b) ],
        λ s. rw named (
            decided.1 (elim s [
              | inl a ↦ inl a
              | inr (q, also, b) ↦ inr (rw (some-injective q p (sym also ∙ named)) at b)
            ])),
      )

-- On every mapping that `map_logical_offset` returns for a level other than RAID 1,
-- `is_mapping_recoverable` over the normalised members decides whether the level stands the loss
-- of the members that the caller names.
pub is_mapping_recoverable_iff :
    (l : RaidLayout) (offset : ℕ) (m : RaidLogicalMapping) (missing : List ℕ)
    → IsValid l
    → map_logical_offset l offset ≡ ok m
    → l.level ≢ raid1
    → (is_mapping_recoverable l.level m (normalize_missing_members missing l.member_count) ≡ true)
      ↔ Survives l.level m missing l.member_count
is_mapping_recoverable_iff l offset m missing v e ne =
    Survives-level m missing l.member_count (map_logical_offset_bounds l offset m v e).0 l.level
      (mapped_supported l offset v e) ne (companion_found l offset m v e)
