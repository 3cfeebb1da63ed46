-- ===== src/Fat/Chain/Links.antt =====
-- Chains as paths along the FAT, and `collect_cluster_chain` as the search for one.
use file_recovery_engine.Prelude.{
  ℕ, zero, suc, ◌≤◌, ◌<◌, ◌≡◌, refl, arith, true, false, List, [], ◌∷◌, inl, inr, ltb, ◌==◌, length,
  contains, Bool-cases, All, ◌↔◌, ◌⊎◌,
}
use mathlib.Core.Path.{subst}
use file_recovery_engine.Prelude.Outcome.{ok, bind-eq-ok, ok-injective}
use file_recovery_engine.Prelude.Bytes.{Bytes}
use file_recovery_engine.Fat.Types.{FatBootSector}
use file_recovery_engine.Fat.Chain.{
  read_fat_entry, ends_chain, is_unusable, chain_loop, collect_cluster_chain,
}

-- No number stands twice in the list.
abbrev pub Distinct : List ℕ → Type 0
Distinct [] = Unit {0}
Distinct (x ∷ xs) = (contains x xs ≡ false) × Distinct xs

-- An entry of the FAT that ends a chain: free, or one of the marks of an end.
abbrev pub IsEnd : ℕ → Type 0
IsEnd next = (next ≡ 0) ⊎ (0x0FFFFFF8 ≤ next)

-- An entry that names a cluster: not free, reserved, bad or a mark of an end.
abbrev pub IsCluster : ℕ → Type 0
IsCluster next = (2 ≤ next) × (next < 0x0FFFFFF0)

-- The clusters from `current` on as the FAT links them, up to one whose entry ends the chain.
abbrev pub Linked : Bytes → FatBootSector → ℕ → List ℕ → Type 0
Linked image boot current [] = ⊥
Linked image boot current (c ∷ chain) =
    (c ≡ current)
    × (next : ℕ) × (read_fat_entry image boot current ≡ ok next)
    × (((chain ≡ []) × IsEnd next) ⊎ (IsCluster next × Linked image boot next chain))

ends_chain-IsEnd : (next : ℕ) → ends_chain next ≡ true → IsEnd next
unfolding ends_chain
ends_chain-IsEnd next h = elim (Bool-cases (next == 0)) [
  | inl free ↦ inl (ground arith)
  | inr used ↦ inr (ground arith)
]

IsEnd-ends_chain : (next : ℕ) → IsEnd next → ends_chain next ≡ true
unfolding ends_chain
IsEnd-ends_chain next (inl free) = ground arith
IsEnd-ends_chain next (inr mark) = ground arith

usable-IsCluster : (next : ℕ) → ends_chain next ≡ false → is_unusable next ≡ false → IsCluster next
unfolding ends_chain is_unusable
usable-IsCluster next h k = (ground arith, ground arith)

IsCluster-onward :
    (next : ℕ) → IsCluster next → (ends_chain next ≡ false) × (is_unusable next ≡ false)
unfolding ends_chain is_unusable
IsCluster-onward next (low, high) = (ground arith, ground arith)

-- No cluster of the chain was seen before.
abbrev Fresh : List ℕ → List ℕ → Type 0
Fresh seen chain = All (λ c. contains c seen ≡ false) chain

Fresh-cons :
    (c : ℕ) (seen chain : List ℕ)
    → Fresh (c ∷ seen) chain
    → Fresh seen chain × (contains c chain ≡ false)
Fresh-cons c seen [] h = (tt, refl)
Fresh-cons c seen (d ∷ chain) h =
    let (rest, none_left) = Fresh-cons c seen chain h.1 in
    ((ground arith, rest), ground (arith, h.0))

cons-Fresh :
    (c : ℕ) (seen chain : List ℕ)
    → Fresh seen chain
    → contains c chain ≡ false
    → Fresh (c ∷ seen) chain
cons-Fresh c seen [] h k = tt
cons-Fresh c seen (d ∷ chain) h k =
    (ground (arith, h.0), cons-Fresh c seen chain h.1 (ground arith))

all-Fresh : (chain : List ℕ) → Fresh [] chain
all-Fresh [] = tt
all-Fresh (c ∷ chain) = (refl, all-Fresh chain)

module _ (image : Bytes) (boot : FatBootSector) where
  abbrev Found : ℕ → List ℕ → ℕ → List ℕ → Type 0
  Found rounds seen current chain =
      Linked image boot current chain × Distinct chain × Fresh seen chain × (length chain ≤ rounds)

  Found-cons :
      (rounds : ℕ) (seen : List ℕ) (current next : ℕ) (chain : List ℕ)
      → contains current seen ≡ false
      → read_fat_entry image boot current ≡ ok next
      → ends_chain next ≡ false
      → is_unusable next ≡ false
      → Found rounds (current ∷ seen) next chain
      → Found (suc rounds) seen current (current ∷ chain)
  Found-cons rounds seen current next chain fresh e more good (linked, distinct, unseen, short) =
      let (before, once) = Fresh-cons current seen chain unseen in
      (
        (refl, next, e, inr (usable-IsCluster next more good, linked)),
        (once, distinct),
        (fresh, before),
        omega arith,
      )

  chain_loop-Found :
      (rounds : ℕ) (seen : List ℕ) (current : ℕ) (chain : List ℕ)
      → chain_loop image boot rounds seen current ≡ ok chain
      → Found rounds seen current chain
  unfolding chain_loop
  chain_loop-Found zero seen current chain e = absurd (cc)
  chain_loop-Found (suc rounds) seen current chain e = elim (Bool-cases (contains current seen)) [
    | inl repeated ↦ absurd (cc (rw repeated at e))
    | inr fresh ↦
        let (next, at_next, e1) =
          bind-eq-ok (read_fat_entry image boot current) _ (rw fresh at e) in
        elim (Bool-cases (ends_chain next)) [
          | inl last ↦
              let same : current ∷ [] ≡ chain = ok-injective (rw last at e1) in
              subst (Found (suc rounds) seen current) same (
                (refl, next, at_next, inl (refl, ends_chain-IsEnd next last)),
                (refl, tt),
                (fresh, tt),
                omega arith,
              )
          | inr more ↦ elim (Bool-cases (is_unusable next)) [
            | inl bad ↦ absurd (cc (rw (more, bad) at e1))
            | inr good ↦
                let (rest, at_rest, e2) =
                  bind-eq-ok (chain_loop image boot rounds (current ∷ seen) next) _
                    (rw (more, good) at e1) in
                let h = chain_loop-Found rounds (current ∷ seen) next rest at_rest in
                subst (Found (suc rounds) seen current) (ok-injective e2)
                  (Found-cons rounds seen current next rest fresh at_next more good h)
          ]
        ]
  ]

  -- The loop finds every chain that it has rounds for.
  Found-chain_loop :
      (rounds : ℕ) (seen : List ℕ) (current : ℕ) (chain : List ℕ)
      → Found rounds seen current chain
      → chain_loop image boot rounds seen current ≡ ok chain
  unfolding chain_loop
  Found-chain_loop rounds seen current [] h = absurd h.0
  Found-chain_loop zero seen current (c ∷ chain) h = absurd (omega arith)
  Found-chain_loop (suc rounds) seen current (c ∷ chain) (linked, distinct, unseen, short) =
      let (same, next, e, onward) = linked in
      let fresh : contains current seen ≡ false = rw same at unseen.0 in
      elim onward [
        | inl (none_left, last) ↦ rw (fresh, e, IsEnd-ends_chain next last, none_left, same) refl
        | inr (names, later) ↦
            let (more, good) = IsCluster-onward next names in
            let once : contains current chain ≡ false = rw same at distinct.0 in
            rw
              (
                fresh,
                e,
                more,
                good,
                Found-chain_loop rounds (current ∷ seen) next chain
                    (later, distinct.1, cons-Fresh current seen chain unseen.1 once, omega arith),
                same,
              )
              refl
      ]

-- With a cap that is not zero, the chain from a cluster on is found exactly if it is this one: it
-- starts there, at cluster 2 or later, each cluster is the FAT entry of the one before it and lies
-- from 2 up to below the reserved entries, 0x0FFFFFF0, the last entry is 0 or a mark of an end,
-- 0x0FFFFFF8 or above, no cluster stands in it twice, and it has at most as many clusters as the
-- cap.
pub collect_cluster_chain_iff :
    (image : Bytes) (boot : FatBootSector) (start cap : ℕ) (chain : List ℕ)
    → 0 < cap
    → (collect_cluster_chain image boot start cap ≡ ok chain)
      ↔ ((2 ≤ start) × Linked image boot start chain × Distinct chain × (length chain ≤ cap))
unfolding collect_cluster_chain
collect_cluster_chain_iff image boot start cap chain some_round =
    let counted : (cap == 0) ≡ false = ground arith in
    elim (Bool-cases (ltb start 2)) [
      | inl small ↦ (λ e. absurd (cc (rw small at e)), λ h. absurd (ground arith))
      | inr large ↦ (
        λ e.
            let (linked, distinct, _, short) =
              chain_loop-Found image boot cap [] start chain (rw (large, counted) at e) in
            (ground arith, linked, distinct, short),
        λ (_, linked, distinct, short).
            rw (large, counted)
              (Found-chain_loop image boot cap [] start chain
                (linked, distinct, all-Fresh chain, short)),
      )
    ]
