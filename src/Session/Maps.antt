-- ===== src/Session/Maps.antt =====
-- `HashMap` as an association list.
use mathlib.Core.Path.{subst}
use file_recovery_engine.Prelude.{
  ◌≡◌, refl, ap, Bool, true, false, Option, none, some, List, [], ◌∷◌, inl, inr, ◌↔◌, if◌then◌else◌,
  Bool-cases,
}

-- A map as the list of its entries, no key twice.
module _ {ℓ κ} {K : Type ℓ} {V : Type κ} (same : K → K → Bool) where
  unfoldable pub find : K → List (K × V) → Option V
  find key [] = none
  find key ((k, v) ∷ entries) = let rest = find key entries in if same key k then some v else rest

  -- `entry(key)`: the value is replaced, or the key is added.
  unfoldable pub upsert : K → (Option V → V) → List (K × V) → List (K × V)
  upsert key change [] = (key, change none) ∷ []
  upsert key change ((k, v) ∷ entries) =
      let rest = upsert key change entries in
      if same key k then (k, change (some v)) ∷ entries else (k, v) ∷ rest

-- A test of equality of the keys makes the list a map.
module _ {ℓ κ} {K : Type ℓ} {V : Type κ} (same : K → K → Bool)
    (same-iff : (a b : K) → (same a b ≡ true) ↔ (a ≡ b)) where
  pub find-upsert :
      (key : K) (change : Option V → V) (entries : List (K × V))
      → find same key (upsert same key change entries) ≡ some (change (find same key entries))
  unfolding find upsert
  find-upsert key change [] = rw ((same-iff key key).1 refl) refl
  find-upsert key change ((k, v) ∷ entries) = elim (Bool-cases (same key k)) [
    | inl here ↦ rw (here, here) refl
    | inr later ↦ rw (later, later) (find-upsert key change entries)
  ]

  pub find-upsert_other :
      (key other : K) (change : Option V → V) (entries : List (K × V))
      → same other key ≡ false
      → find same other (upsert same key change entries) ≡ find same other entries
  unfolding find upsert
  find-upsert_other key other change [] h = rw h refl
  find-upsert_other key other change ((k, v) ∷ entries) h = elim (Bool-cases (same key k)) [
    | inl here ↦
        let equal : key ≡ k = (same-iff key k).0 here in
        let differs : same other k ≡ false = subst (λ x. same other x ≡ false) equal h in
        rw (here, differs) refl
    | inr later ↦ rw later (
        ap (λ o. if same other k then some v else o) (find-upsert_other key other change entries h))
  ]
