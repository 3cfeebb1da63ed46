-- ===== src/Raid/Degraded/Missing.antt =====
-- `normalize_missing_members` gives the members of the array that the caller named, each once, in
-- increasing order.
use file_recovery_engine.Prelude.{
  ℕ, ◌≤◌, ◌<◌, ◌≡◌, refl, ◌∙◌, arith, ◌&&◌, ◌||◌, List, [], ◌∷◌, inl, inr,
}
use file_recovery_engine.Prelude.{ltb, leb, ◌==◌, ==→≡, Bool-cases}
use file_recovery_engine.Raid.Degraded.{
  contains, keep_below, insert_sorted, sort, dedup_after, dedup, normalize_missing_members,
}

contains-keep_below :
    (n : ℕ) (xs : List ℕ) (v : ℕ) → contains (keep_below n xs) v ≡ (contains xs v && ltb v n)
unfolding contains keep_below
contains-keep_below n [] v = refl
contains-keep_below n (x ∷ xs) v = ground (arith, contains-keep_below n xs v)

contains-insert_sorted :
    (x : ℕ) (xs : List ℕ) (v : ℕ) → contains (insert_sorted x xs) v ≡ (v == x || contains xs v)
unfolding contains insert_sorted
contains-insert_sorted x [] v = refl
contains-insert_sorted x (y ∷ ys) v = ground (arith, contains-insert_sorted x ys v)

contains-sort : (xs : List ℕ) (v : ℕ) → contains (sort xs) v ≡ contains xs v
unfolding contains sort
contains-sort [] v = refl
contains-sort (x ∷ xs) v = ground (arith, contains-insert_sorted x (sort xs) v, contains-sort xs v)

contains-dedup_after :
    (last : ℕ) (xs : List ℕ) (v : ℕ)
    → (v == last || contains (dedup_after last xs) v) ≡ (v == last || contains xs v)
unfolding contains dedup_after
contains-dedup_after last [] v = refl
contains-dedup_after last (x ∷ xs) v = ground (arith, contains-dedup_after x xs v)

contains-dedup : (xs : List ℕ) (v : ℕ) → contains (dedup xs) v ≡ contains xs v
unfolding contains dedup
contains-dedup [] v = refl
contains-dedup (x ∷ xs) v = contains-dedup_after x xs v

-- Each element is at least, or more than, the bound and the ones before it.
abbrev SortedFrom : ℕ → List ℕ → Type 0
SortedFrom lo [] = Unit
SortedFrom lo (x ∷ xs) = (lo ≤ x) × SortedFrom x xs

abbrev pub IncreasingAfter : ℕ → List ℕ → Type 0
IncreasingAfter lo [] = Unit
IncreasingAfter lo (x ∷ xs) = (lo < x) × IncreasingAfter x xs

abbrev pub IsIncreasing : List ℕ → Type 0
IsIncreasing [] = Unit
IsIncreasing (x ∷ xs) = IncreasingAfter x xs

insert_sorted-SortedFrom :
    (lo x : ℕ) (xs : List ℕ) → lo ≤ x → SortedFrom lo xs → SortedFrom lo (insert_sorted x xs)
unfolding insert_sorted
insert_sorted-SortedFrom lo x [] h s = (h, tt)
insert_sorted-SortedFrom lo x (y ∷ ys) h s = elim (Bool-cases (leb x y)) [
  | inl le ↦ rw le (h, (ground arith, s.1))
  | inr gt ↦ rw gt (s.0, insert_sorted-SortedFrom y x ys (ground arith) s.1)
]

sort-SortedFrom : (xs : List ℕ) → SortedFrom 0 (sort xs)
unfolding sort
sort-SortedFrom [] = tt
sort-SortedFrom (x ∷ xs) = insert_sorted-SortedFrom 0 x (sort xs) (omega arith) (sort-SortedFrom xs)

dedup_after-IncreasingAfter :
    (last : ℕ) (xs : List ℕ) → SortedFrom last xs → IncreasingAfter last (dedup_after last xs)
unfolding dedup_after
dedup_after-IncreasingAfter last [] s = tt
dedup_after-IncreasingAfter last (x ∷ xs) s = elim (Bool-cases (x == last)) [
  | inl same ↦ rw same (rw (← ==→≡ x last same) (dedup_after-IncreasingAfter x xs s.1))
  | inr other ↦ rw other (ground arith, dedup_after-IncreasingAfter x xs s.1)
]

dedup-IsIncreasing : (lo : ℕ) (xs : List ℕ) → SortedFrom lo xs → IsIncreasing (dedup xs)
unfolding dedup
dedup-IsIncreasing lo [] s = tt
dedup-IsIncreasing lo (x ∷ xs) s = dedup_after-IncreasingAfter x xs s.1

-- The normalised list holds exactly the named members below the member count, and it increases
-- strictly, so it names none of them twice.
pub normalize_missing_members_lem :
    (missing : List ℕ) (n : ℕ)
    → IsIncreasing (normalize_missing_members missing n)
      × ((v : ℕ)
          → contains (normalize_missing_members missing n) v ≡ (contains missing v && ltb v n))
unfolding normalize_missing_members
normalize_missing_members_lem missing n =
    let kept = keep_below n missing in
    (
      dedup-IsIncreasing 0 (sort kept) (sort-SortedFrom kept),
      λ v. contains-dedup (sort kept) v ∙ contains-sort kept v ∙ contains-keep_below n missing v,
    )
