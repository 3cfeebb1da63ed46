-- ===== src/Session/Order/Sorted.antt =====
-- The sorted candidates: the same ones, in order.
use file_recovery_engine.Prelude.{
  ℕ, ◌+◌, ◌≤◌, ◌<◌, ◌⊎◌, ◌||◌, ◌&&◌, ltb, leb, ◌==◌, Option, none, some, ◌≡◌, refl, ap, ◌∙◌, arith,
  Bool, true, false, List, [], ◌∷◌, inl, inr, Bool-cases, All,
}
use file_recovery_engine.Session.Types.{QuickScanCandidate}
use file_recovery_engine.Session.Order.{
  bit, or_else, unwrap_or_zero, quick_scan_candidate_recency_key, in_order, insert_candidate,
  sort_quick_scan_candidates_for_recent_deletes,
}

-- How many candidates pass a test.
abbrev pub count : (QuickScanCandidate → Bool) → List QuickScanCandidate → ℕ
count test [] = 0
count test (c ∷ candidates) = bit (test c) + count test candidates

-- The first time that is there, or zero.
abbrev pub first_time : List (Option ℕ) → ℕ
first_time [] = 0
first_time (none ∷ times) = first_time times
first_time (some t ∷ times) = t

-- The time of a candidate: that of the last change of its data, of its file record, of its
-- creation or of the last access, whichever comes first in this order.
abbrev pub time_of : QuickScanCandidate → ℕ
time_of c = first_time (
    c.modified_filetime_utc ∷ c.mft_modified_filetime_utc ∷ c.created_filetime_utc
    ∷ c.accessed_filetime_utc ∷ [])

-- `c` may stand before `d`: it is deleted and `d` is not, or both are alike in this and it is more
-- recent, or equally recent with an index that is not higher.
abbrev pub Precedes : QuickScanCandidate → QuickScanCandidate → Type 0
Precedes c d =
    ((c.deleted ≡ true) × (d.deleted ≡ false))
    ⊎ ((c.deleted ≡ d.deleted)
        × ((time_of d < time_of c) ⊎ ((time_of d ≡ time_of c) × (c.record_index ≤ d.record_index))))

abbrev pub IsSorted : List QuickScanCandidate → Type 0
IsSorted [] = Unit {0}
IsSorted (c ∷ candidates) = All (Precedes c) candidates × IsSorted candidates

abbrev IsChecked : List QuickScanCandidate → Type 0
IsChecked [] = Unit {0}
IsChecked (c ∷ candidates) = All (λ d. in_order c d ≡ true) candidates × IsChecked candidates

key-first_time :
    (a b c d : Option ℕ)
    → unwrap_or_zero (or_else a (or_else b (or_else c d))) ≡ first_time (a ∷ b ∷ c ∷ d ∷ [])
key-first_time (some t) b c d = refl
key-first_time none (some t) c d = refl
key-first_time none none (some t) d = refl
key-first_time none none none (some t) = refl
key-first_time none none none none = refl

key-time_of : (c : QuickScanCandidate) → quick_scan_candidate_recency_key c ≡ time_of c
unfolding quick_scan_candidate_recency_key
key-time_of c =
    key-first_time c.modified_filetime_utc c.mft_modified_filetime_utc c.created_filetime_utc
      c.accessed_filetime_utc

recent_or : (l r i j : ℕ) → (ltb r l || (r == l && leb i j)) ≡ true → (r < l) ⊎ ((r ≡ l) × (i ≤ j))
recent_or l r i j h = elim (Bool-cases (ltb r l)) [
  | inl recent ↦ inl (ground arith)
  | inr other ↦ inr (ground arith, ground arith)
]

rank_Precedes :
    (a b : Bool) (l r i j : ℕ)
    → (ltb (bit b) (bit a) || (bit b == bit a && (ltb r l || (r == l && leb i j)))) ≡ true
    → ((a ≡ true) × (b ≡ false)) ⊎ ((a ≡ b) × ((r < l) ⊎ ((r ≡ l) × (i ≤ j))))
rank_Precedes true false l r i j h = inl (refl, refl)
rank_Precedes false true l r i j h = absurd (ground arith)
rank_Precedes true true l r i j h = inr (refl, recent_or l r i j (ground arith))
rank_Precedes false false l r i j h = inr (refl, recent_or l r i j (ground arith))

in_order-Precedes : (c d : QuickScanCandidate) → in_order c d ≡ true → Precedes c d
unfolding in_order
in_order-Precedes c d h =
    rank_Precedes c.deleted d.deleted (time_of c) (time_of d) c.record_index d.record_index
      (rw (key-time_of c, key-time_of d) at h)

in_order_total : (c d : QuickScanCandidate) → in_order c d ≡ false → in_order d c ≡ true
unfolding in_order
in_order_total c d h = ground arith

in_order_trans :
    (c d e : QuickScanCandidate) → in_order c d ≡ true → in_order d e ≡ true → in_order c e ≡ true
unfolding in_order
in_order_trans c d e h k = ground arith

All-insert_candidate :
    (P : QuickScanCandidate → Type 0) (c : QuickScanCandidate)
    (candidates : List QuickScanCandidate)
    → P c
    → All P candidates
    → All P (insert_candidate c candidates)
unfolding insert_candidate
All-insert_candidate P c [] h k = (h, tt)
All-insert_candidate P c (d ∷ candidates) h k = elim (Bool-cases (in_order c d)) [
  | inl here ↦ rw here (h, k)
  | inr later ↦ rw later (k.0, All-insert_candidate P c candidates h k.1)
]

All-weaken :
    (P Q : QuickScanCandidate → Type 0) (candidates : List QuickScanCandidate)
    → ((c : QuickScanCandidate) → P c → Q c)
    → All P candidates
    → All Q candidates
All-weaken P Q [] f h = tt
All-weaken P Q (c ∷ candidates) f h = (f c h.0, All-weaken P Q candidates f h.1)

insert_candidate-IsChecked :
    (c : QuickScanCandidate) (candidates : List QuickScanCandidate)
    → IsChecked candidates
    → IsChecked (insert_candidate c candidates)
unfolding insert_candidate
insert_candidate-IsChecked c [] h = (tt, tt)
insert_candidate-IsChecked c (d ∷ candidates) h = elim (Bool-cases (in_order c d)) [
  | inl here ↦
      rw here ((here, All-weaken _ _ candidates (λ e k. in_order_trans c d e here k) h.0), h)
  | inr later ↦ rw later (
    All-insert_candidate (λ e. in_order d e ≡ true) c candidates (in_order_total c d later) h.0,
    insert_candidate-IsChecked c candidates h.1,
  )
]

count-insert_candidate :
    (test : QuickScanCandidate → Bool) (c : QuickScanCandidate)
    (candidates : List QuickScanCandidate)
    → count test (insert_candidate c candidates) ≡ bit (test c) + count test candidates
unfolding insert_candidate
count-insert_candidate test c [] = refl
count-insert_candidate test c (d ∷ candidates) = elim (Bool-cases (in_order c d)) [
  | inl here ↦ rw here refl
  | inr later ↦ rw later (omega (arith, count-insert_candidate test c candidates))
]

sort_IsChecked :
    (candidates : List QuickScanCandidate)
    → IsChecked (sort_quick_scan_candidates_for_recent_deletes candidates)
unfolding sort_quick_scan_candidates_for_recent_deletes
sort_IsChecked [] = tt
sort_IsChecked (c ∷ candidates) = insert_candidate-IsChecked c _ (sort_IsChecked candidates)

IsChecked-IsSorted :
    (candidates : List QuickScanCandidate) → IsChecked candidates → IsSorted candidates
IsChecked-IsSorted [] h = tt
IsChecked-IsSorted (c ∷ candidates) h =
    (All-weaken _ _ candidates (in_order-Precedes c) h.0, IsChecked-IsSorted candidates h.1)

pub sort_IsSorted :
    (candidates : List QuickScanCandidate)
    → IsSorted (sort_quick_scan_candidates_for_recent_deletes candidates)
sort_IsSorted candidates = IsChecked-IsSorted _ (sort_IsChecked candidates)

-- Sorting loses no candidate and adds none.
pub count-sort :
    (test : QuickScanCandidate → Bool) (candidates : List QuickScanCandidate)
    → count test (sort_quick_scan_candidates_for_recent_deletes candidates) ≡ count test candidates
unfolding sort_quick_scan_candidates_for_recent_deletes
count-sort test [] = refl
count-sort test (c ∷ candidates) =
    count-insert_candidate test c (sort_quick_scan_candidates_for_recent_deletes candidates)
    ∙ ap (λ n. bit (test c) + n) (count-sort test candidates)

pub All-sort :
    (P : QuickScanCandidate → Type 0) (candidates : List QuickScanCandidate)
    → All P candidates
    → All P (sort_quick_scan_candidates_for_recent_deletes candidates)
unfolding sort_quick_scan_candidates_for_recent_deletes
All-sort P [] h = tt
All-sort P (c ∷ candidates) h = All-insert_candidate P c _ h.0 (All-sort P candidates h.1)
