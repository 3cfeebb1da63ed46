-- ===== src/Raid/Order/Exact.antt =====
-- `validate_disk_order` accepts the permutations of the member indices and nothing else.
use file_recovery_engine.Prelude.{ℕ, zero, suc, ◌<◌, ◌≡◌, ◌≢◌, refl, ap, ◌↔◌, inl, inr, arith}
use file_recovery_engine.Prelude.{Bool, true, false, some, List, [], ◌∷◌, ◌==◌}
use file_recovery_engine.Prelude.{length, get_elem?, set, replicate, Bool-cases, ==→≡, ==→≢}
use file_recovery_engine.Prelude.{get_elem?-set_self, get_elem?-set_ne}
use file_recovery_engine.Prelude.{get_elem?-replicate}
use file_recovery_engine.Prelude.Outcome.{ok}
use file_recovery_engine.Raid.Order.{order_loop, validate_disk_order}

-- Each member index from 0 to `n - 1` stands in the list exactly once.
pub record IsMemberOrder (n : ℕ) (order : List ℕ) : Type 0 where
  pub counted : length order ≡ n
  pub below : (i : ℕ) {v : ℕ} → get_elem? order i ≡ some v → v < n
  pub distinct : (i j : ℕ) {v : ℕ} → get_elem? order i ≡ some v → get_elem? order j ≡ some v → i ≡ j

order_loop-inv :
    (n v : ℕ) (seen : List Bool) (order : List ℕ)
    → order_loop n seen (v ∷ order) ≡ ok tt
    → (v < n) × (get_elem? seen v ≡ some false) × (order_loop n (set seen v true) order ≡ ok tt)
unfolding order_loop
order_loop-inv n v seen order e = ground arith

below_loop :
    (n i : ℕ) (seen : List Bool) (order : List ℕ) {v : ℕ}
    → order_loop n seen order ≡ ok tt
    → get_elem? order i ≡ some v
    → v < n
below_loop n i seen [] e g = absurd (cc)
below_loop n zero seen (w ∷ order) e g = ground (arith, order_loop-inv n w seen order e)
below_loop n (suc i) seen (w ∷ order) e g =
    below_loop n i (set seen w true) order (order_loop-inv n w seen order e).2 g

lt_of_get_elem? :
    (seen : List Bool) (v : ℕ) {b : Bool} → get_elem? seen v ≡ some b → v < length seen
lt_of_get_elem? [] v e = absurd (cc)
lt_of_get_elem? (b ∷ seen) zero e = omega arith
lt_of_get_elem? (b ∷ seen) (suc v) e = omega (arith, lt_of_get_elem? seen v e)

-- A member that is marked after the mark of `w` was set is either `w` or was marked before.
unmarked_before :
    (seen : List Bool) (w v : ℕ)
    → get_elem? seen w ≡ some false
    → get_elem? (set seen w true) v ≡ some false
    → (w ≢ v) × (get_elem? seen v ≡ some false)
unmarked_before seen w v hw hv = elim (Bool-cases (w == v)) [
  | inl same ↦
      absurd (cc (==→≡ w v same, get_elem?-set_self seen w true (lt_of_get_elem? seen w hw)))
  | inr other ↦ (==→≢ w v other, rw (get_elem?-set_ne seen w v true (==→≢ w v other)) at hv)
]

fresh_loop :
    (n i : ℕ) (seen : List Bool) (order : List ℕ) {v : ℕ}
    → order_loop n seen order ≡ ok tt
    → get_elem? order i ≡ some v
    → get_elem? seen v ≡ some false
fresh_loop n i seen [] e g = absurd (cc)
fresh_loop n zero seen (w ∷ order) e g = ground (arith, order_loop-inv n w seen order e)
fresh_loop n (suc i) seen (w ∷ order) {v} e g =
    let step = order_loop-inv n w seen order e in
    (unmarked_before seen w v step.1 (fresh_loop n i (set seen w true) order step.2 g)).1

-- The head of an accepted list does not come again.
head_fresh :
    (n i w : ℕ) (seen : List Bool) (order : List ℕ)
    → order_loop n seen (w ∷ order) ≡ ok tt
    → get_elem? order i ≢ some w
head_fresh n i w seen order e g =
    let step = order_loop-inv n w seen order e in
    (unmarked_before seen w w step.1 (fresh_loop n i (set seen w true) order step.2 g)).0 refl

distinct_loop :
    (n i j : ℕ) (seen : List Bool) (order : List ℕ) {v : ℕ}
    → order_loop n seen order ≡ ok tt
    → get_elem? order i ≡ some v
    → get_elem? order j ≡ some v
    → i ≡ j
distinct_loop n i j seen [] e g h = absurd (cc)
distinct_loop n zero zero seen (w ∷ order) e g h = refl
distinct_loop n zero (suc j) seen (w ∷ order) e g h = absurd (head_fresh n j w seen order e (cc))
distinct_loop n (suc i) zero seen (w ∷ order) e g h = absurd (head_fresh n i w seen order e (cc))
distinct_loop n (suc i) (suc j) seen (w ∷ order) e g h =
    ap suc (distinct_loop n i j (set seen w true) order (order_loop-inv n w seen order e).2 g h)

order_loop_step :
    (n v : ℕ) (seen : List Bool) (order : List ℕ)
    → v < n
    → get_elem? seen v ≡ some false
    → order_loop n (set seen v true) order ≡ ok tt
    → order_loop n seen (v ∷ order) ≡ ok tt
unfolding order_loop
order_loop_step n v seen order h g e = ground arith

accept_loop :
    (n : ℕ) (seen : List Bool) (order : List ℕ)
    → ((i v : ℕ) → get_elem? order i ≡ some v → v < n)
    → ((i v : ℕ) → get_elem? order i ≡ some v → get_elem? seen v ≡ some false)
    → ((i j v : ℕ) → get_elem? order i ≡ some v → get_elem? order j ≡ some v → i ≡ j)
    → order_loop n seen order ≡ ok tt
unfolding order_loop
accept_loop n seen [] below fresh distinct = refl
accept_loop n seen (w ∷ order) below fresh distinct =
    let rest =
      accept_loop n (set seen w true) order (λ i v g. below (suc i) v g) still
        (λ i j v g h. omega (arith, distinct (suc i) (suc j) v g h)) in
    order_loop_step n w seen order (below 0 w refl) (fresh 0 w refl) rest
  where
    still : (i v : ℕ) → get_elem? order i ≡ some v → get_elem? (set seen w true) v ≡ some false
    still i v g = elim (Bool-cases (w == v)) [
      | inl same ↦ absurd (omega (arith, distinct 0 (suc i) w refl (rw (==→≡ w v same) g)))
      | inr other ↦ rw (get_elem?-set_ne seen w v true (==→≢ w v other)) (fresh (suc i) v g)
    ]

-- `validate_disk_order` returns `Ok` exactly for the orders that hold every member index once.
pub validate_disk_order_iff :
    (order : List ℕ) (n : ℕ) → (validate_disk_order order n ≡ ok tt) ↔ IsMemberOrder n order
unfolding validate_disk_order
validate_disk_order_iff order n = (sound, complete)
  where
    looped :
        validate_disk_order order n ≡ ok tt
        → (length order ≡ n) × (order_loop n (replicate n false) order ≡ ok tt)
    looped e = ground arith

    sound : validate_disk_order order n ≡ ok tt → IsMemberOrder n order
    sound e =
        let (size, run) = looped e in
        record {
          counted = size;
          below = λ i g. below_loop n i (replicate n false) order run g;
          distinct = λ i j g h. distinct_loop n i j (replicate n false) order run g h;
        }

    complete : IsMemberOrder n order → validate_disk_order order n ≡ ok tt
    complete m =
        let run =
          accept_loop n (replicate n false) order (λ i v g. m.below i g)
            (λ i v g. get_elem?-replicate n v false (m.below i g))
            (λ i j v g h. m.distinct i j g h) in
        ground (arith, run, m.counted)
