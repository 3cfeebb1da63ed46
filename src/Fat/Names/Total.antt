-- ===== src/Fat/Names/Total.antt =====
-- The names of an entry of 32 bytes.
use file_recovery_engine.Prelude.{
  ℕ, zero, suc, ◌+◌, ◌*◌, ◌≤◌, ◌≡◌, arith, ◌||◌, ◌==◌, length, inl, inr, Bool-cases, List, [], ◌∷◌,
  ◌++◌, true, ap, sym, refl, ==→≡,
}
use file_recovery_engine.Prelude.Outcome.{Safe, Safe-ok, Safe-bind}
use file_recovery_engine.Prelude.Bytes.{Bytes, bytes_eq}
use file_recovery_engine.Prelude.Readers.{read_le-Safe, range-Safe}
use file_recovery_engine.Fat.Names.{
  append_lfn_range, decode_lfn_part, decode_short_name, join_candidate_path,
}

append_lfn_range-Safe :
    (rounds : ℕ) (entry : Bytes) (offset : ℕ)
    → offset + rounds * 2 ≤ length entry
    → Safe (λ _. Unit {0}) (append_lfn_range rounds entry offset)
unfolding append_lfn_range
append_lfn_range-Safe zero entry offset h = Safe-ok tt
append_lfn_range-Safe (suc rounds) entry offset h =
    Safe-bind _ _ (read_le-Safe 2 entry offset (omega arith)) λ code _ _.
      elim (Bool-cases (code == 0x0000 || code == 0xFFFF)) [
        | inl last ↦ rw last (Safe-ok tt)
        | inr more ↦ rw more (
            Safe-bind _ _ (append_lfn_range-Safe rounds entry (offset + 2) (omega arith))
              λ rest _ _. Safe-ok tt)
      ]

pub decode_lfn_part-Safe :
    (entry : Bytes) → length entry ≡ 32 → Safe (λ _. Unit {0}) (decode_lfn_part entry)
unfolding decode_lfn_part
decode_lfn_part-Safe entry h =
    Safe-bind _ _ (append_lfn_range-Safe 5 entry 1 (omega arith)) λ first _ _.
      Safe-bind _ _ (append_lfn_range-Safe 6 entry 14 (omega arith)) λ second _ _.
        Safe-bind _ _ (append_lfn_range-Safe 2 entry 28 (omega arith)) λ third _ _. Safe-ok tt

pub decode_short_name-Safe :
    (entry : Bytes) → length entry ≡ 32 → Safe (λ _. Unit {0}) (decode_short_name entry)
unfolding decode_short_name
decode_short_name-Safe entry h =
    Safe-bind _ _ (range-Safe entry 0 8 (omega arith) (omega arith)) λ base _ _.
      Safe-bind _ _ (range-Safe entry 8 11 (omega arith) (omega arith)) λ extension _ _. Safe-ok tt

bytes_eq-dot : (text : List ℕ) → bytes_eq text (46 ∷ []) ≡ true → text ≡ 46 ∷ []
unfolding bytes_eq
bytes_eq-dot [] h = absurd (cc)
bytes_eq-dot (c ∷ []) h = ap (λ (d : ℕ). d ∷ []) (==→≡ c 46 (ground arith))
bytes_eq-dot (c ∷ d ∷ text) h = absurd (ground arith)

-- The path of an entry: that of its directory, a backslash and the name.
pub join_candidate_path_lem :
    (parent name : List ℕ) → join_candidate_path parent name ≡ parent ++ 92 ∷ name
unfolding join_candidate_path
join_candidate_path_lem parent name = elim (Bool-cases (bytes_eq parent (46 ∷ []))) [
  | inl root ↦ rw root (sym (ap (λ p. p ++ 92 ∷ name) (bytes_eq-dot parent root)))
  | inr below ↦ rw below refl
]
