-- ===== src/Hfs/Scan/Kept.antt =====
-- The candidates that are kept: where they stem from, and that their keys differ.
use file_recovery_engine.Prelude.{
  ℕ, ◌+◌, ◌≤◌, ◌≡◌, ◌≢◌, refl, ap, arith, true, false, Option, none, some, List, [], ◌∷◌, ◌++◌, All,
  length, length-append, ◌⊎◌, if◌then◌else◌, inl, inr, Bool-cases, ==-refl,
}
use mathlib.Core.Path.{subst, ap₂}
use file_recovery_engine.Validator.Text.{to_ascii_lowercase, between}
use file_recovery_engine.Prelude.Outcome.{ok}
use file_recovery_engine.Prelude.Bytes.{Bytes, get_range, bytes_eq}
use file_recovery_engine.Hfs.Types.{HfsDeletedCandidate}
use file_recovery_engine.Hfs.Tombstone.{parse_tombstone_record}
use file_recovery_engine.Hfs.Tombstone.Total.{IsCandidate}
use file_recovery_engine.Hfs.Scan.{
  hfs_tombstone_marker, Key, dedupe_key, same_key, was_seen, ScanState, keep_candidate,
}

-- A record of the image that starts with the marker and gives the candidate: its number, its size
-- and its flags are those of the record.
pub record IsTombstone (image : Bytes) (c : HfsDeletedCandidate) : Type 0 where
  pub offset : ℕ
  pub bytes : Bytes
  pub marked :
      (marker : Bytes) × (get_range image offset (offset + 8) ≡ some marker)
      × (bytes_eq marker hfs_tombstone_marker ≡ true)
  pub held : get_range image offset (offset + 312) ≡ some bytes
  pub parsed : parse_tombstone_record bytes ≡ ok (some c)
  pub candidate : IsCandidate bytes c

abbrev keys : List HfsDeletedCandidate → List Key
keys [] = []
keys (c ∷ out) = dedupe_key c ∷ keys out

abbrev pub Distinct : List Key → Type 0
Distinct [] = Unit {0}
Distinct (k ∷ seen) = All (λ other. k ≢ other) seen × Distinct seen

-- The same letter, or the upper and the lower case of an ASCII letter.
abbrev pub SameLetter : ℕ → ℕ → Type 0
SameLetter a b =
    (a ≡ b) ⊎ ((65 ≤ a) × (a ≤ 90) × (b ≡ a + 32)) ⊎ ((65 ≤ b) × (b ≤ 90) × (a ≡ b + 32))

abbrev pub SamePath : List ℕ → List ℕ → Type 0
SamePath [] [] = Unit {0}
SamePath [] (d ∷ other) = ⊥
SamePath (c ∷ path) [] = ⊥
SamePath (c ∷ path) (d ∷ other) = SameLetter c d × SamePath path other

-- No candidate has both the number and, up to the case of ASCII letters, the path of a later one.
abbrev pub Different : List HfsDeletedCandidate → Type 0
Different [] = Unit {0}
Different (c ∷ out) = All (λ d. ¬ ((c.cnid ≡ d.cnid) × SamePath c.path d.path)) out × Different out

pub record Recovered (image : Bytes) (max_entries : ℕ) (out : List HfsDeletedCandidate)
    : Type 0 where
  pub count : length out ≤ max_entries
  pub stem : All (λ c. IsTombstone image c) out
  pub distinct : Different out

pub record Kept (image : Bytes) (s : ScanState) : Type 0 where
  pub stem : All (λ c. IsTombstone image c) s.out
  pub same : s.seen ≡ keys s.out
  pub distinct : Distinct s.seen

All-snoc {ℓ κ} :
    {A : Type ℓ} (P : A → Type κ) (xs : List A) (x : A) → All P xs → P x → All P (xs ++ x ∷ [])
All-snoc P [] x h k = (k, tt)
All-snoc P (y ∷ xs) x h k = (h.0, All-snoc P xs x h.1 k)

lower_letter :
    (a b : ℕ)
    → SameLetter a b
    → (if between 65 90 a then a + 32 else a) ≡ (if between 65 90 b then b + 32 else b)
lower_letter a b (inl same) = rw same refl
lower_letter a b (inr (inl (low, high, same))) = ground arith
lower_letter a b (inr (inr (low, high, same))) = ground arith

lower_path :
    (path other : List ℕ) → SamePath path other → to_ascii_lowercase path ≡ to_ascii_lowercase other
lower_path [] [] h = refl
lower_path [] (d ∷ other) h = absurd h
lower_path (c ∷ path) [] h = absurd h
lower_path (c ∷ path) (d ∷ other) h =
    ap₂ (λ x xs. x ∷ xs) (lower_letter c d h.0) (lower_path path other h.1)

apart :
    (c : HfsDeletedCandidate) (out : List HfsDeletedCandidate)
    → All (λ key. dedupe_key c ≢ key) (keys out)
    → All (λ d. ¬ ((c.cnid ≡ d.cnid) × SamePath c.path d.path)) out
apart c [] h = tt
apart c (d ∷ out) h = (
  λ (number, path). h.0 (ap₂ (λ n p. (n, p)) number (lower_path c.path d.path path)),
  apart c out h.1,
)

pub Distinct-Different : (out : List HfsDeletedCandidate) → Distinct (keys out) → Different out
Distinct-Different [] h = tt
Distinct-Different (c ∷ out) h = (apart c out h.0, Distinct-Different out h.1)

keys-snoc :
    (out : List HfsDeletedCandidate) (c : HfsDeletedCandidate)
    → keys (out ++ c ∷ []) ≡ keys out ++ dedupe_key c ∷ []
keys-snoc [] c = refl
keys-snoc (d ∷ out) c = ap (◌∷◌ (dedupe_key d)) (keys-snoc out c)

bytes_eq_refl : (bs : Bytes) → bytes_eq bs bs ≡ true
unfolding bytes_eq
bytes_eq_refl [] = refl
bytes_eq_refl (b ∷ bs) = rw (==-refl b, bytes_eq_refl bs) refl

same_key_refl : (k : Key) → same_key k k ≡ true
same_key_refl k = rw (==-refl k.0, bytes_eq_refl k.1) refl

differ : (a b : Key) → same_key a b ≡ false → a ≢ b
differ a b h e = absurd (cc (subst (λ k. same_key a k ≡ true) e (same_key_refl a), h))

Distinct-snoc :
    (seen : List Key) (key : Key)
    → was_seen seen key ≡ false
    → Distinct seen
    → Distinct (seen ++ key ∷ [])
unfolding was_seen
Distinct-snoc [] key h d = (tt, tt)
Distinct-snoc (k ∷ seen) key h d = elim (Bool-cases (same_key k key)) [
  | inl same ↦ absurd (cc (rw same at h))
  | inr other ↦ (
    All-snoc (λ x. k ≢ x) seen key d.0 (differ k key other),
    Distinct-snoc seen key (rw other at h) d.1,
  )
]

pub keep_candidate-Kept :
    (image : Bytes) (found : Option HfsDeletedCandidate) (s : ScanState)
    → ((c : HfsDeletedCandidate) → found ≡ some c → IsTombstone image c)
    → Kept image s
    → Kept image (keep_candidate found s)
unfolding keep_candidate
keep_candidate-Kept image none s t kept = kept
keep_candidate-Kept image (some c) s t kept = elim (Bool-cases (was_seen s.seen (dedupe_key c))) [
  | inl old ↦ rw old kept
  | inr new ↦ rw new (record {
    stem = All-snoc _ s.out c kept.stem (t c refl);
    same = rw (keys-snoc s.out c, kept.same) refl;
    distinct = Distinct-snoc s.seen (dedupe_key c) new kept.distinct;
  })
]

pub keep_candidate-length :
    (found : Option HfsDeletedCandidate) (s : ScanState)
    → length (keep_candidate found s).out ≤ 1 + length s.out
unfolding keep_candidate
keep_candidate-length none s = omega arith
keep_candidate-length (some c) s = elim (Bool-cases (was_seen s.seen (dedupe_key c))) [
  | inl old ↦ rw old (omega arith)
  | inr new ↦ rw new (omega (arith, length-append s.out (c ∷ [])))
]
