-- ===== src/Validator/Text/Extension.antt =====
-- The normal form of an extension: what is taken off it, and the case of its letters.
use file_recovery_engine.Prelude.{
  ℕ, ◌+◌, ◌≤◌, ◌≡◌, ◌⊎◌, ◌↔◌, refl, sym, ap, ◌∙◌, arith, inl, inr, Bool, true, false, ◌&&◌, ◌||◌,
  List, [], ◌∷◌, ◌++◌, All,
}
use mathlib.Core.Path.{ap₂, subst}
use mathlib.Core.List.{append_assoc}
use file_recovery_engine.Prelude.{◌==◌, if◌then◌else◌, Bool-cases, ==→≡}
use file_recovery_engine.Validator.Text.{
  between, is_whitespace, trim_start, trim_end, to_ascii_lowercase, normalize_extension,
}

-- Letters and digits in lower case, one at least.
abbrev pub is_lower : ℕ → Bool
is_lower ch = between 97 122 ch || between 48 57 ch

abbrev pub all_lower : List ℕ → Bool
all_lower [] = true
all_lower (ch ∷ text) = is_lower ch && all_lower text

abbrev pub is_plain : List ℕ → Bool
is_plain [] = false
is_plain (ch ∷ text) = is_lower ch && all_lower text

-- A letter and the same letter in lower case.
abbrev pub LowersTo : ℕ → ℕ → Type 0
LowersTo a b = (a ≡ b) ⊎ ((65 ≤ a) × (a ≤ 90) × (b ≡ a + 32))

abbrev pub LowerTo : List ℕ → List ℕ → Type 0
LowerTo [] [] = Unit {0}
LowerTo [] (e ∷ extension) = ⊥
LowerTo (c ∷ core) [] = ⊥
LowerTo (c ∷ core) (e ∷ extension) = LowersTo c e × LowerTo core extension

-- The text is the extension in any case, with dots in front of it and white space around both.
pub record IsSpelling (text extension : List ℕ) : Type 0 where
  pub lead : List ℕ
  pub dots : List ℕ
  pub core : List ℕ
  pub trail : List ℕ
  pub split : text ≡ (lead ++ (dots ++ core)) ++ trail
  pub lead_blank : All (λ ch. is_whitespace ch ≡ true) lead
  pub all_dots : All (λ ch. ch ≡ 46) dots
  pub trail_blank : All (λ ch. is_whitespace ch ≡ true) trail
  pub letters : LowerTo core extension

module _ (skip : ℕ → Bool) where
  -- What a trim takes off.
  trim_start-split :
      (text : List ℕ)
      → (taken : List ℕ) × (text ≡ taken ++ trim_start skip text) × All (λ ch. skip ch ≡ true) taken
  unfolding trim_start
  trim_start-split [] = ([], refl, tt)
  trim_start-split (ch ∷ text) = elim (Bool-cases (skip ch)) [
    | inl skipped ↦
        let (taken, e, all) = trim_start-split text in
        (ch ∷ taken, rw skipped (ap (λ t. ch ∷ t) e), (skipped, all))
    | inr kept ↦ ([], rw kept refl, tt)
  ]

  trim_start-lead :
      (taken text : List ℕ)
      → All (λ ch. skip ch ≡ true) taken
      → trim_start skip (taken ++ text) ≡ trim_start skip text
  unfolding trim_start
  trim_start-lead [] text h = refl
  trim_start-lead (ch ∷ taken) text h = rw h.0 (trim_start-lead taken text h.1)

  trim_start-stop :
      (ch : ℕ) (text : List ℕ) → skip ch ≡ false → trim_start skip (ch ∷ text) ≡ ch ∷ text
  unfolding trim_start
  trim_start-stop ch text h = rw h refl

  -- The last step of a trim at the end, on what the rest of the text leaves.
  abbrev end_step : ℕ → List ℕ → List ℕ
  end_step ch [] = if skip ch then [] else ch ∷ []
  end_step ch (c ∷ rest) = ch ∷ c ∷ rest

  trim_end-step :
      (ch : ℕ) (text : List ℕ) → trim_end skip (ch ∷ text) ≡ end_step ch (trim_end skip text)
  unfolding trim_end
  trim_end-step ch text = refl

  abbrev Taken : List ℕ → List ℕ → Type 0
  Taken text kept = (taken : List ℕ) × (text ≡ kept ++ taken) × All (λ ch. skip ch ≡ true) taken

  end_step-Taken :
      (ch : ℕ) (text kept : List ℕ) → Taken text kept → Taken (ch ∷ text) (end_step ch kept)
  end_step-Taken ch text (c ∷ rest) (taken, e, all) = (taken, ap (λ t. ch ∷ t) e, all)
  end_step-Taken ch text [] (taken, e, all) = elim (Bool-cases (skip ch)) [
    | inl skipped ↦ rw skipped (ch ∷ taken, ap (λ t. ch ∷ t) e, (skipped, all))
    | inr kept ↦ rw kept (taken, ap (λ t. ch ∷ t) e, all)
  ]

  trim_end-Taken : (text : List ℕ) → Taken text (trim_end skip text)
  unfolding trim_end
  trim_end-Taken [] = ([], refl, tt)
  trim_end-Taken (ch ∷ text) =
      subst (Taken (ch ∷ text)) (sym (trim_end-step ch text))
        (end_step-Taken ch text (trim_end skip text) (trim_end-Taken text))

  trim_end-blank : (taken : List ℕ) → All (λ ch. skip ch ≡ true) taken → trim_end skip taken ≡ []
  unfolding trim_end
  trim_end-blank [] h = refl
  trim_end-blank (ch ∷ taken) h =
      trim_end-step ch taken ∙ ap (end_step ch) (trim_end-blank taken h.1) ∙ rw h.0 refl

  -- A text whose last characters stay, behind any others and in front of those that go.
  trim_end-last :
      (text : List ℕ) (ch : ℕ) (core taken : List ℕ)
      → skip ch ≡ false
      → All (λ c. skip c ≡ false) core
      → All (λ c. skip c ≡ true) taken
      → trim_end skip ((text ++ ch ∷ core) ++ taken) ≡ text ++ ch ∷ core
  trim_end-last [] ch [] taken h k all =
      trim_end-step ch taken ∙ ap (end_step ch) (trim_end-blank taken all) ∙ rw h refl
  trim_end-last [] ch (c ∷ core) taken h k all =
      trim_end-step ch _ ∙ ap (end_step ch) (trim_end-last [] c core taken k.0 k.1 all)
  trim_end-last (x ∷ []) ch core taken h k all =
      trim_end-step x _ ∙ ap (end_step x) (trim_end-last [] ch core taken h k all)
  trim_end-last (x ∷ y ∷ text) ch core taken h k all =
      trim_end-step x _ ∙ ap (end_step x) (trim_end-last (y ∷ text) ch core taken h k all)

-- A letter of the extension, in any case, is neither white space nor a dot.
letter_kept :
    (c e : ℕ) → LowersTo c e → is_lower e ≡ true → (is_whitespace c ≡ false) × ((c == 46) ≡ false)
letter_kept c e (inl same) h = (ground arith, ground arith)
letter_kept c e (inr (low, high, same)) h = (ground arith, ground arith)

letter_lowered :
    (c e : ℕ) → LowersTo c e → is_lower e ≡ true → (if between 65 90 c then c + 32 else c) ≡ e
letter_lowered c e (inl same) h = ground arith
letter_lowered c e (inr (low, high, same)) h = ground arith

lowered :
    (core extension : List ℕ)
    → LowerTo core extension
    → all_lower extension ≡ true
    → (to_ascii_lowercase core ≡ extension) × All (λ c. is_whitespace c ≡ false) core
lowered [] [] h k = (refl, tt)
lowered [] (e ∷ extension) h k = absurd h
lowered (c ∷ core) [] h k = absurd h
lowered (c ∷ core) (e ∷ extension) h k =
    let (rest, kept) = lowered core extension h.1 (ground arith) in
    let lower : is_lower e ≡ true = ground arith in
    (
      ap₂ (λ x xs. x ∷ xs) (letter_lowered c e h.0 lower) rest,
      ((letter_kept c e h.0 lower).0, kept),
    )

lowercase-LowerTo : (core : List ℕ) → LowerTo core (to_ascii_lowercase core)
lowercase-LowerTo [] = tt
lowercase-LowerTo (c ∷ core) = elim (Bool-cases (between 65 90 c)) [
  | inl upper ↦ rw upper (inr (ground arith, ground arith, refl), lowercase-LowerTo core)
  | inr other ↦ rw other (inl refl, lowercase-LowerTo core)
]

dots_same : (dots : List ℕ) → All (λ ch. (ch == 46) ≡ true) dots → All (λ ch. ch ≡ 46) dots
dots_same [] h = tt
dots_same (ch ∷ dots) h = (==→≡ ch 46 h.0, dots_same dots h.1)

dots_found : (dots : List ℕ) → All (λ ch. ch ≡ 46) dots → All (λ ch. (ch == 46) ≡ true) dots
dots_found [] h = tt
dots_found (ch ∷ dots) h = (rw h.0 refl, dots_found dots h.1)

-- No white space is in front of the dots, nor of the letters.
dots_front :
    (dots : List ℕ) (c : ℕ) (core : List ℕ)
    → All (λ ch. ch ≡ 46) dots
    → is_whitespace c ≡ false
    → trim_start (λ ch. is_whitespace ch) (dots ++ c ∷ core) ≡ dots ++ c ∷ core
dots_front [] c core h k = trim_start-stop (λ ch. is_whitespace ch) c core k
dots_front (d ∷ dots) c core h k =
    trim_start-stop (λ ch. is_whitespace ch) d (dots ++ c ∷ core) (rw h.0 refl)

normalize-IsSpelling :
    (text extension : List ℕ) → normalize_extension text ≡ extension → IsSpelling text extension
unfolding normalize_extension
normalize-IsSpelling text extension e =
    let (trail, at_end, blank) = trim_end-Taken (λ ch. is_whitespace ch) text in
    let inner = trim_end (λ ch. is_whitespace ch) text in
    let (lead, at_start, blank') = trim_start-split (λ ch. is_whitespace ch) inner in
    let behind = trim_start (λ ch. is_whitespace ch) inner in
    let (dots, at_dots, all) = trim_start-split (λ ch. ch == 46) behind in
    let core = trim_start (λ ch. ch == 46) behind in
    record {
      lead = lead;
      dots = dots;
      core = core;
      trail = trail;
      split = at_end ∙ ap (λ t. t ++ trail) (at_start ∙ ap (λ t. lead ++ t) at_dots);
      lead_blank = blank';
      all_dots = dots_same dots all;
      trail_blank = blank;
      letters = subst (LowerTo core) e (lowercase-LowerTo core);
    }

-- The trims on the parts of a spelling.
trimmed_core :
    (lead dots : List ℕ) (c : ℕ) (core trail : List ℕ)
    → All (λ ch. is_whitespace ch ≡ true) lead
    → All (λ ch. ch ≡ 46) dots
    → All (λ ch. is_whitespace ch ≡ true) trail
    → All (λ ch. is_whitespace ch ≡ false) (c ∷ core)
    → (c == 46) ≡ false
    → normalize_extension ((lead ++ (dots ++ c ∷ core)) ++ trail) ≡ to_ascii_lowercase (c ∷ core)
unfolding normalize_extension
trimmed_core lead dots c core trail blank all blank' kept no_dot =
    let inner : trim_end (λ ch. is_whitespace ch) ((lead ++ (dots ++ c ∷ core)) ++ trail)
        ≡ lead ++ (dots ++ c ∷ core) =
      subst (λ t. trim_end (λ ch. is_whitespace ch) (t ++ trail) ≡ t)
        (append_assoc lead dots (c ∷ core))
        (trim_end-last (λ ch. is_whitespace ch) (lead ++ dots) c core trail kept.0 kept.1 blank') in
    ap
      (λ t.
        to_ascii_lowercase (trim_start (λ ch. ch == 46) (trim_start (λ ch. is_whitespace ch) t)))
      inner
    ∙ ap (λ t. to_ascii_lowercase (trim_start (λ ch. ch == 46) t))
        (trim_start-lead (λ ch. is_whitespace ch) lead (dots ++ c ∷ core) blank
          ∙ dots_front dots c core all kept.0)
    ∙ ap to_ascii_lowercase (
        trim_start-lead (λ ch. ch == 46) dots (c ∷ core) (dots_found dots all)
        ∙ trim_start-stop (λ ch. ch == 46) c core no_dot)

spelled :
    (lead dots core trail extension : List ℕ)
    → is_plain extension ≡ true
    → All (λ ch. is_whitespace ch ≡ true) lead
    → All (λ ch. ch ≡ 46) dots
    → All (λ ch. is_whitespace ch ≡ true) trail
    → LowerTo core extension
    → normalize_extension ((lead ++ (dots ++ core)) ++ trail) ≡ extension
spelled lead dots [] trail [] h blank all blank' letters = absurd (cc)
spelled lead dots [] trail (e ∷ extension) h blank all blank' letters = absurd letters
spelled lead dots (c ∷ core) trail [] h blank all blank' letters = absurd letters
spelled lead dots (c ∷ core) trail (e ∷ extension) h blank all blank' letters =
    let (lower, kept) = lowered (c ∷ core) (e ∷ extension) letters h in
    trimmed_core lead dots c core trail blank all blank' kept
      (letter_kept c e letters.0 (ground arith)).1
    ∙ lower

-- For an extension of lower case letters and digits, the normal form of a text is the extension
-- exactly if the text spells it.
pub normalize_extension_iff :
    (text extension : List ℕ)
    → is_plain extension ≡ true
    → (normalize_extension text ≡ extension) ↔ IsSpelling text extension
normalize_extension_iff text extension plain = (
  normalize-IsSpelling text extension,
  λ s.
      ap normalize_extension s.split
      ∙ spelled s.lead s.dots s.core s.trail extension plain s.lead_blank s.all_dots s.trail_blank
          s.letters,
)
