-- ===== src/Validator/Images/Chunks.antt =====
-- `validate_png` against a description of the chunks of a whole PNG.
use mathlib.Core.Path.{subst}
use file_recovery_engine.Prelude.{
  ℕ, zero, suc, ◌+◌, ◌≤◌, ◌≡◌, ◌↔◌, refl, sym, ap, ◌∙◌, arith, Bool, true, false, not, ◌&&◌, ◌⊎◌,
  inl, inr,
}
use file_recovery_engine.Prelude.{ltb, leb, le→leb, if◌then◌else◌, length, Bool-cases}
use file_recovery_engine.Prelude.Outcome.{ok, err, panic, stuck, ◌>>=◌, bind-eq-ok, ok-injective}
use file_recovery_engine.Prelude.Checked.{checked_add}
use file_recovery_engine.Prelude.Bytes.{Bytes, IsSlice, bytes_eq, ascii, starts_with}
use file_recovery_engine.Validator.Types.{ValidationReport, Judged}
use file_recovery_engine.Validator.Fields.{slice, u32_be}
use file_recovery_engine.Validator.Images.{
  Scan, png_sig, png_round, png_chunk, png_loop, png_end, validate_png,
}

-- A chunk at `cursor` with `size` bytes of data that lies within the bytes.
pub record Chunk (bytes : Bytes) (cursor size : ℕ) (is_end : Bool) : Type 0 where
  pub kind : Bytes
  pub sized : u32_be bytes cursor ≡ ok size
  pub typed : slice bytes (cursor + 4) (cursor + 8) ≡ ok kind
  pub inside : cursor + 12 + size ≤ length bytes
  pub named : bytes_eq kind (ascii "IEND") ≡ is_end

-- From `cursor` on, chunk follows chunk up to one of the type IEND.
pub data Chunks (bytes : Bytes) : ℕ → Type 0 where
  last : {cursor size : ℕ} → Chunk bytes cursor size true → Chunks bytes cursor
  next :
      {cursor size : ℕ}
      → Chunk bytes cursor size false
      → Chunks bytes (cursor + 12 + size)
      → Chunks bytes cursor

-- A report is valid and not partial.
abbrev whole_report : ValidationReport → Bool
whole_report r = r.is_valid && not r.partial

abbrev pub whole : Judged ValidationReport → Bool
whole (ok r) = whole_report r
whole _ = false

abbrev whole_scan : Scan → Bool
whole_scan (inl r) = whole_report r
whole_scan (inr saw_iend) = saw_iend

-- What a round has seen that ends the loop well, and one that goes on.
Seen : Bytes → ℕ → Scan ⊎ ℕ → Type 0
Seen bytes cursor (inl scan) = whole_scan scan ≡ true → (size : ℕ) × Chunk bytes cursor size true
Seen bytes cursor (inr further) =
    (size : ℕ) × (further ≡ cursor + 12 + size) × Chunk bytes cursor size false

round_ends :
    (bytes : Bytes) (cursor size : ℕ) (kind : Bytes) (scan : Scan)
    → png_round bytes cursor size kind ≡ inl scan
    → whole_scan scan ≡ true
    → (cursor + 12 + size ≤ length bytes) × (bytes_eq kind (ascii "IEND") ≡ true)
unfolding png_round checked_add
round_ends bytes cursor size kind scan e w = ground arith

round_goes_on :
    (bytes : Bytes) (cursor size : ℕ) (kind : Bytes) (further : ℕ)
    → png_round bytes cursor size kind ≡ inr further
    → (further ≡ cursor + 12 + size)
      × (cursor + 12 + size ≤ length bytes)
      × (bytes_eq kind (ascii "IEND") ≡ false)
unfolding png_round checked_add
round_goes_on bytes cursor size kind further e = ground arith

-- The round behind its two reads.
png_chunk-Seen :
    (bytes : Bytes) (cursor : ℕ) (round : Scan ⊎ ℕ)
    → png_chunk bytes cursor ≡ ok round
    → Seen bytes cursor round
unfolding png_chunk Seen
png_chunk-Seen bytes cursor (inl scan) e = λ w.
    let (size, sized, e1) = bind-eq-ok (u32_be bytes cursor) _ e in
    let (kind, typed, e2) = bind-eq-ok (slice bytes (cursor + 4) (cursor + 8)) _ e1 in
    let (inside, named) = round_ends bytes cursor size kind scan (ok-injective e2) w in
    (size, record { kind = kind; sized = sized; typed = typed; inside = inside; named = named })
png_chunk-Seen bytes cursor (inr further) e =
    let (size, sized, e1) = bind-eq-ok (u32_be bytes cursor) _ e in
    let (kind, typed, e2) = bind-eq-ok (slice bytes (cursor + 4) (cursor + 8)) _ e1 in
    let (same, inside, named) = round_goes_on bytes cursor size kind further (ok-injective e2) in
    (
      size,
      same,
      record { kind = kind; sized = sized; typed = typed; inside = inside; named = named },
    )

round_of :
    (bytes : Bytes) (cursor size : ℕ) (kind : Bytes) (is_end : Bool)
    → IsSlice bytes
    → cursor + 12 + size ≤ length bytes
    → bytes_eq kind (ascii "IEND") ≡ is_end
    → png_round bytes cursor size kind
      ≡ (if is_end then inl (inr true) else inr (cursor + 12 + size))
unfolding png_round checked_add
round_of bytes cursor size kind true small inside named = ground arith
round_of bytes cursor size kind false small inside named = ground arith

-- The round on a chunk that is there.
png_chunk_of :
    (bytes : Bytes) (cursor size : ℕ) (is_end : Bool)
    → IsSlice bytes
    → Chunk bytes cursor size is_end
    → png_chunk bytes cursor ≡ ok (if is_end then inl (inr true) else inr (cursor + 12 + size))
unfolding png_chunk
png_chunk_of bytes cursor size is_end small c =
    rw (c.sized, c.typed) (ap ok (round_of bytes cursor size c.kind is_end small c.inside c.named))

abbrev whole_end : Judged Scan → Bool
whole_end (ok scan) = whole_scan scan
whole_end _ = false

walked :
    (bytes : Bytes) (cursor : ℕ) (m : Judged (Scan ⊎ ℕ)) (f : ℕ → Judged Scan)
    → png_chunk bytes cursor ≡ m
    → whole_end (m >>= λ round. elim round [ inl end ↦ ok end | inr further ↦ f further ]) ≡ true
    → ((further : ℕ) → whole_end (f further) ≡ true → Chunks bytes further)
    → Chunks bytes cursor
unfolding Seen
walked bytes cursor (ok (inl scan)) f e w k =
    let (size, c) = png_chunk-Seen bytes cursor (inl scan) e w in last c
walked bytes cursor (ok (inr further)) f e w k =
    let (size, same, c) = png_chunk-Seen bytes cursor (inr further) e in
    next c (subst (Chunks bytes) same (k further w))
walked bytes cursor (err x) f e w k = absurd (cc)
walked bytes cursor panic f e w k = absurd (cc)
walked bytes cursor stuck f e w k = absurd (cc)

-- A loop that ends well has walked over chunks.
png_loop-Chunks :
    (bytes : Bytes) (fuel cursor : ℕ)
    → whole_end (png_loop bytes fuel cursor) ≡ true
    → Chunks bytes cursor
unfolding png_loop
png_loop-Chunks bytes zero cursor w = absurd (ground arith)
png_loop-Chunks bytes (suc fuel) cursor w = elim (Bool-cases (leb (cursor + 12) (length bytes))) [
  | inr done ↦ absurd (cc (rw (done, png_loop) at w))
  | inl room ↦
      walked bytes cursor (png_chunk bytes cursor) (png_loop bytes fuel) refl
        (rw (room, png_loop) at w) (λ further. png_loop-Chunks bytes fuel further)
]

-- Chunk after chunk, the loop reaches the last one.
png_loop-walks :
    (bytes : Bytes) (fuel cursor : ℕ)
    → IsSlice bytes
    → length bytes ≤ fuel + cursor
    → Chunks bytes cursor
    → png_loop bytes fuel cursor ≡ ok (inr true)
unfolding png_loop
png_loop-walks bytes zero cursor small h (last c) = absurd (let i = c.inside in omega arith)
png_loop-walks bytes zero cursor small h (next c rest) = absurd (let i = c.inside in omega arith)
png_loop-walks bytes (suc fuel) cursor small h (last {size = size} c) =
    let i = c.inside in
    let room : leb (cursor + 12) (length bytes) ≡ true = le→leb _ _ (omega arith) in
    rw (room, png_chunk_of bytes cursor size true small c) refl
png_loop-walks bytes (suc fuel) cursor small h (next {size = size} c rest) =
    let i = c.inside in
    let room : leb (cursor + 12) (length bytes) ≡ true = le→leb _ _ (omega arith) in
    rw (room, png_chunk_of bytes cursor size false small c)
      (png_loop-walks bytes fuel (cursor + 12 + size) small (omega arith) rest)

whole-png_end : (m : Judged Scan) → whole (m >>= λ scan. ok (png_end scan)) ≡ whole_end m
unfolding png_end
whole-png_end (ok (inl r)) = refl
whole-png_end (ok (inr true)) = refl
whole-png_end (ok (inr false)) = refl
whole-png_end (err e) = refl
whole-png_end panic = refl
whole-png_end stuck = refl

Chunks-room : (bytes : Bytes) (cursor : ℕ) → Chunks bytes cursor → cursor + 12 ≤ length bytes
Chunks-room bytes cursor (last c) = let i = c.inside in omega arith
Chunks-room bytes cursor (next c rest) = let i = c.inside in omega arith

accepted :
    (bytes : Bytes)
    → whole (validate_png bytes) ≡ true
    → (starts_with bytes png_sig ≡ true) × Chunks bytes 8
unfolding validate_png
accepted bytes w = elim (Bool-cases (ltb (length bytes) (8 + 12))) [
  | inl short ↦ absurd (cc (rw (short, validate_png) at w))
  | inr long ↦ elim (Bool-cases (starts_with bytes png_sig)) [
    | inr unsigned ↦ absurd (cc (rw (long, unsigned, validate_png) at w))
    | inl signed ↦
        let walks : whole (png_loop bytes (length bytes) 8 >>= λ scan. ok (png_end scan)) ≡ true =
          rw (long, signed, validate_png) at w in
        (signed, png_loop-Chunks bytes (length bytes) 8 (sym (whole-png_end _) ∙ walks))
  ]
]

accepts :
    (bytes : Bytes)
    → IsSlice bytes
    → (starts_with bytes png_sig ≡ true) × Chunks bytes 8
    → whole (validate_png bytes) ≡ true
unfolding validate_png png_end
accepts bytes small (signed, chunks) =
    let room = Chunks-room bytes 8 chunks in
    let long : ltb (length bytes) (8 + 12) ≡ false = ground arith in
    rw (long, signed, png_loop-walks bytes (length bytes) 8 small (omega arith) chunks) refl

-- `validate_png` reports a whole and valid file exactly for the bytes that begin with the PNG
-- signature, on which chunk follows chunk, each inside the bytes, up to one of the type IEND.
pub validate_png_iff :
    (bytes : Bytes)
    → IsSlice bytes
    → (whole (validate_png bytes) ≡ true) ↔ ((starts_with bytes png_sig ≡ true) × Chunks bytes 8)
unfolding validate_png
validate_png_iff bytes small = (accepted bytes, accepts bytes small)
