-- ===== src/Prelude/Outcome.antt =====
-- The outcome of a Rust function that returns `Result<A, E>` and may panic.
use mathlib.Core.Path.{◌≡◌, refl, subst}
use mathlib.Core.Logic.{◌≢◌}
use mathlib.Core.Option.{Option, none, some}
use mathlib.Core.Bool.{Bool, true, false}

-- `panic` is an index or a slice out of range. `stuck` is no Rust outcome: a loop of the model
-- ran out of fuel.
pub data Outcome {ℓ κ} (E : Type ℓ) (A : Type κ) : Type (ℓ ⊔ κ) where
  ok : A → Outcome E A
  err : E → Outcome E A
  panic : Outcome E A
  stuck : Outcome E A

infixl 5 ◌>>=◌ ◌>>◌
abbrev pub ◌>>=◌ {ℓ κ ι} :
    {E : Type ℓ} {A : Type κ} {B : Type ι} → Outcome E A → (A → Outcome E B) → Outcome E B
ok a >>= f = f a
err e >>= f = err e
panic >>= f = panic
stuck >>= f = stuck

abbrev pub ◌>>◌ {ℓ κ} : {E : Type ℓ} {B : Type κ} → Outcome E (Unit {0}) → Outcome E B → Outcome E B
m >> k = m >>= λ _. k

-- `if b { return Err(e) }`.
abbrev pub fail_if {ℓ} : {E : Type ℓ} → Bool → E → Outcome E (Unit {0})
fail_if true e = err e
fail_if false e = ok tt

-- `o.ok_or(e)?`.
abbrev pub ok_or {ℓ κ} : {E : Type ℓ} {A : Type κ} → Option A → E → Outcome E A
ok_or (some a) e = ok a
ok_or none e = err e

-- An index or a slice expression.
abbrev pub or_panic {ℓ κ} : {E : Type ℓ} {A : Type κ} → Option A → Outcome E A
or_panic (some a) = ok a
or_panic none = panic

-- The outcome is one that the Rust function can hand to its caller.
abbrev pub Returns {ℓ κ} : {E : Type ℓ} {A : Type κ} → Outcome E A → Type (ℓ ⊔ κ)
Returns r = (r ≢ panic) × (r ≢ stuck)

pub Returns-bind {ℓ κ ι} :
    {E : Type ℓ} {A : Type κ} {B : Type ι} (m : Outcome E A) (f : A → Outcome E B)
    → Returns m
    → ((a : A) → m ≡ ok a → Returns (f a))
    → Returns (m >>= f)
Returns-bind (ok a) f h k = k a refl
Returns-bind (err e) f h k = (λ p. cc, λ p. cc)
Returns-bind panic f h k = absurd (h.0 refl)
Returns-bind stuck f h k = absurd (h.1 refl)

-- Inversion of a successful bind.
pub bind-eq-ok {ℓ κ ι} :
    {E : Type ℓ} {A : Type κ} {B : Type ι} (m : Outcome E A) (f : A → Outcome E B) {b : B}
    → (m >>= f) ≡ ok b
    → (a : A) × (m ≡ ok a) × (f a ≡ ok b)
bind-eq-ok (ok a) f h = (a, refl, h)
bind-eq-ok (err e) f h = absurd (cc)
bind-eq-ok panic f h = absurd (cc)
bind-eq-ok stuck f h = absurd (cc)

pub ok-injective {ℓ κ} :
    {E : Type ℓ} {A : Type κ} {a b : A} → ◌≡◌ {A = Outcome E A} (ok a) (ok b) → a ≡ b
ok-injective e = cc

-- Inversion of a guard that was passed.
pub fail_if-eq-ok {ℓ κ} :
    {E : Type ℓ} {A : Type κ} (b : Bool) (x : E) (m : Outcome E A) {a : A}
    → (fail_if b x >> m) ≡ ok a
    → (b ≡ false) × (m ≡ ok a)
fail_if-eq-ok true x m e = absurd (cc)
fail_if-eq-ok false x m e = (refl, e)

-- A guard and what follows it.
pub Returns-fail_if {ℓ κ} :
    {E : Type ℓ} {A : Type κ} (b : Bool) (x : E) (m : Outcome E A)
    → (b ≡ false → Returns m)
    → Returns (fail_if b x >> m)
Returns-fail_if true x m h = (λ p. cc, λ p. cc)
Returns-fail_if false x m h = h refl

abbrev Holds {ℓ κ} : {E : Type ℓ} {A : Type κ} → (A → Type 0) → Outcome E A → Type 0
Holds P (ok a) = P a
Holds P (err e) = Unit {0}
Holds P panic = ⊥
Holds P stuck = ⊥

-- The function returns, and a result that it returns satisfies `P`.
pub record Safe {ℓ κ} {E : Type ℓ} {A : Type κ} (P : A → Type 0) (m : Outcome E A) : Type 0 where
  pub holds : Holds P m

module _ {ℓ κ} {E : Type ℓ} {A : Type κ} {P : A → Type 0} where
  pub Safe-ok : {a : A} → P a → Safe {E = E} P (ok a)
  Safe-ok h = record { holds = h }

  pub Safe-err : {e : E} → Safe P (err e)
  Safe-err = record { holds = tt }

  pub Safe-fail_if :
      (b : Bool) (x : E) (m : Outcome E A) → (b ≡ false → Safe P m) → Safe P (fail_if b x >> m)
  Safe-fail_if true x m k = Safe-err
  Safe-fail_if false x m k = k refl

  pub Safe-ok_or : (o : Option A) (x : E) → ((a : A) → o ≡ some a → P a) → Safe P (ok_or o x)
  Safe-ok_or none x k = Safe-err
  Safe-ok_or (some a) x k = Safe-ok (k a refl)

  pub Safe-Returns : (m : Outcome E A) → Safe P m → Returns m
  Safe-Returns (ok a) h = (λ p. cc, λ p. cc)
  Safe-Returns (err e) h = (λ p. cc, λ p. cc)
  Safe-Returns panic h = absurd h.holds
  Safe-Returns stuck h = absurd h.holds

  pub Safe-ensures : (m : Outcome E A) {a : A} → Safe P m → m ≡ ok a → P a
  Safe-ensures (ok b) h e = subst P (ok-injective e) h.holds
  Safe-ensures (err x) h e = absurd (cc)
  Safe-ensures panic h e = absurd h.holds
  Safe-ensures stuck h e = absurd h.holds

  -- An outcome that is known to be a value.
  pub Safe-value : (m : Outcome E A) {a : A} → m ≡ ok a → P a → Safe P m
  Safe-value m e h = rw e (Safe-ok h)

  pub Safe-of : (m : Outcome E A) → Returns m → ((a : A) → m ≡ ok a → P a) → Safe P m
  Safe-of (ok a) r k = Safe-ok (k a refl)
  Safe-of (err e) r k = Safe-err
  Safe-of panic r k = absurd (r.0 refl)
  Safe-of stuck r k = absurd (r.1 refl)

  pub Safe-bind {ι} :
      {B : Type ι} {Q : B → Type 0} (m : Outcome E A) (f : A → Outcome E B)
      → Safe P m
      → ((a : A) → m ≡ ok a → P a → Safe Q (f a))
      → Safe Q (m >>= f)
  Safe-bind (ok a) f h k = k a refl h.holds
  Safe-bind (err e) f h k = record { holds = tt }
  Safe-bind panic f h k = absurd h.holds
  Safe-bind stuck f h k = absurd h.holds

  pub Safe-weaken : {Q : A → Type 0} (m : Outcome E A) → Safe P m → ((a : A) → P a → Q a) → Safe Q m
  Safe-weaken (ok a) h k = record { holds = k a h.holds }
  Safe-weaken (err e) h k = record { holds = tt }
  Safe-weaken panic h k = absurd h.holds
  Safe-weaken stuck h k = absurd h.holds
