-- ===== src/Prelude/Readers.antt =====
-- Little-endian reads at an offset. A read out of range is a panic.
use file_recovery_engine.Prelude.{ℕ, ◌+◌, ◌-◌, ◌≤◌, ◌<◌, ◌≡◌, ap, arith}
use file_recovery_engine.Prelude.{length, get_elem?, get_elem?-some}
use file_recovery_engine.Prelude.Outcome.{Outcome, ok, or_panic, Safe, Safe-value, ◌>>=◌}
use file_recovery_engine.Prelude.Bytes.{Bytes, get_range, from_le, get_range_total}

unfoldable pub read_le {ℓ} : {E : Type ℓ} → ℕ → Bytes → ℕ → Outcome E ℕ
read_le width bytes offset = do
  buf ← or_panic (get_range bytes offset (offset + width))
  ok (from_le buf)

-- `bytes[offset]`.
unfoldable pub byte_at {ℓ} : {E : Type ℓ} → Bytes → ℕ → Outcome E ℕ
byte_at bytes offset = or_panic (get_elem? bytes offset)

module _ {ℓ} {E : Type ℓ} where
  pub read_le_total :
      (width : ℕ) (bytes : Bytes) (offset : ℕ)
      → offset + width ≤ length bytes
      → (v : ℕ) × (read_le {E = E} width bytes offset ≡ ok v)
  unfolding read_le
  read_le_total width bytes offset h =
      let (buf, found, _) = get_range_total bytes offset (offset + width) (omega arith) h in
      (from_le buf, rw found)

  pub byte_at_total :
      (bytes : Bytes) (offset : ℕ)
      → offset < length bytes
      → (v : ℕ) × (byte_at {E = E} bytes offset ≡ ok v)
  unfolding byte_at
  byte_at_total bytes offset h = let (v, found) = get_elem?-some bytes offset h in (v, rw found)

-- Reads in range are safe; what they read is any number.
module _ {ℓ} {E : Type ℓ} where
  pub read_le-Safe :
      (width : ℕ) (bytes : Bytes) (offset : ℕ)
      → offset + width ≤ length bytes
      → Safe (λ v. Unit {0}) (read_le {E = E} width bytes offset)
  read_le-Safe width bytes offset h =
      let (v, e) = read_le_total width bytes offset h in Safe-value _ e tt

  pub byte_at-Safe :
      (bytes : Bytes) (offset : ℕ)
      → offset < length bytes
      → Safe (λ v. Unit {0}) (byte_at {E = E} bytes offset)
  byte_at-Safe bytes offset h = let (v, e) = byte_at_total bytes offset h in Safe-value _ e tt

  pub range-Safe :
      (bytes : Bytes) (start stop : ℕ)
      → start ≤ stop
      → stop ≤ length bytes
      → Safe (λ bs. length bs ≡ stop - start) (or_panic {E = E} (get_range bytes start stop))
  range-Safe bytes start stop h k =
      let (bs, e, size) = get_range_total bytes start stop h k in Safe-value _ (ap or_panic e) size
