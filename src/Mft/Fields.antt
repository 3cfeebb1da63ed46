-- ===== src/Mft/Fields.antt =====
-- The field readers of `fr-mft`. A read out of range is a panic.
use file_recovery_engine.Prelude.{ℕ, ◌+◌, ◌≤◌, ◌≡◌, arith, length}
use file_recovery_engine.Prelude.Outcome.{Outcome, ok, or_panic, ◌>>=◌}
use file_recovery_engine.Prelude.Bytes.{Bytes, get_range, from_le, get_range_total}
use file_recovery_engine.Mft.Types.{MftParseError}

abbrev pub Parsed {ℓ} : Type ℓ → Type ℓ
Parsed A = Outcome MftParseError A

unfoldable pub read_u16 : Bytes → ℕ → Parsed ℕ
read_u16 bytes offset = do buf ← or_panic (get_range bytes offset (offset + 2)); ok (from_le buf)

unfoldable pub read_u32 : Bytes → ℕ → Parsed ℕ
read_u32 bytes offset = do buf ← or_panic (get_range bytes offset (offset + 4)); ok (from_le buf)

unfoldable pub read_u64 : Bytes → ℕ → Parsed ℕ
read_u64 bytes offset = do buf ← or_panic (get_range bytes offset (offset + 8)); ok (from_le buf)

-- A read within the bytes returns.
pub read_u16_total :
    (bytes : Bytes) (offset : ℕ)
    → offset + 2 ≤ length bytes
    → (v : ℕ) × (read_u16 bytes offset ≡ ok v)
unfolding read_u16
read_u16_total bytes offset h =
    let (buf, found, _) = get_range_total bytes offset (offset + 2) (omega arith) h in
    (from_le buf, rw found)

pub read_u32_total :
    (bytes : Bytes) (offset : ℕ)
    → offset + 4 ≤ length bytes
    → (v : ℕ) × (read_u32 bytes offset ≡ ok v)
unfolding read_u32
read_u32_total bytes offset h =
    let (buf, found, _) = get_range_total bytes offset (offset + 4) (omega arith) h in
    (from_le buf, rw found)

pub read_u64_total :
    (bytes : Bytes) (offset : ℕ)
    → offset + 8 ≤ length bytes
    → (v : ℕ) × (read_u64 bytes offset ≡ ok v)
unfolding read_u64
read_u64_total bytes offset h =
    let (buf, found, _) = get_range_total bytes offset (offset + 8) (omega arith) h in
    (from_le buf, rw found)
