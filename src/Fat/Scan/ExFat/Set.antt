-- ===== src/Fat/Scan/ExFat/Set.antt =====
-- The secondary entries of a set: they are read without a panic, and the last stream entry counts.
use file_recovery_engine.Prelude.{
  ℕ, zero, suc, ◌+◌, ◌*◌, ◌≤◌, ◌≡◌, ◌⊎◌, refl, ap, ◌∙◌, arith, true, false, ◌||◌, inl, inr,
}
use mathlib.Core.Path.{subst}
use file_recovery_engine.Prelude.{ltb, ◌==◌, length, Bool-cases, ==→≡}
use file_recovery_engine.Prelude.Outcome.{
  ok, Safe, Safe-ok, Safe-bind, Safe-weaken, Safe-ok_or, Safe-fail_if,
}
use file_recovery_engine.Prelude.Checked.{checked_add, checked_add-some}
use file_recovery_engine.Prelude.Bytes.{Bytes, get_range_total}
use file_recovery_engine.Prelude.Readers.{read_le-Safe, byte_at, byte_at-Safe}
use file_recovery_engine.Fat.Types.{ScanError}
use file_recovery_engine.Fat.Scan.ExFat.{EntrySet, name_loop, read_secondary, secondary_loop}
use file_recovery_engine.Fat.Scan.ExFat.Reached.{
  IsStream, IsNoStream, Secondary, NoStreams, LastStream,
}

name_loop-Safe :
    (left : ℕ) (secondary : Bytes) (offset : ℕ)
    → offset + left * 2 ≤ length secondary
    → Safe (λ _. Unit {0}) (name_loop left secondary offset)
unfolding name_loop
name_loop-Safe zero secondary offset h = Safe-ok tt
name_loop-Safe (suc left) secondary offset h =
    Safe-bind _ _ (read_le-Safe 2 secondary offset (omega arith)) λ code _ _.
      elim (Bool-cases (code == 0x0000)) [
        | inl last ↦ rw last (Safe-ok tt)
        | inr more ↦ rw more (
            Safe-bind _ _ (name_loop-Safe left secondary (offset + 2) (omega arith))
              λ rest _ _. Safe-ok tt)
      ]

-- An entry that leaves what the stream entries said.
pub record Unchanged (s after : EntrySet) : Type 0 where
  pub seen : after.stream_entry_seen ≡ s.stream_entry_seen
  pub start : after.start_cluster ≡ s.start_cluster
  pub size : after.data_length ≡ s.data_length

-- What one entry says.
abbrev Read : Bytes → EntrySet → EntrySet → Type 0
Read secondary s after =
    IsStream secondary after.start_cluster after.data_length
    ⊎ (IsNoStream secondary × Unchanged s after)

stream_mark :
    (secondary : Bytes) (mark : ℕ)
    → byte_at {E = ScanError} secondary 0 ≡ ok mark
    → (mark == 0x40 || mark == 0xC0) ≡ true
    → (byte_at {E = ScanError} secondary 0 ≡ ok 0x40)
      ⊎ (byte_at {E = ScanError} secondary 0 ≡ ok 0xC0)
stream_mark secondary mark e h = elim (Bool-cases (mark == 0x40)) [
  | inl first ↦ inl (e ∙ ap ok (==→≡ mark 0x40 first))
  | inr other ↦ inr (e ∙ ap ok (==→≡ mark 0xC0 (ground arith)))
]

no_stream :
    (secondary : Bytes) (mark : ℕ)
    → byte_at {E = ScanError} secondary 0 ≡ ok mark
    → (mark == 0x40 || mark == 0xC0) ≡ false
    → IsNoStream secondary
no_stream secondary mark e h = record {
  mark = mark;
  at_mark = e;
  not_used = λ q. ground arith;
  used = λ q. ground arith;
}

read_secondary-Safe :
    (secondary : Bytes) (s : EntrySet)
    → length secondary ≡ 32
    → Safe (Read secondary s) (read_secondary secondary s)
unfolding read_secondary
read_secondary-Safe secondary s h =
    Safe-bind _ _ (byte_at-Safe secondary 0 (omega arith)) λ mark at_mark _.
      elim (Bool-cases (mark == 0x40 || mark == 0xC0)) [
        | inl stream ↦ rw stream (
            Safe-bind _ _ (byte_at-Safe secondary 3 (omega arith)) λ size _ _.
              Safe-bind _ _ (read_le-Safe 4 secondary 20 (omega arith)) λ start at_start _.
                Safe-bind _ _ (read_le-Safe 8 secondary 24 (omega arith)) λ long at_size _.
                  Safe-ok (
                    inl (record {
                      marked = stream_mark secondary mark at_mark stream;
                      at_start = at_start;
                      at_size = at_size;
                    })))
        | inr other ↦
            let none_here : IsNoStream secondary = no_stream secondary mark at_mark other in
            elim (Bool-cases (mark == 0x41 || mark == 0xC1)) [
              | inl name ↦
                  rw (other, name)
                    (Safe-bind _ _ (name_loop-Safe 15 secondary 2 (omega arith)) λ units _ _.
                      Safe-ok (inr (none_here, record { seen = refl; start = refl; size = refl })))
              | inr unknown ↦
                  rw (other, unknown)
                    (Safe-ok (inr (none_here, record { seen = refl; start = refl; size = refl })))
            ]
      ]

module _ (bytes : Bytes) (offset : ℕ) where
  -- What so many entries from an index on say.
  abbrev pub Told : ℕ → ℕ → EntrySet → EntrySet → Type 0
  Told left index s found =
      (NoStreams bytes offset index left × Unchanged s found)
      ⊎ LastStream bytes offset (index + left) found.start_cluster found.data_length

  Told-cons :
      (left index : ℕ) (secondary : Bytes) (s after found : EntrySet)
      → Secondary bytes offset index secondary
      → Read secondary s after
      → Told left (index + 1) after found
      → Told (suc left) index s found
  Told-cons left index secondary s after found slot read (inr later) = inr (record {
    index = later.index;
    later = later.later;
    counted = later.counted ∙ omega arith;
    secondary = later.secondary;
    slot = later.slot;
    stream = later.stream;
    last = later.last;
  })
  Told-cons left index secondary s after found slot (inl stream) (inl (none_left, kept)) =
      inr (record {
        index = index;
        later = left;
        counted = omega arith;
        secondary = secondary;
        slot = slot;
        stream = rw (kept.start, kept.size) stream;
        last = none_left;
      })
  Told-cons left index secondary s after found slot (inr (none_here, before))
        (inl (none_left, kept)) =
      inl (
        ((secondary, slot, none_here), none_left),
        record {
          seen = kept.seen ∙ before.seen;
          start = kept.start ∙ before.start;
          size = kept.size ∙ before.size;
        },
      )

  pub secondary_loop-Safe :
      (left index : ℕ) (s : EntrySet)
      → Safe (Told left index s) (secondary_loop left index bytes offset s)
  unfolding secondary_loop
  secondary_loop-Safe zero index s =
      Safe-ok (inl (tt, record { seen = refl; start = refl; size = refl }))
  secondary_loop-Safe (suc left) index s =
      Safe-bind _ _
        (Safe-ok_or {P = λ start. start ≡ offset + (index + 1) * 32}
          (checked_add offset ((index + 1) * 32)) _
          λ start e. (checked_add-some offset ((index + 1) * 32) e).0)
        λ start _ same. Safe-fail_if (ltb (length bytes) (start + 32)) _ _ λ inside.
          let (secondary, slot, size) =
            get_range_total bytes start (start + 32) (omega arith) (ground arith) in
          rw slot (
            Safe-bind _ _ (read_secondary-Safe secondary s (omega arith)) λ after _ read.
              Safe-weaken _ (secondary_loop-Safe left (index + 1) after) λ found told.
                Told-cons left index secondary s after found (rw same at slot) read told)

-- A set that has a stream entry: it started with none.
pub Told-LastStream :
    (bytes : Bytes) (offset count : ℕ) (s found : EntrySet)
    → s.stream_entry_seen ≡ false
    → found.stream_entry_seen ≡ true
    → Told bytes offset count 0 s found
    → LastStream bytes offset count found.start_cluster found.data_length
Told-LastStream bytes offset count s found h k (inl (none_here, kept)) = absurd (cc)
Told-LastStream bytes offset count s found h k (inr stream) =
    let sum : 0 + count ≡ count = omega arith in
    subst (λ n. LastStream bytes offset n found.start_cluster found.data_length) sum stream
