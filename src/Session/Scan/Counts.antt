-- ===== src/Session/Scan/Counts.antt =====
-- The loop over the file records, and the counts that it keeps.
use file_recovery_engine.Prelude.{
  ℕ, zero, suc, ◌+◌, ◌≤◌, ◌≡◌, refl, arith, Bool, true, Option, none, some, List, [], ◌∷◌, ◌++◌,
  inl, inr, ltb, length, length-append, Bool-cases, Option-cases,
}
use file_recovery_engine.Prelude.Outcome.{
  Outcome, ok, err, panic, stuck, Returns, Safe, Safe-ok, Safe-bind, Safe-weaken,
}
use file_recovery_engine.Prelude.Checked.{checked_add, checked_add-some, saturating_mul}
use file_recovery_engine.Prelude.Bytes.{Bytes, IsSlice}
use file_recovery_engine.Prelude.Readers.{range-Safe}
use mathlib.Core.Option
use file_recovery_engine.Mft.Types.{MftRecord, MftParseError}
use file_recovery_engine.Mft.Record.{parse_mft_record}
use file_recovery_engine.Mft.Record.Total.{parse_mft_record-Returns}
use file_recovery_engine.Session.Types.{QuickScanCandidate}
use file_recovery_engine.Session.Candidate.{is_some}
use file_recovery_engine.Session.Candidate.Total.{build_candidate-Safe}
use file_recovery_engine.Session.Order.{bit}
use file_recovery_engine.Session.Order.Sorted.{count}
use file_recovery_engine.Session.Scan.{
  ScanState, is_empty_record, add_candidate, add_error, add_parsed, record_bounds, scan_record,
  scan_bounds, records_loop,
}

-- The tests whose passes the summary counts.
abbrev pub any : QuickScanCandidate → Bool
any c = true

abbrev pub gone : QuickScanCandidate → Bool
gone c = c.deleted

abbrev pub folder : QuickScanCandidate → Bool
folder c = c.is_directory

abbrev pub named : QuickScanCandidate → Bool
named c = is_some c.name

abbrev pub outside : QuickScanCandidate → Bool
outside c = c.has_non_resident_data

-- The counters agree with the candidates that were found in the first `rounds` rounds.
pub record Counted (rounds : ℕ) (s : ScanState) : Type 0 where
  pub parsed : s.parsed_records ≡ count any s.candidates
  pub deleted : s.deleted_records ≡ count gone s.candidates
  pub directories : s.directory_records ≡ count folder s.candidates
  pub names : s.named_records ≡ count named s.candidates
  pub non_resident : s.records_with_non_resident_data ≡ count outside s.candidates
  pub rounds_taken : s.parsed_records + length s.record_errors ≤ rounds

count-snoc :
    (test : QuickScanCandidate → Bool) (candidates : List QuickScanCandidate)
    (c : QuickScanCandidate)
    → count test (candidates ++ c ∷ []) ≡ count test candidates + bit (test c)
count-snoc test [] c = omega arith
count-snoc test (d ∷ candidates) c = omega (arith, count-snoc test candidates c)

add_candidate-Counted :
    (rounds : ℕ) (r : MftRecord) (c : QuickScanCandidate) (s : ScanState)
    → Counted rounds s
    → Counted (suc rounds) (add_candidate r c s)
unfolding add_candidate
add_candidate-Counted rounds r c s h = record {
  parsed = omega (arith, h.parsed, count-snoc any s.candidates c);
  deleted = omega (arith, h.deleted, count-snoc gone s.candidates c);
  directories = omega (arith, h.directories, count-snoc folder s.candidates c);
  names = omega (arith, h.names, count-snoc named s.candidates c);
  non_resident = omega (arith, h.non_resident, count-snoc outside s.candidates c);
  rounds_taken = omega (arith, h.rounds_taken);
}

add_error-Counted :
    (rounds index : ℕ) (e : MftParseError) (s : ScanState)
    → Counted rounds s
    → Counted (suc rounds) (add_error index e s)
unfolding add_error
add_error-Counted rounds index e s h = record {
  parsed = h.parsed;
  deleted = h.deleted;
  directories = h.directories;
  names = h.names;
  non_resident = h.non_resident;
  rounds_taken = omega (
    arith,
    h.rounds_taken,
    length-append s.record_errors (record { record_index = index; reason = e } ∷ []),
  );
}

add_parsed-Safe :
    (rounds index : ℕ) (m : Outcome MftParseError MftRecord) (s : ScanState)
    → Returns m
    → Counted rounds s
    → Safe (Counted (suc rounds)) (add_parsed index m s)
unfolding add_parsed
add_parsed-Safe rounds index (ok r) s h k =
    Safe-bind _ _ (build_candidate-Safe index r)
      λ c _ _. Safe-ok (add_candidate-Counted rounds r c s k)
add_parsed-Safe rounds index (err e) s h k = Safe-ok (add_error-Counted rounds index e s k)
add_parsed-Safe rounds index panic s h k = absurd (h.0 refl)
add_parsed-Safe rounds index stuck s h k = absurd (h.1 refl)

pub more_rounds_to : (m n : ℕ) (s : ScanState) → m ≤ n → Counted m s → Counted n s
more_rounds_to m n s le h = record {
  parsed = h.parsed;
  deleted = h.deleted;
  directories = h.directories;
  names = h.names;
  non_resident = h.non_resident;
  rounds_taken = omega (arith, h.rounds_taken);
}

later_round :
    (rounds : ℕ) (s : ScanState) (empty : ℕ)
    → Counted rounds s
    → Counted (suc rounds) (record s { consecutive_empty_records = empty })
later_round rounds s empty h = record {
  parsed = h.parsed;
  deleted = h.deleted;
  directories = h.directories;
  names = h.names;
  non_resident = h.non_resident;
  rounds_taken = omega (arith, h.rounds_taken);
}

scan_record-Safe :
    (rounds sector index : ℕ) (bytes : Bytes) (s : ScanState)
    → IsSlice bytes
    → Counted rounds s
    → Safe (λ r. Counted (suc rounds) r.1) (scan_record sector index bytes s)
unfolding scan_record
scan_record-Safe rounds sector index bytes s slice h = elim (Bool-cases (is_empty_record bytes)) [
  | inl empty ↦ rw empty (Safe-ok (later_round rounds s _ h))
  | inr filled ↦ rw filled (
      Safe-bind _ _
        (add_parsed-Safe rounds index (parse_mft_record bytes sector) s
          (parse_mft_record-Returns bytes sector slice) h)
        λ after _ k. Safe-ok k)
]

-- A record that has bounds ends behind its start.
abbrev Ordered : Option (ℕ × ℕ) → Type 0
Ordered none = Unit {0}
Ordered (some (offset, end)) = offset ≤ end

end_behind :
    (offset size : ℕ) (o : Option ℕ)
    → checked_add offset size ≡ o
    → Ordered (Option.map (λ end. (offset, end)) o)
end_behind offset size none e = tt
end_behind offset size (some end) e = omega (arith, (checked_add-some offset size e).0)

record_bounds-Ordered : (mft_offset size index : ℕ) → Ordered (record_bounds mft_offset size index)
unfolding record_bounds Option.bind
record_bounds-Ordered mft_offset size index =
    elim (Option-cases (checked_add mft_offset (saturating_mul index size))) [
      | inl over ↦ rw over tt
      | inr (offset, e) ↦ rw e (end_behind offset size (checked_add offset size) refl)
    ]

scan_bounds-Safe :
    (rounds : ℕ) (source : Bytes) (sector index : ℕ) (bounds : Option (ℕ × ℕ)) (s : ScanState)
    → IsSlice source
    → Ordered bounds
    → Counted rounds s
    → Safe (λ r. Counted (suc rounds) r.1) (scan_bounds source sector index bounds s)
unfolding scan_bounds
scan_bounds-Safe rounds source sector index none s slice h k =
    Safe-ok (later_round rounds s s.consecutive_empty_records k)
scan_bounds-Safe rounds source sector index (some (offset, end)) s slice h k =
    elim (Bool-cases (ltb (length source) end)) [
      | inl beyond ↦ rw beyond (Safe-ok (later_round rounds s s.consecutive_empty_records k))
      | inr inside ↦ rw inside (
          Safe-bind _ _ (range-Safe source offset end h (ground arith))
            λ bytes _ size. scan_record-Safe rounds sector index bytes s (ground arith) k)
    ]

pub records_loop-Safe :
    (left rounds : ℕ) (source : Bytes) (mft_offset size sector index : ℕ) (s : ScanState)
    → IsSlice source
    → Counted rounds s
    → Safe (Counted (rounds + left)) (records_loop left source mft_offset size sector index s)
unfolding records_loop
records_loop-Safe zero rounds source mft_offset size sector index s slice h =
    Safe-ok (more_rounds_to rounds (rounds + zero) s (omega arith) h)
records_loop-Safe (suc left) rounds source mft_offset size sector index s slice h =
    Safe-bind _ _
      (scan_bounds-Safe rounds source sector index (record_bounds mft_offset size index) s slice
        (record_bounds-Ordered mft_offset size index) h)
      λ (more, after) _ k. elim (Bool-cases more) [
        | inl again ↦ rw again (
            Safe-weaken _
              (records_loop-Safe left (suc rounds) source mft_offset size sector (index + 1) after
                slice k)
              λ s' g. more_rounds_to (suc rounds + left) (rounds + suc left) s' (omega arith) g)
        | inr last ↦
            rw last
              (Safe-ok (more_rounds_to (suc rounds) (rounds + suc left) after (omega arith) k))
      ]
