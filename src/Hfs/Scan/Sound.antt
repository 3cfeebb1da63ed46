-- ===== src/Hfs/Scan/Sound.antt =====
-- The scan ends, and every candidate stems from a record of the image.
use file_recovery_engine.Prelude.{
  ℕ, zero, suc, ◌+◌, ◌≤◌, ◌<◌, ◌≡◌, refl, arith, ◌||◌, ◌&&◌, [], length, ltb, leb, ◌==◌, inl, inr,
  Bool-cases,
}
use mathlib.Core.Path.{subst}
use file_recovery_engine.Prelude.Outcome.{ok, err, panic, stuck, Safe, Safe-ok, Safe-err, Safe-bind}
use file_recovery_engine.Prelude.Checked.{saturating_add, u64_mod}
use file_recovery_engine.Prelude.Bytes.{Bytes, IsSlice, get_range_total, bytes_eq}
use file_recovery_engine.Hfs.Types.{HfsVolumeHeader, Parsed}
use file_recovery_engine.Hfs.Header.{IsValid, parse_volume_header-Safe}
use file_recovery_engine.Hfs.Tombstone.{hfs_tombstone_record_size}
use file_recovery_engine.Hfs.Tombstone.Total.{parse_tombstone_record-Safe}
use file_recovery_engine.Hfs.Scan.{
  hfs_tombstone_marker, ScanState, scan_round, scan_loop, scan_deleted_candidates_with_header,
  from_header, scan_deleted_candidates,
}
use file_recovery_engine.Hfs.Scan.Kept.{
  Distinct, Distinct-Different, Recovered, Kept, keep_candidate-Kept, keep_candidate-length,
}

forward : (offset step : ℕ) → offset + step < u64_mod → saturating_add offset step ≡ offset + step
unfolding saturating_add
forward offset step h = omega arith

-- What a round leaves: a later offset, and one candidate more at most.
record Advanced (image : Bytes) (offset : ℕ) (s : ScanState) (r : ℕ × ScanState) : Type 0 where
  ahead : offset + 8 ≤ r.0
  within : r.0 ≤ offset + 312
  kept : Kept image r.1
  grown : length r.1.out ≤ 1 + length s.out

scan_round-Safe :
    (image : Bytes) (offset : ℕ) (s : ScanState)
    → IsSlice image
    → offset + 312 ≤ length image
    → Kept image s
    → Safe (Advanced image offset s) (scan_round image offset s)
unfolding scan_round
scan_round-Safe image offset s slice inside kept =
    let (marker, at_marker, _) =
      get_range_total image offset (offset + 8) (omega arith) (omega arith) in
    rw at_marker (elim (Bool-cases (bytes_eq marker hfs_tombstone_marker)) [
      | inr other ↦ rw other (
          Safe-ok (record {
            ahead = rw (forward offset 8 (omega arith)) (omega arith);
            within = rw (forward offset 8 (omega arith)) (omega arith);
            kept = kept;
            grown = omega arith;
          }))
      | inl marked ↦
          let (bytes, held, _) = get_range_total image offset (offset + 312) (omega arith) inside in
          rw (marked, held)
            (Safe-bind _ _ (parse_tombstone_record-Safe bytes) λ found parsed good.
              Safe-ok (record {
                ahead = rw (forward offset 312 (omega arith)) (omega arith);
                within = rw (forward offset 312 (omega arith)) (omega arith);
                kept =
                    keep_candidate-Kept image found s
                      (λ c e. record {
                        offset = offset;
                        bytes = bytes;
                        marked = (marker, at_marker, marked);
                        held = held;
                        parsed = rw e at parsed;
                        candidate = rw e at good;
                      })
                      kept;
                grown = keep_candidate-length found s;
              }))
    ])

recovered :
    (image : Bytes) (max_entries : ℕ) (s : ScanState)
    → length s.out ≤ max_entries
    → Kept image s
    → Recovered image max_entries s.out
recovered image max_entries s h kept = record {
  count = h;
  stem = kept.stem;
  distinct = Distinct-Different s.out (subst Distinct kept.same kept.distinct);
}

scan_loop-Safe :
    (fuel : ℕ) (image : Bytes) (max_entries offset : ℕ) (s : ScanState)
    → IsSlice image
    → length image < fuel + offset
    → offset ≤ length image
    → length s.out ≤ max_entries
    → Kept image s
    → Safe (Recovered image max_entries) (scan_loop fuel image max_entries offset s)
unfolding scan_loop
scan_loop-Safe zero image max_entries offset s slice h in_image few kept = absurd (omega arith)
scan_loop-Safe (suc fuel) image max_entries offset s slice h in_image few kept =
    elim (Bool-cases
      (leb (offset + hfs_tombstone_record_size) (length image) && ltb (length s.out) max_entries)) [
        | inr over ↦ rw over (Safe-ok (recovered image max_entries s few kept))
        | inl more ↦ rw more (
            Safe-bind _ _ (scan_round-Safe image offset s slice (ground arith) kept) λ r _ after.
              let ahead = after.ahead in
              let within = after.within in
              let grown = after.grown in
              scan_loop-Safe fuel image max_entries r.0 r.1 slice (omega arith) (ground arith)
                (ground arith) after.kept)
      ]

scan_with_header-Safe :
    (image : Bytes) (volume_header : HfsVolumeHeader) (max_entries : ℕ)
    → IsSlice image
    → Safe
        (Recovered image max_entries)
        (scan_deleted_candidates_with_header image volume_header max_entries)
unfolding scan_deleted_candidates_with_header
scan_with_header-Safe image volume_header max_entries slice =
    elim (Bool-cases (max_entries == 0 || ltb (length image) hfs_tombstone_record_size)) [
      | inl nothing ↦
          rw nothing (Safe-ok (record { count = omega arith; stem = tt; distinct = tt }))
      | inr something ↦ rw something (
          scan_loop-Safe (1 + length image) image max_entries 0 (record { out = []; seen = [] })
            slice (omega arith) (omega arith) (omega arith)
            (record { stem = tt; same = refl; distinct = tt }))
    ]

from_header-Safe : (m : Parsed HfsVolumeHeader) → Safe IsValid m → Safe IsValid (from_header m)
from_header-Safe (ok h) safe = Safe-ok safe.holds
from_header-Safe (err e) safe = Safe-err
from_header-Safe panic safe = absurd safe.holds
from_header-Safe stuck safe = absurd safe.holds

-- On every image that a slice can hold, and for every number of entries, the scan for deleted files
-- of an HFS+ volume returns: with an error, or with a volume header and a list of candidates. Then
-- the header is valid, there are at most as many candidates as asked for, each stems from a record
-- of the image behind the marker, with the number, size and directory flag that it has there, has a
-- number other than 0, a name that is not empty and has no character below U+0020, and a path under
-- `.\`, and no two have both the same number and, up to the case of ASCII letters, the same path.
pub scan_deleted_candidates-Safe :
    (image : Bytes) (max_entries : ℕ)
    → IsSlice image
    → Safe
        (λ r. IsValid r.0 × Recovered image max_entries r.1)
        (scan_deleted_candidates image max_entries)
unfolding scan_deleted_candidates
scan_deleted_candidates-Safe image max_entries slice =
    Safe-bind _ _ (from_header-Safe _ (parse_volume_header-Safe image)) λ volume_header _ valid.
      Safe-bind _ _ (scan_with_header-Safe image volume_header max_entries slice)
        λ entries _ found. Safe-ok (valid, found)
