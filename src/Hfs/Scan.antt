-- ===== src/Hfs/Scan.antt =====
-- The scan of an image for the records of deleted files.
pub mod Kept
pub mod Sound
use file_recovery_engine.Prelude.{
  ℕ, zero, suc, ◌+◌, Bool, true, false, ◌||◌, ◌&&◌, Option, none, some, List, [], ◌∷◌, ◌++◌,
}
use file_recovery_engine.Prelude.{ltb, leb, ◌==◌, if◌then◌else◌, length}
use file_recovery_engine.Prelude.Outcome.{ok, err, panic, stuck, or_panic, ◌>>=◌}
use file_recovery_engine.Prelude.Checked.{saturating_add}
use file_recovery_engine.Prelude.Bytes.{Bytes, get_range, bytes_eq, ascii}
use file_recovery_engine.Validator.Text.{to_ascii_lowercase}
use file_recovery_engine.Hfs.Types.{HfsVolumeHeader, HfsDeletedCandidate, header, Parsed, Scanned}
use file_recovery_engine.Hfs.Header.{parse_volume_header}
use file_recovery_engine.Hfs.Tombstone.{hfs_tombstone_record_size, parse_tombstone_record}

-- `HFSDEL` and two zeros.
abbrev pub hfs_tombstone_marker : Bytes
hfs_tombstone_marker = ascii "HFSDEL" ++ 0 ∷ 0 ∷ []

abbrev pub Key : Type 0
Key = ℕ × List ℕ

abbrev pub dedupe_key : HfsDeletedCandidate → Key
dedupe_key candidate = (candidate.cnid, to_ascii_lowercase candidate.path)

abbrev pub same_key : Key → Key → Bool
same_key a b = a.0 == b.0 && bytes_eq a.1 b.1

-- A set of keys as a list.
unfoldable pub was_seen : List Key → Key → Bool
was_seen [] key = false
was_seen (k ∷ seen) key = same_key k key || was_seen seen key

pub record ScanState : Type 0 where
  pub out : List HfsDeletedCandidate
  pub seen : List Key

-- `seen.insert(dedupe_key)` and the candidate that it lets through.
unfoldable pub keep_candidate : Option HfsDeletedCandidate → ScanState → ScanState
keep_candidate none s = s
keep_candidate (some candidate) s =
    if was_seen s.seen (dedupe_key candidate)
    then s
    else record { out = s.out ++ candidate ∷ []; seen = s.seen ++ dedupe_key candidate ∷ [] }

-- One round: the next offset, and what is found.
unfoldable pub scan_round : Bytes → ℕ → ScanState → Scanned (ℕ × ScanState)
scan_round image offset s = or_panic (get_range image offset (offset + 8)) >>= λ marker.
    if bytes_eq marker hfs_tombstone_marker
    then (or_panic (get_range image offset (offset + hfs_tombstone_record_size)) >>= λ bytes.
        parse_tombstone_record bytes >>= λ candidate.
        ok (saturating_add offset hfs_tombstone_record_size, keep_candidate candidate s))
    else ok (saturating_add offset 8, s)

-- The `while` loop, on fuel.
unfoldable pub scan_loop : ℕ → Bytes → ℕ → ℕ → ScanState → Scanned (List HfsDeletedCandidate)
unfolding scan_round
scan_loop zero image max_entries offset s = stuck
scan_loop (suc fuel) image max_entries offset s =
    if leb (offset + hfs_tombstone_record_size) (length image) && ltb (length s.out) max_entries
    then (scan_round image offset s >>= λ r. scan_loop fuel image max_entries r.0 r.1)
    else ok s.out

-- A round takes 8 bytes or more.
unfoldable pub scan_deleted_candidates_with_header :
    Bytes → HfsVolumeHeader → ℕ → Scanned (List HfsDeletedCandidate)
unfolding scan_loop
scan_deleted_candidates_with_header image _header max_entries =
    if max_entries == 0 || ltb (length image) hfs_tombstone_record_size
    then ok []
    else scan_loop (1 + length image) image max_entries 0 (record { out = []; seen = [] })

-- The conversion of the error by `?`.
abbrev pub from_header : Parsed HfsVolumeHeader → Scanned HfsVolumeHeader
from_header (ok h) = ok h
from_header (err e) = err (header e)
from_header panic = panic
from_header stuck = stuck

unfoldable pub scan_deleted_candidates :
    Bytes → ℕ → Scanned (HfsVolumeHeader × List HfsDeletedCandidate)
scan_deleted_candidates image max_entries = do
  volume_header ← from_header (parse_volume_header image)
  entries ← scan_deleted_candidates_with_header image volume_header max_entries
  ok (volume_header, entries)
