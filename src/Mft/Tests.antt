-- ===== src/Mft/Tests.antt =====
-- A record of two sectors of 32 bytes and a list of mapping pairs, and the theorems on them.
use file_recovery_engine.Prelude.{
  ℕ, ◌≤◌, ◌<◌, ◌≡◌, refl, arith, none, some, List, [], ◌∷◌, All, get_elem?,
}
use file_recovery_engine.Prelude.Outcome.{ok, Returns}
use file_recovery_engine.Prelude.Bytes.{Bytes, IsSlice, get_range, from_le, all_bytes_sound}
use file_recovery_engine.Prelude.Int.{pos, as_i64, checked_addℤ}
use file_recovery_engine.Mft.Types.{DataRun}
use file_recovery_engine.Mft.Fields.{read_u16}
use file_recovery_engine.Prelude.Checked.{saturating_mul}
use file_recovery_engine.Mft.Fixup.{apply_update_sequence_fixup}
use file_recovery_engine.Mft.Fixup.Repairs.{Outside}
use file_recovery_engine.Mft.Fixup.Total.{Ran}
use file_recovery_engine.Mft.Fixup.Restores.{Repaired, apply_update_sequence_fixup_restores}
use file_recovery_engine.Mft.Runs.{parse_data_runs, parse_unsigned_le, parse_signed_le}
use file_recovery_engine.Mft.Runs.Total.{IsRun, parse_data_runs-IsRun}
use file_recovery_engine.Mft.Record.{parse_mft_record}
use file_recovery_engine.Mft.Record.Total.{parse_mft_record-Returns}

abbrev raw_record : Bytes
raw_record =
    70 ∷ 73 ∷ 76 ∷ 69 ∷ 48 ∷ 0 ∷ 3 ∷ 0 ∷ 0 ∷ 0 ∷ 0 ∷ 0 ∷ 0 ∷ 0 ∷ 0 ∷ 0 ∷ 1 ∷ 0 ∷ 1 ∷ 0 ∷ 56 ∷ 0 ∷ 1
    ∷ 0 ∷ 64 ∷ 0 ∷ 0 ∷ 0 ∷ 64 ∷ 0 ∷ 7 ∷ 0 ∷ 0 ∷ 0 ∷ 0 ∷ 0 ∷ 0 ∷ 0 ∷ 0 ∷ 0 ∷ 0 ∷ 0 ∷ 0 ∷ 0 ∷ 0 ∷ 0
    ∷ 0 ∷ 0 ∷ 7 ∷ 0 ∷ 9 ∷ 8 ∷ 6 ∷ 5 ∷ 0 ∷ 0 ∷ 255 ∷ 255 ∷ 255 ∷ 255 ∷ 0 ∷ 0 ∷ 7 ∷ 0 ∷ []

abbrev fixed_record : Bytes
fixed_record =
    70 ∷ 73 ∷ 76 ∷ 69 ∷ 48 ∷ 0 ∷ 3 ∷ 0 ∷ 0 ∷ 0 ∷ 0 ∷ 0 ∷ 0 ∷ 0 ∷ 0 ∷ 0 ∷ 1 ∷ 0 ∷ 1 ∷ 0 ∷ 56 ∷ 0 ∷ 1
    ∷ 0 ∷ 64 ∷ 0 ∷ 0 ∷ 0 ∷ 64 ∷ 0 ∷ 9 ∷ 8 ∷ 0 ∷ 0 ∷ 0 ∷ 0 ∷ 0 ∷ 0 ∷ 0 ∷ 0 ∷ 0 ∷ 0 ∷ 0 ∷ 0 ∷ 0 ∷ 0
    ∷ 0 ∷ 0 ∷ 7 ∷ 0 ∷ 9 ∷ 8 ∷ 6 ∷ 5 ∷ 0 ∷ 0 ∷ 255 ∷ 255 ∷ 255 ∷ 255 ∷ 0 ∷ 0 ∷ 6 ∷ 5 ∷ []

raw_record-IsSlice : IsSlice raw_record
raw_record-IsSlice = omega arith

parse_mft_record-Returns_example : Returns (parse_mft_record raw_record 32)
parse_mft_record-Returns_example = parse_mft_record-Returns raw_record 32 raw_record-IsSlice

fixed : apply_update_sequence_fixup raw_record 32 ≡ ok fixed_record
unfolding apply_update_sequence_fixup read_u16 get_range from_le saturating_mul
fixed = refl

apply_update_sequence_fixup_restores_example :
    (r : Ran raw_record 32 fixed_record) × ((k : ℕ)
      → 1 ≤ k
      → k < r.count
      → Repaired raw_record 32 r.offset r.count r.seq k fixed_record)
    × ((j : ℕ)
        → ((k : ℕ) → 1 ≤ k → k < r.count → Outside 32 k j)
        → get_elem? fixed_record j ≡ get_elem? raw_record j)
apply_update_sequence_fixup_restores_example =
    apply_update_sequence_fixup_restores raw_record fixed_record 32 raw_record-IsSlice
      (all_bytes_sound raw_record refl) (omega arith) fixed

-- A run of 24 clusters at LCN 22068, then a sparse one of 8 clusters.
abbrev mapping_pairs : Bytes
mapping_pairs = 33 ∷ 24 ∷ 52 ∷ 86 ∷ 1 ∷ 8 ∷ 0 ∷ []

abbrev runs : List DataRun
runs =
    record { cluster_count = 24; lcn = some (pos 22068) }
    ∷ record { cluster_count = 8; lcn = none }
    ∷ []

parsed_runs : parse_data_runs mapping_pairs ≡ ok runs
unfolding parse_data_runs parse_unsigned_le parse_signed_le get_range from_le as_i64 checked_addℤ
parsed_runs = refl

parse_data_runs-IsRun_example : All IsRun runs
parse_data_runs-IsRun_example = parse_data_runs-IsRun mapping_pairs runs parsed_runs
