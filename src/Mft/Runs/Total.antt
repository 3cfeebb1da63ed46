-- ===== src/Mft/Runs/Total.antt =====
-- `parse_data_runs` on arbitrary bytes.
use file_recovery_engine.Prelude.{
  ℕ, zero, suc, ◌/◌, ◌+◌, ◌≤◌, ◌<◌, ◌≡◌, ◌⊎◌, arith, true, some, List, [], ◌∷◌, ◌++◌, Option, inl,
  inr,
}
use file_recovery_engine.Prelude.{ltb, ◌==◌, Bool-cases, length, ltb→lt, get_elem?-some, All}
use file_recovery_engine.Prelude.Outcome.{ok, Returns, Returns-bind, bind-eq-ok, ok-injective}
use file_recovery_engine.Prelude.Bytes.{Bytes, get_range_total}
use file_recovery_engine.Prelude.Int.{ℤ, pos, fits_i64, checked_addℤ}
use Prim.Native.Nat.{bit_and}
use mathlib.Core.Path.{subst}
use file_recovery_engine.Mft.Types.{DataRun}
use file_recovery_engine.Mft.Runs.{
  parse_unsigned_le, parse_signed_le, run_lcn, parse_run, runs_loop, parse_data_runs,
}

parse_unsigned_le-Returns : (bytes : Bytes) → length bytes ≤ 8 → Returns (parse_unsigned_le bytes)
unfolding parse_unsigned_le
parse_unsigned_le-Returns bytes h = ground arith

run_lcn-Returns :
    (size : ℕ) (slice : Bytes) (lcn : ℤ) → length slice ≤ 8 → Returns (run_lcn size slice lcn)
unfolding run_lcn parse_signed_le
run_lcn-Returns size slice lcn h = ground arith

parse_run-Returns :
    (bytes : Bytes) (header cursor : ℕ) (lcn : ℤ) → Returns (parse_run bytes header cursor lcn)
unfolding parse_run
parse_run-Returns bytes header cursor lcn =
    let length_size = bit_and header 0x0F in
    let offset_size = header / 16 in
    let mid = cursor + length_size in
    grind (
      arith,
      get_range_total bytes cursor mid,
      get_range_total bytes mid (mid + offset_size),
      parse_unsigned_le-Returns,
      run_lcn-Returns,
    )

-- A run that is parsed takes a byte at least and stays within the mapping pairs.
parse_run_next :
    (bytes : Bytes) (header cursor : ℕ) (lcn : ℤ) {run : DataRun} {lcn' : ℤ} {next : ℕ}
    → parse_run bytes header cursor lcn ≡ ok (run, lcn', next)
    → (cursor < next) × (next ≤ length bytes) × (0 < run.cluster_count)
unfolding parse_run
parse_run_next bytes header cursor lcn e = ground arith

runs_loop-Returns :
    (bytes : Bytes) (fuel cursor : ℕ) (lcn : ℤ) (runs : List DataRun)
    → length bytes ≤ fuel + cursor
    → Returns (runs_loop bytes fuel cursor lcn runs)
unfolding runs_loop
runs_loop-Returns bytes zero cursor lcn runs h = ground arith
runs_loop-Returns bytes (suc fuel) cursor lcn runs h =
    elim (Bool-cases (ltb cursor (length bytes))) [
      | inr done ↦ rw done (λ p. cc, λ p. cc)
      | inl more ↦
          let (header, found) = get_elem?-some bytes cursor (ltb→lt _ _ more) in
          elim (Bool-cases (header == 0)) [
            | inl last ↦ rw (more, found, last) (λ p. cc, λ p. cc)
            | inr run ↦
                rw (more, found, run)
                  (Returns-bind (parse_run bytes header (cursor + 1) lcn) _
                    (parse_run-Returns bytes header (cursor + 1) lcn)
                    (λ r e.
                      runs_loop-Returns bytes fuel r.2 r.1 (runs ++ (r.0 ∷ []))
                        (omega (arith, parse_run_next bytes header (cursor + 1) lcn e))))
          ]
    ]

-- On every byte string `parse_data_runs` returns, with runs or with an error: the loop ends within
-- one round for each byte, and no read runs out of range.
pub parse_data_runs-Returns : (bytes : Bytes) → Returns (parse_data_runs bytes)
unfolding parse_data_runs
parse_data_runs-Returns bytes = runs_loop-Returns bytes (length bytes) 0 (pos 0) [] (omega arith)

-- A run covers a cluster at least, and its LCN, where it has one, fits an `i64`.
abbrev pub IsRun : DataRun → Type 0
IsRun run = (0 < run.cluster_count) × ((lcn : ℤ) → run.lcn ≡ some lcn → fits_i64 lcn ≡ true)

run_lcn_fits :
    (size : ℕ) (slice : Bytes) (lcn : ℤ) {o : Option ℤ} {next : ℤ}
    → run_lcn size slice lcn ≡ ok (o, next)
    → (at : ℤ) → o ≡ some at
    → fits_i64 at ≡ true
unfolding run_lcn checked_addℤ
run_lcn_fits size slice lcn e at named = ground arith

parse_run-IsRun :
    (bytes : Bytes) (header cursor : ℕ) (lcn : ℤ) {run : DataRun} {lcn' : ℤ} {next : ℕ}
    → parse_run bytes header cursor lcn ≡ ok (run, lcn', next)
    → IsRun run
unfolding parse_run
parse_run-IsRun bytes header cursor lcn e = (ground arith, λ at named. grind (arith, run_lcn_fits))

All-append_one :
    (runs : List DataRun) (run : DataRun)
    → All IsRun runs
    → IsRun run
    → All IsRun (runs ++ (run ∷ []))
All-append_one [] run h k = (k, tt)
All-append_one (r ∷ runs) run h k = (h.0, All-append_one runs run h.1 k)

-- What a round that leads to success has done: it ends the loop, or it parses one more run.
runs_loop-inv :
    (bytes : Bytes) (fuel cursor : ℕ) (lcn : ℤ) (runs : List DataRun) {out : List DataRun}
    → runs_loop bytes (suc fuel) cursor lcn runs ≡ ok out
    → (runs ≡ out)
      ⊎ ((header : ℕ) × (r : DataRun × ℤ × ℕ) × (parse_run bytes header (cursor + 1) lcn ≡ ok r)
          × (runs_loop bytes fuel r.2 r.1 (runs ++ (r.0 ∷ [])) ≡ ok out))
unfolding runs_loop
runs_loop-inv bytes fuel cursor lcn runs e = elim (Bool-cases (ltb cursor (length bytes))) [
  | inr done ↦ inl (ok-injective (rw (done, runs_loop) at e))
  | inl more ↦
      let (header, found) = get_elem?-some bytes cursor (ltb→lt _ _ more) in
      elim (Bool-cases (header == 0)) [
        | inl last ↦ inl (ok-injective (rw (more, found, last, runs_loop) at e))
        | inr run ↦
            let (r, parsed, rest) = bind-eq-ok _ _ (rw (more, found, run, runs_loop) at e) in
            inr (header, r, parsed, rest)
      ]
]

runs_loop_end :
    (bytes : Bytes) (cursor : ℕ) (lcn : ℤ) (runs : List DataRun) {out : List DataRun}
    → runs_loop bytes 0 cursor lcn runs ≡ ok out
    → runs ≡ out
unfolding runs_loop
runs_loop_end bytes cursor lcn runs e = ground arith

runs_loop-IsRun :
    (bytes : Bytes) (fuel cursor : ℕ) (lcn : ℤ) (runs : List DataRun) {out : List DataRun}
    → All IsRun runs
    → runs_loop bytes fuel cursor lcn runs ≡ ok out
    → All IsRun out
runs_loop-IsRun bytes zero cursor lcn runs h e =
    subst (All IsRun) (runs_loop_end bytes cursor lcn runs e) h
runs_loop-IsRun bytes (suc fuel) cursor lcn runs h e =
    elim (runs_loop-inv bytes fuel cursor lcn runs e) [
      | inl same ↦ subst (All IsRun) same h
      | inr (header, r, parsed, rest) ↦
          runs_loop-IsRun bytes fuel r.2 r.1 (runs ++ (r.0 ∷ []))
            (All-append_one runs r.0 h (parse_run-IsRun bytes header (cursor + 1) lcn parsed)) rest
    ]

-- Every run of a list that `parse_data_runs` returns covers a cluster at least and has an LCN that
-- fits an `i64`, or none.
pub parse_data_runs-IsRun :
    (bytes : Bytes) (runs : List DataRun) → parse_data_runs bytes ≡ ok runs → All IsRun runs
unfolding parse_data_runs
parse_data_runs-IsRun bytes runs e = runs_loop-IsRun bytes (length bytes) 0 (pos 0) [] tt e
