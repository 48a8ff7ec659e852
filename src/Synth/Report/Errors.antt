-- ===== src/Synth/Report/Errors.antt =====
-- The errors that a report counts (internal/synth/synth.go).
use grex.Base.{
  ℕ, suc, ◌+◌, ◌≡◌, refl, ap, Bool, true, false, not, ◌&&◌, List, [], ◌∷◌, Option, none, some, Str,
  Assoc, lookup, insert, if◌then◌else◌, length, arith,
}
use grex.Synth.Report.{
  Result, Report, Sums, count_error, add_result, add_results, percentile, with_percentiles,
  empty_report, summarize,
}

abbrev pub is_some : Option Str → Bool
is_some none = false
is_some (some e) = true

-- All the failures that are counted under some message.
abbrev pub total_errors : Assoc ℕ → ℕ
total_errors [] = 0
total_errors ((msg, n) ∷ m) = n + total_errors m

-- The agents that failed with an error.
abbrev pub failed_with_error : List Result → ℕ
failed_with_error [] = 0
failed_with_error (res ∷ results) =
    let rest = failed_with_error results in
    if not res.connected && is_some res.err then suc rest else rest

total_errors-count :
    (msg : Str) (m : Assoc ℕ) → total_errors (count_error (some msg) m) ≡ suc (total_errors m)
unfolding insert lookup
total_errors-count msg [] = refl
total_errors-count msg ((k, n) ∷ m) = ground (arith, total_errors-count msg m)

add_result-errors :
    (s : Sums) (res : Result)
    → total_errors (add_result s res).0.errors
      ≡ total_errors s.0.errors + failed_with_error (res ∷ [])
add_result-errors (r, l) res = by_err res.err refl
  where
    by_err :
        (o : Option Str)
        → res.err ≡ o
        → total_errors (add_result (r, l) res).0.errors
          ≡ total_errors r.errors + failed_with_error (res ∷ [])
    by_err none e = ground (arith, e)
    by_err (some msg) e = ground (arith, e, total_errors-count msg r.errors)

add_results-errors :
    (results : List Result) (s : Sums)
    → total_errors (add_results s results).0.errors
      ≡ total_errors s.0.errors + failed_with_error results
add_results-errors [] s = omega arith
add_results-errors (res ∷ results) s =
    ground (arith, add_results-errors results (add_result s res), add_result-errors s res)

with_percentiles-errors : (r : Report) (l : List ℕ) → (with_percentiles r l).errors ≡ r.errors
unfolding percentile
with_percentiles-errors r [] = refl
with_percentiles-errors r (x ∷ xs) = refl

-- The counts of a report's messages add up to the agents that failed to connect and have an error:
-- the error of an agent that connected and failed its restart is under no message.
pub summarize-errors :
    (results : List Result) → total_errors (summarize results).errors ≡ failed_with_error results
unfolding summarize
summarize-errors results =
    let sums = add_results (empty_report (length results), []) results in
    omega (
      arith,
      ap total_errors (with_percentiles-errors (sums.0) (sums.1)),
      add_results-errors results (empty_report (length results), []),
    )
