-- ===== src/Synth/Report.antt =====
-- Summarize and percentile of internal/synth/synth.go. Latencies come from the monotonic clock and
-- are not negative.
pub mod Laws
pub mod Errors
use Prim.Native.Nat.{compare}
use grex.Base.{
  ℕ, zero, suc, ◌+◌, ◌-◌, ◌*◌, ◌/◌, Bool, true, false, List, [], ◌∷◌, Option, none, some, Str,
  Assoc, lookup, insert, if◌then◌else◌, ltb, length, get_or,
}
use grex.Base.Order.Sorting.{sort}

-- err is the error's text.
pub record Result : Type 0 where
  pub instance_uid : Str
  pub connected : Bool
  pub connect_latency : ℕ
  pub restarted : Bool
  pub restart_latency : ℕ
  pub err : Option Str

pub record Report : Type 0 where
  pub total : ℕ
  pub connected : ℕ
  pub failed : ℕ
  pub restarted : ℕ
  pub connect_p50 : ℕ
  pub connect_p99 : ℕ
  pub connect_max : ℕ
  pub errors : Assoc ℕ

-- r.Errors[msg]++
abbrev pub count_error : Option Str → Assoc ℕ → Assoc ℕ
count_error none m = m
count_error (some msg) m = insert msg (elim (lookup msg m) [ none ↦ 1 | some n ↦ n + 1 ]) m

-- The report so far, and the latencies of the connected.
abbrev pub Sums : Type 0
Sums = Report × List ℕ

abbrev pub count_restart : Bool → Report → Report
count_restart true r = record r { restarted = r.restarted + 1 }
count_restart false r = r

abbrev pub add_result : Sums → Result → Sums
add_result (r, latencies) res =
    if res.connected
    then (
      count_restart res.restarted (record r { connected = r.connected + 1 }),
      res.connect_latency ∷ latencies,
    )
    else (
      count_restart res.restarted
          (record r { failed = r.failed + 1; errors = count_error res.err r.errors }),
      latencies,
    )

abbrev pub add_results : Sums → List Result → Sums
add_results s [] = s
add_results s (res ∷ results) = add_results (add_result s res) results

-- The rank of the p-th percentile, from 1 on.
abbrev pub rank_of : ℕ → ℕ → ℕ
rank_of p n =
    let rank = (p * n + 99) / 100 in
    let least = if ltb rank 1 then 1 else rank in if ltb n least then n else least

unfoldable pub percentile : List ℕ → ℕ → ℕ
percentile [] p = 0
percentile (x ∷ xs) p = get_or (x ∷ xs) (rank_of p (length (x ∷ xs)) - 1) 0

abbrev pub with_percentiles : Report → List ℕ → Report
with_percentiles r [] = r
with_percentiles r (x ∷ xs) =
    let sorted = sort compare (x ∷ xs) in
    record r {
      connect_p50 = percentile sorted 50;
      connect_p99 = percentile sorted 99;
      connect_max = get_or sorted (length sorted - 1) 0;
    }

abbrev pub empty_report : ℕ → Report
empty_report total = record {
  total = total;
  connected = 0;
  failed = 0;
  restarted = 0;
  connect_p50 = 0;
  connect_p99 = 0;
  connect_max = 0;
  errors = [];
}

unfoldable pub summarize : List Result → Report
unfolding percentile
summarize results =
    let sums = add_results (empty_report (length results), []) results in
    with_percentiles (sums.0) (sums.1)
