-- ===== src/Synth/Report/Laws.antt =====
-- The report of a run (internal/synth/synth.go): its counts and its percentiles.
use Prim.Native.Nat.{compare}
use native.Mathlib.Nat.{mul-le-mul_right}
use grex.Base.{
  ℕ, zero, suc, ◌+◌, ◌-◌, ◌*◌, ◌≤◌, ◌<◌, ◌≡◌, refl, ◌∙◌, false, List, [], ◌∷◌, if◌then◌else◌, ltb,
  leb, length, get_or, All, arith,
}
use grex.Base.Order.{compare-IsOrder}
use grex.Base.Order.Sorting.{sort, is_gt, Ascending, sort-Ascending, sort-Perm, length-Perm}
use grex.Synth.Report.{
  Result, Report, Sums, add_result, add_results, rank_of, percentile, with_percentiles,
  empty_report, summarize,
}

-- How many numbers are at most r, and how many below it.
abbrev pub at_most : ℕ → List ℕ → ℕ
at_most r [] = 0
at_most r (x ∷ xs) = let rest = at_most r xs in if leb x r then suc rest else rest

abbrev pub below : ℕ → List ℕ → ℕ
below r [] = 0
below r (x ∷ xs) = let rest = below r xs in if ltb x r then suc rest else rest

get_or-All :
    (x : ℕ) (xs : List ℕ) (i : ℕ)
    → All (λ y. is_gt (compare x y) ≡ false) xs
    → i < length xs
    → x ≤ get_or xs i 0
get_or-All x [] i h k = absurd (omega (arith, k))
get_or-All x (y ∷ xs) zero h k = ground (arith, h.0)
get_or-All x (y ∷ xs) (suc i) h k = get_or-All x xs i h.1 (omega (arith, k))

-- In a sorted list later places hold greater numbers.
get_or-le :
    (xs : List ℕ) (i j : ℕ)
    → Ascending compare xs
    → i ≤ j
    → j < length xs
    → get_or xs i 0 ≤ get_or xs j 0
get_or-le [] i j h le k = absurd (omega (arith, k))
get_or-le (x ∷ xs) zero zero h le k = omega arith
get_or-le (x ∷ xs) zero (suc j) h le k = get_or-All x xs j h.0 (omega (arith, k))
get_or-le (x ∷ xs) (suc i) zero h le k = absurd (omega (arith, le))
get_or-le (x ∷ xs) (suc i) (suc j) h le k =
    get_or-le xs i j h.1 (omega (arith, le)) (omega (arith, k))

at_most-get_or :
    (xs : List ℕ) (i : ℕ) → Ascending compare xs → i < length xs → i < at_most (get_or xs i 0) xs
at_most-get_or [] i h k = absurd (omega (arith, k))
at_most-get_or (x ∷ xs) zero h k = ground arith
at_most-get_or (x ∷ xs) (suc i) h k =
    ground
      (arith, at_most-get_or xs i h.1 (omega (arith, k)), get_or-All x xs i h.0 (omega (arith, k)))

below_first : (x : ℕ) (xs : List ℕ) → All (λ y. is_gt (compare x y) ≡ false) xs → below x xs ≡ 0
below_first x [] h = refl
below_first x (y ∷ xs) h = ground (arith, below_first x xs h.1, h.0)

below-get_or :
    (xs : List ℕ) (i : ℕ) → Ascending compare xs → i < length xs → below (get_or xs i 0) xs ≤ i
below-get_or [] i h k = absurd (omega (arith, k))
below-get_or (x ∷ xs) zero h k = ground (arith, below_first x xs h.0)
below-get_or (x ∷ xs) (suc i) h k = ground (arith, below-get_or xs i h.1 (omega (arith, k)))

-- The p-th percentile, from 1 to 100, of sorted latencies is the nearest rank: at least p percent
-- of them are at most it, and less than p percent are below it.
pub percentile-rank :
    (sorted : List ℕ) (p : ℕ)
    → Ascending compare sorted
    → 0 < length sorted
    → 0 < p
    → p ≤ 100
    → (p * length sorted ≤ 100 * at_most (percentile sorted p) sorted)
      × (100 * below (percentile sorted p) sorted < p * length sorted)
unfolding percentile
percentile-rank [] p h n lo hi = absurd (omega (arith, n))
percentile-rank (x ∷ xs) p h n lo hi =
    let len = length (x ∷ xs) in
    let i = rank_of p len - 1 in
    let least : 1 * len ≤ p * len = mul-le-mul_right len lo in
    let most : p * len ≤ 100 * len = mul-le-mul_right len hi in
    let k : i < len = ground (arith, least, most) in
    let a = at_most-get_or (x ∷ xs) i h k in
    let b = below-get_or (x ∷ xs) i h k in ground (arith, a, b, least, most)

record Counted (s : Sums) (n : ℕ) (t : Sums) : Type 0 where
  total : t.0.total ≡ s.0.total
  outcome : t.0.connected + t.0.failed ≡ s.0.connected + s.0.failed + n
  restarts : t.0.restarted ≤ s.0.restarted + n
  p50 : t.0.connect_p50 ≡ s.0.connect_p50
  p99 : t.0.connect_p99 ≡ s.0.connect_p99
  top : t.0.connect_max ≡ s.0.connect_max
  latencies : length (t.1) + s.0.connected ≡ t.0.connected + length (s.1)

add_result-Counted : (s : Sums) (res : Result) → Counted s 1 (add_result s res)
add_result-Counted (r, l) res = ground arith

add_results-Counted :
    (results : List Result) (s : Sums) → Counted s (length results) (add_results s results)
add_results-Counted [] s = record {
  total = refl;
  p50 = refl;
  p99 = refl;
  top = refl;
  outcome = omega arith;
  restarts = omega arith;
  latencies = omega arith;
}
add_results-Counted (res ∷ results) s =
    let c = add_result-Counted s res in
    let d = add_results-Counted results (add_result s res) in
    record {
      total = d.total ∙ c.total;
      p50 = d.p50 ∙ c.p50;
      p99 = d.p99 ∙ c.p99;
      top = d.top ∙ c.top;
      outcome = omega (arith, c.outcome, d.outcome);
      restarts = omega (arith, c.restarts, d.restarts);
      latencies = omega (arith, c.latencies, d.latencies);
    }

with_percentiles-same :
    (r : Report) (l : List ℕ)
    → ((with_percentiles r l).total ≡ r.total)
      × ((with_percentiles r l).connected ≡ r.connected)
      × ((with_percentiles r l).failed ≡ r.failed)
      × ((with_percentiles r l).restarted ≡ r.restarted)
unfolding percentile
with_percentiles-same r [] = (refl, refl, refl, refl)
with_percentiles-same r (x ∷ xs) = (refl, refl, refl, refl)

-- Every agent of a run is counted once, as connected or as failed.
pub summarize-total :
    (results : List Result)
    → ((summarize results).total ≡ length results)
      × ((summarize results).connected + (summarize results).failed ≡ length results)
      × ((summarize results).restarted ≤ length results)
unfolding summarize
summarize-total results =
    let start = empty_report (length results) in
    let c = add_results-Counted results (start, []) in
    let same =
      with_percentiles-same (add_results (start, []) results).0
        (add_results (start, []) results).1 in
    (same.0 ∙ c.total, omega (arith, same.1, same.2, c.outcome), omega (arith, same.3, c.restarts))

percentile_cons :
    (l : List ℕ) (p : ℕ) → 0 < length l → percentile l p ≡ get_or l (rank_of p (length l) - 1) 0
unfolding percentile
percentile_cons [] p h = absurd (omega (arith, h))
percentile_cons (x ∷ xs) p h = refl

percentile-le :
    (l : List ℕ) (p q : ℕ)
    → Ascending compare l
    → 0 < length l
    → p * length l ≤ q * length l
    → percentile l p ≤ percentile l q
percentile-le l p q h n le =
    rw (percentile_cons l p n, percentile_cons l q n)
      (get_or-le l (rank_of p (length l) - 1) (rank_of q (length l) - 1) h (ground (arith, le))
        (ground (arith, n)))

percentile-last :
    (l : List ℕ) (p : ℕ)
    → Ascending compare l
    → 0 < length l
    → percentile l p ≤ get_or l (length l - 1) 0
percentile-last l p h n =
    rw (percentile_cons l p n) (
      get_or-le l (rank_of p (length l) - 1) (length l - 1) h (ground (arith, n))
        (omega (arith, n)))

with_percentiles-ordered :
    (r : Report) (l : List ℕ)
    → r.connect_p50 ≤ r.connect_p99
    → r.connect_p99 ≤ r.connect_max
    → ((with_percentiles r l).connect_p50 ≤ (with_percentiles r l).connect_p99)
      × ((with_percentiles r l).connect_p99 ≤ (with_percentiles r l).connect_max)
with_percentiles-ordered r [] h k = (h, k)
with_percentiles-ordered r (x ∷ xs) h k =
    let sorted = sort compare (x ∷ xs) in
    let up = sort-Ascending compare compare-IsOrder (x ∷ xs) in
    let n : 0 < length sorted = omega (arith, length-Perm (sort-Perm compare (x ∷ xs))) in
    (
      percentile-le sorted 50 99 up n (mul-le-mul_right (length sorted) (omega arith)),
      percentile-last sorted 99 up n,
    )

-- The median of a report is at most its 99th percentile, and that at most its maximum.
pub summarize-ordered :
    (results : List Result)
    → ((summarize results).connect_p50 ≤ (summarize results).connect_p99)
      × ((summarize results).connect_p99 ≤ (summarize results).connect_max)
unfolding summarize
summarize-ordered results =
    let sums = add_results (empty_report (length results), []) results in
    let c = add_results-Counted results (empty_report (length results), []) in
    with_percentiles-ordered (sums.0) (sums.1) (omega (arith, c.p50, c.p99))
      (omega (arith, c.p99, c.top))
