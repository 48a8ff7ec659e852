-- ===== src/Ui/Pages.antt =====
-- The numbered pages under the fleet table of internal/ui/ui.go. Lengths, limits and offsets are
-- never negative there, so the tests for `<= 0` are tests for 0.
use grex.Base.{
  ℕ, zero, suc, ◌+◌, ◌-◌, ◌*◌, ◌/◌, ◌≤◌, ◌<◌, ◌≡◌, ◌↔◌, List, [], ◌∷◌, if◌then◌else◌, ◌||◌, ◌==◌,
  ltb, In, arith,
}
use native.Mathlib.Nat.{mul-div_cancel, div-mul-le_self, lt-div-mul-add, le-div_iff_mul-le}

unfoldable pub page_count : ℕ → ℕ → ℕ
page_count total limit = if (total == 0) || (limit == 0) then 0 else ((total + limit) - 1) / limit

unfoldable pub page_num : ℕ → ℕ → ℕ
page_num offset limit = if limit == 0 then 1 else offset / limit + 1

abbrev at_least_1 : ℕ → ℕ
at_least_1 page = if ltb page 1 then 1 else page

unfoldable pub page_offset : ℕ → ℕ → ℕ
page_offset page limit = if limit == 0 then 0 else (at_least_1 page - 1) * limit

-- out[i] = i + 1, from this i on.
abbrev count_up : ℕ → ℕ → List ℕ
count_up zero i = []
count_up (suc n) i = i ∷ count_up n (suc i)

unfoldable pub page_list : ℕ → ℕ → List ℕ
page_list total limit = count_up (page_count total limit) 1

sub-mul : (p limit : ℕ) → 0 < p → (p - 1) * limit + limit ≡ p * limit
sub-mul zero limit h = absurd (omega (arith, h))
sub-mul (suc p) limit h = let e : suc p - 1 ≡ p = omega arith in rw e (omega arith)

count_up-In : (n i p : ℕ) → In p (count_up n i) ↔ ((i ≤ p) × (p < i + n))
count_up-In zero i p = ground arith
count_up-In (suc n) i p = ground (arith, count_up-In n (suc i) p)

-- With a limit the numbers offered are those of the pages, from 1 on, that begin before the end of
-- the list.
pub page_list-In :
    (total limit p : ℕ)
    → 0 < limit
    → In p (page_list total limit) ↔ ((0 < p) × (page_offset p limit < total))
unfolding page_list page_count page_offset
page_list-In total limit p k = ground (
  arith,
  count_up-In (page_count total limit) 1 p,
  le-div_iff_mul-le {k = limit} {x = p} {y = total + limit - 1} k,
  sub-mul p limit,
)

-- With a limit, every offset lies on the page of its number, which begins at most a limit before
-- it; and the number of a page, from 1 on, is the number at the offset where it begins.
pub page_num-page_offset :
    (offset page limit : ℕ)
    → 0 < limit
    → 0 < page
    → (page_offset (page_num offset limit) limit ≤ offset)
      × (offset < page_offset (page_num offset limit) limit + limit)
      × (page_num (page_offset page limit) limit ≡ page)
unfolding page_num page_offset
page_num-page_offset offset page limit k h = ground (
  arith,
  div-mul-le_self offset limit,
  lt-div-mul-add {a = offset} {b = limit} k,
  mul-div_cancel (page - 1) k,
)
