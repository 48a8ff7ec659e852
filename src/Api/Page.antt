-- ===== src/Api/Page.antt =====
-- parsePagination of internal/api/handler.go, and the window that listAgents cuts out.
use grex.Base.{
  ℕ, ◌+◌, ◌≤◌, ◌<◌, min, ◌≡◌, refl, [], ◌∷◌, Option, none, some, Str, ◌==◌, if◌then◌else◌, arith,
}
use grex.Base.Int.{ℤ, pos, negsuc}

abbrev pub default_limit : ℕ
default_limit = 100

abbrev pub max_limit : ℕ
max_limit = 1000

-- The result, or the error that the request is answered with.
pub data Pagination : Type 0 where
  window : ℕ → ℕ → Pagination
  bad_limit bad_offset : Pagination

-- strconv.Atoi, or `none` on its error.
abbrev pub Atoi : Type 0
Atoi = Str → Option ℤ

-- A parameter that is absent reads as the empty text and has its default; `none` is an error.
abbrev pub limit_of : Option ℤ → Option ℕ
limit_of none = none
limit_of (some (negsuc n)) = none
limit_of (some (pos n)) = if n == 0 then none else some (min n max_limit)

abbrev pub offset_of : Option ℤ → Option ℕ
offset_of none = none
offset_of (some (negsuc n)) = none
offset_of (some (pos n)) = some n

unfoldable pub parse_limit : Atoi → Str → Option ℕ
parse_limit atoi [] = some default_limit
parse_limit atoi (c ∷ cs) = limit_of (atoi (c ∷ cs))

unfoldable pub parse_offset : Atoi → Str → Option ℕ
parse_offset atoi [] = some 0
parse_offset atoi (c ∷ cs) = offset_of (atoi (c ∷ cs))

abbrev pub paginate : Option ℕ → Option ℕ → Pagination
paginate none offset = bad_limit
paginate (some limit) none = bad_offset
paginate (some limit) (some offset) = window limit offset

unfoldable pub parse_pagination : Atoi → Str → Str → Pagination
parse_pagination atoi limit offset = paginate (parse_limit atoi limit) (parse_offset atoi offset)

-- The bounds of the page in a list of this length.
unfoldable pub page_bounds : ℕ → ℕ → ℕ → ℕ × ℕ
page_bounds limit offset total = let start = min offset total in (start, min (start + limit) total)

parse_limit-bounds :
    (atoi : Atoi) (s : Str) (limit : ℕ)
    → parse_limit atoi s ≡ some limit
    → (0 < limit) × (limit ≤ max_limit)
unfolding parse_limit
parse_limit-bounds atoi [] limit h = ground arith
parse_limit-bounds atoi (c ∷ cs) limit h = bounded (atoi (c ∷ cs)) h
  where
    bounded : (o : Option ℤ) → limit_of o ≡ some limit → (0 < limit) × (limit ≤ max_limit)
    bounded none e = absurd cc
    bounded (some (negsuc n)) e = absurd cc
    bounded (some (pos n)) e = ground arith

-- Whatever the query says and however numbers are read, an accepted request asks for at least one
-- agent and at most 1000, and its page lies within the list and is no longer than the limit.
pub parse_pagination-bounds :
    (atoi : Atoi) (s t : Str) (limit offset total : ℕ)
    → parse_pagination atoi s t ≡ window limit offset
    → (0 < limit)
      × (limit ≤ max_limit)
      × ((page_bounds limit offset total).0 ≤ (page_bounds limit offset total).1)
      × ((page_bounds limit offset total).1 ≤ total)
      × ((page_bounds limit offset total).1 ≤ (page_bounds limit offset total).0 + limit)
unfolding parse_pagination page_bounds
parse_pagination-bounds atoi s t limit offset total h =
    accepted (parse_limit atoi s) (parse_offset atoi t) refl h
  where
    accepted :
        (o p : Option ℕ)
        → parse_limit atoi s ≡ o
        → paginate o p ≡ window limit offset
        → (0 < limit)
          × (limit ≤ max_limit)
          × (min offset total ≤ min (min offset total + limit) total)
          × (min (min offset total + limit) total ≤ total)
          × (min (min offset total + limit) total ≤ min offset total + limit)
    accepted none p e g = absurd cc
    accepted (some l) none e g = absurd cc
    accepted (some l) (some k) e g = ground (arith, parse_limit-bounds atoi s limit)
