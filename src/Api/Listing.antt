-- ===== src/Api/Listing.antt =====
-- listAgents of internal/api/handler.go: what a request with an accepted window and accepted
-- filters is answered with, and a client that follows the pages.
use grex.Base.{
  ℕ, zero, suc, ◌+◌, ◌*◌, ◌-◌, ◌≤◌, min, ◌≡◌, refl, ap, sym, ◌∙◌, Bool, List, [], ◌∷◌, ◌++◌, Option,
  length, take, drop, map, arith, take-append-drop,
}
use grex.Base.Order.Sorting.{NoTies, sort-Perm, length-Perm}
use grex.Fleet.Types.{Agent}
use grex.Fleet.Registry.{Registry}
use grex.Fleet.View.{Capabilities, AgentView, summary_view}
use grex.Persistence.Store.{Tables}
use grex.Api.Filter.{Filters, matching_agents}
use grex.Api.Page.{page_bounds}
use grex.Api.Paginate.{HeapOps, compare_uid, sort_by_uid, slice, page_by_uid}
use grex.Api.Paginate.Laws.{page_by_uid-slice}
use grex.Api.Handler.{listed_agents}

pub record ListResponse : Type 0 where
  pub agents : List AgentView
  pub total : ℕ
  pub limit : ℕ
  pub offset : ℕ
  pub partial : Bool

module _ (ops : HeapOps) (bits : Capabilities ℕ) where
  unfoldable pub page_response : List Agent → Bool → ℕ → ℕ → ListResponse
  page_response matched partial limit offset =
      let bounds = page_bounds limit offset (length matched) in
      record {
        agents = map (summary_view bits) (page_by_uid ops matched (bounds.0) (bounds.1));
        total = length matched;
        limit = limit;
        offset = offset;
        partial = partial;
      }

  unfoldable pub list_response : Registry → Option Tables → ℕ → Filters → ℕ → ℕ → ListResponse
  list_response r store now filters limit offset =
      let merged = listed_agents r store now in
      page_response (matching_agents (merged.0) filters) (merged.1) limit offset

  -- The agents of as many pages in a row, from this offset on.
  unfoldable pub follow_pages : List Agent → Bool → ℕ → ℕ → ℕ → List AgentView
  follow_pages matched partial limit zero offset = []
  follow_pages matched partial limit (suc n) offset =
      (page_response matched partial limit offset).agents
      ++ follow_pages matched partial limit n (offset + limit)

length-drop : {A : Type 0} (n : ℕ) (xs : List A) → length (drop n xs) ≡ length xs - n
length-drop zero xs = omega arith
length-drop (suc n) [] = omega arith
length-drop (suc n) (x ∷ xs) = omega (arith, length-drop n xs)

drop-length : {A : Type 0} (n : ℕ) (xs : List A) → length xs ≤ n → drop n xs ≡ []
drop-length zero [] h = refl
drop-length zero (x ∷ xs) h = absurd (omega arith)
drop-length (suc n) [] h = refl
drop-length (suc n) (x ∷ xs) h = drop-length n xs (omega arith)

drop-min : {A : Type 0} (n m : ℕ) (xs : List A) → m ≡ min n (length xs) → drop m xs ≡ drop n xs
drop-min zero zero xs h = refl
drop-min zero (suc m) xs h = absurd (omega (arith, h))
drop-min (suc n) zero [] h = refl
drop-min (suc n) (suc m) [] h = refl
drop-min (suc n) zero (x ∷ xs) h = absurd (omega (arith, h))
drop-min (suc n) (suc m) (x ∷ xs) h = drop-min n m xs (omega (arith, h))

take-min : {A : Type 0} (n m : ℕ) (xs : List A) → m ≡ min n (length xs) → take m xs ≡ take n xs
take-min zero zero xs h = refl
take-min zero (suc m) xs h = absurd (omega (arith, h))
take-min (suc n) zero [] h = refl
take-min (suc n) (suc m) [] h = refl
take-min (suc n) zero (x ∷ xs) h = absurd (omega (arith, h))
take-min (suc n) (suc m) (x ∷ xs) h = ap (λ l. x ∷ l) (take-min n m xs (omega (arith, h)))

drop-drop : {A : Type 0} (m n k : ℕ) (xs : List A) → k ≡ m + n → drop n (drop m xs) ≡ drop k xs
drop-drop zero n k xs h = ap (λ i. drop i xs) {x = n} (omega (arith, h))
drop-drop (suc m) zero zero xs h = absurd (omega (arith, h))
drop-drop (suc m) (suc n) zero xs h = absurd (omega (arith, h))
drop-drop (suc m) zero (suc k) [] h = refl
drop-drop (suc m) (suc n) (suc k) [] h = refl
drop-drop (suc m) n (suc k) (x ∷ xs) h = drop-drop m n k xs (omega (arith, h))

map-append : {A B : Type 0} (f : A → B) (xs ys : List A) → map f (xs ++ ys) ≡ map f xs ++ map f ys
map-append f [] ys = refl
map-append f (x ∷ xs) ys = ap (λ l. f x ∷ l) (map-append f xs ys)

pages-join :
    {A : Type 0} (limit offset : ℕ) (xs : List A)
    → take limit (drop offset xs) ++ drop (offset + limit) xs ≡ drop offset xs
pages-join limit offset xs =
    ap (λ l. take limit (drop offset xs) ++ l)
      (sym (drop-drop offset limit (offset + limit) xs refl))
    ∙ take-append-drop limit (drop offset xs)

-- The window of a request, in terms of the limit and the offset alone.
slice-page_bounds :
    {A : Type 0} (limit offset total : ℕ) (xs : List A)
    → length xs ≡ total
    → slice xs ((page_bounds limit offset total).0) ((page_bounds limit offset total).1)
      ≡ take limit (drop offset xs)
unfolding page_bounds
slice-page_bounds limit offset total xs h =
    let start = min offset total in
    let count = min (start + limit) total - start in
    let dropped : drop start xs ≡ drop offset xs = drop-min offset start xs (omega (arith, h)) in
    take-min limit count (drop start xs) (omega (arith, h, length-drop start xs))
    ∙ ap (take limit) dropped

pub page_bounds-le :
    (limit offset total : ℕ)
    → (page_bounds limit offset total).0 ≤ (page_bounds limit offset total).1
unfolding page_bounds
page_bounds-le limit offset total = omega arith

module _ (ops : HeapOps) (bits : Capabilities ℕ) (matched : List Agent) (partial : Bool) where
  page_response-agents :
      (limit offset : ℕ)
      → NoTies compare_uid matched
      → (page_response ops bits matched partial limit offset).agents
        ≡ map (summary_view bits) (take limit (drop offset (sort_by_uid matched)))
  unfolding page_response
  page_response-agents limit offset d =
      let bounds = page_bounds limit offset (length matched) in
      ap (map (summary_view bits)) (
        page_by_uid-slice ops matched (bounds.0) (bounds.1) d
          (page_bounds-le limit offset (length matched))
        ∙ slice-page_bounds limit offset (length matched) (sort_by_uid matched)
            (sym (length-Perm (sort-Perm compare_uid matched))))

  follow_pages-drop :
      (limit n offset : ℕ)
      → NoTies compare_uid matched
      → length matched ≤ offset + n * limit
      → follow_pages ops bits matched partial limit n offset
        ≡ map (summary_view bits) (drop offset (sort_by_uid matched))
  unfolding follow_pages
  follow_pages-drop limit zero offset d h =
      let sorted : length matched ≡ length (sort_by_uid matched) =
        length-Perm (sort-Perm compare_uid matched) in
      rw (drop-length offset (sort_by_uid matched) (omega (arith, h, sorted))) refl
  follow_pages-drop limit (suc n) offset d h =
      let enough : length matched ≤ (offset + limit) + n * limit = omega (arith, h) in
      rw (page_response-agents limit offset d, follow_pages-drop limit n (offset + limit) d enough)
        (sym (map-append _ _ _)
          ∙ ap (map (summary_view bits)) (pages-join limit offset (sort_by_uid matched)))

  -- A client that follows enough pages of one matched list, from the start and with one limit, is
  -- shown each matched agent once, in the order of the ids. No two agents have one id, and the
  -- pages are enough if together they are as long as the list.
  pub follow_pages-all :
      (limit n : ℕ)
      → NoTies compare_uid matched
      → length matched ≤ n * limit
      → follow_pages ops bits matched partial limit n 0
        ≡ map (summary_view bits) (sort_by_uid matched)
  follow_pages-all limit n d h = follow_pages-drop limit n 0 d (omega (arith, h))
