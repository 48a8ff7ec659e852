-- ===== src/Ui/Sort/Links.antt =====
-- The links of the table's head (sortHref of internal/ui/ui.go), read by parseSort.
use mathlib.Core.Path.{subst}
use mathlib.Core.Logic.{◌⊎◌}
use grex.Base.{
  All, ◌≡◌, inl, inr, refl, sym, true, false, ◌||◌, List, [], ◌∷◌, Str, text, str_eq, elem,
  to_lower, trim_space, trim_by, insert, delete, lookup-insert, lookup-delete, In, arith,
}
use grex.Fleet.View.{is_empty}
use grex.Ui.Query.{Values, get}
use grex.Ui.Sort.{sort_columns, parse_sort, next_order, sort_query}

abbrev Direction : Str → Type 0
Direction order = (order ≡ text "asc") ⊎ (order ≡ text "desc")

next_order-Direction :
    (col cur_sort cur_order : Str) → Direction (next_order col cur_sort cur_order)
unfolding next_order
next_order-Direction col cur_sort cur_order = ground arith

get-sort :
    (q : Values) (col cur_sort cur_order : Str)
    → get (text "sort") (sort_query q col cur_sort cur_order) ≡ col
unfolding get sort_query str_eq
get-sort q col cur_sort cur_order =
    rw
      (
        lookup-insert (text "order") (text "sort") (next_order col cur_sort cur_order ∷ [])
            (insert (text "sort") (col ∷ []) (delete (text "offset") q)),
        lookup-insert (text "sort") (text "sort") (col ∷ []) (delete (text "offset") q),
      )
      refl

get-order :
    (q : Values) (col cur_sort cur_order : Str)
    → get (text "order") (sort_query q col cur_sort cur_order) ≡ next_order col cur_sort cur_order
unfolding get sort_query str_eq
get-order q col cur_sort cur_order =
    rw
      (lookup-insert (text "order") (text "order") (next_order col cur_sort cur_order ∷ [])
        (insert (text "sort") (col ∷ []) (delete (text "offset") q)))
      refl

get-offset :
    (q : Values) (col cur_sort cur_order : Str)
    → get (text "offset") (sort_query q col cur_sort cur_order) ≡ []
unfolding get sort_query str_eq
get-offset q col cur_sort cur_order =
    rw
      (
        lookup-insert (text "order") (text "offset") (next_order col cur_sort cur_order ∷ [])
            (insert (text "sort") (col ∷ []) (delete (text "offset") q)),
        lookup-insert (text "sort") (text "offset") (col ∷ []) (delete (text "offset") q),
        lookup-delete (text "offset") (text "offset") q,
      )
      refl

-- A column's name is taken as it is.
record Plain (col : Str) : Type 0 where
  full : is_empty col ≡ false
  trimmed : trim_space col ≡ col
  known : elem col sort_columns ≡ true

plain : (s : Str) → is_empty s ≡ false → trim_space s ≡ s → elem s sort_columns ≡ true → Plain s
plain s h k l = record { full = h; trimmed = k; known = l }

columns-Plain : All Plain sort_columns
unfolding trim_space trim_by str_eq
columns-Plain = (
  plain (text "status") refl refl refl,
  (
    plain (text "name") refl refl refl,
    (
      plain (text "role") refl refl refl,
      (
        plain (text "version") refl refl refl,
        (
          plain (text "via") refl refl refl,
          (
            plain (text "transport") refl refl refl,
            (plain (text "last_seen") refl refl refl, (plain (text "instance") refl refl refl, _)),
          ),
        ),
      ),
    ),
  ),
)

column-Plain : (cols : List Str) (col : Str) → All Plain cols → In col cols → Plain col
column-Plain [] col p h = absurd h
column-Plain (c ∷ cols) col p (inl e) = subst Plain (sym e) p.0
column-Plain (c ∷ cols) col p (inr h) = column-Plain cols col p.1 h

read-Direction : (order : Str) → Direction order → to_lower (trim_space order) ≡ order
unfolding to_lower trim_space trim_by
read-Direction order (inl e) = rw e refl
read-Direction order (inr e) = rw e refl

Direction-known :
    (order : Str)
    → Direction order
    → (str_eq order (text "asc") || str_eq order (text "desc")) ≡ true
unfolding str_eq
Direction-known order (inl e) = rw e refl
Direction-known order (inr e) = rw e refl

-- The link in the head of a column that is one of the sort columns asks for the first page in that
-- column's order: read back, it gives the column and the next direction, and no offset.
pub parse_sort-sort_query :
    (q : Values) (col cur_sort cur_order : Str)
    → In col sort_columns
    → (parse_sort (sort_query q col cur_sort cur_order) ≡ (col, next_order col cur_sort cur_order))
      × (get (text "offset") (sort_query q col cur_sort cur_order) ≡ [])
unfolding parse_sort
parse_sort-sort_query q col cur_sort cur_order h =
    let p = column-Plain sort_columns col columns-Plain h in
    let order = next_order col cur_sort cur_order in
    let direction = next_order-Direction col cur_sort cur_order in
    (
      rw
          (
            get-sort q col cur_sort cur_order,
            get-order q col cur_sort cur_order,
            p.full,
            p.trimmed,
            p.known,
            read-Direction order direction,
            Direction-known order direction,
          )
          refl,
      get-offset q col cur_sort cur_order,
    )
