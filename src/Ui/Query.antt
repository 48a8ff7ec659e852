-- ===== src/Ui/Query.antt =====
-- The query of a page of internal/ui/ui.go: url.Values, the links that change it, and what the page
-- echoes of it. A link is built on a copy of the query, here a value.
use grex.Base.{
  ℕ, ◌/◌, ◌%◌, ◌+◌, ltb, leb, ◌==◌, Bool, ◌&&◌, ◌||◌, List, [], ◌∷◌, ◌++◌, Option, none, some, Str,
  text, Assoc, lookup, insert, delete, map, elem, trim_space, if◌then◌else◌,
}
use grex.Base.Order.{str_compare}
use grex.Base.Order.Sorting.{sort}
use grex.Fleet.View.{is_empty}

abbrev pub Values : Type 0
Values = Assoc (List Str)

-- Get: the first value of the key, the empty text when there is none.
abbrev first : Option (List Str) → Str
first none = []
first (some []) = []
first (some (v ∷ vs)) = v

unfoldable pub get : Str → Values → Str
get key q = first (lookup key q)

-- q["match"], a nil slice when absent.
abbrev pub all_of : Str → Values → List Str
all_of key q = elim (lookup key q) [ none ↦ [] | some vs ↦ vs ]

abbrev is_letter_or_digit : ℕ → Bool
is_letter_or_digit c = (leb 48 c && leb c 57) || ((leb 65 c && leb c 90) || (leb 97 c && leb c 122))

-- The bytes that url.QueryEscape leaves alone: letters, digits, - . _ ~
abbrev is_plain : ℕ → Bool
is_plain c = is_letter_or_digit c || ((c == 45) || ((c == 46) || ((c == 95) || (c == 126))))

abbrev hex_digit : ℕ → ℕ
hex_digit n = if ltb n 10 then 48 + n else 55 + n

-- A space becomes +, any other byte that is not plain % and two hexadecimal digits.
unfoldable pub query_escape : Str → Str
query_escape [] = []
query_escape (c ∷ s) =
    let rest = query_escape s in
    if is_plain c
    then c ∷ rest
    else (if c == 32 then 43 ∷ rest else 37 ∷ hex_digit (c / 16) ∷ hex_digit (c % 16) ∷ rest)

abbrev joined : Str → Str → Str
joined [] rest = rest
joined (c ∷ s) [] = c ∷ s
joined (c ∷ s) (d ∷ rest) = (c ∷ s) ++ text "&" ++ (d ∷ rest)

abbrev encode_values : Str → List Str → Str
encode_values key [] = []
encode_values key (v ∷ vs) =
    joined (query_escape key ++ text "=" ++ query_escape v) (encode_values key vs)

abbrev encode_keys : Values → List Str → Str
encode_keys q [] = []
encode_keys q (k ∷ ks) = joined (encode_values k (all_of k q)) (encode_keys q ks)

-- Encode: the keys in order, each with all its values.
unfoldable pub encode : Values → Str
encode q = encode_keys q (sort str_compare (map (λ kv. kv.0) q))

abbrev after_mark : Str → Str
after_mark [] = []
after_mark (c ∷ enc) = text "?" ++ (c ∷ enc)

unfoldable pub with_value : Values → Str → Str → Values
with_value q key [] = delete key q
with_value q key (c ∷ v) = insert key ((c ∷ v) ∷ []) q

unfoldable pub query_with : Values → Str → Str → Str
query_with q key v = after_mark (encode (with_value q key v))

unfoldable pub poll_query : Values → Str
poll_query q = after_mark (encode q)

abbrev trimmed : List Str → List Str
trimmed [] = []
trimmed (m ∷ ms) =
    let rest = trimmed ms in elim (trim_space m) [ [] ↦ rest | c ∷ t ↦ (c ∷ t) ∷ rest ]

abbrev attr_match : Str → Str → List Str
attr_match [] v = []
attr_match (c ∷ key) v = ((c ∷ key) ++ text "=" ++ v) ∷ []

abbrev reserved : List Str
reserved =
    text "limit"
    ∷ text "offset"
    ∷ text "sort"
    ∷ text "order"
    ∷ text "healthy"
    ∷ text "connected"
    ∷ text "via_gateway"
    ∷ text "match"
    ∷ text "attr_key"
    ∷ text "attr_value"
    ∷ []

-- The parameters that are attributes themselves, in the order in which the map is walked.
abbrev bare_matches : Values → List Str
bare_matches [] = []
bare_matches ((k, []) ∷ q) = bare_matches q
bare_matches ((k, v ∷ vs) ∷ q) =
    let rest = bare_matches q in
    if elem k reserved || is_empty (trim_space v) then rest else (k ++ text "=" ++ v) ∷ rest

unfoldable pub collect_matches : Values → List Str
collect_matches q =
    trimmed (all_of (text "match") q)
    ++ (attr_match (trim_space (get (text "attr_key") q)) (get (text "attr_value") q)
        ++ bare_matches q)
