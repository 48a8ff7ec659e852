-- ===== src/Api/Parse/Filters.antt =====
-- ParseFilters of internal/api/filter.go, over the values of a query in the order of a walk of the
-- map.
use grex.Base.{
  Bool, List, [], ◌∷◌, ◌++◌, Option, none, some, Str, text, Assoc, lookup, insert, elem,
  if◌then◌else◌, trim_space,
}
use grex.Fleet.Types.{Agent}
use grex.Fleet.View.{is_empty}
use grex.Api.Filter.{Filters, op_equal, bool_field}
use grex.Api.Parse.{MatcherResult, matcher, parse_matcher, parse_bool, reserved_params}

abbrev pub no_filters : Filters
no_filters = record { matchers = []; bools = [] }

-- `none` is an error that the request is answered with.
abbrev pub add_matcher : Filters → MatcherResult → Option Filters
add_matcher f (matcher m) = some (record f { matchers = f.matchers ++ (m ∷ []) })
add_matcher f _ = none

abbrev pub add_bool : Filters → Str → Option Bool → Option Filters
add_bool f key none = none
add_bool f key (some b) = some (record f { bools = insert key b f.bools })

abbrev pub first_of : Option (List Str) → Str
first_of none = []
first_of (some []) = []
first_of (some (v ∷ vs)) = v

abbrev pub all_of : Option (List Str) → List Str
all_of none = []
all_of (some vs) = vs

module _ (compile : Str → Option (Str → Bool)) where
  -- A parameter with this value, trimmed: a flag if its key is a field's, else an attribute.
  abbrev pub add_by : Filters → Str → Str → Option (Agent → Bool) → Option Filters
  add_by f key v (some field) = add_bool f key (parse_bool v)
  add_by f key v none = add_matcher f (parse_matcher compile (key ++ (op_equal ++ v)))

  abbrev pub add_value : Filters → Str → Str → Option Filters
  add_value f key [] = some f
  add_value f key (c ∷ v) = add_by f key (c ∷ v) (bool_field key)

  abbrev pub add_param : Filters → Str → List Str → Option Filters
  add_param f key [] = some f
  add_param f key (v ∷ vs) =
      if elem key reserved_params then some f else add_value f key (trim_space v)

  abbrev pub add_params : Option Filters → Assoc (List Str) → Option Filters
  add_params none q = none
  add_params (some f) [] = some f
  add_params (some f) ((key, values) ∷ q) = add_params (add_param f key values) q

  abbrev pub add_match : Filters → Str → Option Filters
  add_match f raw =
      if is_empty (trim_space raw)
      then some f
      else add_matcher f (parse_matcher compile (trim_space raw))

  abbrev pub add_matches : Option Filters → List Str → Option Filters
  add_matches none raws = none
  add_matches (some f) [] = some f
  add_matches (some f) (raw ∷ raws) = add_matches (add_match f raw) raws

  abbrev pub add_legacy : Option Filters → Str → Str → Option Filters
  add_legacy none key value = none
  add_legacy (some f) key value =
      if is_empty key
      then some f
      else add_matcher f (parse_matcher compile (key ++ (op_equal ++ value)))

  unfoldable pub parse_filters : Assoc (List Str) → Option Filters
  parse_filters q =
      add_legacy (add_matches (add_params (some no_filters) q) (all_of (lookup (text "match") q)))
        (trim_space (first_of (lookup (text "attr_key") q)))
        (first_of (lookup (text "attr_value") q))
