-- ===== src/Api/Filter.antt =====
-- The filters of internal/api/filter.go on agents that are already parsed. The regexp package is
-- a parameter of parsing; here a compiled expression is its MatchString.
pub mod Laws
use grex.Base.{
  Bool, true, false, not, ◌&&◌, ◌||◌, List, [], ◌∷◌, ◌++◌, Option, none, some, Str, text, str_eq,
  Assoc, lookup, keep, if◌then◌else◌,
}
use grex.Fleet.Types.{Agent}
use grex.Fleet.View.{supervisor_managed}

abbrev pub op_equal : Str
op_equal = text "="

abbrev pub op_not_equal : Str
op_not_equal = text "!="

abbrev pub op_regex : Str
op_regex = text "=~"

abbrev pub op_not_regex : Str
op_not_regex = text "!~"

pub record AttrMatcher : Type 0 where
  pub key : Str
  pub op : Str
  pub value : Str
  pub re : Option (Str → Bool)

-- String
unfoldable pub matcher_string : AttrMatcher → Str
matcher_string m = m.key ++ m.op ++ m.value

pub record Filters : Type 0 where
  pub matchers : List AttrMatcher
  pub bools : Assoc Bool

-- The fields that `boolFields` names; the map has no entry for another key.
unfoldable pub bool_field : Str → Option (Agent → Bool)
bool_field key =
    if str_eq key (text "healthy")
    then some (λ a. a.healthy)
    else if str_eq key (text "connected")
    then some (λ a. a.connected)
    else if str_eq key (text "via_gateway")
    then some (λ a. a.conn.via_gateway)
    else if str_eq key (text "supervisor_managed")
    then some supervisor_managed
    else none

-- The first map that has the key gives its value.
abbrev pub first_value : Option Str → Option Str → Option Str
first_value (some v) _ = some v
first_value none o = o

unfoldable pub attr_value : Agent → Str → Option Str
attr_value a key = first_value (lookup key a.identifying) (lookup key a.non_identifying)

abbrev pub equals : Option Str → Str → Bool
equals none value = false
equals (some got) value = str_eq got value

abbrev pub regex_matches : Option (Str → Bool) → Option Str → Bool
regex_matches (some re) (some got) = re got
regex_matches _ _ = false

-- The switch on the operator: an absent attribute passes the two negative ones.
unfoldable pub match_attr : Agent → AttrMatcher → Bool
match_attr a m =
    let got = attr_value a m.key in
    if str_eq m.op op_equal
    then equals got m.value
    else if str_eq m.op op_not_equal
    then not (equals got m.value)
    else if str_eq m.op op_regex
    then regex_matches m.re got
    else if str_eq m.op op_not_regex
    then not (regex_matches m.re got)
    else false

unfoldable pub match_attrs : Agent → List AttrMatcher → Bool
match_attrs a [] = true
match_attrs a (m ∷ ms) = match_attr a m && match_attrs a ms

abbrev pub bool_is : Bool → Bool → Bool
bool_is true want = want
bool_is false want = not want

-- A key that `boolFields` lacks is never stored in `bools`; the code would fail on it.
abbrev pub match_field : Agent → Option (Agent → Bool) → Bool → Bool
match_field a none want = false
match_field a (some field) want = bool_is (field a) want

unfoldable pub match_bools : Agent → Assoc Bool → Bool
match_bools a [] = true
match_bools a ((key, want) ∷ rest) = match_field a (bool_field key) want && match_bools a rest

unfoldable pub agent_matches : Agent → Filters → Bool
agent_matches a f = match_attrs a f.matchers && match_bools a f.bools

-- Empty
unfoldable pub is_empty : Filters → Bool
is_empty f = elim f.matchers [ [] ↦ elim f.bools [ [] ↦ true | b ∷ bs ↦ false ] | m ∷ ms ↦ false ]

-- Without filters the slice itself is returned.
unfoldable pub matching_agents : List Agent → Filters → List Agent
matching_agents agents f = if is_empty f then agents else keep (λ a. agent_matches a f) agents
