-- ===== src/Api/Parse.antt =====
-- ParseMatcher and ParseFilters of internal/api/filter.go. regexp.Compile is a parameter, and a
-- compiled expression is its MatchString; matcherRE, which is a constant, is written out.
pub mod Laws
mod Tests
pub mod Filters
pub mod Accepted
use mathlib.Core.List.{reverse}
use grex.Base.{
  ℕ, Bool, true, false, not, ◌&&◌, ◌||◌, List, [], ◌∷◌, ◌++◌, Option, none, some, Str, text, str_eq,
  Assoc, lookup, insert, elem, if◌then◌else◌, leb, ltb, length, ◌==◌, take, ◌-◌, has_prefix,
  trim_space,
}
use grex.Fleet.View.{is_empty}
use grex.Api.Filter.{AttrMatcher, op_equal, op_not_equal, op_regex, op_not_regex, bool_field}

-- \s of the regexp package
abbrev pub is_blank : ℕ → Bool
is_blank c = (c == 32) || ((c == 9) || ((c == 10) || ((c == 12) || (c == 13))))

abbrev pub skip_blanks : Str → Str
skip_blanks [] = []
skip_blanks (c ∷ s) = let rest = skip_blanks s in if is_blank c then rest else c ∷ s

-- An operator at the front and what follows it, the longer ones first.
abbrev pub split_op : Str → Option (Str × Str)
split_op [] = none
split_op (c ∷ []) = if c == 61 then some (op_equal, []) else none
split_op (c ∷ d ∷ s) =
    if (c == 33) && (d == 126)
    then some (op_not_regex, s)
    else if (c == 61) && (d == 126)
    then some (op_regex, s)
    else if (c == 33) && (d == 61)
    then some (op_not_equal, s)
    else (if c == 61 then some (op_equal, d ∷ s) else none)

-- (.*)$: no dot matches a line feed.
abbrev pub one_line : Str → Bool
one_line [] = true
one_line (c ∷ s) = not (c == 10) && one_line s

abbrev pub value_part : Option (Str × Str) → Option (Str × Str)
value_part none = none
value_part (some (op, s)) = if one_line (skip_blanks s) then some (op, skip_blanks s) else none

-- \s*(!~|=~|!=|=)\s*(.*)$
abbrev pub tail_match : Str → Option (Str × Str)
tail_match s = value_part (split_op (skip_blanks s))

abbrev pub with_byte : ℕ → Option (Str × Str × Str) → Option (Str × Str × Str)
with_byte c none = none
with_byte c (some (key, op, value)) = some (c ∷ key, op, value)

abbrev pub shortest : ℕ → Option (Str × Str) → Option (Str × Str × Str) → Option (Str × Str × Str)
shortest c (some (op, value)) longer = some (c ∷ [], op, value)
shortest c none longer = longer

-- The key (.+?) is as short as can be.
unfoldable pub split_matcher : Str → Option (Str × Str × Str)
split_matcher [] = none
split_matcher (c ∷ s) =
    let longer = with_byte c (split_matcher s) in
    let here = shortest c (tail_match s) longer in if c == 10 then none else here

abbrev pub ends_with : ℕ → Str → Bool
ends_with c s = elim (reverse s) [ [] ↦ false | d ∷ r ↦ d == c ]

-- The text between two like quotes.
abbrev pub inside_quotes : Str → Str
inside_quotes [] = []
inside_quotes (c ∷ s) =
    if ltb (length s) 1
    then c ∷ s
    else (if ((c == 34) && ends_with 34 s) || ((c == 39) && ends_with 39 s)
        then take (length s - 1) s
        else c ∷ s)

unfoldable pub unquote_matcher_value : Str → Str
unquote_matcher_value s = inside_quotes (trim_space s)

abbrev pub has_suffix : Str → Str → Bool
has_suffix s end = has_prefix (reverse s) (reverse end)

-- Anchors are put on where the pattern has none.
abbrev pub anchored : Bool → Bool → Str → Str
anchored true true p = p
anchored false false p = text "^(?:" ++ p ++ text ")$"
anchored false true p = text "^(?:" ++ p ++ text ")"
anchored true false p = text "(?:" ++ p ++ text ")$"

unfoldable pub matcher_pattern : Str → Str
matcher_pattern pattern =
    if is_empty pattern
    then text "^$"
    else anchored (has_prefix pattern (text "^") || has_prefix pattern (text "\\A"))
        (has_suffix pattern (text "$") || has_suffix pattern (text "\\z")) pattern

abbrev pub is_regex_op : Str → Bool
is_regex_op op = str_eq op op_regex || str_eq op op_not_regex

pub data MatcherResult : Type 0 where
  matcher : AttrMatcher → MatcherResult
  empty_matcher invalid_matcher no_key bad_regex : MatcherResult

module _ (compile : Str → Option (Str → Bool)) where
  abbrev pub with_regex : Str → Str → Str → Option (Str → Bool) → MatcherResult
  with_regex key op value none = bad_regex
  with_regex key op value (some re) =
      matcher (record { key = key; op = op; value = value; re = some re })

  abbrev pub finish_matcher : Str → Str → Str → MatcherResult
  finish_matcher key op value =
      if is_empty key
      then no_key
      else (if is_regex_op op
          then with_regex key op value (compile (matcher_pattern value))
          else matcher (record { key = key; op = op; value = value; re = none }))

  abbrev pub parts_matcher : Option (Str × Str × Str) → MatcherResult
  parts_matcher none = invalid_matcher
  parts_matcher (some (key, op, value)) =
      finish_matcher (trim_space key) op (unquote_matcher_value value)

  unfoldable pub parse_matcher : Str → MatcherResult
  parse_matcher s =
      let trimmed = trim_space s in
      if is_empty trimmed then empty_matcher else parts_matcher (split_matcher trimmed)

-- strconv.ParseBool; `none` is its error.
unfoldable pub parse_bool : Str → Option Bool
parse_bool s =
    if elem s (text "1" ∷ text "t" ∷ text "T" ∷ text "TRUE" ∷ text "true" ∷ text "True" ∷ [])
    then some true
    else (if elem s
          (text "0" ∷ text "f" ∷ text "F" ∷ text "FALSE" ∷ text "false" ∷ text "False" ∷ [])
        then some false
        else none)

abbrev pub reserved_params : List Str
reserved_params =
    text "limit"
    ∷ text "offset"
    ∷ text "sort"
    ∷ text "order"
    ∷ text "match"
    ∷ text "attr_key"
    ∷ text "attr_value"
    ∷ []
