-- ===== src/Api/Parse/Tests.antt =====
-- Queries that internal/api/filter.go parses.
use grex.Base.{
  ◌≡◌, refl, inl, inr, Bool, true, List, [], ◌∷◌, ◌++◌, Option, none, some, Str, text, Assoc,
  str_eq, trim_space, trim_by, has_prefix, lookup, insert,
}
use grex.Api.Filter.{AttrMatcher, Filters, op_equal, op_regex, matcher_string, bool_field}
use grex.Api.Parse.{
  matcher, parse_matcher, matcher_pattern, unquote_matcher_value, split_matcher, parse_bool,
}
use grex.Api.Parse.Laws.{IsPlain, parse_matcher-matcher_string}
use grex.Api.Parse.Filters.{parse_filters}
use grex.Api.Parse.Accepted.{IsAccepted, parse_filters-IsAccepted}

-- An engine that takes each pattern for the one text between its anchors.
abbrev literal : Str → Option (Str → Bool)
literal pattern = some (λ s. str_eq pattern (text "^(?:" ++ s ++ text ")$"))

abbrev is_gateway : AttrMatcher
is_gateway = record { key = text "svc"; op = op_equal; value = text "gw"; re = none }

abbrev like_gateway : AttrMatcher
like_gateway = record {
  key = text "svc";
  op = op_regex;
  value = text "gw";
  re = literal (text "^(?:gw)$");
}

is_gateway-IsPlain : IsPlain is_gateway
unfolding unquote_matcher_value trim_space trim_by matcher_string
is_gateway-IsPlain = record {
  key_bytes = ((refl, refl, refl), ((refl, refl, refl), ((refl, refl, refl), _)));
  key_full = refl;
  op = inl refl;
  value_starts = (refl, refl);
  value_line = refl;
  key_trimmed = refl;
  value_bare = refl;
  trimmed = refl;
}

like_gateway-IsPlain : IsPlain like_gateway
unfolding unquote_matcher_value trim_space trim_by matcher_string
like_gateway-IsPlain = record {
  key_bytes = ((refl, refl, refl), ((refl, refl, refl), ((refl, refl, refl), _)));
  key_full = refl;
  op = inr (inr (inl refl));
  value_starts = (refl, refl);
  value_line = refl;
  key_trimmed = refl;
  value_bare = refl;
  trimmed = refl;
}

parse_matcher-matcher_string_example :
    parse_matcher literal (matcher_string is_gateway) ≡ matcher is_gateway
unfolding str_eq
parse_matcher-matcher_string_example =
    parse_matcher-matcher_string literal is_gateway is_gateway-IsPlain (inl (refl, refl))

abbrev query : Assoc (List Str)
query =
    (text "healthy", text "true" ∷ [])
    ∷ (text "svc", text "gw" ∷ [])
    ∷ (text "match", text "svc =~ gw" ∷ [])
    ∷ (text "limit", text "5" ∷ [])
    ∷ []

abbrev asked : Filters
asked = record { matchers = is_gateway ∷ like_gateway ∷ []; bools = (text "healthy", true) ∷ [] }

parse_filters-IsAccepted_example : IsAccepted asked
unfolding parse_filters parse_matcher split_matcher trim_space trim_by str_eq lookup insert
    bool_field unquote_matcher_value matcher_pattern has_prefix parse_bool
parse_filters-IsAccepted_example = parse_filters-IsAccepted literal query asked refl
