-- ===== src/Api/Parse/Accepted.antt =====
-- What filters ParseFilters (internal/api/filter.go) accepts.
use mathlib.Core.Path.{subst}
use grex.Base.{
  ◌≡◌, ◌≢◌, ◌⊎◌, inl, inr, refl, Bool, false, List, [], ◌∷◌, ◌++◌, Option, none, some, Str, text,
  Assoc, insert, lookup, elem, All, All-append, str_eq, trim_space, Bool-cases,
}
use grex.Fleet.View.{is_empty}
use grex.Fleet.Types.{Agent}
use grex.Api.Filter.{AttrMatcher, Filters, op_equal, bool_field}
use grex.Api.Parse.{
  is_regex_op, MatcherResult, matcher, empty_matcher, invalid_matcher, no_key, bad_regex,
  parse_matcher, parts_matcher, finish_matcher, with_regex, parse_bool, reserved_params,
  split_matcher, matcher_pattern, unquote_matcher_value,
}
use grex.Api.Parse.Filters.{
  add_matcher, add_bool, add_by, add_value, add_param, add_params, add_match, add_matches,
  add_legacy, parse_filters, first_of, all_of, no_filters,
}

-- A matcher names an attribute, and has an expression if its operator needs one.
abbrev pub IsSound : AttrMatcher → Type 0
IsSound m = (is_empty m.key ≡ false) × ((is_regex_op m.op ≡ false) ⊎ (m.re ≢ none))

abbrev HasField : Str × Bool → Type 0
HasField kb = bool_field (kb.0) ≢ none

-- What the matching of agents relies on.
pub record IsAccepted (f : Filters) : Type 0 where
  pub sound : All IsSound f.matchers
  pub fields : All HasField f.bools

abbrev Good : MatcherResult → Type 0
Good (matcher m) = IsSound m
Good empty_matcher = Unit
Good invalid_matcher = Unit
Good no_key = Unit
Good bad_regex = Unit

abbrev Fine : Option Filters → Type 0
Fine none = Unit
Fine (some f) = IsAccepted f

finish_matcher-Good :
    (compile : Str → Option (Str → Bool)) (key op value : Str)
    → Good (finish_matcher compile key op value)
finish_matcher-Good compile key op value = elim (Bool-cases (is_empty key)) [
  | inl e ↦ rw e _
  | inr e ↦ rw e (elim (Bool-cases (is_regex_op op)) [
    | inl r ↦ rw r (compiled e (compile (matcher_pattern value)))
    | inr r ↦ rw r (e, inl r)
  ])
]
  where
    compiled :
        is_empty key ≡ false → (o : Option (Str → Bool)) → Good (with_regex compile key op value o)
    compiled e none = _
    compiled e (some re) = (e, inr (λ n. absurd cc))

parse_matcher-Good :
    (compile : Str → Option (Str → Bool)) (s : Str) → Good (parse_matcher compile s)
unfolding parse_matcher
parse_matcher-Good compile s = elim (Bool-cases (is_empty (trim_space s))) [
  | inl e ↦ rw e _
  | inr e ↦ rw e (parts (split_matcher (trim_space s)))
]
  where
    parts : (o : Option (Str × Str × Str)) → Good (parts_matcher compile o)
    parts none = _
    parts (some (key, op, value)) =
        finish_matcher-Good compile (trim_space key) op (unquote_matcher_value value)

add_matcher-Fine :
    (f : Filters) (r : MatcherResult) → IsAccepted f → Good r → Fine (add_matcher f r)
add_matcher-Fine f (matcher m) h g = record {
  sound = All-append IsSound f.matchers (m ∷ []) h.sound (g, _);
  fields = h.fields;
}
add_matcher-Fine f empty_matcher h g = _
add_matcher-Fine f invalid_matcher h g = _
add_matcher-Fine f no_key h g = _
add_matcher-Fine f bad_regex h g = _

insert-HasField :
    (k : Str) (b : Bool) (m : Assoc Bool)
    → bool_field k ≢ none
    → All HasField m
    → All HasField (insert k b m)
unfolding insert
insert-HasField k b [] h a = (h, _)
insert-HasField k b ((j, c) ∷ m) h a = elim (Bool-cases (str_eq j k)) [
  | inl e ↦ rw e (h, a.1)
  | inr e ↦ rw e (a.0, insert-HasField k b m h a.1)
]

module _ (compile : Str → Option (Str → Bool)) where
  add_by-Fine :
      (f : Filters) (key v : Str) (o : Option (Agent → Bool))
      → bool_field key ≡ o
      → IsAccepted f
      → Fine (add_by compile f key v o)
  add_by-Fine f key v none e h =
      add_matcher-Fine f _ h (parse_matcher-Good compile (key ++ (op_equal ++ v)))
  add_by-Fine f key v (some field) e h = flagged (parse_bool v) (λ n. absurd cc)
    where
      flagged : (o : Option Bool) → bool_field key ≢ none → Fine (add_bool f key o)
      flagged none n = _
      flagged (some b) n = record {
        sound = h.sound;
        fields = insert-HasField key b f.bools n h.fields;
      }

  add_value-Fine : (f : Filters) (key v : Str) → IsAccepted f → Fine (add_value compile f key v)
  add_value-Fine f key [] h = h
  add_value-Fine f key (c ∷ v) h = add_by-Fine f key (c ∷ v) (bool_field key) refl h

  add_param-Fine :
      (f : Filters) (key : Str) (values : List Str)
      → IsAccepted f
      → Fine (add_param compile f key values)
  add_param-Fine f key [] h = h
  add_param-Fine f key (v ∷ vs) h = elim (Bool-cases (elem key reserved_params)) [
    | inl e ↦ rw e h
    | inr e ↦ rw e (add_value-Fine f key (trim_space v) h)
  ]

  add_params-Fine :
      (o : Option Filters) (q : Assoc (List Str)) → Fine o → Fine (add_params compile o q)
  add_params-Fine none q h = _
  add_params-Fine (some f) [] h = h
  add_params-Fine (some f) ((key, values) ∷ q) h =
      add_params-Fine (add_param compile f key values) q (add_param-Fine f key values h)

  add_match-Fine : (f : Filters) (raw : Str) → IsAccepted f → Fine (add_match compile f raw)
  add_match-Fine f raw h = elim (Bool-cases (is_empty (trim_space raw))) [
    | inl e ↦ rw e h
    | inr e ↦ rw e (add_matcher-Fine f _ h (parse_matcher-Good compile (trim_space raw)))
  ]

  add_matches-Fine :
      (o : Option Filters) (raws : List Str) → Fine o → Fine (add_matches compile o raws)
  add_matches-Fine none raws h = _
  add_matches-Fine (some f) [] h = h
  add_matches-Fine (some f) (raw ∷ raws) h =
      add_matches-Fine (add_match compile f raw) raws (add_match-Fine f raw h)

  add_legacy-Fine :
      (o : Option Filters) (key value : Str) → Fine o → Fine (add_legacy compile o key value)
  add_legacy-Fine none key value h = _
  add_legacy-Fine (some f) key value h = elim (Bool-cases (is_empty key)) [
    | inl e ↦ rw e h
    | inr e ↦
        rw e (add_matcher-Fine f _ h (parse_matcher-Good compile (key ++ (op_equal ++ value))))
  ]

  -- Filters that a request is accepted with never fail on an agent: every matcher names an
  -- attribute and has an expression if its operator needs one, and every flag is that of a field.
  pub parse_filters-IsAccepted :
      (q : Assoc (List Str)) (f : Filters) → parse_filters compile q ≡ some f → IsAccepted f
  unfolding parse_filters
  parse_filters-IsAccepted q f e = subst Fine e (
      add_legacy-Fine
        (add_matches compile (add_params compile (some no_filters) q)
          (all_of (lookup (text "match") q)))
        (trim_space (first_of (lookup (text "attr_key") q)))
        (first_of (lookup (text "attr_value") q))
        (add_matches-Fine (add_params compile (some no_filters) q)
          (all_of (lookup (text "match") q))
          (add_params-Fine (some no_filters) q (record { sound = _; fields = _ }))))
