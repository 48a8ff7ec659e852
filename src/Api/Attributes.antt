-- ===== src/Api/Attributes.antt =====
-- internal/api/attributes.go: the attribute keys and values that the fleet reports. A Go map with
-- empty values is a set: a list without repetition, in whatever order it is walked.
pub mod Laws
use grex.Base.{
  ℕ, Bool, true, false, List, [], ◌∷◌, Option, none, some, Str, Assoc, lookup, elem, keep, contains,
  to_lower, trim_space, if◌then◌else◌,
}
use grex.Base.Order.{str_compare}
use grex.Base.Order.Sorting.{sort}
use grex.Fleet.Types.{Agent}

-- seen[k] = struct{}{}
abbrev pub see : Str → List Str → List Str
see k seen = if elem k seen then seen else k ∷ seen

abbrev pub see_keys : Assoc Str → List Str → List Str
see_keys [] seen = seen
see_keys ((k, v) ∷ attrs) seen = see_keys attrs (see k seen)

abbrev pub all_keys : List Agent → List Str → List Str
all_keys [] seen = seen
all_keys (a ∷ agents) seen =
    all_keys agents (see_keys a.non_identifying (see_keys a.identifying seen))

unfoldable pub attribute_keys : List Agent → List Str
attribute_keys agents = sort str_compare (all_keys agents [])

abbrev pub see_value : Option Str → List Str → List Str
see_value none seen = seen
see_value (some v) seen = see v seen

abbrev pub all_values : Str → List Agent → List Str → List Str
all_values key [] seen = seen
all_values key (a ∷ agents) seen =
    all_values key agents
      (see_value (lookup key a.non_identifying) (see_value (lookup key a.identifying) seen))

-- An empty key has no values.
unfoldable pub attribute_values : List Agent → Str → List Str
attribute_values agents [] = []
attribute_values agents (c ∷ key) = sort str_compare (all_values (c ∷ key) agents [])

-- The optional filter of both handlers for completion: it looks anywhere in the text, in any case.
abbrev pub containing : Str → List Str → List Str
containing [] texts = texts
containing (c ∷ p) texts =
    let lower = to_lower (c ∷ p) in keep (λ k. contains (to_lower k) lower) texts

-- listAttributeKeys, over the registry's agents and the `prefix` of the query.
unfoldable pub list_attribute_keys : List Agent → Str → List Str
list_attribute_keys agents prefix = containing (trim_space prefix) (attribute_keys agents)

abbrev pub values_reply : List Agent → Str → Str → Option (Str × List Str)
values_reply agents [] prefix = none
values_reply agents (c ∷ key) prefix =
    some (c ∷ key, containing (trim_space prefix) (attribute_values agents (c ∷ key)))

-- listAttributeValues; `none` answers that the key is required.
unfoldable pub list_attribute_values : List Agent → Str → Str → Option (Str × List Str)
list_attribute_values agents key prefix = values_reply agents (trim_space key) prefix
