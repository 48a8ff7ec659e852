-- ===== src/Fleet/Report/Attributes.antt =====
-- What a description leaves in an agent of internal/fleet/registry.go.
use grex.Base.{
  ◌≡◌, refl, Bool, true, false, not, List, [], ◌∷◌, ◌++◌, Option, none, some, Str, str_eq, Assoc,
  lookup, insert, lookup-insert, keep, In, ◌↔◌, arith, if◌then◌else◌, str_eq_refl, ap, ◌∙◌, text,
}
use grex.Fleet.Types.{
  Agent, AnyValue, AgentDescription, reserved_attribute_keys, report_received, missing_attribute,
  reserved_attribute_conflict, Event,
}
use grex.Fleet.Report.{
  any_value_string, attrs_loop, attrs_to_map, reports, strs_eq, check_required_attributes,
  check_reserved_attribute_conflicts, fold_description, on_change,
}

keep-In :
    {A : Type 0} (p : A → Bool) (a : A) (xs : List A) → In a (keep p xs) ↔ (In a xs × (p a ≡ true))
keep-In p a [] = (λ h. absurd h, λ h. h.0)
keep-In p a (x ∷ xs) = ground (arith, keep-In p a xs, λ (e : a ≡ x). ap p e)

dropped-In :
    {A : Type 0} (p : A → Bool) (a : A) (xs : List A)
    → In a (keep (λ x. not (p x)) xs) ↔ (In a xs × (p a ≡ false))
dropped-In p a xs = ground (arith, keep-In (λ x. not (p x)) a xs)

strs_eq_refl : (xs : List Str) → strs_eq xs xs ≡ true
unfolding strs_eq
strs_eq_refl [] = refl
strs_eq_refl (x ∷ xs) = rw (str_eq_refl x) (strs_eq_refl xs)

on_change_same : (event : Str → Event) (xs : List Str) → on_change event xs xs ≡ []
on_change_same event [] = refl
on_change_same event (x ∷ xs) = rw (strs_eq_refl (x ∷ xs)) refl

silent :
    (e : Event) (f g : Str → Event) (xs ys : List Str)
    → (e ∷ []) ++ (on_change f xs xs ++ on_change g ys ys) ≡ (e ∷ [])
silent e f g xs ys = rw (on_change_same f xs, on_change_same g ys) refl

-- The value of the last attribute with the key.
abbrev last_or : Option Str → Option Str → Option Str
last_or (some v) o = some v
last_or none o = o

abbrev pub last_value : Str → List (Str × AnyValue) → Option Str
last_value k [] = none
last_value k ((j, v) ∷ kvs) =
    last_or (last_value k kvs) (if str_eq j k then some (any_value_string v) else none)

attrs_loop-lookup :
    (k : Str) (kvs : List (Str × AnyValue)) (m : Assoc Str)
    → lookup k (attrs_loop kvs m) ≡ last_or (last_value k kvs) (lookup k m)
unfolding attrs_loop
attrs_loop-lookup k [] m = refl
attrs_loop-lookup k ((j, v) ∷ kvs) m =
    attrs_loop-lookup k kvs (insert j (any_value_string v) m)
    ∙ ap (last_or (last_value k kvs)) (lookup-insert j k (any_value_string v) m)
    ∙ chosen (last_value k kvs) (str_eq j k)
  where
    chosen :
        (o : Option Str) (b : Bool)
        → last_or o (if b then some (any_value_string v) else lookup k m)
          ≡ last_or (last_or o (if b then some (any_value_string v) else none)) (lookup k m)
    chosen (some w) b = refl
    chosen none true = refl
    chosen none false = refl

-- The attribute map of an agent has, for every key, the text of the last value reported under it.
pub attrs_to_map-lookup :
    (k : Str) (kvs : List (Str × AnyValue)) → lookup k (attrs_to_map kvs) ≡ last_value k kvs
unfolding attrs_to_map lookup
attrs_to_map-lookup k kvs = attrs_loop-lookup k kvs [] ∙ blank (last_value k kvs)
  where
    blank : (o : Option Str) → last_or o none ≡ o
    blank none = refl
    blank (some v) = refl

module _ (required : List Str) (desc : AgentDescription) (a : Agent) where
  abbrev pub after : Agent
  after = (fold_description required (some desc) a).0

  -- After a description the missing attributes are exactly the required keys that neither map of
  -- the agent has, and the conflicts exactly the reserved keys that one of them has.
  pub fold_description-sets :
      (key : Str)
      → (In key after.missing_attributes ↔ (In key required × (reports after key ≡ false)))
        × (In key after.reserved_attribute_conflicts
            ↔ (In key reserved_attribute_keys × (reports after key ≡ true)))
  unfolding fold_description check_required_attributes check_reserved_attribute_conflicts reports
  fold_description-sets key =
      (dropped-In (reports after) key required, keep-In (reports after) key reserved_attribute_keys)

-- The same description again leaves the agent as the first one did, and the listener hears of
-- nothing but the report itself: no missing or conflicting attribute is told again.
pub fold_description_again :
    (required : List Str) (desc : AgentDescription) (a : Agent)
    → (fold_description required (some desc) (fold_description required (some desc) a).0) ≡ (
      (fold_description required (some desc) a).0,
      report_received a.instance_uid (text "status") ∷ [],
    )
unfolding fold_description check_required_attributes check_reserved_attribute_conflicts reports
fold_description_again required desc a =
    let b = (fold_description required (some desc) a).0 in
    ap (λ es. (b, es))
      (silent (report_received a.instance_uid (text "status")) (missing_attribute a.instance_uid)
        (reserved_attribute_conflict a.instance_uid) b.missing_attributes
        b.reserved_attribute_conflicts)
