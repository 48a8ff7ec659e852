-- ===== src/Api/Attributes/Laws.antt =====
-- What AttributeKeys and AttributeValues (internal/api/attributes.go) list.
use Prim.Native.Nat.{Ordering}
use mathlib.Core.List.Permᴰ
use mathlib.Core.Path.{subst}
use grex.Base.{
  ◌≡◌, ◌≢◌, ◌⊎◌, ◌↔◌, inl, inr, refl, sym, true, false, List, [], ◌∷◌, Option, none, some, Str,
  Assoc, lookup, elem, In, All, str_eq_iff, arith, Bool-cases,
}
use grex.Base.Order.{str_compare, str_compare-IsOrder, str_compare-eq}
use grex.Base.Order.Sorting.{
  sort, is_gt, NoTies, Ascending, Differ, sort-Perm, sort-Ascending, NoTies-Perm, In-Perm,
}
use grex.Fleet.Types.{Agent}
use grex.Api.Attributes.{
  see, see_keys, all_keys, attribute_keys, see_value, all_values, attribute_values,
}

abbrev pub HasKey : Str → Assoc Str → Type 0
HasKey k [] = ⊥
HasKey k ((j, v) ∷ attrs) = (k ≡ j) ⊎ HasKey k attrs

-- An agent of the list describes itself by this key, as identifying or not.
abbrev pub Describes : Str → List Agent → Type 0
Describes k [] = ⊥
Describes k (a ∷ agents) =
    (HasKey k a.identifying ⊎ HasKey k a.non_identifying) ⊎ Describes k agents

-- Each text is strictly below those after it.
abbrev pub Increasing : List Str → Type 0
Increasing [] = Unit
Increasing (s ∷ ss) = All (λ t. str_compare s t ≡ Ordering.lt) ss × Increasing ss

elem-In : (k : Str) (ks : List Str) → elem k ks ≡ true → In k ks
elem-In k [] h = absurd cc
elem-In k (j ∷ ks) h = ground (arith, str_eq_iff j k, elem-In k ks)

Differ-elem : (k : Str) (ks : List Str) → elem k ks ≡ false → All (Differ str_compare k) ks
Differ-elem k [] h = _
Differ-elem k (j ∷ ks) h =
    (λ e. ground (arith, str_compare-eq k j e, str_eq_iff j k, h), Differ-elem k ks (ground arith))

In-see : (k j : Str) (seen : List Str) → In j (see k seen) → (j ≡ k) ⊎ In j seen
In-see k j seen h = ground arith

see-In_self : (k : Str) (seen : List Str) → In k (see k seen)
see-In_self k seen = elim (Bool-cases (elem k seen)) [
  | inl e ↦ rw e (elem-In k seen e)
  | inr e ↦ rw e (inl refl)
]

see-In_seen : (k j : Str) (seen : List Str) → In j seen → In j (see k seen)
see-In_seen k j seen h = elim (Bool-cases (elem k seen)) [ inl e ↦ rw e h | inr e ↦ rw e (inr h) ]

see-In : (k j : Str) (seen : List Str) → In j (see k seen) ↔ ((j ≡ k) ⊎ In j seen)
see-In k j seen = (
  In-see k j seen,
  λ h. elim h [
    | inl e ↦ subst (λ t. In t (see k seen)) (sym e) (see-In_self k seen)
    | inr m ↦ see-In_seen k j seen m
  ],
)

see-NoTies : (k : Str) (seen : List Str) → NoTies str_compare seen → NoTies str_compare (see k seen)
see-NoTies k seen h = elim (Bool-cases (elem k seen)) [
  | inl e ↦ rw e h
  | inr e ↦ rw e (Differ-elem k seen e, h)
]

see_keys-In :
    (j : Str) (attrs : Assoc Str) (seen : List Str)
    → In j (see_keys attrs seen) ↔ (HasKey j attrs ⊎ In j seen)
see_keys-In j [] seen = ground arith
see_keys-In j ((k, v) ∷ attrs) seen =
    ground (arith, see_keys-In j attrs (see k seen), see-In k j seen)

all_keys-In :
    (j : Str) (agents : List Agent) (seen : List Str)
    → In j (all_keys agents seen) ↔ (Describes j agents ⊎ In j seen)
all_keys-In j [] seen = ground arith
all_keys-In j (a ∷ agents) seen =
    let first = see_keys a.identifying seen in
    ground (
      arith,
      all_keys-In j agents (see_keys a.non_identifying first),
      see_keys-In j a.non_identifying first,
      see_keys-In j a.identifying seen,
    )

see_keys-NoTies :
    (attrs : Assoc Str) (seen : List Str)
    → NoTies str_compare seen
    → NoTies str_compare (see_keys attrs seen)
see_keys-NoTies [] seen h = h
see_keys-NoTies ((k, v) ∷ attrs) seen h = see_keys-NoTies attrs (see k seen) (see-NoTies k seen h)

all_keys-NoTies :
    (agents : List Agent) (seen : List Str)
    → NoTies str_compare seen
    → NoTies str_compare (all_keys agents seen)
all_keys-NoTies [] seen h = h
all_keys-NoTies (a ∷ agents) seen h =
    let first = see_keys a.identifying seen in
    all_keys-NoTies agents (see_keys a.non_identifying first)
      (see_keys-NoTies a.non_identifying first (see_keys-NoTies a.identifying seen h))

below :
    (s t : Str)
    → is_gt (str_compare s t) ≡ false
    → str_compare s t ≢ Ordering.eq
    → str_compare s t ≡ Ordering.lt
below s t h n = ground (arith, n)

strictly : (ks : List Str) → Ascending str_compare ks → NoTies str_compare ks → Increasing ks
strictly [] h d = _
strictly (k ∷ ks) h d = (all_below ks h.0 d.0, strictly ks h.1 d.1)
  where
    all_below :
        (ts : List Str)
        → All (λ t. is_gt (str_compare k t) ≡ false) ts
        → All (Differ str_compare k) ts
        → All (λ t. str_compare k t ≡ Ordering.lt) ts
    all_below [] p q = _
    all_below (t ∷ ts) p q = (below k t p.0 q.0, all_below ts p.1 q.1)

-- Sorting a set: the elements stay, and are listed in strictly increasing order.
sort-Increasing : (seen : List Str) → NoTies str_compare seen → Increasing (sort str_compare seen)
sort-Increasing seen d =
    strictly (sort str_compare seen) (sort-Ascending str_compare str_compare-IsOrder seen)
      (NoTies-Perm str_compare str_compare-IsOrder (sort-Perm str_compare seen) d)

sort-In : (k : Str) (seen : List Str) → In k (sort str_compare seen) ↔ In k seen
sort-In k seen =
    (In-Perm k (Permᴰ.symm (sort-Perm str_compare seen)), In-Perm k (sort-Perm str_compare seen))

-- AttributeKeys lists exactly the keys by which some agent describes itself, each once and in
-- increasing byte order.
pub attribute_keys-In :
    (agents : List Agent) (k : Str)
    → (In k (attribute_keys agents) ↔ Describes k agents) × Increasing (attribute_keys agents)
unfolding attribute_keys
attribute_keys-In agents k = (
  ground (arith, sort-In k (all_keys agents []), all_keys-In k agents []),
  sort-Increasing (all_keys agents []) (all_keys-NoTies agents [] _),
)

-- An agent of the list has this value for the key, in one of its two maps or in both.
abbrev pub HasValue : Str → Str → List Agent → Type 0
HasValue key v [] = ⊥
HasValue key v (a ∷ agents) =
    ((lookup key a.identifying ≡ some v) ⊎ (lookup key a.non_identifying ≡ some v))
    ⊎ HasValue key v agents

see_value-In :
    (o : Option Str) (v : Str) (seen : List Str)
    → In v (see_value o seen) ↔ ((o ≡ some v) ⊎ In v seen)
see_value-In none v seen = ground arith
see_value-In (some w) v seen = ground (arith, see-In w v seen)

see_value-NoTies :
    (o : Option Str) (seen : List Str)
    → NoTies str_compare seen
    → NoTies str_compare (see_value o seen)
see_value-NoTies none seen h = h
see_value-NoTies (some v) seen h = see-NoTies v seen h

all_values-In :
    (key v : Str) (agents : List Agent) (seen : List Str)
    → In v (all_values key agents seen) ↔ (HasValue key v agents ⊎ In v seen)
all_values-In key v [] seen = ground arith
all_values-In key v (a ∷ agents) seen =
    let first = see_value (lookup key a.identifying) seen in
    ground (
      arith,
      all_values-In key v agents (see_value (lookup key a.non_identifying) first),
      see_value-In (lookup key a.non_identifying) v first,
      see_value-In (lookup key a.identifying) v seen,
    )

all_values-NoTies :
    (key : Str) (agents : List Agent) (seen : List Str)
    → NoTies str_compare seen
    → NoTies str_compare (all_values key agents seen)
all_values-NoTies key [] seen h = h
all_values-NoTies key (a ∷ agents) seen h =
    let first = see_value (lookup key a.identifying) seen in
    all_values-NoTies key agents (see_value (lookup key a.non_identifying) first) (
      see_value-NoTies (lookup key a.non_identifying) first
        (see_value-NoTies (lookup key a.identifying) seen h))

-- AttributeValues for a key that is not empty lists exactly the values that some agent has for it,
-- each once and in increasing byte order.
pub attribute_values-In :
    (agents : List Agent) (key v : Str)
    → key ≢ []
    → (In v (attribute_values agents key) ↔ HasValue key v agents)
      × Increasing (attribute_values agents key)
unfolding attribute_values
attribute_values-In agents [] v h = absurd (h refl)
attribute_values-In agents (c ∷ key) v h = (
  ground (arith, sort-In v (all_values (c ∷ key) agents []), all_values-In (c ∷ key) v agents []),
  sort-Increasing (all_values (c ∷ key) agents []) (all_values-NoTies (c ∷ key) agents [] _),
)
