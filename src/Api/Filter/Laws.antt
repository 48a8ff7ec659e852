-- ===== src/Api/Filter/Laws.antt =====
-- What the filters of internal/api/filter.go select.
use grex.Base.{
  ◌≡◌, refl, Bool, true, not, ◌&&◌, List, [], ◌∷◌, ◌++◌, Assoc, keep, ap, arith, ◌∙◌, sym,
  Bool-cases, inl, inr, str_eq,
}
use grex.Fleet.Types.{Agent}
use grex.Api.Filter.{
  AttrMatcher, Filters, match_attr, match_attrs, match_bools, agent_matches, is_empty,
  matching_agents, op_equal, op_not_equal, op_regex, op_not_regex,
}

-- The conjunction of two filters.
abbrev pub both : Filters → Filters → Filters
both f g = record { matchers = f.matchers ++ g.matchers; bools = f.bools ++ g.bools }

keep_all : {A : Type 0} (p : A → Bool) (xs : List A) → ((x : A) → p x ≡ true) → keep p xs ≡ xs
keep_all p [] h = refl
keep_all p (x ∷ xs) h = rw (h x) (ap (λ r. x ∷ r) (keep_all p xs h))

keep-keep :
    {A : Type 0} (p q : A → Bool) (xs : List A) → keep q (keep p xs) ≡ keep (λ x. p x && q x) xs
keep-keep p q [] = refl
keep-keep p q (x ∷ xs) = ground (arith, keep-keep p q xs)

match_attrs-append :
    (a : Agent) (ms ns : List AttrMatcher)
    → match_attrs a (ms ++ ns) ≡ (match_attrs a ms && match_attrs a ns)
unfolding match_attrs
match_attrs-append a [] ns = refl
match_attrs-append a (m ∷ ms) ns = ground (arith, match_attrs-append a ms ns)

match_bools-append :
    (a : Agent) (bs cs : Assoc Bool)
    → match_bools a (bs ++ cs) ≡ (match_bools a bs && match_bools a cs)
unfolding match_bools
match_bools-append a [] cs = refl
match_bools-append a ((k, w) ∷ bs) cs = ground (arith, match_bools-append a bs cs)

empty_matches :
    (ms : List AttrMatcher) (bs : Assoc Bool)
    → is_empty (record { matchers = ms; bools = bs }) ≡ true
    → (a : Agent) → agent_matches a (record { matchers = ms; bools = bs }) ≡ true
unfolding is_empty agent_matches match_attrs match_bools
empty_matches [] [] h a = refl
empty_matches [] (b ∷ bs) h a = absurd cc
empty_matches (m ∷ ms) bs h a = absurd cc

-- The shortcut for empty filters changes nothing: the result is always the agents that match.
pub matching_agents-keep :
    (agents : List Agent) (f : Filters)
    → matching_agents agents f ≡ keep (λ a. agent_matches a f) agents
unfolding matching_agents
matching_agents-keep agents f = elim (Bool-cases (is_empty f)) [
  | inl empty ↦
      rw empty
        (sym (keep_all (λ a. agent_matches a f) agents (empty_matches f.matchers f.bools empty)))
  | inr more ↦ rw more refl
]

keep-cong :
    {A : Type 0} (p q : A → Bool) (xs : List A) → ((x : A) → p x ≡ q x) → keep p xs ≡ keep q xs
keep-cong p q [] h = refl
keep-cong p q (x ∷ xs) h = rw (h x, keep-cong p q xs h) refl

agent_matches-both :
    (a : Agent) (f g : Filters)
    → agent_matches a (both f g) ≡ (agent_matches a f && agent_matches a g)
unfolding agent_matches
agent_matches-both a f g =
    ground (arith, match_attrs-append a f.matchers g.matchers, match_bools-append a f.bools g.bools)

-- Filters are conjunctions: to select with the matchers and fields of two filters together is to
-- select with one and then with the other.
pub matching_agents-both :
    (agents : List Agent) (f g : Filters)
    → matching_agents agents (both f g) ≡ matching_agents (matching_agents agents f) g
matching_agents-both agents f g =
    matching_agents-keep agents (both f g)
    ∙ keep-cong (λ a. agent_matches a (both f g)) (λ a. agent_matches a f && agent_matches a g)
        agents (λ a. agent_matches-both a f g)
    ∙ sym (keep-keep (λ a. agent_matches a f) (λ a. agent_matches a g) agents)
    ∙ ap (keep (λ a. agent_matches a g)) (sym (matching_agents-keep agents f))
    ∙ sym (matching_agents-keep (matching_agents agents f) g)

-- `!=` and `!~` select exactly the agents that `=` and `=~` do not, those without the attribute
-- included.
pub match_attr_negated :
    (a : Agent) (m : AttrMatcher)
    → (match_attr a (record m { op = op_not_equal })
        ≡ not (match_attr a (record m { op = op_equal })))
      × (match_attr a (record m { op = op_not_regex })
          ≡ not (match_attr a (record m { op = op_regex })))
unfolding match_attr str_eq
match_attr_negated a m = (refl, refl)
