-- ===== src/Fleet/Registry/Evicting.antt =====
-- The ids that `Sweep` of internal/fleet/registry.go returns, and what it tells the listener.
use grex.Base.{
  ℕ, zero, suc, ◌+◌, ◌%◌, ◌≡◌, ◌↔◌, refl, true, List, [], ◌∷◌, Option, none, some, Str, str_eq,
  str_eq_refl, Assoc, lookup, length, get_or, str_eq→eq, arith, inl, inr, Bool-cases, lookup-Absent,
  In, In-append, In-append_left, In-append_right, ◌⊎◌,
}
use grex.Fleet.Types.{Agent, Config, Event}
use grex.Fleet.Registry.{
  Registry, get, fnv32a, shard_for, sweep, sweep_agent, sweep_shard, sweep_shards, sweep_cons,
  Swept, older_than, evict_threshold,
}
use grex.Fleet.Registry.Shards.{IsValid, ShardOk, ShardsOk}
use mathlib.Core.Path.{subst}

-- Is there an entry that the sweep drops?
abbrev Gone : Config → ℕ → Str → Option Agent → Type 0
Gone c now id none = ⊥
Gone c now id (some a) = (sweep_agent c now id a).0 ≡ none

-- Is there an entry, and is it past the stale threshold?
abbrev pub IsStale : Config → ℕ → Option Agent → Type 0
IsStale c now none = ⊥
IsStale c now (some a) = older_than (evict_threshold c) now a.last_seen ≡ true

Gone-iff : (c : Config) (now : ℕ) (id : Str) (o : Option Agent) → Gone c now id o ↔ IsStale c now o
unfolding sweep_agent
Gone-iff c now id none = ((λ h. h), (λ h. h))
Gone-iff c now id (some a) = ((λ h. ground arith), (λ h. ground arith))

-- The head of a shard is listed if it is dropped, and the rest as before.
evicted-cons :
    (id j : Str) (o : Option Agent × List Event) (rest : Swept (Assoc Agent))
    → In id (sweep_cons j o rest).evicted
    → ((id ≡ j) × (o.0 ≡ none)) ⊎ In id rest.evicted
unfolding sweep_cons
evicted-cons id j (none, es) rest (inl e) = inl (e, refl)
evicted-cons id j (none, es) rest (inr h) = inr h
evicted-cons id j (some b, es) rest h = inr h

evicted-cons_self :
    (j : Str) (o : Option Agent × List Event) (rest : Swept (Assoc Agent))
    → o.0 ≡ none
    → In j (sweep_cons j o rest).evicted
unfolding sweep_cons
evicted-cons_self j (none, es) rest h = inl refl
evicted-cons_self j (some b, es) rest h = cc

evicted-cons_rest :
    (id j : Str) (o : Option Agent × List Event) (rest : Swept (Assoc Agent))
    → In id rest.evicted
    → In id (sweep_cons j o rest).evicted
unfolding sweep_cons
evicted-cons_rest id j (none, es) rest h = inr h
evicted-cons_rest id j (some b, es) rest h = h

module _ (c : Config) (now : ℕ) (id : Str) where
  evicted-Gone_shard :
      (n i : ℕ) (m : Assoc Agent)
      → ShardOk n i m
      → In id (sweep_shard c now m).evicted
      → (fnv32a id % n ≡ i) × Gone c now id (lookup id m)
  unfolding sweep_shard lookup
  evicted-Gone_shard n i [] ok h = absurd h
  evicted-Gone_shard n i ((j, b) ∷ m) ok h =
      elim (evicted-cons id j (sweep_agent c now j b) (sweep_shard c now m) h) [
        | inl (same, gone) ↦ rw (same, str_eq_refl j) (ok.0, gone)
        | inr later ↦
            let ih = evicted-Gone_shard n i m ok.4 later in
            elim (Bool-cases (str_eq j id)) [
              | inl same ↦
                  absurd (rw (lookup-Absent id m (rw (str_eq→eq j id same) at ok.3)) at ih.1)
              | inr other ↦ rw other ih
            ]
      ]

  Gone-evicted_shard :
      (m : Assoc Agent) → Gone c now id (lookup id m) → In id (sweep_shard c now m).evicted
  unfolding sweep_shard lookup
  Gone-evicted_shard [] h = h
  Gone-evicted_shard ((j, b) ∷ m) h = elim (Bool-cases (str_eq j id)) [
    | inl same ↦
        let e = str_eq→eq j id same in
        subst (λ k. In k (sweep_cons j (sweep_agent c now j b) (sweep_shard c now m)).evicted) e
          (evicted-cons_self j (sweep_agent c now j b) (sweep_shard c now m) (rw e (rw same at h)))
    | inr other ↦
        evicted-cons_rest id j (sweep_agent c now j b) (sweep_shard c now m)
          (Gone-evicted_shard m (rw other at h))
  ]

  evicted-Gone_shards :
      (n k : ℕ) (ss : List (Assoc Agent))
      → ShardsOk n k ss
      → In id (sweep_shards c now ss).evicted
      → (d : ℕ) × (fnv32a id % n ≡ k + d) × Gone c now id (lookup id (get_or ss d []))
  unfolding sweep_shards
  evicted-Gone_shards n k [] ok h = absurd h
  evicted-Gone_shards n k (s ∷ ss) ok h =
      elim (In-append id (sweep_shard c now s).evicted (sweep_shards c now ss).evicted h) [
        | inl here ↦ let f = evicted-Gone_shard n k s ok.0 here in (0, omega (arith, f.0), f.1)
        | inr later ↦
            let f = evicted-Gone_shards n (suc k) ss ok.1 later in
            (suc f.0, omega (arith, f.1), f.2)
      ]

  Gone-evicted_shards :
      (d : ℕ) (ss : List (Assoc Agent))
      → Gone c now id (lookup id (get_or ss d []))
      → In id (sweep_shards c now ss).evicted
  unfolding sweep_shards
  Gone-evicted_shards d [] h = unfold lookup in h
  Gone-evicted_shards zero (s ∷ ss) h =
      In-append_left id (sweep_shard c now s).evicted _ (Gone-evicted_shard s h)
  Gone-evicted_shards (suc d) (s ∷ ss) h =
      In-append_right id (sweep_shard c now s).evicted _ (Gone-evicted_shards d ss h)

-- In a well-formed registry, Sweep returns exactly the ids whose agents are past the stale
-- threshold.
pub sweep-evicted :
    (r : Registry) (now : ℕ) (id : Str)
    → IsValid r
    → In id (sweep r now).evicted ↔ IsStale r.cfg now (get r id)
unfolding sweep get shard_for
sweep-evicted r now id v = (
  (λ h.
      let f = evicted-Gone_shards r.cfg now id (length r.shards) 0 r.shards v.placed h in
      let at : f.0 ≡ fnv32a id % length r.shards = omega (arith, f.1) in
      (Gone-iff r.cfg now id _).0 (rw at at f.2)),
  (λ h.
      Gone-evicted_shards r.cfg now id (fnv32a id % length r.shards) r.shards
        ((Gone-iff r.cfg now id _).1 h)),
)
