-- ===== src/Fleet/Registry/Sweeping.antt =====
-- `Sweep` of internal/fleet/registry.go against the registry seen as one map, and its listener calls.
use grex.Base.{
  ℕ, zero, suc, ◌%◌, ◌≡◌, refl, ap, ◌∙◌, true, false, List, [], ◌∷◌, Option, none, some, Str,
  str_eq, Assoc, lookup, Absent, length, get_or, str_eq→eq, arith, inl, inr, Bool-cases,
  lookup-Absent,
}
use grex.Fleet.Types.{Agent, Config, Event}
use grex.Fleet.Registry.{
  Registry, get, fnv32a, shard_for, shard_at, sweep, sweep_agent, sweep_shard, sweep_shards,
  sweep_cons, Swept,
}
use grex.Fleet.Registry.Shards.{IsValid, ShardOk, ShardsOk, shard_at-ShardOk}

-- What a sweep makes of one entry of the map.
abbrev pub swept_entry : Config → ℕ → Str → Option Agent → Option Agent
swept_entry c now id none = none
swept_entry c now id (some a) = (sweep_agent c now id a).0

module _ (j id : Str) (rest : Swept (Assoc Agent)) where
  lookup-sweep_cons_ne :
      (o : Option Agent × List Event)
      → str_eq j id ≡ false
      → lookup id (sweep_cons j o rest).kept ≡ lookup id rest.kept
  unfolding sweep_cons lookup
  lookup-sweep_cons_ne (none, es) ne = refl
  lookup-sweep_cons_ne (some a, es) ne = rw ne

  lookup-sweep_cons_self :
      (o : Option Agent × List Event)
      → str_eq j id ≡ true
      → lookup id rest.kept ≡ none
      → lookup id (sweep_cons j o rest).kept ≡ o.0
  unfolding sweep_cons lookup
  lookup-sweep_cons_self (none, es) same gone = gone
  lookup-sweep_cons_self (some a, es) same gone = rw same

  Absent-sweep_cons :
      (o : Option Agent × List Event)
      → str_eq j id ≡ false
      → Absent id rest.kept
      → Absent id (sweep_cons j o rest).kept
  unfolding sweep_cons
  Absent-sweep_cons (none, es) ne h = h
  Absent-sweep_cons (some a, es) ne h = (ne, h)

-- A sweep writes the connected flag only.
sweep_agent-fields :
    (c : Config) (now : ℕ) (id : Str) (a b : Agent)
    → (sweep_agent c now id a).0 ≡ some b
    → (b.instance_uid ≡ a.instance_uid)
      × (b.evicted_at ≡ a.evicted_at)
      × (b.last_seen ≡ a.last_seen)
unfolding sweep_agent
sweep_agent-fields c now id a b h = ground arith

ShardOk-sweep_cons :
    (n i : ℕ) (j : Str) (o : Option Agent × List Event) (rest : Swept (Assoc Agent))
    → fnv32a j % n ≡ i
    → ((b : Agent) → o.0 ≡ some b → (b.instance_uid ≡ j) × (b.evicted_at ≡ none))
    → Absent j rest.kept
    → ShardOk n i rest.kept
    → ShardOk n i (sweep_cons j o rest).kept
unfolding sweep_cons
ShardOk-sweep_cons n i j (none, es) rest hash fields gone h = h
ShardOk-sweep_cons n i j (some b, es) rest hash fields gone h =
    let f = fields b refl in (hash, f.0, f.1, gone, h)

module _ (c : Config) (now : ℕ) where
  sweep-Absent : (id : Str) (m : Assoc Agent) → Absent id m → Absent id (sweep_shard c now m).kept
  unfolding sweep_shard
  sweep-Absent id [] h = tt
  sweep-Absent id ((j, b) ∷ m) h =
      Absent-sweep_cons j id (sweep_shard c now m) (sweep_agent c now j b) h.0
        (sweep-Absent id m h.1)

  pub lookup-sweep_shard :
      (id : Str) (n i : ℕ) (m : Assoc Agent)
      → ShardOk n i m
      → lookup id (sweep_shard c now m).kept ≡ swept_entry c now id (lookup id m)
  unfolding sweep_shard lookup
  lookup-sweep_shard id n i [] h = refl
  lookup-sweep_shard id n i ((j, b) ∷ m) h = elim (Bool-cases (str_eq j id)) [
    | inl same ↦ rw same (
        lookup-sweep_cons_self j id (sweep_shard c now m) (sweep_agent c now j b) same
          (lookup-Absent id _ (sweep-Absent id m (rw (str_eq→eq j id same) at h.3)))
        ∙ ap (λ (k : Str). (sweep_agent c now k b).0) (str_eq→eq j id same))
    | inr other ↦ rw other (
        lookup-sweep_cons_ne j id (sweep_shard c now m) (sweep_agent c now j b) other
        ∙ lookup-sweep_shard id n i m h.4)
  ]

  pub get_or-sweep_shards :
      (i : ℕ) (ss : List (Assoc Agent))
      → get_or (sweep_shards c now ss).kept i [] ≡ (sweep_shard c now (get_or ss i [])).kept
  unfolding sweep_shards sweep_shard
  get_or-sweep_shards i [] = refl
  get_or-sweep_shards zero (s ∷ ss) = refl
  get_or-sweep_shards (suc i) (s ∷ ss) = get_or-sweep_shards i ss

  length-sweep_shards : (ss : List (Assoc Agent)) → length (sweep_shards c now ss).kept ≡ length ss
  unfolding sweep_shards
  length-sweep_shards [] = refl
  length-sweep_shards (s ∷ ss) = ap suc (length-sweep_shards ss)

  sweep_shard-ShardOk :
      (n i : ℕ) (m : Assoc Agent) → ShardOk n i m → ShardOk n i (sweep_shard c now m).kept
  unfolding sweep_shard
  sweep_shard-ShardOk n i [] h = tt
  sweep_shard-ShardOk n i ((j, b) ∷ m) h =
      ShardOk-sweep_cons n i j (sweep_agent c now j b) (sweep_shard c now m) h.0
        (λ d e. let f = sweep_agent-fields c now j b d e in (f.0 ∙ h.1, f.1 ∙ h.2))
        (sweep-Absent j m h.3) (sweep_shard-ShardOk n i m h.4)

  sweep_shards-ShardsOk :
      (n i : ℕ) (ss : List (Assoc Agent))
      → ShardsOk n i ss
      → ShardsOk n i (sweep_shards c now ss).kept
  unfolding sweep_shards
  sweep_shards-ShardsOk n i [] h = tt
  sweep_shards-ShardsOk n i (s ∷ ss) h =
      (sweep_shard-ShardOk n i s h.0, sweep_shards-ShardsOk n (suc i) ss h.1)

module _ (r : Registry) (v : IsValid r) (now : ℕ) where
  pub get-sweep : (id : Str) → get (sweep r now).kept id ≡ swept_entry r.cfg now id (get r id)
  unfolding get sweep shard_for
  get-sweep id =
      rw
        (
          length-sweep_shards r.cfg now r.shards,
          get_or-sweep_shards r.cfg now (fnv32a id % length r.shards) r.shards,
        )
        (lookup-sweep_shard r.cfg now id (length r.shards) (shard_for r id) (shard_at r id)
          (shard_at-ShardOk r v id))

  pub sweep-IsValid : IsValid (sweep r now).kept
  unfolding sweep
  sweep-IsValid =
      let same = length-sweep_shards r.cfg now r.shards in
      record {
        nonempty = rw same v.nonempty;
        placed = rw same (sweep_shards-ShardsOk r.cfg now (length r.shards) 0 r.shards v.placed);
      }
