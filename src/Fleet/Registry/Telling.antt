-- ===== src/Fleet/Registry/Telling.antt =====
-- What `Sweep` of internal/fleet/registry.go tells the listener about one agent, against what the
-- registry holds.
use grex.Base.{
  ℕ, zero, suc, ◌+◌, ◌%◌, ◌≤◌, ◌≡◌, refl, ◌∙◌, true, false, List, [], ◌∷◌, ◌++◌, Option, none, some,
  Str, str_eq, str_eq_refl, Assoc, lookup, Absent, length, get_or, str_eq→eq, arith, inl, inr,
  Bool-cases,
}
use grex.Fleet.Types.{Agent, Config, Event}
use grex.Fleet.Events.{
  Presence, presence, replay, replay-append, replay-append_neutral, offline, absent,
}
use grex.Fleet.Registry.{
  Registry, get, fnv32a, shard_for, sweep, sweep_agent, sweep_shard, sweep_shards, sweep_cons,
  Swept, disconnect_threshold, evict_threshold,
}
use grex.Fleet.Registry.Shards.{IsValid, ShardOk, ShardsOk, elsewhere-Absent}
use grex.Fleet.Registry.Sweeping.{get-sweep, swept_entry}
use Prim.Native.Nat.{◌<◌}

disconnect-le-evict :
    (c : Config) → 2 ≤ c.stale_missed_heartbeats → disconnect_threshold c ≤ evict_threshold c
unfolding disconnect_threshold evict_threshold
disconnect-le-evict c h = grind arith

single_threshold :
    (c : Config) → c.stale_missed_heartbeats ≡ 1 → evict_threshold c ≡ c.heartbeat_interval
unfolding evict_threshold
single_threshold c h = grind arith

replay-sweep_agent :
    (c : Config) (now : ℕ) (id : Str) (a : Agent)
    → 2 ≤ c.stale_missed_heartbeats
    → replay id (presence (some a)) (sweep_agent c now id a).1
      ≡ some (presence (sweep_agent c now id a).0)
unfolding sweep_agent replay
replay-sweep_agent c now id a h = ground (arith, disconnect-le-evict c h, str_eq_refl id)

sweep_agent-replay_ne :
    (c : Config) (now : ℕ) (j id : Str) (a : Agent) (p : Presence)
    → str_eq j id ≡ false
    → replay id p (sweep_agent c now j a).1 ≡ some p
unfolding sweep_agent replay
sweep_agent-replay_ne c now j id a p ne = ground arith

events-sweep_cons :
    (j : Str) (o : Option Agent × List Event) (rest : Swept (Assoc Agent))
    → (sweep_cons j o rest).events ≡ o.1 ++ rest.events
unfolding sweep_cons
events-sweep_cons j (none, es) rest = refl
events-sweep_cons j (some b, es) rest = refl

sweep_agent-replay_single :
    (c : Config) (now : ℕ) (id : Str) (a : Agent)
    → c.stale_missed_heartbeats ≡ 1
    → a.connected ≡ true
    → a.last_seen + c.heartbeat_interval < now
    → now ≤ a.last_seen + disconnect_threshold c
    → (replay id (presence (some a)) (sweep_agent c now id a).1 ≡ none)
      × (replay id offline (sweep_agent c now id a).1 ≡ some absent)
      × ((sweep_agent c now id a).0 ≡ none)
unfolding sweep_agent replay
sweep_agent-replay_single c now id a one on stale fresh =
    ground (arith, single_threshold c one, str_eq_refl id)

-- What a sweep says of one entry of the map.
abbrev pub said : Config → ℕ → Str → Option Agent → List Event
said c now id none = []
said c now id (some a) = (sweep_agent c now id a).1

module _ (c : Config) (now : ℕ) (id : Str) where
  sweep_shard-replay-Absent :
      (m : Assoc Agent)
      → Absent id m
      → (p : Presence) → replay id p (sweep_shard c now m).events ≡ some p
  unfolding sweep_shard
  sweep_shard-replay-Absent [] h p = unfold replay in refl
  sweep_shard-replay-Absent ((j, b) ∷ m) h p =
      rw (events-sweep_cons j (sweep_agent c now j b) (sweep_shard c now m)) (
        replay-append id p p (sweep_agent c now j b).1 (sweep_shard c now m).events
          (sweep_agent-replay_ne c now j id b p h.0)
        ∙ sweep_shard-replay-Absent m h.1 p)

  -- In its own shard an agent is told of as the sweep treats it.
  replay-sweep_shard :
      (n i : ℕ) (m : Assoc Agent) (p : Presence)
      → ShardOk n i m
      → replay id p (sweep_shard c now m).events ≡ replay id p (said c now id (lookup id m))
  unfolding sweep_shard lookup
  replay-sweep_shard n i [] p h = refl
  replay-sweep_shard n i ((j, b) ∷ m) p h = elim (Bool-cases (str_eq j id)) [
    | inl same ↦
        rw (events-sweep_cons j (sweep_agent c now j b) (sweep_shard c now m), same)
          (rw (str_eq→eq j id same) (
            replay-append_neutral id p (sweep_agent c now id b).1 (sweep_shard c now m).events
              (sweep_shard-replay-Absent m (rw (str_eq→eq j id same) at h.3))))
    | inr other ↦
        rw (events-sweep_cons j (sweep_agent c now j b) (sweep_shard c now m), other)
          (replay-append id p p (sweep_agent c now j b).1 (sweep_shard c now m).events
              (sweep_agent-replay_ne c now j id b p other)
            ∙ replay-sweep_shard n i m p h.4)
  ]

  sweep_shards-replay_before :
      (n k : ℕ) (ss : List (Assoc Agent))
      → ShardsOk n k ss
      → fnv32a id % n < k
      → (p : Presence) → replay id p (sweep_shards c now ss).events ≡ some p
  unfolding sweep_shards
  sweep_shards-replay_before n k [] h before p = unfold replay in refl
  sweep_shards-replay_before n k (s ∷ ss) h before p =
      replay-append id p p (sweep_shard c now s).events _
        (sweep_shard-replay-Absent s (elsewhere-Absent n k id s h.0 (omega arith)) p)
      ∙ sweep_shards-replay_before n (suc k) ss h.1 (omega arith) p

  replay-sweep_shards :
      (n k d : ℕ) (ss : List (Assoc Agent)) (p : Presence)
      → ShardsOk n k ss
      → fnv32a id % n ≡ k + d
      → replay id p (sweep_shards c now ss).events
        ≡ replay id p (said c now id (lookup id (get_or ss d [])))
  unfolding sweep_shards
  replay-sweep_shards n k d [] p h at = unfold lookup in refl
  replay-sweep_shards n k zero (s ∷ ss) p h at =
      replay-append_neutral id p (sweep_shard c now s).events _
        (sweep_shards-replay_before n (suc k) ss h.1 (omega arith))
      ∙ replay-sweep_shard n k s p h.0
  replay-sweep_shards n k (suc d) (s ∷ ss) p h at =
      replay-append id p p (sweep_shard c now s).events _
        (sweep_shard-replay-Absent s (elsewhere-Absent n k id s h.0 (omega arith)) p)
      ∙ replay-sweep_shards n (suc k) d ss p h.1 (omega arith)

module _ (r : Registry) (now : ℕ) (id : Str) (v : IsValid r) where
  -- Of one agent a sweep says what its own entry calls for.
  pub sweep-replay_entry :
      (p : Presence) → replay id p (sweep r now).events ≡ replay id p (said r.cfg now id (get r id))
  unfolding sweep get shard_for
  sweep-replay_entry p =
      replay-sweep_shards r.cfg now id (length r.shards) 0 (fnv32a id % length r.shards) r.shards p
        v.placed (omega arith)

  pub replay-sweep :
      2 ≤ r.cfg.stale_missed_heartbeats
      → replay id (presence (get r id)) (sweep r now).events
        ≡ some (presence (get (sweep r now).kept id))
  replay-sweep enough =
      sweep-replay_entry (presence (get r id)) ∙ rw (get-sweep r v now id) (entry (get r id))
    where
      entry :
          (o : Option Agent)
          → replay id (presence o) (said r.cfg now id o)
            ≡ some (presence (swept_entry r.cfg now id o))
      entry none = unfold replay in refl
      entry (some a) = replay-sweep_agent r.cfg now id a enough

  -- In a well-formed registry with a stale threshold of one heartbeat, take an agent that is
  -- connected and has been silent for more than one heartbeat and at most the disconnect threshold. A
  -- sweep removes it, and the calls about it are out of order for the connected agent that it is: they
  -- are those that evict an agent that is disconnected already.
  pub sweep-replay_single :
      (a : Agent)
      → r.cfg.stale_missed_heartbeats ≡ 1
      → get r id ≡ some a
      → a.connected ≡ true
      → a.last_seen + r.cfg.heartbeat_interval < now
      → now ≤ a.last_seen + disconnect_threshold r.cfg
      → (get (sweep r now).kept id ≡ none)
        × (replay id (presence (get r id)) (sweep r now).events ≡ none)
        × (replay id offline (sweep r now).events ≡ some absent)
  sweep-replay_single a one held on stale fresh =
      let (early, evicts, gone) = sweep_agent-replay_single r.cfg now id a one on stale fresh in
      (
        get-sweep r v now id ∙ rw held gone,
        sweep-replay_entry (presence (get r id)) ∙ rw held early,
        sweep-replay_entry offline ∙ rw held evicts,
      )
