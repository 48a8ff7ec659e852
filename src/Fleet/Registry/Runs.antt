-- ===== src/Fleet/Registry/Runs.antt =====
-- Calls of the registry in any order and number. Reports, connection marks and sweeps come from
-- goroutines that take one shard's lock at a time; a run is one order of them.
use grex.Base.{
  ℕ, zero, suc, ◌≤◌, ◌≡◌, refl, ap, ◌∙◌, Bool, List, [], ◌++◌, Option, none, some, Str, Assoc,
  length, replicate, get_or, lookup, arith, ◌==◌, if◌then◌else◌,
}
use grex.Fleet.Types.{Config, Event, ConnMeta, AgentToServer, Agent}
use grex.Fleet.Events.{absent, presence, replay, replay-append}
use grex.Fleet.Registry.{
  Registry, InstanceUid, new_registry, report, report_named, report_agent, set_connected, set_found,
  put_agent, get, sweep, default_shard_count, agents, list_shards, values,
}
use grex.Fleet.Registry.Shards.{IsValid, ShardsOk}
use grex.Fleet.Registry.Sweeping.{sweep-IsValid}
use grex.Fleet.Registry.Reporting.{replay-report_agent, report_agent-IsValid}
use grex.Fleet.Registry.Connecting.{replay-set_connected, set_connected-IsValid}
use grex.Fleet.Registry.Telling.{replay-sweep}

-- A call of the registry that changes it, with the listener calls that it makes.
pub data Step (from_bytes : InstanceUid) (r : Registry) : List Event → Registry → Type 0 where
  reported :
      (msg : AgentToServer) (meta : ConnMeta) (now : ℕ)
      → Step from_bytes r (report from_bytes r msg meta now).1 (report from_bytes r msg meta now).0
  marked :
      (id : Str) (connected : Bool)
      → Step from_bytes r (set_connected r id connected).1 (set_connected r id connected).0
  swept : (now : ℕ) → Step from_bytes r (sweep r now).events (sweep r now).kept

-- Calls in any order and number, oldest first.
pub data Run (from_bytes : InstanceUid) (r : Registry) : List Event → Registry → Type 0 where
  start : Run from_bytes r [] r
  next :
      {s t : Registry} {es fs : List Event}
      → Run from_bytes r es s
      → Step from_bytes s fs t
      → Run from_bytes r (es ++ fs) t

length-replicate : (n : ℕ) (m : Assoc Agent) → length (replicate n m) ≡ n
length-replicate zero m = refl
length-replicate (suc n) m = ap suc (length-replicate n m)

replicate-ShardsOk : (n i k : ℕ) → ShardsOk n i (replicate k [])
replicate-ShardsOk n i zero = tt
replicate-ShardsOk n i (suc k) = (tt, replicate-ShardsOk n (suc i) k)

pub new_registry-IsValid : (cfg : Config) → IsValid (new_registry cfg)
unfolding new_registry
new_registry-IsValid cfg = record {
  nonempty =
      rw
        (length-replicate (if cfg.shard_count == 0 then default_shard_count else cfg.shard_count)
          [])
        (ground arith);
  placed = replicate-ShardsOk _ 0 _;
}

get_or-replicate : (n i : ℕ) → get_or {A = Assoc Agent} (replicate n []) i [] ≡ []
get_or-replicate zero i = refl
get_or-replicate (suc n) zero = refl
get_or-replicate (suc n) (suc i) = get_or-replicate n i

get-new_registry : (cfg : Config) (id : Str) → get (new_registry cfg) id ≡ none
unfolding get new_registry
get-new_registry cfg id = rw (get_or-replicate _ _) (unfold lookup in refl)

list_shards-replicate : (n : ℕ) → list_shards (replicate n []) ≡ []
unfolding list_shards values
list_shards-replicate zero = refl
list_shards-replicate (suc n) = list_shards-replicate n

pub agents-new_registry : (cfg : Config) → agents (new_registry cfg) ≡ []
unfolding agents new_registry
agents-new_registry cfg =
    list_shards-replicate (if cfg.shard_count == 0 then default_shard_count else cfg.shard_count)

module _ (r : Registry) (v : IsValid r) (msg : AgentToServer) (meta : ConnMeta) (now : ℕ) where
  report_named-IsValid : (o : Option Str) → IsValid (report_named r o msg meta now).0
  report_named-IsValid none = v
  report_named-IsValid (some id) = report_agent-IsValid r v id msg meta now

  replay-report_named :
      (o : Option Str) (j : Str)
      → replay j (presence (get r j)) (report_named r o msg meta now).1
        ≡ some (presence (get (report_named r o msg meta now).0 j))
  replay-report_named none j = unfold replay in refl
  replay-report_named (some id) j = replay-report_agent r v id j msg meta now

set_found-cfg :
    (r : Registry) (id : Str) (b : Bool) (o : Option Agent) → (set_found r id b o).0.cfg ≡ r.cfg
unfolding put_agent
set_found-cfg r id b none = refl
set_found-cfg r id b (some a) = refl

report_named-cfg :
    (r : Registry) (o : Option Str) (msg : AgentToServer) (meta : ConnMeta) (now : ℕ)
    → (report_named r o msg meta now).0.cfg ≡ r.cfg
unfolding report_agent put_agent
report_named-cfg r none msg meta now = refl
report_named-cfg r (some id) msg meta now = refl

module _ (from_bytes : InstanceUid) where
  pub Step-IsValid :
      {r t : Registry} {es : List Event} → Step from_bytes r es t → IsValid r → IsValid t
  unfolding report
  Step-IsValid {r} (reported msg meta now) v =
      report_named-IsValid r v msg meta now (from_bytes msg.instance_uid)
  Step-IsValid {r} (marked id b) v = set_connected-IsValid r v id b
  Step-IsValid {r} (swept now) v = sweep-IsValid r v now

  Step-cfg : {r t : Registry} {es : List Event} → Step from_bytes r es t → t.cfg ≡ r.cfg
  unfolding report set_connected sweep
  Step-cfg {r} (reported msg meta now) =
      report_named-cfg r (from_bytes msg.instance_uid) msg meta now
  Step-cfg {r} (marked id b) = set_found-cfg r id b (get r id)
  Step-cfg {r} (swept now) = refl

  Step-replay :
      {r t : Registry} {es : List Event} (id : Str)
      → Step from_bytes r es t
      → IsValid r
      → 2 ≤ r.cfg.stale_missed_heartbeats
      → replay id (presence (get r id)) es ≡ some (presence (get t id))
  unfolding report
  Step-replay {r} id (reported msg meta now) v enough =
      replay-report_named r v msg meta now (from_bytes msg.instance_uid) id
  Step-replay {r} id (marked j b) v enough = replay-set_connected r v j b id
  Step-replay {r} id (swept now) v enough = replay-sweep r now id v enough

  -- Every registry that calls lead to from a valid one is valid.
  pub Run-IsValid :
      {r t : Registry} {es : List Event} → Run from_bytes r es t → IsValid r → IsValid t
  Run-IsValid start v = v
  Run-IsValid (next run step) v = Step-IsValid step (Run-IsValid run v)

  Run-cfg : {r t : Registry} {es : List Event} → Run from_bytes r es t → t.cfg ≡ r.cfg
  Run-cfg start = refl
  Run-cfg (next run step) = Step-cfg step ∙ Run-cfg run

  Run-replay :
      {r t : Registry} {es : List Event} (id : Str)
      → Run from_bytes r es t
      → IsValid r
      → 2 ≤ r.cfg.stale_missed_heartbeats
      → replay id (presence (get r id)) es ≡ some (presence (get t id))
  Run-replay id start v enough = unfold replay in refl
  Run-replay {r} id (next {s = s} {es = es} {fs = fs} run step) v enough =
      replay-append id (presence (get r id)) (presence (get s id)) es fs
        (Run-replay id run v enough)
      ∙ Step-replay id step (Run-IsValid run v) (rw (Run-cfg run) enough)

  -- From an empty registry, whatever the calls and their order, the listener calls about an agent
  -- are in order and end in the state that the registry holds, if the stale threshold is at least
  -- two heartbeats.
  pub Run-tells :
      (cfg : Config) (id : Str) {t : Registry} {es : List Event}
      → 2 ≤ cfg.stale_missed_heartbeats
      → Run from_bytes (new_registry cfg) es t
      → replay id absent es ≡ some (presence (get t id))
  Run-tells cfg id {t} {es} enough run =
      rw (get-new_registry cfg id) at
        (Run-replay id run (new_registry-IsValid cfg) (unfold new_registry in enough))
