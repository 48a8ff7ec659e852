-- ===== src/Fleet/Registry.antt =====
-- The sharded registry of internal/fleet/registry.go. The state is a list of maps; a call returns
-- the new registry and the listener calls that it makes, in order. Locks are not modelled: each
-- operation on one shard runs under that shard's lock, so it is one step here.
pub mod Shards
pub mod Reporting
pub mod Connecting
pub mod Sweeping
pub mod Evicting
pub mod Telling
pub mod Runs
use Prim.Native.Nat.{bit_xor}
use grex.Base.{
  ℕ, ◌+◌, ◌*◌, ◌/◌, ◌%◌, ◌^◌, Bool, true, false, ◌&&◌, List, [], ◌∷◌, ◌++◌, Option, none, some, Str,
  Assoc, lookup, insert, length, get_or, set, replicate, ◌==◌, if◌then◌else◌,
}
use grex.Base.Int.{pos, sub_ℕ, ltb_ℤ}
use grex.Fleet.Types.{
  Agent, ConnMeta, Config, Event, agent_connected, agent_disconnected, agent_evicted, AgentToServer,
  new_agent,
}
use grex.Fleet.Report.{Emits, fold_report}

pub record Registry : Type 0 where
  pub cfg : Config
  pub shards : List (Assoc Agent)

abbrev pub default_shard_count : ℕ
default_shard_count = 256

unfoldable pub new_registry : Config → Registry
new_registry cfg =
    let count = if cfg.shard_count == 0 then default_shard_count else cfg.shard_count in
    record { cfg = cfg; shards = replicate count [] }

-- hash/fnv's 32-bit FNV-1a.
pub fnv32a_loop : ℕ → Str → ℕ
fnv32a_loop h [] = h
fnv32a_loop h (b ∷ bs) = fnv32a_loop (bit_xor h b * 16777619 % 2 ^ 32) bs

unfoldable pub fnv32a : Str → ℕ
unfolding fnv32a_loop
fnv32a = fnv32a_loop 2166136261

-- The index of the shard that owns an id.
unfoldable pub shard_for : Registry → Str → ℕ
unfolding fnv32a
shard_for r id = fnv32a id % length r.shards

abbrev pub shard_at : Registry → Str → Assoc Agent
shard_at r id = get_or r.shards (shard_for r id) []

-- `s.agents[id] = agent` in the shard of the id.
unfoldable pub put_agent : Registry → Str → Agent → Registry
put_agent r id a = record r { shards = set r.shards (shard_for r id) (insert id a (shard_at r id)) }

-- Get: a snapshot copies the agent, and values here are never shared.
unfoldable pub get : Registry → Str → Option Agent
get r id = lookup id (shard_at r id)

-- The 16-byte uid as text. `from_bytes` stands for uuid.FromBytes with String, and is `none` on
-- its error.
abbrev pub InstanceUid : Type 0
InstanceUid = List ℕ → Option Str

-- The agent that a report finds or makes.
abbrev pub or_new : Str → ℕ → Option Agent → Agent
or_new id now none = new_agent id now
or_new id now (some a) = a

abbrev pub find_or_new : Registry → Str → ℕ → Agent
find_or_new r id now = or_new id now (get r id)

unfoldable pub report_agent : Registry → Str → AgentToServer → ConnMeta → ℕ → Emits Registry
report_agent r id msg meta now =
    let (a, events) = fold_report r.cfg.required_attributes msg meta now (find_or_new r id now) in
    (put_agent r id a, events)

-- A report whose uid is no uid is dropped.
abbrev pub report_named : Registry → Option Str → AgentToServer → ConnMeta → ℕ → Emits Registry
report_named r none msg meta now = (r, [])
report_named r (some id) msg meta now = report_agent r id msg meta now

unfoldable pub report : InstanceUid → Registry → AgentToServer → ConnMeta → ℕ → Emits Registry
report from_bytes r msg meta now = report_named r (from_bytes msg.instance_uid) msg meta now

-- The listener call of a change of the connected flag.
abbrev pub connection_events : Str → Bool → Bool → List Event
connection_events id true false = agent_disconnected id ∷ []
connection_events id false true = agent_connected id ∷ []
connection_events id _ _ = []

abbrev pub set_found : Registry → Str → Bool → Option Agent → Emits Registry
set_found r id connected none = (r, [])
set_found r id connected (some a) = (
  put_agent r id (record a { connected = connected }),
  connection_events id a.connected connected,
)

unfoldable pub set_connected : Registry → Str → Bool → Emits Registry
set_connected r id connected = set_found r id connected (get r id)

unfoldable pub disconnect_threshold : Config → ℕ
disconnect_threshold c = c.heartbeat_interval + c.heartbeat_interval / 2

unfoldable pub evict_threshold : Config → ℕ
evict_threshold c = c.heartbeat_interval * c.stale_missed_heartbeats

-- `now.Sub(t) > d`; the difference may be negative.
abbrev pub older_than : ℕ → ℕ → ℕ → Bool
older_than d now t = ltb_ℤ (pos d) (sub_ℕ now t)

-- The body of Sweep's loop for one agent: the agent if it stays, and the listener calls.
unfoldable pub sweep_agent : Config → ℕ → Str → Agent → Option Agent × List Event
sweep_agent c now id a =
    let missed = a.connected && older_than (disconnect_threshold c) now a.last_seen in
    let b = if missed then record a { connected = false } else a in
    let said = if missed then agent_disconnected id ∷ [] else [] in
    if older_than (evict_threshold c) now a.last_seen
    then (none, said ++ (agent_evicted id ∷ []))
    else (some b, said)

-- What a sweep of some agents leaves, the ids that it evicts, and its listener calls.
pub record Swept (S : Type 0) : Type 0 where
  pub kept : S
  pub evicted : List Str
  pub events : List Event

unfoldable pub sweep_cons :
    Str → Option Agent × List Event → Swept (Assoc Agent) → Swept (Assoc Agent)
sweep_cons id (none, es) rest = record {
  kept = rest.kept;
  evicted = id ∷ rest.evicted;
  events = es ++ rest.events;
}
sweep_cons id (some a, es) rest = record {
  kept = (id, a) ∷ rest.kept;
  evicted = rest.evicted;
  events = es ++ rest.events;
}

unfoldable pub sweep_shard : Config → ℕ → Assoc Agent → Swept (Assoc Agent)
sweep_shard c now [] = record { kept = []; evicted = []; events = [] }
sweep_shard c now ((id, a) ∷ m) = sweep_cons id (sweep_agent c now id a) (sweep_shard c now m)

unfoldable pub sweep_shards : Config → ℕ → List (Assoc Agent) → Swept (List (Assoc Agent))
sweep_shards c now [] = record { kept = []; evicted = []; events = [] }
sweep_shards c now (s ∷ ss) =
    let here = sweep_shard c now s in
    let rest = sweep_shards c now ss in
    record {
      kept = here.kept ∷ rest.kept;
      evicted = here.evicted ++ rest.evicted;
      events = here.events ++ rest.events;
    }

unfoldable pub sweep : Registry → ℕ → Swept Registry
sweep r now =
    let all = sweep_shards r.cfg now r.shards in
    record { kept = record r { shards = all.kept }; evicted = all.evicted; events = all.events }

pub values : Assoc Agent → List Agent
values [] = []
values ((id, a) ∷ m) = a ∷ values m

pub list_shards : List (Assoc Agent) → List Agent
unfolding values
list_shards [] = []
list_shards (s ∷ ss) = values s ++ list_shards ss

-- List
unfoldable pub agents : Registry → List Agent
unfolding list_shards
agents r = list_shards r.shards
