-- ===== src/Persistence/Flush.antt =====
-- internal/persistence/flush.go: the set of changed agents, and the flush that writes them. The
-- writes of one kind run concurrently on different rows; here they run in the order of the ids.
pub mod Marked
pub mod Reports
pub mod Told
pub mod Interleaved
mod Tests
pub mod Steps
pub mod Rows
use grex.Base.{
  ℕ, Bool, true, false, List, [], ◌∷◌, Option, none, some, Str, str_eq, Assoc, if◌then◌else◌,
}
use grex.Fleet.Types.{
  Agent, Event, agent_connected, agent_disconnected, agent_evicted, report_received,
  missing_attribute, reserved_attribute_conflict,
}
use grex.Fleet.Registry.{Registry, get}
use grex.Persistence.Store.{Tables, save_agent, soft_delete_agent}
use grex.Persistence.Connections.{AgentConnection, upsert_agent_connection}

-- DirtyTracker's set, as a list in which an id is once.
unfoldable pub mark : Str → List Str → List Str
mark id [] = id ∷ []
mark id (j ∷ js) = if str_eq j id then j ∷ js else j ∷ mark id js

-- The listener: every call marks its agent.
unfoldable pub listen : List Str → Event → List Str
unfolding mark
listen dirty (agent_connected id) = mark id dirty
listen dirty (agent_disconnected id) = mark id dirty
listen dirty (agent_evicted id) = mark id dirty
listen dirty (report_received id kind) = mark id dirty
listen dirty (missing_attribute id key) = mark id dirty
listen dirty (reserved_attribute_conflict id key) = mark id dirty

unfoldable pub listen_all : List Str → List Event → List Str
listen_all dirty [] = dirty
listen_all dirty (e ∷ es) = listen_all (listen dirty e) es

-- Drain: the ids, and the cleared set.
unfoldable pub drain : List Str → List Str × List Str
drain dirty = (dirty, [])

-- What the loop of flushOnce gathers.
pub record Gathered : Type 0 where
  pub saves : List Agent
  pub evicted : List Str
  pub connected : List Agent

unfoldable pub gather_agent : Str → Option Agent → Gathered → Gathered
gather_agent id none g = record g { evicted = id ∷ g.evicted }
gather_agent id (some a) g = record g {
  saves = a ∷ g.saves;
  connected = if a.connected then a ∷ g.connected else g.connected;
}

unfoldable pub gather : Registry → List Str → Gathered
gather r [] = record { saves = []; evicted = []; connected = [] }
gather r (id ∷ ids) = gather_agent id (get r id) (gather r ids)

-- `reached id` is false if the write of that row fails or times out; the row is then as before.
pub save_all : (Str → Bool) → List Agent → Tables → Tables
save_all reached [] t = t
save_all reached (a ∷ rest) t =
    save_all reached rest (if reached a.instance_uid then save_agent t a else t)

pub soft_delete_all : (Str → Bool) → ℕ → List Str → Tables → Tables
soft_delete_all reached now [] t = t
soft_delete_all reached now (id ∷ ids) t =
    soft_delete_all reached now ids (if reached id then soft_delete_agent t id now else t)

-- The row that a replica writes for an agent that it holds.
abbrev pub own_connection : Str → Str → ℕ → Agent → AgentConnection
own_connection replica label now a = record {
  instance_uid = a.instance_uid;
  replica_id = replica;
  replica_label = label;
  connected_at = now;
  last_seen = now;
}

pub upsert_all :
    (Str → Bool) → Str → Str → ℕ → List Agent → Assoc AgentConnection → Assoc AgentConnection
upsert_all reached replica label now [] c = c
upsert_all reached replica label now (a ∷ rest) c = upsert_all reached replica label now rest (
    if reached a.instance_uid
    then upsert_agent_connection c (own_connection replica label now a)
    else c)

pub record Flusher : Type 0 where
  pub dirty : List Str
  pub tables : Tables
  pub connections : Assoc AgentConnection

unfoldable pub flush_once : (Str → Bool) → Str → Str → Registry → ℕ → Flusher → Flusher
unfolding save_all soft_delete_all upsert_all
flush_once reached replica label r now f =
    let (ids, dirty) = drain f.dirty in
    let g = gather r ids in
    record {
      dirty = dirty;
      tables = soft_delete_all reached now g.evicted (save_all reached g.saves f.tables);
      connections = upsert_all reached replica label now g.connected f.connections;
    }
