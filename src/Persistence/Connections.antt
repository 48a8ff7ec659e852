-- ===== src/Persistence/Connections.antt =====
-- internal/persistence/agent_connections.go: which replica holds an agent's socket.
use grex.Base.{
  ℕ, ◌≡◌, List, [], ◌∷◌, Option, none, some, Str, str_eq, Assoc, lookup, insert, delete,
  lookup-insert, if◌then◌else◌,
}
use grex.Base.Order.{str_compare}
use grex.Base.Order.Sorting.{sort}
use grex.Persistence.Store.{micros}

pub record AgentConnection : Type 0 where
  pub instance_uid : Str
  pub replica_id : Str
  pub replica_label : Str
  pub connected_at : ℕ
  pub last_seen : ℕ

-- The values of the INSERT.
abbrev pub stored : AgentConnection → AgentConnection
stored c = record c { connected_at = micros c.connected_at; last_seen = micros c.last_seen }

-- connected_at moves only when the replica changes.
abbrev pub merge_connection : Option AgentConnection → AgentConnection → AgentConnection
merge_connection none c = stored c
merge_connection (some old) c = record (stored c) {
  connected_at =
      if str_eq old.replica_id c.replica_id then old.connected_at else micros c.connected_at;
}

unfoldable pub upsert_agent_connection :
    Assoc AgentConnection → AgentConnection → Assoc AgentConnection
upsert_agent_connection t c = insert c.instance_uid (merge_connection (lookup c.instance_uid t) c) t

unfoldable pub get_agent_connection : Assoc AgentConnection → Str → Option AgentConnection
get_agent_connection t id = lookup id t

unfoldable pub delete_agent_connection : Assoc AgentConnection → Str → Assoc AgentConnection
delete_agent_connection t id = delete id t

-- An upsert over the row of an agent keeps the time of the take-over if the replica is the same
-- and moves it if not; the rest is as given, in whole microseconds, and other rows are as before.
pub upsert_refreshes :
    (t : Assoc AgentConnection) (old c : AgentConnection) (id : Str)
    → get_agent_connection t c.instance_uid ≡ some old
    → get_agent_connection (upsert_agent_connection t c) id ≡ (
        if str_eq c.instance_uid id
        then some (record (stored c) {
          connected_at =
              if str_eq old.replica_id c.replica_id
              then old.connected_at
              else micros c.connected_at;
        })
        else get_agent_connection t id)
unfolding get_agent_connection upsert_agent_connection
upsert_refreshes t old c id h =
    rw (h, lookup-insert c.instance_uid id (merge_connection (some old) c) t)

abbrev pub by_uid : AgentConnection → AgentConnection → Prim.Native.Nat.Ordering
by_uid a b = str_compare a.instance_uid b.instance_uid

abbrev pub rows : Assoc AgentConnection → List AgentConnection
rows [] = []
rows ((id, c) ∷ t) = c ∷ rows t

-- ListAgentConnections, ORDER BY instance_uid in byte order.
unfoldable pub list_agent_connections : Assoc AgentConnection → List AgentConnection
list_agent_connections t = sort by_uid (rows t)
