-- ===== src/Persistence/Store.antt =====
-- internal/persistence/postgres.go: each method is the effect of its SQL on the tables. A table is
-- a map by its primary key; the rows of agent_effective_config are grouped by agent. Times are
-- stored in whole microseconds; the order of the rows of a list query is not modelled.
pub mod Reading
pub mod Guard
pub mod Lifecycle
use grex.Base.{
  ℕ, Bool, true, false, not, ◌&&◌, ◌||◌, List, [], ◌∷◌, Option, none, some, Str, Assoc, lookup,
  insert, delete, has, ltb, leb, if◌then◌else◌, ◌*◌, ◌/◌,
}
use grex.Fleet.Types.{Agent, ConnMeta, Package}

-- What a TIMESTAMPTZ keeps of a time in nanoseconds.
unfoldable pub micros : ℕ → ℕ
micros t = t / 1000 * 1000

pub record AgentRow : Type 0 where
  pub first_seen : ℕ
  pub last_seen : ℕ
  pub healthy : Bool
  pub health_error : Str
  pub health_status : Str
  pub health_start_time : ℕ
  pub health_status_time : ℕ
  pub health_reported : Bool
  pub capabilities : ℕ
  pub identifying : Assoc Str
  pub non_identifying : Assoc Str
  pub missing_attributes : List Str
  pub reserved_attribute_conflicts : List Str
  pub packages : Assoc Package
  pub evicted_at : Option ℕ
  pub updated_at : ℕ

pub record SessionRow : Type 0 where
  pub connected : Bool
  pub conn : ConnMeta
  pub description_reported : Bool
  pub sequence_num : ℕ
  pub updated_at : ℕ

pub record Tables : Type 0 where
  pub agents : Assoc AgentRow
  pub sessions : Assoc SessionRow
  pub configs : Assoc (Assoc Str)

-- The values of the INSERT into agents. Its two columns that the UPDATE leaves out are arguments.
abbrev pub agent_row : ℕ → Option ℕ → Agent → AgentRow
agent_row first_seen evicted_at a = record {
  first_seen = first_seen;
  last_seen = micros a.last_seen;
  healthy = a.healthy;
  health_error = a.health_error;
  health_status = a.health_status;
  health_start_time = micros a.health_start_time;
  health_status_time = micros a.health_status_time;
  health_reported = a.health_reported;
  capabilities = a.capabilities;
  identifying = a.identifying;
  non_identifying = a.non_identifying;
  missing_attributes = a.missing_attributes;
  reserved_attribute_conflicts = a.reserved_attribute_conflicts;
  packages = a.packages;
  evicted_at = evicted_at;
  updated_at = micros a.last_seen;
}

-- INSERT … ON CONFLICT DO UPDATE … WHERE agents.updated_at < EXCLUDED.updated_at: the row that
-- stands afterwards, and whether it was written.
unfoldable pub upsert_row : Option AgentRow → Agent → AgentRow × Bool
upsert_row none a = (agent_row (micros a.first_seen) none a, true)
upsert_row (some old) a =
    if ltb old.updated_at (micros a.last_seen)
    then (agent_row old.first_seen old.evicted_at a, true)
    else (old, false)

abbrev pub session_row : Agent → SessionRow
session_row a = record {
  connected = a.connected;
  conn = a.conn;
  description_reported = a.description_reported;
  sequence_num = a.sequence_num;
  updated_at = micros a.last_seen;
}

-- The upsert of agent_session, WHERE agent_session.updated_at <= EXCLUDED.updated_at.
unfoldable pub upsert_session : Option SessionRow → Agent → SessionRow
upsert_session none a = session_row a
upsert_session (some old) a = if leb old.updated_at (micros a.last_seen) then session_row a else old

unfoldable pub save_agent : Tables → Agent → Tables
save_agent t a =
    let (row, updated) = upsert_row (lookup a.instance_uid t.agents) a in
    record {
      agents = insert a.instance_uid row t.agents;
      sessions =
          insert a.instance_uid (upsert_session (lookup a.instance_uid t.sessions) a) t.sessions;
      configs = if updated then insert a.instance_uid a.effective_config t.configs else t.configs;
    }

-- SaveSession alone: the foreign key to agents refuses a row with no agent, which is `none`.
unfoldable pub save_session : Tables → Agent → Option Tables
save_session t a =
    if has a.instance_uid t.agents
    then some (record t {
      sessions =
          insert a.instance_uid (upsert_session (lookup a.instance_uid t.sessions) a) t.sessions;
    })
    else none

-- UPDATE agents SET evicted_at = $2 WHERE instance_uid = $1 AND evicted_at IS NULL
abbrev pub mark_evicted : ℕ → AgentRow → AgentRow
mark_evicted at row = elim row.evicted_at [
  | none ↦ record row { evicted_at = some (micros at) }
  | some e ↦ row
]

abbrev pub mark_found : Str → ℕ → Option AgentRow → Tables → Tables
mark_found id at none t = t
mark_found id at (some row) t = record t { agents = insert id (mark_evicted at row) t.agents }

unfoldable pub soft_delete_agent : Tables → Str → ℕ → Tables
soft_delete_agent t id at = mark_found id at (lookup id t.agents) t

-- DELETE FROM agents, which cascades to the other two tables.
unfoldable pub delete_agent : Tables → Str → Tables
delete_agent t id = record {
  agents = delete id t.agents;
  sessions = delete id t.sessions;
  configs = delete id t.configs;
}

-- evicted_at IS NOT NULL AND evicted_at < before
abbrev pub is_purged : ℕ → AgentRow → Bool
is_purged before row = elim row.evicted_at [ none ↦ false | some at ↦ ltb at (micros before) ]

pub purge_row : ℕ → Str → AgentRow → Tables → Tables
purge_row before id row t = if is_purged before row then delete_agent t id else t

pub purge_rows : ℕ → Assoc AgentRow → Tables → Tables
purge_rows before [] t = t
purge_rows before ((id, row) ∷ rows) t = purge_rows before rows (purge_row before id row t)

-- The purge worker's DELETE, internal/persistence/purge.go.
unfoldable pub purge : ℕ → Tables → Tables
unfolding purge_rows purge_row
purge before t = purge_rows before t.agents t

abbrev pub or_no_config : Option (Assoc Str) → Assoc Str
or_no_config none = []
or_no_config (some c) = c

-- scanAgent with effectiveConfig. The session columns of the LEFT JOIN are NULL if there is no
-- session row; a NULL description_reported cannot be scanned into a bool, so the read fails.
pub data Read {ℓ} (A : Type ℓ) : Type ℓ where
  ok : A → Read A
  failed : Read A

abbrev pub scan_agent : Str → AgentRow → Option SessionRow → Assoc Str → Read Agent
scan_agent id row none config = failed
scan_agent id row (some s) config = ok (record {
  instance_uid = id;
  sequence_num = s.sequence_num;
  identifying = row.identifying;
  non_identifying = row.non_identifying;
  capabilities = row.capabilities;
  healthy = row.healthy;
  health_error = row.health_error;
  health_status = row.health_status;
  health_start_time = row.health_start_time;
  health_status_time = row.health_status_time;
  health_reported = row.health_reported;
  description_reported = s.description_reported;
  effective_config = config;
  packages = row.packages;
  conn = s.conn;
  connected = s.connected;
  first_seen = row.first_seen;
  last_seen = row.last_seen;
  missing_attributes = row.missing_attributes;
  reserved_attribute_conflicts = row.reserved_attribute_conflicts;
  evicted_at = row.evicted_at;
  session_updated_at = s.updated_at;
})

abbrev pub read_agent : Tables → Str → AgentRow → Read Agent
read_agent t id row = scan_agent id row (lookup id t.sessions) (or_no_config (lookup id t.configs))

abbrev pub found_agent : Read Agent → Read (Option Agent)
found_agent failed = failed
found_agent (ok a) = ok (some a)

abbrev pub get_row : Tables → Str → Option AgentRow → Read (Option Agent)
get_row t id none = ok none
get_row t id (some row) = found_agent (read_agent t id row)

unfoldable pub get_agent : Tables → Str → Read (Option Agent)
get_agent t id = get_row t id (lookup id t.agents)

abbrev pub cons_read : Read Agent → Read (List Agent) → Read (List Agent)
cons_read (ok a) (ok rest) = ok (a ∷ rest)
cons_read (ok a) failed = failed
cons_read failed rest = failed

pub list_rows : Tables → Assoc AgentRow → Read (List Agent)
list_rows t [] = ok []
list_rows t ((id, row) ∷ rows) = cons_read (read_agent t id row) (list_rows t rows)

unfoldable pub list_agents : Tables → Read (List Agent)
unfolding list_rows
list_agents t = list_rows t t.agents
