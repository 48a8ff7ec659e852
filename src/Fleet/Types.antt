-- ===== src/Fleet/Types.antt =====
-- The data of internal/fleet/registry.go, and the parts of the OpAMP messages that it reads.
-- Times are nanoseconds since Go's zero time, so `IsZero` is a test for 0.
use grex.Base.{ℕ, Bool, false, List, [], Option, none, Str, text, Assoc, ◌∷◌}

pub record ConnMeta : Type 0 where
  pub remote_addr : Str
  pub tls_subject : Str
  pub via_gateway : Bool
  pub transport : Str

pub record Package : Type 0 where
  pub name : Str
  pub agent_has_version : Str
  pub server_offered_version : Str
  pub status : Str
  pub error_message : Str

pub record Agent : Type 0 where
  pub instance_uid : Str
  pub sequence_num : ℕ
  pub identifying : Assoc Str
  pub non_identifying : Assoc Str
  pub capabilities : ℕ
  pub healthy : Bool
  pub health_error : Str
  pub health_status : Str
  pub health_start_time : ℕ
  pub health_status_time : ℕ
  pub health_reported : Bool
  pub description_reported : Bool
  pub effective_config : Assoc Str
  pub packages : Assoc Package
  pub conn : ConnMeta
  pub connected : Bool
  pub first_seen : ℕ
  pub last_seen : ℕ
  pub missing_attributes : List Str
  pub reserved_attribute_conflicts : List Str
  pub evicted_at : Option ℕ
  pub session_updated_at : ℕ

abbrev pub no_conn : ConnMeta
no_conn = record { remote_addr = []; tls_subject = []; via_gateway = false; transport = [] }

-- `&Agent{InstanceUID: id, FirstSeen: now}`: the other fields have their zero values.
abbrev pub new_agent : Str → ℕ → Agent
new_agent id now = record {
  instance_uid = id;
  sequence_num = 0;
  identifying = [];
  non_identifying = [];
  capabilities = 0;
  healthy = false;
  health_error = [];
  health_status = [];
  health_start_time = 0;
  health_status_time = 0;
  health_reported = false;
  description_reported = false;
  effective_config = [];
  packages = [];
  conn = no_conn;
  connected = false;
  first_seen = now;
  last_seen = 0;
  missing_attributes = [];
  reserved_attribute_conflicts = [];
  evicted_at = none;
  session_updated_at = 0;
}

-- A call of the `Events` listener.
pub data Event : Type 0 where
  agent_connected agent_disconnected agent_evicted : Str → Event
  report_received missing_attribute reserved_attribute_conflict : Str → Str → Event

pub record Config : Type 0 where
  pub heartbeat_interval : ℕ
  pub stale_missed_heartbeats : ℕ
  pub required_attributes : List Str
  pub shard_count : ℕ

abbrev pub reserved_attribute_keys : List Str
reserved_attribute_keys =
    text "healthy" ∷ text "connected" ∷ text "via_gateway" ∷ text "supervisor_managed" ∷ []

-- A protobuf attribute value. Of a value that is no string the code uses only the text that the
-- protobuf library prints for it, which the second constructor carries.
pub data AnyValue : Type 0 where
  string_value : Str → AnyValue
  other_value : Str → AnyValue

pub record AgentDescription : Type 0 where
  pub identifying_attributes : List (Str × AnyValue)
  pub non_identifying_attributes : List (Str × AnyValue)

pub record ComponentHealth : Type 0 where
  pub healthy : Bool
  pub last_error : Str
  pub status : Str
  pub start_time_unix_nano : ℕ
  pub status_time_unix_nano : ℕ

pub record CustomMessage : Type 0 where
  pub capability : Str
  pub type : Str
  pub payload : Str

-- protobufs.AgentToServer. A package status is carried as the `Package` of its getters, a config
-- file as its body; an absent submessage has an empty map, which is what the getters return.
pub record AgentToServer : Type 0 where
  pub instance_uid : List ℕ
  pub sequence_num : ℕ
  pub capabilities : ℕ
  pub agent_description : Option AgentDescription
  pub health : Option ComponentHealth
  pub package_statuses : Assoc Package
  pub effective_config : Assoc Str
  pub custom_message : Option CustomMessage
