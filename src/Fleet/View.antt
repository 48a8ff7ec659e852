-- ===== src/Fleet/View.antt =====
-- internal/fleet/view.go and `DecodedCapabilities` of internal/fleet/registry.go: what the API and
-- the UI show of an agent.
pub mod Laws
use Prim.Native.Nat.{bit_and}
use grex.Base.{
  ℕ, Bool, true, false, not, List, [], ◌∷◌, Option, none, some, Str, text, str_eq, Assoc, lookup,
  ◌==◌, if◌then◌else◌, to_lower, contains,
}
use grex.Fleet.Types.{Agent, ConnMeta, Package}

-- One value for each agent capability: a flag, or the bit of the protocol's enum.
pub record Capabilities (A : Type 0) : Type 0 where
  pub reports_status : A
  pub accepts_remote_config : A
  pub reports_effective_config : A
  pub accepts_packages : A
  pub reports_package_statuses : A
  pub reports_own_traces : A
  pub reports_own_metrics : A
  pub reports_own_logs : A
  pub accepts_opamp_connection_settings : A
  pub accepts_other_connection_settings : A
  pub accepts_restart_command : A
  pub reports_health : A
  pub reports_remote_config : A
  pub reports_heartbeat : A
  pub reports_available_components : A
  pub reports_connection_settings_status : A

-- `a.Capabilities & bit != 0`. The bits are constants of the protobuf library.
abbrev pub has_bit : Agent → ℕ → Bool
has_bit a bit = not (bit_and a.capabilities bit == 0)

unfoldable pub decoded_capabilities : Capabilities ℕ → Agent → Capabilities Bool
decoded_capabilities bits a = record {
  reports_status = has_bit a bits.reports_status;
  accepts_remote_config = has_bit a bits.accepts_remote_config;
  reports_effective_config = has_bit a bits.reports_effective_config;
  accepts_packages = has_bit a bits.accepts_packages;
  reports_package_statuses = has_bit a bits.reports_package_statuses;
  reports_own_traces = has_bit a bits.reports_own_traces;
  reports_own_metrics = has_bit a bits.reports_own_metrics;
  reports_own_logs = has_bit a bits.reports_own_logs;
  accepts_opamp_connection_settings = has_bit a bits.accepts_opamp_connection_settings;
  accepts_other_connection_settings = has_bit a bits.accepts_other_connection_settings;
  accepts_restart_command = has_bit a bits.accepts_restart_command;
  reports_health = has_bit a bits.reports_health;
  reports_remote_config = has_bit a bits.reports_remote_config;
  reports_heartbeat = has_bit a bits.reports_heartbeat;
  reports_available_components = has_bit a bits.reports_available_components;
  reports_connection_settings_status = has_bit a bits.reports_connection_settings_status;
}

-- An absent key of a Go map reads as the empty string.
abbrev pub or_empty : Option Str → Str
or_empty none = []
or_empty (some v) = v

abbrev pub or_else : Option Str → Str → Str
or_else none v = v
or_else (some w) v = w

unfoldable pub attr : Agent → Str → Str
attr a key = or_else (lookup key a.identifying) (or_empty (lookup key a.non_identifying))

abbrev pub is_empty : Str → Bool
is_empty [] = true
is_empty (c ∷ s) = false

abbrev pub supervisor_managed_by_value : Str
supervisor_managed_by_value = text "opentelemetry-opampsupervisor"

unfoldable pub supervisor_managed : Agent → Bool
supervisor_managed a = str_eq (attr a (text "opamp.managed_by")) supervisor_managed_by_value

unfoldable pub role_of : Agent → Str
role_of a =
    let component = attr a (text "service.component") in
    if not (is_empty component)
    then component
    else if contains (to_lower (attr a (text "service.name"))) (text "gateway")
    then text "Gateway"
    else text "Collector"

unfoldable pub display_name_of : Agent → Str
display_name_of a =
    if not (is_empty (attr a (text "service.name")))
    then attr a (text "service.name")
    else if not (is_empty (attr a (text "host.name")))
    then attr a (text "host.name")
    else a.instance_uid

pub record AgentView : Type 0 where
  pub instance_uid : Str
  pub sequence_num : ℕ
  pub identifying : Assoc Str
  pub non_identifying : Assoc Str
  pub capabilities : ℕ
  pub capability_flags : Capabilities Bool
  pub healthy : Bool
  pub health_error : Str
  pub health_status : Str
  pub health_start_time : ℕ
  pub health_status_time : ℕ
  pub health_reported : Bool
  pub description_reported : Bool
  pub effective_config : Assoc Str
  pub packages : Assoc Package
  pub conn : ConnMeta
  pub connected : Bool
  pub first_seen : ℕ
  pub last_seen : ℕ
  pub missing_attributes : List Str
  pub role : Str
  pub display_name : Str
  pub host_name : Str
  pub version : Str
  pub supervisor_managed : Bool

unfoldable pub full_view : Capabilities ℕ → Agent → AgentView
full_view bits a = record {
  instance_uid = a.instance_uid;
  sequence_num = a.sequence_num;
  identifying = a.identifying;
  non_identifying = a.non_identifying;
  capabilities = a.capabilities;
  capability_flags = decoded_capabilities bits a;
  healthy = a.healthy;
  health_error = a.health_error;
  health_status = a.health_status;
  health_start_time = a.health_start_time;
  health_status_time = a.health_status_time;
  health_reported = a.health_reported;
  description_reported = a.description_reported;
  effective_config = a.effective_config;
  packages = a.packages;
  conn = a.conn;
  connected = a.connected;
  first_seen = a.first_seen;
  last_seen = a.last_seen;
  missing_attributes = a.missing_attributes;
  role = role_of a;
  display_name = display_name_of a;
  host_name = attr a (text "host.name");
  version = attr a (text "service.version");
  supervisor_managed = supervisor_managed a;
}

unfoldable pub summary_view : Capabilities ℕ → Agent → AgentView
unfolding full_view
summary_view bits a = record (full_view bits a) { effective_config = []; packages = [] }

unfoldable pub detail_view : Capabilities ℕ → Agent → AgentView
unfolding full_view
detail_view = full_view
