-- ===== src/Config.antt =====
-- internal/config/config.go: the checks that a loaded configuration passes before the server
-- starts. `splits` stands for net.SplitHostPort and `exists` for os.Stat, true where they succeed.
-- Go's int and time.Duration are signed; the messages of the errors are not modelled.
pub mod Accepted
pub mod Load
pub mod Tests
use grex.Base.{
  ℕ, Bool, true, false, not, ◌&&◌, ◌||◌, List, [], ◌∷◌, Option, none, some, Str, text, str_eq, elem,
  if◌then◌else◌,
}
use grex.Base.Int.{ℤ, pos, negsuc, ltb_ℤ}
use grex.Spiffe.{RoleRule}

pub record Tls : Type 0 where
  pub cert_file : Str
  pub key_file : Str
  pub client_ca_file : Str

pub record Auth : Type 0 where
  pub role_mapping : List RoleRule
  pub default_role : Str

-- The fields that `validate` reads.
pub record Config : Type 0 where
  pub opamp_addr : Str
  pub ui_addr : Str
  pub telemetry_addr : Str
  pub opamp_tls : Tls
  pub ui_tls : Tls
  pub telemetry_tls : Tls
  pub auth : Auth
  pub log_level : Str
  pub log_format : Str
  pub heartbeat_interval : ℤ
  pub stale_missed_heartbeats : ℤ
  pub soft_delete_duration : ℤ
  pub shard_count : ℤ
  pub per_agent_series_limit : ℤ
  pub poll_interval : ℤ
  pub database_port : ℤ

pub data ConfigError : Type 0 where
  invalid_address half_key_pair ca_without_cert missing_file invalid_default_role invalid_match
        empty_spiffe_id invalid_role invalid_log_level invalid_log_format invalid_heartbeat_interval
        invalid_stale_missed_heartbeats invalid_soft_delete_duration invalid_shard_count
        invalid_series_limit invalid_poll_interval invalid_port :
      ConfigError

-- A check is `none` if it passes. Checks in order: the first error is returned.
infixr 6 ◌then◌
abbrev pub ◌then◌ : Option ConfigError → Option ConfigError → Option ConfigError
none then c = c
(some e) then c = some e

-- `if bad { return error }`
abbrev pub refuse : Bool → ConfigError → Option ConfigError
refuse bad e = if bad then some e else none

unfoldable pub check_address : (Str → Bool) → Str → Option ConfigError
check_address splits addr = refuse (not (splits addr)) invalid_address

-- An empty path is not looked up.
unfoldable pub check_file : (Str → Bool) → Str → Option ConfigError
check_file exists path = refuse (not (str_eq path []) && not (exists path)) missing_file

abbrev differ : Bool → Bool → Bool
differ true b = not b
differ false b = b

unfoldable pub validate_tls : (Str → Bool) → Tls → Option ConfigError
validate_tls exists t =
    refuse (differ (str_eq t.cert_file []) (str_eq t.key_file [])) half_key_pair
    then refuse (not (str_eq t.client_ca_file []) && str_eq t.cert_file []) ca_without_cert
    then check_file exists t.cert_file
    then check_file exists t.key_file
    then check_file exists t.client_ca_file

abbrev pub valid_roles : List Str
valid_roles = text "none" ∷ text "viewer" ∷ text "admin" ∷ []

unfoldable pub validate_rule : RoleRule → Option ConfigError
validate_rule r =
    refuse (not (str_eq r.match_kind (text "exact")) && not (str_eq r.match_kind (text "prefix")))
      invalid_match
    then refuse (str_eq r.spiffe_id []) empty_spiffe_id
    then refuse (not (str_eq r.role (text "viewer")) && not (str_eq r.role (text "admin")))
        invalid_role

unfoldable pub validate_rules : List RoleRule → Option ConfigError
validate_rules [] = none
validate_rules (r ∷ rs) = validate_rule r then validate_rules rs

unfoldable pub validate_auth : Auth → Option ConfigError
validate_auth a =
    refuse (not (elem a.default_role valid_roles)) invalid_default_role
    then validate_rules a.role_mapping

unfoldable pub validate_log : Config → Option ConfigError
validate_log c =
    refuse (not (elem c.log_level (text "debug" ∷ text "info" ∷ text "warn" ∷ text "error" ∷ [])))
      invalid_log_level
    then refuse (not (elem c.log_format (text "text" ∷ text "json" ∷ []))) invalid_log_format

-- n < bound
abbrev below : ℤ → ℕ → Bool
below n bound = ltb_ℤ n (pos bound)

unfoldable pub validate_numbers : Config → Option ConfigError
validate_numbers c =
    refuse (below c.heartbeat_interval 1) invalid_heartbeat_interval
    then refuse (below c.stale_missed_heartbeats 1) invalid_stale_missed_heartbeats
    then refuse (below c.soft_delete_duration 1) invalid_soft_delete_duration
    then refuse (below c.shard_count 0) invalid_shard_count
    then refuse (below c.per_agent_series_limit 0) invalid_series_limit
    then refuse (below c.poll_interval 1) invalid_poll_interval
    then refuse (below c.database_port 1 || ltb_ℤ (pos 65535) c.database_port) invalid_port

unfoldable pub validate : (Str → Bool) → (Str → Bool) → Config → Option ConfigError
validate splits exists c =
    check_address splits c.opamp_addr
    then check_address splits c.ui_addr
    then check_address splits c.telemetry_addr
    then validate_tls exists c.opamp_tls
    then validate_tls exists c.ui_tls
    then validate_tls exists c.telemetry_tls
    then validate_auth c.auth
    then validate_log c
    then validate_numbers c
