-- ===== src/Config/Load.antt =====
-- Load of internal/config/config.go: the defaults, the file over them, the GREX_* variables over
-- those, and then the checks. Decoding the YAML file, the environment, strconv.Atoi and
-- time.ParseDuration are parameters; `none` is an error, without its message.
pub mod Laws
use mathlib.Core.Path.{subst}
use grex.Base.{
  ℕ, ◌*◌, ◌≡◌, refl, sym, Bool, false, List, [], ◌∷◌, Option, none, some, Str, text, if◌then◌else◌,
  ◌==◌, trim_space, In, inl, inr,
}
use grex.Base.Int.{ℤ, pos}
use grex.Fleet.View.{is_empty}
use grex.Api.Parse.{parse_bool}
use grex.Config.{Tls, Config, ConfigError, validate}

-- Config: the fields that `validate` reads, and the others.
pub record Settings : Type 0 where
  pub checked : Config
  pub required_attributes : List Str
  pub pprof_enabled : Bool
  pub database_host : Str
  pub database_user : Str
  pub database_password : Str
  pub database_name : Str
  pub database_ssl_mode : Str

abbrev seconds : ℕ → ℤ
seconds n = pos (n * 1000000000)

abbrev no_tls : Tls
no_tls = record { cert_file = []; key_file = []; client_ca_file = [] }

unfoldable pub defaults : Settings
defaults = record {
  checked = record {
    opamp_addr = text ":4320";
    ui_addr = text ":8080";
    telemetry_addr = text ":9090";
    opamp_tls = no_tls;
    ui_tls = no_tls;
    telemetry_tls = no_tls;
    auth = record { role_mapping = []; default_role = text "none" };
    log_level = text "info";
    log_format = text "text";
    heartbeat_interval = seconds 30;
    stale_missed_heartbeats = pos 3;
    soft_delete_duration = seconds (7 * 24 * 3600);
    shard_count = pos 0;
    per_agent_series_limit = pos 1000;
    poll_interval = seconds 5;
    database_port = pos 5432;
  };
  required_attributes = [];
  pprof_enabled = false;
  database_host = [];
  database_user = [];
  database_password = [];
  database_name = [];
  database_ssl_mode = text "disable";
}

-- strings.SplitSeq(v, ","), each part trimmed and the empty ones left out.
abbrev pub prepend : ℕ → List Str → List Str
prepend c [] = (c ∷ []) ∷ []
prepend c (part ∷ parts) = (c ∷ part) ∷ parts

unfoldable pub split_commas : Str → List Str
split_commas [] = [] ∷ []
split_commas (c ∷ s) = let rest = split_commas s in if c == 44 then [] ∷ rest else prepend c rest

abbrev pub trimmed_parts : List Str → List Str
trimmed_parts [] = []
trimmed_parts (part ∷ parts) =
    let rest = trimmed_parts parts in
    if is_empty (trim_space part) then rest else trim_space part ∷ rest

-- A variable and what its value does; `none` is an error of its parser.
pub record Override : Type 0 where
  pub name : Str
  pub assign : Str → Option (Settings → Settings)

abbrev pub on_checked : (Config → Config) → Settings → Settings
on_checked f s = record s { checked = f s.checked }

-- setString, setInt, setDuration and setBool.
abbrev pub set_string : Str → (Str → Settings → Settings) → Override
set_string name put = record { name = name; assign = λ v. some (put v) }

abbrev pub assign_by :
    {A : Type 0} → Option A → (A → Settings → Settings) → Option (Settings → Settings)
assign_by none put = none
assign_by (some a) put = some (put a)

abbrev pub set_by : {A : Type 0} → (Str → Option A) → Str → (A → Settings → Settings) → Override
set_by parse name put = record { name = name; assign = λ v. assign_by (parse v) put }

module _ (atoi parse_duration : Str → Option ℤ) where
  unfoldable pub env_overrides : List Override
  env_overrides =
      set_string (text "GREX_LISTENERS_OPAMP") (λ v. on_checked (λ c. record c { opamp_addr = v }))
      ∷ set_string (text "GREX_LISTENERS_UI") (λ v. on_checked (λ c. record c { ui_addr = v }))
      ∷ set_string (text "GREX_LISTENERS_TELEMETRY")
          (λ v. on_checked (λ c. record c { telemetry_addr = v }))
      ∷ set_string (text "GREX_OPAMP_TLS_CERT_FILE")
          (λ v. on_checked (λ c. record c { opamp_tls = record c.opamp_tls { cert_file = v } }))
      ∷ set_string (text "GREX_OPAMP_TLS_KEY_FILE")
          (λ v. on_checked (λ c. record c { opamp_tls = record c.opamp_tls { key_file = v } }))
      ∷ set_string (text "GREX_OPAMP_TLS_CLIENT_CA_FILE") (λ v.
        on_checked (λ c. record c { opamp_tls = record c.opamp_tls { client_ca_file = v } }))
      ∷ set_string (text "GREX_UI_TLS_CERT_FILE")
          (λ v. on_checked (λ c. record c { ui_tls = record c.ui_tls { cert_file = v } }))
      ∷ set_string (text "GREX_UI_TLS_KEY_FILE")
          (λ v. on_checked (λ c. record c { ui_tls = record c.ui_tls { key_file = v } }))
      ∷ set_string (text "GREX_UI_TLS_CLIENT_CA_FILE")
          (λ v. on_checked (λ c. record c { ui_tls = record c.ui_tls { client_ca_file = v } }))
      ∷ set_string (text "GREX_TELEMETRY_TLS_CERT_FILE") (λ v.
        on_checked (λ c. record c { telemetry_tls = record c.telemetry_tls { cert_file = v } }))
      ∷ set_string (text "GREX_TELEMETRY_TLS_KEY_FILE") (λ v.
        on_checked (λ c. record c { telemetry_tls = record c.telemetry_tls { key_file = v } }))
      ∷ set_string (text "GREX_TELEMETRY_TLS_CLIENT_CA_FILE") (λ v.
        on_checked
          (λ c. record c { telemetry_tls = record c.telemetry_tls { client_ca_file = v } }))
      ∷ set_string (text "GREX_AUTH_DEFAULT_ROLE")
          (λ v. on_checked (λ c. record c { auth = record c.auth { default_role = v } }))
      ∷ set_by parse_duration (text "GREX_FLEET_HEARTBEAT_INTERVAL")
          (λ d. on_checked (λ c. record c { heartbeat_interval = d }))
      ∷ set_by atoi (text "GREX_FLEET_STALE_MISSED_HEARTBEATS")
          (λ n. on_checked (λ c. record c { stale_missed_heartbeats = n }))
      ∷ set_string (text "GREX_FLEET_REQUIRED_ATTRIBUTES")
          (λ v s. record s { required_attributes = trimmed_parts (split_commas v) })
      ∷ set_by atoi (text "GREX_FLEET_SHARD_COUNT")
          (λ n. on_checked (λ c. record c { shard_count = n }))
      ∷ set_by parse_duration (text "GREX_FLEET_SOFT_DELETE_DURATION")
          (λ d. on_checked (λ c. record c { soft_delete_duration = d }))
      ∷ set_by atoi (text "GREX_METRICS_PER_AGENT_SERIES_LIMIT")
          (λ n. on_checked (λ c. record c { per_agent_series_limit = n }))
      ∷ set_by parse_duration (text "GREX_UI_POLL_INTERVAL")
          (λ d. on_checked (λ c. record c { poll_interval = d }))
      ∷ set_by parse_bool (text "GREX_DEBUG_PPROF_ENABLED") (λ b s. record s { pprof_enabled = b })
      ∷ set_string (text "GREX_LOG_LEVEL") (λ v. on_checked (λ c. record c { log_level = v }))
      ∷ set_string (text "GREX_LOG_FORMAT") (λ v. on_checked (λ c. record c { log_format = v }))
      ∷ set_string (text "GREX_DATABASE_HOST") (λ v s. record s { database_host = v })
      ∷ set_by atoi (text "GREX_DATABASE_PORT")
          (λ n. on_checked (λ c. record c { database_port = n }))
      ∷ set_string (text "GREX_DATABASE_USER") (λ v s. record s { database_user = v })
      ∷ set_string (text "GREX_DATABASE_PASSWORD") (λ v s. record s { database_password = v })
      ∷ set_string (text "GREX_DATABASE_DBNAME") (λ v s. record s { database_name = v })
      ∷ set_string (text "GREX_DATABASE_SSLMODE") (λ v s. record s { database_ssl_mode = v })
      ∷ []

-- One round of the loop, and the loop.
abbrev pub assigned : Option (Settings → Settings) → Settings → Option Settings
assigned none s = none
assigned (some f) s = some (f s)

abbrev pub override_by : Override → Option Str → Settings → Option Settings
override_by ov none s = some s
override_by ov (some v) s = assigned (ov.assign v) s

abbrev pub override_all : (Str → Option Str) → List Override → Option Settings → Option Settings
override_all env [] o = o
override_all env (ov ∷ ovs) none = none
override_all env (ov ∷ ovs) (some s) = override_all env ovs (override_by ov (env ov.name) s)

module _ (atoi parse_duration : Str → Option ℤ) (splits exists : Str → Bool) where
  abbrev pub only_if_none : Option ConfigError → Settings → Option Settings
  only_if_none none s = some s
  only_if_none (some e) s = none

  abbrev pub if_valid : Option Settings → Option Settings
  if_valid none = none
  if_valid (some s) = only_if_none (validate splits exists s.checked) s

  unfoldable pub load : (Settings → Option Settings) → (Str → Option Str) → Option Settings
  load decode env =
      if_valid (override_all env (env_overrides atoi parse_duration) (decode defaults))
