-- ===== src/Process/Tests.antt =====
-- Runs of cmd/grex/main.go with a database and client CAs.
use grex.Base.{refl, true, false, [], ◌∷◌, some, text, str_eq, Option}
use grex.Fleet.Tests.{fleet, uid}
use grex.Config.Tests.{config}
use grex.Config.Load.{Settings}
use grex.Server.Lifecycle.{start, new_server}
use grex.Server.Tls.{Material, tls_configs, listener_tls_config}
use grex.Persistence.Store.Reading.{no_tables}
use grex.Persistence.Session.{new_session_snapshotter}
use grex.Process.{
  Database, Process, Host, start_purge_client, build, start_server, start_up, signalled, Last,
  finish, Tail, RunError,
}
use grex.Process.Starting.{IsRefused, start_up-refused}
use grex.Fleet.Types.{agent_disconnected}

abbrev files : Material
files = record {
  load_key_pair = λ cert key. some cert;
  read_file = λ path. some path;
  append_certs = λ pem. some pem;
}

abbrev settings : Settings
settings = record {
  checked = config;
  required_attributes = [];
  pprof_enabled = false;
  database_host = text "db";
  database_user = [];
  database_password = [];
  database_name = [];
  database_ssl_mode = [];
}

abbrev host : Host
host = record {
  parses_flags = true;
  loaded = some settings;
  opens_pool = true;
  builds_purge_client = true;
  attaches = true;
  builds_ui = true;
  builds_river_ui = true;
  material = files;
  binds = λ name. true;
  starts_purge_client = true;
  starts_river_ui = true;
  tables = no_tables;
}

abbrev up : Process
up = start_server host settings (build settings no_tables)

-- The purge client does not start.
abbrev unlucky : Host
unlucky = record host { starts_purge_client = false }

start_up-refused_example : IsRefused start_purge_client up.server
unfolding start_up start tls_configs listener_tls_config str_eq build new_server
start_up-refused_example = start_up-refused unlucky start_purge_client up.server refl

abbrev last : Last
last = record {
  reached = λ id. true;
  replica = text "r1";
  label = text "pod";
  now = 200;
  flusher_first = false;
}

abbrev marked_one : Database
marked_one = record {
  flusher = record { dirty = uid ∷ []; tables = no_tables; connections = [] };
  snapshotter = new_session_snapshotter 45 5;
}

-- A close of the connection is heard of after the last flush.
abbrev tail : Tail
tail = (fleet, agent_disconnected uid ∷ [])

abbrev ended : Option RunError × Process
ended = finish signalled (fleet, some marked_one) last tail true up
