-- ===== src/Process.antt =====
-- cmd/grex/main.go: `run`, which builds the parts, starts them, waits for a signal or for a listener
-- that fails, and stops them in order. Whether a call outside this repository's own parts succeeds is
-- a field of `Host`. Build information, loggers and the registration of metrics are not modelled.
pub mod Stopping
pub mod Starting
mod Tests
use grex.Base.{
  ℕ, ◌*◌, Bool, true, false, not, ◌&&◌, List, [], ◌∷◌, Option, none, some, Str, text, str_eq,
  if◌then◌else◌,
}
use grex.Base.Int.{ℤ, pos_part}
use grex.Fleet.Types
use grex.Fleet.Registry.{Registry, new_registry, agents, disconnect_threshold}
use grex.Config.{Config}
use grex.Config.Load.{Settings}
use grex.Opamp.{Handler, drain}
use grex.Server.Lifecycle.{Server, new_server, start, begin_draining, shutdown}
use grex.Server.Tls.{Material, Loaded, loaded, unloadable, tls_configs}
use grex.Persistence.Store.{Tables}
use grex.Persistence.Flush.{Flusher, flush_once, listen_all}
use grex.Persistence.Session.{SessionSnapshotter, new_session_snapshotter, snapshot_once}
use grex.Fleet.Types.{Event}

-- 5 s, as a time.Duration.
abbrev pub session_snapshot_interval : ℕ
session_snapshot_interval = 5 * 1000000000

-- What stands behind the database settings: the flusher with the tables, and the snapshotter.
pub record Database : Type 0 where
  pub flusher : Flusher
  pub snapshotter : SessionSnapshotter

pub record Process : Type 0 where
  pub handler : Handler
  pub server : Server
  pub database : Option Database

pub data RunError : Type 0 where
  flags config database purge_client attach ui river_ui listen start_purge_client start_river_ui :
      RunError
  shutdown_failed : RunError
  listener_failed : Str → RunError

-- What the calls of `run` return: true where they succeed. `tables` is what the database holds.
pub record Host : Type 0 where
  pub parses_flags : Bool
  pub loaded : Option Settings
  pub opens_pool : Bool
  pub builds_purge_client : Bool
  pub attaches : Bool
  pub builds_ui : Bool
  pub builds_river_ui : Bool
  pub material : Material
  pub binds : Str → Bool
  pub starts_purge_client : Bool
  pub starts_river_ui : Bool
  pub tables : Tables

-- The value that config.Load returned, as the fleet's configuration. An accepted number is positive.
abbrev pub fleet_config : Settings → Types.Config
fleet_config s = record {
  heartbeat_interval = pos_part s.checked.heartbeat_interval;
  stale_missed_heartbeats = pos_part s.checked.stale_missed_heartbeats;
  required_attributes = s.required_attributes;
  shard_count = pos_part s.checked.shard_count;
}

abbrev pub has_database : Settings → Bool
has_database s = not (str_eq s.database_host [])

unfoldable pub new_database : Settings → Tables → Database
new_database s t = record {
  flusher = record { dirty = []; tables = t; connections = [] };
  snapshotter =
      new_session_snapshotter (disconnect_threshold (fleet_config s)) session_snapshot_interval;
}

-- The parts as `run` builds them, before anything is started.
unfoldable pub build : Settings → Tables → Process
unfolding new_database
build s t = record {
  handler = record { registry = new_registry (fleet_config s); draining = false };
  server = new_server (text "opamp" ∷ text "ui" ∷ text "telemetry" ∷ []);
  database = if has_database s then some (new_database s t) else none;
}

-- Does the listener get its TLS configuration? One error fails all.
abbrev pub tls_loads : Loaded (List (Str × Option grex.Server.Tls.TlsConfig)) → Str → Bool
tls_loads (loaded configs) name = true
tls_loads (unloadable e) name = false

-- What `run` has built and started when it starts to wait, less what the listeners have served by
-- then, or the error that it returns before, with the server as it is left.
pub data StartUp : Type 0 where
  refused : RunError → Server → StartUp
  waiting : Process → StartUp

-- After the listeners are up.
abbrev pub start_clients : Host → Bool → Process → StartUp
start_clients h db p =
    if db && not h.starts_purge_client
    then refused start_purge_client p.server
    else if db && not h.starts_river_ui
    then refused start_river_ui p.server
    else waiting p

abbrev pub listening : Host → Bool → Process → StartUp
listening h db p = if p.server.ready then start_clients h db p else refused listen p.server

abbrev pub start_server : Host → Settings → Process → Process
start_server h s p = record p {
  server = start (tls_loads (tls_configs h.material s.checked)) h.binds p.server;
}

abbrev pub run_with : Host → Settings → StartUp
run_with h s =
    let p = build s h.tables in
    let db = has_database s in
    if db && not h.opens_pool
    then refused database p.server
    else if db && not h.builds_purge_client
    then refused purge_client p.server
    else if not h.attaches
    then refused attach p.server
    else if not h.builds_ui
    then refused ui p.server
    else (if db && not h.builds_river_ui
        then refused river_ui p.server
        else listening h db (start_server h s p))

abbrev pub no_server : Server
no_server = new_server []

abbrev pub run_loaded : Host → Option Settings → StartUp
run_loaded h none = refused config no_server
run_loaded h (some s) = run_with h s

-- `run` up to its select.
unfoldable pub start_up : Host → StartUp
unfolding build
start_up h = if h.parses_flags then run_loaded h h.loaded else refused flags no_server

-- What ends the wait.
pub data Ending : Type 0 where
  signalled : Ending
  fatal : Str → Ending

-- The last writes: which of them reach the database, whose replica writes, when, and whether the
-- flusher's goroutine or the snapshotter's comes first.
pub record Last : Type 0 where
  pub reached : Str → Bool
  pub replica : Str
  pub label : Str
  pub now : ℕ
  pub flusher_first : Bool

abbrev pub flush_last : Last → Registry → Database → Database
flush_last l r d = record d { flusher = flush_once l.reached l.replica l.label r l.now d.flusher }

abbrev pub snapshot_last : Last → Registry → Database → Database
snapshot_last l r d =
    let (s, t) = snapshot_once l.reached (agents r) l.now (d.snapshotter, d.flusher.tables) in
    record { flusher = record d.flusher { tables = t }; snapshotter = s }

-- cancelPersist and persistWG.Wait: the final write of each loop (Flusher.Run, SessionSnapshotter.Run).
unfoldable pub stop_persisting : Last → Registry → Database → Database
stop_persisting l r d =
    if l.flusher_first
    then snapshot_last l r (flush_last l r d)
    else flush_last l r (snapshot_last l r d)

abbrev pub stop_database : Last → Registry → Option Database → Option Database
stop_database l r none = none
stop_database l r (some d) = some (stop_persisting l r d)

abbrev pub persisted : Last → Process → Process
persisted l p = record p { database = stop_database l p.handler.registry p.database }

abbrev pub shut : Process → Process
shut p = record p { server = shutdown p.server }

-- The window of the drain delay: agents that are still connected report, and the tickers go on.
abbrev pub Window : Type 0
Window = Registry × Option Database

abbrev pub after_window : Window → Process → Process
after_window (r, d) p = record p { handler = record p.handler { registry = r }; database = d }

abbrev pub drained : Process → Process
drained p = record p { handler = drain p.handler; server = begin_draining p.server }

-- Between the last writes and the end of Shutdown the listeners serve on: the registry as it is then,
-- and the listener calls that were made.
abbrev pub Tail : Type 0
Tail = Registry × List Event

abbrev pub marked : List Event → Option Database → Option Database
marked es none = none
marked es (some d) =
    some (record d { flusher = record d.flusher { dirty = listen_all d.flusher.dirty es } })

abbrev pub after_tail : Tail → Process → Process
after_tail (r, es) p = record p {
  handler = record p.handler { registry = r };
  database = marked es p.database;
}

abbrev pub shutdown_error : Bool → Option RunError
shutdown_error fails = if fails then some shutdown_failed else none

-- The select and what follows it; `fails` says whether Shutdown returns an error, which it may after
-- it has closed the listeners.
unfoldable pub finish : Ending → Window → Last → Tail → Bool → Process → Option RunError × Process
finish signalled w l t fails p =
    (shutdown_error fails, shut (after_tail t (persisted l (after_window w (drained p)))))
finish (fatal name) w l t fails p =
    (some (listener_failed name), shut (after_tail t (persisted l p)))
