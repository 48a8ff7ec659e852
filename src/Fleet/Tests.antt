-- ===== src/Fleet/Tests.antt =====
-- Runs of internal/fleet on small fleets.
use grex.Base.{◌≡◌, refl, true, [], ◌∷◌, ◌++◌, none, some, Str, text, In, ◌↔◌, arith, str_eq}
use grex.Fleet.Types.{
  Agent, Config, AgentToServer, AgentDescription, string_value, other_value, no_conn, new_agent,
}
use grex.Fleet.Events.{absent, presence, replay, offline}
use grex.Fleet.Report.{fold_description}
use grex.Fleet.Report.{touch, fold_health, fold_packages, fold_effective_config}
use grex.Fleet.Report.Silent.{fold_report_silent}
use grex.Fleet.Registry.{
  Registry, InstanceUid, new_registry, report, report_agent, put_agent, get, sweep,
  disconnect_threshold,
}
use grex.Fleet.Report.{fold_report}
use grex.Fleet.Registry.Shards.{IsValid, put_agent-IsValid, get-put_agent}
use grex.Fleet.Registry.Runs.{start, next, reported, swept, Run-tells, new_registry-IsValid}
use grex.Fleet.Registry.Reporting.{report_agent-IsValid}
use grex.Fleet.Registry.Evicting.{IsStale, sweep-evicted}
use grex.Fleet.Registry.Telling.{sweep-replay_single}

abbrev pub cfg : Config
cfg = record {
  heartbeat_interval = 30;
  stale_missed_heartbeats = 3;
  required_attributes = text "team" ∷ [];
  shard_count = 2;
}

abbrev single_cfg : Config
single_cfg = record cfg { stale_missed_heartbeats = 1 }

-- A stand-in for uuid.FromBytes: any bytes but none are an id.
abbrev pub read_uid : InstanceUid
read_uid [] = none
read_uid (b ∷ bs) = some (b ∷ bs)

abbrev pub uid : Str
uid = text "a1"

abbrev pub desc : AgentDescription
desc = record {
  identifying_attributes =
      (text "service.name", string_value (text "edge"))
      ∷ (text "service.name", string_value (text "gw"))
      ∷ [];
  non_identifying_attributes = (text "healthy", other_value (text "1")) ∷ [];
}

abbrev pub msg : AgentToServer
msg = record {
  instance_uid = uid;
  sequence_num = 4;
  capabilities = 3;
  agent_description = some desc;
  health = none;
  package_statuses = [];
  effective_config = [];
  custom_message = none;
}

abbrev pub fleet : Registry
fleet = (report_agent (new_registry cfg) uid msg no_conn 100).0

pub fleet-IsValid : IsValid fleet
fleet-IsValid =
    report_agent-IsValid (new_registry cfg) (new_registry-IsValid cfg) uid msg no_conn 100

abbrev reported_fleet : Registry
reported_fleet = (report read_uid (new_registry cfg) msg no_conn 100).0

Run-tells_example :
    replay uid absent
      ((report read_uid (new_registry cfg) msg no_conn 100).1 ++ (sweep reported_fleet 500).events)
    ≡ some (presence (get (sweep reported_fleet 500).kept uid))
Run-tells_example =
    Run-tells read_uid cfg uid (omega arith)
      (next (next start (reported msg no_conn 100)) (swept 500))

sweep-evicted_example : In uid (sweep fleet 500).evicted ↔ IsStale fleet.cfg 500 (get fleet uid)
sweep-evicted_example = sweep-evicted fleet 500 uid fleet-IsValid

-- With a stale threshold of one heartbeat.
abbrev held : Agent
held = record (new_agent uid 100) { connected = true; last_seen = 100 }

abbrev single_fleet : Registry
single_fleet = put_agent (new_registry single_cfg) uid held

single_fleet-IsValid : IsValid single_fleet
single_fleet-IsValid =
    put_agent-IsValid (new_registry single_cfg) (new_registry-IsValid single_cfg) uid held refl refl

single_held : get single_fleet uid ≡ some held
unfolding str_eq
single_held = get-put_agent (new_registry single_cfg) (new_registry-IsValid single_cfg) uid uid held

sweep-replay_single_example :
    (get (sweep single_fleet 140).kept uid ≡ none)
    × (replay uid (presence (get single_fleet uid)) (sweep single_fleet 140).events ≡ none)
    × (replay uid offline (sweep single_fleet 140).events ≡ some absent)
unfolding put_agent new_registry disconnect_threshold
sweep-replay_single_example =
    sweep-replay_single single_fleet 140 uid single_fleet-IsValid held refl single_held refl
      (omega arith) (omega arith)

abbrev heartbeat : AgentToServer
heartbeat = record msg { agent_description = none; capabilities = 7 }

fold_report_silent_example :
    (held.connected ≡ true)
    × ((fold_report cfg.required_attributes heartbeat no_conn 130 held).0 ≡ record held {
      last_seen = 130;
      connected = true;
      conn = no_conn;
      sequence_num = 4;
      capabilities = 7;
    })
unfolding fold_report touch fold_description fold_health fold_packages fold_effective_config
fold_report_silent_example =
    fold_report_silent cfg.required_attributes heartbeat no_conn 130 held refl
