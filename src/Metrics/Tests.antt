-- ===== src/Metrics/Tests.antt =====
-- A scrape and a run over a small fleet (internal/metrics/metrics.go).
use grex.Base.{◌+◌, ◌≡◌, ◌++◌, List, Str, length, arith}
use grex.Fleet.Types.{no_conn}
use grex.Fleet.Registry.{Registry, new_registry, report, sweep}
use grex.Fleet.Registry.Runs.{start, next, reported, swept}
use grex.Fleet.Tests.{cfg, read_uid, msg}
use grex.Metrics.{hear_all, new_events}
use grex.Metrics.Balance.{IsOnlineList, hear_all-connected}

abbrev reported_fleet : Registry
reported_fleet = (report read_uid (new_registry cfg) msg no_conn 100).0

hear_all-connected_example :
    (l : List Str) × IsOnlineList (sweep reported_fleet 500).kept l
    × ((hear_all new_events (
          (report read_uid (new_registry cfg) msg no_conn 100).1
          ++ (sweep reported_fleet 500).events)).agent_connects
        ≡ (hear_all new_events (
            (report read_uid (new_registry cfg) msg no_conn 100).1
            ++ (sweep reported_fleet 500).events)).agent_disconnects
          + length l)
hear_all-connected_example =
    hear_all-connected read_uid cfg (omega arith)
      (next (next start (reported msg no_conn 100)) (swept 500))
