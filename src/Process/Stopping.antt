-- ===== src/Process/Stopping.antt =====
-- What the end of cmd/grex/main.go leaves.
use grex.Base.{◌≡◌, ◌&&◌, List, [], Str, elem, lookup}
use grex.Fleet.Types.{Event}
use grex.Fleet.Registry.{Registry, get, agents}
use grex.Persistence.Flush.Rows.{flushed_row}
use grex.Process.{Database, Process, Ending, signalled, fatal, Last, Window}
use grex.Persistence.Flush.{listen_all}

-- The last writes, in either order, and what is told of after them: the id has the row that a flush
-- should leave for what the registry held, and only what was told of since is marked.
abbrev pub IsFlushed : Last → List Event → Str → Registry → Database → Database → Type 0
IsFlushed l es j r d e =
    (e.flusher.dirty ≡ listen_all [] es)
    × (lookup j e.flusher.tables.agents
        ≡ flushed_row (get r j) (elem j d.flusher.dirty && l.reached j) l.now
            (lookup j d.flusher.tables.agents))

-- Where `run` stops what writes to the database: the registry and the database at that time.
abbrev pub stopped_at : Ending → Window → Process → Window
stopped_at signalled w p = w
stopped_at (fatal name) w p = (p.handler.registry, p.database)
