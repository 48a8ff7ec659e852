-- ===== src/Persistence/Flush/Tests.antt =====
-- A flush of internal/persistence/flush.go with a call of the registry between its read and its write.
use grex.Base.{List, [], ◌∷◌, ◌++◌, Option, false, insert}
use grex.Fleet.Types.{Agent, Event, no_conn}
use grex.Fleet.Registry.{new_registry, get, report, set_connected}
use grex.Fleet.Tests.{cfg, read_uid, uid, msg}
use grex.Persistence.Store.Reading.{no_tables}
use grex.Persistence.Flush.{listen_all, drain}
use grex.Persistence.Flush.Interleaved.{World, write_agent, without, starting, write_of}

abbrev empty : World
empty = starting (new_registry cfg) no_tables

abbrev first_calls : List Event
first_calls = (report read_uid empty.registry msg no_conn 100).1

abbrev after_report : World
after_report = record empty {
  registry = (report read_uid empty.registry msg no_conn 100).0;
  dirty = listen_all [] first_calls;
}

abbrev marks : (w : World) → World
marks w = record w { todo = (drain w.dirty).0; dirty = (drain w.dirty).1 }

abbrev reads : World → World
reads w = record w { todo = []; writes = (uid, get w.registry uid) ∷ [] }

abbrev later_calls : List Event
later_calls = (set_connected after_report.registry uid false).1

abbrev after_close : World
after_close = record (reads (marks after_report)) {
  registry = (set_connected after_report.registry uid false).0;
  dirty = listen_all [] later_calls;
}

abbrev writes : World → Option Agent → World
writes w o = record w {
  writes = [];
  tables = write_agent 200 uid o w.tables;
  failed = without uid w.failed;
  last = insert uid (write_of uid o 200 w.tables) w.last;
}

abbrev half : World
half = writes after_close (get after_report.registry uid)

abbrev whole : World
whole = writes (reads (marks half)) (get half.registry uid)

abbrev all_calls : List Event
all_calls = ((((((([] ++ first_calls) ++ []) ++ []) ++ later_calls) ++ []) ++ []) ++ []) ++ []
