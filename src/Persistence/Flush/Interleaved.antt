-- ===== src/Persistence/Flush/Interleaved.antt =====
-- Flushes of internal/persistence/flush.go while the registry goes on: flushOnce drains the set of
-- changed agents, reads each of them from the registry, and writes what it has read, each of these
-- a step between which other goroutines call the registry. A flush ends before the next one drains.
-- The code reads all agents before it writes one, and here they may also be written earlier. Only
-- the writes of this replica are steps.
pub mod Covered
pub mod Laws
pub mod Last
use grex.Base.{
  ℕ, ◌≡◌, not, List, [], ◌∷◌, ◌++◌, Option, none, some, Str, str_eq, keep, Assoc, lookup, insert,
}
use grex.Fleet.Types.{Agent, Event}
use grex.Fleet.Registry.{Registry, InstanceUid, get}
use grex.Fleet.Registry.Runs.{Step}
use grex.Persistence.Store.{Tables, save_agent, soft_delete_agent, AgentRow}
use grex.Persistence.Flush.{listen_all, drain}

-- A write that reached the database: the row that stood before it, what was written, and when.
pub record Written : Type 0 where
  pub old : Option AgentRow
  pub agent : Option Agent
  pub now : ℕ

-- `todo` holds the drained ids that are not read yet, `writes` what is read and not written yet, and
-- `failed` the ids of which the last write failed. `last` is the last write of an id that reached the
-- database; no step depends on it.
pub record World : Type 0 where
  pub registry : Registry
  pub dirty : List Str
  pub todo : List Str
  pub writes : List (Str × Option Agent)
  pub tables : Tables
  pub failed : List Str
  pub last : Assoc Written

-- The write for an id: SaveAgent if the registry held the agent, SoftDeleteAgent if it did not.
unfoldable pub write_agent : ℕ → Str → Option Agent → Tables → Tables
write_agent now id none t = soft_delete_agent t id now
write_agent now id (some a) t = save_agent t a

-- What such a write is, over these tables.
abbrev pub write_of : Str → Option Agent → ℕ → Tables → Written
write_of id o now t = record { old = lookup id t.agents; agent = o; now = now }

abbrev pub without : Str → List Str → List Str
without id = keep (λ k. not (str_eq k id))

pub data FlushStep (from_bytes : InstanceUid) (w : World) : List Event → World → Type 0 where
  called :
      {r : Registry} {es : List Event}
      → Step from_bytes w.registry es r
      → FlushStep from_bytes w es (record w { registry = r; dirty = listen_all w.dirty es })
  drained :
      w.todo ≡ []
      → w.writes ≡ []
      → FlushStep from_bytes w [] (record w { todo = (drain w.dirty).0; dirty = (drain w.dirty).1 })
  read :
      (id : Str) (ids : List Str)
      → w.todo ≡ id ∷ ids
      → FlushStep from_bytes w []
          (record w { todo = ids; writes = (id, get w.registry id) ∷ w.writes })
  wrote :
      (before after : List (Str × Option Agent)) (id : Str) (o : Option Agent) (now : ℕ)
      → w.writes ≡ before ++ ((id, o) ∷ after)
      → FlushStep from_bytes w [] (record w {
        writes = before ++ after;
        tables = write_agent now id o w.tables;
        failed = without id w.failed;
        last = insert id (write_of id o now w.tables) w.last;
      })
  missed :
      (before after : List (Str × Option Agent)) (id : Str) (o : Option Agent)
      → w.writes ≡ before ++ ((id, o) ∷ after)
      → FlushStep from_bytes w [] (record w { writes = before ++ after; failed = id ∷ w.failed })

-- Steps in any order and number, with the listener calls that they made, oldest first.
pub data FlushRun (from_bytes : InstanceUid) (w : World) : List Event → World → Type 0 where
  start : FlushRun from_bytes w [] w
  next :
      {u x : World} {es fs : List Event}
      → FlushRun from_bytes w es u
      → FlushStep from_bytes u fs x
      → FlushRun from_bytes w (es ++ fs) x

-- A replica that starts with these tables.
abbrev pub starting : Registry → Tables → World
starting r t = record {
  registry = r;
  dirty = [];
  todo = [];
  writes = [];
  tables = t;
  failed = [];
  last = [];
}
