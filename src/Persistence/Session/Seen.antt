-- ===== src/Persistence/Session/Seen.antt =====
-- What other replicas see of the agents of one whose SessionSnapshotter runs
-- (internal/persistence/session_snapshot.go, and StaleConnected of internal/api/filter.go).
use grex.Base.{ℕ, ◌≡◌, Bool, List, [], ◌∷◌, Str}
use grex.Fleet.Types.{Agent}
use grex.Persistence.Store.{Tables, save_agent, soft_delete_agent}
use grex.Persistence.Session.{SessionSnapshotter, snapshot_once}
use grex.Persistence.Session.Tracking.{IsTracking}
use grex.Persistence.Session.Fresh.{IsBacked}

-- What happens to the tables of sessions and agents: a pass of the snapshotter with the agents that
-- the registry lists, or a write of the flusher for an agent or for an id.
pub data Write : Type 0 where
  passed : ℕ → (Str → Bool) → List Agent → Write
  flushed : Agent → Write
  evicted : Str → ℕ → Write

unfoldable pub write : Write → SessionSnapshotter × Tables → SessionSnapshotter × Tables
write (passed now reached agents) st = snapshot_once reached agents now st
write (flushed a) st = (st.0, save_agent (st.1) a)
write (evicted id now) st = (st.0, soft_delete_agent (st.1) id now)

unfoldable pub write_all : List Write → SessionSnapshotter × Tables → SessionSnapshotter × Tables
write_all [] st = st
write_all (w ∷ ws) st = write_all ws (write w st)

-- A snapshotter that keeps its promises.
record IsSound (keepalive : ℕ) (st : SessionSnapshotter × Tables) : Type 0 where
  kept : st.0.keepalive ≡ keepalive
  tracking : IsTracking (st.0)
  backed : IsBacked st.0.written (st.1)

-- The snapshotter's own part of that.
IsOwn : ℕ → SessionSnapshotter → Type 0
IsOwn keepalive s = (s.keepalive ≡ keepalive) × IsTracking s
