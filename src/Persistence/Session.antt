-- ===== src/Persistence/Session.antt =====
-- internal/persistence/session_snapshot.go: which session rows are rewritten at a tick. The
-- writes of a pass run concurrently on different rows; here they run in the order of the list.
pub mod Cadence
pub mod Tracking
pub mod Fresh
pub mod Passes
pub mod Seen
use grex.Base.{
  ℕ, ◌+◌, ◌*◌, ◌/◌, Bool, true, false, not, List, [], ◌∷◌, Option, none, some, Str, Assoc, lookup,
  insert, keep, ◌==◌, if◌then◌else◌,
}
use grex.Base.Int.{pos, pos_part, sub_ℕ, ltb_ℤ}
use grex.Fleet.Types.{Agent}
use grex.Persistence.Store.{Tables, save_session}

pub record SessionWrite : Type 0 where
  pub last_seen : ℕ
  pub gen : ℕ

pub record SessionSnapshotter : Type 0 where
  pub keepalive : ℕ
  pub written : Assoc SessionWrite
  pub gen : ℕ

-- disconnectAfter - tick may be negative; a negative keepalive becomes 0.
unfoldable pub keepalive_interval : ℕ → ℕ → ℕ
keepalive_interval disconnect_after tick =
    let keepalive = disconnect_after * 2 / 3 in
    let limit = sub_ℕ disconnect_after tick in
    pos_part (if ltb_ℤ limit (pos keepalive) then limit else pos keepalive)

unfoldable pub new_session_snapshotter : ℕ → ℕ → SessionSnapshotter
new_session_snapshotter disconnect_after tick = record {
  keepalive = keepalive_interval disconnect_after tick;
  written = [];
  gen = 0;
}

-- Is a row with this last write to be rewritten at `now`?
abbrev pub is_due : ℕ → ℕ → Option SessionWrite → Bool
is_due keepalive now none = true
is_due keepalive now (some w) = not (ltb_ℤ (sub_ℕ now w.last_seen) (pos keepalive))

-- A tracked agent's entry takes the generation of this pass.
abbrev pub see : ℕ → Str → Option SessionWrite → Assoc SessionWrite → Assoc SessionWrite
see gen id none written = written
see gen id (some w) written = insert id (record w { gen = gen }) written

-- The first loop of `due`: the tracking map, and the agents that are due.
unfoldable pub due_loop :
    ℕ → ℕ → ℕ → List Agent → Assoc SessionWrite → Assoc SessionWrite × List Agent
due_loop keepalive now gen [] written = (written, [])
due_loop keepalive now gen (a ∷ rest) written =
    let w = lookup a.instance_uid written in
    let (after, due) = due_loop keepalive now gen rest (see gen a.instance_uid w written) in
    (after, if is_due keepalive now w then a ∷ due else due)

-- The second loop deletes what this pass has not seen.
abbrev pub seen_in : ℕ → Str × SessionWrite → Bool
seen_in gen e = e.1.gen == gen

unfoldable pub due : SessionSnapshotter → List Agent → ℕ → SessionSnapshotter × List Agent
unfolding due_loop
due s agents now =
    let gen = s.gen + 1 in
    let (written, due) = due_loop s.keepalive now gen agents s.written in
    (record s { written = keep (seen_in gen) written; gen = gen }, due)

unfoldable pub record_written : SessionSnapshotter → Agent → SessionSnapshotter
record_written s a = record s {
  written = insert a.instance_uid (record { last_seen = a.last_seen; gen = s.gen }) s.written;
}

-- One write: it fails if the foreign key refuses it, or if the connection fails.
abbrev pub snapshot_result :
    SessionSnapshotter × Tables → Agent → Option Tables → SessionSnapshotter × Tables
snapshot_result (s, t) a none = (s, t)
snapshot_result (s, t) a (some u) = (record_written s a, u)

unfoldable pub snapshot_agent :
    Bool → SessionSnapshotter × Tables → Agent → SessionSnapshotter × Tables
snapshot_agent reached (s, t) a =
    if reached then snapshot_result (s, t) a (save_session t a) else (s, t)

-- `reached id` is false if the write of the agent does not reach the database.
unfoldable pub snapshot_all :
    (Str → Bool) → List Agent → SessionSnapshotter × Tables → SessionSnapshotter × Tables
snapshot_all reached [] st = st
snapshot_all reached (a ∷ rest) st =
    snapshot_all reached rest (snapshot_agent (reached a.instance_uid) st a)

unfoldable pub snapshot_once :
    (Str → Bool) → List Agent → ℕ → SessionSnapshotter × Tables → SessionSnapshotter × Tables
unfolding snapshot_all
snapshot_once reached agents now (s, t) =
    let (after, due) = due s agents now in snapshot_all reached due (after, t)
