-- ===== src/Persistence/Tests.antt =====
-- Runs of internal/persistence on small tables.
use mathlib.Core.List.{Permᴰ}
use grex.Base.Int.{pos}
use grex.Base.{◌++◌, inl, inr, ℕ, false}
use grex.Persistence.Concurrent.{
  State, Step, Steps, Returned, before, slots, start, none_yet, then_one,
}
use grex.Persistence.Concurrent.Laws.{run_concurrent-bound, run_concurrent-returns}
use grex.Base.{
  ℕ, ◌≤◌, ◌≡◌, ◌≢◌, refl, Bool, true, false, ◌&&◌, List, [], ◌∷◌, none, some, Str, text, lookup,
  ◌↔◌, ◌⊎◌, arith, ◌*◌, str_eq, elem,
}
use grex.Fleet.Types.{Agent, new_agent}
use grex.Fleet.Registry.{get}
use grex.Persistence.Permissions.{
  RoleMapping, empty_table, create_all, create_role_mapping, scan_role_mapping, list_role_mappings,
  get_role_mapping,
}
use grex.Persistence.Permissions.Laws.{created-read}
use grex.Fleet.Tests.{fleet, fleet-IsValid, uid}
use grex.Persistence.Store.{
  AgentRow, Tables, ok, failed, agent_row, session_row, save_agent, soft_delete_agent, get_agent,
  list_agents, purge, micros,
}
use grex.Persistence.Store.Reading.{no_tables, Writes, saved, soft_deleted, reads_succeed}
use grex.Persistence.Store.Guard.{entry, saves_converge}
use grex.Persistence.Store.Lifecycle.{returned_is_purged}
use grex.Persistence.Flush.{Flusher, flush_once}
use grex.Persistence.Flush.Rows.{flushed_row, flush_once-rows}
use grex.Persistence.Session.{SessionWrite, keepalive_interval, is_due}

abbrev other : Str
other = text "b2"

abbrev early : Agent
early = new_agent uid 10

abbrev late : Agent
late = record early { last_seen = 2000; healthy = true }

abbrev row : AgentRow
row = record (agent_row 5 (some 7) early) { updated_at = 0 }

-- One agent that was soft-deleted at 7.
abbrev one_row : Tables
one_row = record {
  agents = (uid, row) ∷ [];
  sessions = (uid, session_row early) ∷ [];
  configs = [];
}

abbrev always : Str → Bool
always id = true

abbrev flusher : Flusher
flusher = record { dirty = other ∷ uid ∷ []; tables = one_row; connections = [] }

flush_once-rows_example :
    (lookup uid (flush_once always (text "r1") (text "pod") fleet 200 flusher).tables.agents
      ≡ flushed_row (get fleet uid) (elem uid flusher.dirty && true) 200 (some row))
    × ((flush_once always (text "r1") (text "pod") fleet 200 flusher).dirty ≡ [])
unfolding lookup str_eq
flush_once-rows_example =
    flush_once-rows fleet fleet-IsValid always (text "r1") (text "pod") 200 flusher uid

reads_succeed_example :
    ((id : Str) → get_agent (soft_delete_agent (save_agent no_tables late) uid 30) id ≢ failed)
    × ((as' : List Agent) × (list_agents (soft_delete_agent (save_agent no_tables late) uid 30)
          ≡ ok as'))
reads_succeed_example =
    reads_succeed (Writes.next (Writes.next Writes.start (saved late)) (soft_deleted uid 30))

saves_converge_example :
    entry (save_agent (save_agent one_row early) late) uid
    ≡ entry (save_agent (save_agent one_row late) early) uid
unfolding entry lookup str_eq micros
saves_converge_example = saves_converge one_row early late row uid refl (omega arith) refl

returned_is_purged_example : lookup uid (purge 2000 (save_agent one_row late)).agents ≡ none
unfolding lookup str_eq micros
returned_is_purged_example =
    returned_is_purged one_row late row 7 2000 (tt, tt) refl refl (omega arith)

abbrev recent : SessionWrite
recent = record { last_seen = 100; gen = 1 }

recent_not_due : is_due (keepalive_interval 45 10) 120 (some recent) ≡ false
unfolding keepalive_interval
recent_not_due = refl

abbrev two_tasks : List ℕ
two_tasks = 1 ∷ 2 ∷ []

-- One task runs and the other waits for its slot.
abbrev one_running : State ℕ
one_running = record { waiting = 2 ∷ []; running = 1 ∷ []; leaving = []; over = [] }

abbrev one_step : Steps (slots (pos 1)) 1 (before two_tasks) one_running
unfolding slots before
one_step = then_one (none_yet (before two_tasks)) (start 1 (2 ∷ []) [] [] [] (omega arith))

run_concurrent-bound_example :
    (1 ≤ slots (pos 1)) × Permᴰ two_tasks ((2 ∷ []) ++ ((1 ∷ []) ++ ([] ++ [])))
run_concurrent-bound_example = run_concurrent-bound (pos 1) two_tasks 1 one_running one_step

run_concurrent-returns_example :
    (1 ≤ 6)
    × (Returned one_running ⊎ ((t : State ℕ) × Step (slots (pos 1)) one_running t))
    × ((1 ≡ 3 * 2) ↔ Returned one_running)
    × (Returned one_running ↔ Permᴰ two_tasks [])
run_concurrent-returns_example = run_concurrent-returns (pos 1) two_tasks 1 one_running one_step

abbrev mapping : Str → RoleMapping
mapping value = record {
  id = 0;
  identity_kind = text "subject";
  identity_value = value;
  match_kind = text "exact";
  role = text "admin";
  tenant_id = [];
  created_at = 0;
  updated_at = 0;
}

abbrev mappings : List (ℕ × RoleMapping)
mappings = (5, mapping (text "a")) ∷ (9, mapping (text "b")) ∷ []

-- The second of two mappings, which gets the id 2.
abbrev second : RoleMapping
second = record (mapping (text "b")) { id = 2; created_at = 9; updated_at = 9 }

created-read_example :
    (list_role_mappings (create_all mappings empty_table).0 ≡ (create_all mappings empty_table).1)
    × (get_role_mapping 2 (create_all mappings empty_table).0 ≡ some second)
unfolding create_all create_role_mapping scan_role_mapping
created-read_example = created-read mappings second (inr (inl refl))

-- An agent that is connected, and what a pass writes of it after a flush has, as another replica
-- reads it.
abbrev linked : Agent
linked = record (new_agent uid 10000) { connected = true }

abbrev elsewhere : Agent
elsewhere = record linked { session_updated_at = 20000 }
