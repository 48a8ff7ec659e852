-- ===== src/Api/Merge.antt =====
-- MergeAgents of internal/api/filter.go: the agents of this replica with those of the database.
pub mod Laws
use grex.Base.{
  ℕ, Bool, true, false, ◌&&◌, ◌||◌, List, [], ◌∷◌, ◌++◌, Option, none, some, Str, str_eq,
  if◌then◌else◌,
}
use grex.Fleet.Types.{Agent}
use grex.Fleet.Registry.{older_than}

unfoldable pub stale_connected : Agent → ℕ → ℕ → Bool
stale_connected a now disconnect_after =
    a.connected && older_than disconnect_after now a.session_updated_at

-- The set `seen`, as a test on the local agents.
unfoldable pub is_seen : Str → List Agent → Bool
is_seen id [] = false
is_seen id (a ∷ rest) = str_eq a.instance_uid id || is_seen id rest

abbrev pub is_evicted : Agent → Bool
is_evicted a = elim a.evicted_at [ none ↦ false | some at ↦ true ]

-- The correction of the connected flag.
unfoldable pub corrected : ℕ → ℕ → Agent → Agent
corrected now disconnect_after a =
    if stale_connected a now disconnect_after then record a { connected = false } else a

-- The loop over the database's agents.
unfoldable pub merge_loop : List Agent → List Agent → ℕ → ℕ → List Agent
merge_loop local [] now disconnect_after = []
merge_loop local (a ∷ db) now disconnect_after =
    let rest = merge_loop local db now disconnect_after in
    if is_seen a.instance_uid local || is_evicted a
    then rest
    else corrected now disconnect_after a ∷ rest

unfoldable pub merge_agents : List Agent → List Agent → ℕ → ℕ → List Agent
merge_agents local db now disconnect_after = local ++ merge_loop local db now disconnect_after
