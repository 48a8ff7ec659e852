-- ===== src/Api/Tests.antt =====
-- Requests to internal/api over a small fleet.
use grex.Base.{true, false, [], ◌∷◌, none, text, In, ◌⊎◌, ◌↔◌}
use grex.Fleet.Types.{Agent, new_agent}
use grex.Fleet.Tests.{uid}
use grex.Persistence.Store.{Tables, agent_row, session_row}
use grex.Api.Filter.{Filters}
use grex.Api.Merge.{merge_agents}
use grex.Api.Merge.Laws.{IsShown, merge_agents-In}

abbrev here : Agent
here = record (new_agent uid 10) { connected = true }

-- Live on a sibling until long ago.
abbrev there : Agent
there = record (new_agent (text "b2") 10) { connected = true; session_updated_at = 10 }

merge_agents-In_example :
    In (record there { connected = false }) (merge_agents (here ∷ []) (here ∷ there ∷ []) 100 45)
    ↔ (In (record there { connected = false }) (here ∷ [])
        ⊎ IsShown (here ∷ []) 100 45 (record there { connected = false }) (here ∷ there ∷ []))
merge_agents-In_example =
    merge_agents-In (here ∷ []) (here ∷ there ∷ []) 100 45 (record there { connected = false })

abbrev connected : Filters
connected = record { matchers = []; bools = (text "connected", true) ∷ [] }

-- A row whose session was last seen at 10.
abbrev stored : Agent
stored = record there { last_seen = 10; session_updated_at = 10 }

abbrev sibling : Tables
sibling = record {
  agents = (text "b2", agent_row 10 none stored) ∷ [];
  sessions = (text "b2", session_row stored) ∷ [];
  configs = [];
}
