-- ===== src/Api/Handler.antt =====
-- The two read handlers of internal/api/handler.go. A store is optional; `none` is no store.
pub mod Laws
use grex.Base.{
  ℕ, Bool, true, false, List, [], ◌∷◌, Option, none, some, Str, if◌then◌else◌, length, take, drop,
  map, ◌-◌,
}
use grex.Fleet.Types.{Agent}
use grex.Fleet.Registry.{Registry, get, agents, disconnect_threshold}
use grex.Fleet.View.{Capabilities, AgentView, detail_view, summary_view}
use grex.Persistence.Store.{Tables, Read, ok, failed, get_agent, list_agents}
use grex.Api.Filter.{Filters, matching_agents}
use grex.Api.Page.{page_bounds}
use grex.Api.Merge.{is_evicted, corrected, merge_agents}

pub data AgentReply : Type 0 where
  found : AgentView → AgentReply
  missing_id not_found lookup_failed : AgentReply

module _ (bits : Capabilities ℕ) where
  -- What the store's answer becomes: an evicted row is no agent, a stale flag is corrected.
  abbrev pub stored_reply : ℕ → ℕ → Read (Option Agent) → AgentReply
  stored_reply now d failed = lookup_failed
  stored_reply now d (ok none) = not_found
  stored_reply now d (ok (some a)) =
      if is_evicted a then not_found else found (detail_view bits (corrected now d a))

  abbrev pub fallback_reply : Option Tables → Str → ℕ → ℕ → AgentReply
  fallback_reply none id now d = not_found
  fallback_reply (some t) id now d = stored_reply now d (get_agent t id)

  abbrev pub local_reply : Option Agent → AgentReply → AgentReply
  local_reply (some a) fallback = found (detail_view bits a)
  local_reply none fallback = fallback

  -- getAgent
  unfoldable pub agent_reply : Registry → Option Tables → ℕ → Str → AgentReply
  agent_reply r store now [] = missing_id
  agent_reply r store now (c ∷ cs) =
      local_reply (get r (c ∷ cs)) (fallback_reply store (c ∷ cs) now (disconnect_threshold r.cfg))

-- The list before filters, and the response's `partial` flag.
abbrev pub merged_with : List Agent → Read (List Agent) → ℕ → ℕ → List Agent × Bool
merged_with local failed now d = (local, true)
merged_with local (ok db) now d = (merge_agents local db now d, false)

unfoldable pub listed_agents : Registry → Option Tables → ℕ → List Agent × Bool
listed_agents r none now = (agents r, false)
listed_agents r (some t) now =
    merged_with (agents r) (list_agents t) now (disconnect_threshold r.cfg)
