-- ===== src/Ui/Data.antt =====
-- fleetData, agentData and the badges of internal/ui/ui.go: the data of the pages, without the
-- titles and the texts that the page only echoes.
pub mod Laws
use grex.Base.{
  ℕ, ◌≡◌, Bool, true, false, not, ◌&&◌, List, [], ◌∷◌, Option, none, some, Str, text, if◌then◌else◌,
  length, map,
}
use grex.Fleet.Types.{Agent}
use grex.Fleet.Registry.{Registry, get, agents, disconnect_threshold}
use grex.Fleet.View.{Capabilities, AgentView, detail_view, summary_view, is_empty}
use grex.Persistence.Store.{Tables, Read, ok, failed, get_agent}
use grex.Api.Filter.{Filters, matching_agents}
use grex.Api.Merge.{is_evicted, corrected}
use grex.Api.Page.{Atoi, Pagination, window, bad_limit, bad_offset, page_bounds}
use grex.Api.Paginate.{slice}
use grex.Ui.Listing.{parse_pagination, merged_agents}
use grex.Ui.Query.{Values, collect_matches}
use grex.Ui.Query as Query
use grex.Ui.Sort.{parse_sort, sort_agents}
use grex.Fleet.Stats.{StatusCounts, status_counts}
use grex.Base.Int.{ℤ}
use grex.Ui.Times.{format_poll, format_uptime}

pub record PageData : Type 0 where
  pub poll_interval : Str
  pub query : Values
  pub agents : List AgentView
  pub total : ℕ
  pub limit : ℕ
  pub offset : ℕ
  pub partial : Bool
  pub sort : Str
  pub order : Str
  pub healthy : Str
  pub connected : Str
  pub via_gateway : Str
  pub matches : List Str

-- hasFilter
unfoldable pub has_filter : PageData → Bool
has_filter d =
    if is_empty d.healthy && (is_empty d.connected && is_empty d.via_gateway)
    then (elim d.matches [ [] ↦ false | m ∷ ms ↦ true ])
    else true

module _ (bits : Capabilities ℕ) where
  -- The page of the matched agents in the order that the query asks for.
  unfoldable pub fleet_page : List Agent → Bool → Values → ℕ → ℕ → ℕ → PageData
  fleet_page matched partial q poll limit offset =
      let order = parse_sort q in
      let bounds = page_bounds limit offset (length matched) in
      record {
        poll_interval = format_poll poll;
        query = q;
        agents =
            map (summary_view bits)
              (slice (sort_agents (order.0) (order.1) matched) (bounds.0) (bounds.1));
        total = length matched;
        limit = limit;
        offset = offset;
        partial = partial;
        sort = order.0;
        order = order.1;
        healthy = Query.get (text "healthy") q;
        connected = Query.get (text "connected") q;
        via_gateway = Query.get (text "via_gateway") q;
        matches = collect_matches q;
      }

  -- fleetData; `none` is its error. The filters are those of api.ParseFilters.
  unfoldable pub fleet_data :
      Atoi → (Values → Option Filters) → Registry → Option Tables → ℕ → ℕ → Values → Option PageData
  fleet_data atoi parse_filters r store now poll q =
      elim (parse_pagination atoi (Query.get (text "limit") q) (Query.get (text "offset") q)) [
        | window limit offset ↦ elim (parse_filters q) [
          | none ↦ none
          | some filters ↦
              let merged = merged_agents r store now in
              some (fleet_page (matching_agents (merged.0) filters) (merged.1) q poll limit offset)
        ]
        | bad_limit ↦ none
        | bad_offset ↦ none
      ]

  abbrev pub stored_view : ℕ → ℕ → Read (Option Agent) → Option AgentView
  stored_view now d failed = none
  stored_view now d (ok none) = none
  stored_view now d (ok (some a)) =
      if is_evicted a then none else some (detail_view bits (corrected now d a))

  abbrev pub fallback_view : Option Tables → Str → ℕ → ℕ → Option AgentView
  fallback_view none id now d = none
  fallback_view (some t) id now d = stored_view now d (get_agent t id)

  -- The agent of agentData, when there is a page for it.
  unfoldable pub agent_data : Registry → Option Tables → ℕ → Str → Option AgentView
  agent_data r store now id = elim (get r id) [
    | some a ↦ some (detail_view bits a)
    | none ↦ fallback_view store id now (disconnect_threshold r.cfg)
  ]

unfoldable pub status_label : AgentView → Str
status_label a =
    if not a.connected
    then text "Disconnected"
    else (if not a.health_reported
        then text "Unknown"
        else (if a.healthy then text "Healthy" else text "Unhealthy"))

unfoldable pub status_class : AgentView → Str
status_class a =
    if not a.connected
    then text "badge-disconnected"
    else (if not a.health_reported
        then text "badge-unknown"
        else (if a.healthy then text "badge-healthy" else text "badge-unhealthy"))

unfoldable pub status_title : AgentView → Str
status_title a =
    if not a.connected
    then (if not a.health_reported
        then text "No recent check-in; no health report received"
        else (if a.healthy
            then text "No recent check-in; last health report was healthy"
            else text "No recent check-in; last health report was unhealthy"))
    else (if not a.health_reported
        then text "Connected; waiting for a health report"
        else (if a.healthy
            then text "Connected and healthy"
            else text "Connected but reporting unhealthy"))

unfoldable pub via_label : Bool → Str
via_label via = if via then text "gateway" else text "direct"

-- The counts of the status page, by the loop that the API's status handler has too.
pub record StatusView : Type 0 where
  pub uptime : Str
  pub counts : StatusCounts

-- statusData, this long after the start.
unfoldable pub status_data : Registry → ℤ → StatusView
status_data r elapsed = record { uptime = format_uptime elapsed; counts = status_counts (agents r) }
