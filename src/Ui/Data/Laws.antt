-- ===== src/Ui/Data/Laws.antt =====
-- The pages of internal/ui/ui.go against the API and the badges against the sort order.
use mathlib.Core.Path.{fun_ext}
use grex.Base.{
  ℕ, ◌≡◌, ◌≢◌, ◌↔◌, refl, sym, ap, ◌∙◌, Bool, List, [], ◌∷◌, Option, some, Str, text, str_eq,
  length, map, arith,
}
use grex.Base.Order.Sorting.{NoTies, sort}
use grex.Fleet.Types.{Agent}
use grex.Fleet.Registry.{Registry}
use grex.Fleet.View.{Capabilities, AgentView, summary_view, full_view}
use grex.Persistence.Store.{Tables}
use grex.Api.Page.{page_bounds}
use grex.Api.Paginate.{HeapOps, slice, sort_by_uid, page_by_uid}
use grex.Api.Paginate.Laws.{page_by_uid-slice}
use grex.Api.Listing.{page_response, page_bounds-le}
use grex.Api.Handler.{found, agent_reply}
use grex.Ui.Query.{Values}
use grex.Ui.Query as Query
use grex.Ui.Sort.{compare_uid, parse_sort, sort_agents, compare_agents, status_rank}
use grex.Ui.Data.{fleet_page, agent_data, status_label}

-- The page of an agent shows the view that the API answers with, and there is a page exactly when
-- the API finds the agent; for an id that is not empty.
pub agent_data-agent_reply :
    (bits : Capabilities ℕ) (r : Registry) (store : Option Tables) (now : ℕ) (id : Str)
    (v : AgentView)
    → id ≢ []
    → (agent_data bits r store now id ≡ some v) ↔ (agent_reply bits r store now id ≡ found v)
unfolding agent_data agent_reply
agent_data-agent_reply bits r store now [] v h = absurd (h refl)
agent_data-agent_reply bits r store now (c ∷ cs) v h = ground arith

compare_agents-instance :
    (a b : Agent) → compare_agents (text "instance") (text "asc") a b ≡ compare_uid a b
unfolding str_eq
compare_agents-instance a b = ground arith

sort_agents-instance :
    (agents : List Agent) → sort_agents (text "instance") (text "asc") agents ≡ sort_by_uid agents
unfolding sort_agents
sort_agents-instance agents =
    ap (λ c. sort c agents) (fun_ext (λ a. fun_ext (λ b. compare_agents-instance a b)))

-- When no two of the matched agents have one id, a query without a sort shows the page that the API
-- lists for the same limit and offset: the same agents in the same order, and the same total.
pub fleet_page-page_response :
    (ops : HeapOps) (bits : Capabilities ℕ) (matched : List Agent) (partial : Bool) (q : Values)
    (poll limit offset : ℕ)
    → Query.get (text "sort") q ≡ []
    → NoTies compare_uid matched
    → ((fleet_page bits matched partial q poll limit offset).agents
        ≡ (page_response ops bits matched partial limit offset).agents)
      × ((fleet_page bits matched partial q poll limit offset).total
          ≡ (page_response ops bits matched partial limit offset).total)
unfolding fleet_page page_response parse_sort
fleet_page-page_response ops bits matched partial q poll limit offset s d =
    let bounds = page_bounds limit offset (length matched) in
    let first = bounds.0 in
    let last = bounds.1 in
    let same : slice (sort_agents (text "instance") (text "asc") matched) first last
        ≡ page_by_uid ops matched first last =
      ap (λ l. slice l first last) (sort_agents-instance matched)
      ∙ sym (
          page_by_uid-slice ops matched first last d
            (page_bounds-le limit offset (length matched))) in
    (rw s (ap (map (summary_view bits)) same), refl)

-- Two agents have one badge exactly if they have one rank in the order of the status column.
pub status_rank-status_label :
    (bits : Capabilities ℕ) (a b : Agent)
    → (status_rank a ≡ status_rank b)
      ↔ (status_label (summary_view bits a) ≡ status_label (summary_view bits b))
unfolding status_rank status_label summary_view full_view
status_rank-status_label bits a b = ground arith
