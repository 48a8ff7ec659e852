-- ===== src/Ui/Tests.antt =====
-- Pages of internal/ui/ui.go over a small fleet.
use mathlib.Core.List.{Permᴰ}
use grex.Base.{◌≡◌, refl, inl, inr, false, [], ◌∷◌, text, lookup, ◌↔◌}
use grex.Api.Listing.{page_response}
use grex.Api.Paginate.Tests.{sorted_heap, bits, agent_a, agent_b, agent_c, three, three-NoTies}
use grex.Ui.Query as Query
use grex.Ui.Query.{Values}
use grex.Ui.Sort.{parse_sort, sort_agents, sort_query, next_order}
use grex.Ui.Sort.Order.{sort_agents-Perm}
use grex.Ui.Sort.Links.{parse_sort-sort_query}
use grex.Ui.Data.{fleet_page}
use grex.Ui.Data.Laws.{fleet_page-page_response}
use Prim.Native.Nat.{◌∣◌}
use grex.Ui.Yaml.{gcd}
use grex.Ui.Yaml.Laws.{gcd-greatest}

sort_agents-Perm_example :
    sort_agents (text "name") (text "desc") three
    ≡ sort_agents (text "name") (text "desc") (agent_a ∷ agent_c ∷ agent_b ∷ [])
sort_agents-Perm_example =
    sort_agents-Perm (text "name") (text "desc") (Permᴰ.swap refl refl) three-NoTies

abbrev query : Values
query = (text "offset", text "20" ∷ []) ∷ (text "sort", text "name" ∷ []) ∷ []

parse_sort-sort_query_example :
    (parse_sort (sort_query query (text "name") (text "name") (text "asc"))
      ≡ (text "name", next_order (text "name") (text "name") (text "asc")))
    × (Query.get (text "offset") (sort_query query (text "name") (text "name") (text "asc")) ≡ [])
parse_sort-sort_query_example =
    parse_sort-sort_query query (text "name") (text "name") (text "asc") (inr (inl refl))

fleet_page-page_response_example :
    ((fleet_page bits three false [] 0 2 1).agents
      ≡ (page_response sorted_heap bits three false 2 1).agents)
    × ((fleet_page bits three false [] 0 2 1).total
        ≡ (page_response sorted_heap bits three false 2 1).total)
unfolding Query.get lookup
fleet_page-page_response_example =
    fleet_page-page_response sorted_heap bits three false [] 0 2 1 refl three-NoTies

gcd-greatest_example : ((4 ∣ 12) × (4 ∣ 8)) ↔ (4 ∣ gcd 12 8)
gcd-greatest_example = gcd-greatest 12 8 4
