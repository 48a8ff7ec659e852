-- ===== src/Ui/Sort/Order.antt =====
-- sortAgents of internal/ui/ui.go: the table's order does not depend on how the agents were listed.
use Prim.Native.Nat.{Ordering, compare}
use mathlib.Core.List.{Permᴰ, reverse}
use grex.Base.{
  ◌≡◌, ◌≢◌, Bool, true, false, List, [], ◌∷◌, Str, text, str_eq, if◌then◌else◌, arith, to_lower,
}
use grex.Base.Order.{
  IsOrder, by-IsOrder, both_ways-IsOrder, reversed-IsOrder, compare-IsOrder, str_compare,
  str_compare-IsOrder, by, flip,
}
use grex.Base.Order.Sorting.{NoTies, Differ, All-map_out, sort-Perm_eq}
use grex.Base.Order.Reversal.{sort-reversed}
use grex.Fleet.Types.{Agent}
use grex.Fleet.View.{attr, role_of, display_name_of}
use grex.Ui.Sort.{
  compare_uid, compare_column, status_rank, via_rank, compare_by, compare_agents, sort_agents,
}

compare_uid-IsOrder : IsOrder compare_uid
compare_uid-IsOrder = by-IsOrder (λ (a : Agent). a.instance_uid) str_compare str_compare-IsOrder

either-IsOrder :
    (b : Bool) (c d : Agent → Agent → Ordering)
    → IsOrder c
    → IsOrder d
    → IsOrder (if b then c else d)
either-IsOrder true c d o p = o
either-IsOrder false c d o p = p

text_by-IsOrder : (f : Agent → Str) → IsOrder (by f str_compare)
text_by-IsOrder f = by-IsOrder f str_compare str_compare-IsOrder

compare_column-IsOrder : (key : Str) → IsOrder (compare_column key)
compare_column-IsOrder key = either-IsOrder _ _ _ (text_by-IsOrder status_rank) (
    either-IsOrder _ _ _ (text_by-IsOrder (λ (a : Agent). to_lower (display_name_of a))) (
      either-IsOrder _ _ _ (text_by-IsOrder (λ (a : Agent). to_lower (role_of a))) (
        either-IsOrder _ _ _ (text_by-IsOrder (λ (a : Agent). attr a (text "service.version"))) (
          either-IsOrder _ _ _ (by-IsOrder via_rank compare compare-IsOrder) (
            either-IsOrder _ _ _ (text_by-IsOrder (λ (a : Agent). a.conn.transport)) (
              either-IsOrder _ _ _ (by-IsOrder (λ (a : Agent). a.last_seen) compare compare-IsOrder)
                (text_by-IsOrder (λ (a : Agent). a.instance_uid))))))))

compare_by-IsOrder : (key : Str) → IsOrder (compare_by key)
compare_by-IsOrder key =
    both_ways-IsOrder (compare_column key) compare_uid (compare_column-IsOrder key)
      compare_uid-IsOrder

directed-IsOrder :
    (turned : Bool) (c : Agent → Agent → Ordering)
    → IsOrder c
    → IsOrder (λ x y. if turned then flip (c x y) else c x y)
directed-IsOrder true c o = reversed-IsOrder c o
directed-IsOrder false c o = o

compare_agents-IsOrder : (key order : Str) → IsOrder (compare_agents key order)
compare_agents-IsOrder key order =
    directed-IsOrder (str_eq order (text "desc")) (compare_by key) (compare_by-IsOrder key)

compare_agents-Differ :
    (key order : Str) (x y : Agent)
    → compare_uid x y ≢ Ordering.eq
    → compare_agents key order x y ≢ Ordering.eq
compare_agents-Differ key order x y h e = ground (arith, h)

compare_agents-NoTies :
    (key order : Str) (agents : List Agent)
    → NoTies compare_uid agents
    → NoTies (compare_agents key order) agents
compare_agents-NoTies key order [] d = _
compare_agents-NoTies key order (a ∷ agents) d = (
  All-map_out _ (Differ (compare_agents key order) a) (compare_agents-Differ key order a) agents
      d.0,
  compare_agents-NoTies key order agents d.1,
)

-- For each column and direction, the table is the same however the agents were listed, if no two of
-- them have one id.
pub sort_agents-Perm :
    (key order : Str) {xs ys : List Agent}
    → Permᴰ xs ys
    → NoTies compare_uid xs
    → sort_agents key order xs ≡ sort_agents key order ys
unfolding sort_agents
sort_agents-Perm key order {xs} d n =
    sort-Perm_eq (compare_agents key order) (compare_agents-IsOrder key order) d
      (compare_agents-NoTies key order xs n)

-- Turning a column's direction round turns the table upside down, if no two agents have one id.
pub sort_agents-reverse :
    (key : Str) (agents : List Agent)
    → NoTies compare_uid agents
    → sort_agents key (text "desc") agents ≡ reverse (sort_agents key (text "asc") agents)
unfolding sort_agents str_eq
sort_agents-reverse key agents n =
    sort-reversed (compare_by key) (compare_by-IsOrder key) agents
      (compare_agents-NoTies key (text "asc") agents n)
