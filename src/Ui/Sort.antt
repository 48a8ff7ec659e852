-- ===== src/Ui/Sort.antt =====
-- The order of the fleet table of internal/ui/ui.go and the links of its head.
pub mod Links
pub mod Order
use Prim.Native.Nat.{Ordering, compare}
use grex.Base.{
  ℕ, ◌≡◌, Bool, true, false, not, ◌&&◌, ◌||◌, List, [], ◌∷◌, ◌++◌, Str, text, str_eq, elem,
  to_lower, trim_space, if◌then◌else◌, insert, delete,
}
use grex.Base.Order.{str_compare, flip, by, ◌or_by◌}
use grex.Base.Order.Sorting.{sort}
use grex.Fleet.Types.{Agent}
use grex.Fleet.View.{attr, role_of, display_name_of, is_empty}
use grex.Ui.Query.{Values, get, encode}

-- statusRank
unfoldable pub status_rank : Agent → Str
status_rank a =
    if not a.connected
    then text "3-disconnected"
    else (if not a.health_reported
        then text "2-unknown"
        else (if a.healthy then text "0-healthy" else text "1-unhealthy"))

abbrev pub sort_columns : List Str
sort_columns =
    text "status"
    ∷ text "name"
    ∷ text "role"
    ∷ text "version"
    ∷ text "via"
    ∷ text "transport"
    ∷ text "last_seen"
    ∷ text "instance"
    ∷ []

-- The order that is asked for, or what is taken in its place.
abbrev pub order_or_default : Values → Str → Str → Str
order_or_default q key order =
    if str_eq order (text "asc") || str_eq order (text "desc")
    then order
    else (if str_eq key (text "last_seen")
          && (is_empty (get (text "order") q) && not (is_empty (get (text "sort") q)))
        then text "desc"
        else text "asc")

abbrev pub known_or_instance : Str → Str
known_or_instance key = if elem key sort_columns then key else text "instance"

unfoldable pub parse_sort : Values → Str × Str
parse_sort q =
    if is_empty (get (text "sort") q)
    then (text "instance", text "asc")
    else (let key = known_or_instance (trim_space (get (text "sort") q)) in
        (key, order_or_default q key (to_lower (trim_space (get (text "order") q)))))

abbrev pub via_rank : Agent → ℕ
via_rank a = if a.conn.via_gateway then 1 else 0

abbrev pub compare_uid : Agent → Agent → Ordering
compare_uid = by (λ (a : Agent). a.instance_uid) str_compare

-- The column's own comparison.
abbrev pub compare_column : Str → Agent → Agent → Ordering
compare_column key =
    if str_eq key (text "status")
    then by status_rank str_compare
    else if str_eq key (text "name")
    then by (λ (a : Agent). to_lower (display_name_of a)) str_compare
    else if str_eq key (text "role")
    then by (λ (a : Agent). to_lower (role_of a)) str_compare
    else if str_eq key (text "version")
    then by (λ (a : Agent). attr a (text "service.version")) str_compare
    else if str_eq key (text "via")
    then by via_rank compare
    else if str_eq key (text "transport")
    then by (λ (a : Agent). a.conn.transport) str_compare
    else if str_eq key (text "last_seen")
    then by (λ (a : Agent). a.last_seen) compare
    else by (λ (a : Agent). a.instance_uid) str_compare

-- Ties are broken by the id.
abbrev pub compare_by : Str → Agent → Agent → Ordering
compare_by key a b = compare_column key a b or_by compare_uid a b

abbrev pub compare_agents : Str → Str → Agent → Agent → Ordering
compare_agents key order a b =
    if str_eq order (text "desc") then flip (compare_by key a b) else compare_by key a b

unfoldable pub sort_agents : Str → Str → List Agent → List Agent
sort_agents key order agents = sort (compare_agents key order) agents

-- nextOrder of sortHref
unfoldable pub next_order : Str → Str → Str → Str
next_order col cur_sort cur_order =
    if str_eq cur_sort col
    then (if str_eq cur_order (text "asc") then text "desc" else text "asc")
    else (if str_eq col (text "last_seen") then text "desc" else text "asc")

unfoldable pub sort_query : Values → Str → Str → Str → Values
sort_query q col cur_sort cur_order =
    insert (text "order") (next_order col cur_sort cur_order ∷ [])
      (insert (text "sort") (col ∷ []) (delete (text "offset") q))

abbrev href_of : Str → Str
href_of [] = text "/"
href_of (c ∷ enc) = text "/?" ++ (c ∷ enc)

unfoldable pub sort_href : Values → Str → Str → Str → Str
sort_href q col cur_sort cur_order = href_of (encode (sort_query q col cur_sort cur_order))

unfoldable pub sort_class : Str → Str → Str → Str
sort_class col cur_sort cur_order =
    if not (str_eq col cur_sort)
    then text "th-sort"
    else text "th-sort is-active order-" ++ cur_order

unfoldable pub sort_aria : Str → Str → Str → Str
sort_aria col cur_sort cur_order =
    if not (str_eq col cur_sort)
    then text "none"
    else (if str_eq cur_order (text "desc") then text "descending" else text "ascending")
