-- ===== src/Ui/Listing.antt =====
-- The copies in internal/ui/ui.go of what the API reads and merges before it filters: parsePagination,
-- and the first part of fleetData.
use grex.Base.{
  ℕ, ◌≡◌, refl, min, List, [], ◌∷◌, Bool, true, false, Option, none, some, Str, ◌==◌, if◌then◌else◌,
  arith,
}
use grex.Base.Int.{ℤ, pos}
use grex.Fleet.Types.{Agent}
use grex.Fleet.Registry.{Registry, agents, disconnect_threshold}
use grex.Persistence.Store.{Tables, Read, ok, failed, list_agents}
use grex.Api.Merge.{merge_agents}
use grex.Api.Page as Api
use grex.Api.Page.{Atoi, Pagination, window, bad_limit, bad_offset}
use grex.Api.Handler.{listed_agents}

abbrev pub default_limit : ℕ
default_limit = 100

abbrev pub max_limit : ℕ
max_limit = 1000

-- The offset, after a limit.
abbrev pub with_offset : ℕ → Option ℤ → Pagination
with_offset limit (some (pos offset)) = window limit offset
with_offset limit _ = bad_offset

abbrev pub read_offset : Atoi → ℕ → Str → Pagination
read_offset atoi limit [] = window limit 0
read_offset atoi limit (c ∷ cs) = with_offset limit (atoi (c ∷ cs))

abbrev pub with_limit : Atoi → Str → Option ℤ → Pagination
with_limit atoi offset (some (pos n)) =
    if n == 0 then bad_limit else read_offset atoi (min n max_limit) offset
with_limit atoi offset _ = bad_limit

-- parsePagination, of the texts of the two parameters.
unfoldable pub parse_pagination : Atoi → Str → Str → Pagination
parse_pagination atoi [] offset = read_offset atoi default_limit offset
parse_pagination atoi (c ∷ cs) offset = with_limit atoi offset (atoi (c ∷ cs))

-- mergedAgents and partial, once the store has answered.
abbrev pub merged : Registry → ℕ → Read (List Agent) → List Agent × Bool
merged r now failed = (agents r, true)
merged r now (ok db) = (merge_agents (agents r) db now (disconnect_threshold r.cfg), false)

unfoldable pub merged_agents : Registry → Option Tables → ℕ → List Agent × Bool
merged_agents r none now = (agents r, false)
merged_agents r (some t) now = merged r now (list_agents t)

pub parse_pagination-eq-api :
    (atoi : Atoi) (limit offset : Str)
    → parse_pagination atoi limit offset ≡ Api.parse_pagination atoi limit offset
unfolding parse_pagination Api.parse_pagination Api.parse_limit Api.parse_offset
parse_pagination-eq-api atoi [] [] = refl
parse_pagination-eq-api atoi [] (c ∷ cs) = ground arith
parse_pagination-eq-api atoi (b ∷ bs) [] = ground arith
parse_pagination-eq-api atoi (b ∷ bs) (c ∷ cs) = ground arith

pub merged_agents-eq-listed :
    (r : Registry) (store : Option Tables) (now : ℕ)
    → merged_agents r store now ≡ listed_agents r store now
unfolding merged_agents listed_agents
merged_agents-eq-listed r none now = refl
merged_agents-eq-listed r (some t) now = ground arith
