-- ===== src/Fleet/Stats.antt =====
-- `Aggregate` of internal/fleet/registry.go, `status` of internal/api/handler.go and the same loop
-- of `statusData` in internal/ui/ui.go: counts over the fleet.
pub mod Counts
use grex.Base.{
  ℕ, zero, suc, ◌+◌, Bool, true, false, not, ◌&&◌, List, [], ◌∷◌, Option, none, some, Str, text,
  str_eq, Assoc, if◌then◌else◌, length,
}
use grex.Fleet.Types.{Agent}
use grex.Fleet.View.{supervisor_managed}
use grex.Fleet.Registry.{Registry, agents}

pub record ConnRoute : Type 0 where
  pub transport : Str
  pub via : Str

abbrev pub route_eq : ConnRoute → ConnRoute → Bool
route_eq r s = str_eq r.transport s.transport && str_eq r.via s.via

pub record FleetStats : Type 0 where
  pub size : ℕ
  pub connected : List (ConnRoute × ℕ)
  pub disconnected : ℕ
  pub noncompliant : ℕ
  pub supervisor_managed : ℕ
  pub awaiting_full_state : ℕ

abbrev pub no_stats : FleetStats
no_stats = record {
  size = 0;
  connected = [];
  disconnected = 0;
  noncompliant = 0;
  supervisor_managed = 0;
  awaiting_full_state = 0;
}

-- `stats.Connected[route]++`
unfoldable pub count_route : ConnRoute → List (ConnRoute × ℕ) → List (ConnRoute × ℕ)
count_route r [] = (r, 1) ∷ []
count_route r ((s, n) ∷ m) = if route_eq s r then (s, n + 1) ∷ m else (s, n) ∷ count_route r m

abbrev pub route_of : Agent → ConnRoute
route_of a = record {
  transport = a.conn.transport;
  via = if a.conn.via_gateway then text "gateway" else text "direct";
}

abbrev pub bump : Bool → ℕ → ℕ
bump true n = n + 1
bump false n = n

abbrev pub nonempty {ℓ} : {A : Type ℓ} → List A → Bool
nonempty [] = false
nonempty (x ∷ xs) = true

-- The body of the loop.
unfoldable pub aggregate_agent : FleetStats → Agent → FleetStats
unfolding count_route
aggregate_agent s a = record {
  size = s.size + 1;
  connected = if a.connected then count_route (route_of a) s.connected else s.connected;
  disconnected = bump (not a.connected) s.disconnected;
  noncompliant = bump (nonempty a.missing_attributes) s.noncompliant;
  supervisor_managed = bump (supervisor_managed a) s.supervisor_managed;
  awaiting_full_state = bump (not a.description_reported) s.awaiting_full_state;
}

pub aggregate_loop : FleetStats → List Agent → FleetStats
aggregate_loop s [] = s
aggregate_loop s (a ∷ as') = aggregate_loop (aggregate_agent s a) as'

unfoldable pub aggregate : Registry → FleetStats
unfolding aggregate_loop
aggregate r = aggregate_loop no_stats (agents r)

pub record StatusCounts : Type 0 where
  pub total : ℕ
  pub connected : ℕ
  pub disconnected : ℕ
  pub healthy : ℕ
  pub unhealthy : ℕ
  pub health_unknown : ℕ
  pub awaiting_full_state : ℕ

unfoldable pub status_agent : StatusCounts → Agent → StatusCounts
status_agent s a = record s {
  connected = bump a.connected s.connected;
  disconnected = bump (not a.connected) s.disconnected;
  awaiting_full_state = bump (not a.description_reported) s.awaiting_full_state;
  health_unknown = bump (not a.health_reported) s.health_unknown;
  healthy = bump (a.health_reported && a.healthy) s.healthy;
  unhealthy = bump (a.health_reported && not a.healthy) s.unhealthy;
}

pub status_loop : StatusCounts → List Agent → StatusCounts
status_loop s [] = s
status_loop s (a ∷ as') = status_loop (status_agent s a) as'

unfoldable pub status_counts : List Agent → StatusCounts
unfolding status_loop
status_counts as' =
    status_loop
      (record {
        total = length as';
        connected = 0;
        disconnected = 0;
        healthy = 0;
        unhealthy = 0;
        health_unknown = 0;
        awaiting_full_state = 0;
      })
      as'
