-- ===== src/Fleet/Stats/Counts.antt =====
-- The counts of internal/fleet and of the status handlers, against the list of agents.
use grex.Base.{ℕ, ◌+◌, ◌≡◌, refl, Bool, not, List, [], ◌∷◌, arith, length}
use grex.Fleet.Types.{Agent}
use grex.Fleet.View.{supervisor_managed}
use grex.Fleet.Registry.{Registry, agents}
use grex.Fleet.Stats.{
  ConnRoute, FleetStats, no_stats, count_route, aggregate_agent, aggregate_loop, aggregate,
  StatusCounts, status_agent, status_loop, status_counts, bump, nonempty, route_of,
}

abbrev pub total_routes : List (ConnRoute × ℕ) → ℕ
total_routes [] = 0
total_routes ((r, n) ∷ m) = n + total_routes m

total-count_route :
    (r : ConnRoute) (m : List (ConnRoute × ℕ)) → total_routes (count_route r m) ≡ total_routes m + 1
unfolding count_route
total-count_route r [] = omega arith
total-count_route r ((s, n) ∷ m) = ground (arith, total-count_route r m)

-- How many agents pass a test.
abbrev pub tally : (Agent → Bool) → List Agent → ℕ
tally p [] = 0
tally p (a ∷ as') = bump (p a) (tally p as')

-- The gauges after the loop, from any start.
pub record Adds (s t : FleetStats) (as' : List Agent) : Type 0 where
  pub size : t.size ≡ s.size + length as'
  pub connected : total_routes t.connected ≡ total_routes s.connected + tally (λ a. a.connected) as'
  pub disconnected : t.disconnected ≡ s.disconnected + tally (λ a. not a.connected) as'
  pub noncompliant :
      t.noncompliant ≡ s.noncompliant + tally (λ a. nonempty a.missing_attributes) as'
  pub managed : t.supervisor_managed ≡ s.supervisor_managed + tally supervisor_managed as'
  pub awaiting :
      t.awaiting_full_state ≡ s.awaiting_full_state + tally (λ a. not a.description_reported) as'

aggregate_agent-Adds : (s : FleetStats) (a : Agent) → Adds s (aggregate_agent s a) (a ∷ [])
unfolding aggregate_agent
aggregate_agent-Adds s a = record {
  size = omega arith;
  connected = ground (arith, total-count_route (route_of a) s.connected);
  disconnected = ground arith;
  noncompliant = ground arith;
  managed = ground arith;
  awaiting = ground arith;
}

Adds-cons :
    {s t u : FleetStats} (a : Agent) (as' : List Agent)
    → Adds s t (a ∷ [])
    → Adds t u as'
    → Adds s u (a ∷ as')
Adds-cons a as' h k = record {
  size = omega (arith, h.size, k.size);
  connected = ground (arith, h.connected, k.connected);
  disconnected = ground (arith, h.disconnected, k.disconnected);
  noncompliant = ground (arith, h.noncompliant, k.noncompliant);
  managed = ground (arith, h.managed, k.managed);
  awaiting = ground (arith, h.awaiting, k.awaiting);
}

aggregate_loop-Adds : (s : FleetStats) (as' : List Agent) → Adds s (aggregate_loop s as') as'
unfolding aggregate_loop
aggregate_loop-Adds s [] = record {
  size = omega arith;
  connected = omega arith;
  disconnected = omega arith;
  noncompliant = omega arith;
  managed = omega arith;
  awaiting = omega arith;
}
aggregate_loop-Adds s (a ∷ as') =
    Adds-cons a as' (aggregate_agent-Adds s a) (aggregate_loop-Adds (aggregate_agent s a) as')

-- Every gauge of a scrape is the number of agents in the fleet list that have the property.
pub aggregate-Adds : (r : Registry) → Adds no_stats (aggregate r) (agents r)
unfolding aggregate
aggregate-Adds r = aggregate_loop-Adds no_stats (agents r)

tally_split :
    (p : Agent → Bool) (as' : List Agent) → tally p as' + tally (λ a. not (p a)) as' ≡ length as'
tally_split p [] = refl
tally_split p (a ∷ as') = ground (arith, tally_split p as')

-- The fleet is the connected agents, over all routes, and the disconnected ones.
pub aggregate-size :
    (r : Registry)
    → total_routes (aggregate r).connected + (aggregate r).disconnected ≡ (aggregate r).size
aggregate-size r =
    let h = aggregate-Adds r in
    omega (arith, h.size, h.connected, h.disconnected, tally_split (λ a. a.connected) (agents r))

status_loop-totals :
    (s : StatusCounts) (as' : List Agent)
    → ((status_loop s as').connected + (status_loop s as').disconnected
        ≡ s.connected + s.disconnected + length as')
      × ((status_loop s as').healthy
            + (status_loop s as').unhealthy
            + (status_loop s as').health_unknown
          ≡ s.healthy + s.unhealthy + s.health_unknown + length as')
      × ((status_loop s as').total ≡ s.total)
unfolding status_loop status_agent
status_loop-totals s [] = omega arith
status_loop-totals s (a ∷ as') = ground (arith, status_loop-totals (status_agent s a) as')

-- Of the status page's counts, the two of connection and the three of health each add up to the total.
pub status-totals :
    (as' : List Agent)
    → ((status_counts as').connected + (status_counts as').disconnected ≡ (status_counts as').total)
      × ((status_counts as').healthy
            + (status_counts as').unhealthy
            + (status_counts as').health_unknown
          ≡ (status_counts as').total)
      × ((status_counts as').total ≡ length as')
unfolding status_counts
status-totals as' =
    let h =
      status_loop-totals
        (record {
          total = length as';
          connected = 0;
          disconnected = 0;
          healthy = 0;
          unhealthy = 0;
          health_unknown = 0;
          awaiting_full_state = 0;
        })
        as' in
    (omega (arith, h.0, h.2), omega (arith, h.1, h.2), h.2)
