-- ===== src/Metrics/Collecting.antt =====
-- Collect of FleetCollector (internal/metrics/metrics.go) and AgentSeries of
-- internal/fleet/registry.go.
use grex.Base.{
  ℕ, ◌≤◌, ◌≡◌, ◌↔◌, ◌⊎◌, inl, inr, refl, Bool, true, false, List, [], ◌∷◌, ◌++◌, Str, if◌then◌else◌,
  ltb, length, map, arith, In, In-append, In-append_left, In-append_right,
}
use grex.Fleet.Types.{Agent}
use grex.Fleet.Registry.{Registry, agents}
use grex.Fleet.Stats.Counts.{aggregate-Adds}
use grex.Fleet.Stats.{FleetStats, ConnRoute, aggregate}

pub record AgentSeries : Type 0 where
  pub instance_uid : Str
  pub health_reported : Bool
  pub healthy : Bool
  pub last_seen : ℕ

abbrev pub series_of : Agent → AgentSeries
series_of a = record {
  instance_uid = a.instance_uid;
  health_reported = a.health_reported;
  healthy = a.healthy;
  last_seen = a.last_seen;
}

unfoldable pub agent_series : Registry → List AgentSeries
agent_series r = map series_of (agents r)

-- One gauge with its value; the last two carry an agent's id.
pub data Gauge : Type 0 where
  agents_connected : ConnRoute → ℕ → Gauge
  agents_disconnected agents_noncompliant agents_supervisor_managed agents_awaiting_full_state
        fleet_size :
      ℕ → Gauge
  agent_series_capped : Bool → Gauge
  agent_health : Str → Bool → Gauge
  agent_last_seen : Str → ℕ → Gauge

abbrev pub connected_gauges : List (ConnRoute × ℕ) → List Gauge
connected_gauges [] = []
connected_gauges ((route, n) ∷ rest) = agents_connected route n ∷ connected_gauges rest

abbrev pub agent_gauges : AgentSeries → List Gauge
agent_gauges a =
    if a.health_reported
    then agent_health a.instance_uid a.healthy ∷ agent_last_seen a.instance_uid a.last_seen ∷ []
    else agent_last_seen a.instance_uid a.last_seen ∷ []

abbrev pub series_gauges : List AgentSeries → List Gauge
series_gauges [] = []
series_gauges (a ∷ as') = agent_gauges a ++ series_gauges as'

-- The gauges over the whole fleet, and whether it is past the limit.
abbrev pub fleet_gauges : FleetStats → Bool → List Gauge
fleet_gauges stats capped =
    connected_gauges stats.connected
    ++ (agents_disconnected stats.disconnected
        ∷ agents_noncompliant stats.noncompliant
        ∷ agents_supervisor_managed stats.supervisor_managed
        ∷ agents_awaiting_full_state stats.awaiting_full_state
        ∷ fleet_size stats.size
        ∷ agent_series_capped capped
        ∷ [])

-- The registry may change between the two reads; here it does not.
unfoldable pub collect : Registry → ℕ → List Gauge
collect r limit =
    let stats = aggregate r in
    let capped = ltb limit stats.size in
    fleet_gauges stats capped ++ (if capped then [] else series_gauges (agent_series r))

-- A registered agent has this id and reports this health.
abbrev pub ReportsHealth : Str → Bool → List Agent → Type 0
ReportsHealth id b [] = ⊥
ReportsHealth id b (a ∷ as') =
    ((a.instance_uid ≡ id) × (a.health_reported ≡ true) × (a.healthy ≡ b)) ⊎ ReportsHealth id b as'

connected_gauges-In :
    (id : Str) (b : Bool) (routes : List (ConnRoute × ℕ))
    → In (agent_health id b) (connected_gauges routes)
    → ⊥
connected_gauges-In id b [] h = h
connected_gauges-In id b ((route, n) ∷ rest) (inl e) = cc
connected_gauges-In id b ((route, n) ∷ rest) (inr h) = connected_gauges-In id b rest h

fleet_gauges-In :
    (id : Str) (b : Bool) (stats : FleetStats) (capped : Bool)
    → In (agent_health id b) (fleet_gauges stats capped)
    → ⊥
fleet_gauges-In id b stats capped h =
    elim (In-append (agent_health id b) (connected_gauges stats.connected) _ h) [
      | inl l ↦ connected_gauges-In id b stats.connected l
      | inr r ↦ ground arith
    ]

agent_gauges-In :
    (id : Str) (b : Bool) (a : Agent)
    → In (agent_health id b) (agent_gauges (series_of a))
      ↔ ((a.instance_uid ≡ id) × (a.health_reported ≡ true) × (a.healthy ≡ b))
agent_gauges-In id b a = ground arith

series_gauges-In :
    (id : Str) (b : Bool) (as' : List Agent)
    → In (agent_health id b) (series_gauges (map series_of as')) ↔ ReportsHealth id b as'
series_gauges-In id b [] = ground arith
series_gauges-In id b (a ∷ as') =
    let g = agent_health id b in
    let rest = series_gauges (map series_of as') in
    ground (
      arith,
      series_gauges-In id b as',
      agent_gauges-In id b a,
      In-append g (agent_gauges (series_of a)) rest,
      In-append_left g (agent_gauges (series_of a)) rest,
      In-append_right g (agent_gauges (series_of a)) rest,
    )

capped_gauges-In :
    (g : Gauge) (front series : List Gauge) (capped : Bool)
    → (In g front → ⊥)
    → In g (front ++ (if capped then [] else series)) ↔ ((capped ≡ false) × In g series)
capped_gauges-In g front series true n = (
  (λ h. elim (In-append g front [] h) [ inl l ↦ absurd (n l) | inr r ↦ absurd r ]),
  λ h. absurd cc,
)
capped_gauges-In g front series false n = (
  (λ h. elim (In-append g front series h) [ inl l ↦ absurd (n l) | inr r ↦ (refl, r) ]),
  λ h. In-append_right g front series h.1,
)

-- A scrape has a health gauge for an agent exactly if the fleet is no larger than the limit, and the
-- agent is registered with that health and has reported it: one that has not is not shown as
-- unhealthy.
pub collect-health :
    (r : Registry) (limit : ℕ) (id : Str) (b : Bool)
    → In (agent_health id b) (collect r limit)
      ↔ ((length (agents r) ≤ limit) × ReportsHealth id b (agents r))
unfolding collect agent_series
collect-health r limit id b =
    let stats = aggregate r in
    let capped = ltb limit stats.size in
    let n = (aggregate-Adds r).size in
    ground (
      arith,
      n,
      capped_gauges-In (agent_health id b) (fleet_gauges stats capped)
          (series_gauges (map series_of (agents r))) capped (fleet_gauges-In id b stats capped),
      series_gauges-In id b (agents r),
    )
