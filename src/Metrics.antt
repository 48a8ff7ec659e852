-- ===== src/Metrics.antt =====
-- internal/metrics/metrics.go: the counters of Events, which listen to the registry and the
-- handlers, and the gauges that FleetCollector derives from the registry at a scrape. Names of
-- metrics stand for their descriptions; labels are lists of texts.
pub mod Collecting
pub mod Balance
mod Tests
use grex.Base.{
  ℕ, zero, suc, ◌+◌, ◌-◌, Bool, true, false, List, [], ◌∷◌, ◌++◌, Option, none, some, Str, text,
  Assoc, lookup, insert, if◌then◌else◌, ltb,
}
use grex.Fleet.Types.{
  Agent, Event, agent_connected, agent_disconnected, agent_evicted, report_received,
  missing_attribute, reserved_attribute_conflict,
}
use grex.Fleet.Registry.{Registry, agents}
use grex.Fleet.Stats.{FleetStats, ConnRoute, aggregate}

-- A vector of counters has one for each value of its label.
pub record Counters : Type 0 where
  pub agent_connects : ℕ
  pub agent_disconnects : ℕ
  pub agents_evicted : ℕ
  pub agents_purged : ℕ
  pub reports : Assoc ℕ
  pub missing_attributes : Assoc ℕ
  pub reserved_attribute_conflicts : Assoc ℕ
  pub messages : ℕ
  pub message_errors : ℕ
  pub gateway_connects : Assoc ℕ
  pub auth_denied : Assoc ℕ
  pub auth_allowed : Assoc ℕ
  pub list_store_fallback_errors : Assoc ℕ

-- NewEvents
abbrev pub new_events : Counters
new_events = record {
  agent_connects = 0;
  agent_disconnects = 0;
  agents_evicted = 0;
  agents_purged = 0;
  reports = [];
  missing_attributes = [];
  reserved_attribute_conflicts = [];
  messages = 0;
  message_errors = 0;
  gateway_connects = [];
  auth_denied = [];
  auth_allowed = [];
  list_store_fallback_errors = [];
}

abbrev one_more : Option ℕ → ℕ
one_more none = 1
one_more (some n) = n + 1

-- WithLabelValues(label).Inc()
unfoldable pub inc : Str → Assoc ℕ → Assoc ℕ
inc label m = insert label (one_more (lookup label m)) m

-- The methods of fleet.Events.
unfoldable pub hear : Counters → Event → Counters
hear c (agent_connected id) = record c { agent_connects = c.agent_connects + 1 }
hear c (agent_disconnected id) = record c { agent_disconnects = c.agent_disconnects + 1 }
hear c (agent_evicted id) = record c { agents_evicted = c.agents_evicted + 1 }
hear c (report_received id kind) = record c { reports = inc kind c.reports }
hear c (missing_attribute id key) = record c { missing_attributes = inc key c.missing_attributes }
hear c (reserved_attribute_conflict id key) = record c {
  reserved_attribute_conflicts = inc key c.reserved_attribute_conflicts;
}

unfoldable pub hear_all : Counters → List Event → Counters
hear_all c [] = c
hear_all c (e ∷ es) = hear_all (hear c e) es

-- The hooks of the handlers, the purge and the reads.
unfoldable pub agents_purged : Counters → ℕ → Counters
agents_purged c n = record c { agents_purged = c.agents_purged + n }

unfoldable pub message : Counters → Counters
message c = record c { messages = c.messages + 1 }

unfoldable pub message_error : Counters → Counters
message_error c = record c { message_errors = c.message_errors + 1 }

unfoldable pub gateway_connect : Counters → Bool → Counters
gateway_connect c accepted = record c {
  gateway_connects = inc (if accepted then text "accepted" else text "rejected") c.gateway_connects;
}

unfoldable pub auth_denied : Counters → Str → Counters
auth_denied c reason = record c { auth_denied = inc reason c.auth_denied }

unfoldable pub auth_allowed : Counters → Str → Counters
auth_allowed c role = record c { auth_allowed = inc role c.auth_allowed }

unfoldable pub list_store_fallback_failed : Counters → Str → Counters
list_store_fallback_failed c surface = record c {
  list_store_fallback_errors = inc surface c.list_store_fallback_errors;
}

-- multiEvents of internal/fleet/registry.go: each listener is told in turn. Here a listener is its
-- state and what a call makes of it.
pub record Listener : Type 1 where
  pub State : Type 0
  pub state : State
  pub told : State → Event → State

unfoldable pub tell : Listener → Event → Listener
tell l e = record l { state = l.told l.state e }

unfoldable pub tell_all : List Listener → Event → List Listener
tell_all [] e = []
tell_all (l ∷ ls) e = tell l e ∷ tell_all ls e
