-- ===== src/Fleet/Registry/Reporting.antt =====
-- `Report` of internal/fleet/registry.go against the registry seen as one map, and its listener
-- calls.
use grex.Base.{
  ℕ, ◌≡◌, refl, true, List, [], ◌∷◌, map, Option, none, some, Str, str_eq, Assoc, All, All-append,
  arith, if◌then◌else◌, keep, not, ◌≢◌, inl, inr, Bool-cases, ◌∙◌, eq→str_eq, false, str_eq→eq,
}
use grex.Fleet.Types.{
  Agent, ConnMeta, Package, Event, missing_attribute, reserved_attribute_conflict, AgentDescription,
  ComponentHealth, AgentToServer, reserved_attribute_keys,
}
use grex.Fleet.Report.{
  touch, fold_description, check_required_attributes, check_reserved_attribute_conflicts,
  fold_health, fold_packages, fold_effective_config, on_change, strs_eq, reports, attrs_to_map,
  fold_report,
}
use grex.Fleet.Events.{
  Presence, absent, offline, online, replay, IsQuiet, replay-append, replay_quiet, presence,
}
use grex.Fleet.Registry.{Registry, get, report_agent, find_or_new, or_new}
use grex.Fleet.Registry.Shards.{IsValid, get-put_agent, put_agent-IsValid, get-uid}
use grex.Fleet.Report.Kept.{fold_report-fields}

map-IsQuiet :
    (id : Str) (f : Str → Event)
    → ((k : Str) → IsQuiet id (f k))
    → (ks : List Str) → All (IsQuiet id) (map f ks)
map-IsQuiet id f q [] = tt
map-IsQuiet id f q (k ∷ ks) = (q k, map-IsQuiet id f q ks)

on_change-IsQuiet :
    (id : Str) (f : Str → Event)
    → ((k : Str) → IsQuiet id (f k))
    → (old ks : List Str) → All (IsQuiet id) (on_change f old ks)
on_change-IsQuiet id f q old [] = tt
on_change-IsQuiet id f q old (k ∷ ks) = elim (Bool-cases (strs_eq old (k ∷ ks))) [
  | inl same ↦ rw same tt
  | inr new ↦ rw new (q k, map-IsQuiet id f q ks)
]

abbrev described : AgentDescription → Agent → Agent
described desc a = record a {
  description_reported = true;
  identifying = attrs_to_map desc.identifying_attributes;
  non_identifying = attrs_to_map desc.non_identifying_attributes;
}

required-IsQuiet :
    (id : Str) (req : List Str) (a : Agent) → All (IsQuiet id) (check_required_attributes req a).1
unfolding check_required_attributes
required-IsQuiet id req a =
    on_change-IsQuiet id (missing_attribute a.instance_uid) (λ k p. refl) a.missing_attributes
      (keep (λ key. not (reports a key)) req)

reserved-IsQuiet :
    (id : Str) (a : Agent) → All (IsQuiet id) (check_reserved_attribute_conflicts a).1
unfolding check_reserved_attribute_conflicts
reserved-IsQuiet id a =
    on_change-IsQuiet id (reserved_attribute_conflict a.instance_uid) (λ k p. refl)
      a.reserved_attribute_conflicts (keep (reports a) reserved_attribute_keys)

description-IsQuiet :
    (id : Str) (req : List Str) (d : Option AgentDescription) (a : Agent)
    → All (IsQuiet id) (fold_description req d a).1
unfolding fold_description
description-IsQuiet id req none a = tt
description-IsQuiet id req (some d) a = (
  (λ p. refl),
  All-append (IsQuiet id) (check_required_attributes req (described d a)).1
      (check_reserved_attribute_conflicts (check_required_attributes req (described d a)).0).1
      (required-IsQuiet id req (described d a))
      (reserved-IsQuiet id (check_required_attributes req (described d a)).0),
)

health-IsQuiet :
    (id : Str) (h : Option ComponentHealth) (a : Agent) → All (IsQuiet id) (fold_health h a).1
unfolding fold_health
health-IsQuiet id none a = tt
health-IsQuiet id (some h) a = ((λ p. refl), tt)

packages-IsQuiet :
    (id : Str) (m : Assoc Package) (a : Agent) → All (IsQuiet id) (fold_packages m a).1
unfolding fold_packages
packages-IsQuiet id [] a = tt
packages-IsQuiet id (p ∷ ps) a = ((λ p. refl), tt)

config-IsQuiet :
    (id : Str) (m : Assoc Str) (a : Agent) → All (IsQuiet id) (fold_effective_config m a).1
unfolding fold_effective_config
config-IsQuiet id [] a = tt
config-IsQuiet id (c ∷ cs) a = ((λ p. refl), tt)

-- What the agent was before the report: `absent` if it is new.
replay-touch :
    (id : Str) (p : Presence) (msg : AgentToServer) (meta : ConnMeta) (now : ℕ) (a : Agent)
    → str_eq a.instance_uid id ≡ true
    → (if a.connected then p ≡ online else (p ≢ online))
    → replay id p (touch msg meta now a).1 ≡ some online
unfolding touch replay
replay-touch id absent msg meta now a e h = ground arith
replay-touch id offline msg meta now a e h = ground arith
replay-touch id online msg meta now a e h = ground arith

touch_elsewhere :
    (id : Str) (p : Presence) (msg : AgentToServer) (meta : ConnMeta) (now : ℕ) (a : Agent)
    → str_eq a.instance_uid id ≡ false
    → All (IsQuiet id) (touch msg meta now a).1
unfolding touch
touch_elsewhere id p msg meta now a e = elim (Bool-cases a.connected) [
  | inl on ↦ rw on tt
  | inr off ↦ rw off ((λ q. rw e), tt)
]

connected_online :
    (id : Str) (now : ℕ) (o : Option Agent)
    → (if (or_new id now o).connected then presence o ≡ online else (presence o ≢ online))
connected_online id now none = λ e. cc
connected_online id now (some a) = elim (Bool-cases a.connected) [
  | inl on ↦ rw on refl
  | inr off ↦ rw off (λ e. cc)
]

module _ (id : Str) (req : List Str) (msg : AgentToServer) (meta : ConnMeta) (now : ℕ)
    (a : Agent) where
  -- After its first block a report says nothing about connections.
  fold_report-tail :
      (p : Presence) {q : Presence}
      → replay id p (touch msg meta now a).1 ≡ some q
      → replay id p (fold_report req msg meta now a).1 ≡ some q
  unfolding fold_report
  fold_report-tail p {q} h =
      replay-append id p q (touch msg meta now a).1 _ h
      ∙ replay_quiet id q _ (
          All-append (IsQuiet id) (fold_description req msg.agent_description b).1 _
            (description-IsQuiet id req msg.agent_description b)
            (All-append (IsQuiet id) (fold_health msg.health c).1 _ (health-IsQuiet id msg.health c)
              (All-append (IsQuiet id) (fold_packages msg.package_statuses d).1 _
                (packages-IsQuiet id msg.package_statuses d)
                (config-IsQuiet id msg.effective_config _))))
    where
      b : Agent
      b = (touch msg meta now a).0

      c : Agent
      c = (fold_description req msg.agent_description b).0

      d : Agent
      d = (fold_health msg.health c).0

module _ (r : Registry) (v : IsValid r) where
  -- In a well-formed registry, a report folds its message into the agent of the id, found or new,
  -- and every other agent is as before.
  pub get-report_agent :
      (id j : Str) (msg : AgentToServer) (meta : ConnMeta) (now : ℕ)
      → get (report_agent r id msg meta now).0 j ≡ (
          if str_eq id j
          then some (fold_report r.cfg.required_attributes msg meta now (find_or_new r id now)).0
          else get r j)
  unfolding report_agent
  get-report_agent id j msg meta now = get-put_agent r v id j _

  find_or_new-fields :
      (id : Str) (now : ℕ)
      → ((find_or_new r id now).instance_uid ≡ id) × ((find_or_new r id now).evicted_at ≡ none)
  find_or_new-fields id now = found (get r id) refl
    where
      found :
          (o : Option Agent)
          → get r id ≡ o
          → ((or_new id now o).instance_uid ≡ id) × ((or_new id now o).evicted_at ≡ none)
      found none e = (refl, refl)
      found (some a) e = get-uid r v id a e

  pub report_agent-IsValid :
      (id : Str) (msg : AgentToServer) (meta : ConnMeta) (now : ℕ)
      → IsValid (report_agent r id msg meta now).0
  unfolding report_agent
  report_agent-IsValid id msg meta now =
      let f = fold_report-fields r.cfg.required_attributes msg meta now (find_or_new r id now) in
      let o = find_or_new-fields id now in put_agent-IsValid r v id _ (f.2 ∙ o.0) (f.4 ∙ o.1)

  -- The calls of a report about the agent that it names lead from what the agent was to online.
  report_agent-replay_self :
      (id : Str) (msg : AgentToServer) (meta : ConnMeta) (now : ℕ)
      → replay id (presence (get r id)) (report_agent r id msg meta now).1 ≡ some online
  unfolding report_agent
  report_agent-replay_self id msg meta now =
      fold_report-tail id r.cfg.required_attributes msg meta now (find_or_new r id now)
        (presence (get r id))
        (replay-touch id (presence (get r id)) msg meta now (find_or_new r id now)
          (eq→str_eq _ _ (find_or_new-fields id now).0) (connected_online id now (get r id)))

  -- About another agent a report says nothing.
  report_agent-replay_ne :
      (id j : Str) (p : Presence) (msg : AgentToServer) (meta : ConnMeta) (now : ℕ)
      → str_eq id j ≡ false
      → replay j p (report_agent r id msg meta now).1 ≡ some p
  unfolding report_agent
  report_agent-replay_ne id j p msg meta now ne =
      fold_report-tail j r.cfg.required_attributes msg meta now (find_or_new r id now) p (
        replay_quiet j p _ (
          touch_elsewhere j p msg meta now (find_or_new r id now)
            (rw (find_or_new-fields id now).0 ne)))

  -- The listener is told of each agent exactly the moves that the registry makes.
  pub replay-report_agent :
      (id j : Str) (msg : AgentToServer) (meta : ConnMeta) (now : ℕ)
      → replay j (presence (get r j)) (report_agent r id msg meta now).1
        ≡ some (presence (get (report_agent r id msg meta now).0 j))
  replay-report_agent id j msg meta now = elim (Bool-cases (str_eq id j)) [
    | inl same ↦
        let f = fold_report-fields r.cfg.required_attributes msg meta now (find_or_new r id now) in
        rw (get-report_agent id j msg meta now, same)
          (rw f.0 (rw (← str_eq→eq id j same) (report_agent-replay_self id msg meta now)))
    | inr other ↦
        rw (get-report_agent id j msg meta now, other)
          (report_agent-replay_ne id j (presence (get r j)) msg meta now other)
  ]
