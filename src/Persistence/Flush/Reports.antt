-- ===== src/Persistence/Flush/Reports.antt =====
-- What the body of Report of internal/fleet/registry.go tells the listener of, block by block.
use grex.Base.{
  ℕ, ◌≡◌, refl, ◌∙◌, true, List, [], ◌∷◌, ◌++◌, map, Option, none, some, Str, Assoc, All,
  All-append, keep, not, inl, inr, Bool-cases,
}
use grex.Fleet.Types.{
  Agent, ConnMeta, Package, Event, missing_attribute, reserved_attribute_conflict, AgentDescription,
  ComponentHealth, AgentToServer, reserved_attribute_keys,
}
use grex.Fleet.Report.{
  touch, fold_description, check_required_attributes, check_reserved_attribute_conflicts,
  fold_health, fold_packages, fold_effective_config, on_change, strs_eq, attrs_to_map, reports,
  fold_report,
}
use grex.Persistence.Flush.Marked.{subject}

abbrev pub IsAbout : Str → Event → Type 0
IsAbout id e = id ≡ subject e

map-IsAbout :
    (id : Str) (f : Str → Event)
    → ((k : Str) → IsAbout id (f k))
    → (ks : List Str) → All (IsAbout id) (map f ks)
map-IsAbout id f q [] = tt
map-IsAbout id f q (k ∷ ks) = (q k, map-IsAbout id f q ks)

on_change-IsAbout :
    (id : Str) (f : Str → Event)
    → ((k : Str) → IsAbout id (f k))
    → (old ks : List Str) → All (IsAbout id) (on_change f old ks)
on_change-IsAbout id f q old [] = tt
on_change-IsAbout id f q old (k ∷ ks) = elim (Bool-cases (strs_eq old (k ∷ ks))) [
  | inl same ↦ rw same tt
  | inr new ↦ rw new (q k, map-IsAbout id f q ks)
]

-- Each block tells of the agent that it is given, and keeps its id.
abbrev TellsOf : Agent → Agent × List Event → Type 0
TellsOf a m = (m.0.instance_uid ≡ a.instance_uid) × All (IsAbout a.instance_uid) m.1

-- One block, and what follows it.
TellsOf-then :
    (a : Agent) (m : Agent × List Event) (n : Agent × List Event)
    → TellsOf a m
    → TellsOf m.0 n
    → TellsOf a (n.0, m.1 ++ n.1)
TellsOf-then a m n h k =
    (k.0 ∙ h.0, All-append (IsAbout a.instance_uid) m.1 n.1 h.1 (rw h.0 at k.1))

required-TellsOf : (req : List Str) (a : Agent) → TellsOf a (check_required_attributes req a)
unfolding check_required_attributes
required-TellsOf req a = (
  refl,
  on_change-IsAbout a.instance_uid (missing_attribute a.instance_uid) (λ k. refl)
      a.missing_attributes (keep (λ key. not (reports a key)) req),
)

reserved-TellsOf : (a : Agent) → TellsOf a (check_reserved_attribute_conflicts a)
unfolding check_reserved_attribute_conflicts
reserved-TellsOf a = (
  refl,
  on_change-IsAbout a.instance_uid (reserved_attribute_conflict a.instance_uid) (λ k. refl)
      a.reserved_attribute_conflicts (keep (reports a) reserved_attribute_keys),
)

abbrev described : AgentDescription → Agent → Agent
described desc a = record a {
  description_reported = true;
  identifying = attrs_to_map desc.identifying_attributes;
  non_identifying = attrs_to_map desc.non_identifying_attributes;
}

description-TellsOf :
    (req : List Str) (d : Option AgentDescription) (a : Agent)
    → TellsOf a (fold_description req d a)
unfolding fold_description
description-TellsOf req none a = (refl, tt)
description-TellsOf req (some d) a =
    let b = described d a in
    let c = (check_required_attributes req b).0 in
    let rest =
      TellsOf-then b (check_required_attributes req b) (check_reserved_attribute_conflicts c)
        (required-TellsOf req b) (reserved-TellsOf c) in
    (rest.0, (refl, rest.1))

health-TellsOf : (h : Option ComponentHealth) (a : Agent) → TellsOf a (fold_health h a)
unfolding fold_health
health-TellsOf none a = (refl, tt)
health-TellsOf (some h) a = (refl, (refl, tt))

packages-TellsOf : (m : Assoc Package) (a : Agent) → TellsOf a (fold_packages m a)
unfolding fold_packages
packages-TellsOf [] a = (refl, tt)
packages-TellsOf (p ∷ ps) a = (refl, (refl, tt))

config-TellsOf : (m : Assoc Str) (a : Agent) → TellsOf a (fold_effective_config m a)
unfolding fold_effective_config
config-TellsOf [] a = (refl, tt)
config-TellsOf (c ∷ cs) a = (refl, (refl, tt))

touch-TellsOf :
    (msg : AgentToServer) (meta : ConnMeta) (now : ℕ) (a : Agent) → TellsOf a (touch msg meta now a)
unfolding touch
touch-TellsOf msg meta now a = elim (Bool-cases a.connected) [
  | inl on ↦ rw on (refl, tt)
  | inr off ↦ rw off (refl, (refl, tt))
]

pub fold_report-TellsOf :
    (req : List Str) (msg : AgentToServer) (meta : ConnMeta) (now : ℕ) (a : Agent)
    → TellsOf a (fold_report req msg meta now a)
unfolding fold_report
fold_report-TellsOf req msg meta now a =
    let b = (touch msg meta now a).0 in
    let described = fold_description req msg.agent_description b in
    let c = described.0 in
    let health = fold_health msg.health c in
    let d = health.0 in
    let packages = fold_packages msg.package_statuses d in
    let config = fold_effective_config msg.effective_config packages.0 in
    let from_d =
      TellsOf-then d packages config (packages-TellsOf msg.package_statuses d)
        (config-TellsOf msg.effective_config packages.0) in
    let from_c =
      TellsOf-then c health (config.0, packages.1 ++ config.1) (health-TellsOf msg.health c)
        from_d in
    let from_b =
      TellsOf-then b described (config.0, health.1 ++ (packages.1 ++ config.1))
        (description-TellsOf req msg.agent_description b) from_c in
    TellsOf-then a (touch msg meta now a)
      (config.0, described.1 ++ (health.1 ++ (packages.1 ++ config.1)))
      (touch-TellsOf msg meta now a) from_b
