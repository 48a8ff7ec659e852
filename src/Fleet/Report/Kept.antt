-- ===== src/Fleet/Report/Kept.antt =====
-- What a report leaves alone: the fields that no block of `Report` writes after the first one, and
-- the fields that a message does not carry.
use grex.Base.{ℕ, ◌≡◌, ◌∙◌, true, List, [], Option, none, Str, Assoc, arith}
use grex.Fleet.Types.{Agent, ConnMeta, Package, AgentDescription, ComponentHealth, AgentToServer}
use grex.Fleet.Report.{
  touch, fold_description, check_required_attributes, check_reserved_attribute_conflicts,
  fold_health, fold_packages, fold_effective_config, fold_report,
}

-- The fields that only the first block of `Report` writes.
pub record Kept (a b : Agent) : Type 0 where
  pub uid : b.instance_uid ≡ a.instance_uid
  pub connected : b.connected ≡ a.connected
  pub evicted : b.evicted_at ≡ a.evicted_at
  pub first : b.first_seen ≡ a.first_seen
  pub last : b.last_seen ≡ a.last_seen

Kept-trans : {a b c : Agent} → Kept a b → Kept b c → Kept a c
Kept-trans h k = record {
  uid = k.uid ∙ h.uid;
  connected = k.connected ∙ h.connected;
  evicted = k.evicted ∙ h.evicted;
  first = k.first ∙ h.first;
  last = k.last ∙ h.last;
}

description-Kept :
    (req : List Str) (d : Option AgentDescription) (a : Agent) → Kept a (fold_description req d a).0
unfolding fold_description check_required_attributes check_reserved_attribute_conflicts
description-Kept req none a = ground arith
description-Kept req _ a = ground arith

health-Kept : (h : Option ComponentHealth) (a : Agent) → Kept a (fold_health h a).0
unfolding fold_health
health-Kept none a = ground arith
health-Kept _ a = ground arith

packages-Kept : (p : Assoc Package) (a : Agent) → Kept a (fold_packages p a).0
unfolding fold_packages
packages-Kept [] a = ground arith
packages-Kept _ a = ground arith

config-Kept : (c : Assoc Str) (a : Agent) → Kept a (fold_effective_config c a).0
unfolding fold_effective_config
config-Kept [] a = ground arith
config-Kept _ a = ground arith

module _ (req : List Str) (msg : AgentToServer) (meta : ConnMeta) (now : ℕ) (a : Agent) where
  after_touch : Kept (touch msg meta now a).0 (fold_report req msg meta now a).0
  unfolding fold_report
  after_touch = Kept-trans (description-Kept req msg.agent_description _) (
      Kept-trans (health-Kept msg.health _)
        (Kept-trans (packages-Kept msg.package_statuses _) (config-Kept msg.effective_config _)))

  -- A reported agent is connected, was seen now, and keeps its id, first time and eviction mark.
  pub fold_report-fields :
      ((fold_report req msg meta now a).0.connected ≡ true)
      × ((fold_report req msg meta now a).0.last_seen ≡ now)
      × ((fold_report req msg meta now a).0.instance_uid ≡ a.instance_uid)
      × ((fold_report req msg meta now a).0.first_seen ≡ a.first_seen)
      × ((fold_report req msg meta now a).0.evicted_at ≡ a.evicted_at)
  unfolding touch
  fold_report-fields = (
    after_touch.connected, after_touch.last, after_touch.uid, after_touch.first,
    after_touch.evicted,
  )
