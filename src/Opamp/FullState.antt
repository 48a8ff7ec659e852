-- ===== src/Opamp/FullState.antt =====
-- When internal/opamp/handler.go asks an agent for its full state.
use grex.Base.{
  ℕ, ◌≡◌, refl, Bool, true, false, not, ◌||◌, List, [], ◌∷◌, Option, none, some, Str, Assoc, ap,
  ◌∙◌, str_eq_refl,
}
use grex.Fleet.Types.{Agent, ConnMeta, Package, AgentDescription, ComponentHealth, AgentToServer}
use grex.Fleet.Report.{
  touch, fold_description, check_required_attributes, check_reserved_attribute_conflicts,
  fold_health, fold_packages, fold_effective_config, fold_report,
}
use grex.Fleet.Registry.{InstanceUid, find_or_new, report}
use grex.Fleet.Registry.Shards.{IsValid}
use grex.Fleet.Registry.Reporting.{get-report_agent}
use grex.Opamp.{
  Handler, ConnState, Peer, needs_full_state, on_report, report_reply, conn_meta, track_agent,
}

abbrev pub described : Option AgentDescription → Bool
described none = false
described (some d) = true

description_described :
    (req : List Str) (d : Option AgentDescription) (a : Agent)
    → (fold_description req d a).0.description_reported ≡ (described d || a.description_reported)
unfolding fold_description check_required_attributes check_reserved_attribute_conflicts
description_described req none a = refl
description_described req (some d) a = refl

health_described :
    (h : Option ComponentHealth) (a : Agent)
    → (fold_health h a).0.description_reported ≡ a.description_reported
unfolding fold_health
health_described none a = refl
health_described (some h) a = refl

packages_described :
    (p : Assoc Package) (a : Agent)
    → (fold_packages p a).0.description_reported ≡ a.description_reported
unfolding fold_packages
packages_described [] a = refl
packages_described (p ∷ ps) a = refl

config_described :
    (c : Assoc Str) (a : Agent)
    → (fold_effective_config c a).0.description_reported ≡ a.description_reported
unfolding fold_effective_config
config_described [] a = refl
config_described (c ∷ cs) a = refl

pub fold_report-described :
    (req : List Str) (msg : AgentToServer) (meta : ConnMeta) (now : ℕ) (a : Agent)
    → (fold_report req msg meta now a).0.description_reported
      ≡ (described msg.agent_description || a.description_reported)
unfolding fold_report touch
fold_report-described req msg meta now a =
    config_described msg.effective_config _
    ∙ packages_described msg.package_statuses _
    ∙ health_described msg.health _
    ∙ description_described req msg.agent_description _

-- A report with a valid uid, over a well-formed registry, is answered with its uid, and the answer
-- asks for the full state exactly if the report carries no description and the agent is new or
-- has never sent one.
pub on_report_asks :
    (from_bytes : InstanceUid) (h : Handler) (cs : ConnState) (peer : Option Peer)
    → (msg : AgentToServer) (now : ℕ) (id : Str) → IsValid h.registry
    → from_bytes msg.instance_uid ≡ some id
    → (on_report from_bytes h cs peer msg now).1
      ≡ report_reply msg.instance_uid (
          not (
            described msg.agent_description
            || (find_or_new h.registry id now).description_reported))
unfolding on_report report needs_full_state
on_report_asks from_bytes h cs peer msg now id v is =
    rw
      (
        is,
        get-report_agent h.registry v id id msg (conn_meta (track_agent from_bytes cs msg) peer)
            now,
        str_eq_refl id,
      )
      (ap (λ b. report_reply msg.instance_uid (not b))
        (fold_report-described h.registry.cfg.required_attributes msg _ now
          (find_or_new h.registry id now)))
