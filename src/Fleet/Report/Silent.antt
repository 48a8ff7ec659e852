-- ===== src/Fleet/Report/Silent.antt =====
-- Reports of internal/fleet/registry.go of which the Events listener hears nothing.
use grex.Base.{
  ℕ, ◌≡◌, refl, true, List, [], ◌∷◌, ◌++◌, Option, none, some, Str, Assoc, if◌then◌else◌, ◌==◌, ◌∙◌,
  arith,
}
use grex.Fleet.Types.{
  Agent, ConnMeta, Package, Event, AgentDescription, ComponentHealth, AgentToServer,
}
use grex.Fleet.Report.{
  touch, fold_description, fold_health, fold_packages, fold_effective_config, fold_report,
}

append_nothing : (xs ys : List Event) → xs ++ ys ≡ [] → (xs ≡ []) × (ys ≡ [])
append_nothing [] ys h = (refl, h)
append_nothing (x ∷ xs) ys h = absurd cc

description_silent :
    (req : List Str) (d : Option AgentDescription) (a : Agent)
    → (fold_description req d a).1 ≡ []
    → (fold_description req d a).0 ≡ a
unfolding fold_description
description_silent req none a h = refl
description_silent req (some d) a h = absurd cc

health_silent :
    (h : Option ComponentHealth) (a : Agent) → (fold_health h a).1 ≡ [] → (fold_health h a).0 ≡ a
unfolding fold_health
health_silent none a e = refl
health_silent (some h) a e = absurd cc

packages_silent :
    (p : Assoc Package) (a : Agent) → (fold_packages p a).1 ≡ [] → (fold_packages p a).0 ≡ a
unfolding fold_packages
packages_silent [] a e = refl
packages_silent (p ∷ ps) a e = absurd cc

config_silent :
    (c : Assoc Str) (a : Agent)
    → (fold_effective_config c a).1 ≡ []
    → (fold_effective_config c a).0 ≡ a
unfolding fold_effective_config
config_silent [] a e = refl
config_silent (c ∷ cs) a e = absurd cc

-- A report of which the listener hears nothing comes from an agent that is already connected, and
-- it changes the time, the connection, the sequence number and the capabilities of the agent, each
-- to what the message and its connection say, and nothing else.
pub fold_report_silent :
    (req : List Str) (msg : AgentToServer) (meta : ConnMeta) (now : ℕ) (a : Agent)
    → (fold_report req msg meta now a).1 ≡ []
    → (a.connected ≡ true)
      × ((fold_report req msg meta now a).0 ≡ record a {
        last_seen = now;
        connected = true;
        conn = meta;
        sequence_num = msg.sequence_num;
        capabilities = if msg.capabilities == 0 then a.capabilities else msg.capabilities;
      })
unfolding fold_report touch
fold_report_silent req msg meta now a h =
    let b = (touch msg meta now a).0 in
    let c = (fold_description req msg.agent_description b).0 in
    let d = (fold_health msg.health c).0 in
    let e = (fold_packages msg.package_statuses d).0 in
    let (touched, more) = append_nothing (touch msg meta now a).1 _ h in
    let (described, rest) =
      append_nothing (fold_description req msg.agent_description b).1 _ more in
    let (health, last) = append_nothing (fold_health msg.health c).1 _ rest in
    let (packages, config) = append_nothing (fold_packages msg.package_statuses d).1 _ last in
    (
      ground (arith, touched),
      config_silent msg.effective_config e config
          ∙ packages_silent msg.package_statuses d packages
          ∙ health_silent msg.health c health
          ∙ description_silent req msg.agent_description b described,
    )
