-- ===== src/Config/Accepted.antt =====
-- What the rest of the server may rely on once internal/config/config.go accepts a configuration.
use grex.Base.{
  ◌≤◌, ◌≡◌, refl, Bool, true, false, not, ◌&&◌, List, [], ◌∷◌, Option, none, some, Str, text,
  str_eq, str_eq_iff, elem, arith, if◌then◌else◌, inl, inr, ◌⊎◌, Bool-cases,
}
use grex.Base.Int.{pos_part}
use grex.Spiffe.{SpiffeId, RoleRule, string, is_exact, is_prefix, first_role, resolve_role}
use grex.Config.{
  Config, ConfigError, Auth, ◌then◌, valid_roles, validate_rule, validate_rules, validate_auth,
  validate_log, validate_numbers, validate, validate_tls, check_address, Tls,
}

then_both : (a b : Option ConfigError) → (a then b) ≡ none → (a ≡ none) × (b ≡ none)
then_both none b h = (refl, h)
then_both (some e) b h = absurd cc

rule_role :
    (r : RoleRule) → validate_rule r ≡ none → (r.role ≡ text "viewer") ⊎ (r.role ≡ text "admin")
unfolding validate_rule
rule_role r h = ground (arith, str_eq_iff r.role (text "viewer"), str_eq_iff r.role (text "admin"))

role-valid : (s : Str) → (s ≡ text "viewer") ⊎ (s ≡ text "admin") → elem s valid_roles ≡ true
unfolding str_eq
role-valid s (inl e) = rw e refl
role-valid s (inr e) = rw e refl

first_role-valid :
    (p : RoleRule → Bool) (rules : List RoleRule) (after : Str)
    → validate_rules rules ≡ none
    → elem after valid_roles ≡ true
    → elem (first_role p rules after) valid_roles ≡ true
unfolding first_role validate_rules
first_role-valid p [] after h ok = ok
first_role-valid p (r ∷ rs) after h ok =
    let (here, rest) = then_both (validate_rule r) (validate_rules rs) h in
    elim (Bool-cases (p r)) [
      | inl hit ↦ rw hit (role-valid r.role (rule_role r here))
      | inr miss ↦ rw miss (first_role-valid p rs after rest ok)
    ]

-- With an accepted role configuration every identity resolves to none, viewer or admin.
pub resolve_role-valid :
    (auth : Auth) (id : SpiffeId)
    → validate_auth auth ≡ none
    → elem (resolve_role id auth.role_mapping auth.default_role) valid_roles ≡ true
unfolding validate_auth resolve_role
resolve_role-valid auth id h =
    let (default, rules) = then_both _ (validate_rules auth.role_mapping) h in
    first_role-valid (is_exact (string id)) auth.role_mapping _ rules (
      first_role-valid (is_prefix (string id)) auth.role_mapping auth.default_role rules
        (ground arith))

-- A TLS block that can be served: a certificate with its key or neither, and no client CA without
-- a certificate.
abbrev pub IsServable : Tls → Type 0
IsServable t =
    (str_eq t.cert_file [] ≡ str_eq t.key_file [])
    × ((str_eq t.cert_file [] && not (str_eq t.client_ca_file [])) ≡ false)

tls-IsServable : (exists : Str → Bool) (t : Tls) → validate_tls exists t ≡ none → IsServable t
unfolding validate_tls
tls-IsServable exists t h = ground arith

numbers-accepted :
    (c : Config)
    → validate_numbers c ≡ none
    → (1 ≤ pos_part c.heartbeat_interval)
      × (1 ≤ pos_part c.stale_missed_heartbeats)
      × (1 ≤ pos_part c.poll_interval)
      × (1 ≤ pos_part c.database_port)
      × (pos_part c.database_port ≤ 65535)
unfolding validate_numbers
numbers-accepted c h = ground arith

-- An accepted configuration has three TLS blocks that can be served, positive intervals and
-- missed heartbeats, and a port between 1 and 65535.
pub validate-accepted :
    (splits exists : Str → Bool) (c : Config)
    → validate splits exists c ≡ none
    → (IsServable c.opamp_tls × IsServable c.ui_tls × IsServable c.telemetry_tls)
      × ((1 ≤ pos_part c.heartbeat_interval)
          × (1 ≤ pos_part c.stale_missed_heartbeats)
          × (1 ≤ pos_part c.poll_interval)
          × (1 ≤ pos_part c.database_port)
          × (pos_part c.database_port ≤ 65535))
unfolding validate
validate-accepted splits exists c h =
    let (_, a) = then_both (check_address splits c.opamp_addr) _ h in
    let (_, b) = then_both (check_address splits c.ui_addr) _ a in
    let (_, d) = then_both (check_address splits c.telemetry_addr) _ b in
    let (opamp, e) = then_both (validate_tls exists c.opamp_tls) _ d in
    let (ui, f) = then_both (validate_tls exists c.ui_tls) _ e in
    let (telemetry, g) = then_both (validate_tls exists c.telemetry_tls) _ f in
    let (_, i) = then_both (validate_auth c.auth) _ g in
    let (_, numbers) = then_both (validate_log c) (validate_numbers c) i in
    (
      (
        tls-IsServable exists c.opamp_tls opamp,
        tls-IsServable exists c.ui_tls ui,
        tls-IsServable exists c.telemetry_tls telemetry,
      ),
      numbers-accepted c numbers,
    )

-- Its role configuration is accepted too.
pub validate-auth :
    (splits exists : Str → Bool) (c : Config)
    → validate splits exists c ≡ none
    → validate_auth c.auth ≡ none
unfolding validate
validate-auth splits exists c h = ground arith
