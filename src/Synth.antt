-- ===== src/Synth.antt =====
-- internal/synth/synth.go: the configuration of a run of synthetic agents, and its report.
pub mod Report
pub mod Run
pub mod Launch
pub mod Tls
mod Tests
use grex.Base.{
  ℕ, ◌+◌, Bool, true, false, not, ◌&&◌, ◌||◌, List, [], ◌∷◌, Option, none, some, Str, text, str_eq,
  if◌then◌else◌, ltb,
}
use grex.Base.Int.{ℤ, pos, negsuc, ltb_ℤ}
use grex.Fleet.View.{is_empty}

-- Durations are signed, in nanoseconds.
pub record Config : Type 0 where
  pub server_url : Str
  pub agents : ℤ
  pub ramp_per_sec : ℤ
  pub heartbeat : ℤ
  pub duration : ℤ
  pub restart_after : ℤ
  pub service_name : Str
  pub cert_file : Str
  pub key_file : Str
  pub ca_file : Str

pub data Transport : Type 0 where
  ws http unknown : Transport

abbrev pub of_scheme : Option Str → Transport
of_scheme none = unknown
of_scheme (some scheme) =
    if str_eq scheme (text "ws") || str_eq scheme (text "wss")
    then ws
    else (if str_eq scheme (text "http") || str_eq scheme (text "https") then http else unknown)

-- The scheme that url.Parse finds, `none` on its error, is a parameter.
unfoldable pub transport : (Str → Option Str) → Config → Transport
transport scheme_of c = of_scheme (scheme_of c.server_url)

pub data Problem : Type 0 where
  no_url bad_scheme few_agents negative_ramp bad_heartbeat bad_duration bad_restart half_a_pair :
      Problem

abbrev pub is_unknown : Transport → Bool
is_unknown ws = false
is_unknown http = false
is_unknown unknown = true

abbrev pub xor : Bool → Bool → Bool
xor a b = if a then not b else b

-- The first problem, or `none`.
unfoldable pub validate : (Str → Option Str) → Config → Option Problem
validate scheme_of c =
    if is_empty c.server_url
    then some no_url
    else if is_unknown (transport scheme_of c)
    then some bad_scheme
    else if ltb_ℤ c.agents (pos 1)
    then some few_agents
    else if ltb_ℤ c.ramp_per_sec (pos 0)
    then some negative_ramp
    else if not (ltb_ℤ (pos 0) c.heartbeat)
    then some bad_heartbeat
    else if not (ltb_ℤ (pos 0) c.duration)
    then some bad_duration
    else if ltb_ℤ c.restart_after (pos 0)
        || (ltb_ℤ (pos 0) c.restart_after && not (ltb_ℤ c.restart_after c.duration))
    then some bad_restart
    else if xor (is_empty c.cert_file) (is_empty c.key_file)
    then some half_a_pair
    else none
