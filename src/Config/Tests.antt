-- ===== src/Config/Tests.antt =====
-- A configuration that internal/config/config.go accepts.
use grex.Base.Int.{ℤ}
use grex.Base.{Option, none, some, inl, inr, if◌then◌else◌}
use grex.Config.Load.{Override, set_by, on_checked, env_overrides, load}
use grex.Config.Load.Laws.{load-malformed}
use grex.Base.{◌≡◌, refl, Bool, true, [], ◌∷◌, Str, text, str_eq}
use grex.Base.Int.{pos}
use grex.Config.{Tls, Auth, Config}

abbrev pub always : Str → Bool
always s = true

abbrev pub no_tls : Tls
no_tls = record { cert_file = []; key_file = []; client_ca_file = [] }

abbrev pub paired : Tls
paired = record {
  cert_file = text "c.pem";
  key_file = text "k.pem";
  client_ca_file = text "ca.pem";
}

abbrev pub auth : Auth
auth = record {
  role_mapping =
      record { match_kind = text "exact"; spiffe_id = text "spiffe://corp/a"; role = text "admin" }
      ∷ [];
  default_role = text "none";
}

abbrev pub config : Config
config = record {
  opamp_addr = text ":4320";
  ui_addr = text ":8080";
  telemetry_addr = text ":9090";
  opamp_tls = paired;
  ui_tls = paired;
  telemetry_tls = no_tls;
  auth = auth;
  log_level = text "info";
  log_format = text "text";
  heartbeat_interval = pos 30;
  stale_missed_heartbeats = pos 3;
  soft_delete_duration = pos 100;
  shard_count = pos 0;
  per_agent_series_limit = pos 0;
  poll_interval = pos 5;
  database_port = pos 5432;
}

-- A parser that reads no number.
abbrev numbers : Str → Option ℤ
numbers s = none

abbrev port : Override
port =
    set_by numbers (text "GREX_DATABASE_PORT")
      (λ n. on_checked (λ c. record c { database_port = n }))

abbrev only_port : Str → Option Str
only_port name = if str_eq name (text "GREX_DATABASE_PORT") then some (text "x") else none

load-malformed_example : load numbers numbers always always (λ s. some s) only_port ≡ none
unfolding env_overrides str_eq
load-malformed_example =
    load-malformed numbers numbers always always (λ s. some s) only_port port (text "x")
      (inr (
        inr (
          inr (
            inr (
              inr (
                inr (
                  inr (
                    inr (
                      inr (
                        inr (
                          inr (
                            inr (
                              inr (
                                inr (
                                  inr (
                                    inr (
                                      inr (
                                        inr (
                                          inr (
                                            inr
                                              (inr (inr (inr (inr (inl refl)))))))))))))))))))))))))
      refl refl
