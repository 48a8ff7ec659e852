-- ===== src/Server/Tls/Tests.antt =====
-- Peers of internal/server/server.go with a client CA for both listeners.
use grex.Base.{
  ◌≡◌, ◌≢◌, refl, Bool, true, false, List, [], ◌∷◌, Option, none, some, text, str_eq, Assoc, lookup,
  ◌⊎◌,
}
use grex.Spiffe.{Url, from_cert, resolve_role, first_role, is_exact, string}
use grex.Config.{
  validate, validate_auth, validate_rules, validate_rule, validate_tls, validate_log,
  validate_numbers, check_address, check_file,
}
use grex.Config.Tests.{config, always}
use grex.Server.{RequestIdentity, require_spiffe_role}
use grex.Server.Admitted.{IsIdentified}
use grex.Server.Routes.{ui, wrap}
use grex.Server.Tls.{
  TlsConfig, ClientAuth, no_client_cert, verify_client_cert_if_given,
  require_and_verify_client_cert, Material, loaded, listener_tls_config, tls_configs,
}
use grex.Server.Tls.Laws.{
  Handshake, IsDocumented, IsVerified, opamp_peer-IsVerified, ui_request-IsVerified,
}

-- Files that hold their own names.
abbrev files : Material
files = record {
  load_key_pair = λ cert key. some cert;
  read_file = λ path. some path;
  append_certs = λ pem. some pem;
}

abbrev cert : List Url
cert = record { scheme = text "spiffe"; host = text "corp"; path = text "/a" } ∷ []

abbrev has_peer : List (List Url) → Bool
has_peer [] = false
has_peer (c ∷ cs) = true

-- Every certificate verifies, and a required one is required.
abbrev accepts_in : ClientAuth → List (List Url) → Bool
accepts_in require_and_verify_client_cert certs = has_peer certs
accepts_in verify_client_cert_if_given certs = true
accepts_in no_client_cert certs = true

abbrev accepts : Option TlsConfig → List (List Url) → Bool
accepts none certs = true
accepts (some c) certs = accepts_in c.client_auth certs

abbrev handshake : Handshake
handshake = record { accepts = accepts; verifies = λ pool c. true }

needs_peer : (certs : List (List Url)) → has_peer certs ≡ true → certs ≢ []
needs_peer [] h = absurd (cc)
needs_peer (c ∷ cs) h = λ e. cc

handshake-IsDocumented : IsDocumented handshake
handshake-IsDocumented = record {
  requires = λ c certs mode taken. needs_peer certs (rw mode at taken);
  checks = λ c pool cert rest cas mode taken. refl;
}

abbrev checking : ClientAuth → Option TlsConfig
checking mode =
    some
      (record { certificate = text "c.pem"; client_cas = some (text "ca.pem"); client_auth = mode })

abbrev configs : Assoc (Option TlsConfig)
configs =
    (text "opamp", checking require_and_verify_client_cert)
    ∷ (text "ui", checking verify_client_cert_if_given)
    ∷ (text "telemetry", none)
    ∷ []

config_valid : validate always always config ≡ none
unfolding validate validate_auth validate_rules validate_rule validate_tls validate_log
    validate_numbers check_address check_file str_eq
config_valid = refl

config_started : tls_configs files config ≡ loaded configs
unfolding tls_configs listener_tls_config str_eq
config_started = refl

opamp_peer-IsVerified_example :
    (c : List Url) × (rest : List (List Url)) × (cert ∷ [] ≡ c ∷ rest)
    × IsVerified files handshake config.opamp_tls c
unfolding lookup str_eq
opamp_peer-IsVerified_example =
    opamp_peer-IsVerified always always files handshake handshake-IsDocumented config config_valid
      config_started (cert ∷ []) refl (λ e. absurd cc) refl

ui_request-IsVerified_example :
    (c : List Url) × (i : RequestIdentity) × IsVerified files handshake config.ui_tls c
    × IsIdentified c i.id
    × ((i.role ≡ text "viewer") ⊎ (i.role ≡ text "admin"))
unfolding lookup str_eq ui wrap require_spiffe_role from_cert resolve_role first_role is_exact
    string
ui_request-IsVerified_example =
    ui_request-IsVerified always always files handshake handshake-IsDocumented config config_valid
      config_started (cert ∷ []) refl (λ e. absurd cc) refl refl
