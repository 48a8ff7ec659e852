-- ===== src/Server/Tls.antt =====
-- listenerTLSConfig of internal/server/server.go and the loop of Start that calls it. Certificates
-- and pools are what the crypto and file calls return for them, as text.
pub mod Laws
mod Tests
use grex.Base.{
  ◌≡◌, ◌≢◌, refl, ◌∙◌, true, false, not, ◌&&◌, List, [], ◌∷◌, Option, none, some, Str, text, str_eq,
  str_eq-false, Assoc, lookup, arith, if◌then◌else◌, inl, inr, ◌⊎◌, Bool-cases, Bool,
}
use grex.Config.{Tls, Config}

pub data ClientAuth : Type 0 where
  no_client_cert verify_client_cert_if_given require_and_verify_client_cert : ClientAuth

pub record TlsConfig : Type 0 where
  pub certificate : Str
  pub client_cas : Option Str
  pub client_auth : ClientAuth

-- tls.LoadX509KeyPair, os.ReadFile and AppendCertsFromPEM on a fresh pool; `none` where they fail.
pub record Material : Type 0 where
  pub load_key_pair : Str → Str → Option Str
  pub read_file : Str → Option Str
  pub append_certs : Str → Option Str

pub data TlsError : Type 0 where
  load_tls_keypair read_client_ca_bundle no_certificates : TlsError

-- What a function that may fail with such an error returns.
pub data Loaded (A : Type 0) : Type 0 where
  unloadable : TlsError → Loaded A
  loaded : A → Loaded A

infixl 6 ◌>>=◌
abbrev pub ◌>>=◌ : {A B : Type 0} → Loaded A → (A → Loaded B) → Loaded B
unloadable reason >>= next = unloadable reason
loaded part >>= next = next part

abbrev pub or_err : {A : Type 0} → Option A → TlsError → Loaded A
or_err none e = unloadable e
or_err (some a) e = loaded a

-- The pool of a client CA bundle.
abbrev pub client_pool : Material → Str → Loaded Str
client_pool m path = do
  pem ← or_err (m.read_file path) read_client_ca_bundle
  or_err (m.append_certs pem) no_certificates

abbrev pub with_client_ca : Material → Str → ClientAuth → TlsConfig → Loaded TlsConfig
with_client_ca m [] auth cfg = loaded cfg
with_client_ca m (c ∷ path) auth cfg = do
  pool ← client_pool m (c ∷ path)
  loaded (record cfg { client_cas = some pool; client_auth = auth })

-- Once the certificate is loaded.
abbrev pub with_certificate : Material → Tls → ClientAuth → Str → Loaded (Option TlsConfig)
with_certificate m c auth cert =
    with_client_ca m c.client_ca_file auth
      (record { certificate = cert; client_cas = none; client_auth = no_client_cert })
    >>= λ cfg. loaded (some cfg)

-- `none` where TLS is not configured.
unfoldable pub listener_tls_config : Material → Tls → ClientAuth → Loaded (Option TlsConfig)
listener_tls_config m c auth =
    if str_eq c.cert_file []
    then loaded none
    else or_err (m.load_key_pair c.cert_file c.key_file) load_tls_keypair
      >>= with_certificate m c auth

-- The OpAMP listener refuses a connection with no certificate; the others leave that to the handler.
abbrev pub client_auth_of : Str → ClientAuth
client_auth_of name =
    if str_eq name (text "opamp")
    then require_and_verify_client_cert
    else verify_client_cert_if_given

abbrev pub tls_configs_loop : Material → List (Str × Tls) → Loaded (Assoc (Option TlsConfig))
tls_configs_loop m [] = loaded []
tls_configs_loop m ((name, c) ∷ rest) = do
  cfg ← listener_tls_config m c (client_auth_of name)
  others ← tls_configs_loop m rest
  loaded ((name, cfg) ∷ others)

-- The first loop of Start, with the walk of its map in the order of the literal.
unfoldable pub tls_configs : Material → Config → Loaded (Assoc (Option TlsConfig))
tls_configs m c =
    tls_configs_loop m (
      (text "opamp", c.opamp_tls)
      ∷ (text "ui", c.ui_tls)
      ∷ (text "telemetry", c.telemetry_tls)
      ∷ [])
