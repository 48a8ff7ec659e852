-- ===== src/Server/Tls/Laws.antt =====
-- What a connection to a listener of internal/server/server.go with a client CA has shown, from the
-- configuration to the handler.
use grex.Base.{
  ◌≡◌, ◌≢◌, refl, sym, ◌∙◌, Bool, true, List, [], ◌∷◌, Option, none, some, Str, text, str_eq,
  str_eq-false, Assoc, lookup, arith, inl, inr, ◌⊎◌, Bool-cases,
}
use grex.Spiffe.{Url}
use grex.Config.{Tls, Config, Auth, validate}
use grex.Config.Accepted.{IsServable, validate-accepted, validate-auth}
use grex.Server.{RequestIdentity, Outcome, denied, served, require_spiffe_role}
use grex.Server.Admitted.{IsIdentified, require_spiffe_role-admits}
use grex.Server.Routes.{ui_handler, ui, wrap, guarded_by}
use grex.Server.Tls.{
  ClientAuth, no_client_cert, verify_client_cert_if_given, require_and_verify_client_cert,
  TlsConfig, Material, Loaded, loaded, unloadable, ◌>>=◌, or_err, client_pool, with_client_ca,
  listener_tls_config, with_certificate, load_tls_keypair, tls_configs, tls_configs_loop,
}

loaded_through :
    {A B : Type 0} (first : Loaded A) (next : A → Loaded B) {whole : B}
    → (first >>= next) ≡ loaded whole
    → (part : A) × (first ≡ loaded part) × (next part ≡ loaded whole)
loaded_through (unloadable reason) next h = absurd (cc)
loaded_through (loaded part) next h = (part, refl, h)

-- The configuration of a listener checks client certificates against the pool of the bundle.
abbrev pub ChecksClients : Material → Tls → ClientAuth → Option TlsConfig → Type 0
ChecksClients m t auth o =
    (c : TlsConfig) × (pool : Str) × (o ≡ some c)
    × (client_pool m t.client_ca_file ≡ loaded pool)
    × (c.client_cas ≡ some pool)
    × (c.client_auth ≡ auth)

with_client_ca-checks :
    (m : Material) (path : Str) (auth : ClientAuth) (base done : TlsConfig)
    → path ≢ []
    → with_client_ca m path auth base ≡ loaded done
    → (pool : Str) × (client_pool m path ≡ loaded pool)
      × (done.client_cas ≡ some pool)
      × (done.client_auth ≡ auth)
with_client_ca-checks m [] auth base done given h = absurd (given refl)
with_client_ca-checks m (c ∷ path) auth base done given h =
    let (pool, read, is) =
      loaded_through (client_pool m (c ∷ path))
        (λ pool. loaded (record base { client_cas = some pool; client_auth = auth })) h in
    (pool, read, ground (arith, is), ground (arith, is))

listener_tls_config-checks :
    (m : Material) (t : Tls) (auth : ClientAuth) (o : Option TlsConfig)
    → IsServable t
    → t.client_ca_file ≢ []
    → listener_tls_config m t auth ≡ loaded o
    → ChecksClients m t auth o
unfolding listener_tls_config
listener_tls_config-checks m t auth o servable given h = elim (Bool-cases (str_eq t.cert_file [])) [
  | inl plain ↦ absurd (ground (arith, plain, servable.1, str_eq-false t.client_ca_file [] given))
  | inr tls ↦
      let (cert, has_cert, rest) =
        loaded_through (or_err (m.load_key_pair t.cert_file t.key_file) load_tls_keypair)
          (with_certificate m t auth) (rw tls at h) in
      let (done, made, is) =
        loaded_through
          (with_client_ca m t.client_ca_file auth
            (record { certificate = cert; client_cas = none; client_auth = no_client_cert }))
          (λ cfg. loaded (some cfg)) rest in
      let (pool, read, cas, mode) =
        with_client_ca-checks m t.client_ca_file auth
          (record { certificate = cert; client_cas = none; client_auth = no_client_cert }) done
          given made in
      (done, pool, ground (arith, is), read, cas, mode)
]

-- What Start keeps for each listener.
tls_configs-parts :
    (m : Material) (c : Config) {configs : Assoc (Option TlsConfig)}
    → tls_configs m c ≡ loaded configs
    → (o : Option TlsConfig) × (u : Option TlsConfig) × (t : Option TlsConfig) × (configs
        ≡ (text "opamp", o) ∷ (text "ui", u) ∷ (text "telemetry", t) ∷ [])
      × (listener_tls_config m c.opamp_tls require_and_verify_client_cert ≡ loaded o)
      × (listener_tls_config m c.ui_tls verify_client_cert_if_given ≡ loaded u)
      × (listener_tls_config m c.telemetry_tls verify_client_cert_if_given ≡ loaded t)
unfolding tls_configs str_eq
tls_configs-parts m c h =
    let opamp =
      loaded_through (listener_tls_config m c.opamp_tls require_and_verify_client_cert)
        (λ o.
          tls_configs_loop m ((text "ui", c.ui_tls) ∷ (text "telemetry", c.telemetry_tls) ∷ [])
          >>= λ others. loaded ((text "opamp", o) ∷ others))
        h in
    let rest =
      loaded_through
        (tls_configs_loop m ((text "ui", c.ui_tls) ∷ (text "telemetry", c.telemetry_tls) ∷ []))
        (λ others. loaded ((text "opamp", opamp.0) ∷ others)) opamp.2 in
    let ui_part =
      loaded_through (listener_tls_config m c.ui_tls verify_client_cert_if_given)
        (λ u. tls_configs_loop m ((text "telemetry", c.telemetry_tls) ∷ []) >>= λ others.
          loaded ((text "ui", u) ∷ others))
        rest.1 in
    let last =
      loaded_through (tls_configs_loop m ((text "telemetry", c.telemetry_tls) ∷ []))
        (λ others. loaded ((text "ui", ui_part.0) ∷ others)) ui_part.2 in
    let telemetry =
      loaded_through (listener_tls_config m c.telemetry_tls verify_client_cert_if_given)
        (λ t. loaded ((text "telemetry", t) ∷ [])) last.1 in
    (
      opamp.0,
      ui_part.0,
      telemetry.0,
      ground (arith, rest.2, last.2, telemetry.2),
      opamp.1,
      ui_part.1,
      telemetry.1,
    )

-- crypto/tls: which certificates a peer may connect with, and whether the first of them verifies
-- against a pool.
pub record Handshake : Type 0 where
  pub accepts : Option TlsConfig → List (List Url) → Bool
  pub verifies : Str → List Url → Bool

-- Its documentation of ClientAuth: a certificate that is required is there, and one that is there
-- verifies.
pub record IsDocumented (h : Handshake) : Type 0 where
  pub requires :
      (c : TlsConfig) (certs : List (List Url))
      → c.client_auth ≡ require_and_verify_client_cert
      → h.accepts (some c) certs ≡ true
      → certs ≢ []
  pub checks :
      (c : TlsConfig) (pool : Str) (cert : List Url) (rest : List (List Url))
      → c.client_cas ≡ some pool
      → c.client_auth ≢ no_client_cert
      → h.accepts (some c) (cert ∷ rest) ≡ true
      → h.verifies pool cert ≡ true

-- A request that reaches the UI handler behind the guard was served by it.
ui-guarded :
    (auth : Auth) (ca : Str) (certs : List (List Url))
    → ca ≢ []
    → ui true auth ca certs ≡ ui_handler
    → (i : RequestIdentity) × (require_spiffe_role auth.role_mapping auth.default_role certs
        ≡ served i)
unfolding ui wrap
ui-guarded auth [] certs given h = absurd (given refl)
ui-guarded auth (b ∷ ca) certs given h =
    passed (require_spiffe_role auth.role_mapping auth.default_role certs) h
  where
    passed :
        (o : Outcome)
        → guarded_by o ui_handler ≡ ui_handler
        → (i : RequestIdentity) × (o ≡ served i)
    passed (denied reason) e = absurd cc
    passed (served i) e = (i, refl)

-- The peer's certificate is signed by the client CA of the bundle.
abbrev pub IsVerified : Material → Handshake → Tls → List Url → Type 0
IsVerified m h t cert =
    (pool : Str) × (client_pool m t.client_ca_file ≡ loaded pool) × (h.verifies pool cert ≡ true)

module _ (splits exists : Str → Bool) (m : Material) (h : Handshake) (doc : IsDocumented h)
    (c : Config) (valid : validate splits exists c ≡ none) {configs : Assoc (Option TlsConfig)}
    (started : tls_configs m c ≡ loaded configs) {o : Option TlsConfig} (certs : List (List Url))
    (connected : h.accepts o certs ≡ true) where
  cert-IsVerified :
      (t : Tls) (auth : ClientAuth) (cert : List Url) (rest : List (List Url))
      → ChecksClients m t auth o
      → auth ≢ no_client_cert
      → certs ≡ cert ∷ rest
      → IsVerified m h t cert
  cert-IsVerified t auth cert rest (cfg, pool, is, read, cas, mode) given e = (
    pool,
    read,
    doc.checks cfg pool cert rest cas (λ off. given (sym mode ∙ off)) (rw (is, e) at connected),
  )

  -- With an accepted configuration that has a client CA for the OpAMP listener, a peer whose handshake
  -- is accepted there has shown a certificate that verifies against that CA bundle, if crypto/tls
  -- does what it documents.
  pub opamp_peer-IsVerified :
      c.opamp_tls.client_ca_file ≢ []
      → lookup (text "opamp") configs ≡ some o
      → (cert : List Url) × (rest : List (List Url)) × (certs ≡ cert ∷ rest)
        × IsVerified m h c.opamp_tls cert
  unfolding lookup str_eq
  opamp_peer-IsVerified given found =
      let (first, u, t, is, made, _, _) = tls_configs-parts m c started in
      let servable = (validate-accepted splits exists c valid).0.0 in
      let same : first ≡ o = ground (arith, rw is at found) in
      let checked =
        listener_tls_config-checks m c.opamp_tls require_and_verify_client_cert o servable given
          (rw same at made) in
      shown checked certs refl
    where
      shown :
          ChecksClients m c.opamp_tls require_and_verify_client_cert o
          → (l : List (List Url)) → certs ≡ l
          → (cert : List Url) × (rest : List (List Url)) × (certs ≡ cert ∷ rest)
            × IsVerified m h c.opamp_tls cert
      shown checked [] e =
          let (cfg, pool, is, read, cas, mode) = checked in
          absurd (doc.requires cfg certs mode (rw is at connected) e)
      shown checked (cert ∷ rest) e = (
        cert,
        rest,
        e,
        cert-IsVerified c.opamp_tls require_and_verify_client_cert cert rest checked (λ x. cc) e,
      )

  -- With an accepted configuration that has a client CA for the UI listener, a request that reaches
  -- the UI handler comes from a peer whose certificate verifies against that CA bundle, is
  -- identified by its one spiffe URI and has the role viewer or admin, if crypto/tls does what it
  -- documents.
  pub ui_request-IsVerified :
      c.ui_tls.client_ca_file ≢ []
      → lookup (text "ui") configs ≡ some o
      → ui true c.auth c.ui_tls.client_ca_file certs ≡ ui_handler
      → (cert : List Url) × (i : RequestIdentity) × IsVerified m h c.ui_tls cert
        × IsIdentified cert i.id
        × ((i.role ≡ text "viewer") ⊎ (i.role ≡ text "admin"))
  unfolding lookup str_eq
  ui_request-IsVerified given found reached =
      let (first, u, t, is, _, made, _) = tls_configs-parts m c started in
      let servable = (validate-accepted splits exists c valid).0.1 in
      let same : u ≡ o = ground (arith, rw is at found) in
      let checked =
        listener_tls_config-checks m c.ui_tls verify_client_cert_if_given o servable given
          (rw same at made) in
      let (i, admitted) = ui-guarded c.auth c.ui_tls.client_ca_file certs given reached in
      let ((cert, rest, e, who), role) =
        require_spiffe_role-admits c.auth certs i (validate-auth splits exists c valid) admitted in
      (
        cert,
        i,
        cert-IsVerified c.ui_tls verify_client_cert_if_given cert rest checked (λ x. cc) e,
        who,
        role,
      )
