-- ===== src/Synth/Tls.antt =====
-- Config.tlsConfig of internal/synth/run.go. Certificates and pools are the text that the crypto and
-- file calls return for them.
use grex.Base.{
  ◌≡◌, refl, Bool, true, false, [], ◌∷◌, Option, none, some, Str, ◌⊎◌, inl, inr, arith,
  Option-cases, Bool-cases, if◌then◌else◌, ◌≢◌,
}
use grex.Server.Tls.{Material}
use grex.Synth.{Config}

pub record ClientTls : Type 0 where
  pub root_cas : Option Str
  pub certificate : Option Str

pub data TlsError : Type 0 where
  read_ca no_certificates load_client_cert : TlsError

-- `ok none` is a plaintext run.
pub data TlsResult : Type 0 where
  ok : Option ClientTls → TlsResult
  err : TlsError → TlsResult

abbrev pub with_key_pair : Option Str → ClientTls → TlsResult
with_key_pair none conf = err load_client_cert
with_key_pair (some cert) conf = ok (some (record conf { certificate = some cert }))

abbrev pub with_cert_file : Material → Str → Str → ClientTls → TlsResult
with_cert_file m [] key conf = ok (some conf)
with_cert_file m (c ∷ cert) key conf = with_key_pair (m.load_key_pair (c ∷ cert) key) conf

abbrev pub with_pool : Material → Config → Option Str → TlsResult
with_pool m c none = err no_certificates
with_pool m c (some pool) =
    with_cert_file m c.cert_file c.key_file (record { root_cas = some pool; certificate = none })

abbrev pub with_pem : Material → Config → Option Str → TlsResult
with_pem m c none = err read_ca
with_pem m c (some pem) = with_pool m c (m.append_certs pem)

abbrev pub is_plain : Str → Str → Bool
is_plain [] [] = true
is_plain (b ∷ bs) ca = false
is_plain [] (b ∷ bs) = false

abbrev pub with_ca_file : Material → Config → Str → TlsResult
with_ca_file m c [] =
    with_cert_file m c.cert_file c.key_file (record { root_cas = none; certificate = none })
with_ca_file m c (b ∷ ca) = with_pem m c (m.read_file (b ∷ ca))

unfoldable pub tls_config : Material → Config → TlsResult
tls_config m c = if is_plain c.cert_file c.ca_file then ok none else with_ca_file m c c.ca_file

-- The roots are those of the CA file, or the system's without one.
abbrev pub HasRoots : Material → Str → Option Str → Type 0
HasRoots m [] roots = roots ≡ none
HasRoots m (b ∷ ca) roots =
    (pem : Str) × (pool : Str) × (m.read_file (b ∷ ca) ≡ some pem)
    × (m.append_certs pem ≡ some pool)
    × (roots ≡ some pool)

-- The client shows the certificate of the pair, or none without one.
abbrev pub Shows : Material → Str → Str → Option Str → Type 0
Shows m [] key shown = shown ≡ none
Shows m (b ∷ cert) key shown =
    (loaded : Str) × (m.load_key_pair (b ∷ cert) key ≡ some loaded) × (shown ≡ some loaded)

with_cert_file-Shows :
    (m : Material) (cert key : Str) (base conf : ClientTls)
    → base.certificate ≡ none
    → with_cert_file m cert key base ≡ ok (some conf)
    → Shows m cert key conf.certificate × (conf.root_cas ≡ base.root_cas)
with_cert_file-Shows m [] key base conf bare h = (ground (arith, h), ground (arith, h))
with_cert_file-Shows m (b ∷ cert) key base conf bare h =
    elim (Option-cases (m.load_key_pair (b ∷ cert) key)) [
      | inl e ↦ absurd (ground (arith, rw e at h))
      | inr (loaded, e) ↦
          let is = rw e at h in ((loaded, e, ground (arith, is)), ground (arith, is))
    ]

with_ca_file-parts :
    (m : Material) (c : Config) (ca : Str) (conf : ClientTls)
    → with_ca_file m c ca ≡ ok (some conf)
    → HasRoots m ca conf.root_cas × Shows m c.cert_file c.key_file conf.certificate
with_ca_file-parts m c [] conf h =
    let (shows, roots) =
      with_cert_file-Shows m c.cert_file c.key_file (record { root_cas = none; certificate = none })
        conf refl h in
    (roots, shows)
with_ca_file-parts m c (b ∷ ca) conf h = elim (Option-cases (m.read_file (b ∷ ca))) [
  | inl e ↦ absurd (ground (arith, rw e at h))
  | inr (pem, e) ↦ elim (Option-cases (m.append_certs pem)) [
    | inl f ↦ absurd (ground (arith, rw f at (rw e at h)))
    | inr (pool, f) ↦
        let (shows, roots) =
          with_cert_file-Shows m c.cert_file c.key_file
            (record { root_cas = some pool; certificate = none }) conf refl (rw f at (rw e at h)) in
        ((pem, pool, e, f, roots), shows)
  ]
]

with_key_pair-ne : (o : Option Str) (base : ClientTls) → with_key_pair o base ≢ ok none
with_key_pair-ne none base h = ground (arith, h)
with_key_pair-ne (some cert) base h = ground (arith, h)

with_cert_file-ne :
    (m : Material) (cert key : Str) (base : ClientTls) → with_cert_file m cert key base ≢ ok none
with_cert_file-ne m [] key base h = ground (arith, h)
with_cert_file-ne m (b ∷ cert) key base h = with_key_pair-ne (m.load_key_pair (b ∷ cert) key) base h

with_pem-ne : (m : Material) (c : Config) (pem : Option Str) → with_pem m c pem ≢ ok none
with_pem-ne m c none h = ground (arith, h)
with_pem-ne m c (some pem) h = elim (Option-cases (m.append_certs pem)) [
  | inl f ↦ ground (arith, rw f at h)
  | inr (pool, f) ↦ with_cert_file-ne m c.cert_file c.key_file _ (rw f at h)
]

with_ca_file-ne : (m : Material) (c : Config) (ca : Str) → with_ca_file m c ca ≢ ok none
with_ca_file-ne m c [] h = with_cert_file-ne m c.cert_file c.key_file _ h
with_ca_file-ne m c (b ∷ ca) h = with_pem-ne m c (m.read_file (b ∷ ca)) h

is_plain-both : (cert ca : Str) → is_plain cert ca ≡ true → (cert ≡ []) × (ca ≡ [])
is_plain-both [] [] h = (refl, refl)
is_plain-both (b ∷ bs) ca h = absurd (cc)
is_plain-both [] (b ∷ bs) h = absurd (cc)

-- A run is in plaintext only without a CA file and a certificate; else the client trusts exactly the
-- certificates of the CA file, or the system's without one, and shows the certificate of its pair.
pub tls_config-parts :
    (m : Material) (c : Config) (o : Option ClientTls)
    → tls_config m c ≡ ok o
    → ((o ≡ none) × ((c.cert_file ≡ []) × (c.ca_file ≡ [])))
      ⊎ ((conf : ClientTls) × (o ≡ some conf)
          × HasRoots m c.ca_file conf.root_cas
          × Shows m c.cert_file c.key_file conf.certificate)
unfolding tls_config
tls_config-parts m c o h = elim (Bool-cases (is_plain c.cert_file c.ca_file)) [
  | inl plain ↦ inl (ground (arith, rw plain at h), is_plain-both c.cert_file c.ca_file plain)
  | inr secure ↦ inr (configured o (rw secure at h))
]
  where
    configured :
        (p : Option ClientTls)
        → with_ca_file m c c.ca_file ≡ ok p
        → (conf : ClientTls) × (p ≡ some conf)
          × HasRoots m c.ca_file conf.root_cas
          × Shows m c.cert_file c.key_file conf.certificate
    configured none e = absurd (with_ca_file-ne m c c.ca_file e)
    configured (some conf) e =
        let (roots, shows) = with_ca_file-parts m c c.ca_file conf e in (conf, refl, roots, shows)
