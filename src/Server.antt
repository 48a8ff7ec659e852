-- ===== src/Server.antt =====
-- internal/server/mtls.go: the authorization of a request by its client certificate.
pub mod Admitted
pub mod Routes
pub mod Lifecycle
pub mod Tls
mod Tests
use grex.Base.{Bool, true, false, ◌||◌, List, [], ◌∷◌, Str, text, str_eq, if◌then◌else◌}
use grex.Spiffe.{
  SpiffeId, Url, CertError, no_uri_san, multiple_uri_sans, wrong_scheme, malformed, FromCert, found,
  refused, from_cert, RoleRule, resolve_role,
}

pub record RequestIdentity : Type 0 where
  pub id : SpiffeId
  pub role : Str

-- A 403 with its reason, or the request passed on with its identity.
pub data Outcome : Type 0 where
  denied : Str → Outcome
  served : RequestIdentity → Outcome

unfoldable pub spiffe_deny_reason : CertError → Str
spiffe_deny_reason no_uri_san = text "no_uri_san"
spiffe_deny_reason multiple_uri_sans = text "multiple_uri_sans"
spiffe_deny_reason wrong_scheme = text "bad_scheme"
spiffe_deny_reason malformed = text "malformed"

abbrev pub serve_role : SpiffeId → Str → Outcome
serve_role id role =
    if str_eq role [] || str_eq role (text "none")
    then denied (text "no_role")
    else served (record { id = id; role = role })

abbrev pub serve_identified : List RoleRule → Str → FromCert → Outcome
serve_identified rules default_role (refused e) = denied (spiffe_deny_reason e)
serve_identified rules default_role (found id) = serve_role id (resolve_role id rules default_role)

-- The peer's certificates, each as the list of its URI SANs; a request without TLS has none.
unfoldable pub require_spiffe_role : List RoleRule → Str → List (List Url) → Outcome
require_spiffe_role rules default_role [] = denied (text "no_cert")
require_spiffe_role rules default_role (cert ∷ certs) =
    serve_identified rules default_role (from_cert cert)
