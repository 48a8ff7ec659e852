-- ===== src/Server/Admitted.antt =====
-- Which requests pass the authorization of internal/server/mtls.go.
use grex.Base.{◌≡◌, refl, true, List, [], ◌∷◌, none, Str, text, str_eq_iff, elem, ◌⊎◌, arith}
use grex.Spiffe.{SpiffeId, Url, FromCert, found, refused, from_cert}
use grex.Config.{Auth, valid_roles, validate_auth}
use grex.Config.Accepted.{resolve_role-valid}
use grex.Server.{RequestIdentity, served, serve_role, serve_identified, require_spiffe_role}

-- A certificate with exactly one URI SAN, which is the identity.
abbrev pub IsIdentified : List Url → SpiffeId → Type 0
IsIdentified cert id =
    (u : Url) × (cert ≡ u ∷ [])
    × (u.scheme ≡ text "spiffe")
    × (u.host ≡ id.trust_domain)
    × (u.path ≡ id.path)

from_cert-IsIdentified :
    (cert : List Url) (id : SpiffeId) → from_cert cert ≡ found id → IsIdentified cert id
unfolding from_cert
from_cert-IsIdentified [] id h = absurd cc
from_cert-IsIdentified (u ∷ v ∷ us) id h = absurd cc
from_cert-IsIdentified (u ∷ []) id h = ground (arith, str_eq_iff u.scheme (text "spiffe"))

role_served :
    (id : SpiffeId) (role : Str) (i : RequestIdentity)
    → elem role valid_roles ≡ true
    → serve_role id role ≡ served i
    → (i.id ≡ id) × ((i.role ≡ text "viewer") ⊎ (i.role ≡ text "admin"))
role_served id role i valid h = ground (
  arith,
  str_eq_iff (text "viewer") role,
  str_eq_iff (text "admin") role,
  str_eq_iff (text "none") role,
  str_eq_iff role (text "none"),
)

-- With an accepted role configuration, a request is passed on only if the peer's first certificate
-- has exactly one URI SAN, a spiffe URI that is the identity attached to the request, and only
-- with the role viewer or admin.
pub require_spiffe_role-admits :
    (auth : Auth) (certs : List (List Url)) (i : RequestIdentity)
    → validate_auth auth ≡ none
    → require_spiffe_role auth.role_mapping auth.default_role certs ≡ served i
    → ((cert : List Url) × (rest : List (List Url)) × (certs ≡ cert ∷ rest)
        × IsIdentified cert i.id)
      × ((i.role ≡ text "viewer") ⊎ (i.role ≡ text "admin"))
unfolding require_spiffe_role
require_spiffe_role-admits auth [] i ok h = absurd cc
require_spiffe_role-admits auth (cert ∷ rest) i ok h = identified (from_cert cert) refl h
  where
    identified :
        (f : FromCert)
        → from_cert cert ≡ f
        → serve_identified auth.role_mapping auth.default_role f ≡ served i
        → ((c : List Url) × (r : List (List Url)) × (cert ∷ rest ≡ c ∷ r) × IsIdentified c i.id)
          × ((i.role ≡ text "viewer") ⊎ (i.role ≡ text "admin"))
    identified (refused e) from g = absurd cc
    identified (found id) from g =
        let (same, role) = role_served id _ i (resolve_role-valid auth id ok) g in
        ((cert, rest, refl, rw same (from_cert-IsIdentified cert id from)), role)
