-- ===== src/Spiffe.antt =====
-- internal/spiffe/spiffe.go: the identity of a client certificate and its role.
pub mod Roles
mod Tests
use grex.Base.{
  Bool, true, false, ◌&&◌, ◌||◌, List, [], ◌∷◌, ◌++◌, Str, text, str_eq, has_prefix, ltb, length,
  leb, take, if◌then◌else◌,
}

pub record SpiffeId : Type 0 where
  pub trust_domain : Str
  pub path : Str

unfoldable pub string : SpiffeId → Str
string id = text "spiffe://" ++ id.trust_domain ++ id.path

-- A parsed URI of the certificate: url.URL's fields that the code reads.
pub record Url : Type 0 where
  pub scheme : Str
  pub host : Str
  pub path : Str

pub data CertError : Type 0 where
  no_uri_san multiple_uri_sans wrong_scheme malformed : CertError

pub data FromCert : Type 0 where
  found : SpiffeId → FromCert
  refused : CertError → FromCert

-- The certificate is the list of its URI SANs.
unfoldable pub from_cert : List Url → FromCert
from_cert [] = refused no_uri_san
from_cert (u ∷ v ∷ us) = refused multiple_uri_sans
from_cert (u ∷ []) =
    if str_eq u.scheme (text "spiffe")
    then if str_eq u.host [] || str_eq u.path []
      then refused malformed
      else found (record { trust_domain = u.host; path = u.path })
    else refused wrong_scheme

pub record RoleRule : Type 0 where
  pub match_kind : Str
  pub spiffe_id : Str
  pub role : Str

unfoldable pub is_exact : Str → RoleRule → Bool
is_exact full r = str_eq r.match_kind (text "exact") && str_eq r.spiffe_id full

-- The slice full[:len(prefix)] is taken only if it is in bounds.
unfoldable pub is_prefix : Str → RoleRule → Bool
is_prefix full r =
    str_eq r.match_kind (text "prefix")
    && leb (length r.spiffe_id) (length full)
    && str_eq (take (length r.spiffe_id) full) r.spiffe_id

-- One of the two loops: the role of the first rule that passes, or what comes after the loop.
unfoldable pub first_role : (RoleRule → Bool) → List RoleRule → Str → Str
first_role p [] after = after
first_role p (r ∷ rs) after = let rest = first_role p rs after in if p r then r.role else rest

unfoldable pub resolve_role : SpiffeId → List RoleRule → Str → Str
resolve_role id rules default_role =
    let full = string id in
    first_role (is_exact full) rules (first_role (is_prefix full) rules default_role)
