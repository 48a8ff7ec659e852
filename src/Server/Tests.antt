-- ===== src/Server/Tests.antt =====
-- A request to internal/server/mtls.go that is passed on.
use grex.Base.{true, false}
use grex.Server.{served}
use grex.Server.Routes.{telemetry, wrap, server_metrics, telemetry-guarded}
use grex.Base.{◌≡◌, refl, List, [], ◌∷◌, text, str_eq, ◌⊎◌}
use grex.Spiffe.{Url, from_cert, resolve_role, first_role, is_exact, string}
use grex.Config.{Auth, validate_auth, validate_rules, validate_rule}
use grex.Server.{RequestIdentity, require_spiffe_role}
use grex.Server.Admitted.{IsIdentified, require_spiffe_role-admits}

abbrev auth : Auth
auth = record {
  role_mapping =
      record { match_kind = text "exact"; spiffe_id = text "spiffe://corp/a"; role = text "admin" }
      ∷ [];
  default_role = text "none";
}

abbrev cert : List Url
cert = record { scheme = text "spiffe"; host = text "corp"; path = text "/a" } ∷ []

abbrev caller : RequestIdentity
caller = record {
  id = record { trust_domain = text "corp"; path = text "/a" };
  role = text "admin";
}

require_spiffe_role-admits_example :
    ((c : List Url) × (rest : List (List Url)) × (cert ∷ [] ≡ c ∷ rest) × IsIdentified c caller.id)
    × ((text "admin" ≡ text "viewer") ⊎ (text "admin" ≡ text "admin"))
unfolding validate_auth validate_rules validate_rule require_spiffe_role from_cert resolve_role
    first_role is_exact string str_eq
require_spiffe_role-admits_example = require_spiffe_role-admits auth (cert ∷ []) caller refl refl

telemetry-guarded_example :
    (i : RequestIdentity) × (require_spiffe_role auth.role_mapping auth.default_role (cert ∷ [])
      ≡ served i)
unfolding telemetry wrap require_spiffe_role from_cert resolve_role first_role is_exact string
    str_eq
telemetry-guarded_example =
    telemetry-guarded true false auth (text "ca.pem") (cert ∷ []) (text "/metrics") server_metrics
      (λ e. absurd cc) refl
