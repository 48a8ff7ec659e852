-- ===== src/Spiffe/Tests.antt =====
-- Roles that internal/spiffe/spiffe.go gives from small rule lists.
use grex.Base.{◌≡◌, refl, [], ◌∷◌, text, str_eq, has_prefix}
use grex.Spiffe.{SpiffeId, RoleRule, string, is_exact, is_prefix, first_role, resolve_role}

abbrev alice : SpiffeId
alice = record { trust_domain = text "corp"; path = text "/user/alice" }

abbrev bob : SpiffeId
bob = record { trust_domain = text "corp"; path = text "/user/bob" }

abbrev users : RoleRule
users = record {
  match_kind = text "prefix";
  spiffe_id = text "spiffe://corp/user/";
  role = text "viewer";
}

abbrev admin : RoleRule
admin = record {
  match_kind = text "exact";
  spiffe_id = text "spiffe://corp/user/alice";
  role = text "admin";
}

-- The exact rule wins wherever it stands.
alice_test : resolve_role alice (users ∷ admin ∷ []) (text "none") ≡ text "admin"
unfolding resolve_role first_role is_exact is_prefix string str_eq has_prefix
alice_test = refl

bob_test : resolve_role bob (users ∷ admin ∷ []) (text "none") ≡ text "viewer"
unfolding resolve_role first_role is_exact is_prefix string str_eq has_prefix
bob_test = refl
