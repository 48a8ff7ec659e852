-- ===== src/Spiffe/Roles.antt =====
-- Which rule of internal/spiffe/spiffe.go gives the role.
use grex.Base.{
  ◌≡◌, refl, Bool, true, false, ◌&&◌, List, [], ◌∷◌, ◌++◌, Str, str_eq, leb, length, take, text,
  All, arith, leb, ◌↔◌, drop, take-append-drop, sym, ap, str_eq→eq, eq→str_eq, length-append, ◌∙◌,
  str_eq_refl,
}
use grex.Spiffe.{SpiffeId, RoleRule, string, is_exact, is_prefix, first_role, resolve_role}

first_role_here :
    (p : RoleRule → Bool) (before after : List RoleRule) (r : RoleRule) (d : Str)
    → All (λ s. p s ≡ false) before
    → p r ≡ true
    → first_role p (before ++ (r ∷ after)) d ≡ r.role
unfolding first_role
first_role_here p [] after r d none_before here = rw here refl
first_role_here p (s ∷ before) after r d none_before here =
    rw none_before.0 (first_role_here p before after r d none_before.1 here)

first_role_nowhere :
    (p : RoleRule → Bool) (rules : List RoleRule) (d : Str)
    → All (λ s. p s ≡ false) rules
    → first_role p rules d ≡ d
unfolding first_role
first_role_nowhere p [] d h = refl
first_role_nowhere p (s ∷ rules) d h = rw h.0 (first_role_nowhere p rules d h.1)

-- The first exact rule for the id gives the role, whatever prefix rules stand before it.
pub resolve_role_exact :
    (id : SpiffeId) (before after : List RoleRule) (r : RoleRule) (default_role : Str)
    → All (λ s. is_exact (string id) s ≡ false) before
    → is_exact (string id) r ≡ true
    → resolve_role id (before ++ (r ∷ after)) default_role ≡ r.role
unfolding resolve_role
resolve_role_exact id before after r d none_before here =
    first_role_here (is_exact (string id)) before after r _ none_before here

-- If no rule matches the id exactly, the first prefix rule for it gives the role.
pub resolve_role_prefix :
    (id : SpiffeId) (before after : List RoleRule) (r : RoleRule) (default_role : Str)
    → All (λ s. is_exact (string id) s ≡ false) (before ++ (r ∷ after))
    → All (λ s. is_prefix (string id) s ≡ false) before
    → is_prefix (string id) r ≡ true
    → resolve_role id (before ++ (r ∷ after)) default_role ≡ r.role
unfolding resolve_role
resolve_role_prefix id before after r d no_exact none_before here =
    first_role_nowhere (is_exact (string id)) (before ++ (r ∷ after)) _ no_exact
    ∙ first_role_here (is_prefix (string id)) before after r d none_before here

take-length-append : (p rest : Str) → take (length p) (p ++ rest) ≡ p
take-length-append [] rest = refl
take-length-append (x ∷ p) rest = ap (λ q. x ∷ q) (take-length-append p rest)

-- A prefix rule passes exactly when the id is the rule's text followed by anything.
pub is_prefix_iff :
    (full : Str) (r : RoleRule)
    → r.match_kind ≡ text "prefix"
    → (is_prefix full r ≡ true) ↔ ((rest : Str) × (full ≡ r.spiffe_id ++ rest))
unfolding is_prefix
is_prefix_iff full r kind = (forward, λ h. backward h.0 h.1)
  where
    forward :
        (str_eq r.match_kind (text "prefix")
            && leb (length r.spiffe_id) (length full)
            && str_eq (take (length r.spiffe_id) full) r.spiffe_id)
          ≡ true
        → (rest : Str) × (full ≡ r.spiffe_id ++ rest)
    forward h =
        let same = str_eq→eq (take (length r.spiffe_id) full) r.spiffe_id (ground arith) in
        (
          drop (length r.spiffe_id) full,
          sym (take-append-drop (length r.spiffe_id) full)
              ∙ ap (λ q. q ++ drop (length r.spiffe_id) full) same,
        )

    backward :
        (rest : Str)
        → full ≡ r.spiffe_id ++ rest
        → (str_eq r.match_kind (text "prefix")
            && leb (length r.spiffe_id) (length full)
            && str_eq (take (length r.spiffe_id) full) r.spiffe_id)
          ≡ true
    backward rest e =
        rw
          (
            e,
            take-length-append r.spiffe_id rest,
            str_eq_refl r.spiffe_id,
            eq→str_eq r.match_kind (text "prefix") kind,
            length-append r.spiffe_id rest,
          )
          (ground arith)
