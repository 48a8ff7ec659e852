-- ===== src/Persistence/Permissions.antt =====
-- The role_mapping table of internal/persistence/permissions.go. Ids come from a sequence that starts
-- at 1, times from the database's clock; the rows stand in no order of note. The field `match_kind` is
-- `Match` of RoleMapping.
pub mod Laws
use Prim.Native.Nat.{compare}
use mathlib.Core.List.{append-nil, append_assoc}
use grex.Base.{
  ℕ, suc, ◌<◌, ◌≡◌, refl, sym, ap, ◌∙◌, true, false, List, [], ◌∷◌, ◌++◌, map, Option, none, some,
  Str, All, ◌==◌, if◌then◌else◌, arith, In, inl, inr, Bool-cases, ==_iff,
}
use grex.Base.Order.Sorting.{sort, place, All-sort}

-- The fields that a caller gives, with those that the database gives.
pub record RoleMapping : Type 0 where
  pub id : ℕ
  pub identity_kind : Str
  pub identity_value : Str
  pub match_kind : Str
  pub role : Str
  pub tenant_id : Str
  pub created_at : ℕ
  pub updated_at : ℕ

-- A row: tenant_id may be NULL.
pub record Row : Type 0 where
  pub mapping : RoleMapping
  pub tenant : Option Str

pub record Table : Type 0 where
  pub next_id : ℕ
  pub rows : List Row

abbrev pub empty_table : Table
empty_table = record { next_id = 1; rows = [] }

-- NULLIF($5, '')
abbrev pub null_if_empty : Str → Option Str
null_if_empty [] = none
null_if_empty (c ∷ cs) = some (c ∷ cs)

-- COALESCE(tenant_id, '')
abbrev pub or_empty : Option Str → Str
or_empty none = []
or_empty (some s) = s

-- scanRoleMapping
unfoldable pub scan_role_mapping : Row → RoleMapping
scan_role_mapping r = record r.mapping { tenant_id = or_empty r.tenant }

abbrev pub new_row : ℕ → ℕ → RoleMapping → Row
new_row id now m = record {
  mapping = record m { id = id; created_at = now; updated_at = now };
  tenant = null_if_empty m.tenant_id;
}

-- The INSERT with its RETURNING.
unfoldable pub create_role_mapping : ℕ → Table → RoleMapping → Table × RoleMapping
unfolding scan_role_mapping
create_role_mapping now t m =
    let row = new_row t.next_id now m in
    (record { next_id = suc t.next_id; rows = row ∷ t.rows }, scan_role_mapping row)

abbrev pub by_id : Row → Row → Prim.Native.Nat.Ordering
by_id a b = compare a.mapping.id b.mapping.id

-- WHERE id = $1
abbrev pub rows_with : ℕ → List Row → List Row
rows_with id [] = []
rows_with id (r ∷ rs) = let rest = rows_with id rs in if r.mapping.id == id then r ∷ rest else rest

-- queryRoleMappings, ORDER BY id.
unfoldable pub query_role_mappings : List Row → List RoleMapping
unfolding scan_role_mapping
query_role_mappings rows = map scan_role_mapping (sort by_id rows)

abbrev pub first_mapping : List RoleMapping → Option RoleMapping
first_mapping [] = none
first_mapping (m ∷ ms) = some m

unfoldable pub get_role_mapping : ℕ → Table → Option RoleMapping
unfolding query_role_mappings
get_role_mapping id t = first_mapping (query_role_mappings (rows_with id t.rows))

unfoldable pub list_role_mappings : Table → List RoleMapping
unfolding query_role_mappings
list_role_mappings t = query_role_mappings t.rows

-- Mappings created one after the other, each at its time, and what the calls returned.
unfoldable pub create_all : List (ℕ × RoleMapping) → Table → Table × List RoleMapping
create_all [] t = (t, [])
create_all ((now, m) ∷ ms) t =
    let first = create_role_mapping now t m in
    let rest = create_all ms (first.0) in (rest.0, first.1 ∷ rest.1)
