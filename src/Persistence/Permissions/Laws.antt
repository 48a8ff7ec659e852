-- ===== src/Persistence/Permissions/Laws.antt =====
-- Mappings that internal/persistence/permissions.go creates, lists and reads.
use mathlib.Core.List.{append-nil, append_assoc}
use grex.Base.{
  ℕ, suc, ◌<◌, ◌≡◌, refl, sym, ap, ◌∙◌, true, false, List, [], ◌∷◌, ◌++◌, map, some, All, ◌==◌,
  if◌then◌else◌, arith, In, inl, inr, Bool-cases, ==_iff,
}
use grex.Base.Order.Sorting.{sort, place, All-sort}
use grex.Persistence.Permissions.{
  RoleMapping, Row, Table, empty_table, scan_role_mapping, new_row, create_role_mapping, by_id,
  rows_with, query_role_mappings, get_role_mapping, list_role_mappings, create_all,
}

-- Every row has an id that was given out.
abbrev IsGiven : Table → Type 0
IsGiven t = All (λ (r : Row). r.mapping.id < t.next_id) t.rows

==_refl : (n : ℕ) → (n == n) ≡ true
==_refl n = ground arith

-- A row with an id above all others is listed last.
place-Above :
    (r : Row) (l : List Row)
    → All (λ (x : Row). x.mapping.id < r.mapping.id) l
    → place by_id r l ≡ l ++ (r ∷ [])
place-Above r [] h = refl
place-Above r (x ∷ xs) h = ground (arith, place-Above r xs h.1)

map-append :
    (xs ys : List Row)
    → map scan_role_mapping (xs ++ ys) ≡ map scan_role_mapping xs ++ map scan_role_mapping ys
map-append [] ys = refl
map-append (x ∷ xs) ys = λ i. scan_role_mapping x ∷ map-append xs ys i

query-create :
    (now : ℕ) (t : Table) (m : RoleMapping)
    → IsGiven t
    → list_role_mappings (create_role_mapping now t m).0
      ≡ list_role_mappings t ++ ((create_role_mapping now t m).1 ∷ [])
unfolding list_role_mappings query_role_mappings create_role_mapping
query-create now t m given =
    ap (map scan_role_mapping) (
      place-Above (new_row t.next_id now m) (sort by_id t.rows)
        (All-sort by_id (λ (r : Row). r.mapping.id < t.next_id) t.rows given))
    ∙ map-append (sort by_id t.rows) (new_row t.next_id now m ∷ [])

create-IsGiven :
    (now : ℕ) (t : Table) (m : RoleMapping) → IsGiven t → IsGiven (create_role_mapping now t m).0
unfolding create_role_mapping
create-IsGiven now t m given = (omega arith, raise t.rows given)
  where
    raise :
        (l : List Row)
        → All (λ (r : Row). r.mapping.id < t.next_id) l
        → All (λ (r : Row). r.mapping.id < suc t.next_id) l
    raise [] h = tt
    raise (x ∷ xs) h = (omega (arith, h.0), raise xs h.1)

list-create_all :
    (ms : List (ℕ × RoleMapping)) (t : Table)
    → IsGiven t
    → list_role_mappings (create_all ms t).0 ≡ list_role_mappings t ++ (create_all ms t).1
unfolding create_all
list-create_all [] t given = sym (append-nil (list_role_mappings t))
list-create_all ((now, m) ∷ ms) t given =
    let u = (create_role_mapping now t m).0 in
    list-create_all ms u (create-IsGiven now t m given)
    ∙ ap (λ (l : List RoleMapping). l ++ (create_all ms u).1) (query-create now t m given)
    ∙ append_assoc (list_role_mappings t) ((create_role_mapping now t m).1 ∷ []) (create_all ms u).1

rows_with-none :
    (id : ℕ) (l : List Row) → All (λ (r : Row). r.mapping.id < id) l → rows_with id l ≡ []
rows_with-none id [] h = refl
rows_with-none id (r ∷ rs) h = ground (arith, rows_with-none id rs h.1)

get-create :
    (now j : ℕ) (t : Table) (m : RoleMapping)
    → IsGiven t
    → get_role_mapping j (create_role_mapping now t m).0
      ≡ (if t.next_id == j then some (create_role_mapping now t m).1 else get_role_mapping j t)
unfolding get_role_mapping create_role_mapping query_role_mappings
get-create now j t m given = elim (Bool-cases (t.next_id == j)) [
  | inr other ↦ rw other refl
  | inl same ↦ rw same (
      rw
        (rows_with-none j t.rows
          (let at : t.next_id ≡ j = (==_iff t.next_id j).0 same in rw at at given))
        refl)
]

get-create_all_before :
    (ms : List (ℕ × RoleMapping)) (j : ℕ) (t : Table)
    → IsGiven t
    → j < t.next_id
    → get_role_mapping j (create_all ms t).0 ≡ get_role_mapping j t
unfolding create_all
get-create_all_before [] j t given old = refl
get-create_all_before ((now, m) ∷ ms) j t given old =
    get-create_all_before ms j (create_role_mapping now t m).0 (create-IsGiven now t m given)
      (unfold create_role_mapping in omega arith)
    ∙ get-create now j t m given
    ∙ rw (older (t.next_id) j old) refl
  where
    older : (n k : ℕ) → k < n → (n == k) ≡ false
    older n k h = ground arith

get-create_all :
    (ms : List (ℕ × RoleMapping)) (t : Table) (c : RoleMapping)
    → IsGiven t
    → In c (create_all ms t).1
    → get_role_mapping c.id (create_all ms t).0 ≡ some c
unfolding create_all
get-create_all [] t c given h = absurd h
get-create_all ((now, m) ∷ ms) t c given (inl is) =
    let u = (create_role_mapping now t m).0 in
    let made = (create_role_mapping now t m).1 in
    let at : c.id ≡ t.next_id =
      ap (λ (r : RoleMapping). r.id) is ∙ (unfold create_role_mapping scan_role_mapping in refl) in
    ap (λ (n : ℕ). get_role_mapping n (create_all ms u).0) at
    ∙ get-create_all_before ms t.next_id u (create-IsGiven now t m given)
        (unfold create_role_mapping in omega arith)
    ∙ get-create now t.next_id t m given
    ∙ rw (==_refl t.next_id) (ap some (sym is))
get-create_all ((now, m) ∷ ms) t c given (inr h) =
    get-create_all ms (create_role_mapping now t m).0 c (create-IsGiven now t m given) h

-- Mappings created one after the other in an empty table are listed in the order of their creation,
-- each as its call returned it, and each of them is read back by the id that it was given.
pub created-read :
    (ms : List (ℕ × RoleMapping)) (c : RoleMapping)
    → In c (create_all ms empty_table).1
    → (list_role_mappings (create_all ms empty_table).0 ≡ (create_all ms empty_table).1)
      × (get_role_mapping c.id (create_all ms empty_table).0 ≡ some c)
created-read ms c h = (
  list-create_all ms empty_table tt ∙ (unfold list_role_mappings query_role_mappings in refl),
  get-create_all ms empty_table c tt h,
)
