-- ===== src/Base/Maps.antt =====
-- Go maps with string keys, as association lists: a key is found at its first entry, a write
-- replaces that entry or adds one at the end, `delete` drops every entry of the key.
use mathlib.Core.Path.{◌≡◌, refl}
use mathlib.Core.Bool.{Bool, true, false}
use mathlib.Core.List.{List, [], ◌∷◌}
use mathlib.Core.Option.{Option, none, some}
use native.Mathlib.Omega.{arith}
use grex.Base.Tests.{if◌then◌else◌}
use grex.Base.Text.{Str, str_eq, str_eq_iff}

abbrev pub Assoc {ℓ} : Type ℓ → Type ℓ
Assoc V = List (Str × V)

module _ {ℓ} {V : Type ℓ} where
  unfoldable pub lookup : Str → Assoc V → Option V
  lookup k [] = none
  lookup k ((j, v) ∷ m) = if str_eq j k then some v else lookup k m

  unfoldable pub insert : Str → V → Assoc V → Assoc V
  insert k v [] = (k, v) ∷ []
  insert k v ((j, w) ∷ m) = if str_eq j k then (k, v) ∷ m else (j, w) ∷ insert k v m

  unfoldable pub delete : Str → Assoc V → Assoc V
  delete k [] = []
  delete k ((j, v) ∷ m) = let rest = delete k m in if str_eq j k then rest else (j, v) ∷ rest

  -- `_, ok := m[k]`
  unfoldable pub has : Str → Assoc V → Bool
  unfolding lookup
  has k m = elim (lookup k m) [ none ↦ false | some v ↦ true ]

  pub lookup-insert :
      (k j : Str) (v : V) (m : Assoc V)
      → lookup j (insert k v m) ≡ (if str_eq k j then some v else lookup j m)
  unfolding lookup insert
  lookup-insert k j v [] = refl
  lookup-insert k j v ((i, w) ∷ m) =
      ground (arith, str_eq_iff k j, str_eq_iff i k, str_eq_iff i j, lookup-insert k j v m)

  pub lookup-delete :
      (k j : Str) (m : Assoc V) → lookup j (delete k m) ≡ (if str_eq k j then none else lookup j m)
  unfolding lookup delete
  lookup-delete k j [] = ground arith
  lookup-delete k j ((i, w) ∷ m) =
      ground (arith, str_eq_iff k j, str_eq_iff i k, str_eq_iff i j, lookup-delete k j m)

  -- Each key has one entry.
  abbrev pub Absent : Str → Assoc V → Type 0
  Absent k [] = Unit
  Absent k ((j, v) ∷ m) = (str_eq j k ≡ false) × Absent k m

  abbrev pub Distinct : Assoc V → Type 0
  Distinct [] = Unit
  Distinct ((k, v) ∷ m) = Absent k m × Distinct m

  pub lookup-Absent : (k : Str) (m : Assoc V) → Absent k m → lookup k m ≡ none
  unfolding lookup
  lookup-Absent k [] h = refl
  lookup-Absent k ((j, v) ∷ m) h = rw h.0 (lookup-Absent k m h.1)

  insert-Absent :
      (k j : Str) (v : V) (m : Assoc V) → str_eq k j ≡ false → Absent j m → Absent j (insert k v m)
  unfolding insert
  insert-Absent k j v [] n h = (n, tt)
  insert-Absent k j v ((i, w) ∷ m) n h = ground (arith, insert-Absent k j v m n h.1)

  pub insert-Distinct : (k : Str) (v : V) (m : Assoc V) → Distinct m → Distinct (insert k v m)
  unfolding insert
  insert-Distinct k v [] d = (tt, tt)
  insert-Distinct k v ((j, w) ∷ m) d =
      ground
        (arith, str_eq_iff j k, str_eq_iff k j, insert-Absent k j v m, insert-Distinct k v m d.1)
