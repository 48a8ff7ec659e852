-- ===== src/Ui/Attrs.antt =====
-- The attribute tables of internal/ui/ui.go: attrPairs, attrChips, and dict, which gives templates a
-- map.
pub mod Laws
use mathlib.Core.List.{reverse}
use Prim.Native.Nat.{Ordering}
use grex.Base.{
  ℕ, zero, suc, Bool, true, false, not, ◌&&◌, List, [], ◌∷◌, ◌++◌, Option, none, some, Str, Assoc,
  lookup, insert, map, trim_space, if◌then◌else◌,
}
use grex.Base.Order.{str_compare}
use grex.Base.Order.Sorting.{is_gt}
use grex.Fleet.View.{AgentView, is_empty, or_empty}

-- The inner loop: a key moves towards the front past the greater ones. What is in front of it is
-- written backwards.
abbrev pub sink : Str → List Str → List Str
sink k [] = k ∷ []
sink k (j ∷ front) =
    let rest = sink k front in if is_gt (str_compare j k) then j ∷ rest else k ∷ j ∷ front

abbrev pub sink_all : List Str → List Str → List Str
sink_all [] front = front
sink_all (k ∷ ks) front = sink_all ks (sink k front)

unfoldable pub sort_keys : List Str → List Str
sort_keys ks = reverse (sink_all ks [])

abbrev pub pair_of : Assoc Str → Str → Str × Str
pair_of m k = (k, or_empty (lookup k m))

unfoldable pub attr_pairs : Assoc Str → List (Str × Str)
attr_pairs m = map (pair_of m) (sort_keys (map (λ kv. kv.0) m))

abbrev pub nonblank : List (Str × Str) → List (Str × Str)
nonblank [] = []
nonblank ((k, v) ∷ ps) =
    let rest = nonblank ps in if is_empty (trim_space v) then rest else (k, v) ∷ rest

unfoldable pub attr_chips : AgentView → List (Str × Str)
attr_chips a = nonblank (attr_pairs a.identifying) ++ nonblank (attr_pairs a.non_identifying)

-- A template's value, with what is a text told apart.
pub data Value {ℓ} (A : Type ℓ) : Type ℓ where
  str : Str → Value A
  other : A → Value A

pub data DictResult {ℓ} (A : Type ℓ) : Type ℓ where
  dict_of : Assoc (Value A) → DictResult A
  odd_args no_string_key : DictResult A

module _ {ℓ} {A : Type ℓ} where
  abbrev pub fill : Assoc (Value A) → List (Value A) → DictResult A
  fill m [] = dict_of m
  fill m (v ∷ []) = dict_of m
  fill m (str k ∷ v ∷ rest) = fill (insert k v m) rest
  fill m (other a ∷ v ∷ rest) = no_string_key

  abbrev pub is_odd : List (Value A) → Bool
  is_odd [] = false
  is_odd (v ∷ vs) = not (is_odd vs)

  unfoldable pub dict : List (Value A) → DictResult A
  dict pairs = if is_odd pairs then odd_args else fill [] pairs
