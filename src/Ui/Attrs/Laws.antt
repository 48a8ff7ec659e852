-- ===== src/Ui/Attrs/Laws.antt =====
-- attrPairs of internal/ui/ui.go: its sort by exchanges against sorting.
use mathlib.Core.List.{Permᴰ, reverse, reverse_aux, reverse-reverse}
use mathlib.Core.List.Permᴰ
use grex.Base.{
  ◌≡◌, refl, sym, ap, ◌∙◌, List, [], ◌∷◌, Str, Assoc, lookup, All, map, arith, Distinct, Absent,
  str_eq_iff, str_eq_refl,
}
use grex.Base.Order.{str_compare, str_compare-IsOrder, str_compare-eq, reversed, by}
use grex.Base.Order.Sorting.{sort, place, NoTies, Differ, NoTies-Perm, sort-Perm_eq, All-sort}
use grex.Base.Order.Reversal.{sort-reversed}
use grex.Ui.Attrs.{sink, sink_all, sort_keys, pair_of, attr_pairs}

-- One round of exchanges is one insertion, from the back.
sink-place : (k : Str) (front : List Str) → sink k front ≡ place (reversed str_compare) k front
sink-place k [] = refl
sink-place k (j ∷ front) =
    let o = str_compare-IsOrder in ground (arith, sink-place k front, o.flips k j)

sink_all-sort :
    (ks l : List Str)
    → sink_all ks (sort (reversed str_compare) l) ≡ sort (reversed str_compare) (reverse_aux ks l)
sink_all-sort [] l = refl
sink_all-sort (k ∷ ks) l =
    ap (sink_all ks) (sink-place k (sort (reversed str_compare) l)) ∙ sink_all-sort ks (k ∷ l)

-- The exchanges sort keys that are distinct.
sort_keys-sort : (ks : List Str) → NoTies str_compare ks → sort_keys ks ≡ sort str_compare ks
unfolding sort_keys
sort_keys-sort ks d =
    let o = str_compare-IsOrder in
    let turned : Permᴰ ks (reverse ks) = Permᴰ.symm (Permᴰ.reverse ks) in
    ap reverse (
      sink_all-sort ks []
      ∙ sort-reversed str_compare o (reverse ks) (NoTies-Perm str_compare o turned d)
      ∙ ap reverse (sym (sort-Perm_eq str_compare o turned d)))
    ∙ reverse-reverse (sort str_compare ks)

abbrev pub Entry : Type 0
Entry = Str × Str

abbrev pub key_of : Entry → Str
key_of kv = kv.0

place-map :
    (kv : Entry) (m : Assoc Str)
    → place str_compare (key_of kv) (map key_of m) ≡ map key_of (place (by key_of str_compare) kv m)
place-map kv [] = refl
place-map kv (jw ∷ m) = ground (arith, place-map kv m)

sort-map :
    (m : Assoc Str) → sort str_compare (map key_of m) ≡ map key_of (sort (by key_of str_compare) m)
sort-map [] = refl
sort-map (kv ∷ m) =
    ap (place str_compare (key_of kv)) (sort-map m) ∙ place-map kv (sort (by key_of str_compare) m)

Absent-Differ : (k : Str) (m : Assoc Str) → Absent k m → All (Differ str_compare k) (map key_of m)
Absent-Differ k [] h = _
Absent-Differ k ((j, v) ∷ m) h =
    ((λ e. ground (arith, h.0, str_eq_iff j k, str_compare-eq k j e)), Absent-Differ k m h.1)

Distinct-NoTies : (m : Assoc Str) → Distinct m → NoTies str_compare (map key_of m)
Distinct-NoTies [] d = _
Distinct-NoTies ((k, v) ∷ m) d = (Absent-Differ k m d.0, Distinct-NoTies m d.1)

-- What pair_of gives for the key of an entry.
abbrev Reads : Assoc Str → Entry → Type 0
Reads m kv = pair_of m (key_of kv) ≡ kv

Reads-cons :
    (k v : Str) (m l : Assoc Str) → Absent k l → All (Reads m) l → All (Reads ((k, v) ∷ m)) l
unfolding lookup
Reads-cons k v m [] a h = _
Reads-cons k v m ((j, w) ∷ l) a h =
    (ground (arith, a.0, h.0, str_eq_iff k j, str_eq_iff j k), Reads-cons k v m l a.1 h.1)

Distinct-Reads : (m : Assoc Str) → Distinct m → All (Reads m) m
unfolding lookup
Distinct-Reads [] d = _
Distinct-Reads ((k, v) ∷ m) d =
    (rw (str_eq_refl k) refl, Reads-cons k v m m d.0 (Distinct-Reads m d.1))

map-Reads : (m l : Assoc Str) → All (Reads m) l → map (pair_of m) (map key_of l) ≡ l
map-Reads m [] h = refl
map-Reads m (kv ∷ l) h = λ i. h.0 i ∷ map-Reads m l h.1 i

-- Of a map with one entry for each key, the table holds the entries, sorted by their keys.
pub attr_pairs-sort : (m : Assoc Str) → Distinct m → attr_pairs m ≡ sort (by key_of str_compare) m
unfolding attr_pairs
attr_pairs-sort m d =
    let sorted = sort (by key_of str_compare) m in
    ap (map (pair_of m)) (sort_keys-sort (map key_of m) (Distinct-NoTies m d) ∙ sort-map m)
    ∙ map-Reads m sorted (All-sort (by key_of str_compare) (Reads m) m (Distinct-Reads m d))
