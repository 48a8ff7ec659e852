-- ===== src/Persistence/Write.antt =====
-- internal/persistence/write.go: splitting a write into batches.
use mathlib.Core.List.{flatten}
use grex.Base.{
  ℕ, zero, suc, ◌≤◌, ◌<◌, ◌≡◌, refl, ap, ◌∙◌, List, [], ◌∷◌, ◌++◌, Str, length, take, drop,
  take-append-drop, arith, ◌==◌, if◌then◌else◌, All,
}

abbrev pub default_batch_size : ℕ
default_batch_size = 500

-- The loop `for i := 0; i < len(ids); i += size`, on fuel.
pub chunk_loop : ℕ → ℕ → List Str → List (List Str)
chunk_loop zero size ids = []
chunk_loop (suc fuel) size [] = []
chunk_loop (suc fuel) size (id ∷ ids) =
    take size (id ∷ ids) ∷ chunk_loop fuel size (drop size (id ∷ ids))

unfoldable pub chunk : List Str → ℕ → List (List Str)
unfolding chunk_loop
chunk ids size = chunk_loop (length ids) (if size == 0 then 1 else size) ids

length-drop_suc : (n : ℕ) (ids : List Str) → length (drop n ids) ≤ length ids
length-drop_suc zero ids = omega arith
length-drop_suc (suc n) [] = omega arith
length-drop_suc (suc n) (x ∷ ids) = omega (arith, length-drop_suc n ids)

length-take_le : (n : ℕ) (ids : List Str) → length (take n ids) ≤ n
length-take_le zero ids = omega arith
length-take_le (suc n) [] = omega arith
length-take_le (suc n) (x ∷ ids) = omega (arith, length-take_le n ids)

-- A batch has at least one id and at most `size`.
abbrev pub IsBatch : ℕ → List Str → Type 0
IsBatch size ids = (0 < length ids) × (length ids ≤ size)

chunk_loop-splits :
    (fuel n : ℕ) (ids : List Str)
    → length ids ≤ fuel
    → (flatten (chunk_loop fuel (suc n) ids) ≡ ids)
      × All (IsBatch (suc n)) (chunk_loop fuel (suc n) ids)
unfolding chunk_loop flatten
chunk_loop-splits zero n [] h = (refl, tt)
chunk_loop-splits zero n (x ∷ ids) h = absurd (omega arith)
chunk_loop-splits (suc fuel) n [] h = (refl, tt)
chunk_loop-splits (suc fuel) n (x ∷ ids) h =
    let ih = chunk_loop-splits fuel n (drop n ids) (omega (arith, length-drop_suc n ids)) in
    (
      ap (λ (r : List Str). x ∷ (take n ids ++ r)) ih.0
          ∙ ap (λ (r : List Str). x ∷ r) (take-append-drop n ids),
      ((omega arith, omega (arith, length-take_le n ids)), ih.1),
    )

size-cases : (size : ℕ) → (n : ℕ) × ((if size == 0 then 1 else size) ≡ suc n)
size-cases zero = (0, refl)
size-cases (suc n) = (n, ground arith)

-- The batches hold the ids in order, none is empty, and none is larger than the size (1 for a size
-- of 0).
pub chunk-splits :
    (ids : List Str) (size : ℕ)
    → (flatten (chunk ids size) ≡ ids)
      × All (IsBatch (if size == 0 then 1 else size)) (chunk ids size)
unfolding chunk
chunk-splits ids size =
    let (n, e) = size-cases size in rw e (chunk_loop-splits (length ids) n ids (omega arith))
