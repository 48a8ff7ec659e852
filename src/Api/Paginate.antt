-- ===== src/Api/Paginate.antt =====
-- internal/api/paginate.go: a page of the agents in the order of their ids, taken by way of a
-- bounded max-heap. The heap of the standard library's container/heap is a parameter: its Push and
-- Fix with what its documentation says of them, and nothing on the order below the root.
pub mod Kept
pub mod Laws
pub mod Tests
use Prim.Native.Nat.{Ordering}
use mathlib.Core.List.{Permᴰ}
use grex.Base.{
  ℕ, ◌≡◌, Bool, true, false, List, [], ◌∷◌, Str, if◌then◌else◌, ltb, leb, ◌==◌, length, take, drop,
  ◌-◌, All,
}
use grex.Base.Order.{str_compare, by}
use grex.Base.Order.Sorting.{sort, is_gt}
use grex.Fleet.Types.{Agent}

abbrev pub uid_of : Agent → Str
uid_of a = a.instance_uid

-- The comparison of sortByInstanceUID, whose result is -1, 0 or 1.
abbrev pub compare_uid : Agent → Agent → Ordering
compare_uid = by uid_of str_compare

-- a is strictly before b: Less of the heap, with its arguments turned round.
abbrev pub uid_before : Agent → Agent → Bool
uid_before a b = elim (compare_uid a b) [ Ordering.lt ↦ true | _ ↦ false ]

abbrev pub sort_by_uid : List Agent → List Agent
sort_by_uid agents = sort compare_uid agents

abbrev pub slice {ℓ} : {A : Type ℓ} → List A → ℕ → ℕ → List A
slice xs start stop = take (stop - start) (drop start xs)

-- h[0] is at least every other element.
abbrev pub RootIsMax : List Agent → Type 0
RootIsMax [] = Unit
RootIsMax (root ∷ rest) = All (λ a. is_gt (compare_uid a root) ≡ false) rest

pub record HeapOps : Type 1 where
  -- heap.Push(&h, a), and heap.Fix(&h, 0) after a write to h[0].
  pub push : Agent → List Agent → List Agent
  pub fix : List Agent → List Agent
  pub IsHeap : List Agent → Type 0
  pub empty-IsHeap : IsHeap []
  pub push-IsHeap : (a : Agent) (h : List Agent) → IsHeap h → IsHeap (push a h)
  pub push-Perm : (a : Agent) (h : List Agent) → Permᴰ (a ∷ h) (push a h)
  pub fix-IsHeap :
      (a root : Agent) (rest : List Agent) → IsHeap (root ∷ rest) → IsHeap (fix (a ∷ rest))
  pub fix-Perm : (h : List Agent) → Permᴰ h (fix h)
  pub root-IsMax : (h : List Agent) → IsHeap h → RootIsMax h

module _ (ops : HeapOps) where
  -- if a.InstanceUID < h[0].InstanceUID: h[0] = a, and the heap is mended.
  abbrev pub replace_root : Agent → List Agent → List Agent
  replace_root a [] = []
  replace_root a (root ∷ rest) = if uid_before a root then ops.fix (a ∷ rest) else (root ∷ rest)

  abbrev pub offer : ℕ → Agent → List Agent → List Agent
  offer stop a h = if ltb (length h) stop then ops.push a h else replace_root a h

  -- The loop over the agents.
  abbrev pub keep_smallest : ℕ → List Agent → List Agent → List Agent
  keep_smallest stop [] h = h
  keep_smallest stop (a ∷ agents) h = keep_smallest stop agents (offer stop a h)

  unfoldable pub page_by_uid : List Agent → ℕ → ℕ → List Agent
  page_by_uid agents start stop =
      if stop == 0
      then []
      else (if leb (length agents) stop
          then slice (sort_by_uid agents) start stop
          else slice (sort_by_uid (keep_smallest stop agents [])) start stop)
