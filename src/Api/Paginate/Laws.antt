-- ===== src/Api/Paginate/Laws.antt =====
-- pageByInstanceUID (internal/api/paginate.go) against the full sort.
use mathlib.Core.List.Permᴰ
use grex.Base.{
  ℕ, zero, suc, ◌≡◌, refl, ◌∙◌, sym, List, [], ◌∷◌, ◌++◌, leb, ◌==◌, length, length-append, take,
  drop, ◌-◌, ◌+◌, ◌≤◌, ◌<◌, inl, inr, arith, Bool-cases, ap,
}
use grex.Base.Order.Sorting.{NoTies, sort-Perm, sort-Perm_eq, sort-append, length-Perm}
use grex.Fleet.Types.{Agent}
use grex.Api.Paginate.{compare_uid, sort_by_uid, slice, HeapOps, keep_smallest, page_by_uid}
use grex.Api.Paginate.Kept.{compare_uid-IsOrder, Keeps, keep_smallest-Kept}

take-append : {A : Type 0} (n : ℕ) (xs ys : List A) → n ≤ length xs → take n (xs ++ ys) ≡ take n xs
take-append zero xs ys h = refl
take-append (suc n) [] ys h = absurd (omega arith)
take-append (suc n) (x ∷ xs) ys h = ap (λ l. x ∷ l) (take-append n xs ys (omega arith))

-- A stretch within the front of a list.
take-drop :
    {A : Type 0} (n start : ℕ) (xs ys : List A)
    → start + n ≤ length xs
    → take n (drop start (xs ++ ys)) ≡ take n (drop start xs)
take-drop n zero xs ys h = take-append n xs ys (omega (arith, h))
take-drop zero (suc start) [] ys h = refl
take-drop (suc n) (suc start) [] ys h = absurd (omega arith)
take-drop n (suc start) (x ∷ xs) ys h = take-drop n start xs ys (omega arith)

slice-append :
    {A : Type 0} (xs ys : List A) (start stop : ℕ)
    → start ≤ stop
    → stop ≤ length xs
    → slice (xs ++ ys) start stop ≡ slice xs start stop
slice-append xs ys start stop le h = take-drop (stop - start) start xs ys (omega (arith, le, h))

module _ (ops : HeapOps) where
  kept-slice :
      (agents h : List Agent) (start stop : ℕ)
      → NoTies compare_uid agents
      → start ≤ stop
      → stop < length agents
      → Keeps ops stop h agents
      → slice (sort_by_uid h) start stop ≡ slice (sort_by_uid agents) start stop
  kept-slice agents h start stop d le lt (away, k) =
      let o = compare_uid-IsOrder in
      let same : sort_by_uid agents ≡ sort_by_uid (h ++ away) =
        sort-Perm_eq compare_uid o (Permᴰ.symm k.perm) d in
      let parts = sort-append compare_uid h away k.below in
      let sorted : length h ≡ length (sort_by_uid h) = length-Perm (sort-Perm compare_uid h) in
      let all : length (h ++ away) ≡ length agents = length-Perm k.perm in
      let size : length h ≡ stop = elim k.full [
        | inl e ↦ absurd (omega (arith, k.fits, length-append h away, all, ap length e))
        | inr e ↦ e
      ] in
      sym (
        ap (λ l. slice l start stop) (same ∙ parts)
        ∙ slice-append (sort_by_uid h) (sort_by_uid away) start stop le
            (omega (arith, sorted, size)))

  -- A page is the stretch from start to stop of the list of all the agents sorted by id, whatever
  -- the heap does below its root; no two agents have one id, and start is not past stop.
  pub page_by_uid-slice :
      (agents : List Agent) (start stop : ℕ)
      → NoTies compare_uid agents
      → start ≤ stop
      → page_by_uid ops agents start stop ≡ slice (sort_by_uid agents) start stop
  unfolding page_by_uid
  page_by_uid-slice agents start stop d le = elim (Bool-cases (stop == 0)) [
    | inl e ↦
        let none_left : 0 ≡ stop - start = ground (arith, e, le) in
        rw e (ap (λ n. take n (drop start (sort_by_uid agents))) none_left)
    | inr e ↦ elim (Bool-cases (leb (length agents) stop)) [
      | inl f ↦ rw (e, f) refl
      | inr f ↦
          rw (e, f)
            (kept-slice agents (keep_smallest ops stop agents []) start stop d le
              (ground (arith, f)) (keep_smallest-Kept ops stop agents (ground (arith, e))))
    ]
  ]
