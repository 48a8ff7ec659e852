-- ===== src/Base/Order/Reversal.antt =====
-- Sorting by an order turned round.
use Prim.Native.Nat.{Ordering}
use mathlib.Core.Path.{◌≡◌, refl, ◌∙◌}
use mathlib.Core.Bool.{false}
use mathlib.Core.List.{List, [], ◌∷◌, Permᴰ, reverse, reverse_aux}
use mathlib.Core.List.Permᴰ
use native.Mathlib.Omega.{arith}
use grex.Base.Lists.{All}
use grex.Base.Order.{IsOrder, reversed, reversed-IsOrder}
use grex.Base.Order.Sorting.{
  is_gt, place, sort, NoTies, Differ, Ascending, Below, All-map_out, All-both, sort-Perm,
  sort-Perm_eq, sort-Ascending,
}

module _ {ℓ} {A : Type ℓ} (cmp : A → A → Ordering) where
  place-below : (a : A) (xs : List A) → Below cmp xs a → place cmp a xs ≡ a ∷ xs
  place-below a [] h = refl
  place-below a (x ∷ xs) h = rw (h.0) refl

  -- Sorting leaves a list alone that is in order.
  pub sort_Ascending : (xs : List A) → Ascending cmp xs → sort cmp xs ≡ xs
  sort_Ascending [] h = refl
  sort_Ascending (x ∷ xs) h = rw (sort_Ascending xs h.1) (place-below x xs h.0)

  -- The list turned round, put in front of another.
  reverse_onto-Ascending :
      (o : IsOrder cmp) (xs ys : List A)
      → Ascending cmp xs
      → Ascending (reversed cmp) ys
      → All (λ x. All (λ y. is_gt (cmp y x) ≡ false) ys) xs
      → Ascending (reversed cmp) (reverse_aux xs ys)
  reverse_onto-Ascending o [] ys h k m = k
  reverse_onto-Ascending o (x ∷ xs) ys h k m =
      reverse_onto-Ascending o xs (x ∷ ys) h.1
        (
          All-map_out (λ y. is_gt (cmp y x) ≡ false) (λ y. is_gt (reversed cmp x y) ≡ false)
              (λ y e. ground (arith, o.flips x y, e)) ys m.0,
          k,
        )
        (All-both (λ z. is_gt (cmp x z) ≡ false) (λ z. All (λ y. is_gt (cmp y z) ≡ false) ys) xs h.0
          m.1)

  untied : (o : IsOrder cmp) (xs : List A) → NoTies cmp xs → NoTies (reversed cmp) xs
  untied o [] d = _
  untied o (x ∷ xs) d = (
    All-map_out (Differ cmp x) (Differ (reversed cmp) x) (λ y h e. h (ground (arith, e))) xs d.0,
    untied o xs d.1,
  )

  none_below : (xs : List A) → All (λ x. All (λ y. is_gt (cmp y x) ≡ false) []) xs
  none_below [] = _
  none_below (x ∷ xs) = (_, none_below xs)

module _ {ℓ} {A : Type ℓ} (cmp : A → A → Ordering) where
  -- Sorting by the order turned round gives the sorted list turned round, where nothing ties.
  pub sort-reversed :
      (o : IsOrder cmp) (xs : List A)
      → NoTies cmp xs
      → sort (reversed cmp) xs ≡ reverse (sort cmp xs)
  sort-reversed o xs d =
      let sorted = sort cmp xs in
      let turned : Permᴰ xs (reverse sorted) =
        Permᴰ.trans (sort-Perm cmp xs) (Permᴰ.symm (Permᴰ.reverse sorted)) in
      sort-Perm_eq (reversed cmp) (reversed-IsOrder cmp o) turned (untied cmp o xs d)
      ∙ sort_Ascending (reversed cmp) (reverse sorted) (
          reverse_onto-Ascending cmp o sorted [] (sort-Ascending cmp o xs) _
            (none_below cmp sorted))
