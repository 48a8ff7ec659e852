-- ===== src/Base/Order.antt =====
-- Three-way comparisons, the orders that they give, and sorting by one. The standard library's sort
-- leaves the order of ties open, so it is modelled up to ties: `sort` is used where there are none.
pub mod Sorting
pub mod Reversal
use Prim.Native.Nat.{ℕ, compare, Ordering}
use mathlib.Core.Path.{◌≡◌, refl}
use mathlib.Core.Bool.{Bool, true, false}
use mathlib.Core.List.{List, [], ◌∷◌}
use native.Mathlib.Omega.{arith}
use grex.Base.Text.{Str}

abbrev pub flip : Ordering → Ordering
flip Ordering.lt = Ordering.gt
flip Ordering.eq = Ordering.eq
flip Ordering.gt = Ordering.lt

-- The second comparison decides where the first finds no difference.
infixr 20 ◌or_by◌
abbrev pub ◌or_by◌ : Ordering → Ordering → Ordering
Ordering.lt or_by c = Ordering.lt
Ordering.eq or_by c = c
Ordering.gt or_by c = Ordering.gt

-- A comparison that orders a type, up to elements that it does not tell apart.
pub record IsOrder {ℓ} {A : Type ℓ} (cmp : A → A → Ordering) : Type ℓ where
  pub flips : (x y : A) → cmp y x ≡ flip (cmp x y)
  pub chains : (x y z : A) → cmp x y ≡ Ordering.lt → cmp y z ≡ Ordering.lt → cmp x z ≡ Ordering.lt
  pub alike : (x y z : A) → cmp x y ≡ Ordering.eq → cmp x z ≡ cmp y z

pub compare-IsOrder : IsOrder compare
compare-IsOrder = record {
  flips = λ x y. ground arith;
  chains = λ x y z h k. ground arith;
  alike = λ x y z h. ground arith;
}

-- strings.Compare: byte by byte, a proper prefix first.
unfoldable pub str_compare : Str → Str → Ordering
str_compare [] [] = Ordering.eq
str_compare [] (y ∷ ys) = Ordering.lt
str_compare (x ∷ xs) [] = Ordering.gt
str_compare (x ∷ xs) (y ∷ ys) = compare x y or_by str_compare xs ys

str_compare-flips : (s t : Str) → str_compare t s ≡ flip (str_compare s t)
unfolding str_compare
str_compare-flips [] [] = refl
str_compare-flips [] (y ∷ ys) = refl
str_compare-flips (x ∷ xs) [] = refl
str_compare-flips (x ∷ xs) (y ∷ ys) = ground (arith, str_compare-flips xs ys)

str_compare-chains :
    (s t u : Str)
    → str_compare s t ≡ Ordering.lt
    → str_compare t u ≡ Ordering.lt
    → str_compare s u ≡ Ordering.lt
unfolding str_compare
str_compare-chains [] [] u h k = absurd cc
str_compare-chains [] (y ∷ ys) [] h k = absurd cc
str_compare-chains [] (y ∷ ys) (z ∷ zs) h k = refl
str_compare-chains (x ∷ xs) [] u h k = absurd cc
str_compare-chains (x ∷ xs) (y ∷ ys) [] h k = absurd cc
str_compare-chains (x ∷ xs) (y ∷ ys) (z ∷ zs) h k = ground (arith, str_compare-chains xs ys zs)

pub str_compare-eq : (s t : Str) → str_compare s t ≡ Ordering.eq → s ≡ t
unfolding str_compare
str_compare-eq [] [] h = refl
str_compare-eq [] (y ∷ ys) h = absurd cc
str_compare-eq (x ∷ xs) [] h = absurd cc
str_compare-eq (x ∷ xs) (y ∷ ys) h = ground (arith, str_compare-eq xs ys)

pub str_compare_refl : (s : Str) → str_compare s s ≡ Ordering.eq
unfolding str_compare
str_compare_refl [] = refl
str_compare_refl (x ∷ xs) = ground (arith, str_compare_refl xs)

pub str_compare-IsOrder : IsOrder str_compare
str_compare-IsOrder = record {
  flips = str_compare-flips;
  chains = str_compare-chains;
  alike = λ x y z h. rw (str_compare-eq x y h) refl;
}

module _ {ℓ κ} {A : Type ℓ} {B : Type κ} (key : A → B) (cmp : B → B → Ordering) where
  -- Comparing by a key.
  abbrev pub by : A → A → Ordering
  by x y = cmp (key x) (key y)

  pub by-IsOrder : IsOrder cmp → IsOrder by
  by-IsOrder o = record {
    flips = λ x y. o.flips (key x) (key y);
    chains = λ x y z. o.chains (key x) (key y) (key z);
    alike = λ x y z. o.alike (key x) (key y) (key z);
  }

module _ {ℓ} {A : Type ℓ} (c d : A → A → Ordering) where
  abbrev pub both_ways : A → A → Ordering
  both_ways x y = c x y or_by d x y

  pub both_ways-IsOrder : IsOrder c → IsOrder d → IsOrder both_ways
  both_ways-IsOrder o p = record {
    flips = λ x y. ground (arith, o.flips x y, p.flips x y);
    chains = λ x y z h k. ground (
      arith,
      o.chains x y z,
      p.chains x y z,
      o.alike x y z,
      o.alike z y x,
      o.flips x z,
      o.flips y z,
      o.flips x y,
    );
    alike = λ x y z h. ground (arith, o.alike x y z, p.alike x y z);
  }

module _ {ℓ} {A : Type ℓ} (c : A → A → Ordering) where
  -- The order turned round.
  abbrev pub reversed : A → A → Ordering
  reversed x y = flip (c x y)

  pub reversed-IsOrder : IsOrder c → IsOrder reversed
  reversed-IsOrder o = record {
    flips = λ x y. ground (arith, o.flips x y);
    chains = λ x y z h k. ground (arith, o.chains z y x, o.flips x y, o.flips y z, o.flips x z);
    alike = λ x y z h. ground (arith, o.alike x y z);
  }
