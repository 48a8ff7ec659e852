-- ===== src/Base/Order/Sorting.antt =====
-- Sorting by a comparison: an insertion sort, which agrees with every other sort where no two
-- elements tie, and what it does to a list whose front is below the rest.
use Prim.Native.Nat.{Ordering}
use mathlib.Core.Path.{◌≡◌, refl, ap, ◌∙◌, subst}
use mathlib.Core.Logic.{◌≢◌, inl, inr}
use mathlib.Core.Bool.{Bool, true, false}
use mathlib.Core.List.{List, [], ◌∷◌, ◌++◌, Permᴰ}
use mathlib.Core.List.Permᴰ
use Prim.Native.Nat.{suc}
use native.Mathlib.Omega.{arith}
use grex.Base.Tests.{if◌then◌else◌, Bool-cases}
use grex.Base.Lists.{All, In, length}
use grex.Base.Order.{IsOrder}

abbrev pub is_gt : Ordering → Bool
is_gt Ordering.lt = false
is_gt Ordering.eq = false
is_gt Ordering.gt = true

module _ {ℓ} {A : Type ℓ} (cmp : A → A → Ordering) where
  abbrev pub place : A → List A → List A
  place a [] = a ∷ []
  place a (x ∷ xs) = let rest = place a xs in if is_gt (cmp a x) then x ∷ rest else a ∷ x ∷ xs

  abbrev pub sort : List A → List A
  sort [] = []
  sort (x ∷ xs) = place x (sort xs)

  abbrev pub Differ : A → A → Type 0
  Differ x y = cmp x y ≢ Ordering.eq

  -- No two places of the list hold elements that tie.
  abbrev pub NoTies : List A → Type ℓ
  NoTies [] = Unit
  NoTies (x ∷ xs) = All (Differ x) xs × NoTies xs

  -- Each element is at most those after it.
  abbrev pub Ascending : List A → Type ℓ
  Ascending [] = Unit
  Ascending (x ∷ xs) = All (λ y. is_gt (cmp x y) ≡ false) xs × Ascending xs

module _ {ℓ κ} {A : Type ℓ} (P : A → Type κ) where
  pub All-Perm : {xs ys : List A} → Permᴰ xs ys → All P xs → All P ys
  All-Perm Permᴰ.nil h = h
  All-Perm (Permᴰ.cons e d) h = (subst P e h.0, All-Perm d h.1)
  All-Perm (Permᴰ.swap e₁ e₂) h = (subst P e₂ h.1.0, (subst P e₁ h.0, h.1.1))
  All-Perm (Permᴰ.trans d₁ d₂) h = All-Perm d₂ (All-Perm d₁ h)

  pub All-map_out {μ} :
      (Q : A → Type μ) (f : (x : A) → P x → Q x) (xs : List A) → All P xs → All Q xs
  All-map_out Q f [] h = _
  All-map_out Q f (x ∷ xs) h = (f x h.0, All-map_out Q f xs h.1)

pub All-both {ℓ κ μ} :
    {A : Type ℓ} (P : A → Type κ) (Q : A → Type μ) (xs : List A)
    → All P xs
    → All Q xs
    → All (λ x. P x × Q x) xs
All-both P Q [] h k = _
All-both P Q (x ∷ xs) h k = ((h.0, k.0), All-both P Q xs h.1 k.1)

pub In-Perm : {A : Type 0} (a : A) {xs ys : List A} → Permᴰ xs ys → In a xs → In a ys
In-Perm a Permᴰ.nil h = h
In-Perm a (Permᴰ.cons e d) (inl h) = inl (h ∙ e)
In-Perm a (Permᴰ.cons e d) (inr h) = inr (In-Perm a d h)
In-Perm a (Permᴰ.swap e₁ e₂) (inl h) = inr (inl (h ∙ e₁))
In-Perm a (Permᴰ.swap e₁ e₂) (inr (inl h)) = inl (h ∙ e₂)
In-Perm a (Permᴰ.swap e₁ e₂) (inr (inr h)) = inr (inr h)
In-Perm a (Permᴰ.trans d₁ d₂) h = In-Perm a d₂ (In-Perm a d₁ h)

pub length-Perm {ℓ} : {A : Type ℓ} {xs ys : List A} → Permᴰ xs ys → length xs ≡ length ys
length-Perm Permᴰ.nil = refl
length-Perm (Permᴰ.cons e d) = ap suc (length-Perm d)
length-Perm (Permᴰ.swap e₁ e₂) = refl
length-Perm (Permᴰ.trans d₁ d₂) = length-Perm d₁ ∙ length-Perm d₂

module _ {ℓ} {A : Type ℓ} (cmp : A → A → Ordering) where
  pub place-Perm : (a : A) (xs : List A) → Permᴰ (a ∷ xs) (place cmp a xs)
  place-Perm a [] = Permᴰ.cons refl Permᴰ.nil
  place-Perm a (x ∷ xs) =
      elim (is_gt (cmp a x))
        as (λ b. Permᴰ (a ∷ x ∷ xs) (if b then x ∷ place cmp a xs else a ∷ x ∷ xs)) [
          | true ↦ Permᴰ.trans (Permᴰ.swap refl refl) (Permᴰ.cons refl (place-Perm a xs))
          | false ↦ Permᴰ.refl (a ∷ x ∷ xs)
        ]

  pub sort-Perm : (xs : List A) → Permᴰ xs (sort cmp xs)
  sort-Perm [] = Permᴰ.nil
  sort-Perm (x ∷ xs) = Permᴰ.trans (Permᴰ.cons refl (sort-Perm xs)) (place-Perm x (sort cmp xs))

  pub All-sort {κ} : (P : A → Type κ) (xs : List A) → All P xs → All P (sort cmp xs)
  All-sort P xs h = All-Perm P (sort-Perm xs) h

module _ {ℓ} {A : Type ℓ} (cmp : A → A → Ordering) (o : IsOrder cmp) where
  pub place_comm :
      (a b : A) (l : List A)
      → cmp a b ≢ Ordering.eq
      → place cmp a (place cmp b l) ≡ place cmp b (place cmp a l)
  place_comm a b [] h = ground (arith, o.flips a b)
  place_comm a b (x ∷ xs) h = ground (
    arith,
    place_comm a b xs h,
    o.flips a b,
    o.flips a x,
    o.flips b x,
    o.chains a b x,
    o.chains b a x,
    o.chains a x b,
    o.chains b x a,
    o.alike a x b,
    o.alike b x a,
  )

  Differ_sym : (x y : A) → cmp x y ≢ Ordering.eq → cmp y x ≢ Ordering.eq
  Differ_sym x y h e = h (ground (arith, o.flips x y))

  pub NoTies-Perm : {xs ys : List A} → Permᴰ xs ys → NoTies cmp xs → NoTies cmp ys
  NoTies-Perm Permᴰ.nil h = h
  NoTies-Perm (Permᴰ.cons {a} {b} {l₁} {l₂} e d) h =
      (subst (λ x. All (Differ cmp x) l₂) e (All-Perm (Differ cmp a) d h.0), NoTies-Perm d h.1)
  NoTies-Perm (Permᴰ.swap {a} {b} {a'} {b'} {l} e₁ e₂) h = (
    (
      subst (λ x. Differ cmp a' x) e₁ (subst (λ x. Differ cmp x a) e₂ (Differ_sym a b h.0.0)),
      subst (λ x. All (Differ cmp x) l) e₂ h.1.0,
    ),
    (subst (λ x. All (Differ cmp x) l) e₁ h.0.1, h.1.1),
  )
  NoTies-Perm (Permᴰ.trans d₁ d₂) h = NoTies-Perm d₂ (NoTies-Perm d₁ h)

  -- The order of the input does not matter to the sorted list.
  pub sort-Perm_eq : {xs ys : List A} → Permᴰ xs ys → NoTies cmp xs → sort cmp xs ≡ sort cmp ys
  sort-Perm_eq Permᴰ.nil h = refl
  sort-Perm_eq (Permᴰ.cons e d) h = rw (e, sort-Perm_eq d h.1) refl
  sort-Perm_eq (Permᴰ.swap {a} {b} {l = l} e₁ e₂) h =
      place_comm a b (sort cmp l) h.0.0 ∙ (λ i. place cmp (e₂ i) (place cmp (e₁ i) (sort cmp l)))
  sort-Perm_eq (Permᴰ.trans d₁ d₂) h = sort-Perm_eq d₁ h ∙ sort-Perm_eq d₂ (NoTies-Perm d₁ h)

  pub at_most_trans :
      (x y z : A) → is_gt (cmp x y) ≡ false → is_gt (cmp y z) ≡ false → is_gt (cmp x z) ≡ false
  at_most_trans x y z h k =
      ground
        (arith, o.chains x y z, o.alike x y z, o.alike z y x, o.flips y z, o.flips x z, o.flips x y)

  pub place-Ascending : (a : A) (xs : List A) → Ascending cmp xs → Ascending cmp (place cmp a xs)
  place-Ascending a [] h = (_, _)
  place-Ascending a (x ∷ xs) h = elim (Bool-cases (is_gt (cmp a x))) [
    | inl e ↦ rw e (
      All-Perm (λ y. is_gt (cmp x y) ≡ false) (place-Perm cmp a xs)
          (ground (arith, o.flips a x), h.0),
      place-Ascending a xs h.1,
    )
    | inr e ↦
        rw e
          ((e, All-map_out _ (λ y. is_gt (cmp a y) ≡ false) (λ y. at_most_trans a x y e) xs h.0), h)
  ]

  pub sort-Ascending : (xs : List A) → Ascending cmp (sort cmp xs)
  sort-Ascending [] = _
  sort-Ascending (x ∷ xs) = place-Ascending x (sort cmp xs) (sort-Ascending xs)

module _ {ℓ} {A : Type ℓ} (cmp : A → A → Ordering) where
  -- One element is at most all of a list.
  abbrev pub Below : List A → A → Type 0
  Below ys x = All (λ y. is_gt (cmp x y) ≡ false) ys

  place-append : (a : A) (l m : List A) → Below m a → place cmp a (l ++ m) ≡ place cmp a l ++ m
  place-append a [] [] h = refl
  place-append a [] (y ∷ ys) h = rw (h.0) refl
  place-append a (x ∷ l) m h = ground (arith, place-append a l m h)

  -- A list all of whose front is at most all of its back is sorted part by part.
  pub sort-append :
      (xs ys : List A) → All (Below ys) xs → sort cmp (xs ++ ys) ≡ sort cmp xs ++ sort cmp ys
  sort-append [] ys h = refl
  sort-append (x ∷ xs) ys h = rw (sort-append xs ys h.1) (
      place-append x (sort cmp xs) (sort cmp ys)
        (All-sort cmp (λ y. is_gt (cmp x y) ≡ false) ys h.0))
