-- ===== src/Api/Paginate/Kept.antt =====
-- The loop of pageByInstanceUID (internal/api/paginate.go): what its heap holds of the agents seen.
use mathlib.Core.List.{Permᴰ}
use mathlib.Core.List.Permᴰ
use mathlib.Core.Path.{subst}
use grex.Base.{
  ℕ, ◌≡◌, refl, true, false, List, [], ◌∷◌, ◌++◌, ltb, length, ◌≤◌, ◌<◌, All, ◌⊎◌, inl, inr, arith,
  Bool-cases, ltb→lt,
}
use grex.Base.Order.{str_compare, str_compare-IsOrder, by-IsOrder, IsOrder}
use grex.Base.Order.Sorting.{
  is_gt, Below, All-Perm, All-map_out, at_most_trans, All-both, length-Perm,
}
use grex.Fleet.Types.{Agent}
use grex.Api.Paginate.{uid_of, compare_uid, uid_before, HeapOps, replace_root, offer, keep_smallest}

pub compare_uid-IsOrder : IsOrder compare_uid
compare_uid-IsOrder = by-IsOrder uid_of str_compare str_compare-IsOrder

abbrev AtMost : Agent → Agent → Type 0
AtMost x y = is_gt (compare_uid x y) ≡ false

uid_before-AtMost : (x y : Agent) → uid_before x y ≡ true → AtMost x y
uid_before-AtMost x y h = ground arith

uid_before-false : (x y : Agent) → uid_before x y ≡ false → AtMost y x
uid_before-false x y h = let o = compare_uid-IsOrder in ground (arith, o.flips x y)

module _ (ops : HeapOps) (stop : ℕ) where
  -- What the heap and the agents that it has turned away make of those seen.
  pub record Kept (h away seen : List Agent) : Type 0 where
    pub heap : ops.IsHeap h
    pub below : All (Below compare_uid away) h
    pub perm : Permᴰ (h ++ away) seen
    pub full : (away ≡ []) ⊎ (length h ≡ stop)
    pub fits : length h ≤ stop

  All-Below_nil : (h : List Agent) → All (Below compare_uid []) h
  All-Below_nil [] = _
  All-Below_nil (x ∷ h) = (_, All-Below_nil h)

  push-Kept :
      (a : Agent) (h away seen : List Agent)
      → Kept h away seen
      → length h < stop
      → Kept (ops.push a h) [] (a ∷ seen)
  push-Kept a h away seen k lt =
      let none_away : away ≡ [] = elim k.full [ inl e ↦ e | inr e ↦ absurd (omega (arith, e)) ] in
      let h_seen : Permᴰ h seen =
        Permᴰ.trans (Permᴰ.symm (Permᴰ.append-nil h))
          (subst (λ l. Permᴰ (h ++ l) seen) none_away k.perm) in
      record {
        heap = ops.push-IsHeap a h k.heap;
        below = All-Below_nil (ops.push a h);
        perm =
            Permᴰ.trans (Permᴰ.append-nil (ops.push a h))
              (Permᴰ.trans (Permᴰ.symm (ops.push-Perm a h)) (Permᴰ.cons refl h_seen));
        full = inl refl;
        fits = omega (arith, length-Perm (ops.push-Perm a h));
      }

  -- The agent is at most the root, which leaves.
  replace-Kept :
      (a root : Agent) (rest away seen : List Agent)
      → Kept (root ∷ rest) away seen
      → AtMost a root
      → length (root ∷ rest) ≡ stop
      → Kept (ops.fix (a ∷ rest)) (root ∷ away) (a ∷ seen)
  replace-Kept a root rest away seen k le e =
      let o = compare_uid-IsOrder in
      let moved = ops.fix-Perm (a ∷ rest) in
      let root_max : All (λ x. AtMost x root) rest = ops.root-IsMax (root ∷ rest) k.heap in
      record {
        heap = ops.fix-IsHeap a root rest k.heap;
        below = All-Perm (Below compare_uid (root ∷ away)) moved (
          (
            le,
            All-map_out _ (AtMost a) (λ y. at_most_trans compare_uid o a root y le) away k.below.0,
          ),
          All-both (λ x. AtMost x root) (Below compare_uid away) rest root_max k.below.1,
        );
        perm =
            Permᴰ.trans (Permᴰ.append_right (root ∷ away) (Permᴰ.symm moved))
              (Permᴰ.cons refl (Permᴰ.trans (Permᴰ.middle root rest away) k.perm));
        full = inr (omega (arith, e, length-Perm moved));
        fits = omega (arith, e, length-Perm moved);
      }

  -- The root is at most the agent, which is turned away.
  pass-Kept :
      (a root : Agent) (rest away seen : List Agent)
      → Kept (root ∷ rest) away seen
      → AtMost root a
      → length (root ∷ rest) ≡ stop
      → Kept (root ∷ rest) (a ∷ away) (a ∷ seen)
  pass-Kept a root rest away seen k le e =
      let o = compare_uid-IsOrder in
      let root_max : All (λ x. AtMost x root) rest = ops.root-IsMax (root ∷ rest) k.heap in
      record {
        heap = k.heap;
        below = (
          (le, k.below.0),
          All-both (λ x. AtMost x a) (Below compare_uid away) rest
              (All-map_out _ (λ x. AtMost x a) (λ x h. at_most_trans compare_uid o x root a h le)
                rest root_max)
              k.below.1,
        );
        perm = Permᴰ.trans (Permᴰ.middle a (root ∷ rest) away) (Permᴰ.cons refl k.perm);
        full = inr e;
        fits = k.fits;
      }

  abbrev pub Keeps : List Agent → List Agent → Type 0
  Keeps h seen = (away : List Agent) × Kept h away seen

  offer-Keeps :
      (a : Agent) (h seen : List Agent)
      → 0 < stop
      → Keeps h seen
      → Keeps (offer ops stop a h) (a ∷ seen)
  offer-Keeps a h seen pos (away, k) = elim (Bool-cases (ltb (length h) stop)) [
    | inl e ↦ rw e ([], push-Kept a h away seen k (ltb→lt (length h) stop e))
    | inr e ↦ rw e (full_offer h k (ground (arith, e, k.fits)))
  ]
    where
      full_offer :
          (h : List Agent)
          → Kept h away seen
          → length h ≡ stop
          → Keeps (replace_root ops a h) (a ∷ seen)
      full_offer [] k e = absurd (omega (arith, e, pos))
      full_offer (root ∷ rest) k e = elim (Bool-cases (uid_before a root)) [
        | inl before ↦
            rw before (
              root ∷ away,
              replace-Kept a root rest away seen k (uid_before-AtMost a root before) e,
            )
        | inr before ↦
            rw before
              (a ∷ away, pass-Kept a root rest away seen k (uid_before-false a root before) e)
      ]

  Kept-seen : {h seen seen' : List Agent} → Permᴰ seen seen' → Keeps h seen → Keeps h seen'
  Kept-seen d (away, k) = (
    away,
    record {
      heap = k.heap;
      below = k.below;
      perm = Permᴰ.trans k.perm d;
      full = k.full;
      fits = k.fits;
    },
  )

  keep_smallest-Keeps :
      (agents h seen : List Agent)
      → 0 < stop
      → Keeps h seen
      → Keeps (keep_smallest ops stop agents h) (agents ++ seen)
  keep_smallest-Keeps [] h seen pos k = k
  keep_smallest-Keeps (a ∷ agents) h seen pos k =
      Kept-seen (Permᴰ.middle a agents seen) (
        keep_smallest-Keeps agents (offer ops stop a h) (a ∷ seen) pos (offer-Keeps a h seen pos k))

  pub keep_smallest-Kept :
      (agents : List Agent) → 0 < stop → Keeps (keep_smallest ops stop agents []) agents
  keep_smallest-Kept agents pos = Kept-seen (Permᴰ.append-nil agents) (
      keep_smallest-Keeps agents [] [] pos (
        [],
        record {
          heap = ops.empty-IsHeap;
          below = _;
          perm = Permᴰ.nil;
          full = inl refl;
          fits = omega arith;
        },
      ))
