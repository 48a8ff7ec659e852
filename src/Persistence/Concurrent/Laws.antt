-- ===== src/Persistence/Concurrent/Laws.antt =====
-- runConcurrent (internal/persistence/write.go): its bound, that it ends, and what it has run.
use mathlib.Core.List.{Permᴰ}
use mathlib.Core.List.Permᴰ
use mathlib.Core.List.{append-nil}
use mathlib.Core.Path.{subst}
use grex.Base.{
  ℕ, ◌+◌, ◌*◌, ◌≤◌, ◌<◌, ◌≡◌, ◌⊎◌, ◌↔◌, refl, sym, ap, ◌∙◌, inl, inr, List, [], ◌∷◌, ◌++◌, length,
  arith, length-append,
}
use grex.Base.Int.{ℤ}
use grex.Base.Order.Sorting.{length-Perm}
use grex.Persistence.Concurrent.{
  slots, State, before, Step, start, release, tell, Steps, none_yet, then_one, Returned,
}

slots-pos : (m : ℤ) → 0 < slots m
unfolding slots
slots-pos m = ground arith

module _ {A : Type 0} where
  -- Every task, wherever it is.
  abbrev everything : State A → List A
  everything s = s.waiting ++ (s.running ++ (s.leaving ++ s.over))

  -- The steps that are left at most.
  abbrev left : State A → ℕ
  left s = 3 * length s.waiting + 2 * length s.running + length s.leaving

  record Kept (n : ℕ) (tasks : List A) (k : ℕ) (s : State A) : Type 0 where
    bound : length s.running ≤ n
    same : Permᴰ tasks (everything s)
    budget : k + left s ≡ 3 * length tasks

  step-everything : {n : ℕ} {s t : State A} → Step n s t → Permᴰ (everything s) (everything t)
  step-everything (start t w r l o h) = Permᴰ.symm (Permᴰ.middle t w (r ++ (l ++ o)))
  step-everything (release t w r r' l o d) =
      Permᴰ.append_left w
        (Permᴰ.trans (Permᴰ.append_right (l ++ o) d) (Permᴰ.symm (Permᴰ.middle t r (l ++ o))))
  step-everything (tell t w r l l' o d) =
      Permᴰ.append_left w (
        Permᴰ.append_left r
          (Permᴰ.trans (Permᴰ.append_right o d) (Permᴰ.symm (Permᴰ.middle t l o))))

  step-left : {n : ℕ} {s t : State A} → Step n s t → left s ≡ left t + 1
  step-left (start t w r l o h) = omega arith
  step-left (release t w r r' l o d) = omega (arith, length-Perm d)
  step-left (tell t w r l l' o d) = omega (arith, length-Perm d)

  step-bound : {n : ℕ} {s t : State A} → Step n s t → length s.running ≤ n → length t.running ≤ n
  step-bound (start t w r l o h) k = omega (arith, h)
  step-bound (release t w r r' l o d) k = omega (arith, k, length-Perm d)
  step-bound (tell t w r l l' o d) k = k

  Steps-Kept :
      {n k : ℕ} (tasks : List A) {s : State A} → Steps n k (before tasks) s → Kept n tasks k s
  unfolding before
  Steps-Kept tasks (none_yet _) = record {
    bound = omega arith;
    same = subst (λ l. Permᴰ tasks l) (sym (append-nil tasks)) (Permᴰ.refl tasks);
    budget = omega arith;
  }
  Steps-Kept tasks (then_one h m) =
      let k = Steps-Kept tasks h in
      record {
        bound = step-bound m k.bound;
        same = Permᴰ.trans k.same (step-everything m);
        budget = omega (arith, k.budget, step-left m);
      }

  -- The call has returned or some step can be taken.
  go_on : (n : ℕ) → 0 < n → (s : State A) → Returned s ⊎ ((t : State A) × Step n s t)
  go_on n h s = next s.waiting s.running s.leaving
    where
      next :
          (w r l : List A)
          → Returned (record { waiting = w; running = r; leaving = l; over = s.over })
            ⊎ ((t : State A) × Step n
                  (record { waiting = w; running = r; leaving = l; over = s.over })
                  t)
      next [] [] [] = inl (refl, refl, refl)
      next (t ∷ w) [] l = inr (_, start t w [] l s.over h)
      next w (t ∷ r) l = inr (_, release t w r (t ∷ r) l s.over (Permᴰ.refl (t ∷ r)))
      next [] [] (t ∷ l) = inr (_, tell t [] [] l (t ∷ l) s.over (Permᴰ.refl (t ∷ l)))

  none_left : (l : List A) → length l ≡ 0 → l ≡ []
  none_left [] e = refl
  none_left (x ∷ l) e = absurd (omega (arith, e))

  all_over : (s : State A) → length s.waiting + length s.running + length s.leaving ≡ 0 → Returned s
  all_over s e = (
    none_left s.waiting (omega (arith, e)),
    none_left s.running (omega (arith, e)),
    none_left s.leaving (omega (arith, e)),
  )

  length-everything :
      (s : State A)
      → length (everything s)
        ≡ length s.waiting + length s.running + length s.leaving + length s.over
  length-everything s = omega (
    arith,
    length-append s.waiting (s.running ++ (s.leaving ++ s.over)),
    length-append s.running (s.leaving ++ s.over),
    length-append s.leaving s.over,
  )

  -- In a run of runConcurrent no more tasks run at once than the limit, or one if the limit is below
  -- one, and no task is lost or run twice: each is waiting, running, leaving or over.
  pub run_concurrent-bound :
      (m : ℤ) (tasks : List A) (k : ℕ) (s : State A)
      → Steps (slots m) k (before tasks) s
      → (length s.running ≤ slots m)
        × Permᴰ tasks (s.waiting ++ (s.running ++ (s.leaving ++ s.over)))
  run_concurrent-bound m tasks k s h = let p = Steps-Kept tasks h in (p.bound, p.same)

  -- runConcurrent returns once all tasks are over, and never blocks for ever if the tasks return: a
  -- run can go on unless the call has returned, it has returned after three steps for each task,
  -- and then all the tasks are over.
  pub run_concurrent-returns :
      (m : ℤ) (tasks : List A) (k : ℕ) (s : State A)
      → Steps (slots m) k (before tasks) s
      → (k ≤ 3 * length tasks)
        × (Returned s ⊎ ((t : State A) × Step (slots m) s t))
        × ((k ≡ 3 * length tasks) ↔ Returned s)
        × (Returned s ↔ Permᴰ tasks s.over)
  run_concurrent-returns m tasks k s h =
      let p = Steps-Kept tasks h in
      (
        omega (arith, p.budget),
        go_on (slots m) (slots-pos m) s,
        (
          λ e. all_over s (omega (arith, p.budget, e)),
          λ r. omega (arith, p.budget, ap length r.0, ap length r.1, ap length r.2),
        ),
        (
          λ r.
              subst (Permᴰ tasks)
                (ap (λ (w : List A). w ++ (s.running ++ (s.leaving ++ s.over))) r.0
                  ∙ ap (λ (l : List A). l ++ (s.leaving ++ s.over)) r.1
                  ∙ ap (λ (l : List A). l ++ s.over) r.2)
                p.same,
          λ d. all_over s (omega (arith, length-Perm d, length-Perm p.same, length-everything s)),
        ),
      )
