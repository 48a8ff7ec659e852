-- ===== src/Synth/Launch/Laws.antt =====
-- What Run of internal/synth/run.go returns, however its goroutines are scheduled, and when it starts
-- its agents.
use grex.Base.{
  ℕ, zero, suc, ◌+◌, ◌*◌, ◌≤◌, ◌<◌, ◌≡◌, ◌≢◌, refl, sym, ap, ◌∙◌, List, [], ◌∷◌, ◌++◌, length, set,
  get_or, replicate, length-set, get_or-set_self, get_or-set_ne, In, In-append, In-append_left,
  In-append_right, inl, inr, ◌⊎◌, arith, ltb, ◌==◌, if◌then◌else◌, min, Bool-cases, Bool, false,
}
use native.Mathlib.Decide.{ℕ_discrete}
use grex.Synth.Report.{Result, summarize}
use grex.Synth.Launch.{
  gap, wait, launch_time, State, blank, fresh, starts, ends, Steps, none_yet, then_one, IsOver,
  report_of, selected,
}

-- The results in the order of the agents.
abbrev pub tabulate : ℕ → (ℕ → Result) → List Result
tabulate zero f = []
tabulate (suc n) f = f 0 ∷ tabulate n (λ i. f (suc i))

tabulate-get_or :
    (n : ℕ) (f : ℕ → Result) (l : List Result)
    → length l ≡ n
    → ((i : ℕ) → i < n → get_or l i blank ≡ f i)
    → l ≡ tabulate n f
tabulate-get_or zero f [] e h = refl
tabulate-get_or zero f (x ∷ xs) e h = absurd (omega (arith, e))
tabulate-get_or (suc n) f [] e h = absurd (omega (arith, e))
tabulate-get_or (suc n) f (x ∷ xs) e h =
    let rest =
      tabulate-get_or n (λ i. f (suc i)) xs (omega (arith, e)) (λ i lt. h (suc i) (omega arith)) in
    let first = h 0 (omega arith) in λ i. first i ∷ rest i

length-replicate : (n : ℕ) (r : Result) → length (replicate n r) ≡ n
length-replicate zero r = refl
length-replicate (suc n) r = ap suc (length-replicate n r)

module _ (n ramp : ℕ) (returns : ℕ → Bool) (outcome : ℕ → Result) where
  -- Every agent that was started runs or has its result in its cell.
  record IsSound (s : State) : Type 0 where
    within : s.next ≤ n
    cells : length s.results ≡ n
    started : (i : ℕ) → In i s.running → i < s.next
    written : (i : ℕ) → i < s.next → In i s.running ⊎ (get_or s.results i blank ≡ outcome i)

  fresh-IsSound : IsSound (fresh n)
  unfolding fresh
  fresh-IsSound = record {
    within = omega arith;
    cells = length-replicate n blank;
    started = λ i h. absurd h;
    written = λ i h. absurd (omega (arith, h));
  }

  starts-IsSound :
      (s : State)
      → s.next < n
      → IsSound s
      → IsSound (record s { next = suc s.next; ready = false; running = s.next ∷ s.running })
  starts-IsSound s more v = record {
    within = omega arith;
    cells = v.cells;
    started = λ i h. elim (let l : In i (s.next ∷ s.running) = h in l) [
      | inl e ↦ omega (arith, e)
      | inr r ↦ omega (arith, v.started i r)
    ];
    written = λ i h. elim (ℕ_discrete i s.next) [
      | yes e ↦ inl (inl e)
      | no ne ↦ elim (v.written i (omega (arith, ne, h))) [ inl r ↦ inl (inr r) | inr w ↦ inr w ]
    ];
  }

  ends-IsSound :
      (s : State) (i : ℕ) (before after : List ℕ)
      → s.running ≡ before ++ (i ∷ after)
      → IsSound s
      → IsSound (record s { running = before ++ after; results = set s.results i (outcome i) })
  ends-IsSound s i before after is v = record {
    within = v.within;
    cells = length-set s.results i (outcome i) ∙ v.cells;
    started = λ j h. v.started j (rw is (still j h));
    written = λ j h. elim (ℕ_discrete i j) [
      | yes e ↦ inr (
          rw (← e) (
            get_or-set_self s.results i (outcome i) blank
              (omega (arith, v.cells, v.within, v.started i runs))))
      | no ne ↦ elim (v.written j h) [
        | inl r ↦ inl (left j ne (rw is at r))
        | inr w ↦ inr (get_or-set_ne s.results i j (outcome i) blank ne ∙ w)
      ]
    ];
  }
    where
      runs : In i s.running
      runs = rw is (In-append_right i before (i ∷ after) (inl refl))

      still : (j : ℕ) → In j (before ++ after) → In j (before ++ (i ∷ after))
      still j h = elim (In-append j before after h) [
        | inl b ↦ In-append_left j before (i ∷ after) b
        | inr a ↦ In-append_right j before (i ∷ after) (inr a)
      ]

      left : (j : ℕ) → i ≢ j → In j (before ++ (i ∷ after)) → In j (before ++ after)
      left j ne h = elim (In-append j before (i ∷ after) h) [
        | inl b ↦ In-append_left j before after b
        | inr (inl e) ↦ absurd (ne (sym e))
        | inr (inr a) ↦ In-append_right j before after a
      ]

  Steps-IsSound :
      {s : State} {k : ℕ} {t : State} → Steps n ramp returns outcome s k t → IsSound s → IsSound t
  Steps-IsSound none_yet v = v
  Steps-IsSound (then_one steps (selected more ramped waiting)) v =
      let w = Steps-IsSound steps v in
      record { within = w.within; cells = w.cells; started = w.started; written = w.written }
  Steps-IsSound (then_one {t = t} steps (starts more ready)) v =
      starts-IsSound t more (Steps-IsSound steps v)
  Steps-IsSound (then_one {t = t} steps (ends i before after is back)) v =
      ends-IsSound t i before after is (Steps-IsSound steps v)

  -- Whatever the schedule, the report is that of the agents' results in the order of the agents.
  pub run-report :
      (k : ℕ) (s : State)
      → Steps n ramp returns outcome (fresh n) k s
      → IsOver n s
      → report_of s ≡ summarize (tabulate n outcome)
  unfolding report_of
  run-report k s steps over = ap summarize (
      tabulate-get_or n outcome s.results v.cells
        λ i lt. elim (v.written i (rw over.0 lt)) [ inl r ↦ absurd (rw over.1 at r) | inr w ↦ w ])
    where
      v : IsSound s
      v = Steps-IsSound steps fresh-IsSound

next_launch :
    (a g c : ℕ) → (if ltb (min a c) c then min (min a c + g) c else min a c) ≡ min (a + g) c
next_launch a g c = ground arith

one_more : (start i g : ℕ) → start + i * g + g ≡ start + suc i * g
one_more start i g = grind arith

-- With a ramp, agent `i` is started `i` gaps after the start, or at the end of the run's context if
-- that is earlier; without one all are started at once.
pub launch_time-closed :
    (ramp ctx_end start i : ℕ)
    → start ≤ ctx_end
    → launch_time ramp ctx_end start i
      ≡ (if ramp == 0 then start else min (start + i * gap ramp) ctx_end)
unfolding launch_time wait
launch_time-closed ramp ctx_end start zero h = ground arith
launch_time-closed ramp ctx_end start (suc i) h = elim (Bool-cases (ramp == 0)) [
  | inl flat ↦ rw flat (rw flat at (launch_time-closed ramp ctx_end start i h))
  | inr ramped ↦
      let before = rw ramped at (launch_time-closed ramp ctx_end start i h) in
      rw (ramped, before)
        (next_launch (start + i * gap ramp) (gap ramp) ctx_end
          ∙ ap (λ t. min t ctx_end) (one_more start i (gap ramp)))
]
