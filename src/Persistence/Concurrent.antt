-- ===== src/Persistence/Concurrent.antt =====
-- runConcurrent of internal/persistence/write.go as a step relation: the loop that starts the tasks,
-- the goroutines, and the channel that bounds them. A task returns at some step; writeWithTimeout,
-- which bounds the writes that are run this way, is a cancelled context.
pub mod Laws
use mathlib.Core.List.{Permᴰ}
use grex.Base.{
  ℕ, zero, suc, ◌<◌, ◌≡◌, List, [], ◌∷◌, ◌++◌, length, if◌then◌else◌, ltb, Option, none, some,
}
use grex.Base.Int.{ℤ, pos, ltb_ℤ, pos_part}

-- if maxConcurrent < 1 { maxConcurrent = 1 }
unfoldable pub slots : ℤ → ℕ
slots max_concurrent = if ltb_ℤ max_concurrent (pos 1) then 1 else pos_part max_concurrent

-- The tasks not started; those that run and hold a slot; those that have given their slot back
-- and have still to tell the wait group; and those that are over.
pub record State (A : Type 0) : Type 0 where
  pub waiting : List A
  pub running : List A
  pub leaving : List A
  pub over : List A

module _ {A : Type 0} where
  unfoldable pub before : List A → State A
  before tasks = record { waiting = tasks; running = []; leaving = []; over = [] }

  -- A start waits for a free slot. The deferred calls run last first: the slot is given back, then
  -- the wait group is told.
  pub data Step (n : ℕ) : State A → State A → Type 0 where
    start :
        (t : A) (w r l o : List A)
        → length r < n
        → Step n
            (record { waiting = t ∷ w; running = r; leaving = l; over = o })
            (record { waiting = w; running = t ∷ r; leaving = l; over = o })
    release :
        (t : A) (w r r' l o : List A)
        → Permᴰ r' (t ∷ r)
        → Step n
            (record { waiting = w; running = r'; leaving = l; over = o })
            (record { waiting = w; running = r; leaving = t ∷ l; over = o })
    tell :
        (t : A) (w r l l' o : List A)
        → Permᴰ l' (t ∷ l)
        → Step n
            (record { waiting = w; running = r; leaving = l'; over = o })
            (record { waiting = w; running = r; leaving = l; over = t ∷ o })

  -- The run from a state to another in so many steps.
  pub data Steps (n : ℕ) : ℕ → State A → State A → Type 0 where
    none_yet : (s : State A) → Steps n zero s s
    then_one : {k : ℕ} {s t u : State A} → Steps n k s t → Step n t u → Steps n (suc k) s u

  -- wg.Wait() returns: everything was started and every goroutine has told the wait group.
  abbrev pub Returned : State A → Type 0
  Returned s = (s.waiting ≡ []) × (s.running ≡ []) × (s.leaving ≡ [])
