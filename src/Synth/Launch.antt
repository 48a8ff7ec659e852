-- ===== src/Synth/Launch.antt =====
-- Run of internal/synth/run.go: the ramp that starts the agents, and the goroutines that each write
-- one cell of the results. The select before a start passes at its timer or at the end of the
-- context, and a goroutine ends when its runAgent has come back, with `outcome i` (in `Run`). That
-- runAgent comes back is not shown: its waits are no steps, and `returns` says for which it does.
pub mod Laws
use grex.Base.{
  ℕ, zero, suc, ◌+◌, ◌*◌, ◌/◌, ◌<◌, ◌≡◌, Bool, true, false, List, [], ◌∷◌, ◌++◌, Option, none, some,
  Str, length, set, get_or, replicate, ltb, ◌==◌, if◌then◌else◌, min, ◌&&◌, ◌||◌, not,
}
use grex.Synth.Report.{Result, Report, summarize}
use grex.Synth.Run.{new_result}

abbrev pub second : ℕ
second = 1000000000

-- time.Second / time.Duration(ramp)
abbrev pub gap : ℕ → ℕ
gap ramp = second / ramp

-- The wait before an agent that is not the first: the timer, or the end of the run's context.
unfoldable pub wait : ℕ → ℕ → ℕ → ℕ
wait ramp ctx_end now =
    if ramp == 0 then now else if ltb now ctx_end then min (now + gap ramp) ctx_end else now

-- When agent `i` is started.
unfoldable pub launch_time : ℕ → ℕ → ℕ → ℕ → ℕ
launch_time ramp ctx_end start zero = start
launch_time ramp ctx_end start (suc i) = wait ramp ctx_end (launch_time ramp ctx_end start i)

-- The loop has started the agents below `next`, and `ready` says that its select before the next one
-- is past; `running` are the goroutines that have not written their result.
pub record State : Type 0 where
  pub next : ℕ
  pub ready : Bool
  pub running : List ℕ
  pub results : List Result

-- make([]Result, n)
abbrev pub blank : Result
blank = new_result []

unfoldable pub fresh : ℕ → State
fresh n = record { next = 0; ready = false; running = []; results = replicate n blank }

-- Does the loop wait in its select before it starts agent `i`?
abbrev pub is_ramped : ℕ → ℕ → Bool
is_ramped ramp i = ltb 0 ramp && ltb 0 i

module _ (n ramp : ℕ) (returns : ℕ → Bool) (outcome : ℕ → Result) where
  -- `returns i` is false for an agent whose runAgent does not come back.
  pub data Step (s : State) : State → Type 0 where
    selected :
        s.next < n
        → is_ramped ramp s.next ≡ true
        → s.ready ≡ false
        → Step s (record s { ready = true })
    starts :
        s.next < n
        → (not (is_ramped ramp s.next) || s.ready) ≡ true
        → Step s (record s { next = suc s.next; ready = false; running = s.next ∷ s.running })
    ends :
        (i : ℕ) (before after : List ℕ)
        → s.running ≡ before ++ (i ∷ after)
        → returns i ≡ true
        → Step s (record s { running = before ++ after; results = set s.results i (outcome i) })

  pub data Steps (s : State) : ℕ → State → Type 0 where
    none_yet : Steps s 0 s
    then_one : {k : ℕ} {t u : State} → Steps s k t → Step t u → Steps s (suc k) u

-- wg.Wait returns: all are started and none runs.
abbrev pub IsOver : ℕ → State → Type 0
IsOver n s = (s.next ≡ n) × (s.running ≡ [])

unfoldable pub report_of : State → Report
report_of s = summarize s.results
