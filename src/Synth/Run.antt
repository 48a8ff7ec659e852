-- ===== src/Synth/Run.antt =====
-- runAgent, connect and sleepUntil of internal/synth/run.go: what becomes of one agent, given how its
-- attempts to connect end and whether it sleeps up to the restart. A client is the number of the
-- attempt that made it; the log has the clients that run and that are stopped, in order.
use grex.Base.{
  ℕ, ◌≡◌, ◌⊎◌, refl, inl, inr, Bool, true, false, not, List, [], ◌∷◌, ◌++◌, Option, none, some, Str,
  text, if◌then◌else◌, In, ltb, arith,
}
use grex.Synth.Report.{Result}

-- How one attempt ends: connected after a time, refused before the client runs, or with the run's
-- context while the client waits.
pub data Attempt : Type 0 where
  connects : ℕ → Attempt
  refused : Str → Attempt
  times_out : Attempt

pub data Act : Type 0 where
  started stopped : ℕ → Act

abbrev pub timeout_message : Str
timeout_message = text "connect timed out before deadline"

-- The latency or the error, and the log. Only a connected client is handed out; one that waits in
-- vain is stopped here.
pub data Connected : Type 0 where
  client : ℕ → Connected
  failed : Str → Connected

unfoldable pub connect : ℕ → Attempt → Connected × List Act
connect n (connects latency) = (client latency, started n ∷ [])
connect n (refused err) = (failed err, [])
connect n times_out = (failed timeout_message, started n ∷ stopped n ∷ [])

-- sleepUntil: true at once for a time that has come; else the timer against the context, whose end
-- comes at this time.
unfoldable pub sleep_until : ℕ → ℕ → ℕ → Bool
sleep_until now ctx_end t = if not (ltb now t) then true else not (ltb ctx_end t)

abbrev pub new_result : Str → Result
new_result uid = record {
  instance_uid = uid;
  connected = false;
  connect_latency = 0;
  restarted = false;
  restart_latency = 0;
  err = none;
}

-- After the stop and the second attempt: the deferred call stops the client that c then is.
abbrev pub restarted_with : Result → Connected → Result × List Act
restarted_with res (client latency) =
    (record res { restarted = true; restart_latency = latency }, stopped 1 ∷ [])
restarted_with res (failed err) = (record res { err = some err }, stopped 0 ∷ [])

abbrev pub restart : Result → Attempt → Result × List Act
unfolding connect
restart res again =
    let second = connect 1 again in
    let rest = restarted_with res (second.0) in (rest.0, stopped 0 ∷ (second.1 ++ rest.1))

-- From the first client on; `none` is a run without restarts, and the flag tells whether the restart
-- is reached.
abbrev pub lifetime : Result → Option Attempt → Bool → Result × List Act
lifetime res none reached = (res, stopped 0 ∷ [])
lifetime res (some again) reached = if reached then restart res again else (res, stopped 0 ∷ [])

abbrev pub connected_with : Str → Connected → Option Attempt → Bool → Result × List Act
connected_with uid (failed err) again reached = (record (new_result uid) { err = some err }, [])
connected_with uid (client latency) again reached =
    lifetime (record (new_result uid) { connected = true; connect_latency = latency }) again reached

unfoldable pub run_agent : Str → Attempt → Option Attempt → Bool → Result × List Act
unfolding connect
run_agent uid first again reached =
    let one = connect 0 first in
    let rest = connected_with uid (one.0) again reached in (rest.0, one.1 ++ rest.1)

-- Every client that runs is stopped later in the log.
abbrev pub IsClean : List Act → Type 0
IsClean [] = Unit
IsClean (started n ∷ acts) = In (stopped n) acts × IsClean acts
IsClean (stopped n ∷ acts) = IsClean acts

-- A failed agent has an error, and only a connected one restarts.
abbrev pub IsOutcome : Result → Type 0
IsOutcome res =
    ((res.connected ≡ true) ⊎ ((e : Str) × (res.err ≡ some e)))
    × ((res.restarted ≡ false) ⊎ (res.connected ≡ true))

-- However its attempts end, an agent leaves no client running, is reported with an error unless it
-- connected, and is reported as restarted only if it connected.
pub run_agent-IsClean :
    (uid : Str) (first : Attempt) (again : Option Attempt) (reached : Bool)
    → IsClean (run_agent uid first again reached).1
      × IsOutcome (run_agent uid first again reached).0
unfolding run_agent connect
run_agent-IsClean uid (connects l) none reached = (ground arith, (inl refl, inr refl))
run_agent-IsClean uid (connects l) (some (connects k)) true = (ground arith, (inl refl, inr refl))
run_agent-IsClean uid (connects l) (some (connects k)) false = (ground arith, (inl refl, inr refl))
run_agent-IsClean uid (connects l) (some (refused e)) true = (ground arith, (inl refl, inr refl))
run_agent-IsClean uid (connects l) (some (refused e)) false = (ground arith, (inl refl, inr refl))
run_agent-IsClean uid (connects l) (some times_out) true = (ground arith, (inl refl, inr refl))
run_agent-IsClean uid (connects l) (some times_out) false = (ground arith, (inl refl, inr refl))
run_agent-IsClean uid (refused e) again reached = (_, (inr (e, refl), inl refl))
run_agent-IsClean uid times_out again reached =
    (ground arith, (inr (timeout_message, refl), inl refl))
