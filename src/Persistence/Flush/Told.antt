-- ===== src/Persistence/Flush/Told.antt =====
-- What the listener of internal/persistence/flush.go hears of the calls of internal/fleet's registry:
-- a call that it hears nothing of, for an agent, leaves all but the touched fields of that agent.
use mathlib.Core.Option
use grex.Base.{
  ℕ, ◌≡◌, refl, ◌∙◌, ap, sym, Bool, true, false, List, [], ◌∷◌, Option, none, some, Str, str_eq,
  str_eq→eq, str_eq_refl, All, arith, if◌then◌else◌, ◌==◌, inl, inr, ◌⊎◌, Bool-cases,
}
use grex.Fleet.Types.{
  Agent, ConnMeta, Event, missing_attribute, reserved_attribute_conflict, AgentToServer, no_conn,
  agent_connected, agent_disconnected, agent_evicted, report_received, Config,
}
use grex.Fleet.Report.{fold_report}
use grex.Fleet.Report.Silent.{fold_report_silent}
use grex.Fleet.Events.{Presence, offline, online, IsQuiet, replay, replay_quiet}
use grex.Fleet.Registry.{
  Registry, InstanceUid, get, report, report_named, report_agent, set_connected, set_found, sweep,
  sweep_agent, find_or_new, or_new, connection_events,
}
use grex.Fleet.Registry.Shards.{IsValid, get-uid}
use grex.Fleet.Registry.Reporting.{get-report_agent}
use grex.Fleet.Registry.Connecting.{get-set_connected, with_connected}
use grex.Fleet.Registry.Sweeping.{get-sweep, swept_entry}
use grex.Fleet.Registry.Telling.{sweep-replay_entry, said}
use grex.Fleet.Registry.Runs.{Step, reported, marked, swept}
use grex.Persistence.Flush.Marked.{subject, IsToldOf}
use grex.Persistence.Flush.Reports.{IsAbout, fold_report-TellsOf}

-- An agent without the fields that every message writes.
abbrev pub durable : Agent → Agent
durable a = record a { last_seen = 0; conn = no_conn; sequence_num = 0; capabilities = 0 }

-- Held alike, but for those fields.
abbrev pub Same : Option Agent → Option Agent → Type 0
Same o p = Option.map durable o ≡ Option.map durable p

find_or_new-uid :
    (r : Registry) (v : IsValid r) (id : Str) (now : ℕ) → (find_or_new r id now).instance_uid ≡ id
find_or_new-uid r v id now = found (get r id) refl
  where
    found : (o : Option Agent) → get r id ≡ o → (or_new id now o).instance_uid ≡ id
    found none e = refl
    found (some a) e = (get-uid r v id a e).0

-- Calls about an agent, if there are any, tell of it.
All-IsToldOf : (id : Str) (es : List Event) → All (IsAbout id) es → (es ≡ []) ⊎ IsToldOf id es
All-IsToldOf id [] h = inl refl
All-IsToldOf id (e ∷ es) h = inr (inl h.0)

flag_told :
    (j : Str) (a : Agent) (old b : Bool)
    → a.connected ≡ old
    → IsToldOf j (connection_events j old b) ⊎ Same (some (with_connected b a)) (some a)
flag_told j a true true h = inr (ground (arith, h))
flag_told j a true false h = inl (inl refl)
flag_told j a false true h = inl (inl refl)
flag_told j a false false h = inr (ground (arith, h))

-- A call is about the agent, or moves nothing of it.
about : (j : Str) (e : Event) → (j ≡ subject e) ⊎ IsQuiet j e
about j (agent_connected id) = elim (Bool-cases (str_eq id j)) [
  | inl same ↦ inl (sym (str_eq→eq id j same))
  | inr other ↦ inr (λ p. rw other refl)
]
about j (agent_disconnected id) = elim (Bool-cases (str_eq id j)) [
  | inl same ↦ inl (sym (str_eq→eq id j same))
  | inr other ↦ inr (λ p. rw other refl)
]
about j (agent_evicted id) = elim (Bool-cases (str_eq id j)) [
  | inl same ↦ inl (sym (str_eq→eq id j same))
  | inr other ↦ inr (λ p. rw other refl)
]
about j (report_received id kind) = inr (λ p. refl)
about j (missing_attribute id key) = inr (λ p. refl)
about j (reserved_attribute_conflict id key) = inr (λ p. refl)

told_or_quiet : (j : Str) (es : List Event) → IsToldOf j es ⊎ All (IsQuiet j) es
told_or_quiet j [] = inr tt
told_or_quiet j (e ∷ es) = elim (told_or_quiet j es) [
  | inl told ↦ inl (inr told)
  | inr quiet ↦ elim (about j e) [ inl is ↦ inl (inl is) | inr away ↦ inr (away, quiet) ]
]

-- A sweep that moves nobody leaves the agent.
sweep_agent_quiet :
    (c : Config) (now : ℕ) (j : Str) (a : Agent)
    → replay j online (sweep_agent c now j a).1 ≡ some online
    → replay j offline (sweep_agent c now j a).1 ≡ some offline
    → (sweep_agent c now j a).0 ≡ some a
unfolding sweep_agent replay
sweep_agent_quiet c now j a h k = ground (arith, str_eq_refl j)

module _ (r : Registry) (v : IsValid r) (j : Str) where
  -- A report that says nothing is of an agent that was there.
  silent-Same :
      (id : Str) (msg : AgentToServer) (meta : ConnMeta) (now : ℕ)
      → (fold_report r.cfg.required_attributes msg meta now (find_or_new r id now)).1 ≡ []
      → Same
          (some (fold_report r.cfg.required_attributes msg meta now (find_or_new r id now)).0)
          (get r id)
  silent-Same id msg meta now h =
      let s = fold_report_silent r.cfg.required_attributes msg meta now (find_or_new r id now) h in
      found (get r id) s.0 s.1
    where
      found :
          (o : Option Agent)
          → (or_new id now o).connected ≡ true
          → (fold_report r.cfg.required_attributes msg meta now (find_or_new r id now)).0
            ≡ record (or_new id now o) {
              last_seen = now;
              connected = true;
              conn = meta;
              sequence_num = msg.sequence_num;
              capabilities =
                  if msg.capabilities == 0
                  then (or_new id now o).capabilities
                  else msg.capabilities;
            }
          → Same
              (some (fold_report r.cfg.required_attributes msg meta now (find_or_new r id now)).0)
              o
      found none on is = absurd (cc)
      found (some a) on is = rw is (ground (arith, on))

  -- Held differently from before only if told of.
  abbrev Tells : Registry × List Event → Type 0
  Tells m = IsToldOf j m.1 ⊎ Same (get m.0 j) (get r j)

  held_as_before : (s : Registry) → get s j ≡ get r j → Same (get s j) (get r j)
  held_as_before s e = ap (Option.map durable) e

  report_agent-told :
      (id : Str) (msg : AgentToServer) (meta : ConnMeta) (now : ℕ)
      → Tells (report_agent r id msg meta now)
  report_agent-told id msg meta now = elim (Bool-cases (str_eq id j)) [
    | inr other ↦ inr (held_as_before _ (get-report_agent r v id j msg meta now ∙ rw other refl))
    | inl same ↦
        elim (All-IsToldOf id _ (
          rw (find_or_new-uid r v id now) at
            (fold_report-TellsOf r.cfg.required_attributes msg meta now
              (find_or_new r id now)).1)) [
                | inr told ↦ inl (unfold report_agent in rw (← str_eq→eq id j same) told)
                | inl silent ↦ inr (
                    rw (get-report_agent r v id j msg meta now, same)
                      (rw (← str_eq→eq id j same) (silent-Same id msg meta now silent)))
              ]
  ]

  report_named-told :
      (o : Option Str) (msg : AgentToServer) (meta : ConnMeta) (now : ℕ)
      → Tells (report_named r o msg meta now)
  report_named-told none msg meta now = inr refl
  report_named-told (some id) msg meta now = report_agent-told id msg meta now

  set_connected-told : (id : Str) (b : Bool) → Tells (set_connected r id b)
  set_connected-told id b = elim (Bool-cases (str_eq id j)) [
    | inr other ↦ inr (held_as_before _ (get-set_connected r v id b j ∙ rw other refl))
    | inl same ↦
        rw (get-set_connected r v id b j, same)
          (unfold set_connected in rw (str_eq→eq id j same) (found (get r j)))
  ]
    where
      found :
          (o : Option Agent)
          → IsToldOf j (set_found r j b o).1 ⊎ Same (Option.map (with_connected b) o) o
      found none = inr refl
      found (some a) = flag_told j a a.connected b refl

  sweep-told : (now : ℕ) → Tells ((sweep r now).kept, (sweep r now).events)
  sweep-told now = elim (told_or_quiet j (sweep r now).events) [
    | inl told ↦ inl told
    | inr quiet ↦ inr (
        rw (get-sweep r v now j) (
          entry (get r j) (λ p.
            sym (sweep-replay_entry r now j v p) ∙ replay_quiet j p (sweep r now).events quiet)))
  ]
    where
      entry :
          (o : Option Agent)
          → ((p : Presence) → replay j p (said r.cfg now j o) ≡ some p)
          → Same (swept_entry r.cfg now j o) o
      entry none h = refl
      entry (some a) h =
          ap (Option.map durable) (sweep_agent_quiet r.cfg now j a (h online) (h offline))

-- A registry call tells of every agent that it leaves otherwise than it was, but for the fields that
-- every message writes.
pub Step-told :
    (from_bytes : InstanceUid) {r t : Registry} {es : List Event}
    → Step from_bytes r es t
    → IsValid r
    → (j : Str) → IsToldOf j es ⊎ Same (get t j) (get r j)
unfolding report
Step-told from_bytes {r} (reported msg meta now) v j =
    report_named-told r v j (from_bytes msg.instance_uid) msg meta now
Step-told from_bytes {r} (marked id b) v j = set_connected-told r v j id b
Step-told from_bytes {r} (swept now) v j = sweep-told r v j now
