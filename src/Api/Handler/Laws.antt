-- ===== src/Api/Handler/Laws.antt =====
-- What the read handlers of internal/api/handler.go answer.
use grex.Base.{ℕ, ◌≡◌, ◌≢◌, refl, false, [], ◌∷◌, Option, none, some, Str, if◌then◌else◌, arith}
use grex.Fleet.Types.{Agent}
use grex.Fleet.Registry.{Registry, get, agents, disconnect_threshold}
use grex.Fleet.View.{Capabilities, detail_view}
use grex.Persistence.Store.{Tables, Read, ok, failed, get_agent, list_agents}
use grex.Persistence.Store.Reading.{Writes, no_tables, reads_succeed}
use grex.Api.Merge.{is_evicted, corrected}
use grex.Api.Handler.{
  AgentReply, found, not_found, lookup_failed, stored_reply, local_reply, agent_reply,
  listed_agents, merged_with,
}

module _ (bits : Capabilities ℕ) (r : Registry) (now : ℕ) where
  stored_reply-succeeds :
      (o : Read (Option Agent))
      → o ≢ failed
      → stored_reply bits now (disconnect_threshold r.cfg) o ≢ lookup_failed
  stored_reply-succeeds failed h e = h refl
  stored_reply-succeeds (ok none) h e = absurd cc
  stored_reply-succeeds (ok (some a)) h e = ground arith

  reply-succeeds :
      (o : Option Agent) (p : AgentReply) → p ≢ lookup_failed → local_reply bits o p ≢ lookup_failed
  reply-succeeds none p h e = h e
  reply-succeeds (some a) p h e = absurd cc

  -- Over the rows that any writes of any replicas have left, a lookup of one agent is never
  -- answered with a failure, and the list of all agents is never partial.
  pub reads_answered :
      {t : Tables} (id : Str)
      → Writes no_tables t
      → (agent_reply bits r (some t) now id ≢ lookup_failed)
        × ((listed_agents r (some t) now).1 ≡ false)
  unfolding agent_reply listed_agents
  reads_answered {t} [] ws = ((λ e. absurd cc), complete)
    where
      complete : (merged_with (agents r) (list_agents t) now (disconnect_threshold r.cfg)).1 ≡ false
      complete = let all = (reads_succeed ws).1 in rw all.1 refl
  reads_answered {t} (c ∷ cs) ws = (
    reply-succeeds (get r (c ∷ cs)) _
        (stored_reply-succeeds (get_agent t (c ∷ cs)) ((reads_succeed ws).0 (c ∷ cs))),
    complete,
  )
    where
      complete : (merged_with (agents r) (list_agents t) now (disconnect_threshold r.cfg)).1 ≡ false
      complete = let all = (reads_succeed ws).1 in rw all.1 refl

-- For an id under which the database has an agent, the answer is the registry's agent if it holds
-- one; otherwise it is the database's with its connected flag corrected, or none if that is
-- evicted.
pub agent_reply-sources :
    (bits : Capabilities ℕ) (r : Registry) (t : Tables) (now c : ℕ) (cs : Str) (a : Agent)
    → get_agent t (c ∷ cs) ≡ ok (some a)
    → agent_reply bits r (some t) now (c ∷ cs) ≡ elim (get r (c ∷ cs)) [
      | some b ↦ found (detail_view bits b)
      | none ↦
          if is_evicted a
          then not_found
          else found (detail_view bits (corrected now (disconnect_threshold r.cfg) a))
    ]
unfolding agent_reply
agent_reply-sources bits r t now c cs a stored = rw stored (either (get r (c ∷ cs)))
  where
    either :
        (o : Option Agent)
        → local_reply bits o (stored_reply bits now (disconnect_threshold r.cfg) (ok (some a)))
          ≡ elim o [
            | some b ↦ found (detail_view bits b)
            | none ↦
                if is_evicted a
                then not_found
                else found (detail_view bits (corrected now (disconnect_threshold r.cfg) a))
          ]
    either none = refl
    either (some b) = refl
