-- ===== src/Persistence/Session/Passes.antt =====
-- What a pass of internal/persistence/session_snapshot.go leaves for the liveness test of the other
-- replicas (StaleConnected of internal/api/filter.go).
use grex.Base.{
  ℕ, ◌+◌, ◌≤◌, ◌≡◌, refl, Bool, Bool-cases, true, false, List, [], ◌∷◌, Option, none, some, Str,
  lookup, has, In, inl, inr, ◌⊎◌, arith, ◌∙◌, sym,
}
use grex.Fleet.Types.{Agent}
use grex.Persistence.Store.{Tables, ok, save_session, get_agent, get_row, AgentRow, micros}
use grex.Persistence.Session.{
  SessionWrite, SessionSnapshotter, is_due, due_loop, due, snapshot_agent, snapshot_all,
  snapshot_once, seen_in,
}
use grex.Persistence.Session.Tracking.{IsTracking, lookup-keep, due_loop-Distinct}
use grex.Persistence.Session.Fresh.{
  HasRow, IsBacked, due_loop-Tracks, due_loop-In, IsLater, saved-HasRow, saved-IsLater,
  saved-IsBacked,
}

-- What a write of the pass does, whether it succeeds or not.
record IsPassed (s : SessionSnapshotter) (t : Tables) (u : SessionSnapshotter × Tables)
    : Type 0 where
  later : IsLater t (u.1)
  backs : IsBacked s.written t → IsBacked (u.0).written (u.1)

snapshot_agent-IsPassed :
    (reached : Bool) (s : SessionSnapshotter) (t : Tables) (a : Agent)
    → IsPassed s t (snapshot_agent reached (s, t) a)
unfolding snapshot_agent save_session
snapshot_agent-IsPassed false s t a = record { later = (refl, λ id time h. h); backs = λ h. h }
snapshot_agent-IsPassed true s t a = elim (Bool-cases (has a.instance_uid t.agents)) [
  | inl there ↦ rw there (record { later = saved-IsLater t a; backs = saved-IsBacked s t a })
  | inr away ↦ rw away (record { later = (refl, λ id time h. h); backs = λ h. h })
]

snapshot_agent-HasRow :
    (s : SessionSnapshotter) (t : Tables) (a : Agent)
    → has a.instance_uid t.agents ≡ true
    → HasRow (snapshot_agent true (s, t) a).1 a.instance_uid a.last_seen
unfolding snapshot_agent save_session
snapshot_agent-HasRow s t a there = rw there (saved-HasRow t a)

snapshot_agent-own :
    (reached : Str → Bool) (st : SessionSnapshotter × Tables) (a b : Agent)
    → a ≡ b
    → reached a.instance_uid ≡ true
    → has a.instance_uid st.1.agents ≡ true
    → HasRow (snapshot_agent (reached b.instance_uid) st b).1 a.instance_uid a.last_seen
snapshot_agent-own reached st a b is works there =
    rw (sym is, works) (snapshot_agent-HasRow (st.0) (st.1) a there)

IsPassed-trans :
    (s : SessionSnapshotter) (t : Tables) (u v : SessionSnapshotter × Tables)
    → IsPassed s t u
    → IsPassed (u.0) (u.1) v
    → IsPassed s t v
IsPassed-trans s t u v p q = record {
  later = (q.later.0 ∙ p.later.0, λ id time h. q.later.1 id time (p.later.1 id time h));
  backs = λ h. q.backs (p.backs h);
}

snapshot_all-IsPassed :
    (reached : Str → Bool) (agents : List Agent) (st : SessionSnapshotter × Tables)
    → IsPassed (st.0) (st.1) (snapshot_all reached agents st)
unfolding snapshot_all
snapshot_all-IsPassed reached [] st = record { later = (refl, λ id time h. h); backs = λ h. h }
snapshot_all-IsPassed reached (a ∷ rest) st =
    let next = snapshot_agent (reached a.instance_uid) st a in
    IsPassed-trans (st.0) (st.1) next (snapshot_all reached rest next)
      (snapshot_agent-IsPassed (reached a.instance_uid) (st.0) (st.1) a)
      (snapshot_all-IsPassed reached rest next)

-- An agent that is written has a row as late as what was seen of it.
snapshot_all-HasRow :
    (reached : Str → Bool) (agents : List Agent) (st : SessionSnapshotter × Tables) (a : Agent)
    → In a agents
    → reached a.instance_uid ≡ true
    → has a.instance_uid st.1.agents ≡ true
    → HasRow (snapshot_all reached agents st).1 a.instance_uid a.last_seen
unfolding snapshot_all
snapshot_all-HasRow reached [] st a h works there = absurd h
snapshot_all-HasRow reached (b ∷ rest) st a (inl is) works there =
    (snapshot_all-IsPassed reached rest (snapshot_agent (reached b.instance_uid) st b)).later.1
      a.instance_uid a.last_seen (snapshot_agent-own reached st a b is works there)
snapshot_all-HasRow reached (b ∷ rest) st a (inr later) works there =
    snapshot_all-HasRow reached rest (snapshot_agent (reached b.instance_uid) st b) a later works
      (rw (snapshot_agent-IsPassed (reached b.instance_uid) (st.0) (st.1) b).later.0 there)

due-IsBacked :
    (s : SessionSnapshotter) (agents : List Agent) (now : ℕ) (t : Tables)
    → IsTracking s
    → IsBacked s.written t
    → IsBacked (due s agents now).0.written t
unfolding due
due-IsBacked s agents now t tracking backed id w h =
    let (there, _) =
      lookup-keep (seen_in (s.gen + 1)) (due_loop s.keepalive now (s.gen + 1) agents s.written).0 id
        w (due_loop-Distinct s.keepalive now (s.gen + 1) agents s.written tracking.once) h in
    let (v, entry, at) = due_loop-Tracks s.keepalive now (s.gen + 1) agents s.written id w there in
    rw at at (backed id v entry)

-- Passes keep the promise that every tracked write has its row.
pub snapshot_once-IsBacked :
    (reached : Str → Bool) (agents : List Agent) (now : ℕ) (s : SessionSnapshotter) (t : Tables)
    → IsTracking s
    → IsBacked s.written t
    → IsBacked
        (snapshot_once reached agents now (s, t)).0.written
        (snapshot_once reached agents now (s, t)).1
unfolding snapshot_once
snapshot_once-IsBacked reached agents now s t tracking backed =
    (snapshot_all-IsPassed reached (due s agents now).1 ((due s agents now).0, t)).backs
      (due-IsBacked s agents now t tracking backed)

-- After a pass the row of an agent that it saw is as late as what was seen of it, or as a write that
-- was not due.
pub snapshot_once-HasRow :
    (reached : Str → Bool) (agents : List Agent) (now : ℕ) (s : SessionSnapshotter) (t : Tables)
    (a : Agent)
    → IsBacked s.written t
    → In a agents
    → reached a.instance_uid ≡ true
    → has a.instance_uid t.agents ≡ true
    → HasRow (snapshot_once reached agents now (s, t)).1 a.instance_uid a.last_seen
      ⊎ ((w : SessionWrite) × (is_due s.keepalive now (some w) ≡ false)
          × HasRow (snapshot_once reached agents now (s, t)).1 a.instance_uid w.last_seen)
unfolding snapshot_once due
snapshot_once-HasRow reached agents now s t a backed listed works there =
    elim (due_loop-In s.keepalive now (s.gen + 1) agents s.written a listed) [
      | inl ready ↦ inl (
          snapshot_all-HasRow reached (due s agents now).1 ((due s agents now).0, t) a ready works
            there)
      | inr (w, entry, fresh) ↦ inr (
        w,
        fresh,
        (snapshot_all-IsPassed reached (due s agents now).1 ((due s agents now).0, t)).later.1
            a.instance_uid w.last_seen (backed a.instance_uid w entry),
      )
    ]

-- The agent that another replica reads is no older than the row.
pub get_agent-HasRow :
    (t : Tables) (id : Str) (time : ℕ) (b : Agent)
    → HasRow t id time
    → get_agent t id ≡ ok (some b)
    → micros time ≤ b.session_updated_at
unfolding get_agent
get_agent-HasRow t id time b (row, e, le) h = go (lookup id t.agents) h
  where
    go : (o : Option AgentRow) → get_row t id o ≡ ok (some b) → micros time ≤ b.session_updated_at
    go none h = absurd cc
    go (some r) h = ground (arith, rw e at h, le)
