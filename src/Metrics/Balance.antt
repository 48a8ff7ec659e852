-- ===== src/Metrics/Balance.antt =====
-- The connect and disconnect counters of internal/metrics/metrics.go against the registry that they
-- listen to.
use grex.Base.{
  ◌+◌, ◌≤◌, ◌≡◌, ◌≢◌, ◌↔◌, inl, inr, refl, List, [], ◌∷◌, Option, none, some, Str, str_eq,
  str_eq_iff, str_eq_refl, if◌then◌else◌, length, In, arith, Bool-cases,
}
use grex.Fleet.Types.{
  Config, Event, agent_connected, agent_disconnected, agent_evicted, report_received,
  missing_attribute, reserved_attribute_conflict,
}
use grex.Fleet.Events.{Presence, absent, online, presence, move, replay}
use grex.Fleet.Registry.{Registry, InstanceUid, get, new_registry}
use grex.Fleet.Registry.Runs.{Run, Run-tells}
use grex.Metrics.{Counters, hear, hear_all, new_events}

abbrev pub NoRepeat : List Str → Type 0
NoRepeat [] = Unit
NoRepeat (x ∷ xs) = (In x xs → ⊥) × NoRepeat xs

-- Whether each agent is online.
abbrev Ids : Type 0
Ids = Str → Presence

record Tracks (p : Ids) (l : List Str) : Type 0 where
  once : NoRepeat l
  listed : (id : Str) → In id l ↔ (p id ≡ online)

abbrev or_absent : Option Presence → Presence
or_absent none = absent
or_absent (some s) = s

abbrev after : Ids → Event → Ids
after p e id = or_absent (move id (p id) e)

abbrev remove : Str → List Str → List Str
remove id [] = []
remove id (x ∷ xs) = let rest = remove id xs in if str_eq x id then xs else x ∷ rest

remove-In : (id j : Str) (l : List Str) → NoRepeat l → In j (remove id l) ↔ (In j l × (j ≢ id))
remove-In id j [] h = ground arith
remove-In id j (x ∷ xs) h = ground (arith, remove-In id j xs h.1, str_eq_iff x id)

remove-length : (id : Str) (l : List Str) → In id l → length l ≡ length (remove id l) + 1
remove-length id [] h = absurd h
remove-length id (x ∷ xs) h = ground (arith, remove-length id xs, str_eq_iff x id)

remove-NoRepeat : (id : Str) (l : List Str) → NoRepeat l → NoRepeat (remove id l)
remove-NoRepeat id [] h = h
remove-NoRepeat id (x ∷ xs) h = elim (Bool-cases (str_eq x id)) [
  | inl e ↦ rw e h.1
  | inr e ↦ rw e ((λ m. h.0 ((remove-In id x xs h.1).0 m).0), remove-NoRepeat id xs h.1)
]

-- A call that is in order for each agent.
abbrev InOrder : Ids → Event → Type 0
InOrder p e = (id : Str) → move id (p id) e ≡ some (after p e id)

connect-Tracks :
    (p : Ids) (l : List Str) (j : Str)
    → Tracks p l
    → InOrder p (agent_connected j)
    → Tracks (after p (agent_connected j)) (j ∷ l)
connect-Tracks p l j t ok = record {
  once = ((λ m. ground (arith, m, ok j, str_eq_refl j, t.listed j)), t.once);
  listed = λ id. listed id (p id) refl;
}
  where
    listed :
        (id : Str) (q : Presence)
        → p id ≡ q
        → In id (j ∷ l) ↔ (after p (agent_connected j) id ≡ online)
    listed id q e = ground (arith, e, ok id, str_eq_iff j id, t.listed id)

disconnect-Tracks :
    (p : Ids) (l : List Str) (j : Str)
    → Tracks p l
    → InOrder p (agent_disconnected j)
    → Tracks (after p (agent_disconnected j)) (remove j l)
disconnect-Tracks p l j t ok = record {
  once = remove-NoRepeat j l t.once;
  listed = λ id. ground (arith, ok id, str_eq_iff j id, t.listed id, remove-In j id l t.once);
}

evict-Tracks :
    (p : Ids) (l : List Str) (j : Str)
    → Tracks p l
    → InOrder p (agent_evicted j)
    → Tracks (after p (agent_evicted j)) l
evict-Tracks p l j t ok = record {
  once = t.once;
  listed = λ id. ground (arith, ok id, str_eq_iff j id, t.listed id);
}

peel :
    (id : Str) (es : List Event) (q : Presence) (o : Option Presence)
    → elim o [ none ↦ none | some s ↦ replay id s es ] ≡ some q
    → (o ≡ some (or_absent o)) × (replay id (or_absent o) es ≡ some q)
peel id es q none h = absurd cc
peel id es q (some s) h = (refl, h)

-- The agents that are online after some calls, and the counters, from any start.
record Balanced (c : Counters) (l : List Str) (q : Ids) (d : Counters) (m : List Str) : Type 0 where
  tracks : Tracks q m
  balance :
      d.agent_connects + c.agent_disconnects + length l
      ≡ c.agent_connects + d.agent_disconnects + length m

abbrev Goal : Counters → List Str → Ids → List Event → Type 0
Goal c l q es = (m : List Str) × Balanced c l q (hear_all c es) m

same_ids : (p q : Ids) (l : List Str) → ((id : Str) → p id ≡ q id) → Tracks p l → Tracks q l
same_ids p q l e t = record { once = t.once; listed = λ id. ground (arith, e id, t.listed id) }

hear_all-Balanced :
    (es : List Event) (p q : Ids) (l : List Str) (c : Counters)
    → Tracks p l
    → ((id : Str) → replay id (p id) es ≡ some (q id))
    → Goal c l q es
unfolding replay hear_all hear
hear_all-Balanced [] p q l c t h =
    (l, record { tracks = same_ids p q l (λ id. ground (arith, h id)) t; balance = omega arith })
hear_all-Balanced (e ∷ es) p q l c t h =
    step e (λ id. (peel id es (q id) (move id (p id) e) (h id)).0)
      (λ l' d t'.
        hear_all-Balanced es (after p e) q l' d t'
          (λ id. (peel id es (q id) (move id (p id) e) (h id)).1))
  where
    step :
        (e : Event)
        → InOrder p e
        → ((l' : List Str) (d : Counters) → Tracks (after p e) l' → Goal d l' q es)
        → Goal c l q (e ∷ es)
    step (agent_connected j) ok rest =
        let (m, b) = rest (j ∷ l) (hear c (agent_connected j)) (connect-Tracks p l j t ok) in
        (m, record { tracks = b.tracks; balance = ground (arith, b.balance) })
    step (agent_disconnected j) ok rest =
        let (m, b) =
          rest (remove j l) (hear c (agent_disconnected j)) (disconnect-Tracks p l j t ok) in
        (
          m,
          record {
            tracks = b.tracks;
            balance = ground (arith, b.balance, ok j, t.listed j, str_eq_refl j, remove-length j l);
          },
        )
    step (agent_evicted j) ok rest =
        let (m, b) = rest l (hear c (agent_evicted j)) (evict-Tracks p l j t ok) in
        (m, record { tracks = b.tracks; balance = b.balance })
    step (report_received j k) ok rest =
        let (m, b) = rest l (hear c (report_received j k)) t in
        (m, record { tracks = b.tracks; balance = b.balance })
    step (missing_attribute j k) ok rest =
        let (m, b) = rest l (hear c (missing_attribute j k)) t in
        (m, record { tracks = b.tracks; balance = b.balance })
    step (reserved_attribute_conflict j k) ok rest =
        let (m, b) = rest l (hear c (reserved_attribute_conflict j k)) t in
        (m, record { tracks = b.tracks; balance = b.balance })

-- The ids of the agents that a registry holds as connected, each once.
pub record IsOnlineList (r : Registry) (l : List Str) : Type 0 where
  pub once : NoRepeat l
  pub listed : (id : Str) → In id l ↔ (presence (get r id) ≡ online)

-- From an empty registry, whatever the calls and their order, the connect counter is the disconnect
-- counter and the number of the agents that the registry holds as connected, if the stale threshold
-- is at least two heartbeats.
pub hear_all-connected :
    (from_bytes : InstanceUid) (cfg : Config) {t : Registry} {es : List Event}
    → 2 ≤ cfg.stale_missed_heartbeats
    → Run from_bytes (new_registry cfg) es t
    → (l : List Str) × IsOnlineList t l
      × ((hear_all new_events es).agent_connects
          ≡ (hear_all new_events es).agent_disconnects + length l)
hear_all-connected from_bytes cfg {t} {es} enough run =
    let (m, b) =
      hear_all-Balanced es (λ id. absent) (λ id. presence (get t id)) [] new_events none_online
        (λ id. Run-tells from_bytes cfg id enough run) in
    (m, record { once = b.tracks.once; listed = b.tracks.listed }, omega (arith, b.balance))
  where
    none_online : Tracks (λ id. absent) []
    none_online = record { once = _; listed = λ id. ground arith }
