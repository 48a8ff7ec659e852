-- ===== src/Fleet/Registry/Connecting.antt =====
-- `SetConnected` of internal/fleet/registry.go against the registry seen as one map, and its listener calls.
use mathlib.Core.Option
use grex.Base.{
  ◌≡◌, refl, Bool, true, false, Option, none, some, Str, str_eq, str_eq_refl, str_eq→eq,
  if◌then◌else◌, inl, inr, Bool-cases,
}
use grex.Fleet.Types.{Agent}
use grex.Fleet.Events.{Presence, offline, online, presence, replay}
use grex.Fleet.Registry.{Registry, get, set_connected, set_found, connection_events}
use grex.Fleet.Registry.Shards.{IsValid, get-put_agent, put_agent-IsValid, get-uid}

abbrev pub with_connected : Bool → Agent → Agent
with_connected b a = record a { connected = b }

-- The calls about `id` when its flag goes from one value to another.
events_replay :
    (id : Str) (old b : Bool)
    → replay id (if old then online else offline) (connection_events id old b)
      ≡ some (if b then online else offline)
unfolding replay
events_replay id true true = refl
events_replay id true false = rw (str_eq_refl id, replay)
events_replay id false true = rw (str_eq_refl id, replay)
events_replay id false false = refl

events_replay_ne :
    (id j : Str) (p : Presence) (old b : Bool)
    → str_eq id j ≡ false
    → replay j p (connection_events id old b) ≡ some p
unfolding replay
events_replay_ne id j p true true ne = refl
events_replay_ne id j p true false ne = rw (ne, replay)
events_replay_ne id j p false true ne = rw (ne, replay)
events_replay_ne id j p false false ne = refl

module _ (r : Registry) (v : IsValid r) (id : Str) (b : Bool) where
  -- Only the flag of the named agent is written, and only if it is registered.
  pub get-set_connected :
      (j : Str)
      → get (set_connected r id b).0 j
        ≡ (if str_eq id j then Option.map (with_connected b) (get r j) else get r j)
  unfolding set_connected
  get-set_connected j = found (get r id) refl
    where
      found :
          (o : Option Agent)
          → get r id ≡ o
          → get (set_found r id b o).0 j
            ≡ (if str_eq id j then Option.map (with_connected b) (get r j) else get r j)
      found none e = elim (Bool-cases (str_eq id j)) [
        | inl same ↦ rw same (rw (← str_eq→eq id j same, e))
        | inr other ↦ rw other
      ]
      found (some a) e = elim (Bool-cases (str_eq id j)) [
        | inl same ↦
            rw (get-put_agent r v id j (with_connected b a), same) (rw (← str_eq→eq id j same, e))
        | inr other ↦ rw (get-put_agent r v id j (with_connected b a), other)
      ]

  pub set_connected-IsValid : IsValid (set_connected r id b).0
  unfolding set_connected
  set_connected-IsValid = found (get r id) refl
    where
      found : (o : Option Agent) → get r id ≡ o → IsValid (set_found r id b o).0
      found none e = v
      found (some a) e =
          let f = get-uid r v id a e in put_agent-IsValid r v id (with_connected b a) f.0 f.1

  pub replay-set_connected :
      (j : Str)
      → replay j (presence (get r j)) (set_connected r id b).1
        ≡ some (presence (get (set_connected r id b).0 j))
  unfolding set_connected
  replay-set_connected j = found (get r id) refl
    where
      found :
          (o : Option Agent)
          → get r id ≡ o
          → replay j (presence (get r j)) (set_found r id b o).1
            ≡ some (presence (get (set_found r id b o).0 j))
      found none e = unfold replay in refl
      found (some a) e = elim (Bool-cases (str_eq id j)) [
        | inl same ↦
            rw (get-put_agent r v id j (with_connected b a), same)
              (rw (← str_eq→eq id j same, e) (events_replay id a.connected b))
        | inr other ↦
            rw (get-put_agent r v id j (with_connected b a), other)
              (events_replay_ne id j (presence (get r j)) a.connected b other)
      ]
