-- ===== src/Fleet/Events.antt =====
-- What a listener of internal/fleet's registry learns about one agent: the calls about an id,
-- read as the moves of a machine with three states.
use grex.Base.{
  ◌≡◌, refl, List, [], ◌∷◌, ◌++◌, Option, none, some, Str, str_eq, arith, if◌then◌else◌, All,
}
use grex.Fleet.Types.{
  Agent, Event, agent_connected, agent_disconnected, agent_evicted, report_received,
  missing_attribute, reserved_attribute_conflict,
}

pub data Presence : Type 0 where
  absent offline online : Presence

-- The state of an id in the registry.
abbrev pub presence : Option Agent → Presence
presence none = absent
presence (some a) = if a.connected then online else offline

-- A connect call is in order unless the agent is online, a disconnect only if it is online, an
-- eviction only if it is registered and offline.
abbrev pub connects : Presence → Option Presence
connects absent = some online
connects offline = some online
connects online = none

abbrev pub disconnects : Presence → Option Presence
disconnects online = some offline
disconnects _ = none

abbrev pub evicts : Presence → Option Presence
evicts offline = some absent
evicts _ = none

abbrev pub move : Str → Presence → Event → Option Presence
move id p (agent_connected j) = if str_eq j id then connects p else some p
move id p (agent_disconnected j) = if str_eq j id then disconnects p else some p
move id p (agent_evicted j) = if str_eq j id then evicts p else some p
move id p (report_received j kind) = some p
move id p (missing_attribute j key) = some p
move id p (reserved_attribute_conflict j key) = some p

-- The calls about `id`, in order; `none` if one of them is out of order.
unfoldable pub replay : Str → Presence → List Event → Option Presence
replay id p [] = some p
replay id p (e ∷ es) = elim (move id p e) [ none ↦ none | some q ↦ replay id q es ]

pub replay-append :
    (id : Str) (p q : Presence) (es fs : List Event)
    → replay id p es ≡ some q
    → replay id p (es ++ fs) ≡ replay id q fs
unfolding replay
replay-append id p q [] fs h = ground arith
replay-append id p q (e ∷ es) fs h = onward (move id p e) (λ s. replay-append id s q es fs) h
  where
    onward :
        (o : Option Presence)
        → ((s : Presence) → replay id s es ≡ some q → replay id s (es ++ fs) ≡ replay id q fs)
        → elim o [ none ↦ none | some s ↦ replay id s es ] ≡ some q
        → elim o [ none ↦ none | some s ↦ replay id s (es ++ fs) ] ≡ replay id q fs
    onward none ih h = cc
    onward (some s) ih h = ih s h

-- Calls after which every state is as before add nothing.
pub replay-append_neutral :
    (id : Str) (p : Presence) (es fs : List Event)
    → ((q : Presence) → replay id q fs ≡ some q)
    → replay id p (es ++ fs) ≡ replay id p es
unfolding replay
replay-append_neutral id p [] fs h = h p
replay-append_neutral id p (e ∷ es) fs h =
    onward (move id p e) (λ s. replay-append_neutral id s es fs h)
  where
    onward :
        (o : Option Presence)
        → ((s : Presence) → replay id s (es ++ fs) ≡ replay id s es)
        → elim o [ none ↦ none | some s ↦ replay id s (es ++ fs) ]
          ≡ elim o [ none ↦ none | some s ↦ replay id s es ]
    onward none ih = refl
    onward (some s) ih = ih s

-- Calls about other matters, or about other ids.
abbrev pub IsQuiet : Str → Event → Type 0
IsQuiet id e = (p : Presence) → move id p e ≡ some p

pub replay_quiet :
    (id : Str) (p : Presence) (es : List Event) → All (IsQuiet id) es → replay id p es ≡ some p
unfolding replay
replay_quiet id p [] h = refl
replay_quiet id p (e ∷ es) h = rw (h.0 p, replay) (replay_quiet id p es h.1)
