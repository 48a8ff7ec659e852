-- ===== src/Server/Lifecycle.antt =====
-- Start, BeginDraining, Shutdown and closeListeners of internal/server/server.go. The listeners stand
-- in the order in which a walk of the map meets them; the certificates and the network are
-- parameters, by the listener's name.
use mathlib.Core.Path.{subst}
use grex.Base.{
  Bool, true, false, ◌&&◌, List, [], ◌∷◌, Str, map, if◌then◌else◌, ◌≡◌, ◌⊎◌, refl, ap, inl, inr,
  All, arith, Bool-cases,
}

pub record Listener : Type 0 where
  pub name : Str
  pub bound : Bool
  pub serving : Bool

pub record Server : Type 0 where
  pub ready : Bool
  pub listeners : List Listener

-- New
abbrev pub new_listener : Str → Listener
new_listener name = record { name = name; bound = false; serving = false }

unfoldable pub new_server : List Str → Server
new_server names = record { ready = false; listeners = map new_listener names }

abbrev pub closed : Listener → Listener
closed l = record l { bound = false }

unfoldable pub close_listeners : List Listener → List Listener
close_listeners ls = map closed ls

-- listenerTLSConfig for each; the first error ends the start.
abbrev pub tls_ready : (Str → Bool) → List Listener → Bool
tls_ready tls [] = true
tls_ready tls (l ∷ ls) = tls l.name && tls_ready tls ls

-- The loop that binds; `none` when an address cannot be bound, with what was bound before it still
-- to close.
abbrev pub bind_all : (Str → Bool) → List Listener → Bool × List Listener
bind_all binds [] = (true, [])
bind_all binds (l ∷ ls) =
    let rest = bind_all binds ls in
    if binds l.name then (rest.0, record l { bound = true } ∷ rest.1) else (false, l ∷ ls)

abbrev pub served : Listener → Listener
served l = record l { serving = true }

abbrev pub started : Server → Bool × List Listener → Server
started s (true, ls) = record { ready = true; listeners = map served ls }
started s (false, ls) = record s { listeners = map closed ls }

unfoldable pub start : (Str → Bool) → (Str → Bool) → Server → Server
start tls binds s = if tls_ready tls s.listeners then started s (bind_all binds s.listeners) else s

unfoldable pub begin_draining : Server → Server
begin_draining s = record s { ready = false }

-- http.Server.Shutdown closes the listener and ends its Serve, whatever the deadline.
abbrev pub shut : Listener → Listener
shut l = if l.bound then record l { bound = false; serving = false } else l

unfoldable pub shutdown : Server → Server
unfolding begin_draining
shutdown s = record (begin_draining s) { listeners = map shut s.listeners }

abbrev pub IsClosed : Listener → Type 0
IsClosed l = (l.bound ≡ false) × (l.serving ≡ false)

abbrev pub IsServing : Listener → Type 0
IsServing l = (l.bound ≡ true) × (l.serving ≡ true)

-- What a start leaves: everything served and ready, or nothing bound and not ready.
abbrev pub IsStarted : Server → Type 0
IsStarted s = (s.ready ≡ true) × All IsServing s.listeners

abbrev pub IsDown : Server → Type 0
IsDown s = (s.ready ≡ false) × All IsClosed s.listeners

new-IsClosed : (names : List Str) → All IsClosed (map new_listener names)
new-IsClosed [] = _
new-IsClosed (n ∷ names) = ((refl, refl), new-IsClosed names)

abbrev CanServe : Listener → Type 0
CanServe l = (l.bound ≡ true) × (l.serving ≡ false)

abbrev IsQuiet : Listener → Type 0
IsQuiet l = l.serving ≡ false

bind_all-outcome :
    (binds : Str → Bool) (ls : List Listener) → All IsQuiet ls → All IsQuiet (bind_all binds ls).1
bind_all-outcome binds [] h = _
bind_all-outcome binds (l ∷ ls) h = elim (Bool-cases (binds l.name)) [
  | inl e ↦ rw e (h.0, bind_all-outcome binds ls h.1)
  | inr e ↦ rw e h
]

bind_all-bound :
    (binds : Str → Bool) (ls : List Listener)
    → (bind_all binds ls).0 ≡ true
    → All (λ l. l.bound ≡ true) (bind_all binds ls).1
bind_all-bound binds [] h = _
bind_all-bound binds (l ∷ ls) h = ground (arith, bind_all-bound binds ls, h)

closed-IsClosed : (ls : List Listener) → All IsQuiet ls → All IsClosed (map closed ls)
closed-IsClosed [] h = _
closed-IsClosed (l ∷ ls) h = ((refl, h.0), closed-IsClosed ls h.1)

served-IsServing :
    (ls : List Listener) → All (λ l. l.bound ≡ true) ls → All IsServing (map served ls)
served-IsServing [] h = _
served-IsServing (l ∷ ls) h = ((h.0, refl), served-IsServing ls h.1)

quiet : (ls : List Listener) → All IsClosed ls → All IsQuiet ls
quiet [] h = _
quiet (l ∷ ls) h = (h.0.1, quiet ls h.1)

shut-IsClosed_serving : (ls : List Listener) → All IsServing ls → All IsClosed (map shut ls)
shut-IsClosed_serving [] h = _
shut-IsClosed_serving (l ∷ ls) h = (rw h.0.0 (refl, refl), shut-IsClosed_serving ls h.1)

shut_one : (l : Listener) → IsClosed l → IsClosed (shut l)
shut_one l h = ground (arith, h.0, h.1)

shut-IsClosed_closed : (ls : List Listener) → All IsClosed ls → All IsClosed (map shut ls)
shut-IsClosed_closed [] h = _
shut-IsClosed_closed (l ∷ ls) h = (shut_one l h.0, shut-IsClosed_closed ls h.1)

pub start-outcome :
    (tls binds : Str → Bool) (s : Server)
    → IsDown s
    → IsStarted (start tls binds s) ⊎ IsDown (start tls binds s)
unfolding start
start-outcome tls binds s d = elim (Bool-cases (tls_ready tls s.listeners)) [
  | inl e ↦ rw e (outcome (bind_all binds s.listeners) refl)
  | inr e ↦ rw e (inr d)
]
  where
    outcome :
        (o : Bool × List Listener)
        → bind_all binds s.listeners ≡ o
        → IsStarted (started s o) ⊎ IsDown (started s o)
    outcome (true, ls) e = inl (
      refl,
      served-IsServing ls (
          subst (λ (p : Bool × List Listener). All (λ l. l.bound ≡ true) p.1) e
            (bind_all-bound binds s.listeners (ap (λ (p : Bool × List Listener). p.0) e))),
    )
    outcome (false, ls) e = inr (
      d.0,
      closed-IsClosed ls (
          subst (λ (p : Bool × List Listener). All IsQuiet p.1) e
            (bind_all-outcome binds s.listeners (quiet s.listeners d.1))),
    )

pub shutdown-IsDown : (s : Server) → IsStarted s ⊎ IsDown s → IsDown (shutdown s)
unfolding shutdown begin_draining
shutdown-IsDown s (inl h) = (refl, shut-IsClosed_serving s.listeners h.1)
shutdown-IsDown s (inr h) = (refl, shut-IsClosed_closed s.listeners h.1)

-- A start is all or nothing: whichever certificates load and whichever addresses can be bound, the
-- server is then ready with every listener bound and serving, or it is not ready and none is bound
-- or serving. After a shutdown it is not ready and none is bound or serving.
pub start-shutdown :
    (tls binds : Str → Bool) (names : List Str)
    → (IsStarted (start tls binds (new_server names)) ⊎ IsDown (start tls binds (new_server names)))
      × IsDown (shutdown (start tls binds (new_server names)))
unfolding new_server
start-shutdown tls binds names =
    let s = new_server names in
    let h = start-outcome tls binds s (refl, new-IsClosed names) in
    (h, shutdown-IsDown (start tls binds s) h)
