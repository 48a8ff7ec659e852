-- ===== src/Process/Starting.antt =====
-- Where the start of cmd/grex/main.go ends.
use grex.Base.{
  ◌≡◌, refl, sym, ◌∙◌, Bool, true, false, not, ◌&&◌, Option, none, some, inl, inr, ◌⊎◌,
  if◌then◌else◌, ◌≢◌,
}
use grex.Config.Load.{Settings}
use grex.Server.Lifecycle.{Server, new_server, IsStarted, IsDown, start-outcome}
use grex.Server.Tls.{tls_configs}
use grex.Process.{
  Process, RunError, start_purge_client, start_river_ui, Host, has_database, build, StartUp,
  refused, waiting, start_server, start_up, tls_loads, run_with, run_loaded, listening,
}

-- What `run` leaves when it returns an error before it waits.
abbrev pub IsRefused : RunError → Server → Type 0
IsRefused e s = IsDown s ⊎ (IsStarted s × ((e ≡ start_purge_client) ⊎ (e ≡ start_river_ui)))

abbrev Outcome : Host → StartUp → Type 0
Outcome h (refused e s) = IsRefused e s
Outcome h (waiting p) = IsStarted p.server

if-Outcome :
    (h : Host) (b : Bool) (x y : StartUp)
    → Outcome h x
    → Outcome h y
    → Outcome h (if b then x else y)
if-Outcome h true x y hx hy = hx
if-Outcome h false x y hx hy = hy

if-Outcome_cases :
    (h : Host) (b : Bool) (x y : StartUp)
    → (b ≡ true → Outcome h x)
    → (b ≡ false → Outcome h y)
    → Outcome h (if b then x else y)
if-Outcome_cases h true x y hx hy = hx refl
if-Outcome_cases h false x y hx hy = hy refl

true_not_false : true ≢ false
true_not_false e = cc

module _ (h : Host) (s : Settings) (loaded : h.loaded ≡ some s) where
  abbrev built : Process
  built = build s h.tables

  built-IsDown : IsDown built.server
  unfolding build new_server
  built-IsDown = (refl, ((refl, refl), ((refl, refl), ((refl, refl), tt))))

  abbrev begun : Process
  begun = start_server h s built

  begun-outcome : IsStarted begun.server ⊎ IsDown begun.server
  begun-outcome =
      start-outcome (tls_loads (tls_configs h.material s.checked)) h.binds built.server built-IsDown

  begun-up : begun.server.ready ≡ true → IsStarted begun.server
  begun-up ready = elim begun-outcome [
    | inl up ↦ up
    | inr down ↦ absurd (true_not_false (sym ready ∙ down.0))
  ]

  begun-IsDown : begun.server.ready ≡ false → IsDown begun.server
  begun-IsDown away = elim begun-outcome [
    | inl up ↦ absurd (true_not_false (sym up.0 ∙ away))
    | inr down ↦ down
  ]

  start_clients-outcome :
      (b c : Bool)
      → IsStarted begun.server
      → Outcome h (
          if b
          then refused start_purge_client begun.server
          else if c
          then refused start_river_ui begun.server
          else waiting begun)
  start_clients-outcome true c up = inr (up, inl refl)
  start_clients-outcome false true up = inr (up, inr refl)
  start_clients-outcome false false up = up

  listening-outcome : Outcome h (listening h (has_database s) begun)
  listening-outcome =
      if-Outcome_cases h begun.server.ready _ _
        (λ ready.
          start_clients-outcome (has_database s && not h.starts_purge_client)
            (has_database s && not h.starts_river_ui) (begun-up ready))
        (λ away. inl (begun-IsDown away))

  run_with-outcome : Outcome h (run_with h s)
  run_with-outcome = if-Outcome h (has_database s && not h.opens_pool) _ _ (inl built-IsDown) (
      if-Outcome h (has_database s && not h.builds_purge_client) _ _ (inl built-IsDown) (
        if-Outcome h (not h.attaches) _ _ (inl built-IsDown) (
          if-Outcome h (not h.builds_ui) _ _ (inl built-IsDown) (
            if-Outcome h (has_database s && not h.builds_river_ui) _ _ (inl built-IsDown)
              listening-outcome))))

start_up-outcome : (h : Host) → Outcome h (start_up h)
unfolding start_up new_server
start_up-outcome h = if-Outcome h h.parses_flags _ _ (found h.loaded refl) (inl (refl, tt))
  where
    found : (o : Option Settings) → h.loaded ≡ o → Outcome h (run_loaded h o)
    found none e = inl (refl, tt)
    found (some s) e = run_with-outcome h s e

-- A start that is refused leaves no listener bound, unless the error is that of the purge client or
-- of the River page, which start after the listeners: then all of them are left serving.
pub start_up-refused :
    (h : Host) (e : RunError) (s : Server) → start_up h ≡ refused e s → IsRefused e s
start_up-refused h e s is = rw is at (start_up-outcome h)
