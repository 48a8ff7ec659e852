-- ===== src/Opamp/Close.antt =====
-- What the end of a connection does to the registry of internal/opamp/handler.go.
use mathlib.Core.Option
use grex.Base.{
  ◌≡◌, refl, Bool, true, false, ◌||◌, List, [], ◌∷◌, Option, none, some, Str, text, str_eq, elem,
  if◌then◌else◌, ap, ◌∙◌, ◌≢◌, str_eq-false, Bool-cases, inl, inr,
}
use grex.Fleet.Types.{Agent}
use grex.Fleet.Events.{replay, replay-append, presence}
use grex.Fleet.Registry.{Registry, get, set_connected}
use grex.Fleet.Registry.Shards.{IsValid}
use grex.Fleet.Registry.Connecting.{
  with_connected, get-set_connected, set_connected-IsValid, replay-set_connected,
}
use grex.Opamp.{Handler, ConnState, disconnect_all, on_connection_close}

off_twice :
    (b c : Bool) (o : Option Agent)
    → (if b
        then Option.map
            (with_connected false)
            (if c then Option.map (with_connected false) o else o)
        else (if c then Option.map (with_connected false) o else o))
      ≡ (if c || b then Option.map (with_connected false) o else o)
off_twice true true none = refl
off_twice true true (some a) = refl
off_twice true false o = refl
off_twice false true o = refl
off_twice false false o = refl

disconnect_all-IsValid :
    (ids : List Str) (r : Registry) → IsValid r → IsValid (disconnect_all ids r).0
unfolding disconnect_all
disconnect_all-IsValid [] r v = v
disconnect_all-IsValid (id ∷ ids) r v =
    disconnect_all-IsValid ids (set_connected r id false).0 (set_connected-IsValid r v id false)

disconnect_all-get :
    (ids : List Str) (r : Registry) (v : IsValid r) (j : Str)
    → get (disconnect_all ids r).0 j
      ≡ (if elem j ids then Option.map (with_connected false) (get r j) else get r j)
unfolding disconnect_all
disconnect_all-get [] r v j = refl
disconnect_all-get (id ∷ ids) r v j =
    disconnect_all-get ids (set_connected r id false).0 (set_connected-IsValid r v id false) j
    ∙ ap (λ o. if elem j ids then Option.map (with_connected false) o else o)
        (get-set_connected r v id false j)
    ∙ off_twice (elem j ids) (str_eq id j) (get r j)

replay-disconnect_all :
    (ids : List Str) (r : Registry) (v : IsValid r) (j : Str)
    → replay j (presence (get r j)) (disconnect_all ids r).1
      ≡ some (presence (get (disconnect_all ids r).0 j))
unfolding disconnect_all
replay-disconnect_all [] r v j = unfold replay in refl
replay-disconnect_all (id ∷ ids) r v j =
    replay-append j (presence (get r j)) _ (set_connected r id false).1 _
      (replay-set_connected r v id false j)
    ∙ replay-disconnect_all ids (set_connected r id false).0 (set_connected-IsValid r v id false) j

module _ (h : Handler) (v : IsValid h.registry) (cs : ConnState) (j : Str) where
  -- When a WebSocket connection ends, over a well-formed registry, exactly the agents that
  -- reported over it are marked disconnected, and nothing else about any agent changes.
  pub on_connection_close-get :
      cs.transport ≡ text "ws"
      → get (on_connection_close h cs).handler.registry j ≡ (
          if elem j cs.agents
          then Option.map (with_connected false) (get h.registry j)
          else get h.registry j)
  unfolding on_connection_close str_eq
  on_connection_close-get ws = rw ws (disconnect_all-get cs.agents h.registry v j)

  -- Over a well-formed registry, the listener calls made when a connection ends lead, for every
  -- agent, from its presence in the registry before to its presence in it afterwards.
  pub replay-on_connection_close :
      replay j (presence (get h.registry j)) (on_connection_close h cs).events
      ≡ some (presence (get (on_connection_close h cs).handler.registry j))
  unfolding on_connection_close
  replay-on_connection_close = elim (Bool-cases (str_eq cs.transport (text "ws"))) [
    | inl ws ↦ rw ws (replay-disconnect_all cs.agents h.registry v j)
    | inr http ↦ rw http (unfold replay in refl)
  ]

-- When a connection of another transport ends, such as a plain HTTP request, the registry is
-- as before and the listener hears nothing.
pub on_connection_close-http :
    (h : Handler) (cs : ConnState)
    → cs.transport ≢ text "ws"
    → ((on_connection_close h cs).handler ≡ h) × ((on_connection_close h cs).events ≡ [])
unfolding on_connection_close
on_connection_close-http h cs other = rw (str_eq-false cs.transport (text "ws") other) (refl, refl)
