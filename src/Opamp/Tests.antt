-- ===== src/Opamp/Tests.antt =====
-- Callbacks of internal/opamp/handler.go on small connections.
use mathlib.Core.Option
use grex.Base.{◌≤◌, ◌≡◌, refl, false, not, ◌||◌, [], ◌∷◌, none, some, text, str_eq, to_lower}
use grex.Fleet.Types.{AgentToServer}
use grex.Fleet.Registry.{get, find_or_new}
use grex.Fleet.Registry.Connecting.{with_connected}
use grex.Fleet.Tests.{fleet, fleet-IsValid, uid, msg, read_uid}
use grex.Opamp.{
  Handler, ConnState, Unmarshal, on_connecting, on_connection_close, on_report, report_reply,
  transport_for, gateway_capability, gateway_connect_type,
}
use grex.Opamp.Close.{on_connection_close-get}
use grex.Opamp.FullState.{on_report_asks}
use grex.Opamp.Gateways.{Incoming, opened, closed, serve, serve-balanced}

abbrev handler : Handler
handler = record { registry = fleet; draining = false }

abbrev socket : ConnState
socket = record { transport = text "ws"; via_gateway = false; agents = uid ∷ [] }

on_connection_close-get_example :
    get (on_connection_close handler socket).handler.registry uid
    ≡ Option.map (with_connected false) (get fleet uid)
unfolding str_eq
on_connection_close-get_example = on_connection_close-get handler fleet-IsValid socket uid refl

abbrev heartbeat : AgentToServer
heartbeat = record msg { agent_description = none }

on_report_asks_example :
    (on_report read_uid handler socket none heartbeat 130).1
    ≡ report_reply uid (not (false || (find_or_new fleet uid 130).description_reported))
on_report_asks_example =
    on_report_asks read_uid handler socket none heartbeat 130 uid fleet-IsValid refl

abbrev unmarshal : Unmarshal
unmarshal payload = some payload

abbrev relay : Incoming
relay = record {
  peer = none;
  msg = record heartbeat {
    custom_message =
        some
          (record { capability = gateway_capability; type = gateway_connect_type; payload = [] });
  };
  now = 130;
}

abbrev fresh : ConnState
fresh = record { transport = text "ws"; via_gateway = false; agents = [] }

serve-balanced_example :
    (opened (serve read_uid unmarshal (relay ∷ relay ∷ []) handler fresh).1
      ≡ closed
          (on_connection_close handler
            (serve read_uid unmarshal (relay ∷ relay ∷ []) handler fresh).0.1).metrics)
    × (opened (serve read_uid unmarshal (relay ∷ relay ∷ []) handler fresh).1 ≤ 1)
unfolding on_connecting transport_for to_lower str_eq
serve-balanced_example =
    serve-balanced read_uid unmarshal handler handler handler (text "WebSocket") fresh
      (relay ∷ relay ∷ []) refl
