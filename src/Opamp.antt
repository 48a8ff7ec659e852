-- ===== src/Opamp.antt =====
-- internal/opamp/handler.go: the callbacks of one connection over the registry. The OpAMP server
-- library calls them; metrics are the list of the calls made on them. Logging is not modelled.
pub mod Close
pub mod FullState
pub mod Gateways
mod Tests
use grex.Base.{
  ℕ, Bool, true, false, not, ◌&&◌, List, [], ◌∷◌, ◌++◌, Option, none, some, Str, text, str_eq,
  to_lower, if◌then◌else◌,
}
use grex.Fleet.Types.{Agent, ConnMeta, Event, AgentToServer, CustomMessage}
use grex.Fleet.Registry.{Registry, InstanceUid, report, set_connected, get}
use grex.Persistence.Flush.{mark}

abbrev pub gateway_capability : Str
gateway_capability = text "com.bindplane.opamp-gateway"

abbrev pub gateway_connect_type : Str
gateway_connect_type = text "connect"

pub data Metric : Type 0 where
  message message_error gateway_connection_opened gateway_connection_closed : Metric
  gateway_connect : Bool → Metric

-- `agents` is a set: an id is in it once.
pub record ConnState : Type 0 where
  pub transport : Str
  pub via_gateway : Bool
  pub agents : List Str

pub record Handler : Type 0 where
  pub registry : Registry
  pub draining : Bool

-- What a callback does: the handler and the connection after it, the registry's listener calls,
-- and the calls on the metrics.
pub record Done : Type 0 where
  pub handler : Handler
  pub conn : ConnState
  pub events : List Event
  pub metrics : List Metric

-- strings.EqualFold with an ASCII header.
unfoldable pub transport_for : Str → Str
transport_for upgrade =
    if str_eq (to_lower upgrade) (text "websocket") then text "ws" else text "http"

unfoldable pub drain : Handler → Handler
drain h = record h { draining = true }

-- The response to a connection attempt: refused with 503, or a new connection state.
unfoldable pub on_connecting : Handler → Str → Option ConnState
on_connecting h upgrade =
    if h.draining
    then none
    else some (record { transport = transport_for upgrade; via_gateway = false; agents = [] })

-- The peer of a connection as net and crypto/tls report it; `none` where they report nothing.
pub record Peer : Type 0 where
  pub remote_addr : Option Str
  pub tls_subject : Option Str

abbrev or_blank : Option Str → Str
or_blank none = []
or_blank (some s) = s

unfoldable pub conn_meta : ConnState → Option Peer → ConnMeta
conn_meta cs none = record {
  remote_addr = [];
  tls_subject = [];
  via_gateway = cs.via_gateway;
  transport = cs.transport;
}
conn_meta cs (some p) = record {
  remote_addr = or_blank p.remote_addr;
  tls_subject = or_blank p.tls_subject;
  via_gateway = cs.via_gateway;
  transport = cs.transport;
}

abbrev pub track_id : ConnState → Option Str → ConnState
track_id cs none = cs
track_id cs (some id) = record cs { agents = mark id cs.agents }

unfoldable pub track_agent : InstanceUid → ConnState → AgentToServer → ConnState
track_agent from_bytes cs msg = track_id cs (from_bytes msg.instance_uid)

abbrev pub lacks_description : Option Agent → Bool
lacks_description none = false
lacks_description (some a) = not a.description_reported

abbrev pub id_needs_full_state : Registry → Option Str → Bool
id_needs_full_state r none = false
id_needs_full_state r (some id) = lacks_description (get r id)

unfoldable pub needs_full_state : InstanceUid → Registry → AgentToServer → Bool
needs_full_state from_bytes r msg = id_needs_full_state r (from_bytes msg.instance_uid)

pub record GatewayConnectResult : Type 0 where
  pub request_uid : Str
  pub accept : Bool
  pub http_status_code : ℕ

-- protobufs.ServerToAgent: a report's reply with its flag, or the answer to a gateway, whose JSON
-- text is carried as the value that is marshalled.
pub data ServerToAgent : Type 0 where
  report_reply : List ℕ → Bool → ServerToAgent
  gateway_reply : List ℕ → GatewayConnectResult → ServerToAgent

-- `decoded` is the request uid that json.Unmarshal reads from the payload, `none` on its error.
abbrev pub gateway_result : Option Str → GatewayConnectResult
gateway_result none = record { request_uid = []; accept = false; http_status_code = 400 }
gateway_result (some uid) = record { request_uid = uid; accept = true; http_status_code = 200 }

-- The payload of a gateway's connect message, decoded.
abbrev pub Unmarshal : Type 0
Unmarshal = Str → Option Str

unfoldable pub on_gateway_connect :
    Unmarshal → Handler → ConnState → List ℕ → CustomMessage → Done × ServerToAgent
on_gateway_connect unmarshal h cs uid custom =
    let result = gateway_result (unmarshal custom.payload) in
    (
      record {
        handler = h;
        conn = record cs { via_gateway = true };
        events = [];
        metrics =
            (if cs.via_gateway then [] else gateway_connection_opened ∷ [])
            ++ (gateway_connect result.accept ∷ []);
      },
      gateway_reply uid result,
    )

abbrev pub is_gateway_connect : CustomMessage → Bool
is_gateway_connect c = str_eq c.capability gateway_capability && str_eq c.type gateway_connect_type

unfoldable pub on_report :
    InstanceUid → Handler → ConnState → Option Peer → AgentToServer → ℕ → Done × ServerToAgent
on_report from_bytes h cs peer msg now =
    let tracked = track_agent from_bytes cs msg in
    let (r, events) = report from_bytes h.registry msg (conn_meta tracked peer) now in
    (
      record { handler = record h { registry = r }; conn = tracked; events = events; metrics = [] },
      report_reply msg.instance_uid (needs_full_state from_bytes r msg),
    )

-- The test on the custom message, of which an absent one has empty fields.
unfoldable pub handle :
    InstanceUid
    → Unmarshal
    → Handler
    → ConnState
    → Option Peer
    → AgentToServer
    → ℕ
    → Option CustomMessage
    → Done × ServerToAgent
handle from_bytes unmarshal h cs peer msg now none = on_report from_bytes h cs peer msg now
handle from_bytes unmarshal h cs peer msg now (some c) =
    if is_gateway_connect c
    then on_gateway_connect unmarshal h cs msg.instance_uid c
    else on_report from_bytes h cs peer msg now

unfoldable pub on_message :
    InstanceUid
    → Unmarshal
    → Handler
    → ConnState
    → Option Peer
    → AgentToServer
    → ℕ
    → Done × ServerToAgent
on_message from_bytes unmarshal h cs peer msg now =
    let (done, reply) = handle from_bytes unmarshal h cs peer msg now msg.custom_message in
    (record done { metrics = message ∷ done.metrics }, reply)

unfoldable pub on_read_message_error : Handler → ConnState → Done
on_read_message_error h cs = record {
  handler = h;
  conn = cs;
  events = [];
  metrics = message_error ∷ [];
}

-- The loop over the agents of a closed connection.
pub disconnect_all : List Str → Registry → Registry × List Event
disconnect_all [] r = (r, [])
disconnect_all (id ∷ ids) r =
    let (s, es) = set_connected r id false in let (t, fs) = disconnect_all ids s in (t, es ++ fs)

unfoldable pub on_connection_close : Handler → ConnState → Done
unfolding disconnect_all
on_connection_close h cs =
    let (r, events) =
      if str_eq cs.transport (text "ws")
      then disconnect_all cs.agents h.registry
      else (h.registry, []) in
    record {
      handler = record h { registry = r };
      conn = record cs { agents = [] };
      events = events;
      metrics = if cs.via_gateway then gateway_connection_closed ∷ [] else [];
    }
