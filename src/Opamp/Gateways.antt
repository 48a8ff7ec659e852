-- ===== src/Opamp/Gateways.antt =====
-- The gauge of gateway connections that internal/opamp/handler.go drives.
use grex.Base.{
  ℕ, ◌+◌, ◌≡◌, refl, Bool, true, false, List, [], ◌∷◌, ◌++◌, Option, none, some, Str, arith,
  Bool-cases, inl, inr, suc, ◌≤◌, ap,
}
use grex.Fleet.Types.{AgentToServer, CustomMessage}
use grex.Fleet.Registry.{InstanceUid}
use grex.Opamp.{
  Handler, ConnState, Peer, Metric, message, message_error, gateway_connection_opened,
  gateway_connection_closed, gateway_connect, Unmarshal, is_gateway_connect, on_gateway_connect,
  on_report, handle, on_message, on_connection_close, on_connecting, track_agent, track_id,
}

-- How often each call on the gauge is in a list of calls.
abbrev pub opened : List Metric → ℕ
opened [] = 0
opened (gateway_connection_opened ∷ ms) = suc (opened ms)
opened (_ ∷ ms) = opened ms

abbrev pub closed : List Metric → ℕ
closed [] = 0
closed (gateway_connection_closed ∷ ms) = suc (closed ms)
closed (_ ∷ ms) = closed ms

abbrev pub count : Bool → ℕ
count true = 1
count false = 0

opened-append : (ms ns : List Metric) → opened (ms ++ ns) ≡ opened ms + opened ns
opened-append [] ns = omega arith
opened-append (gateway_connection_opened ∷ ms) ns = omega (arith, opened-append ms ns)
opened-append (gateway_connection_closed ∷ ms) ns = opened-append ms ns
opened-append (message ∷ ms) ns = opened-append ms ns
opened-append (message_error ∷ ms) ns = opened-append ms ns
opened-append (gateway_connect b ∷ ms) ns = opened-append ms ns

-- A message as the connection's loop reads it.
pub record Incoming : Type 0 where
  pub peer : Option Peer
  pub msg : AgentToServer
  pub now : ℕ

-- The messages of one connection, one after the other, with the metrics of all.
unfoldable pub serve :
    InstanceUid
    → Unmarshal
    → List Incoming
    → Handler
    → ConnState
    → (Handler × ConnState) × List Metric
serve from_bytes unmarshal [] h cs = ((h, cs), [])
serve from_bytes unmarshal (i ∷ is) h cs =
    let done = (on_message from_bytes unmarshal h cs i.peer i.msg i.now).0 in
    let (after, metrics) = serve from_bytes unmarshal is done.handler done.conn in
    (after, done.metrics ++ metrics)

module _ (from_bytes : InstanceUid) (unmarshal : Unmarshal) where
  report_opens :
      (h : Handler) (cs : ConnState) (peer : Option Peer) (msg : AgentToServer) (now : ℕ)
      → (opened (on_report from_bytes h cs peer msg now).0.metrics ≡ 0)
        × ((on_report from_bytes h cs peer msg now).0.conn.via_gateway ≡ cs.via_gateway)
  unfolding on_report track_agent
  report_opens h cs peer msg now = (refl, tracked (from_bytes msg.instance_uid))
    where
      tracked : (o : Option Str) → (track_id cs o).via_gateway ≡ cs.via_gateway
      tracked none = refl
      tracked (some id) = refl

  handle_opens :
      (h : Handler) (cs : ConnState) (peer : Option Peer) (msg : AgentToServer) (now : ℕ)
      → (o : Option CustomMessage)
      → opened (handle from_bytes unmarshal h cs peer msg now o).0.metrics + count cs.via_gateway
        ≡ count (handle from_bytes unmarshal h cs peer msg now o).0.conn.via_gateway
  unfolding handle on_gateway_connect
  handle_opens h cs peer msg now none =
      let (none_opened, same) = report_opens h cs peer msg now in
      rw (none_opened, same) (omega arith)
  handle_opens h cs peer msg now (some c) = elim (Bool-cases (is_gateway_connect c)) [
    | inl connect ↦ rw connect (gateway cs.via_gateway refl)
    | inr other ↦ rw other (
        let (none_opened, same) = report_opens h cs peer msg now in
        rw (none_opened, same) (omega arith))
  ]
    where
      gateway :
          (b : Bool)
          → cs.via_gateway ≡ b
          → opened (on_gateway_connect unmarshal h cs msg.instance_uid c).0.metrics
              + count cs.via_gateway
            ≡ count (on_gateway_connect unmarshal h cs msg.instance_uid c).0.conn.via_gateway
      gateway true e = rw e (omega arith)
      gateway false e = rw e (omega arith)

  -- Over any messages of a connection the gauge is opened at most once, and it is open at the end
  -- exactly if the connection is then marked as a gateway's.
  pub serve_opens :
      (is : List Incoming) (h : Handler) (cs : ConnState)
      → opened (serve from_bytes unmarshal is h cs).1 + count cs.via_gateway
        ≡ count (serve from_bytes unmarshal is h cs).0.1.via_gateway
  unfolding serve on_message
  serve_opens [] h cs = omega arith
  serve_opens (i ∷ is) h cs =
      let first = handle from_bytes unmarshal h cs i.peer i.msg i.now i.msg.custom_message in
      omega (
        arith,
        opened-append first.0.metrics
            (serve from_bytes unmarshal is first.0.handler first.0.conn).1,
        handle_opens h cs i.peer i.msg i.now i.msg.custom_message,
        serve_opens is first.0.handler first.0.conn,
      )

accepted_plain :
    (h : Handler) (upgrade : Str) (cs : ConnState)
    → on_connecting h upgrade ≡ some cs
    → cs.via_gateway ≡ false
unfolding on_connecting
accepted_plain h upgrade cs e = ground arith

close_closes :
    (h : Handler) (cs : ConnState)
    → closed (on_connection_close h cs).metrics ≡ count cs.via_gateway
unfolding on_connection_close
close_closes h cs = ground arith

-- Every connection that is accepted, whatever messages it carries, opens the gauge as often as its
-- end closes it, and at most once.
pub serve-balanced :
    (from_bytes : InstanceUid) (unmarshal : Unmarshal) (h k l : Handler) (upgrade : Str)
    → (cs : ConnState) (is : List Incoming) → on_connecting h upgrade ≡ some cs
    → (opened (serve from_bytes unmarshal is k cs).1
        ≡ closed (on_connection_close l (serve from_bytes unmarshal is k cs).0.1).metrics)
      × (opened (serve from_bytes unmarshal is k cs).1 ≤ 1)
serve-balanced from_bytes unmarshal h k l upgrade cs is accepted = ground (
  arith,
  serve_opens from_bytes unmarshal is k cs,
  ap count (accepted_plain h upgrade cs accepted),
  close_closes l (serve from_bytes unmarshal is k cs).0.1,
)
