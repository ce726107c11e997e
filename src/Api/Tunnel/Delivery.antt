-- ===== src/Api/Tunnel/Delivery.antt =====
-- internal/api/hapi_gateway.go: `sendGatewayFrame` and `deliverGateway`.
use echoear_cloud.Base.{String, Bool, false, Option, none, some, [], ◌∷◌, ◌++◌, lookup, ℤ}
use echoear_cloud.Api.Tunnel.Hub.{
  TunnelKey, Peer, GatewayRequest, GatewayFrame, TunnelMessage, Delivery, accepted, peer_closed,
  timed_out, unencodable, Wire, HapiTunnel, set_at, entries, Network, close_gateway, send_control,
  agent_of,
}

-- The frame as the payload of a message: `encode` is `json.Marshal`, `none` where it fails.
abbrev pub gateway_message : GatewayRequest → String → ℤ → TunnelMessage
gateway_message g payload clock = record {
  kind = "gateway_data";
  connection_id = g.connection_id;
  request_id = g.request_id;
  payload = payload;
  trace_id = "";
  phone_tunnel_sent_at = ℤ.pos 0;
  cloud_received_at = clock;
  cloud_forwarded_at = clock;
}

send_to_agent : Network → ℤ → Option Peer → GatewayRequest → String → HapiTunnel → HapiTunnel × Bool
unfolding send_control
send_to_agent net clock none g payload t = (t, false)
send_to_agent net clock (some a) g payload t =
    let (w, sent) = send_control net a (gateway_message g payload clock) t.wire in
    (record t { wire = w }, sent)

unfoldable pub send_gateway_frame :
    (GatewayFrame → Option String)
    → Network
    → ℤ
    → GatewayRequest
    → GatewayFrame
    → HapiTunnel
    → HapiTunnel × Bool
unfolding send_to_agent agent_of
send_gateway_frame encode net clock g frame t = elim (encode frame) [
  | none ↦ (t, false)
  | some payload ↦ send_to_agent net clock (agent_of t g.key) g payload t
]

unfoldable pub push_frame : Delivery → GatewayRequest → GatewayFrame → Wire → Wire
push_frame accepted g f w = record w {
  frames = set_at g.address (w.frames g.address ++ f ∷ []) w.frames;
}
push_frame peer_closed g f w = w
push_frame timed_out g f w = close_gateway g w
push_frame unencodable g f w = w

-- `decode` is `json.Unmarshal`; the last argument says how the `select` ends.
unfoldable pub deliver_gateway :
    (String → Option GatewayFrame)
    → (GatewayRequest → GatewayFrame → Delivery)
    → TunnelKey
    → String
    → String
    → HapiTunnel
    → HapiTunnel
unfolding push_frame
deliver_gateway decode choose key connection_id payload t = elim (decode payload) [
  | none ↦ t
  | some frame ↦ elim (lookup connection_id (entries (t.maps.gateways key))) [
    | none ↦ t
    | some g ↦ record t { wire = push_frame (choose g frame) g frame t.wire }
  ]
]
