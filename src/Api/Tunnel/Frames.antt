-- ===== src/Api/Tunnel/Frames.antt =====
-- internal/api/tunnel.go: `readLoop`. One frame from the socket is one round of the loop.
use echoear_cloud.Base.{
  String, len, Bool, true, false, Option, none, some, List, [], ◌∷◌, ◌==◌, ◌&&◌, ◌||◌, not,
  if◌then◌else◌, lookup, str_eq, trim_space, is_empty, ℤ, is_positive,
}
use echoear_cloud.Api.Identifier.{valid_identifier}
use echoear_cloud.Api.Tunnel.Hub.{
  Role, agent, mobile, Peer, GatewayRequest, GatewayFrame, TunnelMessage, control, Delivery,
  HapiTunnel, entries, Network, send_control, agent_of,
}
use echoear_cloud.Api.Tunnel.Delivery.{deliver_gateway}
use echoear_cloud.Api.Tunnel.Discovery.{deliver_discovery}

-- What the code around the loop supplies: the ends of the sends, `json.Unmarshal` of a gateway
-- frame, and the two readings of the clock.
pub record Surroundings : Type 0 where
  pub net : Network
  pub decode : String → Option GatewayFrame
  pub choose : GatewayRequest → GatewayFrame → Delivery
  pub received_at : ℤ
  pub forwarded_at : ℤ

-- What `ReadMessage` returns: a frame that is not text, a text that is no message, or a message.
pub data Incoming : Type 0 where
  not_text not_json : Incoming
  parsed : TunnelMessage → Incoming

abbrev pub is_agent : Role → Bool
is_agent agent = true
is_agent mobile = false

-- The test of the frame's type and payload.
unfoldable pub invalid_frame : Role → TunnelMessage → Bool
invalid_frame role m =
    len m.payload == 0
    || (not (str_eq m.kind "data")
        && (not (is_agent role)
            || (not (str_eq m.kind "gateway_data")
                && not (str_eq m.kind "connection_response")
                && not (str_eq m.kind "connection_error"))))

unfoldable pub send : Surroundings → Peer → TunnelMessage → HapiTunnel → HapiTunnel
unfolding send_control
send s p m t = record t { wire = (send_control s.net p m t.wire).0 }

unfoldable pub clean_trace : String → String
unfolding trim_space
clean_trace raw =
    let trace = trim_space raw in
    if not (is_empty trace) && not (valid_identifier trace 8 128) then "" else trace

unfoldable pub clean_sent_at : String → ℤ → ℤ
clean_sent_at trace sent_at =
    if is_empty trace || not (is_positive sent_at) then ℤ.pos 0 else sent_at

-- What a phone's frame becomes: the identifiers are those of the connection, never of the frame.
unfoldable pub forwarded : Surroundings → Peer → TunnelMessage → TunnelMessage
unfolding clean_trace clean_sent_at
forwarded s peer m =
    let trace = clean_trace m.trace_id in
    record {
      kind = "data";
      connection_id = peer.connection_id;
      request_id = peer.request_id;
      payload = m.payload;
      trace_id = trace;
      phone_tunnel_sent_at = clean_sent_at trace m.phone_tunnel_sent_at;
      cloud_received_at = s.received_at;
      cloud_forwarded_at = s.forwarded_at;
    }

unfoldable pub from_mobile : Surroundings → Peer → TunnelMessage → HapiTunnel → HapiTunnel
unfolding agent_of send forwarded
from_mobile s peer m t = elim (agent_of t peer.key) [
  | none ↦ send s peer (control "agent_offline") t
  | some a ↦ send s a (forwarded s peer m) t
]

unfoldable pub to_mobile : Surroundings → Option Peer → TunnelMessage → HapiTunnel → HapiTunnel
unfolding send
to_mobile s none m t = t
to_mobile s (some p) m t = send s p (record (control "data") { payload = m.payload }) t

unfoldable pub from_agent : Surroundings → Peer → TunnelMessage → HapiTunnel → HapiTunnel
unfolding to_mobile
from_agent s peer m t =
    let connection_id = trim_space m.connection_id in
    if str_eq m.kind "connection_response" || str_eq m.kind "connection_error"
    then deliver_discovery peer (trim_space m.request_id) m.payload t
    else if str_eq m.kind "gateway_data"
    then deliver_gateway s.decode s.choose peer.key connection_id m.payload t
    else to_mobile s (lookup connection_id (entries (t.maps.mobiles peer.key))) m t

unfoldable pub by_role : Role → Surroundings → Peer → TunnelMessage → HapiTunnel → HapiTunnel
by_role mobile s peer m t = from_mobile s peer m t
by_role agent s peer m t = from_agent s peer m t

unfoldable pub read_frame : Surroundings → Peer → Incoming → HapiTunnel → HapiTunnel
unfolding by_role from_mobile from_agent send
read_frame s peer not_text t = t
read_frame s peer not_json t = send s peer (control "invalid_frame") t
read_frame s peer (parsed m) t =
    if invalid_frame peer.role m
    then send s peer (control "invalid_frame") t
    else by_role peer.role s peer m t

-- The loop runs until `ReadMessage` fails: here, over the frames that came before.
unfoldable pub read_loop : Peer → List (Surroundings × Incoming) → HapiTunnel → HapiTunnel
unfolding read_frame
read_loop peer [] t = t
read_loop peer ((s, f) ∷ fs) t = read_loop peer fs (read_frame s peer f t)
