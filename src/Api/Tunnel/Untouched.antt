-- ===== src/Api/Tunnel/Untouched.antt =====
-- Frames that pass through the hub leave its maps alone: internal/api/tunnel.go `readLoop`,
-- internal/api/hapi_gateway.go `sendGatewayFrame`.
use echoear_cloud.Base.{String, ◌≡◌, refl, Option, arith, ℤ, trim_space, if-cases}
use echoear_cloud.Api.Tunnel.Hub.{
  Role, agent, mobile, Peer, GatewayRequest, GatewayFrame, TunnelMessage, HapiTunnel, TunnelKey,
  Delivery, Network,
}
use echoear_cloud.Api.Tunnel.Delivery.{send_gateway_frame, deliver_gateway}
use echoear_cloud.Api.Tunnel.Discovery.{deliver_discovery}
use echoear_cloud.Api.Tunnel.Frames.{
  Surroundings, Incoming, parsed, not_text, not_json, read_frame, from_agent, from_mobile, by_role,
}

pub deliver_gateway-maps :
    (decode : String → Option GatewayFrame) (choose : GatewayRequest → GatewayFrame → Delivery)
    (k : TunnelKey) (id payload : String) (t : HapiTunnel)
    → (deliver_gateway decode choose k id payload t).maps ≡ t.maps
unfolding deliver_gateway
deliver_gateway-maps decode choose k id payload t = ground arith

pub deliver_discovery-maps :
    (p : Peer) (id payload : String) (t : HapiTunnel)
    → (deliver_discovery p id payload t).maps ≡ t.maps
unfolding deliver_discovery
deliver_discovery-maps p id payload t = ground arith

from_agent-maps :
    (s : Surroundings) (p : Peer) (m : TunnelMessage) (t : HapiTunnel)
    → (from_agent s p m t).maps ≡ t.maps
unfolding from_agent
from_agent-maps s p m t = ground (
  arith,
  deliver_discovery-maps p (trim_space m.request_id) m.payload t,
  deliver_gateway-maps s.decode s.choose p.key (trim_space m.connection_id) m.payload t,
)

from_mobile-maps :
    (s : Surroundings) (p : Peer) (m : TunnelMessage) (t : HapiTunnel)
    → (from_mobile s p m t).maps ≡ t.maps
unfolding from_mobile
from_mobile-maps s p m t = ground arith

by_role-maps :
    (r : Role) (s : Surroundings) (p : Peer) (m : TunnelMessage) (t : HapiTunnel)
    → (by_role r s p m t).maps ≡ t.maps
unfolding by_role
by_role-maps agent s p m t = from_agent-maps s p m t
by_role-maps mobile s p m t = from_mobile-maps s p m t

pub read_frame-maps :
    (s : Surroundings) (p : Peer) (f : Incoming) (t : HapiTunnel)
    → (read_frame s p f t).maps ≡ t.maps
unfolding read_frame
read_frame-maps s p not_text t = refl
read_frame-maps s p not_json t = refl
read_frame-maps s p (parsed m) t =
    if-cases (λ (u : HapiTunnel). u.maps ≡ t.maps) _ _ _ (λ bad. refl)
      (λ good. by_role-maps p.role s p m t)

pub send_gateway_frame-maps :
    (encode : GatewayFrame → Option String) (net : Network) (clock : ℤ) (g : GatewayRequest)
    (f : GatewayFrame) (t : HapiTunnel)
    → (send_gateway_frame encode net clock g f t).0.maps ≡ t.maps
unfolding send_gateway_frame
send_gateway_frame-maps encode net clock g f t = ground arith
