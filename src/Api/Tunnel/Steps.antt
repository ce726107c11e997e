-- ===== src/Api/Tunnel/Steps.antt =====
-- The hub as a state machine: the operations of internal/api/tunnel.go and internal/api/hapi_gateway.go
-- in any order, with any peers and any ends of the sends, and whatever their parts outside the lock do to
-- the channels in between.
use echoear_cloud.Base.{ℕ, String, Option}
use echoear_cloud.Api.Tunnel.Hub.{
  TunnelKey, Peer, GatewayRequest, GatewayFrame, HapiTunnel, Network, Wire, new_hapi_tunnel,
}
use echoear_cloud.Api.Tunnel.Attach.{attach, detach, attach_gateway, detach_gateway}
use echoear_cloud.Api.Tunnel.Delivery.{send_gateway_frame}
use echoear_cloud.Api.Tunnel.Discovery.{Wake, begin_discovery, end_discovery}
use echoear_cloud.Api.Tunnel.Frames.{Surroundings, Incoming, read_frame}
use echoear_cloud.Api.Tunnel.Invariant.{Inv, new_hapi_tunnel-Inv}
use echoear_cloud.Api.Tunnel.Preserve.{attach-Inv}
use echoear_cloud.Api.Tunnel.Requests.{
  detach-Inv, attach_gateway-Inv, detach_gateway-Inv, begin_discovery-Inv, end_discovery-Inv,
}
use echoear_cloud.Api.Tunnel.Untouched.{read_frame-maps, send_gateway_frame-maps}

-- One operation on the hub. What `detach` and `requestDiscovery` do once they have released the lock
-- touches the channels alone; `delivers` is that part, at any later time and with any outcome.
pub data Operation : Type 0 where
  attaches : Network → Peer → Operation
  detaches : Network → Peer → Operation
  reads : Surroundings → Peer → Incoming → Operation
  opens_gateway : GatewayRequest → Operation
  closes_gateway : Network → GatewayRequest → Operation
  sends_frame :
      (GatewayFrame → Option String) → Surroundings → GatewayRequest → GatewayFrame → Operation
  begins : Network → TunnelKey → String → String → ℕ → Operation
  ends : Wake → TunnelKey → String → ℕ → Operation
  delivers : Wire → Operation

pub step : Operation → HapiTunnel → HapiTunnel
step (attaches net p) t = (attach net p t).0
step (detaches net p) t = detach net p t
step (reads s p f) t = read_frame s p f t
step (opens_gateway g) t = (attach_gateway g t).0
step (closes_gateway net g) t = detach_gateway net g t
step (sends_frame encode s g f) t = (send_gateway_frame encode s.net s.received_at g f t).0
step (begins net k id payload w) t = (begin_discovery net k id payload w t).0
step (ends wake k id w) t = (end_discovery wake k id w t).0
step (delivers w) t = record t { wire = w }

pub data Reachable : HapiTunnel → Type 0 where
  fresh : Reachable new_hapi_tunnel
  after : {t : HapiTunnel} (o : Operation) → Reachable t → Reachable (step o t)

step-Inv : (o : Operation) (t : HapiTunnel) → Inv t.maps → Inv (step o t).maps
unfolding step
step-Inv (attaches net p) t v = attach-Inv net p t v
step-Inv (detaches net p) t v = detach-Inv net p t v
step-Inv (reads s p f) t v = rw (read_frame-maps s p f t) v
step-Inv (opens_gateway g) t v = attach_gateway-Inv g t v
step-Inv (closes_gateway net g) t v = detach_gateway-Inv net g t v
step-Inv (sends_frame encode s g f) t v =
    rw (send_gateway_frame-maps encode s.net s.received_at g f t) v
step-Inv (begins net k id payload w) t v = begin_discovery-Inv net k id payload w t v
step-Inv (ends wake k id w) t v = end_discovery-Inv wake k id w t v
step-Inv (delivers w) t v = v

-- Whatever the peers do, however the sends end and whatever happens to the channels outside the lock:
-- every peer in the hub stands under its own key
-- and role, a key has at most 4 phones and at most 128 gateway requests, no inner map is left empty,
-- gateway requests are open only while an agent that serves gateways is connected, and discoveries
-- are pending only while an agent is connected.
pub Reachable-Inv : {t : HapiTunnel} → Reachable t → Inv t.maps
Reachable-Inv fresh = new_hapi_tunnel-Inv
Reachable-Inv (after {t} o r) = step-Inv o t (Reachable-Inv r)
