-- ===== src/Api/Tunnel/Takeover.antt =====
-- An agent that comes: `attach` of internal/api/tunnel.go.
use echoear_cloud.Base.{ℕ, String, true, ◌≡◌, refl, List, [], ◌∷◌, arith, ◌∙◌, ap, All}
use echoear_cloud.Api.Tunnel.Hub.{
  agent, Peer, GatewayRequest, TunnelMessage, HapiTunnel, Wire, Network, send_control, notify,
  close_gateways, close_gateway,
}
use echoear_cloud.Api.Tunnel.Attach.{attach, attach_by_role, attach_agent}

send_control-closed_gateways :
    (net : Network) (p : Peer) (m : TunnelMessage) (w : Wire)
    → (send_control net p m w).0.closed_gateways ≡ w.closed_gateways
unfolding send_control
send_control-closed_gateways net p m w = ground arith

pub notify-closed_gateways :
    (net : Network) (m : TunnelMessage) (ps : List (String × Peer)) (w : Wire)
    → (notify net m ps w).closed_gateways ≡ w.closed_gateways
unfolding notify
notify-closed_gateways net m [] w = refl
notify-closed_gateways net m ((id, p) ∷ ps) w =
    notify-closed_gateways net m ps (send_control net p m w).0
    ∙ send_control-closed_gateways net p m w

close_gateways_keeps :
    (gs : List (String × GatewayRequest)) (w : Wire) (a : ℕ)
    → w.closed_gateways a ≡ true
    → (close_gateways gs w).closed_gateways a ≡ true
unfolding close_gateways
close_gateways_keeps [] w a h = h
close_gateways_keeps ((id, g) ∷ gs) w a h =
    close_gateways_keeps gs (close_gateway g w) a (ground arith)

-- Every gateway request of the map is closed by the loop.
pub close_gateways-All :
    (gs : List (String × GatewayRequest)) (w : Wire)
    → All (λ e. (close_gateways gs w).closed_gateways e.1.address ≡ true) gs
unfolding close_gateways
close_gateways-All [] w = tt
close_gateways-All ((id, g) ∷ gs) w = (
  close_gateways_keeps gs (close_gateway g w) g.address (ground arith),
  close_gateways-All gs (close_gateway g w),
)

pub attach-agent :
    (net : Network) (peer : Peer) (t : HapiTunnel)
    → peer.role ≡ agent
    → attach net peer t ≡ attach_agent net peer t
unfolding attach attach_by_role
attach-agent net peer t e = ap (λ r. attach_by_role r net peer t) e
