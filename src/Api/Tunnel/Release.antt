-- ===== src/Api/Tunnel/Release.antt =====
-- An agent that goes: `detach` of internal/api/tunnel.go.
use echoear_cloud.Base.{ℕ, true, false, ◌≡◌, ◌≢◌, refl, Option, some, arith, ◌∙◌, ap, lookup, sym}
use echoear_cloud.Api.Tunnel.Hub.{
  agent, Peer, GatewayRequest, HapiTunnel, put_self, entries, Network, close_peer,
}
use echoear_cloud.Api.Tunnel.Attach.{
  attach, attach_agent, detach, detach_by_role, detach_agent, is_peer, attach_gateway,
}
use echoear_cloud.Api.Tunnel.Takeover.{attach-agent}
use echoear_cloud.Api.Tunnel.Opened.{attach_gateway-stands}

detach-agent :
    (net : Network) (peer : Peer) (t : HapiTunnel)
    → peer.role ≡ agent
    → detach net peer t ≡ detach_agent net peer (record t { wire = close_peer peer t.wire })
unfolding detach detach_by_role
detach-agent net peer t e =
    ap (λ r. detach_by_role r net peer (record t { wire = close_peer peer t.wire })) e

is_peer_stale :
    (o : Option Peer) (current peer : Peer)
    → o ≡ some current
    → current.address ≢ peer.address
    → is_peer o peer ≡ false
is_peer_stale o current peer e other = rw e (ground arith)

detach_agent_stale :
    (net : Network) (peer : Peer) (t : HapiTunnel)
    → is_peer (t.maps.agents peer.key) peer ≡ false
    → detach_agent net peer t ≡ t
unfolding detach_agent
detach_agent_stale net peer t e = rw e

detach_stale :
    (net : Network) (peer current : Peer) (t : HapiTunnel)
    → peer.role ≡ agent
    → t.maps.agents peer.key ≡ some current
    → current.address ≢ peer.address
    → detach net peer t ≡ record t { wire = close_peer peer t.wire }
detach_stale net peer current t r on other =
    detach-agent net peer t r
    ∙ detach_agent_stale net peer (record t { wire = close_peer peer t.wire })
        (is_peer_stale (t.maps.agents peer.key) current peer on other)

attach_gateway-agents :
    (g : GatewayRequest) (t : HapiTunnel) → (attach_gateway g t).0.maps.agents ≡ t.maps.agents
unfolding attach_gateway
attach_gateway-agents g t = ground arith

-- An agent that was taken over ends its connection late, after the hub has attached a gateway request to
-- the agent that came after it: the end touches no map, so the new agent stays and the request still
-- stands under its id; it closes no gateway request, sends nothing, fails no discovery, and closes
-- no peer but the old one.
pub detach-attach_gateway-attach :
    (net net' : Network) (old new : Peer) (t u : HapiTunnel) (g : GatewayRequest) (a : ℕ)
    → (old.role ≡ agent) × (new.role ≡ agent)
    → (new.key ≡ old.key) × (g.key ≡ old.key)
    → new.address ≢ old.address
    → attach_gateway g (attach net new t).0 ≡ (u, true)
    → old.address ≢ a
    → let v = detach net' old u in
      (v.maps.agents old.key ≡ some new)
      × (lookup g.connection_id (entries (v.maps.gateways old.key)) ≡ some g)
      × (v.maps ≡ u.maps)
      × (v.wire.closed a ≡ u.wire.closed a)
      × (v.wire.closed old.address ≡ true)
      × (v.wire.sent ≡ u.wire.sent)
      × (v.wire.frames ≡ u.wire.frames)
      × (v.wire.closed_gateways ≡ u.wire.closed_gateways)
      × (v.wire.waiters ≡ u.wire.waiters)
unfolding attach_agent
detach-attach_gateway-attach net net' old new t u g a (old_role, new_role) (key, key') differ e
      far =
    let (serves, stands, few) = attach_gateway-stands g (attach net new t).0 u e in
    let agents : u.maps.agents ≡ (attach_agent net new t).0.maps.agents =
      ap (λ r. r.0.maps.agents) (sym e)
      ∙ attach_gateway-agents g (attach net new t).0
      ∙ ap (λ r. r.0.maps.agents) (attach-agent net new t new_role) in
    let there : u.maps.agents old.key ≡ some new =
      ap (λ m. m old.key) agents
      ∙ ap (λ k. (attach_agent net new t).0.maps.agents k) (sym key)
      ∙ put_self new.key _ t.maps.agents in
    let here : lookup g.connection_id (entries (u.maps.gateways old.key)) ≡ some g =
      ap (λ k. lookup g.connection_id (entries (u.maps.gateways k))) (sym key') ∙ stands in
    rw (detach_stale net' old new u old_role there differ)
      (there, here, refl, ground (arith, far), ground arith, refl, refl, refl, refl)
