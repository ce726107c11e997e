-- ===== src/Api/Tunnel/Attach.antt =====
-- internal/api/tunnel.go: `attach` and `detach`, and internal/api/hapi_gateway.go: `attachGateway`
-- and `detachGateway`.
use echoear_cloud.Base.{
  ℕ, String, Bool, true, false, Option, none, some, List, [], ◌∷◌, ◌==◌, leb, not, if◌then◌else◌,
  length, insert, erase,
}
use echoear_cloud.Api.Tunnel.Hub.{
  Role, agent, mobile, Peer, GatewayRequest, TunnelMessage, control, DiscoveryResult, failed,
  unavailable, Maps, Wire, HapiTunnel, put, set_at, entries, Network, close_peer, close_gateway,
  close_gateways, send_control, notify,
}

abbrev pub max_mobiles : ℕ
max_mobiles = 4

abbrev pub max_gateways : ℕ
max_gateways = 128

unfoldable pub close_previous : Option Peer → Wire → Wire
close_previous none w = w
close_previous (some previous) w = close_peer previous w

unfoldable pub attach_agent : Network → Peer → HapiTunnel → HapiTunnel × Bool
unfolding close_previous close_gateways notify
attach_agent net peer t = (record { maps = maps; wire = notified }, true)
  where
    closed : Wire
    closed =
        close_gateways (entries (t.maps.gateways peer.key))
          (close_previous (t.maps.agents peer.key) t.wire)

    maps : Maps
    maps = record (t.maps) {
      gateways = put peer.key none t.maps.gateways;
      agents = put peer.key (some peer) t.maps.agents;
    }

    notified : Wire
    notified = notify net (control "agent_online") (entries (t.maps.mobiles peer.key)) closed

-- The inner map is made before the count is tested.
unfoldable pub attach_mobile : Peer → HapiTunnel → HapiTunnel × Bool
attach_mobile peer t =
    let peers = entries (t.maps.mobiles peer.key) in
    if leb max_mobiles (length peers)
    then (
      record t { maps = record (t.maps) { mobiles = put peer.key (some peers) t.maps.mobiles } },
      false,
    )
    else (
      record t {
        maps = record (t.maps) {
          mobiles = put peer.key (some (insert peer.connection_id peer peers)) t.maps.mobiles;
        };
      },
      true,
    )

unfoldable pub attach_by_role : Role → Network → Peer → HapiTunnel → HapiTunnel × Bool
attach_by_role agent net peer t = attach_agent net peer t
attach_by_role mobile net peer t = attach_mobile peer t

unfoldable pub attach : Network → Peer → HapiTunnel → HapiTunnel × Bool
unfolding attach_by_role attach_agent attach_mobile
attach net peer t = attach_by_role peer.role net peer t

-- `t.agents[key] == peer`, a comparison of pointers.
abbrev pub is_peer : Option Peer → Peer → Bool
is_peer none p = false
is_peer (some q) p = q.address == p.address

-- A waiter's channel holds one result; a send to a full one is dropped (`default`).
unfoldable pub offer : ℕ → DiscoveryResult → Wire → Wire
offer a r w = elim (w.waiters a) [
  | none ↦ record w { waiters = set_at a (some r) w.waiters }
  | some held ↦ w
]

unfoldable pub fail_waiters : List (String × ℕ) → Wire → Wire
unfolding offer
fail_waiters [] w = w
fail_waiters ((id, a) ∷ ds) w = fail_waiters ds (offer a (failed unavailable) w)

-- The entries go under the lock. The code then releases it, and closes the gateways, tells the phones and
-- fails the waiters, each in a section of its own and the phones from the map that is still in use; here
-- all of it is one step.
unfoldable pub detach_agent : Network → Peer → HapiTunnel → HapiTunnel
unfolding notify close_gateways fail_waiters
detach_agent net peer t =
    if is_peer (t.maps.agents peer.key) peer then record { maps = maps; wire = wire } else t
  where
    maps : Maps
    maps = record (t.maps) {
      agents = put peer.key none t.maps.agents;
      gateways = put peer.key none t.maps.gateways;
      discoveries = put peer.key none t.maps.discoveries;
    }

    wire : Wire
    wire = fail_waiters (entries (t.maps.discoveries peer.key)) (
        notify net (control "agent_offline") (entries (t.maps.mobiles peer.key))
          (close_gateways (entries (t.maps.gateways peer.key)) t.wire))

-- `delete(m, id)`, and of the inner map itself once it is empty.
unfoldable pub remove_entry {ℓ} :
    {V : Type ℓ} → String → Option (List (String × V)) → Option (List (String × V))
remove_entry id none = none
remove_entry id (some m) = elim (erase id m) [ [] ↦ none | e ∷ rest ↦ some (e ∷ rest) ]

abbrev pub disconnect : String → String → TunnelMessage
disconnect connection_id request_id = record (control "disconnect") {
  connection_id = connection_id;
  request_id = request_id;
}

-- The agent is told once the lock is released.
tell_agent : Network → Option Peer → TunnelMessage → Wire → Wire
unfolding send_control
tell_agent net none m w = w
tell_agent net (some a) m w = (send_control net a m w).0

unfoldable pub detach_mobile : Network → Peer → HapiTunnel → HapiTunnel
unfolding remove_entry tell_agent
detach_mobile net peer t = record {
  maps = record (t.maps) {
    mobiles =
        put peer.key (remove_entry peer.connection_id (t.maps.mobiles peer.key)) t.maps.mobiles;
  };
  wire =
      tell_agent net (t.maps.agents peer.key) (disconnect peer.connection_id peer.request_id)
        t.wire;
}

unfoldable pub detach_by_role : Role → Network → Peer → HapiTunnel → HapiTunnel
detach_by_role agent net peer t = detach_agent net peer t
detach_by_role mobile net peer t = detach_mobile net peer t

unfoldable pub detach : Network → Peer → HapiTunnel → HapiTunnel
unfolding detach_by_role detach_agent detach_mobile
detach net peer t = detach_by_role peer.role net peer (record t { wire = close_peer peer t.wire })

-- `agent == nil || !agent.gateway`.
abbrev pub serves_gateway : Option Peer → Bool
serves_gateway none = false
serves_gateway (some a) = a.gateway

unfoldable pub attach_gateway : GatewayRequest → HapiTunnel → HapiTunnel × Bool
attach_gateway g t =
    let requests = entries (t.maps.gateways g.key) in
    if not (serves_gateway (t.maps.agents g.key))
    then (t, false)
    else if leb max_gateways (length requests)
    then (
      record t { maps = record (t.maps) { gateways = put g.key (some requests) t.maps.gateways } },
      false,
    )
    else (
      record t {
        maps = record (t.maps) {
          gateways = put g.key (some (insert g.connection_id g requests)) t.maps.gateways;
        };
      },
      true,
    )

unfoldable pub detach_gateway : Network → GatewayRequest → HapiTunnel → HapiTunnel
unfolding remove_entry tell_agent
detach_gateway net g t = record {
  maps = record (t.maps) {
    gateways = put g.key (remove_entry g.connection_id (t.maps.gateways g.key)) t.maps.gateways;
  };
  wire =
      tell_agent net (t.maps.agents g.key) (disconnect g.connection_id g.request_id)
        (close_gateway g t.wire);
}
