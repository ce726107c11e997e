-- ===== src/Api/Tunnel/Tests.antt =====
-- The theorems on the hub at concrete peers.
use echoear_cloud.Base.{
  ℕ, String, true, false, ◌≡◌, refl, none, some, [], ◌∷◌, ◌++◌, arith, lookup, ℤ, if◌then◌else◌,
}
use echoear_cloud.Api.Identifier.{valid_identifier}
use echoear_cloud.Api.Tunnel.Hub.{
  Role, agent, mobile, Peer, GatewayRequest, TunnelMessage, control, HapiTunnel, TunnelKey, key_eq,
  Network, accepted, new_hapi_tunnel, answered,
}
use echoear_cloud.Api.Tunnel.Attach.{attach, detach, attach_gateway}
use echoear_cloud.Api.Tunnel.Discovery.{begin_discovery, end_discovery, deliver_discovery, ready}
use echoear_cloud.Api.Tunnel.Frames.{Surroundings, parsed, read_frame, forwarded, invalid_frame}
use echoear_cloud.Api.Tunnel.Invariant.{Inv}
use echoear_cloud.Api.Tunnel.Steps.{
  Reachable, fresh, after, attaches, opens_gateway, step, Reachable-Inv,
}
use echoear_cloud.Api.Tunnel.Routing.{IsLeft, read_frame-isolated, read_frame-forwards}
use echoear_cloud.Api.Tunnel.Release.{detach-attach_gateway-attach}
use echoear_cloud.Api.Tunnel.Exchange.{discovery_round_trip}

abbrev desk : TunnelKey
desk = record { user_id = 1; agent_id = "agent-1" }

abbrev laptop : TunnelKey
laptop = record { user_id = 2; agent_id = "agent-1" }

abbrev peer_at : ℕ → Role → TunnelKey → String → Peer
peer_at a r k id = record {
  address = a;
  key = k;
  role = r;
  connection_id = id;
  request_id = "request-1";
  session_id = "s";
  subject_user_id = 1;
  access_id = "agent-1";
  gateway = true;
  discovery = true;
}

abbrev desk_agent : Peer
desk_agent = peer_at 10 agent desk "a"

abbrev new_agent : Peer
new_agent = peer_at 11 agent desk "b"

abbrev phone : Peer
phone = peer_at 20 mobile desk "p"

abbrev request : GatewayRequest
request = record {
  address = 30;
  key = desk;
  connection_id = "g";
  request_id = "request-1";
  session_id = "s";
  subject_user_id = 1;
  access_id = "agent-1";
}

abbrev open_network : Network
open_network p m = accepted

abbrev surroundings : Surroundings
surroundings = record {
  net = open_network;
  decode = λ s. none;
  choose = λ g f. accepted;
  received_at = ℤ.pos 5;
  forwarded_at = ℤ.pos 6;
}

abbrev frame : TunnelMessage
frame = record (control "data") { payload = "{}"; connection_id = "forged"; trace_id = "x" }

-- An agent, a phone and a gateway request.
connected : HapiTunnel
connected =
    step (opens_gateway request)
      (step (attaches open_network phone) (step (attaches open_network desk_agent) new_hapi_tunnel))

connected-Reachable : Reachable connected
unfolding connected
connected-Reachable =
    after (opens_gateway request)
      (after (attaches open_network phone) (after (attaches open_network desk_agent) fresh))

Reachable-Inv_example : Inv connected.maps
Reachable-Inv_example = Reachable-Inv connected-Reachable

abbrev busy : HapiTunnel
busy = record {
  maps = record {
    agents = λ k. if key_eq desk k then some desk_agent else none;
    mobiles = λ k. if key_eq desk k then some (("p", phone) ∷ []) else none;
    gateways = λ k. if key_eq desk k then some (("g", request) ∷ []) else none;
    discoveries = λ k. if key_eq desk k then some (("request-9", 40) ∷ []) else none;
  };
  wire = record (new_hapi_tunnel.wire) { closed = λ a. false };
}

read_frame-isolated_example :
    IsLeft busy.wire (read_frame surroundings phone (parsed frame) busy).wire 77 78 79
    × ((read_frame surroundings phone (parsed frame) busy).maps ≡ busy.maps)
unfolding key_eq lookup
read_frame-isolated_example =
    read_frame-isolated surroundings phone (parsed frame) busy 77 78 79 (record {
      not_self = omega arith;
      not_agent = λ p e. ground arith;
      not_phone = λ id p e. ground arith;
      not_gateway = λ id g e. ground arith;
      not_waiter = λ id w e. ground arith;
    })

read_frame-forwards_example :
    (read_frame surroundings phone (parsed frame) busy).wire.sent 10
    ≡ busy.wire.sent 10 ++ forwarded surroundings phone frame ∷ []
unfolding invalid_frame key_eq
read_frame-forwards_example =
    (read_frame-forwards surroundings phone desk_agent frame busy refl refl refl refl).0

reopened : HapiTunnel
reopened = (attach_gateway request (attach open_network new_agent busy).0).0

reopens : attach_gateway request (attach open_network new_agent busy).0 ≡ (reopened, true)
unfolding attach_gateway attach reopened key_eq
reopens = refl

detach-attach_gateway-attach_example :
    (detach open_network desk_agent reopened).maps.agents desk ≡ some new_agent
detach-attach_gateway-attach_example =
    (detach-attach_gateway-attach open_network open_network desk_agent new_agent busy reopened
      request 11 (refl, refl) (refl, refl) (omega arith) reopens (omega arith)).0

discovery_round_trip_example :
    let (t', begun) = begin_discovery open_network desk "request-1" "{}" 41 busy in
    let (t'', result) =
      end_discovery ready desk "request-1" 41
        (deliver_discovery desk_agent "request-1" "answer" t') in
    result ≡ answered "answer"
unfolding key_eq lookup valid_identifier
discovery_round_trip_example =
    (discovery_round_trip open_network desk_agent "request-1" "{}" "answer" 41 busy refl refl refl
      refl refl).2
