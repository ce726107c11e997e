-- ===== src/Api/Entry/Join.antt =====
-- `hapiTunnel` of internal/api/tunnel.go: how an agent or a phone joins the hub. `lower` is `strings.ToLower`.
use echoear_cloud.Base.{
  ℕ, String, Bool, true, false, Option, none, some, ◌&&◌, not, if◌then◌else◌, str_eq, trim_space,
  is_some,
}
use echoear_cloud.Database.Rows.{Agent, Db}
use echoear_cloud.Database.Access.{AgentAccess, resolve_access, renew_request}
use echoear_cloud.Database.Agents.{agent_for_user}
use echoear_cloud.Api.Identifier.{valid_identifier}
use echoear_cloud.Api.Tunnel.Hub.{
  TunnelKey, Role, agent, mobile, Peer, control, Wire, HapiTunnel, Network, close_peer,
  send_control,
}
use echoear_cloud.Api.Tunnel.Attach.{attach}
use echoear_cloud.Api.Entry.{Service, Caller, access_key, hapi_access_session_ttl}

-- The query of `hapiTunnel`.
pub record TunnelQuery : Type 0 where
  pub role : String
  pub request_id : String
  pub gateway : String
  pub discovery : String

pub data Joining : Type 0 where
  rejected : ℕ → Joining
  not_upgraded full : Joining
  joined : Peer → Joining

abbrev pub read_role : String → Option Role
read_role text =
    if str_eq text "agent" then some agent else if str_eq text "mobile" then some mobile else none

abbrev pub is_agent_role : Role → Bool
is_agent_role agent = true
is_agent_role mobile = false

abbrev pub peer_of : Caller → String → TunnelQuery → Role → TunnelKey → Peer
peer_of c id q role key = record {
  address = c.address;
  key = key;
  role = role;
  connection_id = c.connection_id;
  request_id = trim_space q.request_id;
  session_id = c.session_id;
  subject_user_id = c.user_id;
  access_id = id;
  gateway = is_agent_role role && str_eq q.gateway "1";
  discovery = is_agent_role role && str_eq q.discovery "1";
}

-- A hub that is full closes the connection.
abbrev pub after_join : Peer → Db → HapiTunnel × Bool → Service × Joining
after_join p db (t, true) = (record { db = db; tunnel = t }, joined p)
after_join p db (t, false) =
    (record { db = db; tunnel = record t { wire = close_peer p t.wire } }, full)

-- `upgrades` is whether the upgrade to a WebSocket succeeds.
unfoldable pub join : Network → Bool → Peer → Db → HapiTunnel → Service × Joining
unfolding attach
join net upgrades p db t =
    if upgrades
    then after_join p db (attach net p t)
    else (record { db = db; tunnel = t }, not_upgraded)

unfoldable pub join_agent :
    Network
    → Bool
    → Caller
    → String
    → TunnelQuery
    → Service
    → Option (Agent × Bool)
    → Service × Joining
unfolding join
join_agent net upgrades c id q s none = (s, rejected 404)
join_agent net upgrades c id q s (some a) =
    join net upgrades (peer_of c id q agent (record { user_id = c.user_id; agent_id = id })) s.db
      s.tunnel

abbrev pub mobile_renewed : Network → Bool → Peer → HapiTunnel → Db × Bool → Service × Joining
mobile_renewed net upgrades p t (db, renewed) =
    if renewed then join net upgrades p db t else (record { db = db; tunnel = t }, rejected 403)

unfoldable pub join_mobile :
    ℕ
    → Network
    → Bool
    → Caller
    → String
    → TunnelQuery
    → HapiTunnel
    → Db × Option AgentAccess
    → Service × Joining
unfolding join renew_request
join_mobile now net upgrades c id q t (db, none) = (record { db = db; tunnel = t }, rejected 403)
join_mobile now net upgrades c id q t (db, some access) =
    mobile_renewed net upgrades (peer_of c id q mobile (access_key access)) t
      (renew_request now db c.user_id access (trim_space q.request_id) hapi_access_session_ttl)

unfoldable pub join_by_role :
    ℕ
    → ℕ
    → Network
    → Bool
    → Caller
    → String
    → TunnelQuery
    → Service
    → Option Role
    → Service × Joining
unfolding join_agent join_mobile resolve_access agent_for_user valid_identifier
join_by_role now clock net upgrades c id q s none = (s, rejected 400)
join_by_role now clock net upgrades c id q s (some agent) =
    join_agent net upgrades c id q s (agent_for_user clock s.db.agents c.user_id id)
join_by_role now clock net upgrades c id q s (some mobile) =
    if not (valid_identifier (trim_space q.request_id) 8 128)
    then (s, rejected 400)
    else join_mobile now net upgrades c id q s.tunnel (resolve_access now clock s.db c.user_id id)

unfoldable pub hapi_tunnel :
    (String → String)
    → ℕ
    → ℕ
    → Network
    → Bool
    → Caller
    → String
    → TunnelQuery
    → Service
    → Service × Joining
unfolding join_by_role valid_identifier
hapi_tunnel lower now clock net upgrades c id q s =
    if not (valid_identifier (trim_space id) 1 128)
    then (s, rejected 400)
    else join_by_role now clock net upgrades c (trim_space id) q s
        (read_role (lower (trim_space q.role)))

abbrev pub tell_state : Role → Network → Peer → HapiTunnel → Wire → Wire
tell_state agent net p t w = w
tell_state mobile net p t w =
    (send_control net p
      (control (if is_some (t.maps.agents p.key) then "agent_online" else "agent_offline")) w).0

-- What a peer that has joined is told first, on the hub as it is by then.
unfoldable pub greet : Network → Peer → HapiTunnel → HapiTunnel
unfolding send_control
greet net p t = record t {
  wire =
      tell_state p.role net p t
        (send_control net p (record (control "ready") { connection_id = p.connection_id })
          t.wire).0;
}
