-- ===== src/Api/Entry.antt =====
-- How a gateway request gets into the hub, and what cuts a connection off: `sessionAuthorized` of
-- internal/api/tunnel.go, `hapiGateway` up to its body and `gatewayAuthorized` of internal/api/hapi_gateway.go.
-- `hash` is SHA-256; `now` is the database's clock and `clock` the service's.
pub mod Gateway
pub mod Cutoff
pub mod Join
mod Tests
use echoear_cloud.Base.{
  ℕ, String, len, Bool, false, Option, none, some, ◌&&◌, ◌*◌, not, if◌then◌else◌, ◌==◌, leb,
  starts_with, trim_space, ℤ,
}
use echoear_cloud.Database.Rows.{Db}
use echoear_cloud.Database.Users.{Session, session_by_token}
use echoear_cloud.Database.Access.{AgentAccess, resolve_access, renew_request}
use echoear_cloud.Api.Http.{Answer, refused, done}
use echoear_cloud.Api.Identifier.{valid_identifier}
use echoear_cloud.Api.Tunnel.Hub.{
  TunnelKey, key_eq, Role, agent, mobile, Peer, GatewayRequest, HapiTunnel,
}
use echoear_cloud.Api.Tunnel.Attach.{attach_gateway}

-- The tables and the hub.
pub record Service : Type 0 where
  pub db : Db
  pub tunnel : HapiTunnel

-- Who calls, and what the runtime draws for the call: an address and a random id.
pub record Caller : Type 0 where
  pub user_id : ℕ
  pub session_id : String
  pub address : ℕ
  pub connection_id : String

abbrev pub hapi_access_session_ttl : ℤ
hapi_access_session_ttl = ℤ.pos (24 * 60 * 60 * 1000000)

-- The owner's key, under which the agent of an access is connected.
abbrev pub access_key : AgentAccess → TunnelKey
access_key access = record { user_id = access.agent.user_id; agent_id = access.agent.agent_id }

abbrev pub gateway_request : Caller → String → String → AgentAccess → GatewayRequest
gateway_request c id request access = record {
  address = c.address;
  key = access_key access;
  connection_id = c.connection_id;
  request_id = request;
  session_id = c.session_id;
  subject_user_id = c.user_id;
  access_id = id;
}

abbrev pub is_gateway_call : String → String → String → Bool
is_gateway_call id request path =
    valid_identifier id 1 128
    && valid_identifier request 8 128
    && starts_with path "/"
    && not (starts_with path "//")
    && leb (len path) 8192

abbrev pub after_attach : GatewayRequest → Db → HapiTunnel × Bool → Service × Answer GatewayRequest
after_attach g db (t, attached) =
    (record { db = db; tunnel = t }, if attached then done g else refused 503)

unfoldable pub gateway_renewed :
    GatewayRequest → HapiTunnel → Db × Bool → Service × Answer GatewayRequest
unfolding attach_gateway
gateway_renewed g t (db, renewed) =
    if renewed
    then after_attach g db (attach_gateway g t)
    else (record { db = db; tunnel = t }, refused 403)

unfoldable pub gateway_resolved :
    ℕ
    → Caller
    → String
    → String
    → HapiTunnel
    → Db × Option AgentAccess
    → Service × Answer GatewayRequest
unfolding gateway_renewed renew_request
gateway_resolved now c id request t (db, none) = (record { db = db; tunnel = t }, refused 403)
gateway_resolved now c id request t (db, some access) =
    gateway_renewed (gateway_request c id request access) t
      (renew_request now db c.user_id access request hapi_access_session_ttl)

-- `done` carries the request that is attached; its body is read and sent from there on.
unfoldable pub hapi_gateway :
    ℕ → ℕ → Caller → String → String → String → Service → Service × Answer GatewayRequest
unfolding gateway_resolved resolve_access valid_identifier
hapi_gateway now clock c id request path s =
    if not (is_gateway_call (trim_space id) (trim_space request) path)
    then (s, refused 400)
    else gateway_resolved now c (trim_space id) (trim_space request) s.tunnel
        (resolve_access now clock s.db c.user_id (trim_space id))

abbrev pub is_users : ℕ → Option Session → Bool
is_users user none = false
is_users user (some session) = session.user_id == user

-- Whether the access is still one under the key, and its request still has a lease, which this renews.
abbrev pub renewed_under : ℕ → ℕ → TunnelKey → String → Db × Option AgentAccess → Db × Bool
renewed_under now user key request (db, none) = (db, false)
renewed_under now user key request (db, some access) =
    if key_eq (access_key access) key
    then renew_request now db user access request hapi_access_session_ttl
    else (db, false)

module _ (hash : String → String) where
  unfoldable pub gateway_authorized : ℕ → ℕ → Db → GatewayRequest → Db × Bool
  unfolding session_by_token resolve_access renew_request key_eq
  gateway_authorized now clock db g =
      if is_users g.subject_user_id (session_by_token hash now db g.session_id)
      then renewed_under now g.subject_user_id g.key g.request_id
          (resolve_access now clock db g.subject_user_id g.access_id)
      else (db, false)

  abbrev pub authorized_by_role : Role → ℕ → ℕ → Db → Peer → Db × Bool
  authorized_by_role agent now clock db p = (db, p.subject_user_id == p.key.user_id)
  authorized_by_role mobile now clock db p =
      renewed_under now p.subject_user_id p.key p.request_id
        (resolve_access now clock db p.subject_user_id p.access_id)

  unfoldable pub session_authorized : ℕ → ℕ → Db → Peer → Db × Bool
  unfolding session_by_token resolve_access renew_request key_eq
  session_authorized now clock db p =
      if is_users p.subject_user_id (session_by_token hash now db p.session_id)
      then authorized_by_role p.role now clock db p
      else (db, false)
