-- ===== src/Api/Entry/Tests.antt =====
-- The theorems on entries at an owner who has lent an agent out.
use echoear_cloud.Base.{
  String, true, false, ◌≡◌, refl, Option, none, some, [], ◌∷◌, arith, eq_iff, trim_space,
}
use echoear_cloud.Database.Rows.{ok, Agent, Share, Lease, User, SessionRow, Db}
use echoear_cloud.Database.Users.{session_by_token}
use echoear_cloud.Database.Shares.{Change, revoke, transition_share, share_audit}
use echoear_cloud.Database.Access.{resolve_access, list_accessible, renew_request}
use echoear_cloud.Api.Http.{done}
use echoear_cloud.Api.Identifier.{valid_identifier}
use echoear_cloud.Api.Tunnel.Hub.{
  TunnelKey, agent, Peer, GatewayRequest, Network, accepted, new_hapi_tunnel, key_eq,
}
use echoear_cloud.Api.Tunnel.Attach.{attach, attach_gateway}
use echoear_cloud.Api.Entry.{Service, Caller, hapi_gateway, gateway_authorized}
use echoear_cloud.Api.Entry.Gateway.{IsOpened, hapi_gateway-IsOpened}
use echoear_cloud.Api.Entry.Cutoff.{Elsewhere, by_gateway, transition_share-Elsewhere}

abbrev owner : User
owner = record {
  id = 1;
  username = "ada";
  password_hash = "";
  email = "";
  role = "user";
  status = "active";
  password_changed = true;
  created_at = 0;
  updated_at = 0;
  last_login_at = none;
  disabled_at = none;
  disabled_by = none;
  disabled_reason = "";
  deleted_at = none;
  deleted_by = none;
  deleted_reason = "";
}

abbrev helper : Agent
helper = record {
  id = 7;
  user_id = 1;
  agent_id = "mac-agent";
  host_name = "";
  platform = "";
  app_version = "";
  preferred_device_uid = none;
  last_seen_at = none;
  lan_base_url = "";
  public_key = "";
  public_id = "u7";
  key_id = "";
  key_algorithm = "";
  capabilities = "{}";
  created_at = 0;
  updated_at = 0;
}

abbrev granted : Share
granted = record {
  id = "s1";
  agent_id = 7;
  owner_user_id = 1;
  grantee_user_id = 2;
  status = "active";
  valid_from = 10;
  valid_until = none;
  policy = "{}";
  policy_version = 1;
  accepted_at = some 20;
  accepted_by = some 2;
  declined_at = none;
  revoked_at = none;
  revoked_by = none;
  revoke_reason = "";
  created_by = 1;
  created_at = 10;
  updated_at = 20;
}

-- The owner's own lease.
abbrev lease : Lease
lease = record {
  ticket_id = "t1";
  agent_id = 7;
  subject_user_id = 1;
  owner_user_id = 1;
  share_id = none;
  policy_version = 0;
  namespace = "owner";
  issued_at = 30;
  expires_at = 100000000000;
  revoked_at = none;
  request_id = "request1";
}

abbrev session : SessionRow
session = record {
  user_id = 1;
  session_hash = "tok";
  status = "active";
  ip_address = "";
  user_agent = "";
  created_at = 0;
  updated_at = 0;
  last_seen_at = 0;
  expires_at = 900;
  revoked_at = none;
}

abbrev before : Db
before = record {
  users = owner ∷ [];
  sessions = session ∷ [];
  agents = helper ∷ [];
  shares = granted ∷ [];
  leases = lease ∷ [];
  audit = [];
  usage_days = [];
  usage_events = [];
}

abbrev same : String → String
same s = s

abbrev no_objects : String → Option String
no_objects s = none

abbrev key : TunnelKey
key = record { user_id = 1; agent_id = "mac-agent" }

abbrev helper_peer : Peer
helper_peer = record {
  address = 10;
  key = key;
  role = agent;
  connection_id = "a";
  request_id = "";
  session_id = "tok";
  subject_user_id = 1;
  access_id = "mac-agent";
  gateway = true;
  discovery = true;
}

abbrev request : GatewayRequest
request = record {
  address = 30;
  key = key;
  connection_id = "g";
  request_id = "request1";
  session_id = "tok";
  subject_user_id = 1;
  access_id = "mac-agent";
}

abbrev caller : Caller
caller = record { user_id = 1; session_id = "tok"; address = 30; connection_id = "g" }

abbrev open_network : Network
open_network p m = accepted

abbrev service : Service
service = record { db = before; tunnel = (attach open_network helper_peer new_hapi_tunnel).0 }

abbrev opened : Service
opened = record { db = before; tunnel = (attach_gateway request service.tunnel).0 }

opens : hapi_gateway 40 40 caller "mac-agent" "request1" "/api" service ≡ (opened, done request)
unfolding hapi_gateway resolve_access list_accessible renew_request attach_gateway attach
    new_hapi_tunnel valid_identifier trim_space key_eq
opens = refl

hapi_gateway-IsOpened_example :
    IsOpened 40 40 caller (trim_space "mac-agent") (trim_space "request1") service opened request
hapi_gateway-IsOpened_example =
    hapi_gateway-IsOpened 40 40 caller "mac-agent" "request1" "/api" service opened request opens

abbrev reason : Change
reason = record { reason = "left"; policy = ""; valid_from = none; valid_until = none }

abbrev revoked : Share
revoked = record granted {
  status = "revoked";
  updated_at = 50;
  revoked_at = some 50;
  revoked_by = some 1;
  revoke_reason = "left";
}

closed : Db
unfolding share_audit
closed = record before {
  shares = revoked ∷ [];
  audit = share_audit 50 1 "share.revoke" granted "left" "{}" ∷ [];
}

revokes_share :
    transition_share no_objects 50 before 1 "s1" revoke reason false ≡ ok (closed, revoked)
unfolding transition_share closed share_audit trim_space
revokes_share = refl

owner_kept : (gateway_authorized same 60 60 closed request).1 ≡ true
unfolding gateway_authorized session_by_token resolve_access list_accessible renew_request key_eq
    closed trim_space
owner_kept = refl

transition_share-Elsewhere_example : Elsewhere "s1" 60 closed 1 key "request1"
transition_share-Elsewhere_example =
    transition_share-Elsewhere no_objects same 50 before closed 1 "s1" revoke reason false revoked
      60 60 1 key "request1" (ground (arith, eq_iff "s1" "")) revokes_share
      (ground (arith, eq_iff "revoked" "active")) (by_gateway request owner_kept)
