-- ===== src/Database/Access/Tests.antt =====
-- The theorems on access at a small database.
use echoear_cloud.Base.{
  String, true, false, ◌≡◌, ◌≢◌, refl, Option, none, some, [], ◌∷◌, arith, eq_iff, trim_space, All,
}
use echoear_cloud.Database.Rows.{ok, Agent, Share, Lease, User, Db}
use echoear_cloud.Database.Shares.{Change, revoke, transition_share, share_audit}
use echoear_cloud.Database.Access.{AgentAccess, list_accessible, is_valid_lease}
use echoear_cloud.Database.Access.Entitled.{Entitled}
use echoear_cloud.Database.Access.Listing.{IsComplete, list_accessible-IsComplete}
use echoear_cloud.Database.Access.Cutoff.{closed_share_cuts_off}

abbrev owner : User
owner = record {
  id = 1;
  username = "ada";
  password_hash = "";
  email = "";
  role = "user";
  status = "active";
  password_changed = true;
  created_at = 0;
  updated_at = 0;
  last_login_at = none;
  disabled_at = none;
  disabled_by = none;
  disabled_reason = "";
  deleted_at = none;
  deleted_by = none;
  deleted_reason = "";
}

abbrev helper : Agent
helper = record {
  id = 7;
  user_id = 1;
  agent_id = "mac-agent";
  host_name = "";
  platform = "";
  app_version = "";
  preferred_device_uid = none;
  last_seen_at = none;
  lan_base_url = "";
  public_key = "";
  public_id = "u7";
  key_id = "";
  key_algorithm = "";
  capabilities = "{}";
  created_at = 0;
  updated_at = 0;
}

abbrev granted : Share
granted = record {
  id = "s1";
  agent_id = 7;
  owner_user_id = 1;
  grantee_user_id = 2;
  status = "active";
  valid_from = 10;
  valid_until = none;
  policy = "{}";
  policy_version = 1;
  accepted_at = some 20;
  accepted_by = some 2;
  declined_at = none;
  revoked_at = none;
  revoked_by = none;
  revoke_reason = "";
  created_by = 1;
  created_at = 10;
  updated_at = 20;
}

abbrev lease : Lease
lease = record {
  ticket_id = "t1";
  agent_id = 7;
  subject_user_id = 2;
  owner_user_id = 1;
  share_id = some "s1";
  policy_version = 1;
  namespace = "share-s1";
  issued_at = 30;
  expires_at = 900;
  revoked_at = none;
  request_id = "request1";
}

abbrev before : Db
before = record {
  users = owner ∷ [];
  sessions = [];
  agents = helper ∷ [];
  shares = granted ∷ [];
  leases = lease ∷ [];
  audit = [];
  usage_days = [];
  usage_events = [];
}

abbrev reason : Change
reason = record { reason = "left"; policy = ""; valid_from = none; valid_until = none }

abbrev no_objects : String → Option String
no_objects s = none

abbrev revoked : Share
revoked = record granted {
  status = "revoked";
  updated_at = 50;
  revoked_at = some 50;
  revoked_by = some 1;
  revoke_reason = "left";
}

closed : Db
unfolding share_audit
closed = record before {
  shares = revoked ∷ [];
  leases = record lease { revoked_at = some 50 } ∷ [];
  audit = share_audit 50 1 "share.revoke" granted "left" "{}" ∷ [];
}

abbrev access : AgentAccess
access = record {
  agent = helper;
  online = false;
  access_id = "u7";
  access_type = "shared";
  owner_username = "ada";
  share_id = "s1";
  policy = "{}";
  policy_version = 1;
  valid_from = some 10;
  valid_until = none;
}

listed : (list_accessible 40 40 before 2).1 ≡ access ∷ []
unfolding list_accessible
listed = refl

revokes_share :
    transition_share no_objects 50 before 1 "s1" revoke reason false ≡ ok (closed, revoked)
unfolding transition_share closed share_audit trim_space
revokes_share = refl

list_accessible-IsComplete_example :
    let (db', rows) = list_accessible 40 40 before 2 in
    All (Entitled db' 40 2) rows × IsComplete db' 40 2 rows
list_accessible-IsComplete_example = list_accessible-IsComplete 40 40 before 2

closed_share_cuts_off_example :
    All (λ x. x.share_id ≢ "s1") (list_accessible 60 60 closed 2).1
    × All (λ l. l.share_id ≡ some "s1" → is_valid_lease 60 2 access l ≡ false) closed.leases
closed_share_cuts_off_example =
    closed_share_cuts_off no_objects 50 before closed 1 "s1" revoke reason false revoked 60 60 2
      access (ground (arith, eq_iff "s1" "")) revokes_share
      (ground (arith, eq_iff "revoked" "active"))
