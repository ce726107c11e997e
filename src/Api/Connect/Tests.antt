-- ===== src/Api/Connect/Tests.antt =====
-- The theorem on connection requests at a small database.
use echoear_cloud.Base.{
  ℕ, String, true, ◌≡◌, refl, Option, none, some, List, [], ◌∷◌, trim_space, ℤ, str_eq,
  if◌then◌else◌,
}
use echoear_cloud.Api.Identifier.{valid_identifier}
use echoear_cloud.Api.Tunnel.Hub.{failed, cancelled}
use echoear_cloud.Database.Rows.{User, Agent, Lease}
use echoear_cloud.Api.Connect.{
  Envelope, EncryptedBlob, Cloud, Outcome, abandoned, Conditions, request_hapi_connection,
}
use echoear_cloud.Api.Connect.Leases.{IsDead, is_failure, request_hapi_connection_failure_revokes}

abbrev owner : User
owner = record {
  id = 1;
  username = "ada";
  password_hash = "";
  email = "";
  role = "user";
  status = "active";
  password_changed = true;
  created_at = 0;
  updated_at = 0;
  last_login_at = none;
  disabled_at = none;
  disabled_by = none;
  disabled_reason = "";
  deleted_at = none;
  deleted_by = none;
  deleted_reason = "";
}

abbrev laptop : Agent
laptop = record {
  id = 7;
  user_id = 1;
  agent_id = "mac";
  host_name = "";
  platform = "";
  app_version = "";
  preferred_device_uid = none;
  last_seen_at = some 40;
  lan_base_url = "";
  public_key = "key";
  public_id = "u7";
  key_id = "key-0001";
  key_algorithm = "RSA-OAEP-256+A256GCM";
  capabilities = "{}";
  created_at = 0;
  updated_at = 0;
}

abbrev cloud : Cloud
cloud = record {
  db = record {
    users = owner ∷ [];
    sessions = [];
    agents = laptop ∷ [];
    shares = [];
    leases = [];
    audit = [];
    usage_days = [];
    usage_events = [];
  };
  commands = [];
  responses = [];
}

-- Twenty bytes for a ciphertext, twelve for all else.
abbrev bytes : String → Option (List ℕ)
bytes text =
    if str_eq text "ciphertext"
    then some (0 ∷ 0 ∷ 0 ∷ 0 ∷ 0 ∷ 0 ∷ 0 ∷ 0 ∷ 0 ∷ 0 ∷ 0 ∷ 0 ∷ 0 ∷ 0 ∷ 0 ∷ 0 ∷ 0 ∷ 0 ∷ 0 ∷ 0 ∷ [])
    else some (0 ∷ 0 ∷ 0 ∷ 0 ∷ 0 ∷ 0 ∷ 0 ∷ 0 ∷ 0 ∷ 0 ∷ 0 ∷ 0 ∷ [])

abbrev envelope : Envelope
envelope = record {
  version = 2;
  operation = "hapi_connection";
  request_id = "request1";
  algorithm = "RSA-OAEP-256+A256GCM";
  key_id = "key-0001";
  encrypted_key = "0123456789abcdef0123456789abcdef";
  nonce = "nonce";
  ciphertext = "ciphertext";
  aad = "echoear-control-v2|mac|hapi_connection||request1|key-0001";
}

-- The phone hangs up while the hub waits for the agent.
abbrev hangs_up : Conditions
hangs_up = record {
  ip = "";
  user_agent = "";
  now = 50;
  clock = 50;
  ticket = "t1";
  command_id = 1;
  signs = true;
  saves = true;
  queues = true;
  discovery = failed cancelled;
}

abbrev no_answer : String → Option EncryptedBlob
no_answer s = none

abbrev no_objects : String → Option String
no_objects s = none

abbrev print_blob : EncryptedBlob → String
print_blob b = "{}"

abbrev no_limit : String → ℤ
no_limit s = ℤ.pos 0

abbrev print_request : String → Envelope → Lease → String
print_request r e l = "{}"

t1-plain : trim_space "t1" ≡ "t1"
unfolding trim_space
t1-plain = refl

abbrev last : Cloud × Outcome
last =
    request_hapi_connection bytes no_answer print_blob no_objects no_limit print_request hangs_up 1
      "mac" "request1" envelope cloud

hung_up : last.1 ≡ abandoned
unfolding request_hapi_connection valid_identifier trim_space
hung_up = refl

hung_up-failure : is_failure last.1 ≡ true
unfolding request_hapi_connection valid_identifier trim_space
hung_up-failure = refl

request_hapi_connection_failure_revokes_example : IsDead "t1" last.0.db
request_hapi_connection_failure_revokes_example =
    request_hapi_connection_failure_revokes bytes no_answer print_blob no_objects no_limit
      print_request hangs_up 1 "mac" "request1" envelope cloud t1-plain tt hung_up-failure
