-- ===== src/Api/Agents/Tests.antt =====
-- The theorem on responses at an agent of one user and a second user without access.
use echoear_cloud.Base.{
  ℕ, String, true, ◌≡◌, refl, Option, some, none, List, [], ◌∷◌, arith, trim_space, str_eq,
  if◌then◌else◌,
}
use echoear_cloud.Database.Rows.{User, Agent, Db}
use echoear_cloud.Database.Access.{AgentAccess, owned_row, list_accessible, resolve_access}
use echoear_cloud.Database.Agents.{agent_for_user}
use echoear_cloud.Database.Mailbox.{Response, new_response, save_response}
use echoear_cloud.Api.Http.{refused, done}
use echoear_cloud.Api.Identifier.{valid_identifier}
use echoear_cloud.Api.Connect.{EncryptedBlob, valid_blob}
use echoear_cloud.Api.Agents.{save_for_agent, put_hapi_response, get_hapi_response}
use echoear_cloud.Api.Agents.Responses.{get_hapi_response-put_hapi_response}

abbrev owner : User
owner = record {
  id = 1;
  username = "ada";
  password_hash = "";
  email = "";
  role = "user";
  status = "active";
  password_changed = true;
  created_at = 0;
  updated_at = 0;
  last_login_at = none;
  disabled_at = none;
  disabled_by = none;
  disabled_reason = "";
  deleted_at = none;
  deleted_by = none;
  deleted_reason = "";
}

abbrev laptop : Agent
laptop = record {
  id = 7;
  user_id = 1;
  agent_id = "mac";
  host_name = "";
  platform = "";
  app_version = "";
  preferred_device_uid = none;
  last_seen_at = some 40;
  lan_base_url = "";
  public_key = "key";
  public_id = "u7";
  key_id = "key-0001";
  key_algorithm = "RSA-OAEP-256+A256GCM";
  capabilities = "{}";
  created_at = 0;
  updated_at = 0;
}

abbrev db : Db
db = record {
  users = owner ∷ [];
  sessions = [];
  agents = laptop ∷ [];
  shares = [];
  leases = [];
  audit = [];
  usage_days = [];
  usage_events = [];
}

-- Twenty bytes for a ciphertext, twelve for all else.
abbrev bytes : String → Option (List ℕ)
bytes text =
    if str_eq text "ciphertext"
    then some (0 ∷ 0 ∷ 0 ∷ 0 ∷ 0 ∷ 0 ∷ 0 ∷ 0 ∷ 0 ∷ 0 ∷ 0 ∷ 0 ∷ 0 ∷ 0 ∷ 0 ∷ 0 ∷ 0 ∷ 0 ∷ 0 ∷ 0 ∷ [])
    else some (0 ∷ 0 ∷ 0 ∷ 0 ∷ 0 ∷ 0 ∷ 0 ∷ 0 ∷ 0 ∷ 0 ∷ 0 ∷ 0 ∷ [])

abbrev blob : EncryptedBlob
blob = record { version = 1; nonce = "nonce"; ciphertext = "ciphertext"; aad = "aad" }

abbrev print_blob : EncryptedBlob → String
print_blob b = "{}"

stored : List Response
stored = new_response 50 1 "mac" "request1" "{}" ∷ []

puts :
    put_hapi_response bytes print_blob 50 50 (laptop ∷ []) [] 1 "mac" "request1" (some blob)
    ≡ (stored, done tt)
unfolding put_hapi_response save_for_agent agent_for_user save_response valid_identifier valid_blob
    trim_space stored
puts = refl

access : AgentAccess
unfolding owned_row
access = owned_row 60 laptop owner

allowed : resolve_access 60 60 db 1 (trim_space "mac") ≡ (db, some access)
unfolding resolve_access list_accessible owned_row access trim_space
allowed = refl

of_owner : (access.agent.user_id ≡ 1) × (access.agent.agent_id ≡ trim_space "mac")
unfolding access owned_row trim_space
of_owner = (refl, refl)

denied : resolve_access 60 60 db 2 (trim_space "mac") ≡ (db, none)
unfolding resolve_access list_accessible trim_space
denied = refl

get_hapi_response-put_hapi_response_example :
    (valid_blob bytes blob ≡ true)
    × (get_hapi_response 60 60 db stored 1 "mac" "request1"
        ≡ (db, done (new_response 50 1 (trim_space "mac") (trim_space "request1") "{}")))
    × (get_hapi_response 60 60 db stored 2 "mac" "request1" ≡ (db, refused 404))
get_hapi_response-put_hapi_response_example =
    get_hapi_response-put_hapi_response bytes print_blob 50 50 60 60 (laptop ∷ []) [] stored 1 "mac"
      "request1" blob db db db 1 2 "mac" access puts allowed of_owner.0 of_owner.1 denied
      (omega arith)
