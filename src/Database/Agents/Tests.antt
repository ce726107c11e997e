-- ===== src/Database/Agents/Tests.antt =====
-- The theorem on registrations at one agent.
use echoear_cloud.Base.{
  String, false, true, ◌≡◌, refl, Option, none, some, [], ◌∷◌, arith, find, trim_space, ◌&&◌, ◌==◌,
  str_eq,
}
use echoear_cloud.Database.Rows.{ok, Agent, json_or_empty}
use echoear_cloud.Database.Access.{is_online}
use echoear_cloud.Database.Agents.{AgentInput, is_agent, refresh_agent, register_agent}
use echoear_cloud.Database.Agents.Identity.{IsAgent, register_agent-IsAgent}

abbrev same : String → String
same s = s

abbrev no_objects : String → Option String
no_objects s = none

abbrev input : AgentInput
input = record {
  agent_id = " mac ";
  host_name = "studio";
  platform = "darwin";
  app_version = "";
  preferred_device_uid = none;
  lan_base_url = "";
  public_key = "";
  key_id = "";
  key_algorithm = "";
  capabilities = "";
}

abbrev mac : Agent
mac = record {
  id = 3;
  user_id = 1;
  agent_id = "mac";
  host_name = "laptop";
  platform = "darwin";
  app_version = "1.0";
  preferred_device_uid = some "EAR";
  last_seen_at = none;
  lan_base_url = "";
  public_key = "";
  public_id = "p3";
  key_id = "";
  key_algorithm = "";
  capabilities = "{}";
  created_at = 0;
  updated_at = 0;
}

abbrev seen_again : Agent
seen_again = record mac { host_name = "studio"; last_seen_at = some 50; updated_at = 50 }

registers_again :
    register_agent same no_objects 50 9 "p9" (mac ∷ []) 1 input ≡ ok (seen_again ∷ [], seen_again)
unfolding register_agent refresh_agent trim_space json_or_empty
registers_again = refl

other_user : (2 == 1 && str_eq "mac" (trim_space input.agent_id)) ≡ false
other_user = refl

register_agent-IsAgent_example :
    IsAgent 1
      (trim_space input.agent_id)
      50
      (find (is_agent 1 (trim_space input.agent_id)) (mac ∷ []))
      seen_again
    × (is_online 60 seen_again.last_seen_at ≡ true)
    × (find (is_agent 1 (trim_space input.agent_id)) (seen_again ∷ []) ≡ some seen_again)
    × (find (is_agent 2 "mac") (seen_again ∷ []) ≡ find (is_agent 2 "mac") (mac ∷ []))
register_agent-IsAgent_example =
    register_agent-IsAgent same no_objects 50 60 9 1 2 "p9" "mac" (mac ∷ []) (seen_again ∷ []) input
      seen_again registers_again other_user (omega arith)
