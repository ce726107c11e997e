-- ===== src/Database/Agents.antt =====
-- internal/database/agent_repository.go: `RegisterAgent`, `ListAgents`, `AgentForUser`, `SetPreferredDevice`
-- and `PreferredDeviceUID`. `agents` has one row for each user and agent id (migrations/001_schema.sql);
-- `id` and `public_id` are what the database draws for a new row. `upper` is `strings.ToUpper` and
-- `decode_object` that of `JSONOrEmpty`.
pub mod Identity
pub mod Preferred
mod Tests
use echoear_cloud.Base.{
  [], ℕ, String, Bool, Option, none, some, List, ◌∷◌, ◌++◌, ◌&&◌, ◌-◌, not, if◌then◌else◌, ◌==◌,
  any, find, select, map, str_eq, trim_space, is_empty, newest_by,
}
use echoear_cloud.Database.Rows.{
  ◌>>=◌, ◌>>◌, no_rows, agent_id_required, Result, ok, guard, Agent, update_where, json_or_empty,
}
use echoear_cloud.Database.Access.{is_online}
use echoear_cloud.Database.Devices.{
  Device, is_active, normalize_uid, owned, coalesce, unless_empty, unless_braces,
}

pub record AgentInput : Type 0 where
  pub agent_id : String
  pub host_name : String
  pub platform : String
  pub app_version : String
  pub preferred_device_uid : Option String
  pub lan_base_url : String
  pub public_key : String
  pub key_id : String
  pub key_algorithm : String
  pub capabilities : String

abbrev pub is_agent : ℕ → String → Agent → Bool
is_agent user agent_id a = a.user_id == user && str_eq a.agent_id agent_id

-- What `scanAgent` adds to a row.
abbrev pub scan_agent : ℕ → Agent → Agent × Bool
scan_agent clock a = (a, is_online clock a.last_seen_at)

-- An agent id that is blank stands for this one.
abbrev pub or_default : String → String
or_default agent_id = if is_empty (trim_space agent_id) then "default" else trim_space agent_id

module _ (upper : String → String) where
  abbrev pub preferred_input : Option String → Option String
  preferred_input none = none
  preferred_input (some uid) =
      if is_empty (normalize_uid upper uid) then none else some (normalize_uid upper uid)

  module _ (decode_object : String → Option String) where
    abbrev pub new_agent : ℕ → ℕ → String → ℕ → AgentInput → Agent
    new_agent now id public_id user input = record {
      id = id;
      user_id = user;
      agent_id = trim_space input.agent_id;
      host_name = trim_space input.host_name;
      platform = trim_space input.platform;
      app_version = trim_space input.app_version;
      preferred_device_uid = preferred_input input.preferred_device_uid;
      last_seen_at = some now;
      lan_base_url = trim_space input.lan_base_url;
      public_key = trim_space input.public_key;
      public_id = public_id;
      key_id = trim_space input.key_id;
      key_algorithm = trim_space input.key_algorithm;
      capabilities = json_or_empty decode_object input.capabilities;
      created_at = now;
      updated_at = now;
    }

    -- `ON CONFLICT (user_id, agent_id) DO UPDATE`.
    unfoldable pub refresh_agent : ℕ → Agent → Agent → Agent
    refresh_agent now new old = record old {
      host_name = unless_empty new.host_name old.host_name;
      platform = unless_empty new.platform old.platform;
      app_version = unless_empty new.app_version old.app_version;
      preferred_device_uid = coalesce new.preferred_device_uid old.preferred_device_uid;
      lan_base_url = unless_empty new.lan_base_url old.lan_base_url;
      public_key = unless_empty new.public_key old.public_key;
      key_id = unless_empty new.key_id old.key_id;
      key_algorithm = unless_empty new.key_algorithm old.key_algorithm;
      capabilities = unless_braces new.capabilities old.capabilities;
      last_seen_at = some now;
      updated_at = now;
    }

    unfoldable pub upsert_agent : ℕ → Agent → List Agent → Option Agent → List Agent × Agent
    unfolding refresh_agent
    upsert_agent now new rows none = (rows ++ new ∷ [], new)
    upsert_agent now new rows (some old) = (
      update_where (is_agent new.user_id new.agent_id) (refresh_agent now new) rows,
      refresh_agent now new old,
    )

    unfoldable pub register_agent :
        ℕ → ℕ → String → List Agent → ℕ → AgentInput → Result (List Agent × Agent)
    unfolding upsert_agent
    register_agent now id public_id rows user input = do
      guard (not (is_empty (trim_space input.agent_id))) agent_id_required
      let new = new_agent now id public_id user input
      ok (upsert_agent now new rows (find (is_agent user (trim_space input.agent_id)) rows))

  unfoldable pub set_preferred_device :
      ℕ → List Device → List Agent → ℕ → String → String → Result (List Agent)
  set_preferred_device now ds rows user agent_id uid = do
    guard (any (λ d. owned user (normalize_uid upper uid) d && is_active d) ds) no_rows
    guard (any (is_agent user (or_default agent_id)) rows) no_rows
    ok (
        update_where (is_agent user (or_default agent_id))
          (λ a. record a {
            preferred_device_uid = some (normalize_uid upper uid);
            updated_at = now;
          })
          rows)

abbrev pub uid_or_empty : Option Agent → String
uid_or_empty none = ""
uid_or_empty (some a) = elim a.preferred_device_uid [ none ↦ "" | some uid ↦ uid ]

unfoldable pub preferred_device_uid : List Agent → ℕ → String → String
preferred_device_uid rows user agent_id =
    uid_or_empty (find (is_agent user (or_default agent_id)) rows)

unfoldable pub agent_for_user : ℕ → List Agent → ℕ → String → Option (Agent × Bool)
agent_for_user clock rows user agent_id = elim (find (is_agent user (trim_space agent_id)) rows) [
  | none ↦ none
  | some a ↦ some (scan_agent clock a)
]

abbrev pub agent_updated : Agent → ℕ
agent_updated a = a.updated_at

unfoldable pub list_agents : ℕ → List Agent → ℕ → List (Agent × Bool)
unfolding newest_by
list_agents clock rows user =
    map (scan_agent clock) (newest_by agent_updated (select (λ a. a.user_id == user) rows))
