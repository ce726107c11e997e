-- ===== src/Api/Shares.antt =====
-- internal/api/admin_share_handlers.go: the policies and the handlers of shares.
-- `read_policy` is `json.Unmarshal` into `sharePolicy` and `print_policy` is `json.Marshal`; a body that is
-- no JSON of its request is `none`. The other parameters are those of Database.Shares.
pub mod Limited
pub mod Tickets
mod Tests
use echoear_cloud.Base.{
  [], ℕ, String, len, Bool, true, false, Option, none, some, List, ◌∷◌, ◌++◌, ◌&&◌, ◌||◌, not,
  if◌then◌else◌, ◌==◌, leb, ltb, all, length, lookup, str_eq, trim_space, is_empty, ℤ,
}
use echoear_cloud.Database.Rows.{
  Error, no_rows, open_share_exists, Result, ok, err, Share, Audit, Db, json_or_empty,
}
use echoear_cloud.Database.Users.{Session}
use echoear_cloud.Database.Shares.{
  Action, revoke, update, create_share, list_shares, transition_share,
}
use echoear_cloud.Api.Http.{Answer, refused, done, truthy}

pub record SharePolicy : Type 0 where
  pub allowed_flavors : List String
  pub allowed_models : List (String × List String)
  pub workspace_roots : List String
  pub task_permissions : List (String × Bool)
  pub directory_browse : Bool
  pub upload : Bool
  pub download : Bool
  pub terminal : Bool
  pub tool_approval : Bool
  pub settings_change : Bool
  pub model_change : Bool
  pub max_permission_mode : String
  pub max_concurrent_tasks : ℤ
  pub max_tasks_per_day : ℤ

abbrev pub is_mode : String → Bool
is_mode mode =
    str_eq mode "default"
    || str_eq mode "acceptEdits"
    || str_eq mode "plan"
    || str_eq mode "auto"
    || str_eq mode "bypassPermissions"

-- `value < 1 || value > most`, negated.
abbrev pub within : ℕ → ℤ → Bool
within most (ℤ.pos n) = leb 1 n && leb n most
within most (ℤ.negsuc n) = false

abbrev pub models_of : SharePolicy → String → ℕ
models_of p flavor = elim (lookup flavor p.allowed_models) [
  | none ↦ 0
  | some models ↦ length models
]

abbrev pub is_flavor : SharePolicy → String → Bool
is_flavor p flavor = not (is_empty (trim_space flavor)) && not (models_of p flavor == 0)

abbrev pub is_root : String → Bool
is_root root = not (is_empty (trim_space root)) && leb (len root) 1024

unfoldable pub accepts_policy : SharePolicy → Bool
unfolding lookup
accepts_policy p =
    is_mode p.max_permission_mode
    && within 20 p.max_concurrent_tasks
    && within 1000 p.max_tasks_per_day
    && not (length p.allowed_flavors == 0)
    && not (length p.workspace_roots == 0)
    && all (is_flavor p) p.allowed_flavors
    && all is_root p.workspace_roots

module _ (read_policy : String → Option SharePolicy) (print_policy : SharePolicy → String) where
  abbrev pub normalized_policy : Option SharePolicy → Option String
  normalized_policy none = none
  normalized_policy (some p) = if accepts_policy p then some (print_policy p) else none

  unfoldable pub normalize_share_policy : String → Option String
  unfolding accepts_policy
  normalize_share_policy raw = if len raw == 0 then none else normalized_policy (read_policy raw)

pub record ShareRequest : Type 0 where
  pub grantee_username : String
  pub valid_from : Option ℕ
  pub valid_until : Option ℕ
  pub policy : String

-- The row of `AddAudit` for a share that could not be created.
abbrev pub failure_audit : ℕ → ℕ → String → String → String → String → String → Audit
failure_audit now actor agent code details ip user_agent = record {
  actor_user_id = some actor;
  action = "share.create";
  target_type = "agent";
  target_id = agent;
  owner_user_id = none;
  grantee_user_id = none;
  agent_id = none;
  share_id = none;
  outcome = "failed";
  reason = trim_space code;
  details = details;
  ip_address = ip;
  user_agent = user_agent;
  created_at = now;
}

-- What the runtime gives to one call: the clocks, the UUID, and the client.
pub record Call : Type 0 where
  pub now : ℕ
  pub clock : ℕ
  pub id : String
  pub ip : String
  pub user_agent : String

abbrev pub starts_at : Call → Option ℕ → ℕ
starts_at c none = c.clock
starts_at c (some from) = from

abbrev pub ends_after : ℕ → Option ℕ → Bool
ends_after from none = true
ends_after from (some until) = ltb from until

abbrev pub create_status : Error → ℕ
create_status no_rows = 404
create_status open_share_exists = 409
create_status _ = 500

abbrev pub transition_status : Error → ℕ
transition_status no_rows = 404
transition_status _ = 500

unfoldable pub after_transition : Db → Result (Db × Share) → Db × Answer Share
after_transition db (ok (db', s)) = (db', done s)
after_transition db (err e) = (db, refused (transition_status e))

-- `accept`, `decline` and `revoke`; an administrator may revoke any share.
abbrev pub as_admin : Action → Session → Bool
as_admin revoke s = str_eq s.role "admin"
as_admin _ s = false

module _ (lower : String → String) (decode_object : String → Option String)
    (read_policy : String → Option SharePolicy) (print_policy : SharePolicy → String)
    (failure_code failure_details : Error → String) where
  -- What a failure leaves: an audit row, unless the request was at fault.
  unfoldable pub note_failure : Call → Db → ℕ → String → Error → Db
  note_failure c db user agent e =
      if create_status e == 500
      then record db {
        audit =
            db.audit
            ++ failure_audit c.now user agent (failure_code e)
                (json_or_empty decode_object (failure_details e)) c.ip c.user_agent
              ∷ [];
      }
      else db

  unfoldable pub after_create : Call → Db → ℕ → String → Result (Db × Share) → Db × Answer Share
  unfolding note_failure
  after_create c db user agent (ok (db', s)) = (db', done s)
  after_create c db user agent (err e) = (note_failure c db user agent e, refused (create_status e))

  unfoldable pub create_with_policy :
      Call → Db → ℕ → String → ShareRequest → Option String → Db × Answer Share
  unfolding after_create create_share
  create_with_policy c db user agent r none = (db, refused 400)
  create_with_policy c db user agent r (some policy) =
      if not (ends_after (starts_at c r.valid_from) r.valid_until)
      then (db, refused 400)
      else after_create c db user agent (
          create_share lower decode_object c.clock c.now c.id db user agent r.grantee_username
            (some (starts_at c r.valid_from)) r.valid_until policy)

  unfoldable pub create_agent_share :
      Call → Db → ℕ → String → Option ShareRequest → Db × Answer Share
  unfolding create_with_policy normalize_share_policy
  create_agent_share c db user agent none = (db, refused 400)
  create_agent_share c db user agent (some r) =
      if is_empty (trim_space r.grantee_username)
      then (db, refused 400)
      else create_with_policy c db user agent r
          (normalize_share_policy read_policy print_policy r.policy)

  unfoldable pub update_with_policy :
      ℕ → Db → ℕ → String → ShareRequest → Option String → Db × Answer Share
  unfolding after_transition transition_share
  update_with_policy now db user share r none = (db, refused 400)
  update_with_policy now db user share r (some policy) = after_transition db (
      transition_share decode_object now db user share update
        (record {
          reason = "";
          policy = policy;
          valid_from = r.valid_from;
          valid_until = r.valid_until;
        })
        false)

  -- The name of the grantee is not read.
  unfoldable pub update_agent_share : ℕ → Db → ℕ → String → Option ShareRequest → Db × Answer Share
  unfolding update_with_policy normalize_share_policy
  update_agent_share now db user share none = (db, refused 400)
  update_agent_share now db user share (some r) =
      update_with_policy now db user share r
        (normalize_share_policy read_policy print_policy r.policy)

  unfoldable pub transition_agent_share :
      ℕ → Db → Session → String → Action → String → Db × Answer Share
  unfolding after_transition transition_share
  transition_agent_share now db session share action reason = after_transition db (
      transition_share decode_object now db session.user_id share action
        (record { reason = reason; policy = ""; valid_from = none; valid_until = none })
        (as_admin action session))

  unfoldable pub list_agent_shares : ℕ → Db → Session → String → Db × List Share
  unfolding list_shares truthy
  list_agent_shares now db session all_of =
      list_shares now db session.user_id (truthy lower all_of && str_eq session.role "admin")
