-- ===== src/Database/Shares.antt =====
-- internal/database/access_repository.go: `CreateShare`, `ShareByID`, `ListShares`, `TransitionShare`.
-- The unique index and the checks of `agent_shares` are those of
-- migrations/004_user_management_agent_sharing.sql. The parameters: `decode_object`, of
-- `JSONOrEmpty`, and `lower`, the `LOWER` of the database's locale.
pub mod Status
pub mod Leases
pub mod Open
pub mod Unique
pub mod Terms
mod Tests
use Prim.Native.String
use echoear_cloud.Base.{
  ℕ, String, len, Bool, true, false, Option, none, some, List, [], ◌∷◌, ◌++◌, ◌+◌, ◌^◌, ◌&&◌, ◌||◌,
  not, if◌then◌else◌, ◌==◌, leb, ltb, find, select, any, str_eq, trim_space, is_some,
}
use echoear_cloud.Database.Rows.{
  Error, no_rows, open_share_exists, check_violation, out_of_range, cannot_share_with_owner, Result,
  ok, err, ◌>>=◌, ◌>>◌, guard, or_fail, User, Agent, Share, Lease, Audit, Db, update_where,
  json_or_empty,
}
use echoear_cloud.Database.Users.{is_open, is_null, revoke_lease}

-- `CHECK (valid_until IS NULL OR valid_until > valid_from)`.
abbrev pub valid_period : ℕ → Option ℕ → Bool
valid_period from none = true
valid_period from (some until) = ltb from until

abbrev pub has_share_id : String → Share → Bool
has_share_id id s = str_eq s.id id

-- `agent_shares_open_unique`: an open share of the same agent with the same grantee.
abbrev pub occupies : ℕ → ℕ → Share → Bool
occupies agent grantee s = s.agent_id == agent && s.grantee_user_id == grantee && is_open s.status

unfoldable pub share_audit : ℕ → ℕ → String → Share → String → String → Audit
share_audit now actor action s reason details = record {
  actor_user_id = some actor;
  action = action;
  target_type = "share";
  target_id = s.id;
  owner_user_id = some s.owner_user_id;
  grantee_user_id = some s.grantee_user_id;
  agent_id = some s.agent_id;
  share_id = some s.id;
  outcome = "success";
  reason = reason;
  details = details;
  ip_address = "";
  user_agent = "";
  created_at = now;
}

-- The rows that `cleanup_orphans` deletes: open, in the way, and naming an agent or a user that is
-- not there.
orphan : Db → ℕ → ℕ → Share → Bool
orphan db agent grantee s =
    occupies agent grantee s
    && (not (any (λ a. a.id == s.agent_id) db.agents)
        || not (any (λ u. u.id == s.owner_user_id) db.users)
        || not (any (λ u. u.id == s.grantee_user_id) db.users))

new_share : ℕ → String → ℕ → ℕ → ℕ → ℕ → Option ℕ → String → Share
new_share now id agent owner grantee from until policy = record {
  id = id;
  agent_id = agent;
  owner_user_id = owner;
  grantee_user_id = grantee;
  status = "pending";
  valid_from = from;
  valid_until = until;
  policy = policy;
  policy_version = 1;
  accepted_at = none;
  accepted_by = none;
  declined_at = none;
  revoked_at = none;
  revoked_by = none;
  revoke_reason = "";
  created_by = owner;
  created_at = now;
  updated_at = now;
}

insert_share : ℕ → Db → Share → Result (Db × Share)
unfolding share_audit
insert_share now db s = do
  guard (valid_period s.valid_from s.valid_until) check_violation
  guard (not (any (occupies s.agent_id s.grantee_user_id) db.shares)) open_share_exists
  ok (
    record db {
      shares = db.shares ++ s ∷ [];
      audit = db.audit ++ share_audit now s.owner_user_id "share.create" s "" s.policy ∷ [];
    },
    s,
  )

module _ (lower : String → String) (decode_object : String → Option String) where
  owned_agent : ℕ → String → Agent → Bool
  owned_agent owner public_id a = a.user_id == owner && str_eq a.public_id (trim_space public_id)

  grantee_named : String → User → Bool
  grantee_named name u =
      str_eq (lower u.username) (lower (trim_space name)) && str_eq u.status "active"

  -- `id` is the UUID that the database draws. A `valid_from` that is the zero time is `none`; it is
  -- replaced by the clock of the service.
  unfoldable pub create_share :
      ℕ → ℕ → String → Db → ℕ → String → String → Option ℕ → Option ℕ → String → Result (Db × Share)
  unfolding owned_agent grantee_named insert_share orphan new_share share_audit
  create_share clock now id db owner public_id grantee from until policy = do
    agent ← or_fail (find (owned_agent owner public_id) db.agents) no_rows
    user ← or_fail (find (grantee_named grantee) db.users) no_rows
    guard (not (user.id == owner)) cannot_share_with_owner
    let cleaned = record db { shares = select (λ s. not (orphan db agent.id user.id s)) db.shares }
    let start : ℕ = elim from [ none ↦ clock | some t ↦ t ]
    insert_share now cleaned
        (new_share now id agent.id owner user.id start until (json_or_empty decode_object policy))

-- `UPDATE agent_shares SET status='expired' … WHERE status IN ('pending','active') AND …`.
abbrev pub is_over : ℕ → Share → Bool
is_over now s = elim s.valid_until [ none ↦ false | some until ↦ leb until now ]

abbrev pub expire : ℕ → Share → Share
expire now s = record s { status = "expired"; updated_at = now }

unfoldable pub expire_open : ℕ → Db → Db
expire_open now db = record db {
  shares = update_where (λ s. is_open s.status && is_over now s) (expire now) db.shares;
}

-- The rows that `ListShares` returns, before its `ORDER BY`.
unfoldable pub list_shares : ℕ → Db → ℕ → Bool → Db × List Share
unfolding expire_open
list_shares now db user admin =
    let db' = expire_open now db in
    (db', select (λ s. admin || s.owner_user_id == user || s.grantee_user_id == user) db'.shares)

pub data Action : Type 0 where
  accept decline revoke update : Action

abbrev pub action_name : Action → String
action_name accept = "accept"
action_name decline = "decline"
action_name revoke = "revoke"
action_name update = "update"

-- The `switch` of `TransitionShare`: whether the action is allowed, and the next status.
unfoldable pub allowed : Action → ℕ → Bool → Share → Bool
allowed accept actor admin s = actor == s.grantee_user_id && str_eq s.status "pending"
allowed decline actor admin s = actor == s.grantee_user_id && str_eq s.status "pending"
allowed revoke actor admin s = (actor == s.owner_user_id || admin) && is_open s.status
allowed update actor admin s = actor == s.owner_user_id && is_open s.status

unfoldable pub next_status : Action → Share → String
next_status accept s = "active"
next_status decline s = "declined"
next_status revoke s = "revoked"
next_status update s = s.status

-- What the caller passes along with the action.
pub record Change : Type 0 where
  pub reason : String
  pub policy : String
  pub valid_from : Option ℕ
  pub valid_until : Option ℕ

abbrev pub given_or {ℓ} : {A : Type ℓ} → Option A → A → A
given_or none a = a
given_or (some b) a = b

set_status : ℕ → ℕ → String → String → Share → Share
set_status now actor next reason s = record s {
  status = next;
  updated_at = now;
  accepted_at = if str_eq next "active" then some now else s.accepted_at;
  accepted_by = if str_eq next "active" then some actor else s.accepted_by;
  declined_at = if str_eq next "declined" then some now else s.declined_at;
  revoked_at = if str_eq next "revoked" then some now else s.revoked_at;
  revoked_by = if str_eq next "revoked" then some actor else s.revoked_by;
  revoke_reason = if str_eq next "revoked" then trim_space reason else s.revoke_reason;
}

-- An empty policy is `{}` before `JSONOrEmpty` sees it.
set_terms : (String → Option String) → ℕ → Change → Share → Share
set_terms decode_object now c s = record s {
  policy = json_or_empty decode_object (if len c.policy == 0 then "{}" else c.policy);
  valid_from = given_or c.valid_from s.valid_from;
  valid_until = c.valid_until;
  policy_version = s.policy_version + 1;
  updated_at = now;
}

-- The row that the `UPDATE` writes; `policy_version` is an INTEGER.
unfoldable pub write_row : (String → Option String) → ℕ → ℕ → Action → Change → Share → Result Share
unfolding set_terms set_status next_status
write_row decode_object now actor update c s = do
  guard (ltb (s.policy_version + 1) (2 ^ 31)) out_of_range
  guard (valid_period (given_or c.valid_from s.valid_from) c.valid_until) check_violation
  ok (set_terms decode_object now c s)
write_row decode_object now actor accept c s =
    ok (set_status now actor (next_status accept s) c.reason s)
write_row decode_object now actor decline c s =
    ok (set_status now actor (next_status decline s) c.reason s)
write_row decode_object now actor revoke c s =
    ok (set_status now actor (next_status revoke s) c.reason s)

abbrev pub lease_of_share : String → Lease → Bool
lease_of_share id l =
    is_null l.revoked_at && elim l.share_id [ none ↦ false | some s ↦ str_eq s id ]

unfoldable pub transition_share :
    (String → Option String) → ℕ → Db → ℕ → String → Action → Change → Bool → Result (Db × Share)
unfolding allowed write_row share_audit
transition_share decode_object now db actor id action c admin = do
  s ← or_fail (find (has_share_id id) db.shares) no_rows
  guard (allowed action actor admin s) no_rows
  s' ← write_row decode_object now actor action c s
  ok (
    record db {
      shares = update_where (has_share_id id) (λ old. s') db.shares;
      leases = update_where (lease_of_share id) (revoke_lease now) db.leases;
      audit =
          db.audit
          ++ share_audit now actor (String.◌++◌ "share." (action_name action)) s
              (trim_space c.reason) "{}"
            ∷ [];
    },
    s',
  )
