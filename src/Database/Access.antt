-- ===== src/Database/Access.antt =====
-- internal/database/access_repository.go: `ListAccessibleAgents`, `ResolveAgentAccess` and the leases.
-- `now` is the database's clock and `clock` the service's.
pub mod Entitled
pub mod Listing
pub mod Cutoff
mod Tests
use Prim.Native.String
use echoear_cloud.Base.{
  ℕ, String, Bool, true, false, Option, none, some, List, [], ◌∷◌, ◌++◌, ◌+◌, ◌-◌, ◌*◌, ◌/◌, ◌&&◌,
  ◌||◌, not, if◌then◌else◌, ◌==◌, leb, ltb, find, select, any, map, str_eq, trim_space, is_empty, ℤ,
  pos_part, is_positive,
}
use echoear_cloud.Database.Rows.{
  Error, daily_limit_reached, Result, ok, ◌>>=◌, ◌>>◌, guard, User, Agent, Share, Lease, UsageDay,
  Db, update_where,
}
use echoear_cloud.Database.Users.{is_null, revoke_lease}
use echoear_cloud.Database.Shares.{is_over, expire}

pub record AgentAccess : Type 0 where
  pub agent : Agent
  pub online : Bool
  pub access_id : String
  pub access_type : String
  pub owner_username : String
  pub share_id : String
  pub policy : String
  pub policy_version : ℕ
  pub valid_from : Option ℕ
  pub valid_until : Option ℕ

-- `UPDATE agent_shares SET status='expired' … WHERE status='active' AND …`.
unfoldable pub expire_active : ℕ → Db → Db
expire_active now db = record db {
  shares = update_where (λ s. str_eq s.status "active" && is_over now s) (expire now) db.shares;
}

-- The condition of the `LEFT JOIN` with the shares.
abbrev pub grants : ℕ → ℕ → ℕ → Share → Bool
grants now user agent s =
    s.agent_id == agent
    && s.grantee_user_id == user
    && str_eq s.status "active"
    && leb s.valid_from now
    && not (is_over now s)

abbrev pub online_window : ℕ
online_window = 2 * 60 * 1000000

unfoldable pub is_online : ℕ → Option ℕ → Bool
is_online clock none = false
is_online clock (some seen) = leb (clock - seen) online_window

unfoldable pub owned_row : ℕ → Agent → User → AgentAccess
unfolding is_online
owned_row clock a owner = record {
  agent = a;
  online = is_online clock a.last_seen_at;
  access_id = a.agent_id;
  access_type = "owner";
  owner_username = owner.username;
  share_id = "";
  policy = "{}";
  policy_version = 0;
  valid_from = none;
  valid_until = none;
}

-- A row of an agent that the join found a share for. The owner of an agent is its owner even then.
unfoldable pub shared_row : ℕ → ℕ → Agent → User → Share → AgentAccess
unfolding is_online
shared_row clock user a owner s = record {
  agent = a;
  online = is_online clock a.last_seen_at;
  access_id = if a.user_id == user then a.agent_id else a.public_id;
  access_type = if a.user_id == user then "owner" else "shared";
  owner_username = owner.username;
  share_id = s.id;
  policy = s.policy;
  policy_version = s.policy_version;
  valid_from = some s.valid_from;
  valid_until = s.valid_until;
}

abbrev pub active_owner : Agent → User → Bool
active_owner a u = u.id == a.user_id && str_eq u.status "active"

unfoldable pub joined : ℕ → ℕ → Agent → User → List Share → List AgentAccess
unfolding owned_row shared_row
joined clock user a owner [] = if a.user_id == user then owned_row clock a owner ∷ [] else []
joined clock user a owner (s ∷ ss) = map (shared_row clock user a owner) (s ∷ ss)

unfoldable pub rows_of : ℕ → ℕ → Db → ℕ → Agent → List AgentAccess
unfolding joined
rows_of now clock db user a = elim (find (active_owner a) db.users) [
  | none ↦ []
  | some owner ↦ joined clock user a owner (select (grants now user a.id) db.shares)
]

unfoldable pub all_rows : ℕ → ℕ → Db → ℕ → List Agent → List AgentAccess
unfolding rows_of
all_rows now clock db user [] = []
all_rows now clock db user (a ∷ rest) =
    rows_of now clock db user a ++ all_rows now clock db user rest

-- `ORDER BY a.updated_at DESC`; rows of one time stay in the order of the tables.
unfoldable pub place : AgentAccess → List AgentAccess → List AgentAccess
place x [] = x ∷ []
place x (y ∷ ys) =
    let rest = place x ys in
    if ltb x.agent.updated_at y.agent.updated_at then y ∷ rest else x ∷ y ∷ ys

unfoldable pub newest_first : List AgentAccess → List AgentAccess
unfolding place
newest_first [] = []
newest_first (x ∷ xs) = place x (newest_first xs)

unfoldable pub list_accessible : ℕ → ℕ → Db → ℕ → Db × List AgentAccess
unfolding expire_active all_rows newest_first
list_accessible now clock db user =
    let db' = expire_active now db in (db', newest_first (all_rows now clock db' user db'.agents))

abbrev pub answers_to : String → AgentAccess → Bool
answers_to id x =
    str_eq x.access_id (trim_space id)
    || (str_eq x.access_type "owner" && str_eq x.agent.public_id (trim_space id))

unfoldable pub resolve_access : ℕ → ℕ → Db → ℕ → String → Db × Option AgentAccess
unfolding list_accessible
resolve_access now clock db user id =
    let (db', rows) = list_accessible now clock db user in (db', find (answers_to id) rows)

abbrev pub day : ℕ
day = 24 * 60 * 60 * 1000000

-- `usage_date=(NOW() AT TIME ZONE 'UTC')::date`, the days since the epoch.
abbrev pub usage_of : String → ℕ → UsageDay → Bool
usage_of share date d = str_eq d.share_id share && d.usage_date == date

abbrev pub tasks_used : List UsageDay → String → ℕ → ℕ
tasks_used days share date = elim (find (usage_of share date) days) [
  | none ↦ 0
  | some d ↦ d.tasks_created
]

-- A time to live of at most ten minutes, five where none is given.
abbrev pub clamp_ttl : ℤ → ℕ
clamp_ttl ttl =
    if not (is_positive ttl) || ltb (10 * 60 * 1000000) (pos_part ttl)
    then 5 * 60 * 1000000
    else pos_part ttl

-- `limit_of` reads `max_tasks_per_day` of a policy; 0 where it is missing or is no JSON object.
module _ (limit_of : String → ℤ) where
  unfoldable pub under_limit : ℕ → Db → AgentAccess → Bool
  under_limit now db access =
      not (str_eq access.access_type "shared")
      || not (is_positive (limit_of access.policy))
      || ltb (tasks_used db.usage_days access.share_id (now / day))
          (pos_part (limit_of access.policy))

  lease_row : ℕ → ℕ → String → ℕ → AgentAccess → ℤ → String → Lease
  lease_row now clock ticket user access ttl request = record {
    ticket_id = ticket;
    agent_id = access.agent.id;
    subject_user_id = user;
    owner_user_id = access.agent.user_id;
    share_id = if str_eq access.access_type "shared" then some access.share_id else none;
    policy_version = access.policy_version;
    namespace =
        if str_eq access.access_type "shared"
        then String.◌++◌ "share-" access.share_id
        else "owner";
    issued_at = now;
    expires_at = clock + clamp_ttl ttl;
    revoked_at = none;
    request_id = trim_space request;
  }

  -- `ticket` is the UUID that the database draws.
  unfoldable pub create_lease :
      ℕ → ℕ → String → Db → ℕ → AgentAccess → ℤ → String → Result (Db × Lease)
  unfolding under_limit lease_row
  create_lease now clock ticket db user access ttl request = do
    guard (under_limit now db access) daily_limit_reached
    let l = lease_row now clock ticket user access ttl request
    ok (record db { leases = db.leases ++ l ∷ [] }, l)

abbrev pub has_ticket : String → Lease → Bool
has_ticket ticket l = str_eq l.ticket_id ticket

unfoldable pub revoke_access_lease : ℕ → Db → String → Db
revoke_access_lease now db ticket = record db {
  leases =
      update_where (λ l. has_ticket (trim_space ticket) l && is_null l.revoked_at)
        (revoke_lease now) db.leases;
}

abbrev pub is_valid_lease : ℕ → ℕ → AgentAccess → Lease → Bool
is_valid_lease now user access l =
    l.subject_user_id == user
    && l.agent_id == access.agent.id
    && l.policy_version == access.policy_version
    && is_null l.revoked_at
    && ltb now l.expires_at

unfoldable pub lease_valid : ℕ → Db → String → ℕ → AgentAccess → Bool
lease_valid now db ticket user access =
    any (λ l. has_ticket ticket l && is_valid_lease now user access l) db.leases

-- A request lives for at most seven days, one where no time is given.
abbrev pub renew_ttl : ℤ → ℕ
renew_ttl ttl = if not (is_positive ttl) || ltb (7 * day) (pos_part ttl) then day else pos_part ttl

abbrev pub is_candidate : ℕ → ℕ → AgentAccess → String → Lease → Bool
is_candidate now user access request l =
    str_eq l.request_id (trim_space request) && is_valid_lease now user access l

-- The two times go to the database in whole seconds.
abbrev pub whole_seconds : ℕ → ℕ
whole_seconds t = t / 1000000 * 1000000

unfoldable pub renew_request : ℕ → Db → ℕ → AgentAccess → String → ℤ → Db × Bool
renew_request now db user access request ttl =
    let full : ℕ = whole_seconds (renew_ttl ttl) in
    let half : ℕ = whole_seconds (renew_ttl ttl / 2) in
    (
      record db {
        leases =
            update_where
              (λ l. is_candidate now user access request l && ltb l.expires_at (now + half))
              (λ l. record l { expires_at = now + full }) db.leases;
      },
      any (is_candidate now user access request) db.leases,
    )
