-- ===== src/Database/Users.antt =====
-- internal/database/access_repository.go: `UpdateUserLifecycle`, and internal/database/repository.go:
-- the sessions. `check_lifecycle` is the transaction up to its first write, which reads the database
-- as it is then; `apply_lifecycle` is the rest.
pub mod Admins
pub mod Lockout
pub mod Race
pub mod Sessions
pub mod Create
pub mod Found
pub mod Lists
mod Tests
use echoear_cloud.Base.{
  ℕ, String, Bool, true, false, ◌≡◌, refl, Option, none, some, List, [], ◌∷◌, ◌++◌, ◌&&◌, ◌||◌, not,
  if◌then◌else◌, ◌==◌, leb, ltb, find, select, length, str_eq, is_empty, trim_space,
}
use Prim.Native.String
use echoear_cloud.Database.Rows.{
  Error, no_rows, invalid_status, invalid_role, self_management, last_active_admin, Result, ok, err,
  ◌>>=◌, ◌>>◌, guard, or_fail, User, SessionRow, Share, Lease, Audit, Db, update_where,
}

abbrev pub is_open : String → Bool
is_open status = str_eq status "pending" || str_eq status "active"

abbrev pub is_null {ℓ} : {A : Type ℓ} → Option A → Bool
is_null none = true
is_null (some a) = false

abbrev pub is_active_admin : User → Bool
is_active_admin u = str_eq u.role "admin" && str_eq u.status "active"

-- `SELECT COUNT(*) FROM users WHERE role='admin' AND status='active'`.
abbrev pub count_active_admins : List User → ℕ
count_active_admins us = length (select is_active_admin us)

abbrev pub has_id : ℕ → User → Bool
has_id id u = u.id == id

-- What the checks hand over to the writes.
pub record Plan : Type 0 where
  pub actor : ℕ
  pub target : ℕ
  pub role : String
  pub status : String
  pub reason : String
  pub previous_role : String
  pub previous_status : String

abbrev or_current : String → String → String
or_current given current = if is_empty given then current else given

abbrev known_status : String → Bool
known_status s = str_eq s "active" || str_eq s "disabled" || str_eq s "deleted"

abbrev known_role : String → Bool
known_role r = str_eq r "admin" || str_eq r "user"

abbrev drops_admin : User → String → String → Bool
drops_admin u role status =
    is_active_admin u && (not (str_eq role "admin") || not (str_eq status "active"))

check_row : Db → ℕ → ℕ → String → String → String → User → Result Plan
check_row db actor target given_status given_role reason current = do
  let status = or_current given_status current.status
  let role = or_current given_role current.role
  guard (known_status status) invalid_status
  guard (known_role role) invalid_role
  guard (not (actor == target && not (str_eq status "active"))) self_management
  guard (not (drops_admin current role status && leb (count_active_admins db.users) 1))
      last_active_admin
  ok (record {
    actor = actor;
    target = target;
    role = role;
    status = status;
    reason = trim_space reason;
    previous_role = current.role;
    previous_status = current.status;
  })

unfoldable pub check_lifecycle : Db → ℕ → ℕ → String → String → String → Result Plan
unfolding check_row
check_lifecycle db actor target status role reason = do
  current ← or_fail (find (has_id target) db.users) no_rows
  check_row db actor target status role reason current

-- `UPDATE users SET …`, one row.
unfoldable pub set_lifecycle : ℕ → Plan → User → User
set_lifecycle now p u = record u {
  role = p.role;
  status = p.status;
  updated_at = now;
  disabled_at =
      if str_eq p.status "disabled"
      then some now
      else if str_eq p.status "active"
      then none
      else u.disabled_at;
  disabled_by =
      if str_eq p.status "disabled"
      then some p.actor
      else if str_eq p.status "active"
      then none
      else u.disabled_by;
  disabled_reason =
      if str_eq p.status "disabled"
      then p.reason
      else if str_eq p.status "active"
      then ""
      else u.disabled_reason;
  deleted_at = if str_eq p.status "deleted" then some now else u.deleted_at;
  deleted_by = if str_eq p.status "deleted" then some p.actor else u.deleted_by;
  deleted_reason = if str_eq p.status "deleted" then p.reason else u.deleted_reason;
}

abbrev pub revoke_session : ℕ → SessionRow → SessionRow
revoke_session now s = record s { status = "revoked"; revoked_at = some now; updated_at = now }

abbrev pub revoke_lease : ℕ → Lease → Lease
revoke_lease now l = record l { revoked_at = some now }

abbrev pub session_of : ℕ → SessionRow → Bool
session_of user s = s.user_id == user && str_eq s.status "active"

abbrev pub lease_of : ℕ → Lease → Bool
lease_of user l = is_null l.revoked_at && (l.subject_user_id == user || l.owner_user_id == user)

abbrev pub open_share_of : ℕ → Share → Bool
open_share_of user s = is_open s.status && (s.owner_user_id == user || s.grantee_user_id == user)

-- The three statements that run when the account is no longer active.
unfoldable pub lock_out : ℕ → Plan → Db → Db
lock_out now p db = record db {
  sessions = update_where (session_of p.target) (revoke_session now) db.sessions;
  leases = update_where (lease_of p.target) (revoke_lease now) db.leases;
  shares =
      update_where (open_share_of p.target)
        (λ s. record s {
          status = "revoked";
          revoked_at = some now;
          revoked_by = some p.actor;
          revoke_reason = String.◌++◌ "account " p.status;
          updated_at = now;
        })
        db.shares;
}

-- `details` is the JSON text of the four values: `encode` is `json.Marshal` of the map.
module _ (encode : Plan → String) (print : ℕ → String) where
  lifecycle_audit : ℕ → Plan → Audit
  lifecycle_audit now p = record {
    actor_user_id = some p.actor;
    action = "user.update";
    target_type = "user";
    target_id = print p.target;
    owner_user_id = none;
    grantee_user_id = none;
    agent_id = none;
    share_id = none;
    outcome = "success";
    reason = p.reason;
    details = encode p;
    ip_address = "";
    user_agent = "";
    created_at = now;
  }

  unfoldable pub apply_lifecycle : ℕ → Plan → Db → Db
  unfolding set_lifecycle lock_out lifecycle_audit
  apply_lifecycle now p db =
      let db' = record db {
        users = update_where (has_id p.target) (set_lifecycle now p) db.users;
      } in
      let db'' = if str_eq p.status "active" then db' else lock_out now p db' in
      record db'' { audit = db.audit ++ lifecycle_audit now p ∷ [] }

  -- The whole transaction, and the row that is read back by `ListUsers(true)`.
  unfoldable pub update_user_lifecycle :
      ℕ → Db → ℕ → ℕ → String → String → String → Result (Db × User)
  unfolding check_lifecycle apply_lifecycle
  update_user_lifecycle now db actor target status role reason = do
    plan ← check_lifecycle db actor target status role reason
    let db' = apply_lifecycle now plan db
    user ← or_fail (find (has_id target) db'.users) no_rows
    ok (db', user)

-- `SessionByToken`: `hash` is `HashSecret`, the hexadecimal text of SHA-256.
pub record Session : Type 0 where
  pub user_id : ℕ
  pub username : String
  pub role : String
  pub status : String
  pub session_id : String
  pub last_seen_at : ℕ
  pub expires_at : ℕ

live_session : String → ℕ → SessionRow → Bool
live_session hashed now s =
    str_eq s.session_hash hashed && str_eq s.status "active" && ltb now s.expires_at

unfoldable pub active_user : ℕ → User → Bool
active_user id u = u.id == id && str_eq u.status "active"

-- The rows of the join, in the order of the sessions.
join_user : List User → SessionRow → Option (SessionRow × User)
unfolding active_user
join_user us s = elim (find (active_user s.user_id) us) [ none ↦ none | some u ↦ some (s, u) ]

join_sessions : List User → (SessionRow → Bool) → List SessionRow → Option (SessionRow × User)
unfolding join_user
join_sessions us p [] = none
join_sessions us p (s ∷ ss) =
    let rest = join_sessions us p ss in
    if p s then elim (join_user us s) [ none ↦ rest | some r ↦ some r ] else rest

unfoldable pub session_by_token : (String → String) → ℕ → Db → String → Option Session
unfolding live_session join_sessions
session_by_token hash now db token =
    elim (join_sessions db.users (live_session (hash (trim_space token)) now) db.sessions) [
      | none ↦ none
      | some (s, u) ↦ some (record {
        user_id = s.user_id;
        username = u.username;
        role = u.role;
        status = u.status;
        session_id = token;
        last_seen_at = s.last_seen_at;
        expires_at = s.expires_at;
      })
    ]
