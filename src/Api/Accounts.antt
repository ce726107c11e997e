-- ===== src/Api/Accounts.antt =====
-- The accounts: `normalizeRegistration`, `register` and its route of internal/api/server.go, `adminUpdateUser`
-- and `adminDeleteUser` of internal/api/admin_share_handlers.go. `to_lower` is `strings.ToLower`; a path's
-- user id is what `strconv.ParseInt` reads, `none` where it fails. The other parameters are those of Api.Session.
pub mod Gate
pub mod Registered
pub mod Journey
mod Tests
use echoear_cloud.Base.{
  ℕ, String, len, count, Bool, Option, none, some, List, ◌&&◌, ◌||◌, not, if◌then◌else◌, ltb,
  str_eq, trim_space, is_empty, ℤ, is_positive, pos_part,
}
use echoear_cloud.Database.Rows.{
  Error, Result, ok, err, User, Db, self_management, last_active_admin, no_rows, username_exists,
}
use echoear_cloud.Database.Users.{Session, Plan, update_user_lifecycle}
use echoear_cloud.Database.Users.Create.{CreateUserInput, create_user}
use echoear_cloud.Database.Users.Lists.{AuditEntry, list_users, list_audit}
use echoear_cloud.Database.Settings.{Settings}
use echoear_cloud.Api.Http.{Answer, refused, done, truthy}
use echoear_cloud.Api.Session.{Headers, require_session, require_admin}

pub record RegisterRequest : Type 0 where
  pub username : String
  pub password : String
  pub email : String
  pub role : String

abbrev pub chosen_role : (String → String) → String → String
chosen_role to_lower role =
    if is_empty (to_lower (trim_space role)) then "user" else to_lower (trim_space role)

abbrev pub normalized : (String → String) → RegisterRequest → RegisterRequest
normalized to_lower r = record {
  username = trim_space r.username;
  password = r.password;
  email = trim_space r.email;
  role = chosen_role to_lower r.role;
}

abbrev pub user_input : RegisterRequest → String → CreateUserInput
user_input input hashed = record {
  username = input.username;
  password_hash = hashed;
  email = input.email;
  role = input.role;
}

-- The input, or `none` beside a message.
unfoldable pub normalize_registration : (String → String) → RegisterRequest → Option RegisterRequest
normalize_registration to_lower r =
    let role = chosen_role to_lower r.role in
    if ltb (count (trim_space r.username)) 3 || ltb 64 (count (trim_space r.username))
    then none
    else if ltb (len r.password) 6 || ltb 72 (len r.password) || is_empty (trim_space r.password)
    then none
    else if ltb 254 (count (trim_space r.email))
    then none
    else if not (str_eq role "user") && not (str_eq role "admin")
    then none
    else some (normalized to_lower r)

-- The tables that a registration writes.
pub record Accounts : Type 0 where
  pub db : Db
  pub settings : List Settings

abbrev pub creation_status : Error → ℕ
creation_status username_exists = 409
creation_status _ = 500

unfoldable pub created : Accounts → Result (Db × List Settings × User) → Accounts × Answer User
created s (ok (db, settings, u)) = (record { db = db; settings = settings }, done u)
created s (err e) = (s, refused (creation_status e))

module _ (lower to_lower : String → String) (generate : String → Option String) where
  unfoldable pub register_hashed :
      ℕ → ℕ → Accounts → RegisterRequest → Option String → Accounts × Answer User
  unfolding created create_user
  register_hashed now id s input none = (s, refused 500)
  register_hashed now id s input (some hashed) =
      created s (create_user lower now id s.db s.settings (user_input input hashed))

  unfoldable pub register_input : ℕ → ℕ → Accounts → Option RegisterRequest → Accounts × Answer User
  unfolding register_hashed
  register_input now id s none = (s, refused 400)
  register_input now id s (some input) = register_hashed now id s input (generate input.password)

  unfoldable pub register : ℕ → ℕ → Accounts → Option RegisterRequest → Accounts × Answer User
  unfolding register_input normalize_registration
  register now id s none = (s, refused 400)
  register now id s (some r) = register_input now id s (normalize_registration to_lower r)

-- `s.requireSession(), s.requireAdmin()` before a handler, as the router composes them.
unfoldable pub behind_admin :
    {A : Type 0}
    → (Accounts → Session → Accounts × Answer A)
    → Accounts
    → Answer Session
    → Accounts × Answer A
behind_admin handler s (refused status) = (s, refused status)
behind_admin handler s (done session) = handler s session

unfoldable pub behind_session :
    {A : Type 0}
    → (Accounts → Session → Accounts × Answer A)
    → Accounts
    → Db × Answer Session
    → Accounts × Answer A
unfolding behind_admin require_admin
behind_session handler s (db, refused status) = (record s { db = db }, refused status)
behind_session handler s (db, done session) =
    behind_admin handler (record s { db = db }) (require_admin session)

unfoldable pub admin_route :
    {A : Type 0} (hash : String → String)
    → ℕ
    → ℕ
    → (Accounts → Session → Accounts × Answer A)
    → Accounts
    → Headers
    → Accounts × Answer A
unfolding behind_session require_session
admin_route hash now clock handler s h =
    behind_session handler s (require_session hash now clock s.db h)

-- What the administrator's handlers answer to the errors of `UpdateUserLifecycle`; `other` is the status for
-- the rest.
abbrev pub lifecycle_status : ℕ → Error → ℕ
lifecycle_status other self_management = 409
lifecycle_status other last_active_admin = 409
lifecycle_status other no_rows = 404
lifecycle_status other _ = other

unfoldable pub lifecycle_answer : ℕ → Db → Result (Db × User) → Db × Answer User
lifecycle_answer other db (ok (db', u)) = (db', done u)
lifecycle_answer other db (err e) = (db, refused (lifecycle_status other e))

pub record LifecycleRequest : Type 0 where
  pub status : String
  pub role : String
  pub reason : String

module _ (encode : Plan → String) (print : ℕ → String) where
  unfoldable pub admin_update_user :
      ℕ → Db → ℕ → Option ℤ → Option LifecycleRequest → Db × Answer User
  unfolding lifecycle_answer update_user_lifecycle
  admin_update_user now db actor none body = (db, refused 400)
  admin_update_user now db actor (some id) none = (db, refused 400)
  admin_update_user now db actor (some id) (some r) =
      if is_positive id
      then lifecycle_answer 400 db (
          update_user_lifecycle encode print now db actor (pos_part id) (trim_space r.status)
            (trim_space r.role) r.reason)
      else (db, refused 400)

  -- `reason` is empty where the body is no JSON.
  unfoldable pub admin_delete_user : ℕ → Db → ℕ → Option ℤ → String → Db × Answer User
  unfolding lifecycle_answer update_user_lifecycle
  admin_delete_user now db actor none reason = (db, refused 400)
  admin_delete_user now db actor (some id) reason =
      if is_positive id
      then lifecycle_answer 500 db
          (update_user_lifecycle encode print now db actor (pos_part id) "deleted" "" reason)
      else (db, refused 400)

unfoldable pub admin_list_users :
    (String → String → Bool)
    → (String → String)
    → (String → String)
    → List User
    → String
    → List User
unfolding list_users truthy
admin_list_users comes_before database_lower lower users include_deleted =
    list_users comes_before database_lower users (truthy lower include_deleted)

-- A limit that is no number is 0.
abbrev pub or_zero : Option ℤ → ℤ
or_zero none = ℤ.pos 0
or_zero (some limit) = limit

unfoldable pub admin_list_audit : Db → Option ℤ → List AuditEntry
unfolding list_audit
admin_list_audit db limit = list_audit db (or_zero limit)
