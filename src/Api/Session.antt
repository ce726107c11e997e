-- ===== src/Api/Session.antt =====
-- internal/api/server.go: `requireSession`, `requireGatewaySession`, `requireAdmin`, `login`, `webLogin`,
-- `logout` and `changePassword`. The parameters: `lower` is the database's LOWER, `hash` is `HashSecret`,
-- `matches` is `bcrypt.CompareHashAndPassword` and `generate` is `bcrypt.GenerateFromPassword`. `now` is the
-- database's clock and `clock` the service's. A body that is no JSON of the request is `none`.
pub mod Entry
pub mod Password
pub mod Login
mod Tests
use echoear_cloud.Base.{
  [], ℕ, String, len, Bool, true, Option, none, some, List, ◌∷◌, ◌+◌, ◌-◌, ◌*◌, ◌/◌, ◌||◌, not,
  if◌then◌else◌, ltb, leb, find, str_eq, starts_with, trim_space, is_empty,
}
use echoear_cloud.Database.Rows.{Result, ok, err, User, Db, update_where}
use echoear_cloud.Database.Users.{Session, has_id, session_by_token}
use echoear_cloud.Database.Users.Sessions.{create_session, touch_session, revoke_session_token}
use echoear_cloud.Database.Users.Create.{is_named}
use echoear_cloud.Api.Http.{Answer, refused, done, split_space}

-- The headers and the cookie that the handlers read; an absent one is empty.
pub record Headers : Type 0 where
  pub authorization : String
  pub session : String
  pub cookie : String

abbrev pub session_part : Option (String × String) → String
session_part none = ""
session_part (some (scheme, rest)) = if str_eq scheme "Session" then trim_space rest else ""

unfoldable pub native_session_token : String → String
unfolding split_space
native_session_token header = session_part (split_space (trim_space header))

-- The token of the header, or else the cookie's.
unfoldable pub presented_token : Headers → String
unfolding native_session_token
presented_token h =
    if is_empty (native_session_token h.authorization)
    then h.cookie
    else native_session_token h.authorization

abbrev pub five_minutes : ℕ
five_minutes = 5 * 60 * 1000000

-- A handler that refuses aborts the chain; the database beside it is what its statements left.
module _ (hash : String → String) where
  unfoldable pub admit_session : ℕ → ℕ → Db → String → Option Session → Db × Answer Session
  unfolding touch_session
  admit_session now clock db token none = (db, refused 401)
  admit_session now clock db token (some s) = (
    if leb (s.last_seen_at + five_minutes) clock then touch_session hash now db token else db,
    done s,
  )

  unfoldable pub require_session_token : ℕ → ℕ → Db → String → Db × Answer Session
  unfolding admit_session
  require_session_token now clock db token =
      admit_session now clock db token (session_by_token hash now db token)

  unfoldable pub require_session : ℕ → ℕ → Db → Headers → Db × Answer Session
  unfolding require_session_token presented_token
  require_session now clock db h =
      if is_empty (trim_space (presented_token h))
      then (db, refused 401)
      else require_session_token now clock db (trim_space (presented_token h))

  unfoldable pub require_gateway_session : ℕ → ℕ → Db → Headers → Db × Answer Session
  unfolding require_session_token
  require_gateway_session now clock db h =
      let header = trim_space h.session in
      let token = if is_empty header then h.cookie else header in
      if is_empty token then (db, refused 401) else require_session_token now clock db token

  unfoldable pub logout : ℕ → Db → Session → Db
  unfolding revoke_session_token
  logout now db s = revoke_session_token hash now db s.session_id

unfoldable pub require_admin : Session → Answer Session
require_admin s = if str_eq s.role "admin" then done s else refused 403

abbrev pub feature_codes : String → List String
feature_codes role =
    "echoear.use"
    ∷ "echoear.agent.share"
    ∷ (if str_eq role "admin"
        then "echoear.account.register" ∷ "echoear.account.manage" ∷ "echoear.agent.share.audit"
          ∷ []
        else [])

pub record LoginRequest : Type 0 where
  pub username : String
  pub password : String

pub record Cookie : Type 0 where
  pub value : String
  pub max_age : ℕ
  pub secure : Bool

pub record LoggedIn : Type 0 where
  pub user_id : ℕ
  pub session_id : Option String
  pub session_expires_at : ℕ
  pub username : String
  pub role : String
  pub status : String
  pub password_changed : Bool
  pub features : List String
  pub cookie : Option Cookie

-- `setWebSessionCookie`.
unfoldable pub web_cookie : String → ℕ → String → ℕ → Cookie
web_cookie base_url clock token expires = record {
  value = token;
  max_age = if ltb 1 ((expires - clock) / 1000000) then (expires - clock) / 1000000 else 1;
  secure = starts_with base_url "https://";
}

-- What the runtime gives to one login: the clocks, the client's address and agent, and the token.
pub record Visit : Type 0 where
  pub now : ℕ
  pub clock : ℕ
  pub ip : String
  pub user_agent : String
  pub token : String
  pub session_ttl : ℕ
  pub public_base_url : String

unfoldable pub logged_in : Visit → Bool → User → LoggedIn
unfolding web_cookie
logged_in v web u = record {
  user_id = u.id;
  session_id = if web then none else some v.token;
  session_expires_at = v.clock + v.session_ttl;
  username = u.username;
  role = u.role;
  status = u.status;
  password_changed = u.password_changed;
  features = feature_codes u.role;
  cookie =
      if web
      then some (web_cookie v.public_base_url v.clock v.token (v.clock + v.session_ttl))
      else none;
}

-- `UPDATE users SET last_login_at=NOW(),updated_at=NOW() WHERE id=$1`.
unfoldable pub mark_login : ℕ → ℕ → Db → Db
mark_login now id db = record db {
  users =
      update_where (has_id id) (λ u. record u { last_login_at = some now; updated_at = now })
        db.users;
}

-- What `me` answers; the password's mark is 1 or 0, as `boolInt` gives it.
pub record Profile : Type 0 where
  pub session : Session
  pub email : String
  pub password_changed : ℕ
  pub created_at : ℕ
  pub updated_at : ℕ
  pub last_login_at : Option ℕ
  pub features : List String

abbrev pub bool_int : Bool → ℕ
bool_int b = if b then 1 else 0

abbrev pub profile_of : Session → Option User → Answer Profile
profile_of session none = refused 500
profile_of session (some u) = done (record {
  session = session;
  email = u.email;
  password_changed = bool_int u.password_changed;
  created_at = u.created_at;
  updated_at = u.updated_at;
  last_login_at = u.last_login_at;
  features = feature_codes session.role;
})

unfoldable pub me : List User → Session → Answer Profile
me users session = profile_of session (find (has_id session.user_id) users)

module _ (lower hash : String → String) (matches : String → String → Bool) where
  unfoldable pub with_session : Visit → Bool → Db → User → Result Db → Db × Answer LoggedIn
  unfolding logged_in mark_login
  with_session v web db u (err e) = (db, refused 500)
  with_session v web db u (ok db') = (mark_login v.now u.id db', done (logged_in v web u))

  unfoldable pub login_as : Visit → Bool → Db → String → Option User → Db × Answer LoggedIn
  unfolding with_session create_session
  login_as v web db password none = (db, refused 401)
  login_as v web db password (some u) =
      if not (matches u.password_hash password)
      then (db, refused 401)
      else if not (str_eq u.status "active")
      then (db, refused 403)
      else with_session v web db u
          (create_session hash v.now v.clock db u.id v.ip v.user_agent v.session_ttl v.token)

  unfoldable pub login_with_cookie : Visit → Bool → Db → Option LoginRequest → Db × Answer LoggedIn
  unfolding login_as
  login_with_cookie v web db none = (db, refused 400)
  login_with_cookie v web db (some r) =
      if is_empty r.username || is_empty r.password
      then (db, refused 400)
      else login_as v web db r.password (find (is_named lower (trim_space r.username)) db.users)

pub record PasswordRequest : Type 0 where
  pub old_password : String
  pub new_password : String

unfoldable pub set_password : ℕ → ℕ → String → Db → Db
set_password now user hashed db = record db {
  users =
      update_where (has_id user)
        (λ u. record u { password_hash = hashed; password_changed = true; updated_at = now })
        db.users;
}

module _ (matches : String → String → Bool) (generate : String → Option String) where
  unfoldable pub store_password : ℕ → ℕ → Db → Option String → Db × Answer (Unit {0})
  unfolding set_password
  store_password now user db none = (db, refused 500)
  store_password now user db (some hashed) = (set_password now user hashed db, done tt)

  unfoldable pub replace_password :
      ℕ → ℕ → Db → PasswordRequest → Option User → Db × Answer (Unit {0})
  unfolding store_password
  replace_password now user db r none = (db, refused 500)
  replace_password now user db r (some u) =
      if not (matches u.password_hash r.old_password)
      then (db, refused 400)
      else store_password now user db (generate (trim_space r.new_password))

  unfoldable pub change_password : ℕ → ℕ → Db → Option PasswordRequest → Db × Answer (Unit {0})
  unfolding replace_password
  change_password now user db none = (db, refused 400)
  change_password now user db (some r) =
      if is_empty (trim_space r.old_password) || ltb (len (trim_space r.new_password)) 6
      then (db, refused 400)
      else replace_password now user db r (find (has_id user) db.users)
