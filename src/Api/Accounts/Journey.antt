-- ===== src/Api/Accounts/Journey.antt =====
-- An account of internal/api/server.go from its registration to its first request.
use mathlib.Core.Path.{subst}
use text.Mathlib.TextPositions.{eq_refl}
use echoear_cloud.Base.{
  ℕ, String, Bool, true, false, ◌≡◌, ◌<◌, ◌+◌, refl, sym, Option, some, List, [], ◌∷◌, arith, any,
  find, trim_space, trim_space_idem, is_empty, find-append_last, is_empty-len, str_eq,
}
use echoear_cloud.Database.Rows.{User, Db}
use echoear_cloud.Database.Users.{Session, has_id, active_user}
use echoear_cloud.Database.Users.Create.{is_named}
use echoear_cloud.Database.Users.Sessions.{has_hash}
use echoear_cloud.Api.Http.{refused, done}
use echoear_cloud.Api.Session.{Visit, logged_in, login_with_cookie, require_session, logout}
use echoear_cloud.Api.Session.Entry.{session_header}
use echoear_cloud.Api.Session.Login.{require_session-login_with_cookie}
use echoear_cloud.Api.Accounts.{RegisterRequest, Accounts, register}
use echoear_cloud.Api.Accounts.Registered.{IsRegistered, register-IsRegistered}

any-active :
    (id : ℕ) (us : List User) → any (has_id id) us ≡ false → any (active_user id) us ≡ false
unfolding active_user
any-active id [] h = refl
any-active id (u ∷ us) h = ground (arith, any-active id us)

module _ (lower to_lower hash : String → String) (matches : String → String → Bool)
    (generate : String → Option String) where
  -- The first row of the new id and of the new name is the new one.
  new_row :
      (now id : ℕ) (s s' : Accounts) (r : RegisterRequest) (u : User) (name : String)
      → IsRegistered lower to_lower generate now id s s' r u
      → any (has_id id) s.db.users ≡ false
      → lower (trim_space name) ≡ lower (trim_space r.username)
      → (find (is_named lower (trim_space name)) s'.db.users ≡ some u)
        × (find (active_user u.id) s'.db.users ≡ some u)
  unfolding active_user
  new_row now id s s' r u name reg fresh same =
      let named : is_named lower (trim_space r.username) u ≡ true =
        rw (reg.row, trim_space_idem r.username) (eq_refl (lower (trim_space r.username))) in
      let live : active_user u.id u ≡ true = rw reg.row (ground (arith, eq_refl "active")) in
      let none_before : any (active_user u.id) s.db.users ≡ false =
        rw reg.row (any-active id s.db.users fresh) in
      (
        subst (λ t. find (λ (x : User). str_eq (lower x.username) t) s'.db.users ≡ some u)
            (sym same)
            (rw reg.rows (
              find-append_last (is_named lower (trim_space r.username)) s.db.users u reg.new_name
                named)),
        rw reg.rows (find-append_last (active_user u.id) s.db.users u none_before live),
      )

  -- A registration that succeeds gives an account that its user can use at once: with the password of the
  -- registration, and its name up to white space and case, a login succeeds, and its token opens every
  -- route behind `requireSession` as that user, with the role of the registration, until the session
  -- expires or the user logs out. The library's promise on the hashes that it makes is a condition, as are the fresh id and the
  -- fresh token, which is neither empty nor blank at an end.
  pub require_session-register :
      (now id : ℕ) (s s' : Accounts) (r : RegisterRequest) (u : User) (v : Visit) (web : Bool)
      (name : String) (later ever clock : ℕ)
      → ((password hashed : String)
          → generate password ≡ some hashed
          → matches hashed password ≡ true)
      → register lower to_lower generate now id s (some r) ≡ (s', done u)
      → any (has_id id) s.db.users ≡ false
      → any (has_hash (hash v.token)) s.db.sessions ≡ false
      → lower (trim_space name) ≡ lower (trim_space r.username)
      → is_empty name ≡ false
      → (trim_space v.token ≡ v.token) × (is_empty v.token ≡ false)
      → later < v.clock + v.session_ttl
      → (db' : Db) × (session : Session) × (login_with_cookie lower hash matches v web s'.db
            (some (record { username = name; password = r.password }))
          ≡ (db', done (logged_in v web u)))
        × ((require_session hash later clock db'
              (record { authorization = session_header v.token; session = ""; cookie = "" })).1
            ≡ done session)
        × (session.user_id ≡ u.id)
        × (session.role ≡ u.role)
        × (require_session hash ever clock
              (logout hash later db' session)
              (record { authorization = session_header v.token; session = ""; cookie = "" })
            ≡ (logout hash later db' session, refused 401))
  require_session-register now id s s' r u v web name later ever clock checks e new_id new_token
        same named plain soon =
      let reg = register-IsRegistered lower to_lower generate now id s s' r u e in
      let (by_name, by_id) = new_row now id s s' r u name reg new_id same in
      let hashed : matches u.password_hash r.password ≡ true =
        rw reg.row (checks r.password reg.hashed reg.made) in
      let token' : any (has_hash (hash v.token)) s'.db.sessions ≡ false = rw reg.rows new_token in
      require_session-login_with_cookie lower hash matches v web s'.db name r.password u later ever
        clock (named, is_empty-len r.password reg.long) by_name hashed by_id token' plain soon
