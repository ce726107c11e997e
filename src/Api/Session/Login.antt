-- ===== src/Api/Session/Login.antt =====
-- What `login` of internal/api/server.go gives to a user with the right password, and to others.
use echoear_cloud.Base.{
  ℕ, String, Bool, true, false, ◌≡◌, ◌<◌, ◌+◌, refl, some, List, [], ◌∷◌, ◌++◌, arith, any, find,
  find-In, eq_iff, str_eq, trim_space, is_empty,
}
use echoear_cloud.Database.Rows.{ok, User, Db, update_where}
use echoear_cloud.Database.Users.{Session, has_id, active_user}
use echoear_cloud.Database.Users.Create.{is_named}
use echoear_cloud.Database.Users.Sessions.{
  has_hash, create_session, new_session, session_by_token-create_session, revoke_session_token,
}
use echoear_cloud.Api.Http.{refused, done}
use echoear_cloud.Api.Session.{
  logout, Visit, logged_in, mark_login, with_session, login_as, login_with_cookie, require_session,
}
use echoear_cloud.Api.Session.Entry.{session_header, require_session-found, require_session-absent}

-- The row of the login keeps its user, and the same user is found.
find-mark :
    (id now : ℕ) (us : List User) (u : User)
    → find (active_user id) us ≡ some u
    → find
        (active_user id)
        (update_where (has_id id) (λ x. record x { last_login_at = some now; updated_at = now }) us)
      ≡ some (record u { last_login_at = some now; updated_at = now })
unfolding active_user
find-mark id now [] u e = cc
find-mark id now (x ∷ us) u e = ground (arith, find-mark id now us u)

find-active : (db : Db) (u : User) → find (active_user u.id) db.users ≡ some u → u.status ≡ "active"
unfolding active_user
find-active db u row =
    let (i, p) = find-In (active_user u.id) db.users row in ground (arith, eq_iff u.status "active")

module _ (lower hash : String → String) (matches : String → String → Bool) where
  pub login_with_cookie-done :
      (v : Visit) (web : Bool) (db : Db) (name password : String) (u : User)
      → (is_empty name ≡ false) × (is_empty password ≡ false)
      → find (is_named lower (trim_space name)) db.users ≡ some u
      → matches u.password_hash password ≡ true
      → u.status ≡ "active"
      → any (has_hash (hash v.token)) db.sessions ≡ false
      → (db' : Db) × (create_session hash v.now v.clock
            (mark_login v.now u.id db)
            u.id
            v.ip
            v.user_agent
            v.session_ttl
            v.token
          ≡ ok db')
        × (login_with_cookie lower hash matches v web db
              (some (record { username = name; password = password }))
            ≡ (db', done (logged_in v web u)))
  unfolding login_with_cookie login_as with_session create_session mark_login
  login_with_cookie-done v web db name password u (named, given) found right active fresh =
      let rows : Db = record (mark_login v.now u.id db) {
        sessions =
            db.sessions
            ++ new_session v.now u.id (v.clock + v.session_ttl) (hash v.token) v.ip v.user_agent
              ∷ [];
      } in
      let live : str_eq u.status "active" ≡ true = rw active refl in
      (rows, rw fresh refl, rw (named, given) (rw found (rw (right, live) (rw fresh refl))))

  pub login_with_cookie-refused :
      (v : Visit) (web : Bool) (db : Db) (name password : String) (u : User)
      → (is_empty name ≡ false) × (is_empty password ≡ false)
      → find (is_named lower (trim_space name)) db.users ≡ some u
      → matches u.password_hash password ≡ false
      → login_with_cookie lower hash matches v web db
          (some (record { username = name; password = password }))
        ≡ (db, refused 401)
  unfolding login_with_cookie login_as
  login_with_cookie-refused v web db name password u (named, given) found wrong =
      rw (named, given) (rw found (rw wrong refl))

  -- A login as an active user, and then a request with its token before the session expires.
  pub require_session-login_with_cookie :
      (v : Visit) (web : Bool) (db : Db) (name password : String) (u : User) (later ever clock : ℕ)
      → (is_empty name ≡ false) × (is_empty password ≡ false)
      → find (is_named lower (trim_space name)) db.users ≡ some u
      → matches u.password_hash password ≡ true
      → find (active_user u.id) db.users ≡ some u
      → any (has_hash (hash v.token)) db.sessions ≡ false
      → (trim_space v.token ≡ v.token) × (is_empty v.token ≡ false)
      → later < v.clock + v.session_ttl
      → (db' : Db) × (s : Session) × (login_with_cookie lower hash matches v web db
            (some (record { username = name; password = password }))
          ≡ (db', done (logged_in v web u)))
        × ((require_session hash later clock db'
              (record { authorization = session_header v.token; session = ""; cookie = "" })).1
            ≡ done s)
        × (s.user_id ≡ u.id)
        × (s.role ≡ u.role)
        × (require_session hash ever clock
              (logout hash later db' s)
              (record { authorization = session_header v.token; session = ""; cookie = "" })
            ≡ (logout hash later db' s, refused 401))
  unfolding mark_login logout
  require_session-login_with_cookie v web db name password u later ever clock given found right row
        fresh (plain, full) soon =
      let (db', made, answer) =
        login_with_cookie-done v web db name password u given found right (find-active db u row)
          fresh in
      let (session, gone) =
        session_by_token-create_session hash v.now v.clock later ever (mark_login v.now u.id db) db'
          u.id v.ip v.user_agent v.token v.session_ttl
          (record u { last_login_at = some v.now; updated_at = v.now })
          (find-mark u.id v.now db.users u row) plain made soon in
      (
        db',
        record {
          user_id = u.id;
          username = u.username;
          role = u.role;
          status = u.status;
          session_id = v.token;
          last_seen_at = v.now;
          expires_at = v.clock + v.session_ttl;
        },
        answer,
        require_session-found hash later clock db' "" "" v.token _ plain full session,
        refl,
        refl,
        require_session-absent hash ever clock (revoke_session_token hash later db' v.token) "" ""
            v.token plain full gone,
      )
