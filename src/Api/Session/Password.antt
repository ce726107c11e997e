-- ===== src/Api/Session/Password.antt =====
-- `changePassword` of internal/api/server.go, and the logins after it.
use echoear_cloud.Base.{
  ℕ, String, Bool, true, false, ◌≡◌, refl, Option, none, some, List, [], ◌∷◌, not, arith, any, find,
  trim_space, is_empty, is_empty-len,
}
use echoear_cloud.Database.Rows.{User, Db, update_where}
use echoear_cloud.Database.Users.{has_id}
use echoear_cloud.Database.Users.Create.{is_named}
use echoear_cloud.Database.Users.Sessions.{has_hash}
use echoear_cloud.Api.Http.{refused, done, if-eq_done}
use echoear_cloud.Api.Session.{
  Visit, PasswordRequest, logged_in, login_with_cookie, set_password, store_password,
  replace_password, change_password,
}
use echoear_cloud.Api.Session.Login.{login_with_cookie-done, login_with_cookie-refused}

find-set_password :
    (lower : String → String) (name hashed : String) (now user : ℕ) (us : List User) (u : User)
    → find (is_named lower name) us ≡ some u
    → u.id ≡ user
    → find (is_named lower name) (
        update_where
          (has_id user)
          (λ x. record x { password_hash = hashed; password_changed = true; updated_at = now })
          us)
      ≡ some (record u { password_hash = hashed; password_changed = true; updated_at = now })
find-set_password lower name hashed now user [] u e same = cc
find-set_password lower name hashed now user (x ∷ us) u e same =
    ground (arith, find-set_password lower name hashed now user us u)

module _ (matches : String → String → Bool) (generate : String → Option String) where
  change_password-hashed :
      (now user : ℕ) (db db' : Db) (r : PasswordRequest)
      → change_password matches generate now user db (some r) ≡ (db', done tt)
      → (hashed : String) × (generate (trim_space r.new_password) ≡ some hashed)
        × (db' ≡ set_password now user hashed db)
        × (is_empty (trim_space r.new_password) ≡ false)
  unfolding change_password replace_password store_password
  change_password-hashed now user db db' r e =
      let (long, rest) =
        if-eq_done _ db db' 400
          (replace_password matches generate now user db r (find (has_id user) db.users)) e in
      let (hashed, made, rows) = known (find (has_id user) db.users) rest in
      (hashed, made, rows, is_empty-len (trim_space r.new_password) (ground arith))
    where
      hashing :
          (o : Option String)
          → generate (trim_space r.new_password) ≡ o
          → store_password matches generate now user db o ≡ (db', done tt)
          → (hashed : String) × (generate (trim_space r.new_password) ≡ some hashed)
            × (db' ≡ set_password now user hashed db)
      hashing none g h = cc
      hashing (some hashed) g h = (hashed, g, cc)

      known :
          (o : Option User)
          → replace_password matches generate now user db r o ≡ (db', done tt)
          → (hashed : String) × (generate (trim_space r.new_password) ≡ some hashed)
            × (db' ≡ set_password now user hashed db)
      known none h = cc
      known (some u) h =
          let (right, rest) =
            if-eq_done (not (matches u.password_hash r.old_password)) db db' 400
              (store_password matches generate now user db (generate (trim_space r.new_password)))
              h in
          hashing (generate (trim_space r.new_password)) refl rest

  module _ (lower hash : String → String) where
    -- After a user has changed the password, the one that logs in is the new one without the white space
    -- around it, and a password that does not match the hash of that one is refused with 401, were it the
    -- new one as it was typed. Conditions: a password matches its own hash, the account is active and is the
    -- one that the name finds, the name and the other password are not empty, and the token is fresh.
    pub login_with_cookie-change_password :
        (now : ℕ) (db db' : Db) (r : PasswordRequest) (u : User) (v : Visit) (web : Bool)
        (name other : String)
        → ((password hashed : String)
            → generate password ≡ some hashed
            → matches hashed password ≡ true)
        → change_password matches generate now u.id db (some r) ≡ (db', done tt)
        → is_empty name ≡ false
        → find (is_named lower (trim_space name)) db.users ≡ some u
        → u.status ≡ "active"
        → any (has_hash (hash v.token)) db.sessions ≡ false
        → is_empty other ≡ false
        → ((hashed : String)
            → generate (trim_space r.new_password) ≡ some hashed
            → matches hashed other ≡ false)
        → (db'' : Db) × (u' : User) × (login_with_cookie lower hash matches v web db'
              (some (record { username = name; password = trim_space r.new_password }))
            ≡ (db'', done (logged_in v web u')))
          × (u'.id ≡ u.id)
          × (login_with_cookie lower hash matches v web db'
                (some (record { username = name; password = other }))
              ≡ (db', refused 401))
    unfolding set_password
    login_with_cookie-change_password now db db' r u v web name other right e named found active
          fresh given wrong =
        let (hashed, made, rows, full) = change_password-hashed now u.id db db' r e in
        let u' : User = record u {
          password_hash = hashed;
          password_changed = true;
          updated_at = now;
        } in
        let found' : find (is_named lower (trim_space name)) db'.users ≡ some u' =
          rw rows
            (find-set_password lower (trim_space name) hashed now u.id db.users u found refl) in
        let fresh' : any (has_hash (hash v.token)) db'.sessions ≡ false = rw rows fresh in
        let (db'', created, answer) =
          login_with_cookie-done lower hash matches v web db' name (trim_space r.new_password) u'
            (named, full) found' (right (trim_space r.new_password) hashed made) active fresh' in
        (
          db'',
          u',
          answer,
          refl,
          login_with_cookie-refused lower hash matches v web db' name other u' (named, given) found'
              (wrong hashed made),
        )
