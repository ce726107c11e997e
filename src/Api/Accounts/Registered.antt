-- ===== src/Api/Accounts/Registered.antt =====
-- An account of internal/api/server.go from its registration to its first request.
use mathlib.Core.Path.{subst}
use echoear_cloud.Base.{
  ℕ, String, len, true, false, ◌≡◌, refl, Option, none, some, List, [], ◌∷◌, ◌++◌, ◌||◌, not, arith,
  any, str_eq, ltb, trim_space, trim_space_idem,
}
use echoear_cloud.Database.Rows.{
  username_exists, check_violation, Result, ok, err, User, Db, guard-eq_ok, bind-eq_ok,
}
use echoear_cloud.Database.Users.Create.{CreateUserInput, new_user, is_named, create_user}
use echoear_cloud.Database.Settings.{Settings, ensure_row}
use echoear_cloud.Api.Http.{done}
use echoear_cloud.Api.Accounts.{
  RegisterRequest, Accounts, normalized, user_input, normalize_registration, created,
  register_hashed, register_input, register,
}

-- What a registration that succeeds stores.
pub record IsRegistered (lower to_lower : String → String) (generate : String → Option String)
    (now id : ℕ) (s s' : Accounts) (r : RegisterRequest) (u : User) : Type 0 where
  pub hashed : String
  pub made : generate r.password ≡ some hashed
  pub row : u ≡ new_user now id (user_input (normalized to_lower r) hashed)
  pub new_name : any (is_named lower (trim_space r.username)) s.db.users ≡ false
  pub known_role : (str_eq u.role "admin" || str_eq u.role "user") ≡ true
  pub long : ltb (len r.password) 6 ≡ false
  pub rows : s'.db ≡ record s.db { users = s.db.users ++ u ∷ [] }

created-eq_done :
    (s s' : Accounts) (result : Result (Db × List Settings × User)) (u : User)
    → created s result ≡ (s', done u)
    → result ≡ ok (s'.db, s'.settings, u)
unfolding created
created-eq_done s s' (ok (db, settings, v)) u e = cc
created-eq_done s s' (err e) u h = cc

normalize-eq_some :
    (to_lower : String → String) (r input : RegisterRequest)
    → normalize_registration to_lower r ≡ some input
    → (ltb (len r.password) 6 ≡ false) × (input ≡ normalized to_lower r)
unfolding normalize_registration
normalize-eq_some to_lower r input e = ground arith

create_user-eq_ok :
    (lower : String → String) (now id : ℕ) (db db' : Db) (ss ss' : List Settings)
    (input : CreateUserInput) (u : User)
    → create_user lower now id db ss input ≡ ok (db', ss', u)
    → (any (is_named lower (trim_space input.username)) db.users ≡ false)
      × ((str_eq input.role "admin" || str_eq input.role "user") ≡ true)
      × (u ≡ new_user now id input)
      × (db' ≡ record db { users = db.users ++ new_user now id input ∷ [] })
unfolding create_user
create_user-eq_ok lower now id db db' ss ss' input u e =
    let (free, e1) =
      guard-eq_ok (not (any (is_named lower (trim_space input.username)) db.users)) username_exists
        _ e in
    let (role, e2) =
      guard-eq_ok (str_eq input.role "admin" || str_eq input.role "user") check_violation _ e1 in
    let (mid, ensured, end) =
      bind-eq_ok (ensure_row now (db.users ++ new_user now id input ∷ []) ss id) _ e2 in
    (ground arith, role, cc, cc)

pub register-IsRegistered :
    (lower to_lower : String → String) (generate : String → Option String) (now id : ℕ)
    (s s' : Accounts) (r : RegisterRequest) (u : User)
    → register lower to_lower generate now id s (some r) ≡ (s', done u)
    → IsRegistered lower to_lower generate now id s s' r u
unfolding register register_input register_hashed
register-IsRegistered lower to_lower generate now id s s' r u e =
    normal (normalize_registration to_lower r) refl e
  where
    stored :
        (hashed : String) (input : RegisterRequest)
        → normalize_registration to_lower r ≡ some input
        → generate input.password ≡ some hashed
        → register_hashed lower to_lower generate now id s input (some hashed) ≡ (s', done u)
        → IsRegistered lower to_lower generate now id s s' r u
    stored hashed input given g h =
        let (long, same) = normalize-eq_some to_lower r input given in
        let result =
          created-eq_done s s' (create_user lower now id s.db s.settings (user_input input hashed))
            u h in
        let (free, role, row, rows) =
          create_user-eq_ok lower now id s.db s'.db s.settings s'.settings (user_input input hashed)
            u result in
        let row' : u ≡ new_user now id (user_input (normalized to_lower r) hashed) =
          subst (λ i. u ≡ new_user now id (user_input i hashed)) same row in
        record {
          hashed = hashed;
          made = subst (λ (i : RegisterRequest). generate i.password ≡ some hashed) same g;
          row = row';
          new_name =
              subst (λ t. any (is_named lower t) s.db.users ≡ false) (trim_space_idem r.username)
                (subst
                  (λ (i : RegisterRequest).
                    any (is_named lower (trim_space i.username)) s.db.users ≡ false)
                  same free);
          known_role = ground (arith, row', same, role);
          long = long;
          rows = rw row rows;
        }

    hashing :
        (o : Option String) (input : RegisterRequest)
        → normalize_registration to_lower r ≡ some input
        → generate input.password ≡ o
        → register_hashed lower to_lower generate now id s input o ≡ (s', done u)
        → IsRegistered lower to_lower generate now id s s' r u
    hashing none input given g h = cc
    hashing (some hashed) input given g h = stored hashed input given g h

    normal :
        (o : Option RegisterRequest)
        → normalize_registration to_lower r ≡ o
        → register_input lower to_lower generate now id s o ≡ (s', done u)
        → IsRegistered lower to_lower generate now id s s' r u
    normal none given h = cc
    normal (some input) given h = hashing (generate input.password) input given refl h
