-- ===== src/Database/Users/Create.antt =====
-- `CreateUser` of internal/database/repository.go. `lower` is the database's LOWER: the user names are unique
-- up to it, by `users_username_lower_unique` of migrations/001_schema.sql.
use echoear_cloud.Base.{
  ℕ, String, Bool, false, none, List, [], ◌∷◌, ◌++◌, ◌||◌, not, any, str_eq, trim_space,
}
use echoear_cloud.Database.Rows.{
  username_exists, check_violation, Result, ok, ◌>>=◌, ◌>>◌, guard, User, Db,
}
use echoear_cloud.Database.Settings.{Settings, ensure_row}

pub record CreateUserInput : Type 0 where
  pub username : String
  pub password_hash : String
  pub email : String
  pub role : String

abbrev pub new_user : ℕ → ℕ → CreateUserInput → User
new_user now id input = record {
  id = id;
  username = trim_space input.username;
  password_hash = input.password_hash;
  email = trim_space input.email;
  role = input.role;
  status = "active";
  password_changed = false;
  created_at = now;
  updated_at = now;
  last_login_at = none;
  disabled_at = none;
  disabled_by = none;
  disabled_reason = "";
  deleted_at = none;
  deleted_by = none;
  deleted_reason = "";
}

-- `LOWER(username) = LOWER($1)`.
abbrev pub is_named : (String → String) → String → User → Bool
is_named lower name u = str_eq (lower u.username) (lower name)

-- `id` is the next one of the sequence, which no row has.
unfoldable pub create_user :
    (String → String)
    → ℕ
    → ℕ
    → Db
    → List Settings
    → CreateUserInput
    → Result (Db × List Settings × User)
unfolding ensure_row
create_user lower now id db ss input = do
  guard (not (any (is_named lower (trim_space input.username)) db.users)) username_exists
  guard (str_eq input.role "admin" || str_eq input.role "user") check_violation
  let users = db.users ++ new_user now id input ∷ []
  ss' ← ensure_row now users ss id
  ok (record db { users = users }, ss', new_user now id input)
