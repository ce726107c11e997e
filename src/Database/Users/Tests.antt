-- ===== src/Database/Users/Tests.antt =====
-- The theorems on accounts at a small database.
use echoear_cloud.Base.{
  ℕ, String, false, ◌≡◌, ◌≢◌, ◌≤◌, refl, none, some, [], ◌∷◌, arith, eq_iff, trim_space,
}
use echoear_cloud.Database.Rows.{ok, User, Db}
use echoear_cloud.Database.Users.{
  Plan, count_active_admins, check_lifecycle, apply_lifecycle, update_user_lifecycle, Session,
  session_by_token,
}
use echoear_cloud.Database.Users.Admins.{UniqueIds, update_user_lifecycle_keeps_admin}
use echoear_cloud.Database.Users.Lockout.{IsLockedOut, update_user_lifecycle_locks_out}
use echoear_cloud.Database.Users.Race.{step_down_race}

abbrev account : ℕ → String → String → User
account id name role = record {
  id = id;
  username = name;
  password_hash = "";
  email = "";
  role = role;
  status = "active";
  password_changed = false;
  created_at = 0;
  updated_at = 0;
  last_login_at = none;
  disabled_at = none;
  disabled_by = none;
  disabled_reason = "";
  deleted_at = none;
  deleted_by = none;
  deleted_reason = "";
}

abbrev office : Db
office = record {
  users = account 1 "ada" "admin" ∷ account 2 "bob" "admin" ∷ account 3 "cy" "user" ∷ [];
  sessions =
      record {
        user_id = 2;
        session_hash = "t";
        status = "active";
        ip_address = "";
        user_agent = "";
        created_at = 0;
        updated_at = 0;
        last_seen_at = 0;
        expires_at = 900;
        revoked_at = none;
      }
      ∷ [];
  agents = [];
  shares = [];
  leases = [];
  audit = [];
  usage_days = [];
  usage_events = [];
}

abbrev blank : Plan → String
blank p = ""

abbrev numeral : ℕ → String
numeral n = "n"

abbrev same : String → String
same s = s

-- The office after the first administrator has disabled the second.
disabled : Db
disabled =
    apply_lifecycle blank numeral 50
      (record {
        actor = 1;
        target = 2;
        role = "admin";
        status = "disabled";
        reason = "left";
        previous_role = "admin";
        previous_status = "active";
      })
      office

abbrev bob_disabled : User
bob_disabled = record (account 2 "bob" "admin") {
  status = "disabled";
  updated_at = 50;
  disabled_at = some 50;
  disabled_by = some 1;
  disabled_reason = "left";
}

disable_bob :
    update_user_lifecycle blank numeral 50 office 1 2 "disabled" "" " left "
    ≡ ok (disabled, bob_disabled)
unfolding update_user_lifecycle disabled trim_space
disable_bob = refl

office-UniqueIds : UniqueIds office.users
office-UniqueIds = omega arith

update_user_lifecycle_keeps_admin_example : 1 ≤ count_active_admins disabled.users
update_user_lifecycle_keeps_admin_example =
    update_user_lifecycle_keeps_admin blank numeral 50 office disabled 1 2 "disabled" "" " left "
      bob_disabled office-UniqueIds (omega arith) disable_bob

update_user_lifecycle_locks_out_example :
    IsLockedOut 2 disabled
    × ((token : String) (s : Session)
        → session_by_token same 60 disabled token ≡ some s
        → s.user_id ≢ 2)
update_user_lifecycle_locks_out_example =
    update_user_lifecycle_locks_out blank numeral same 50 60 office disabled 1 2 "disabled" ""
      " left " bob_disabled disable_bob (ground (arith, eq_iff "disabled" "active"))

step_down_race_example :
    (p : Plan) × (q : Plan) × (check_lifecycle office 1 1 "" "user" "" ≡ ok p)
    × (check_lifecycle office 2 2 "" "user" "" ≡ ok q)
    × (count_active_admins
          (apply_lifecycle blank numeral 60 q (apply_lifecycle blank numeral 50 p office)).users
        ≡ 0)
step_down_race_example =
    step_down_race blank numeral 50 60 1 2 office (account 1 "ada" "admin")
      (account 2 "bob" "admin") office-UniqueIds (omega arith) refl refl (refl, refl) (refl, refl)
      refl
