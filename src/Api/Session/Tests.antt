-- ===== src/Api/Session/Tests.antt =====
-- The theorem on passwords at one account.
use text.Mathlib.TextPositions.{eq_refl}
use echoear_cloud.Base.{
  String, true, false, ◌≡◌, refl, Option, none, some, [], ◌∷◌, arith, find, str_eq, eq_iff,
  trim_space,
}
use echoear_cloud.Database.Rows.{User, Db}
use echoear_cloud.Database.Users.Create.{is_named}
use echoear_cloud.Api.Http.{refused, done}
use echoear_cloud.Api.Session.{
  Visit, PasswordRequest, logged_in, login_with_cookie, change_password, set_password,
  native_session_token, web_cookie,
}
use echoear_cloud.Api.Session.Password.{login_with_cookie-change_password}

abbrev same : String → String
same s = s

abbrev generate : String → Option String
generate s = some s

right : (password hashed : String) → generate password ≡ some hashed → str_eq hashed password ≡ true
right password hashed e = ground (arith, eq_refl hashed)

abbrev ann : User
ann = record {
  id = 1;
  username = "ann";
  password_hash = "secret";
  email = "";
  role = "user";
  status = "active";
  password_changed = false;
  created_at = 0;
  updated_at = 0;
  last_login_at = none;
  disabled_at = none;
  disabled_by = none;
  disabled_reason = "";
  deleted_at = none;
  deleted_by = none;
  deleted_reason = "";
}

abbrev db : Db
db = record {
  users = ann ∷ [];
  sessions = [];
  agents = [];
  shares = [];
  leases = [];
  audit = [];
  usage_days = [];
  usage_events = [];
}

abbrev visit : Visit
visit = record {
  now = 10;
  clock = 10;
  ip = "";
  user_agent = "";
  token = "t0k";
  session_ttl = 1000;
  public_base_url = "https://ear.example";
}

abbrev request : PasswordRequest
request = record { old_password = "secret"; new_password = " shh-shh " }

changed : Db
unfolding set_password
changed = set_password 10 1 "shh-shh" db

changes : change_password str_eq generate 10 1 db (some request) ≡ (changed, done tt)
unfolding change_password changed trim_space
changes = refl

ann-found : find (is_named same (trim_space "ann")) db.users ≡ some ann
unfolding trim_space
ann-found = refl

typed-wrong :
    (hashed : String)
    → generate (trim_space " shh-shh ") ≡ some hashed
    → str_eq hashed " shh-shh " ≡ false
unfolding trim_space
typed-wrong hashed e = ground (arith, eq_iff hashed " shh-shh ", eq_iff "shh-shh" " shh-shh ")

login_with_cookie-change_password_example :
    (db'' : Db) × (u' : User) × (login_with_cookie same same str_eq visit false changed
        (some (record { username = "ann"; password = trim_space " shh-shh " }))
      ≡ (db'', done (logged_in visit false u')))
    × (u'.id ≡ 1)
    × (login_with_cookie same same str_eq visit false changed
          (some (record { username = "ann"; password = " shh-shh " }))
        ≡ (changed, refused 401))
login_with_cookie-change_password_example =
    login_with_cookie-change_password str_eq generate same same 10 db changed request ann visit
      false "ann" " shh-shh " right changes refl ann-found refl refl refl typed-wrong

header_runs : native_session_token "  Session   abc " ≡ "abc"
unfolding native_session_token trim_space
header_runs = refl

other_header_runs : native_session_token "Bearer abc" ≡ ""
unfolding native_session_token trim_space
other_header_runs = refl

cookie_runs :
    web_cookie "https://ear.example" 5 "abc" 6
    ≡ record { value = "abc"; max_age = 1; secure = true }
unfolding web_cookie
cookie_runs = refl
