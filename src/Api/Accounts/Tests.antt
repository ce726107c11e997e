-- ===== src/Api/Accounts/Tests.antt =====
-- The theorems on accounts at an administrator who registers a user.
use text.Mathlib.TextPositions.{eq_refl}
use echoear_cloud.Base.{
  String, true, false, ◌≡◌, refl, Option, some, [], ◌∷◌, arith, str_eq, trim_space, is_empty,
}
use echoear_cloud.Database.Rows.{User, Db}
use echoear_cloud.Database.Users.{Session, session_by_token}
use echoear_cloud.Database.Users.Create.{new_user}
use echoear_cloud.Database.Users.Sessions.{new_session}
use echoear_cloud.Database.Settings.{default_settings}
use echoear_cloud.Api.Http.{refused, done}
use echoear_cloud.Api.Session.{
  Visit, Headers, logged_in, login_with_cookie, require_session, logout,
}
use echoear_cloud.Api.Session.Entry.{session_header}
use echoear_cloud.Api.Accounts.{
  RegisterRequest, Accounts, normalized, user_input, register, admin_route,
}
use echoear_cloud.Api.Accounts.Gate.{IsGated, admin_route-IsGated}
use echoear_cloud.Api.Accounts.Journey.{require_session-register}

abbrev same : String → String
same s = s

abbrev generate : String → Option String
generate s = some s

bcrypt :
    (password hashed : String) → generate password ≡ some hashed → str_eq hashed password ≡ true
bcrypt password hashed e = ground (arith, eq_refl hashed)

abbrev start : Accounts
start = record {
  db = record {
    users = [];
    sessions = [];
    agents = [];
    shares = [];
    leases = [];
    audit = [];
    usage_days = [];
    usage_events = [];
  };
  settings = [];
}

abbrev visit : Visit
visit = record {
  now = 10;
  clock = 10;
  ip = "";
  user_agent = "";
  token = "t0k";
  session_ttl = 1000;
  public_base_url = "https://ear.example";
}

abbrev request : RegisterRequest
request = record { username = " ann "; password = "secret"; email = ""; role = "" }

ann : User
unfolding trim_space
ann = new_user 5 1 (user_input (normalized same request) "secret")

registered : Accounts
registered = record {
  db = record start.db { users = ann ∷ [] };
  settings = default_settings 5 1 ∷ [];
}

registers : register same same generate 5 1 start (some request) ≡ (registered, done ann)
unfolding register registered ann trim_space
registers = refl

name-same : same (trim_space "ann") ≡ same (trim_space " ann ")
unfolding trim_space
name-same = refl

token-plain : (trim_space "t0k" ≡ "t0k") × (is_empty "t0k" ≡ false)
unfolding trim_space
token-plain = (refl, refl)

require_session-register_example :
    (db' : Db) × (session : Session) × (login_with_cookie same same str_eq visit false registered.db
        (some (record { username = "ann"; password = "secret" }))
      ≡ (db', done (logged_in visit false ann)))
    × ((require_session same 50 50 db'
          (record { authorization = session_header "t0k"; session = ""; cookie = "" })).1
        ≡ done session)
    × (session.user_id ≡ ann.id)
    × (session.role ≡ ann.role)
    × (require_session same 60 50
          (logout same 50 db' session)
          (record { authorization = session_header "t0k"; session = ""; cookie = "" })
        ≡ (logout same 50 db' session, refused 401))
require_session-register_example =
    require_session-register same same same str_eq generate 5 1 start registered request ann visit
      false "ann" 50 60 50 bcrypt registers refl refl name-same refl token-plain (omega arith)

abbrev office : Accounts
office = record start {
  db = record start.db {
    users =
        record (new_user 1 7 (user_input request "secret")) { username = "boss"; role = "admin" }
        ∷ [];
    sessions = new_session 1 7 1000 "t0k" "" "" ∷ [];
  };
}

abbrev headers : Headers
headers = record { authorization = "Session t0k"; session = ""; cookie = "" }

admin_route-IsGated_example :
    IsGated
      (λ s session. register same same generate 5 1 s (some request))
      same
      5
      office
      headers
      (admin_route same 5 5
        (λ s session. register same same generate 5 1 s (some request))
        office
        headers)
admin_route-IsGated_example =
    admin_route-IsGated (λ s session. register same same generate 5 1 s (some request)) same 5 5
      office headers

-- The administrator's request ran.
registers_for_admin :
    (admin_route same 5 5
      (λ s session. register same same generate 5 1 s (some request))
      office
      headers).1
    ≡ done (new_user 5 1 (user_input (normalized same request) "secret"))
unfolding admin_route require_session register session_by_token trim_space
registers_for_admin = refl
