-- ===== src/Config/Tests.antt =====
-- The theorem on configurations at an environment with two origins.
use Prim.Native.String
use echoear_cloud.Base.{
  ℕ, String, false, ◌≡◌, refl, Option, none, some, List, [], ◌∷◌, ℤ, str_eq, trim_space,
  if◌then◌else◌,
}
use echoear_cloud.Config.{
  Url, Config, loaded, split_csv, normalize_public_base_url, config_with, load_with, load_port,
  load, valid_access_ticket_seed,
}
use echoear_cloud.Config.Sound.{IsSound, load-IsSound}

abbrev getenv : String → String
getenv key =
    if str_eq key "PUBLIC_BASE_URL"
    then "https://ear.example/"
    else if str_eq key "CORS_ALLOWED_ORIGINS"
    then "https://a.example, ,b"
    else ""

abbrev atoi : String → Option ℤ
atoi text = some (ℤ.pos 8080)

abbrev origin : Url
origin = record {
  scheme = "https";
  has_user = false;
  host = "ear.example";
  path = "/";
  raw_query = "";
  fragment = "";
}

abbrev url_parse : String → Option Url
url_parse text = some origin

abbrev url_string : Url → String
url_string u = String.◌++◌ "https://ear.example" u.path

abbrev no_bytes : String → Option (List ℕ)
no_bytes text = none

abbrev config : Config
config = record {
  http_port = 8080;
  database_url = "postgres://";
  public_base_url = "https://ear.example";
  allowed_origins = "https://a.example" ∷ "b" ∷ [];
  session_ttl = 2592000000000;
  access_ticket_signing_key = "";
  hapi_web_dir = "/app/hapi-web";
}

loads : load getenv atoi url_parse url_string no_bytes no_bytes "postgres://" ≡ loaded config
unfolding load load_port load_with config_with normalize_public_base_url split_csv trim_space
loads = refl

load-IsSound_example : IsSound (valid_access_ticket_seed no_bytes no_bytes) config
load-IsSound_example =
    load-IsSound getenv atoi url_parse url_string no_bytes no_bytes "postgres://" config loads
