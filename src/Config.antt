-- ===== src/Config.antt =====
-- internal/config/config.go, and `EnsureAccessTicketSigningKey` of internal/database/repository.go. `getenv` is
-- `os.Getenv`, `atoi` is `strconv.Atoi`, `url_parse` and `url_string` are `url.Parse` and `String`; `raw_url` and
-- `std` are the decoders of `base64.RawURLEncoding` and `base64.StdEncoding`. `buildPostgresURL` prints with net/url, so
-- what it gives is a parameter.
pub mod Sound
mod Tests
use Prim.Native.Char.{code}
use Prim.Native.String
use echoear_cloud.Base.{
  [], ℕ, String, Bool, true, false, Option, none, some, List, ◌∷◌, ◌&&◌, ◌||◌, ◌*◌, not,
  if◌then◌else◌, ◌==◌, leb, length, map, select, str_eq, trim_space, is_empty, ℤ,
}

-- `strings.Split(text, ",")`: one part more than there are commas.
abbrev pub with_head : (String → String) → List String → List String
with_head f [] = []
with_head f (part ∷ parts) = f part ∷ parts

unfoldable pub split_comma : String → List String
split_comma String.[] = String.[] ∷ []
split_comma (String.◌∷◌ c s) =
    let rest = split_comma s in
    if code c == b',' then String.[] ∷ rest else with_head (λ part. String.◌∷◌ c part) rest

abbrev pub or_any : List String → List String
or_any [] = "*" ∷ []
or_any (item ∷ items) = item ∷ items

unfoldable pub split_csv : String → List String
unfolding split_comma
split_csv value = or_any (select (λ item. not (is_empty item)) (map trim_space (split_comma value)))

-- The parts of a `url.URL` that are tested.
pub record Url : Type 0 where
  pub scheme : String
  pub has_user : Bool
  pub host : String
  pub path : String
  pub raw_query : String
  pub fragment : String

abbrev pub is_origin : Url → Bool
is_origin u =
    (str_eq u.scheme "http" || str_eq u.scheme "https")
    && not (is_empty u.host)
    && not u.has_user
    && is_empty u.raw_query
    && is_empty u.fragment
    && (is_empty u.path || str_eq u.path "/")

-- `strings.TrimRight(text, "/")`.
abbrev pub all_slashes : String → Bool
all_slashes String.[] = true
all_slashes (String.◌∷◌ c s) = code c == b'/' && all_slashes s

abbrev pub trim_slashes : String → String
trim_slashes String.[] = String.[]
trim_slashes (String.◌∷◌ c s) =
    let rest = trim_slashes s in
    if all_slashes (String.◌∷◌ c s) then String.[] else String.◌∷◌ c rest

-- Why a configuration is refused.
pub data ConfigError : Type 0 where
  bad_port no_base_url bad_base_url bad_signing_key : ConfigError

pub data Loaded {ℓ} (A : Type ℓ) : Type ℓ where
  rejected : ConfigError → Loaded A
  loaded : A → Loaded A

module _ (url_parse : String → Option Url) (url_string : Url → String) where
  abbrev pub checked_url : Option Url → Loaded String
  checked_url none = rejected bad_base_url
  checked_url (some u) =
      if is_origin u
      then loaded (trim_slashes (url_string (record u { path = "" })))
      else rejected bad_base_url

  unfoldable pub normalize_public_base_url : String → Loaded String
  normalize_public_base_url raw =
      if is_empty (trim_space raw)
      then rejected no_base_url
      else checked_url (url_parse (trim_space raw))

abbrev pub has_32_bytes : Option (List ℕ) → Bool
has_32_bytes none = false
has_32_bytes (some bytes) = length bytes == 32

abbrev pub valid_access_ticket_seed :
    (String → Option (List ℕ)) → (String → Option (List ℕ)) → String → Bool
valid_access_ticket_seed raw_url std value =
    has_32_bytes (raw_url value) || has_32_bytes (std value)

abbrev pub env : (String → String) → String → String → String
env getenv key fallback =
    if is_empty (trim_space (getenv key)) then fallback else trim_space (getenv key)

pub record Config : Type 0 where
  pub http_port : ℕ
  pub database_url : String
  pub public_base_url : String
  pub allowed_origins : List String
  pub session_ttl : ℕ
  pub access_ticket_signing_key : String
  pub hapi_web_dir : String

abbrev pub read_port : Option ℤ → Option ℕ
read_port none = none
read_port (some (ℤ.pos n)) = if leb 1 n && leb n 65535 then some n else none
read_port (some (ℤ.negsuc n)) = none

module _ (getenv : String → String) (atoi : String → Option ℤ) (url_parse : String → Option Url)
    (url_string : Url → String) (raw_url std : String → Option (List ℕ))
    (postgres_url : String) where
  abbrev pub database_url_of : String → String
  database_url_of given = if is_empty given then postgres_url else given

  unfoldable pub config_with : ℕ → String → Config
  unfolding split_csv
  config_with port base_url = record {
    http_port = port;
    database_url = database_url_of (trim_space (getenv "DATABASE_URL"));
    public_base_url = base_url;
    allowed_origins = split_csv (env getenv "CORS_ALLOWED_ORIGINS" "*");
    session_ttl = 30 * 24 * 60 * 60 * 1000000;
    access_ticket_signing_key = trim_space (getenv "ACCESS_TICKET_SIGNING_KEY");
    hapi_web_dir = env getenv "HAPI_WEB_DIR" "/app/hapi-web";
  }

  abbrev pub signing_key_fits : Bool
  signing_key_fits =
      is_empty (trim_space (getenv "ACCESS_TICKET_SIGNING_KEY"))
      || valid_access_ticket_seed raw_url std (trim_space (getenv "ACCESS_TICKET_SIGNING_KEY"))

  unfoldable pub load_with : ℕ → Loaded String → Loaded Config
  unfolding config_with
  load_with port (rejected e) = rejected e
  load_with port (loaded base_url) =
      if not signing_key_fits then rejected bad_signing_key else loaded (config_with port base_url)

  unfoldable pub load_port : Option ℕ → Loaded Config
  unfolding load_with normalize_public_base_url
  load_port none = rejected bad_port
  load_port (some port) =
      load_with port (normalize_public_base_url url_parse url_string (getenv "PUBLIC_BASE_URL"))

  unfoldable pub load : Loaded Config
  unfolding load_port
  load = load_port (read_port (atoi (env getenv "HTTP_PORT" "8080")))

-- The row of `app_settings` under the key, which a first start writes and every later one reads;
-- `none` where the stored key is not one.
unfoldable pub ensure_access_ticket_signing_key :
    (String → Option (List ℕ)) → Option String → String → String → Option String × Option String
ensure_access_ticket_signing_key std row generated configured =
    if not (is_empty (trim_space configured))
    then (row, some (trim_space configured))
    else elim row [
      | none ↦ (some generated, stored_key generated)
      | some text ↦ (some text, stored_key text)
    ]
  where
    stored_key : String → Option String
    stored_key text = if has_32_bytes (std (trim_space text)) then some (trim_space text) else none
