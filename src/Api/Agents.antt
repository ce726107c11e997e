-- ===== src/Api/Agents.antt =====
-- The handlers of agents, settings and pairing in internal/api/echoear_handlers.go, with
-- `validateAgentEncryption` and `sanitizeCapabilities`. `read_capabilities` is `json.Unmarshal` of the six
-- fields and `print_capabilities` is `json.Marshal`; a body that is no JSON of its request is `none`. The
-- other parameters are those of the modules of Database that the handlers call.
pub mod Responses
mod Tests
use Prim.Native.String
use echoear_cloud.Base.{
  ℕ, zero, suc, String, len, Bool, true, false, Option, none, some, List, ◌&&◌, ◌||◌, not,
  if◌then◌else◌, ◌==◌, ltb, str_eq, starts_with, trim_space, is_empty, ℤ,
}
use echoear_cloud.Database.Rows.{Error, no_rows, Result, ok, err, Agent, User, Db}
use echoear_cloud.Database.Devices.{Device}
use echoear_cloud.Database.Access.{AgentAccess, resolve_access, is_online}
use echoear_cloud.Database.Agents.{
  AgentInput, agent_for_user, scan_agent, register_agent, set_preferred_device,
}
use echoear_cloud.Database.Settings.{Settings, SettingsInput, get_settings, put_settings}
use echoear_cloud.Database.Pairing.{Claim, create_pairing_claim, confirm_pairing_claim, rotate_pair}
use echoear_cloud.Database.Mailbox.{Response, save_response, response_for}
use echoear_cloud.Api.Http.{Answer, refused, done}
use echoear_cloud.Api.Identifier.{valid_identifier}
use echoear_cloud.Api.Connect.{EncryptedBlob, valid_blob, hapi_algorithm}

-- `strings.Contains(text, part)`.
abbrev pub has_part : String → String → Bool
has_part String.[] part = is_empty part
has_part (String.◌∷◌ c s) part = starts_with (String.◌∷◌ c s) part || has_part s part

-- Whether the registration passes: its three fields are all blank, or all good.
unfoldable pub validate_agent_encryption : AgentInput → Bool
unfolding valid_identifier
validate_agent_encryption r =
    let key = trim_space r.public_key in
    let key_id = trim_space r.key_id in
    let algorithm = trim_space r.key_algorithm in
    if is_empty key && is_empty key_id && is_empty algorithm
    then true
    else if is_empty key || is_empty key_id || is_empty algorithm
    then false
    else if not (str_eq algorithm hapi_algorithm)
    then false
    else if ltb 8192 (len key) || not (has_part key "BEGIN PUBLIC KEY")
    then false
    else valid_identifier key_id 8 128

pub record Capabilities : Type 0 where
  pub hapi : Bool
  pub hapi_version : String
  pub runtime_ready : Bool
  pub runtime_starting : Bool
  pub runtime_failed : Bool
  pub cloud_tunnel_ready : Bool

-- The first runes of a text.
abbrev pub take_runes : ℕ → String → String
take_runes zero s = String.[]
take_runes (suc n) String.[] = String.[]
take_runes (suc n) (String.◌∷◌ c s) = String.◌∷◌ c (take_runes n s)

module _ (read_capabilities : String → Option Capabilities)
    (print_capabilities : Capabilities → String) where
  abbrev pub cleaned : Option Capabilities → String
  cleaned none = "{}"
  cleaned (some c) =
      print_capabilities (record c { hapi_version = take_runes 24 (trim_space c.hapi_version) })

  unfoldable pub sanitize_capabilities : String → String
  sanitize_capabilities raw = if len raw == 0 then "{}" else cleaned (read_capabilities raw)

-- An agent that was written, as `scanAgent` gives it.
abbrev pub after_register :
    ℕ → List Agent → Result (List Agent × Agent) → List Agent × Answer (Agent × Bool)
after_register clock agents (err e) = (agents, refused 500)
after_register clock agents (ok (agents', a)) = (agents', done (scan_agent clock a))

module _ (upper : String → String) (decode_object : String → Option String)
    (read_capabilities : String → Option Capabilities)
    (print_capabilities : Capabilities → String) where
  unfoldable pub register_agent_handler :
      ℕ → ℕ → ℕ → String → List Agent → ℕ → Option AgentInput → List Agent × Answer (Agent × Bool)
  unfolding validate_agent_encryption sanitize_capabilities register_agent is_online
  register_agent_handler now clock id public_id agents user none = (agents, refused 400)
  register_agent_handler now clock id public_id agents user (some r) =
      if is_empty r.agent_id
      then (agents, refused 400)
      else if not (validate_agent_encryption r)
      then (agents, refused 400)
      else after_register clock agents (
          register_agent upper decode_object now id public_id agents user (record r {
            capabilities =
                sanitize_capabilities read_capabilities print_capabilities r.capabilities;
          }))

-- `sql.ErrNoRows` is 404, any other error 500.
abbrev pub found_status : Error → ℕ
found_status no_rows = 404
found_status _ = 500

abbrev pub or_kept {ℓ} : {S : Type ℓ} → S → Result S → S × Answer (Unit {0})
or_kept s (err e) = (s, refused (found_status e))
or_kept s (ok s') = (s', done tt)

abbrev pub or_refused {ℓ κ} :
    {S : Type ℓ} {A : Type κ} → (Error → ℕ) → S → Result (S × A) → S × Answer A
or_refused status s (err e) = (s, refused (status e))
or_refused status s (ok (s', a)) = (s', done a)

module _ (upper : String → String) where
  unfoldable pub set_preferred_device_handler :
      ℕ → List Device → List Agent → ℕ → Option (String × String) → List Agent × Answer (Unit {0})
  unfolding set_preferred_device
  set_preferred_device_handler now ds agents user none = (agents, refused 400)
  set_preferred_device_handler now ds agents user (some (uid, agent)) =
      if is_empty uid
      then (agents, refused 400)
      else or_kept agents (set_preferred_device upper now ds agents user agent uid)

  unfoldable pub claim_pairing :
      (ℕ → Option ℕ)
      → ℕ
      → List Device
      → List Claim
      → ℕ
      → Option (String × ℤ)
      → List Claim × Answer Claim
  unfolding create_pairing_claim
  claim_pairing draw now ds cs user none = (cs, refused 400)
  claim_pairing draw now ds cs user (some (uid, seconds)) =
      if is_empty uid
      then (cs, refused 400)
      else or_refused found_status cs (create_pairing_claim upper draw now ds cs user uid seconds)

  abbrev pub after_rotate :
      List Device
      → Result (List Device × Option Device × String)
      → List Device × Answer (Device × String)
  after_rotate ds (err e) = (ds, refused 500)
  after_rotate ds (ok (ds', none, secret)) = (ds', refused 404)
  after_rotate ds (ok (ds', some d, secret)) = (ds', done (d, secret))

  -- The two given values are empty where the body is no JSON.
  unfoldable pub rotate_pair_handler :
      (String → String)
      → Option String
      → Option String
      → ℕ
      → List Device
      → ℕ
      → String
      → String
      → String
      → List Device × Answer (Device × String)
  unfolding rotate_pair
  rotate_pair_handler hash random_public random_secret now ds user uid public_id secret =
      after_rotate ds
        (rotate_pair upper hash random_public random_secret now ds user uid public_id secret)

abbrev pub or_absent {ℓ κ} : {S : Type ℓ} {A : Type κ} → S × Option A → S × Answer A
or_absent (s, none) = (s, refused 404)
or_absent (s, some a) = (s, done a)

unfoldable pub confirm_pairing :
    ℕ
    → List Device
    → List Claim
    → ℕ
    → Option (String × String)
    → List Claim × Answer (Device × Claim)
unfolding confirm_pairing_claim
confirm_pairing now ds cs user none = (cs, refused 400)
confirm_pairing now ds cs user (some (code, agent)) =
    if is_empty code
    then (cs, refused 400)
    else or_absent (confirm_pairing_claim now ds cs user code agent)

abbrev pub always_500 : Error → ℕ
always_500 e = 500

unfoldable pub get_settings_handler :
    ℕ → List User → List Settings → ℕ → List Settings × Answer Settings
unfolding get_settings
get_settings_handler now users ss user = or_refused always_500 ss (get_settings now users ss user)

unfoldable pub put_settings_handler :
    (String → Option String)
    → ℕ
    → List User
    → List Settings
    → ℕ
    → Option SettingsInput
    → List Settings × Answer Settings
unfolding put_settings
put_settings_handler decode_object now users ss user none = (ss, refused 400)
put_settings_handler decode_object now users ss user (some input) =
    or_refused always_500 ss (put_settings decode_object now users ss user input)

module _ (decode : String → Option (List ℕ)) (print_blob : EncryptedBlob → String) where
  unfoldable pub save_for_agent :
      ℕ
      → List Response
      → ℕ
      → String
      → String
      → EncryptedBlob
      → Option (Agent × Bool)
      → List Response × Answer (Unit {0})
  unfolding valid_blob save_response
  save_for_agent now rs user agent request blob none = (rs, refused 404)
  save_for_agent now rs user agent request blob (some a) =
      if not (valid_blob decode blob)
      then (rs, refused 400)
      else (save_response now rs user agent request (print_blob blob), done tt)

  unfoldable pub put_hapi_response :
      ℕ
      → ℕ
      → List Agent
      → List Response
      → ℕ
      → String
      → String
      → Option EncryptedBlob
      → List Response × Answer (Unit {0})
  unfolding save_for_agent agent_for_user valid_identifier
  put_hapi_response now clock agents rs user agent request none = (rs, refused 400)
  put_hapi_response now clock agents rs user agent request (some blob) =
      if not (valid_identifier (trim_space request) 8 128)
      then (rs, refused 400)
      else save_for_agent now rs user (trim_space agent) (trim_space request) blob
          (agent_for_user clock agents user (trim_space agent))

unfoldable pub response_of :
    ℕ → List Response → String → Db × Option AgentAccess → Db × Answer Response
unfolding response_for
response_of now rs request (db, none) = (db, refused 404)
response_of now rs request (db, some access) =
    or_absent (db, response_for now rs access.agent.user_id access.agent.agent_id request)

unfoldable pub get_hapi_response :
    ℕ → ℕ → Db → List Response → ℕ → String → String → Db × Answer Response
unfolding response_of resolve_access
get_hapi_response now clock db rs user agent request =
    response_of now rs (trim_space request) (resolve_access now clock db user (trim_space agent))
