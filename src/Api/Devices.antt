-- ===== src/Api/Devices.antt =====
-- The handlers of devices in internal/api/server.go. The parameters are those of Database.Devices; `fold` is
-- the folding of `strings.EqualFold`. A body that is no JSON of the request is `none`; `clock` is the
-- service's clock and `now` the database's.
pub mod Presence
mod Tests
use echoear_cloud.Base.{
  ℕ, String, Bool, true, false, Option, none, some, List, ◌+◌, ◌/◌, ◌||◌, if◌then◌else◌, str_eq,
  trim_space, is_empty, find,
}
use echoear_cloud.Database.Rows.{
  Error, device_uid_required, invalid_last_ip, token_fields_required, Result, ok, err, Agent,
}
use echoear_cloud.Database.Devices.{
  Device, DeviceInput, Heartbeat, has_uid, normalize_uid, Bound, bound, conflict, bind_device,
  heartbeat_device,
}
use echoear_cloud.Database.Devices.Credentials.{
  device_access_ttl, device_refresh_ttl, issue_tokens, exchange_refresh, presence, revoke_device,
  ack_pending_reset,
}
use echoear_cloud.Database.Devices.Reads.{
  DevicePatch, list_devices, list_pending_reset, device_for_user, patch_device,
}
use echoear_cloud.Database.Agents.{preferred_device_uid}
use echoear_cloud.Api.Http.{Answer, refused, done, split_space, truthy}

-- The tokens of an answer; the refresh token's are absent when only an access token is new.
pub record Tokens : Type 0 where
  pub refresh_token : Option String
  pub refresh_expires_at : Option ℕ
  pub access_token : String
  pub access_expires_at : ℕ
  pub access_expires_in : ℕ

pub record Granted : Type 0 where
  pub device : Device
  pub tokens : Tokens
  pub cloud_base_url : String

-- What the runtime gives to one call: the clocks, the next id, and the two tokens.
pub record Moment : Type 0 where
  pub now : ℕ
  pub clock : ℕ
  pub next_id : ℕ
  pub refresh : String
  pub access : String

abbrev pub new_tokens : Moment → Tokens
new_tokens m = record {
  refresh_token = some m.refresh;
  refresh_expires_at = some (m.clock + device_refresh_ttl);
  access_token = m.access;
  access_expires_at = m.clock + device_access_ttl;
  access_expires_in = device_access_ttl / 1000000;
}

-- `nil` beside no error is 404.
abbrev pub or_missing : List Device × Option Device → List Device × Answer Device
or_missing (ds, none) = (ds, refused 404)
or_missing (ds, some d) = (ds, done d)

abbrev pub bind_status : Error → ℕ
bind_status device_uid_required = 400
bind_status invalid_last_ip = 400
bind_status _ = 500

unfoldable pub with_tokens :
    Moment → String → Device → List Device × Option Device → List Device × Answer Granted
with_tokens m base_url d (ds, none) = (ds, refused 500)
with_tokens m base_url d (ds, some updated) =
    (ds, done (record { device = d; tokens = new_tokens m; cloud_base_url = base_url }))

abbrev pub token_status : Error → ℕ
token_status token_fields_required = 400
token_status _ = 401

-- When the refresh token of a device expires, which `ExchangeRefresh` answers beside the access token.
abbrev pub refresh_expiry : Option Device → Option ℕ
refresh_expiry none = none
refresh_expiry (some d) = d.refresh_expires_at

unfoldable pub after_exchange :
    Moment → List Device → Option Device → Result (List Device) → List Device × Answer Tokens
after_exchange m ds device (err e) = (ds, refused (token_status e))
after_exchange m ds device (ok ds') = (
  ds',
  done (record (new_tokens m) { refresh_token = none; refresh_expires_at = refresh_expiry device }),
)

-- What `heartbeatRequest` reads: no body is an empty report.
abbrev pub no_report : Heartbeat
no_report = record { last_ip = ""; hostname = ""; fw_version = "" }

abbrev pub heartbeat_request : Bool → Option Heartbeat → Option Heartbeat
heartbeat_request no_content (some h) = some h
heartbeat_request no_content none = if no_content then some no_report else none

abbrev pub report_status : Error → ℕ
report_status invalid_last_ip = 400
report_status _ = 500

abbrev pub after_report :
    ℕ → List Device → Result (List Device × Option Device) → List Device × Answer Device
after_report missing ds (err e) = (ds, refused (report_status e))
after_report missing ds (ok (ds', none)) = (ds', refused missing)
after_report missing ds (ok (ds', some d)) = (ds', done d)

abbrev pub bearer_part : (String → String) → Option (String × String) → Option String
bearer_part fold none = none
bearer_part fold (some (scheme, rest)) =
    if str_eq (fold scheme) (fold "Bearer") then some (trim_space rest) else none

unfoldable pub bearer_token : (String → String) → String → Option String
unfolding split_space
bearer_token fold header = bearer_part fold (split_space (trim_space header))

module _ (upper hash : String → String) (parse_ip : String → Bool)
    (decode_object : String → Option String) where
  unfoldable pub after_bind :
      Moment → String → List Device → ℕ → String → Result Bound → List Device × Answer Granted
  unfolding with_tokens issue_tokens
  after_bind m base_url ds user uid (err e) = (ds, refused (bind_status e))
  after_bind m base_url ds user uid (ok conflict) = (ds, refused 409)
  after_bind m base_url ds user uid (ok (bound ds' d)) =
      with_tokens m base_url d
        (issue_tokens upper hash m.now m.clock ds' user uid m.refresh m.access)

  unfoldable pub bind_device_handler :
      Moment → String → List Device → ℕ → Option DeviceInput → List Device × Answer Granted
  unfolding after_bind bind_device
  bind_device_handler m base_url ds user none = (ds, refused 400)
  bind_device_handler m base_url ds user (some input) =
      if is_empty input.device_uid
      then (ds, refused 400)
      else after_bind m base_url ds user input.device_uid
          (bind_device upper hash parse_ip decode_object m.now m.next_id ds user input)

  unfoldable pub device_token :
      Moment → List Device → Option (String × String) → List Device × Answer Tokens
  unfolding after_exchange exchange_refresh
  device_token m ds none = (ds, refused 400)
  device_token m ds (some (uid, refresh)) =
      if is_empty uid || is_empty refresh
      then (ds, refused 400)
      else after_exchange m ds (find (has_uid (normalize_uid upper uid)) ds)
          (exchange_refresh upper hash m.now m.clock ds uid refresh m.access)

  unfoldable pub report_presence :
      ℕ → List Device → String → Option Heartbeat → List Device × Answer Device
  unfolding presence
  report_presence now ds access none = (ds, refused 400)
  report_presence now ds access (some h) =
      after_report 401 ds (presence upper hash parse_ip now ds access h)

  unfoldable pub with_bearer :
      ℕ → List Device → Option Heartbeat → Option String → List Device × Answer Device
  unfolding report_presence
  with_bearer now ds body none = (ds, refused 401)
  with_bearer now ds body (some access) = report_presence now ds access body

  -- The answer names the device's uid only.
  unfoldable pub device_presence :
      (String → String) → ℕ → List Device → String → Option Heartbeat → List Device × Answer Device
  unfolding bearer_token with_bearer
  device_presence fold now ds header body = with_bearer now ds body (bearer_token fold header)

  unfoldable pub heartbeat_device_handler :
      ℕ → List Device → ℕ → String → Option Heartbeat → List Device × Answer Device
  unfolding heartbeat_device
  heartbeat_device_handler now ds user uid none = (ds, refused 400)
  heartbeat_device_handler now ds user uid (some h) =
      after_report 404 ds (heartbeat_device upper parse_ip now ds user uid h)

  unfoldable pub get_device : List Device → ℕ → String → Answer Device
  unfolding device_for_user
  get_device ds user uid = (or_missing (ds, device_for_user upper ds user uid)).1

  unfoldable pub patch_device_handler :
      ℕ → List Device → ℕ → String → Option DevicePatch → List Device × Answer Device
  unfolding patch_device
  patch_device_handler now ds user uid none = (ds, refused 400)
  patch_device_handler now ds user uid (some patch) =
      or_missing (patch_device decode_object upper now ds user uid patch)

abbrev pub or_true : Option Bool → Bool
or_true none = true
or_true (some b) = b

module _ (upper : String → String) (set_pending : Bool → String → String) where
  -- `pending` is absent where the body is no JSON.
  unfoldable pub revoke_device_handler :
      ℕ → List Device → ℕ → String → Option Bool → List Device × Answer Device
  unfolding revoke_device
  revoke_device_handler now ds user uid pending =
      or_missing (revoke_device upper set_pending now ds user uid (or_true pending))

  unfoldable pub ack_pending_reset_handler :
      ℕ → List Device → ℕ → String → List Device × Answer Device
  unfolding ack_pending_reset
  ack_pending_reset_handler now ds user uid =
      or_missing (ack_pending_reset upper set_pending now ds user uid)

unfoldable pub list_devices_handler :
    (String → String) → List Device → ℕ → String → String → List Device
unfolding list_devices truthy
list_devices_handler lower ds user bind_state include_revoked =
    list_devices ds user bind_state (truthy lower include_revoked)

-- The preferred device is `null` where there is none.
unfoldable pub active_devices : List Device → List Agent → ℕ → String → Option String × List Device
unfolding list_devices preferred_device_uid
active_devices ds agents user agent_id =
    let preferred = preferred_device_uid agents user agent_id in
    (if is_empty preferred then none else some preferred, list_devices ds user "active" false)

unfoldable pub pending_reset : (String → Bool) → List Device → ℕ → List Device
unfolding list_pending_reset
pending_reset pending ds user = list_pending_reset pending ds user
