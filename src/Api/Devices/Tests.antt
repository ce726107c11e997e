-- ===== src/Api/Devices/Tests.antt =====
-- The theorem on a device's first report at an empty table.
use echoear_cloud.Base.{
  String, Bool, true, ◌≡◌, refl, Option, none, some, List, [], ◌∷◌, arith, trim_space,
}
use echoear_cloud.Database.Rows.{ok, json_or_empty}
use echoear_cloud.Database.Devices.{
  Device, DeviceInput, excluded, nullable_ip, normalize_uid, bind_device,
}
use echoear_cloud.Database.Devices.Credentials.{set_tokens, issue_tokens}
use echoear_cloud.Api.Http.{done, split_space}
use echoear_cloud.Api.Devices.{
  Moment, Granted, new_tokens, with_tokens, no_report, bearer_token, bind_device_handler,
  device_presence,
}
use echoear_cloud.Api.Devices.Presence.{device_presence-bind_device_handler}

abbrev same : String → String
same s = s

abbrev every_ip : String → Bool
every_ip s = true

abbrev no_objects : String → Option String
no_objects s = none

abbrev moment : Moment
moment = record { now = 50; clock = 50; next_id = 4; refresh = "ref"; access = "acc" }

abbrev input : DeviceInput
input = record {
  device_uid = " EAR ";
  display_name = "Desk";
  hostname = "";
  fw_version = "";
  last_ip = "";
  pair_public_id = "";
  pair_secret = "";
  capabilities = "";
  lan_hint = "";
}

ear : Device
unfolding excluded
ear = excluded same no_objects 50 4 1 "EAR" none input

granted : Granted
granted = record {
  device = ear;
  tokens = new_tokens moment;
  cloud_base_url = "https://ear.example";
}

abbrev issued : List Device
issued = set_tokens 50 50 "ref" "acc" ear ∷ []

binds :
    bind_device_handler same same every_ip no_objects moment "https://ear.example" [] 1 (some input)
    ≡ (issued, done granted)
unfolding bind_device_handler bind_device issue_tokens set_tokens with_tokens granted ear trim_space
    json_or_empty
binds = refl

plain : trim_space "acc" ≡ "acc"
unfolding trim_space
plain = refl

shown : bearer_token same "Bearer acc" ≡ some granted.tokens.access_token
unfolding bearer_token split_space trim_space granted
shown = refl

address : nullable_ip every_ip no_report.last_ip ≡ ok none
unfolding nullable_ip trim_space
address = refl

device_presence-bind_device_handler_example :
    (ds2 : List Device) × (d : Device) × (device_presence same same every_ip no_objects same 60
        issued "Bearer acc"
        (some no_report)
      ≡ (ds2, done d))
    × (d.device_uid ≡ normalize_uid same input.device_uid)
    × (d.user_id ≡ 1)
    × (d.last_seen_at ≡ some 60)
device_presence-bind_device_handler_example =
    device_presence-bind_device_handler same same every_ip no_objects same moment
      "https://ear.example" [] issued 1 input granted 60 "Bearer acc" no_report none binds tt plain
      shown (omega arith) address
