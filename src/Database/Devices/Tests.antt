-- ===== src/Database/Devices/Tests.antt =====
-- The theorems on devices at a small table.
use echoear_cloud.Base.{
  String, Bool, true, false, ◌≡◌, ◌≢◌, refl, Option, none, some, List, [], ◌∷◌, arith, find, eq_iff,
  trim_space, is_empty, All, newest_by,
}
use Prim.Native.String
use echoear_cloud.Database.Rows.{ok}
use echoear_cloud.Database.Devices.{Device, has_uid, normalize_uid, owned, bound, bind_row, rebind}
use echoear_cloud.Database.Devices.Credentials.{
  issue_tokens, check_refresh, exchange_refresh, write_access, admits, set_revoked, revoke_device,
}
use echoear_cloud.Database.Devices.Tokens.{exchange_refresh-issue_tokens}
use echoear_cloud.Database.Devices.Revoked.{IsCutOff, revoke_device-IsCutOff}
use echoear_cloud.Database.Devices.Reads.{list_devices}
use echoear_cloud.Database.Devices.Race.{exchange_refresh_race}

abbrev same : String → String
same s = s

abbrev hashed : String → String
hashed s = String.◌++◌ "#" s

abbrev keep_hint : Bool → String → String
keep_hint pending hint = hint

abbrev every_ip : String → Bool
every_ip s = true

abbrev no_objects : String → Option String
no_objects s = none

abbrev ear : Device
ear = record {
  id = 1;
  user_id = 1;
  device_uid = "EAR";
  display_name = "";
  hostname = "";
  fw_version = "";
  last_ip = none;
  last_seen_at = none;
  bind_state = "active";
  pair_public_id = "";
  pair_secret_hash = none;
  capabilities = "{}";
  lan_hint = "{}";
  refresh_token_hash = some "#refresh";
  refresh_expires_at = some 900;
  access_token_hash = none;
  access_expires_at = none;
  created_at = 0;
  updated_at = 0;
  revoked_at = none;
}

abbrev other_ear : Device
other_ear = record ear { id = 2; user_id = 2; refresh_token_hash = none; refresh_expires_at = none }

abbrev table : List Device
table = ear ∷ []

ear-owned : owned 1 (normalize_uid same "EAR") ear ≡ true
unfolding trim_space
ear-owned = refl

ear-found : find (has_uid (normalize_uid same "EAR")) table ≡ some ear
unfolding trim_space
ear-found = refl

ear-named : (is_empty (normalize_uid same "EAR") ≡ false) × (is_empty "refresh" ≡ false)
unfolding trim_space
ear-named = (refl, refl)

ear-plain : (trim_space "refresh" ≡ "refresh") × (trim_space "second" ≡ "second")
unfolding trim_space
ear-plain = (refl, refl)

first-other : hashed "second" ≢ hashed (trim_space "first")
unfolding trim_space
first-other = ground (arith, eq_iff "#second" "#first")

new-other : hashed "second" ≢ hashed (trim_space "new")
unfolding trim_space
new-other = ground (arith, eq_iff "#second" "#new")

exchange_refresh-issue_tokens_example :
    let issued = (issue_tokens same hashed 50 50 table 1 "EAR" "refresh" "first").0 in
    (last : List Device) × (e : Device) × (exchange_refresh same hashed 60 60 issued "EAR" "refresh"
        "second"
      ≡ ok last)
    × (find (has_uid (normalize_uid same "EAR")) last ≡ some e)
    × (e.user_id ≡ 1)
    × (admits same hashed 70 "second" e ≡ true)
    × (admits same hashed 70 "first" e ≡ false)
exchange_refresh-issue_tokens_example =
    exchange_refresh-issue_tokens same hashed keep_hint 50 50 60 60 70 1 table "EAR" "refresh"
      "first" "second" ear ear-found ear-owned refl ear-named ear-plain (omega arith) (omega arith)
      first-other

revoke_device-IsCutOff_example :
    All
      (λ d.
        owned 1 (normalize_uid same "EAR") d ≡ true
        → IsCutOff same hashed (normalize_uid same "EAR") d)
      (revoke_device same keep_hint 50 table 1 "EAR" true).0
revoke_device-IsCutOff_example = revoke_device-IsCutOff same hashed keep_hint 50 table 1 "EAR" true

ear-checked : check_refresh same hashed 60 table "EAR" "refresh" ≡ ok ear
unfolding check_refresh trim_space
ear-checked = refl

rebound : Device
unfolding rebind set_revoked
rebound = rebind 60 other_ear (set_revoked same keep_hint 60 true ear)

other_ear-named :
    (other_ear.device_uid ≡ normalize_uid same "EAR")
    × (other_ear.user_id ≡ 2)
    × (other_ear.bind_state ≡ "active")
unfolding trim_space
other_ear-named = (refl, refl, refl)

rebinds :
    bind_row 60 (revoke_device same keep_hint 60 table 1 "EAR" true).0 2 other_ear
    ≡ bound (rebound ∷ []) rebound
unfolding bind_row revoke_device rebound trim_space
rebinds = refl

exchange_refresh_race_example :
    let issued = (issue_tokens same hashed 60 60 (rebound ∷ []) 2 "EAR" "new-refresh" "new").0 in
    let last = write_access same hashed 60 60 issued "EAR" "second" in
    (e : Device) × (find (has_uid (normalize_uid same "EAR")) last ≡ some e)
    × (e.user_id ≡ 2)
    × (admits same hashed 70 "second" e ≡ true)
    × (admits same hashed 70 "new" e ≡ false)
exchange_refresh_race_example =
    exchange_refresh_race same hashed keep_hint 60 60 70 1 2 table (rebound ∷ []) "EAR" "refresh"
      "second" "new-refresh" "new" true ear other_ear rebound ear-found ear-checked refl
      (omega arith) other_ear-named rebinds ear-plain.1 (omega arith) new-other

-- Both are asked for, and the later change is first.
listed_in_order :
    list_devices (ear ∷ record ear { id = 3; device_uid = "EYE"; updated_at = 9 } ∷ []) 1 "" false
    ≡ record ear { id = 3; device_uid = "EYE"; updated_at = 9 } ∷ ear ∷ []
unfolding list_devices trim_space newest_by
listed_in_order = refl
