-- ===== src/Database/Devices.antt =====
-- internal/database/repository.go: the devices and their tokens. The parameters: `upper` is
-- `strings.ToUpper`, `hash` is `HashSecret`, `parse_ip` says whether `net.ParseIP` reads a text,
-- `decode_object` is that of `JSONOrEmpty` and `set_pending` the database's `jsonb_set` of
-- `pending_factory_reset`. `now` is the database's clock and `clock` the service's.
pub mod Credentials
pub mod Reads
pub mod Found
pub mod Writes
pub mod Tokens
pub mod Revoked
pub mod Owner
pub mod Race
mod Tests
use echoear_cloud.Base.{
  ℕ, String, len, Bool, true, false, Option, none, some, List, [], ◌∷◌, ◌++◌, ◌+◌, ◌*◌, ◌&&◌, ◌||◌,
  not, if◌then◌else◌, ◌==◌, leb, ltb, find, select, str_eq, trim_space, is_empty,
}
use echoear_cloud.Database.Rows.{
  device_uid_required, invalid_last_ip, token_fields_required, invalid_refresh, refresh_expired,
  scan_failed, Result, ok, err, ◌>>=◌, ◌>>◌, guard, or_fail, update_where, json_or_empty,
}

pub record Device : Type 0 where
  pub id : ℕ
  pub user_id : ℕ
  pub device_uid : String
  pub display_name : String
  pub hostname : String
  pub fw_version : String
  pub last_ip : Option String
  pub last_seen_at : Option ℕ
  pub bind_state : String
  pub pair_public_id : String
  pub pair_secret_hash : Option String
  pub capabilities : String
  pub lan_hint : String
  pub refresh_token_hash : Option String
  pub refresh_expires_at : Option ℕ
  pub access_token_hash : Option String
  pub access_expires_at : Option ℕ
  pub created_at : ℕ
  pub updated_at : ℕ
  pub revoked_at : Option ℕ

pub record DeviceInput : Type 0 where
  pub device_uid : String
  pub display_name : String
  pub hostname : String
  pub fw_version : String
  pub last_ip : String
  pub pair_public_id : String
  pub pair_secret : String
  pub capabilities : String
  pub lan_hint : String

pub record Heartbeat : Type 0 where
  pub last_ip : String
  pub hostname : String
  pub fw_version : String

abbrev pub has_uid : String → Device → Bool
has_uid uid d = str_eq d.device_uid uid

abbrev pub is_active : Device → Bool
is_active d = str_eq d.bind_state "active"

abbrev pub is_revoked : Device → Bool
is_revoked d = str_eq d.bind_state "revoked"

-- `column = $n` where the column may be NULL.
abbrev pub equals : Option String → String → Bool
equals none s = false
equals (some r) s = str_eq r s

-- `column > NOW()` where the column may be NULL.
abbrev pub is_later : Option ℕ → ℕ → Bool
is_later none t = false
is_later (some u) t = ltb t u

-- `COALESCE($n, column)`, and `CASE WHEN $n <> '' THEN $n ELSE column END`.
abbrev pub coalesce {ℓ} : {A : Type ℓ} → Option A → Option A → Option A
coalesce none old = old
coalesce (some new) old = some new

abbrev pub unless_empty : String → String → String
unless_empty new old = if is_empty new then old else new

abbrev pub unless_braces : String → String → String
unless_braces new old = if str_eq new "{}" then old else new

module _ (parse_ip : String → Bool) where
  unfoldable pub nullable_ip : String → Result (Option String)
  nullable_ip value =
      if is_empty (trim_space value)
      then ok none
      else if parse_ip (trim_space value)
      then ok (some (trim_space value))
      else err invalid_last_ip

abbrev pub normalize_uid : (String → String) → String → String
normalize_uid upper value = upper (trim_space value)

-- The row of the `INSERT`, before its id is drawn.
module _ (hash : String → String) (decode_object : String → Option String) where
  unfoldable pub excluded : ℕ → ℕ → ℕ → String → Option String → DeviceInput → Device
  excluded now id user uid ip input = record {
    id = id;
    user_id = user;
    device_uid = uid;
    display_name = trim_space input.display_name;
    hostname = trim_space input.hostname;
    fw_version = trim_space input.fw_version;
    last_ip = ip;
    last_seen_at = some now;
    bind_state = "active";
    pair_public_id = trim_space input.pair_public_id;
    pair_secret_hash =
        if is_empty (trim_space input.pair_secret)
        then none
        else some (hash (trim_space input.pair_secret));
    capabilities = json_or_empty decode_object input.capabilities;
    lan_hint = json_or_empty decode_object input.lan_hint;
    refresh_token_hash = none;
    refresh_expires_at = none;
    access_token_hash = none;
    access_expires_at = none;
    created_at = now;
    updated_at = now;
    revoked_at = none;
  }

-- `ON CONFLICT (device_uid) DO UPDATE`.
unfoldable pub rebind : ℕ → Device → Device → Device
rebind now new old = record old {
  user_id = new.user_id;
  display_name = unless_empty new.display_name old.display_name;
  hostname = unless_empty new.hostname old.hostname;
  fw_version = unless_empty new.fw_version old.fw_version;
  last_ip = coalesce new.last_ip old.last_ip;
  last_seen_at = some now;
  bind_state = "active";
  revoked_at = none;
  pair_public_id = unless_empty new.pair_public_id old.pair_public_id;
  pair_secret_hash = coalesce new.pair_secret_hash old.pair_secret_hash;
  capabilities = unless_braces new.capabilities old.capabilities;
  lan_hint = unless_braces new.lan_hint old.lan_hint;
  updated_at = now;
}

unfoldable pub upsert : ℕ → Device → List Device → Option Device → List Device × Device
unfolding rebind
upsert now new ds none = (ds ++ new ∷ [], new)
upsert now new ds (some old) =
    (update_where (has_uid new.device_uid) (rebind now new) ds, rebind now new old)

-- What `BindDevice` returns beside an error: the device, or the conflict.
pub data Bound : Type 0 where
  bound : List Device → Device → Bound
  conflict : Bound

abbrev pub is_taken : ℕ → Option Device → Bool
is_taken user none = false
is_taken user (some d) = not (d.user_id == user) && not (is_revoked d)

unfoldable pub bind_row : ℕ → List Device → ℕ → Device → Bound
unfolding upsert
bind_row now ds user new =
    let old : Option Device = find (has_uid new.device_uid) ds in
    let (ds', d) = upsert now new ds old in if is_taken user old then conflict else bound ds' d

module _ (upper hash : String → String) (parse_ip : String → Bool)
    (decode_object : String → Option String) where
  unfoldable pub bind_device : ℕ → ℕ → List Device → ℕ → DeviceInput → Result Bound
  unfolding bind_row excluded nullable_ip
  bind_device now id ds user input = do
    guard (not (is_empty (normalize_uid upper input.device_uid))) device_uid_required
    ip ← nullable_ip parse_ip input.last_ip
    ok (
        bind_row now ds user
          (excluded hash decode_object now id user (normalize_uid upper input.device_uid) ip input))

-- `UPDATE … WHERE … RETURNING …`, of which the callers read the first row.
unfoldable pub update_returning :
    (Device → Bool) → (Device → Device) → List Device → List Device × Option Device
update_returning p f ds =
    (update_where p f ds, elim (find p ds) [ none ↦ none | some d ↦ some (f d) ])

unfoldable pub beat : ℕ → Option String → Heartbeat → Device → Device
beat now ip h d = record d {
  last_ip = coalesce ip d.last_ip;
  hostname = unless_empty (trim_space h.hostname) d.hostname;
  fw_version = unless_empty (trim_space h.fw_version) d.fw_version;
  last_seen_at = some now;
  updated_at = now;
}

abbrev pub owned : ℕ → String → Device → Bool
owned user uid d = d.user_id == user && has_uid uid d

module _ (upper : String → String) (parse_ip : String → Bool) where
  unfoldable pub heartbeat_device :
      ℕ → List Device → ℕ → String → Heartbeat → Result (List Device × Option Device)
  unfolding update_returning beat nullable_ip
  heartbeat_device now ds user uid h = do
    ip ← nullable_ip parse_ip h.last_ip
    ok (
        update_returning (λ d. owned user (normalize_uid upper uid) d && is_active d)
          (beat now ip h) ds)
