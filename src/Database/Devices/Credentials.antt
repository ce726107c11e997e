-- ===== src/Database/Devices/Credentials.antt =====
-- internal/database/repository.go: the tokens of a device, the reports that an access token admits, and
-- the end of a binding.
use echoear_cloud.Base.{
  ℕ, String, Bool, false, Option, none, some, List, ◌+◌, ◌*◌, ◌&&◌, not, ltb, find, trim_space,
  is_empty,
}
use echoear_cloud.Database.Rows.{
  token_fields_required, invalid_refresh, refresh_expired, scan_failed, Result, ok, ◌>>=◌, ◌>>◌,
  guard, or_fail, update_where,
}
use echoear_cloud.Database.Devices.{
  Device, Heartbeat, has_uid, is_active, is_revoked, equals, is_later, nullable_ip, normalize_uid,
  update_returning, beat, owned,
}

abbrev pub device_access_ttl : ℕ
device_access_ttl = 5 * 60 * 60 * 1000000

abbrev pub device_refresh_ttl : ℕ
device_refresh_ttl = 100 * 365 * 24 * 60 * 60 * 1000000

unfoldable pub set_tokens : ℕ → ℕ → String → String → Device → Device
set_tokens now clock refresh access d = record d {
  refresh_token_hash = some refresh;
  refresh_expires_at = some (clock + device_refresh_ttl);
  access_token_hash = some access;
  access_expires_at = some (clock + device_access_ttl);
  updated_at = now;
}

-- `refresh` and `access` are the two tokens that `RandomToken` draws.
module _ (upper hash : String → String) where
  unfoldable pub issue_tokens :
      ℕ → ℕ → List Device → ℕ → String → String → String → List Device × Option Device
  unfolding update_returning set_tokens
  issue_tokens now clock ds user uid refresh access =
      update_returning (λ d. owned user (normalize_uid upper uid) d && is_active d)
        (set_tokens now clock (hash refresh) (hash access)) ds

  abbrev pub refreshable : String → String → Device → Bool
  refreshable uid refresh d =
      has_uid uid d && is_active d && equals d.refresh_token_hash (hash refresh)

  -- `ExchangeRefresh` up to its write, and the write, which is a statement of its own.
  unfoldable pub check_refresh : ℕ → List Device → String → String → Result Device
  check_refresh clock ds uid refresh = do
    guard (not (is_empty (normalize_uid upper uid)) && not (is_empty (trim_space refresh)))
        token_fields_required
    d ←
        or_fail (find (refreshable (normalize_uid upper uid) (trim_space refresh)) ds)
          invalid_refresh
    expires ← or_fail d.refresh_expires_at scan_failed
    guard (not (ltb expires clock)) refresh_expired
    ok d

  unfoldable pub set_access : ℕ → ℕ → String → Device → Device
  set_access now clock access d = record d {
    access_token_hash = some (hash access);
    access_expires_at = some (clock + device_access_ttl);
    updated_at = now;
  }

  unfoldable pub write_access : ℕ → ℕ → List Device → String → String → List Device
  unfolding set_access
  write_access now clock ds uid access =
      update_where (has_uid (normalize_uid upper uid)) (set_access now clock access) ds

  unfoldable pub exchange_refresh :
      ℕ → ℕ → List Device → String → String → String → Result (List Device)
  unfolding check_refresh write_access
  exchange_refresh now clock ds uid refresh access = do
    d ← check_refresh clock ds uid refresh
    ok (write_access now clock ds uid access)

  abbrev pub admits : ℕ → String → Device → Bool
  admits now access d =
      equals d.access_token_hash (hash (trim_space access))
      && is_later d.access_expires_at now
      && is_active d

  unfoldable pub presence :
      (String → Bool) → ℕ → List Device → String → Heartbeat → Result (List Device × Option Device)
  unfolding update_returning beat nullable_ip
  presence parse_ip now ds access h = do
    ip ← nullable_ip parse_ip h.last_ip
    ok (update_returning (admits now access) (beat now ip h) ds)

module _ (upper : String → String) (set_pending : Bool → String → String) where
  unfoldable pub set_revoked : ℕ → Bool → Device → Device
  set_revoked now pending d = record d {
    bind_state = "revoked";
    revoked_at = some now;
    updated_at = now;
    lan_hint = set_pending pending d.lan_hint;
    refresh_token_hash = none;
    refresh_expires_at = none;
    access_token_hash = none;
    access_expires_at = none;
  }

  unfoldable pub revoke_device : ℕ → List Device → ℕ → String → Bool → List Device × Option Device
  unfolding update_returning set_revoked
  revoke_device now ds user uid pending =
      update_returning (λ d. owned user (normalize_uid upper uid) d && not (is_revoked d))
        (set_revoked now pending) ds

  unfoldable pub ack_pending_reset : ℕ → List Device → ℕ → String → List Device × Option Device
  unfolding update_returning
  ack_pending_reset now ds user uid =
      update_returning (owned user (normalize_uid upper uid))
        (λ d. record d { lan_hint = set_pending false d.lan_hint; updated_at = now }) ds
