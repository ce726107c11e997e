-- ===== src/Database/Devices/Tokens.antt =====
-- The life of a device's tokens: `IssueDeviceTokens`, `ExchangeRefresh` and `PresenceByAccess` of
-- internal/database/repository.go.
use echoear_cloud.Base.{
  ℕ, String, Bool, true, false, ◌≡◌, ◌≢◌, ◌<◌, ◌≤◌, ◌+◌, refl, some, List, arith, find, eq_iff,
  trim_space, is_empty, ltb,
}
use text.Mathlib.TextPositions.{eq_refl}
use echoear_cloud.Database.Rows.{ok}
use echoear_cloud.Database.Devices.{Device, has_uid, is_active, normalize_uid, owned}
use echoear_cloud.Database.Devices.Credentials.{
  device_access_ttl, device_refresh_ttl, set_tokens, issue_tokens, refreshable, check_refresh,
  set_access, write_access, exchange_refresh, admits,
}
use echoear_cloud.Database.Devices.Found.{find-narrow}
use echoear_cloud.Database.Devices.Writes.{issued_row, written_row}

module _ (upper hash : String → String) where
  tokens-refreshable :
      (now clock : ℕ) (uid refresh access : String) (d : Device)
      → has_uid uid d ≡ true
      → is_active d ≡ true
      → refreshable upper hash uid refresh (set_tokens now clock (hash refresh) (hash access) d)
        ≡ true
  unfolding set_tokens
  tokens-refreshable now clock uid refresh access d named live =
      ground (arith, eq_refl (hash refresh))

  refreshable-has_uid :
      (uid refresh : String) (x : Device)
      → refreshable upper hash uid refresh x ≡ true
      → has_uid uid x ≡ true
  refreshable-has_uid uid refresh x h = ground arith

  check_issued :
      (now clock later : ℕ) (ds : List Device) (uid refresh access : String) (d : Device)
      → find (has_uid (normalize_uid upper uid)) ds
        ≡ some (set_tokens now clock (hash refresh) (hash access) d)
      → has_uid (normalize_uid upper uid) d ≡ true
      → is_active d ≡ true
      → is_empty (normalize_uid upper uid) ≡ false
      → is_empty refresh ≡ false
      → trim_space refresh ≡ refresh
      → later ≤ clock + device_refresh_ttl
      → check_refresh upper hash later ds uid refresh
        ≡ ok (set_tokens now clock (hash refresh) (hash access) d)
  unfolding check_refresh set_tokens
  check_issued now clock later ds uid refresh access d found named live uid_given given plain soon =
      let d' = set_tokens now clock (hash refresh) (hash access) d in
      let hit : find (refreshable upper hash (normalize_uid upper uid) refresh) ds ≡ some d' =
        find-narrow (normalize_uid upper uid)
          (refreshable upper hash (normalize_uid upper uid) refresh) ds d'
          (refreshable-has_uid (normalize_uid upper uid) refresh) found
          (tokens-refreshable now clock (normalize_uid upper uid) refresh access d named live) in
      rw (plain, uid_given, given, hit) (rw (in_time now clock later refresh access d soon) refl)
    where
      in_time :
          (now clock later : ℕ) (refresh access : String) (d : Device)
          → later ≤ clock + device_refresh_ttl
          → ltb (clock + device_refresh_ttl) later ≡ false
      in_time now clock later refresh access d soon = ground arith

-- The tokens that are issued for a user's active device: until the refresh token expires, it is
-- exchanged for a new access token; the new access token is then let in as that device, with the owner
-- that it had, until it expires, and the access token before it is not. That the two access tokens have
-- different hashes is a condition.
pub exchange_refresh-issue_tokens :
    (upper hash : String → String) (set_pending : Bool → String → String)
    (now clock now' clock' later user : ℕ) (ds : List Device) (uid refresh access access' : String)
    (d : Device)
    → find (has_uid (normalize_uid upper uid)) ds ≡ some d
    → owned user (normalize_uid upper uid) d ≡ true
    → is_active d ≡ true
    → (is_empty (normalize_uid upper uid) ≡ false) × (is_empty refresh ≡ false)
    → (trim_space refresh ≡ refresh) × (trim_space access' ≡ access')
    → clock' ≤ clock + device_refresh_ttl
    → later < clock' + device_access_ttl
    → hash access' ≢ hash (trim_space access)
    → let issued = (issue_tokens upper hash now clock ds user uid refresh access).0 in
      (last : List Device) × (e : Device) × (exchange_refresh upper hash now' clock' issued uid
          refresh access'
        ≡ ok last)
      × (find (has_uid (normalize_uid upper uid)) last ≡ some e)
      × (e.user_id ≡ user)
      × (admits upper hash later access' e ≡ true)
      × (admits upper hash later access e ≡ false)
unfolding exchange_refresh set_access set_tokens
exchange_refresh-issue_tokens upper hash set_pending now clock now' clock' later user ds uid refresh
      access access' d found own live (uid_given, given) (plain, plain') in_time soon ne =
    let issued =
      issued_row upper hash set_pending now clock ds user uid refresh access d found own live in
    let checked =
      check_issued upper hash now clock clock'
        (issue_tokens upper hash now clock ds user uid refresh access).0 uid refresh access d issued
        (ground arith) live uid_given given plain in_time in
    (
      write_access upper hash now' clock'
          (issue_tokens upper hash now clock ds user uid refresh access).0 uid access',
      set_access upper hash now' clock' access'
          (set_tokens now clock (hash refresh) (hash access) d),
      rw checked refl,
      written_row upper hash set_pending now' clock'
          (issue_tokens upper hash now clock ds user uid refresh access).0 uid access' _ issued,
      ground arith,
      rw plain' (ground (arith, eq_refl (hash access'))),
      ground (arith, ne, eq_iff (hash access') (hash (trim_space access))),
    )
