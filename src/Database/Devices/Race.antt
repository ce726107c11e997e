-- ===== src/Database/Devices/Race.antt =====
-- `ExchangeRefresh` of internal/database/repository.go reads the device and writes its access token
-- in two statements outside any transaction, and the write asks for the uid alone.
use echoear_cloud.Base.{
  ℕ, String, Bool, true, false, ◌≡◌, ◌≢◌, ◌<◌, ◌+◌, refl, some, List, arith, find, eq_iff,
  trim_space, find-In,
}
use text.Mathlib.TextPositions.{eq_refl}
use echoear_cloud.Database.Rows.{ok}
use echoear_cloud.Database.Devices.{Device, has_uid, normalize_uid, bound, bind_row, owned}
use echoear_cloud.Database.Devices.Credentials.{
  device_access_ttl, set_tokens, issue_tokens, check_refresh, set_access, write_access, admits,
  revoke_device,
}
use echoear_cloud.Database.Devices.Writes.{issued_row, written_row}
use echoear_cloud.Database.Devices.Owner.{bind_row-IsBound}

-- A refresh that overlaps with a change of owner. The device's user passes the check of a refresh, then
-- revokes the device; another user binds it and is issued tokens; then the refresh writes. The
-- former user's new access token is let in as the new user's device until it expires, and the token
-- that was issued to the new user is not. That the two access tokens have different hashes is a condition.
pub exchange_refresh_race :
    (upper hash : String → String) (set_pending : Bool → String → String) (now clock later a b : ℕ)
    (ds ds' : List Device) (uid refresh access refresh' access' : String) (pending : Bool)
    (d new d' : Device)
    → find (has_uid (normalize_uid upper uid)) ds ≡ some d
    → check_refresh upper hash clock ds uid refresh ≡ ok d
    → d.user_id ≡ a
    → a ≢ b
    → (new.device_uid ≡ normalize_uid upper uid) × (new.user_id ≡ b) × (new.bind_state ≡ "active")
    → bind_row now (revoke_device upper set_pending now ds a uid pending).0 b new ≡ bound ds' d'
    → trim_space access ≡ access
    → later < clock + device_access_ttl
    → hash access ≢ hash (trim_space access')
    → let issued = (issue_tokens upper hash now clock ds' b uid refresh' access').0 in
      let last = write_access upper hash now clock issued uid access in
      (e : Device) × (find (has_uid (normalize_uid upper uid)) last ≡ some e)
      × (e.user_id ≡ b)
      × (admits upper hash later access e ≡ true)
      × (admits upper hash later access' e ≡ false)
unfolding set_access set_tokens
exchange_refresh_race upper hash set_pending now clock later a b ds ds' uid refresh access refresh'
      access' pending d new d' found checked own other (same_uid, of_b, live) binds plain soon ne =
    let bound' =
      bind_row-IsBound now (revoke_device upper set_pending now ds a uid pending).0 ds' b new d'
        of_b live binds in
    let at_uid : find (has_uid (normalize_uid upper uid)) ds' ≡ some d' =
      rw same_uid at bound'.found in
    let held : owned b (normalize_uid upper uid) d' ≡ true =
      rw (bound'.of_user, (find-In (has_uid (normalize_uid upper uid)) ds' at_uid).1)
        (ground arith) in
    let issued =
      issued_row upper hash set_pending now clock ds' b uid refresh' access' d' at_uid held
        (rw bound'.active refl) in
    (
      set_access upper hash now clock access
          (set_tokens now clock (hash refresh') (hash access') d'),
      written_row upper hash set_pending now clock
          (issue_tokens upper hash now clock ds' b uid refresh' access').0 uid access _ issued,
      bound'.of_user,
      rw (plain, bound'.active) (ground (arith, eq_refl (hash access))),
      ground (arith, ne, eq_iff (hash access) (hash (trim_space access'))),
    )
