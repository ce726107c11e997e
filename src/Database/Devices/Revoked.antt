-- ===== src/Database/Devices/Revoked.antt =====
-- `RevokeDevice` of internal/database/repository.go and the tokens of the device.
use echoear_cloud.Base.{
  ℕ, String, Bool, true, false, ◌≡◌, ◌⊎◌, inl, inr, List, [], ◌∷◌, ◌&&◌, not, if◌then◌else◌, arith,
  eq_iff, All, Bool-cases,
}
use echoear_cloud.Database.Devices.{
  Device, is_active, is_revoked, normalize_uid, owned, update_returning,
}
use echoear_cloud.Database.Devices.Credentials.{refreshable, admits, set_revoked, revoke_device}

module _ (upper hash : String → String) where
  -- No token, of either kind, is let in as the device, at any time.
  abbrev pub IsCutOff : String → Device → Type 0
  IsCutOff uid d =
      ((later : ℕ) (access : String) → admits upper hash later access d ≡ false)
      × ((refresh : String) → refreshable upper hash uid refresh d ≡ false)

  inactive-IsCutOff : (uid : String) (d : Device) → is_active d ≡ false → IsCutOff uid d
  inactive-IsCutOff uid d off =
      (λ later access. ground (arith, off), λ refresh. ground (arith, off))

  revoked-inactive : (d : Device) → is_revoked d ≡ true → is_active d ≡ false
  revoked-inactive d h = ground (
    arith,
    eq_iff d.bind_state "active",
    eq_iff d.bind_state "revoked",
    eq_iff "revoked" "active",
  )

  -- After a user revokes a device, no refresh token and no access token is let in as a device of that
  -- user under that uid, at any time, as long as nothing else is written.
  pub revoke_device-IsCutOff :
      (set_pending : Bool → String → String) (now : ℕ) (ds : List Device) (user : ℕ) (uid : String)
      (pending : Bool)
      → All
          (λ d.
            owned user (normalize_uid upper uid) d ≡ true → IsCutOff (normalize_uid upper uid) d)
          (revoke_device upper set_pending now ds user uid pending).0
  unfolding revoke_device update_returning set_revoked
  revoke_device-IsCutOff set_pending now [] user uid pending = tt
  revoke_device-IsCutOff set_pending now (d ∷ ds) user uid pending = (
    λ own. inactive-IsCutOff (normalize_uid upper uid) row (off own),
    revoke_device-IsCutOff set_pending now ds user uid pending,
  )
    where
      key : String
      key = normalize_uid upper uid

      row : Device
      row =
          if owned user key d && not (is_revoked d)
          then set_revoked upper set_pending now pending d
          else d

      off : owned user key row ≡ true → is_active row ≡ false
      off own = go (Bool-cases (owned user key d)) (Bool-cases (is_revoked d))
        where
          go :
              (owned user key d ≡ true) ⊎ (owned user key d ≡ false)
              → (is_revoked d ≡ true) ⊎ (is_revoked d ≡ false)
              → is_active row ≡ false
          go (inr stranger) r = cc (rw (stranger, if◌then◌else◌) at own, stranger)
          go (inl mine) (inl already) = rw (mine, already) (revoked-inactive d already)
          go (inl mine) (inr live) = rw (mine, live) (ground (arith, eq_iff "revoked" "active"))
