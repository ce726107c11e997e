-- ===== src/Database/Devices/Writes.antt =====
-- The row of a device after each write of internal/database/repository.go.
use echoear_cloud.Base.{ℕ, String, Bool, true, false, ◌≡◌, refl, some, List, find, find-In}
use echoear_cloud.Database.Devices.{
  Device, has_uid, is_active, is_revoked, normalize_uid, owned, update_returning,
}
use echoear_cloud.Database.Devices.Credentials.{
  set_tokens, issue_tokens, set_access, write_access, set_revoked, revoke_device,
}
use echoear_cloud.Database.Devices.Found.{KeepsUid, find-update_hit}

module _ (upper hash : String → String) (set_pending : Bool → String → String) where
  pub revoked_row :
      (now : ℕ) (ds : List Device) (user : ℕ) (uid : String) (pending : Bool) (d : Device)
      → find (has_uid (normalize_uid upper uid)) ds ≡ some d
      → owned user (normalize_uid upper uid) d ≡ true
      → is_revoked d ≡ false
      → find
          (has_uid (normalize_uid upper uid))
          (revoke_device upper set_pending now ds user uid pending).0
        ≡ some (set_revoked upper set_pending now pending d)
  unfolding revoke_device update_returning set_revoked
  revoked_row now ds user uid pending d found own live =
      find-update_hit (normalize_uid upper uid) _ (set_revoked upper set_pending now pending) ds d
        keeps found (rw (own, live) refl)
    where
      keeps : KeepsUid (set_revoked upper set_pending now pending)
      keeps x = refl

  pub issued_row :
      (now clock : ℕ) (ds : List Device) (user : ℕ) (uid refresh access : String) (d : Device)
      → find (has_uid (normalize_uid upper uid)) ds ≡ some d
      → owned user (normalize_uid upper uid) d ≡ true
      → is_active d ≡ true
      → find
          (has_uid (normalize_uid upper uid))
          (issue_tokens upper hash now clock ds user uid refresh access).0
        ≡ some (set_tokens now clock (hash refresh) (hash access) d)
  unfolding issue_tokens update_returning set_tokens
  issued_row now clock ds user uid refresh access d found own live =
      find-update_hit (normalize_uid upper uid) _
        (set_tokens now clock (hash refresh) (hash access)) ds d (λ x. refl) found
        (rw (own, live) refl)

  pub written_row :
      (now clock : ℕ) (ds : List Device) (uid access : String) (d : Device)
      → find (has_uid (normalize_uid upper uid)) ds ≡ some d
      → find (has_uid (normalize_uid upper uid)) (write_access upper hash now clock ds uid access)
        ≡ some (set_access upper hash now clock access d)
  unfolding write_access set_access
  written_row now clock ds uid access d found =
      find-update_hit (normalize_uid upper uid) (has_uid (normalize_uid upper uid))
        (set_access upper hash now clock access) ds d (λ x. refl) found (find-In _ ds found).1
