-- ===== src/Database/Devices/Reads.antt =====
-- internal/database/repository.go: `ListDevices`, `DeviceForUser`, `PatchDevice` and `ListPendingReset`.
-- `pending` reads `pending_factory_reset` of a hint, as the database does.
use echoear_cloud.Base.{
  ℕ, String, len, Bool, true, ◌≡◌, ◌↔◌, Option, none, some, List, ◌&&◌, ◌||◌, not, if◌then◌else◌,
  ◌==◌, find, select, In, str_eq, trim_space, is_empty, newest_by, newest_by-In, newest_by-IsNewest,
  IsNewest, select-In,
}
use echoear_cloud.Database.Rows.{json_or_empty}
use echoear_cloud.Database.Devices.{Device, is_revoked, normalize_uid, owned, update_returning}

pub record DevicePatch : Type 0 where
  pub display_name : Option String
  pub hostname : Option String
  pub fw_version : Option String
  pub capabilities : String
  pub lan_hint : String

-- The `WHERE` of `ListDevices`.
abbrev pub is_listed : ℕ → String → Bool → Device → Bool
is_listed user bind_state include_revoked d =
    d.user_id == user
    && (if is_empty (trim_space bind_state)
        then include_revoked || not (is_revoked d)
        else str_eq d.bind_state (trim_space bind_state))

abbrev pub device_updated : Device → ℕ
device_updated d = d.updated_at

unfoldable pub list_devices : List Device → ℕ → String → Bool → List Device
unfolding newest_by
list_devices ds user bind_state include_revoked =
    newest_by device_updated (select (is_listed user bind_state include_revoked) ds)

unfoldable pub list_pending_reset : (String → Bool) → List Device → ℕ → List Device
unfolding newest_by
list_pending_reset pending ds user =
    newest_by device_updated (select (λ d. d.user_id == user && pending d.lan_hint) ds)

unfoldable pub device_for_user : (String → String) → List Device → ℕ → String → Option Device
device_for_user upper ds user uid = find (owned user (normalize_uid upper uid)) ds

abbrev pub patched : Option String → String → String
patched none old = old
patched (some text) old = trim_space text

module _ (decode_object : String → Option String) where
  abbrev pub patched_object : String → String → String
  patched_object raw old = if len raw == 0 then old else json_or_empty decode_object raw

  unfoldable pub patch_device :
      (String → String) → ℕ → List Device → ℕ → String → DevicePatch → List Device × Option Device
  unfolding update_returning
  patch_device upper now ds user uid patch =
      update_returning (owned user (normalize_uid upper uid))
        (λ d. record d {
          display_name = patched patch.display_name d.display_name;
          hostname = patched patch.hostname d.hostname;
          fw_version = patched patch.fw_version d.fw_version;
          capabilities = patched_object patch.capabilities d.capabilities;
          lan_hint = patched_object patch.lan_hint d.lan_hint;
          updated_at = now;
        })
        ds

-- A user is shown exactly the own devices that are in the asked state, or, if none is asked for, those that
-- are not revoked or all of them, the last changed first.
pub list_devices-In :
    (ds : List Device) (user : ℕ) (bind_state : String) (include_revoked : Bool) (d : Device)
    → (In d (list_devices ds user bind_state include_revoked)
        ↔ (In d ds × (is_listed user bind_state include_revoked d ≡ true)))
      × IsNewest device_updated (list_devices ds user bind_state include_revoked)
unfolding list_devices
list_devices-In ds user bind_state include_revoked d =
    let rows = select (is_listed user bind_state include_revoked) ds in
    let (down, up) = newest_by-In device_updated d rows in
    let (f, g) = select-In (is_listed user bind_state include_revoked) d ds in
    ((λ i. f (down i), λ h. up (g h)), newest_by-IsNewest device_updated rows)
