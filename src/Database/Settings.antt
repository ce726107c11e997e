-- ===== src/Database/Settings.antt =====
-- `GetSettings`, `PutSettings` and `scanSettings` of internal/database/agent_repository.go. The defaults are
-- those of `user_settings` in migrations/001_schema.sql; `decode_object` is that of `JSONOrEmpty`.
pub mod Kept
use echoear_cloud.Base.{
  ℕ, String, len, Bool, true, Option, none, some, List, [], ◌∷◌, ◌++◌, if◌then◌else◌, ◌==◌, any,
  find, trim_space,
}
use echoear_cloud.Database.Rows.{
  check_violation, no_rows, Result, ok, ◌>>=◌, ◌>>◌, guard, or_fail, User, update_where,
  json_or_empty,
}
use echoear_cloud.Database.Users.{has_id}

pub record Settings : Type 0 where
  pub user_id : ℕ
  pub notify_enabled : Bool
  pub locale : String
  pub stt_preference : String
  pub extra_json : String
  pub created_at : ℕ
  pub updated_at : ℕ

pub record SettingsInput : Type 0 where
  pub notify_enabled : Option Bool
  pub locale : Option String
  pub stt_preference : Option String
  pub extra_json : String

abbrev pub belongs_to : ℕ → Settings → Bool
belongs_to user s = s.user_id == user

abbrev pub default_settings : ℕ → ℕ → Settings
default_settings now user = record {
  user_id = user;
  notify_enabled = true;
  locale = "zh-CN";
  stt_preference = "cloud_default";
  extra_json = "{}";
  created_at = now;
  updated_at = now;
}

-- `INSERT INTO user_settings(user_id) … ON CONFLICT DO NOTHING`; the user exists, by the foreign key.
unfoldable pub ensure_row : ℕ → List User → List Settings → ℕ → Result (List Settings)
ensure_row now users ss user = do
  guard (any (has_id user) users) check_violation
  ok (if any (belongs_to user) ss then ss else ss ++ default_settings now user ∷ [])

unfoldable pub get_settings : ℕ → List User → List Settings → ℕ → Result (List Settings × Settings)
unfolding ensure_row
get_settings now users ss user = do
  ss' ← ensure_row now users ss user
  item ← or_fail (find (belongs_to user) ss') no_rows
  ok (ss', item)

abbrev pub or_stored {ℓ} : {A : Type ℓ} → Option A → A → A
or_stored none old = old
or_stored (some new) old = new

abbrev pub trimmed : Option String → Option String
trimmed none = none
trimmed (some text) = some (trim_space text)

module _ (decode_object : String → Option String) where
  unfoldable pub set_settings : ℕ → SettingsInput → Settings → Settings
  set_settings now input s = record s {
    notify_enabled = or_stored input.notify_enabled s.notify_enabled;
    locale = or_stored (trimmed input.locale) s.locale;
    stt_preference = or_stored (trimmed input.stt_preference) s.stt_preference;
    extra_json =
        if len input.extra_json == 0
        then s.extra_json
        else json_or_empty decode_object input.extra_json;
    updated_at = now;
  }

  unfoldable pub put_settings :
      ℕ → List User → List Settings → ℕ → SettingsInput → Result (List Settings × Settings)
  unfolding ensure_row set_settings
  put_settings now users ss user input = do
    ss' ← ensure_row now users ss user
    let last = update_where (belongs_to user) (set_settings now input) ss'
    item ← or_fail (find (belongs_to user) last) no_rows
    ok (last, item)
