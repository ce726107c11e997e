-- ===== src/Database/Rows.antt =====
-- The rows of the tables (migrations/001_schema.sql, migrations/004_user_management_agent_sharing.sql)
-- and the types of internal/database that hold them. A table is the list of its rows, a nullable
-- column an `Option`, a timestamp a number of microseconds, a UUID and a JSON value their text. A
-- transaction that fails is rolled back: an operation returns `err` and no database, and its caller
-- goes on with the one it had.
use echoear_cloud.Base.{
  ℕ, String, Bool, true, false, ◌≡◌, refl, Option, none, some, List, [], ◌∷◌, if◌then◌else◌, ◌==◌,
  len,
}

pub data Error : Type 0 where
  no_rows invalid_status invalid_role self_management last_active_admin open_share_exists : Error
  share_daily_limit invalid_share_usage daily_limit_reached check_violation out_of_range : Error
  username_exists device_uid_required invalid_last_ip token_fields_required invalid_refresh : Error
  refresh_expired claim_code_exhausted cannot_share_with_owner agent_id_required scan_failed : Error
  random_failed : Error

pub data Result {ℓ} (A : Type ℓ) : Type ℓ where
  ok : A → Result A
  err : Error → Result A

-- `if !test { return nil, e }`.
abbrev pub guard : Bool → Error → Result (Unit {0})
guard false failure = err failure
guard true failure = ok tt

-- The next statement runs only if the one before it gave no error.
infixl 5 ◌>>=◌
abbrev pub ◌>>=◌ {κ ℓ} : {B : Type κ} {A : Type ℓ} → Result A → (A → Result B) → Result B
err failure >>= next = err failure
ok value >>= next = next value

infixl 5 ◌>>◌
abbrev pub ◌>>◌ {κ} : {B : Type κ} → Result (Unit {0}) → Result B → Result B
first >> second = first >>= λ done. second

abbrev pub or_fail {ℓ} : {A : Type ℓ} → Option A → Error → Result A
or_fail none e = err e
or_fail (some a) e = ok a

-- What an operation that returns an error leaves: the database as it was.
abbrev pub after {ℓ κ} : {D : Type ℓ} {A : Type κ} → D → Result (D × A) → D
after d (ok (d', a)) = d'
after d (err e) = d

pub record User : Type 0 where
  pub id : ℕ
  pub username : String
  pub password_hash : String
  pub email : String
  pub role : String
  pub status : String
  pub password_changed : Bool
  pub created_at : ℕ
  pub updated_at : ℕ
  pub last_login_at : Option ℕ
  pub disabled_at : Option ℕ
  pub disabled_by : Option ℕ
  pub disabled_reason : String
  pub deleted_at : Option ℕ
  pub deleted_by : Option ℕ
  pub deleted_reason : String

pub record SessionRow : Type 0 where
  pub user_id : ℕ
  pub session_hash : String
  pub status : String
  pub ip_address : String
  pub user_agent : String
  pub created_at : ℕ
  pub updated_at : ℕ
  pub last_seen_at : ℕ
  pub expires_at : ℕ
  pub revoked_at : Option ℕ

pub record Agent : Type 0 where
  pub id : ℕ
  pub user_id : ℕ
  pub agent_id : String
  pub host_name : String
  pub platform : String
  pub app_version : String
  pub preferred_device_uid : Option String
  pub last_seen_at : Option ℕ
  pub lan_base_url : String
  pub public_key : String
  pub public_id : String
  pub key_id : String
  pub key_algorithm : String
  pub capabilities : String
  pub created_at : ℕ
  pub updated_at : ℕ

pub record Share : Type 0 where
  pub id : String
  pub agent_id : ℕ
  pub owner_user_id : ℕ
  pub grantee_user_id : ℕ
  pub status : String
  pub valid_from : ℕ
  pub valid_until : Option ℕ
  pub policy : String
  pub policy_version : ℕ
  pub accepted_at : Option ℕ
  pub accepted_by : Option ℕ
  pub declined_at : Option ℕ
  pub revoked_at : Option ℕ
  pub revoked_by : Option ℕ
  pub revoke_reason : String
  pub created_by : ℕ
  pub created_at : ℕ
  pub updated_at : ℕ

pub record Lease : Type 0 where
  pub ticket_id : String
  pub agent_id : ℕ
  pub subject_user_id : ℕ
  pub owner_user_id : ℕ
  pub share_id : Option String
  pub policy_version : ℕ
  pub namespace : String
  pub issued_at : ℕ
  pub expires_at : ℕ
  pub revoked_at : Option ℕ
  pub request_id : String

pub record Audit : Type 0 where
  pub actor_user_id : Option ℕ
  pub action : String
  pub target_type : String
  pub target_id : String
  pub owner_user_id : Option ℕ
  pub grantee_user_id : Option ℕ
  pub agent_id : Option ℕ
  pub share_id : Option String
  pub outcome : String
  pub reason : String
  pub details : String
  pub ip_address : String
  pub user_agent : String
  pub created_at : ℕ

pub record UsageDay : Type 0 where
  pub share_id : String
  pub usage_date : ℕ
  pub tasks_created : ℕ
  pub bytes_uploaded : ℕ
  pub bytes_downloaded : ℕ

pub record UsageEvent : Type 0 where
  pub share_id : String
  pub event_id : String
  pub usage_date : ℕ
  pub tasks_created : ℕ
  pub bytes_uploaded : ℕ
  pub bytes_downloaded : ℕ

-- The tables of accounts and sharing.
pub record Db : Type 0 where
  pub users : List User
  pub sessions : List SessionRow
  pub agents : List Agent
  pub shares : List Share
  pub leases : List Lease
  pub audit : List Audit
  pub usage_days : List UsageDay
  pub usage_events : List UsageEvent

-- `UPDATE table SET … WHERE …`.
abbrev pub update_where {ℓ} : {A : Type ℓ} → (A → Bool) → (A → A) → List A → List A
update_where p f [] = []
update_where p f (x ∷ xs) = (if p x then f x else x) ∷ update_where p f xs

-- `JSONOrEmpty`: `decode_object` is `json.Unmarshal` into a map and `json.Marshal` of what it read,
-- `none` where the text is no JSON object.
unfoldable pub json_or_empty : (String → Option String) → String → String
json_or_empty decode_object raw =
    if len raw == 0 then "{}" else elim (decode_object raw) [ none ↦ "{}" | some value ↦ value ]

-- A chain of steps that succeeds: each step did.
pub bind-eq_ok {ℓ κ} :
    {A : Type ℓ} {B : Type κ} (step : Result A) (next : A → Result B) {last : B}
    → step >>= next ≡ ok last
    → (value : A) × (step ≡ ok value) × (next value ≡ ok last)
bind-eq_ok (err failure) next h = cc
bind-eq_ok (ok value) next h = (value, refl, h)

pub guard-eq_ok {κ} :
    {B : Type κ} (t : Bool) (e : Error) (k : Result B) {b : B}
    → (guard t e >> k) ≡ ok b
    → (t ≡ true) × (k ≡ ok b)
guard-eq_ok true e k h = (refl, h)
guard-eq_ok false e k h = cc

pub or_fail-eq_ok {ℓ κ} :
    {A : Type ℓ} {B : Type κ} (o : Option A) (e : Error) (f : A → Result B) {b : B}
    → (or_fail o e >>= f) ≡ ok b
    → (a : A) × (o ≡ some a) × (f a ≡ ok b)
or_fail-eq_ok none e f h = cc
or_fail-eq_ok (some a) e f h = (a, refl, h)
