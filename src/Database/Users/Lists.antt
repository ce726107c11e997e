-- ===== src/Database/Users/Lists.antt =====
-- internal/database/access_repository.go: `ListUsers` and `ListAudit`. `comes_before` is the order of the
-- database on texts and `lower` is its LOWER. The audit log is in the order of its ids, the oldest first.
use echoear_cloud.Base.{
  ℕ, String, Bool, Option, none, some, List, [], ◌∷◌, ◌++◌, ◌||◌, ◌&&◌, not, if◌then◌else◌, ltb,
  str_eq, find, select, map, take, ℤ, is_positive, pos_part,
}
use echoear_cloud.Database.Rows.{User, Audit, Db}
use echoear_cloud.Database.Users.{has_id}

module _ {ℓ} {A : Type ℓ} (before : A → A → Bool) where
  unfoldable pub place_before : A → List A → List A
  place_before x [] = x ∷ []
  place_before x (y ∷ ys) =
      let rest = place_before x ys in if before y x then y ∷ rest else x ∷ y ∷ ys

  unfoldable pub order_by : List A → List A
  unfolding place_before
  order_by [] = []
  order_by (x ∷ xs) = place_before x (order_by xs)

module _ (comes_before : String → String → Bool) (lower : String → String) where
  -- `ORDER BY status, LOWER(username)`.
  abbrev pub user_before : User → User → Bool
  user_before a b =
      comes_before a.status b.status
      || (str_eq a.status b.status && comes_before (lower a.username) (lower b.username))

  unfoldable pub list_users : List User → Bool → List User
  unfolding order_by
  list_users users include_deleted =
      order_by user_before (select (λ u. include_deleted || not (str_eq u.status "deleted")) users)

-- A row of the log with the name of its actor, empty where there is none.
pub record AuditEntry : Type 0 where
  pub audit : Audit
  pub actor_username : String

abbrev pub name_of : Option User → String
name_of none = ""
name_of (some u) = u.username

abbrev pub actor_name : List User → Option ℕ → String
actor_name users none = ""
actor_name users (some id) = name_of (find (has_id id) users)

abbrev pub audit_limit : ℤ → ℕ
audit_limit limit =
    if not (is_positive limit) || ltb 500 (pos_part limit) then 100 else pos_part limit

-- `ORDER BY a.id DESC`.
unfoldable pub latest_first : List Audit → List Audit
latest_first [] = []
latest_first (a ∷ rest) = latest_first rest ++ a ∷ []

unfoldable pub list_audit : Db → ℤ → List AuditEntry
unfolding latest_first
list_audit db limit =
    map (λ a. record { audit = a; actor_username = actor_name db.users a.actor_user_id })
      (take (audit_limit limit) (latest_first db.audit))
