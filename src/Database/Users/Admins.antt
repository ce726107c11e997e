-- ===== src/Database/Users/Admins.antt =====
-- `UpdateUserLifecycle` of internal/database/access_repository.go and the last active administrator.
use mathlib.Core.Path.{subst}
use echoear_cloud.Base.{
  ℕ, String, true, ◌≡◌, ◌≢◌, ◌≤◌, ◌+◌, refl, some, List, [], ◌∷◌, arith, if◌then◌else◌, ◌==◌, find,
  All, eq_iff, Bool-cases, Option-cases, inl, inr, ==_iff,
}
use echoear_cloud.Database.Rows.{Result, ok, err, User, Db, update_where}
use echoear_cloud.Database.Users.{
  is_active_admin, count_active_admins, has_id, Plan, check_lifecycle, set_lifecycle,
  apply_lifecycle, update_user_lifecycle, check_row,
}

-- The primary key of `users`.
abbrev pub UniqueIds : List User → Type 0
UniqueIds [] = Unit
UniqueIds (u ∷ us) = All (λ v. v.id ≢ u.id) us × UniqueIds us

abbrev pub weight : User → ℕ
weight u = if is_active_admin u then 1 else 0

update_where_absent :
    (id : ℕ) (f : User → User) (us : List User)
    → All (λ v. v.id ≢ id) us
    → update_where (has_id id) f us ≡ us
update_where_absent id f [] h = refl
update_where_absent id f (u ∷ us) (ne, h) = ground (arith, update_where_absent id f us h)

-- Changing the one row with an id changes the count by what that row counted before and after.
pub count-update :
    (id : ℕ) (f : User → User) (us : List User) (current : User)
    → UniqueIds us
    → find (has_id id) us ≡ some current
    → count_active_admins (update_where (has_id id) f us) + weight current
      ≡ count_active_admins us + weight (f current)
count-update id f [] current u e = cc
count-update id f (x ∷ us) current (fresh, u) e = elim (Bool-cases (x.id == id)) [
  | inl hit ↦
      let same : x.id ≡ id = (==_iff x.id id).0 hit in
      let rest : update_where (has_id id) f us ≡ us =
        update_where_absent id f us (subst (λ i. All (λ v. v.id ≢ i) us) same fresh) in
      ground (arith, rest)
  | inr miss ↦ ground (arith, count-update id f us current u)
]

set_lifecycle-id : (now : ℕ) (p : Plan) (u : User) → (set_lifecycle now p u).id ≡ u.id
unfolding set_lifecycle
set_lifecycle-id now p u = refl

pub apply_lifecycle-users :
    (encode : Plan → String) (print : ℕ → String) (now : ℕ) (p : Plan) (db : Db)
    → (apply_lifecycle encode print now p db).users
      ≡ update_where (has_id p.target) (set_lifecycle now p) db.users
unfolding apply_lifecycle
apply_lifecycle-users encode print now p db = ground arith

-- What the checks have seen when they let a change pass.
pub record Checked (db : Db) (actor target : ℕ) (p : Plan) : Type 0 where
  pub current : User
  pub found : find (has_id target) db.users ≡ some current
  pub same_target : p.target ≡ target
  pub same_actor : p.actor ≡ actor
  pub not_self : actor ≡ target → p.status ≡ "active"
  pub last_kept :
      is_active_admin current ≡ true
      → count_active_admins db.users ≤ 1
      → (p.role ≡ "admin") × (p.status ≡ "active")

check_row-target :
    (db : Db) (actor target : ℕ) (status role reason : String) (current : User) (p : Plan)
    → check_row db actor target status role reason current ≡ ok p
    → (p.target ≡ target) × (p.actor ≡ actor)
unfolding check_row
check_row-target db actor target status role reason current p e = ground arith

check_row-not_self :
    (db : Db) (actor target : ℕ) (status role reason : String) (current : User) (p : Plan)
    → check_row db actor target status role reason current ≡ ok p
    → actor ≡ target
    → p.status ≡ "active"
unfolding check_row
check_row-not_self db actor target status role reason current p e same =
    ground (arith, eq_iff p.status "active")

check_row-last_kept :
    (db : Db) (actor target : ℕ) (status role reason : String) (current : User) (p : Plan)
    → check_row db actor target status role reason current ≡ ok p
    → is_active_admin current ≡ true
    → count_active_admins db.users ≤ 1
    → (p.role ≡ "admin") × (p.status ≡ "active")
unfolding check_row
check_row-last_kept db actor target status role reason current p e admin last =
    ground (arith, eq_iff p.status "active", eq_iff p.role "admin")

pub check_lifecycle-Checked :
    (db : Db) (actor target : ℕ) (status role reason : String) (p : Plan)
    → check_lifecycle db actor target status role reason ≡ ok p
    → Checked db actor target p
unfolding check_lifecycle
check_lifecycle-Checked db actor target status role reason p e =
    elim (Option-cases (find (has_id target) db.users)) [
      | inl missing ↦ cc (rw missing at e)
      | inr (current, found) ↦
          let row : check_row db actor target status role reason current ≡ ok p = rw found at e in
          record {
            current = current;
            found = found;
            same_target = (check_row-target db actor target status role reason current p row).0;
            same_actor = (check_row-target db actor target status role reason current p row).1;
            not_self = check_row-not_self db actor target status role reason current p row;
            last_kept = check_row-last_kept db actor target status role reason current p row;
          }
    ]

-- A successful update is its checks, its writes and the row that is read back.
pub update_user_lifecycle-parts :
    (encode : Plan → String) (print : ℕ → String) (now : ℕ) (db db' : Db) (actor target : ℕ)
    (status role reason : String) (u : User)
    → update_user_lifecycle encode print now db actor target status role reason ≡ ok (db', u)
    → (p : Plan) × (check_lifecycle db actor target status role reason ≡ ok p)
      × (db' ≡ apply_lifecycle encode print now p db)
      × (find (has_id target) db'.users ≡ some u)
unfolding update_user_lifecycle
update_user_lifecycle-parts encode print now db db' actor target status role reason u e =
    parts (check_lifecycle db actor target status role reason) refl
  where
    parts :
        (r : Result Plan)
        → check_lifecycle db actor target status role reason ≡ r
        → (p : Plan) × (check_lifecycle db actor target status role reason ≡ ok p)
          × (db' ≡ apply_lifecycle encode print now p db)
          × (find (has_id target) db'.users ≡ some u)
    parts (err x) c = cc (rw (c, update_user_lifecycle) at e)
    parts (ok p) c = (p, c, ground arith, ground arith)

-- With one row for each id: if an administrator is active before an update that succeeds, one is
-- active after it, whoever acts and whatever account, status and role are given.
pub update_user_lifecycle_keeps_admin :
    (encode : Plan → String) (print : ℕ → String) (now : ℕ) (db db' : Db) (actor target : ℕ)
    (status role reason : String) (u : User)
    → UniqueIds db.users
    → 1 ≤ count_active_admins db.users
    → update_user_lifecycle encode print now db actor target status role reason ≡ ok (db', u)
    → 1 ≤ count_active_admins db'.users
unfolding set_lifecycle
update_user_lifecycle_keeps_admin encode print now db db' actor target status role reason u unique
      some_admin e =
    let (p, checks, writes, read) =
      update_user_lifecycle-parts encode print now db db' actor target status role reason u e in
    let c = check_lifecycle-Checked db actor target status role reason p checks in
    let counted = count-update target (set_lifecycle now p) db.users c.current unique c.found in
    rw (writes, apply_lifecycle-users encode print now p db, c.same_target)
      (ground (arith, counted, c.last_kept, eq_iff p.role "admin", eq_iff p.status "active"))
