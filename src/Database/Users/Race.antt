-- ===== src/Database/Users/Race.antt =====
-- Two runs of `UpdateUserLifecycle` of internal/database/access_repository.go that overlap. The
-- transaction locks the row of its target only, and the count of administrators locks nothing: two
-- transactions with different targets may both read before either commits.
use mathlib.Core.Path.{subst}
use echoear_cloud.Base.{
  ℕ, String, Bool, true, false, ◌≡◌, ◌≢◌, refl, some, List, [], ◌∷◌, arith, if◌then◌else◌, find,
  All, eq_iff, sym, ◌∙◌, trim_space,
}
use echoear_cloud.Database.Rows.{ok, User, Db, update_where}
use echoear_cloud.Database.Users.{
  count_active_admins, has_id, Plan, check_lifecycle, check_row, set_lifecycle, apply_lifecycle,
}
use echoear_cloud.Database.Users.Admins.{UniqueIds, count-update, apply_lifecycle-users}

All-update :
    (i id : ℕ) (now : ℕ) (p : Plan) (us : List User)
    → All (λ v. v.id ≢ i) us
    → All (λ v. v.id ≢ i) (update_where (has_id id) (set_lifecycle now p) us)
unfolding set_lifecycle
All-update i id now p [] h = tt
All-update i id now p (u ∷ us) (ne, h) = (ground arith, All-update i id now p us h)

row_id :
    (b : Bool) (now : ℕ) (p : Plan) (u : User) → (if b then set_lifecycle now p u else u).id ≡ u.id
unfolding set_lifecycle
row_id true now p u = refl
row_id false now p u = refl

UniqueIds-update :
    (id : ℕ) (now : ℕ) (p : Plan) (us : List User)
    → UniqueIds us
    → UniqueIds (update_where (has_id id) (set_lifecycle now p) us)
unfolding set_lifecycle
UniqueIds-update id now p [] h = tt
UniqueIds-update id now p (u ∷ us) (fresh, h) = (
  subst (λ i. All (λ (v : User). v.id ≢ i) (update_where (has_id id) (set_lifecycle now p) us))
      (sym (row_id (has_id id u) now p u)) (All-update u.id id now p us fresh),
  UniqueIds-update id now p us h,
)

find-update_ne :
    (id j : ℕ) (now : ℕ) (p : Plan) (us : List User)
    → id ≢ j
    → find (has_id j) (update_where (has_id id) (set_lifecycle now p) us) ≡ find (has_id j) us
unfolding set_lifecycle
find-update_ne id j now p [] ne = refl
find-update_ne id j now p (u ∷ us) ne = ground (arith, find-update_ne id j now p us ne)

-- An administrator who asks to become a user, as `adminUpdateUser` passes it on.
step_down : ℕ → Plan
step_down id = record {
  actor = id;
  target = id;
  role = "user";
  status = "active";
  reason = "";
  previous_role = "admin";
  previous_status = "active";
}

check_row-step_down :
    (db : Db) (id : ℕ) (u : User)
    → u.role ≡ "admin"
    → u.status ≡ "active"
    → count_active_admins db.users ≡ 2
    → check_row db id id "" "user" "" u ≡ ok (step_down id)
unfolding check_row step_down trim_space
check_row-step_down db id u r s two =
    ground (arith, eq_iff u.status "active", eq_iff u.role "admin")

step_down-checked :
    (db : Db) (id : ℕ) (u : User)
    → find (has_id id) db.users ≡ some u
    → u.role ≡ "admin"
    → u.status ≡ "active"
    → count_active_admins db.users ≡ 2
    → check_lifecycle db id id "" "user" "" ≡ ok (step_down id)
unfolding check_lifecycle step_down
step_down-checked db id u found r s two = rw found (check_row-step_down db id u r s two)

-- Two active administrators and no third, each of whom gives up the role in a transaction of its own:
-- if both transactions read before either one writes, both are let through, and no administrator is
-- left.
pub step_down_race :
    (encode : Plan → String) (print : ℕ → String) (now later a b : ℕ) (db : Db) (u v : User)
    → UniqueIds db.users
    → a ≢ b
    → find (has_id a) db.users ≡ some u
    → find (has_id b) db.users ≡ some v
    → (u.role ≡ "admin") × (u.status ≡ "active")
    → (v.role ≡ "admin") × (v.status ≡ "active")
    → count_active_admins db.users ≡ 2
    → (p : Plan) × (q : Plan) × (check_lifecycle db a a "" "user" "" ≡ ok p)
      × (check_lifecycle db b b "" "user" "" ≡ ok q)
      × (count_active_admins
            (apply_lifecycle encode print later q (apply_lifecycle encode print now p db)).users
          ≡ 0)
unfolding set_lifecycle step_down
step_down_race encode print now later a b db u v unique ne at_a at_b au av two = (
  step_down a,
  step_down b,
  step_down-checked db a u at_a au.0 au.1 two,
  step_down-checked db b v at_b av.0 av.1 two,
  rw
      (
        apply_lifecycle-users encode print later (step_down b)
            (apply_lifecycle encode print now (step_down a) db),
        apply_lifecycle-users encode print now (step_down a) db,
      )
      (ground (
        arith,
        count-update a (set_lifecycle now (step_down a)) db.users u unique at_a,
        count-update b (set_lifecycle later (step_down b))
            (update_where (has_id a) (set_lifecycle now (step_down a)) db.users) v
            (UniqueIds-update a now (step_down a) db.users unique)
            (find-update_ne a b now (step_down a) db.users ne ∙ at_b),
        eq_iff u.status "active",
        eq_iff u.role "admin",
        eq_iff v.status "active",
        eq_iff v.role "admin",
      )),
)
