-- ===== src/Database/Users/Lockout.antt =====
-- What a disabled or deleted account keeps after `UpdateUserLifecycle` of
-- internal/database/access_repository.go: nothing.
use mathlib.Core.Path.{subst}
use echoear_cloud.Base.{
  ◌⊎◌, ℕ, String, Bool, true, false, ◌≡◌, ◌≢◌, refl, ◌∙◌, ap, Option, none, some, List, [], ◌∷◌,
  arith, if◌then◌else◌, find, All, str_eq, eq_iff, Bool-cases, inl, inr, trim_space,
}
use echoear_cloud.Database.Rows.{ok, User, SessionRow, Lease, Db, update_where}
use echoear_cloud.Database.Users.{
  Session, session_of, lease_of, open_share_of, Plan, has_id, revoke_session, revoke_lease,
  lock_out, apply_lifecycle, set_lifecycle, update_user_lifecycle, session_by_token, join_sessions,
  join_user, live_session,
}
use echoear_cloud.Database.Users.Admins.{
  update_user_lifecycle-parts, check_lifecycle-Checked, apply_lifecycle-users,
}

-- No row passes the test of an update whose new rows all fail it.
pub update_where_clears {ℓ} :
    {A : Type ℓ} (p : A → Bool) (f : A → A) (xs : List A)
    → ((x : A) → p (f x) ≡ false)
    → All (λ x. p x ≡ false) (update_where p f xs)
update_where_clears p f [] h = tt
update_where_clears p f (x ∷ xs) h = (clear (Bool-cases (p x)), update_where_clears p f xs h)
  where
    clear : (p x ≡ true) ⊎ (p x ≡ false) → p (if p x then f x else x) ≡ false
    clear (inl hit) = rw hit (h x)
    clear (inr miss) = rw miss miss

revoked_session : (t now : ℕ) (s : SessionRow) → session_of t (revoke_session now s) ≡ false
revoked_session t now s = ground arith

revoked_lease : (t now : ℕ) (l : Lease) → lease_of t (revoke_lease now l) ≡ false
revoked_lease t now l = ground arith

-- No active session, no lease that is not revoked and no open share names the account.
pub record IsLockedOut (t : ℕ) (db : Db) : Type 0 where
  pub no_session : All (λ s. session_of t s ≡ false) db.sessions
  pub no_lease : All (λ l. lease_of t l ≡ false) db.leases
  pub no_share : All (λ s. open_share_of t s ≡ false) db.shares

lock_out-IsLockedOut : (now : ℕ) (p : Plan) (db : Db) → IsLockedOut p.target (lock_out now p db)
unfolding lock_out
lock_out-IsLockedOut now p db = record {
  no_session =
      update_where_clears (session_of p.target) (revoke_session now) db.sessions
        (revoked_session p.target now);
  no_lease =
      update_where_clears (lease_of p.target) (revoke_lease now) db.leases
        (revoked_lease p.target now);
  no_share = update_where_clears (open_share_of p.target) _ db.shares (λ s. ground arith);
}

apply_lifecycle-IsLockedOut :
    (encode : Plan → String) (print : ℕ → String) (now : ℕ) (p : Plan) (db : Db)
    → str_eq p.status "active" ≡ false
    → IsLockedOut p.target (apply_lifecycle encode print now p db)
unfolding apply_lifecycle
apply_lifecycle-IsLockedOut encode print now p db off =
    let locked =
      lock_out-IsLockedOut now p
        (record db { users = update_where (has_id p.target) (set_lifecycle now p) db.users }) in
    rw off (record {
      no_session = locked.no_session;
      no_lease = locked.no_lease;
      no_share = locked.no_share;
    })

find-update-status :
    (id : ℕ) (now : ℕ) (p : Plan) (us : List User) (u : User)
    → find (has_id id) (update_where (has_id id) (set_lifecycle now p) us) ≡ some u
    → u.status ≡ p.status
unfolding set_lifecycle
find-update-status id now p [] u e = cc
find-update-status id now p (v ∷ us) u e = ground (arith, find-update-status id now p us u)

-- A session that the join finds belongs to its row's user, and the row is among those that pass.
join_sessions-ne :
    (us : List User) (hashed : String) (later t : ℕ) (ss : List SessionRow) (s : SessionRow)
    (u : User)
    → All (λ r. session_of t r ≡ false) ss
    → join_sessions us (live_session hashed later) ss ≡ some (s, u)
    → s.user_id ≢ t
unfolding join_sessions join_user live_session
join_sessions-ne us hashed later t [] s u h e = cc
join_sessions-ne us hashed later t (r ∷ ss) s u (off, h) e =
    ground (arith, join_sessions-ne us hashed later t ss s u h)

session_by_token-ne :
    (hash : String → String) (later t : ℕ) (db : Db) (token : String) (s : Session)
    → All (λ r. session_of t r ≡ false) db.sessions
    → session_by_token hash later db token ≡ some s
    → s.user_id ≢ t
unfolding session_by_token
session_by_token-ne hash later t db token s h e =
    go (join_sessions db.users (live_session (hash (trim_space token)) later) db.sessions) refl
  where
    go :
        (r : Option (SessionRow × User))
        → join_sessions db.users (live_session (hash (trim_space token)) later) db.sessions ≡ r
        → s.user_id ≢ t
    go none j = cc (rw (j, session_by_token) at e)
    go (some (row, u)) j =
        let same : row.user_id ≡ s.user_id = ground arith in
        subst (λ i. i ≢ t) same
          (join_sessions-ne db.users (hash (trim_space token)) later t db.sessions row u h j)

-- When an update leaves its account disabled or deleted, the account has no active session, no lease
-- as subject or owner that is not revoked and no open share as owner or grantee, and from then on no
-- token at all resolves to a session of that account in the database that the update leaves.
pub update_user_lifecycle_locks_out :
    (encode : Plan → String) (print : ℕ → String) (hash : String → String) (now later : ℕ)
    (db db' : Db) (actor target : ℕ) (status role reason : String) (u : User)
    → update_user_lifecycle encode print now db actor target status role reason ≡ ok (db', u)
    → u.status ≢ "active"
    → IsLockedOut target db'
      × ((token : String) (s : Session)
          → session_by_token hash later db' token ≡ some s
          → s.user_id ≢ target)
update_user_lifecycle_locks_out encode print hash now later db db' actor target status role reason u
      e off =
    let (p, checks, writes, read) =
      update_user_lifecycle-parts encode print now db db' actor target status role reason u e in
    let c = check_lifecycle-Checked db actor target status role reason p checks in
    let users' = ap (λ (d : Db). d.users) writes ∙ apply_lifecycle-users encode print now p db in
    let status' = find-update-status target now p db.users u (rw (users', c.same_target) at read) in
    let locked : IsLockedOut target db' =
      rw (writes, ← c.same_target)
        (apply_lifecycle-IsLockedOut encode print now p db
          (ground (arith, eq_iff p.status "active", status'))) in
    (locked, λ token s. session_by_token-ne hash later target db' token s locked.no_session)
