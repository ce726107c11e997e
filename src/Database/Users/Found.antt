-- ===== src/Database/Users/Found.antt =====
-- The user behind a session that `SessionByToken` of internal/database/repository.go finds.
use mathlib.Core.Path.{subst}
use echoear_cloud.Base.{
  first, later, ◌<◌, ℕ, String, true, ◌≡◌, refl, Option, none, some, List, [], ◌∷◌, arith, find,
  find-In, In, eq_iff, trim_space, ◌⊎◌, inl, inr, Bool-cases, false,
}
use echoear_cloud.Database.Rows.{User, SessionRow, Db}
use echoear_cloud.Database.Users.{
  Session, active_user, join_user, join_sessions, live_session, session_by_token,
}

join_sessions-user :
    (us : List User) (hashed : String) (now : ℕ) (ss : List SessionRow) (s : SessionRow) (u : User)
    → join_sessions us (live_session hashed now) ss ≡ some (s, u)
    → find (active_user s.user_id) us ≡ some u
unfolding join_sessions
join_sessions-user us hashed now [] s u e = cc
join_sessions-user us hashed now (r ∷ ss) s u e =
    go (find (active_user r.user_id) us) refl (Bool-cases (live_session hashed now r)) e
      (join_sessions-user us hashed now ss s u)
  where
    go :
        (o : Option User)
        → find (active_user r.user_id) us ≡ o
        → (live_session hashed now r ≡ true) ⊎ (live_session hashed now r ≡ false)
        → join_sessions us (live_session hashed now) (r ∷ ss) ≡ some (s, u)
        → (join_sessions us (live_session hashed now) ss ≡ some (s, u)
            → find (active_user s.user_id) us ≡ some u)
        → find (active_user s.user_id) us ≡ some u
    go o f (inr miss) h rest = rest (rw (join_sessions, miss) at h)
    go none f (inl hit) h rest = rest (rw (join_sessions, hit, join_user, f) at h)
    go (some v) f (inl hit) h rest =
        let pair : ◌≡◌ {A = Option (SessionRow × User)} (some (r, v)) (some (s, u)) =
          rw (join_sessions, hit, join_user, f) at h in
        cc (f, pair)

join_sessions-row :
    (us : List User) (hashed : String) (now : ℕ) (ss : List SessionRow) (s : SessionRow) (u : User)
    → join_sessions us (live_session hashed now) ss ≡ some (s, u)
    → In s ss × (live_session hashed now s ≡ true)
unfolding join_sessions
join_sessions-row us hashed now [] s u e = cc
join_sessions-row us hashed now (r ∷ ss) s u e =
    go (find (active_user r.user_id) us) refl (Bool-cases (live_session hashed now r)) e
      (join_sessions-row us hashed now ss s u)
  where
    past :
        In s ss × (live_session hashed now s ≡ true)
        → In s (r ∷ ss) × (live_session hashed now s ≡ true)
    past (i, live) = (later i, live)

    go :
        (o : Option User)
        → find (active_user r.user_id) us ≡ o
        → (live_session hashed now r ≡ true) ⊎ (live_session hashed now r ≡ false)
        → join_sessions us (live_session hashed now) (r ∷ ss) ≡ some (s, u)
        → (join_sessions us (live_session hashed now) ss ≡ some (s, u)
            → In s ss × (live_session hashed now s ≡ true))
        → In s (r ∷ ss) × (live_session hashed now s ≡ true)
    go o f (inr miss) h rest = past (rest (rw (join_sessions, miss) at h))
    go none f (inl hit) h rest = past (rest (rw (join_sessions, hit, join_user, f) at h))
    go (some v) f (inl hit) h rest =
        let pair : ◌≡◌ {A = Option (SessionRow × User)} (some (r, v)) (some (s, u)) =
          rw (join_sessions, hit, join_user, f) at h in
        let same : r ≡ s = cc pair in
        (first same, subst (λ x. live_session hashed now x ≡ true) same hit)

-- Behind a session that is found stands a row of the table with the token's hash that is active and not
-- over, and the account it names.
pub record IsBacked (hash : String → String) (now : ℕ) (db : Db) (token : String) (s : Session)
    : Type 0 where
  pub row : SessionRow
  pub stored : In row db.sessions
  pub hashed : row.session_hash ≡ hash (trim_space token)
  pub live : row.status ≡ "active"
  pub in_time : now < row.expires_at
  pub user : User
  pub known : In user db.users
  pub named : (user.id ≡ row.user_id) × (s.user_id ≡ row.user_id)
  pub active : user.status ≡ "active"
  pub role : user.role ≡ s.role

pub session_by_token-IsBacked :
    (hash : String → String) (now : ℕ) (db : Db) (token : String) (s : Session)
    → session_by_token hash now db token ≡ some s
    → IsBacked hash now db token s
unfolding session_by_token active_user live_session
session_by_token-IsBacked hash now db token s e =
    go (join_sessions db.users (live_session (hash (trim_space token)) now) db.sessions) refl
  where
    go :
        (o : Option (SessionRow × User))
        → join_sessions db.users (live_session (hash (trim_space token)) now) db.sessions ≡ o
        → IsBacked hash now db token s
    go none j = cc (rw (j, session_by_token) at e)
    go (some (row, u)) j =
        let f = join_sessions-user db.users (hash (trim_space token)) now db.sessions row u j in
        let (i, p) = find-In (active_user row.user_id) db.users f in
        let (stored, fits) =
          join_sessions-row db.users (hash (trim_space token)) now db.sessions row u j in
        record {
          row = row;
          stored = stored;
          hashed = ground (arith, fits, eq_iff row.session_hash (hash (trim_space token)));
          live = ground (arith, fits, eq_iff row.status "active");
          in_time = ground (arith, fits);
          user = u;
          known = i;
          named = (ground (arith, p), ground arith);
          active = ground (arith, p, eq_iff u.status "active");
          role = ground arith;
        }
