-- ===== src/Database/Users/Sessions.antt =====
-- `CreateSession`, `TouchSession` and `RevokeSession` of internal/database/repository.go. `hash` is
-- `HashSecret`, and `token` what `RandomToken` draws.
use mathlib.Core.Path.{subst}
use echoear_cloud.Base.{
  sym, ℕ, String, Bool, true, false, ◌≡◌, ◌<◌, ◌+◌, refl, none, some, List, [], ◌∷◌, ◌++◌, ◌&&◌,
  not, arith, find, any, str_eq, trim_space, All,
}
use text.Mathlib.TextPositions.{eq_refl}
use echoear_cloud.Database.Rows.{
  Result, ok, ◌>>◌, guard, check_violation, User, SessionRow, Db, update_where, guard-eq_ok,
}
use echoear_cloud.Database.Users.{
  revoke_session, active_user, join_user, join_sessions, live_session, session_by_token,
}
use echoear_cloud.Database.Users.Lockout.{update_where_clears}

abbrev pub has_hash : String → SessionRow → Bool
has_hash hashed s = str_eq s.session_hash hashed

abbrev pub new_session : ℕ → ℕ → ℕ → String → String → String → SessionRow
new_session now user expires hashed ip agent = record {
  user_id = user;
  session_hash = hashed;
  status = "active";
  ip_address = trim_space ip;
  user_agent = trim_space agent;
  created_at = now;
  updated_at = now;
  last_seen_at = now;
  expires_at = expires;
  revoked_at = none;
}

module _ (hash : String → String) where
  -- `session_hash` is unique in `user_sessions`.
  unfoldable pub create_session : ℕ → ℕ → Db → ℕ → String → String → ℕ → String → Result Db
  create_session now clock db user ip agent ttl token = do
    guard (not (any (has_hash (hash token)) db.sessions)) check_violation
    ok (record db {
      sessions = db.sessions ++ new_session now user (clock + ttl) (hash token) ip agent ∷ [];
    })

  unfoldable pub touch_session : ℕ → Db → String → Db
  touch_session now db token = record db {
    sessions =
        update_where (has_hash (hash token))
          (λ s. record s { last_seen_at = now; updated_at = now }) db.sessions;
  }

  unfoldable pub revoke_session_token : ℕ → Db → String → Db
  revoke_session_token now db token = record db {
    sessions =
        update_where (λ s. has_hash (hash token) s && str_eq s.status "active") (revoke_session now)
          db.sessions;
  }

join_sessions-append :
    (us : List User) (hashed : String) (later : ℕ) (ss : List SessionRow) (s : SessionRow)
    (u : User)
    → any (has_hash hashed) ss ≡ false
    → live_session hashed later s ≡ true
    → find (active_user s.user_id) us ≡ some u
    → join_sessions us (live_session hashed later) (ss ++ s ∷ []) ≡ some (s, u)
unfolding join_sessions join_user live_session
join_sessions-append us hashed later [] s u none_before live found = rw (live, found) refl
join_sessions-append us hashed later (r ∷ ss) s u none_before live found =
    ground (arith, join_sessions-append us hashed later ss s u)

join_sessions-none :
    (us : List User) (hashed : String) (later : ℕ) (ss : List SessionRow)
    → All (λ s. (has_hash hashed s && str_eq s.status "active") ≡ false) ss
    → join_sessions us (live_session hashed later) ss ≡ none
unfolding join_sessions join_user live_session
join_sessions-none us hashed later [] h = refl
join_sessions-none us hashed later (s ∷ ss) (off, h) =
    ground (arith, join_sessions-none us hashed later ss h)

session_by_token-found :
    (hash : String → String) (later : ℕ) (db : Db) (token : String) (s : SessionRow) (u : User)
    → trim_space token ≡ token
    → join_sessions db.users (live_session (hash token) later) db.sessions ≡ some (s, u)
    → session_by_token hash later db token
      ≡ some (record {
        user_id = s.user_id;
        username = u.username;
        role = u.role;
        status = u.status;
        session_id = token;
        last_seen_at = s.last_seen_at;
        expires_at = s.expires_at;
      })
unfolding session_by_token
session_by_token-found hash later db token s u plain e =
    let e' : join_sessions db.users (live_session (hash (trim_space token)) later) db.sessions
        ≡ some (s, u) =
      subst (λ t. join_sessions db.users (live_session (hash t) later) db.sessions ≡ some (s, u))
        (sym plain) e in
    rw (e', session_by_token) refl

session_by_token-none :
    (hash : String → String) (later : ℕ) (db : Db) (token : String)
    → trim_space token ≡ token
    → join_sessions db.users (live_session (hash token) later) db.sessions ≡ none
    → session_by_token hash later db token ≡ none
unfolding session_by_token
session_by_token-none hash later db token plain e =
    let e' : join_sessions db.users (live_session (hash (trim_space token)) later) db.sessions
        ≡ none =
      subst (λ t. join_sessions db.users (live_session (hash t) later) db.sessions ≡ none)
        (sym plain) e in
    rw (e', session_by_token) refl

-- A session that is created for an active user is found by its token until it expires, as that user's
-- with that user's role, and once it is revoked no more, at any time.
pub session_by_token-create_session :
    (hash : String → String) (now clock later ever : ℕ) (db db' : Db) (user : ℕ)
    (ip agent token : String) (ttl : ℕ) (u : User)
    → find (active_user user) db.users ≡ some u
    → trim_space token ≡ token
    → create_session hash now clock db user ip agent ttl token ≡ ok db'
    → later < clock + ttl
    → (session_by_token hash later db' token
        ≡ some (record {
          user_id = user;
          username = u.username;
          role = u.role;
          status = u.status;
          session_id = token;
          last_seen_at = now;
          expires_at = clock + ttl;
        }))
      × (session_by_token hash ever (revoke_session_token hash later db' token) token ≡ none)
unfolding create_session revoke_session_token live_session
session_by_token-create_session hash now clock later ever db db' user ip agent token ttl u found
      plain e soon =
    let (free, end) =
      guard-eq_ok (not (any (has_hash (hash token)) db.sessions)) check_violation _ e in
    let s = new_session now user (clock + ttl) (hash token) ip agent in
    let rows : db'.sessions ≡ db.sessions ++ s ∷ [] = ground arith in
    let users : db'.users ≡ db.users = ground arith in
    let live : live_session (hash token) later s ≡ true = ground (arith, eq_refl (hash token)) in
    (
      session_by_token-found hash later db' token s u plain (
          rw (rows, users)
            (join_sessions-append db.users (hash token) later db.sessions s u (ground arith) live
              found)),
      session_by_token-none hash ever (revoke_session_token hash later db' token) token plain (
          join_sessions-none db'.users (hash token) ever
            (update_where (λ r. has_hash (hash token) r && str_eq r.status "active")
              (revoke_session later) db'.sessions)
            (update_where_clears (λ r. has_hash (hash token) r && str_eq r.status "active")
              (revoke_session later) db'.sessions (λ r. ground arith))),
    )
