-- ===== src/Api/Accounts/Gate.antt =====
-- The routes of internal/api/server.go behind `requireSession` and `requireAdmin`.
use echoear_cloud.Base.{ℕ, String, ◌≡◌, refl, ◌⊎◌, ◌∙◌, inl, inr, str_eq, eq_iff, if-cases}
use echoear_cloud.Database.Rows.{Db}
use echoear_cloud.Database.Users.{Session}
use echoear_cloud.Database.Users.Found.{IsBacked, session_by_token-IsBacked}
use echoear_cloud.Api.Http.{Answer, refused, done}
use echoear_cloud.Api.Session.{Headers, require_session, require_admin}
use echoear_cloud.Api.Session.Entry.{
  SameButSessions, Shows, IsEntry, entered, turned_away, require_session-IsEntry,
}
use echoear_cloud.Api.Accounts.{Accounts, behind_admin, behind_session, admin_route}

-- Either the handler ran, for the session that the database has for the token that the request carries, of
-- an account that is an active administrator, or the request was refused and nothing changed but when a
-- session was last seen.
pub data IsGated {A : Type 0} (handler : Accounts → Session → Accounts × Answer A)
    (hash : String → String) (now : ℕ) (s : Accounts) (h : Headers)
    : Accounts × Answer A → Type 0 where
  ran :
      (token : String) (session : Session) (db : Db)
      → Shows h token
      → (b : IsBacked hash now s.db token session) → b.user.role ≡ "admin"
      → SameButSessions s.db db
      → IsGated handler hash now s h (handler (record s { db = db }) session)
  stopped :
      (status : ℕ) (db : Db)
      → (status ≡ 401) ⊎ (status ≡ 403)
      → SameButSessions s.db db
      → IsGated handler hash now s h (record s { db = db }, refused status)

module _ {A : Type 0} (handler : Accounts → Session → Accounts × Answer A) where
  behind_session-IsGated :
      (hash : String → String) (now : ℕ) (s : Accounts) (h : Headers) (r : Db × Answer Session)
      → IsEntry hash now s.db h r
      → IsGated handler hash now s h (behind_session handler s r)
  unfolding behind_session behind_admin require_admin
  behind_session-IsGated hash now s h _ turned_away = stopped 401 s.db (inl refl) refl
  behind_session-IsGated hash now s h _ (entered token session db shown found same) =
      if-cases
        (λ (a : Answer Session).
          IsGated handler hash now s h (behind_admin handler (record s { db = db }) a))
        (str_eq session.role "admin") (done session) (refused 403)
        (λ admin.
          let b = session_by_token-IsBacked hash now s.db token session found in
          ran token session db shown b (b.role ∙ (eq_iff session.role "admin").0 admin) same)
        (λ other. stopped 403 db (inr refl) same)

  -- A request to an administrator's route runs its handler only if the table has a session, active and not
  -- over, with the hash of the token in the request's header or cookie, and the account that the session
  -- names is active and an administrator now; the handler then gets that account's session. Every other
  -- request is refused with 401 or 403 and changes no table but the sessions.
  pub admin_route-IsGated :
      (hash : String → String) (now clock : ℕ) (s : Accounts) (h : Headers)
      → IsGated handler hash now s h (admin_route hash now clock handler s h)
  unfolding admin_route
  admin_route-IsGated hash now clock s h =
      behind_session-IsGated hash now s h (require_session hash now clock s.db h)
        (require_session-IsEntry hash now clock s.db h)
