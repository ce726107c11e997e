-- ===== src/Api/Session/Entry.antt =====
-- Who gets past `requireSession` of internal/api/server.go.
use Prim.Native.Char.{Char}
use echoear_cloud.Base.{
  ℕ, String, false, ◌≡◌, refl, ap, ◌∙◌, Option, none, some, ◌+◌, arith, trim_space, trim_left,
  trim_right, trim_right-plain, is_space, is_empty, if-cases, ◌⊎◌, inl, inr, leb,
}
use echoear_cloud.Database.Rows.{Db}
use echoear_cloud.Database.Users.{Session, session_by_token}
use echoear_cloud.Database.Users.Sessions.{touch_session}
use echoear_cloud.Api.Http.{Answer, refused, done, split_space}
use echoear_cloud.Api.Session.{
  Headers, five_minutes, native_session_token, presented_token, session_part, admit_session,
  require_session_token, require_session,
}

-- The header that a client sends with its token.
abbrev pub session_header : String → String
session_header token = String.◌∷◌ "S" (
    String.◌∷◌ "e" (
      String.◌∷◌ "s"
        (String.◌∷◌ "s" (String.◌∷◌ "i" (String.◌∷◌ "o" (String.◌∷◌ "n" (String.◌∷◌ " " token)))))))

trim_right-cons :
    (c : Char) (s : String)
    → trim_right s ≡ s
    → is_empty s ≡ false
    → trim_right (String.◌∷◌ c s) ≡ String.◌∷◌ c s
unfolding trim_right
trim_right-cons c s e full = rw e (ground (arith, full))

trim_space-session_header :
    (token : String)
    → trim_right token ≡ token
    → is_empty token ≡ false
    → trim_space (session_header token) ≡ session_header token
unfolding trim_space trim_left is_space
trim_space-session_header token right full =
    trim_right-cons "S" _
      (trim_right-cons "e" _
        (trim_right-cons "s" _
          (trim_right-cons "s" _
            (trim_right-cons "i" _
              (trim_right-cons "o" _
                (trim_right-cons "n" _ (trim_right-cons " " token right full) refl) refl)
              refl)
            refl)
          refl)
        refl)
      refl

session_part-split_space :
    (token : String)
    → trim_space token ≡ token
    → session_part (split_space (session_header token)) ≡ token
unfolding split_space
session_part-split_space token plain = plain

pub native_session_token-session_header :
    (token : String)
    → trim_space token ≡ token
    → trim_right token ≡ token
    → is_empty token ≡ false
    → native_session_token (session_header token) ≡ token
unfolding native_session_token
native_session_token-session_header token plain right full =
    ap (λ t. session_part (split_space t)) (trim_space-session_header token right full)
    ∙ session_part-split_space token plain

presented_token-session_header :
    (token other cookie : String)
    → trim_space token ≡ token
    → trim_right token ≡ token
    → is_empty token ≡ false
    → presented_token
        (record { authorization = session_header token; session = other; cookie = cookie })
      ≡ token
unfolding presented_token
presented_token-session_header token other cookie plain right full =
    rw (native_session_token-session_header token plain right full) (rw full refl)

-- The tables but the sessions are the same.
abbrev pub SameButSessions : Db → Db → Type 0
SameButSessions before after = after ≡ record before { sessions = after.sessions }

-- The token is the one that the request carries: that of its header, or that of its cookie.
abbrev pub Shows : Headers → String → Type 0
Shows h token =
    (is_empty token ≡ false)
    × ((token ≡ trim_space (native_session_token h.authorization)) ⊎ (token ≡ trim_space h.cookie))

-- What `requireSession` may do: let a session in that the database has for the request's token, or
-- refuse with 401; it changes nothing but when a session was last seen.
pub data IsEntry (hash : String → String) (now : ℕ) (db : Db) (h : Headers)
    : Db × Answer Session → Type 0 where
  entered :
      (token : String) (s : Session) (db' : Db)
      → Shows h token
      → session_by_token hash now db token ≡ some s
      → SameButSessions db db'
      → IsEntry hash now db h (db', done s)
  turned_away : IsEntry hash now db h (db, refused 401)

presented_token-Shows :
    (h : Headers)
    → is_empty (trim_space (presented_token h)) ≡ false
    → Shows h (trim_space (presented_token h))
unfolding presented_token
presented_token-Shows h given = (
  given,
  if-cases
      (λ (t : String).
        (trim_space t ≡ trim_space (native_session_token h.authorization))
        ⊎ (trim_space t ≡ trim_space h.cookie))
      (is_empty (native_session_token h.authorization)) h.cookie
      (native_session_token h.authorization) (λ blank. inr refl) (λ full. inl refl),
)

module _ (hash : String → String) where
  require_session_token-IsEntry :
      (now clock : ℕ) (db : Db) (h : Headers) (token : String)
      → Shows h token
      → IsEntry hash now db h (require_session_token hash now clock db token)
  unfolding require_session_token admit_session touch_session
  require_session_token-IsEntry now clock db h token shown =
      go (session_by_token hash now db token) refl
    where
      go :
          (o : Option Session)
          → session_by_token hash now db token ≡ o
          → IsEntry hash now db h (admit_session hash now clock db token o)
      go none e = turned_away
      go (some s) e = entered token s _ shown e (
          if-cases (λ (d : Db). SameButSessions db d) (leb (s.last_seen_at + five_minutes) clock)
            (touch_session hash now db token) db (λ late. refl) (λ soon. refl))

  pub require_session-IsEntry :
      (now clock : ℕ) (db : Db) (h : Headers)
      → IsEntry hash now db h (require_session hash now clock db h)
  unfolding require_session
  require_session-IsEntry now clock db h =
      if-cases (λ (r : Db × Answer Session). IsEntry hash now db h r)
        (is_empty (trim_space (presented_token h))) (db, refused 401)
        (require_session_token hash now clock db (trim_space (presented_token h)))
        (λ blank. turned_away)
        (λ given.
          require_session_token-IsEntry now clock db h (trim_space (presented_token h))
            (presented_token-Shows h given))

  -- A client that sends the token of a session in its header is let in as that session.
  pub require_session-found :
      (now clock : ℕ) (db : Db) (cookie other token : String) (s : Session)
      → trim_space token ≡ token
      → is_empty token ≡ false
      → session_by_token hash now db token ≡ some s
      → (require_session hash now clock db
          (record { authorization = session_header token; session = other; cookie = cookie })).1
        ≡ done s
  unfolding require_session require_session_token admit_session
  require_session-found now clock db cookie other token s plain full found =
      let h : Headers = record {
        authorization = session_header token;
        session = other;
        cookie = cookie;
      } in
      let shown : presented_token h ≡ token =
        presented_token-session_header token other cookie plain (trim_right-plain token plain)
          full in
      rw (shown, plain) (rw full (rw found refl))

  -- A token of no session is turned away.
  pub require_session-absent :
      (now clock : ℕ) (db : Db) (cookie other token : String)
      → trim_space token ≡ token
      → is_empty token ≡ false
      → session_by_token hash now db token ≡ none
      → require_session hash now clock db
          (record { authorization = session_header token; session = other; cookie = cookie })
        ≡ (db, refused 401)
  unfolding require_session require_session_token admit_session
  require_session-absent now clock db cookie other token plain full absent =
      let h : Headers = record {
        authorization = session_header token;
        session = other;
        cookie = cookie;
      } in
      let shown : presented_token h ≡ token =
        presented_token-session_header token other cookie plain (trim_right-plain token plain)
          full in
      rw (shown, plain) (rw full (rw absent refl))
