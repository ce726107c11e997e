-- ===== src/Api/Connect/Leases.antt =====
-- `requestHapiConnection` of internal/api/echoear_handlers.go and the lease that it draws.
use mathlib.Core.Path.{subst}
use echoear_cloud.Base.{
  ℕ, String, Bool, true, false, ◌≡◌, refl, Option, none, some, List, ◌&&◌, ◌||◌, not, arith,
  trim_space, All, if-cases, ℤ, ◌*◌,
}
use echoear_cloud.Api.Identifier.{valid_identifier}
use echoear_cloud.Api.Tunnel.Hub.{
  DiscoveryResult, answered, failed, unsupported, unavailable, cancelled,
}
use echoear_cloud.Database.Rows.{Result, ok, err, Lease, Db, guard-eq_ok, daily_limit_reached}
use echoear_cloud.Database.Users.{is_null, revoke_lease}
use echoear_cloud.Database.Users.Lockout.{update_where_clears}
use echoear_cloud.Database.Access.{
  AgentAccess, has_ticket, resolve_access, create_lease, under_limit, revoke_access_lease,
}
use echoear_cloud.Api.Connect.{
  Envelope, EncryptedBlob, Cloud, Outcome, rejected, replied, queued, abandoned, Conditions,
  valid_envelope, valid_blob, sign_ticket, issue_ticket, give_up, on_answer, on_failure,
  on_discovery, with_ticket, with_access, request_hapi_connection,
}

abbrev pub is_live : String → Lease → Bool
is_live ticket l = has_ticket ticket l && is_null l.revoked_at

-- No lease of the ticket is left that is not revoked.
abbrev pub IsDead : String → Db → Type 0
IsDead ticket db = All (λ l. is_live ticket l ≡ false) db.leases

abbrev pub is_failure : Outcome → Bool
is_failure (rejected code) = true
is_failure (replied blob) = false
is_failure (queued command) = false
is_failure abandoned = true

revoke-IsDead :
    (now : ℕ) (db : Db) (ticket : String)
    → trim_space ticket ≡ ticket
    → IsDead ticket (revoke_access_lease now db ticket)
unfolding revoke_access_lease
revoke-IsDead now db ticket plain = rw plain (
    update_where_clears (λ l. has_ticket ticket l && is_null l.revoked_at) (revoke_lease now)
      db.leases (λ l. ground arith))

resolve_access-leases :
    (now clock : ℕ) (db : Db) (user : ℕ) (id : String)
    → (resolve_access now clock db user id).0.leases ≡ db.leases
unfolding resolve_access
resolve_access-leases now clock db user id = refl

create_lease-ticket :
    (limit_of : String → ℤ) (now clock : ℕ) (ticket : String) (db db' : Db) (user : ℕ)
    (access : AgentAccess) (ttl : ℤ) (request : String) (l : Lease)
    → create_lease limit_of now clock ticket db user access ttl request ≡ ok (db', l)
    → l.ticket_id ≡ ticket
unfolding create_lease
create_lease-ticket limit_of now clock ticket db db' user access ttl request l e =
    let (under, rest) = guard-eq_ok (under_limit limit_of now db access) daily_limit_reached _ e in
    ground arith

-- A ticket that is issued is the one that was drawn; one that is not issued leaves nothing.
sign_ticket-IsDead :
    (c : Conditions) (db : Db) (user : ℕ) (access : AgentAccess) (r : Result (Db × Lease))
    → trim_space c.ticket ≡ c.ticket
    → IsDead c.ticket db
    → ((db' : Db) (l : Lease) → r ≡ ok (db', l) → l.ticket_id ≡ c.ticket)
    → ((sign_ticket c db user access r).1 ≡ none
        → IsDead c.ticket (sign_ticket c db user access r).0)
      × ((l : Lease) → (sign_ticket c db user access r).1 ≡ some l → l.ticket_id ≡ c.ticket)
unfolding sign_ticket
sign_ticket-IsDead c db user access (err e) plain dead drawn = (λ h. dead, λ l h. cc)
sign_ticket-IsDead c db user access (ok (db', lease)) plain dead drawn =
    if-cases
      (λ (r : Db × Option Lease).
        (r.1 ≡ none → IsDead c.ticket r.0) × ((l : Lease) → r.1 ≡ some l → l.ticket_id ≡ c.ticket))
      c.signs _ _ (λ signs. (λ h. cc, λ l h. ground (arith, drawn db' lease refl)))
      (λ fails.
        (λ h. rw (drawn db' lease refl) (revoke-IsDead c.now db' c.ticket plain), λ l h. cc))

module _ (decode : String → Option (List ℕ)) (read_answer : String → Option EncryptedBlob)
    (print_blob : EncryptedBlob → String) (decode_object : String → Option String) where
  on_answer-IsDead :
      (c : Conditions) (l : Lease) (access : AgentAccess) (request : String)
      (answer : Option EncryptedBlob) (s : Cloud)
      → IsDead l.ticket_id (give_up c l s).db
      → let (s', o) =
          on_answer decode read_answer print_blob decode_object c l access request answer s in
        is_failure o ≡ true → IsDead l.ticket_id s'.db
  unfolding on_answer
  on_answer-IsDead c l access request none s gone = λ h. gone
  on_answer-IsDead c l access request (some blob) s gone =
      if-cases (λ (r : Cloud × Outcome). is_failure r.1 ≡ true → IsDead l.ticket_id r.0.db)
        (not (valid_blob decode blob)) _ _ (λ bad h. gone)
        (λ good.
          if-cases (λ (r : Cloud × Outcome). is_failure r.1 ≡ true → IsDead l.ticket_id r.0.db)
            c.saves _ _ (λ saves h. cc) (λ fails h. gone))

  on_failure-IsDead :
      (c : Conditions) (l : Lease) (access : AgentAccess) (request payload : String) (s : Cloud)
      → IsDead l.ticket_id (give_up c l s).db
      → let (s', o) =
          on_failure decode read_answer print_blob decode_object c l access request payload s in
        is_failure o ≡ true → IsDead l.ticket_id s'.db
  unfolding on_failure
  on_failure-IsDead c l access request payload s gone =
      if-cases (λ (r : Cloud × Outcome). is_failure r.1 ≡ true → IsDead l.ticket_id r.0.db) c.queues
        _ _ (λ queues h. cc) (λ fails h. gone)

  on_discovery-IsDead :
      (r : DiscoveryResult) (c : Conditions) (l : Lease) (access : AgentAccess)
      (request payload : String) (s : Cloud)
      → IsDead l.ticket_id (give_up c l s).db
      → let (s', o) =
          on_discovery decode read_answer print_blob decode_object r c l access request payload s in
        is_failure o ≡ true → IsDead l.ticket_id s'.db
  unfolding on_discovery
  on_discovery-IsDead (answered a) c l access request payload s gone =
      on_answer-IsDead c l access request (read_answer a) s gone
  on_discovery-IsDead (failed cancelled) c l access request payload s gone = λ h. gone
  on_discovery-IsDead (failed unsupported) c l access request payload s gone =
      on_failure-IsDead c l access request payload s gone
  on_discovery-IsDead (failed unavailable) c l access request payload s gone =
      on_failure-IsDead c l access request payload s gone

  module _ (limit_of : String → ℤ) (print_request : String → Envelope → Lease → String) where
    with_ticket-IsDead :
        (c : Conditions) (access : AgentAccess) (request : String) (envelope : Envelope) (s : Cloud)
        (t : Db × Option Lease)
        → trim_space c.ticket ≡ c.ticket
        → (t.1 ≡ none → IsDead c.ticket t.0)
        → ((l : Lease) → t.1 ≡ some l → l.ticket_id ≡ c.ticket)
        → let (s', o) =
            with_ticket decode read_answer print_blob decode_object limit_of print_request c access
              request envelope s t in
          is_failure o ≡ true → IsDead c.ticket s'.db
    unfolding with_ticket
    with_ticket-IsDead c access request envelope s (db, none) plain dead drawn h = dead refl
    with_ticket-IsDead c access request envelope s (db, some l) plain dead drawn h =
        let ticket : l.ticket_id ≡ c.ticket = drawn l refl in
        let gone : IsDead l.ticket_id (give_up c l (record s { db = db })).db =
          revoke-IsDead c.now db l.ticket_id (rw ticket plain) in
        subst
          (λ t.
            IsDead t
              (on_discovery decode read_answer print_blob decode_object c.discovery c l access
                request (print_request request envelope l) (record s { db = db })).0.db)
          ticket
          (on_discovery-IsDead c.discovery c l access request (print_request request envelope l)
            (record s { db = db }) gone h)

    with_access-IsDead :
        (c : Conditions) (user : ℕ) (request : String) (envelope : Envelope) (s : Cloud)
        (f : Db × Option AgentAccess)
        → trim_space c.ticket ≡ c.ticket
        → IsDead c.ticket f.0
        → let (s', o) =
            with_access decode read_answer print_blob decode_object limit_of print_request c user
              request envelope s f in
          is_failure o ≡ true → IsDead c.ticket s'.db
    unfolding with_access issue_ticket
    with_access-IsDead c user request envelope s (db, none) plain dead = λ h. dead
    with_access-IsDead c user request envelope s (db, some access) plain dead =
        let P : Cloud × Outcome → Type 0 = λ r. is_failure r.1 ≡ true → IsDead c.ticket r.0.db in
        let r =
          create_lease limit_of c.now c.clock c.ticket db user access (ℤ.pos (5 * 60 * 1000000))
            request in
        let issued = sign_ticket-IsDead c db user access r plain dead (λ db' l e.
          create_lease-ticket limit_of c.now c.clock c.ticket db db' user access
            (ℤ.pos (5 * 60 * 1000000)) request l e) in
        if-cases P (not access.online) _ _ (λ off h. dead)
          (λ on.
            if-cases P (not (valid_envelope decode envelope access.agent request)) _ _
              (λ bad h. dead)
              (λ good.
                with_ticket-IsDead c access request envelope s (sign_ticket c db user access r)
                  plain issued.0 issued.1))

    -- A request for a connection that draws a fresh ticket and does not end in an answer or in the queue
    -- leaves no lease of that ticket that is not revoked, wherever it fails.
    pub request_hapi_connection_failure_revokes :
        (c : Conditions) (user : ℕ) (agent request : String) (envelope : Envelope) (s : Cloud)
        → trim_space c.ticket ≡ c.ticket
        → IsDead c.ticket s.db
        → is_failure
            (request_hapi_connection decode read_answer print_blob decode_object limit_of
              print_request c user agent request envelope s).1
          ≡ true
        → IsDead c.ticket
            (request_hapi_connection decode read_answer print_blob decode_object limit_of
              print_request c user agent request envelope s).0.db
    unfolding request_hapi_connection
    request_hapi_connection_failure_revokes c user agent request envelope s plain dead =
        if-cases (λ (r : Cloud × Outcome). is_failure r.1 ≡ true → IsDead c.ticket r.0.db)
          (not (valid_identifier (trim_space agent) 1 128) || not (valid_identifier request 8 128))
          _ _ (λ bad h. dead)
          (λ good.
            with_access-IsDead c user request envelope s
              (resolve_access c.now c.clock s.db user (trim_space agent)) plain
              (rw (resolve_access-leases c.now c.clock s.db user (trim_space agent)) dead))
