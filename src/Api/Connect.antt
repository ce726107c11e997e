-- ===== src/Api/Connect.antt =====
-- internal/api/echoear_handlers.go: `requestHapiConnection` with `validateEnvelope` and
-- `validateEncryptedBlob`, and internal/api/admin_share_handlers.go: `issueAccessTicket`. The JSON of
-- the request has been read. What the hub's `requestDiscovery` returned is an argument, as are the
-- failures of the two statements that end the handler.
pub mod Leases
mod Tests
use Prim.Native.String
use echoear_cloud.Base.{
  ℕ, String, len, Bool, true, false, Option, none, some, List, [], ◌∷◌, ◌++◌, ◌*◌, ◌&&◌, ◌||◌, not,
  if◌then◌else◌, ◌==◌, leb, str_eq, trim_space, is_empty, length, ℤ,
}
use echoear_cloud.Api.Identifier.{valid_identifier}
use echoear_cloud.Api.Tunnel.Hub.{
  DiscoveryResult, answered, failed, unsupported, unavailable, cancelled,
}
use echoear_cloud.Database.Rows.{Result, ok, err, Agent, Lease, Audit, Db}
use echoear_cloud.Database.Access.{AgentAccess, resolve_access, create_lease, revoke_access_lease}
use echoear_cloud.Database.Mailbox.{Command, Response, enqueue, save_response}

pub record Envelope : Type 0 where
  pub version : ℕ
  pub operation : String
  pub request_id : String
  pub algorithm : String
  pub key_id : String
  pub encrypted_key : String
  pub nonce : String
  pub ciphertext : String
  pub aad : String

pub record EncryptedBlob : Type 0 where
  pub version : ℕ
  pub nonce : String
  pub ciphertext : String
  pub aad : String

-- The tables that the handler writes.
pub record Cloud : Type 0 where
  pub db : Db
  pub commands : List Command
  pub responses : List Response

-- A status of HTTP with `fail`, an answer of the agent, a request in the queue, or nothing.
pub data Outcome : Type 0 where
  rejected : ℕ → Outcome
  replied : EncryptedBlob → Outcome
  queued : Command → Outcome
  abandoned : Outcome

abbrev pub hapi_algorithm : String
hapi_algorithm = "RSA-OAEP-256+A256GCM"

abbrev pub hapi_ciphertext_max : ℕ
hapi_ciphertext_max = 16 * 1024

-- `decode` is base64.StdEncoding: the bytes, or `none`.
module _ (decode : String → Option (List ℕ)) where
  abbrev pub has_length : ℕ → ℕ → String → Bool
  has_length low high text = elim (decode text) [
    | none ↦ false
    | some bytes ↦ leb low (length bytes) && leb (length bytes) high
  ]

  abbrev pub wanted_aad : String → String → String → String
  wanted_aad agent request key = String.◌++◌ "echoear-control-v2|" (
      String.◌++◌ agent
        (String.◌++◌ "|hapi_connection||" (String.◌++◌ request (String.◌++◌ "|" key))))

  unfoldable pub valid_envelope : Envelope → Agent → String → Bool
  valid_envelope e agent request =
      e.version == 2
      && str_eq e.operation "hapi_connection"
      && str_eq e.algorithm hapi_algorithm
      && str_eq e.request_id request
      && not (is_empty e.key_id)
      && str_eq e.key_id agent.key_id
      && str_eq agent.key_algorithm hapi_algorithm
      && not (is_empty agent.public_key)
      && str_eq e.aad (wanted_aad agent.agent_id request e.key_id)
      && leb 32 (len e.encrypted_key)
      && leb (len e.encrypted_key) 2048
      && has_length 12 12 e.nonce
      && has_length 17 hapi_ciphertext_max e.ciphertext

  unfoldable pub valid_blob : EncryptedBlob → Bool
  valid_blob b =
      b.version == 1
      && not (is_empty b.aad)
      && has_length 12 12 b.nonce
      && has_length 17 hapi_ciphertext_max b.ciphertext

-- What the runtime decides for one call: the client's address and agent, as gin reads them, the clocks, the UUID of the ticket, the next id of the
-- queue, whether signing, saving and queueing succeed, and what the hub answered.
pub record Conditions : Type 0 where
  pub ip : String
  pub user_agent : String
  pub now : ℕ
  pub clock : ℕ
  pub ticket : String
  pub command_id : ℕ
  pub signs : Bool
  pub saves : Bool
  pub queues : Bool
  pub discovery : DiscoveryResult

ticket_audit : String → String → ℕ → ℕ → AgentAccess → Audit
ticket_audit ip user_agent now actor access = record {
  actor_user_id = some actor;
  action = "agent.ticket.issue";
  target_type = "agent";
  target_id = access.agent.public_id;
  owner_user_id = some access.agent.user_id;
  grantee_user_id = none;
  agent_id = some access.agent.id;
  share_id = if is_empty access.share_id then none else some access.share_id;
  outcome = "success";
  reason = "";
  details = "{}";
  ip_address = ip;
  user_agent = user_agent;
  created_at = now;
}

-- `issueAccessTicket`: a lease of five minutes; if the ticket cannot be signed, it is revoked.
unfoldable pub sign_ticket :
    Conditions → Db → ℕ → AgentAccess → Result (Db × Lease) → Db × Option Lease
unfolding ticket_audit revoke_access_lease
sign_ticket c db user access (err e) = (db, none)
sign_ticket c db user access (ok (db', lease)) =
    if c.signs
    then (
      record db' { audit = db'.audit ++ ticket_audit c.ip c.user_agent c.now user access ∷ [] },
      some lease,
    )
    else (revoke_access_lease c.now db' lease.ticket_id, none)

unfoldable pub issue_ticket :
    (String → ℤ) → Conditions → Db → ℕ → AgentAccess → String → Db × Option Lease
unfolding sign_ticket create_lease
issue_ticket limit_of c db user access request =
    sign_ticket c db user access (
      create_lease limit_of c.now c.clock c.ticket db user access (ℤ.pos (5 * 60 * 1000000))
        request)

abbrev pub give_up : Conditions → Lease → Cloud → Cloud
give_up c lease s = record s { db = revoke_access_lease c.now s.db lease.ticket_id }

-- `read_answer` is `json.Unmarshal` of the agent's payload with its `error`, if that is not blank;
-- `print_blob` and `print_request` are `json.Marshal`.
module _ (decode : String → Option (List ℕ)) (read_answer : String → Option EncryptedBlob)
    (print_blob : EncryptedBlob → String) (decode_object : String → Option String) where
  unfoldable pub on_answer :
      Conditions → Lease → AgentAccess → String → Option EncryptedBlob → Cloud → Cloud × Outcome
  unfolding valid_blob save_response revoke_access_lease
  on_answer c lease access request none s = (give_up c lease s, rejected 503)
  on_answer c lease access request (some blob) s =
      if not (valid_blob decode blob)
      then (give_up c lease s, rejected 502)
      else if c.saves
      then (
        record s {
          responses =
              save_response c.now s.responses access.agent.user_id access.agent.agent_id request
                (print_blob blob);
        },
        replied blob,
      )
      else (give_up c lease s, rejected 500)

  unfoldable pub on_failure :
      Conditions → Lease → AgentAccess → String → String → Cloud → Cloud × Outcome
  unfolding enqueue revoke_access_lease
  on_failure c lease access request payload s =
      let (commands, command) =
        enqueue decode_object c.now c.command_id s.commands access.agent.user_id
          access.agent.agent_id request payload in
      if c.queues
      then (record s { commands = commands }, queued command)
      else (give_up c lease s, rejected 500)

  unfoldable pub on_discovery :
      DiscoveryResult → Conditions → Lease → AgentAccess → String → String → Cloud → Cloud × Outcome
  unfolding on_answer on_failure
  on_discovery (answered answer) c lease access request payload s =
      on_answer c lease access request (read_answer answer) s
  on_discovery (failed cancelled) c lease access request payload s = (give_up c lease s, abandoned)
  on_discovery (failed unsupported) c lease access request payload s =
      on_failure c lease access request payload s
  on_discovery (failed unavailable) c lease access request payload s =
      on_failure c lease access request payload s

  module _ (limit_of : String → ℤ) (print_request : String → Envelope → Lease → String) where
    unfoldable pub with_ticket :
        Conditions → AgentAccess → String → Envelope → Cloud → Db × Option Lease → Cloud × Outcome
    unfolding on_discovery
    with_ticket c access request envelope s (db, none) = (record s { db = db }, rejected 429)
    with_ticket c access request envelope s (db, some lease) =
        on_discovery c.discovery c lease access request (print_request request envelope lease)
          (record s { db = db })

    unfoldable pub with_access :
        Conditions → ℕ → String → Envelope → Cloud → Db × Option AgentAccess → Cloud × Outcome
    unfolding with_ticket issue_ticket valid_envelope
    with_access c user request envelope s (db, none) = (record s { db = db }, rejected 404)
    with_access c user request envelope s (db, some access) =
        if not access.online
        then (record s { db = db }, rejected 409)
        else if not (valid_envelope decode envelope access.agent request)
        then (record s { db = db }, rejected 400)
        else with_ticket c access request envelope s
            (issue_ticket limit_of c db user access request)

    unfoldable pub request_hapi_connection :
        Conditions → ℕ → String → String → Envelope → Cloud → Cloud × Outcome
    unfolding with_access resolve_access
    request_hapi_connection c user agent request envelope s =
        if not (valid_identifier (trim_space agent) 1 128) || not (valid_identifier request 8 128)
        then (s, rejected 400)
        else with_access c user request envelope s
            (resolve_access c.now c.clock s.db user (trim_space agent))
