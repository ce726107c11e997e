-- ===== src/Api/Shares/Tickets.antt =====
-- The access tickets and the usage of shares: `accessTicketClaims` and `makeTicketClaims` of
-- internal/api/access_ticket.go, `createAccessTicket` and `recordAgentAccessUsage` of
-- internal/api/admin_share_handlers.go. `limit_of` is that of Database.Access.
use echoear_cloud.Base.{
  ℕ, String, Bool, false, Option, none, some, ◌/◌, ◌&&◌, not, if◌then◌else◌, ◌==◌, leb, str_eq,
  trim_space, ℤ, is_negative, pos_part,
}
use echoear_cloud.Database.Rows.{
  Error, no_rows, share_daily_limit, Result, ok, err, Lease, UsageDay, Db,
}
use echoear_cloud.Database.Access.{AgentAccess, resolve_access}
use echoear_cloud.Database.Usage.{Report, record_share_usage}
use echoear_cloud.Api.Http.{Answer, refused, done}
use echoear_cloud.Api.Identifier.{valid_identifier}
use echoear_cloud.Api.Connect.{Conditions, issue_ticket}

-- `accessTicketClaims`, which `makeTicketClaims` fills from the lease and the access.
pub record TicketClaims : Type 0 where
  pub version : ℕ
  pub ticket_id : String
  pub request_id : String
  pub subject_user_id : ℕ
  pub owner_user_id : ℕ
  pub agent_id : String
  pub agent_public_id : String
  pub share_id : String
  pub policy_version : ℕ
  pub namespace : String
  pub owner : Bool
  pub policy : String
  pub issued_at : ℕ
  pub expires_at : ℕ

abbrev pub is_owner : AgentAccess → Bool
is_owner access = str_eq access.access_type "owner"

unfoldable pub make_ticket_claims : ℕ → ℕ → AgentAccess → String → Lease → TicketClaims
make_ticket_claims clock user access request l = record {
  version = 1;
  ticket_id = l.ticket_id;
  request_id = request;
  subject_user_id = user;
  owner_user_id = access.agent.user_id;
  agent_id = access.agent.agent_id;
  agent_public_id = access.agent.public_id;
  share_id = access.share_id;
  policy_version = access.policy_version;
  namespace = l.namespace;
  owner = is_owner access;
  policy = if is_owner access then "{\"owner\":true}" else access.policy;
  issued_at = clock / 1000000;
  expires_at = l.expires_at / 1000000;
}

unfoldable pub with_lease :
    Conditions → ℕ → AgentAccess → String → Db × Option Lease → Db × Answer TicketClaims
unfolding make_ticket_claims
with_lease c user access request (db, none) = (db, refused 429)
with_lease c user access request (db, some l) =
    (db, done (make_ticket_claims c.clock user access request l))

abbrev pub usage_status : Error → ℕ
usage_status share_daily_limit = 429
usage_status no_rows = 403
usage_status _ = 500

abbrev pub after_usage : Db → Result (Db × UsageDay) → Db × Answer UsageDay
after_usage db (ok (db', day)) = (db', done day)
after_usage db (err e) = (db, refused (usage_status e))

-- `request.TasksCreated < 0 || … > 1`, the bytes below 0, or nothing to report at all.
abbrev pub is_zero : ℤ → Bool
is_zero (ℤ.pos n) = n == 0
is_zero (ℤ.negsuc n) = false

abbrev pub is_report : Report → Bool
is_report r =
    valid_identifier r.request_id 8 128
    && valid_identifier r.event_id 8 128
    && not (is_negative r.tasks_created)
    && leb (pos_part r.tasks_created) 1
    && not (is_negative r.bytes_uploaded)
    && not (is_negative r.bytes_downloaded)
    && not (is_zero r.tasks_created && is_zero r.bytes_uploaded && is_zero r.bytes_downloaded)

module _ (limit_of : String → ℤ) where
  unfoldable pub ticket_for :
      Conditions → ℕ → String → Db × Option AgentAccess → Db × Answer TicketClaims
  unfolding with_lease issue_ticket
  ticket_for c user request (db, none) = (db, refused 404)
  ticket_for c user request (db, some access) =
      with_lease c user access request (issue_ticket limit_of c db user access request)

  -- The body's request id, empty where there is no body.
  unfoldable pub create_access_ticket :
      Conditions → Db → ℕ → String → Option String → Db × Answer TicketClaims
  unfolding ticket_for resolve_access valid_identifier
  create_access_ticket c db user agent none = (db, refused 400)
  create_access_ticket c db user agent (some request) =
      if not (valid_identifier (trim_space request) 8 128)
      then (db, refused 400)
      else ticket_for c user (trim_space request) (resolve_access c.now c.clock db user agent)

  unfoldable pub record_agent_access_usage : ℕ → ℕ → Db → Option Report → Db × Answer UsageDay
  unfolding record_share_usage valid_identifier
  record_agent_access_usage now clock db none = (db, refused 400)
  record_agent_access_usage now clock db (some r) =
      if is_report r
      then after_usage db (record_share_usage limit_of now clock db r)
      else (db, refused 400)
