-- ===== src/Database/Usage/Tests.antt =====
-- The theorems on usage at a small database.
use echoear_cloud.Base.{
  inr, String, ◌≡◌, ◌≢◌, ◌≤◌, ◌/◌, refl, none, some, [], ◌∷◌, arith, trim_space, ℤ,
}
use echoear_cloud.Database.Rows.{ok, Agent, Share, Lease, UsageDay, UsageEvent, Db}
use echoear_cloud.Database.Access.{day, tasks_used}
use echoear_cloud.Database.Usage.{Report, record_share_usage, leased_share}
use echoear_cloud.Database.Usage.Ledger.{Balanced, record_share_usage-Balanced}
use echoear_cloud.Database.Usage.Limit.{record_share_usage_limit, record_share_usage_twice}

abbrev shared : Share
shared = record {
  id = "s1";
  agent_id = 7;
  owner_user_id = 1;
  grantee_user_id = 2;
  status = "active";
  valid_from = 10;
  valid_until = none;
  policy = "two a day";
  policy_version = 1;
  accepted_at = some 20;
  accepted_by = some 2;
  declined_at = none;
  revoked_at = none;
  revoked_by = none;
  revoke_reason = "";
  created_by = 1;
  created_at = 10;
  updated_at = 20;
}

abbrev helper : Agent
helper = record {
  id = 7;
  user_id = 1;
  agent_id = "mac-agent";
  host_name = "";
  platform = "";
  app_version = "";
  preferred_device_uid = none;
  last_seen_at = none;
  lan_base_url = "";
  public_key = "";
  public_id = "u7";
  key_id = "";
  key_algorithm = "";
  capabilities = "{}";
  created_at = 0;
  updated_at = 0;
}

abbrev lease : Lease
lease = record {
  ticket_id = "t1";
  agent_id = 7;
  subject_user_id = 2;
  owner_user_id = 1;
  share_id = some "s1";
  policy_version = 1;
  namespace = "share-s1";
  issued_at = 30;
  expires_at = 900;
  revoked_at = none;
  request_id = "request1";
}

abbrev start : Db
start = record {
  users = [];
  sessions = [];
  agents = helper ∷ [];
  shares = shared ∷ [];
  leases = lease ∷ [];
  audit = [];
  usage_days = [];
  usage_events = [];
}

abbrev two_a_day : String → ℤ
two_a_day policy = ℤ.pos 2

abbrev report : Report
report = record {
  owner = 1;
  agent_id = "mac-agent";
  request_id = "request1";
  event_id = "event-01";
  tasks_created = ℤ.pos 1;
  bytes_uploaded = ℤ.pos 5;
  bytes_downloaded = ℤ.pos 0;
}

abbrev first_day : UsageDay
first_day = record {
  share_id = "s1";
  usage_date = 0;
  tasks_created = 1;
  bytes_uploaded = 5;
  bytes_downloaded = 0;
}

abbrev first_event : UsageEvent
first_event = record {
  share_id = "s1";
  event_id = "event-01";
  usage_date = 0;
  tasks_created = 1;
  bytes_uploaded = 5;
  bytes_downloaded = 0;
}

abbrev reported : Db
reported = record start { usage_days = first_day ∷ []; usage_events = first_event ∷ [] }

reports : record_share_usage two_a_day 40 40 start report ≡ ok (reported, first_day)
unfolding record_share_usage trim_space
reports = refl

leased : leased_share 40 start report ≡ some shared
unfolding leased_share trim_space
leased = refl

record_share_usage-Balanced_example : Balanced reported
record_share_usage-Balanced_example =
    record_share_usage-Balanced two_a_day 40 40 start reported report first_day
      (record { tasks = λ s d. refl; uploads = λ s d. refl; downloads = λ s d. refl }) reports

next_day : 1 ≢ 40 / day
next_day = ground arith

record_share_usage_limit_example :
    (tasks_used reported.usage_days "s1" (40 / day) ≤ 2)
    × (tasks_used reported.usage_days "s1" 1 ≡ tasks_used start.usage_days "s1" 1)
record_share_usage_limit_example =
    record_share_usage_limit two_a_day 40 40 2 start reported report first_day shared "s1" 1 leased
      refl (omega arith) (omega arith) reports (inr next_day)

same_lease : leased_share 50 reported report ≡ leased_share 40 start report
unfolding leased_share trim_space
same_lease = refl

record_share_usage_twice_example :
    record_share_usage two_a_day 50 60 reported report ≡ ok (reported, first_day)
record_share_usage_twice_example =
    record_share_usage_twice two_a_day 40 40 50 60 start reported report first_day reports
      same_lease refl
