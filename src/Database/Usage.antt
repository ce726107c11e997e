-- ===== src/Database/Usage.antt =====
-- internal/database/access_repository.go: `RecordShareUsage`. The tables of usage are those of
-- migrations/004_user_management_agent_sharing.sql: `tasks_created` of a day is an INTEGER, its bytes
-- are BIGINTs, and a sum that leaves the type is an error of the database.
pub mod Ledger
pub mod Limit
mod Tests
use echoear_cloud.Base.{
  ℕ, String, len, Bool, true, false, Option, none, some, List, [], ◌∷◌, ◌++◌, ◌+◌, ◌-◌, ◌/◌, ◌^◌,
  ◌&&◌, ◌||◌, not, if◌then◌else◌, ◌==◌, leb, ltb, find, select, any, str_eq, trim_space, is_empty,
  ℤ, pos_part, is_positive, is_negative,
}
use echoear_cloud.Database.Rows.{
  invalid_share_usage, no_rows, share_daily_limit, out_of_range, Result, ok, ◌>>=◌, ◌>>◌, guard,
  or_fail, Agent, Share, Lease, UsageDay, UsageEvent, Db, update_where,
}
use echoear_cloud.Database.Shares.{has_share_id}
use echoear_cloud.Database.Access.{day, usage_of, tasks_used}

-- The arguments of a call.
pub record Report : Type 0 where
  pub owner : ℕ
  pub agent_id : String
  pub request_id : String
  pub event_id : String
  pub tasks_created : ℤ
  pub bytes_uploaded : ℤ
  pub bytes_downloaded : ℤ

abbrev pub is_valid_report : Report → Bool
is_valid_report r =
    not (is_empty (trim_space r.request_id))
    && not (is_empty (trim_space r.event_id))
    && leb (len (trim_space r.event_id)) 128
    && not (is_negative r.tasks_created)
    && leb (pos_part r.tasks_created) 1
    && not (is_negative r.bytes_uploaded)
    && not (is_negative r.bytes_downloaded)

-- The leases of the join: of the request and the owner, not older than a day.
abbrev pub reported_lease : ℕ → Db → Report → Lease → Bool
reported_lease now db r l =
    str_eq l.request_id (trim_space r.request_id)
    && l.owner_user_id == r.owner
    && any (λ a. a.id == l.agent_id && str_eq a.agent_id (trim_space r.agent_id)) db.agents
    && ltb now (l.issued_at + day)

share_of_lease : List Share → Lease → Option Share
share_of_lease shares l = elim l.share_id [ none ↦ none | some id ↦ find (has_share_id id) shares ]

-- The later of two candidates; of one time, the first.
newer : Option (Lease × Share) → Option (Lease × Share) → Option (Lease × Share)
newer none b = b
newer (some a) none = some a
newer (some a) (some b) = if ltb a.0.issued_at b.0.issued_at then some b else some a

-- `ORDER BY l.issued_at DESC LIMIT 1`.
newest : List Share → (Lease → Bool) → List Lease → Option (Lease × Share)
unfolding newer share_of_lease
newest shares p [] = none
newest shares p (l ∷ ls) =
    let rest = newest shares p ls in
    if p l
    then newer (elim (share_of_lease shares l) [ none ↦ none | some s ↦ some (l, s) ]) rest
    else rest

unfoldable pub leased_share : ℕ → Db → Report → Option Share
unfolding newest
leased_share now db r = elim (newest db.shares (reported_lease now db r) db.leases) [
  | none ↦ none
  | some (l, s) ↦ some s
]

abbrev pub event_of : String → String → UsageEvent → Bool
event_of share event e = str_eq e.share_id share && str_eq e.event_id event

abbrev pub new_event : String → ℕ → Report → UsageEvent
new_event share date r = record {
  share_id = share;
  event_id = trim_space r.event_id;
  usage_date = date;
  tasks_created = pos_part r.tasks_created;
  bytes_uploaded = pos_part r.bytes_uploaded;
  bytes_downloaded = pos_part r.bytes_downloaded;
}

abbrev pub no_usage : String → ℕ → UsageDay
no_usage share date = record {
  share_id = share;
  usage_date = date;
  tasks_created = 0;
  bytes_uploaded = 0;
  bytes_downloaded = 0;
}

abbrev pub add_event : UsageEvent → UsageDay → UsageDay
add_event e d = record d {
  tasks_created = d.tasks_created + e.tasks_created;
  bytes_uploaded = d.bytes_uploaded + e.bytes_uploaded;
  bytes_downloaded = d.bytes_downloaded + e.bytes_downloaded;
}

abbrev pub fits : UsageDay → Bool
fits d =
    ltb d.tasks_created (2 ^ 31) && ltb d.bytes_uploaded (2 ^ 63) && ltb d.bytes_downloaded (2 ^ 63)

-- The row of a day, all zero where there is none.
abbrev pub usage_on : List UsageDay → String → ℕ → UsageDay
usage_on days share date = elim (find (usage_of share date) days) [
  | none ↦ no_usage share date
  | some d ↦ d
]

-- `INSERT … ON CONFLICT(share_id,usage_date) DO UPDATE`: the first row of a day is the event itself.
unfoldable pub add_to_day : UsageEvent → List UsageDay → List UsageDay
add_to_day e [] = add_event e (no_usage e.share_id e.usage_date) ∷ []
add_to_day e (d ∷ ds) =
    let rest = add_to_day e ds in
    if usage_of e.share_id e.usage_date d then add_event e d ∷ ds else d ∷ rest

unfoldable pub store_event : UsageEvent → Db → Result Db
unfolding add_to_day
store_event e db = do
  guard (fits (add_event e (usage_on db.usage_days e.share_id e.usage_date))) out_of_range
  ok (record db {
    usage_days = add_to_day e db.usage_days;
    usage_events = db.usage_events ++ e ∷ [];
  })

-- `limit_of` reads `max_tasks_per_day` of a policy; 0 where it is missing or is no JSON object.
module _ (limit_of : String → ℤ) where
  unfoldable pub within_limit : List UsageDay → ℕ → Report → Share → Bool
  within_limit days date r s =
      not (is_positive r.tasks_created)
      || not (is_positive (limit_of s.policy))
      || leb (tasks_used days s.id date + pos_part r.tasks_created) (pos_part (limit_of s.policy))

  -- `now` is the database's clock, for the age of the lease, and `clock` the service's, for the date.
  unfoldable pub record_event : ℕ → Db → Report → Share → Result Db
  unfolding within_limit store_event
  record_event date db r s = elim (any (event_of s.id (trim_space r.event_id)) db.usage_events) [
    | true ↦ ok db
    | false ↦ do
      guard (within_limit db.usage_days date r s) share_daily_limit
      store_event (new_event s.id date r) db
  ]

  unfoldable pub record_share_usage : ℕ → ℕ → Db → Report → Result (Db × UsageDay)
  unfolding record_event leased_share
  record_share_usage now clock db r = do
    guard (is_valid_report r) invalid_share_usage
    s ← or_fail (leased_share now db r) no_rows
    db' ← record_event (clock / day) db r s
    ok (db', usage_on db'.usage_days s.id (clock / day))
