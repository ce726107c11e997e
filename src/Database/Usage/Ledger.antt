-- ===== src/Database/Usage/Ledger.antt =====
-- The days of usage and the events they sum: `RecordShareUsage` of
-- internal/database/access_repository.go.
use mathlib.Core.Path.{subst}
use echoear_cloud.Base.{
  ℕ, String, Bool, true, false, ◌≡◌, some, List, [], ◌∷◌, ◌++◌, ◌+◌, ◌/◌, ◌&&◌, if◌then◌else◌, ◌==◌,
  arith, any, str_eq, eq_iff, trim_space, ℤ, ◌⊎◌, inl, inr, Bool-cases,
}
use echoear_cloud.Database.Rows.{
  ok, no_rows, invalid_share_usage, out_of_range, share_daily_limit, Share, UsageDay, UsageEvent,
  Db, bind-eq_ok, guard-eq_ok, or_fail-eq_ok,
}
use echoear_cloud.Database.Access.{day}
use echoear_cloud.Database.Usage.{
  Report, event_of, new_event, add_event, fits, usage_on, add_to_day, store_event, within_limit,
  record_event, record_share_usage, leased_share, is_valid_report,
}

abbrev pub counts_for : String → ℕ → UsageEvent → Bool
counts_for share date e = str_eq e.share_id share && e.usage_date == date

-- The sum of a column over the events of a share on a day.
abbrev pub total : (UsageEvent → ℕ) → String → ℕ → List UsageEvent → ℕ
total column share date [] = 0
total column share date (e ∷ es) =
    (if counts_for share date e then column e else 0) + total column share date es

total-append :
    (column : UsageEvent → ℕ) (share : String) (date : ℕ) (es : List UsageEvent) (e : UsageEvent)
    → total column share date (es ++ e ∷ [])
      ≡ total column share date es + (if counts_for share date e then column e else 0)
total-append column share date [] e = omega arith
total-append column share date (x ∷ es) e = omega (arith, total-append column share date es e)

-- Every day's row has the sums of that day's events.
pub record Balanced (db : Db) : Type 0 where
  pub tasks :
      (share : String) (date : ℕ)
      → (usage_on db.usage_days share date).tasks_created
        ≡ total (λ e. e.tasks_created) share date db.usage_events
  pub uploads :
      (share : String) (date : ℕ)
      → (usage_on db.usage_days share date).bytes_uploaded
        ≡ total (λ e. e.bytes_uploaded) share date db.usage_events
  pub downloads :
      (share : String) (date : ℕ)
      → (usage_on db.usage_days share date).bytes_downloaded
        ≡ total (λ e. e.bytes_downloaded) share date db.usage_events

pub add_to_day-tasks :
    (e : UsageEvent) (days : List UsageDay) (share : String) (date : ℕ)
    → (usage_on (add_to_day e days) share date).tasks_created
      ≡ (usage_on days share date).tasks_created
        + (if counts_for share date e then e.tasks_created else 0)
unfolding add_to_day
add_to_day-tasks e [] share date = ground arith
add_to_day-tasks e (d ∷ ds) share date = ground (
  arith,
  add_to_day-tasks e ds share date,
  eq_iff d.share_id share,
  eq_iff e.share_id share,
  eq_iff d.share_id e.share_id,
)

add_to_day-uploads :
    (e : UsageEvent) (days : List UsageDay) (share : String) (date : ℕ)
    → (usage_on (add_to_day e days) share date).bytes_uploaded
      ≡ (usage_on days share date).bytes_uploaded
        + (if counts_for share date e then e.bytes_uploaded else 0)
unfolding add_to_day
add_to_day-uploads e [] share date = ground arith
add_to_day-uploads e (d ∷ ds) share date = ground (
  arith,
  add_to_day-uploads e ds share date,
  eq_iff d.share_id share,
  eq_iff e.share_id share,
  eq_iff d.share_id e.share_id,
)

add_to_day-downloads :
    (e : UsageEvent) (days : List UsageDay) (share : String) (date : ℕ)
    → (usage_on (add_to_day e days) share date).bytes_downloaded
      ≡ (usage_on days share date).bytes_downloaded
        + (if counts_for share date e then e.bytes_downloaded else 0)
unfolding add_to_day
add_to_day-downloads e [] share date = ground arith
add_to_day-downloads e (d ∷ ds) share date = ground (
  arith,
  add_to_day-downloads e ds share date,
  eq_iff d.share_id share,
  eq_iff e.share_id share,
  eq_iff d.share_id e.share_id,
)

-- What a call that succeeds has gone through.
pub record Recorded (limit_of : String → ℤ) (now clock : ℕ) (db db' : Db) (r : Report)
    (u : UsageDay) : Type 0 where
  pub share : Share
  pub leased : leased_share now db r ≡ some share
  pub valid : is_valid_report r ≡ true
  pub event : record_event limit_of (clock / day) db r share ≡ ok db'
  pub answer : u ≡ usage_on db'.usage_days share.id (clock / day)

pub record_share_usage-Recorded :
    (limit_of : String → ℤ) (now clock : ℕ) (db db' : Db) (r : Report) (u : UsageDay)
    → record_share_usage limit_of now clock db r ≡ ok (db', u)
    → Recorded limit_of now clock db db' r u
unfolding record_share_usage
record_share_usage-Recorded limit_of now clock db db' r u e =
    let (valid, rest) = guard-eq_ok (is_valid_report r) invalid_share_usage _ e in
    let (s, leased, rest') = or_fail-eq_ok (leased_share now db r) no_rows _ rest in
    let (written, event, end) = bind-eq_ok (record_event limit_of (clock / day) db r s) _ rest' in
    let same : written ≡ db' = ground arith in
    record {
      share = s;
      leased = leased;
      valid = valid;
      event = subst (λ d. record_event limit_of (clock / day) db r s ≡ ok d) same event;
      answer = ground arith;
    }

-- The two outcomes of a call for a share that was found.
pub record_event-cases :
    (limit_of : String → ℤ) (date : ℕ) (db db' : Db) (r : Report) (s : Share)
    → record_event limit_of date db r s ≡ ok db'
    → ((any (event_of s.id (trim_space r.event_id)) db.usage_events ≡ true) × (db ≡ db'))
      ⊎ ((any (event_of s.id (trim_space r.event_id)) db.usage_events ≡ false)
          × (within_limit limit_of db.usage_days date r s ≡ true)
          × (store_event (new_event s.id date r) db ≡ ok db'))
unfolding record_event
record_event-cases limit_of date db db' r s e =
    go (Bool-cases (any (event_of s.id (trim_space r.event_id)) db.usage_events))
  where
    go :
        (any (event_of s.id (trim_space r.event_id)) db.usage_events ≡ true)
          ⊎ (any (event_of s.id (trim_space r.event_id)) db.usage_events ≡ false)
        → ((any (event_of s.id (trim_space r.event_id)) db.usage_events ≡ true) × (db ≡ db'))
          ⊎ ((any (event_of s.id (trim_space r.event_id)) db.usage_events ≡ false)
              × (within_limit limit_of db.usage_days date r s ≡ true)
              × (store_event (new_event s.id date r) db ≡ ok db'))
    go (inl old) = inl (old, ground arith)
    go (inr fresh) =
        let (under, stored) =
          guard-eq_ok (within_limit limit_of db.usage_days date r s) share_daily_limit _
            (rw (fresh, record_event) at e) in
        inr (fresh, under, stored)

store_event-Balanced :
    (e : UsageEvent) (db db' : Db) → Balanced db → store_event e db ≡ ok db' → Balanced db'
unfolding store_event
store_event-Balanced e db db' b h =
    let (fit, stored) =
      guard-eq_ok (fits (add_event e (usage_on db.usage_days e.share_id e.usage_date))) out_of_range
        _ h in
    let days : db'.usage_days ≡ add_to_day e db.usage_days = ground arith in
    let events : db'.usage_events ≡ db.usage_events ++ e ∷ [] = ground arith in
    record {
      tasks = λ share date.
          rw (days, events)
            (omega (
              arith,
              add_to_day-tasks e db.usage_days share date,
              total-append (λ x. x.tasks_created) share date db.usage_events e,
              b.tasks share date,
            ));
      uploads = λ share date.
          rw (days, events)
            (omega (
              arith,
              add_to_day-uploads e db.usage_days share date,
              total-append (λ x. x.bytes_uploaded) share date db.usage_events e,
              b.uploads share date,
            ));
      downloads = λ share date.
          rw (days, events)
            (omega (
              arith,
              add_to_day-downloads e db.usage_days share date,
              total-append (λ x. x.bytes_downloaded) share date db.usage_events e,
              b.downloads share date,
            ));
    }

-- If every day's row has the sums of that day's events, it still does after a call that succeeds.
pub record_share_usage-Balanced :
    (limit_of : String → ℤ) (now clock : ℕ) (db db' : Db) (r : Report) (u : UsageDay)
    → Balanced db
    → record_share_usage limit_of now clock db r ≡ ok (db', u)
    → Balanced db'
record_share_usage-Balanced limit_of now clock db db' r u b e =
    let d = record_share_usage-Recorded limit_of now clock db db' r u e in
    elim (record_event-cases limit_of (clock / day) db db' r d.share d.event) [
      | inl (old, same) ↦ subst Balanced same b
      | inr (fresh, under, stored) ↦
          store_event-Balanced (new_event d.share.id (clock / day) r) db db' b stored
    ]
