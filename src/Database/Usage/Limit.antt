-- ===== src/Database/Usage/Limit.antt =====
-- The daily limit of tasks, and reports that come twice: `RecordShareUsage` of
-- internal/database/access_repository.go.
use mathlib.Core.Path.{subst}
use echoear_cloud.Base.{
  ℕ, String, Bool, true, false, ◌≡◌, ◌≢◌, ◌≤◌, ◌<◌, refl, ap, ◌∙◌, ◌⊎◌, inl, inr, some, List, [],
  ◌∷◌, ◌++◌, ◌+◌, ◌/◌, ◌||◌, not, leb, arith, any, eq_iff, trim_space, ℤ, is_positive, pos_part,
}
use text.Mathlib.TextPositions.{eq_refl}
use echoear_cloud.Database.Rows.{ok, out_of_range, Share, UsageDay, UsageEvent, Db, guard-eq_ok}
use echoear_cloud.Database.Access.{day, tasks_used}
use echoear_cloud.Database.Usage.{
  Report, event_of, new_event, add_event, fits, usage_on, add_to_day, store_event, within_limit,
  record_event, record_share_usage, leased_share,
}
use echoear_cloud.Database.Usage.Ledger.{
  add_to_day-tasks, record_share_usage-Recorded, record_event-cases,
}

tasks_used-usage_on :
    (days : List UsageDay) (share : String) (date : ℕ)
    → tasks_used days share date ≡ (usage_on days share date).tasks_created
tasks_used-usage_on days share date = ground arith

store_event-rows :
    (e : UsageEvent) (db db' : Db)
    → store_event e db ≡ ok db'
    → (db'.usage_days ≡ add_to_day e db.usage_days) × (db'.usage_events ≡ db.usage_events ++ e ∷ [])
unfolding store_event
store_event-rows e db db' h =
    let (fit, stored) =
      guard-eq_ok (fits (add_event e (usage_on db.usage_days e.share_id e.usage_date))) out_of_range
        _ h in
    (ground arith, ground arith)

within_limit-le :
    (limit_of : String → ℤ) (days : List UsageDay) (date n : ℕ) (r : Report) (s : Share)
    → limit_of s.policy ≡ ℤ.pos n
    → 0 < n
    → within_limit limit_of days date r s ≡ true
    → tasks_used days s.id date ≤ n
    → tasks_used days s.id date + pos_part r.tasks_created ≤ n
unfolding within_limit
within_limit-le limit_of days date n r s limit pos h used =
    go r.tasks_created refl (rw (limit, within_limit) at h)
  where
    go :
        (t : ℤ)
        → r.tasks_created ≡ t
        → (not (is_positive r.tasks_created)
            || not (is_positive (ℤ.pos n))
            || leb (tasks_used days s.id date + pos_part r.tasks_created) n)
          ≡ true
        → tasks_used days s.id date + pos_part r.tasks_created ≤ n
    go (ℤ.pos k) e i =
        let i' : (not (is_positive (ℤ.pos k))
              || not (is_positive (ℤ.pos n))
              || leb (tasks_used days s.id date + k) n)
            ≡ true =
          rw e at i in
        rw e (ground arith)
    go (ℤ.negsuc k) e i = rw e (ground arith)

-- While the count of a share's tasks on a day is within the positive limit of its policy, a report
-- for that share that is accepted on that day leaves it within the limit, and the count of another
-- share or of another day does not change.
pub record_share_usage_limit :
    (limit_of : String → ℤ) (now clock n : ℕ) (db db' : Db) (r : Report) (u : UsageDay) (s : Share)
    (share : String) (date : ℕ)
    → leased_share now db r ≡ some s
    → limit_of s.policy ≡ ℤ.pos n
    → 0 < n
    → tasks_used db.usage_days s.id (clock / day) ≤ n
    → record_share_usage limit_of now clock db r ≡ ok (db', u)
    → (share ≢ s.id) ⊎ (date ≢ clock / day)
    → (tasks_used db'.usage_days s.id (clock / day) ≤ n)
      × (tasks_used db'.usage_days share date ≡ tasks_used db.usage_days share date)
record_share_usage_limit limit_of now clock n db db' r u s share on leased limit pos used e other =
    let d = record_share_usage-Recorded limit_of now clock db db' r u e in
    let same : d.share ≡ s = ground (arith, d.leased) in
    go (
      record_event-cases limit_of (clock / day) db db' r s
        (subst (λ x. record_event limit_of (clock / day) db r x ≡ ok db') same d.event))
  where
    date : ℕ
    date = clock / day

    go :
        ((any (event_of s.id (trim_space r.event_id)) db.usage_events ≡ true) × (db ≡ db'))
          ⊎ ((any (event_of s.id (trim_space r.event_id)) db.usage_events ≡ false)
              × (within_limit limit_of db.usage_days date r s ≡ true)
              × (store_event (new_event s.id date r) db ≡ ok db'))
        → (tasks_used db'.usage_days s.id date ≤ n)
          × (tasks_used db'.usage_days share on ≡ tasks_used db.usage_days share on)
    go (inl (old, same)) =
        let days : db.usage_days ≡ db'.usage_days = ap (λ (x : Db). x.usage_days) same in
        rw (← days) (used, refl)
    go (inr (fresh, under, stored)) =
        let days = (store_event-rows (new_event s.id date r) db db' stored).0 in
        let le = within_limit-le limit_of db.usage_days date n r s limit pos under used in
        rw days (
          ground (
            arith,
            le,
            tasks_used-usage_on db.usage_days s.id date,
            tasks_used-usage_on (add_to_day (new_event s.id date r) db.usage_days) s.id date,
            add_to_day-tasks (new_event s.id date r) db.usage_days s.id date,
          ),
          ground (
            arith,
            other,
            eq_iff s.id share,
            tasks_used-usage_on db.usage_days share on,
            tasks_used-usage_on (add_to_day (new_event s.id date r) db.usage_days) share on,
            add_to_day-tasks (new_event s.id date r) db.usage_days share on,
          ),
        )

any-append :
    (p : UsageEvent → Bool) (es : List UsageEvent) (e : UsageEvent)
    → p e ≡ true
    → any p (es ++ e ∷ []) ≡ true
any-append p [] e h = rw h refl
any-append p (x ∷ es) e h = ground (arith, any-append p es e h)

known_event :
    (limit_of : String → ℤ) (date : ℕ) (db db' : Db) (r : Report) (s : Share)
    → record_event limit_of date db r s ≡ ok db'
    → any (event_of s.id (trim_space r.event_id)) db'.usage_events ≡ true
known_event limit_of date db db' r s e = go (record_event-cases limit_of date db db' r s e)
  where
    go :
        ((any (event_of s.id (trim_space r.event_id)) db.usage_events ≡ true) × (db ≡ db'))
          ⊎ ((any (event_of s.id (trim_space r.event_id)) db.usage_events ≡ false)
              × (within_limit limit_of db.usage_days date r s ≡ true)
              × (store_event (new_event s.id date r) db ≡ ok db'))
        → any (event_of s.id (trim_space r.event_id)) db'.usage_events ≡ true
    go (inl (old, same)) =
        subst (λ (x : Db). any (event_of s.id (trim_space r.event_id)) x.usage_events ≡ true) same
          old
    go (inr (fresh, under, stored)) =
        rw (store_event-rows (new_event s.id date r) db db' stored).1 (
          any-append (event_of s.id (trim_space r.event_id)) db.usage_events (new_event s.id date r)
            (simp eq_refl))

record_event-known :
    (limit_of : String → ℤ) (date : ℕ) (db : Db) (r : Report) (s : Share)
    → any (event_of s.id (trim_space r.event_id)) db.usage_events ≡ true
    → record_event limit_of date db r s ≡ ok db
unfolding record_event
record_event-known limit_of date db r s h = rw (h, record_event) refl

-- A report that is sent again on the same day, while its lease leads to the same share, is accepted
-- again with the same answer and changes nothing.
pub record_share_usage_twice :
    (limit_of : String → ℤ) (now clock later clock' : ℕ) (db db' : Db) (r : Report) (u : UsageDay)
    → record_share_usage limit_of now clock db r ≡ ok (db', u)
    → leased_share later db' r ≡ leased_share now db r
    → clock' / day ≡ clock / day
    → record_share_usage limit_of later clock' db' r ≡ ok (db', u)
unfolding record_share_usage
record_share_usage_twice limit_of now clock later clock' db db' r u e leased today =
    let d = record_share_usage-Recorded limit_of now clock db db' r u e in
    rw
      (
        d.valid,
        leased ∙ d.leased,
        today,
        record_event-known limit_of (clock / day) db' r d.share
            (known_event limit_of (clock / day) db db' r d.share d.event),
        d.answer,
      )
      refl
