-- ===== src/Database/Settings/Kept.antt =====
-- What settings a user reads back.
use echoear_cloud.Base.{
  ℕ, String, true, false, ◌≡◌, ◌≢◌, refl, Option, some, List, [], ◌∷◌, ◌++◌, arith, any, find,
  if◌then◌else◌, Bool-cases, inl, inr, ◌⊎◌, sym, ◌∙◌, any-find, find-any,
}
use echoear_cloud.Database.Rows.{
  check_violation, no_rows, Result, ok, User, update_where, guard-eq_ok, guard, or_fail,
  or_fail-eq_ok, bind-eq_ok, ◌>>=◌,
}
use echoear_cloud.Database.Users.{has_id}
use echoear_cloud.Database.Settings.{
  Settings, SettingsInput, belongs_to, default_settings, ensure_row, get_settings, set_settings,
  put_settings,
}

any_default :
    (now user : ℕ) (ss : List Settings)
    → any (belongs_to user) (ss ++ default_settings now user ∷ []) ≡ true
any_default now user [] = ground arith
any_default now user (s ∷ ss) = ground (arith, any_default now user ss)

find_default :
    (now user other : ℕ) (ss : List Settings)
    → other ≢ user
    → find (belongs_to other) (ss ++ default_settings now user ∷ []) ≡ find (belongs_to other) ss
find_default now user other [] ne = ground arith
find_default now user other (s ∷ ss) ne = ground (arith, find_default now user other ss ne)

-- The row of a user is there after it has been ensured, and the rows of others are as they were.
ensure_row-rows :
    (now : ℕ) (users : List User) (ss ss' : List Settings) (user other : ℕ)
    → ensure_row now users ss user ≡ ok ss'
    → other ≢ user
    → (any (belongs_to user) ss' ≡ true)
      × (any (has_id user) users ≡ true)
      × (find (belongs_to other) ss' ≡ find (belongs_to other) ss)
unfolding ensure_row
ensure_row-rows now users ss ss' user other e ne =
    let (known, stored) = guard-eq_ok (any (has_id user) users) check_violation _ e in
    go known (Bool-cases (any (belongs_to user) ss)) stored
  where
    go :
        any (has_id user) users ≡ true
        → (any (belongs_to user) ss ≡ true) ⊎ (any (belongs_to user) ss ≡ false)
        → ◌≡◌ {A = Result (List Settings)}
            (ok (if any (belongs_to user) ss then ss else ss ++ default_settings now user ∷ []))
            (ok ss')
        → (any (belongs_to user) ss' ≡ true)
          × (any (has_id user) users ≡ true)
          × (find (belongs_to other) ss' ≡ find (belongs_to other) ss)
    go known (inl there) stored =
        let same : ss ≡ ss' = ground (arith, there, stored) in rw (← same) (there, known, refl)
    go known (inr new) stored =
        let same : ss ++ default_settings now user ∷ [] ≡ ss' = ground (arith, new, stored) in
        rw (← same) (any_default now user ss, known, find_default now user other ss ne)

module _ (decode : String → Option String) where
  find_set_other :
      (now user other : ℕ) (input : SettingsInput) (ss : List Settings)
      → other ≢ user
      → find (belongs_to other) (update_where (belongs_to user) (set_settings decode now input) ss)
        ≡ find (belongs_to other) ss
  unfolding set_settings
  find_set_other now user other input [] ne = refl
  find_set_other now user other input (s ∷ ss) ne =
      ground (arith, find_set_other now user other input ss ne)

  find_set :
      (now user : ℕ) (input : SettingsInput) (ss : List Settings) (s : Settings)
      → find (belongs_to user) ss ≡ some s
      → find (belongs_to user) (update_where (belongs_to user) (set_settings decode now input) ss)
        ≡ some (set_settings decode now input s)
  unfolding set_settings
  find_set now user input [] s e = cc
  find_set now user input (x ∷ ss) s e = ground (arith, find_set now user input ss s)

  -- Settings that are put are those that the user had, or the defaults, with the given fields replaced,
  -- the two texts trimmed, and every later read of the user gives just these; a read writes nothing more,
  -- and the settings of another user are as they were.
  pub get_settings-put_settings :
      (now later : ℕ) (users : List User) (ss ss' : List Settings) (user other : ℕ)
      (input : SettingsInput) (item : Settings)
      → other ≢ user
      → put_settings decode now users ss user input ≡ ok (ss', item)
      → (mid : List Settings) × (before : Settings) × (get_settings now users ss user
          ≡ ok (mid, before))
        × (item ≡ set_settings decode now input before)
        × (get_settings later users ss' user ≡ ok (ss', item))
        × (find (belongs_to other) ss' ≡ find (belongs_to other) ss)
  unfolding put_settings get_settings ensure_row
  get_settings-put_settings now later users ss ss' user other input item ne e =
      let (mid, ensured, rest) = bind-eq_ok (ensure_row now users ss user) _ e in
      let (there, known, same) = ensure_row-rows now users ss mid user other ensured ne in
      let (before, was) = any-find (belongs_to user) mid there in
      let changed = find_set now user input mid before was in
      let last = update_where (belongs_to user) (set_settings decode now input) mid in
      let (made, found, end) = or_fail-eq_ok (find (belongs_to user) last) no_rows _ rest in
      let rows : last ≡ ss' = ground arith in
      let same_item : made ≡ item = ground arith in
      let wanted : made ≡ set_settings decode now input before = ground (arith, found, changed) in
      (
        mid,
        before,
        rw (ensured, ◌>>=◌) (rw (was, or_fail, ◌>>=◌) refl),
        sym same_item ∙ wanted,
        reads known (rw (← rows, ← same_item) found),
        rw (← rows) (find_set_other now user other input mid ne ∙ same),
      )
    where
      reads :
          any (has_id user) users ≡ true
          → find (belongs_to user) ss' ≡ some item
          → get_settings later users ss' user ≡ ok (ss', item)
      reads known read =
          rw (known, find-any (belongs_to user) ss' read, guard, ◌>>=◌)
            (rw (read, or_fail, ◌>>=◌) refl)
