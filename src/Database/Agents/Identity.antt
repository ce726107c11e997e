-- ===== src/Database/Agents/Identity.antt =====
-- What a registration of internal/database/agent_repository.go leaves of an agent's row, to which shares
-- and leases point.
use text.Mathlib.TextPositions.{eq_refl}
use echoear_cloud.Base.{
  ℕ, String, Bool, true, false, ◌≡◌, ◌≤◌, ◌+◌, refl, ◌∙◌, Option, none, some, List, [], ◌∷◌, ◌++◌,
  ◌&&◌, arith, not, find, find-In, eq_iff, str_eq, trim_space, is_empty, if◌then◌else◌, ◌==◌, inl,
  inr, ◌⊎◌,
}
use echoear_cloud.Database.Rows.{agent_id_required, ok, Agent, update_where, guard-eq_ok}
use echoear_cloud.Database.Access.{online_window, is_online}
use echoear_cloud.Database.Agents.{
  AgentInput, is_agent, new_agent, refresh_agent, upsert_agent, register_agent,
}

-- The row of one key, and those of the others, after a write to the rows of one key that keeps keys.
module _ (user : ℕ) (id : String) (f : Agent → Agent)
    (keeps : (a : Agent) → ((f a).user_id ≡ a.user_id) × ((f a).agent_id ≡ a.agent_id)) where
  pub find-update_agent :
      (rows : List Agent) (a : Agent)
      → find (is_agent user id) rows ≡ some a
      → find (is_agent user id) (update_where (is_agent user id) f rows) ≡ some (f a)
  find-update_agent [] a e = cc
  find-update_agent (x ∷ rows) a e = ground (arith, keeps x, find-update_agent rows a)

  pub find-update_other :
      (user' : ℕ) (id' : String) (rows : List Agent)
      → (user' == user && str_eq id' id) ≡ false
      → find (is_agent user' id') (update_where (is_agent user id) f rows)
        ≡ find (is_agent user' id') rows
  find-update_other user' id' [] other = refl
  find-update_other user' id' (x ∷ rows) other = ground (
    arith,
    keeps x,
    eq_iff id' id,
    eq_iff x.agent_id id,
    eq_iff x.agent_id id',
    find-update_other user' id' rows other,
  )

find-append_agent :
    (p : Agent → Bool) (rows : List Agent) (a : Agent)
    → find p rows ≡ none
    → find p (rows ++ a ∷ []) ≡ (if p a then some a else none)
find-append_agent p [] a e = refl
find-append_agent p (x ∷ rows) a e = ground (arith, find-append_agent p rows a)

find-append_other :
    (p : Agent → Bool) (rows : List Agent) (a : Agent)
    → p a ≡ false
    → find p (rows ++ a ∷ []) ≡ find p rows
find-append_other p [] a e = rw e refl
find-append_other p (x ∷ rows) a e = ground (arith, find-append_other p rows a e)

-- The agent after a registration at `now`, and its row before, if there was one.
pub record IsAgent (user : ℕ) (id : String) (now : ℕ) (before : Option Agent) (a : Agent)
    : Type 0 where
  pub key : (a.user_id ≡ user) × (a.agent_id ≡ id)
  pub seen : a.last_seen_at ≡ some now
  pub same :
      (before ≡ none)
      ⊎ ((old : Agent) × (before ≡ some old)
          × (a.id ≡ old.id)
          × (a.public_id ≡ old.public_id)
          × (a.created_at ≡ old.created_at))

module _ (upper : String → String) (decode : String → Option String) where
  upsert_agent-IsAgent :
      (now : ℕ) (new : Agent) (user' : ℕ) (id' : String) (rows rows' : List Agent) (a : Agent)
      (before : Option Agent)
      → find (is_agent new.user_id new.agent_id) rows ≡ before
      → new.last_seen_at ≡ some now
      → (user' == new.user_id && str_eq id' new.agent_id) ≡ false
      → upsert_agent upper decode now new rows before ≡ (rows', a)
      → IsAgent new.user_id new.agent_id now before a
        × (find (is_agent new.user_id new.agent_id) rows' ≡ some a)
        × (find (is_agent user' id') rows' ≡ find (is_agent user' id') rows)
  unfolding upsert_agent refresh_agent
  upsert_agent-IsAgent now new user' id' rows rows' a none found seen other e =
      let stored : rows ++ new ∷ [] ≡ rows' = cc in
      let made : new ≡ a = cc in
      let named : is_agent new.user_id new.agent_id new ≡ true =
        ground (arith, eq_refl new.agent_id) in
      let away : is_agent user' id' new ≡ false =
        ground (arith, other, eq_iff new.agent_id id', eq_iff id' new.agent_id) in
      (
        rw (← made) (record { key = (refl, refl); seen = seen; same = inl refl }),
        rw (← stored, ← made)
            (find-append_agent (is_agent new.user_id new.agent_id) rows new found ∙ rw named refl),
        rw (← stored) (find-append_other (is_agent user' id') rows new away),
      )
  upsert_agent-IsAgent now new user' id' rows rows' a (some old) found seen other e =
      let stored : update_where (is_agent new.user_id new.agent_id)
            (refresh_agent upper decode now new) rows
          ≡ rows' =
        cc in
      let made : refresh_agent upper decode now new old ≡ a = cc in
      let (i, named) = find-In (is_agent new.user_id new.agent_id) rows found in
      (
        rw (← made) (record {
          key = ground (arith, named, eq_iff old.agent_id new.agent_id);
          seen = refl;
          same = inr (old, refl, refl, refl, refl);
        }),
        rw (← stored, ← made)
            (find-update_agent new.user_id new.agent_id (refresh_agent upper decode now new)
              (λ x. (refl, refl)) rows old found),
        rw (← stored) (
            find-update_other new.user_id new.agent_id (refresh_agent upper decode now new)
              (λ x. (refl, refl)) user' id' rows other),
      )

  -- A registration leaves one row under its user and its trimmed agent id; if there was one before, the
  -- row keeps its id, its public id and its time of creation, so that what points to the agent still does.
  -- The agent counts as online from then on, for as long as the window is. The row under any other user
  -- or id is as it was.
  pub register_agent-IsAgent :
      (now clock id user user' : ℕ) (public_id id' : String) (rows rows' : List Agent)
      (input : AgentInput) (a : Agent)
      → register_agent upper decode now id public_id rows user input ≡ ok (rows', a)
      → (user' == user && str_eq id' (trim_space input.agent_id)) ≡ false
      → clock ≤ now + online_window
      → IsAgent user
          (trim_space input.agent_id)
          now
          (find (is_agent user (trim_space input.agent_id)) rows)
          a
        × (is_online clock a.last_seen_at ≡ true)
        × (find (is_agent user (trim_space input.agent_id)) rows' ≡ some a)
        × (find (is_agent user' id') rows' ≡ find (is_agent user' id') rows)
  unfolding register_agent is_online
  register_agent-IsAgent now clock id user user' public_id id' rows rows' input a e other soon =
      let (named, rest) =
        guard-eq_ok (not (is_empty (trim_space input.agent_id))) agent_id_required _ e in
      let (is_agent', here, there) =
        upsert_agent-IsAgent now (new_agent upper decode now id public_id user input) user' id' rows
          rows' a (find (is_agent user (trim_space input.agent_id)) rows) refl refl other
          (ok_pair rest) in
      (is_agent', online a.last_seen_at is_agent'.seen, here, there)
    where
      ok_pair : {x y : List Agent × Agent} → ok x ≡ ok y → x ≡ y
      ok_pair h = cc

      online : (seen : Option ℕ) → seen ≡ some now → is_online clock seen ≡ true
      online seen h = rw h (ground arith)
