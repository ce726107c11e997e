-- ===== src/Database/Mailbox.antt =====
-- internal/database/agent_repository.go: the queue of connection requests and the responses to them.
-- The list of commands stands in the order of their ids, since an insertion draws a larger id.
pub mod Moves
pub mod Outcomes
pub mod Reply
mod Tests
use echoear_cloud.Base.{
  ℕ, zero, suc, String, Bool, true, false, Option, none, some, List, [], ◌∷◌, ◌++◌, ◌+◌, ◌*◌, ◌&&◌,
  ◌||◌, not, if◌then◌else◌, ◌==◌, leb, ltb, find, str_eq, trim_space, ℤ, pos_part, is_positive,
}
use echoear_cloud.Database.Rows.{update_where, json_or_empty}

-- `agent_id` with `user_id` and `request_id` is the unique key.
pub record Command : Type 0 where
  pub id : ℕ
  pub user_id : ℕ
  pub agent_id : String
  pub request_id : String
  pub payload : String
  pub status : String
  pub result : String
  pub created_at : ℕ
  pub expires_at : ℕ
  pub claimed_at : Option ℕ
  pub completed_at : Option ℕ

pub record Response : Type 0 where
  pub user_id : ℕ
  pub agent_id : String
  pub request_id : String
  pub encrypted_payload : String
  pub created_at : ℕ
  pub expires_at : ℕ

abbrev pub command_ttl : ℕ
command_ttl = 2 * 60 * 1000000

abbrev pub response_ttl : ℕ
response_ttl = 5 * 60 * 1000000

abbrev pub has_key : ℕ → String → String → Command → Bool
has_key user agent request c =
    c.user_id == user && str_eq c.agent_id agent && str_eq c.request_id request

unfoldable pub new_command : ℕ → ℕ → ℕ → String → String → String → Command
new_command now id user agent request payload = record {
  id = id;
  user_id = user;
  agent_id = agent;
  request_id = request;
  payload = payload;
  status = "pending";
  result = "{}";
  created_at = now;
  expires_at = now + command_ttl;
  claimed_at = none;
  completed_at = none;
}

-- `ON CONFLICT … DO UPDATE`: a request that is sent again starts again, under its old id.
unfoldable pub enqueue_row : Command → List Command → List Command × Command
enqueue_row new [] = (new ∷ [], new)
enqueue_row new (c ∷ cs) =
    let (rest, row) = enqueue_row new cs in
    if has_key new.user_id new.agent_id new.request_id c
    then (record new { id = c.id } ∷ cs, record new { id = c.id })
    else (c ∷ rest, row)

unfoldable pub enqueue :
    (String → Option String)
    → ℕ
    → ℕ
    → List Command
    → ℕ
    → String
    → String
    → String
    → List Command × Command
unfolding enqueue_row new_command
enqueue decode_object now id cs user agent request payload =
    enqueue_row
      (new_command now id user (trim_space agent) (trim_space request)
        (json_or_empty decode_object payload))
      cs

abbrev pub is_waiting : Command → Bool
is_waiting c = str_eq c.status "pending" || str_eq c.status "claimed"

abbrev pub expire_command : ℕ → Command → Command
expire_command now c = record c { status = "expired"; completed_at = some now }

unfoldable pub expire_commands : ℕ → List Command → List Command
expire_commands now cs =
    update_where (λ c. is_waiting c && leb c.expires_at now) (expire_command now) cs

-- A candidate of a claim; `locked` says which rows another transaction holds (`SKIP LOCKED`).
abbrev pub is_candidate : (ℕ → Bool) → ℕ → ℕ → String → Command → Bool
is_candidate locked now user agent c =
    c.user_id == user
    && str_eq c.agent_id agent
    && str_eq c.status "pending"
    && ltb now c.expires_at
    && not (locked c.id)

abbrev pub take_command : ℕ → Command → Command
take_command now c = record c { status = "claimed"; claimed_at = some now }

abbrev pub taken : ℕ → Command → List Command × List Command → List Command × List Command
taken now c (rows, claimed) = (take_command now c ∷ rows, take_command now c ∷ claimed)

abbrev pub passed : Command → List Command × List Command → List Command × List Command
passed c (rows, claimed) = (c ∷ rows, claimed)

-- `… ORDER BY id … LIMIT n`, and the `UPDATE` of the candidates with the rows it returns.
unfoldable pub claim_rows : (Command → Bool) → ℕ → ℕ → List Command → List Command × List Command
claim_rows p now n [] = ([], [])
claim_rows p now zero (c ∷ cs) = (c ∷ cs, [])
claim_rows p now (suc n) (c ∷ cs) = elim (p c) [
  | true ↦ taken now c (claim_rows p now n cs)
  | false ↦ passed c (claim_rows p now (suc n) cs)
]

abbrev pub clamp_limit : ℤ → ℕ
clamp_limit limit =
    if not (is_positive limit) || ltb 50 (pos_part limit) then 20 else pos_part limit

unfoldable pub claim : (ℕ → Bool) → ℕ → List Command → ℕ → String → ℤ → List Command × List Command
unfolding expire_commands claim_rows
claim locked now cs user agent limit =
    claim_rows (is_candidate locked now user (trim_space agent)) now (clamp_limit limit)
      (expire_commands now cs)

abbrev pub is_completable : ℕ → ℕ → ℕ → Command → Bool
is_completable now user id c =
    c.user_id == user && c.id == id && is_waiting c && ltb now c.expires_at

abbrev pub complete_command : ℕ → String → String → Command → Command
complete_command now status result c = record c {
  status = status;
  result = result;
  completed_at = some now;
}

unfoldable pub complete :
    (String → Option String)
    → ℕ
    → List Command
    → ℕ
    → ℕ
    → String
    → String
    → List Command × Option Command
complete decode_object now cs user id status result =
    let f : Command → Command = complete_command now status (json_or_empty decode_object result) in
    (
      update_where (is_completable now user id) f cs,
      elim (find (is_completable now user id) cs) [ none ↦ none | some c ↦ some (f c) ],
    )

-- `ackHapiCommand` lets two statuses pass; `lower` is `strings.ToLower`.
abbrev pub is_outcome : String → Bool
is_outcome status = str_eq status "completed" || str_eq status "rejected"

unfoldable pub ack_command :
    (String → String)
    → (String → Option String)
    → ℕ
    → List Command
    → ℕ
    → ℤ
    → String
    → String
    → List Command × Option Command
unfolding complete
ack_command lower decode_object now cs user id status result =
    if is_positive id && is_outcome (lower (trim_space status))
    then complete decode_object now cs user (pos_part id) (lower (trim_space status)) result
    else (cs, none)

abbrev pub answers : ℕ → String → String → Response → Bool
answers user agent request r =
    r.user_id == user && str_eq r.agent_id agent && str_eq r.request_id request

abbrev pub new_response : ℕ → ℕ → String → String → String → Response
new_response now user agent request payload = record {
  user_id = user;
  agent_id = agent;
  request_id = request;
  encrypted_payload = payload;
  created_at = now;
  expires_at = now + response_ttl;
}

unfoldable pub save_row : Response → List Response → List Response
save_row new [] = new ∷ []
save_row new (r ∷ rs) =
    let rest = save_row new rs in
    if answers new.user_id new.agent_id new.request_id r then new ∷ rs else r ∷ rest

unfoldable pub save_response : ℕ → List Response → ℕ → String → String → String → List Response
unfolding save_row
save_response now rs user agent request payload =
    save_row (new_response now user (trim_space agent) (trim_space request) payload) rs

unfoldable pub response_for : ℕ → List Response → ℕ → String → String → Option Response
response_for now rs user agent request =
    find (λ r. answers user (trim_space agent) (trim_space request) r && ltb now r.expires_at) rs
