-- ===== src/Database/Mailbox/Reply.antt =====
-- `SaveHapiResponse` and `HapiResponse` of internal/database/agent_repository.go.
use echoear_cloud.Base.{
  ℕ, String, true, ◌≡◌, ◌<◌, ◌+◌, some, List, [], ◌∷◌, ◌&&◌, ltb, arith, find, trim_space,
}
use text.Mathlib.TextPositions.{eq_refl}
use echoear_cloud.Database.Mailbox.{
  Response, answers, new_response, response_ttl, save_row, save_response, response_for,
}

answers_self : (r : Response) → answers r.user_id r.agent_id r.request_id r ≡ true
answers_self r = ground (arith, eq_refl r.agent_id, eq_refl r.request_id)

find-save_row :
    (new : Response) (rs : List Response) (now : ℕ)
    → now < new.expires_at
    → find
        (λ r. answers new.user_id new.agent_id new.request_id r && ltb now r.expires_at)
        (save_row new rs)
      ≡ some new
unfolding save_row
find-save_row new [] now soon = ground (arith, answers_self new)
find-save_row new (r ∷ rs) now soon =
    ground (arith, answers_self new, find-save_row new rs now soon)

-- A response that is saved is what is read under its user, agent and request for five minutes; a
-- second one under the same key takes its place.
pub response_for-save_response :
    (now later : ℕ) (rs : List Response) (user : ℕ) (agent request payload payload' : String)
    → later < now + response_ttl
    → (response_for later (save_response now rs user agent request payload) user agent request
        ≡ some (new_response now user (trim_space agent) (trim_space request) payload))
      × (response_for later
            (save_response now
              (save_response now rs user agent request payload)
              user
              agent
              request
              payload')
            user
            agent
            request
          ≡ some (new_response now user (trim_space agent) (trim_space request) payload'))
unfolding response_for save_response
response_for-save_response now later rs user agent request payload payload' soon = (
  find-save_row (new_response now user (trim_space agent) (trim_space request) payload) rs later
      soon,
  find-save_row (new_response now user (trim_space agent) (trim_space request) payload')
      (save_row (new_response now user (trim_space agent) (trim_space request) payload) rs) later
      soon,
)
