-- ===== src/Api/Agents/Responses.antt =====
-- An encrypted answer from its agent to the user who waits for it, through the handlers of
-- internal/api/echoear_handlers.go.
use echoear_cloud.Base.{
  ℕ, String, Bool, true, ◌≡◌, ◌<◌, ◌+◌, refl, ap, ◌∙◌, Option, none, some, List, arith, not,
  trim_space, trim_space_idem,
}
use echoear_cloud.Database.Rows.{Agent, Db}
use echoear_cloud.Database.Access.{AgentAccess, resolve_access}
use echoear_cloud.Database.Agents.{agent_for_user}
use echoear_cloud.Database.Mailbox.{
  Response, new_response, response_ttl, save_response, response_for,
}
use echoear_cloud.Database.Mailbox.Reply.{response_for-save_response}
use echoear_cloud.Api.Http.{refused, done, if-eq_done}
use echoear_cloud.Api.Identifier.{valid_identifier}
use echoear_cloud.Api.Connect.{EncryptedBlob, valid_blob}
use echoear_cloud.Api.Agents.{save_for_agent, put_hapi_response, response_of, get_hapi_response}

module _ (decode : String → Option (List ℕ)) (print_blob : EncryptedBlob → String) where
  -- A response that is put is well formed, is one of an agent of the caller, and is stored under it.
  put_hapi_response-saved :
      (now clock : ℕ) (agents : List Agent) (rs rs' : List Response) (user : ℕ)
      (agent request : String) (blob : EncryptedBlob)
      → put_hapi_response decode print_blob now clock agents rs user agent request (some blob)
        ≡ (rs', done tt)
      → (valid_blob decode blob ≡ true)
        × (rs'
            ≡ save_response now rs user (trim_space agent) (trim_space request) (print_blob blob))
  unfolding put_hapi_response save_for_agent
  put_hapi_response-saved now clock agents rs rs' user agent request blob e =
      let (named, rest) =
        if-eq_done (not (valid_identifier (trim_space request) 8 128)) rs rs' 400 _ e in
      known (agent_for_user clock agents user (trim_space agent)) rest
    where
      known :
          (o : Option (Agent × Bool))
          → save_for_agent decode print_blob now rs user
              (trim_space agent)
              (trim_space request)
              blob
              o
            ≡ (rs', done tt)
          → (valid_blob decode blob ≡ true)
            × (rs'
                ≡ save_response now rs user
                    (trim_space agent)
                    (trim_space request)
                    (print_blob blob))
      known none h = cc
      known (some a) h =
          let (good, rest) = if-eq_done (not (valid_blob decode blob)) rs rs' 400 _ h in
          (ground arith, cc)

  -- A response that an agent's user has put is well formed, and for five minutes it is what any user who
  -- has access to that agent reads under the same request; a user without access reads nothing.
  pub get_hapi_response-put_hapi_response :
      (now clock later clock' : ℕ) (agents : List Agent) (rs rs' : List Response) (user : ℕ)
      (agent request : String) (blob : EncryptedBlob) (db db' db'' : Db) (reader stranger : ℕ)
      (path : String) (access : AgentAccess)
      → put_hapi_response decode print_blob now clock agents rs user agent request (some blob)
        ≡ (rs', done tt)
      → resolve_access later clock' db reader (trim_space path) ≡ (db', some access)
      → access.agent.user_id ≡ user
      → access.agent.agent_id ≡ trim_space agent
      → resolve_access later clock' db stranger (trim_space path) ≡ (db'', none)
      → later < now + response_ttl
      → (valid_blob decode blob ≡ true)
        × (get_hapi_response later clock' db rs' reader path request ≡ (
          db',
          done (new_response now user (trim_space agent) (trim_space request) (print_blob blob)),
        ))
        × (get_hapi_response later clock' db rs' stranger path request ≡ (db'', refused 404))
  unfolding get_hapi_response response_of
  get_hapi_response-put_hapi_response now clock later clock' agents rs rs' user agent request blob
        db db' db'' reader stranger path access e allowed owner same denied soon =
      let (good, stored) =
        put_hapi_response-saved now clock agents rs rs' user agent request blob e in
      let (first, again) =
        response_for-save_response now later rs user (trim_space agent) (trim_space request)
          (print_blob blob) "" soon in
      let read : response_for later rs' access.agent.user_id access.agent.agent_id
            (trim_space request)
          ≡ some (
              new_response now user (trim_space (trim_space agent))
                (trim_space (trim_space request)) (print_blob blob)) =
        rw (owner, same, stored) first in
      (
        good,
        ap (response_of later rs' (trim_space request)) allowed
            ∙ rw (read, trim_space_idem agent, trim_space_idem request) refl,
        ap (response_of later rs' (trim_space request)) denied,
      )
