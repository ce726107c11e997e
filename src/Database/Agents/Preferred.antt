-- ===== src/Database/Agents/Preferred.antt =====
-- The preferred device of an agent, of internal/database/agent_repository.go.
use echoear_cloud.Base.{
  ℕ, String, true, false, ◌≡◌, refl, some, List, ◌&&◌, any, any-find, str_eq, ◌==◌, ap,
}
use echoear_cloud.Database.Rows.{no_rows, ok, Agent, update_where, guard-eq_ok}
use echoear_cloud.Database.Devices.{Device, is_active, normalize_uid, owned}
use echoear_cloud.Database.Agents.{
  is_agent, or_default, set_preferred_device, uid_or_empty, preferred_device_uid,
}
use echoear_cloud.Database.Agents.Identity.{find-update_agent, find-update_other}

-- A preferred device that is accepted is an active device of the user, and it is what is read back for that
-- agent, under any spelling of its id that trims to the same; another agent's is as it was.
pub preferred_device_uid-set_preferred_device :
    (upper : String → String) (now : ℕ) (ds : List Device) (rows rows' : List Agent)
    (user user' : ℕ) (agent again other uid : String)
    → set_preferred_device upper now ds rows user agent uid ≡ ok rows'
    → or_default again ≡ or_default agent
    → (user' == user && str_eq (or_default other) (or_default agent)) ≡ false
    → (any (λ d. owned user (normalize_uid upper uid) d && is_active d) ds ≡ true)
      × (preferred_device_uid rows' user again ≡ normalize_uid upper uid)
      × (preferred_device_uid rows' user' other ≡ preferred_device_uid rows user' other)
unfolding set_preferred_device preferred_device_uid
preferred_device_uid-set_preferred_device upper now ds rows rows' user user' agent again other uid e
      same apart =
    let (found, e1) =
      guard-eq_ok (any (λ d. owned user (normalize_uid upper uid) d && is_active d) ds) no_rows _
        e in
    let (known, e2) = guard-eq_ok (any (is_agent user (or_default agent)) rows) no_rows _ e1 in
    let (a, row) = any-find (is_agent user (or_default agent)) rows known in
    let stored : update_where (is_agent user (or_default agent)) prefer rows ≡ rows' = cc in
    (
      found,
      rw (same, ← stored)
          (ap uid_or_empty
            (find-update_agent user (or_default agent) prefer (λ x. (refl, refl)) rows a row)),
      rw (← stored) (
          ap uid_or_empty (
            find-update_other user (or_default agent) prefer (λ x. (refl, refl)) user'
              (or_default other) rows apart)),
    )
  where
    prefer : Agent → Agent
    prefer x = record x { preferred_device_uid = some (normalize_uid upper uid); updated_at = now }
