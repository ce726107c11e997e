-- ===== src/Database/Pairing/Redeem.antt =====
-- A claim of internal/database/agent_repository.go from its creation to its confirmation.
use text.Mathlib.TextPositions.{eq_refl}
use echoear_cloud.Base.{
  ℕ, String, true, false, ◌≡◌, ◌<◌, refl, Option, some, List, [], ◌∷◌, ◌++◌, arith, any, find, ℤ,
  trim_space,
}
use echoear_cloud.Database.Rows.{ok, update_where}
use echoear_cloud.Database.Devices.{Device, normalize_uid}
use echoear_cloud.Database.Pairing.{
  Claim, owned_active, has_code, confirmable, consume, with_device, with_claim,
  confirm_pairing_claim, create_pairing_claim,
}
use echoear_cloud.Database.Pairing.Claims.{create_pairing_claim-IsClaim}

-- No other row has the code, so the new one is found and is the only one that changes.
find-new :
    (now user : ℕ) (code : String) (cs : List Claim) (c : Claim)
    → any (has_code code) cs ≡ false
    → confirmable now user code c ≡ true
    → find (confirmable now user code) (cs ++ c ∷ []) ≡ some c
find-new now user code [] c none_before h = rw h refl
find-new now user code (x ∷ cs) c none_before h = ground (arith, find-new now user code cs c)

consume-new :
    (now user : ℕ) (code agent : String) (cs : List Claim) (c : Claim)
    → any (has_code code) cs ≡ false
    → confirmable now user code c ≡ true
    → update_where (confirmable now user code) (consume now agent) (cs ++ c ∷ [])
      ≡ cs ++ consume now agent c ∷ []
consume-new now user code agent [] c none_before h = rw h refl
consume-new now user code agent (x ∷ cs) c none_before h =
    ground (arith, consume-new now user code agent cs c)

-- A claim that has been created is confirmed by its user, with its code, for any agent, before it expires
-- and while the device is still that user's and active: the device and the claim are returned, the claim
-- now consumed by that agent, and it is the only row that changes.
pub confirm_pairing_claim-create_pairing_claim :
    (upper : String → String) (draw : ℕ → Option ℕ) (now later : ℕ) (ds ds' : List Device)
    (cs cs' : List Claim) (user : ℕ) (uid code agent : String) (seconds : ℤ) (c : Claim)
    (d : Device)
    → create_pairing_claim upper draw now ds cs user uid seconds ≡ ok (cs', c)
    → trim_space code ≡ c.claim_code
    → later < c.expires_at
    → find (owned_active user (normalize_uid upper uid)) ds' ≡ some d
    → confirm_pairing_claim later ds' cs' user code agent ≡ (
      cs ++ consume later (trim_space agent) c ∷ [],
      some (d, consume later (trim_space agent) c),
    )
unfolding confirm_pairing_claim
confirm_pairing_claim-create_pairing_claim upper draw now later ds ds' cs cs' user uid code agent
      seconds c d e same soon device =
    let made = create_pairing_claim-IsClaim upper draw now ds cs cs' user uid seconds c e in
    let open_claim : confirmable later user c.claim_code c ≡ true =
      ground (arith, made.owner, made.unused, eq_refl c.claim_code) in
    let found = find-new later user c.claim_code cs c made.drawn.free open_claim in
    let rows =
      consume-new later user c.claim_code (trim_space agent) cs c made.drawn.free open_claim in
    let device' : find (owned_active user c.device_uid) ds' ≡ some d = rw made.owner.1 device in
    rw (same, made.rows) (rw (found, with_claim) (rw (device', with_device) (rw rows refl)))
