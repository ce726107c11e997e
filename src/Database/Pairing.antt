-- ===== src/Database/Pairing.antt =====
-- internal/database/agent_repository.go: `RotatePair`, `CreatePairingClaim` and `ConfirmPairingClaim`.
-- `draw` is what `rand.Int` gives at each attempt, `none` where it fails, and `random_public` and
-- `random_secret` what `RandomToken` gives. The other parameters are those of Database.Devices.
pub mod Digits
pub mod Claims
pub mod Confirmed
pub mod Unique
pub mod Redeem
pub mod Once
mod Tests
use echoear_cloud.Base.{
  ℕ, zero, suc, String, Bool, true, false, Option, none, some, List, [], ◌∷◌, ◌++◌, ◌+◌, ◌*◌, ◌&&◌,
  not, if◌then◌else◌, ◌==◌, leb, ltb, find, any, str_eq, trim_space, is_empty, ℤ,
}
use echoear_cloud.Database.Rows.{
  no_rows, device_uid_required, claim_code_exhausted, random_failed, Result, ok, err, ◌>>=◌, ◌>>◌,
  guard, or_fail, update_where,
}
use echoear_cloud.Database.Users.{is_null}
use echoear_cloud.Database.Devices.{Device, is_active, normalize_uid, owned, update_returning}
use echoear_cloud.Database.Pairing.Digits.{six_digits}

-- A row of `pairing_claims`; the claim that is returned has its columns.
pub record Claim : Type 0 where
  pub user_id : ℕ
  pub device_uid : String
  pub claim_code : String
  pub expires_at : ℕ
  pub consumed_at : Option ℕ
  pub consumed_by_agent_id : String
  pub created_at : ℕ

abbrev pub owned_active : ℕ → String → Device → Bool
owned_active user uid d = owned user uid d && is_active d

-- `claim_code` is unique in `pairing_claims`.
abbrev pub has_code : String → Claim → Bool
has_code code c = str_eq c.claim_code code

-- `ttlSeconds` after its default is set.
unfoldable pub claim_ttl : ℤ → ℕ
claim_ttl (ℤ.pos n) = if ltb n 30 then 120 else if ltb 600 n then 120 else n
claim_ttl (ℤ.negsuc n) = 120

abbrev pub new_claim : ℕ → ℕ → String → String → ℕ → Claim
new_claim now user uid code seconds = record {
  user_id = user;
  device_uid = uid;
  claim_code = code;
  expires_at = now + seconds * 1000000;
  consumed_at = none;
  consumed_by_agent_id = "";
  created_at = now;
}

-- One attempt, and what the attempts after it give.
unfoldable pub insert_claim :
    (String → Claim)
    → List Claim
    → Result (List Claim × Claim)
    → Option ℕ
    → Result (List Claim × Claim)
unfolding six_digits
insert_claim row cs rest none = err random_failed
insert_claim row cs rest (some n) =
    if any (has_code (six_digits n)) cs
    then rest
    else ok (cs ++ row (six_digits n) ∷ [], row (six_digits n))

-- The loop: `left` attempts remain, `attempt` is the number of the next one.
unfoldable pub allocate :
    (ℕ → Option ℕ) → (String → Claim) → ℕ → ℕ → List Claim → Result (List Claim × Claim)
unfolding insert_claim
allocate draw row zero attempt cs = err claim_code_exhausted
allocate draw row (suc left) attempt cs =
    let rest = allocate draw row left (attempt + 1) cs in insert_claim row cs rest (draw attempt)

module _ (upper : String → String) where
  unfoldable pub create_pairing_claim :
      (ℕ → Option ℕ) → ℕ → List Device → List Claim → ℕ → String → ℤ → Result (List Claim × Claim)
  unfolding allocate claim_ttl
  create_pairing_claim draw now ds cs user uid ttl_seconds = do
    guard (not (is_empty (normalize_uid upper uid))) device_uid_required
    guard (any (owned_active user (normalize_uid upper uid)) ds) no_rows
    allocate draw
        (λ code. new_claim now user (normalize_uid upper uid) code (claim_ttl ttl_seconds)) 5 0 cs

  -- `secret` as it was given, or a new one: the caller shows it once.
  unfoldable pub rotate_pair :
      (String → String)
      → Option String
      → Option String
      → ℕ
      → List Device
      → ℕ
      → String
      → String
      → String
      → Result (List Device × Option Device × String)
  unfolding update_returning
  rotate_pair hash random_public random_secret now ds user uid given_public given_secret = do
    guard (not (is_empty (normalize_uid upper uid))) device_uid_required
    public_id ←
        or_fail (if is_empty (trim_space given_public) then random_public else some given_public)
          random_failed
    secret ←
        or_fail (if is_empty (trim_space given_secret) then random_secret else some given_secret)
          random_failed
    let rotate : Device → Device = λ d. record d {
      pair_public_id = trim_space public_id;
      pair_secret_hash = some (hash (trim_space secret));
      updated_at = now;
    }
    let (ds', d) = update_returning (owned_active user (normalize_uid upper uid)) rotate ds
    ok (ds', d, secret)

-- The row that `ConfirmPairingClaim` consumes.
abbrev pub confirmable : ℕ → ℕ → String → Claim → Bool
confirmable now user code c =
    c.user_id == user && has_code code c && is_null c.consumed_at && ltb now c.expires_at

unfoldable pub consume : ℕ → String → Claim → Claim
consume now agent c = record c { consumed_at = some now; consumed_by_agent_id = agent }

-- The transaction: `none` beside the table as it was where the claim, or the device, is missing.
unfoldable pub with_device :
    List Claim → List Claim → Claim → Option Device → List Claim × Option (Device × Claim)
with_device before after c none = (before, none)
with_device before after c (some d) = (after, some (d, c))

unfoldable pub with_claim :
    ℕ
    → List Device
    → List Claim
    → ℕ
    → String
    → String
    → Option Claim
    → List Claim × Option (Device × Claim)
unfolding with_device consume
with_claim now ds cs user code agent none = (cs, none)
with_claim now ds cs user code agent (some c) =
    with_device cs (update_where (confirmable now user code) (consume now agent) cs)
      (consume now agent c) (find (owned_active user c.device_uid) ds)

unfoldable pub confirm_pairing_claim :
    ℕ → List Device → List Claim → ℕ → String → String → List Claim × Option (Device × Claim)
unfolding with_claim
confirm_pairing_claim now ds cs user code agent =
    with_claim now ds cs user (trim_space code) (trim_space agent)
      (find (confirmable now user (trim_space code)) cs)
