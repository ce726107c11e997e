-- ===== src/Database/Pairing/Tests.antt =====
-- The theorems on pairing at a small table.
use echoear_cloud.Base.{
  ℕ, zero, suc, ◌≤◌, String, true, false, ◌≡◌, ◌≢◌, refl, Option, none, some, List, [], ◌∷◌, ◌++◌,
  arith, any, find, is_empty, trim_space, ℤ,
}
use echoear_cloud.Database.Rows.{ok}
use echoear_cloud.Database.Devices.{Device, normalize_uid}
use echoear_cloud.Database.Pairing.{
  Claim, owned_active, has_code, consume, create_pairing_claim, confirm_pairing_claim, new_claim,
}
use echoear_cloud.Database.Pairing.Digits.{six_digits}
use echoear_cloud.Database.Pairing.Claims.{create_pairing_claim_succeeds}
use echoear_cloud.Database.Pairing.Once.{
  Reach, start, later, create, confirm, confirm_pairing_claim_once,
}
use echoear_cloud.Database.Pairing.Redeem.{confirm_pairing_claim-create_pairing_claim}

abbrev same : String → String
same s = s

abbrev ear : Device
ear = record {
  id = 1;
  user_id = 1;
  device_uid = "EAR";
  display_name = "";
  hostname = "";
  fw_version = "";
  last_ip = none;
  last_seen_at = none;
  bind_state = "active";
  pair_public_id = "";
  pair_secret_hash = none;
  capabilities = "{}";
  lan_hint = "{}";
  refresh_token_hash = none;
  refresh_expires_at = none;
  access_token_hash = none;
  access_expires_at = none;
  created_at = 0;
  updated_at = 0;
  revoked_at = none;
}

-- The first number is drawn twice, then another.
abbrev draw : ℕ → Option ℕ
draw zero = some 42
draw (suc j) = some 7

abbrev old_claim : Claim
old_claim = new_claim 0 2 "OTHER" "000042" 120

abbrev first_claim : Claim
first_claim = new_claim 10 1 "EAR" "000007" 60

creates :
    create_pairing_claim same draw 10 (ear ∷ []) (old_claim ∷ []) 1 "EAR" (ℤ.pos 60)
    ≡ ok (old_claim ∷ first_claim ∷ [], first_claim)
unfolding create_pairing_claim trim_space
creates = refl

ear-named : is_empty (normalize_uid same "EAR") ≡ false
unfolding trim_space
ear-named = refl

ear-owned : any (owned_active 1 (normalize_uid same "EAR")) (ear ∷ []) ≡ true
unfolding trim_space
ear-owned = refl

draws : (i : ℕ) → i ≤ 1 → draw i ≢ none
draws zero h = λ e. cc
draws (suc j) h = λ e. cc

seven-free : any (has_code (six_digits 7)) (old_claim ∷ []) ≡ false
unfolding six_digits
seven-free = refl

create_pairing_claim_succeeds_example :
    (cs' : List Claim) × (c : Claim) × (create_pairing_claim same draw 10
        (ear ∷ [])
        (old_claim ∷ [])
        1
        "EAR"
        (ℤ.pos 60)
      ≡ ok (cs', c))
create_pairing_claim_succeeds_example =
    create_pairing_claim_succeeds same draw 10 (ear ∷ []) (old_claim ∷ []) 1 "EAR" (ℤ.pos 60) 1 7
      ear-named ear-owned (omega arith) draws refl seven-free

code-plain : trim_space " 000007" ≡ first_claim.claim_code
unfolding trim_space
code-plain = refl

ear-found : find (owned_active 1 (normalize_uid same "EAR")) (ear ∷ []) ≡ some ear
unfolding trim_space
ear-found = refl

confirm_pairing_claim-create_pairing_claim_example :
    confirm_pairing_claim 20 (ear ∷ []) (old_claim ∷ first_claim ∷ []) 1 " 000007" "desk" ≡ (
      (old_claim ∷ []) ++ consume 20 (trim_space "desk") first_claim ∷ [],
      some (ear, consume 20 (trim_space "desk") first_claim),
    )
confirm_pairing_claim-create_pairing_claim_example =
    confirm_pairing_claim-create_pairing_claim same draw 10 20 (ear ∷ []) (ear ∷ [])
      (old_claim ∷ []) (old_claim ∷ first_claim ∷ []) 1 "EAR" " 000007" "desk" (ℤ.pos 60)
      first_claim ear creates code-plain (omega arith) ear-found

alone : List Claim
alone = new_claim 10 1 "EAR" "000042" 60 ∷ []

creates_alone :
    create_pairing_claim same draw 10 (ear ∷ []) [] 1 "EAR" (ℤ.pos 60)
    ≡ ok (alone, new_claim 10 1 "EAR" "000042" 60)
unfolding create_pairing_claim trim_space alone
creates_alone = refl

before : Reach same [] alone
before =
    later start (
      create draw 10 (ear ∷ []) 1 "EAR" (ℤ.pos 60) (new_claim 10 1 "EAR" "000042" 60) creates_alone)

spent : Claim
unfolding consume
spent = consume 20 "desk" (new_claim 10 1 "EAR" "000042" 60)

confirms :
    confirm_pairing_claim 20 (ear ∷ []) alone 1 "000042" "desk" ≡ (spent ∷ [], some (ear, spent))
unfolding confirm_pairing_claim trim_space alone spent
confirms = refl

confirm_pairing_claim_once_example :
    confirm_pairing_claim 30
      (ear ∷ [])
      (confirm_pairing_claim 25 (ear ∷ []) (spent ∷ []) 1 "000042" "hall").0
      1
      "000042"
      "hall"
    ≡ ((confirm_pairing_claim 25 (ear ∷ []) (spent ∷ []) 1 "000042" "hall").0, none)
confirm_pairing_claim_once_example =
    confirm_pairing_claim_once same 20 (ear ∷ []) alone (spent ∷ [])
      (confirm_pairing_claim 25 (ear ∷ []) (spent ∷ []) 1 "000042" "hall").0 1 "000042" "desk" ear
      spent 30 1 (ear ∷ []) "hall" before confirms
      (later start (confirm 25 (ear ∷ []) 1 "000042" "hall"))
