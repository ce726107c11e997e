-- ===== src/Database/Pairing/Claims.antt =====
-- What `CreatePairingClaim` of internal/database/agent_repository.go allocates.
use echoear_cloud.Base.{
  ℕ, zero, suc, String, true, false, ◌≡◌, ◌≢◌, ◌≤◌, ◌<◌, ◌+◌, ◌*◌, refl, ◌⊎◌, inl, inr, Option,
  none, some, List, [], ◌∷◌, ◌++◌, arith, not, any, is_empty, ℤ, Bool-cases, Option-cases,
}
use echoear_cloud.Database.Rows.{no_rows, device_uid_required, Result, ok, guard-eq_ok}
use echoear_cloud.Database.Devices.{Device, normalize_uid}
use echoear_cloud.Database.Pairing.{
  Claim, owned_active, has_code, claim_ttl, new_claim, insert_claim, allocate, create_pairing_claim,
}
use echoear_cloud.Database.Pairing.Digits.{six_digits}

-- One of the attempts drew a number whose code no claim has.
pub record Drawn (draw : ℕ → Option ℕ) (cs : List Claim) (first last : ℕ) (code : String)
    : Type 0 where
  pub attempt : ℕ
  pub number : ℕ
  pub in_time : (first ≤ attempt) × (attempt < last)
  pub drew : draw attempt ≡ some number
  pub printed : code ≡ six_digits number
  pub free : any (has_code code) cs ≡ false

claim_ttl_bounds : (seconds : ℤ) → (30 ≤ claim_ttl seconds) × (claim_ttl seconds ≤ 600)
unfolding claim_ttl
claim_ttl_bounds (ℤ.pos n) = ground arith
claim_ttl_bounds (ℤ.negsuc n) = ground arith

insert_claim-eq_ok :
    (row : String → Claim) (cs cs' : List Claim) (rest : Result (List Claim × Claim))
    (drawn : Option ℕ) (c : Claim)
    → insert_claim row cs rest drawn ≡ ok (cs', c)
    → (rest ≡ ok (cs', c))
      ⊎ ((n : ℕ) × (drawn ≡ some n)
          × (any (has_code (six_digits n)) cs ≡ false)
          × (c ≡ row (six_digits n))
          × (cs' ≡ cs ++ c ∷ []))
unfolding insert_claim
insert_claim-eq_ok row cs cs' rest none c e = cc
insert_claim-eq_ok row cs cs' rest (some n) c e =
    elim (Bool-cases (any (has_code (six_digits n)) cs)) [
      | inl taken ↦ inl (rw taken at e)
      | inr free ↦
          let stored : ◌≡◌ {A = Result (List Claim × Claim)}
              (ok (cs ++ row (six_digits n) ∷ [], row (six_digits n))) (ok (cs', c)) =
            rw free at e in
          inr (n, refl, free, ground arith, ground arith)
    ]

allocate-Drawn :
    (draw : ℕ → Option ℕ) (row : String → Claim) (left attempt : ℕ) (cs cs' : List Claim)
    (c : Claim)
    → allocate draw row left attempt cs ≡ ok (cs', c)
    → (code : String) × Drawn draw cs attempt (attempt + left) code
      × (c ≡ row code)
      × (cs' ≡ cs ++ c ∷ [])
unfolding allocate
allocate-Drawn draw row zero attempt cs cs' c e = cc
allocate-Drawn draw row (suc left) attempt cs cs' c e =
    elim (insert_claim-eq_ok row cs cs' _ (draw attempt) c e) [
      | inl later ↦
          let (code, d, row_of, rows) = allocate-Drawn draw row left (attempt + 1) cs cs' c later in
          (
            code,
            record {
              attempt = d.attempt;
              number = d.number;
              in_time = ground (arith, d.in_time);
              drew = d.drew;
              printed = d.printed;
              free = d.free;
            },
            row_of,
            rows,
          )
      | inr (n, drew, free, row_of, rows) ↦ (
        six_digits n,
        record {
          attempt = attempt;
          number = n;
          in_time = ground arith;
          drew = drew;
          printed = refl;
          free = free;
        },
        row_of,
        rows,
      )
    ]

-- If an attempt draws a free code and no draw before it fails, a claim is allocated.
allocate_succeeds :
    (draw : ℕ → Option ℕ) (row : String → Claim) (left attempt k n : ℕ) (cs : List Claim)
    → attempt ≤ k
    → k < attempt + left
    → ((i : ℕ) → i ≤ k → draw i ≢ none)
    → draw k ≡ some n
    → any (has_code (six_digits n)) cs ≡ false
    → (cs' : List Claim) × (c : Claim) × (allocate draw row left attempt cs ≡ ok (cs', c))
unfolding allocate
allocate_succeeds draw row zero attempt k n cs low high drawn e free = absurd (omega arith)
allocate_succeeds draw row (suc left) attempt k n cs low high drawn e free =
    go (Option-cases (draw attempt)) (allocate_succeeds draw row left (attempt + 1) k n cs)
  where
    go :
        (draw attempt ≡ none) ⊎ ((m : ℕ) × (draw attempt ≡ some m))
        → (attempt + 1 ≤ k
            → k < attempt + 1 + left
            → ((i : ℕ) → i ≤ k → draw i ≢ none)
            → draw k ≡ some n
            → any (has_code (six_digits n)) cs ≡ false
            → (cs' : List Claim) × (c : Claim) × (allocate draw row left (attempt + 1) cs
                ≡ ok (cs', c)))
        → (cs' : List Claim) × (c : Claim) × (allocate draw row (suc left) attempt cs ≡ ok (cs', c))
    go (inl failed) next = absurd (drawn attempt low failed)
    go (inr (m, drew)) next = elim (Bool-cases (any (has_code (six_digits m)) cs)) [
      | inl taken ↦
          let after : attempt ≢ k = λ same. cc (e, drew, same, taken, free) in
          let (cs', c, rest) = next (omega arith) (omega arith) drawn e free in
          (cs', c, rw (drew, insert_claim) (rw taken rest))
      | inr new ↦
          (cs ++ row (six_digits m) ∷ [], row (six_digits m), rw (drew, insert_claim) (rw new refl))
    ]

module _ (upper : String → String) (draw : ℕ → Option ℕ) where
  -- What a claim that `CreatePairingClaim` returns is like.
  pub record IsClaim (now : ℕ) (ds : List Device) (cs cs' : List Claim) (user : ℕ) (uid : String)
      (c : Claim) : Type 0 where
    pub drawn : Drawn draw cs 0 5 c.claim_code
    pub device : any (owned_active user uid) ds ≡ true
    pub owner : (c.user_id ≡ user) × (c.device_uid ≡ uid)
    pub unused : c.consumed_at ≡ none
    pub lives : (now + 30 * 1000000 ≤ c.expires_at) × (c.expires_at ≤ now + 600 * 1000000)
    pub rows : cs' ≡ cs ++ c ∷ []

  -- A claim is created only for an active device of its user; its code is drawn within five attempts
  -- and no claim has it yet; it is unused and expires in 30 to 600 seconds; no other row changes.
  pub create_pairing_claim-IsClaim :
      (now : ℕ) (ds : List Device) (cs cs' : List Claim) (user : ℕ) (uid : String) (seconds : ℤ)
      (c : Claim)
      → create_pairing_claim upper draw now ds cs user uid seconds ≡ ok (cs', c)
      → IsClaim now ds cs cs' user (normalize_uid upper uid) c
  unfolding create_pairing_claim
  create_pairing_claim-IsClaim now ds cs cs' user uid seconds c e =
      let key = normalize_uid upper uid in
      let (named, e1) = guard-eq_ok (not (is_empty key)) device_uid_required _ e in
      let (found, e2) = guard-eq_ok (any (owned_active user key) ds) no_rows _ e1 in
      let (code, d, row_of, rows) =
        allocate-Drawn draw (λ code. new_claim now user key code (claim_ttl seconds)) 5 0 cs cs' c
          e2 in
      let same : c.claim_code ≡ code = ground arith in
      record {
        drawn = rw same d;
        device = found;
        owner = ground arith;
        unused = ground arith;
        lives = ground (arith, claim_ttl_bounds seconds);
        rows = rows;
      }

  -- A user with an active device gets a claim if, of the five numbers that may be drawn, one has a code
  -- that no claim has and no draw up to it fails.
  pub create_pairing_claim_succeeds :
      (now : ℕ) (ds : List Device) (cs : List Claim) (user : ℕ) (uid : String) (seconds : ℤ)
      (k n : ℕ)
      → is_empty (normalize_uid upper uid) ≡ false
      → any (owned_active user (normalize_uid upper uid)) ds ≡ true
      → k < 5
      → ((i : ℕ) → i ≤ k → draw i ≢ none)
      → draw k ≡ some n
      → any (has_code (six_digits n)) cs ≡ false
      → (cs' : List Claim) × (c : Claim) × (create_pairing_claim upper draw now ds cs user uid
            seconds
          ≡ ok (cs', c))
  unfolding create_pairing_claim
  create_pairing_claim_succeeds now ds cs user uid seconds k n named found soon drawn e free =
      rw (named, found)
        (allocate_succeeds draw
          (λ code. new_claim now user (normalize_uid upper uid) code (claim_ttl seconds)) 5 0 k n cs
          (omega arith) (omega arith) drawn e free)
