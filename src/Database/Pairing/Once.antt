-- ===== src/Database/Pairing/Once.antt =====
-- A claim code of internal/database/agent_repository.go is confirmed at most once.
use echoear_cloud.Base.{
  ℕ, String, Bool, true, false, ◌≡◌, refl, ◌⊎◌, inl, inr, Option, none, some, List, [], ◌∷◌, arith,
  any, find, All, All-append, eq_iff, ℤ, Bool-cases, trim_space, is_some, if-cases,
}
use echoear_cloud.Database.Rows.{ok, update_where}
use echoear_cloud.Database.Devices.{Device}
use echoear_cloud.Database.Pairing.{
  Claim, has_code, confirmable, consume, with_claim, confirm_pairing_claim, create_pairing_claim,
}
use echoear_cloud.Database.Pairing.Confirmed.{confirm-IsConfirmed, confirm-cases}
use echoear_cloud.Database.Pairing.Unique.{
  UniqueCodes, any-append, any-consume, UniqueCodes-append, UniqueCodes-consume,
}
use echoear_cloud.Database.Pairing.Claims.{create_pairing_claim-IsClaim}

-- The code stands in the table, and no row that has it can be confirmed.
abbrev pub IsSpent : String → List Claim → Type 0
IsSpent code cs =
    (any (has_code code) cs ≡ true)
    × All (λ c. has_code code c ≡ true → is_some c.consumed_at ≡ true) cs

-- What the two operations do to the table, with any arguments at any time.
pub data Step (upper : String → String) : List Claim → List Claim → Type 0 where
  create :
      (draw : ℕ → Option ℕ) (now : ℕ) (ds : List Device) {cs cs' : List Claim} (user : ℕ)
      (uid : String) (seconds : ℤ) (c : Claim)
      → create_pairing_claim upper draw now ds cs user uid seconds ≡ ok (cs', c)
      → Step upper cs cs'
  confirm :
      (now : ℕ) (ds : List Device) {cs : List Claim} (user : ℕ) (code agent : String)
      → Step upper cs (confirm_pairing_claim now ds cs user code agent).0

pub data Reach (upper : String → String) (cs : List Claim) : List Claim → Type 0 where
  start : Reach upper cs cs
  later : {mid last : List Claim} → Reach upper cs mid → Step upper mid last → Reach upper cs last

IsSpent-consume :
    (p : Claim → Bool) (code : String) (now : ℕ) (agent : String) (cs : List Claim)
    → All (λ c. has_code code c ≡ true → is_some c.consumed_at ≡ true) cs
    → All
        (λ c. has_code code c ≡ true → is_some c.consumed_at ≡ true)
        (update_where p (consume now agent) cs)
unfolding consume
IsSpent-consume p code now agent [] h = tt
IsSpent-consume p code now agent (c ∷ cs) (here, h) = (
  if-cases (λ (x : Claim). has_code code x ≡ true → is_some x.consumed_at ≡ true) (p c) _ c
      (λ hit named. refl) (λ miss. here),
  IsSpent-consume p code now agent cs h,
)

confirm-none :
    (now : ℕ) (ds : List Device) (cs : List Claim) (user : ℕ) (code agent : String)
    → All (λ c. has_code (trim_space code) c ≡ true → is_some c.consumed_at ≡ true) cs
    → confirm_pairing_claim now ds cs user code agent ≡ (cs, none)
unfolding confirm_pairing_claim
confirm-none now ds cs user code agent h = rw (unfound cs h, with_claim) refl
  where
    unfound :
        (rows : List Claim)
        → All (λ c. has_code (trim_space code) c ≡ true → is_some c.consumed_at ≡ true) rows
        → find (confirmable now user (trim_space code)) rows ≡ none
    unfound [] h = refl
    unfound (c ∷ rows) (here, h) = ground (arith, here, unfound rows h)

absent_spent :
    (code : String) (cs : List Claim)
    → any (has_code code) cs ≡ false
    → All (λ c. has_code code c ≡ true → is_some c.consumed_at ≡ true) cs
absent_spent code [] h = tt
absent_spent code (c ∷ cs) h =
    (λ named. ground (arith, h, named), absent_spent code cs (ground arith))

found_any :
    (now user : ℕ) (code : String) (cs : List Claim) (c : Claim)
    → find (confirmable now user code) cs ≡ some c
    → any (has_code code) cs ≡ true
found_any now user code [] c e = cc
found_any now user code (x ∷ cs) c e = ground (arith, found_any now user code cs c)

-- Consuming the row that is found leaves none with its code that is not consumed.
consume_spends :
    (now user : ℕ) (code agent : String) (cs : List Claim) (c : Claim)
    → UniqueCodes cs
    → find (confirmable now user code) cs ≡ some c
    → All
        (λ c. has_code code c ≡ true → is_some c.consumed_at ≡ true)
        (update_where (confirmable now user code) (consume now agent) cs)
unfolding consume
consume_spends now user code agent [] c h e = cc
consume_spends now user code agent (x ∷ cs) c (fresh, h) e =
    go (Bool-cases (confirmable now user code x)) (consume_spends now user code agent cs c h)
  where
    go :
        (confirmable now user code x ≡ true) ⊎ (confirmable now user code x ≡ false)
        → (find (confirmable now user code) cs ≡ some c
            → All
                (λ c. has_code code c ≡ true → is_some c.consumed_at ≡ true)
                (update_where (confirmable now user code) (consume now agent) cs))
        → All
            (λ c. has_code code c ≡ true → is_some c.consumed_at ≡ true)
            (update_where (confirmable now user code) (consume now agent) (x ∷ cs))
    go (inl hit) rest =
        let free : any (has_code code) cs ≡ false = ground (arith, eq_iff x.claim_code code) in
        (
          rw hit (λ named. refl),
          IsSpent-consume (confirmable now user code) code now agent cs (absent_spent code cs free),
        )
    go (inr miss) rest =
        let found : find (confirmable now user code) cs ≡ some c = rw miss at e in
        (
          rw miss (λ named.
              ground (arith, named, eq_iff x.claim_code code, found_any now user code cs c found)),
          rest found,
        )

Step-UniqueCodes :
    {upper : String → String} {cs cs' : List Claim}
    → Step upper cs cs'
    → UniqueCodes cs
    → UniqueCodes cs'
Step-UniqueCodes {upper} {cs} {cs'} (create draw now ds user uid seconds c e) h =
    let made = create_pairing_claim-IsClaim upper draw now ds cs cs' user uid seconds c e in
    rw made.rows (UniqueCodes-append cs c h made.drawn.free)
Step-UniqueCodes {cs} (confirm now ds user code agent) h =
    elim (confirm-cases now ds cs user code agent) [
      | inl same ↦ rw same h
      | inr rows ↦ rw rows (UniqueCodes-consume _ now (trim_space agent) cs h)
    ]

-- Claim codes stay unique, whatever claims are created and confirmed.
pub Reach-UniqueCodes :
    {upper : String → String} {cs : List Claim} → Reach upper [] cs → UniqueCodes cs
Reach-UniqueCodes start = tt
Reach-UniqueCodes (later r step) = Step-UniqueCodes step (Reach-UniqueCodes r)

Step-IsSpent :
    {upper : String → String} {cs cs' : List Claim} (code : String)
    → Step upper cs cs'
    → IsSpent code cs
    → IsSpent code cs'
Step-IsSpent {upper} {cs} {cs'} code (create draw now ds user uid seconds c e) (there, h) =
    let made = create_pairing_claim-IsClaim upper draw now ds cs cs' user uid seconds c e in
    let other : has_code code c ≡ false =
      ground (arith, made.drawn.free, there, eq_iff c.claim_code code) in
    rw made.rows (
      ground (arith, any-append (has_code code) cs c),
      All-append (λ c. has_code code c ≡ true → is_some c.consumed_at ≡ true) cs (c ∷ []) h
          (λ named. ground (arith, other, named), tt),
    )
Step-IsSpent {cs} code (confirm now ds user asked agent) (there, h) =
    elim (confirm-cases now ds cs user asked agent) [
      | inl same ↦ rw same (there, h)
      | inr rows ↦ rw rows (
        ground (
          arith,
          any-consume (confirmable now user (trim_space asked)) code now (trim_space agent) cs,
        ),
        IsSpent-consume _ code now (trim_space agent) cs h,
      )
    ]

Reach-IsSpent :
    {upper : String → String} {cs cs' : List Claim} (code : String)
    → Reach upper cs cs'
    → IsSpent code cs
    → IsSpent code cs'
Reach-IsSpent code start h = h
Reach-IsSpent code (later r step) h = Step-IsSpent code step (Reach-IsSpent code r h)

confirm-IsSpent :
    (now : ℕ) (ds : List Device) (cs cs' : List Claim) (user : ℕ) (code agent : String) (d : Device)
    (c : Claim)
    → UniqueCodes cs
    → confirm_pairing_claim now ds cs user code agent ≡ (cs', some (d, c))
    → IsSpent (trim_space code) cs'
confirm-IsSpent now ds cs cs' user code agent d c unique e =
    let done = confirm-IsConfirmed now ds cs cs' user code agent d c e in
    rw done.rows (
      rw
          (any-consume (confirmable now user (trim_space code)) (trim_space code) now
            (trim_space agent) cs)
          (found_any now user (trim_space code) cs done.row done.found),
      consume_spends now user (trim_space code) (trim_space agent) cs done.row unique done.found,
    )

-- Once a claim has been confirmed, its code is never confirmed again: not by any user, for any agent,
-- at any time, whatever claims are created and confirmed in between.
pub confirm_pairing_claim_once :
    (upper : String → String) (now : ℕ) (ds : List Device) (cs cs' last : List Claim) (user : ℕ)
    (code agent : String) (d : Device) (c : Claim) (again user' : ℕ) (ds' : List Device)
    (agent' : String)
    → Reach upper [] cs
    → confirm_pairing_claim now ds cs user code agent ≡ (cs', some (d, c))
    → Reach upper cs' last
    → confirm_pairing_claim again ds' last user' code agent' ≡ (last, none)
confirm_pairing_claim_once upper now ds cs cs' last user code agent d c again user' ds' agent'
      before e after =
    let spent =
      Reach-IsSpent (trim_space code) after
        (confirm-IsSpent now ds cs cs' user code agent d c (Reach-UniqueCodes before) e) in
    confirm-none again ds' last user' code agent' spent.1
