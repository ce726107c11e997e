-- ===== src/Database/Pairing/Unique.antt =====
-- The codes of `pairing_claims` (migrations/001_schema.sql) under the operations of
-- internal/database/agent_repository.go.
use echoear_cloud.Base.{
  ℕ, String, Bool, false, ◌≡◌, refl, List, [], ◌∷◌, ◌++◌, ◌||◌, arith, any, eq_iff,
}
use echoear_cloud.Database.Rows.{update_where}
use echoear_cloud.Database.Pairing.{Claim, has_code, consume}

-- Codes are unique, as the column of `pairing_claims` is.
abbrev pub UniqueCodes : List Claim → Type 0
UniqueCodes [] = Unit
UniqueCodes (c ∷ cs) = (any (has_code c.claim_code) cs ≡ false) × UniqueCodes cs

pub any-consume :
    (p : Claim → Bool) (asked : String) (now : ℕ) (agent : String) (cs : List Claim)
    → any (has_code asked) (update_where p (consume now agent) cs) ≡ any (has_code asked) cs
unfolding consume
any-consume p asked now agent [] = refl
any-consume p asked now agent (c ∷ cs) = ground (arith, any-consume p asked now agent cs)

pub any-append :
    (p : Claim → Bool) (cs : List Claim) (c : Claim) → any p (cs ++ c ∷ []) ≡ (any p cs || p c)
any-append p [] c = ground arith
any-append p (x ∷ cs) c = ground (arith, any-append p cs c)

pub UniqueCodes-append :
    (cs : List Claim) (c : Claim)
    → UniqueCodes cs
    → any (has_code c.claim_code) cs ≡ false
    → UniqueCodes (cs ++ c ∷ [])
UniqueCodes-append [] c h new = (refl, tt)
UniqueCodes-append (x ∷ cs) c (fresh, h) new = (
  ground (
    arith,
    any-append (has_code x.claim_code) cs c,
    eq_iff x.claim_code c.claim_code,
    eq_iff c.claim_code x.claim_code,
  ),
  UniqueCodes-append cs c h (ground arith),
)

pub UniqueCodes-consume :
    (p : Claim → Bool) (now : ℕ) (agent : String) (cs : List Claim)
    → UniqueCodes cs
    → UniqueCodes (update_where p (consume now agent) cs)
unfolding consume
UniqueCodes-consume p now agent [] h = tt
UniqueCodes-consume p now agent (c ∷ cs) (fresh, h) =
    (ground (arith, any-consume p c.claim_code now agent cs), UniqueCodes-consume p now agent cs h)
