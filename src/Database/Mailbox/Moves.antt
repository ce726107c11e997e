-- ===== src/Database/Mailbox/Moves.antt =====
-- What happens to a command: `ClaimHapiConnections` and `CompleteHapiConnection` of
-- internal/database/agent_repository.go, row by row.
use echoear_cloud.Base.{ℕ, String, Bool, false, ◌≡◌, ◌≤◌, ◌<◌, ◌⊎◌, List, [], ◌∷◌, some}
use echoear_cloud.Database.Mailbox.{Command}

-- Two tables with the same rows at the same places, each pair related.
abbrev pub Pairwise : (Command → Command → Type 0) → List Command → List Command → Type 0
Pairwise R [] [] = Unit
Pairwise R [] (y ∷ ys) = ⊥
Pairwise R (x ∷ xs) [] = ⊥
Pairwise R (x ∷ xs) (y ∷ ys) = R x y × Pairwise R xs ys

-- The row waits, and its time is over.
abbrev pub IsOverdue : ℕ → Command → Type 0
IsOverdue now c = ((c.status ≡ "pending") ⊎ (c.status ≡ "claimed")) × (c.expires_at ≤ now)

-- The row is the user's, for the agent, pending, in time, and held by no other transaction.
pub record IsReady (locked : ℕ → Bool) (now user : ℕ) (agent : String) (c : Command) : Type 0 where
  pub of_user : c.user_id ≡ user
  pub of_agent : c.agent_id ≡ agent
  pub pending : c.status ≡ "pending"
  pub in_time : now < c.expires_at
  pub free : locked c.id ≡ false

-- What a claim makes of a table, row by row, and what it returns: a row
-- that is overdue expires; any other stays as it was, or, if it is ready, is marked as claimed at that time
-- and returned with that mark.
pub data Claiming (locked : ℕ → Bool) (now user : ℕ) (agent : String)
    : List Command → List Command → List Command → Type 0 where
  ends : Claiming locked now user agent [] [] []
  expires :
      {c : Command} {cs ds rs : List Command}
      → IsOverdue now c
      → Claiming locked now user agent cs ds rs
      → Claiming locked now user agent
          (c ∷ cs)
          (record c { status = "expired"; completed_at = some now } ∷ ds)
          rs
  stays :
      {c : Command} {cs ds rs : List Command}
      → (IsOverdue now c → ⊥)
      → Claiming locked now user agent cs ds rs
      → Claiming locked now user agent (c ∷ cs) (c ∷ ds) rs
  claims :
      {c : Command} {cs ds rs : List Command}
      → IsReady locked now user agent c
      → Claiming locked now user agent cs ds rs
      → Claiming locked now user agent
          (c ∷ cs)
          (record c { status = "claimed"; claimed_at = some now } ∷ ds)
          (record c { status = "claimed"; claimed_at = some now } ∷ rs)
