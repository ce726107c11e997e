-- ===== src/Database/Mailbox/Outcomes.antt =====
-- `ackHapiCommand` of internal/api/echoear_handlers.go with `CompleteHapiConnection` of
-- internal/database/agent_repository.go, row by row.
use echoear_cloud.Base.{
  ℕ, String, true, false, ◌≡◌, ◌<◌, refl, ◌⊎◌, inl, inr, Option, List, [], ◌∷◌, if◌then◌else◌,
  arith, eq_iff, Bool-cases, trim_space, ℤ, pos_part, is_positive,
}
use echoear_cloud.Database.Rows.{update_where, json_or_empty}
use echoear_cloud.Database.Mailbox.{
  Command, is_completable, complete_command, complete, is_outcome, ack_command,
}
use echoear_cloud.Database.Mailbox.Moves.{Pairwise}

-- A row stays; or it is the user's row of the id, is still waiting and in time, and gets its outcome.
pub data AckMove (now user id : ℕ) (c : Command) : Command → Type 0 where
  same : {d : Command} → d ≡ c → AckMove now user id c d
  ends :
      {status result : String} {d : Command}
      → c.user_id ≡ user
      → c.id ≡ id
      → (c.status ≡ "pending") ⊎ (c.status ≡ "claimed")
      → now < c.expires_at
      → (status ≡ "completed") ⊎ (status ≡ "rejected")
      → d ≡ complete_command now status result c
      → AckMove now user id c d

ack_row :
    (now user id : ℕ) (status result : String) (c : Command)
    → is_outcome status ≡ true
    → AckMove now user id c
        (if is_completable now user id c then complete_command now status result c else c)
ack_row now user id status result c outcome = go (Bool-cases (is_completable now user id c))
  where
    go :
        (is_completable now user id c ≡ true) ⊎ (is_completable now user id c ≡ false)
        → AckMove now user id c
            (if is_completable now user id c then complete_command now status result c else c)
    go (inl fits) = rw fits (
        ends (ground arith) (ground arith)
          (ground (arith, eq_iff c.status "pending", eq_iff c.status "claimed")) (ground arith)
          (ground (arith, eq_iff status "completed", eq_iff status "rejected")) refl)
    go (inr shut) = rw shut (same refl)

complete-Moves :
    (now user id : ℕ) (status result : String) (cs : List Command)
    → is_outcome status ≡ true
    → Pairwise
        (AckMove now user id)
        cs
        (update_where (is_completable now user id) (complete_command now status result) cs)
complete-Moves now user id status result [] outcome = tt
complete-Moves now user id status result (c ∷ cs) outcome = (
  ack_row now user id status result c outcome,
  complete-Moves now user id status result cs outcome,
)

all_same : (now user id : ℕ) (cs : List Command) → Pairwise (AckMove now user id) cs cs
all_same now user id [] = tt
all_same now user id (c ∷ cs) = (same refl, all_same now user id cs)

-- An acknowledgement changes only the row of the given id, and only if it is the user's, still pending
-- or claimed, and in time; the row then becomes "completed" or "rejected", whatever text was sent.
-- Every other row, those that have an outcome or have expired among them, stays as it was.
pub ack_command-Moves :
    (lower : String → String) (decode : String → Option String) (now : ℕ) (cs : List Command)
    (user : ℕ) (id : ℤ) (status result : String)
    → Pairwise
        (AckMove now user (pos_part id))
        cs
        (ack_command lower decode now cs user id status result).0
unfolding ack_command
ack_command-Moves lower decode now cs user id status result =
    go (Bool-cases (is_positive id)) (Bool-cases (is_outcome (lower (trim_space status))))
  where
    go :
        (is_positive id ≡ true) ⊎ (is_positive id ≡ false)
        → (is_outcome (lower (trim_space status)) ≡ true)
          ⊎ (is_outcome (lower (trim_space status)) ≡ false)
        → Pairwise
            (AckMove now user (pos_part id))
            cs
            (ack_command lower decode now cs user id status result).0
    go (inr p) o = rw (p, ack_command, if◌then◌else◌) (all_same now user (pos_part id) cs)
    go (inl p) (inr o) = rw (p, o, ack_command, if◌then◌else◌) (all_same now user (pos_part id) cs)
    go (inl p) (inl o) =
        rw (p, o, ack_command, complete, if◌then◌else◌)
          (complete-Moves now user (pos_part id) (lower (trim_space status))
            (json_or_empty decode result) cs o)
