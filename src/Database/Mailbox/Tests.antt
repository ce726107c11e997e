-- ===== src/Database/Mailbox/Tests.antt =====
-- The theorems on the queue of requests at a small table.
use echoear_cloud.Base.{
  ℕ, String, Bool, false, ◌≡◌, refl, Option, none, List, [], ◌∷◌, trim_space, ℤ, pos_part,
}
use echoear_cloud.Database.Mailbox.{Command, claim, ack_command, take_command}
use echoear_cloud.Database.Mailbox.Moves.{Pairwise}
use echoear_cloud.Database.Mailbox.Outcomes.{AckMove, ack_command-Moves}

abbrev command : ℕ → String → ℕ → Command
command id status expires = record {
  id = id;
  user_id = 1;
  agent_id = "mac";
  request_id = "request1";
  payload = "{}";
  status = status;
  result = "{}";
  created_at = 0;
  expires_at = expires;
  claimed_at = none;
  completed_at = none;
}

abbrev queue : List Command
queue = command 1 "pending" 10 ∷ command 2 "pending" 90 ∷ command 3 "pending" 90 ∷ []

abbrev unlocked : ℕ → Bool
unlocked id = false

abbrev same : String → String
same s = s

abbrev no_objects : String → Option String
no_objects s = none

claimed :
    (claim unlocked 20 queue 1 "mac" (ℤ.pos 1)).1 ≡ take_command 20 (command 2 "pending" 90) ∷ []
unfolding claim trim_space
claimed = refl

ack_command-Moves_example :
    Pairwise
      (AckMove 20 1 (pos_part (ℤ.pos 2)))
      queue
      (ack_command same no_objects 20 queue 1 (ℤ.pos 2) "completed" "{}").0
ack_command-Moves_example = ack_command-Moves same no_objects 20 queue 1 (ℤ.pos 2) "completed" "{}"
