-- ===== src/Database/Shares/Tests.antt =====
-- The theorems on shares at a small database.
use echoear_cloud.Base.{
  arith, eq_iff, String, false, ◌≡◌, refl, Option, none, some, [], ◌∷◌, find, trim_space,
}
use echoear_cloud.Database.Rows.{ok, Share, Db}
use echoear_cloud.Database.Shares.{accept, Change, transition_share, has_share_id, share_audit}
use echoear_cloud.Database.Shares.Open.{UniqueOpen, UniqueShareIds}
use echoear_cloud.Database.Shares.Unique.{moved, starting, next, IsKeyed, ShareReach-IsKeyed}
use echoear_cloud.Database.Shares.Status.{Move, Follows, transition_share-Move}

abbrev invitation : Share
invitation = record {
  id = "s1";
  agent_id = 7;
  owner_user_id = 1;
  grantee_user_id = 2;
  status = "pending";
  valid_from = 10;
  valid_until = some 900;
  policy = "{}";
  policy_version = 1;
  accepted_at = none;
  accepted_by = none;
  declined_at = none;
  revoked_at = none;
  revoked_by = none;
  revoke_reason = "";
  created_by = 1;
  created_at = 10;
  updated_at = 10;
}

abbrev invited : Db
invited = record {
  users = [];
  sessions = [];
  agents = [];
  shares = invitation ∷ [];
  leases = [];
  audit = [];
  usage_days = [];
  usage_events = [];
}

abbrev no_change : Change
no_change = record { reason = ""; policy = ""; valid_from = none; valid_until = none }

abbrev no_objects : String → Option String
no_objects s = none

accepted : Share
accepted = record invitation {
  status = "active";
  updated_at = 20;
  accepted_at = some 20;
  accepted_by = some 2;
}

accepted_db : Db
unfolding accepted share_audit
accepted_db = record invited {
  shares = accepted ∷ [];
  audit = share_audit 20 2 "share.accept" invitation "" "{}" ∷ [];
}

accept_once :
    transition_share no_objects 20 invited 2 "s1" accept no_change false
    ≡ ok (accepted_db, accepted)
unfolding transition_share accepted_db accepted share_audit trim_space
accept_once = refl

transition_share-Move_example :
    (s : Share) × (find (has_share_id "s1") invited.shares ≡ some s)
    × Move s 2 false accept accepted.status
    × Follows s accepted accept
    × (find (has_share_id "s1") accepted_db.shares ≡ some accepted)
    × (find (has_share_id "s2") accepted_db.shares ≡ find (has_share_id "s2") invited.shares)
transition_share-Move_example =
    transition_share-Move no_objects 20 invited accepted_db 2 "s1" accept no_change false accepted
      "s2" accept_once (ground (arith, eq_iff "s2" "s1"))

invited-UniqueShareIds : UniqueShareIds invited.shares
invited-UniqueShareIds = (tt, tt)

invited-UniqueOpen : UniqueOpen invited.shares
invited-UniqueOpen = (λ h. tt, tt)

ShareReach-IsKeyed_example : IsKeyed accepted_db.shares
ShareReach-IsKeyed_example = ShareReach-IsKeyed (
    next (starting (invited-UniqueShareIds, invited-UniqueOpen))
      (moved no_objects 20 2 "s1" accept no_change false accepted accept_once))
