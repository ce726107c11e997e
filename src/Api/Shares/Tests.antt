-- ===== src/Api/Shares/Tests.antt =====
-- The theorem on policies at an invitation whose policy is changed.

use Prim.Native.String.len
use echoear_cloud.Base.{
  ℕ, zero, suc, String, len, true, false, ◌≡◌, ◌≤◌, refl, ap, Option, none, some, [], ◌∷◌, arith, ℤ,
  trim_space, ◌==◌, In,
}
use echoear_cloud.Database.Rows.{Error, Share, Db, json_or_empty}
use echoear_cloud.Database.Shares.{share_audit, transition_share, allowed, write_row}
use echoear_cloud.Api.Http.{done}
use echoear_cloud.Api.Shares.{
  SharePolicy, ShareRequest, accepts_policy, normalize_share_policy, update_agent_share,
  update_with_policy, after_transition,
}
use echoear_cloud.Api.Shares.Limited.{IsJson, updated, Gives-limited}

abbrev same : String → String
same s = s

abbrev some_object : String → Option String
some_object s = some s

abbrev no_text : Error → String
no_text e = ""

abbrev policy : SharePolicy
policy = record {
  allowed_flavors = "claude" ∷ [];
  allowed_models = ("claude", "opus" ∷ []) ∷ [];
  workspace_roots = "/home/ada" ∷ [];
  task_permissions = [];
  directory_browse = true;
  upload = false;
  download = false;
  terminal = false;
  tool_approval = true;
  settings_change = false;
  model_change = false;
  max_permission_mode = "plan";
  max_concurrent_tasks = ℤ.pos 2;
  max_tasks_per_day = ℤ.pos 5;
}

-- A printer that keeps the limit alone, as the length of its text: odd for a natural number.
abbrev pairs : ℕ → String
pairs zero = String.[]
pairs (suc n) = String.◌∷◌ "x" (String.◌∷◌ "x" (pairs n))

abbrev print_limit : ℤ → String
print_limit (ℤ.pos n) = String.◌∷◌ "x" (pairs n)
print_limit (ℤ.negsuc n) = String.◌∷◌ "x" (String.◌∷◌ "x" (pairs n))

abbrev print_policy : SharePolicy → String
print_policy p = print_limit p.max_tasks_per_day

abbrev one_more : ℤ → ℤ
one_more (ℤ.pos n) = ℤ.pos (suc n)
one_more (ℤ.negsuc n) = ℤ.negsuc (suc n)

abbrev limit_of : String → ℤ
limit_of String.[] = ℤ.pos 0
limit_of (String.◌∷◌ c String.[]) = ℤ.pos 0
limit_of (String.◌∷◌ c (String.◌∷◌ d String.[])) = ℤ.negsuc 0
limit_of (String.◌∷◌ c (String.◌∷◌ d (String.◌∷◌ e s))) = one_more (limit_of (String.◌∷◌ e s))

limit-pos : (n : ℕ) → limit_of (String.◌∷◌ "x" (pairs n)) ≡ ℤ.pos n
limit-pos zero = refl
limit-pos (suc n) = ap one_more (limit-pos n)

limit-negsuc : (n : ℕ) → limit_of (String.◌∷◌ "x" (String.◌∷◌ "x" (pairs n))) ≡ ℤ.negsuc n
limit-negsuc zero = refl
limit-negsuc (suc n) = ap one_more (limit-negsuc n)

not_empty : (limit : ℤ) → (len (print_limit limit) == 0) ≡ false
not_empty (ℤ.pos n) = ground (arith, len.cons "x" (pairs n))
not_empty (ℤ.negsuc n) = ground (arith, len.cons "x" (String.◌∷◌ "x" (pairs n)))

read_back : (limit : ℤ) → limit_of (json_or_empty some_object (print_limit limit)) ≡ limit
unfolding json_or_empty
read_back (ℤ.pos n) = rw (not_empty (ℤ.pos n)) (limit-pos n)
read_back (ℤ.negsuc n) = rw (not_empty (ℤ.negsuc n)) (limit-negsuc n)

json : IsJson some_object print_policy limit_of
json = record {
  printed = λ p. not_empty p.max_tasks_per_day;
  limit = λ p good. read_back p.max_tasks_per_day;
}

abbrev read_policy : String → Option SharePolicy
read_policy raw = some policy

abbrev invitation : Share
invitation = record {
  id = "s1";
  agent_id = 7;
  owner_user_id = 1;
  grantee_user_id = 2;
  status = "pending";
  valid_from = 10;
  valid_until = some 900;
  policy = "{}";
  policy_version = 1;
  accepted_at = none;
  accepted_by = none;
  declined_at = none;
  revoked_at = none;
  revoked_by = none;
  revoke_reason = "";
  created_by = 1;
  created_at = 10;
  updated_at = 10;
}

abbrev invited : Db
invited = record {
  users = [];
  sessions = [];
  agents = [];
  shares = invitation ∷ [];
  leases = [];
  audit = [];
  usage_days = [];
  usage_events = [];
}

abbrev request : ShareRequest
request = record { grantee_username = ""; valid_from = none; valid_until = none; policy = "{...}" }

changed : Share
changed = record invitation {
  policy = print_policy policy;
  policy_version = 2;
  valid_until = none;
  updated_at = 20;
}

changed_db : Db
unfolding changed share_audit
changed_db = record invited {
  shares = changed ∷ [];
  audit = share_audit 20 1 "share.update" invitation "" "{}" ∷ [];
}

updates :
    update_agent_share same some_object read_policy print_policy no_text no_text 20 invited 1 "s1"
      (some request)
    ≡ (changed_db, done changed)
unfolding update_agent_share update_with_policy normalize_share_policy accepts_policy
    after_transition transition_share allowed write_row share_audit trim_space json_or_empty changed
    changed_db
updates = refl

Gives-limited_example :
    In changed changed_db.shares
    × ((n : ℕ) × (limit_of changed.policy ≡ ℤ.pos n) × (1 ≤ n) × (n ≤ 1000))
Gives-limited_example =
    Gives-limited same some_object read_policy print_policy no_text no_text limit_of changed_db
      changed json (updated 20 invited 1 "s1" (some request) updates)
