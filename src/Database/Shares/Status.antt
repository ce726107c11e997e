-- ===== src/Database/Shares/Status.antt =====
-- `TransitionShare` of internal/database/access_repository.go as a state machine of shares.
use mathlib.Core.Path.{subst}
use echoear_cloud.Base.{
  ℕ, String, Bool, true, false, ◌≡◌, ◌≢◌, ◌+◌, refl, sym, ◌∙◌, List, [], ◌∷◌, find-In, Option, some,
  arith, find, eq_iff, ◌⊎◌,
}
use echoear_cloud.Database.Rows.{
  ok, err, no_rows, Share, Db, after, update_where, bind-eq_ok, guard-eq_ok, or_fail-eq_ok,
}
use echoear_cloud.Database.Users.{revoke_lease}
use echoear_cloud.Database.Shares.{
  Action, accept, decline, revoke, update, Change, allowed, next_status, write_row,
  transition_share, has_share_id, lease_of_share,
}

-- The moves of a share, by who makes them: the grantee answers an invitation, the owner or an
-- administrator revokes what is open, and the owner alone changes its terms.
pub data Move (s : Share) (actor : ℕ) (admin : Bool) : Action → String → Type 0 where
  accepts : actor ≡ s.grantee_user_id → s.status ≡ "pending" → Move s actor admin accept "active"
  declines :
      actor ≡ s.grantee_user_id → s.status ≡ "pending" → Move s actor admin decline "declined"
  revokes :
      (actor ≡ s.owner_user_id) ⊎ (admin ≡ true)
      → (s.status ≡ "pending") ⊎ (s.status ≡ "active")
      → Move s actor admin revoke "revoked"
  updates :
      {status : String}
      → actor ≡ s.owner_user_id
      → (s.status ≡ "pending") ⊎ (s.status ≡ "active")
      → status ≡ s.status
      → Move s actor admin update status

allowed-Move :
    (a : Action) (actor : ℕ) (admin : Bool) (s : Share)
    → allowed a actor admin s ≡ true
    → Move s actor admin a (next_status a s)
unfolding allowed next_status
allowed-Move accept actor admin s h =
    accepts (ground arith) (ground (arith, eq_iff s.status "pending"))
allowed-Move decline actor admin s h =
    declines (ground arith) (ground (arith, eq_iff s.status "pending"))
allowed-Move revoke actor admin s h =
    revokes (ground arith) (ground (arith, eq_iff s.status "pending", eq_iff s.status "active"))
allowed-Move update actor admin s h =
    updates (ground arith) (ground (arith, eq_iff s.status "pending", eq_iff s.status "active"))
      refl

closed-allowed :
    (a : Action) (actor : ℕ) (admin : Bool) (s : Share)
    → s.status ≢ "pending"
    → s.status ≢ "active"
    → allowed a actor admin s ≡ false
unfolding allowed
closed-allowed accept actor admin s p q = ground (arith, eq_iff s.status "pending")
closed-allowed decline actor admin s p q = ground (arith, eq_iff s.status "pending")
closed-allowed revoke actor admin s p q =
    ground (arith, eq_iff s.status "pending", eq_iff s.status "active")
closed-allowed update actor admin s p q =
    ground (arith, eq_iff s.status "pending", eq_iff s.status "active")

allowed-eq_of_Move :
    (a : Action) (actor : ℕ) (admin : Bool) (s : Share) (next : String)
    → Move s actor admin a next
    → allowed a actor admin s ≡ true
unfolding allowed
allowed-eq_of_Move a actor admin s next (accepts g p) = ground (arith, eq_iff s.status "pending")
allowed-eq_of_Move a actor admin s next (declines g p) = ground (arith, eq_iff s.status "pending")
allowed-eq_of_Move a actor admin s next (revokes g p) =
    ground (arith, eq_iff s.status "pending", eq_iff s.status "active")
allowed-eq_of_Move a actor admin s next (updates g p e) =
    ground (arith, eq_iff s.status "pending", eq_iff s.status "active")

-- What a write keeps and what it counts.
pub record Follows (s s' : Share) (a : Action) : Type 0 where
  pub same_id : s'.id ≡ s.id
  pub same_agent : s'.agent_id ≡ s.agent_id
  pub same_owner : s'.owner_user_id ≡ s.owner_user_id
  pub same_grantee : s'.grantee_user_id ≡ s.grantee_user_id
  pub next : s'.status ≡ next_status a s
  pub version : s'.policy_version ≡ s.policy_version + (elim a [ update ↦ 1 | _ ↦ 0 ])
  pub policy : a ≢ update → s'.policy ≡ s.policy

pub write_row-Follows :
    (decode : String → Option String) (now actor : ℕ) (a : Action) (c : Change) (s s' : Share)
    → write_row decode now actor a c s ≡ ok s'
    → Follows s s' a
unfolding write_row
write_row-Follows decode now actor accept c s s' e = ground arith
write_row-Follows decode now actor decline c s s' e = ground arith
write_row-Follows decode now actor revoke c s s' e = ground arith
write_row-Follows decode now actor update c s s' e = ground arith

-- A transition that succeeds: the row that was found, the test that it passed, what was written.
pub record Done (decode : String → Option String) (now : ℕ) (db db' : Db) (actor : ℕ) (id : String)
    (a : Action) (c : Change) (admin : Bool) (s' : Share) : Type 0 where
  pub row : Share
  pub found : find (has_share_id id) db.shares ≡ some row
  pub passed : allowed a actor admin row ≡ true
  pub wrote : write_row decode now actor a c row ≡ ok s'
  pub shares : db'.shares ≡ update_where (has_share_id id) (λ old. s') db.shares
  pub leases : db'.leases ≡ update_where (lease_of_share id) (revoke_lease now) db.leases
  pub agents : db'.agents ≡ db.agents

pub transition_share-Done :
    (decode : String → Option String) (now : ℕ) (db db' : Db) (actor : ℕ) (id : String) (a : Action)
    (c : Change) (admin : Bool) (s' : Share)
    → transition_share decode now db actor id a c admin ≡ ok (db', s')
    → Done decode now db db' actor id a c admin s'
unfolding transition_share
transition_share-Done decode now db db' actor id a c admin s' e =
    let (row, found, rest) = or_fail-eq_ok (find (has_share_id id) db.shares) no_rows _ e in
    let (passed, rest') = guard-eq_ok (allowed a actor admin row) no_rows _ rest in
    let (row', wrote, end) = bind-eq_ok (write_row decode now actor a c row) _ rest' in
    record {
      row = row;
      found = found;
      passed = passed;
      wrote = rw wrote (ground arith);
      shares = ground arith;
      leases = ground arith;
      agents = ground arith;
    }

-- The rows of a table after the row of one id was replaced.
find-replaced :
    (id : String) (s s' : Share) (ss : List Share)
    → s'.id ≡ s.id
    → find (has_share_id id) ss ≡ some s
    → find (has_share_id id) (update_where (has_share_id id) (λ old. s') ss) ≡ some s'
find-replaced id s s' [] same e = cc
find-replaced id s s' (x ∷ ss) same e =
    ground (arith, same, find-In (has_share_id id) (x ∷ ss) e, find-replaced id s s' ss same)

find-replaced_other :
    (id other : String) (s' : Share) (ss : List Share)
    → s'.id ≡ id
    → other ≢ id
    → find (has_share_id other) (update_where (has_share_id id) (λ old. s') ss)
      ≡ find (has_share_id other) ss
find-replaced_other id other s' [] same far = refl
find-replaced_other id other s' (x ∷ ss) same far = ground (
  arith,
  same,
  far,
  eq_iff x.id id,
  eq_iff x.id other,
  eq_iff s'.id other,
  find-replaced_other id other s' ss same far,
)

-- A transition succeeds only as a move of the state machine: from the status of the row that has the
-- id, by a user who may make the move, to the status that the stored row has afterwards, which is the row
-- that is returned. The agent, the owner and the grantee stay; the policy changes and its version
-- grows, by one, only under an update. The row of any other id is as it was.
pub transition_share-Move :
    (decode : String → Option String) (now : ℕ) (db db' : Db) (actor : ℕ) (id : String) (a : Action)
    (c : Change) (admin : Bool) (s' : Share) (other : String)
    → transition_share decode now db actor id a c admin ≡ ok (db', s')
    → other ≢ id
    → (s : Share) × (find (has_share_id id) db.shares ≡ some s)
      × Move s actor admin a s'.status
      × Follows s s' a
      × (find (has_share_id id) db'.shares ≡ some s')
      × (find (has_share_id other) db'.shares ≡ find (has_share_id other) db.shares)
transition_share-Move decode now db db' actor id a c admin s' other e far =
    let d = transition_share-Done decode now db db' actor id a c admin s' e in
    let f = write_row-Follows decode now actor a c d.row s' d.wrote in
    let (i, named) = find-In (has_share_id id) db.shares d.found in
    let same : s'.id ≡ id = f.same_id ∙ (eq_iff d.row.id id).0 named in
    (
      d.row,
      d.found,
      subst (Move d.row actor admin a) (sym f.next) (allowed-Move a actor admin d.row d.passed),
      f,
      rw d.shares (find-replaced id d.row s' db.shares f.same_id d.found),
      rw d.shares (find-replaced_other id other s' db.shares same far),
    )

-- A share that was declined, revoked or has expired is final: no action of any user, administrators
-- included, changes it, and the caller is told that there is no such row.
pub closed_share_final :
    (decode : String → Option String) (now : ℕ) (db : Db) (actor : ℕ) (id : String) (a : Action)
    (c : Change) (admin : Bool) (s : Share)
    → find (has_share_id id) db.shares ≡ some s
    → s.status ≢ "pending"
    → s.status ≢ "active"
    → (transition_share decode now db actor id a c admin ≡ err no_rows)
      × (after db (transition_share decode now db actor id a c admin) ≡ db)
unfolding transition_share
closed_share_final decode now db actor id a c admin s found pending active =
    let shut : allowed a actor admin s ≡ false = closed-allowed a actor admin s pending active in
    rw (found, shut) (refl, refl)
