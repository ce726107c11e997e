-- ===== src/Database/Access/Cutoff.antt =====
-- `TransitionShare` and access: internal/database/access_repository.go.
use echoear_cloud.Base.{
  ℕ, String, Bool, true, false, ◌≡◌, ◌≢◌, sym, ◌∙◌, ◌⊎◌, inl, inr, Option, some, List, [], ◌∷◌,
  ◌&&◌, arith, str_eq, eq_iff, In, All, All-map, In-All,
}
use echoear_cloud.Database.Rows.{ok, Share, Lease, Db, update_where}
use echoear_cloud.Database.Shares.{
  Action, Change, transition_share, has_share_id, lease_of_share, is_over, expire,
}
use echoear_cloud.Database.Shares.Status.{transition_share-Done}
use echoear_cloud.Database.Shares.Leases.{transition_share_revokes_leases}
use echoear_cloud.Database.Access.{AgentAccess, list_accessible, expire_active, is_valid_lease}
use echoear_cloud.Database.Access.Entitled.{Entitled, IsGrant, list_accessible-Entitled}

-- The rows under an id are not active.
abbrev pub IsShut : String → List Share → Type 0
IsShut id ss = All (λ s. has_share_id id s ≡ true → str_eq s.status "active" ≡ false) ss

update-IsShut :
    (id : String) (s' : Share) (ss : List Share)
    → str_eq s'.status "active" ≡ false
    → IsShut id (update_where (has_share_id id) (λ old. s') ss)
update-IsShut id s' [] off = tt
update-IsShut id s' (s ∷ ss) off = (λ h. ground arith, update-IsShut id s' ss off)

expire-IsShut :
    (id : String) (now : ℕ) (ss : List Share)
    → IsShut id ss
    → IsShut id (update_where (λ s. str_eq s.status "active" && is_over now s) (expire now) ss)
expire-IsShut id now [] h = tt
expire-IsShut id now (s ∷ ss) (p, h) =
    (λ e. ground (arith, eq_iff "expired" "active"), expire-IsShut id now ss h)

list_accessible-IsShut :
    (id : String) (now clock : ℕ) (db : Db) (user : ℕ)
    → id ≢ ""
    → IsShut id db.shares
    → All (λ x. x.share_id ≢ id) (list_accessible now clock db user).1
unfolding list_accessible expire_active
list_accessible-IsShut id now clock db user named shut =
    let (db', rows) = list_accessible now clock db user in
    All-map rows (λ x e. go x e) (list_accessible-Entitled now clock db user)
  where
    go : (x : AgentAccess) → Entitled (expire_active now db) now user x → x.share_id ≢ id
    go x e same = by e.right
      where
        by :
            ((x.agent.user_id ≡ user) × (x.share_id ≡ "") × (x.access_type ≡ "owner"))
              ⊎ ((s : Share) × In s (expire_active now db).shares
                  × IsGrant now user x.agent.id s
                  × (x.share_id ≡ s.id)
                  × (x.policy ≡ s.policy)
                  × (x.policy_version ≡ s.policy_version))
            → ⊥
        by (inl (own, none_shared, kind)) = named (sym same ∙ none_shared)
        by (inr (s, i, (of, to, active, begun, until), from, same_policy, same_version)) =
            let off =
              In-All (λ r. has_share_id id r ≡ true → str_eq r.status "active" ≡ false) s _ i
                (expire-IsShut id now db.shares shut) in
            ground (arith, off, active, eq_iff s.id id, eq_iff s.status "active")

-- After a transition that leaves the share declined, revoked or pending, the share opens nothing for
-- anyone: no user's list of agents has a row of that share, and no lease of that share is valid, at
-- any later time, as long as nothing else is written.
pub closed_share_cuts_off :
    (decode : String → Option String) (now : ℕ) (db db' : Db) (actor : ℕ) (id : String) (a : Action)
    (c : Change) (admin : Bool) (s' : Share) (later clock user : ℕ) (access : AgentAccess)
    → id ≢ ""
    → transition_share decode now db actor id a c admin ≡ ok (db', s')
    → s'.status ≢ "active"
    → All (λ x. x.share_id ≢ id) (list_accessible later clock db' user).1
      × All (λ l. l.share_id ≡ some id → is_valid_lease later user access l ≡ false) db'.leases
closed_share_cuts_off decode now db db' actor id a c admin s' later clock user access named e
      closed =
    let d = transition_share-Done decode now db db' actor id a c admin s' e in
    let off : str_eq s'.status "active" ≡ false = ground (arith, eq_iff s'.status "active") in
    (
      list_accessible-IsShut id later clock db' user named
          (rw d.shares (update-IsShut id s' db.shares off)),
      All-map db'.leases (λ l clear of. lease_off l clear of)
          (transition_share_revokes_leases decode now db db' actor id a c admin s' e),
    )
  where
    lease_off :
        (l : Lease)
        → lease_of_share id l ≡ false
        → l.share_id ≡ some id
        → is_valid_lease later user access l ≡ false
    lease_off l clear of = ground (arith, clear, of, eq_iff id id)
