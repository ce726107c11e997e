-- ===== src/Database/Shares/Leases.antt =====
-- `TransitionShare` of internal/database/access_repository.go and the leases that stand on the share.
use echoear_cloud.Base.{ℕ, String, Bool, false, ◌≡◌, refl, Option, All}
use echoear_cloud.Database.Rows.{ok, Share, Lease, Db}
use echoear_cloud.Database.Users.{revoke_lease}
use echoear_cloud.Database.Users.Lockout.{update_where_clears}
use echoear_cloud.Database.Shares.{Action, Change, transition_share, lease_of_share}
use echoear_cloud.Database.Shares.Status.{transition_share-Done}

revoked-lease_of_share :
    (id : String) (now : ℕ) (l : Lease) → lease_of_share id (revoke_lease now l) ≡ false
revoked-lease_of_share id now l = refl

-- No transition of a share that succeeds leaves a lease of that share that is not revoked.
pub transition_share_revokes_leases :
    (decode : String → Option String) (now : ℕ) (db db' : Db) (actor : ℕ) (id : String) (a : Action)
    (c : Change) (admin : Bool) (s' : Share)
    → transition_share decode now db actor id a c admin ≡ ok (db', s')
    → All (λ l. lease_of_share id l ≡ false) db'.leases
transition_share_revokes_leases decode now db db' actor id a c admin s' e =
    let d = transition_share-Done decode now db db' actor id a c admin s' e in
    rw d.leases (
      update_where_clears (lease_of_share id) (revoke_lease now) db.leases
        (revoked-lease_of_share id now))
