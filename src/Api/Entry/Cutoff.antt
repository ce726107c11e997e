-- ===== src/Api/Entry/Cutoff.antt =====
-- A connection whose share is closed: `gatewayAuthorized` of internal/api/hapi_gateway.go and
-- `sessionAuthorized` of internal/api/tunnel.go after `TransitionShare`.
use mathlib.Core.Path.{subst}
use echoear_cloud.Base.{
  ℕ, String, Bool, true, false, ◌≡◌, ◌≢◌, refl, Option, none, some, arith, In, In-All, All,
  Bool-cases, inl, inr,
}
use echoear_cloud.Database.Rows.{ok, Share, Lease, Db}
use echoear_cloud.Database.Users.{session_by_token}
use echoear_cloud.Database.Shares.{Action, Change, transition_share}
use echoear_cloud.Database.Access.{
  AgentAccess, resolve_access, is_candidate, is_valid_lease, list_accessible, expire_active,
}
use echoear_cloud.Database.Access.Entitled.{Entitled}
use echoear_cloud.Database.Access.Cutoff.{closed_share_cuts_off}
use echoear_cloud.Api.Tunnel.Hub.{TunnelKey, key_eq_iff, key_eq, mobile, Peer, GatewayRequest}
use echoear_cloud.Api.Entry.{
  access_key, is_users, renewed_under, gateway_authorized, session_authorized,
}
use echoear_cloud.Api.Entry.Gateway.{resolve_access-Entitled, renew_request-lease}

-- Another right of the user to the agent under the key: an access of no such share, with a lease of no
-- such share for the request.
pub record Elsewhere (id : String) (now : ℕ) (db : Db) (user : ℕ) (key : TunnelKey)
    (request : String) : Type 0 where
  pub access : AgentAccess
  pub entitled : Entitled (expire_active now db) now user access
  pub other : access.share_id ≢ id
  pub under : access_key access ≡ key
  pub leased :
      (l : Lease) × In l db.leases
      × (is_candidate now user access request l ≡ true)
      × (l.share_id ≢ some id)

-- The connections that the service checks again and keeps: those of the gateway, and those of phones.
pub data Kept (hash : String → String) (now clock : ℕ) (db : Db)
    : ℕ → TunnelKey → String → Type 0 where
  by_gateway :
      (g : GatewayRequest)
      → (gateway_authorized hash now clock db g).1 ≡ true
      → Kept hash now clock db g.subject_user_id g.key g.request_id
  by_mobile :
      (p : Peer)
      → p.role ≡ mobile
      → (session_authorized hash now clock db p).1 ≡ true
      → Kept hash now clock db p.subject_user_id p.key p.request_id

-- The tables after the transition open nothing of the share at a later time.
Closed : String → ℕ → ℕ → Db → Type 0
Closed id now clock db =
    (user : ℕ) (access : AgentAccess)
    → All (λ x. x.share_id ≢ id) (list_accessible now clock db user).1
      × All (λ l. l.share_id ≡ some id → is_valid_lease now user access l ≡ false) db.leases

renewed_under-Elsewhere :
    (id : String) (now clock : ℕ) (db : Db) (user : ℕ) (key : TunnelKey)
    (access_id request : String)
    → Closed id now clock db
    → (renewed_under now user key request (resolve_access now clock db user access_id)).1 ≡ true
    → Elsewhere id now db user key request
unfolding Closed expire_active
renewed_under-Elsewhere id now clock db user key access_id request shut e =
    go (resolve_access now clock db user access_id) refl e
  where
    go :
        (r : Db × Option AgentAccess)
        → resolve_access now clock db user access_id ≡ r
        → (renewed_under now user key request r).1 ≡ true
        → Elsewhere id now db user key request
    go (db', none) found h = cc
    go (db', some access) found h = elim (Bool-cases (key_eq (access_key access) key)) [
      | inr off ↦ cc (rw (renewed_under, off) at h)
      | inl on ↦
          let (tables, entitled, named, listed) =
            resolve_access-Entitled now clock db db' user access_id access found in
          let (l, i, valid) =
            renew_request-lease now db' user access request (rw (renewed_under, on) at h) in
          let (rows, leases) = shut user access in
          let stored : In l db.leases = subst (λ d. In l d.leases) tables i in
          let off =
            In-All (λ x. x.share_id ≡ some id → is_valid_lease now user access x ≡ false) l
              db.leases stored leases in
          record {
            access = access;
            entitled = entitled;
            other =
                In-All (λ x. x.share_id ≢ id) access (list_accessible now clock db user).1 listed
                  rows;
            under = (key_eq_iff (access_key access) key).0 on;
            leased = (l, stored, valid, λ of. ground (arith, valid, off of));
          }
    ]

-- Once a share is declined, revoked or pending again, a connection to its agent that the service checks is
-- kept only on another right: an access of the user to the agent under the connection's key that does
-- not come from this share, with a valid lease of the request that does not come from it either. That
-- nothing else is written in between is a condition.
pub transition_share-Elsewhere :
    (decode : String → Option String) (hash : String → String) (now : ℕ) (db db' : Db) (actor : ℕ)
    (id : String) (a : Action) (c : Change) (admin : Bool) (s' : Share) (later clock user : ℕ)
    (key : TunnelKey) (request : String)
    → id ≢ ""
    → transition_share decode now db actor id a c admin ≡ ok (db', s')
    → s'.status ≢ "active"
    → Kept hash later clock db' user key request
    → Elsewhere id later db' user key request
unfolding gateway_authorized session_authorized Closed
transition_share-Elsewhere decode hash now db db' actor id a c admin s' later clock user key request
      named e closed (by_gateway g kept) =
    elim (Bool-cases (is_users g.subject_user_id (session_by_token hash later db' g.session_id))) [
      | inr off ↦ cc (rw (gateway_authorized, off) at kept)
      | inl on ↦
          renewed_under-Elsewhere id later clock db' g.subject_user_id g.key g.access_id
            g.request_id
            (λ u x.
              closed_share_cuts_off decode now db db' actor id a c admin s' later clock u x named e
                closed)
            (rw (gateway_authorized, on) at kept)
    ]
transition_share-Elsewhere decode hash now db db' actor id a c admin s' later clock user key request
      named e closed (by_mobile p phone kept) =
    elim (Bool-cases (is_users p.subject_user_id (session_by_token hash later db' p.session_id))) [
      | inr off ↦ cc (rw (session_authorized, off) at kept)
      | inl on ↦
          renewed_under-Elsewhere id later clock db' p.subject_user_id p.key p.access_id
            p.request_id
            (λ u x.
              closed_share_cuts_off decode now db db' actor id a c admin s' later clock u x named e
                closed)
            (rw (session_authorized, on, phone) at kept)
    ]
