-- ===== src/Api/Entry/Gateway.antt =====
-- What stands behind a request that `hapiGateway` of internal/api/hapi_gateway.go has attached.
use mathlib.Core.Path.{subst}
use echoear_cloud.Base.{
  ℕ, String, Bool, true, false, ◌≡◌, ◌≤◌, refl, ap, Option, none, some, not, lookup, length,
  any-find, find, find-In, In, In-All, trim_space, sym,
}
use echoear_cloud.Database.Rows.{Lease, Db}
use echoear_cloud.Database.Access.{
  AgentAccess, answers_to, list_accessible, resolve_access, is_candidate, renew_request,
  expire_active,
}
use echoear_cloud.Database.Access.Entitled.{Entitled, list_accessible-Entitled}
use echoear_cloud.Api.Http.{done, if-eq_done}
use echoear_cloud.Api.Tunnel.Hub.{GatewayRequest, HapiTunnel, entries}
use echoear_cloud.Api.Tunnel.Attach.{max_gateways, serves_gateway, attach_gateway}
use echoear_cloud.Api.Tunnel.Opened.{attach_gateway-stands}
use echoear_cloud.Api.Entry.{
  Service, Caller, hapi_access_session_ttl, access_key, gateway_request, is_gateway_call,
  after_attach, gateway_renewed, gateway_resolved, hapi_gateway,
}

-- The access that is resolved is one the user is entitled to, and it answers to the id.
pub resolve_access-Entitled :
    (now clock : ℕ) (db db' : Db) (user : ℕ) (id : String) (access : AgentAccess)
    → resolve_access now clock db user id ≡ (db', some access)
    → (db' ≡ expire_active now db)
      × Entitled (expire_active now db) now user access
      × (answers_to id access ≡ true)
      × In access (list_accessible now clock db user).1
unfolding resolve_access list_accessible
resolve_access-Entitled now clock db db' user id access e =
    let rows = (list_accessible now clock db user).1 in
    let found : find (answers_to id) rows ≡ some access = cc in
    let (i, named) = find-In (answers_to id) rows found in
    (
      cc,
      In-All (Entitled (expire_active now db) now user) access rows i
          (list_accessible-Entitled now clock db user),
      named,
      i,
    )

-- A request that is renewed has a lease that is valid then.
pub renew_request-lease :
    (now : ℕ) (db : Db) (user : ℕ) (access : AgentAccess) (request : String)
    → (renew_request now db user access request hapi_access_session_ttl).1 ≡ true
    → (l : Lease) × In l db.leases × (is_candidate now user access request l ≡ true)
unfolding renew_request
renew_request-lease now db user access request e =
    let (l, found) = any-find (is_candidate now user access request) db.leases e in
    let (i, good) = find-In (is_candidate now user access request) db.leases found in (l, i, good)

-- The right behind a request that was attached, and its place in the hub.
pub record IsOpened (now clock : ℕ) (c : Caller) (id request : String) (s s' : Service)
    (g : GatewayRequest) : Type 0 where
  pub access : AgentAccess
  pub entitled : Entitled (expire_active now s.db) now c.user_id access
  pub named : answers_to id access ≡ true
  pub key : g.key ≡ access_key access
  pub leased :
      (l : Lease) × In l (expire_active now s.db).leases
      × (is_candidate now c.user_id access request l ≡ true)
  pub serves : serves_gateway (s.tunnel.maps.agents g.key) ≡ true
  pub stands : lookup g.connection_id (entries (s'.tunnel.maps.gateways g.key)) ≡ some g
  pub few : length (entries (s'.tunnel.maps.gateways g.key)) ≤ max_gateways

after_attach-done :
    (g g' : GatewayRequest) (db : Db) (t : HapiTunnel) (s' : Service)
    → after_attach g db (attach_gateway g t) ≡ (s', done g')
    → (g ≡ g') × (attach_gateway g t ≡ (s'.tunnel, true))
after_attach-done g g' db t s' e = go (attach_gateway g t) e
  where
    go :
        (r : HapiTunnel × Bool)
        → after_attach g db r ≡ (s', done g')
        → (g ≡ g') × (r ≡ (s'.tunnel, true))
    go (t', true) h =
        let same : record { db = db; tunnel = t' } ≡ s' = cc in
        (cc, ap (λ x. (x, true)) (ap (λ x. x.tunnel) same))
    go (t', false) h = cc

gateway_renewed-done :
    (g g' : GatewayRequest) (t : HapiTunnel) (r : Db × Bool) (s' : Service)
    → gateway_renewed g t r ≡ (s', done g')
    → (r.1 ≡ true) × (g ≡ g') × (attach_gateway g t ≡ (s'.tunnel, true))
unfolding gateway_renewed
gateway_renewed-done g g' t (db, true) s' e =
    let (same, attached) = after_attach-done g g' db t s' e in (refl, same, attached)
gateway_renewed-done g g' t (db, false) s' e = cc

-- A gateway request that the service attaches is for an agent that the user may use at that time, under
-- the id it was asked for: the user owns it, or has an active share of it, and the owner's account is
-- active. It stands under the owner's key, where an agent that serves the gateway is connected, among
-- at most 128, and a lease of the request that is not revoked or over was found for it.
pub hapi_gateway-IsOpened :
    (now clock : ℕ) (c : Caller) (id request path : String) (s s' : Service) (g : GatewayRequest)
    → hapi_gateway now clock c id request path s ≡ (s', done g)
    → IsOpened now clock c (trim_space id) (trim_space request) s s' g
unfolding hapi_gateway gateway_resolved
hapi_gateway-IsOpened now clock c id request path s s' g e =
    let (good, rest) =
      if-eq_done (not (is_gateway_call (trim_space id) (trim_space request) path)) s s' 400 _ e in
    go (resolve_access now clock s.db c.user_id (trim_space id)) refl rest
  where
    go :
        (r : Db × Option AgentAccess)
        → resolve_access now clock s.db c.user_id (trim_space id) ≡ r
        → gateway_resolved now c (trim_space id) (trim_space request) s.tunnel r ≡ (s', done g)
        → IsOpened now clock c (trim_space id) (trim_space request) s s' g
    go (db, none) found h = cc
    go (db, some access) found h =
        let opened = gateway_request c (trim_space id) (trim_space request) access in
        let (tables, entitled, named, listed) =
          resolve_access-Entitled now clock s.db db c.user_id (trim_space id) access found in
        let (renewed, same, attached) =
          gateway_renewed-done opened g s.tunnel
            (renew_request now db c.user_id access (trim_space request) hapi_access_session_ttl) s'
            h in
        let (l, i, valid) =
          renew_request-lease now db c.user_id access (trim_space request) renewed in
        let (serves, stands, few) =
          attach_gateway-stands g s.tunnel s'.tunnel (rw (← same) attached) in
        record {
          access = access;
          entitled = entitled;
          named = named;
          key = ap (λ x. x.key) (sym same);
          leased = (l, subst (λ d. In l d.leases) tables i, valid);
          serves = serves;
          stands = stands;
          few = few;
        }
