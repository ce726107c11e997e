-- ===== src/Api/Tunnel/Requests.antt =====
-- The critical sections of internal/api/hapi_gateway.go and of the discovery keep the invariant of
-- the hub's maps, and so does a phone that leaves.
use echoear_cloud.Base.{
  ℕ, String, Bool, true, false, ◌≤◌, ◌≡◌, refl, inl, inr, Option, none, some, List, [], ◌∷◌, arith,
  length, All, is_some, Bool-cases, insert, erase, lookup, length-insert, length-insert_pos,
  length-erase-le, All-insert, All-erase, not, if◌then◌else◌, if-cases, leb,
}
use echoear_cloud.Api.Tunnel.Hub.{
  TunnelKey, Role, agent, mobile, Peer, GatewayRequest, Maps, HapiTunnel, put, entries, Network,
  unsupported, unavailable,
}
use echoear_cloud.Api.Tunnel.Attach.{
  max_gateways, detach, detach_by_role, detach_mobile, attach_gateway, detach_gateway,
  serves_gateway, remove_entry,
}
use echoear_cloud.Api.Tunnel.Discovery.{
  Wake, begin_discovery, begin_at, begin_with, end_discovery, clean_pending, clean_up, register,
  is_waiter, Begun, refused,
}
use echoear_cloud.Api.Tunnel.Invariant.{
  Inv, MobilesOk, GatewaysOk, DiscoveriesOk, IsMobileOf, IsGatewayOf, put-keeps, put-keeps_right,
}
use echoear_cloud.Api.Tunnel.Preserve.{detach_agent-Inv}

-- Deleting an entry leaves no empty map behind, and nothing that was not there.
remove_entry-MobilesOk :
    (k : TunnelKey) (id : String) (o : Option (List (String × Peer)))
    → MobilesOk k o
    → MobilesOk k (remove_entry id o)
unfolding remove_entry
remove_entry-MobilesOk k id none h = tt
remove_entry-MobilesOk k id (some ps) h =
    go (erase id ps) (length-erase-le id ps) (All-erase (IsMobileOf k) id ps h.2)
  where
    go :
        (rest : List (String × Peer))
        → length rest ≤ length ps
        → All (IsMobileOf k) rest
        → MobilesOk k (elim rest [ [] ↦ none | e ∷ more ↦ some (e ∷ more) ])
    go [] le a = tt
    go (e ∷ more) le a = (omega arith, omega arith, a)

remove_entry-GatewaysOk :
    (k : TunnelKey) (a : Option Peer) (id : String) (o : Option (List (String × GatewayRequest)))
    → GatewaysOk k a o
    → GatewaysOk k a (remove_entry id o)
unfolding remove_entry
remove_entry-GatewaysOk k a id none h = tt
remove_entry-GatewaysOk k a id (some gs) h =
    go (erase id gs) (length-erase-le id gs) (All-erase (IsGatewayOf k) id gs h.3)
  where
    go :
        (rest : List (String × GatewayRequest))
        → length rest ≤ length gs
        → All (IsGatewayOf k) rest
        → GatewaysOk k a (elim rest [ [] ↦ none | e ∷ more ↦ some (e ∷ more) ])
    go [] le all = tt
    go (e ∷ more) le all = (h.0, omega arith, omega arith, all)

remove_entry-DiscoveriesOk :
    (k : TunnelKey) (a : Option Peer) (id : String) (ds : List (String × ℕ))
    → is_some a ≡ true
    → DiscoveriesOk k a (remove_entry id (some ds))
unfolding remove_entry
remove_entry-DiscoveriesOk k a id ds h = go (erase id ds)
  where
    go :
        (rest : List (String × ℕ))
        → DiscoveriesOk k a (elim rest [ [] ↦ none | e ∷ more ↦ some (e ∷ more) ])
    go [] = tt
    go (e ∷ more) = (h, omega arith)

clean_pending-DiscoveriesOk :
    (k : TunnelKey) (a : Option Peer) (id : String) (w : ℕ) (o : Option (List (String × ℕ)))
    → DiscoveriesOk k a o
    → DiscoveriesOk k a (clean_pending id w o)
unfolding clean_pending
clean_pending-DiscoveriesOk k a id w none h = tt
clean_pending-DiscoveriesOk k a id w (some []) h = absurd (omega arith)
clean_pending-DiscoveriesOk k a id w (some (d ∷ ds)) h =
    elim (Bool-cases (is_waiter (lookup id (d ∷ ds)) w)) [
      | inl own ↦ rw (own, if◌then◌else◌) (remove_entry-DiscoveriesOk k a id (d ∷ ds) h.0)
      | inr other ↦ rw (other, if◌then◌else◌) h
    ]

with_discoveries :
    (m : Maps) (k : TunnelKey) (ds : Option (List (String × ℕ)))
    → Inv m
    → DiscoveriesOk k (m.agents k) ds
    → Inv (record m { discoveries = put k ds m.discoveries })
with_discoveries m k ds v h = record {
  agents_own = v.agents_own;
  mobiles_own = v.mobiles_own;
  gateways_own = v.gateways_own;
  discoveries_own = put-keeps_right DiscoveriesOk k ds m.agents m.discoveries h v.discoveries_own;
}

with_gateways :
    (m : Maps) (k : TunnelKey) (gs : Option (List (String × GatewayRequest)))
    → Inv m
    → GatewaysOk k (m.agents k) gs
    → Inv (record m { gateways = put k gs m.gateways })
with_gateways m k gs v h = record {
  agents_own = v.agents_own;
  mobiles_own = v.mobiles_own;
  gateways_own = put-keeps_right GatewaysOk k gs m.agents m.gateways h v.gateways_own;
  discoveries_own = v.discoveries_own;
}

detach_mobile-Inv :
    (net : Network) (peer : Peer) (t : HapiTunnel)
    → Inv t.maps
    → Inv (detach_mobile net peer t).maps
unfolding detach_mobile
detach_mobile-Inv net peer t v = record {
  agents_own = v.agents_own;
  mobiles_own =
      put-keeps MobilesOk peer.key _ t.maps.mobiles
        (remove_entry-MobilesOk peer.key peer.connection_id _ (v.mobiles_own peer.key))
        v.mobiles_own;
  gateways_own = v.gateways_own;
  discoveries_own = v.discoveries_own;
}

detach_by_role-Inv :
    (r : Role) (net : Network) (peer : Peer) (t : HapiTunnel)
    → Inv t.maps
    → Inv (detach_by_role r net peer t).maps
unfolding detach_by_role
detach_by_role-Inv agent net peer t v = detach_agent-Inv net peer t v
detach_by_role-Inv mobile net peer t v = detach_mobile-Inv net peer t v

pub detach-Inv :
    (net : Network) (peer : Peer) (t : HapiTunnel) → Inv t.maps → Inv (detach net peer t).maps
unfolding detach
detach-Inv net peer t v = detach_by_role-Inv peer.role net peer _ v

All-gateways :
    (k : TunnelKey) (a : Option Peer) (o : Option (List (String × GatewayRequest)))
    → GatewaysOk k a o
    → All (IsGatewayOf k) (entries o)
All-gateways k a none h = tt
All-gateways k a (some gs) h = h.3

GatewaysOk-insert :
    (k : TunnelKey) (a : Option Peer) (id : String) (g : GatewayRequest)
    (o : Option (List (String × GatewayRequest)))
    → serves_gateway a ≡ true
    → IsGatewayOf k (id, g)
    → GatewaysOk k a o
    → leb max_gateways (length (entries o)) ≡ false
    → GatewaysOk k a (some (insert id g (entries o)))
GatewaysOk-insert k a id g o serves i h room = (
  serves,
  length-insert_pos id g (entries o),
  ground (arith, length-insert id g (entries o)),
  All-insert (IsGatewayOf k) id g (entries o) i (All-gateways k a o h),
)

GatewaysOk-full :
    (k : TunnelKey) (a : Option Peer) (o : Option (List (String × GatewayRequest)))
    → GatewaysOk k a o
    → leb max_gateways (length (entries o)) ≡ true
    → GatewaysOk k a (some (entries o))
GatewaysOk-full k a none h full = cc
GatewaysOk-full k a (some gs) h full = h

pub attach_gateway-Inv :
    (g : GatewayRequest) (t : HapiTunnel) → Inv t.maps → Inv (attach_gateway g t).0.maps
unfolding attach_gateway
attach_gateway-Inv g t v =
    if-cases (λ (r : HapiTunnel × Bool). Inv r.0.maps) (not (serves_gateway (t.maps.agents g.key)))
      _ _ (λ off. v)
      λ serves.
        if-cases (λ (r : HapiTunnel × Bool). Inv r.0.maps) _ _ _
          (λ full.
            with_gateways t.maps g.key _ v
              (GatewaysOk-full g.key (t.maps.agents g.key) _ (v.gateways_own g.key) full))
          (λ room. with_gateways t.maps g.key _ v (
            GatewaysOk-insert g.key (t.maps.agents g.key) g.connection_id g _ (ground arith)
              (refl, refl) (v.gateways_own g.key) room))

pub detach_gateway-Inv :
    (net : Network) (g : GatewayRequest) (t : HapiTunnel)
    → Inv t.maps
    → Inv (detach_gateway net g t).maps
unfolding detach_gateway
detach_gateway-Inv net g t v =
    with_gateways t.maps g.key _ v
      (remove_entry-GatewaysOk g.key (t.maps.agents g.key) g.connection_id _ (v.gateways_own g.key))

clean_up-Inv :
    (k : TunnelKey) (id : String) (w : ℕ) (t : HapiTunnel)
    → Inv t.maps
    → Inv (clean_up k id w t).maps
unfolding clean_up
clean_up-Inv k id w t v =
    with_discoveries t.maps k _ v (clean_pending-DiscoveriesOk k _ id w _ (v.discoveries_own k))

register-Inv :
    (k : TunnelKey) (id : String) (w : ℕ) (t : HapiTunnel)
    → is_some (t.maps.agents k) ≡ true
    → Inv t.maps
    → Inv (register k id w t).maps
unfolding register
register-Inv k id w t connected v =
    with_discoveries t.maps k _ v (connected, length-insert_pos id w _)

pub end_discovery-Inv :
    (wake : Wake) (k : TunnelKey) (id : String) (w : ℕ) (t : HapiTunnel)
    → Inv t.maps
    → Inv (end_discovery wake k id w t).0.maps
unfolding end_discovery
end_discovery-Inv wake k id w t v = clean_up-Inv k id w t v

begin_with-Inv :
    (net : Network) (a : Peer) (k : TunnelKey) (id payload : String) (w : ℕ) (t : HapiTunnel)
    → is_some (t.maps.agents k) ≡ true
    → Inv t.maps
    → Inv (begin_with net a k id payload w t).0.maps
unfolding begin_with
begin_with-Inv net a k id payload w t connected v =
    if-cases (λ (r : HapiTunnel × Begun). Inv r.0.maps) _ _ _
      (λ sent. register-Inv k id w t connected v)
      (λ lost. clean_up-Inv k id w (register k id w t) (register-Inv k id w t connected v))

begin_at-Inv :
    (o : Option Peer) (net : Network) (k : TunnelKey) (id payload : String) (w : ℕ) (t : HapiTunnel)
    → is_some (t.maps.agents k) ≡ is_some o
    → Inv t.maps
    → Inv (begin_at o net k id payload w t).0.maps
unfolding begin_at
begin_at-Inv none net k id payload w t e v = v
begin_at-Inv (some a) net k id payload w t e v =
    if-cases Keeps (not a.discovery) (t, refused unsupported) _ (λ off. v)
      λ able.
        if-cases Keeps (is_some (lookup id (entries (t.maps.discoveries k))))
          (t, refused unavailable) (begin_with net a k id payload w t) (λ pending. v)
          λ free. begin_with-Inv net a k id payload w t e v
  where
    Keeps : HapiTunnel × Begun → Type 0
    Keeps r = Inv r.0.maps

pub begin_discovery-Inv :
    (net : Network) (k : TunnelKey) (id payload : String) (w : ℕ) (t : HapiTunnel)
    → Inv t.maps
    → Inv (begin_discovery net k id payload w t).0.maps
unfolding begin_discovery
begin_discovery-Inv net k id payload w t v =
    begin_at-Inv (t.maps.agents k) net k id payload w t refl v
