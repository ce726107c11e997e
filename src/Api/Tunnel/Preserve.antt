-- ===== src/Api/Tunnel/Preserve.antt =====
-- Every critical section of internal/api/tunnel.go keeps the invariant of the hub's maps.
use echoear_cloud.Base.{
  ℕ, String, true, false, ◌≡◌, refl, inl, inr, Option, none, some, List, arith, length, All,
  Bool-cases, insert, length-insert, length-insert_pos, All-insert, if◌then◌else◌, leb,
}
use echoear_cloud.Api.Tunnel.Hub.{
  TunnelKey, Role, agent, mobile, Peer, Maps, HapiTunnel, put, entries, Network,
}
use echoear_cloud.Api.Tunnel.Attach.{
  max_mobiles, attach, attach_by_role, attach_agent, attach_mobile, detach_agent, is_peer,
}
use echoear_cloud.Api.Tunnel.Invariant.{
  Inv, AgentOk, MobilesOk, GatewaysOk, DiscoveriesOk, IsMobileOf, put-keeps, put-keeps_both,
  put-keeps_left,
}

DiscoveriesOk-agent :
    (k : TunnelKey) (a : Option Peer) (p : Peer) (ds : Option (List (String × ℕ)))
    → DiscoveriesOk k a ds
    → DiscoveriesOk k (some p) ds
DiscoveriesOk-agent k a p none h = tt
DiscoveriesOk-agent k a p (some ds) h = (refl, h.1)

attach_agent-Inv :
    (net : Network) (peer : Peer) (t : HapiTunnel)
    → peer.role ≡ agent
    → Inv t.maps
    → Inv (attach_agent net peer t).0.maps
unfolding attach_agent
attach_agent-Inv net peer t e v = record {
  agents_own = put-keeps AgentOk k (some peer) m.agents (refl, e) v.agents_own;
  mobiles_own = v.mobiles_own;
  gateways_own = put-keeps_both GatewaysOk k (some peer) none m.agents m.gateways tt v.gateways_own;
  discoveries_own =
      put-keeps_left DiscoveriesOk k (some peer) m.agents m.discoveries
        (DiscoveriesOk-agent k (m.agents k) peer (m.discoveries k) (v.discoveries_own k))
        v.discoveries_own;
}
  where
    k : TunnelKey
    k = peer.key

    m : Maps
    m = t.maps

All-entries :
    (k : TunnelKey) (o : Option (List (String × Peer)))
    → MobilesOk k o
    → All (IsMobileOf k) (entries o)
All-entries k none h = tt
All-entries k (some ps) h = h.2

MobilesOk-insert :
    (k : TunnelKey) (id : String) (p : Peer) (o : Option (List (String × Peer)))
    → IsMobileOf k (id, p)
    → MobilesOk k o
    → leb max_mobiles (length (entries o)) ≡ false
    → MobilesOk k (some (insert id p (entries o)))
MobilesOk-insert k id p o i h room = (
  length-insert_pos id p (entries o),
  ground (arith, length-insert id p (entries o)),
  All-insert (IsMobileOf k) id p (entries o) i (All-entries k o h),
)

-- A refusal finds four entries, so the map that it stores again is the one that was there.
MobilesOk-full :
    (k : TunnelKey) (o : Option (List (String × Peer)))
    → MobilesOk k o
    → leb max_mobiles (length (entries o)) ≡ true
    → MobilesOk k (some (entries o))
MobilesOk-full k none h full = cc
MobilesOk-full k (some ps) h full = h

attach_mobile-Inv :
    (peer : Peer) (t : HapiTunnel)
    → peer.role ≡ mobile
    → Inv t.maps
    → Inv (attach_mobile peer t).0.maps
unfolding attach_mobile
attach_mobile-Inv peer t e v =
    elim (Bool-cases (leb max_mobiles (length (entries (t.maps.mobiles peer.key))))) [
      | inl full ↦
          rw (full, if◌then◌else◌)
            (with_mobiles _ (MobilesOk-full peer.key _ (v.mobiles_own peer.key) full))
      | inr room ↦
          rw (room, if◌then◌else◌)
            (with_mobiles _ (
              MobilesOk-insert peer.key peer.connection_id peer _ (refl, e, refl)
                (v.mobiles_own peer.key) room))
    ]
  where
    with_mobiles :
        (ps : Option (List (String × Peer)))
        → MobilesOk peer.key ps
        → Inv (record (t.maps) { mobiles = put peer.key ps t.maps.mobiles })
    with_mobiles ps h = record {
      agents_own = v.agents_own;
      mobiles_own = put-keeps MobilesOk peer.key ps t.maps.mobiles h v.mobiles_own;
      gateways_own = v.gateways_own;
      discoveries_own = v.discoveries_own;
    }

attach_by_role-Inv :
    (r : Role) (net : Network) (peer : Peer) (t : HapiTunnel)
    → peer.role ≡ r
    → Inv t.maps
    → Inv (attach_by_role r net peer t).0.maps
unfolding attach_by_role
attach_by_role-Inv agent net peer t e v = attach_agent-Inv net peer t e v
attach_by_role-Inv mobile net peer t e v = attach_mobile-Inv peer t e v

pub attach-Inv :
    (net : Network) (peer : Peer) (t : HapiTunnel) → Inv t.maps → Inv (attach net peer t).0.maps
unfolding attach
attach-Inv net peer t v = attach_by_role-Inv peer.role net peer t refl v

pub detach_agent-Inv :
    (net : Network) (peer : Peer) (t : HapiTunnel) → Inv t.maps → Inv (detach_agent net peer t).maps
unfolding detach_agent
detach_agent-Inv net peer t v = elim (Bool-cases (is_peer (t.maps.agents peer.key) peer)) [
  | inl current ↦ rw (current, if◌then◌else◌) removed
  | inr stale ↦ rw (stale, if◌then◌else◌) v
]
  where
    m : Maps
    m = t.maps

    removed : Inv (record m {
      agents = put peer.key none m.agents;
      gateways = put peer.key none m.gateways;
      discoveries = put peer.key none m.discoveries;
    })
    removed = record {
      agents_own = put-keeps AgentOk peer.key none m.agents tt v.agents_own;
      mobiles_own = v.mobiles_own;
      gateways_own =
          put-keeps_both GatewaysOk peer.key none none m.agents m.gateways tt v.gateways_own;
      discoveries_own =
          put-keeps_both DiscoveriesOk peer.key none none m.agents m.discoveries tt
            v.discoveries_own;
    }
