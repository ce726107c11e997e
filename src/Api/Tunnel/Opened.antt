-- ===== src/Api/Tunnel/Opened.antt =====
-- `attachGateway` of internal/api/hapi_gateway.go when it succeeds.
use text.Mathlib.TextPositions.{eq_refl}
use echoear_cloud.Base.{
  String, Bool, true, false, ◌≡◌, ◌≤◌, refl, ◌∙◌, ap, inl, inr, some, List, arith, leb, lookup,
  length, Bool-cases, insert, length-insert, lookup-insert,
}
use echoear_cloud.Api.Tunnel.Hub.{GatewayRequest, HapiTunnel, entries, put_self, put}
use echoear_cloud.Api.Tunnel.Attach.{max_gateways, serves_gateway, attach_gateway}

pub attach_gateway-stands :
    (g : GatewayRequest) (t t' : HapiTunnel)
    → attach_gateway g t ≡ (t', true)
    → (serves_gateway (t.maps.agents g.key) ≡ true)
      × (lookup g.connection_id (entries (t'.maps.gateways g.key)) ≡ some g)
      × (length (entries (t'.maps.gateways g.key)) ≤ max_gateways)
unfolding attach_gateway
attach_gateway-stands g t t' e = elim (Bool-cases (serves_gateway (t.maps.agents g.key))) [
  | inr off ↦ cc (rw (attach_gateway, off) at e)
  | inl on ↦ elim (Bool-cases (leb max_gateways (length (entries (t.maps.gateways g.key))))) [
    | inl full ↦ cc (rw (attach_gateway, on, full) at e)
    | inr room ↦
        let (found, few) = stands room (attached (rw (attach_gateway, on, room) at e)) in
        (on, found, few)
  ]
]
  where
    inserted : List (String × GatewayRequest)
    inserted = insert g.connection_id g (entries (t.maps.gateways g.key))

    hub : HapiTunnel
    hub = record t {
      maps = record (t.maps) { gateways = put g.key (some inserted) t.maps.gateways };
    }

    attached : ◌≡◌ {A = HapiTunnel × Bool} (hub, true) (t', true) → hub ≡ t'
    attached h = cc

    requests : hub ≡ t' → entries (t'.maps.gateways g.key) ≡ inserted
    requests h = rw (← h) (ap entries (put_self g.key (some inserted) t.maps.gateways))

    stands :
        leb max_gateways (length (entries (t.maps.gateways g.key))) ≡ false
        → hub ≡ t'
        → (lookup g.connection_id (entries (t'.maps.gateways g.key)) ≡ some g)
          × (length (entries (t'.maps.gateways g.key)) ≤ max_gateways)
    stands room h = (
      rw (requests h) (
          lookup-insert g.connection_id g.connection_id g (entries (t.maps.gateways g.key))
          ∙ rw (eq_refl g.connection_id) refl),
      rw (requests h)
          (ground (arith, room, length-insert g.connection_id g (entries (t.maps.gateways g.key)))),
    )
