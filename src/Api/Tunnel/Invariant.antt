-- ===== src/Api/Tunnel/Invariant.antt =====
-- What holds of the hub's maps between two critical sections of internal/api/tunnel.go.
use echoear_cloud.Base.{
  ℕ, String, true, ◌≤◌, ◌≡◌, inl, inr, Option, none, some, List, length, All, is_some, Bool-cases,
}
use mathlib.Core.Path.{subst}
use echoear_cloud.Api.Tunnel.Hub.{
  TunnelKey, key_eq, key_eq_iff, agent, mobile, Peer, GatewayRequest, Maps, put, new_hapi_tunnel,
}
use echoear_cloud.Api.Tunnel.Attach.{max_mobiles, max_gateways, serves_gateway}

abbrev pub IsAgentOf : TunnelKey → Peer → Type 0
IsAgentOf k p = (p.key ≡ k) × (p.role ≡ agent)

abbrev pub IsMobileOf : TunnelKey → String × Peer → Type 0
IsMobileOf k (id, p) = (p.key ≡ k) × (p.role ≡ mobile) × (p.connection_id ≡ id)

abbrev pub IsGatewayOf : TunnelKey → String × GatewayRequest → Type 0
IsGatewayOf k (id, g) = (g.key ≡ k) × (g.connection_id ≡ id)

abbrev pub AgentOk : TunnelKey → Option Peer → Type 0
AgentOk k none = Unit
AgentOk k (some p) = IsAgentOf k p

abbrev pub MobilesOk : TunnelKey → Option (List (String × Peer)) → Type 0
MobilesOk k none = Unit
MobilesOk k (some ps) = (1 ≤ length ps) × (length ps ≤ max_mobiles) × All (IsMobileOf k) ps

abbrev pub GatewaysOk : TunnelKey → Option Peer → Option (List (String × GatewayRequest)) → Type 0
GatewaysOk k a none = Unit
GatewaysOk k a (some gs) =
    (serves_gateway a ≡ true)
    × (1 ≤ length gs)
    × (length gs ≤ max_gateways)
    × All (IsGatewayOf k) gs

abbrev pub DiscoveriesOk : TunnelKey → Option Peer → Option (List (String × ℕ)) → Type 0
DiscoveriesOk k a none = Unit
DiscoveriesOk k a (some ds) = (is_some a ≡ true) × (1 ≤ length ds)

-- Every peer stands under its own key. No inner map is left empty, and none is over its limit. A
-- gateway request is open only while an agent that serves gateways is connected, and a discovery is
-- pending only while an agent is connected.
pub record Inv (m : Maps) : Type 0 where
  pub agents_own : (k : TunnelKey) → AgentOk k (m.agents k)
  pub mobiles_own : (k : TunnelKey) → MobilesOk k (m.mobiles k)
  pub gateways_own : (k : TunnelKey) → GatewaysOk k (m.agents k) (m.gateways k)
  pub discoveries_own : (k : TunnelKey) → DiscoveriesOk k (m.agents k) (m.discoveries k)

module _ {ℓ κ} {V : Type ℓ} (P : TunnelKey → V → Type κ) where
  pub put-keeps :
      (k : TunnelKey) (v : V) (m : TunnelKey → V)
      → P k v
      → ((j : TunnelKey) → P j (m j))
      → (j : TunnelKey) → P j (put k v m j)
  put-keeps k v m p h j = elim (Bool-cases (key_eq k j)) [
    | inl same ↦ rw same (subst (λ i. P i v) ((key_eq_iff k j).0 same) p)
    | inr other ↦ rw other (h j)
  ]

module _ {ℓ κ ν} {V : Type ℓ} {W : Type κ} (Q : TunnelKey → V → W → Type ν) where
  pub put-keeps_both :
      (k : TunnelKey) (v : V) (w : W) (m : TunnelKey → V) (n : TunnelKey → W)
      → Q k v w
      → ((j : TunnelKey) → Q j (m j) (n j))
      → (j : TunnelKey) → Q j (put k v m j) (put k w n j)
  put-keeps_both k v w m n p h j = elim (Bool-cases (key_eq k j)) [
    | inl same ↦ rw same (subst (λ i. Q i v w) ((key_eq_iff k j).0 same) p)
    | inr other ↦ rw other (h j)
  ]

  pub put-keeps_left :
      (k : TunnelKey) (v : V) (m : TunnelKey → V) (n : TunnelKey → W)
      → Q k v (n k)
      → ((j : TunnelKey) → Q j (m j) (n j))
      → (j : TunnelKey) → Q j (put k v m j) (n j)
  put-keeps_left k v m n p h j = elim (Bool-cases (key_eq k j)) [
    | inl same ↦ rw same (subst (λ i. Q i v (n i)) ((key_eq_iff k j).0 same) p)
    | inr other ↦ rw other (h j)
  ]

  pub put-keeps_right :
      (k : TunnelKey) (w : W) (m : TunnelKey → V) (n : TunnelKey → W)
      → Q k (m k) w
      → ((j : TunnelKey) → Q j (m j) (n j))
      → (j : TunnelKey) → Q j (m j) (put k w n j)
  put-keeps_right k w m n p h j = elim (Bool-cases (key_eq k j)) [
    | inl same ↦ rw same (subst (λ i. Q i (m i) w) ((key_eq_iff k j).0 same) p)
    | inr other ↦ rw other (h j)
  ]

pub new_hapi_tunnel-Inv : Inv new_hapi_tunnel.maps
unfolding new_hapi_tunnel
new_hapi_tunnel-Inv = record {
  agents_own = λ k. tt;
  mobiles_own = λ k. tt;
  gateways_own = λ k. tt;
  discoveries_own = λ k. tt;
}
