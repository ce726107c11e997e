-- ===== src/Api/Tunnel/Hub.antt =====
-- internal/api/tunnel.go: the types, the maps under `t.mu`, and `sendControl`.
use echoear_cloud.Base.{
  ℕ, String, Bool, true, false, ◌≡◌, refl, ◌↔◌, ◌&&◌, Option, none, some, List, [], ◌∷◌, ◌++◌,
  arith, ◌==◌, if◌then◌else◌, str_eq, eq_iff, ℤ,
}

pub record TunnelKey : Type 0 where
  pub user_id : ℕ
  pub agent_id : String

unfoldable pub key_eq : TunnelKey → TunnelKey → Bool
key_eq a b = a.user_id == b.user_id && str_eq a.agent_id b.agent_id

pub key_eq_iff : (a b : TunnelKey) → (key_eq a b ≡ true) ↔ (a ≡ b)
unfolding key_eq
key_eq_iff a b = ground (arith, eq_iff a.agent_id b.agent_id)

-- `role` passed the test of the handler: "agent" or "mobile".
pub data Role : Type 0 where
  agent mobile : Role

-- `address` is the pointer; `conn`, `send` and `closed` are found in the wire under it.
pub record Peer : Type 0 where
  pub address : ℕ
  pub key : TunnelKey
  pub role : Role
  pub connection_id : String
  pub request_id : String
  pub session_id : String
  pub subject_user_id : ℕ
  pub access_id : String
  pub gateway : Bool
  pub discovery : Bool

pub record GatewayRequest : Type 0 where
  pub address : ℕ
  pub key : TunnelKey
  pub connection_id : String
  pub request_id : String
  pub session_id : String
  pub subject_user_id : ℕ
  pub access_id : String

pub record GatewayFrame : Type 0 where
  pub kind : String
  pub id : String
  pub method : String
  pub path : String
  pub headers : List (String × String)
  pub body : String
  pub content_length : ℕ
  pub status : ℤ
  pub message : String

-- The `type` of a message is `kind`; a payload is the raw text of a JSON value.
pub record TunnelMessage : Type 0 where
  pub kind : String
  pub connection_id : String
  pub request_id : String
  pub payload : String
  pub trace_id : String
  pub phone_tunnel_sent_at : ℤ
  pub cloud_received_at : ℤ
  pub cloud_forwarded_at : ℤ

abbrev pub control : String → TunnelMessage
control kind = record {
  kind = kind;
  connection_id = "";
  request_id = "";
  payload = "";
  trace_id = "";
  phone_tunnel_sent_at = ℤ.pos 0;
  cloud_received_at = ℤ.pos 0;
  cloud_forwarded_at = ℤ.pos 0;
}

pub data DiscoveryError : Type 0 where
  unsupported unavailable cancelled : DiscoveryError

pub data DiscoveryResult : Type 0 where
  answered : String → DiscoveryResult
  failed : DiscoveryError → DiscoveryResult

-- The four maps. An inner map that was never made, or was deleted, is `none`.
pub record Maps : Type 0 where
  pub agents : TunnelKey → Option Peer
  pub mobiles : TunnelKey → Option (List (String × Peer))
  pub gateways : TunnelKey → Option (List (String × GatewayRequest))
  pub discoveries : TunnelKey → Option (List (String × ℕ))

-- The channels: which peers and gateways are closed, what was put on each queue, oldest first, and
-- the result that a waiter's channel of capacity one holds.
pub record Wire : Type 0 where
  pub closed : ℕ → Bool
  pub closed_gateways : ℕ → Bool
  pub sent : ℕ → List TunnelMessage
  pub frames : ℕ → List GatewayFrame
  pub waiters : ℕ → Option DiscoveryResult

pub record HapiTunnel : Type 0 where
  pub maps : Maps
  pub wire : Wire

-- `newHapiTunnel`.
unfoldable pub new_hapi_tunnel : HapiTunnel
new_hapi_tunnel = record {
  maps = record {
    agents = λ k. none;
    mobiles = λ k. none;
    gateways = λ k. none;
    discoveries = λ k. none;
  };
  wire = record {
    closed = λ a. false;
    closed_gateways = λ a. false;
    sent = λ a. [];
    frames = λ a. [];
    waiters = λ a. none;
  };
}

-- `m[k] = v`, and `delete(m, k)` with `none` for `v`.
abbrev pub put {ℓ} : {V : Type ℓ} → TunnelKey → V → (TunnelKey → V) → TunnelKey → V
put k v m j = if key_eq k j then v else m j

abbrev pub set_at {ℓ} : {V : Type ℓ} → ℕ → V → (ℕ → V) → ℕ → V
set_at a v m b = if a == b then v else m b

pub put_self {ℓ} : {V : Type ℓ} (k : TunnelKey) (v : V) (m : TunnelKey → V) → put k v m k ≡ v
put_self k v m = rw ((key_eq_iff k k).1 refl)

-- `len` and `range` of a map that may be nil.
abbrev pub entries {ℓ} : {V : Type ℓ} → Option (List V) → List V
entries none = []
entries (some m) = m

-- `sendControl`: how its `select` ends; `unencodable` is the failure of `json.Marshal`.
pub data Delivery : Type 0 where
  accepted peer_closed timed_out unencodable : Delivery

abbrev pub Network : Type 0
Network = Peer → TunnelMessage → Delivery

-- `close` of a peer and of a gateway: `sync.Once` makes the second call do nothing.
abbrev pub close_peer : Peer → Wire → Wire
close_peer p w = record w { closed = set_at p.address true w.closed }

abbrev pub close_gateway : GatewayRequest → Wire → Wire
close_gateway g w = record w { closed_gateways = set_at g.address true w.closed_gateways }

abbrev pub push_message : Peer → TunnelMessage → Wire → Wire
push_message p m w = record w { sent = set_at p.address (w.sent p.address ++ m ∷ []) w.sent }

-- The message goes on the queue as its record. `json.Marshal`, which also compacts a raw payload and
-- escapes its <, > and &, is not applied; `unencodable` is its failure.
unfoldable pub send_control : Network → Peer → TunnelMessage → Wire → Wire × Bool
send_control net p m w = elim (net p m) [
  | accepted ↦ (push_message p m w, true)
  | peer_closed ↦ (w, false)
  | timed_out ↦ (close_peer p w, false)
  | unencodable ↦ (w, false)
]

-- The loops of `attach` and `detach` over an inner map.
unfoldable pub notify : Network → TunnelMessage → List (String × Peer) → Wire → Wire
unfolding send_control
notify net m [] w = w
notify net m ((id, p) ∷ ps) w = notify net m ps (send_control net p m w).0

unfoldable pub close_gateways : List (String × GatewayRequest) → Wire → Wire
close_gateways [] w = w
close_gateways ((id, g) ∷ gs) w = close_gateways gs (close_gateway g w)

-- `agent` and `mobile`.
unfoldable pub agent_of : HapiTunnel → TunnelKey → Option Peer
agent_of t k = t.maps.agents k
