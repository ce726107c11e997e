-- ===== src/Api/Tunnel/Routing.antt =====
-- Where a frame that `readLoop` of internal/api/tunnel.go takes from a socket can go.
use echoear_cloud.Base.{
  ℕ, String, true, false, ◌≡◌, ◌≢◌, refl, Option, none, some, [], ◌∷◌, ◌++◌, ◌⊎◌, inl, inr, arith,
  lookup, not, ◌&&◌, trim_space, if◌then◌else◌, Bool-cases, Option-cases, if-cases, str_eq, ◌||◌,
  is_empty, ℤ,
}
use echoear_cloud.Api.Identifier.{valid_identifier}
use echoear_cloud.Api.Tunnel.Hub.{
  Role, agent, mobile, Peer, GatewayRequest, GatewayFrame, TunnelMessage, HapiTunnel, Delivery,
  accepted, peer_closed, timed_out, unencodable, entries, control, Wire, DiscoveryResult, answered,
}
use echoear_cloud.Api.Tunnel.Delivery.{push_frame, deliver_gateway}
use echoear_cloud.Api.Tunnel.Discovery.{deliver_to, deliver_discovery}
use echoear_cloud.Api.Tunnel.Attach.{offer, is_peer}
use echoear_cloud.Api.Tunnel.Untouched.{read_frame-maps}
use echoear_cloud.Api.Tunnel.Frames.{
  Surroundings, Incoming, parsed, not_text, not_json, read_frame, from_agent, from_mobile,
  to_mobile, by_role, send, forwarded, clean_trace, clean_sent_at, invalid_frame,
}

-- Three addresses that are not the peer's business: of a connection that is not the peer's own, the agent's
-- under its key or a phone's under its key; of a gateway request that is not open under its key; and of a
-- discovery's waiter that is not pending under its key.
pub record IsStranger (t : HapiTunnel) (peer : Peer) (a b c : ℕ) : Type 0 where
  pub not_self : peer.address ≢ a
  pub not_agent : (p : Peer) → t.maps.agents peer.key ≡ some p → p.address ≢ a
  pub not_phone :
      (id : String) (p : Peer)
      → lookup id (entries (t.maps.mobiles peer.key)) ≡ some p
      → p.address ≢ a
  pub not_gateway :
      (id : String) (g : GatewayRequest)
      → lookup id (entries (t.maps.gateways peer.key)) ≡ some g
      → g.address ≢ b
  pub not_waiter :
      (id : String) (w : ℕ) → lookup id (entries (t.maps.discoveries peer.key)) ≡ some w → w ≢ c

-- The queue and the end of the connection, the queue and the end of the gateway request, and the
-- waiter's channel are as they were.
pub record IsLeft (before after : Wire) (a b c : ℕ) : Type 0 where
  pub sent : after.sent a ≡ before.sent a
  pub closed : after.closed a ≡ before.closed a
  pub frames : after.frames b ≡ before.frames b
  pub closed_gateways : after.closed_gateways b ≡ before.closed_gateways b
  pub waiters : after.waiters c ≡ before.waiters c

unchanged : (w : Wire) (a b c : ℕ) → IsLeft w w a b c
unchanged w a b c = record {
  sent = refl;
  closed = refl;
  frames = refl;
  closed_gateways = refl;
  waiters = refl;
}

send-IsLeft :
    (s : Surroundings) (p : Peer) (m : TunnelMessage) (t : HapiTunnel) (a b c : ℕ)
    → p.address ≢ a
    → IsLeft t.wire (send s p m t).wire a b c
unfolding send
send-IsLeft s p m t a b c h = record {
  sent = ground (arith, h);
  closed = ground (arith, h);
  frames = ground arith;
  closed_gateways = ground arith;
  waiters = ground arith;
}

push_frame-IsLeft :
    (d : Delivery) (g : GatewayRequest) (f : GatewayFrame) (w : Wire) (a b c : ℕ)
    → g.address ≢ b
    → IsLeft w (push_frame d g f w) a b c
unfolding push_frame
push_frame-IsLeft accepted g f w a b c h = record {
  sent = refl;
  closed = refl;
  frames = ground (arith, h);
  closed_gateways = refl;
  waiters = refl;
}
push_frame-IsLeft peer_closed g f w a b c h = unchanged w a b c
push_frame-IsLeft timed_out g f w a b c h = record {
  sent = refl;
  closed = refl;
  frames = refl;
  closed_gateways = ground (arith, h);
  waiters = refl;
}
push_frame-IsLeft unencodable g f w a b c h = unchanged w a b c

offer-IsLeft :
    (w : ℕ) (r : DiscoveryResult) (wire : Wire) (a b c : ℕ)
    → w ≢ c
    → IsLeft wire (offer w r wire) a b c
unfolding offer
offer-IsLeft w r wire a b c h = record {
  sent = ground arith;
  closed = ground arith;
  frames = ground arith;
  closed_gateways = ground arith;
  waiters = ground (arith, h);
}

module _ (s : Surroundings) (peer : Peer) (t : HapiTunnel) (a b c : ℕ)
    (far : IsStranger t peer a b c) where
  deliver_gateway-IsLeft :
      (id payload : String)
      → IsLeft t.wire (deliver_gateway s.decode s.choose peer.key id payload t).wire a b c
  unfolding deliver_gateway
  deliver_gateway-IsLeft id payload = read (s.decode payload)
    where
      at :
          (frame : GatewayFrame) (o : Option GatewayRequest)
          → lookup id (entries (t.maps.gateways peer.key)) ≡ o
          → IsLeft t.wire
              (elim o as (λ _. HapiTunnel) [
                | none ↦ t
                | some g ↦ record t { wire = push_frame (s.choose g frame) g frame t.wire }
              ]).wire
              a
              b
              c
      at frame none e = unchanged t.wire a b c
      at frame (some g) e =
          push_frame-IsLeft (s.choose g frame) g frame t.wire a b c (far.not_gateway id g e)

      read :
          (o : Option GatewayFrame)
          → IsLeft t.wire
              (elim o as (λ _. HapiTunnel) [
                | none ↦ t
                | some frame ↦
                    elim (lookup id (entries (t.maps.gateways peer.key))) as (λ _. HapiTunnel) [
                      | none ↦ t
                      | some g ↦ record t { wire = push_frame (s.choose g frame) g frame t.wire }
                    ]
              ]).wire
              a
              b
              c
      read none = unchanged t.wire a b c
      read (some frame) = at frame (lookup id (entries (t.maps.gateways peer.key))) refl

  deliver_to-IsLeft :
      (id payload : String) (o : Option ℕ)
      → lookup id (entries (t.maps.discoveries peer.key)) ≡ o
      → IsLeft t.wire (deliver_to o payload t).wire a b c
  unfolding deliver_to
  deliver_to-IsLeft id payload none e = unchanged t.wire a b c
  deliver_to-IsLeft id payload (some w) e =
      offer-IsLeft w (answered payload) t.wire a b c (far.not_waiter id w e)

  deliver_discovery-IsLeft :
      (id payload : String) → IsLeft t.wire (deliver_discovery peer id payload t).wire a b c
  unfolding deliver_discovery
  deliver_discovery-IsLeft id payload =
      if-cases (λ (u : HapiTunnel). IsLeft t.wire u.wire a b c) (not (valid_identifier id 8 128)) t
        _ (λ bad. unchanged t.wire a b c)
        (λ good.
          if-cases (λ (u : HapiTunnel). IsLeft t.wire u.wire a b c)
            (not (is_peer (t.maps.agents peer.key) peer)) t
            (deliver_to (lookup id (entries (t.maps.discoveries peer.key))) payload t)
            (λ stale. unchanged t.wire a b c)
            (λ current.
              deliver_to-IsLeft id payload (lookup id (entries (t.maps.discoveries peer.key)))
                refl))

  to_mobile-IsLeft :
      (id : String) (o : Option Peer) (m : TunnelMessage)
      → lookup id (entries (t.maps.mobiles peer.key)) ≡ o
      → IsLeft t.wire (to_mobile s o m t).wire a b c
  unfolding to_mobile
  to_mobile-IsLeft id none m e = unchanged t.wire a b c
  to_mobile-IsLeft id (some p) m e = send-IsLeft s p _ t a b c (far.not_phone id p e)

  from_mobile-IsLeft : (m : TunnelMessage) → IsLeft t.wire (from_mobile s peer m t).wire a b c
  unfolding from_mobile
  from_mobile-IsLeft m = elim (Option-cases (t.maps.agents peer.key)) [
    | inl off ↦ rw (off, from_mobile) (send-IsLeft s peer _ t a b c far.not_self)
    | inr (p, on) ↦ rw (on, from_mobile) (send-IsLeft s p _ t a b c (far.not_agent p on))
  ]

  from_agent-IsLeft : (m : TunnelMessage) → IsLeft t.wire (from_agent s peer m t).wire a b c
  unfolding from_agent
  from_agent-IsLeft m =
      if-cases (λ (u : HapiTunnel). IsLeft t.wire u.wire a b c)
        (str_eq m.kind "connection_response" || str_eq m.kind "connection_error")
        (deliver_discovery peer (trim_space m.request_id) m.payload t) _
        (λ answer. deliver_discovery-IsLeft (trim_space m.request_id) m.payload)
        (λ other.
          if-cases (λ (u : HapiTunnel). IsLeft t.wire u.wire a b c) (str_eq m.kind "gateway_data")
            (deliver_gateway s.decode s.choose peer.key (trim_space m.connection_id) m.payload t)
            (to_mobile s (lookup (trim_space m.connection_id) (entries (t.maps.mobiles peer.key))) m
              t)
            (λ bytes. deliver_gateway-IsLeft (trim_space m.connection_id) m.payload)
            (λ rest.
              to_mobile-IsLeft (trim_space m.connection_id)
                (lookup (trim_space m.connection_id) (entries (t.maps.mobiles peer.key))) m refl))

  by_role-IsLeft : (r : Role) (m : TunnelMessage) → IsLeft t.wire (by_role r s peer m t).wire a b c
  unfolding by_role
  by_role-IsLeft agent m = from_agent-IsLeft m
  by_role-IsLeft mobile m = from_mobile-IsLeft m

-- Whatever frame a peer sends, it reaches nothing but the peer itself and what stands under its key:
-- any other connection, gateway request or waiting discovery keeps its queue, its result and its end as
-- they were, so tunnels of other users, and of other agents of the same user, are never written to
-- or closed; and no map of the hub changes.
pub read_frame-isolated :
    (s : Surroundings) (peer : Peer) (f : Incoming) (t : HapiTunnel) (a b c : ℕ)
    → IsStranger t peer a b c
    → IsLeft t.wire (read_frame s peer f t).wire a b c × ((read_frame s peer f t).maps ≡ t.maps)
unfolding read_frame
read_frame-isolated s peer not_text t a b c far = (unchanged t.wire a b c, refl)
read_frame-isolated s peer not_json t a b c far =
    (send-IsLeft s peer _ t a b c far.not_self, read_frame-maps s peer not_json t)
read_frame-isolated s peer (parsed m) t a b c far = (
  if-cases (λ (u : HapiTunnel). IsLeft t.wire u.wire a b c) (invalid_frame peer.role m)
      (send s peer (control "invalid_frame") t) (by_role peer.role s peer m t)
      (λ bad. send-IsLeft s peer (control "invalid_frame") t a b c far.not_self)
      (λ good. by_role-IsLeft s peer t a b c far peer.role m),
  read_frame-maps s peer (parsed m) t,
)

-- The trace that is passed on is empty or an identifier of 8 to 128 bytes, and a phone's time is
-- passed on only beside one.
clean_trace_cases :
    (raw : String) → (clean_trace raw ≡ "") ⊎ (valid_identifier (clean_trace raw) 8 128 ≡ true)
unfolding clean_trace
clean_trace_cases raw = elim (Bool-cases (is_empty (trim_space raw))) [
  | inl empty ↦ inl (is_empty-eq (trim_space raw) empty)
  | inr full ↦ elim (Bool-cases (valid_identifier (trim_space raw) 8 128)) [
    | inl valid ↦ inr (rw (full, valid) valid)
    | inr bad ↦ inl (rw (full, bad))
  ]
]
  where
    is_empty-eq :
        (trace : String)
        → is_empty trace ≡ true
        → (if not (is_empty trace) && not (valid_identifier trace 8 128) then "" else trace) ≡ ""
    is_empty-eq String.[] e = refl
    is_empty-eq (String.◌∷◌ c s) e = cc

-- A phone's data frame that the agent's queue accepts arrives there last, with the payload as it
-- came, under the identifiers of the phone's own connection whatever the frame claimed; its trace is
-- empty or a valid identifier, and with an empty trace its time is 0.
pub read_frame-forwards :
    (s : Surroundings) (peer a : Peer) (m : TunnelMessage) (t : HapiTunnel)
    → peer.role ≡ mobile
    → invalid_frame mobile m ≡ false
    → t.maps.agents peer.key ≡ some a
    → s.net a (forwarded s peer m) ≡ accepted
    → let out = forwarded s peer m in
      ((read_frame s peer (parsed m) t).wire.sent a.address ≡ t.wire.sent a.address ++ out ∷ [])
      × (out.payload ≡ m.payload)
      × (out.connection_id ≡ peer.connection_id)
      × (out.request_id ≡ peer.request_id)
      × ((out.trace_id ≡ "") ⊎ (valid_identifier out.trace_id 8 128 ≡ true))
      × (out.trace_id ≡ "" → out.phone_tunnel_sent_at ≡ ℤ.pos 0)
unfolding read_frame forwarded
read_frame-forwards s peer a m t r good on sends = (
  ground arith,
  refl,
  refl,
  refl,
  clean_trace_cases m.trace_id,
  λ e. zero_time (clean_trace m.trace_id) m.phone_tunnel_sent_at e,
)
  where
    zero_time : (trace : String) (at_ms : ℤ) → trace ≡ "" → clean_sent_at trace at_ms ≡ ℤ.pos 0
    zero_time trace at_ms e = rw e
