-- ===== src/Api/Tunnel/Exchange.antt =====
-- A discovery from its request to its answer: `requestDiscovery` and `deliverDiscovery` of
-- internal/api/tunnel.go.
use echoear_cloud.Base.{
  ℕ, String, true, false, ◌≡◌, ◌≢◌, refl, Option, none, some, List, [], ◌∷◌, ◌++◌, ◌⊎◌, arith,
  lookup, insert, erase, lookup-insert, lookup-erase,
}
use text.Mathlib.TextPositions.{eq_refl}
use echoear_cloud.Api.Identifier.{valid_identifier}
use echoear_cloud.Api.Tunnel.Hub.{
  Peer, HapiTunnel, TunnelKey, put_self, entries, Network, accepted, push_message, DiscoveryResult,
  answered,
}
use echoear_cloud.Api.Tunnel.Attach.{offer, remove_entry}
use echoear_cloud.Api.Tunnel.Discovery.{
  waiting, ready, connection_request, begin_discovery, begin_at, begin_with, register,
  deliver_discovery, end_discovery, clean_pending, is_waiter,
}

remove_entry-lookup :
    (id : String) (ds : List (String × ℕ)) → lookup id (entries (remove_entry id (some ds))) ≡ none
unfolding remove_entry
remove_entry-lookup id ds = go (erase id ds) (simp (lookup-erase, eq_refl))
  where
    go :
        (rest : List (String × ℕ))
        → lookup id rest ≡ none
        → lookup id (entries (elim rest [ [] ↦ none | e ∷ more ↦ some (e ∷ more) ])) ≡ none
    go [] h = h
    go (e ∷ more) h = h

clean_pending-lookup :
    (id : String) (w : ℕ) (o : Option (List (String × ℕ)))
    → lookup id (entries o) ≡ some w
    → lookup id (entries (clean_pending id w o)) ≡ none
unfolding clean_pending
clean_pending-lookup id w none h = unfold lookup in refl
clean_pending-lookup id w (some ds) h =
    let own : is_waiter (lookup id ds) w ≡ true = rw h (ground arith) in
    rw own (remove_entry-lookup id ds)

begun :
    (net : Network) (a : Peer) (k : TunnelKey) (id payload : String) (w : ℕ) (t : HapiTunnel)
    → t.maps.agents k ≡ some a
    → a.discovery ≡ true
    → lookup id (entries (t.maps.discoveries k)) ≡ none
    → net a (connection_request id payload) ≡ accepted
    → begin_discovery net k id payload w t ≡ (
      record (register k id w t) {
        wire = push_message a (connection_request id payload) (register k id w t).wire;
      },
      waiting,
    )
unfolding begin_discovery begin_at begin_with
begun net a k id payload w t on able free sends = ground arith

delivered :
    (a : Peer) (id reply : String) (w : ℕ) (u : HapiTunnel)
    → u.maps.agents a.key ≡ some a
    → lookup id (entries (u.maps.discoveries a.key)) ≡ some w
    → u.wire.waiters w ≡ none
    → valid_identifier id 8 128 ≡ true
    → deliver_discovery a id reply u ≡ record u { wire = offer w (answered reply) u.wire }
unfolding deliver_discovery
delivered a id reply w u on pending empty valid = ground arith

-- A discovery that an agent can serve, under a request id that is not pending, is sent to it; the
-- agent's answer under the same id is what the caller gets, and the entry is gone afterwards.
pub discovery_round_trip :
    (net : Network) (a : Peer) (id payload reply : String) (w : ℕ) (t : HapiTunnel)
    → t.maps.agents a.key ≡ some a
    → a.discovery ≡ true
    → lookup id (entries (t.maps.discoveries a.key)) ≡ none
    → net a (connection_request id payload) ≡ accepted
    → valid_identifier id 8 128 ≡ true
    → let (t', begun') = begin_discovery net a.key id payload w t in
      let (t'', result) = end_discovery ready a.key id w (deliver_discovery a id reply t') in
      (begun' ≡ waiting)
      × (t'.wire.sent a.address ≡ t.wire.sent a.address ++ connection_request id payload ∷ [])
      × (result ≡ answered reply)
      × (lookup id (entries (t''.maps.discoveries a.key)) ≡ none)
discovery_round_trip net a id payload reply w t on able free sends valid =
    rw (begun net a a.key id payload w t on able free sends) (
      rw
        (delivered a id reply w u (unfold register in on) pending
          (unfold register in (ground arith)) valid)
        (
          refl,
          unfold register in (ground arith),
          unfold end_discovery offer register in (ground arith),
          unfold end_discovery in
              (rw (put_self a.key _ u.maps.discoveries) (clean_pending-lookup id w _ pending)),
        ))
  where
    u : HapiTunnel
    u = record (register a.key id w t) {
      wire = push_message a (connection_request id payload) (register a.key id w t).wire;
    }

    pending : lookup id (entries (u.maps.discoveries a.key)) ≡ some w
    pending =
        unfold register in
        (rw
          (put_self a.key (some (insert id w (entries (t.maps.discoveries a.key))))
            t.maps.discoveries)
          (simp (lookup-insert, eq_refl)))

-- An answer changes nothing when its request id is malformed, when it comes from a connection that is
-- not the current agent's, when no discovery is pending under the id, or when one is already
-- answered: a caller gets at most one result, and from the agent that is connected.
pub deliver_discovery_ignored :
    (peer : Peer) (id reply : String) (t : HapiTunnel)
    → ((valid_identifier id 8 128 ≡ false)
        ⊎ ((current : Peer) × (t.maps.agents peer.key ≡ some current)
            × (current.address ≢ peer.address))
        ⊎ (t.maps.agents peer.key ≡ none)
        ⊎ (lookup id (entries (t.maps.discoveries peer.key)) ≡ none)
        ⊎ ((w : ℕ) × (r : DiscoveryResult) × (lookup id (entries (t.maps.discoveries peer.key))
              ≡ some w)
            × (t.wire.waiters w ≡ some r)))
    → deliver_discovery peer id reply t ≡ t
unfolding deliver_discovery
deliver_discovery_ignored peer id reply t why = ground arith
