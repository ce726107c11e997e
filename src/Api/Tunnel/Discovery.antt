-- ===== src/Api/Tunnel/Discovery.antt =====
-- internal/api/tunnel.go: `requestDiscovery` and `deliverDiscovery`. A request is two steps with the
-- wait between them: `begin_discovery` is the code up to the `select`, `end_discovery` is its outcome
-- and the deferred clean-up. The waiter is a channel that `make` has just returned.
use echoear_cloud.Base.{
  ℕ, String, Bool, false, Option, none, some, List, [], ◌∷◌, ◌==◌, not, is_some, if◌then◌else◌,
  lookup, insert,
}
use echoear_cloud.Api.Identifier.{valid_identifier}
use echoear_cloud.Api.Tunnel.Hub.{
  TunnelKey, Peer, TunnelMessage, control, DiscoveryError, unsupported, unavailable, cancelled,
  DiscoveryResult, answered, failed, HapiTunnel, put, set_at, entries, Network, send_control,
}
use echoear_cloud.Api.Tunnel.Attach.{is_peer, offer, remove_entry}

pub data Begun : Type 0 where
  refused : DiscoveryError → Begun
  waiting : Begun

abbrev pub connection_request : String → String → TunnelMessage
connection_request request_id payload = record (control "connection_request") {
  request_id = request_id;
  payload = payload;
}

-- The deferred function: the entry goes only if it is still this call's waiter, and the inner map
-- goes once it is empty.
abbrev pub is_waiter : Option ℕ → ℕ → Bool
is_waiter none a = false
is_waiter (some b) a = b == a

drop_empty : List (String × ℕ) → Option (List (String × ℕ))
drop_empty [] = none
drop_empty (e ∷ rest) = some (e ∷ rest)

unfoldable pub clean_pending : String → ℕ → Option (List (String × ℕ)) → Option (List (String × ℕ))
unfolding remove_entry drop_empty
clean_pending id a none = none
clean_pending id a (some pending) =
    if is_waiter (lookup id pending) a then remove_entry id (some pending) else drop_empty pending

unfoldable pub clean_up : TunnelKey → String → ℕ → HapiTunnel → HapiTunnel
unfolding clean_pending
clean_up key id a t = record t {
  maps = record (t.maps) {
    discoveries = put key (clean_pending id a (t.maps.discoveries key)) t.maps.discoveries;
  };
}

unfoldable pub register : TunnelKey → String → ℕ → HapiTunnel → HapiTunnel
register key id a t = record {
  maps = record (t.maps) {
    discoveries =
        put key (some (insert id a (entries (t.maps.discoveries key)))) t.maps.discoveries;
  };
  wire = record (t.wire) { waiters = set_at a none t.wire.waiters };
}

-- The registration, the send and, if it fails, the deferred clean-up are three sections of the code, with the
-- lock released between them; here they are one step.
unfoldable pub begin_with :
    Network → Peer → TunnelKey → String → String → ℕ → HapiTunnel → HapiTunnel × Begun
unfolding register clean_up send_control
begin_with net a key id payload waiter t =
    let t' = register key id waiter t in
    let (w, sent) = send_control net a (connection_request id payload) t'.wire in
    let t'' = record t' { wire = w } in
    if sent then (t'', waiting) else (clean_up key id waiter t'', refused unavailable)

unfoldable pub begin_at :
    Option Peer → Network → TunnelKey → String → String → ℕ → HapiTunnel → HapiTunnel × Begun
unfolding begin_with
begin_at none net key id payload waiter t = (t, refused unsupported)
begin_at (some a) net key id payload waiter t =
    if not a.discovery
    then (t, refused unsupported)
    else if is_some (lookup id (entries (t.maps.discoveries key)))
    then (t, refused unavailable)
    else begin_with net a key id payload waiter t

unfoldable pub begin_discovery :
    Network → TunnelKey → String → String → ℕ → HapiTunnel → HapiTunnel × Begun
unfolding begin_at
begin_discovery net key id payload waiter t =
    begin_at (t.maps.agents key) net key id payload waiter t

-- What the `select` takes: the waiter's result, the timer, or the end of the context.
pub data Wake : Type 0 where
  ready expired done : Wake

-- `ready` is chosen only with a result in the channel.
abbrev pub wake_result : Wake → Option DiscoveryResult → DiscoveryResult
wake_result ready (some r) = r
wake_result ready none = failed unavailable
wake_result expired held = failed unavailable
wake_result done held = failed cancelled

unfoldable pub end_discovery :
    Wake → TunnelKey → String → ℕ → HapiTunnel → HapiTunnel × DiscoveryResult
unfolding clean_up
end_discovery wake key id waiter t =
    (clean_up key id waiter t, wake_result wake (t.wire.waiters waiter))

unfoldable pub deliver_to : Option ℕ → String → HapiTunnel → HapiTunnel
unfolding offer
deliver_to none payload t = t
deliver_to (some a) payload t = record t { wire = offer a (answered payload) t.wire }

unfoldable pub deliver_discovery : Peer → String → String → HapiTunnel → HapiTunnel
unfolding deliver_to
deliver_discovery peer id payload t =
    if not (valid_identifier id 8 128)
    then t
    else if not (is_peer (t.maps.agents peer.key) peer)
    then t
    else deliver_to (lookup id (entries (t.maps.discoveries peer.key))) payload t
