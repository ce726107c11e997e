-- ===== src/Api/Gateway.antt =====
-- internal/api/hapi_gateway.go: the frames of a request that `hapiGateway` sends, the loop of
-- `streamGatewayResponse`, and the headers that go either way. A body is the list of its bytes.
-- The parameters: `encode` and `decode` are base64.StdEncoding, `lower` is `strings.ToLower`.
pub mod Chunks
pub mod Stream
mod Tests
use echoear_cloud.Base.{
  ℕ, zero, suc, String, len, Bool, true, false, Option, none, some, List, [], ◌∷◌, ◌++◌, ◌*◌, ◌&&◌,
  ◌||◌, not, ◌==◌, if◌then◌else◌, leb, ltb, any, str_eq, starts_with, trim_space, is_empty, length,
  take, drop, map, ℤ,
}
use echoear_cloud.Api.Tunnel.Hub.{GatewayRequest, GatewayFrame, HapiTunnel, Network}
use echoear_cloud.Api.Tunnel.Delivery.{send_gateway_frame}

abbrev pub gateway_inline_body : ℕ
gateway_inline_body = 6 * 1048576

abbrev pub gateway_request_chunk : ℕ
gateway_request_chunk = 192 * 1024

abbrev pub gateway_hop_headers : List String
gateway_hop_headers =
    "connection" ∷ "keep-alive" ∷ "proxy-authenticate" ∷ "proxy-authorization" ∷ "te" ∷ "trailer"
    ∷ "transfer-encoding" ∷ "upgrade" ∷ "content-length" ∷ "x-echoear-session" ∷ []

-- The values of a header are joined by ", " before.
unfoldable pub request_headers : (String → String) → List (String × String) → List (String × String)
request_headers lower [] = []
request_headers lower ((name, value) ∷ rest) =
    let kept = request_headers lower rest in
    if any (str_eq (lower name)) gateway_hop_headers || ltb (16 * 1024) (len value)
    then kept
    else (name, value) ∷ kept

unfoldable pub response_headers :
    (String → String) → List (String × String) → List (String × String)
response_headers lower [] = []
response_headers lower ((name, value) ∷ rest) =
    let kept = response_headers lower rest in
    if any (str_eq (lower name)) gateway_hop_headers
      || starts_with (lower name) "access-control-"
      || ltb (16 * 1024) (len value)
    then kept
    else (name, value) ∷ kept

-- The loop over `offset`, on fuel: `fuel` bounds the bytes that are left.
unfoldable pub chunks : ℕ → ℕ → List ℕ → List (List ℕ)
chunks zero size body = []
chunks (suc fuel) size [] = []
chunks (suc fuel) size (b ∷ body) = take size (b ∷ body) ∷ chunks fuel size (drop size (b ∷ body))

abbrev pub plain_frame : String → String → GatewayFrame
plain_frame kind id = record {
  kind = kind;
  id = id;
  method = "";
  path = "";
  headers = [];
  body = "";
  content_length = 0;
  status = ℤ.pos 0;
  message = "";
}

abbrev pub chunk_frame : (List ℕ → String) → String → List ℕ → GatewayFrame
chunk_frame encode id bytes = record (plain_frame "request_chunk" id) { body = encode bytes }

-- The first frame of a request: its fields beside the type, the body and the length.
abbrev pub head_frame : String → String → String → List (String × String) → GatewayFrame
head_frame id method path headers = record (plain_frame "request" id) {
  method = method;
  path = path;
  headers = headers;
}

unfoldable pub request_frames :
    (List ℕ → String) → ℕ → ℕ → GatewayFrame → List ℕ → List GatewayFrame
unfolding chunks
request_frames encode inline size head body =
    if leb (length body) inline
    then record head { body = encode body } ∷ []
    else record head { kind = "request_start"; content_length = length body }
      ∷ (map (chunk_frame encode head.id) (chunks (length body) size body)
          ++ plain_frame "request_end" head.id ∷ [])

-- `sendGatewayFrame` one after the other; the first that fails ends the request. Each is a section of
-- its own: `meanwhile` is what everyone else does to the hub before it. The network, the clock and
-- `meanwhile` are asked anew for each frame, by the number of frames that are left.
unfoldable pub send_all :
    (GatewayFrame → Option String)
    → (ℕ → Network)
    → (ℕ → ℤ)
    → (ℕ → HapiTunnel → HapiTunnel)
    → GatewayRequest
    → List GatewayFrame
    → HapiTunnel
    → HapiTunnel × Bool
unfolding send_gateway_frame
send_all encode net clock meanwhile g [] t = (t, true)
send_all encode net clock meanwhile g (f ∷ fs) t =
    let left = length fs in
    let (t', sent) = send_gateway_frame encode (net left) (clock left) g f (meanwhile left t) in
    let (t'', all_sent) = send_all encode net clock meanwhile g fs t' in
    if sent then (t'', all_sent) else (t', false)

-- What goes to the client: an informational response, a head with its status and headers, bytes, or an
-- answer of `fail`, with the value of `X-EchoEar-Gateway-Error`, or the bare status 204.
pub data Write : Type 0 where
  informational : ℤ → List (String × String) → Write
  head : ℤ → List (String × String) → Write
  bytes : List ℕ → Write
  failure : Option String → ℕ → String → Write
  no_content : Write

-- What the `select` takes: a frame, with whether a write of its bytes to the client succeeds; a tick of
-- the authorization, with its outcome; the start timer; the gateway's end; the client's end.
pub data Event : Type 0 where
  frame : GatewayFrame → Bool → Event
  tick : Bool → Event
  timed_out disconnected cancelled : Event

pub record Progress : Type 0 where
  pub started : Bool
  pub writes : List Write
  pub finished : Bool

abbrev pub begun : Progress
begun = record { started = false; writes = []; finished = false }

abbrev pub finish_with : List Write → Progress → Progress
finish_with ws p = record p { writes = p.writes ++ ws; finished = true }

-- `if !started { fail(…) }; return`.
abbrev pub fail_unless_started : Option String → ℕ → String → Progress → Progress
fail_unless_started header code message p =
    finish_with (if p.started then [] else failure header code message ∷ []) p

-- `status < 100 || status > 599` gives 502.
abbrev pub clean_status : ℤ → ℤ
clean_status (ℤ.pos n) = if ltb n 100 || ltb 599 n then ℤ.pos 502 else ℤ.pos n
clean_status (ℤ.negsuc n) = ℤ.pos 502

-- `c.Status` and `WriteHeaderNow`, as net/http has them: a status from 100 to 199 other than 101 is an
-- informational response, and the final status is then the implicit 200. That head goes out with the
-- first bytes or at the handler's return; here it follows at once.
abbrev pub heads : ℤ → List (String × String) → List Write
heads (ℤ.pos n) headers =
    if ltb n 200 && not (n == 101)
    then informational (ℤ.pos n) headers ∷ head (ℤ.pos 200) headers ∷ []
    else head (ℤ.pos n) headers ∷ []
heads (ℤ.negsuc n) headers = head (ℤ.negsuc n) headers ∷ []

module _ (lower : String → String) (decode : String → Option (List ℕ))
    (connection_id : String) where
  abbrev pub write_chunk : Option (List ℕ) → Bool → Progress → Progress
  write_chunk none writable p = finish_with [] p
  write_chunk (some bs) writable p =
      if writable then record p { writes = p.writes ++ bytes bs ∷ [] } else finish_with [] p

  unfoldable pub on_frame : GatewayFrame → Bool → Progress → Progress
  unfolding response_headers
  on_frame f writable p =
      if not (is_empty f.id) && not (str_eq f.id connection_id)
      then p
      else if str_eq f.kind "response_start"
      then (if p.started then p else record p {
        started = true;
        writes = p.writes ++ heads (clean_status f.status) (response_headers lower f.headers);
      })
      else if str_eq f.kind "response_chunk"
      then (if p.started then write_chunk (decode f.body) writable p else p)
      else if str_eq f.kind "response_end"
      then finish_with (if p.started then [] else no_content ∷ []) p
      else if str_eq f.kind "response_error"
      then (if str_eq (trim_space f.message) "HAPI_GATEWAY_SESSION_INVALID"
          then fail_unless_started (some "session-invalid") 409 (trim_space f.message) p
          else fail_unless_started none 502 (trim_space f.message) p)
      else p

  -- The start timer is stopped, and its channel nil, once the response has started.
  unfoldable pub on_event : Event → Progress → Progress
  unfolding on_frame
  on_event (frame f writable) p = on_frame f writable p
  on_event (tick authorized) p =
      if authorized then p else fail_unless_started none 401 "HAPI 网关会话已失效" p
  on_event timed_out p = if p.started then p else fail_unless_started none 504 "电脑未及时响应 HAPI 请求" p
  on_event disconnected p = fail_unless_started none 503 "电脑云网关连接已断开" p
  on_event cancelled p = finish_with [] p

  unfoldable pub stream : List Event → Progress → Progress
  unfolding on_event
  stream [] p = p
  stream (e ∷ es) p = let rest = stream es (on_event e p) in if p.finished then p else rest
