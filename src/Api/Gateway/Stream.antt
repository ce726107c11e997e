-- ===== src/Api/Gateway/Stream.antt =====
-- What the client of a gateway request sees: `streamGatewayResponse` of internal/api/hapi_gateway.go.
use echoear_cloud.Base.{
  ℕ, String, Bool, true, false, ◌≡◌, ◌≤◌, refl, Option, none, some, List, [], ◌∷◌, ◌++◌, map, ◌&&◌,
  ◌||◌, not, ◌==◌, ◌<◌, ◌⊎◌, inl, inr, Bool-cases, if◌then◌else◌, ltb, arith, str_eq, is_empty,
  trim_space, ℤ, if-cases, ap, ◌∙◌,
}
use echoear_cloud.Api.Tunnel.Hub.{GatewayFrame}
use echoear_cloud.Api.Gateway.{
  Write, head, bytes, failure, no_content, Event, frame, tick, timed_out, disconnected, cancelled,
  Progress, begun, informational, heads, finish_with, fail_unless_started, clean_status,
  write_chunk, on_frame, on_event, stream, response_headers,
}

-- A final status: 101, or from 200 to 599.
abbrev pub IsStatus : ℤ → Type 0
IsStatus (ℤ.pos n) = (n ≡ 101) ⊎ ((200 ≤ n) × (n ≤ 599))
IsStatus (ℤ.negsuc n) = ⊥

-- At most one informational response.
pub data Before : List Write → Type 0 where
  nothing : Before []
  one :
      (n : ℕ) {headers : List (String × String)}
      → 100 ≤ n
      → n < 200
      → Before (informational (ℤ.pos n) headers ∷ [])

-- What a client can see: nothing; one refusal, or the bare status, and then the end; or one head with a
-- final status, before it at most one informational response and after it nothing but bytes.
pub data Reply (p : Progress) : Type 0 where
  silent : p.started ≡ false → p.writes ≡ [] → Reply p
  refused :
      {header : Option String} {code : ℕ} {message : String}
      → p.started ≡ false
      → p.finished ≡ true
      → p.writes ≡ failure header code message ∷ []
      → Reply p
  empty : p.started ≡ false → p.finished ≡ true → p.writes ≡ no_content ∷ [] → Reply p
  answered :
      (before : List Write) (status : ℤ) (headers : List (String × String)) (bodies : List (List ℕ))
      → p.started ≡ true
      → Before before
      → IsStatus status
      → p.writes ≡ before ++ head status headers ∷ map bytes bodies
      → Reply p

pub record IsHead (status : ℤ) (headers : List (String × String)) : Type 0 where
  pub before : List Write
  pub final : ℤ
  pub is_before : Before before
  pub is_status : IsStatus final
  pub these : heads status headers ≡ before ++ head final headers ∷ []

heads-IsHead :
    (n : ℕ) (headers : List (String × String)) → 100 ≤ n → n ≤ 599 → IsHead (ℤ.pos n) headers
heads-IsHead n headers low high = elim (Bool-cases (ltb n 200 && not (n == 101))) [
  | inl early ↦ record {
    before = informational (ℤ.pos n) headers ∷ [];
    final = ℤ.pos 200;
    is_before = one n low (ground arith);
    is_status = inr (omega arith, omega arith);
    these = rw early refl;
  }
  | inr late ↦ record {
    before = [];
    final = ℤ.pos n;
    is_before = nothing;
    is_status = ground arith;
    these = rw late refl;
  }
]

clean_status-IsHead : (s : ℤ) (headers : List (String × String)) → IsHead (clean_status s) headers
clean_status-IsHead (ℤ.negsuc n) headers = heads-IsHead 502 headers (omega arith) (omega arith)
clean_status-IsHead (ℤ.pos n) headers =
    if-cases (λ (k : ℤ). IsHead k headers) (ltb n 100 || ltb 599 n) (ℤ.pos 502) (ℤ.pos n)
      (λ bad. heads-IsHead 502 headers (omega arith) (omega arith))
      (λ good. heads-IsHead n headers (ground arith) (ground arith))

append_assoc : (us vs ws : List Write) → (us ++ vs) ++ ws ≡ us ++ (vs ++ ws)
append_assoc [] vs ws = refl
append_assoc (u ∷ us) vs ws = rw (append_assoc us vs ws) refl

append_nil : (ws : List Write) → ws ++ [] ≡ ws
append_nil [] = refl
append_nil (w ∷ ws) = rw (append_nil ws) refl

map-append_one :
    (bs : List (List ℕ)) (b : List ℕ) → map bytes bs ++ bytes b ∷ [] ≡ map bytes (bs ++ b ∷ [])
map-append_one [] b = refl
map-append_one (c ∷ bs) b = rw (map-append_one bs b) refl

-- The loop goes on only while it is not finished: nothing has been refused then.
stops : (p : Progress) → p.finished ≡ false → Reply p → Reply (finish_with [] p)
stops p go_on (silent s w) = silent s (append_nil p.writes ∙ w)
stops p go_on (refused s f w) = cc
stops p go_on (empty s f w) = cc
stops p go_on (answered before status headers bodies s o i w) =
    answered before status headers bodies s o i (append_nil p.writes ∙ w)

fails :
    (header : Option String) (code : ℕ) (message : String) (p : Progress)
    → p.finished ≡ false
    → Reply p
    → Reply (fail_unless_started header code message p)
fails header code message p go_on (silent s w) =
    rw s (refused refl refl (ap (λ (ws : List Write). ws ++ failure header code message ∷ []) w))
fails header code message p go_on (refused s f w) = cc
fails header code message p go_on (empty s f w) = cc
fails header code message p go_on (answered before status headers bodies s o i w) =
    rw s (answered before status headers bodies refl o i (append_nil p.writes ∙ w))

module _ (lower : String → String) (decode : String → Option (List ℕ))
    (connection_id : String) where
  starts :
      (f : GatewayFrame) (p : Progress)
      → p.finished ≡ false
      → p.started ≡ false
      → Reply p
      → Reply (record p {
        started = true;
        writes = p.writes ++ heads (clean_status f.status) (response_headers lower f.headers);
      })
  starts f p go_on off (silent s w) =
      let h = clean_status-IsHead f.status (response_headers lower f.headers) in
      answered h.before h.final (response_headers lower f.headers) [] refl h.is_before h.is_status (
        ap
          (λ (ws : List Write).
            ws ++ heads (clean_status f.status) (response_headers lower f.headers))
          w
        ∙ h.these)
  starts f p go_on off (refused s g w) = cc
  starts f p go_on off (empty s g w) = cc
  starts f p go_on off (answered before status headers bodies s o i w) = cc

  sends :
      (bs : List ℕ) (p : Progress)
      → p.finished ≡ false
      → p.started ≡ true
      → Reply p
      → Reply (record p { writes = p.writes ++ bytes bs ∷ [] })
  sends bs p go_on on (silent s w) = cc
  sends bs p go_on on (refused s g w) = cc
  sends bs p go_on on (empty s g w) = cc
  sends bs p go_on on (answered before status headers bodies s o i w) =
      answered before status headers (bodies ++ bs ∷ []) s o i (
        ap (λ (ws : List Write). ws ++ bytes bs ∷ []) w
        ∙ append_assoc before (head status headers ∷ map bytes bodies) (bytes bs ∷ [])
        ∙ ap (λ (ws : List Write). before ++ head status headers ∷ ws) (map-append_one bodies bs))

  writes_chunk :
      (o : Option (List ℕ)) (writable : Bool) (p : Progress)
      → p.finished ≡ false
      → p.started ≡ true
      → Reply p
      → Reply (write_chunk lower decode connection_id o writable p)
  writes_chunk none writable p go_on on r = stops p go_on r
  writes_chunk (some bs) true p go_on on r = sends bs p go_on on r
  writes_chunk (some bs) false p go_on on r = stops p go_on r

  ends :
      (p : Progress)
      → p.finished ≡ false
      → Reply p
      → Reply (finish_with (if p.started then [] else no_content ∷ []) p)
  ends p go_on (silent s w) =
      rw s (empty refl refl (ap (λ (ws : List Write). ws ++ no_content ∷ []) w))
  ends p go_on (refused s f w) = cc
  ends p go_on (empty s f w) = cc
  ends p go_on (answered before status headers bodies s o i w) =
      rw s (answered before status headers bodies refl o i (append_nil p.writes ∙ w))

  on_frame-Reply :
      (f : GatewayFrame) (writable : Bool) (p : Progress)
      → p.finished ≡ false
      → Reply p
      → Reply (on_frame lower decode connection_id f writable p)
  unfolding on_frame
  on_frame-Reply f writable p go_on r =
      if-cases Reply (not (is_empty f.id) && not (str_eq f.id connection_id)) _ _ (λ other. r)
        (λ own.
          if-cases Reply (str_eq f.kind "response_start") _ _
            (λ k. if-cases Reply p.started _ _ (λ on. r) (λ off. starts f p go_on off r))
            (λ k1.
              if-cases Reply (str_eq f.kind "response_chunk") _ _
                (λ k.
                  if-cases Reply p.started _ _
                    (λ on. writes_chunk (decode f.body) writable p go_on on r) (λ off. r))
                (λ k2.
                  if-cases Reply (str_eq f.kind "response_end") _ _ (λ k. ends p go_on r)
                    (λ k3.
                      if-cases Reply (str_eq f.kind "response_error") _ _
                        (λ k.
                          if-cases Reply
                            (str_eq (trim_space f.message) "HAPI_GATEWAY_SESSION_INVALID") _ _
                            (λ bad.
                              fails (some "session-invalid") 409 (trim_space f.message) p go_on r)
                            (λ any. fails none 502 (trim_space f.message) p go_on r))
                        (λ k4. r)))))

  on_event-Reply :
      (e : Event) (p : Progress)
      → p.finished ≡ false
      → Reply p
      → Reply (on_event lower decode connection_id e p)
  unfolding on_event
  on_event-Reply (frame f writable) p go_on r = on_frame-Reply f writable p go_on r
  on_event-Reply (tick true) p go_on r = r
  on_event-Reply (tick false) p go_on r = fails none 401 "HAPI 网关会话已失效" p go_on r
  on_event-Reply timed_out p go_on r =
      if-cases Reply p.started _ _ (λ on. r) (λ off. fails none 504 "电脑未及时响应 HAPI 请求" p go_on r)
  on_event-Reply disconnected p go_on r = fails none 503 "电脑云网关连接已断开" p go_on r
  on_event-Reply cancelled p go_on r = stops p go_on r

  stream-from :
      (es : List Event) (p : Progress) → Reply p → Reply (stream lower decode connection_id es p)
  unfolding stream
  stream-from [] p r = r
  stream-from (e ∷ es) p r =
      if-cases Reply p.finished _ _ (λ over. r)
        (λ go_on.
          stream-from es (on_event lower decode connection_id e p) (on_event-Reply e p go_on r))

  -- Whatever the agent sends and whatever happens in the meantime, the client sees at most one final
  -- status: a head with 101 or a status from 200 to 599, before it at most one informational response and
  -- after it nothing but bytes, or a single refusal with no head before it, or the bare 204, or nothing.
  pub stream-Reply : (es : List Event) → Reply (stream lower decode connection_id es begun)
  stream-Reply es = stream-from es begun (silent refl refl)
