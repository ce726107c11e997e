-- ===== src/Api/Gateway/Tests.antt =====
-- The theorems on gateway requests at small bodies.
use echoear_cloud.Base.{
  ℕ, String, true, ◌≡◌, ◌≤◌, refl, ◌⊎◌, Option, some, List, [], ◌∷◌, ◌++◌, map, arith, All, length,
  ℤ, zero, suc, ◌+◌, ◌==◌, if◌then◌else◌,
}
use Prim.Native.Char.{code}
use echoear_cloud.Api.Gateway.{
  Event, frame, tick, disconnected, begun, stream, plain_frame, head_frame, chunk_frame,
  request_frames,
}
use echoear_cloud.Api.Gateway.Chunks.{reassemble, request_frames-reassemble}
use echoear_cloud.Api.Gateway.Stream.{Reply, stream-Reply}

-- A codec in unary: a byte is that many "1" and a "0".
abbrev unary : ℕ → String → String
unary zero s = String.◌∷◌ "0" s
unary (suc n) s = String.◌∷◌ "1" (unary n s)

abbrev encode : List ℕ → String
encode [] = String.[]
encode (b ∷ bs) = unary b (encode bs)

abbrev decode_from : ℕ → String → List ℕ
decode_from n String.[] = []
decode_from n (String.◌∷◌ c s) = if code c == 49 then decode_from (suc n) s else n ∷ decode_from 0 s

abbrev decode : String → Option (List ℕ)
decode s = some (decode_from 0 s)

decode_from-unary : (n m : ℕ) (s : String) → decode_from m (unary n s) ≡ (m + n) ∷ decode_from 0 s
decode_from-unary zero m s = ground arith
decode_from-unary (suc n) m s = ground (arith, decode_from-unary n (suc m) s)

decode_from-encode : (bs : List ℕ) → decode_from 0 (encode bs) ≡ bs
decode_from-encode [] = refl
decode_from-encode (b ∷ bs) =
    ground (arith, decode_from-unary b 0 (encode bs), decode_from-encode bs)

decode-encode : (bs : List ℕ) → decode (encode bs) ≡ some bs
decode-encode bs = rw (decode_from-encode bs) refl

abbrev same : String → String
same s = s

-- Three bytes, two a chunk, none inline.
request_frames-reassemble_example :
    let head = head_frame "c1" "GET" "/" [] in
    let frames = request_frames encode 0 2 head (1 ∷ 0 ∷ 2 ∷ []) in
    (reassemble decode frames ≡ some (1 ∷ 0 ∷ 2 ∷ []))
    × ((frames ≡ record head { body = encode (1 ∷ 0 ∷ 2 ∷ []) } ∷ [])
        ⊎ ((cs : List (List ℕ)) × (frames
              ≡ record head { kind = "request_start"; content_length = 3 }
                ∷ (map (chunk_frame encode "c1") cs ++ plain_frame "request_end" "c1" ∷ []))
            × All (λ c. (1 ≤ length c) × (length c ≤ 2)) cs))
request_frames-reassemble_example =
    request_frames-reassemble encode decode 0 2 "c1" "GET" "/" [] (1 ∷ 0 ∷ 2 ∷ []) decode-encode
      (omega arith)

abbrev events : List Event
events =
    frame (record (plain_frame "response_start" "c1") { status = ℤ.pos 103 }) true
    ∷ tick true
    ∷ frame (record (plain_frame "response_chunk" "c1") { body = "10" }) true
    ∷ disconnected
    ∷ []

stream-Reply_example : Reply (stream same decode "c1" events begun)
stream-Reply_example = stream-Reply same decode "c1" events
