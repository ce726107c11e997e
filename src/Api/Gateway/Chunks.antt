-- ===== src/Api/Gateway/Chunks.antt =====
-- The frames of a gateway request: `hapiGateway` and `sendGatewayFrame` of internal/api/hapi_gateway.go.
use echoear_cloud.Base.{
  ℕ, zero, suc, String, Bool, true, false, ◌≡◌, ◌≤◌, refl, ap, ◌∙◌, ◌⊎◌, inl, inr, Option, none,
  some, List, [], ◌∷◌, ◌++◌, map, ◌||◌, if◌then◌else◌, leb, arith, str_eq, length, drop,
  take-append-drop, length-take, length-drop, All, Bool-cases,
}
use echoear_cloud.Api.Tunnel.Hub.{GatewayFrame}
use echoear_cloud.Api.Gateway.{chunks, plain_frame, chunk_frame, head_frame, request_frames}

-- What the bodies of the frames say together, read in order.
abbrev pub joined : List (List ℕ) → List ℕ
joined [] = []
joined (c ∷ cs) = c ++ joined cs

abbrev pub prepend : Option (List ℕ) → Option (List ℕ) → Option (List ℕ)
prepend (some b) (some rest) = some (b ++ rest)
prepend (some b) none = none
prepend none rest = none

abbrev pub has_body : GatewayFrame → Bool
has_body f = str_eq f.kind "request" || str_eq f.kind "request_chunk"

abbrev pub reassemble : (String → Option (List ℕ)) → List GatewayFrame → Option (List ℕ)
reassemble decode [] = some []
reassemble decode (f ∷ fs) =
    let rest = reassemble decode fs in if has_body f then prepend (decode f.body) rest else rest

append_nil : (xs : List ℕ) → xs ++ [] ≡ xs
append_nil [] = refl
append_nil (x ∷ xs) = rw (append_nil xs) refl

joined-chunks :
    (fuel size : ℕ) (body : List ℕ)
    → 1 ≤ size
    → length body ≤ fuel
    → joined (chunks fuel size body) ≡ body
unfolding chunks
joined-chunks zero size [] pos enough = refl
joined-chunks zero size (b ∷ body) pos enough = absurd (omega arith)
joined-chunks (suc fuel) size [] pos enough = refl
joined-chunks (suc fuel) size (b ∷ body) pos enough =
    rw
      (joined-chunks fuel size (drop size (b ∷ body)) pos
        (omega (arith, length-drop size (b ∷ body))))
      (take-append-drop size (b ∷ body))

-- Each chunk holds a byte at least and no more than the size.
chunks-bounded :
    (fuel size : ℕ) (body : List ℕ)
    → 1 ≤ size
    → All (λ c. (1 ≤ length c) × (length c ≤ size)) (chunks fuel size body)
unfolding chunks
chunks-bounded zero size body pos = tt
chunks-bounded (suc fuel) size [] pos = tt
chunks-bounded (suc fuel) size (b ∷ body) pos = (
  (omega (arith, length-take size (b ∷ body)), omega (arith, length-take size (b ∷ body))),
  chunks-bounded fuel size (drop size (b ∷ body)) pos,
)

module _ (encode : List ℕ → String) (decode : String → Option (List ℕ))
    (codec : (b : List ℕ) → decode (encode b) ≡ some b) where
  reassemble-chunks :
      (id : String) (cs : List (List ℕ)) (rest : List GatewayFrame)
      → reassemble decode rest ≡ some []
      → reassemble decode (map (chunk_frame encode id) cs ++ rest) ≡ some (joined cs)
  reassemble-chunks id [] rest h = h
  reassemble-chunks id (c ∷ cs) rest h = rw (codec c, reassemble-chunks id cs rest h) refl

-- Whatever the size of a body, the frames that carry it, read in order by a receiver that decodes what
-- the sender encoded, give the body back; a body that is sent in chunks has chunks of 1 to `size`
-- bytes, between a frame that announces its length and one that ends it.
pub request_frames-reassemble :
    (encode : List ℕ → String) (decode : String → Option (List ℕ)) (inline size : ℕ)
    (id method path : String) (headers : List (String × String)) (body : List ℕ)
    → ((b : List ℕ) → decode (encode b) ≡ some b)
    → 1 ≤ size
    → let head = head_frame id method path headers in
      let frames = request_frames encode inline size head body in
      (reassemble decode frames ≡ some body)
      × ((frames ≡ record head { body = encode body } ∷ [])
          ⊎ ((cs : List (List ℕ)) × (frames
                ≡ record head { kind = "request_start"; content_length = length body }
                  ∷ (map (chunk_frame encode id) cs ++ plain_frame "request_end" id ∷ []))
              × All (λ c. (1 ≤ length c) × (length c ≤ size)) cs))
unfolding request_frames
request_frames-reassemble encode decode inline size id method path headers body codec pos =
    go (Bool-cases (leb (length body) inline))
  where
    head : GatewayFrame
    head = head_frame id method path headers

    go :
        (leb (length body) inline ≡ true) ⊎ (leb (length body) inline ≡ false)
        → (reassemble decode (request_frames encode inline size head body) ≡ some body)
          × ((request_frames encode inline size head body ≡ record head { body = encode body } ∷ [])
              ⊎ ((cs : List (List ℕ)) × (request_frames encode inline size head body
                    ≡ record head { kind = "request_start"; content_length = length body }
                      ∷ (map (chunk_frame encode id) cs ++ plain_frame "request_end" id ∷ []))
                  × All (λ c. (1 ≤ length c) × (length c ≤ size)) cs))
    go (inl short) =
        rw (short, request_frames, if◌then◌else◌)
          (rw (codec body) (ap some (append_nil body)), inl refl)
    go (inr long) =
        rw (long, request_frames, if◌then◌else◌)
          (
            reassemble-chunks encode decode codec id (chunks (length body) size body)
                  (plain_frame "request_end" id ∷ []) refl
                ∙ ap some (joined-chunks (length body) size body pos (omega arith)),
            inr (chunks (length body) size body, refl, chunks-bounded (length body) size body pos),
          )
