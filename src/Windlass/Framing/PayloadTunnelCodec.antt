-- ===== src/Windlass/Framing/PayloadTunnelCodec.antt =====
-- `PayloadTunnelCodec` of serialmux-rs/src/windlass/framing.rs. `encode` gives `none` for its error; `dst` is then as it was.
use pik.Base.{
  ℕ, ◌+◌, ◌%◌, ◌≤◌, ◌<◌, ◌≡◌, refl, ◌∙◌, inl, inr, List, [], ◌∷◌, ◌++◌, Option, none, some, length,
  get_or, take, drop, ltb, if◌then◌else◌, arith, Bool-cases, ltb→lt, ltb→le, ◌⊎◌, length-append,
  take-append_le, drop-append_le, take-length, drop-length, ap₂,
}
use pik.Windlass.Framing.{PayloadTunnelFrame}

pub decode : List ℕ → Option PayloadTunnelFrame × List ℕ
decode src =
    let payload_len = get_or src 1 0 in
    let item : PayloadTunnelFrame = record {
      ch_id = get_or src 0 0;
      payload = take payload_len (drop 2 src);
    } in
    if ltb (length src) 2
    then (none, src)
    else if ltb (length src) (2 + payload_len)
    then (none, src)
    else (some item, drop payload_len (drop 2 src))

pub encode : PayloadTunnelFrame → List ℕ → Option (List ℕ)
encode item dst =
    if ltb 255 (length item.payload)
    then none
    else some (dst ++ (item.ch_id ∷ (length item.payload % 256) ∷ item.payload))

decode-encoded :
    (c : ℕ) (p rest : List ℕ)
    → length p ≤ 255
    → decode (c ∷ (length p % 256) ∷ (p ++ rest)) ≡ (some (record { ch_id = c; payload = p }), rest)
unfolding decode
decode-encoded c p rest h =
    let e : length p % 256 ≡ length p = omega arith in
    rw e (ground (arith, length-append p rest, take-length p rest, drop-length p rest))

-- What `encode` accepts, `decode` gives back, and leaves what follows it; `encode` accepts just the
-- payloads of at most 255 bytes and only adds to what it was given.
pub decode-encode_payload :
    (item : PayloadTunnelFrame) (dst rest : List ℕ)
    → ((length item.payload ≤ 255)
        × ((wire : List ℕ) × (encode item dst ≡ some (dst ++ wire))
            × (decode (wire ++ rest) ≡ (some item, rest))))
      ⊎ ((255 < length item.payload) × (encode item dst ≡ none))
unfolding encode
decode-encode_payload item dst rest = elim (Bool-cases (ltb 255 (length item.payload))) [
  | inl over ↦ inr (ltb→lt _ _ over, rw over)
  | inr fits ↦ inl (
    ltb→le _ _ fits,
    (
      item.ch_id ∷ (length item.payload % 256) ∷ item.payload,
      rw fits,
      decode-encoded item.ch_id item.payload rest (ltb→le _ _ fits),
    ),
  )
]

-- What a later call makes of a result once `more` bytes have come in.
abbrev pub resume : Option PayloadTunnelFrame × List ℕ → List ℕ → Option PayloadTunnelFrame × List ℕ
resume (some item, rest) more = (some item, rest ++ more)
resume (none, rest) more = decode (rest ++ more)

decode-waits :
    (src : List ℕ) → (length src < 2) ⊎ (length src < 2 + get_or src 1 0) → decode src ≡ (none, src)
unfolding decode
decode-waits src h = ground arith

decode-full :
    (src : List ℕ)
    → 2 ≤ length src
    → 2 + get_or src 1 0 ≤ length src
    → decode src ≡ (
      some (record { ch_id = get_or src 0 0; payload = take (get_or src 1 0) (drop 2 src) }),
      drop (get_or src 1 0) (drop 2 src),
    )
unfolding decode
decode-full src h k = ground arith

-- Where the reads cut the stream makes no difference.
pub decode-append_payload : (src more : List ℕ) → decode (src ++ more) ≡ resume (decode src) more
decode-append_payload src more = elim (Bool-cases (ltb (length src) 2)) [
  | inl short ↦ rw (decode-waits src (inl (ltb→lt _ _ short))) refl
  | inr two ↦ elim (Bool-cases (ltb (length src) (2 + get_or src 1 0))) [
    | inl short ↦ rw (decode-waits src (inr (ltb→lt _ _ short))) refl
    | inr full ↦ found src (ltb→le _ _ two) (ltb→le _ _ full)
  ]
]
  where
    found :
        (src : List ℕ)
        → 2 ≤ length src
        → 2 + get_or src 1 0 ≤ length src
        → decode (src ++ more) ≡ resume (decode src) more
    found [] h k = absurd (omega arith)
    found (c ∷ []) h k = absurd (omega arith)
    found (c ∷ n ∷ src) h k = rw (decode-full (c ∷ n ∷ src) h k) (
        decode-full (c ∷ n ∷ (src ++ more)) (omega arith) (omega (arith, length-append src more))
        ∙ ap₂
            (λ (x y : List ℕ).
              let i : Option PayloadTunnelFrame = some (record { ch_id = c; payload = x }) in
              (i, y))
            (take-append_le n src more (omega arith)) (drop-append_le n src more (omega arith)))
