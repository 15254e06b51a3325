-- ===== src/Windlass/Framing/TunnelCodec.antt =====
-- `TunnelCodec` of serialmux-rs/src/windlass/framing.rs. Each `continue` drops one byte, so the recursion is on `src`. The two bytes that a
-- round reads are in the pattern.
use pik.Base.{
  ℕ, suc, ◌+◌, ◌-◌, ◌≤◌, ◌<◌, ◌≡◌, refl, ap, sym, subst, ◌∙◌, inl, inr, true, false, List, [], ◌∷◌,
  ◌++◌, Option, none, some, not, length, get_or, take, drop, ltb, ◌==◌, if◌then◌else◌, arith,
  Bool-cases, ltb→lt, ltb→le, ==_iff, length-append, take-append_le, drop-append_le,
  get_or-append_lt, take-length, drop-length, take-append-drop, ap₂,
}
use pik.Windlass.Framing.{
  message_length_min, message_value_sync, bad_length, IsKlipperFrame, take-IsKlipperFrame,
  TunnelFrame,
}

unfoldable pub decode : List ℕ → Option TunnelFrame × List ℕ
decode [] = (none, [])
decode (ch_id ∷ []) = (none, ch_id ∷ [])
decode (ch_id ∷ frame_len ∷ rest) =
    let src : List ℕ = ch_id ∷ frame_len ∷ rest in
    let total = 1 + frame_len in
    let retry = decode (frame_len ∷ rest) in
    let item : TunnelFrame = record { ch_id = ch_id; frame = take frame_len (frame_len ∷ rest) } in
    if bad_length frame_len
    then retry
    else if ltb (length src) total
    then (none, src)
    else if not (get_or src (total - 1) 0 == message_value_sync)
    then retry
    else (some item, drop frame_len (frame_len ∷ rest))

unfoldable pub encode : TunnelFrame → List ℕ → List ℕ
encode item dst = dst ++ (item.ch_id ∷ item.frame)

-- The index of the trailing byte, seen from the length byte on.
last_byte :
    (c n : ℕ) (xs : List ℕ)
    → bad_length n ≡ false
    → get_or (c ∷ xs) (1 + n - 1) 0 ≡ get_or xs (n - 1) 0
last_byte c n xs h =
    let low : message_length_min ≤ n = ground arith in
    let e : 1 + n - 1 ≡ suc (n - 1) = omega arith in ap (λ i. get_or (c ∷ xs) i 0) e

decode-found :
    (c n : ℕ) (rest : List ℕ)
    → bad_length n ≡ false
    → n ≤ length (n ∷ rest)
    → get_or (n ∷ rest) (n - 1) 0 ≡ message_value_sync
    → decode (c ∷ n ∷ rest)
      ≡ (some (record { ch_id = c; frame = take n (n ∷ rest) }), drop n (n ∷ rest))
unfolding decode
decode-found c n rest b h s = ground (arith, last_byte c n (n ∷ rest) b)

decode-bad :
    (c n : ℕ) (rest : List ℕ) → bad_length n ≡ true → decode (c ∷ n ∷ rest) ≡ decode (n ∷ rest)
unfolding decode
decode-bad c n rest b = rw b

decode-short :
    (c n : ℕ) (rest : List ℕ)
    → bad_length n ≡ false
    → length (n ∷ rest) < n
    → decode (c ∷ n ∷ rest) ≡ (none, c ∷ n ∷ rest)
unfolding decode
decode-short c n rest b h = ground arith

decode-unsynced :
    (c n : ℕ) (rest : List ℕ)
    → bad_length n ≡ false
    → n ≤ length (n ∷ rest)
    → (get_or (n ∷ rest) (n - 1) 0 == message_value_sync) ≡ false
    → decode (c ∷ n ∷ rest) ≡ decode (n ∷ rest)
unfolding decode
decode-unsynced c n rest b h s = ground (arith, last_byte c n (n ∷ rest) b)

-- `decode` gives back what `encode` wrote, and leaves what follows it.
-- The frame is a complete Klipper frame.
pub decode-encode :
    (item : TunnelFrame) (rest : List ℕ)
    → IsKlipperFrame item.frame
    → decode (encode item [] ++ rest) ≡ (some item, rest)
unfolding encode
decode-encode item rest h = encoded item.ch_id item.frame rest h
  where
    encoded :
        (c : ℕ) (f rest : List ℕ)
        → IsKlipperFrame f
        → decode (c ∷ (f ++ rest)) ≡ (some (record { ch_id = c; frame = f }), rest)
    encoded c [] rest h = absurd h
    encoded c (n ∷ r) rest h =
        let whole : take n (n ∷ r ++ rest) ≡ n ∷ r =
          ap (λ k. take k (n ∷ r ++ rest)) (sym h.2) ∙ take-length (n ∷ r) rest in
        let behind : drop n (n ∷ r ++ rest) ≡ rest =
          ap (λ k. drop k (n ∷ r ++ rest)) (sym h.2) ∙ drop-length (n ∷ r) rest in
        decode-found c n (r ++ rest) (ground arith) (omega (arith, length-append r rest))
          (get_or-append_lt (n ∷ r) rest (n - 1) 0 (omega arith) ∙ h.3)
        ∙ ap₂
            (λ (x y : List ℕ).
              let i : Option TunnelFrame = some (record { ch_id = c; frame = x }) in (i, y))
            whole behind

-- What a later call makes of a result once `more` bytes have come in.
abbrev pub resume : Option TunnelFrame × List ℕ → List ℕ → Option TunnelFrame × List ℕ
resume (some item, rest) more = (some item, rest ++ more)
resume (none, rest) more = decode (rest ++ more)

-- Where the reads cut the stream makes no difference: to decode what has come, and again when more
-- has come, is to decode all of it; a frame that was found stays as it was.
pub decode-append : (src more : List ℕ) → decode (src ++ more) ≡ resume (decode src) more
decode-append [] more = unfold decode in refl
decode-append (c ∷ []) more = unfold decode in refl
decode-append (c ∷ n ∷ rest) more =
    let later = decode-append (n ∷ rest) more in
    elim (Bool-cases (bad_length n)) [
      | inl b ↦ rw (decode-bad c n rest b) (decode-bad c n (rest ++ more) b ∙ later)
      | inr b ↦ elim (Bool-cases (ltb (length (n ∷ rest)) n)) [
        | inl short ↦ rw (decode-short c n rest b (ltb→lt _ _ short)) refl
        | inr full ↦
            let long : n ≤ length (n ∷ rest) = ltb→le _ _ full in
            let long' : n ≤ length (n ∷ rest ++ more) = omega (arith, length-append rest more) in
            let low : message_length_min ≤ n = ground arith in
            let same = get_or-append_lt (n ∷ rest) more (n - 1) 0 (omega arith) in
            elim (Bool-cases (get_or (n ∷ rest) (n - 1) 0 == message_value_sync)) [
              | inl s ↦ rw (decode-found c n rest b long ((==_iff _ _).0 s)) (
                  decode-found c n (rest ++ more) b long' (same ∙ (==_iff _ _).0 s)
                  ∙ ap₂
                      (λ (x y : List ℕ).
                        let i : Option TunnelFrame = some (record { ch_id = c; frame = x }) in
                        (i, y))
                      (take-append_le n (n ∷ rest) more long)
                      (drop-append_le n (n ∷ rest) more long))
              | inr s ↦ rw (decode-unsynced c n rest b long s) (
                  decode-unsynced c n (rest ++ more) b long'
                    (ap (λ k. k == message_value_sync) same ∙ s)
                  ∙ later)
            ]
      ]
    ]

-- What `decode` returns it found: a complete Klipper frame behind its channel byte, with some bytes
-- skipped before it.
pub decode_sound :
    (src : List ℕ) {item : TunnelFrame} {left : List ℕ}
    → decode src ≡ (some item, left)
    → IsKlipperFrame item.frame × ((skipped : List ℕ) × (src ≡ skipped ++ (encode item [] ++ left)))
unfolding encode
decode_sound [] h = absurd (unfold decode in cc)
decode_sound (c ∷ []) h = absurd (unfold decode in cc)
decode_sound (c ∷ n ∷ rest) {item} {left} h = elim (Bool-cases (bad_length n)) [
  | inl b ↦ behind (decode_sound (n ∷ rest) (sym (decode-bad c n rest b) ∙ h))
  | inr b ↦ elim (Bool-cases (ltb (length (n ∷ rest)) n)) [
    | inl short ↦ absurd (cc (decode-short c n rest b (ltb→lt _ _ short)))
    | inr full ↦
        let long : n ≤ length (n ∷ rest) = ltb→le _ _ full in
        elim (Bool-cases (get_or (n ∷ rest) (n - 1) 0 == message_value_sync)) [
          | inl s ↦ here b long ((==_iff _ _).0 s)
          | inr s ↦ behind (decode_sound (n ∷ rest) (sym (decode-unsynced c n rest b long s) ∙ h))
        ]
  ]
]
  where
    Sound : List ℕ → Type 0
    Sound src =
        IsKlipperFrame item.frame
        × ((skipped : List ℕ) × (src ≡ skipped ++ (encode item [] ++ left)))

    behind : Sound (n ∷ rest) → Sound (c ∷ n ∷ rest)
    behind (v, (p, e)) = (v, (c ∷ p, ap (◌∷◌ c) e))

    here :
        bad_length n ≡ false
        → n ≤ length (n ∷ rest)
        → get_or (n ∷ rest) (n - 1) 0 ≡ message_value_sync
        → Sound (c ∷ n ∷ rest)
    here b long s =
        let found : TunnelFrame = record { ch_id = c; frame = take n (n ∷ rest) } in
        let same : item ≡ found = cc (decode-found c n rest b long s) in
        let tail : left ≡ drop n (n ∷ rest) = cc (decode-found c n rest b long s) in
        (
          subst (λ (i : TunnelFrame). IsKlipperFrame i.frame) (sym same)
              (take-IsKlipperFrame n rest b long s),
          ([], rw (same, tail) (ap (◌∷◌ c) (sym (take-append-drop n (n ∷ rest))))),
        )
