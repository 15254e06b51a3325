-- ===== src/Protocol/Parser/Sound.antt =====
-- The parser makes no frame up.
use pik.Base.{
  ℕ, zero, suc, ◌+◌, ◌*◌, ◌/◌, ◌%◌, ◌≤◌, ◌<◌, ◌≡◌, ap, sym, subst, ◌∙◌, List, [], ◌∷◌, ◌++◌, some,
  length, get_or, take, drop, arith, append_assoc, length-take, length-drop, drop_add,
  take-append-drop, ◌==◌, Option-cases, Bool-cases, inl, inr, ◌&&◌,
}
use pik.Protocol.{Frame, max_payload, build_frame}
use pik.Protocol.Bytes.{or_shift-eq-add, u32_le_bytes, u32_from_le_bytes}
use pik.Protocol.Parser.{
  find_magic, length_field, payload_of, crc_rx, total, skip, emit, read_frame, round, drain_frames,
  feed,
}
use pik.Protocol.Parser.Magic.{find_magic-suffix}
use pik.Protocol.Parser.Round.{round_found}
use pik.Protocol.Parser.Drain.{IsDrained, drain_induction, drain-emit, drain-stop, drain-skip}
use pik.Protocol.Parser.Feed.{feed-drain_frames}

abbrev pub IsBytes : List ℕ → Type 0
IsBytes [] = Unit {0}
IsBytes (b ∷ bs) = (b < 256) × IsBytes bs

pub IsBytes-right : (xs ys : List ℕ) → IsBytes (xs ++ ys) → IsBytes ys
IsBytes-right [] ys h = h
IsBytes-right (x ∷ xs) ys h = IsBytes-right xs ys h.1

IsBytes-take : (n : ℕ) (xs : List ℕ) → IsBytes xs → IsBytes (take n xs)
IsBytes-take zero xs h = tt
IsBytes-take (suc n) [] h = tt
IsBytes-take (suc n) (x ∷ xs) h = (h.0, IsBytes-take n xs h.1)

IsBytes-drop : (n : ℕ) (xs : List ℕ) → IsBytes xs → IsBytes (drop n xs)
IsBytes-drop zero xs h = h
IsBytes-drop (suc n) [] h = tt
IsBytes-drop (suc n) (x ∷ xs) h = IsBytes-drop n xs h.1

-- Four bytes are the little-endian form of the number that they stand for.
four_bytes : (c : List ℕ) → IsBytes c → length c ≡ 4 → u32_le_bytes (u32_from_le_bytes c) ≡ c
four_bytes [] h e = absurd (omega arith)
four_bytes (a ∷ []) h e = absurd (omega arith)
four_bytes (a ∷ b ∷ []) h e = absurd (omega arith)
four_bytes (a ∷ b ∷ c ∷ []) h e = absurd (omega arith)
four_bytes (a ∷ b ∷ c ∷ d ∷ []) h e = ground arith
four_bytes (a ∷ b ∷ c ∷ d ∷ f ∷ r) h e = absurd (omega arith)

starts_magic :
    (b : List ℕ) {m : List ℕ} → find_magic b ≡ some m → (r : List ℕ) × (m ≡ 0xAA ∷ 0x55 ∷ r)
unfolding find_magic
starts_magic [] h = absurd (ground arith)
starts_magic (x ∷ []) h = absurd (ground arith)
starts_magic (x ∷ y ∷ r) {m} h = elim (Bool-cases (x == 0xAA && y == 0x55)) [
  | inl found ↦ (r, ground arith)
  | inr other ↦ starts_magic (y ∷ r) {m = m} (ground arith)
]

module _ (hash : List ℕ → ℕ) where
  -- What the checks of a round say of the bytes behind the magic pair.
  checked :
      (b : List ℕ) {x : Frame} {r : List ℕ}
      → read_frame hash b ≡ emit x r
      → (6 ≤ length b)
        × (length_field b ≤ max_payload)
        × (total b ≤ length b)
        × (hash (payload_of b) ≡ crc_rx b)
        × (x ≡ record { ftype = get_or b 2 0; channel = get_or b 3 0; payload = payload_of b })
        × (r ≡ drop (total b) b)
  unfolding read_frame
  checked b h = ground arith

  abbrev BuiltAt : ℕ → ℕ → ℕ → List ℕ → Type 0
  BuiltAt n f c q =
      0xAA ∷ 0x55 ∷ f ∷ c ∷ (n % 256) ∷ (n / 256) ∷ q
      ≡ build_frame hash f c (take n q) ++ drop 4 (drop n q)

  built_lem :
      (n f c : ℕ) (q : List ℕ)
      → IsBytes q
      → n ≤ max_payload
      → n + 4 ≤ length q
      → hash (take n q) ≡ u32_from_le_bytes (take 4 (drop n q))
      → BuiltAt n f c q
  unfolding build_frame
  built_lem n f c q h le room crc =
      let body = take n q in
      let trailer = take 4 (drop n q) in
      let crc_bytes : u32_le_bytes (hash body) ≡ trailer =
        ap u32_le_bytes crc
        ∙ four_bytes trailer (IsBytes-take 4 (drop n q) (IsBytes-drop n q h))
            (omega (arith, length-take 4 (drop n q), length-drop n q)) in
      let split : q ≡ (body ++ u32_le_bytes (hash body)) ++ drop 4 (drop n q) =
        sym (take-append-drop n q)
        ∙ ap (◌++◌ body) (sym (take-append-drop 4 (drop n q)))
        ∙ sym (append_assoc body trailer (drop 4 (drop n q)))
        ∙ ap (λ t. (body ++ t) ++ drop 4 (drop n q)) (sym crc_bytes) in
      let size : length body ≡ n = omega (arith, length-take n q) in ground (arith, size, split)

  -- A frame that passes the checks is one that `build_frame` built.
  built :
      (f c lo hi : ℕ) (q : List ℕ) {x : Frame} {r : List ℕ}
      → IsBytes (lo ∷ hi ∷ q)
      → read_frame hash (0xAA ∷ 0x55 ∷ f ∷ c ∷ lo ∷ hi ∷ q) ≡ emit x r
      → (length x.payload ≤ max_payload)
        × (0xAA ∷ 0x55 ∷ f ∷ c ∷ lo ∷ hi ∷ q ≡ build_frame hash x.ftype x.channel x.payload ++ r)
  unfolding length_field payload_of crc_rx total
  built f c lo hi q {x} {r} h e =
      let b : List ℕ = 0xAA ∷ 0x55 ∷ f ∷ c ∷ lo ∷ hi ∷ q in
      let (p0, p1, p2, p3, p4, p5) = checked b e in
      let n : ℕ = lo + hi * 256 in
      let field : length_field b ≡ n = or_shift-eq-add lo hi h.0 h.1.0 in
      let body : payload_of b ≡ take n q = ap (λ k. take k q) field in
      let tail : drop (6 + length_field b) b ≡ drop n q =
        ap (λ k. drop (6 + k) b) field ∙ drop_add 6 n b in
      let rest : drop (total b) b ≡ drop 4 (drop n q) =
        drop_add (6 + length_field b) 4 b ∙ ap (drop 4) tail in
      let crc : hash (take n q) ≡ u32_from_le_bytes (take 4 (drop n q)) =
        sym (ap hash body) ∙ p3 ∙ ap (λ t. u32_from_le_bytes (take 4 t)) tail in
      let same : BuiltAt n f c q = built_lem n f c q h.1.1 (omega arith) (omega arith) crc in
      let bytes : (n % 256 ≡ lo) × (n / 256 ≡ hi) = (omega arith, omega arith) in
      ground (arith, same, p4, p5, body, rest, length-take n q, bytes)

  -- The stream `b` holds the built forms of `xs` one behind the other, in this order and without
  -- overlap, with other bytes between and behind them.
  abbrev pub Carries : List ℕ → List Frame → Type 0
  Carries b [] = Unit {0}
  Carries b (x ∷ xs) =
      (before : List ℕ) × (after : List ℕ) × (b
        ≡ before ++ (build_frame hash x.ftype x.channel x.payload ++ after))
      × (length x.payload ≤ max_payload)
      × Carries after xs

  Carries-behind : (p b : List ℕ) (xs : List Frame) → Carries b xs → Carries (p ++ b) xs
  Carries-behind p b [] h = tt
  Carries-behind p b (x ∷ xs) (before, after, e, le, h) =
      (p ++ before, after, ap (◌++◌ p) e ∙ sym (append_assoc p before _), le, h)

  round-emit_found :
      (b : List ℕ) {x : Frame} {r : List ℕ}
      → round hash b ≡ emit x r
      → (m : List ℕ) × (find_magic b ≡ some m) × (read_frame hash m ≡ emit x r)
  unfolding round
  round-emit_found b {x} {r} h = elim (Option-cases (find_magic b)) [
    | inl e ↦ absurd (ground arith)
    | inr (m, e) ↦ (m, e, sym (round_found hash b m e) ∙ h)
  ]

  too_short :
      (b : List ℕ) {x : Frame} {r : List ℕ} → length b < 6 → read_frame hash b ≡ emit x r → ⊥
  too_short b h e = let (p, _, _, _, _, _) = checked b e in omega arith

  built_found :
      (q : List ℕ) {x : Frame} {r : List ℕ}
      → IsBytes q
      → read_frame hash (0xAA ∷ 0x55 ∷ q) ≡ emit x r
      → (length x.payload ≤ max_payload)
        × (0xAA ∷ 0x55 ∷ q ≡ build_frame hash x.ftype x.channel x.payload ++ r)
  built_found [] h k = absurd (too_short _ (omega arith) k)
  built_found (f ∷ []) h k = absurd (too_short _ (omega arith) k)
  built_found (f ∷ c ∷ []) h k = absurd (too_short _ (omega arith) k)
  built_found (f ∷ c ∷ lo ∷ []) h k = absurd (too_short _ (omega arith) k)
  built_found (f ∷ c ∷ lo ∷ hi ∷ q) h k = built f c lo hi q h.1.1 k

  round-emit_built :
      (b : List ℕ) {x : Frame} {r : List ℕ}
      → IsBytes b
      → round hash b ≡ emit x r
      → (before : List ℕ) × (b ≡ before ++ (build_frame hash x.ftype x.channel x.payload ++ r))
        × (length x.payload ≤ max_payload)
  round-emit_built b {x} {r} h e =
      let (m, f, k) = round-emit_found b e in
      let (p, s) = find_magic-suffix b f in
      let (q, t) = starts_magic b f in
      let bytes : IsBytes (0xAA ∷ 0x55 ∷ q) =
        subst IsBytes t (IsBytes-right p m (subst IsBytes s h)) in
      let (le, w) = built_found q bytes.1.1 (sym (ap (read_frame hash) t) ∙ k) in
      (p, s ∙ ap (◌++◌ p) (t ∙ w), le)

  read_frame-skip_drop : (m : List ℕ) {r : List ℕ} → read_frame hash m ≡ skip r → r ≡ drop 2 m
  unfolding read_frame
  read_frame-skip_drop m h = ground arith

  round-skip_suffix :
      (b : List ℕ) {r : List ℕ} → round hash b ≡ skip r → (p : List ℕ) × (b ≡ p ++ r)
  round-skip_suffix b {r} h = elim (Option-cases (find_magic b)) [
    | inl e ↦ absurd (unfold round in ground arith)
    | inr (m, e) ↦
        let (p, s) = find_magic-suffix b e in
        let d = read_frame-skip_drop m (sym (round_found hash b m e) ∙ h) in
        (
          p ++ take 2 m,
          s
              ∙ ap (◌++◌ p) (sym (take-append-drop 2 m) ∙ ap (◌++◌ (take 2 m)) (sym d))
              ∙ sym (append_assoc p (take 2 m) r),
        )
  ]

  drain-Carries : (b : List ℕ) → IsBytes b → Carries b (drain_frames hash b).1
  drain-Carries =
      drain_induction hash (λ b. IsBytes b → Carries b (drain_frames hash b).1)
        (λ b r e h.
          subst (λ (q : List ℕ × List Frame). Carries b q.1) (sym (drain-stop hash b e)) tt)
        (λ b r e ih h.
          let (p, s) = round-skip_suffix b e in
          subst (λ (q : List ℕ × List Frame). Carries b q.1) (sym (drain-skip hash b e))
            (subst (λ l. Carries l (drain_frames hash r).1) (sym s)
              (Carries-behind p r _ (ih (IsBytes-right p r (subst IsBytes s h))))))
        (λ b r x e ih h.
          let (p, s, le) = round-emit_built b h e in
          let wire : List ℕ = build_frame hash x.ftype x.channel x.payload in
          subst (λ (q : List ℕ × List Frame). Carries b q.1) (sym (drain-emit hash b e))
            (
              p,
              r,
              s,
              le,
              ih (IsBytes-right wire r (IsBytes-right p (wire ++ r) (subst IsBytes s h))),
            ))

  -- Every frame that `feed` hands over stands in the bytes kept before and the new input just as
  -- `build_frame` builds it, checksum included; the frames come in the order of the stream, do not
  -- overlap, and none has an oversize payload.
  -- The buffer before the call is one that the loop leaves as it is, as after any call of `feed`.
  -- All numbers in the stream are bytes.
  pub feed-Carries :
      (b input : List ℕ)
      → IsDrained hash b
      → IsBytes (b ++ input)
      → Carries (b ++ input) (feed hash b input).1
  feed-Carries b input d h =
      subst (λ (q : List ℕ × List Frame). Carries (b ++ input) q.1)
        (sym (feed-drain_frames hash b input d)) (drain-Carries (b ++ input) h)
