-- ===== src/Protocol/Parser/Round.antt =====
-- One round of the loop of `drain_frames`: what it leaves, and that more input at the end of the
-- buffer does not change what it decides.
use pik.Base.{
  ℕ, ◌+◌, ◌≤◌, ◌<◌, ◌≡◌, ◌≢◌, refl, sym, ap, ap₂, ◌∙◌, inl, inr, List, [], ◌∷◌, ◌++◌, none, some,
  length, drop, arith, Option-cases, length-append, length-drop, take-append_le, drop-append_le,
  get_or-append_lt,
}
use pik.Protocol.{Frame, max_frame}
use pik.Protocol.Bytes.{or_shift}
use pik.Protocol.Parser.{
  find_magic, keep_last, length_field, payload_of, crc_rx, total, stop, skip, emit, read_frame,
  round,
}
use pik.Protocol.Parser.Magic.{
  find_magic_self, length-find_magic, find_magic-append, find_magic-keep_last, keep_last-append,
}

length_field-append : (b c : List ℕ) → 6 ≤ length b → length_field (b ++ c) ≡ length_field b
unfolding length_field
length_field-append b c h =
    ap₂ or_shift (get_or-append_lt b c 4 0 (omega arith)) (get_or-append_lt b c 5 0 (omega arith))

total-append : (b c : List ℕ) → 6 ≤ length b → total (b ++ c) ≡ total b
unfolding total
total-append b c h = ap (λ n. 6 + n + 4) (length_field-append b c h)

payload_of-append :
    (b c : List ℕ) → 6 ≤ length b → total b ≤ length b → payload_of (b ++ c) ≡ payload_of b
unfolding payload_of total
payload_of-append b c p h =
    rw (length_field-append b c p, drop-append_le 6 b c p)
      (take-append_le (length_field b) (drop 6 b) c (omega (arith, length-drop 6 b)))

crc_rx-append : (b c : List ℕ) → 6 ≤ length b → total b ≤ length b → crc_rx (b ++ c) ≡ crc_rx b
unfolding crc_rx total
crc_rx-append b c p h = rw (
  length_field-append b c p,
  drop-append_le (6 + length_field b) b c (omega arith),
  take-append_le 4 (drop (6 + length_field b) b) c
      (omega (arith, length-drop (6 + length_field b) b)),
)

-- The bytes that a buffer may hold when a round ends the loop.
module _ (hash : List ℕ → ℕ) where
  read_frame-stop :
      (b : List ℕ) {r : List ℕ} → read_frame hash b ≡ stop r → (r ≡ b) × (length b < max_frame)
  unfolding read_frame total
  read_frame-stop b h = ground arith

  read_frame-skip : (b : List ℕ) {r : List ℕ} → read_frame hash b ≡ skip r → length r + 2 ≤ length b
  unfolding read_frame
  read_frame-skip b h = ground (arith, length-drop 2 b)

  read_frame-emit :
      (b : List ℕ) {x : Frame} {r : List ℕ}
      → read_frame hash b ≡ emit x r
      → length r + 10 ≤ length b
  unfolding read_frame total
  read_frame-emit b h = ground (arith, length-drop (total b) b)

  read_frame-append_skip :
      (b c : List ℕ) {r : List ℕ}
      → read_frame hash b ≡ skip r
      → read_frame hash (b ++ c) ≡ skip (r ++ c)
  unfolding read_frame
  read_frame-append_skip b c h = ground (
    arith,
    length-append b c,
    length_field-append b c,
    total-append b c,
    payload_of-append b c,
    crc_rx-append b c,
    drop-append_le 2 b c,
  )

  read_frame-append_emit :
      (b c : List ℕ) {x : Frame} {r : List ℕ}
      → read_frame hash b ≡ emit x r
      → read_frame hash (b ++ c) ≡ emit x (r ++ c)
  unfolding read_frame
  read_frame-append_emit b c h = ground (
    arith,
    length-append b c,
    length_field-append b c,
    total-append b c,
    payload_of-append b c,
    crc_rx-append b c,
    get_or-append_lt b c 2 0,
    get_or-append_lt b c 3 0,
    drop-append_le (total b) b c,
  )

  pub length-round_stop : (b : List ℕ) {r : List ℕ} → round hash b ≡ stop r → length r < max_frame
  unfolding round keep_last
  length-round_stop b {r} h = elim (Option-cases (find_magic b)) [
    | inl e ↦ ground arith
    | inr (m, e) ↦ ground (arith, read_frame-stop m {r = r})
  ]

  pub length-round_skip :
      (b : List ℕ) {r : List ℕ} → round hash b ≡ skip r → length r + 2 ≤ length b
  unfolding round
  length-round_skip b {r} h = elim (Option-cases (find_magic b)) [
    | inl e ↦ ground arith
    | inr (m, e) ↦ ground (arith, read_frame-skip m {r = r}, length-find_magic b {b = m})
  ]

  pub length-round_emit :
      (b : List ℕ) {x : Frame} {r : List ℕ} → round hash b ≡ emit x r → length r + 10 ≤ length b
  unfolding round
  length-round_emit b {x} {r} h = elim (Option-cases (find_magic b)) [
    | inl e ↦ ground arith
    | inr (m, e) ↦ ground (arith, read_frame-emit m {x = x} {r = r}, length-find_magic b {b = m})
  ]

  -- What a round leaves when it stops, another round leaves alone.
  pub round_again : (b : List ℕ) {r : List ℕ} → round hash b ≡ stop r → round hash r ≡ stop r
  unfolding round keep_last
  round_again b {r} h = elim (Option-cases (find_magic b)) [
    | inl e ↦ ground arith
    | inr (m, e) ↦
        ground
          (arith, read_frame-stop m {r = r}, find_magic_self b {b = m}, length-find_magic b {b = m})
  ]

  pub round-append_skip :
      (b c : List ℕ) {r : List ℕ} → round hash b ≡ skip r → round hash (b ++ c) ≡ skip (r ++ c)
  unfolding round
  round-append_skip b c {r} h = elim (Option-cases (find_magic b)) [
    | inl e ↦ ground arith
    | inr (m, e) ↦ ground (
      arith,
      read_frame-append_skip m c {r = r},
      find_magic-append b c {b = m},
      length-append b c,
    )
  ]

  pub round-append_emit :
      (b c : List ℕ) {x : Frame} {r : List ℕ}
      → round hash b ≡ emit x r
      → round hash (b ++ c) ≡ emit x (r ++ c)
  unfolding round
  round-append_emit b c {x} {r} h = elim (Option-cases (find_magic b)) [
    | inl e ↦ ground arith
    | inr (m, e) ↦ ground (
      arith,
      read_frame-append_emit m c {x = x} {r = r},
      find_magic-append b c {b = m},
      length-append b c,
    )
  ]

  pub round_found : (b m : List ℕ) → find_magic b ≡ some m → round hash b ≡ read_frame hash m
  unfolding round
  round_found b m e = ground (arith, length-find_magic b {b = m})

  pub round-none : (b : List ℕ) → b ≢ [] → find_magic b ≡ none → round hash b ≡ stop (keep_last b)
  unfolding round keep_last
  round-none [] ne e = absurd (ne refl)
  round-none (x ∷ []) ne e = refl
  round-none (x ∷ y ∷ b) ne e = ground arith

  round-keep_last :
      (b c : List ℕ)
      → b ≢ []
      → find_magic b ≡ none
      → round hash (b ++ c) ≡ round hash (keep_last b ++ c)
  round-keep_last [] c ne e = absurd (ne refl)
  round-keep_last (x ∷ b) c ne e =
      let same : find_magic (x ∷ b ++ c) ≡ find_magic (keep_last (x ∷ b) ++ c) =
        find_magic-keep_last (x ∷ b) c ne e in
      elim (Option-cases (find_magic (keep_last (x ∷ b) ++ c))) [
        | inl f ↦
            round-none (x ∷ b ++ c) (λ z. cc) (same ∙ f)
            ∙ ap stop (keep_last-append (x ∷ b) c ne)
            ∙ sym (round-none (keep_last (x ∷ b) ++ c) (unfold keep_last in (λ z. cc)) f)
        | inr (m, f) ↦
            round_found (x ∷ b ++ c) m (same ∙ f) ∙ sym (round_found (keep_last (x ∷ b) ++ c) m f)
      ]

  -- The bytes that a stopping round drops make no difference to what comes.
  pub round-append_stop :
      (b c : List ℕ) {r : List ℕ}
      → round hash b ≡ stop r
      → round hash (b ++ c) ≡ round hash (r ++ c)
  round-append_stop [] c {r} h =
      let k : [] ≡ r = unfold round in ground arith in ap (λ l. round hash (l ++ c)) k
  round-append_stop (x ∷ b) c {r} h = elim (Option-cases (find_magic (x ∷ b))) [
    | inl e ↦
        let k : keep_last (x ∷ b) ≡ r = cc (h, round-none (x ∷ b) (λ z. cc) e) in
        round-keep_last (x ∷ b) c (λ z. cc) e ∙ ap (λ l. round hash (l ++ c)) k
    | inr (m, e) ↦
        let k : r ≡ m = (read_frame-stop m (sym (round_found (x ∷ b) m e) ∙ h)).0 in
        round_found (x ∷ b ++ c) (m ++ c) (find_magic-append (x ∷ b) c e)
        ∙ sym (round_found (m ++ c) (m ++ c) (find_magic-append m c (find_magic_self (x ∷ b) e)))
        ∙ ap (λ l. round hash (l ++ c)) (sym k)
  ]
