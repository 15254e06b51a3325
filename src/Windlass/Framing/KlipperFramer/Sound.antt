-- ===== src/Windlass/Framing/KlipperFramer/Sound.antt =====
-- What `KlipperFramer` returns it found in the stream.
use pik.Base.{
  ℕ, ◌-◌, ◌≤◌, ◌≡◌, ap, sym, subst, ◌∙◌, inl, inr, Bool, true, false, List, [], ◌∷◌, ◌++◌, some,
  length, get_or, take, drop, ◌==◌, arith, Bool-cases, take-append-drop, append_assoc,
}
use pik.Windlass.Framing.{message_value_sync, bad_length, IsKlipperFrame, take-IsKlipperFrame}
use pik.Windlass.Framing.KlipperFramer.{
  after_sync, done, again, round, decode, decode_induction, decode-done, decode-again,
}

after_sync-suffix :
    (src : List ℕ) {rest : List ℕ}
    → after_sync src ≡ some rest
    → (skipped : List ℕ) × (src ≡ skipped ++ rest)
unfolding after_sync
after_sync-suffix [] h = absurd (ground arith)
after_sync-suffix (b ∷ src) {rest} h = elim (Bool-cases (b == message_value_sync)) [
  | inl e ↦ let same : src ≡ rest = ground arith in (b ∷ [], ap (◌∷◌ b) same)
  | inr e ↦
      let later : after_sync src ≡ some rest = ground arith in
      let (p, s) = after_sync-suffix src later in (b ∷ p, ap (◌∷◌ b) s)
]

-- A round that goes on skips some bytes.
round-again_suffix :
    (synced : Bool) (src : List ℕ) {s : Bool} {r : List ℕ}
    → round synced src ≡ (again, (s, r))
    → (skipped : List ℕ) × (src ≡ skipped ++ r)
unfolding round
round-again_suffix synced [] h = absurd (ground arith)
round-again_suffix false (b ∷ src) {s} {r} h = after_sync-suffix (b ∷ src) (ground arith)
round-again_suffix true (b ∷ src) {s} {r} h =
    let same : src ≡ r = ground arith in (b ∷ [], ap (◌∷◌ b) same)

-- A round that returns a frame found it at the front.
round-frame :
    (synced : Bool) (src : List ℕ) {f : List ℕ} {s : Bool} {r : List ℕ}
    → round synced src ≡ (done (some f), (s, r))
    → IsKlipperFrame f × (src ≡ f ++ r)
unfolding round
round-frame synced [] h = absurd (ground arith)
round-frame false (b ∷ src) h = absurd (ground arith)
round-frame true (b ∷ src) {f} {s} {r} h =
    let good : bad_length b ≡ false = ground arith in
    let long : b ≤ length (b ∷ src) = ground arith in
    let last : get_or (b ∷ src) (b - 1) 0 ≡ message_value_sync = ground arith in
    let front : f ≡ take b (b ∷ src) = ground arith in
    let back : r ≡ drop b (b ∷ src) = ground arith in
    (
      subst IsKlipperFrame (sym front) (take-IsKlipperFrame b src good long last),
      rw (front, back) (sym (take-append-drop b (b ∷ src))),
    )

abbrev Found : Bool → List ℕ → Type 0
Found b src =
    (f : List ℕ) (s : Bool) (r : List ℕ)
    → decode b src ≡ (some f, (s, r))
    → IsKlipperFrame f × ((skipped : List ℕ) × (src ≡ skipped ++ (f ++ r)))

-- What `decode` returns is a complete Klipper frame that stands in the buffer, after some skipped
-- bytes and before what `decode` leaves.
pub framer_sound :
    (synced : Bool) (src : List ℕ) {f : List ℕ} {s : Bool} {r : List ℕ}
    → decode synced src ≡ (some f, (s, r))
    → IsKlipperFrame f × ((skipped : List ℕ) × (src ≡ skipped ++ (f ++ r)))
framer_sound synced src {f} {s} {r} h =
    decode_induction (λ b src. Found b src)
      (λ b src i s r e f s' r' h.
        let found : round b src ≡ (done (some f), (s', r')) = cc (decode-done b src e) in
        let (v, q) = round-frame b src found in (v, ([], q)))
      (λ b src s r e ih f s' r' h.
        let (v, (p, q)) = ih f s' r' (sym (decode-again b src e) ∙ h) in
        let (p', q') = round-again_suffix b src e in
        (v, (p' ++ p, q' ∙ ap (◌++◌ p') q ∙ sym (append_assoc p' p (f ++ r')))))
      synced src f s r h
