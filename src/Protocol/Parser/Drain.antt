-- ===== src/Protocol/Parser/Drain.antt =====
-- The loop of `drain_frames` ends by itself, and what it leaves.
use pik.Base.{
  ℕ, zero, suc, ◌<◌, ◌≡◌, refl, ap, sym, subst, ◌∙◌, ◌⊎◌, inl, inr, List, [], ◌∷◌, length, arith,
}
use pik.Protocol.{Frame, max_frame}
use pik.Protocol.Parser.{Outcome, stop, skip, emit, after_round, round, drain, drain_frames}
use pik.Protocol.Parser.Round.{length-round_stop, length-round_skip, length-round_emit, round_again}

pub Outcome-cases :
    (o : Outcome)
    → ((r : List ℕ) × (o ≡ stop r))
      ⊎ (((r : List ℕ) × (o ≡ skip r)) ⊎ ((x : Frame) × (r : List ℕ) × (o ≡ emit x r)))
Outcome-cases (stop r) = inl (r, refl)
Outcome-cases (skip r) = inr (inl (r, refl))
Outcome-cases (emit x r) = inr (inr (x, r, refl))

-- The runs of the loop that end: a round that stops gives the result, and before a run that ends
-- stands a round that goes on.
pub data Ends (hash : List ℕ → ℕ) : List ℕ → List ℕ × List Frame → Type 0 where
  ended : {b r : List ℕ} → round hash b ≡ stop r → Ends hash b (r, [])
  skipped :
      {b r : List ℕ} {out : List ℕ × List Frame}
      → round hash b ≡ skip r
      → Ends hash r out
      → Ends hash b out
  emitted :
      {b r r' : List ℕ} {x : Frame} {xs : List Frame}
      → round hash b ≡ emit x r
      → Ends hash r (r', xs)
      → Ends hash b (r', x ∷ xs)

module _ (hash : List ℕ → ℕ) where
  -- More fuel than there are bytes makes no difference.
  drain_enough :
      (f g : ℕ) (b : List ℕ) → length b < f → length b < g → drain hash f b ≡ drain hash g b
  unfolding drain
  drain_enough zero g b p q = absurd (omega arith)
  drain_enough (suc f) zero b p q = absurd (omega arith)
  drain_enough (suc f) (suc g) b p q = elim (Outcome-cases (round hash b)) [
    | inl (r, e) ↦ rw e
    | inr (inl (r, e)) ↦
        let less = length-round_skip hash b e in
        rw e (drain_enough f g r (omega arith) (omega arith))
    | inr (inr (x, r, e)) ↦
        let less = length-round_emit hash b e in
        rw (e, drain_enough f g r (omega arith) (omega arith))
  ]

  -- A round, and then the loop on what is left.
  pub drain_frames-unfold :
      (b : List ℕ) → drain_frames hash b ≡ after_round (drain_frames hash) (round hash b)
  unfolding drain_frames drain
  drain_frames-unfold b = elim (Outcome-cases (round hash b)) [
    | inl (r, e) ↦ rw e
    | inr (inl (r, e)) ↦
        let less = length-round_skip hash b e in
        rw e (drain_enough (length b) (suc (length r)) r (omega arith) (omega arith))
    | inr (inr (x, r, e)) ↦
        let less = length-round_emit hash b e in
        rw (e, drain_enough (length b) (suc (length r)) r (omega arith) (omega arith))
  ]

  -- Induction over the rounds: a claim about the loop holds if it holds where the loop stops, and
  -- passes from what a round leaves to the buffer before it.
  pub drain_induction {ℓ} :
      (P : List ℕ → Type ℓ)
      → ((b r : List ℕ) → round hash b ≡ stop r → P b)
      → ((b r : List ℕ) → round hash b ≡ skip r → P r → P b)
      → ((b r : List ℕ) (x : Frame) → round hash b ≡ emit x r → P r → P b)
      → (b : List ℕ) → P b
  drain_induction P hstop hskip hemit b = go (suc (length b)) b (omega arith)
    where
      go : (n : ℕ) (b : List ℕ) → length b < n → P b
      go zero b h = absurd (omega arith)
      go (suc n) b h = elim (Outcome-cases (round hash b)) [
        | inl (r, e) ↦ hstop b r e
        | inr (inl (r, e)) ↦
            let less = length-round_skip hash b e in hskip b r e (go n r (omega arith))
        | inr (inr (x, r, e)) ↦
            let less = length-round_emit hash b e in hemit b r x e (go n r (omega arith))
      ]

  pub drain-stop : (b : List ℕ) {r : List ℕ} → round hash b ≡ stop r → drain_frames hash b ≡ (r, [])
  drain-stop b e = drain_frames-unfold b ∙ ap (after_round (drain_frames hash)) e

  pub drain-skip :
      (b : List ℕ) {r : List ℕ} → round hash b ≡ skip r → drain_frames hash b ≡ drain_frames hash r
  drain-skip b e = drain_frames-unfold b ∙ ap (after_round (drain_frames hash)) e

  pub drain-emit :
      (b : List ℕ) {x : Frame} {r : List ℕ}
      → round hash b ≡ emit x r
      → drain_frames hash b ≡ (let (r', xs) = drain_frames hash r in (r', x ∷ xs))
  drain-emit b e = drain_frames-unfold b ∙ ap (after_round (drain_frames hash)) e

  -- The loop of `drain_frames` ends on every buffer: after finitely many rounds that go on comes one
  -- that stops, and what `drain_frames` gives is what is left then, with the frames of all the rounds
  -- in order.
  pub drain_frames-Ends : (b : List ℕ) → Ends hash b (drain_frames hash b)
  drain_frames-Ends =
      drain_induction (λ b. Ends hash b (drain_frames hash b))
        (λ b r e. subst (Ends hash b) (sym (drain-stop b e)) (ended e))
        (λ b r e ih. subst (Ends hash b) (sym (drain-skip b e)) (skipped e ih))
        (λ b r x e ih. subst (Ends hash b) (sym (drain-emit b e)) (emitted e ih))

  -- A buffer on which the loop would stop at once and change nothing.
  abbrev pub IsDrained : List ℕ → Type 0
  IsDrained b = round hash b ≡ stop b

  pub nil-IsDrained : IsDrained []
  unfolding round
  nil-IsDrained = refl

  pub drain_frames-IsDrained : (b : List ℕ) → IsDrained (drain_frames hash b).0
  drain_frames-IsDrained =
      drain_induction (λ b. IsDrained (drain_frames hash b).0)
        (λ b r e. rw (drain-stop b e) (round_again hash b e)) (λ b r e ih. rw (drain-skip b e) ih)
        (λ b r x e ih. rw (drain-emit b e) ih)

  pub IsDrained-length : (b : List ℕ) → IsDrained b → length b < max_frame
  IsDrained-length b e = length-round_stop hash b e
