-- ===== src/Windlass/Framing/KlipperFramer.antt =====
-- `KlipperFramer` of serialmux-rs/src/windlass/framing.rs.
pub mod Sound
use pik.Base.{
  ℕ, zero, suc, ◌-◌, ◌<◌, ◌≡◌, refl, ap, sym, subst, ◌∙◌, inl, inr, Bool, true, false, List, [],
  ◌∷◌, Option, none, some, not, length, get_or, take, drop, ltb, ◌==◌, if◌then◌else◌, arith, ◌⊎◌,
}
use pik.Windlass.Framing.{message_value_sync, bad_length}

-- `src.iter().position(|&b| b == MESSAGE_VALUE_SYNC)`, with `src.advance(pos + 1)`: what stands
-- behind the first sync byte.
unfoldable pub after_sync : List ℕ → Option (List ℕ)
after_sync [] = none
after_sync (b ∷ src) =
    let later = after_sync src in if b == message_value_sync then some src else later

-- How a round of `KlipperFramer::decode` ends.
pub data Turn : Type 0 where
  -- `return Ok(None)` or `return Ok(Some(frame))`
  done : Option (List ℕ) → Turn
  again : Turn

-- The flag `synced`. A round gives the new flag and what is left of `src`. Every
-- round that goes on drops a byte or more, so that `length src + 1` rounds are enough.
unfoldable pub round : Bool → List ℕ → Turn × (Bool × List ℕ)
round synced [] = (done none, (synced, []))
round false (b ∷ src) = elim (after_sync (b ∷ src)) [
  | none ↦ (done none, (false, []))
  | some rest ↦ (again, (true, rest))
]
round true (b ∷ src) =
    if b == message_value_sync
    then (again, (true, src))
    else if bad_length b
    then (again, (false, src))
    else if ltb (length (b ∷ src)) b
    then (done none, (true, b ∷ src))
    else if not (get_or (b ∷ src) (b - 1) 0 == message_value_sync)
    then (again, (false, src))
    else (done (some (take b (b ∷ src))), (true, drop b (b ∷ src)))

-- What `decode` does after a round, given what it does with what the round leaves.
abbrev pub after_round :
    (Bool → List ℕ → Option (List ℕ) × (Bool × List ℕ))
    → Turn × (Bool × List ℕ)
    → Option (List ℕ) × (Bool × List ℕ)
after_round rest (done item, (synced, src)) = (item, (synced, src))
after_round rest (again, (synced, src)) = rest synced src

unfoldable pub rounds : ℕ → Bool → List ℕ → Option (List ℕ) × (Bool × List ℕ)
rounds zero synced src = (none, (synced, src))
rounds (suc fuel) synced src = after_round (rounds fuel) (round synced src)

unfoldable pub decode : Bool → List ℕ → Option (List ℕ) × (Bool × List ℕ)
decode synced src = rounds (suc (length src)) synced src

length-after_sync :
    (src : List ℕ) {rest : List ℕ} → after_sync src ≡ some rest → length rest < length src
unfolding after_sync
length-after_sync [] h = ground arith
length-after_sync (b ∷ src) {rest} h = ground (arith, length-after_sync src {rest = rest})

-- A round that goes on takes a byte or more away.
pub round-shrinks :
    (synced : Bool) (src : List ℕ) {s : Bool} {r : List ℕ}
    → round synced src ≡ (again, (s, r))
    → length r < length src
unfolding round
round-shrinks synced [] h = absurd (ground arith)
round-shrinks false (b ∷ src) {s} {r} h = ground (arith, length-after_sync (b ∷ src) {rest = r})
round-shrinks true (b ∷ src) h = ground arith

pub Turn-cases :
    (o : Turn × (Bool × List ℕ))
    → ((i : Option (List ℕ)) × (s : Bool) × (r : List ℕ) × (o ≡ (done i, (s, r))))
      ⊎ ((s : Bool) × (r : List ℕ) × (o ≡ (again, (s, r))))
Turn-cases (done i, (s, r)) = inl (i, s, r, refl)
Turn-cases (again, (s, r)) = inr (s, r, refl)

rounds_enough :
    (f g : ℕ) (synced : Bool) (src : List ℕ)
    → length src < f
    → length src < g
    → rounds f synced src ≡ rounds g synced src
unfolding rounds
rounds_enough zero g synced src p q = absurd (omega arith)
rounds_enough (suc f) zero synced src p q = absurd (omega arith)
rounds_enough (suc f) (suc g) synced src p q = elim (Turn-cases (round synced src)) [
  | inl (i, s, r, e) ↦ rw e
  | inr (s, r, e) ↦
      let less = round-shrinks synced src e in
      rw e (rounds_enough f g s r (omega arith) (omega arith))
]

-- A round, and after one that goes on the loop again.
pub framer-unfold :
    (synced : Bool) (src : List ℕ) → decode synced src ≡ after_round decode (round synced src)
unfolding decode rounds
framer-unfold synced src = elim (Turn-cases (round synced src)) [
  | inl (i, s, r, e) ↦ rw e
  | inr (s, r, e) ↦
      let less = round-shrinks synced src e in
      rw e (rounds_enough (length src) (suc (length r)) s r (omega arith) (omega arith))
]

-- Induction over the rounds.
pub decode_induction {ℓ} :
    (P : Bool → List ℕ → Type ℓ)
    → ((b : Bool) (src : List ℕ) (i : Option (List ℕ)) (s : Bool) (r : List ℕ)
        → round b src ≡ (done i, (s, r))
        → P b src)
    → ((b : Bool) (src : List ℕ) (s : Bool) (r : List ℕ)
        → round b src ≡ (again, (s, r))
        → P s r
        → P b src)
    → (b : Bool) (src : List ℕ) → P b src
decode_induction P hdone hagain b src = go (suc (length src)) b src (omega arith)
  where
    go : (n : ℕ) (b : Bool) (src : List ℕ) → length src < n → P b src
    go zero b src h = absurd (omega arith)
    go (suc n) b src h = elim (Turn-cases (round b src)) [
      | inl (i, s, r, e) ↦ hdone b src i s r e
      | inr (s, r, e) ↦
          let less = round-shrinks b src e in hagain b src s r e (go n s r (omega arith))
    ]

pub decode-done :
    (b : Bool) (src : List ℕ) {i : Option (List ℕ)} {s : Bool} {r : List ℕ}
    → round b src ≡ (done i, (s, r))
    → decode b src ≡ (i, (s, r))
decode-done b src e = framer-unfold b src ∙ ap (after_round decode) e

pub decode-again :
    (b : Bool) (src : List ℕ) {s : Bool} {r : List ℕ}
    → round b src ≡ (again, (s, r))
    → decode b src ≡ decode s r
decode-again b src e = framer-unfold b src ∙ ap (after_round decode) e

-- The runs of the loop that end: a round that returns gives the result, and before a run that ends
-- stands a round that goes on.
pub data Ends : Bool → List ℕ → Option (List ℕ) × (Bool × List ℕ) → Type 0 where
  returned :
      {b s : Bool} {src r : List ℕ} {i : Option (List ℕ)}
      → round b src ≡ (done i, (s, r))
      → Ends b src (i, (s, r))
  went_on :
      {b s : Bool} {src r : List ℕ} {out : Option (List ℕ) × (Bool × List ℕ)}
      → round b src ≡ (again, (s, r))
      → Ends s r out
      → Ends b src out

-- The loop of `KlipperFramer::decode` ends on every buffer, with the flag set or not: after finitely
-- many rounds that go on comes one that returns, and `decode` gives what that round returns and
-- leaves.
pub framer-Ends : (synced : Bool) (src : List ℕ) → Ends synced src (decode synced src)
framer-Ends =
    decode_induction (λ b src. Ends b src (decode b src))
      (λ b src i s r e. subst (Ends b src) (sym (decode-done b src e)) (returned e))
      (λ b src s r e ih. subst (Ends b src) (sym (decode-again b src e)) (went_on e ih))
