-- ===== src/Protocol/Parser/Online.antt =====
-- Bytes that arrive later change nothing about the frames found before them.
use pik.Base.{ℕ, ◌≡◌, ap, ◌∙◌, sym, List, ◌∷◌, ◌++◌}
use pik.Protocol.{Frame}
use pik.Protocol.Parser.{after_round, drain_frames}
use pik.Protocol.Parser.Round.{round-append_stop, round-append_skip, round-append_emit}
use pik.Protocol.Parser.Drain.{
  drain_frames-unfold, drain_induction, drain-stop, drain-skip, drain-emit,
}

module _ (hash : List ℕ → ℕ) where
  -- The buffer `b` is drained, `c` arrives, and the loop runs again.
  abbrev pub drain_twice : List ℕ → List ℕ → List ℕ × List Frame
  drain_twice b c =
      let (r, xs) = drain_frames hash b in
      let (r', ys) = drain_frames hash (r ++ c) in (r', xs ++ ys)

  -- Draining before the rest arrives and once more after it is draining all at once.
  pub drain_frames-append : (b c : List ℕ) → drain_frames hash (b ++ c) ≡ drain_twice b c
  drain_frames-append b c =
      drain_induction hash (λ b. drain_frames hash (b ++ c) ≡ drain_twice b c)
        (λ b r e. rw (drain-stop hash b e) (
          drain_frames-unfold hash (b ++ c)
          ∙ ap (after_round (drain_frames hash)) (round-append_stop hash b c e)
          ∙ sym (drain_frames-unfold hash (r ++ c))))
        (λ b r e ih.
          rw (drain-skip hash b e) (drain-skip hash (b ++ c) (round-append_skip hash b c e) ∙ ih))
        (λ b r x e ih. rw (drain-emit hash b e) (
          drain-emit hash (b ++ c) (round-append_emit hash b c e)
          ∙ ap (λ (p : List ℕ × List Frame). (p.0, x ∷ p.1)) ih))
        b
