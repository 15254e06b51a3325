-- ===== src/Protocol/Parser/Feed.antt =====
-- `feed` and its outer loop over the fixed buffer.
use pik.Base.{
  ℕ, zero, suc, ◌-◌, ◌<◌, min, ◌≡◌, ap, sym, ◌∙◌, List, [], ◌∷◌, ◌++◌, length, take, drop, arith,
  append-nil, append_assoc, length-drop, take-append-drop,
}
use pik.Protocol.{Frame, max_frame, parser_buf_cap}
use pik.Protocol.Parser.{drain_frames, feed_from, feed}
use pik.Protocol.Parser.Drain.{IsDrained, IsDrained-length, drain_frames-IsDrained, drain-stop}
use pik.Protocol.Parser.Online.{drain_frames-append}

abbrev pub join : List (List ℕ) → List ℕ
join [] = []
join (c ∷ cs) = c ++ join cs

module _ (hash : List ℕ → ℕ) where
  -- One pass of the outer loop: the buffer takes what fits and is drained.
  feed_from-step :
      (f : ℕ) (b input : List ℕ)
      → IsDrained hash b
      → 0 < length input
      → let copy = min (length input) (parser_buf_cap - length b) in
        (0 < copy)
        × (feed_from hash (suc f) b input ≡ (
            let (b', xs) = drain_frames hash (b ++ take copy input) in
            let (b'', ys) = feed_from hash f b' (drop copy input) in (b'', xs ++ ys)))
  unfolding feed_from
  feed_from-step f b input d h =
      let short = IsDrained-length hash b d in (omega arith, ground arith)

  feed_from_lem :
      (f : ℕ) (b input : List ℕ)
      → IsDrained hash b
      → length input < f
      → feed_from hash f b input ≡ drain_frames hash (b ++ input)
  feed_from_lem zero b input d h = absurd (omega arith)
  feed_from_lem (suc f) b [] d h =
      unfold feed_from in sym (ap (drain_frames hash) (append-nil b) ∙ drain-stop hash b d)
  feed_from_lem (suc f) b (x ∷ xs) d h =
      let input : List ℕ = x ∷ xs in
      let copy : ℕ = min (length input) (parser_buf_cap - length b) in
      let (pos, e) = feed_from-step f b input d (omega arith) in
      e
      ∙ ap (λ (q : List ℕ × List Frame). (q.0, (drain_frames hash (b ++ take copy input)).1 ++ q.1))
          (feed_from_lem f (drain_frames hash (b ++ take copy input)).0 (drop copy input)
            (drain_frames-IsDrained hash (b ++ take copy input))
            (omega (arith, length-drop copy input)))
      ∙ sym (drain_frames-append hash (b ++ take copy input) (drop copy input))
      ∙ ap (drain_frames hash) (
          append_assoc b (take copy input) (drop copy input)
          ∙ ap (◌++◌ b) (take-append-drop copy input))

  -- The fixed buffer and the passes over it cannot be seen: `feed` finds what one run of the loop
  -- finds on the bytes kept before and the whole input, and keeps what that run leaves.
  -- The buffer before the call is one that the loop leaves as it is, as after any call of `feed`.
  pub feed-drain_frames :
      (b input : List ℕ) → IsDrained hash b → feed hash b input ≡ drain_frames hash (b ++ input)
  unfolding feed
  feed-drain_frames b input d = feed_from_lem (suc (length input)) b input d (omega arith)

  pub feed-IsDrained : (b input : List ℕ) → IsDrained hash b → IsDrained hash (feed hash b input).0
  feed-IsDrained b input d =
      rw (feed-drain_frames b input d) (drain_frames-IsDrained hash (b ++ input))

  -- Between two calls the buffer holds less than one frame, so that it always has room.
  -- The buffer before the call is one that the loop leaves as it is, as after any call of `feed`.
  pub length-feed : (b input : List ℕ) → IsDrained hash b → length (feed hash b input).0 < max_frame
  length-feed b input d = IsDrained-length hash _ (feed-IsDrained b input d)

  -- A caller that reads the link in pieces.
  pub feed_all : List ℕ → List (List ℕ) → List ℕ × List Frame
  feed_all b [] = (b, [])
  feed_all b (c ∷ cs) =
      let (b', xs) = feed hash b c in let (b'', ys) = feed_all b' cs in (b'', xs ++ ys)

  pub feed_all-one : (b c : List ℕ) → (feed_all b (c ∷ [])).1 ≡ (feed hash b c).1
  unfolding feed_all
  feed_all-one b c = append-nil (feed hash b c).1

  feed_all_lem :
      (b : List ℕ) (cs : List (List ℕ))
      → IsDrained hash b
      → feed_all b cs ≡ drain_frames hash (b ++ join cs)
  unfolding feed_all
  feed_all_lem b [] d = sym (ap (drain_frames hash) (append-nil b) ∙ drain-stop hash b d)
  feed_all_lem b (c ∷ cs) d =
      ap (λ (q : List ℕ × List Frame). (q.0, (feed hash b c).1 ++ q.1))
        (feed_all_lem (feed hash b c).0 cs (feed-IsDrained b c d))
      ∙ ap
          (λ (q : List ℕ × List Frame).
            let (r, ys) = drain_frames hash (q.0 ++ join cs) in (r, q.1 ++ ys))
          (feed-drain_frames b c d)
      ∙ sym (drain_frames-append hash (b ++ c) (join cs))
      ∙ ap (drain_frames hash) (append_assoc b c (join cs))

  -- How the reads cut the stream makes no difference to the frames or to what is kept.
  -- The buffer before the call is one that the loop leaves as it is, as after any call of `feed`.
  pub feed_all-join :
      (b : List ℕ) (cs : List (List ℕ)) → IsDrained hash b → feed_all b cs ≡ feed hash b (join cs)
  feed_all-join b cs d = feed_all_lem b cs d ∙ sym (feed-drain_frames b (join cs) d)
