-- ===== src/Protocol/Parser/RoundTrip.antt =====
-- The parser reads what `build_frame` writes.
use pik.Base.{
  ℕ, suc, ◌+◌, ◌/◌, ◌%◌, ◌^◌, ◌≤◌, ◌<◌, ◌≡◌, refl, ap, ◌∙◌, List, [], ◌∷◌, ◌++◌, none, some, length,
  drop, arith, append_assoc, length-append, take-length, drop-length, drop_add,
}
use pik.Protocol.{Frame, max_payload, build_frame}
use pik.Protocol.Bytes.{or_shift-eq-add, u32_le_bytes, u32_from-to}
use pik.Protocol.Parser.{
  find_magic, keep_last, length_field, payload_of, crc_rx, total, emit, read_frame, round,
  drain_frames,
}
use pik.Protocol.Parser.Round.{round-none}
use pik.Protocol.Parser.Drain.{drain-emit, drain-stop}
use pik.Protocol.Parser.Feed.{feed_all, join, feed_all-join, feed-drain_frames}

-- The frames that the link can carry: a payload of at most `max_payload` bytes.
abbrev pub Fits : Frame → Type 0
Fits x = length x.payload ≤ max_payload

abbrev pub AllFit : List Frame → Type 0
AllFit [] = Unit {0}
AllFit (x ∷ xs) = Fits x × AllFit xs

module _ (hash : List ℕ → ℕ) (hash_u32 : (p : List ℕ) → hash p < 2 ^ 32) where
  abbrev wire : Frame → List ℕ → List ℕ
  wire x rest =
      0xAA
      ∷ 0x55
      ∷ x.ftype
      ∷ x.channel
      ∷ (length x.payload % 65536 % 256)
      ∷ (length x.payload % 65536 / 256 % 256)
      ∷ (x.payload ++ (u32_le_bytes (hash x.payload) ++ rest))

  build_frame-wire :
      (x : Frame) (rest : List ℕ)
      → Fits x
      → build_frame hash x.ftype x.channel x.payload ++ rest ≡ wire x rest
  unfolding build_frame
  build_frame-wire x rest h =
      ground (arith, append_assoc x.payload (u32_le_bytes (hash x.payload)) rest)

  length_field-wire :
      (x : Frame) (rest : List ℕ) → Fits x → length_field (wire x rest) ≡ length x.payload
  unfolding length_field
  length_field-wire x rest h = omega (
    arith,
    or_shift-eq-add (length x.payload % 65536 % 256) (length x.payload % 65536 / 256 % 256)
        (omega arith) (omega arith),
  )

  payload_of-wire : (x : Frame) (rest : List ℕ) → Fits x → payload_of (wire x rest) ≡ x.payload
  unfolding payload_of
  payload_of-wire x rest h = rw (length_field-wire x rest h) (take-length x.payload _)

  drop_header :
      (x : Frame) (rest : List ℕ)
      → drop (6 + length x.payload) (wire x rest) ≡ u32_le_bytes (hash x.payload) ++ rest
  drop_header x rest =
      let e : 6 + length x.payload ≡ suc (suc (suc (suc (suc (suc (length x.payload)))))) =
        omega arith in
      ap (λ n. drop n (wire x rest)) e ∙ drop-length x.payload _

  crc_rx-wire : (x : Frame) (rest : List ℕ) → Fits x → crc_rx (wire x rest) ≡ hash x.payload
  unfolding crc_rx
  crc_rx-wire x rest h =
      rw (length_field-wire x rest h, drop_header x rest)
        (u32_from-to (hash x.payload) (hash_u32 x.payload))

  total-wire : (x : Frame) (rest : List ℕ) → Fits x → total (wire x rest) ≡ length x.payload + 10
  unfolding total
  total-wire x rest h = omega (arith, length_field-wire x rest h)

  drop-wire : (x : Frame) (rest : List ℕ) → Fits x → drop (total (wire x rest)) (wire x rest) ≡ rest
  drop-wire x rest h =
      let e : length x.payload + 10 ≡ 6 + length x.payload + 4 = omega arith in
      ap (λ n. drop n (wire x rest)) (total-wire x rest h ∙ e)
      ∙ drop_add (6 + length x.payload) 4 (wire x rest)
      ∙ ap (drop 4) (drop_header x rest)

  -- Noise without a magic pair hides no pair that follows it.
  find_magic-noise :
      (n r : List ℕ)
      → find_magic n ≡ none
      → find_magic (n ++ (0xAA ∷ 0x55 ∷ r)) ≡ some (0xAA ∷ 0x55 ∷ r)
  unfolding find_magic
  find_magic-noise [] r h = refl
  find_magic-noise (x ∷ []) r h = ground arith
  find_magic-noise (x ∷ y ∷ n) r h = ground (arith, find_magic-noise (y ∷ n) r)

  read_frame-wire :
      (x : Frame) (rest : List ℕ) → Fits x → read_frame hash (wire x rest) ≡ emit x rest
  unfolding read_frame
  read_frame-wire x rest h = ground (
    arith,
    length_field-wire x rest h,
    total-wire x rest h,
    payload_of-wire x rest h,
    crc_rx-wire x rest h,
    drop-wire x rest h,
    length-append x.payload (u32_le_bytes (hash x.payload) ++ rest),
  )

  -- A round on a built frame behind such noise gives it to the callback and leaves what follows.
  round-build_frame :
      (n : List ℕ) (x : Frame) (rest : List ℕ)
      → find_magic n ≡ none
      → Fits x
      → round hash (n ++ (build_frame hash x.ftype x.channel x.payload ++ rest)) ≡ emit x rest
  unfolding round
  round-build_frame n x rest e h = rw (build_frame-wire x rest h) (
      ground (
        arith,
        find_magic-noise n (drop 2 (wire x rest)) e,
        read_frame-wire x rest h,
        length-append n (wire x rest),
      ))

  -- Built frames one behind the other.
  abbrev pub build_all : List Frame → List ℕ
  build_all [] = []
  build_all (x ∷ xs) = build_frame hash x.ftype x.channel x.payload ++ build_all xs

  drain-build_all : (xs : List Frame) → AllFit xs → drain_frames hash (build_all xs) ≡ ([], xs)
  drain-build_all [] h = drain-stop hash [] (unfold round in refl)
  drain-build_all (x ∷ xs) h =
      drain-emit hash (build_all (x ∷ xs))
        (round-build_frame [] x (build_all xs) (unfold find_magic in refl) h.0)
      ∙ ap (λ (p : List ℕ × List Frame). (p.0, x ∷ p.1)) (drain-build_all xs h.1)

  -- Frames that fit, built, sent, and read in pieces cut anywhere, come out of a fresh parser
  -- unchanged, in order, each once, and no byte is left over.
  -- Each payload has at most `max_payload` bytes, and the checksum is a number below 2 ^ 32.
  pub feed_all-build_all :
      (xs : List Frame) (cs : List (List ℕ))
      → AllFit xs
      → join cs ≡ build_all xs
      → feed_all hash [] cs ≡ ([], xs)
  feed_all-build_all xs cs h e =
      feed_all-join hash [] cs (unfold round in refl)
      ∙ feed-drain_frames hash [] (join cs) (unfold round in refl)
      ∙ ap (drain_frames hash) e
      ∙ drain-build_all xs h

  -- Each frame behind some noise.
  abbrev pub noisy : List (List ℕ × Frame) → List ℕ → List ℕ
  noisy [] end = end
  noisy ((n, x) ∷ xs) end = n ++ (build_frame hash x.ftype x.channel x.payload ++ noisy xs end)

  abbrev pub NoMagic : List (List ℕ × Frame) → Type 0
  NoMagic [] = Unit {0}
  NoMagic ((n, x) ∷ xs) = (find_magic n ≡ none) × Fits x × NoMagic xs

  abbrev pub frames_of : List (List ℕ × Frame) → List Frame
  frames_of [] = []
  frames_of ((n, x) ∷ xs) = x ∷ frames_of xs

  drain-noisy :
      (xs : List (List ℕ × Frame)) (end : List ℕ)
      → NoMagic xs
      → find_magic end ≡ none
      → (drain_frames hash (noisy xs end)).1 ≡ frames_of xs
  drain-noisy [] end h e = ap (λ (p : List ℕ × List Frame). p.1) (quiet end e).1
    where
      quiet :
          (end : List ℕ) → find_magic end ≡ none → (r : List ℕ) × (drain_frames hash end ≡ (r, []))
      quiet [] e = ([], drain-stop hash [] (unfold round in refl))
      quiet (x ∷ end) e =
          (keep_last (x ∷ end), drain-stop hash (x ∷ end) (round-none hash (x ∷ end) (λ z. cc) e))
  drain-noisy ((n, x) ∷ xs) end h e =
      ap (λ (p : List ℕ × List Frame). p.1)
        (drain-emit hash (noisy ((n, x) ∷ xs) end) (round-build_frame n x (noisy xs end) h.0 h.1))
      ∙ ap (◌∷◌ x) (drain-noisy xs end h.2 e)

  -- The parser synchronises again: line noise that holds no magic pair, before, between and behind
  -- the frames, takes no frame away and adds none, however the reads cut the stream.
  -- Each payload has at most `max_payload` bytes, and the checksum is a number below 2 ^ 32.
  pub feed_all-noisy :
      (xs : List (List ℕ × Frame)) (end : List ℕ) (cs : List (List ℕ))
      → NoMagic xs
      → find_magic end ≡ none
      → join cs ≡ noisy xs end
      → (feed_all hash [] cs).1 ≡ frames_of xs
  feed_all-noisy xs end cs h e q =
      ap (λ (p : List ℕ × List Frame). p.1)
        (feed_all-join hash [] cs (unfold round in refl)
          ∙ feed-drain_frames hash [] (join cs) (unfold round in refl)
          ∙ ap (drain_frames hash) q)
      ∙ drain-noisy xs end h e
