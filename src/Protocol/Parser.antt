-- ===== src/Protocol/Parser.antt =====
-- `FrameParser` of serialmux-rs/src/protocol.rs. The state is `buf[..len]`, the valid bytes of the
-- staging buffer; `copy_within` to the front is `drop`. The callback's calls are a list, in order.
mod Magic
pub mod Round
pub mod Drain
pub mod Online
pub mod Feed
pub mod RoundTrip
pub mod Sound
mod Tests
use pik.Base.{
  ℕ, zero, suc, ◌+◌, ◌-◌, min, List, [], ◌∷◌, ◌++◌, Option, none, some, ◌&&◌, length, get_or, take,
  drop, ltb, ◌==◌, if◌then◌else◌,
}
use pik.Protocol.{Frame, hdr_size, crc_size, max_payload, parser_buf_cap}
use pik.Protocol.Bytes.{u32_from_le_bytes, or_shift}

-- `FrameParser::new` and `reset`: no valid byte.
abbrev pub new : List ℕ
new = []

abbrev pub reset : List ℕ → List ℕ
reset b = []

-- The search for 0xAA 0x55: the bytes from the first pair on, if there is one.
pub find_magic : List ℕ → Option (List ℕ)
find_magic [] = none
find_magic (x ∷ []) = none
find_magic (x ∷ y ∷ r) =
    let later = find_magic (y ∷ r) in if x == 0xAA && y == 0x55 then some (x ∷ y ∷ r) else later

-- `buf[0] = buf[len - 1]; len = 1`
pub keep_last : List ℕ → List ℕ
keep_last b = get_or b (length b - 1) 0 ∷ []

-- What the header and the trailer say.
pub length_field : List ℕ → ℕ
length_field b = or_shift (get_or b 4 0) (get_or b 5 0)

pub payload_of : List ℕ → List ℕ
payload_of b = take (length_field b) (drop hdr_size b)

pub crc_rx : List ℕ → ℕ
crc_rx b = u32_from_le_bytes (take 4 (drop (hdr_size + length_field b) b))

pub total : List ℕ → ℕ
total b = hdr_size + length_field b + crc_size

-- How one round of the loop of `drain_frames` ends: by `break`, by `continue` after the magic pair
-- was skipped, or with a frame given to the callback.
pub data Outcome : Type 0 where
  stop : List ℕ → Outcome
  skip : List ℕ → Outcome
  emit : Frame → List ℕ → Outcome

-- What the loop does after a round, given what it does to the bytes left.
abbrev pub after_round : (List ℕ → List ℕ × List Frame) → Outcome → List ℕ × List Frame
after_round rest (stop r) = (r, [])
after_round rest (skip r) = rest r
after_round rest (emit x r) = let (r', xs) = rest r in (r', x ∷ xs)

module _ (hash : List ℕ → ℕ) where
  -- The rest of the round, with the magic pair in front.
  pub read_frame : List ℕ → Outcome
  read_frame b =
      if ltb (length b) hdr_size
      then stop b
      else if ltb max_payload (length_field b)
      then skip (drop 2 b)
      else if ltb (length b) (total b)
      then stop b
      else if hash (payload_of b) == crc_rx b
      then emit (record { ftype = get_or b 2 0; channel = get_or b 3 0; payload = payload_of b })
          (drop (total b) b)
      else skip (drop 2 b)

  pub round : List ℕ → Outcome
  round b =
      if ltb (length b) 2
      then stop b
      else elim (find_magic b) [ none ↦ stop (keep_last b) | some m ↦ read_frame m ]

  -- The loop. Each round but the last takes two bytes or more away, so that `length b` rounds are
  -- enough (`Drain.drain_frames-Ends`).
  pub drain : ℕ → List ℕ → List ℕ × List Frame
  drain zero b = (b, [])
  drain (suc fuel) b = after_round (drain fuel) (round b)

  pub drain_frames : List ℕ → List ℕ × List Frame
  drain_frames b = drain (suc (length b)) b

  -- The outer loop of `feed`; the second list is `data[pos..]`. Each pass takes a byte or more.
  pub feed_from : ℕ → List ℕ → List ℕ → List ℕ × List Frame
  feed_from zero b input = (b, [])
  feed_from (suc fuel) b input =
      let space = parser_buf_cap - length b in
      let copy = min (length input) space in
      let step : List ℕ × List Frame =
        (let (b', xs) = drain_frames (b ++ take copy input) in
          let (b'', ys) = feed_from fuel b' (drop copy input) in (b'', xs ++ ys)) in
      if length input == 0 then (b, []) else if copy == 0 then (b, []) else step

  pub feed : List ℕ → List ℕ → List ℕ × List Frame
  feed b input = feed_from (suc (length input)) b input
