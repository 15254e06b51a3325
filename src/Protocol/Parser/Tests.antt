-- ===== src/Protocol/Parser/Tests.antt =====
-- Runs of the parser on small streams, with a sum of the bytes for `crc32fast::hash`.
use pik.Base.{ℕ, ◌+◌, ◌%◌, ◌^◌, ◌<◌, ◌≡◌, refl, List, [], ◌∷◌, ◌++◌, arith}
use pik.Protocol.{Frame, f_data, build_frame}
use pik.Protocol.Bytes.{or_shift}
use pik.Protocol.Parser.{
  find_magic, keep_last, length_field, payload_of, crc_rx, total, read_frame, round, drain,
  drain_frames, feed_from, feed,
}
use pik.Protocol.Parser.Drain.{IsDrained, Ends, drain_frames-Ends}
use pik.Protocol.Parser.Feed.{feed-drain_frames, feed_all, feed_all-join, join}
use pik.Protocol.Parser.RoundTrip.{feed_all-build_all, feed_all-noisy}
use pik.Protocol.Parser.Sound.{Carries, feed-Carries}

sum_from : ℕ → List ℕ → ℕ
sum_from acc [] = acc
sum_from acc (b ∷ bs) = sum_from (acc + b) bs

sum_hash : List ℕ → ℕ
unfolding sum_from
sum_hash bs = sum_from 0 bs % 2 ^ 32

sum_hash-lt : (p : List ℕ) → sum_hash p < 2 ^ 32
unfolding sum_hash
sum_hash-lt p = omega arith

abbrev abc : Frame
abc = record { ftype = f_data; channel = 7; payload = 97 ∷ 98 ∷ 99 ∷ [] }

abbrev nothing : Frame
nothing = record { ftype = 2; channel = 1; payload = [] }

abbrev abc_wire : List ℕ
abc_wire = 0xAA ∷ 0x55 ∷ 1 ∷ 7 ∷ 3 ∷ 0 ∷ 97 ∷ 98 ∷ 99 ∷ 38 ∷ 1 ∷ 0 ∷ 0 ∷ []

-- The stream of two frames, read in three pieces.
abbrev pieces : List (List ℕ)
pieces =
    (0xAA ∷ 0x55 ∷ 1 ∷ [])
    ∷ (7 ∷ 3 ∷ 0 ∷ 97 ∷ 98 ∷ 99 ∷ 38 ∷ 1 ∷ 0 ∷ 0 ∷ 0xAA ∷ [])
    ∷ (0x55 ∷ 2 ∷ 1 ∷ 0 ∷ 0 ∷ 0 ∷ 0 ∷ 0 ∷ 0 ∷ [])
    ∷ []

build_abc : build_frame sum_hash f_data 7 (97 ∷ 98 ∷ 99 ∷ []) ≡ abc_wire
unfolding build_frame sum_hash
build_abc = refl

-- The unit tests of the source: noise in front, and a frame with a bad checksum in front.
noise_then_frame : (feed sum_hash [] (0 ∷ 17 ∷ 0xAA ∷ 0x99 ∷ abc_wire)).1 ≡ abc ∷ []
unfolding feed feed_from drain_frames drain round read_frame find_magic keep_last length_field
    payload_of crc_rx total or_shift sum_hash
noise_then_frame = refl

bad_crc_then_frame :
    (feed sum_hash [] ((0xAA ∷ 0x55 ∷ 1 ∷ 1 ∷ 1 ∷ 0 ∷ 65 ∷ 0 ∷ 0 ∷ 0 ∷ 1 ∷ []) ++ abc_wire)).1
    ≡ abc ∷ []
unfolding feed feed_from drain_frames drain round read_frame find_magic keep_last length_field
    payload_of crc_rx total or_shift sum_hash
bad_crc_then_frame = refl

empty-IsDrained : IsDrained sum_hash []
unfolding round
empty-IsDrained = refl

half-IsDrained : IsDrained sum_hash (0xAA ∷ 0x55 ∷ 1 ∷ [])
unfolding round read_frame find_magic
half-IsDrained = refl

feed_all-build_all_example : feed_all sum_hash [] pieces ≡ ([], abc ∷ nothing ∷ [])
unfolding build_frame sum_hash
feed_all-build_all_example =
    feed_all-build_all sum_hash sum_hash-lt (abc ∷ nothing ∷ []) pieces (omega arith) refl

feed_all-noisy_example :
    (feed_all sum_hash [] ((0 ∷ 0xAA ∷ []) ∷ abc_wire ∷ (0x55 ∷ 0xAA ∷ []) ∷ [])).1 ≡ abc ∷ []
unfolding build_frame sum_hash find_magic
feed_all-noisy_example =
    feed_all-noisy sum_hash sum_hash-lt ((0 ∷ 0xAA ∷ [], abc) ∷ []) (0x55 ∷ 0xAA ∷ [])
      ((0 ∷ 0xAA ∷ []) ∷ abc_wire ∷ (0x55 ∷ 0xAA ∷ []) ∷ []) (refl, omega arith, tt) refl refl

feed-Carries_example : Carries sum_hash (0 ∷ abc_wire) (feed sum_hash [] (0 ∷ abc_wire)).1
feed-Carries_example = feed-Carries sum_hash [] (0 ∷ abc_wire) empty-IsDrained (omega arith)

feed-drain_frames_example :
    feed sum_hash (0xAA ∷ 0x55 ∷ 1 ∷ []) (7 ∷ 3 ∷ [])
    ≡ drain_frames sum_hash (0xAA ∷ 0x55 ∷ 1 ∷ 7 ∷ 3 ∷ [])
feed-drain_frames_example =
    feed-drain_frames sum_hash (0xAA ∷ 0x55 ∷ 1 ∷ []) (7 ∷ 3 ∷ []) half-IsDrained

feed_all-join_example :
    feed_all sum_hash (0xAA ∷ 0x55 ∷ 1 ∷ []) pieces
    ≡ feed sum_hash (0xAA ∷ 0x55 ∷ 1 ∷ []) (join pieces)
feed_all-join_example = feed_all-join sum_hash (0xAA ∷ 0x55 ∷ 1 ∷ []) pieces half-IsDrained

drain_frames-Ends_example : Ends sum_hash abc_wire (drain_frames sum_hash abc_wire)
drain_frames-Ends_example = drain_frames-Ends sum_hash abc_wire
