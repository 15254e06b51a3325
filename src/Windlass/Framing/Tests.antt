-- ===== src/Windlass/Framing/Tests.antt =====
-- The codecs on small inputs, and the theorems at them.
use pik.Base.{
  ℕ, ◌≡◌, ◌≤◌, ◌<◌, ◌⊎◌, refl, true, false, List, [], ◌∷◌, ◌++◌, none, some, length, arith,
}
use pik.Windlass.Framing.{TunnelFrame, PayloadTunnelFrame, IsKlipperFrame}
use pik.Windlass.Framing.TunnelCodec
use pik.Windlass.Framing.TunnelCodec.{decode-encode, decode-append, decode_sound}
use pik.Windlass.Framing.PayloadTunnelCodec
use pik.Windlass.Framing.PayloadTunnelCodec.{decode-encode_payload, decode-append_payload}
use pik.Windlass.Framing.KlipperFramer
use pik.Windlass.Framing.KlipperFramer.{framer-Ends}
use pik.Windlass.Framing.KlipperFramer.Sound.{framer_sound}

-- The frame of five bytes of the source's unit tests.
abbrev ack : List ℕ
ack = 5 ∷ 0x10 ∷ 0xAB ∷ 0xCD ∷ 0x7E ∷ []

ack-IsKlipperFrame : IsKlipperFrame ack
ack-IsKlipperFrame = (omega arith, omega arith, refl, refl)

abbrev item : TunnelFrame
item = record { ch_id = 3; frame = ack }

-- A channel byte with a length that is no length, before a good frame.
decode_noise : TunnelCodec.decode (1 ∷ 2 ∷ 3 ∷ ack) ≡ (some item, [])
unfolding TunnelCodec.decode
decode_noise = refl

frame_ack : KlipperFramer.decode false (0x11 ∷ 0x7E ∷ ack) ≡ (some ack, (true, []))
unfolding KlipperFramer.decode KlipperFramer.rounds KlipperFramer.round KlipperFramer.after_sync
frame_ack = refl

decode-encode_example :
    TunnelCodec.decode (TunnelCodec.encode item [] ++ (9 ∷ [])) ≡ (some item, 9 ∷ [])
decode-encode_example = decode-encode item (9 ∷ []) ack-IsKlipperFrame

decode-append_example :
    TunnelCodec.decode ((3 ∷ 5 ∷ 0x10 ∷ []) ++ (0xAB ∷ 0xCD ∷ 0x7E ∷ []))
    ≡ TunnelCodec.resume (TunnelCodec.decode (3 ∷ 5 ∷ 0x10 ∷ [])) (0xAB ∷ 0xCD ∷ 0x7E ∷ [])
decode-append_example = decode-append (3 ∷ 5 ∷ 0x10 ∷ []) (0xAB ∷ 0xCD ∷ 0x7E ∷ [])

decode_sound_example :
    IsKlipperFrame item.frame
    × ((skipped : List ℕ) × (1 ∷ 2 ∷ 3 ∷ ack ≡ skipped ++ (TunnelCodec.encode item [] ++ [])))
decode_sound_example = decode_sound (1 ∷ 2 ∷ 3 ∷ ack) decode_noise

abbrev response : PayloadTunnelFrame
response = record { ch_id = 3; payload = 1 ∷ 2 ∷ [] }

decode-encode_payload_example :
    ((length response.payload ≤ 255)
      × ((wire : List ℕ) × (PayloadTunnelCodec.encode response [] ≡ some ([] ++ wire))
          × (PayloadTunnelCodec.decode (wire ++ (7 ∷ [])) ≡ (some response, 7 ∷ []))))
    ⊎ ((255 < length response.payload) × (PayloadTunnelCodec.encode response [] ≡ none))
decode-encode_payload_example = decode-encode_payload response [] (7 ∷ [])

framer-Ends_example :
    KlipperFramer.Ends false (0x11 ∷ 0x7E ∷ ack) (KlipperFramer.decode false (0x11 ∷ 0x7E ∷ ack))
framer-Ends_example = framer-Ends false (0x11 ∷ 0x7E ∷ ack)

framer_sound_example :
    IsKlipperFrame ack × ((skipped : List ℕ) × (0x11 ∷ 0x7E ∷ ack ≡ skipped ++ (ack ++ [])))
framer_sound_example = framer_sound false (0x11 ∷ 0x7E ∷ ack) frame_ack
