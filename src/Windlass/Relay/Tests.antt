-- ===== src/Windlass/Relay/Tests.antt =====
-- The relay on short histories, with the loop that `FramedRead` is documented to run.
use pik.Base.{
  ℕ, zero, suc, ◌<◌, ◌≡◌, ◌⊎◌, refl, ap, true, List, [], ◌∷◌, ◌++◌, Option, none, some, length,
  length-append, arith, inl, inr,
}
use pik.Windlass.Framing.{TunnelFrame, IsKlipperFrame}
use pik.Windlass.Framing.TunnelCodec.{decode, encode, decode_sound}
use pik.Windlass.Relay.Host
use pik.Windlass.Relay.Host.{Client, Host}
use pik.Windlass.Relay.Host.Sent.{Sent}
use pik.Windlass.Relay.Host.Upstream as HostUpstream
use pik.Windlass.Relay.Exporter
use pik.Windlass.Relay.Exporter.{Exporter}
use pik.Windlass.Relay.Exporter.Delivery as ExporterDelivery
use pik.Windlass.Relay.Exporter.Delivery.{SentIfOpen}
use pik.Windlass.Relay.Link.{IsFramed, wire, to_klipper-Sent, to_uart-SentIfOpen}

abbrev Decoded : Type 0
Decoded = Option TunnelFrame × List ℕ

abbrev next : Decoded → (List ℕ → List TunnelFrame) → List TunnelFrame
next (none, rest) f = []
next (some tf, rest) f = tf ∷ f rest

loop : ℕ → List ℕ → List TunnelFrame
loop zero src = []
loop (suc n) src = next (decode src) (loop n)

framed : List ℕ → List TunnelFrame
unfolding loop
framed src = loop (suc (length src)) src

Decoded-cases :
    (p : Decoded)
    → ((rest : List ℕ) × (p ≡ (none, rest)))
      ⊎ ((tf : TunnelFrame) × (rest : List ℕ) × (p ≡ (some tf, rest)))
Decoded-cases (none, rest) = inl (rest, refl)
Decoded-cases (some tf, rest) = inr (tf, rest, refl)

shrinks :
    (src : List ℕ) (tf : TunnelFrame) (rest : List ℕ)
    → decode src ≡ (some tf, rest)
    → length rest < length src
unfolding encode
shrinks src tf rest e =
    let (v, (skipped, s)) = decode_sound src e in
    omega (
      arith,
      ap length s,
      length-append skipped ((tf.ch_id ∷ tf.frame) ++ rest),
      length-append (tf.ch_id ∷ tf.frame) rest,
    )

loop_enough : (m n : ℕ) (src : List ℕ) → length src < m → length src < n → loop m src ≡ loop n src
unfolding loop
loop_enough zero n src h k = absurd (omega arith)
loop_enough (suc m) zero src h k = absurd (omega arith)
loop_enough (suc m) (suc n) src h k = elim (Decoded-cases (decode src)) [
  | inl (rest, e) ↦ rw e refl
  | inr (tf, rest, e) ↦
      let less = shrinks src tf rest e in
      rw e (ap (◌∷◌ tf) (loop_enough m n rest (omega arith) (omega arith)))
]

framed_item :
    (src : List ℕ) (tf : TunnelFrame) (rest : List ℕ)
    → decode src ≡ (some tf, rest)
    → framed src ≡ tf ∷ framed rest
unfolding framed
framed_item src tf rest e =
    let less = shrinks src tf rest e in
    rw e
      (ap (◌∷◌ tf) (loop_enough (length src) (suc (length rest)) rest (omega arith) (omega arith)))

framed_stop : (src rest : List ℕ) → decode src ≡ (none, rest) → framed src ≡ []
unfolding framed
framed_stop src rest e = rw e refl

framed-IsFramed : IsFramed framed
framed-IsFramed = record { item = framed_item; stop = framed_stop }

abbrev ack : List ℕ
ack = 5 ∷ 0x10 ∷ 0xAB ∷ 0xCD ∷ 0x7E ∷ []

ack-IsKlipperFrame : IsKlipperFrame ack
ack-IsKlipperFrame = (omega arith, omega arith, refl, refl)

abbrev item : TunnelFrame
item = record { ch_id = 3; frame = ack }

abbrev channels : List ℕ
channels = 4 ∷ 3 ∷ []

-- The exporter reads a frame from the UART of channel 3.
abbrev exporter_read : Exporter
exporter_read = Exporter.step (Exporter.uart_frame 3 ack) (Exporter.new channels)

exporter_reads : Exporter.Reach channels (Exporter.uart_frame 3 ack ∷ []) exporter_read
unfolding Exporter.new
exporter_reads =
    Exporter.later Exporter.start (Exporter.uart_frame 3 ack) (refl, ack-IsKlipperFrame)

-- Connection 7 is accepted on channel 3, the frame comes in and is written.
abbrev host_connected : Host
host_connected = Host.step (Host.connected 3 7) (Host.new channels)

host_connects : Host.Reach channels (Host.connected 3 7 ∷ []) host_connected
unfolding Host.new
host_connects = Host.later Host.start (Host.connected 3 7) (refl, refl)

abbrev host_got : Host
host_got = Host.step (Host.usb_frame item) host_connected

abbrev host_history : List Host.Event
host_history = Host.usb_frame item ∷ Host.connected 3 7 ∷ []

host_gets : Host.Reach channels host_history host_got
host_gets = Host.later host_connects (Host.usb_frame item) tt

abbrev waiting : Client
waiting = record { ch_id = 3; inbox = ack ∷ []; written = []; is_reading = true; is_writing = true }

client_7 : host_got.clients 7 ≡ some waiting
unfolding Host.step Host.connect Host.demux Host.new
client_7 = refl

arrived : item ∷ [] ≡ framed (wire exporter_read.usb)
unfolding Exporter.step Exporter.new wire encode framed decode
arrived = refl

to_klipper-Sent_example : Sent (ExporterDelivery.read_on 3 (Exporter.uart_frame 3 ack ∷ [])) waiting
to_klipper-Sent_example =
    to_klipper-Sent framed framed-IsFramed exporter_reads host_gets arrived 7 waiting client_7 refl

-- Connection 7 sends a frame, which comes in at the exporter.
abbrev host_read : Host
host_read = Host.step (Host.sock_frame 7 ack) host_connected

abbrev host_reading : List Host.Event
host_reading = Host.sock_frame 7 ack ∷ Host.connected 3 7 ∷ []

host_reads : Host.Reach channels host_reading host_read
unfolding Host.step Host.connect Host.new
host_reads = Host.later host_connects (Host.sock_frame 7 ack) (refl, ack-IsKlipperFrame)

abbrev exporter_got : Exporter
exporter_got = Exporter.step (Exporter.usb_frame item) (Exporter.new channels)

exporter_gets : Exporter.Reach channels (Exporter.usb_frame item ∷ []) exporter_got
exporter_gets = Exporter.later Exporter.start (Exporter.usb_frame item) tt

back : item ∷ [] ≡ framed (wire host_read.usb)
unfolding Host.step Host.connect Host.forward Host.new wire encode framed decode
back = refl

to_uart-SentIfOpen_example : SentIfOpen (HostUpstream.read_on 3 host_reading) (exporter_got.uarts 3)
to_uart-SentIfOpen_example =
    to_uart-SentIfOpen framed framed-IsFramed host_reads exporter_gets back 3
