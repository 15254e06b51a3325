-- ===== src/Windlass/Relay/Link.antt =====
-- Both sides of the transparent relay with the link between them: the USB writer task of one and the
-- loop over the frames of the other. `FramedWrite` writes what `encode` gives for each item, one
-- behind the other.
use pik.Base.{
  one_if, ℕ, ◌≡◌, refl, ap, sym, subst, ◌∙◌, Bool, true, List, [], ◌∷◌, ◌++◌, none, some, ◌==◌,
  arith, ◌&&◌, ◌||◌, not,
}
use pik.Windlass.Framing.{TunnelFrame}
use pik.Windlass.Framing.TunnelCodec.{encode, decode, decode-encode}
use pik.Windlass.Relay.Host
use pik.Windlass.Relay.Host.{Client, Host}
use pik.Windlass.Relay.Host.Slots.{current}
use pik.Windlass.Relay.Host.Sent.{Sent}
use pik.Windlass.Relay.Host.Delivery.{routed, is_served, Reach-Sent}
use pik.Windlass.Relay.Host.Upstream as HostUpstream
use pik.Windlass.Relay.Host.Upstream.{frames_for, frames_for-snoc, AllKlipper, Reach-frames}
use pik.Windlass.Relay.Exporter
use pik.Windlass.Relay.Exporter.{Exporter}
use pik.Windlass.Relay.Exporter.Delivery as ExporterDelivery
use pik.Windlass.Relay.Exporter.Delivery.{SentIfOpen, Reach-SentIfOpen, Reach-relayed}

-- What the USB writer task writes for what it receives.
unfoldable pub wire : List TunnelFrame → List ℕ
wire [] = []
wire (tf ∷ l) = encode tf [] ++ wire l

-- What `FramedRead` over a codec is documented to do: it calls `decode` on what has come in for as
-- long as that gives an item, and hands the items over in order.
pub record IsFramed (framed : List ℕ → List TunnelFrame) : Type 0 where
  pub item :
      (src : List ℕ) (tf : TunnelFrame) (rest : List ℕ)
      → decode src ≡ (some tf, rest)
      → framed src ≡ tf ∷ framed rest
  pub stop : (src rest : List ℕ) → decode src ≡ (none, rest) → framed src ≡ []

-- The frames that the loop has got from `framed_r`, the first one first.
abbrev pub host_frames : List Host.Event → List TunnelFrame
host_frames [] = []
host_frames (Host.usb_frame tf ∷ es) = let rest = host_frames es in rest ++ (tf ∷ [])
host_frames (Host.connected i d ∷ es) = host_frames es
host_frames (Host.finished i d ∷ es) = host_frames es
host_frames (Host.sock_frame d f ∷ es) = host_frames es
host_frames (Host.sock_end d ∷ es) = host_frames es
host_frames (Host.sock_written d ∷ es) = host_frames es
host_frames (Host.sock_failed d ∷ es) = host_frames es
host_frames (Host.sock_closed d ∷ es) = host_frames es
host_frames (Host.usb_failed ∷ es) = host_frames es

abbrev pub exporter_frames : List Exporter.Event → List TunnelFrame
exporter_frames [] = []
exporter_frames (Exporter.usb_frame tf ∷ es) = let rest = exporter_frames es in rest ++ (tf ∷ [])
exporter_frames (Exporter.uart_frame i f ∷ es) = exporter_frames es
exporter_frames (Exporter.uart_end i ∷ es) = exporter_frames es
exporter_frames (Exporter.uart_written i ∷ es) = exporter_frames es
exporter_frames (Exporter.uart_failed i ∷ es) = exporter_frames es
exporter_frames (Exporter.usb_failed ∷ es) = exporter_frames es

-- Whenever a frame for the channel came in, the channel served connection `c`.
abbrev pub always_served : ℕ → ℕ → List Host.Event → Bool
always_served c ch_id [] = true
always_served c ch_id (Host.usb_frame tf ∷ es) =
    let rest = always_served c ch_id es in
    (not (tf.ch_id == ch_id) || is_served c (current ch_id es)) && rest
always_served c ch_id (Host.connected i d ∷ es) = always_served c ch_id es
always_served c ch_id (Host.finished i d ∷ es) = always_served c ch_id es
always_served c ch_id (Host.sock_frame d f ∷ es) = always_served c ch_id es
always_served c ch_id (Host.sock_end d ∷ es) = always_served c ch_id es
always_served c ch_id (Host.sock_written d ∷ es) = always_served c ch_id es
always_served c ch_id (Host.sock_failed d ∷ es) = always_served c ch_id es
always_served c ch_id (Host.sock_closed d ∷ es) = always_served c ch_id es
always_served c ch_id (Host.usb_failed ∷ es) = always_served c ch_id es

framed-wire :
    (framed : List ℕ → List TunnelFrame)
    → IsFramed framed
    → (l : List TunnelFrame) → AllKlipper l
    → framed (wire l) ≡ l
unfolding wire
framed-wire framed f [] a = f.stop [] [] (unfold decode in refl)
framed-wire framed f (tf ∷ l) a =
    f.item (encode tf [] ++ wire l) tf (wire l) (decode-encode tf (wire l) a.0)
    ∙ ap (◌∷◌ tf) (framed-wire framed f l a.1)

routed-served :
    (c ch_id : ℕ) (es : List Host.Event)
    → always_served c ch_id es ≡ true
    → routed c ch_id es ≡ frames_for ch_id (host_frames es)
routed-served c ch_id [] h = refl
routed-served c ch_id (Host.usb_frame tf ∷ es) h =
    let rest = routed-served c ch_id es (ground (arith, h)) in
    let same : (tf.ch_id == ch_id && is_served c (current ch_id es)) ≡ (tf.ch_id == ch_id) =
      ground (arith, h) in
    ap (λ b. routed c ch_id es ++ one_if b tf.frame) same
    ∙ ap (λ (l : List (List ℕ)). l ++ one_if (tf.ch_id == ch_id) tf.frame) rest
    ∙ sym (frames_for-snoc ch_id (host_frames es) tf)
routed-served c ch_id (Host.connected i d ∷ es) h = routed-served c ch_id es h
routed-served c ch_id (Host.finished i d ∷ es) h = routed-served c ch_id es h
routed-served c ch_id (Host.sock_frame d f ∷ es) h = routed-served c ch_id es h
routed-served c ch_id (Host.sock_end d ∷ es) h = routed-served c ch_id es h
routed-served c ch_id (Host.sock_written d ∷ es) h = routed-served c ch_id es h
routed-served c ch_id (Host.sock_failed d ∷ es) h = routed-served c ch_id es h
routed-served c ch_id (Host.sock_closed d ∷ es) h = routed-served c ch_id es h
routed-served c ch_id (Host.usb_failed ∷ es) h = routed-served c ch_id es h

routed-frames :
    (ch_id : ℕ) (es : List Exporter.Event)
    → ExporterDelivery.routed ch_id es ≡ frames_for ch_id (exporter_frames es)
routed-frames ch_id [] = refl
routed-frames ch_id (Exporter.usb_frame tf ∷ es) =
    ap (λ (l : List (List ℕ)). l ++ one_if (tf.ch_id == ch_id) tf.frame) (routed-frames ch_id es)
    ∙ sym (frames_for-snoc ch_id (exporter_frames es) tf)
routed-frames ch_id (Exporter.uart_frame i f ∷ es) = routed-frames ch_id es
routed-frames ch_id (Exporter.uart_end i ∷ es) = routed-frames ch_id es
routed-frames ch_id (Exporter.uart_written i ∷ es) = routed-frames ch_id es
routed-frames ch_id (Exporter.uart_failed i ∷ es) = routed-frames ch_id es
routed-frames ch_id (Exporter.usb_failed ∷ es) = routed-frames ch_id es

-- From a UART to Klipper, in any order of the events of the tasks on both sides, if the host has read
-- all that the exporter's USB writer was sent, nothing else and nothing less, over a `FramedRead` that
-- does what it is documented to do, and if the channel served one connection whenever a frame for it
-- came in. Take the Klipper frames that the exporter read from the channel's UART while its USB writer
-- ran; those read later are not counted. The socket of that connection was written the first of them,
-- in order, with none of another channel; the next of them wait, and the others are lost, none while
-- the task that writes the socket runs.
pub to_klipper-Sent :
    (framed : List ℕ → List TunnelFrame)
    → IsFramed framed
    → {ch_ids : List ℕ} {es : List Exporter.Event} {x : Exporter} → Exporter.Reach ch_ids es x
    → {ch_ids' : List ℕ} {es' : List Host.Event} {h : Host} → Host.Reach ch_ids' es' h
    → host_frames es' ≡ framed (wire x.usb)
    → (c : ℕ) (k : Client) → h.clients c ≡ some k
    → always_served c k.ch_id es' ≡ true
    → Sent (ExporterDelivery.read_on k.ch_id es) k
to_klipper-Sent framed f {x} rx {es'} rh got c k e s =
    let arrived : host_frames es' ≡ x.usb =
      got ∙ framed-wire framed f x.usb (ExporterDelivery.Reach-AllKlipper rx) in
    subst (λ l. Sent l k)
      (routed-served c k.ch_id es' s
        ∙ ap (frames_for k.ch_id) arrived
        ∙ (Reach-relayed rx k.ch_id).1)
      (Reach-Sent rh c k e)

-- From Klipper to a UART, in any order of the events of the tasks on both sides, if the exporter has
-- read all that the host's USB writer was sent, nothing else and nothing less, over a `FramedRead` that
-- does what it is documented to do. Take the Klipper frames that the host read from the connections of
-- a channel while its USB writer ran; those read later are not counted. The channel's UART, if it is
-- there, was written the first of them, in order, with none of another channel; the next of them wait,
-- and the others are lost, none while the task that writes the UART runs.
pub to_uart-SentIfOpen :
    (framed : List ℕ → List TunnelFrame)
    → IsFramed framed
    → {ch_ids : List ℕ} {es : List Host.Event} {h : Host} → Host.Reach ch_ids es h
    → {ch_ids' : List ℕ} {es' : List Exporter.Event} {x : Exporter} → Exporter.Reach ch_ids' es' x
    → exporter_frames es' ≡ framed (wire h.usb)
    → (ch_id : ℕ) → SentIfOpen (HostUpstream.read_on ch_id es) (x.uarts ch_id)
to_uart-SentIfOpen framed f {h} rh {es'} {x} rx got ch_id =
    let arrived : exporter_frames es' ≡ h.usb =
      got ∙ framed-wire framed f h.usb (HostUpstream.Reach-AllKlipper rh) in
    subst (λ l. SentIfOpen l (x.uarts ch_id))
      (routed-frames ch_id es' ∙ ap (frames_for ch_id) arrived ∙ Reach-frames rh ch_id)
      (Reach-SentIfOpen rx ch_id)
