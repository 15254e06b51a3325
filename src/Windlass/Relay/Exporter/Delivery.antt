-- ===== src/Windlass/Relay/Exporter/Delivery.antt =====
-- What the exporter writes to each UART, and what it sends over the link.
use pik.Base.{
  one_if, ℕ, ◌≡◌, refl, ap, sym, subst, ◌∙◌, Bool, true, false, List, [], ◌∷◌, ◌++◌, Option, none,
  some, ◌==◌, is_member, Bool-cases, inl, inr, arith, ◌&&◌, append-nil,
}
use pik.Windlass.Framing.{TunnelFrame, IsKlipperFrame}
use pik.Windlass.Relay.Host.{Client, receive, stop_reading, stop_writing, write_next}
use pik.Windlass.Relay.Host.Sent.{Sent, Sent-receive, Sent-write_next, Sent-stop_writing}
use pik.Windlass.Relay.Host.Upstream.{frames_for, frames_for-snoc, AllKlipper, AllKlipper-snoc}
use pik.Windlass.Relay.Exporter.{
  adjust, Exporter, Event, uart_frame, uart_end, usb_frame, uart_written, uart_failed, usb_failed,
  at_uart, send_usb, demux, step, new, Reach, start, later,
}

-- The frames of the link for a channel.
abbrev pub routed : ℕ → List Event → List (List ℕ)
routed ch_id [] = []
routed ch_id (usb_frame tf ∷ es) =
    let rest = routed ch_id es in rest ++ one_if (tf.ch_id == ch_id) tf.frame
routed ch_id (uart_frame i f ∷ es) = routed ch_id es
routed ch_id (uart_end i ∷ es) = routed ch_id es
routed ch_id (uart_written i ∷ es) = routed ch_id es
routed ch_id (uart_failed i ∷ es) = routed ch_id es
routed ch_id (usb_failed ∷ es) = routed ch_id es

abbrev pub is_usb_up : List Event → Bool
is_usb_up [] = true
is_usb_up (usb_failed ∷ es) = false
is_usb_up (usb_frame tf ∷ es) = is_usb_up es
is_usb_up (uart_frame i f ∷ es) = is_usb_up es
is_usb_up (uart_end i ∷ es) = is_usb_up es
is_usb_up (uart_written i ∷ es) = is_usb_up es
is_usb_up (uart_failed i ∷ es) = is_usb_up es

-- The frames read from a UART while the USB writer task ran.
abbrev pub read_on : ℕ → List Event → List (List ℕ)
read_on ch_id [] = []
read_on ch_id (uart_frame i frame ∷ es) =
    let rest = read_on ch_id es in rest ++ one_if (i == ch_id && is_usb_up es) frame
read_on ch_id (usb_frame tf ∷ es) = read_on ch_id es
read_on ch_id (uart_end i ∷ es) = read_on ch_id es
read_on ch_id (uart_written i ∷ es) = read_on ch_id es
read_on ch_id (uart_failed i ∷ es) = read_on ch_id es
read_on ch_id (usb_failed ∷ es) = read_on ch_id es

abbrev pub SentIfOpen : List (List ℕ) → Option Client → Type 0
SentIfOpen l none = Unit {0}
SentIfOpen l (some k) = Sent l k

adjust-SentIfOpen :
    (f : Client → Client) (l m : List (List ℕ)) (o : Option Client)
    → ((k : Client) → Sent l k → Sent m (f k))
    → SentIfOpen l o
    → SentIfOpen m (adjust f o)
adjust-SentIfOpen f l m none k h = tt
adjust-SentIfOpen f l m (some c) k h = k c h

-- A task keeps up with what its own UART is sent, and leaves the others as they are.
at_uart-SentIfOpen :
    (f : Client → Client) (i ch_id : ℕ) (x : Exporter) (l : List (List ℕ))
    → ((k : Client) → Sent l k → Sent l (f k))
    → SentIfOpen l (x.uarts ch_id)
    → SentIfOpen l ((at_uart f i x).uarts ch_id)
at_uart-SentIfOpen f i ch_id x l k h = elim (Bool-cases (i == ch_id)) [
  | inl e ↦
      let same : i ≡ ch_id = ground arith in
      rw e (
        subst (λ j. SentIfOpen l (adjust f (x.uarts j))) (sym same)
          (adjust-SentIfOpen f l l (x.uarts ch_id) k h))
  | inr e ↦ rw e h
]

demux-SentIfOpen :
    (tf : TunnelFrame) (ch_id : ℕ) (x : Exporter) (l : List (List ℕ))
    → SentIfOpen l (x.uarts ch_id)
    → SentIfOpen (l ++ one_if (tf.ch_id == ch_id) tf.frame) ((demux tf x).uarts ch_id)
unfolding demux
demux-SentIfOpen tf ch_id x l h = elim (Bool-cases (tf.ch_id == ch_id)) [
  | inl e ↦
      let same : tf.ch_id ≡ ch_id = ground arith in
      rw e (
        subst (λ j. SentIfOpen (l ++ (tf.frame ∷ [])) (adjust (receive tf.frame) (x.uarts j)))
          (sym same)
          (adjust-SentIfOpen (receive tf.frame) l (l ++ (tf.frame ∷ [])) (x.uarts ch_id)
            (λ k s. Sent-receive l tf.frame k s) h))
  | inr e ↦ rw e (subst (λ l. SentIfOpen l (x.uarts ch_id)) (sym (append-nil l)) h)
]

send_usb-SentIfOpen :
    (frame : List ℕ) (i ch_id : ℕ) (b : Bool) (x : Exporter) (l : List (List ℕ))
    → SentIfOpen l (x.uarts ch_id)
    → SentIfOpen l ((send_usb frame i b x).uarts ch_id)
send_usb-SentIfOpen frame i ch_id true x l h = h
send_usb-SentIfOpen frame i ch_id false x l h =
    at_uart-SentIfOpen stop_reading i ch_id x l (λ k s. s) h

pub Reach-SentIfOpen :
    {ch_ids : List ℕ} {es : List Event} {x : Exporter}
    → Reach ch_ids es x
    → (ch_id : ℕ) → SentIfOpen (routed ch_id es) (x.uarts ch_id)
unfolding step new
Reach-SentIfOpen {ch_ids} start i = elim (Bool-cases (is_member i ch_ids)) [
  | inl e ↦ rw e ([], refl, refl)
  | inr e ↦ rw e tt
]
Reach-SentIfOpen (later {es} {x} r (uart_frame c f) en) i =
    send_usb-SentIfOpen f c i x.is_usb_open x (routed i es) (Reach-SentIfOpen r i)
Reach-SentIfOpen (later {es} {x} r (uart_end c) en) i =
    at_uart-SentIfOpen stop_reading c i x (routed i es) (λ k s. s) (Reach-SentIfOpen r i)
Reach-SentIfOpen (later {es} {x} r (usb_frame tf) en) i =
    demux-SentIfOpen tf i x (routed i es) (Reach-SentIfOpen r i)
Reach-SentIfOpen (later {es} {x} r (uart_written c) en) i =
    at_uart-SentIfOpen write_next c i x (routed i es) (Sent-write_next (routed i es))
      (Reach-SentIfOpen r i)
Reach-SentIfOpen (later {es} {x} r (uart_failed c) en) i =
    at_uart-SentIfOpen stop_writing c i x (routed i es) (Sent-stop_writing (routed i es))
      (Reach-SentIfOpen r i)
Reach-SentIfOpen (later r usb_failed en) i = Reach-SentIfOpen r i

-- What the exporter sends over the link.
abbrev Upward : ℕ → List Event → Exporter → Type 0
Upward ch_id es x =
    (frames_for ch_id x.usb ≡ read_on ch_id es) × (x.is_usb_open ≡ is_usb_up es) × AllKlipper x.usb

send_usb-Upward :
    (es : List Event) (ch_id i : ℕ) (frame : List ℕ) (b : Bool) (x : Exporter)
    → IsKlipperFrame frame
    → x.is_usb_open ≡ b
    → Upward ch_id es x
    → Upward ch_id (uart_frame i frame ∷ es) (send_usb frame i b x)
send_usb-Upward es ch_id i frame true x v o (p, q, a) =
    let tf : TunnelFrame = record { ch_id = i; frame = frame } in
    let up : is_usb_up es ≡ true = sym q ∙ o in
    (
      frames_for-snoc ch_id x.usb tf
          ∙ ap (λ (l : List (List ℕ)). l ++ one_if (i == ch_id) frame) p
          ∙ ap (λ b. read_on ch_id es ++ one_if b frame) (both_true (i == ch_id) up),
      q,
      AllKlipper-snoc x.usb tf a v,
    )
  where
    both_true : (b : Bool) → is_usb_up es ≡ true → b ≡ (b && is_usb_up es)
    both_true true u = sym u
    both_true false u = refl
send_usb-Upward es ch_id i frame false x v o (p, q, a) =
    let down : is_usb_up es ≡ false = sym q ∙ o in
    (
      p
          ∙ sym (append-nil (read_on ch_id es))
          ∙ ap (λ b. read_on ch_id es ++ one_if b frame) (one_false (i == ch_id) down),
      q,
      a,
    )
  where
    one_false : (b : Bool) → is_usb_up es ≡ false → false ≡ (b && is_usb_up es)
    one_false true u = sym u
    one_false false u = refl

Reach-Upward :
    {ch_ids : List ℕ} {es : List Event} {x : Exporter}
    → Reach ch_ids es x
    → (ch_id : ℕ) → Upward ch_id es x
unfolding step demux new
Reach-Upward start i = (refl, refl, tt)
Reach-Upward (later {es} {x} r (uart_frame c f) en) i =
    send_usb-Upward es i c f x.is_usb_open x en.1 refl (Reach-Upward r i)
Reach-Upward (later r (uart_end c) en) i = Reach-Upward r i
Reach-Upward (later r (usb_frame tf) en) i = Reach-Upward r i
Reach-Upward (later r (uart_written c) en) i = Reach-Upward r i
Reach-Upward (later r (uart_failed c) en) i = Reach-Upward r i
Reach-Upward (later r usb_failed en) i = ((Reach-Upward r i).0, refl, (Reach-Upward r i).2)

-- In every state that the tasks of the exporter can reach, each UART was written the frames that
-- came in from the link for its channel, in their order, and no others; the next of them wait, and
-- the others are lost, none while the task that writes runs. The frames sent to the USB writer with
-- a channel's id are those read from its UART while the writer ran, in order.
pub Reach-relayed :
    {ch_ids : List ℕ} {es : List Event} {x : Exporter}
    → Reach ch_ids es x
    → (ch_id : ℕ)
    → SentIfOpen (routed ch_id es) (x.uarts ch_id) × (frames_for ch_id x.usb ≡ read_on ch_id es)
Reach-relayed r ch_id = (Reach-SentIfOpen r ch_id, (Reach-Upward r ch_id).0)

pub Reach-AllKlipper :
    {ch_ids : List ℕ} {es : List Event} {x : Exporter} → Reach ch_ids es x → AllKlipper x.usb
Reach-AllKlipper r = (Reach-Upward r 0).2
