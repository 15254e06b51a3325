-- ===== src/Windlass/Relay/Host/Upstream.antt =====
-- What the host sends over the link.
use pik.Base.{
  one_if, ℕ, ◌≡◌, refl, ap, sym, subst, ◌∙◌, Bool, true, false, List, [], ◌∷◌, ◌++◌, Option, none,
  some, ◌==◌, Bool-cases, Option-cases, inl, inr, arith, ◌&&◌, append-nil,
}
use pik.Windlass.Framing.{TunnelFrame, IsKlipperFrame}
use pik.Windlass.Relay.Host.{
  Client, Host, Event, connected, sock_frame, sock_end, usb_frame, sock_written, sock_failed,
  sock_closed, finished, usb_failed, receive, stop_reading, write_next, stop_writing, step, connect,
  forward, send_usb, demux, finish, route, with_client, Reach, start, later, new,
}
use pik.Windlass.Relay.Host.Accepted.{channel_of, channel, Reach-channel}

abbrev pub is_usb_up : List Event → Bool
is_usb_up [] = true
is_usb_up (usb_failed ∷ es) = false
is_usb_up (connected i d ∷ es) = is_usb_up es
is_usb_up (finished i d ∷ es) = is_usb_up es
is_usb_up (sock_frame d f ∷ es) = is_usb_up es
is_usb_up (sock_end d ∷ es) = is_usb_up es
is_usb_up (usb_frame tf ∷ es) = is_usb_up es
is_usb_up (sock_written d ∷ es) = is_usb_up es
is_usb_up (sock_failed d ∷ es) = is_usb_up es
is_usb_up (sock_closed d ∷ es) = is_usb_up es

abbrev pub is_on : ℕ → Option ℕ → Bool
is_on ch_id none = false
is_on ch_id (some i) = i == ch_id

-- The frames read from the connections of a channel, while the USB writer task ran.
abbrev pub read_on : ℕ → List Event → List (List ℕ)
read_on ch_id [] = []
read_on ch_id (sock_frame c frame ∷ es) =
    let rest = read_on ch_id es in
    rest ++ one_if (is_on ch_id (channel_of c es) && is_usb_up es) frame
read_on ch_id (connected i d ∷ es) = read_on ch_id es
read_on ch_id (finished i d ∷ es) = read_on ch_id es
read_on ch_id (sock_end d ∷ es) = read_on ch_id es
read_on ch_id (usb_frame tf ∷ es) = read_on ch_id es
read_on ch_id (sock_written d ∷ es) = read_on ch_id es
read_on ch_id (sock_failed d ∷ es) = read_on ch_id es
read_on ch_id (sock_closed d ∷ es) = read_on ch_id es
read_on ch_id (usb_failed ∷ es) = read_on ch_id es

-- The frames with a channel's id.
abbrev pub frames_for : ℕ → List TunnelFrame → List (List ℕ)
frames_for ch_id [] = []
frames_for ch_id (tf ∷ l) = one_if (tf.ch_id == ch_id) tf.frame ++ frames_for ch_id l

pub frames_for-snoc :
    (ch_id : ℕ) (l : List TunnelFrame) (tf : TunnelFrame)
    → frames_for ch_id (l ++ (tf ∷ [])) ≡ frames_for ch_id l ++ one_if (tf.ch_id == ch_id) tf.frame
frames_for-snoc ch_id [] tf = append-nil (one_if (tf.ch_id == ch_id) tf.frame)
frames_for-snoc ch_id (t ∷ l) tf =
    let rest = frames_for-snoc ch_id l tf in
    elim (Bool-cases (t.ch_id == ch_id)) [
      | inl e ↦ rw e (ap (◌∷◌ t.frame) rest)
      | inr e ↦ rw e rest
    ]

-- The list of what was sent to the USB writer, and whether it runs, after each event.
with_client-usb :
    (f : Client → Client) (c : ℕ) (h : Host)
    → ((with_client f c h).usb ≡ h.usb) × ((with_client f c h).is_usb_open ≡ h.is_usb_open)
with_client-usb f c h = elim (Option-cases (h.clients c)) [
  | inl e ↦ rw (e, with_client) (refl, refl)
  | inr (k, e) ↦ rw (e, with_client) (refl, refl)
]

route-usb :
    (o : Option (Option ℕ)) (frame : List ℕ) (h : Host)
    → ((route o frame h).usb ≡ h.usb) × ((route o frame h).is_usb_open ≡ h.is_usb_open)
route-usb none frame h = (refl, refl)
route-usb (some none) frame h = (refl, refl)
route-usb (some (some c)) frame h = with_client-usb (receive frame) c h

abbrev Upward : ℕ → List Event → Host → Type 0
Upward ch_id es h = (frames_for ch_id h.usb ≡ read_on ch_id es) × (h.is_usb_open ≡ is_usb_up es)

-- An event that sends nothing to the USB writer.
same-Upward :
    (ch_id : ℕ) (es : List Event) (h h' : Host)
    → (h'.usb ≡ h.usb) × (h'.is_usb_open ≡ h.is_usb_open)
    → Upward ch_id es h
    → Upward ch_id es h'
same-Upward ch_id es h h' (a, b) (p, q) = (ap (frames_for ch_id) a ∙ p, b ∙ q)

send_usb-frames :
    (ch_id : ℕ) (h : Host) (c : ℕ) (frame : List ℕ) (k : Client) (b : Bool)
    → (frames_for ch_id (send_usb frame c b k h).usb
        ≡ frames_for ch_id h.usb ++ one_if (k.ch_id == ch_id && b) frame)
      × ((send_usb frame c b k h).is_usb_open ≡ h.is_usb_open)
send_usb-frames ch_id h c frame k true =
    let tf : TunnelFrame = record { ch_id = k.ch_id; frame = frame } in
    let found = frames_for-snoc ch_id h.usb tf in
    (
      elim (Bool-cases (k.ch_id == ch_id)) [
        | inl e ↦ rw e (ground (arith, found, e))
        | inr e ↦ rw e (ground (arith, found, e))
      ],
      refl,
    )
send_usb-frames ch_id h c frame k false = (
  elim (Bool-cases (k.ch_id == ch_id)) [
    | inl e ↦ rw e (sym (append-nil (frames_for ch_id h.usb)))
    | inr e ↦ rw e (sym (append-nil (frames_for ch_id h.usb)))
  ],
  refl,
)

forward-Upward :
    (es : List Event) (ch_id : ℕ) (h : Host) (c : ℕ) (frame : List ℕ)
    → channel (h.clients c) ≡ channel_of c es
    → Upward ch_id es h
    → Upward ch_id (sock_frame c frame ∷ es) (forward c frame h)
unfolding forward
forward-Upward es ch_id h c frame k (p, q) = elim (Option-cases (h.clients c)) [
  | inl z ↦
      let no_channel : channel_of c es ≡ none = sym k ∙ ap channel z in
      rw (z, forward) (rw no_channel (p ∙ sym (append-nil (read_on ch_id es)), q))
  | inr (x, z) ↦
      let on : channel_of c es ≡ some x.ch_id = sym k ∙ ap channel z in
      let sent = send_usb-frames ch_id h c frame x h.is_usb_open in
      rw (z, forward)
        (rw on (
          sent.0
              ∙ ap (λ (l : List (List ℕ)). l ++ one_if (x.ch_id == ch_id && h.is_usb_open) frame) p
              ∙ ap (λ b. read_on ch_id es ++ one_if (x.ch_id == ch_id && b) frame) q,
          sent.1 ∙ q,
        ))
]

Reach-Upward :
    {ch_ids : List ℕ} {es : List Event} {h : Host}
    → Reach ch_ids es h
    → (ch_id : ℕ) → Upward ch_id es h
unfolding step connect finish demux new
Reach-Upward start i = (refl, refl)
Reach-Upward (later r (connected ch_id c) en) i = Reach-Upward r i
Reach-Upward (later r (finished ch_id c) en) i = Reach-Upward r i
Reach-Upward (later {es} {h} r (sock_frame c f) en) i =
    forward-Upward es i h c f (Reach-channel r c) (Reach-Upward r i)
Reach-Upward (later {es} {h} r (sock_end c) en) i =
    same-Upward i es h (with_client stop_reading c h) (with_client-usb stop_reading c h)
      (Reach-Upward r i)
Reach-Upward (later {es} {h} r (usb_frame tf) en) i =
    same-Upward i es h (route (h.slots tf.ch_id) tf.frame h)
      (route-usb (h.slots tf.ch_id) tf.frame h) (Reach-Upward r i)
Reach-Upward (later {es} {h} r (sock_written c) en) i =
    same-Upward i es h (with_client write_next c h) (with_client-usb write_next c h)
      (Reach-Upward r i)
Reach-Upward (later {es} {h} r (sock_failed c) en) i =
    same-Upward i es h (with_client stop_writing c h) (with_client-usb stop_writing c h)
      (Reach-Upward r i)
Reach-Upward (later {es} {h} r (sock_closed c) en) i =
    same-Upward i es h (with_client stop_writing c h) (with_client-usb stop_writing c h)
      (Reach-Upward r i)
Reach-Upward (later r usb_failed en) i = ((Reach-Upward r i).0, refl)

abbrev pub AllKlipper : List TunnelFrame → Type 0
AllKlipper [] = Unit {0}
AllKlipper (tf ∷ l) = IsKlipperFrame tf.frame × AllKlipper l

pub AllKlipper-snoc :
    (l : List TunnelFrame) (tf : TunnelFrame)
    → AllKlipper l
    → IsKlipperFrame tf.frame
    → AllKlipper (l ++ (tf ∷ []))
AllKlipper-snoc [] tf h k = (k, tt)
AllKlipper-snoc (t ∷ l) tf h k = (h.0, AllKlipper-snoc l tf h.1 k)

send_usb-AllKlipper :
    (frame : List ℕ) (c : ℕ) (b : Bool) (k : Client) (h : Host)
    → IsKlipperFrame frame
    → AllKlipper h.usb
    → AllKlipper (send_usb frame c b k h).usb
send_usb-AllKlipper frame c true k h v a =
    let tf : TunnelFrame = record { ch_id = k.ch_id; frame = frame } in AllKlipper-snoc h.usb tf a v
send_usb-AllKlipper frame c false k h v a = a

forward-AllKlipper :
    (c : ℕ) (frame : List ℕ) (h : Host)
    → IsKlipperFrame frame
    → AllKlipper h.usb
    → AllKlipper (forward c frame h).usb
unfolding forward
forward-AllKlipper c frame h v a = elim (Option-cases (h.clients c)) [
  | inl z ↦ rw (z, forward) a
  | inr (k, z) ↦ rw (z, forward) (send_usb-AllKlipper frame c h.is_usb_open k h v a)
]

pub Reach-AllKlipper :
    {ch_ids : List ℕ} {es : List Event} {h : Host} → Reach ch_ids es h → AllKlipper h.usb
unfolding step connect finish demux new
Reach-AllKlipper start = tt
Reach-AllKlipper (later r (connected ch_id c) en) = Reach-AllKlipper r
Reach-AllKlipper (later r (finished ch_id c) en) = Reach-AllKlipper r
Reach-AllKlipper (later {h} r (sock_frame c f) en) =
    forward-AllKlipper c f h en.1 (Reach-AllKlipper r)
Reach-AllKlipper (later {h} r (sock_end c) en) =
    subst AllKlipper (sym (with_client-usb stop_reading c h).0) (Reach-AllKlipper r)
Reach-AllKlipper (later {h} r (usb_frame tf) en) =
    subst AllKlipper (sym (route-usb (h.slots tf.ch_id) tf.frame h).0) (Reach-AllKlipper r)
Reach-AllKlipper (later {h} r (sock_written c) en) =
    subst AllKlipper (sym (with_client-usb write_next c h).0) (Reach-AllKlipper r)
Reach-AllKlipper (later {h} r (sock_failed c) en) =
    subst AllKlipper (sym (with_client-usb stop_writing c h).0) (Reach-AllKlipper r)
Reach-AllKlipper (later {h} r (sock_closed c) en) =
    subst AllKlipper (sym (with_client-usb stop_writing c h).0) (Reach-AllKlipper r)
Reach-AllKlipper (later r usb_failed en) = Reach-AllKlipper r

-- In every state that the tasks of the host can reach, the frames sent to the USB writer with a
-- channel's id are those read from the connections of that channel while the writer ran, in the
-- order in which they were read.
pub Reach-frames :
    {ch_ids : List ℕ} {es : List Event} {h : Host}
    → Reach ch_ids es h
    → (ch_id : ℕ) → frames_for ch_id h.usb ≡ read_on ch_id es
Reach-frames r ch_id = (Reach-Upward r ch_id).0
