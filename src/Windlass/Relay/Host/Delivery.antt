-- ===== src/Windlass/Relay/Host/Delivery.antt =====
-- What a connection gets of the frames of the link.
use pik.Base.{
  one_if, ℕ, ◌≡◌, refl, ap, sym, subst, ◌∙◌, Bool, true, false, List, [], ◌∷◌, ◌++◌, Option, none,
  some, ◌==◌, ==_iff, is_member, Bool-cases, Option-cases, inl, inr, arith, ◌&&◌, not,
}
use pik.Windlass.Relay.Host.{
  Client, Host, Event, connected, sock_frame, sock_end, usb_frame, sock_written, sock_failed,
  sock_closed, finished, usb_failed, stop_reading, write_next, stop_writing, step, connect,
  IsEnabled, Reach, start, later, new,
}
use pik.Windlass.Relay.Host.Sent.{
  Sent, Sent-receive_if, Sent-write_next, Sent-stop_writing, Sent-if,
}
use pik.Windlass.Relay.Host.Slots.{
  current, slots-current, act, step-act, is_client, connects, step-none, act-ch_id,
}

abbrev pub is_served : ℕ → Option ℕ → Bool
is_served c none = false
is_served c (some i) = i == c

-- The frames of a channel that came in while the channel served connection `c`.
abbrev pub routed : ℕ → ℕ → List Event → List (List ℕ)
routed c ch_id [] = []
routed c ch_id (usb_frame tf ∷ es) =
    let rest = routed c ch_id es in
    rest ++ one_if (tf.ch_id == ch_id && is_served c (current ch_id es)) tf.frame
routed c ch_id (connected i d ∷ es) = routed c ch_id es
routed c ch_id (finished i d ∷ es) = routed c ch_id es
routed c ch_id (sock_frame d f ∷ es) = routed c ch_id es
routed c ch_id (sock_end d ∷ es) = routed c ch_id es
routed c ch_id (sock_written d ∷ es) = routed c ch_id es
routed c ch_id (sock_failed d ∷ es) = routed c ch_id es
routed c ch_id (sock_closed d ∷ es) = routed c ch_id es
routed c ch_id (usb_failed ∷ es) = routed c ch_id es

-- No connection is served before it was accepted, nor on another channel than its own.
current-member :
    {ch_ids : List ℕ} {es : List Event} {h : Host}
    → Reach ch_ids es h
    → (ch_id c : ℕ) → current ch_id es ≡ some c
    → is_member ch_id ch_ids ≡ true
current-member start i c e = absurd (cc e)
current-member (later r (connected ch_id d) en) i c e =
    ground (arith, slots-current r ch_id, current-member r i c, ==_iff ch_id i)
current-member (later r (finished ch_id d) en) i c e = ground (arith, current-member r i c)
current-member (later r (sock_frame d f) en) i c e = current-member r i c e
current-member (later r (sock_end d) en) i c e = current-member r i c e
current-member (later r (usb_frame tf) en) i c e = current-member r i c e
current-member (later r (sock_written d) en) i c e = current-member r i c e
current-member (later r (sock_failed d) en) i c e = current-member r i c e
current-member (later r (sock_closed d) en) i c e = current-member r i c e
current-member (later r usb_failed en) i c e = current-member r i c e

served :
    {ch_ids : List ℕ} {es : List Event} {h : Host}
    → Reach ch_ids es h
    → (ch_id c : ℕ) → is_client c (h.slots ch_id) ≡ is_served c (current ch_id es)
served {es} r ch_id c = elim (Option-cases (current ch_id es)) [
  | inl z ↦ rw (slots-current r ch_id, z) (ground arith)
  | inr (d, z) ↦ rw (slots-current r ch_id, z, current-member r ch_id d z) refl
]

abbrev SeenBy : ℕ → List Event → ℕ → Client → Type 0
SeenBy c es i k =
    Sent (routed c i es) k × ((ch_id : ℕ) → is_served c (current ch_id es) ≡ true → ch_id ≡ i)

abbrev Seen : ℕ → List Event → Option Client → Type 0
Seen c es none = (ch_id : ℕ) → (routed c ch_id es ≡ []) × (is_served c (current ch_id es) ≡ false)
Seen c es (some k) = SeenBy c es k.ch_id k

act-SeenBy :
    {ch_ids : List ℕ} {es : List Event} {h : Host}
    → Reach ch_ids es h
    → (e : Event) (c i : ℕ) (k : Client) → IsEnabled e h
    → h.clients c ≡ some k
    → SeenBy c es i k
    → SeenBy c (e ∷ es) i (act e h c k)
act-SeenBy {es} r (connected ch_id d) c i k en z (s, own) =
    (s, λ j q. ground (arith, own j, ==_iff d c, en.1, z))
act-SeenBy r (finished ch_id d) c i k en z (s, own) = (s, λ j q. ground (arith, own j))
act-SeenBy {es} {h} r (sock_frame d f) c i k en z (s, own) =
    (Sent-if (d == c && not h.is_usb_open) stop_reading (routed c i es) k s s, own)
act-SeenBy {es} r (sock_end d) c i k en z (s, own) =
    (Sent-if (d == c) stop_reading (routed c i es) k s s, own)
act-SeenBy {es} {h} r (usb_frame tf) c i k en z (s, own) =
    let same : (tf.ch_id == i && is_served c (current i es)) ≡ is_client c (h.slots tf.ch_id) =
      elim (Bool-cases (tf.ch_id == i)) [
        | inl q ↦
            let e : tf.ch_id ≡ i = ground arith in
            rw q (ap (λ j. is_served c (current j es)) (sym e) ∙ sym (served r tf.ch_id c))
        | inr q ↦ rw q (ground (arith, served r tf.ch_id c, own tf.ch_id))
      ] in
    (
      subst (λ b. Sent (routed c i es ++ one_if b tf.frame) (act (usb_frame tf) h c k)) (sym same)
          (Sent-receive_if (is_client c (h.slots tf.ch_id)) tf.frame (routed c i es) k s),
      own,
    )
act-SeenBy {es} r (sock_written d) c i k en z (s, own) =
    (Sent-if (d == c) write_next (routed c i es) k (Sent-write_next (routed c i es) k s) s, own)
act-SeenBy {es} r (sock_failed d) c i k en z (s, own) =
    (Sent-if (d == c) stop_writing (routed c i es) k (Sent-stop_writing (routed c i es) k s) s, own)
act-SeenBy {es} r (sock_closed d) c i k en z (s, own) =
    (Sent-if (d == c) stop_writing (routed c i es) k (Sent-stop_writing (routed c i es) k s) s, own)
act-SeenBy r usb_failed c i k en z (s, own) = (s, own)

abbrev Unseen : ℕ → List Event → Type 0
Unseen c es = (ch_id : ℕ) → (routed c ch_id es ≡ []) × (is_served c (current ch_id es) ≡ false)

step-Unseen :
    (e : Event) (c : ℕ) (es : List Event) → connects c e ≡ false → Unseen c es → Unseen c (e ∷ es)
step-Unseen (connected i d) c es n h = λ j. ((h j).0, ground (arith, h j))
step-Unseen (finished i d) c es n h = λ j. ((h j).0, ground (arith, h j))
step-Unseen (sock_frame d f) c es n h = h
step-Unseen (sock_end d) c es n h = h
step-Unseen (usb_frame tf) c es n h = λ j. (ground (arith, h j), (h j).1)
step-Unseen (sock_written d) c es n h = h
step-Unseen (sock_failed d) c es n h = h
step-Unseen (sock_closed d) c es n h = h
step-Unseen usb_failed c es n h = h

connect-Seen :
    {ch_ids : List ℕ} (e : Event) (h : Host) (c : ℕ) (es : List Event)
    → Reach ch_ids es h
    → connects c e ≡ true
    → Unseen c es
    → Seen c (e ∷ es) ((step e h).clients c)
unfolding step connect
connect-Seen (connected i d) h c es r n u =
    let fresh : Client = record {
      ch_id = i;
      inbox = [];
      written = [];
      is_reading = true;
      is_writing = true;
    } in
    let new_client : (step (connected i d) h).clients c ≡ some fresh = ground arith in
    subst (Seen c (connected i d ∷ es)) (sym new_client)
      (([], (u i).0, refl), λ j q. ground (arith, u j, ==_iff i j))
connect-Seen (finished i d) h c es r n u = cc
connect-Seen (sock_frame d f) h c es r n u = cc
connect-Seen (sock_end d) h c es r n u = cc
connect-Seen (usb_frame tf) h c es r n u = cc
connect-Seen (sock_written d) h c es r n u = cc
connect-Seen (sock_failed d) h c es r n u = cc
connect-Seen (sock_closed d) h c es r n u = cc
connect-Seen usb_failed h c es r n u = cc

Reach-Seen :
    {ch_ids : List ℕ} {es : List Event} {h : Host}
    → Reach ch_ids es h
    → (c : ℕ) → Seen c es (h.clients c)
unfolding new
Reach-Seen start c = λ i. (refl, refl)
Reach-Seen (later {es} {h} r e en) c = elim (Option-cases (h.clients c)) [
  | inl z ↦
      let u : Unseen c es = subst (Seen c es) z (Reach-Seen r c) in
      elim (Bool-cases (connects c e)) [
        | inl n ↦ connect-Seen e h c es r n u
        | inr n ↦ subst (Seen c (e ∷ es)) (sym (step-none e h c n z)) (step-Unseen e c es n u)
      ]
  | inr (k, z) ↦
      let before : SeenBy c es k.ch_id k = subst (Seen c es) z (Reach-Seen r c) in
      subst (Seen c (e ∷ es)) (sym (step-act e h c k en z)) (
        subst (λ i. SeenBy c (e ∷ es) i (act e h c k)) (sym (act-ch_id e h c k))
          (act-SeenBy r e c k.ch_id k en z before))
]

-- In every state that the tasks of the host can reach, the socket of a connection was written the
-- frames that came in from the link for its channel while the channel served it, in their order, and
-- no others; the next of them wait, and the others are lost. None is lost while the task that writes
-- the socket runs.
pub Reach-Sent :
    {ch_ids : List ℕ} {es : List Event} {h : Host}
    → Reach ch_ids es h
    → (c : ℕ) (k : Client) → h.clients c ≡ some k
    → Sent (routed c k.ch_id es) k
Reach-Sent {es} r c k e =
    let seen : SeenBy c es k.ch_id k = subst (Seen c es) e (Reach-Seen r c) in seen.0
