-- ===== src/Windlass/Relay/Host/Slots.antt =====
-- Who is served: the slots against the history, and what an event does to one connection.
use pik.Base.{
  ℕ, ◌≡◌, refl, ap, ◌∙◌, Bool, false, List, [], ◌∷◌, Option, none, some, ◌==◌, ==_iff, is_member,
  if◌then◌else◌, Bool-cases, Option-cases, inl, inr, arith, ◌&&◌, not,
}
use pik.Windlass.Relay.Host.{
  Client, Host, Event, connected, sock_frame, sock_end, usb_frame, sock_written, sock_failed,
  sock_closed, finished, usb_failed, with_client, connect, forward, receive, route, demux,
  stop_reading, write_next, stop_writing, finish, step, IsEnabled, new, Reach, start, later,
}

-- The connection that a channel serves after a history, the last event first.
abbrev pub current : ℕ → List Event → Option ℕ
current ch_id [] = none
current ch_id (connected i c ∷ es) =
    let rest = current ch_id es in if i == ch_id then some c else rest
current ch_id (finished i c ∷ es) = let rest = current ch_id es in if i == ch_id then none else rest
current ch_id (sock_frame c f ∷ es) = current ch_id es
current ch_id (sock_end c ∷ es) = current ch_id es
current ch_id (usb_frame tf ∷ es) = current ch_id es
current ch_id (sock_written c ∷ es) = current ch_id es
current ch_id (sock_failed c ∷ es) = current ch_id es
current ch_id (sock_closed c ∷ es) = current ch_id es
current ch_id (usb_failed ∷ es) = current ch_id es

with_client-slots : (f : Client → Client) (c : ℕ) (h : Host) → (with_client f c h).slots ≡ h.slots
with_client-slots f c h = elim (Option-cases (h.clients c)) [
  | inl e ↦ rw (e, with_client) refl
  | inr (k, e) ↦ rw (e, with_client) refl
]

forward-slots : (c : ℕ) (frame : List ℕ) (h : Host) → (forward c frame h).slots ≡ h.slots
unfolding forward
forward-slots c frame h = elim (Option-cases (h.clients c)) [
  | inl e ↦ rw (e, forward) refl
  | inr (k, e) ↦ elim (Bool-cases h.is_usb_open) [
    | inl o ↦ ground (arith, e, o)
    | inr o ↦ ground (arith, e, o)
  ]
]

route-slots :
    (o : Option (Option ℕ)) (frame : List ℕ) (h : Host) → (route o frame h).slots ≡ h.slots
route-slots none frame h = refl
route-slots (some none) frame h = refl
route-slots (some (some c)) frame h = with_client-slots (receive frame) c h

abbrev slot : List ℕ → ℕ → List Event → Option (Option ℕ)
slot ch_ids ch_id es = if is_member ch_id ch_ids then some (current ch_id es) else none

-- The table says whom each channel serves, and has an entry for just the channels.
pub slots-current :
    {ch_ids : List ℕ} {es : List Event} {h : Host}
    → Reach ch_ids es h
    → (ch_id : ℕ) → h.slots ch_id ≡ slot ch_ids ch_id es
unfolding step connect finish demux new
slots-current start i = ground arith
slots-current (later r (connected ch_id c) en) i =
    ground (arith, slots-current r i, slots-current r ch_id, ==_iff ch_id i)
slots-current (later r (finished ch_id c) en) i =
    ground (arith, slots-current r i, slots-current r ch_id, ==_iff ch_id i)
slots-current (later {h} r (sock_frame c f) en) i =
    ap (λ s. s i) (forward-slots c f h) ∙ slots-current r i
slots-current (later {h} r (sock_end c) en) i =
    ap (λ s. s i) (with_client-slots stop_reading c h) ∙ slots-current r i
slots-current (later {h} r (usb_frame tf) en) i =
    ap (λ s. s i) (route-slots (h.slots tf.ch_id) tf.frame h) ∙ slots-current r i
slots-current (later {h} r (sock_written c) en) i =
    ap (λ s. s i) (with_client-slots write_next c h) ∙ slots-current r i
slots-current (later {h} r (sock_failed c) en) i =
    ap (λ s. s i) (with_client-slots stop_writing c h) ∙ slots-current r i
slots-current (later {h} r (sock_closed c) en) i =
    ap (λ s. s i) (with_client-slots stop_writing c h) ∙ slots-current r i
slots-current (later r usb_failed en) i = slots-current r i

-- What `with_client` makes of each connection.
with_client_lem :
    (f : Client → Client) (c : ℕ) (h : Host) (i : ℕ) (k : Client)
    → h.clients i ≡ some k
    → (with_client f c h).clients i ≡ some (if c == i then f k else k)
with_client_lem f c h i k e = elim (Bool-cases (c == i)) [
  | inl q ↦
      let same : c ≡ i = ground arith in
      let here : h.clients c ≡ some k = ap h.clients same ∙ e in
      rw (here, with_client) (ground arith)
  | inr q ↦ elim (Option-cases (h.clients c)) [
    | inl z ↦ rw (z, with_client) (ground arith)
    | inr (k', z) ↦ rw (z, with_client) (ground arith)
  ]
]

-- What an event does to connection `i`, if its slot holds `s`.
abbrev pub is_client : ℕ → Option (Option ℕ) → Bool
is_client i none = false
is_client i (some none) = false
is_client i (some (some c)) = c == i

abbrev pub act : Event → Host → ℕ → Client → Client
act (connected ch_id c) h i k = k
act (sock_frame c frame) h i k = if c == i && not h.is_usb_open then stop_reading k else k
act (sock_end c) h i k = if c == i then stop_reading k else k
act (usb_frame tf) h i k = if is_client i (h.slots tf.ch_id) then receive tf.frame k else k
act (sock_written c) h i k = if c == i then write_next k else k
act (sock_failed c) h i k = if c == i then stop_writing k else k
act (sock_closed c) h i k = if c == i then stop_writing k else k
act (finished ch_id c) h i k = k
act usb_failed h i k = k

route_lem :
    (o : Option (Option ℕ)) (frame : List ℕ) (h : Host) (i : ℕ) (k : Client)
    → h.clients i ≡ some k
    → (route o frame h).clients i ≡ some (if is_client i o then receive frame k else k)
route_lem none frame h i k e = e
route_lem (some none) frame h i k e = e
route_lem (some (some c)) frame h i k e = with_client_lem (receive frame) c h i k e

forward_lem :
    (c : ℕ) (frame : List ℕ) (h : Host) (i : ℕ) (k : Client)
    → h.clients i ≡ some k
    → (forward c frame h).clients i
      ≡ some (if c == i && not h.is_usb_open then stop_reading k else k)
unfolding forward
forward_lem c frame h i k e = elim (Option-cases (h.clients c)) [
  | inl z ↦ rw (z, forward) (ground (arith, ==_iff c i))
  | inr (k', z) ↦ ground (arith, z, e, ==_iff c i)
]

pub step-act :
    (e : Event) (h : Host) (i : ℕ) (k : Client)
    → IsEnabled e h
    → h.clients i ≡ some k
    → (step e h).clients i ≡ some (act e h i k)
unfolding step connect finish demux
step-act (connected ch_id c) h i k en z = ground (arith, ==_iff c i)
step-act (sock_frame c frame) h i k en z = forward_lem c frame h i k z
step-act (sock_end c) h i k en z = with_client_lem stop_reading c h i k z
step-act (usb_frame tf) h i k en z = route_lem (h.slots tf.ch_id) tf.frame h i k z
step-act (sock_written c) h i k en z = with_client_lem write_next c h i k z
step-act (sock_failed c) h i k en z = with_client_lem stop_writing c h i k z
step-act (sock_closed c) h i k en z = with_client_lem stop_writing c h i k z
step-act (finished ch_id c) h i k en z = z
step-act usb_failed h i k en z = z

with_client-none :
    (f : Client → Client) (c : ℕ) (h : Host) (i : ℕ)
    → h.clients i ≡ none
    → (with_client f c h).clients i ≡ none
with_client-none f c h i e = elim (Option-cases (h.clients c)) [
  | inl z ↦ rw (z, with_client) e
  | inr (k, z) ↦ rw (z, with_client) (ground (arith, ==_iff c i))
]

forward-none :
    (c : ℕ) (frame : List ℕ) (h : Host) (i : ℕ)
    → h.clients i ≡ none
    → (forward c frame h).clients i ≡ none
unfolding forward
forward-none c frame h i e = elim (Option-cases (h.clients c)) [
  | inl z ↦ rw (z, forward) e
  | inr (k, z) ↦ ground (arith, z, e, ==_iff c i)
]

route-none :
    (o : Option (Option ℕ)) (frame : List ℕ) (h : Host) (i : ℕ)
    → h.clients i ≡ none
    → (route o frame h).clients i ≡ none
route-none none frame h i e = e
route-none (some none) frame h i e = e
route-none (some (some c)) frame h i e = with_client-none (receive frame) c h i e

-- Only an event by which it is accepted makes a connection.
abbrev pub connects : ℕ → Event → Bool
connects i (connected ch_id c) = c == i
connects i (sock_frame c f) = false
connects i (sock_end c) = false
connects i (usb_frame tf) = false
connects i (sock_written c) = false
connects i (sock_failed c) = false
connects i (sock_closed c) = false
connects i (finished ch_id c) = false
connects i usb_failed = false

pub step-none :
    (e : Event) (h : Host) (i : ℕ)
    → connects i e ≡ false
    → h.clients i ≡ none
    → (step e h).clients i ≡ none
unfolding step connect finish demux
step-none (connected ch_id c) h i n z = ground arith
step-none (sock_frame c frame) h i n z = forward-none c frame h i z
step-none (sock_end c) h i n z = with_client-none stop_reading c h i z
step-none (usb_frame tf) h i n z = route-none (h.slots tf.ch_id) tf.frame h i z
step-none (sock_written c) h i n z = with_client-none write_next c h i z
step-none (sock_failed c) h i n z = with_client-none stop_writing c h i z
step-none (sock_closed c) h i n z = with_client-none stop_writing c h i z
step-none (finished ch_id c) h i n z = z
step-none usb_failed h i n z = z

pub act-ch_id : (e : Event) (h : Host) (i : ℕ) (k : Client) → (act e h i k).ch_id ≡ k.ch_id
unfolding write_next
act-ch_id (connected ch_id c) h i k = refl
act-ch_id (sock_frame c frame) h i k = ground arith
act-ch_id (sock_end c) h i k = ground arith
act-ch_id (usb_frame tf) h i k = ground arith
act-ch_id (sock_written c) h i k = ground arith
act-ch_id (sock_failed c) h i k = ground arith
act-ch_id (sock_closed c) h i k = ground arith
act-ch_id (finished ch_id c) h i k = refl
act-ch_id usb_failed h i k = refl
