-- ===== src/Windlass/Relay/Host.antt =====
-- `run_host` and `handle_klipper_connection` of serialmux-rs/src/windlass/host.rs, from the binding
-- of the sockets on. A number stands for each connection that is accepted.
pub mod Sent
pub mod Slots
pub mod Delivery
pub mod Accepted
pub mod Upstream
use pik.Base.{
  ℕ, ◌≡◌, ◌≢◌, ◌⊎◌, Bool, true, false, List, [], ◌∷◌, ◌++◌, Option, none, some, is_member, update,
  if◌then◌else◌,
}
use pik.Windlass.Framing.{TunnelFrame, IsKlipperFrame}

-- The two tasks of one connection: `sock_to_usb` reads and `usb_to_sock` writes. The inbox is
-- `klipper_rx`, and `written` is what `write_all` wrote, in order.
pub record Client : Type 0 where
  pub ch_id : ℕ
  pub inbox : List (List ℕ)
  pub written : List (List ℕ)
  pub is_reading : Bool
  pub is_writing : Bool

-- `klipper_write_txs` with the client in each slot, the connections, what was sent to `usb_tx`, and
-- whether the USB writer task runs.
pub record Host : Type 0 where
  pub slots : ℕ → Option (Option ℕ)
  pub clients : ℕ → Option Client
  pub usb : List TunnelFrame
  pub is_usb_open : Bool

pub data Event : Type 0 where
  -- `listener.accept()` gives connection `c`, and its sender is put into the slot.
  connected : (ch_id c : ℕ) → Event
  -- `framed.next()` gives a frame, or an error or the end.
  sock_frame : (c : ℕ) → List ℕ → Event
  sock_end : (c : ℕ) → Event
  -- `framed_r.next()` gives a frame from the link.
  usb_frame : TunnelFrame → Event
  -- `write_all` returns; `recv` returns none.
  sock_written : (c : ℕ) → Event
  sock_failed : (c : ℕ) → Event
  sock_closed : (c : ℕ) → Event
  -- `select!` returns, and the slot is cleared.
  finished : (ch_id c : ℕ) → Event
  -- The USB writer task breaks on an error.
  usb_failed : Event

abbrev pub set_client : Host → ℕ → Client → Host
set_client h c k = record h { clients = update h.clients c (some k) }

-- What one task does to its connection.
abbrev pub with_client : (Client → Client) → ℕ → Host → Host
with_client f c h = elim (h.clients c) [ none ↦ h | some k ↦ set_client h c (f k) ]

unfoldable pub connect : ℕ → ℕ → Host → Host
connect ch_id c h =
    let k : Client = record {
      ch_id = ch_id;
      inbox = [];
      written = [];
      is_reading = true;
      is_writing = true;
    } in
    record h { slots = update h.slots ch_id (some (some c)); clients = update h.clients c (some k) }

-- `usb_tx_clone.send(tf)`, which fails when the writer task is gone.
abbrev pub send_usb : List ℕ → ℕ → Bool → Client → Host → Host
send_usb frame c true k h =
    let tf : TunnelFrame = record { ch_id = k.ch_id; frame = frame } in
    record h { usb = h.usb ++ (tf ∷ []) }
send_usb frame c false k h = set_client h c (record k { is_reading = false })

unfoldable pub forward : ℕ → List ℕ → Host → Host
forward c frame h = elim (h.clients c) [ none ↦ h | some k ↦ send_usb frame c h.is_usb_open k h ]

-- `tx.send(tf.frame)`, which fails when the task that receives is gone.
abbrev pub receive : List ℕ → Client → Client
receive frame k = if k.is_writing then record k { inbox = k.inbox ++ (frame ∷ []) } else k

abbrev pub route : Option (Option ℕ) → List ℕ → Host → Host
route none frame h = h
route (some none) frame h = h
route (some (some c)) frame h = with_client (receive frame) c h

-- One turn of the loop over the frames of the link.
unfoldable pub demux : TunnelFrame → Host → Host
demux tf h = route (h.slots tf.ch_id) tf.frame h

abbrev pub stop_reading : Client → Client
stop_reading k = record k { is_reading = false }

abbrev pub write_first : List (List ℕ) → Client → Client
write_first [] k = k
write_first (f ∷ fs) k = record k { inbox = fs; written = k.written ++ (f ∷ []) }

-- `write_all` of the frame that was received.
unfoldable pub write_next : Client → Client
write_next k = write_first k.inbox k

-- The task ends, and its receiver goes with all that it holds.
abbrev pub stop_writing : Client → Client
stop_writing k = record k { is_writing = false; inbox = [] }

unfoldable pub finish : ℕ → Host → Host
finish ch_id h = record h { slots = update h.slots ch_id (some none) }

unfoldable pub step : Event → Host → Host
step (connected ch_id c) h = connect ch_id c h
step (sock_frame c frame) h = forward c frame h
step (sock_end c) h = with_client stop_reading c h
step (usb_frame tf) h = demux tf h
step (sock_written c) h = with_client write_next c h
step (sock_failed c) h = with_client stop_writing c h
step (sock_closed c) h = with_client stop_writing c h
step (finished ch_id c) h = finish ch_id h
step usb_failed h = record h { is_usb_open = false }

-- A task of the connection that runs and has what it waits for.
abbrev pub IsReading : Option Client → Type 0
IsReading none = ⊥
IsReading (some k) = k.is_reading ≡ true

abbrev pub IsWriting : Option Client → Type 0
IsWriting none = ⊥
IsWriting (some k) = (k.is_writing ≡ true) × (k.inbox ≢ [])

abbrev pub IsDrained : Option Client → Type 0
IsDrained none = ⊥
IsDrained (some k) = (k.is_writing ≡ true) × (k.inbox ≡ [])

abbrev pub HasEnded : Option Client → Type 0
HasEnded none = ⊥
HasEnded (some k) = (k.is_reading ≡ false) ⊎ (k.is_writing ≡ false)

-- When an event can happen. A channel accepts a connection when it serves none; `recv` returns none
-- once the sender is out of the slot and all was received. What the framer reads are Klipper frames.
abbrev pub IsEnabled : Event → Host → Type 0
IsEnabled (connected ch_id c) h = (h.slots ch_id ≡ some none) × (h.clients c ≡ none)
IsEnabled (sock_frame c frame) h = IsReading (h.clients c) × IsKlipperFrame frame
IsEnabled (sock_end c) h = IsReading (h.clients c)
IsEnabled (usb_frame tf) h = Unit {0}
IsEnabled (sock_written c) h = IsWriting (h.clients c)
IsEnabled (sock_failed c) h = IsWriting (h.clients c)
IsEnabled (sock_closed c) h =
    IsDrained (h.clients c) × ((ch_id : ℕ) → h.slots ch_id ≢ some (some c))
IsEnabled (finished ch_id c) h = (h.slots ch_id ≡ some (some c)) × HasEnded (h.clients c)
IsEnabled usb_failed h = Unit {0}

-- The sockets are bound and nobody has connected.
unfoldable pub new : List ℕ → Host
new ch_ids = record {
  slots = λ i. if is_member i ch_ids then some none else none;
  clients = λ c. none;
  usb = [];
  is_usb_open = true;
}

-- The states that can be reached, with the events so far, the last one first.
pub data Reach (ch_ids : List ℕ) : List Event → Host → Type 0 where
  start : Reach ch_ids [] (new ch_ids)
  later :
      {es : List Event} {h : Host}
      → Reach ch_ids es h
      → (e : Event) → IsEnabled e h
      → Reach ch_ids (e ∷ es) (step e h)
