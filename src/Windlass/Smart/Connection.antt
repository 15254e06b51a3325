-- ===== src/Windlass/Smart/Connection.antt =====
-- `handle_klipper_smart_connection` of serialmux-rs/src/windlass/smart_host.rs, from the registration
-- in the slot on, and the frames that the main loop of `run_smart_host` reads. The transport is the
-- anchor crate's: an event says what `receive` did, and a payload stands for the bytes that
-- `encode_frame` makes of it.
pub mod Decoded
pub mod Relayed
pub mod Demux
use pik.Base.{
  ℕ, ◌≡◌, ◌≢◌, Bool, true, false, List, [], ◌∷◌, ◌++◌, Option, none, some, ◌==◌, update,
  if◌then◌else◌,
}
use pik.Windlass.Framing.{PayloadTunnelFrame, ctrl_ch}
use pik.Windlass.Smart.Pipe.{Pipe, empty, send, send_all, pass, close}
use pik.Windlass.Smart.Proxy.{Vlq, ProxyContext, dispatch_raw}

-- What the transport puts out: bytes of its own, such as an acknowledgement, or a framed payload.
pub data Output : Type 0 where
  bytes : List ℕ → Output
  framed : List ℕ → Output

-- The channels between the tasks, and whether the relay loop runs. `usb` holds what was sent to the
-- USB writer.
pub record Connection : Type 0 where
  pub ch_id : ℕ
  pub dictionary : List ℕ
  pub to_klipper : Pipe Output
  pub to_exporter : Pipe (List ℕ)
  pub from_mcu : Pipe (List ℕ)
  pub usb : List PayloadTunnelFrame
  pub is_usb_open : Bool
  pub is_relaying : Bool

pub data Event : Type 0 where
  -- `read` gives bytes: `receive` puts out the first and calls `dispatch_raw` with each of the second.
  sock_read : List (List ℕ) → List (List ℕ) → Event
  -- `read` gives an error or the end.
  sock_end : Event
  -- The main loop sends a payload through the slot.
  routed : List ℕ → Event
  -- `from_mcu_rx.recv()` gives a payload, or none.
  mcu_payload : List ℕ → Event
  mcu_end : Event
  -- `write_all` returns.
  sock_written : Event
  sock_failed : Event
  -- The forwarding task receives a command; the USB writer task is gone.
  forwarded : Event
  usb_failed : Event
  -- What stands after the relay loop.
  cleaned_up : Event

-- `receive` calls `dispatch_raw` with each frame.
abbrev pub dispatch_all : Vlq → List (List ℕ) → ProxyContext → ProxyContext
dispatch_all v [] ctx = ctx
dispatch_all v (f ∷ fs) ctx = dispatch_all v fs (dispatch_raw v f ctx).1.1

abbrev pub fresh : List ℕ → ProxyContext
fresh dict = record { dictionary = dict; to_exporter = []; pending_responses = [] }

abbrev pub map : {A B : Type 0} → (A → B) → List A → List B
map f [] = []
map f (x ∷ xs) = f x ∷ map f xs

-- The branch of `select!` that reads the socket. Nothing is pending before `receive`.
unfoldable pub relay : Vlq → List (List ℕ) → List (List ℕ) → Connection → Connection
relay v outs fs k =
    let ctx = dispatch_all v fs (fresh k.dictionary) in
    record k {
      to_exporter = send_all ctx.to_exporter k.to_exporter;
      to_klipper =
          send_all (map framed ctx.pending_responses) (send_all (map bytes outs) k.to_klipper);
    }

-- The branch that receives from the microcontroller.
unfoldable pub answer_with : List ℕ → Connection → Connection
answer_with p k = record k { to_klipper = send (framed p) k.to_klipper }

abbrev pub tunnelled : ℕ → List ℕ → PayloadTunnelFrame
tunnelled ch_id payload = record { ch_id = ch_id; payload = payload }

abbrev pub send_usb : Bool → List (List ℕ) → Connection → Connection
send_usb b [] k = k
send_usb true (p ∷ ps) k = record k {
  to_exporter = pass k.to_exporter;
  usb = k.usb ++ (tunnelled k.ch_id p ∷ []);
}
send_usb false (p ∷ ps) k = record k { to_exporter = close k.to_exporter }

-- One turn of the task that forwards decoded commands.
unfoldable pub forward : Connection → Connection
forward k = send_usb k.is_usb_open k.to_exporter.waiting k

-- Both tasks are aborted, and `from_mcu_rx` is dropped with what waits in it.
unfoldable pub clean_up : Connection → Connection
clean_up k = record k {
  to_klipper = close k.to_klipper;
  to_exporter = close k.to_exporter;
  from_mcu = close k.from_mcu;
}

unfoldable pub step : Vlq → Event → Connection → Connection
step v (sock_read outs fs) k = relay v outs fs k
step v sock_end k = record k { is_relaying = false }
step v (routed p) k = record k { from_mcu = send p k.from_mcu }
step v (mcu_payload p) k = answer_with p (record k { from_mcu = pass k.from_mcu })
step v mcu_end k = record k { is_relaying = false }
step v sock_written k = record k { to_klipper = pass k.to_klipper }
step v sock_failed k = record k { to_klipper = close k.to_klipper }
step v forwarded k = forward k
step v usb_failed k = record k { is_usb_open = false }
step v cleaned_up k = clean_up k

-- When an event can happen. The slot keeps a sender while the relay loop runs, so `recv` gives none
-- at no time then.
abbrev pub IsEnabled : Event → Connection → Type 0
IsEnabled (sock_read outs fs) k = k.is_relaying ≡ true
IsEnabled sock_end k = k.is_relaying ≡ true
IsEnabled (routed p) k = Unit {0}
IsEnabled (mcu_payload p) k =
    (k.is_relaying ≡ true) × ((ps : List (List ℕ)) × (k.from_mcu.waiting ≡ p ∷ ps))
IsEnabled mcu_end k = ⊥
IsEnabled sock_written k = k.to_klipper.waiting ≢ []
IsEnabled sock_failed k = k.to_klipper.waiting ≢ []
IsEnabled forwarded k = k.to_exporter.waiting ≢ []
IsEnabled usb_failed k = Unit {0}
IsEnabled cleaned_up k = k.is_relaying ≡ false

unfoldable pub new : ℕ → List ℕ → Connection
new ch_id dict = record {
  ch_id = ch_id;
  dictionary = dict;
  to_klipper = empty;
  to_exporter = empty;
  from_mcu = empty;
  usb = [];
  is_usb_open = true;
  is_relaying = true;
}

-- The states that can be reached, with the events so far, the last one first.
pub data Reach (v : Vlq) (ch_id : ℕ) (dict : List ℕ) : List Event → Connection → Type 0 where
  start : Reach v ch_id dict [] (new ch_id dict)
  later :
      {es : List Event} {k : Connection}
      → Reach v ch_id dict es k
      → (e : Event) → IsEnabled e k
      → Reach v ch_id dict (e ∷ es) (step v e k)

-- The slot of each channel, with the connection that is in it, and what was sent to the task that
-- gathers dictionaries.
pub record SmartHost : Type 0 where
  pub slots : ℕ → Option (Option Connection)
  pub gathered : List (List ℕ)

abbrev pub route : Vlq → Option (Option Connection) → PayloadTunnelFrame → SmartHost → SmartHost
route v none pf h = h
route v (some none) pf h = h
route v (some (some k)) pf h = record h {
  slots = update h.slots pf.ch_id (some (some (step v (routed pf.payload) k)));
}

-- One turn of the main loop. The id of the control channel stands first.
unfoldable pub demux : Vlq → PayloadTunnelFrame → SmartHost → SmartHost
demux v pf h =
    if pf.ch_id == ctrl_ch
    then record h { gathered = h.gathered ++ (pf.payload ∷ []) }
    else route v (h.slots pf.ch_id) pf h
