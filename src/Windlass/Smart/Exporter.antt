-- ===== src/Windlass/Smart/Exporter.antt =====
-- `run_smart_exporter` of serialmux-rs/src/windlass/smart_exporter.rs. The transport to each
-- microcontroller is the windlass crate's, and an event says what it did. A frame of the link may come
-- in before the last UART is open, which the code defers until then.
pub mod Upward
pub mod Relayed
pub mod Dictionaries
use pik.Base.{
  ℕ, ◌≡◌, ◌≢◌, Bool, true, false, List, [], ◌∷◌, ◌++◌, Option, none, some, ◌==◌, length, update,
  if◌then◌else◌,
}
use pik.Windlass.Framing.{PayloadTunnelFrame, ctrl_ch}
use pik.Windlass.Dictionary.{chunks_from, fragments}
use pik.Windlass.Smart.Pipe.{Pipe, empty, send, pass, close}
use pik.Windlass.Smart.Connection.{tunnelled}

-- The commands for each UART that is open, which its USB → MCU task hands to the transport, and
-- whether its MCU → USB task runs; what was sent to the USB writer, and whether that runs.
pub record Exporter : Type 0 where
  pub uart_cmd_txs : ℕ → Option (Pipe (List ℕ))
  pub is_reading : ℕ → Bool
  pub usb : List PayloadTunnelFrame
  pub is_usb_open : Bool

pub data Event : Type 0 where
  -- A turn of the loop over the channels, which has fetched the dictionary.
  opened : (ch_id : ℕ) → List ℕ → Event
  -- `payload_rx.recv()` gives a payload, or an error or none.
  mcu_payload : (ch_id : ℕ) → List ℕ → Event
  mcu_end : (ch_id : ℕ) → Event
  -- `framed_r.next()` gives a frame.
  usb_frame : PayloadTunnelFrame → Event
  -- `transport.send` returns for the next command.
  command_sent : (ch_id : ℕ) → Event
  command_failed : (ch_id : ℕ) → Event
  usb_failed : Event

-- What `send_dictionary` sends; the receiver waits for its task, so that no send fails.
abbrev pub transfer : ℕ → List ℕ → List PayloadTunnelFrame
transfer ch_id dictionary = fragments ch_id (chunks_from (length dictionary) dictionary)

unfoldable pub open_channel : ℕ → List ℕ → Exporter → Exporter
open_channel ch_id dictionary x = record x {
  uart_cmd_txs = update x.uart_cmd_txs ch_id (some empty);
  is_reading = update x.is_reading ch_id true;
  usb = x.usb ++ transfer ch_id dictionary;
}

-- `usb_tx_clone.send(frame)`
abbrev pub send_usb : Bool → ℕ → List ℕ → Exporter → Exporter
send_usb true ch_id payload x = record x { usb = x.usb ++ (tunnelled ch_id payload ∷ []) }
send_usb false ch_id payload x = record x { is_reading = update x.is_reading ch_id false }

abbrev pub adjust : {A : Type 0} → (A → A) → Option A → Option A
adjust f none = none
adjust f (some a) = some (f a)

-- What is done to the commands of one channel, if it is known.
abbrev pub at_channel : (Pipe (List ℕ) → Pipe (List ℕ)) → ℕ → Exporter → Exporter
at_channel f ch_id x = record x {
  uart_cmd_txs = update x.uart_cmd_txs ch_id (adjust f (x.uart_cmd_txs ch_id));
}

-- One turn of the main loop: a control frame is passed over.
unfoldable pub demux : PayloadTunnelFrame → Exporter → Exporter
demux pf x = if pf.ch_id == ctrl_ch then x else at_channel (send pf.payload) pf.ch_id x

unfoldable pub step : Event → Exporter → Exporter
step (opened ch_id dictionary) x = open_channel ch_id dictionary x
step (mcu_payload ch_id payload) x = send_usb x.is_usb_open ch_id payload x
step (mcu_end ch_id) x = record x { is_reading = update x.is_reading ch_id false }
step (usb_frame pf) x = demux pf x
step (command_sent ch_id) x = at_channel pass ch_id x
step (command_failed ch_id) x = at_channel close ch_id x
step usb_failed x = record x { is_usb_open = false }

abbrev pub HasCommand : Option (Pipe (List ℕ)) → Type 0
HasCommand none = ⊥
HasCommand (some p) = p.waiting ≢ []

-- When an event can happen. The USB writer is spawned after the last channel was opened, and no
-- channel has the id of the control channel.
abbrev pub IsEnabled : Event → Exporter → Type 0
IsEnabled (opened ch_id dictionary) x =
    (x.uart_cmd_txs ch_id ≡ none) × ((ch_id == ctrl_ch) ≡ false) × (x.is_usb_open ≡ true)
IsEnabled (mcu_payload ch_id payload) x = (x.is_reading ch_id ≡ true) × ((ch_id == ctrl_ch) ≡ false)
IsEnabled (mcu_end ch_id) x = x.is_reading ch_id ≡ true
IsEnabled (usb_frame pf) x = Unit {0}
IsEnabled (command_sent ch_id) x = HasCommand (x.uart_cmd_txs ch_id)
IsEnabled (command_failed ch_id) x = HasCommand (x.uart_cmd_txs ch_id)
IsEnabled usb_failed x = Unit {0}

unfoldable pub new : Exporter
new = record { uart_cmd_txs = λ i. none; is_reading = λ i. false; usb = []; is_usb_open = true }

-- The states that can be reached, with the events so far, the last one first.
pub data Reach : List Event → Exporter → Type 0 where
  start : Reach [] new
  later :
      {es : List Event} {x : Exporter}
      → Reach es x
      → (e : Event) → IsEnabled e x
      → Reach (e ∷ es) (step e x)
