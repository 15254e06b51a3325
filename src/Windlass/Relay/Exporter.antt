-- ===== src/Windlass/Relay/Exporter.antt =====
-- `run_exporter` of serialmux-rs/src/windlass/exporter.rs, from the opening of the UARTs on.
pub mod Delivery
use pik.Base.{
  ℕ, ◌≡◌, ◌≢◌, Bool, true, false, List, [], ◌∷◌, ◌++◌, Option, none, some, is_member, ◌==◌, update,
  if◌then◌else◌,
}
use pik.Windlass.Framing.{TunnelFrame, IsKlipperFrame}
use pik.Windlass.Relay.Host.{
  Client, receive, stop_reading, stop_writing, write_next, IsReading, IsWriting,
}

-- The two tasks of each UART, which are those of a connection: UART → USB reads and USB → UART
-- writes; the inbox is `uart_write_rx`. `uart_write_txs` has an entry for just the UARTs.
pub record Exporter : Type 0 where
  pub uarts : ℕ → Option Client
  pub usb : List TunnelFrame
  pub is_usb_open : Bool

pub data Event : Type 0 where
  -- `framed.next()` gives a frame, or an error or the end.
  uart_frame : (ch_id : ℕ) → List ℕ → Event
  uart_end : (ch_id : ℕ) → Event
  -- `framed_r.next()` gives a frame from the link.
  usb_frame : TunnelFrame → Event
  -- `write_all` returns.
  uart_written : (ch_id : ℕ) → Event
  uart_failed : (ch_id : ℕ) → Event
  -- The USB writer task breaks on an error.
  usb_failed : Event

abbrev pub adjust : (Client → Client) → Option Client → Option Client
adjust f none = none
adjust f (some k) = some (f k)

-- What one task does to its UART.
abbrev pub at_uart : (Client → Client) → ℕ → Exporter → Exporter
at_uart f ch_id x = record x { uarts = update x.uarts ch_id (adjust f (x.uarts ch_id)) }

-- `usb_tx_clone.send(tf)`
abbrev pub send_usb : List ℕ → ℕ → Bool → Exporter → Exporter
send_usb frame ch_id true x =
    let tf : TunnelFrame = record { ch_id = ch_id; frame = frame } in
    record x { usb = x.usb ++ (tf ∷ []) }
send_usb frame ch_id false x = at_uart stop_reading ch_id x

-- One turn of the loop over the frames of the link; a frame for an unknown channel is dropped.
unfoldable pub demux : TunnelFrame → Exporter → Exporter
demux tf x = at_uart (receive tf.frame) tf.ch_id x

unfoldable pub step : Event → Exporter → Exporter
step (uart_frame ch_id frame) x = send_usb frame ch_id x.is_usb_open x
step (uart_end ch_id) x = at_uart stop_reading ch_id x
step (usb_frame tf) x = demux tf x
step (uart_written ch_id) x = at_uart write_next ch_id x
step (uart_failed ch_id) x = at_uart stop_writing ch_id x
step usb_failed x = record x { is_usb_open = false }

-- When an event can happen. What the framer reads are Klipper frames.
abbrev pub IsEnabled : Event → Exporter → Type 0
IsEnabled (uart_frame ch_id frame) x = IsReading (x.uarts ch_id) × IsKlipperFrame frame
IsEnabled (uart_end ch_id) x = IsReading (x.uarts ch_id)
IsEnabled (usb_frame tf) x = Unit {0}
IsEnabled (uart_written ch_id) x = IsWriting (x.uarts ch_id)
IsEnabled (uart_failed ch_id) x = IsWriting (x.uarts ch_id)
IsEnabled usb_failed x = Unit {0}

abbrev pub open_uart : ℕ → Client
open_uart ch_id = record {
  ch_id = ch_id;
  inbox = [];
  written = [];
  is_reading = true;
  is_writing = true;
}

-- The UARTs are open and the tasks spawned.
unfoldable pub new : List ℕ → Exporter
new ch_ids = record {
  uarts = λ i. if is_member i ch_ids then some (open_uart i) else none;
  usb = [];
  is_usb_open = true;
}

-- The states that can be reached, with the events so far, the last one first.
pub data Reach (ch_ids : List ℕ) : List Event → Exporter → Type 0 where
  start : Reach ch_ids [] (new ch_ids)
  later :
      {es : List Event} {x : Exporter}
      → Reach ch_ids es x
      → (e : Event) → IsEnabled e x
      → Reach ch_ids (e ∷ es) (step e x)
