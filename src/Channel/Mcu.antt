-- ===== src/Channel/Mcu.antt =====
-- `McuChannel` of serialmux-rs/src/channel.rs: a UART on the exporter's side. `device` and `baud`
-- are only handed to `open_serial_fd`, whose result is an argument here.
pub mod Armed
pub mod Conforms
pub mod Laws
mod Tests
use pik.Base.{
  ℕ, ◌+◌, ◌-◌, Bool, true, false, not, List, [], ◌∷◌, ◌++◌, Option, none, some, ltb, leb, ◌==◌,
  ◌&&◌, if◌then◌else◌, drop, is_empty,
}
use pik.Protocol.{f_data, f_flush, f_ready, klipper_sync}
use pik.Channel.Token.{primary_token}
use pik.Channel.Effect.{
  Interest, readable, writable, both, Effect, send, reg_add, reg_mod, reg_del, close_raw, ◌▷◌,
  ReadResult, would_block, got, read_err, WriteResult, wrote, write_err,
}

pub data McuState : Type 0 where
  init active resetting : McuState

pub record McuChannel : Type 0 where
  pub ch_id : ℕ
  pub state : McuState
  pub fd : Option ℕ
  pub fd_in_sel : Bool
  pub txbuf : List ℕ
  pub last_rx : Option ℕ
  pub reopen_at : Option ℕ
  pub bp_paused : Bool
  pub link_up : Bool

abbrev pub reset_silence : ℕ
reset_silence = 5000

abbrev pub reopen_delay : ℕ
reopen_delay = 2000

-- `==` on `McuState`
abbrev pub same_state : McuState → McuState → Bool
same_state init init = true
same_state active active = true
same_state resetting resetting = true
same_state _ _ = false

-- The interest that `update_interest` asks for.
abbrev pub wanted : Bool → List ℕ → Option Interest
wanted true [] = none
wanted false [] = some readable
wanted true (x ∷ xs) = some writable
wanted false (x ∷ xs) = some both

abbrev update_fd : McuChannel → ℕ → Option Interest → Bool → McuChannel × List Effect
update_fd c fd none true = (record c { fd_in_sel = false }, reg_del fd ∷ [])
update_fd c fd none false = (c, [])
update_fd c fd (some i) false =
    (record c { fd_in_sel = true }, reg_add fd (primary_token c.ch_id) i ∷ [])
update_fd c fd (some i) true = (c, reg_mod fd (primary_token c.ch_id) i ∷ [])

pub update_interest : McuChannel → McuChannel × List Effect
update_interest c = elim c.fd [
  | none ↦ (c, [])
  | some fd ↦ update_fd c fd (wanted c.bp_paused c.txbuf) c.fd_in_sel
]

-- The argument is the descriptor that `open_serial_fd` gives, if it gives one, with the time after.
pub open_uart : Option ℕ → ℕ → McuChannel → McuChannel × List Effect
open_uart (some fd) now c = update_interest (record c { fd = some fd; fd_in_sel = false })
open_uart none now c = (record c { reopen_at = some (now + reopen_delay) }, [])

pub new : ℕ → Option ℕ → ℕ → McuChannel × List Effect
new ch_id opened now = open_uart opened now (record {
  ch_id = ch_id;
  state = init;
  fd = none;
  fd_in_sel = false;
  txbuf = [];
  last_rx = none;
  reopen_at = none;
  bp_paused = false;
  link_up = false;
})

pub close_uart : McuChannel → McuChannel × List Effect
close_uart c = elim c.fd [
  | none ↦ (record c { fd_in_sel = false }, [])
  | some fd ↦ (
    record c { fd = none; fd_in_sel = false },
    if c.fd_in_sel then reg_del fd ∷ close_raw fd ∷ [] else close_raw fd ∷ [],
  )
]

abbrev send_if : Bool → ℕ → ℕ → List ℕ → List Effect
send_if true t c p = send t c p ∷ []
send_if false t c p = []

enter : McuState → McuChannel → McuChannel × List Effect
enter resetting c = (
  record c { state = resetting; last_rx = none; txbuf = [] },
  send_if c.link_up f_flush c.ch_id [],
)
enter active c = (record c { state = active }, send_if c.link_up f_ready c.ch_id [])
enter init c = (record c { state = init }, [])

pub transition : McuState → McuChannel → McuChannel × List Effect
unfolding enter
transition new_state c = if same_state new_state c.state then (c, []) else enter new_state c

-- `&data[idx..]` for the position `idx` of the first sync byte.
pub from_sync : List ℕ → Option (List ℕ)
from_sync [] = none
from_sync (b ∷ data') =
    let later = from_sync data' in if b == klipper_sync then some (b ∷ data') else later

abbrev forward : List ℕ → McuChannel → McuChannel × List Effect
forward data' c = (c, send_if c.link_up f_data c.ch_id data')

wait_sync : List ℕ → McuChannel → McuChannel × List Effect
wait_sync data' c = elim (from_sync data') [
  | none ↦ (c, [])
  | some tail ↦ transition active c ▷ forward tail
]

abbrev on_bytes : List ℕ → McuState → McuChannel → McuChannel × List Effect
on_bytes data' active c = forward data' c
on_bytes data' init c = wait_sync data' c
on_bytes data' resetting c = wait_sync data' c

abbrev schedule_reopen : ℕ → McuChannel → McuChannel × List Effect
schedule_reopen at c = (record c { reopen_at = some at }, [])

after_read : ReadResult → ℕ → McuChannel → McuChannel × List Effect
after_read would_block now c = (c, [])
after_read (got []) now c = (c, [])
after_read (got (b ∷ bs)) now c = on_bytes (b ∷ bs) c.state (record c { last_rx = some now })
after_read (read_err eio) now c = close_uart c ▷ transition resetting ▷ schedule_reopen (now + 1000)

pub uart_read : ReadResult → ℕ → McuChannel → McuChannel × List Effect
unfolding after_read wait_sync
uart_read r now c = elim c.fd [ none ↦ (c, []) | some fd ↦ after_read r now c ]

abbrev pub drained : WriteResult → List ℕ → List ℕ
drained (wrote n) txbuf = drop n txbuf
drained write_err txbuf = []

-- The first argument is what `write_nonblock` returns, if it is called.
pub uart_drain : WriteResult → McuChannel → McuChannel × List Effect
uart_drain w c = elim c.fd [
  | none ↦ (c, [])
  | some fd ↦
      if is_empty c.txbuf then (c, []) else update_interest (record c { txbuf = drained w c.txbuf })
]

pub on_frame : ℕ → List ℕ → WriteResult → McuChannel → McuChannel × List Effect
on_frame ftype payload w c =
    if ftype == f_data
    then elim c.fd [
      | none ↦ (c, [])
      | some fd ↦
          if not (same_state c.state active)
          then (c, [])
          else uart_drain w (record c { txbuf = c.txbuf ++ payload })
    ]
    else (c, [])

pub on_link_connect : McuChannel → McuChannel × List Effect
on_link_connect c = (
  record c { link_up = true },
  if same_state c.state active then send f_ready c.ch_id [] ∷ [] else send f_flush c.ch_id [] ∷ [],
)

pub on_link_disconnect : McuChannel → McuChannel × List Effect
on_link_disconnect c = update_interest (record c { link_up = false; txbuf = [] })

-- The deadline has come: `map_or(false, |t| now >= t)`.
abbrev pub due : Option ℕ → ℕ → Bool
due none now = false
due (some t) now = leb t now

-- `now.duration_since(last) > RESET_SILENCE`; the difference is 0 if `last` is later.
abbrev pub silent : Option ℕ → ℕ → Bool
silent none now = false
silent (some last) now = ltb reset_silence (now - last)

pub tick : ℕ → Option ℕ → ℕ → McuChannel → McuChannel × List Effect
tick now opened after c = elim c.fd [
  | none ↦
      if due c.reopen_at now
      then open_uart opened after (record c { reopen_at = none })
      else (c, [])
  | some fd ↦
      if same_state c.state active && silent c.last_rx now then transition resetting c else (c, [])
]

pub next_deadline : McuChannel → Option ℕ
next_deadline c = elim c.fd [
  | none ↦ c.reopen_at
  | some fd ↦
      if same_state c.state active
      then elim c.last_rx [ none ↦ none | some t ↦ some (t + reset_silence) ]
      else none
]

abbrev when : Bool → (McuChannel → McuChannel × List Effect) → McuChannel → McuChannel × List Effect
when true f c = f c
when false f c = (c, [])

pub handle_event :
    Bool → Bool → ReadResult → ℕ → WriteResult → McuChannel → McuChannel × List Effect
handle_event readable' writable' r now w c =
    when readable' (uart_read r now) c ▷ when writable' (uart_drain w)

pub close : McuChannel → McuChannel × List Effect
close c = close_uart c

pub pause_source_reads : McuChannel → McuChannel × List Effect
pause_source_reads c =
    if c.bp_paused then (c, []) else update_interest (record c { bp_paused = true })

pub resume_source_reads : McuChannel → McuChannel × List Effect
resume_source_reads c =
    if c.bp_paused then update_interest (record c { bp_paused = false }) else (c, [])

-- One call of a method of the `Channel` trait that changes state, with what the calls made during
-- it return.
pub data Event : Type 0 where
  frame : ℕ → List ℕ → WriteResult → Event
  link_connect : Event
  link_disconnect : Event
  ticked : ℕ → Option ℕ → ℕ → Event
  io : Bool → Bool → ReadResult → ℕ → WriteResult → Event
  pause : Event
  resume : Event
  closing : Event

pub handle : Event → McuChannel → McuChannel × List Effect
handle (frame t p w) c = on_frame t p w c
handle link_connect c = on_link_connect c
handle link_disconnect c = on_link_disconnect c
handle (ticked now opened after) c = tick now opened after c
handle (io r w result now n) c = handle_event r w result now n c
handle pause c = pause_source_reads c
handle resume c = resume_source_reads c
handle closing c = close c

pub handle_all : List Event → McuChannel → McuChannel × List Effect
handle_all [] c = (c, [])
handle_all (e ∷ es) c = handle e c ▷ handle_all es
