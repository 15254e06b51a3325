-- ===== src/Channel/Pty.antt =====
-- `PtyChannel` of serialmux-rs/src/channel.rs: a pseudo terminal on the host's side. `symlink` and
-- `baud` are only handed to system calls.
pub mod World
pub mod Paired
pub mod Laws
mod Tests
use pik.Base.{
  ℕ, ◌+◌, Bool, true, false, List, [], ◌∷◌, ◌++◌, Option, none, some, ◌==◌, if◌then◌else◌, is_empty,
}
use pik.Protocol.{f_data, f_flush, f_ready}
use pik.Channel.Token.{primary_token}
use pik.Channel.Effect.{
  Interest, Effect, send, reg_add, reg_mod, reg_del, close_raw, remove_symlink, make_symlink, ◌▷◌,
  ReadResult, would_block, got, read_err, WriteResult,
}
use pik.Channel.Mcu.{wanted, drained}

pub record PtyChannel : Type 0 where
  pub ch_id : ℕ
  pub master_fd : Option ℕ
  pub slave_fd : Option ℕ
  pub master_in_sel : Bool
  pub txbuf : List ℕ
  pub bp_paused : Bool

pub new : ℕ → PtyChannel × List Effect
new ch_id = (
  record {
    ch_id = ch_id;
    master_fd = none;
    slave_fd = none;
    master_in_sel = false;
    txbuf = [];
    bp_paused = false;
  },
  remove_symlink ∷ [],
)

abbrev update_fd : PtyChannel → ℕ → Option Interest → Bool → PtyChannel × List Effect
update_fd c fd none true = (record c { master_in_sel = false }, reg_del fd ∷ [])
update_fd c fd none false = (c, [])
update_fd c fd (some i) false =
    (record c { master_in_sel = true }, reg_add fd (primary_token c.ch_id) i ∷ [])
update_fd c fd (some i) true = (c, reg_mod fd (primary_token c.ch_id) i ∷ [])

pub update_interest : PtyChannel → PtyChannel × List Effect
update_interest c = elim c.master_fd [
  | none ↦ (c, [])
  | some fd ↦ update_fd c fd (wanted c.bp_paused c.txbuf) c.master_in_sel
]

-- How the system calls of `open_pty` go: `open_pty_raw` fails; the name of the slave cannot be
-- read; the symlink cannot be made; all succeed. The numbers are the master and the slave.
pub data Opened : Type 0 where
  no_pty : Opened
  no_name : ℕ → ℕ → Opened
  no_symlink : ℕ → ℕ → Opened
  opened : ℕ → ℕ → Opened

abbrev open_fds : Opened → PtyChannel → PtyChannel × List Effect
open_fds no_pty c = (c, [])
open_fds (no_name m s) c = (c, close_raw m ∷ close_raw s ∷ [])
open_fds (no_symlink m s) c = (c, remove_symlink ∷ close_raw m ∷ close_raw s ∷ [])
open_fds (opened m s) c =
    (
      record c { master_fd = some m; slave_fd = some s; master_in_sel = false },
      remove_symlink ∷ make_symlink ∷ [],
    )
    ▷ update_interest

pub open_pty : Opened → PtyChannel → PtyChannel × List Effect
open_pty o c = elim c.master_fd [ none ↦ open_fds o c | some m ↦ (c, []) ]

abbrev close_master : Option ℕ → Bool → List Effect
close_master none in_sel = []
close_master (some fd) true = reg_del fd ∷ close_raw fd ∷ []
close_master (some fd) false = close_raw fd ∷ []

abbrev close_slave : Option ℕ → List Effect
close_slave none = []
close_slave (some fd) = close_raw fd ∷ []

pub close_pty : PtyChannel → PtyChannel × List Effect
close_pty c = (
  record c { master_fd = none; slave_fd = none; master_in_sel = false; txbuf = [] },
  close_master c.master_fd c.master_in_sel ++ (close_slave c.slave_fd ++ (remove_symlink ∷ [])),
)

pub pty_drain : WriteResult → PtyChannel → PtyChannel × List Effect
pty_drain w c = elim c.master_fd [
  | none ↦ (c, [])
  | some fd ↦
      if is_empty c.txbuf then (c, []) else update_interest (record c { txbuf = drained w c.txbuf })
]

pub on_frame : ℕ → List ℕ → Opened → WriteResult → PtyChannel → PtyChannel × List Effect
on_frame ftype payload o w c =
    if ftype == f_flush
    then close_pty c
    else if ftype == f_ready
    then open_pty o c
    else if ftype == f_data
    then elim c.master_fd [
      | none ↦ (c, [])
      | some fd ↦ pty_drain w (record c { txbuf = c.txbuf ++ payload })
    ]
    else (c, [])

pub on_link_connect : PtyChannel → PtyChannel × List Effect
on_link_connect c = close_pty c

pub on_link_disconnect : PtyChannel → PtyChannel × List Effect
on_link_disconnect c = close_pty c

abbrev on_read : ReadResult → PtyChannel → PtyChannel × List Effect
on_read would_block c = (c, [])
on_read (got []) c = (c, [])
on_read (got (b ∷ bs)) c = (c, send f_data c.ch_id (b ∷ bs) ∷ [])
on_read (read_err true) c = close_pty c
on_read (read_err false) c = (c, [])

pub pty_write : Bool → WriteResult → PtyChannel → PtyChannel × List Effect
pty_write true w c = pty_drain w c
pty_write false w c = (c, [])

-- A readable event with no master returns before the writable part.
pub handle_event : Bool → Bool → ReadResult → WriteResult → PtyChannel → PtyChannel × List Effect
handle_event false wr r w c = pty_write wr w c
handle_event true wr r w c = elim c.master_fd [
  | none ↦ (c, [])
  | some fd ↦ on_read r c ▷ pty_write wr w
]

pub close : PtyChannel → PtyChannel × List Effect
close c = close_pty c

pub pause_source_reads : PtyChannel → PtyChannel × List Effect
pause_source_reads c =
    if c.bp_paused then (c, []) else update_interest (record c { bp_paused = true })

pub resume_source_reads : PtyChannel → PtyChannel × List Effect
resume_source_reads c =
    if c.bp_paused then update_interest (record c { bp_paused = false }) else (c, [])

-- One call of a method of the `Channel` trait that does something, with what the calls made during
-- it return.
pub data Event : Type 0 where
  frame : ℕ → List ℕ → Opened → WriteResult → Event
  link_connect : Event
  link_disconnect : Event
  io : Bool → Bool → ReadResult → WriteResult → Event
  pause : Event
  resume : Event
  closing : Event

pub handle : Event → PtyChannel → PtyChannel × List Effect
handle (frame t p o w) c = on_frame t p o w c
handle link_connect c = on_link_connect c
handle link_disconnect c = on_link_disconnect c
handle (io rd wr r w) c = handle_event rd wr r w c
handle pause c = pause_source_reads c
handle resume c = resume_source_reads c
handle closing c = close c

pub handle_all : List Event → PtyChannel → PtyChannel × List Effect
handle_all [] c = (c, [])
handle_all (e ∷ es) c = handle e c ▷ handle_all es
