-- ===== src/Channel/Tcp/Dest.antt =====
-- `TcpDestChannel` of serialmux-rs/src/channel.rs: the host's side, which opens a connection when
-- the far side accepted one. The address only matters to `connect`, whose result is an argument.
pub mod Kept
pub mod Bound
pub mod Laws
pub mod Pausing
use pik.Base.{
  ℕ, zero, suc, ◌-◌, Bool, true, false, List, [], ◌∷◌, ◌++◌, Option, none, some, ◌&&◌, ◌||◌, ◌==◌,
  leb, if◌then◌else◌, is_empty, replicate,
}
use pik.Protocol.{f_tconn, f_tdata, f_tclose}
use pik.Channel.Token.{tcp_slot_token, slot_of_token, max_tcp_conns}
use pik.Channel.Effect.{both, Effect, send, reg_add, reg_del, close_raw, ◌▷◌}
use pik.Channel.Tcp.{
  TcpConn, Conns, get_slot, set_slot, pack_cid, unpack_cid, pieces, send_pieces, over_high_water,
  dst_conn_update_interest, StreamRead, StreamWrite,
}
use pik.Channel.Tcp.Source.{after_write}

pub record TcpDestChannel : Type 0 where
  pub ch_id : ℕ
  pub conns : Conns
  pub bp_paused : Bool

pub new : ℕ → TcpDestChannel
new ch_id = record { ch_id = ch_id; conns = replicate max_tcp_conns none; bp_paused = false }

-- How `open_conn` goes: the address cannot be parsed; `connect` fails; mio refuses the stream; the
-- connection is on its way.
pub data Connect : Type 0 where
  bad_addr : Connect
  refused : Connect
  unregistered : ℕ → Connect
  started : ℕ → Connect

pub open_conn : ℕ → Connect → TcpDestChannel → TcpDestChannel × List Effect
open_conn slot bad_addr c = (c, send f_tclose c.ch_id (pack_cid slot) ∷ [])
open_conn slot refused c = (c, send f_tclose c.ch_id (pack_cid slot) ∷ [])
open_conn slot (unregistered stream) c =
    (c, send f_tclose c.ch_id (pack_cid slot) ∷ close_raw stream ∷ [])
open_conn slot (started stream) c =
    let conn : TcpConn = record {
      stream = stream;
      txbuf = [];
      connecting = true;
      in_sel = true;
      close_pending = false;
    } in
    (
      record c { conns = set_slot c.conns slot (some conn) },
      reg_add stream (tcp_slot_token c.ch_id slot) both ∷ [],
    )

abbrev notice : Bool → ℕ → ℕ → List Effect
notice true ch_id slot = send f_tclose ch_id (pack_cid slot) ∷ []
notice false ch_id slot = []

pub close_slot : ℕ → Bool → TcpDestChannel → TcpDestChannel × List Effect
close_slot slot notify c = elim (get_slot c.conns slot) [
  | none ↦ (c, [])
  | some conn ↦ (
    record c { conns = set_slot c.conns slot none },
    reg_del conn.stream ∷ (notice notify c.ch_id slot ++ (close_raw conn.stream ∷ [])),
  )
]

pub update_conn_interest : ℕ → TcpDestChannel → TcpDestChannel × List Effect
update_conn_interest slot c = elim (get_slot c.conns slot) [
  | none ↦ (c, [])
  | some conn ↦
      let (conn', l) = dst_conn_update_interest c.ch_id c.bp_paused slot conn in
      (record c { conns = set_slot c.conns slot (some conn') }, l)
]

-- A part of `tcp_event` says whether the handler returned in it.
abbrev pub Part : Type 0
Part = Bool × (TcpDestChannel × List Effect)

abbrev pub and_then : Part → (TcpDestChannel → Part) → Part
and_then (true, p) f = (true, p)
and_then (false, (c, l)) f = let (r, (c', l')) = f c in (r, (c', l ++ l'))

-- The first part: a connect that `peer_addr` confirms, or not, when the stream is writable.
pub finish_connect : ℕ → Bool → Bool → TcpDestChannel → Part
finish_connect slot wr confirmed c = elim (get_slot c.conns slot) [
  | none ↦ (true, (c, []))
  | some conn ↦
      if conn.connecting && wr
      then (if confirmed
          then (
            false,
            (
              record c {
                conns = set_slot c.conns slot (some (record conn { connecting = false }));
              },
              [],
            ),
          )
          else (true, close_slot slot true c))
      else (false, (c, []))
]

abbrev pub left_after : Bool → StreamWrite → List ℕ → Option (List ℕ)
left_after true w txbuf = some txbuf
left_after false w txbuf = after_write w txbuf

pub write_part : ℕ → StreamWrite → TcpDestChannel → Part
write_part slot w c = elim (get_slot c.conns slot) [
  | none ↦ (true, (c, []))
  | some conn ↦ elim (left_after conn.connecting w conn.txbuf) [
    | none ↦ (true, close_slot slot true c)
    | some left ↦
        let c' : TcpDestChannel = record c {
          conns = set_slot c.conns slot (some (record conn { txbuf = left }));
        } in
        if is_empty left && conn.close_pending
        then (true, close_slot slot false c')
        else (false, (c', []))
  ]
]

pub read_loop : ℕ → List StreamRead → TcpDestChannel → Part
read_loop slot [] c = elim (get_slot c.conns slot) [
  | none ↦ (true, (c, []))
  | some conn ↦ (false, (c, []))
]
read_loop slot (r ∷ rs) c =
    let eof : Part = (true, close_slot slot true c) in
    let more = read_loop slot rs c in
    elim (get_slot c.conns slot) [
      | none ↦ (true, (c, []))
      | some conn ↦ if conn.connecting || conn.close_pending then (false, (c, [])) else elim r [
        | StreamRead.bytes data' ↦
            if is_empty data'
            then eof
            else let (returned, (c', l)) = more in
              (returned, (c', send_pieces c.ch_id slot (pieces data') ++ l))
        | StreamRead.would_block ↦ (false, (c, []))
        | StreamRead.failed ↦ eof
      ]
    ]

abbrev pub only_if : Bool → (TcpDestChannel → Part) → TcpDestChannel → Part
only_if true f c = f c
only_if false f c = (false, (c, []))

pub tcp_event :
    ℕ
    → Bool
    → Bool
    → Bool
    → StreamWrite
    → List StreamRead
    → TcpDestChannel
    → TcpDestChannel × List Effect
tcp_event token rd wr confirmed w rs c =
    let slot = slot_of_token token in
    let parts =
      and_then (and_then (finish_connect slot wr confirmed c) (only_if wr (write_part slot w)))
        (only_if rd (read_loop slot rs)) in
    (and_then parts (λ c. (false, update_conn_interest slot c))).1

pub on_tdata : ℕ → List ℕ → TcpDestChannel → TcpDestChannel × List Effect
on_tdata slot data' c = elim (get_slot c.conns slot) [
  | none ↦ (c, [])
  | some conn ↦
      if over_high_water conn.txbuf data'
      then close_slot slot true c
      else update_conn_interest slot (record c {
        conns = set_slot c.conns slot (some (record conn { txbuf = conn.txbuf ++ data' }));
      })
]

pub on_tclose : ℕ → TcpDestChannel → TcpDestChannel × List Effect
on_tclose slot c = elim (get_slot c.conns slot) [
  | none ↦ (c, [])
  | some conn ↦
      if is_empty conn.txbuf
      then close_slot slot false c
      else update_conn_interest slot
          (record c { conns = set_slot c.conns slot (some (record conn { close_pending = true })) })
]

pub on_tconn : ℕ → Connect → TcpDestChannel → TcpDestChannel × List Effect
on_tconn slot result c = elim (get_slot c.conns slot) [
  | none ↦ open_conn slot result c
  | some conn ↦ (c, [])
]

pub on_frame : ℕ → List ℕ → Connect → TcpDestChannel → TcpDestChannel × List Effect
on_frame ftype payload result c = elim (unpack_cid payload) [
  | none ↦ (c, [])
  | some (slot, data') ↦
      if leb max_tcp_conns slot
      then (c, [])
      else if ftype == f_tconn
      then on_tconn slot result c
      else if ftype == f_tdata
      then (if is_empty data' then (c, []) else on_tdata slot data' c)
      else if ftype == f_tclose
      then on_tclose slot c
      else (c, [])
]

pub close_from : ℕ → TcpDestChannel → TcpDestChannel × List Effect
close_from zero c = (c, [])
close_from (suc k) c = close_slot (max_tcp_conns - suc k) false c ▷ close_from k

pub on_link_connect : TcpDestChannel → TcpDestChannel × List Effect
on_link_connect c = close_from max_tcp_conns c

pub on_link_disconnect : TcpDestChannel → TcpDestChannel × List Effect
on_link_disconnect c = close_from max_tcp_conns c

pub close : TcpDestChannel → TcpDestChannel × List Effect
close c = close_from max_tcp_conns c

pub update_from : ℕ → TcpDestChannel → TcpDestChannel × List Effect
update_from zero c = (c, [])
update_from (suc k) c = update_conn_interest (max_tcp_conns - suc k) c ▷ update_from k

pub pause_source_reads : TcpDestChannel → TcpDestChannel × List Effect
pause_source_reads c =
    if c.bp_paused then (c, []) else update_from max_tcp_conns (record c { bp_paused = true })

pub resume_source_reads : TcpDestChannel → TcpDestChannel × List Effect
resume_source_reads c =
    if c.bp_paused then update_from max_tcp_conns (record c { bp_paused = false }) else (c, [])

pub handle_event :
    ℕ
    → Bool
    → Bool
    → Bool
    → StreamWrite
    → List StreamRead
    → TcpDestChannel
    → TcpDestChannel × List Effect
handle_event token rd wr confirmed w rs c = tcp_event token rd wr confirmed w rs c

-- One call of a method of the `Channel` trait that does something, with what the calls made during
-- it return.
pub data Event : Type 0 where
  frame : ℕ → List ℕ → Connect → Event
  link_connect : Event
  link_disconnect : Event
  io : ℕ → Bool → Bool → Bool → StreamWrite → List StreamRead → Event
  pause : Event
  resume : Event
  closing : Event

pub handle : Event → TcpDestChannel → TcpDestChannel × List Effect
handle (frame t p result) c = on_frame t p result c
handle link_connect c = on_link_connect c
handle link_disconnect c = on_link_disconnect c
handle (io token rd wr confirmed w rs) c = handle_event token rd wr confirmed w rs c
handle pause c = pause_source_reads c
handle resume c = resume_source_reads c
handle closing c = close c

pub handle_all : List Event → TcpDestChannel → TcpDestChannel × List Effect
handle_all [] c = (c, [])
handle_all (e ∷ es) c = handle e c ▷ handle_all es
