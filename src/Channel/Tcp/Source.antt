-- ===== src/Channel/Tcp/Source.antt =====
-- `TcpSourceChannel` of serialmux-rs/src/channel.rs: the exporter's side, which accepts
-- connections. The address to listen on only matters to `bind`; `listener` is its descriptor.
pub mod Alloc
pub mod Kept
pub mod Bound
pub mod Laws
pub mod Pausing
use pik.Base.{
  ℕ, zero, suc, ◌+◌, ◌-◌, ◌%◌, Bool, true, false, not, List, [], ◌∷◌, ◌++◌, Option, none, some,
  ◌&&◌, ◌==◌, ltb, leb, if◌then◌else◌, is_empty, drop, replicate,
}
use pik.Protocol.{f_tconn, f_tdata, f_tclose}
use pik.Channel.Token.{primary_token, tcp_slot_token, slot_of_token, max_tcp_conns}
use pik.Channel.Effect.{
  Interest, readable, both, Effect, send, reg_add, reg_mod, reg_del, close_raw, ◌▷◌,
}
use pik.Channel.Tcp.{
  TcpConn, Conns, get_slot, set_slot, pack_cid, unpack_cid, pieces, send_pieces, over_high_water,
  src_conn_update_interest, StreamRead, StreamWrite,
}

pub record TcpSourceChannel : Type 0 where
  pub ch_id : ℕ
  pub listener : ℕ
  pub conns : Conns
  pub next_slot : ℕ
  pub link_up : Bool
  pub bp_paused : Bool

pub new : ℕ → ℕ → TcpSourceChannel × List Effect
new ch_id listener = (
  record {
    ch_id = ch_id;
    listener = listener;
    conns = replicate max_tcp_conns none;
    next_slot = 0;
    link_up = false;
    bp_paused = false;
  },
  reg_add listener (primary_token ch_id) readable ∷ [],
)

-- The loop of `alloc_slot` with the rounds left; it gives the slot and the new `next_slot`.
pub alloc_from : ℕ → ℕ → Conns → Option ℕ × ℕ
alloc_from zero next conns = (none, next)
alloc_from (suc k) next conns = elim (get_slot conns (next % max_tcp_conns)) [
  | none ↦ (some (next % max_tcp_conns), next + 1)
  | some conn ↦ alloc_from k (next + 1) conns
]

pub alloc_slot : TcpSourceChannel → Option ℕ × TcpSourceChannel
alloc_slot c =
    let (slot, next) = alloc_from max_tcp_conns c.next_slot c.conns in
    (slot, record c { next_slot = next })

-- A connection that `accept` gives, and whether mio takes its registration.
pub record Accepted : Type 0 where
  pub stream : ℕ
  pub registers : Bool

fresh_conn : ℕ → TcpConn
fresh_conn stream = record {
  stream = stream;
  txbuf = [];
  connecting = false;
  in_sel = true;
  close_pending = false;
}

abbrev take_slot : Accepted → Option ℕ × TcpSourceChannel → TcpSourceChannel × List Effect
take_slot a (none, c) = (c, close_raw a.stream ∷ [])
take_slot a (some slot, c) =
    if a.registers
    then (
      record c { conns = set_slot c.conns slot (some (fresh_conn a.stream)) },
      reg_add a.stream (tcp_slot_token c.ch_id slot) both
          ∷ send f_tconn c.ch_id (pack_cid slot)
          ∷ [],
    )
    else (c, close_raw a.stream ∷ [])

pub accept_one : Accepted → TcpSourceChannel → TcpSourceChannel × List Effect
accept_one a c = if not c.link_up then (c, close_raw a.stream ∷ []) else take_slot a (alloc_slot c)

-- The connections that come before `accept` would block or fails.
pub accept : List Accepted → TcpSourceChannel → TcpSourceChannel × List Effect
accept [] c = (c, [])
accept (a ∷ more) c = accept_one a c ▷ accept more

abbrev notice : Bool → ℕ → ℕ → List Effect
notice true ch_id slot = send f_tclose ch_id (pack_cid slot) ∷ []
notice false ch_id slot = []

pub close_slot : ℕ → Bool → TcpSourceChannel → TcpSourceChannel × List Effect
close_slot slot notify c = elim (get_slot c.conns slot) [
  | none ↦ (c, [])
  | some conn ↦ (
    record c { conns = set_slot c.conns slot none },
    reg_del conn.stream
        ∷ (notice (notify && c.link_up) c.ch_id slot ++ (close_raw conn.stream ∷ [])),
  )
]

pub update_conn_interest : ℕ → TcpSourceChannel → TcpSourceChannel × List Effect
update_conn_interest slot c = elim (get_slot c.conns slot) [
  | none ↦ (c, [])
  | some conn ↦
      let (conn', l) = src_conn_update_interest c.ch_id c.bp_paused slot conn in
      (record c { conns = set_slot c.conns slot (some conn') }, l)
]

-- The readable part of `tcp_event`, given what the reads return; the flag says that the handler
-- returned there.
pub read_loop : ℕ → List StreamRead → TcpSourceChannel → Bool × (TcpSourceChannel × List Effect)
read_loop slot [] c = elim (get_slot c.conns slot) [
  | none ↦ (true, (c, []))
  | some conn ↦ (false, (c, []))
]
read_loop slot (r ∷ rs) c =
    let eof : Bool × (TcpSourceChannel × List Effect) = (true, close_slot slot true c) in
    let more = read_loop slot rs c in
    elim (get_slot c.conns slot) [
      | none ↦ (true, (c, []))
      | some conn ↦ if conn.close_pending then (false, (c, [])) else elim r [
        | StreamRead.bytes data' ↦
            if is_empty data'
            then eof
            else let (returned, (c', l)) = more in
              (returned, (c', send_pieces c.ch_id slot (pieces data') ++ l))
        | StreamRead.would_block ↦ (false, (c, []))
        | StreamRead.failed ↦ eof
      ]
    ]

-- `conn.stream.write(&conn.txbuf)`, if there is something to write: the bytes left, or an error.
abbrev pub after_write : StreamWrite → List ℕ → Option (List ℕ)
after_write w [] = some []
after_write (StreamWrite.wrote n) (x ∷ xs) = some (drop n (x ∷ xs))
after_write StreamWrite.would_block (x ∷ xs) = some (x ∷ xs)
after_write StreamWrite.failed (x ∷ xs) = none

pub write_part : ℕ → StreamWrite → TcpSourceChannel → TcpSourceChannel × List Effect
write_part slot w c = elim (get_slot c.conns slot) [
  | none ↦ (c, [])
  | some conn ↦ elim (after_write w conn.txbuf) [
    | none ↦ close_slot slot true c
    | some left ↦
        let c' : TcpSourceChannel = record c {
          conns = set_slot c.conns slot (some (record conn { txbuf = left }));
        } in
        if is_empty left && conn.close_pending
        then close_slot slot false c'
        else update_conn_interest slot c'
  ]
]

abbrev then_write :
    Bool
    → ℕ
    → StreamWrite
    → Bool × (TcpSourceChannel × List Effect)
    → TcpSourceChannel × List Effect
then_write wr slot w (true, p) = p
then_write true slot w (false, p) = p ▷ write_part slot w
then_write false slot w (false, p) = p

pub tcp_event :
    ℕ
    → Bool
    → Bool
    → List StreamRead
    → StreamWrite
    → TcpSourceChannel
    → TcpSourceChannel × List Effect
tcp_event token rd wr rs w c =
    let slot = slot_of_token token in
    if rd then then_write wr slot w (read_loop slot rs c) else then_write wr slot w (false, (c, []))

-- The loop over the slots, with those left.
pub close_from : ℕ → TcpSourceChannel → TcpSourceChannel × List Effect
close_from zero c = (c, [])
close_from (suc k) c = close_slot (max_tcp_conns - suc k) false c ▷ close_from k

pub close_all : TcpSourceChannel → TcpSourceChannel × List Effect
close_all c = close_from max_tcp_conns c

-- F_TDATA for a connection that is there: close it, or keep the bytes.
pub on_tdata : ℕ → List ℕ → TcpSourceChannel → TcpSourceChannel × List Effect
on_tdata slot data' c = elim (get_slot c.conns slot) [
  | none ↦ (c, [])
  | some conn ↦
      if over_high_water conn.txbuf data'
      then close_slot slot true c
      else update_conn_interest slot (record c {
        conns = set_slot c.conns slot (some (record conn { txbuf = conn.txbuf ++ data' }));
      })
]

pub on_tclose : ℕ → TcpSourceChannel → TcpSourceChannel × List Effect
on_tclose slot c = elim (get_slot c.conns slot) [
  | none ↦ (c, [])
  | some conn ↦
      if is_empty conn.txbuf
      then close_slot slot false c
      else update_conn_interest slot
          (record c { conns = set_slot c.conns slot (some (record conn { close_pending = true })) })
]

pub on_frame : ℕ → List ℕ → TcpSourceChannel → TcpSourceChannel × List Effect
on_frame ftype payload c = elim (unpack_cid payload) [
  | none ↦ (c, [])
  | some (slot, data') ↦
      if leb max_tcp_conns slot
      then (c, [])
      else if ftype == f_tdata
      then (if is_empty data' then (c, []) else on_tdata slot data' c)
      else if ftype == f_tclose
      then on_tclose slot c
      else (c, [])
]

pub on_link_connect : TcpSourceChannel → TcpSourceChannel × List Effect
on_link_connect c = (record c { link_up = true }, [])

-- Its frames go to a queue that is thrown away; there are none, since no close is notified.
pub on_link_disconnect : TcpSourceChannel → TcpSourceChannel × List Effect
on_link_disconnect c = close_all (record c { link_up = false })

pub handle_event :
    ℕ
    → Bool
    → Bool
    → List Accepted
    → List StreamRead
    → StreamWrite
    → TcpSourceChannel
    → TcpSourceChannel × List Effect
handle_event token rd wr accepted rs w c =
    if token == primary_token c.ch_id
    then (if rd then accept accepted c else (c, []))
    else tcp_event token rd wr rs w c

pub close : TcpSourceChannel → TcpSourceChannel × List Effect
close c = close_all c ▷ (λ c. (c, reg_del c.listener ∷ []))

pub update_from : ℕ → TcpSourceChannel → TcpSourceChannel × List Effect
update_from zero c = (c, [])
update_from (suc k) c = update_conn_interest (max_tcp_conns - suc k) c ▷ update_from k

pub pause_source_reads : TcpSourceChannel → TcpSourceChannel × List Effect
pause_source_reads c =
    if c.bp_paused then (c, []) else update_from max_tcp_conns (record c { bp_paused = true })

pub resume_source_reads : TcpSourceChannel → TcpSourceChannel × List Effect
resume_source_reads c =
    if c.bp_paused then update_from max_tcp_conns (record c { bp_paused = false }) else (c, [])

-- One call of a method of the `Channel` trait that does something, with what the calls made during
-- it return.
pub data Event : Type 0 where
  frame : ℕ → List ℕ → Event
  link_connect : Event
  link_disconnect : Event
  io : ℕ → Bool → Bool → List Accepted → List StreamRead → StreamWrite → Event
  pause : Event
  resume : Event
  closing : Event

pub handle : Event → TcpSourceChannel → TcpSourceChannel × List Effect
handle (frame t p) c = on_frame t p c
handle link_connect c = on_link_connect c
handle link_disconnect c = on_link_disconnect c
handle (io token rd wr a rs w) c = handle_event token rd wr a rs w c
handle pause c = pause_source_reads c
handle resume c = resume_source_reads c
handle closing c = close c

pub handle_all : List Event → TcpSourceChannel → TcpSourceChannel × List Effect
handle_all [] c = (c, [])
handle_all (e ∷ es) c = handle e c ▷ handle_all es
