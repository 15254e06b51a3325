-- ===== src/Channel/Tcp.antt =====
-- The TCP helpers of serialmux-rs/src/channel.rs, which both TCP channels use: connection ids on
-- the wire, the slots, and what arrives for a connection. A `mio::net::TcpStream` is a number.
pub mod Slots
pub mod Source
pub mod Dest
use pik.Base.{
  ℕ, zero, suc, ◌+◌, ◌-◌, ◌*◌, ◌/◌, ◌%◌, Bool, true, false, not, List, [], ◌∷◌, ◌++◌, Option, none,
  some, ◌&&◌, ◌||◌, ◌==◌, ltb, leb, if◌then◌else◌, length, is_empty, take, drop, get_or,
}
use pik.Protocol.{f_tdata, max_payload}
use pik.Protocol.Bytes.{u16_le_bytes, u16_from_le_bytes}
use pik.Channel.Token.{tcp_slot_token}
use pik.Channel.Effect.{
  Interest, readable, writable, both, Effect, send, reg_add, reg_mod, reg_del, close_raw,
}

abbrev pub conn_high_water : ℕ
conn_high_water = 256 * 1024

pub record TcpConn : Type 0 where
  pub stream : ℕ
  pub txbuf : List ℕ
  pub connecting : Bool
  pub in_sel : Bool
  pub close_pending : Bool

-- `conns: Vec<Option<TcpConn>>`
abbrev pub Conns : Type 0
Conns = List (Option TcpConn)

abbrev pub get_slot : Conns → ℕ → Option TcpConn
get_slot conns slot = get_or conns slot none

abbrev pub set_slot : Conns → ℕ → Option TcpConn → Conns
set_slot [] slot v = []
set_slot (c ∷ conns) zero v = v ∷ conns
set_slot (c ∷ conns) (suc slot) v = c ∷ set_slot conns slot v

-- `pack_cid(slot as u16)`
unfoldable pub pack_cid : ℕ → List ℕ
pack_cid slot = u16_le_bytes (slot % 65536)

unfoldable pub unpack_cid : List ℕ → Option (ℕ × List ℕ)
unpack_cid payload =
    if ltb (length payload) 2
    then none
    else some (u16_from_le_bytes (take 2 payload), drop 2 payload)

-- The loop over `off`: the bytes read, in pieces of at most `MAX_PAYLOAD - 2`. A piece takes a byte
-- or more, so that as many rounds as bytes are enough (`Slots.pieces_lem`).
unfoldable pub pieces_from : ℕ → List ℕ → List (List ℕ)
pieces_from zero data' = []
pieces_from (suc fuel) data' =
    let rest = pieces_from fuel (drop (max_payload - 2) data') in
    if is_empty data' then [] else take (max_payload - 2) data' ∷ rest

unfoldable pub pieces : List ℕ → List (List ℕ)
unfolding pieces_from
pieces data' = pieces_from (length data') data'

-- One F_TDATA frame for each piece, the connection id in front.
unfoldable pub send_pieces : ℕ → ℕ → List (List ℕ) → List Effect
send_pieces ch_id slot [] = []
send_pieces ch_id slot (p ∷ ps) =
    send f_tdata ch_id (pack_cid slot ++ p) ∷ send_pieces ch_id slot ps

-- `CONN_HIGH_WATER + MAX_PAYLOAD` less what waits, and the test of F_TDATA.
unfoldable pub over_high_water : List ℕ → List ℕ → Bool
over_high_water txbuf data' =
    let avail = conn_high_water + max_payload - length txbuf in
    ltb conn_high_water (length txbuf) || ltb avail (length data')

-- The interest in a connection, from the two wishes.
abbrev pub interest_of : Bool → Bool → Option Interest
interest_of true true = some both
interest_of true false = some readable
interest_of false true = some writable
interest_of false false = none

abbrev apply_interest : Option Interest → Bool → ℕ → TcpConn → TcpConn × List Effect
apply_interest (some i) true token conn = (conn, reg_mod conn.stream token i ∷ [])
apply_interest (some i) false token conn =
    (record conn { in_sel = true }, reg_add conn.stream token i ∷ [])
apply_interest none true token conn = (record conn { in_sel = false }, reg_del conn.stream ∷ [])
apply_interest none false token conn = (conn, [])

unfoldable pub src_conn_update_interest : ℕ → Bool → ℕ → TcpConn → TcpConn × List Effect
src_conn_update_interest ch_id bp_paused slot conn =
    apply_interest (interest_of (not (bp_paused || conn.close_pending)) (not (is_empty conn.txbuf)))
      conn.in_sel (tcp_slot_token ch_id slot) conn

unfoldable pub dst_conn_update_interest : ℕ → Bool → ℕ → TcpConn → TcpConn × List Effect
dst_conn_update_interest ch_id bp_paused slot conn =
    apply_interest
      (interest_of (not (bp_paused || conn.close_pending))
        (not (is_empty conn.txbuf) || conn.connecting))
      conn.in_sel (tcp_slot_token ch_id slot) conn

-- `stream.read`: some bytes, the end of the stream, it would block, an error.
pub data StreamRead : Type 0 where
  bytes : List ℕ → StreamRead
  would_block : StreamRead
  failed : StreamRead

-- `stream.write`: a number of bytes, it would block, an error.
pub data StreamWrite : Type 0 where
  wrote : ℕ → StreamWrite
  would_block : StreamWrite
  failed : StreamWrite
