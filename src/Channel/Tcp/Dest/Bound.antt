-- ===== src/Channel/Tcp/Dest/Bound.antt =====
-- The bytes that wait for one connection of the destination channel are bounded.
use pik.Base.{
  ℕ, zero, suc, ◌-◌, ◌≤◌, ◌≡◌, sym, subst, Bool, true, false, List, [], ◌∷◌, some, ◌&&◌, ◌||◌,
  length, is_empty, arith, Option-cases, Bool-cases, inl, inr,
}
use pik.Channel.Token.{slot_of_token, max_tcp_conns}
use pik.Channel.Tcp.{TcpConn, get_slot, set_slot, StreamRead, StreamWrite}
use pik.Channel.Tcp.Slots.{SlotBounded, Bounded, get_slot-Bounded, replicate-Bounded}
use pik.Channel.Tcp.Source.Bound.{after_write-le}
use pik.Channel.Tcp.Dest.{
  TcpDestChannel, new, close_slot, update_conn_interest, Part, and_then, finish_connect, left_after,
  write_part, read_loop, only_if, tcp_event, close_from, on_link_connect, on_link_disconnect, close,
  update_from, pause_source_reads, resume_source_reads, handle_event, Event, frame, link_connect,
  link_disconnect, io, pause, resume, closing, handle, handle_all,
}
use pik.Channel.Tcp.Dest.Kept.{
  Ok, Keeps, follow, close_slot_Ok, update_Ok, seq_Ok, refill, on_frame_Ok,
}

abbrev Back : Part → Type 0
Back p = Bounded p.1.0.conns

abbrev Goes : (TcpDestChannel → Part) → Type 0
Goes f = (c : TcpDestChannel) → Bounded c.conns → Back (f c)

Back-follow : (q p : Part) → q ≡ p → Back p → Back q
Back-follow q p e h = subst Back (sym e) h

and_then-Back : (p : Part) (f : TcpDestChannel → Part) → Back p → Goes f → Back (and_then p f)
and_then-Back (true, p) f h k = h
and_then-Back (false, (c, l)) f h k = k c h

finish_connect_Back : (slot : ℕ) (wr confirmed : Bool) → Goes (finish_connect slot wr confirmed)
unfolding finish_connect
finish_connect_Back slot wr ok c h = elim (Option-cases (get_slot c.conns slot)) [
  | inl e ↦ Back-follow (finish_connect slot wr ok c) (true, (c, [])) (ground arith) h
  | inr (conn, e) ↦ elim (Bool-cases (conn.connecting && wr)) [
    | inr z ↦ Back-follow (finish_connect slot wr ok c) (false, (c, [])) (ground arith) h
    | inl z ↦ elim (Bool-cases ok) [
      | inr y ↦
          Back-follow (finish_connect slot wr ok c) (true, close_slot slot true c) (ground arith)
            (close_slot_Ok slot true c h)
      | inl y ↦
          let conn' : TcpConn = record conn { connecting = false } in
          let c' : TcpDestChannel = record c { conns = set_slot c.conns slot (some conn') } in
          Back-follow (finish_connect slot wr ok c) (false, (c', [])) (ground arith)
            (refill slot conn' c h (subst SlotBounded e (get_slot-Bounded c.conns slot h)))
    ]
  ]
]

left_after-le :
    (b : Bool) (w : StreamWrite) (xs : List ℕ) {left : List ℕ}
    → left_after b w xs ≡ some left
    → length left ≤ length xs
left_after-le true w xs h = ground arith
left_after-le false w xs h = after_write-le w xs h

write_part_Back : (slot : ℕ) (w : StreamWrite) → Goes (write_part slot w)
unfolding write_part
write_part_Back slot w c h = elim (Option-cases (get_slot c.conns slot)) [
  | inl e ↦ Back-follow (write_part slot w c) (true, (c, [])) (ground arith) h
  | inr (conn, e) ↦ elim (Option-cases (left_after conn.connecting w conn.txbuf)) [
    | inl z ↦
        Back-follow (write_part slot w c) (true, close_slot slot true c) (ground arith)
          (close_slot_Ok slot true c h)
    | inr (left, z) ↦
        let conn' : TcpConn = record conn { txbuf = left } in
        let c' : TcpDestChannel = record c { conns = set_slot c.conns slot (some conn') } in
        let small : SlotBounded (some conn) =
          subst SlotBounded e (get_slot-Bounded c.conns slot h) in
        let h' =
          refill slot conn' c h (omega (arith, left_after-le conn.connecting w conn.txbuf z)) in
        elim (Bool-cases (is_empty left && conn.close_pending)) [
          | inl y ↦
              Back-follow (write_part slot w c) (true, close_slot slot false c') (ground arith)
                (close_slot_Ok slot false c' h')
          | inr y ↦ Back-follow (write_part slot w c) (false, (c', [])) (ground arith) h'
        ]
  ]
]

only_if_Back : (b : Bool) (f : TcpDestChannel → Part) → Goes f → Goes (only_if b f)
only_if_Back true f k c h = k c h
only_if_Back false f k c h = h

read_loop_Back : (slot : ℕ) (rs : List StreamRead) → Goes (read_loop slot rs)
unfolding read_loop
read_loop_Back slot [] c h = elim (Option-cases (get_slot c.conns slot)) [
  | inl e ↦ Back-follow (read_loop slot [] c) (true, (c, [])) (ground arith) h
  | inr (conn, e) ↦ Back-follow (read_loop slot [] c) (false, (c, [])) (ground arith) h
]
read_loop_Back slot (r ∷ rs) c h =
    let more = read_loop_Back slot rs c h in
    let closed = close_slot_Ok slot true c h in
    elim (Option-cases (get_slot c.conns slot)) [
      | inl e ↦ ground (arith, h)
      | inr (conn, e) ↦ elim (Bool-cases (conn.connecting || conn.close_pending)) [
        | inl z ↦ ground (arith, h)
        | inr z ↦ reads r more closed conn e z
      ]
    ]
  where
    reads :
        (r : StreamRead)
        → Back (read_loop slot rs c)
        → Ok (close_slot slot true c)
        → (conn : TcpConn) → get_slot c.conns slot ≡ some conn
        → (conn.connecting || conn.close_pending) ≡ false
        → Back (read_loop slot (r ∷ rs) c)
    reads (StreamRead.bytes d) more closed conn e z = ground (arith, more, closed, h)
    reads StreamRead.would_block more closed conn e z = ground (arith, h)
    reads StreamRead.failed more closed conn e z = ground (arith, closed, h)

tcp_event_Ok :
    (token : ℕ) (rd wr confirmed : Bool) (w : StreamWrite) (rs : List StreamRead)
    → Keeps (tcp_event token rd wr confirmed w rs)
unfolding tcp_event
tcp_event_Ok token rd wr confirmed w rs c h =
    let slot = slot_of_token token in
    let one : Part = finish_connect slot wr confirmed c in
    let two : Part = and_then one (only_if wr (write_part slot w)) in
    let three : Part = and_then two (only_if rd (read_loop slot rs)) in
    let last : TcpDestChannel → Part = λ c. (false, update_conn_interest slot c) in
    let done1 = finish_connect_Back slot wr confirmed c h in
    let done2 =
      and_then-Back one (only_if wr (write_part slot w)) done1
        (only_if_Back wr (write_part slot w) (write_part_Back slot w)) in
    let done3 =
      and_then-Back two (only_if rd (read_loop slot rs)) done2
        (only_if_Back rd (read_loop slot rs) (read_loop_Back slot rs)) in
    and_then-Back three last done3 (update_Ok slot)

close_from_Ok : (k : ℕ) → Keeps (close_from k)
unfolding close_from
close_from_Ok zero c h = h
close_from_Ok (suc k) c h =
    seq_Ok (close_slot (max_tcp_conns - suc k) false c) (close_from k)
      (close_slot_Ok (max_tcp_conns - suc k) false c h) (close_from_Ok k)

update_from_Ok : (k : ℕ) → Keeps (update_from k)
unfolding update_from
update_from_Ok zero c h = h
update_from_Ok (suc k) c h =
    seq_Ok (update_conn_interest (max_tcp_conns - suc k) c) (update_from k)
      (update_Ok (max_tcp_conns - suc k) c h) (update_from_Ok k)

pause_Ok : Keeps pause_source_reads
unfolding pause_source_reads
pause_Ok c h = elim (Bool-cases c.bp_paused) [
  | inl e ↦ follow (pause_source_reads c) (c, []) (ground arith) h
  | inr e ↦
      follow (pause_source_reads c) (update_from max_tcp_conns (record c { bp_paused = true }))
        (ground arith) (update_from_Ok max_tcp_conns (record c { bp_paused = true }) h)
]

resume_Ok : Keeps resume_source_reads
unfolding resume_source_reads
resume_Ok c h = elim (Bool-cases c.bp_paused) [
  | inl e ↦
      follow (resume_source_reads c) (update_from max_tcp_conns (record c { bp_paused = false }))
        (ground arith) (update_from_Ok max_tcp_conns (record c { bp_paused = false }) h)
  | inr e ↦ follow (resume_source_reads c) (c, []) (ground arith) h
]

handle_Ok : (e : Event) → Keeps (handle e)
unfolding handle on_link_connect on_link_disconnect close handle_event
handle_Ok (frame t p r) c h = on_frame_Ok t p r c h
handle_Ok link_connect c h = close_from_Ok max_tcp_conns c h
handle_Ok link_disconnect c h = close_from_Ok max_tcp_conns c h
handle_Ok (io token rd wr confirmed w rs) c h = tcp_event_Ok token rd wr confirmed w rs c h
handle_Ok pause c h = pause_Ok c h
handle_Ok resume c h = resume_Ok c h
handle_Ok closing c h = close_from_Ok max_tcp_conns c h

handle_all_Ok : (es : List Event) → Keeps (handle_all es)
unfolding handle_all
handle_all_Ok [] c h = h
handle_all_Ok (e ∷ es) c h =
    seq_Ok (handle e c) (handle_all es) (handle_Ok e c h) (handle_all_Ok es)

-- However much the far side sends, no connection of the destination channel ever has more than
-- `CONN_HIGH_WATER + MAX_PAYLOAD` bytes waiting, over any history from a new channel on, also while
-- the connect is not finished yet.
pub handle_all-Bounded_dest :
    (ch_id : ℕ) (es : List Event) → Bounded (handle_all es (new ch_id)).0.conns
unfolding new
handle_all-Bounded_dest ch_id es = handle_all_Ok es (new ch_id) (replicate-Bounded max_tcp_conns)
