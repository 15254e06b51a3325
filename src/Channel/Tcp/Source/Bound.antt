-- ===== src/Channel/Tcp/Source/Bound.antt =====
-- The bytes that wait for one connection of the source channel are bounded.
use pik.Base.{
  ℕ, zero, suc, ◌-◌, ◌≤◌, ◌≡◌, sym, subst, Bool, true, false, List, [], ◌∷◌, Option, none, some,
  ◌&&◌, ◌==◌, length, is_empty, arith, Option-cases, Bool-cases, inl, inr, length-drop,
}
use pik.Channel.Token.{primary_token, slot_of_token, max_tcp_conns}
use pik.Channel.Effect.{Effect}
use pik.Channel.Tcp.{TcpConn, get_slot, set_slot, StreamRead, StreamWrite}
use pik.Channel.Tcp.Slots.{SlotBounded, Bounded, get_slot-Bounded, replicate-Bounded}
use pik.Channel.Tcp.Source.{
  TcpSourceChannel, alloc_slot, Accepted, fresh_conn, accept_one, accept, close_slot, take_slot,
  update_conn_interest, read_loop, after_write, write_part, then_write, tcp_event, close_from,
  close_all, on_link_connect, on_link_disconnect, handle_event, close, update_from,
  pause_source_reads, resume_source_reads, Event, frame, link_connect, link_disconnect, io, pause,
  resume, closing, handle, handle_all, new,
}
use pik.Channel.Tcp.Source.Kept.{
  Ok, Keeps, follow, close_slot_Ok, update_Ok, seq_Ok, refill, on_frame_Ok,
}

abbrev Back : Bool × (TcpSourceChannel × List Effect) → Type 0
Back p = Bounded p.1.0.conns

read_loop_Ok :
    (slot : ℕ) (rs : List StreamRead) (c : TcpSourceChannel)
    → Bounded c.conns
    → Back (read_loop slot rs c)
unfolding read_loop
read_loop_Ok slot [] c h = elim (Option-cases (get_slot c.conns slot)) [
  | inl e ↦ subst Back (sym (none_left e)) h
  | inr (conn, e) ↦ subst Back (sym (some_left conn e)) h
]
  where
    none_left : get_slot c.conns slot ≡ none → read_loop slot [] c ≡ (true, (c, []))
    none_left e = ground arith

    some_left :
        (conn : TcpConn)
        → get_slot c.conns slot ≡ some conn
        → read_loop slot [] c ≡ (false, (c, []))
    some_left conn e = ground arith
read_loop_Ok slot (StreamRead.bytes d ∷ rs) c h =
    let more = read_loop_Ok slot rs c h in
    let closed = close_slot_Ok slot true c h in
    elim (Option-cases (get_slot c.conns slot)) [
      | inl e ↦ ground (arith, h)
      | inr (conn, e) ↦ ground (arith, more, closed, h)
    ]
read_loop_Ok slot (StreamRead.would_block ∷ rs) c h = elim (Option-cases (get_slot c.conns slot)) [
  | inl e ↦ ground (arith, h)
  | inr (conn, e) ↦ ground (arith, h)
]
read_loop_Ok slot (StreamRead.failed ∷ rs) c h =
    let closed = close_slot_Ok slot true c h in
    elim (Option-cases (get_slot c.conns slot)) [
      | inl e ↦ ground (arith, h)
      | inr (conn, e) ↦ ground (arith, closed, h)
    ]

-- A write only takes bytes off the queue.
pub after_write-le :
    (w : StreamWrite) (xs : List ℕ) {left : List ℕ}
    → after_write w xs ≡ some left
    → length left ≤ length xs
after_write-le w [] h = ground arith
after_write-le (StreamWrite.wrote n) (x ∷ xs) h = ground (arith, length-drop n (x ∷ xs))
after_write-le StreamWrite.would_block (x ∷ xs) h = ground arith
after_write-le StreamWrite.failed (x ∷ xs) h = ground arith

write_part_Ok : (slot : ℕ) (w : StreamWrite) → Keeps (write_part slot w)
unfolding write_part
write_part_Ok slot w c h = elim (Option-cases (get_slot c.conns slot)) [
  | inl e ↦ follow (write_part slot w c) (c, []) (ground arith) h
  | inr (conn, e) ↦ elim (Option-cases (after_write w conn.txbuf)) [
    | inl z ↦
        follow (write_part slot w c) (close_slot slot true c) (ground arith)
          (close_slot_Ok slot true c h)
    | inr (left, z) ↦
        let conn' : TcpConn = record conn { txbuf = left } in
        let c' : TcpSourceChannel = record c { conns = set_slot c.conns slot (some conn') } in
        let small : SlotBounded (some conn) =
          subst SlotBounded e (get_slot-Bounded c.conns slot h) in
        let h' = refill slot conn' c h (omega (arith, after_write-le w conn.txbuf z)) in
        elim (Bool-cases (is_empty left && conn.close_pending)) [
          | inl y ↦
              follow (write_part slot w c) (close_slot slot false c') (ground arith)
                (close_slot_Ok slot false c' h')
          | inr y ↦
              follow (write_part slot w c) (update_conn_interest slot c') (ground arith)
                (update_Ok slot c' h')
        ]
  ]
]

then_write-Ok :
    (wr : Bool) (slot : ℕ) (w : StreamWrite) (p : Bool × (TcpSourceChannel × List Effect))
    → Back p
    → Ok (then_write wr slot w p)
then_write-Ok wr slot w (true, p) h = h
then_write-Ok true slot w (false, p) h = seq_Ok p (write_part slot w) h (write_part_Ok slot w)
then_write-Ok false slot w (false, p) h = h

tcp_event_Ok :
    (token : ℕ) (rd wr : Bool) (rs : List StreamRead) (w : StreamWrite)
    → Keeps (tcp_event token rd wr rs w)
unfolding tcp_event
tcp_event_Ok token true wr rs w c h =
    then_write-Ok wr (slot_of_token token) w _ (read_loop_Ok (slot_of_token token) rs c h)
tcp_event_Ok token false wr rs w c h = then_write-Ok wr (slot_of_token token) w (false, (c, [])) h

take_slot-Ok :
    (a : Accepted) (slot : Option ℕ) (c : TcpSourceChannel)
    → Bounded c.conns
    → Ok (take_slot a (slot, c))
take_slot-Ok a none c h = h
take_slot-Ok a (some slot) c h = elim (Bool-cases a.registers) [
  | inl e ↦
      let placed = refill slot (fresh_conn a.stream) c h (unfold fresh_conn in omega arith) in
      ground (arith, placed)
  | inr e ↦ ground (arith, h)
]

accept_one_Ok : (a : Accepted) → Keeps (accept_one a)
unfolding accept_one alloc_slot
accept_one_Ok a c h = elim (Bool-cases c.link_up) [
  | inl e ↦
      follow (accept_one a c) (take_slot a (alloc_slot c)) (ground arith)
        (take_slot-Ok a (alloc_slot c).0 (alloc_slot c).1 h)
  | inr e ↦ ground (arith, h)
]

accept_Ok : (l : List Accepted) → Keeps (accept l)
unfolding accept
accept_Ok [] c h = h
accept_Ok (a ∷ l) c h = seq_Ok (accept_one a c) (accept l) (accept_one_Ok a c h) (accept_Ok l)

close_from_Ok : (k : ℕ) → Keeps (close_from k)
unfolding close_from
close_from_Ok zero c h = h
close_from_Ok (suc k) c h =
    seq_Ok (close_slot (max_tcp_conns - suc k) false c) (close_from k)
      (close_slot_Ok (max_tcp_conns - suc k) false c h) (close_from_Ok k)

update_from_Ok : (k : ℕ) → Keeps (update_from k)
unfolding update_from
update_from_Ok zero c h = h
update_from_Ok (suc k) c h =
    seq_Ok (update_conn_interest (max_tcp_conns - suc k) c) (update_from k)
      (update_Ok (max_tcp_conns - suc k) c h) (update_from_Ok k)

pause_Ok : Keeps pause_source_reads
unfolding pause_source_reads
pause_Ok c h = elim (Bool-cases c.bp_paused) [
  | inl e ↦ follow (pause_source_reads c) (c, []) (ground arith) h
  | inr e ↦
      follow (pause_source_reads c) (update_from max_tcp_conns (record c { bp_paused = true }))
        (ground arith) (update_from_Ok max_tcp_conns (record c { bp_paused = true }) h)
]

resume_Ok : Keeps resume_source_reads
unfolding resume_source_reads
resume_Ok c h = elim (Bool-cases c.bp_paused) [
  | inl e ↦
      follow (resume_source_reads c) (update_from max_tcp_conns (record c { bp_paused = false }))
        (ground arith) (update_from_Ok max_tcp_conns (record c { bp_paused = false }) h)
  | inr e ↦ follow (resume_source_reads c) (c, []) (ground arith) h
]

io_Ok :
    (token : ℕ) (rd wr : Bool) (a : List Accepted) (rs : List StreamRead) (w : StreamWrite)
    → Keeps (handle_event token rd wr a rs w)
unfolding handle_event
io_Ok token rd wr a rs w c h = elim (Bool-cases (token == primary_token c.ch_id)) [
  | inr e ↦
      follow (handle_event token rd wr a rs w c) (tcp_event token rd wr rs w c) (ground arith)
        (tcp_event_Ok token rd wr rs w c h)
  | inl e ↦ elim (Bool-cases rd) [
    | inl z ↦
        follow (handle_event token rd wr a rs w c) (accept a c) (ground arith) (accept_Ok a c h)
    | inr z ↦ follow (handle_event token rd wr a rs w c) (c, []) (ground arith) h
  ]
]

handle_Ok : (e : Event) → Keeps (handle e)
unfolding handle on_link_connect on_link_disconnect close close_all
handle_Ok (frame t p) c h = on_frame_Ok t p c h
handle_Ok link_connect c h = h
handle_Ok link_disconnect c h = close_from_Ok max_tcp_conns (record c { link_up = false }) h
handle_Ok (io token rd wr a rs w) c h = io_Ok token rd wr a rs w c h
handle_Ok pause c h = pause_Ok c h
handle_Ok resume c h = resume_Ok c h
handle_Ok closing c h = close_from_Ok max_tcp_conns c h

handle_all_Ok : (es : List Event) → Keeps (handle_all es)
unfolding handle_all
handle_all_Ok [] c h = h
handle_all_Ok (e ∷ es) c h =
    seq_Ok (handle e c) (handle_all es) (handle_Ok e c h) (handle_all_Ok es)

-- However much the far side sends, no connection of the source channel ever has more than
-- `CONN_HIGH_WATER + MAX_PAYLOAD` bytes waiting, over any history from a new channel on.
pub handle_all-Bounded :
    (ch_id listener : ℕ) (es : List Event) → Bounded (handle_all es (new ch_id listener).0).0.conns
unfolding new
handle_all-Bounded ch_id listener es =
    handle_all_Ok es (new ch_id listener).0 (replicate-Bounded max_tcp_conns)
