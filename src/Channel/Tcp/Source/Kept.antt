-- ===== src/Channel/Tcp/Source/Kept.antt =====
-- The slots and the frames of the source channel keep the bound on the bytes that wait.
use pik.Base.{
  ℕ, ◌≤◌, ◌≡◌, sym, subst, Bool, true, false, List, [], ◌++◌, none, some, ◌==◌, leb, length,
  is_empty, arith, Option-cases, Bool-cases, inl, inr,
}
use pik.Protocol.{f_tdata, f_tclose}
use pik.Channel.Token.{max_tcp_conns}
use pik.Channel.Effect.{Effect, ◌▷◌}
use pik.Channel.Tcp.{
  TcpConn, get_slot, set_slot, unpack_cid, over_high_water, src_conn_update_interest,
}
use pik.Channel.Tcp.Slots.{
  conn_limit, SlotBounded, Bounded, get_slot-Bounded, set_slot-Bounded, over_high_water-le,
}
use pik.Channel.Tcp.Source.{
  TcpSourceChannel, close_slot, update_conn_interest, on_tdata, on_tclose, on_frame,
}

abbrev pub Ok : TcpSourceChannel × List Effect → Type 0
Ok p = Bounded p.0.conns

abbrev pub Keeps : (TcpSourceChannel → TcpSourceChannel × List Effect) → Type 0
Keeps f = (c : TcpSourceChannel) → Bounded c.conns → Ok (f c)

pub follow : (q p : TcpSourceChannel × List Effect) → q ≡ p → Ok p → Ok q
follow q p e h = subst Ok (sym e) h

pub close_slot_Ok : (slot : ℕ) (notify : Bool) → Keeps (close_slot slot notify)
unfolding close_slot
close_slot_Ok slot notify c h = elim (Option-cases (get_slot c.conns slot)) [
  | inl e ↦ follow (close_slot slot notify c) (c, []) (ground arith) h
  | inr (conn, e) ↦ subst Bounded (sym (closed conn e)) (set_slot-Bounded c.conns slot none h tt)
]
  where
    closed :
        (conn : TcpConn)
        → get_slot c.conns slot ≡ some conn
        → (close_slot slot notify c).0.conns ≡ set_slot c.conns slot none
    closed conn e = ground arith

same_txbuf :
    (ch_id : ℕ) (bp : Bool) (slot : ℕ) (conn : TcpConn)
    → (src_conn_update_interest ch_id bp slot conn).0.txbuf ≡ conn.txbuf
unfolding src_conn_update_interest
same_txbuf ch_id bp slot conn = ground arith

pub update_Ok : (slot : ℕ) → Keeps (update_conn_interest slot)
unfolding update_conn_interest
update_Ok slot c h = elim (Option-cases (get_slot c.conns slot)) [
  | inl e ↦ follow (update_conn_interest slot c) (c, []) (ground arith) h
  | inr (conn, e) ↦
      let conn' : TcpConn = (src_conn_update_interest c.ch_id c.bp_paused slot conn).0 in
      let small : SlotBounded (some conn) = subst SlotBounded e (get_slot-Bounded c.conns slot h) in
      subst Bounded (sym (updated conn e)) (
        set_slot-Bounded c.conns slot (some conn') h (
          subst (λ (xs : List ℕ). length xs ≤ conn_limit)
            (sym (same_txbuf c.ch_id c.bp_paused slot conn)) small))
]
  where
    updated :
        (conn : TcpConn)
        → get_slot c.conns slot ≡ some conn
        → (update_conn_interest slot c).0.conns
          ≡ set_slot c.conns slot (some (src_conn_update_interest c.ch_id c.bp_paused slot conn).0)
    updated conn e = ground arith

pub seq_Ok :
    (p : TcpSourceChannel × List Effect) (f : TcpSourceChannel → TcpSourceChannel × List Effect)
    → Ok p
    → Keeps f
    → Ok (p ▷ f)
seq_Ok (c, l) f h k = k c h

-- The queue of a slot is replaced by one that is no longer than the limit.
pub refill :
    (slot : ℕ) (conn : TcpConn) (c : TcpSourceChannel)
    → Bounded c.conns
    → length conn.txbuf ≤ conn_limit
    → Bounded (set_slot c.conns slot (some conn))
refill slot conn c h le = set_slot-Bounded c.conns slot (some conn) h le

on_tdata_Ok : (slot : ℕ) (d : List ℕ) → Keeps (on_tdata slot d)
unfolding on_tdata
on_tdata_Ok slot d c h = elim (Option-cases (get_slot c.conns slot)) [
  | inl e ↦ follow (on_tdata slot d c) (c, []) (ground arith) h
  | inr (conn, e) ↦ elim (Bool-cases (over_high_water conn.txbuf d)) [
    | inl z ↦
        follow (on_tdata slot d c) (close_slot slot true c) (ground arith)
          (close_slot_Ok slot true c h)
    | inr z ↦
        let more : TcpConn = record conn { txbuf = conn.txbuf ++ d } in
        let c' : TcpSourceChannel = record c { conns = set_slot c.conns slot (some more) } in
        follow (on_tdata slot d c) (update_conn_interest slot c') (ground arith)
          (update_Ok slot c' (refill slot more c h (over_high_water-le conn.txbuf d z)))
  ]
]

on_tclose_Ok : (slot : ℕ) → Keeps (on_tclose slot)
unfolding on_tclose
on_tclose_Ok slot c h = elim (Option-cases (get_slot c.conns slot)) [
  | inl e ↦ follow (on_tclose slot c) (c, []) (ground arith) h
  | inr (conn, e) ↦ elim (Bool-cases (is_empty conn.txbuf)) [
    | inl z ↦
        follow (on_tclose slot c) (close_slot slot false c) (ground arith)
          (close_slot_Ok slot false c h)
    | inr z ↦
        let last : TcpConn = record conn { close_pending = true } in
        let c' : TcpSourceChannel = record c { conns = set_slot c.conns slot (some last) } in
        follow (on_tclose slot c) (update_conn_interest slot c') (ground arith) (
          update_Ok slot c'
            (refill slot last c h (subst SlotBounded e (get_slot-Bounded c.conns slot h))))
  ]
]

pub on_frame_Ok : (t : ℕ) (p : List ℕ) → Keeps (on_frame t p)
unfolding on_frame
on_frame_Ok t p c h = elim (Option-cases (unpack_cid p)) [
  | inl e ↦ follow (on_frame t p c) (c, []) (ground arith) h
  | inr ((slot, d), e) ↦ elim (Bool-cases (leb max_tcp_conns slot)) [
    | inl z ↦ follow (on_frame t p c) (c, []) (ground arith) h
    | inr z ↦ elim (Bool-cases (t == f_tdata)) [
      | inl x ↦ elim (Bool-cases (is_empty d)) [
        | inl y ↦ follow (on_frame t p c) (c, []) (ground arith) h
        | inr y ↦
            follow (on_frame t p c) (on_tdata slot d c) (ground arith) (on_tdata_Ok slot d c h)
      ]
      | inr x ↦ elim (Bool-cases (t == f_tclose)) [
        | inl y ↦ follow (on_frame t p c) (on_tclose slot c) (ground arith) (on_tclose_Ok slot c h)
        | inr y ↦ follow (on_frame t p c) (c, []) (ground arith) h
      ]
    ]
  ]
]
