-- ===== src/Channel/Tcp/Dest/Laws.antt =====
-- `TcpDestChannel` obeys the laws that the daemon relies on.
use pik.Base.{
  ℕ, zero, suc, ◌+◌, ◌-◌, ◌≤◌, ◌<◌, ◌⊎◌, ◌≡◌, refl, ap, sym, subst, ◌∙◌, Bool, true, false, List,
  [], ◌∷◌, ◌++◌, none, some, ◌==◌, arith, Option-cases, Bool-cases, inl, inr,
}
use pik.Channel.Token.{slot_of_token, max_tcp_conns}
use pik.Channel.Effect.{Effect}
use pik.Channel.Tcp.{TcpConn, get_slot, set_slot, unpack_cid, StreamRead, StreamWrite}
use pik.Channel.Tcp.Slots.{get_slot-replicate, AllClosed, get_slot-cleared}
use pik.Channel.Tcp.Dest.{
  new, TcpDestChannel, Connect, bad_addr, refused, unregistered, started, open_conn, close_slot,
  update_conn_interest, Part, and_then, finish_connect, left_after, write_part, read_loop, only_if,
  tcp_event, on_tdata, on_tclose, on_tconn, on_frame, close_from, on_link_connect,
  on_link_disconnect, handle_event, update_from, pause_source_reads, resume_source_reads,
}

-- The pause does not change.
abbrev Steady : TcpDestChannel → TcpDestChannel → Type 0
Steady c c' = c'.bp_paused ≡ c.bp_paused

abbrev IsSteady : (TcpDestChannel → TcpDestChannel × List Effect) → Type 0
IsSteady f = (c : TcpDestChannel) → Steady c (f c).0

then_Steady :
    (f : TcpDestChannel → TcpDestChannel × List Effect) (c c' : TcpDestChannel)
    → Steady c c'
    → IsSteady f
    → Steady c (f c').0
then_Steady f c c' h k = k c' ∙ h

close_slot_Steady : (slot : ℕ) (notify : Bool) → IsSteady (close_slot slot notify)
unfolding close_slot
close_slot_Steady slot notify c = elim (Option-cases (get_slot c.conns slot)) [
  | inl e ↦ ground arith
  | inr (conn, e) ↦ ground arith
]

update_Steady : (slot : ℕ) → IsSteady (update_conn_interest slot)
unfolding update_conn_interest
update_Steady slot c = elim (Option-cases (get_slot c.conns slot)) [
  | inl e ↦ ground arith
  | inr (conn, e) ↦ ground arith
]

tdata_Steady : (slot : ℕ) (d : List ℕ) → IsSteady (on_tdata slot d)
unfolding on_tdata
tdata_Steady slot d c = elim (Option-cases (get_slot c.conns slot)) [
  | inl e ↦ ground arith
  | inr (conn, e) ↦
      let more : TcpConn = record conn { txbuf = conn.txbuf ++ d } in
      ground (
        arith,
        close_slot_Steady slot true c,
        update_Steady slot (record c { conns = set_slot c.conns slot (some more) }),
      )
]

tclose_Steady : (slot : ℕ) → IsSteady (on_tclose slot)
unfolding on_tclose
tclose_Steady slot c = elim (Option-cases (get_slot c.conns slot)) [
  | inl e ↦ ground arith
  | inr (conn, e) ↦
      let last : TcpConn = record conn { close_pending = true } in
      ground (
        arith,
        close_slot_Steady slot false c,
        update_Steady slot (record c { conns = set_slot c.conns slot (some last) }),
      )
]

tconn_Steady : (slot : ℕ) (r : Connect) → IsSteady (on_tconn slot r)
unfolding on_tconn open_conn
tconn_Steady slot bad_addr c = ground arith
tconn_Steady slot refused c = ground arith
tconn_Steady slot (unregistered s) c = ground arith
tconn_Steady slot (started s) c = ground arith

pub frame_Steady : (t : ℕ) (p : List ℕ) (r : Connect) → IsSteady (on_frame t p r)
unfolding on_frame
frame_Steady t p r c = elim (Option-cases (unpack_cid p)) [
  | inl e ↦ ground arith
  | inr ((slot, d), e) ↦
      ground (arith, tconn_Steady slot r c, tdata_Steady slot d c, tclose_Steady slot c)
]

abbrev PartSteady : (TcpDestChannel → Part) → Type 0
PartSteady f = (c : TcpDestChannel) → Steady c (f c).1.0

finish_Steady : (slot : ℕ) (wr ok : Bool) → PartSteady (finish_connect slot wr ok)
unfolding finish_connect
finish_Steady slot wr ok c = elim (Option-cases (get_slot c.conns slot)) [
  | inl e ↦ ground arith
  | inr (conn, e) ↦ ground (arith, close_slot_Steady slot true c)
]

write_Steady : (slot : ℕ) (w : StreamWrite) → PartSteady (write_part slot w)
unfolding write_part
write_Steady slot w c = elim (Option-cases (get_slot c.conns slot)) [
  | inl e ↦ ground arith
  | inr (conn, e) ↦ elim (Option-cases (left_after conn.connecting w conn.txbuf)) [
    | inl z ↦ ground (arith, close_slot_Steady slot true c)
    | inr (left, z) ↦
        let conn' : TcpConn = record conn { txbuf = left } in
        let c' : TcpDestChannel = record c { conns = set_slot c.conns slot (some conn') } in
        ground (arith, close_slot_Steady slot false c')
  ]
]

read_Steady : (slot : ℕ) (rs : List StreamRead) → PartSteady (read_loop slot rs)
unfolding read_loop
read_Steady slot [] c = elim (Option-cases (get_slot c.conns slot)) [
  | inl e ↦ ground arith
  | inr (conn, e) ↦ ground arith
]
read_Steady slot (StreamRead.bytes d ∷ rs) c =
    let more = read_Steady slot rs c in
    elim (Option-cases (get_slot c.conns slot)) [
      | inl e ↦ ground arith
      | inr (conn, e) ↦ ground (arith, more, close_slot_Steady slot true c)
    ]
read_Steady slot (StreamRead.would_block ∷ rs) c = elim (Option-cases (get_slot c.conns slot)) [
  | inl e ↦ ground arith
  | inr (conn, e) ↦ ground arith
]
read_Steady slot (StreamRead.failed ∷ rs) c = elim (Option-cases (get_slot c.conns slot)) [
  | inl e ↦ ground arith
  | inr (conn, e) ↦ ground (arith, close_slot_Steady slot true c)
]

and_then-Steady :
    (c : TcpDestChannel) (p : Part) (f : TcpDestChannel → Part)
    → Steady c p.1.0
    → PartSteady f
    → Steady c (and_then p f).1.0
and_then-Steady c (true, p) f h k = h
and_then-Steady c (false, (d, l)) f h k = k d ∙ h

only_if-Steady : (b : Bool) (f : TcpDestChannel → Part) → PartSteady f → PartSteady (only_if b f)
only_if-Steady true f k c = k c
only_if-Steady false f k c = refl

tcp_Steady :
    (token : ℕ) (rd wr ok : Bool) (w : StreamWrite) (rs : List StreamRead)
    → IsSteady (tcp_event token rd wr ok w rs)
unfolding tcp_event
tcp_Steady token rd wr ok w rs c =
    let slot = slot_of_token token in
    let one : Part = finish_connect slot wr ok c in
    let two : Part = and_then one (only_if wr (write_part slot w)) in
    let three : Part = and_then two (only_if rd (read_loop slot rs)) in
    let last : TcpDestChannel → Part = λ c. (false, update_conn_interest slot c) in
    let h2 =
      and_then-Steady c one (only_if wr (write_part slot w)) (finish_Steady slot wr ok c)
        (only_if-Steady wr (write_part slot w) (write_Steady slot w)) in
    let h3 =
      and_then-Steady c two (only_if rd (read_loop slot rs)) h2
        (only_if-Steady rd (read_loop slot rs) (read_Steady slot rs)) in
    and_then-Steady c three last h3 (update_Steady slot)

pub event_Steady :
    (token : ℕ) (rd wr ok : Bool) (w : StreamWrite) (rs : List StreamRead)
    → IsSteady (handle_event token rd wr ok w rs)
unfolding handle_event
event_Steady token rd wr ok w rs c = tcp_Steady token rd wr ok w rs c

pub close_from_Steady : (k : ℕ) → IsSteady (close_from k)
unfolding close_from
close_from_Steady zero c = refl
close_from_Steady (suc k) c =
    let c' = (close_slot (max_tcp_conns - suc k) false c).0 in
    then_Steady (close_from k) c c' (close_slot_Steady (max_tcp_conns - suc k) false c)
      (close_from_Steady k)

update_from_Steady : (k : ℕ) → IsSteady (update_from k)
unfolding update_from
update_from_Steady zero c = refl
update_from_Steady (suc k) c =
    let c' = (update_conn_interest (max_tcp_conns - suc k) c).0 in
    then_Steady (update_from k) c c' (update_Steady (max_tcp_conns - suc k) c)
      (update_from_Steady k)

-- `close_slot` frees its slot and no other is taken.
close_slot-frees :
    (slot : ℕ) (notify : Bool) (j : ℕ) (c : TcpDestChannel)
    → (slot ≡ j) ⊎ (get_slot c.conns j ≡ none)
    → get_slot (close_slot slot notify c).0.conns j ≡ none
unfolding close_slot
close_slot-frees slot notify j c h = elim (Option-cases (get_slot c.conns slot)) [
  | inl e ↦ free h (ground arith) e
  | inr (conn, e) ↦ ground (arith, get_slot-cleared c.conns slot j h)
]
  where
    free :
        (slot ≡ j) ⊎ (get_slot c.conns j ≡ none)
        → close_slot slot notify c ≡ (c, [])
        → get_slot c.conns slot ≡ none
        → get_slot (close_slot slot notify c).0.conns j ≡ none
    free (inl s) k e = rw k (subst (λ j. get_slot c.conns j ≡ none) s e)
    free (inr e') k e = rw k e'

close_from-frees :
    (k j : ℕ) (c : TcpDestChannel)
    → j < max_tcp_conns
    → k ≤ max_tcp_conns
    → (max_tcp_conns ≤ j + k) ⊎ (get_slot c.conns j ≡ none)
    → get_slot (close_from k c).0.conns j ≡ none
unfolding close_from
close_from-frees zero j c h le (inl m) = absurd (omega arith)
close_from-frees zero j c h le (inr e) = e
close_from-frees (suc k) j c h le o =
    let c' = (close_slot (max_tcp_conns - suc k) false c).0 in
    close_from-frees k j c' h (omega arith) (next o (Bool-cases (max_tcp_conns - suc k == j)))
  where
    next :
        (max_tcp_conns ≤ j + suc k) ⊎ (get_slot c.conns j ≡ none)
        → ((max_tcp_conns - suc k == j) ≡ true) ⊎ ((max_tcp_conns - suc k == j) ≡ false)
        → (max_tcp_conns ≤ j + k)
          ⊎ (get_slot (close_slot (max_tcp_conns - suc k) false c).0.conns j ≡ none)
    next o (inl e) = inr (close_slot-frees (max_tcp_conns - suc k) false j c (inl (ground arith)))
    next (inl m) (inr e) = inl (ground arith)
    next (inr z) (inr e) = inr (close_slot-frees (max_tcp_conns - suc k) false j c (inr z))

-- The link is down: no connection is open.
abbrev pub Down : TcpDestChannel → Type 0
Down c = AllClosed c.conns

pub connect_lem :
    (c : TcpDestChannel)
    → ((on_link_connect c).0.bp_paused ≡ c.bp_paused)
      × ((on_link_disconnect c).0.bp_paused ≡ c.bp_paused)
      × Down (on_link_disconnect c).0
unfolding on_link_connect on_link_disconnect
connect_lem c =
    let m = close_from_Steady max_tcp_conns c in
    (m, m, λ s h. close_from-frees max_tcp_conns s c h (omega arith) (inl (omega arith)))

-- With no connection an event changes nothing and queues nothing.
pub event-Down :
    (token : ℕ) (rd wr ok : Bool) (w : StreamWrite) (rs : List StreamRead) (c : TcpDestChannel)
    → Down c
    → handle_event token rd wr ok w rs c ≡ (c, [])
unfolding handle_event tcp_event finish_connect
event-Down token rd wr ok w rs c h =
    let free = h (slot_of_token token) (unfold slot_of_token in omega arith) in ground (arith, free)

pub update_closed :
    (k : ℕ) (c : TcpDestChannel) → k ≤ max_tcp_conns → AllClosed c.conns → (update_from k c).0 ≡ c
unfolding update_from update_conn_interest
update_closed zero c h k = refl
update_closed (suc n) c h k =
    let free = k (max_tcp_conns - suc n) (omega arith) in
    let same : (update_conn_interest (max_tcp_conns - suc n) c).0 ≡ c = ground arith in
    ap (λ c. (update_from n c).0) same ∙ update_closed n c (omega arith) k

pub pause-paused : (c : TcpDestChannel) → (pause_source_reads c).0.bp_paused ≡ true
unfolding pause_source_reads
pause-paused c = ground (arith, update_from_Steady max_tcp_conns (record c { bp_paused = true }))

pub resume-paused : (c : TcpDestChannel) → (resume_source_reads c).0.bp_paused ≡ false
unfolding resume_source_reads
resume-paused c = ground (arith, update_from_Steady max_tcp_conns (record c { bp_paused = false }))

pub resume-Down : (c : TcpDestChannel) → Down c → Down (resume_source_reads c).0
unfolding resume_source_reads
resume-Down c h = elim (Bool-cases c.bp_paused) [
  | inl e ↦
      let c' : TcpDestChannel = record c { bp_paused = false } in
      let same = update_closed max_tcp_conns c' (omega arith) h in
      subst (λ (q : TcpDestChannel × List Effect). Down q.0) (sym (resumes e))
        (subst Down (sym same) h)
  | inr e ↦ subst (λ (q : TcpDestChannel × List Effect). Down q.0) (sym (stays e)) h
]
  where
    resumes :
        c.bp_paused ≡ true
        → resume_source_reads c ≡ update_from max_tcp_conns (record c { bp_paused = false })
    resumes e = ground arith

    stays : c.bp_paused ≡ false → resume_source_reads c ≡ (c, [])
    stays e = ground arith

pub new_lem : (id : ℕ) → ((new id).ch_id ≡ id) × ((new id).bp_paused ≡ false) × Down (new id)
unfolding new
new_lem id = (refl, refl, λ s h. get_slot-replicate max_tcp_conns s)
