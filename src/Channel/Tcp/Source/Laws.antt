-- ===== src/Channel/Tcp/Source/Laws.antt =====
-- `TcpSourceChannel` obeys the laws that the daemon relies on.
use pik.Base.{
  ℕ, zero, suc, ◌+◌, ◌-◌, ◌≤◌, ◌<◌, ◌⊎◌, ◌≡◌, refl, ap, sym, subst, ◌∙◌, Bool, true, false, List,
  [], ◌∷◌, ◌++◌, none, some, ◌==◌, arith, Option-cases, Bool-cases, inl, inr,
}
use pik.Channel.Token.{primary_token, slot_of_token, max_tcp_conns}
use pik.Channel.Effect.{Effect}
use pik.Channel.Interface.{NoFrame, NoFrame-append}
use pik.Channel.Tcp.{TcpConn, get_slot, set_slot, unpack_cid, StreamRead, StreamWrite}
use pik.Channel.Tcp.Slots.{get_slot-replicate, AllClosed, get_slot-cleared}
use pik.Channel.Tcp.Source.{
  new, TcpSourceChannel, alloc_slot, alloc_from, Accepted, accept_one, accept, close_slot,
  update_conn_interest, read_loop, after_write, write_part, then_write, tcp_event, close_from,
  close_all, on_tdata, on_tclose, on_frame, on_link_connect, on_link_disconnect, handle_event,
  update_from, pause_source_reads, resume_source_reads,
}

-- Neither the pause nor the link changes.
abbrev Steady : TcpSourceChannel → TcpSourceChannel → Type 0
Steady c c' = (c'.bp_paused ≡ c.bp_paused) × (c'.link_up ≡ c.link_up)

abbrev IsSteady : (TcpSourceChannel → TcpSourceChannel × List Effect) → Type 0
IsSteady f = (c : TcpSourceChannel) → Steady c (f c).0

then_Steady :
    (f : TcpSourceChannel → TcpSourceChannel × List Effect) (c c' : TcpSourceChannel)
    → Steady c c'
    → IsSteady f
    → Steady c (f c').0
then_Steady f c c' h k = let m = k c' in (m.0 ∙ h.0, m.1 ∙ h.1)

close_slot_Steady : (slot : ℕ) (notify : Bool) → IsSteady (close_slot slot notify)
unfolding close_slot
close_slot_Steady slot notify c = elim (Option-cases (get_slot c.conns slot)) [
  | inl e ↦ ground arith
  | inr (conn, e) ↦ ground arith
]

update_Steady : (slot : ℕ) → IsSteady (update_conn_interest slot)
unfolding update_conn_interest
update_Steady slot c = elim (Option-cases (get_slot c.conns slot)) [
  | inl e ↦ ground arith
  | inr (conn, e) ↦ ground arith
]

tdata_Steady : (slot : ℕ) (d : List ℕ) → IsSteady (on_tdata slot d)
unfolding on_tdata
tdata_Steady slot d c = elim (Option-cases (get_slot c.conns slot)) [
  | inl e ↦ ground arith
  | inr (conn, e) ↦
      let more : TcpConn = record conn { txbuf = conn.txbuf ++ d } in
      ground (
        arith,
        close_slot_Steady slot true c,
        update_Steady slot (record c { conns = set_slot c.conns slot (some more) }),
      )
]

tclose_Steady : (slot : ℕ) → IsSteady (on_tclose slot)
unfolding on_tclose
tclose_Steady slot c = elim (Option-cases (get_slot c.conns slot)) [
  | inl e ↦ ground arith
  | inr (conn, e) ↦
      let last : TcpConn = record conn { close_pending = true } in
      ground (
        arith,
        close_slot_Steady slot false c,
        update_Steady slot (record c { conns = set_slot c.conns slot (some last) }),
      )
]

pub frame_Steady : (t : ℕ) (p : List ℕ) → IsSteady (on_frame t p)
unfolding on_frame
frame_Steady t p c = elim (Option-cases (unpack_cid p)) [
  | inl e ↦ ground arith
  | inr ((slot, d), e) ↦ ground (arith, tdata_Steady slot d c, tclose_Steady slot c)
]

read_Steady :
    (slot : ℕ) (rs : List StreamRead) (c : TcpSourceChannel) → Steady c (read_loop slot rs c).1.0
unfolding read_loop
read_Steady slot [] c = elim (Option-cases (get_slot c.conns slot)) [
  | inl e ↦ ground arith
  | inr (conn, e) ↦ ground arith
]
read_Steady slot (StreamRead.bytes d ∷ rs) c =
    let more = read_Steady slot rs c in
    elim (Option-cases (get_slot c.conns slot)) [
      | inl e ↦ ground arith
      | inr (conn, e) ↦ ground (arith, more, close_slot_Steady slot true c)
    ]
read_Steady slot (StreamRead.would_block ∷ rs) c = elim (Option-cases (get_slot c.conns slot)) [
  | inl e ↦ ground arith
  | inr (conn, e) ↦ ground arith
]
read_Steady slot (StreamRead.failed ∷ rs) c = elim (Option-cases (get_slot c.conns slot)) [
  | inl e ↦ ground arith
  | inr (conn, e) ↦ ground (arith, close_slot_Steady slot true c)
]

write_Steady : (slot : ℕ) (w : StreamWrite) → IsSteady (write_part slot w)
unfolding write_part
write_Steady slot w c = elim (Option-cases (get_slot c.conns slot)) [
  | inl e ↦ ground arith
  | inr (conn, e) ↦ elim (Option-cases (after_write w conn.txbuf)) [
    | inl z ↦ ground (arith, close_slot_Steady slot true c)
    | inr (left, z) ↦
        let conn' : TcpConn = record conn { txbuf = left } in
        let c' : TcpSourceChannel = record c { conns = set_slot c.conns slot (some conn') } in
        ground (arith, close_slot_Steady slot false c', update_Steady slot c')
  ]
]

then_write-Steady :
    (wr : Bool) (slot : ℕ) (w : StreamWrite) (c : TcpSourceChannel)
    (p : Bool × (TcpSourceChannel × List Effect))
    → Steady c p.1.0
    → Steady c (then_write wr slot w p).0
then_write-Steady wr slot w c (true, p) h = h
then_write-Steady true slot w c (false, p) h =
    then_Steady (write_part slot w) c p.0 h (write_Steady slot w)
then_write-Steady false slot w c (false, p) h = h

tcp_Steady :
    (token : ℕ) (rd wr : Bool) (rs : List StreamRead) (w : StreamWrite)
    → IsSteady (tcp_event token rd wr rs w)
unfolding tcp_event
tcp_Steady token true wr rs w c =
    then_write-Steady wr (slot_of_token token) w c _ (read_Steady (slot_of_token token) rs c)
tcp_Steady token false wr rs w c =
    then_write-Steady wr (slot_of_token token) w c (false, (c, [])) (refl, refl)

accept_one_Steady : (a : Accepted) → IsSteady (accept_one a)
unfolding accept_one alloc_slot
accept_one_Steady a c = elim (Option-cases (alloc_from max_tcp_conns c.next_slot c.conns).0) [
  | inl e ↦ ground arith
  | inr (s, e) ↦ ground arith
]

accept_Steady : (l : List Accepted) → IsSteady (accept l)
unfolding accept
accept_Steady [] c = (refl, refl)
accept_Steady (a ∷ l) c =
    then_Steady (accept l) c (accept_one a c).0 (accept_one_Steady a c) (accept_Steady l)

pub event_Steady :
    (token : ℕ) (rd wr : Bool) (a : List Accepted) (rs : List StreamRead) (w : StreamWrite)
    → IsSteady (handle_event token rd wr a rs w)
unfolding handle_event
event_Steady token rd wr a rs w c = ground (arith, accept_Steady a c, tcp_Steady token rd wr rs w c)

pub close_from_Steady : (k : ℕ) → IsSteady (close_from k)
unfolding close_from
close_from_Steady zero c = (refl, refl)
close_from_Steady (suc k) c =
    let c' = (close_slot (max_tcp_conns - suc k) false c).0 in
    then_Steady (close_from k) c c' (close_slot_Steady (max_tcp_conns - suc k) false c)
      (close_from_Steady k)

update_from_Steady : (k : ℕ) → IsSteady (update_from k)
unfolding update_from
update_from_Steady zero c = (refl, refl)
update_from_Steady (suc k) c =
    let c' = (update_conn_interest (max_tcp_conns - suc k) c).0 in
    then_Steady (update_from k) c c' (update_Steady (max_tcp_conns - suc k) c)
      (update_from_Steady k)

-- `close_slot` frees its slot and no other is taken.
close_slot-frees :
    (slot : ℕ) (notify : Bool) (j : ℕ) (c : TcpSourceChannel)
    → (slot ≡ j) ⊎ (get_slot c.conns j ≡ none)
    → get_slot (close_slot slot notify c).0.conns j ≡ none
unfolding close_slot
close_slot-frees slot notify j c h = elim (Option-cases (get_slot c.conns slot)) [
  | inl e ↦ free h (ground arith) e
  | inr (conn, e) ↦ ground (arith, get_slot-cleared c.conns slot j h)
]
  where
    free :
        (slot ≡ j) ⊎ (get_slot c.conns j ≡ none)
        → close_slot slot notify c ≡ (c, [])
        → get_slot c.conns slot ≡ none
        → get_slot (close_slot slot notify c).0.conns j ≡ none
    free (inl s) k e = rw k (subst (λ j. get_slot c.conns j ≡ none) s e)
    free (inr e') k e = rw k e'

close_from-frees :
    (k j : ℕ) (c : TcpSourceChannel)
    → j < max_tcp_conns
    → k ≤ max_tcp_conns
    → (max_tcp_conns ≤ j + k) ⊎ (get_slot c.conns j ≡ none)
    → get_slot (close_from k c).0.conns j ≡ none
unfolding close_from
close_from-frees zero j c h le (inl m) = absurd (omega arith)
close_from-frees zero j c h le (inr e) = e
close_from-frees (suc k) j c h le o =
    let c' = (close_slot (max_tcp_conns - suc k) false c).0 in
    close_from-frees k j c' h (omega arith) (next o (Bool-cases (max_tcp_conns - suc k == j)))
  where
    next :
        (max_tcp_conns ≤ j + suc k) ⊎ (get_slot c.conns j ≡ none)
        → ((max_tcp_conns - suc k == j) ≡ true) ⊎ ((max_tcp_conns - suc k == j) ≡ false)
        → (max_tcp_conns ≤ j + k)
          ⊎ (get_slot (close_slot (max_tcp_conns - suc k) false c).0.conns j ≡ none)
    next o (inl e) = inr (close_slot-frees (max_tcp_conns - suc k) false j c (inl (ground arith)))
    next (inl m) (inr e) = inl (ground arith)
    next (inr z) (inr e) = inr (close_slot-frees (max_tcp_conns - suc k) false j c (inr z))

-- The link is down: no connection is open.
abbrev pub Down : TcpSourceChannel → Type 0
Down c = (c.link_up ≡ false) × AllClosed c.conns

pub disconnect_lem :
    (c : TcpSourceChannel)
    → ((on_link_disconnect c).0.bp_paused ≡ c.bp_paused) × Down (on_link_disconnect c).0
unfolding on_link_disconnect close_all
disconnect_lem c =
    let c' : TcpSourceChannel = record c { link_up = false } in
    let m = close_from_Steady max_tcp_conns c' in
    (m.0, (m.1, λ s h. close_from-frees max_tcp_conns s c' h (omega arith) (inl (omega arith))))

pub connect-paused : (c : TcpSourceChannel) → (on_link_connect c).0.bp_paused ≡ c.bp_paused
unfolding on_link_connect
connect-paused c = refl

accept_one-Down :
    (a : Accepted) (c : TcpSourceChannel)
    → c.link_up ≡ false
    → ((accept_one a c).0 ≡ c) × NoFrame (accept_one a c).1
unfolding accept_one
accept_one-Down a c e = ground arith

accept-Down :
    (l : List Accepted) (c : TcpSourceChannel)
    → c.link_up ≡ false
    → ((accept l c).0 ≡ c) × NoFrame (accept l c).1
unfolding accept
accept-Down [] c e = (refl, tt)
accept-Down (a ∷ l) c e =
    let first = accept_one-Down a c e in
    let later =
      accept-Down l (accept_one a c).0 (ap (λ (c : TcpSourceChannel). c.link_up) first.0 ∙ e) in
    (
      later.0 ∙ first.0,
      NoFrame-append (accept_one a c).1 (accept l (accept_one a c).0).1 first.1 later.1,
    )

read_closed :
    (slot : ℕ) (rs : List StreamRead) (c : TcpSourceChannel)
    → get_slot c.conns slot ≡ none
    → read_loop slot rs c ≡ (true, (c, []))
unfolding read_loop
read_closed slot [] c e = ground arith
read_closed slot (r ∷ rs) c e = ground arith

tcp_closed :
    (token : ℕ) (rd wr : Bool) (rs : List StreamRead) (w : StreamWrite) (c : TcpSourceChannel)
    → get_slot c.conns (slot_of_token token) ≡ none
    → tcp_event token rd wr rs w c ≡ (c, [])
unfolding tcp_event write_part
tcp_closed token true wr rs w c e = rw (read_closed (slot_of_token token) rs c e) refl
tcp_closed token false true rs w c e = ground arith
tcp_closed token false false rs w c e = refl

-- With the link down an event changes nothing and queues nothing.
pub event-Down :
    (token : ℕ) (rd wr : Bool) (a : List Accepted) (rs : List StreamRead) (w : StreamWrite)
    (c : TcpSourceChannel)
    → Down c
    → ((handle_event token rd wr a rs w c).0 ≡ c) × NoFrame (handle_event token rd wr a rs w c).1
unfolding handle_event
event-Down token rd wr a rs w c h =
    let closed =
      tcp_closed token rd wr rs w c
        (h.1 (slot_of_token token) (unfold slot_of_token in omega arith)) in
    elim (Bool-cases (token == primary_token c.ch_id)) [
      | inl e ↦ elim (Bool-cases rd) [
        | inl z ↦ ground (arith, accept-Down a c h.0)
        | inr z ↦ ground arith
      ]
      | inr e ↦ ground (arith, closed)
    ]

pub update_closed :
    (k : ℕ) (c : TcpSourceChannel) → k ≤ max_tcp_conns → AllClosed c.conns → (update_from k c).0 ≡ c
unfolding update_from update_conn_interest
update_closed zero c h k = refl
update_closed (suc n) c h k =
    let free = k (max_tcp_conns - suc n) (omega arith) in
    let same : (update_conn_interest (max_tcp_conns - suc n) c).0 ≡ c = ground arith in
    ap (λ c. (update_from n c).0) same ∙ update_closed n c (omega arith) k

pub pause-paused : (c : TcpSourceChannel) → (pause_source_reads c).0.bp_paused ≡ true
unfolding pause_source_reads
pause-paused c =
    ground (arith, (update_from_Steady max_tcp_conns (record c { bp_paused = true })).0)

pub resume-paused : (c : TcpSourceChannel) → (resume_source_reads c).0.bp_paused ≡ false
unfolding resume_source_reads
resume-paused c =
    ground (arith, (update_from_Steady max_tcp_conns (record c { bp_paused = false })).0)

pub resume-Down : (c : TcpSourceChannel) → Down c → Down (resume_source_reads c).0
unfolding resume_source_reads
resume-Down c h = elim (Bool-cases c.bp_paused) [
  | inl e ↦
      let c' : TcpSourceChannel = record c { bp_paused = false } in
      let same = update_closed max_tcp_conns c' (omega arith) h.1 in
      subst (λ (q : TcpSourceChannel × List Effect). Down q.0) (sym (resumes e))
        (subst Down (sym same) h)
  | inr e ↦ subst (λ (q : TcpSourceChannel × List Effect). Down q.0) (sym (stays e)) h
]
  where
    resumes :
        c.bp_paused ≡ true
        → resume_source_reads c ≡ update_from max_tcp_conns (record c { bp_paused = false })
    resumes e = ground arith

    stays : c.bp_paused ≡ false → resume_source_reads c ≡ (c, [])
    stays e = ground arith

pub new_lem :
    (id listener : ℕ)
    → ((new id listener).0.ch_id ≡ id)
      × ((new id listener).0.bp_paused ≡ false)
      × Down (new id listener).0
unfolding new
new_lem id listener = (refl, refl, (refl, λ s h. get_slot-replicate max_tcp_conns s))
