-- ===== src/Channel/Pty/Paired.antt =====
-- The two ends of the pseudo terminal, its symlink and the bytes that wait for it go together.
use pik.Base.{
  ℕ, ◌≡◌, sym, subst, Bool, true, false, List, [], ◌∷◌, ◌++◌, Option, none, some, ◌==◌, is_empty,
  arith, ◌&&◌, ◌||◌, Option-cases, Bool-cases, inl, inr,
}
use pik.Protocol.{f_data, f_flush, f_ready}
use pik.Channel.Effect.{
  Effect, remove_symlink, make_symlink, ◌▷◌, ReadResult, would_block, got, read_err, WriteResult,
}
use pik.Channel.Mcu.{drained}
use pik.Channel.Pty.{
  PtyChannel, update_interest, Opened, no_pty, no_name, no_symlink, opened, open_pty, close_pty,
  pty_drain, on_frame, on_link_connect, on_link_disconnect, pty_write, handle_event, close,
  pause_source_reads, resume_source_reads, Event, frame, link_connect, link_disconnect, io, pause,
  resume, closing, handle, handle_all, on_read,
}
use pik.Channel.Pty.World.{World, give, after, after-append, opens, if_closed, given, trace}

abbrev PairedAt : ℕ → Option ℕ → Option ℕ → Bool → List ℕ → World → Type 0
PairedAt n none none in_sel txbuf b =
    (in_sel ≡ false) × (txbuf ≡ []) × (b.linked ≡ false) × (b.held ≡ false) × (b.registered ≡ false)
PairedAt n (some m) (some s) in_sel txbuf b =
    (b.linked ≡ true) × (b.held ≡ (m == n || s == n)) × (b.registered ≡ (m == n && in_sel))
PairedAt n _ _ in_sel txbuf b = ⊥

-- Either both ends are open and the symlink stands, the descriptor is held just if it is one of the
-- two, and registered just if it is the master and the channel's flag says so; or both are closed, the
-- descriptor is neither held nor registered, no byte waits, and there is no symlink.
abbrev pub Paired : ℕ → PtyChannel → World → Type 0
Paired n c b = PairedAt n c.master_fd c.slave_fd c.master_in_sel c.txbuf b

module _ (n : ℕ) where
  abbrev After : PtyChannel × List Effect → World → Type 0
  After (c, l) b = Paired n c (after n b l)

  abbrev Keeps : (PtyChannel → PtyChannel × List Effect) → Type 0
  Keeps f = (c : PtyChannel) (b : World) → Paired n c b → After (f c) b

  follow : (q p : PtyChannel × List Effect) (b : World) → q ≡ p → After p b → After q b
  follow q p b e h = subst (λ x. After x b) (sym e) h

  seq_Paired :
      (p : PtyChannel × List Effect) (f : PtyChannel → PtyChannel × List Effect) (b : World)
      → After p b
      → Keeps f
      → After (p ▷ f) b
  seq_Paired (c, l) f b h k =
      subst (Paired n (f c).0) (sym (after-append n b l (f c).1)) (k c (after n b l) h)

  update_Paired : Keeps update_interest
  unfolding update_interest
  update_Paired c b h = elim (Option-cases c.master_fd) [
    | inl e ↦ ground (arith, h)
    | inr (fd, e) ↦ ground (arith, h)
  ]

  close_Paired : Keeps close_pty
  unfolding close_pty
  close_Paired c b h = elim (Option-cases c.master_fd) [
    | inl e ↦ ground (arith, h)
    | inr (fd, e) ↦ ground (arith, h)
  ]

  -- While the pair is open, the bytes that wait may change.
  refill_Paired :
      (c : PtyChannel) (b : World) (fd : ℕ) (xs : List ℕ)
      → c.master_fd ≡ some fd
      → Paired n c b
      → Paired n (record c { txbuf = xs }) b
  refill_Paired c b fd xs e h = elim (Option-cases c.slave_fd) [
    | inl f ↦ ground (arith, h)
    | inr (s, f) ↦ ground (arith, h)
  ]

  drain_Paired : (w : WriteResult) → Keeps (pty_drain w)
  unfolding pty_drain
  drain_Paired w c b h = elim (Option-cases c.master_fd) [
    | inl e ↦ follow (pty_drain w c) (c, []) b (ground arith) h
    | inr (fd, e) ↦ elim (Bool-cases (is_empty c.txbuf)) [
      | inl z ↦ follow (pty_drain w c) (c, []) b (ground arith) h
      | inr z ↦
          follow (pty_drain w c) (update_interest (record c { txbuf = drained w c.txbuf })) b
            (ground arith)
            (update_Paired (record c { txbuf = drained w c.txbuf }) b
              (refill_Paired c b fd (drained w c.txbuf) e h))
    ]
  ]

  no_slave : (c : PtyChannel) (b : World) → c.master_fd ≡ none → Paired n c b → c.slave_fd ≡ none
  no_slave c b e h = elim (Option-cases c.slave_fd) [ inl f ↦ f | inr (t, f) ↦ ground (arith, h) ]

  open_closed :
      (o : Opened) (c : PtyChannel) (b : World)
      → c.master_fd ≡ none
      → Paired n c b
      → After (open_pty o c) (give (opens n o) b)
  unfolding open_pty
  open_closed no_pty c b e h = ground (arith, h)
  open_closed (no_name m s) c b e h = let f = no_slave c b e h in ground (arith, h, f)
  open_closed (no_symlink m s) c b e h = let f = no_slave c b e h in ground (arith, h, f)
  open_closed (opened m s) c b e h =
      let c' : PtyChannel = record c {
        master_fd = some m;
        slave_fd = some s;
        master_in_sel = false;
      } in
      let first : PtyChannel × List Effect = (c', remove_symlink ∷ make_symlink ∷ []) in
      let b' = give (m == n || s == n) b in
      let f = no_slave c b e h in
      follow (open_pty (opened m s) c) (first ▷ update_interest) b' (ground arith)
        (seq_Paired first update_interest b' (ground (arith, h, f)) update_Paired)

  same_give :
      (q : PtyChannel × List Effect) (g g' : Bool) (b : World)
      → g ≡ g'
      → After q (give g' b)
      → After q (give g b)
  same_give q g g' b e h = subst (λ x. After q (give x b)) (sym e) h

  open_Paired :
      (o : Opened) (c : PtyChannel) (b : World)
      → Paired n c b
      → After (open_pty o c) (give (if_closed c.master_fd (opens n o)) b)
  unfolding open_pty
  open_Paired o c b h = elim (Option-cases c.master_fd) [
    | inl e ↦
        same_give (open_pty o c) (if_closed c.master_fd (opens n o)) (opens n o) b (ground arith)
          (open_closed o c b e h)
    | inr (fd, e) ↦
        same_give (open_pty o c) (if_closed c.master_fd (opens n o)) false b (ground arith)
          (follow (open_pty o c) (c, []) b (ground arith) h)
  ]

  data_Paired :
      (t : ℕ) (p : List ℕ) (o : Opened) (w : WriteResult) (c : PtyChannel) (b : World)
      → (t == f_flush) ≡ false
      → (t == f_ready) ≡ false
      → Paired n c b
      → After (on_frame t p o w c) b
  unfolding on_frame
  data_Paired t p o w c b x y h = elim (Bool-cases (t == f_data)) [
    | inr z ↦ follow (on_frame t p o w c) (c, []) b (ground arith) h
    | inl z ↦ elim (Option-cases c.master_fd) [
      | inl e ↦ follow (on_frame t p o w c) (c, []) b (ground arith) h
      | inr (fd, e) ↦
          let c' : PtyChannel = record c { txbuf = c.txbuf ++ p } in
          follow (on_frame t p o w c) (pty_drain w c') b (ground arith)
            (drain_Paired w c' b (refill_Paired c b fd (c.txbuf ++ p) e h))
    ]
  ]

  frame_Paired :
      (t : ℕ) (p : List ℕ) (o : Opened) (w : WriteResult) (c : PtyChannel) (b : World)
      → Paired n c b
      → After (on_frame t p o w c) (give (given n (frame t p o w) c) b)
  unfolding on_frame
  frame_Paired t p o w c b h =
      let q = on_frame t p o w c in
      let g = given n (frame t p o w) c in
      elim (Bool-cases (t == f_flush)) [
        | inl x ↦
            same_give q g false b (ground arith)
              (follow q (close_pty c) b (ground arith) (close_Paired c b h))
        | inr x ↦ elim (Bool-cases (t == f_ready)) [
          | inl y ↦
              let g' = if_closed c.master_fd (opens n o) in
              same_give q g g' b (ground arith)
                (follow q (open_pty o c) (give g' b) (ground arith) (open_Paired o c b h))
          | inr y ↦ same_give q g false b (ground arith) (data_Paired t p o w c b x y h)
        ]
      ]

  on_read_Paired : (r : ReadResult) → Keeps (on_read r)
  on_read_Paired would_block c b h = h
  on_read_Paired (got []) c b h = h
  on_read_Paired (got (x ∷ xs)) c b h = h
  on_read_Paired (read_err true) c b h = close_Paired c b h
  on_read_Paired (read_err false) c b h = h

  write_Paired : (wr : Bool) (w : WriteResult) → Keeps (pty_write wr w)
  unfolding pty_write
  write_Paired true w c b h = drain_Paired w c b h
  write_Paired false w c b h = h

  io_Paired : (rd wr : Bool) (r : ReadResult) (w : WriteResult) → Keeps (handle_event rd wr r w)
  unfolding handle_event
  io_Paired false wr r w c b h = write_Paired wr w c b h
  io_Paired true wr r w c b h = elim (Option-cases c.master_fd) [
    | inl e ↦ follow (handle_event true wr r w c) (c, []) b (ground arith) h
    | inr (fd, e) ↦
        follow (handle_event true wr r w c) (on_read r c ▷ pty_write wr w) b (ground arith)
          (seq_Paired (on_read r c) (pty_write wr w) b (on_read_Paired r c b h) (write_Paired wr w))
  ]

  pause_Paired : Keeps pause_source_reads
  unfolding pause_source_reads
  pause_Paired c b h = elim (Bool-cases c.bp_paused) [
    | inl e ↦ follow (pause_source_reads c) (c, []) b (ground arith) h
    | inr e ↦
        follow (pause_source_reads c) (update_interest (record c { bp_paused = true })) b
          (ground arith) (update_Paired (record c { bp_paused = true }) b h)
  ]

  resume_Paired : Keeps resume_source_reads
  unfolding resume_source_reads
  resume_Paired c b h = elim (Bool-cases c.bp_paused) [
    | inl e ↦
        follow (resume_source_reads c) (update_interest (record c { bp_paused = false })) b
          (ground arith) (update_Paired (record c { bp_paused = false }) b h)
    | inr e ↦ follow (resume_source_reads c) (c, []) b (ground arith) h
  ]

  handle-Paired :
      (e : Event) (c : PtyChannel) (b : World)
      → Paired n c b
      → After (handle e c) (give (given n e c) b)
  unfolding handle on_link_connect on_link_disconnect close
  handle-Paired (frame t p o w) c b h = frame_Paired t p o w c b h
  handle-Paired link_connect c b h = close_Paired c b h
  handle-Paired link_disconnect c b h = close_Paired c b h
  handle-Paired (io rd wr r w) c b h = io_Paired rd wr r w c b h
  handle-Paired pause c b h = pause_Paired c b h
  handle-Paired resume c b h = resume_Paired c b h
  handle-Paired closing c b h = close_Paired c b h

-- Over any history of calls, for any descriptor `n`: while the pseudo terminal is open, both ends are,
-- the symlink stands, `n` is held just if it is the master or the slave, and registered just if it is
-- the master and the channel's flag is set; while it is closed, `n` is neither held nor registered,
-- whichever `open_pty_raw` gave before, no byte waits, and there is no symlink; if all that was so at
-- the start. What is held and registered is computed from the calls made.
pub handle_all-Paired :
    (n : ℕ) (es : List Event) (c : PtyChannel) (b : World)
    → Paired n c b
    → Paired n (handle_all es c).0 (trace n es c b)
unfolding handle_all
handle_all-Paired n [] c b h = h
handle_all-Paired n (e ∷ es) c b h =
    handle_all-Paired n es (handle e c).0 (after n (give (given n e c) b) (handle e c).1)
      (handle-Paired n e c b h)
