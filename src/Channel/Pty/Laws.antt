-- ===== src/Channel/Pty/Laws.antt =====
-- `PtyChannel` obeys the laws that the daemon relies on.
use pik.Base.{
  ℕ, ◌≡◌, refl, sym, subst, ◌∙◌, Bool, true, false, List, [], ◌∷◌, ◌++◌, none, some, arith,
  Option-cases, Bool-cases, inl, inr,
}
use pik.Channel.Effect.{Effect, ◌▷◌, ReadResult, would_block, got, read_err, WriteResult}
use pik.Channel.Interface.{NoFrame}
use pik.Channel.Mcu.{drained}
use pik.Channel.Pty.{
  new, PtyChannel, update_interest, Opened, no_pty, no_name, no_symlink, opened, open_pty,
  close_pty, pty_drain, on_frame, on_link_connect, on_link_disconnect, on_read, pty_write,
  handle_event, pause_source_reads, resume_source_reads, close,
}

abbrev Steady : PtyChannel → PtyChannel × List Effect → Type 0
Steady c p = p.0.bp_paused ≡ c.bp_paused

abbrev IsSteady : (PtyChannel → PtyChannel × List Effect) → Type 0
IsSteady f = (c : PtyChannel) → Steady c (f c)

follow : (c : PtyChannel) (q p : PtyChannel × List Effect) → q ≡ p → Steady c p → Steady c q
follow c q p e h = subst (Steady c) (sym e) h

update_lem :
    (c : PtyChannel)
    → ((update_interest c).0.bp_paused ≡ c.bp_paused)
      × ((update_interest c).0.master_fd ≡ c.master_fd)
unfolding update_interest
update_lem c = elim (Option-cases c.master_fd) [ inl e ↦ ground arith | inr (fd, e) ↦ ground arith ]

close_Steady : IsSteady close_pty
unfolding close_pty
close_Steady c = refl

drain_Steady : (w : WriteResult) → IsSteady (pty_drain w)
unfolding pty_drain
drain_Steady w c = elim (Option-cases c.master_fd) [
  | inl e ↦ follow c (pty_drain w c) (c, []) (ground arith) refl
  | inr (fd, e) ↦ ground (arith, (update_lem (record c { txbuf = drained w c.txbuf })).0)
]

open_Steady : (o : Opened) → IsSteady (open_pty o)
unfolding open_pty
open_Steady no_pty c = ground arith
open_Steady (no_name m s) c = ground arith
open_Steady (no_symlink m s) c = ground arith
open_Steady (opened m s) c = ground (
  arith,
  (update_lem (record c { master_fd = some m; slave_fd = some s; master_in_sel = false })).0,
)

pub frame_Steady : (t : ℕ) (p : List ℕ) (o : Opened) (w : WriteResult) → IsSteady (on_frame t p o w)
unfolding on_frame
frame_Steady t p o w c = elim (Option-cases c.master_fd) [
  | inl e ↦ ground (arith, close_Steady c, open_Steady o c)
  | inr (fd, e) ↦
      ground
        (arith, close_Steady c, open_Steady o c, drain_Steady w (record c { txbuf = c.txbuf ++ p }))
]

read_Steady : (r : ReadResult) → IsSteady (on_read r)
read_Steady would_block c = refl
read_Steady (got []) c = refl
read_Steady (got (b ∷ bs)) c = refl
read_Steady (read_err true) c = close_Steady c
read_Steady (read_err false) c = refl

write_Steady : (wr : Bool) (w : WriteResult) → IsSteady (pty_write wr w)
unfolding pty_write
write_Steady true w c = drain_Steady w c
write_Steady false w c = refl

pub event_Steady :
    (rd wr : Bool) (r : ReadResult) (w : WriteResult) → IsSteady (handle_event rd wr r w)
unfolding handle_event
event_Steady false wr r w c = write_Steady wr w c
event_Steady true wr r w c = elim (Option-cases c.master_fd) [
  | inl e ↦ follow c (handle_event true wr r w c) (c, []) (ground arith) refl
  | inr (fd, e) ↦
      follow c (handle_event true wr r w c) (on_read r c ▷ pty_write wr w) (ground arith)
        (write_Steady wr w (on_read r c).0 ∙ read_Steady r c)
]

-- A pseudo terminal that is closed does nothing.
pub event_closed :
    (rd wr : Bool) (r : ReadResult) (w : WriteResult) (c : PtyChannel)
    → c.master_fd ≡ none
    → handle_event rd wr r w c ≡ (c, [])
unfolding handle_event pty_write pty_drain
event_closed true wr r w c e = ground arith
event_closed false true r w c e = ground arith
event_closed false false r w c e = ground arith

pub connect_lem :
    (c : PtyChannel)
    → ((on_link_connect c).0.bp_paused ≡ c.bp_paused)
      × ((on_link_disconnect c).0.bp_paused ≡ c.bp_paused)
      × ((on_link_disconnect c).0.master_fd ≡ none)
unfolding on_link_connect on_link_disconnect close_pty
connect_lem c = (refl, refl, refl)

pub pause-paused : (c : PtyChannel) → (pause_source_reads c).0.bp_paused ≡ true
unfolding pause_source_reads
pause-paused c = ground (arith, (update_lem (record c { bp_paused = true })).0)

pub resume_lem :
    (c : PtyChannel)
    → ((resume_source_reads c).0.bp_paused ≡ false)
      × ((resume_source_reads c).0.master_fd ≡ c.master_fd)
unfolding resume_source_reads
resume_lem c =
    let m = update_lem (record c { bp_paused = false }) in
    elim (Bool-cases c.bp_paused) [ inl e ↦ ground (arith, m.0, m.1) | inr e ↦ ground arith ]

pub new_lem :
    (id : ℕ)
    → ((new id).0.ch_id ≡ id) × ((new id).0.bp_paused ≡ false) × ((new id).0.master_fd ≡ none)
unfolding new
new_lem id = (refl, refl, refl)

update-NoFrame : (c : PtyChannel) → NoFrame (update_interest c).1
unfolding update_interest
update-NoFrame c = elim (Option-cases c.master_fd) [
  | inl e ↦ ground arith
  | inr (fd, e) ↦ ground arith
]

-- Pausing and resuming open and close nothing and queue no frame.
pub pause_lem :
    (c : PtyChannel)
    → ((pause_source_reads c).0.master_fd ≡ c.master_fd) × NoFrame (pause_source_reads c).1
unfolding pause_source_reads
pause_lem c =
    let c' : PtyChannel = record c { bp_paused = true } in
    elim (Bool-cases c.bp_paused) [
      | inl e ↦ rw (e, pause_source_reads) (refl, tt)
      | inr e ↦ rw (e, pause_source_reads) ((update_lem c').1, update-NoFrame c')
    ]

pub resume-NoFrame : (c : PtyChannel) → NoFrame (resume_source_reads c).1
unfolding resume_source_reads
resume-NoFrame c = elim (Bool-cases c.bp_paused) [
  | inl e ↦ rw (e, resume_source_reads) (update-NoFrame (record c { bp_paused = false }))
  | inr e ↦ rw (e, resume_source_reads) tt
]

pub close-paused : (c : PtyChannel) → (close c).0.bp_paused ≡ c.bp_paused
unfolding close
close-paused c = close_Steady c
