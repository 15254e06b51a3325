-- ===== src/Channel/Mcu/Laws.antt =====
-- `McuChannel` obeys the laws that the daemon relies on.
use pik.Base.{
  ℕ, ◌+◌, ◌≡◌, refl, sym, subst, ◌∙◌, Bool, true, false, List, [], ◌∷◌, ◌++◌, Option, none, some,
  ◌==◌, ◌&&◌, is_empty, arith, Option-cases, Bool-cases, inl, inr,
}
use pik.Protocol.{f_data}
use pik.Channel.Effect.{Effect, ◌▷◌, ReadResult, would_block, got, read_err, WriteResult}
use pik.Channel.Interface.{NoFrame, NoFrame-append}
use pik.Channel.Mcu.{
  new, McuState, init, active, resetting, McuChannel, same_state, update_interest, open_uart,
  close_uart, enter, transition, uart_read, uart_drain, on_frame, on_link_connect,
  on_link_disconnect, tick, handle_event, pause_source_reads, resume_source_reads, close, on_bytes,
  wait_sync, from_sync, after_read, forward, when, schedule_reopen, due, silent, drained,
}

-- Neither the pause nor the link changes, and with the link down no frame is queued.
abbrev pub Calm : McuChannel → McuChannel × List Effect → Type 0
Calm c p =
    (p.0.bp_paused ≡ c.bp_paused) × (p.0.link_up ≡ c.link_up) × (c.link_up ≡ false → NoFrame p.1)

abbrev pub IsCalm : (McuChannel → McuChannel × List Effect) → Type 0
IsCalm f = (c : McuChannel) → Calm c (f c)

seq_Calm :
    (c : McuChannel) (p : McuChannel × List Effect) (f : McuChannel → McuChannel × List Effect)
    → Calm c p
    → IsCalm f
    → Calm c (p ▷ f)
seq_Calm c (d, l) f h k =
    let m = k d in (m.0 ∙ h.0, m.1 ∙ h.1, λ e. NoFrame-append l (f d).1 (h.2 e) (m.2 (h.1 ∙ e)))

follow : (c : McuChannel) (q p : McuChannel × List Effect) → q ≡ p → Calm c p → Calm c q
follow c q p e h = subst (Calm c) (sym e) h

still : (c : McuChannel) → Calm c (c, [])
still c = (refl, refl, λ e. tt)

update_Calm : IsCalm update_interest
unfolding update_interest
update_Calm c = elim (Option-cases c.fd) [ inl e ↦ ground arith | inr (fd, e) ↦ ground arith ]

close_Calm : IsCalm close_uart
unfolding close_uart
close_Calm c = elim (Option-cases c.fd) [ inl e ↦ ground arith | inr (fd, e) ↦ ground arith ]

transition_Calm : (s : McuState) → IsCalm (transition s)
unfolding transition enter
transition_Calm init c = ground arith
transition_Calm active c = ground arith
transition_Calm resetting c = ground arith

forward_Calm : (d : List ℕ) → IsCalm (forward d)
forward_Calm d c = ground arith

sync_Calm : (d : List ℕ) → IsCalm (wait_sync d)
unfolding wait_sync
sync_Calm d c = elim (Option-cases (from_sync d)) [
  | inl e ↦ follow c (wait_sync d c) (c, []) (ground arith) (still c)
  | inr (t, e) ↦
      follow c (wait_sync d c) (transition active c ▷ forward t) (ground arith)
        (seq_Calm c (transition active c) (forward t) (transition_Calm active c) (forward_Calm t))
]

bytes_Calm : (d : List ℕ) (s : McuState) → IsCalm (on_bytes d s)
bytes_Calm d active c = forward_Calm d c
bytes_Calm d init c = sync_Calm d c
bytes_Calm d resetting c = sync_Calm d c

reopen_Calm : (at : ℕ) → IsCalm (schedule_reopen at)
reopen_Calm at c = ground arith

after_read_Calm : (r : ReadResult) (now : ℕ) → IsCalm (after_read r now)
unfolding after_read
after_read_Calm would_block now c = still c
after_read_Calm (got []) now c = still c
after_read_Calm (got (b ∷ bs)) now c = bytes_Calm (b ∷ bs) c.state (record c { last_rx = some now })
after_read_Calm (read_err eio) now c =
    seq_Calm c (close_uart c ▷ transition resetting) (schedule_reopen (now + 1000))
      (seq_Calm c (close_uart c) (transition resetting) (close_Calm c) (transition_Calm resetting))
      (reopen_Calm (now + 1000))

read_Calm : (r : ReadResult) (now : ℕ) → IsCalm (uart_read r now)
unfolding uart_read
read_Calm r now c = elim (Option-cases c.fd) [
  | inl e ↦ follow c (uart_read r now c) (c, []) (ground arith) (still c)
  | inr (fd, e) ↦
      follow c (uart_read r now c) (after_read r now c) (ground arith) (after_read_Calm r now c)
]

drain_Calm : (w : WriteResult) → IsCalm (uart_drain w)
unfolding uart_drain
drain_Calm w c = elim (Option-cases c.fd) [
  | inl e ↦ follow c (uart_drain w c) (c, []) (ground arith) (still c)
  | inr (fd, e) ↦ elim (Bool-cases (is_empty c.txbuf)) [
    | inl z ↦ follow c (uart_drain w c) (c, []) (ground arith) (still c)
    | inr z ↦
        let c' : McuChannel = record c { txbuf = drained w c.txbuf } in
        follow c (uart_drain w c) (update_interest c') (ground arith) (update_Calm c')
  ]
]

pub frame_Calm : (t : ℕ) (p : List ℕ) (w : WriteResult) → IsCalm (on_frame t p w)
unfolding on_frame
frame_Calm t p w c = elim (Bool-cases (t == f_data)) [
  | inr x ↦ follow c (on_frame t p w c) (c, []) (ground arith) (still c)
  | inl x ↦ elim (Option-cases c.fd) [
    | inl e ↦ follow c (on_frame t p w c) (c, []) (ground arith) (still c)
    | inr (fd, e) ↦ elim (Bool-cases (same_state c.state active)) [
      | inr z ↦ follow c (on_frame t p w c) (c, []) (ground arith) (still c)
      | inl z ↦
          let c' : McuChannel = record c { txbuf = c.txbuf ++ p } in
          follow c (on_frame t p w c) (uart_drain w c') (ground arith) (drain_Calm w c')
    ]
  ]
]

open_Calm : (o : Option ℕ) (now : ℕ) → IsCalm (open_uart o now)
unfolding open_uart
open_Calm none now c = ground arith
open_Calm (some fd) now c = update_Calm (record c { fd = some fd; fd_in_sel = false })

pub tick_Calm : (now : ℕ) (o : Option ℕ) (after : ℕ) → IsCalm (tick now o after)
unfolding tick
tick_Calm now o after c = elim (Option-cases c.fd) [
  | inl e ↦ elim (Bool-cases (due c.reopen_at now)) [
    | inl z ↦
        let c' : McuChannel = record c { reopen_at = none } in
        follow c (tick now o after c) (open_uart o after c') (ground arith) (open_Calm o after c')
    | inr z ↦ follow c (tick now o after c) (c, []) (ground arith) (still c)
  ]
  | inr (fd, e) ↦ elim (Bool-cases (same_state c.state active && silent c.last_rx now)) [
    | inl z ↦
        follow c (tick now o after c) (transition resetting c) (ground arith)
          (transition_Calm resetting c)
    | inr z ↦ follow c (tick now o after c) (c, []) (ground arith) (still c)
  ]
]

when_Calm : (b : Bool) (f : McuChannel → McuChannel × List Effect) → IsCalm f → IsCalm (when b f)
when_Calm true f k c = k c
when_Calm false f k c = still c

pub event_Calm :
    (rd wr : Bool) (r : ReadResult) (now : ℕ) (w : WriteResult)
    → IsCalm (handle_event rd wr r now w)
unfolding handle_event
event_Calm rd wr r now w c =
    seq_Calm c (when rd (uart_read r now) c) (when wr (uart_drain w))
      (when_Calm rd (uart_read r now) (read_Calm r now) c)
      (when_Calm wr (uart_drain w) (drain_Calm w))

pub connect-paused : (c : McuChannel) → (on_link_connect c).0.bp_paused ≡ c.bp_paused
unfolding on_link_connect
connect-paused c = ground arith

pub disconnect_lem :
    (c : McuChannel)
    → ((on_link_disconnect c).0.bp_paused ≡ c.bp_paused)
      × ((on_link_disconnect c).0.link_up ≡ false)
unfolding on_link_disconnect
disconnect_lem c = let m = update_Calm (record c { link_up = false; txbuf = [] }) in (m.0, m.1)

pub pause-paused : (c : McuChannel) → (pause_source_reads c).0.bp_paused ≡ true
unfolding pause_source_reads
pause-paused c = ground (arith, (update_Calm (record c { bp_paused = true })).0)

pub resume_lem :
    (c : McuChannel)
    → ((resume_source_reads c).0.bp_paused ≡ false)
      × ((resume_source_reads c).0.link_up ≡ c.link_up)
unfolding resume_source_reads
resume_lem c =
    let m = update_Calm (record c { bp_paused = false }) in
    elim (Bool-cases c.bp_paused) [ inl e ↦ ground (arith, m.0, m.1) | inr e ↦ ground arith ]

pub new_lem :
    (id : ℕ) (o : Option ℕ) (now : ℕ)
    → ((new id o now).0.ch_id ≡ id)
      × ((new id o now).0.bp_paused ≡ false)
      × ((new id o now).0.link_up ≡ false)
unfolding new open_uart update_interest
new_lem id none now = (refl, refl, refl)
new_lem id (some fd) now = (refl, refl, refl)

update-NoFrame : (c : McuChannel) → NoFrame (update_interest c).1
unfolding update_interest
update-NoFrame c = elim (Option-cases c.fd) [ inl e ↦ ground arith | inr (fd, e) ↦ ground arith ]

-- Pausing and resuming change no link and queue no frame.
pub pause_lem :
    (c : McuChannel)
    → ((pause_source_reads c).0.link_up ≡ c.link_up) × NoFrame (pause_source_reads c).1
unfolding pause_source_reads
pause_lem c =
    let c' : McuChannel = record c { bp_paused = true } in
    elim (Bool-cases c.bp_paused) [
      | inl e ↦ rw (e, pause_source_reads) (refl, tt)
      | inr e ↦ rw (e, pause_source_reads) ((update_Calm c').1, update-NoFrame c')
    ]

pub resume-NoFrame : (c : McuChannel) → NoFrame (resume_source_reads c).1
unfolding resume_source_reads
resume-NoFrame c = elim (Bool-cases c.bp_paused) [
  | inl e ↦ rw (e, resume_source_reads) (update-NoFrame (record c { bp_paused = false }))
  | inr e ↦ rw (e, resume_source_reads) tt
]

pub close-paused : (c : McuChannel) → (close c).0.bp_paused ≡ c.bp_paused
unfolding close
close-paused c = (close_Calm c).0
