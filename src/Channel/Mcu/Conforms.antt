-- ===== src/Channel/Mcu/Conforms.antt =====
-- What the other side of the link sees of an MCU channel: it is told that the MCU is ready before
-- any of its data, and that it was reset before the next data.
use pik.Base.{
  ℕ, ◌+◌, ◌≡◌, refl, sym, subst, Bool, true, false, not, List, [], ◌∷◌, ◌++◌, Option, none, some,
  ◌==◌, ◌&&◌, if◌then◌else◌, is_empty, arith, Option-cases, Bool-cases, inl, inr,
}
use pik.Protocol.{f_data, f_flush, f_ready}
use pik.Channel.Effect.{
  Effect, send, reg_add, reg_mod, reg_del, close_raw, remove_symlink, make_symlink, ◌▷◌, ReadResult,
  would_block, got, read_err, WriteResult,
}
use pik.Channel.Mcu.{
  McuState, init, active, resetting, McuChannel, same_state, update_interest, open_uart, close_uart,
  transition, uart_read, uart_drain, on_frame, on_link_connect, on_link_disconnect, tick,
  handle_event, pause_source_reads, resume_source_reads, close, Event, frame, link_connect,
  link_disconnect, ticked, io, pause, resume, closing, handle, handle_all, on_bytes, wait_sync,
  from_sync, after_read, forward, when, schedule_reopen, due, silent, drained,
}

-- What the far side last heard: F_READY (true) or F_FLUSH (false). Data are only allowed after
-- F_READY; `none` is the failure.
abbrev hear : Bool → ℕ → Option Bool
hear ready t =
    if t == f_ready
    then some true
    else if t == f_flush
    then some false
    else if t == f_data && not ready
    then none
    else some ready

abbrev pub listen : Option Bool → List Effect → Option Bool
listen none l = none
listen (some b) [] = some b
listen (some b) (send t c p ∷ l) = listen (hear b t) l
listen (some b) (reg_add fd t i ∷ l) = listen (some b) l
listen (some b) (reg_mod fd t i ∷ l) = listen (some b) l
listen (some b) (reg_del fd ∷ l) = listen (some b) l
listen (some b) (close_raw fd ∷ l) = listen (some b) l
listen (some b) (remove_symlink ∷ l) = listen (some b) l
listen (some b) (make_symlink ∷ l) = listen (some b) l

listen-append : (o : Option Bool) (l m : List Effect) → listen o (l ++ m) ≡ listen (listen o l) m
listen-append none [] m = refl
listen-append none (e ∷ l) m = sym (listen_none m)
  where
    listen_none : (m : List Effect) → listen none m ≡ none
    listen_none m = refl
listen-append (some b) [] m = refl
listen-append (some b) (send t c p ∷ l) m = listen-append (hear b t) l m
listen-append (some b) (reg_add fd t i ∷ l) m = listen-append (some b) l m
listen-append (some b) (reg_mod fd t i ∷ l) m = listen-append (some b) l m
listen-append (some b) (reg_del fd ∷ l) m = listen-append (some b) l m
listen-append (some b) (close_raw fd ∷ l) m = listen-append (some b) l m
listen-append (some b) (remove_symlink ∷ l) m = listen-append (some b) l m
listen-append (some b) (make_symlink ∷ l) m = listen-append (some b) l m

abbrev KnowsAt : Bool → McuState → Option Bool → Type 0
KnowsAt up s none = ⊥
KnowsAt up s (some b) = up ≡ true → b ≡ same_state s active

-- No data were out of place, and while the link is up, the far side knows whether the MCU is
-- active.
abbrev pub Knows : McuChannel → Option Bool → Type 0
Knows c o = KnowsAt c.link_up c.state o

abbrev Tells : (McuChannel → McuChannel × List Effect) → Type 0
Tells f =
    (c : McuChannel) (o : Option Bool) → Knows c o → let (c', l) = f c in Knows c' (listen o l)

seq_Tells :
    (p : McuChannel × List Effect) (f : McuChannel → McuChannel × List Effect) (o : Option Bool)
    → Knows p.0 (listen o p.1)
    → Tells f
    → Knows (p ▷ f).0 (listen o (p ▷ f).1)
seq_Tells (c, l) f o h k =
    subst (Knows (f c).0) (sym (listen-append o l (f c).1)) (k c (listen o l) h)

update_Tells : Tells update_interest
unfolding update_interest
update_Tells c none h = absurd h
update_Tells c (some b) h = elim (Option-cases c.fd) [
  | inl e ↦ ground (arith, h)
  | inr (fd, e) ↦ ground (arith, h)
]

transition_active : Tells (transition active)
unfolding transition
transition_active c none h = absurd h
transition_active c (some b) h = ground (arith, h)

transition_resetting : Tells (transition resetting)
unfolding transition
transition_resetting c none h = absurd h
transition_resetting c (some b) h = ground (arith, h)

close_Tells : Tells close_uart
unfolding close_uart
close_Tells c none h = absurd h
close_Tells c (some b) h = elim (Option-cases c.fd) [
  | inl e ↦ ground (arith, h)
  | inr (fd, e) ↦ ground (arith, h)
]

open_Tells : (opened : Option ℕ) (now : ℕ) → Tells (open_uart opened now)
unfolding open_uart
open_Tells none now c none h = absurd h
open_Tells none now c (some b) h = h
open_Tells (some fd) now c o h = update_Tells (record c { fd = some fd; fd_in_sel = false }) o h

-- Data may be forwarded in the active state.
forward_active :
    (d : List ℕ) (c : McuChannel) (o : Option Bool)
    → c.state ≡ active
    → Knows c o
    → let (c', l) = forward d c in Knows c' (listen o l)
forward_active d c none e h = absurd h
forward_active d c (some b) e h = ground (arith, h)

transition-state : (s : McuState) (c : McuChannel) → (transition s c).0.state ≡ s
unfolding transition
transition-state init c = ground arith
transition-state active c = ground arith
transition-state resetting c = ground arith

sync_Tells : (d : List ℕ) → Tells (λ c. transition active c ▷ forward d)
sync_Tells d c o h =
    let (c', l) = transition active c in
    subst (Knows (forward d c').0) (sym (listen-append o l (forward d c').1))
      (forward_active d c' (listen o l) (transition-state active c) (transition_active c o h))

abbrev Told : McuChannel × List Effect → Option Bool → Type 0
Told (c, l) o = Knows c (listen o l)

follow : (q p : McuChannel × List Effect) (o : Option Bool) → q ≡ p → Told p o → Told q o
follow q p o e h = subst (λ x. Told x o) (sym e) h

listen_nil : (o : Option Bool) → listen o [] ≡ o
listen_nil none = refl
listen_nil (some b) = refl

stays : (c : McuChannel) (o : Option Bool) → Knows c o → Told (c, []) o
stays c o h = subst (Knows c) (sym (listen_nil o)) h

wait_sync-Tells : (d : List ℕ) → Tells (wait_sync d)
unfolding wait_sync
wait_sync-Tells d c o h = elim (Option-cases (from_sync d)) [
  | inl e ↦ follow (wait_sync d c) (c, []) o (ground arith) (stays c o h)
  | inr (tail, e) ↦
      follow (wait_sync d c) (transition active c ▷ forward tail) o (ground arith)
        (sync_Tells tail c o h)
]

on_bytes_Tells :
    (d : List ℕ) (s : McuState) (c : McuChannel) (o : Option Bool)
    → c.state ≡ s
    → Knows c o
    → Told (on_bytes d s c) o
on_bytes_Tells d init c o e h = wait_sync-Tells d c o h
on_bytes_Tells d active c o e h = forward_active d c o e h
on_bytes_Tells d resetting c o e h = wait_sync-Tells d c o h

read_Tells : (r : ReadResult) (now : ℕ) → Tells (after_read r now)
unfolding after_read
read_Tells would_block now c o h = stays c o h
read_Tells (got []) now c o h = stays c o h
read_Tells (got (b ∷ bs)) now c o h =
    on_bytes_Tells (b ∷ bs) c.state (record c { last_rx = some now }) o refl h
read_Tells (read_err eio) now c o h =
    seq_Tells (close_uart c ▷ transition resetting) (schedule_reopen (now + 1000)) o
      (seq_Tells (close_uart c) (transition resetting) o (close_Tells c o h) transition_resetting)
      (λ c o h. stays (record c { reopen_at = some (now + 1000) }) o h)

uart_read-Tells : (r : ReadResult) (now : ℕ) → Tells (uart_read r now)
unfolding uart_read
uart_read-Tells r now c o h = elim (Option-cases c.fd) [
  | inl e ↦ follow (uart_read r now c) (c, []) o (ground arith) (stays c o h)
  | inr (fd, e) ↦
      follow (uart_read r now c) (after_read r now c) o (ground arith) (read_Tells r now c o h)
]

drain_Tells : (w : WriteResult) → Tells (uart_drain w)
unfolding uart_drain
drain_Tells w c o h = elim (Option-cases c.fd) [
  | inl e ↦ follow (uart_drain w c) (c, []) o (ground arith) (stays c o h)
  | inr (fd, e) ↦ elim (Bool-cases (is_empty c.txbuf)) [
    | inl z ↦ follow (uart_drain w c) (c, []) o (ground arith) (stays c o h)
    | inr z ↦
        follow (uart_drain w c) (update_interest (record c { txbuf = drained w c.txbuf })) o
          (ground arith) (update_Tells (record c { txbuf = drained w c.txbuf }) o h)
  ]
]

frame_Tells : (t : ℕ) (p : List ℕ) (w : WriteResult) → Tells (on_frame t p w)
unfolding on_frame
frame_Tells t p w c o h = elim (Option-cases c.fd) [
  | inl e ↦ follow (on_frame t p w c) (c, []) o (ground arith) (stays c o h)
  | inr (fd, e) ↦ elim (Bool-cases (t == f_data && same_state c.state active)) [
    | inl z ↦
        follow (on_frame t p w c) (uart_drain w (record c { txbuf = c.txbuf ++ p })) o
          (ground arith) (drain_Tells w (record c { txbuf = c.txbuf ++ p }) o h)
    | inr z ↦ follow (on_frame t p w c) (c, []) o (ground arith) (stays c o h)
  ]
]

-- The first call after the link came up tells the far side whatever it believed.
connect_Tells : Tells on_link_connect
unfolding on_link_connect
connect_Tells c none h = absurd h
connect_Tells c (some b) h = ground arith

disconnect_Tells : Tells on_link_disconnect
unfolding on_link_disconnect
disconnect_Tells c none h = absurd h
disconnect_Tells c (some b) h =
    update_Tells (record c { link_up = false; txbuf = [] }) (some b) (λ u. cc)

tick-Tells : (now : ℕ) (opened : Option ℕ) (after : ℕ) → Tells (tick now opened after)
unfolding tick
tick-Tells now opened after c o h = elim (Option-cases c.fd) [
  | inl e ↦ elim (Bool-cases (due c.reopen_at now)) [
    | inl z ↦
        follow (tick now opened after c) (open_uart opened after (record c { reopen_at = none })) o
          (ground arith) (open_Tells opened after (record c { reopen_at = none }) o h)
    | inr z ↦ follow (tick now opened after c) (c, []) o (ground arith) (stays c o h)
  ]
  | inr (fd, e) ↦ elim (Bool-cases (same_state c.state active && silent c.last_rx now)) [
    | inl z ↦
        follow (tick now opened after c) (transition resetting c) o (ground arith)
          (transition_resetting c o h)
    | inr z ↦ follow (tick now opened after c) (c, []) o (ground arith) (stays c o h)
  ]
]

pause_Tells : Tells pause_source_reads
unfolding pause_source_reads
pause_Tells c o h = elim (Bool-cases c.bp_paused) [
  | inl e ↦ follow (pause_source_reads c) (c, []) o (ground arith) (stays c o h)
  | inr e ↦
      follow (pause_source_reads c) (update_interest (record c { bp_paused = true })) o
        (ground arith) (update_Tells (record c { bp_paused = true }) o h)
]

resume_Tells : Tells resume_source_reads
unfolding resume_source_reads
resume_Tells c o h = elim (Bool-cases c.bp_paused) [
  | inl e ↦
      follow (resume_source_reads c) (update_interest (record c { bp_paused = false })) o
        (ground arith) (update_Tells (record c { bp_paused = false }) o h)
  | inr e ↦ follow (resume_source_reads c) (c, []) o (ground arith) (stays c o h)
]

when-Tells : (b : Bool) (f : McuChannel → McuChannel × List Effect) → Tells f → Tells (when b f)
when-Tells true f k c o h = k c o h
when-Tells false f k c o h = stays c o h

handle-Tells : (e : Event) → Tells (handle e)
unfolding handle handle_event close
handle-Tells (frame t p w) c o h = frame_Tells t p w c o h
handle-Tells link_connect c o h = connect_Tells c o h
handle-Tells link_disconnect c o h = disconnect_Tells c o h
handle-Tells (ticked now opened after) c o h = tick-Tells now opened after c o h
handle-Tells (io rd wr r now w) c o h =
    seq_Tells (when rd (uart_read r now) c) (when wr (uart_drain w)) o
      (when-Tells rd (uart_read r now) (uart_read-Tells r now) c o h)
      (when-Tells wr (uart_drain w) (drain_Tells w))
handle-Tells pause c o h = pause_Tells c o h
handle-Tells resume c o h = resume_Tells c o h
handle-Tells closing c o h = close_Tells c o h

-- Over any history of calls the far side of the link gets no data but after F_READY with no F_FLUSH
-- since, and while the link is up the last of the two that it got says whether the MCU is active,
-- if both were so at the start.
pub handle_all-Knows :
    (es : List Event) (c : McuChannel) (o : Option Bool)
    → Knows c o
    → let (c', l) = handle_all es c in Knows c' (listen o l)
unfolding handle_all
handle_all-Knows [] c o h = stays c o h
handle_all-Knows (e ∷ es) c o h =
    seq_Tells (handle e c) (handle_all es) o (handle-Tells e c o h) (handle_all-Knows es)
