-- ===== src/Channel/Mcu/Armed.antt =====
-- The registration of the UART with mio: `fd_in_sel` says whether there is one, reads are asked for
-- just when they are not paused, and writes whenever bytes wait.
use pik.Base.{
  ℕ, ◌+◌, ◌≡◌, refl, sym, subst, Bool, true, false, not, List, [], ◌∷◌, ◌++◌, Option, none, some,
  ◌==◌, ◌&&◌, ==_refl, is_empty, arith, Option-cases, Bool-cases, inl, inr,
}
use mathlib.Core.Path.{fun_ext}
use pik.Channel.Effect.{
  Interest, Effect, ◌▷◌, ReadResult, would_block, got, read_err, WriteResult, reads, writes,
  registered, registered-append,
}
use pik.Protocol.{f_data}
use pik.Channel.Mcu.{
  McuState, init, active, resetting, McuChannel, update_interest, open_uart, close_uart, transition,
  uart_read, uart_drain, on_frame, on_link_connect, on_link_disconnect, tick, handle_event,
  pause_source_reads, resume_source_reads, close, drained, Event, frame, link_connect,
  link_disconnect, ticked, io, pause, resume, closing, handle, on_bytes, wait_sync, from_sync,
  after_read, forward, when, schedule_reopen, same_state, due, silent,
}

-- What each descriptor is registered for.
abbrev pub Registry : Type 0
Registry = ℕ → Option Interest

abbrev pub run_calls : List Effect → Registry → Registry
run_calls l g fd = registered fd (g fd) l

abbrev pub is_some : Option Interest → Bool
is_some none = false
is_some (some i) = true

abbrev ArmedAt : Option ℕ → Bool → Bool → List ℕ → Registry → Type 0
ArmedAt none in_sel paused txbuf g = in_sel ≡ false
ArmedAt (some fd) in_sel paused txbuf g =
    (in_sel ≡ is_some (g fd))
    × (reads (g fd) ≡ not paused)
    × (is_empty txbuf ≡ false → writes (g fd) ≡ true)

abbrev pub Armed : McuChannel → Registry → Type 0
Armed c g = ArmedAt c.fd c.fd_in_sel c.bp_paused c.txbuf g

-- A flag that agrees with the registry is all that `update_interest` needs.
abbrev FlagAt : Option ℕ → Bool → Registry → Type 0
FlagAt none in_sel g = in_sel ≡ false
FlagAt (some fd) in_sel g = in_sel ≡ is_some (g fd)

abbrev Flag : McuChannel → Registry → Type 0
Flag c g = FlagAt c.fd c.fd_in_sel g

update_some :
    (c : McuChannel) (g : Registry) (fd : ℕ)
    → c.fd ≡ some fd
    → c.fd_in_sel ≡ is_some (g fd)
    → let (c', l) = update_interest c in Armed c' (run_calls l g)
unfolding update_interest
update_some c g fd e h = ground (arith, ==_refl fd)

update_Armed :
    (c : McuChannel) (g : Registry)
    → Flag c g
    → let (c', l) = update_interest c in Armed c' (run_calls l g)
update_Armed c g h = elim (Option-cases c.fd) [
  | inl e ↦ unfold update_interest in ground arith
  | inr (fd, e) ↦ update_some c g fd e (ground arith)
]

Armed-Flag : (c : McuChannel) (g : Registry) → Armed c g → Flag c g
Armed-Flag c g h = ground arith

open_Armed :
    (c : McuChannel) (g : Registry) (opened : Option ℕ) (now : ℕ)
    → c.fd ≡ none
    → c.fd_in_sel ≡ false
    → ((fd : ℕ) → opened ≡ some fd → g fd ≡ none)
    → let (c', l) = open_uart opened now c in Armed c' (run_calls l g)
unfolding open_uart
open_Armed c g none now e f h = ground arith
open_Armed c g (some fd) now e f h =
    update_Armed (record c { fd = some fd; fd_in_sel = false }) g (ground (arith, h fd))

close_Armed :
    (c : McuChannel) (g : Registry)
    → Armed c g
    → let (c', l) = close_uart c in Armed c' (run_calls l g)
unfolding close_uart
close_Armed c g h = elim (Option-cases c.fd) [ inl e ↦ ground arith | inr (fd, e) ↦ ground arith ]

transition-Armed :
    (s : McuState) (c : McuChannel) (g : Registry)
    → Armed c g
    → let (c', l) = transition s c in Armed c' (run_calls l g)
unfolding transition
transition-Armed init c g h = elim (Option-cases c.fd) [
  | inl e ↦ ground arith
  | inr (fd, e) ↦ ground arith
]
transition-Armed active c g h = elim (Option-cases c.fd) [
  | inl e ↦ ground arith
  | inr (fd, e) ↦ ground arith
]
transition-Armed resetting c g h = elim (Option-cases c.fd) [
  | inl e ↦ ground arith
  | inr (fd, e) ↦ ground arith
]

abbrev After : McuChannel × List Effect → Registry → Type 0
After (c, l) g = Armed c (run_calls l g)

abbrev Keeps : (McuChannel → McuChannel × List Effect) → Type 0
Keeps f = (c : McuChannel) (g : Registry) → Armed c g → After (f c) g

seq_Armed :
    (p : McuChannel × List Effect) (f : McuChannel → McuChannel × List Effect) (g : Registry)
    → After p g
    → Keeps f
    → After (p ▷ f) g
seq_Armed (c, l) f g h k =
    subst (Armed (f c).0) (fun_ext λ fd. sym (registered-append fd (g fd) l (f c).1))
      (k c (run_calls l g) h)

-- A handler that only sends and sets `last_rx`, `reopen_at` or `link_up`.
forward_Armed : (d : List ℕ) → Keeps (forward d)
forward_Armed d c g h = elim (Option-cases c.fd) [
  | inl e ↦ ground arith
  | inr (fd, e) ↦ ground arith
]

-- To follow a handler through an equation of its result.
step_to : (q p : McuChannel × List Effect) (g : Registry) → q ≡ p → After p g → After q g
step_to q p g e h = subst (λ x. After x g) (sym e) h

wait_sync_Armed : (d : List ℕ) → Keeps (wait_sync d)
unfolding wait_sync
wait_sync_Armed d c g h = elim (Option-cases (from_sync d)) [
  | inl e ↦ step_to (wait_sync d c) ((c, [])) g (ground arith) h
  | inr (tail, e) ↦ step_to (wait_sync d c) (transition active c ▷ forward tail) g (ground arith) (
      seq_Armed (transition active c) (forward tail) g (transition-Armed active c g h)
        (forward_Armed tail))
]

on_bytes_Armed : (d : List ℕ) (s : McuState) → Keeps (on_bytes d s)
on_bytes_Armed d init = wait_sync_Armed d
on_bytes_Armed d active = forward_Armed d
on_bytes_Armed d resetting = wait_sync_Armed d

after_read_Armed : (r : ReadResult) (now : ℕ) → Keeps (after_read r now)
unfolding after_read
after_read_Armed would_block now c g h = h
after_read_Armed (got []) now c g h = h
after_read_Armed (got (b ∷ bs)) now c g h =
    on_bytes_Armed (b ∷ bs) c.state (record c { last_rx = some now }) g h
after_read_Armed (read_err eio) now c g h =
    seq_Armed (close_uart c ▷ transition resetting) (schedule_reopen (now + 1000)) g
      (seq_Armed (close_uart c) (transition resetting) g (close_Armed c g h)
        (transition-Armed resetting))
      (λ c g h. h)

read_Armed : (r : ReadResult) (now : ℕ) → Keeps (uart_read r now)
unfolding uart_read
read_Armed r now c g h = elim (Option-cases c.fd) [
  | inl e ↦ step_to (uart_read r now c) ((c, [])) g (ground arith) h
  | inr (fd, e) ↦
      step_to (uart_read r now c) (after_read r now c) g (ground arith)
        (after_read_Armed r now c g h)
]

drain_some :
    (w : WriteResult) (c : McuChannel) (g : Registry)
    → Flag c g
    → After (update_interest (record c { txbuf = drained w c.txbuf })) g
drain_some w c g h = update_Armed (record c { txbuf = drained w c.txbuf }) g h

-- `uart_drain` mends the registration whenever bytes wait, and otherwise finds it as it should be.
drain_Flag :
    (w : WriteResult) (c : McuChannel) (g : Registry)
    → Flag c g
    → (is_empty c.txbuf ≡ true → Armed c g)
    → After (uart_drain w c) g
unfolding uart_drain
drain_Flag w c g h k = elim (Option-cases c.fd) [
  | inl e ↦ step_to (uart_drain w c) (c, []) g (ground arith) (ground arith)
  | inr (fd, e) ↦ elim (Bool-cases (is_empty c.txbuf)) [
    | inl z ↦ step_to (uart_drain w c) (c, []) g (ground arith) (k z)
    | inr z ↦
        step_to (uart_drain w c) (update_interest (record c { txbuf = drained w c.txbuf })) g
          (ground arith) (drain_some w c g h)
  ]
]

drain_Armed : (w : WriteResult) → Keeps (uart_drain w)
drain_Armed w c g h = drain_Flag w c g (Armed-Flag c g h) (λ _. h)

is_empty-append : (xs ys : List ℕ) → is_empty (xs ++ ys) ≡ true → is_empty xs ≡ true
is_empty-append [] ys h = refl
is_empty-append (x ∷ xs) ys h = cc

frame_drain :
    (w : WriteResult) (p : List ℕ) (c : McuChannel) (g : Registry)
    → Armed c g
    → After (uart_drain w (record c { txbuf = c.txbuf ++ p })) g
frame_drain w p c g h =
    drain_Flag w (record c { txbuf = c.txbuf ++ p }) g (Armed-Flag c g h) (λ z. more c.fd h z)
  where
    more :
        (fd : Option ℕ)
        → ArmedAt fd c.fd_in_sel c.bp_paused c.txbuf g
        → is_empty (c.txbuf ++ p) ≡ true
        → ArmedAt fd c.fd_in_sel c.bp_paused (c.txbuf ++ p) g
    more none h z = h
    more (some fd) h z = (h.0, h.1, λ y. cc)

frame_Armed : (t : ℕ) (p : List ℕ) (w : WriteResult) → Keeps (on_frame t p w)
unfolding on_frame
frame_Armed t p w c g h = elim (Option-cases c.fd) [
  | inl e ↦ step_to (on_frame t p w c) (c, []) g (ground arith) h
  | inr (fd, e) ↦ elim (Bool-cases (t == f_data && same_state c.state active)) [
    | inl z ↦
        step_to (on_frame t p w c) (uart_drain w (record c { txbuf = c.txbuf ++ p })) g
          (ground arith) (frame_drain w p c g h)
    | inr z ↦ step_to (on_frame t p w c) (c, []) g (ground arith) h
  ]
]

-- A descriptor that has just been opened is not registered.
abbrev pub Fresh : Event → Registry → Type 0
Fresh (ticked now opened after) g = (fd : ℕ) → opened ≡ some fd → g fd ≡ none
Fresh _ g = Unit {0}

disconnect_Armed : Keeps on_link_disconnect
unfolding on_link_disconnect
disconnect_Armed c g h =
    update_Armed (record c { link_up = false; txbuf = [] }) g (Armed-Flag c g h)

pause_Armed : Keeps pause_source_reads
unfolding pause_source_reads
pause_Armed c g h = elim (Bool-cases c.bp_paused) [
  | inl e ↦ step_to (pause_source_reads c) (c, []) g (ground arith) h
  | inr e ↦
      step_to (pause_source_reads c) (update_interest (record c { bp_paused = true })) g
        (ground arith) (update_Armed (record c { bp_paused = true }) g (Armed-Flag c g h))
]

resume_Armed : Keeps resume_source_reads
unfolding resume_source_reads
resume_Armed c g h = elim (Bool-cases c.bp_paused) [
  | inl e ↦
      step_to (resume_source_reads c) (update_interest (record c { bp_paused = false })) g
        (ground arith) (update_Armed (record c { bp_paused = false }) g (Armed-Flag c g h))
  | inr e ↦ step_to (resume_source_reads c) (c, []) g (ground arith) h
]

connect_Armed : Keeps on_link_connect
unfolding on_link_connect
connect_Armed c g h = elim (Option-cases c.fd) [ inl e ↦ ground arith | inr (fd, e) ↦ ground arith ]

tick-Armed :
    (now : ℕ) (opened : Option ℕ) (after : ℕ) (c : McuChannel) (g : Registry)
    → Fresh (ticked now opened after) g
    → Armed c g
    → After (tick now opened after c) g
unfolding tick
tick-Armed now opened after c g f h = elim (Option-cases c.fd) [
  | inl e ↦ elim (Bool-cases (due c.reopen_at now)) [
    | inl z ↦
        step_to (tick now opened after c) (open_uart opened after (record c { reopen_at = none })) g
          (ground arith)
          (open_Armed (record c { reopen_at = none }) g opened after e (ground arith) f)
    | inr z ↦ step_to (tick now opened after c) (c, []) g (ground arith) h
  ]
  | inr (fd, e) ↦ elim (Bool-cases (same_state c.state active && silent c.last_rx now)) [
    | inl z ↦
        step_to (tick now opened after c) (transition resetting c) g (ground arith)
          (transition-Armed resetting c g h)
    | inr z ↦ step_to (tick now opened after c) (c, []) g (ground arith) h
  ]
]

io_Armed :
    (rd wr : Bool) (r : ReadResult) (now : ℕ) (w : WriteResult) → Keeps (handle_event rd wr r now w)
unfolding handle_event
io_Armed rd wr r now w c g h =
    seq_Armed (when rd (uart_read r now) c) (when wr (uart_drain w)) g (first rd) (second wr)
  where
    first : (b : Bool) → After (when b (uart_read r now) c) g
    first true = read_Armed r now c g h
    first false = h

    second : (b : Bool) → Keeps (when b (uart_drain w))
    second true c g h = drain_Armed w c g h
    second false c g h = h

-- After every call of the channel's interface the UART is registered for reads just when they are
-- not paused, for writes if bytes wait, and `fd_in_sel` tells whether it is registered, if all that
-- held before and a descriptor that the call opens is not registered yet.
pub handle-Armed :
    (e : Event) (c : McuChannel) (g : Registry)
    → Fresh e g
    → Armed c g
    → let (c', l) = handle e c in Armed c' (run_calls l g)
unfolding handle close
handle-Armed (frame t p w) c g f h = frame_Armed t p w c g h
handle-Armed link_connect c g f h = connect_Armed c g h
handle-Armed link_disconnect c g f h = disconnect_Armed c g h
handle-Armed (ticked now opened after) c g f h = tick-Armed now opened after c g f h
handle-Armed (io rd wr r now w) c g f h = io_Armed rd wr r now w c g h
handle-Armed pause c g f h = pause_Armed c g h
handle-Armed resume c g f h = resume_Armed c g h
handle-Armed closing c g f h = close_Armed c g h
