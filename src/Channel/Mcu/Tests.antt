-- ===== src/Channel/Mcu/Tests.antt =====
-- Runs of the UART channel, and the theorems at them.
use pik.Base.{◌≡◌, refl, true, false, List, [], ◌∷◌, none, some, arith}
use pik.Protocol.{f_data, f_flush, f_ready, klipper_sync}
use pik.Channel.Token.{primary_token}
use pik.Channel.Effect.{readable, send, reg_add, got, wrote}
use pik.Channel.Mcu.{
  McuChannel, init, active, update_interest, open_uart, new, enter, transition, from_sync,
  wait_sync, after_read, uart_read, tick, handle_event, Event, frame, link_connect, ticked, io,
  pause, handle, handle_all,
}
use pik.Channel.Mcu.Armed.{Registry, Armed, handle-Armed, run_calls}
use pik.Channel.Mcu.Conforms.{Knows, handle_all-Knows, listen}

-- A UART on descriptor 5 that is registered for reads.
abbrev opened : McuChannel
opened = record {
  ch_id = 1;
  state = init;
  fd = some 5;
  fd_in_sel = true;
  txbuf = [];
  last_rx = none;
  reopen_at = none;
  bp_paused = false;
  link_up = true;
}

opened_new : (new 1 (some 5) 0).1 ≡ reg_add 5 2 readable ∷ []
unfolding new open_uart update_interest primary_token
opened_new = refl

-- Noise is dropped up to the first sync byte; then the far side is told, and gets the bytes.
first_bytes :
    (handle (io true false (got (1 ∷ 2 ∷ klipper_sync ∷ 9 ∷ [])) 70 (wrote 0)) opened).1
    ≡ send f_ready 1 [] ∷ send f_data 1 (klipper_sync ∷ 9 ∷ []) ∷ []
unfolding handle handle_event uart_read after_read wait_sync from_sync transition enter
first_bytes = refl

-- 5001 milliseconds without a byte are a reset.
silence :
    (tick 5002 none 5002 (record opened { state = active; last_rx = some 1 })).1
    ≡ send f_flush 1 [] ∷ []
unfolding tick transition enter
silence = refl

abbrev registry : Registry
registry fd = some readable

handle-Armed_example :
    let c : McuChannel = record opened { state = active } in
    let (c', l) = handle (frame f_data (3 ∷ 4 ∷ []) (wrote 1)) c in Armed c' (run_calls l registry)
handle-Armed_example =
    handle-Armed (frame f_data (3 ∷ 4 ∷ []) (wrote 1)) (record opened { state = active }) registry
      tt (refl, refl, λ h. absurd (ground arith))

abbrev history : List Event
history =
    io true false (got (klipper_sync ∷ 9 ∷ [])) 70 (wrote 0)
    ∷ link_connect
    ∷ frame f_data (3 ∷ 4 ∷ []) (wrote 1)
    ∷ pause
    ∷ ticked 9000 none 9000
    ∷ []

handle_all-Knows_example :
    let (c', l) = handle_all history opened in Knows c' (listen (some false) l)
handle_all-Knows_example = handle_all-Knows history opened (some false) (λ h. refl)
