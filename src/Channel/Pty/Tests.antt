-- ===== src/Channel/Pty/Tests.antt =====
-- Runs of the pseudo terminal, and the theorem at one.
use pik.Base.{◌≡◌, refl, true, false, List, [], ◌∷◌, none}
use pik.Protocol.{f_data, f_ready}
use pik.Channel.Token.{primary_token}
use pik.Channel.Effect.{
  readable, reg_add, reg_del, close_raw, remove_symlink, make_symlink, got, read_err, wrote,
}
use pik.Channel.Pty.{
  PtyChannel, update_interest, opened, open_pty, close_pty, pty_drain, pty_write, on_frame,
  handle_event, Event, frame, io, handle, handle_all,
}
use pik.Channel.Pty.World.{World, trace}
use pik.Channel.Pty.Paired.{Paired, handle_all-Paired}

abbrev closed : PtyChannel
closed = record {
  ch_id = 3;
  master_fd = none;
  slave_fd = none;
  master_in_sel = false;
  txbuf = [];
  bp_paused = false;
}

abbrev history : List Event
history =
    frame f_ready [] (opened 8 9) (wrote 0)
    ∷ io true false (got (104 ∷ 105 ∷ [])) (wrote 0)
    ∷ frame f_data (1 ∷ 2 ∷ []) (opened 8 9) (wrote 2)
    ∷ io true true (read_err true) (wrote 0)
    ∷ []

-- F_READY opens the pair, bytes go both ways, and an EIO closes it.
open_and_close :
    (handle_all
      (frame f_ready [] (opened 8 9) (wrote 0) ∷ io true true (read_err true) (wrote 0) ∷ [])
      closed).1
    ≡ remove_symlink
      ∷ make_symlink
      ∷ reg_add 8 4 readable
      ∷ reg_del 8
      ∷ close_raw 8
      ∷ close_raw 9
      ∷ remove_symlink
      ∷ []
unfolding handle_all handle on_frame open_pty update_interest handle_event close_pty pty_write
    pty_drain primary_token
open_and_close = refl

-- Nothing is held of the descriptor, and the symlink is not there.
abbrev absent : World
absent = record { linked = false; held = false; registered = false }

handle_all-Paired_example : Paired 8 (handle_all history closed).0 (trace 8 history closed absent)
handle_all-Paired_example = handle_all-Paired 8 history closed absent (refl, refl, refl, refl, refl)
