-- ===== src/Serial/Tests.antt =====
-- The opening of a serial port at concrete inputs.
use pik.Base.{ℕ, ◌≡◌, refl, true, List, [], ◌∷◌, none}
use pik.Cli
use pik.Cli.{parse_standard_baud}
use pik.Cli.Text.{parse_uint, digits}
use pik.Serial.{
  gave, failed, os, ok, err, cs8, Termios, TermiosCalls, apply_termios, open_serial_fd,
  open_pty_raw, baud_to_speed, read_nonblock, write_nonblock, eagain,
}
use pik.Serial.Opened.{Opens, open_serial_fd-Opens}

-- 9600
abbrev baud_text : List ℕ
baud_text = 57 ∷ 54 ∷ 48 ∷ 48 ∷ []

accepted : parse_standard_baud baud_text ≡ Cli.ok 9600
unfolding parse_standard_baud parse_uint digits
accepted = refl

-- A terminal as it was before, whose attributes cannot be set.
abbrev cooked : Termios
cooked = record {
  input_flags = 2 ∷ [];
  output_flags = 1 ∷ [];
  control_flags = cs8 ∷ [];
  local_flags = 8 ∷ [];
  vmin = 1;
  vtime = 0;
  speed = none;
}

abbrev calls : TermiosCalls
calls = record { tcgetattr = gave cooked; cfsetspeed = gave tt; tcsetattr = failed 5 }

open_serial_fd-Opens_example :
    Opens true
      (gave 7)
      9600
      calls
      (open_serial_fd true (gave 7) 9600 calls).result
      (open_serial_fd true (gave 7) 9600 calls).left_open
open_serial_fd-Opens_example = open_serial_fd-Opens baud_text 9600 accepted true (gave 7) calls

closed_again :
    open_serial_fd true (gave 7) 9600 calls ≡ record { result = err (os 5); left_open = [] }
unfolding open_serial_fd apply_termios baud_to_speed
closed_again = refl

-- Both sides of the pair stay open.
pair_left : (open_pty_raw (gave (7, 8)) 9600 calls (gave tt)).left_open ≡ 7 ∷ 8 ∷ []
unfolding open_pty_raw apply_termios baud_to_speed
pair_left = refl

nothing_to_read : read_nonblock (failed eagain) ≡ ok none
unfolding read_nonblock
nothing_to_read = refl

nothing_written : write_nonblock (failed eagain) ≡ ok 0
unfolding write_nonblock
nothing_written = refl
