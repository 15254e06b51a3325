-- ===== src/Serial.antt =====
-- The opening of a serial port in serialmux-rs/src/serial.rs, and the results of its non-blocking
-- read and write. What the system calls return is an argument.
pub mod Opened
mod Tests
use pik.Base.{ℕ, ◌≡◌, Bool, true, false, List, [], ◌∷◌, Option, none, some, ◌==◌, if◌then◌else◌}

-- A system call's value, or its errno.
pub data Sys (A : Type 0) : Type 0 where
  gave : A → Sys A
  failed : ℕ → Sys A

-- `io::Error`
pub data IoError : Type 0 where
  os : ℕ → IoError
  invalid_input : IoError

pub data Result (A : Type 0) : Type 0 where
  ok : A → Result A
  err : IoError → Result A

-- `EAGAIN`, which is also `EWOULDBLOCK`
abbrev pub eagain : ℕ
eagain = 11

-- What `libc::read` and `libc::write` return is made of.
pub read_nonblock : Sys ℕ → Result (Option ℕ)
read_nonblock (gave n) = ok (some n)
read_nonblock (failed e) = if e == eagain then ok none else err (os e)

pub write_nonblock : Sys ℕ → Result ℕ
write_nonblock (gave n) = ok n
write_nonblock (failed e) = if e == eagain then ok 0 else err (os e)

-- The rates of `nix` that are used.
pub data Speed : Type 0 where
  b1200 : Speed
  b2400 : Speed
  b4800 : Speed
  b9600 : Speed
  b19200 : Speed
  b38400 : Speed
  b57600 : Speed
  b115200 : Speed
  b230400 : Speed
  b460800 : Speed
  b921600 : Speed

pub baud_to_speed : ℕ → Option Speed
baud_to_speed baud =
    if baud == 1200
    then some b1200
    else if baud == 2400
    then some b2400
    else if baud == 4800
    then some b4800
    else if baud == 9600
    then some b9600
    else if baud == 19200
    then some b19200
    else if baud == 38400
    then some b38400
    else if baud == 57600
    then some b57600
    else if baud == 115200
    then some b115200
    else if baud == 230400
    then some b230400
    else if baud == 460800
    then some b460800
    else if baud == 921600
    then some b921600
    else none

pub data ControlFlag : Type 0 where
  cread : ControlFlag
  clocal : ControlFlag
  cs8 : ControlFlag

-- The fields of `Termios` that are set.
pub record Termios : Type 0 where
  pub input_flags : List ℕ
  pub output_flags : List ℕ
  pub control_flags : List ControlFlag
  pub local_flags : List ℕ
  pub vmin : ℕ
  pub vtime : ℕ
  pub speed : Option Speed

-- What `tcgetattr`, `cfsetspeed` and `tcsetattr` return.
pub record TermiosCalls : Type 0 where
  pub tcgetattr : Sys Termios
  pub cfsetspeed : Sys (Unit {0})
  pub tcsetattr : Sys (Unit {0})

abbrev pub raw : Speed → Termios → Termios
raw s attrs = record attrs {
  input_flags = [];
  output_flags = [];
  control_flags = cread ∷ clocal ∷ cs8 ∷ [];
  local_flags = [];
  vmin = 0;
  vtime = 0;
  speed = some s;
}

abbrev pub set_attrs : Sys (Unit {0}) → Termios → Result Termios
set_attrs (gave u) attrs = ok attrs
set_attrs (failed e) attrs = err (os e)

abbrev pub set_speed : Speed → Sys (Unit {0}) → TermiosCalls → Termios → Result Termios
set_speed s (gave u) calls attrs = set_attrs calls.tcsetattr (raw s attrs)
set_speed s (failed e) calls attrs = err (os e)

abbrev pub get_attrs : Speed → Sys Termios → TermiosCalls → Result Termios
get_attrs s (gave attrs) calls = set_speed s calls.cfsetspeed calls attrs
get_attrs s (failed e) calls = err (os e)

abbrev pub with_speed : Option Speed → TermiosCalls → Result Termios
with_speed none calls = err invalid_input
with_speed (some s) calls = get_attrs s calls.tcgetattr calls

-- The attributes that the descriptor has then.
pub apply_termios : ℕ → TermiosCalls → Result Termios
apply_termios baud calls = with_speed (baud_to_speed baud) calls

-- What opening a port gives, with the descriptors that it leaves open.
pub record Opening (A : Type 0) : Type 0 where
  pub result : Result A
  pub left_open : List ℕ

abbrev pub configured : ℕ → Result Termios → Opening (ℕ × Termios)
configured fd (ok attrs) = record { result = ok (fd, attrs); left_open = fd ∷ [] }
configured fd (err e) = record { result = err e; left_open = [] }

abbrev pub opened_fd : Sys ℕ → ℕ → TermiosCalls → Opening (ℕ × Termios)
opened_fd (failed e) baud calls = record { result = err (os e); left_open = [] }
opened_fd (gave fd) baud calls = configured fd (apply_termios baud calls)

-- Whether the path has no NUL, and what `libc::open` returns.
pub open_serial_fd : Bool → Sys ℕ → ℕ → TermiosCalls → Opening (ℕ × Termios)
open_serial_fd true fd baud calls = opened_fd fd baud calls
open_serial_fd false fd baud calls = record { result = err invalid_input; left_open = [] }

-- The code closes neither side of the pair when a later call fails.
abbrev pub nonblocking : ℕ → ℕ → Sys (Unit {0}) → Opening (ℕ × ℕ)
nonblocking master_fd slave_fd (gave u) = record {
  result = ok (master_fd, slave_fd);
  left_open = master_fd ∷ slave_fd ∷ [];
}
nonblocking master_fd slave_fd (failed e) = record {
  result = err (os e);
  left_open = master_fd ∷ slave_fd ∷ [];
}

abbrev pub pair : ℕ → ℕ → Result Termios → Sys (Unit {0}) → Opening (ℕ × ℕ)
pair master_fd slave_fd (ok attrs) set = nonblocking master_fd slave_fd set
pair master_fd slave_fd (err e) set = record {
  result = err e;
  left_open = master_fd ∷ slave_fd ∷ [];
}

-- What `openpty` gives, and what `set_nonblock` returns for the master.
pub open_pty_raw : Sys (ℕ × ℕ) → ℕ → TermiosCalls → Sys (Unit {0}) → Opening (ℕ × ℕ)
open_pty_raw (failed e) baud calls set = record { result = err (os e); left_open = [] }
open_pty_raw (gave (master_fd, slave_fd)) baud calls set =
    pair master_fd slave_fd (apply_termios baud calls) set
