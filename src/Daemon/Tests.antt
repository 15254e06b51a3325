-- ===== src/Daemon/Tests.antt =====
-- The daemon at concrete inputs, with a sum of the bytes for `crc32fast::hash`.
use pik.Base.{
  ℕ, ◌+◌, ◌%◌, ◌^◌, ◌<◌, ◌≡◌, ◌≤◌, ◌*◌, min, length, refl, true, false, List, [], ◌∷◌, Option, none,
  some, arith,
}
use pik.Protocol.{Frame, f_ack, f_ping}
use pik.Protocol.TxQueue
use pik.Protocol.TxQueue.Inv.{new-IsValid}
use pik.Protocol.TxQueue.Refine.{contents}
use pik.Channel.Effect.{would_block, got, read_err, wrote}
use pik.Channel.Mcu
use pik.Channel.Mcu.{McuChannel}
use pik.Channel.Pty
use pik.Channel.Pty.{PtyChannel}
use pik.Channel.Tcp.{StreamWrite}
use pik.Channel.Tcp.Dest
use pik.Channel.Any.{AnyChannel, Answers, mcu, pty, any_channel, IsDown}
use pik.Daemon.{
  Daemon, OpenResult, no_open, no_register, opened, new, opened_link, link_read, max_tick,
  first_delay, last_delay,
}
use pik.Daemon.Loop.{PollEvent, Round, next_timeout}
use pik.Daemon.Loop.Deadline.{WakesForLink, WakesForChannels, next_timeout_lem}
use pik.Daemon.Failure.{IsClosed, read_fails, failing_link-IsClosed, attempts, attempts-delay}
use pik.Channel.Any.Laws.{any_channel_laws}
use pik.Daemon.Handshake.{open_link-up}

sum_from : ℕ → List ℕ → ℕ
sum_from acc [] = acc
sum_from acc (b ∷ bs) = sum_from (acc + b) bs

sum_hash : List ℕ → ℕ
unfolding sum_from
sum_hash bs = sum_from 0 bs % 2 ^ 32

sum_hash-lt : (p : List ℕ) → sum_hash p < 2 ^ 32
unfolding sum_hash
sum_hash-lt p = omega arith

abbrev uart : McuChannel
uart = record {
  ch_id = 0;
  state = Mcu.init;
  fd = some 7;
  fd_in_sel = true;
  txbuf = [];
  last_rx = none;
  reopen_at = none;
  bp_paused = false;
  link_up = false;
}

abbrev terminal : PtyChannel
terminal = record {
  ch_id = 1;
  master_fd = none;
  slave_fd = none;
  master_in_sel = false;
  txbuf = [];
  bp_paused = false;
}

abbrev answers : Answers
answers = record {
  read = got (1 ∷ 2 ∷ []);
  write = wrote 1;
  now = 40;
  opened = some 8;
  pair = Pty.opened 9 10;
  connect = Dest.refused;
  confirmed = false;
  accepted = [];
  reads = [];
  wrote = StreamWrite.would_block;
}

-- The link is read, and then the channel 0; the token of its UART is 1.
abbrev link_event : PollEvent Answers
link_event = record {
  token = 0;
  is_readable = true;
  is_writable = true;
  read = got (0xAA ∷ 0x55 ∷ []);
  write = TxQueue.wrote 3;
  answer = answers;
  answers = λ k. answers;
  clock = λ k. k;
  now = 50;
}

abbrev uart_event : PollEvent Answers
uart_event = record {
  token = 1;
  is_readable = true;
  is_writable = false;
  read = would_block;
  write = TxQueue.again;
  answer = answers;
  answers = λ k. answers;
  clock = λ k. k;
  now = 60;
}

abbrev no_device : List ℕ → List ℕ → Option (List ℕ)
no_device vid pid = none

abbrev serial : List ℕ → OpenResult
serial dev = opened 5

abbrev one_round : Round Answers
one_round = record {
  now = 30;
  later = 31;
  latest = 32;
  find_acm = no_device;
  open_serial = serial;
  ticks = λ k. answers;
  events = some (link_event ∷ uart_event ∷ []);
}

abbrev fixed_dev : Option (List ℕ)
fixed_dev = some (47 ∷ 100 ∷ [])

abbrev start : Daemon AnyChannel
start = new any_channel sum_hash (λ id held. 1) fixed_dev none (mcu uart ∷ pty terminal ∷ []) 10

abbrev listening : Daemon AnyChannel
listening = record {
  link_dev = fixed_dev;
  usb_id = none;
  channels = (0, mcu uart) ∷ [];
  txq = TxQueue.new;
  parser = [];
  link_fd = some 6;
  link_up = false;
  link_bp = false;
  disconnected = false;
  reopen_at = 0;
  reopen_delay = 500;
  last_rx = some 5;
  last_tx = some 5;
}

abbrev pinged : List Frame
pinged =
    record { ftype = f_ping; channel = 0; payload = [] }
    ∷ record { ftype = f_ack; channel = 0; payload = [] }
    ∷ []

open_link-up_example :
    let queued = contents (opened_link any_channel sum_hash (opened 5) 20 21 listening).0.txq in
    (link_read any_channel sum_hash (got queued) 60 (λ k. answers) (λ k. k) listening).0.link_up
    ≡ true
open_link-up_example =
    open_link-up any_channel sum_hash sum_hash-lt 5 6 20 21 60 (λ k. answers) (λ k. k) listening
      listening new-IsValid refl refl

-- A read error with nothing queued, soon after the last byte.
failing_link-IsClosed_example :
    IsClosed IsDown 6
      (60 + 500)
      (link_read any_channel sum_hash (read_err true) 60 (λ k. answers) (λ k. k) listening)
failing_link-IsClosed_example =
    failing_link-IsClosed any_channel_laws sum_hash (read_fails true (λ k. answers) (λ k. k)) 6 60
      listening refl refl tt

abbrev failures : List (ℕ × OpenResult)
failures = (20, no_open) ∷ (600, no_register 5) ∷ (1700, no_open) ∷ []

attempts-delay_example :
    (attempts any_channel sum_hash no_device failures listening).reopen_delay
    ≡ min (first_delay * 2 ^ length failures) last_delay
attempts-delay_example =
    attempts-delay any_channel sum_hash no_device failures listening (refl, (refl, (refl, tt))) refl

next_timeout_lem_example :
    (next_timeout any_channel sum_hash 40 listening ≤ max_tick)
    × WakesForLink false false 40 (next_timeout any_channel sum_hash 40 listening) listening
    × WakesForChannels any_channel.next_deadline listening.channels 40
        (next_timeout any_channel sum_hash 40 listening)
next_timeout_lem_example = next_timeout_lem any_channel sum_hash listening 40
