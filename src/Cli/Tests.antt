-- ===== src/Cli/Tests.antt =====
-- The command line at concrete inputs.
use pik.Base.{ℕ, ◌≡◌, refl, true, List, [], ◌∷◌, ◌++◌, Option, none, some}
use pik.Channel.Effect.{Effect, got, wrote}
use pik.Channel.Tcp.{StreamWrite}
use pik.Channel.Tcp.Dest
use pik.Channel.Any.{AnyChannel, Answers}
use pik.Channel.Pty
use pik.Channel.Any.{pty}
use pik.Daemon.{OpenResult, opened, new}
use pik.Daemon.Loop.{Round}
use pik.Cli.Text.{split, split_once, same_text, digits, parse_uint, all_hex, to_lowercase}
use pik.Cli.{
  ChannelSpec, exporter, host, mcu_exporter, mcu_host, ok, err, id_too_large, bad_vid, parse_usb_id,
  parse_channel_spec, parse_parts, parse_kind, mcu_baud, parse_standard_baud,
  validate_unique_channel_ids, duplicate, is_hex_string,
}
use pik.Cli.Sound.{IsAccepted, third, parse_channel_spec-IsAccepted}
use pik.Cli.Build.{Started}

-- mcu:0:/d:9600
abbrev spec_text : List ℕ
spec_text = 109 ∷ 99 ∷ 117 ∷ 58 ∷ 48 ∷ 58 ∷ 47 ∷ 100 ∷ 58 ∷ 57 ∷ 54 ∷ 48 ∷ 48 ∷ []

abbrev uart_spec : ChannelSpec
uart_spec = mcu_exporter 0 (47 ∷ 100 ∷ []) 9600

parse_uart : parse_channel_spec exporter spec_text ≡ ok uart_spec
unfolding parse_channel_spec parse_parts parse_kind mcu_baud parse_standard_baud split same_text
    digits parse_uint
parse_uart = refl

-- mcu:63:/d
parse_id_63 :
    parse_channel_spec host (109 ∷ 99 ∷ 117 ∷ 58 ∷ 54 ∷ 51 ∷ 58 ∷ 47 ∷ 100 ∷ []) ≡ err id_too_large
unfolding parse_channel_spec parse_parts split same_text digits parse_uint
parse_id_63 = refl

-- 1D6b:0104 and xy:0104
usb_id :
    parse_usb_id (49 ∷ 68 ∷ 54 ∷ 98 ∷ 58 ∷ 48 ∷ 49 ∷ [])
    ≡ ok (49 ∷ 100 ∷ 54 ∷ 98 ∷ [], 48 ∷ 49 ∷ [])
unfolding parse_usb_id is_hex_string split_once all_hex to_lowercase
usb_id = refl

no_usb_id : parse_usb_id (120 ∷ 58 ∷ 48 ∷ []) ≡ err bad_vid
unfolding parse_usb_id is_hex_string split_once all_hex to_lowercase
no_usb_id = refl

parse_channel_spec-IsAccepted_example : IsAccepted exporter (third (split spec_text)) uart_spec
parse_channel_spec-IsAccepted_example =
    parse_channel_spec-IsAccepted exporter spec_text uart_spec parse_uart

abbrev start : Started
start = record { uart = none; now = 10; listener = none }

abbrev started : List (ChannelSpec × Started)
started = (mcu_host 3 (47 ∷ []) 9600, start) ∷ (mcu_host 1 (47 ∷ []) 9600, start) ∷ []

abbrev channels : List AnyChannel
channels = pty (Pty.new 3).0 ∷ pty (Pty.new 1).0 ∷ []

abbrev effects : List Effect
effects = (Pty.new 3).1 ++ ((Pty.new 1).1 ++ [])

-- One id for two channels is refused.
duplicate_id : validate_unique_channel_ids (uart_spec ∷ mcu_host 0 [] 9600 ∷ []) ≡ some 0
unfolding validate_unique_channel_ids duplicate
duplicate_id = refl

abbrev no_device : List ℕ → List ℕ → Option (List ℕ)
no_device vid pid = none

abbrev serial : List ℕ → OpenResult
serial dev = opened 5

abbrev answers : Answers
answers = record {
  read = got [];
  write = wrote 1;
  now = 40;
  opened = some 8;
  pair = Pty.opened 9 10;
  connect = Dest.refused;
  confirmed = true;
  accepted = [];
  reads = [];
  wrote = StreamWrite.would_block;
}

abbrev quiet_round : Round Answers
quiet_round = record {
  now = 30;
  later = 31;
  latest = 32;
  find_acm = no_device;
  open_serial = serial;
  ticks = λ k. answers;
  events = none;
}

-- A map that iterates with the latest entry first.
abbrev in_front : ℕ → List ℕ → ℕ
in_front id held = 0
