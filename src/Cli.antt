-- ===== src/Cli.antt =====
-- The command line of `serialmux`, serialmux-rs/src/main.rs: what the value parsers accept, the test
-- for duplicate ids, and the channels that are built. Error texts are the constructors of CliError.
pub mod Text
pub mod Sound
pub mod Build
mod Tests
use pik.Base.{
  ℕ, ◌-◌, ◌^◌, Bool, true, false, List, [], ◌∷◌, Option, none, some, ◌==◌, ◌&&◌, ◌||◌, leb, ltb,
  if◌then◌else◌, is_member,
}
use pik.Channel.Token.{max_channel_id}
use pik.Cli.Text.{split, split_once, same_text, parse_uint, all_hex, to_lowercase}

pub data Mode : Type 0 where
  exporter : Mode
  host : Mode

pub data ChannelSpec : Type 0 where
  mcu_exporter : ℕ → List ℕ → ℕ → ChannelSpec
  mcu_host : ℕ → List ℕ → ℕ → ChannelSpec
  tcp_exporter : ℕ → List ℕ → ℕ → ChannelSpec
  tcp_host : ℕ → List ℕ → ℕ → ChannelSpec

pub data CliError : Type 0 where
  no_colon : CliError
  bad_vid : CliError
  bad_pid : CliError
  too_short : CliError
  unknown_type : CliError
  bad_id : CliError
  id_too_large : CliError
  wrong_parts : CliError
  bad_baud : CliError
  odd_baud : CliError
  bad_port : CliError
  -- only of serialmux-rs/src/bin/windlass_bridge.rs
  reserved_id : CliError

-- `Result` with those errors
pub data Parsed (A : Type 0) : Type 0 where
  ok : A → Parsed A
  err : CliError → Parsed A

-- `?`
infixl 5 ◌>>=◌
abbrev pub ◌>>=◌ : {A B : Type 0} → Parsed A → (A → Parsed B) → Parsed B
ok a >>= f = f a
err e >>= f = err e

-- `ok_or_else` and `map_err`
abbrev pub or_error : {A : Type 0} → CliError → Option A → Parsed A
or_error e none = err e
or_error e (some a) = ok a

-- A guard that returns the error.
abbrev pub guard : Bool → CliError → Parsed (Unit {0})
guard true e = ok tt
guard false e = err e

is_hex_string : List ℕ → Bool
is_hex_string [] = false
is_hex_string (c ∷ cs) = all_hex (c ∷ cs)

pub parse_usb_id : List ℕ → Parsed (List ℕ × List ℕ)
parse_usb_id val = or_error no_colon (split_once val) >>= λ p.
    guard (is_hex_string p.0) bad_vid >>= λ v.
    guard (is_hex_string p.1) bad_pid >>= λ w. ok (to_lowercase p.0, to_lowercase p.1)

abbrev pub valid_bauds : List ℕ
valid_bauds =
    1200 ∷ 2400 ∷ 4800 ∷ 9600 ∷ 19200 ∷ 38400 ∷ 57600 ∷ 115200 ∷ 230400 ∷ 460800 ∷ 921600 ∷ []

abbrev pub default_baud : ℕ
default_baud = 230400

unfoldable pub parse_standard_baud : List ℕ → Parsed ℕ
parse_standard_baud raw = or_error bad_baud (parse_uint (2 ^ 32 - 1) raw) >>= λ baud.
    guard (is_member baud valid_bauds) odd_baud >>= λ v. ok baud

pub parse_tcp_port : Option (List ℕ) → Parsed ℕ
parse_tcp_port raw = or_error wrong_parts raw >>= λ text.
    or_error bad_port (parse_uint (2 ^ 16 - 1) text) >>= λ port.
    guard (ltb 0 port) bad_port >>= λ v. ok port

-- The fourth part.
abbrev pub fourth : List (List ℕ) → Option (List ℕ)
fourth [] = none
fourth (p ∷ ps) = some p

-- `"mcu"` and `"tcp"`
abbrev pub mcu_text : List ℕ
mcu_text = 109 ∷ 99 ∷ 117 ∷ []

abbrev pub tcp_text : List ℕ
tcp_text = 116 ∷ 99 ∷ 112 ∷ []

-- `parts[3..]` of an MCU channel: just the baud rate, which a host may leave out.
pub mcu_baud : Mode → List (List ℕ) → Parsed ℕ
mcu_baud exporter [] = err wrong_parts
mcu_baud host [] = ok default_baud
mcu_baud mode (raw ∷ []) = parse_standard_baud raw
mcu_baud mode (raw ∷ p ∷ ps) = err wrong_parts

abbrev pub mcu_spec : Mode → ℕ → List ℕ → ℕ → ChannelSpec
mcu_spec exporter id path baud = mcu_exporter id path baud
mcu_spec host id path baud = mcu_host id path baud

abbrev pub tcp_spec : Mode → ℕ → List ℕ → ℕ → ChannelSpec
tcp_spec exporter id addr port = tcp_exporter id addr port
tcp_spec host id addr port = tcp_host id addr port

-- The `match` on the kind and the mode.
pub parse_kind : Mode → List ℕ → ℕ → List ℕ → List (List ℕ) → Parsed ChannelSpec
parse_kind mode kind id third rest =
    if same_text kind mcu_text
    then (mcu_baud mode rest >>= λ baud. ok (mcu_spec mode id third baud))
    else (parse_tcp_port (fourth rest) >>= λ port. ok (tcp_spec mode id third port))

pub parse_parts : Mode → List (List ℕ) → Parsed ChannelSpec
parse_parts mode (kind ∷ id_text ∷ third ∷ rest) =
    guard (same_text kind mcu_text || same_text kind tcp_text) unknown_type >>= λ k.
    or_error bad_id (parse_uint 255 id_text) >>= λ id.
    guard (leb id max_channel_id) id_too_large >>= λ i. parse_kind mode kind id third rest
parse_parts mode _ = err too_short

pub parse_channel_spec : Mode → List ℕ → Parsed ChannelSpec
parse_channel_spec mode spec = parse_parts mode (split spec)

abbrev pub spec_id : ChannelSpec → ℕ
spec_id (mcu_exporter id path baud) = id
spec_id (mcu_host id path baud) = id
spec_id (tcp_exporter id addr port) = id
spec_id (tcp_host id addr port) = id

-- The loop of `validate_unique_channel_ids` with the ids seen: the id for which the program exits.
pub duplicate : List ℕ → List ChannelSpec → Option ℕ
duplicate seen [] = none
duplicate seen (c ∷ cs) =
    let rest = duplicate (spec_id c ∷ seen) cs in
    if is_member (spec_id c) seen then some (spec_id c) else rest

pub validate_unique_channel_ids : List ChannelSpec → Option ℕ
validate_unique_channel_ids channels = duplicate [] channels
