-- ===== src/Windlass/Bridge.antt =====
-- The command line of `windlass-bridge`, serialmux-rs/src/bin/windlass_bridge.rs: the channel specs, the
-- test for duplicate ids, and the loop that is run. The baud rates are parsed as main.rs does.
pub mod Sound
mod Tests
use pik.Base.{
  ℕ, ◌≡◌, Bool, true, false, not, List, [], ◌∷◌, Option, none, some, ◌==◌, is_member, if◌then◌else◌,
}
use pik.Cli.Text.{split, same_text, parse_uint}
use pik.Cli.{
  Mode, exporter, host, CliError, Parsed, ok, err, ◌>>=◌, or_error, guard, parse_standard_baud,
  mcu_text, wrong_parts, unknown_type, bad_id, too_short, reserved_id,
}
use pik.Windlass.Framing.{ctrl_ch}

pub record McuSpec : Type 0 where
  pub ch_id : ℕ
  pub path : List ℕ
  pub baud : ℕ

-- `parts[3..]`: for the exporter just the baud rate, and nothing for the host.
pub mcu_baud : Mode → List (List ℕ) → Parsed ℕ
mcu_baud exporter (raw ∷ []) = parse_standard_baud raw
mcu_baud exporter _ = err wrong_parts
mcu_baud host [] = ok 0
mcu_baud host (p ∷ ps) = err wrong_parts

pub parse_parts : Mode → List (List ℕ) → Parsed McuSpec
parse_parts mode (kind ∷ id_text ∷ path ∷ rest) =
    guard (same_text kind mcu_text) unknown_type >>= λ k.
    or_error bad_id (parse_uint 255 id_text) >>= λ id.
    guard (not (id == ctrl_ch)) reserved_id >>= λ i.
    mcu_baud mode rest >>= λ baud. ok (record { ch_id = id; path = path; baud = baud })
parse_parts mode _ = err too_short

pub parse_channel_spec : Mode → List ℕ → Parsed McuSpec
parse_channel_spec mode spec = parse_parts mode (split spec)

-- The value parser on each `channel_spec`; the first error ends the program.
pub parse_channel_specs : Mode → List (List ℕ) → Parsed (List McuSpec)
parse_channel_specs mode [] = ok []
parse_channel_specs mode (s ∷ ss) =
    parse_channel_spec mode s >>= λ c. parse_channel_specs mode ss >>= λ cs. ok (c ∷ cs)

-- The loop of `validate_unique_channel_ids` with the ids seen: the id for which the program exits.
pub duplicate : List ℕ → List McuSpec → Option ℕ
duplicate seen [] = none
duplicate seen (c ∷ cs) =
    let rest = duplicate (c.ch_id ∷ seen) cs in
    if is_member c.ch_id seen then some c.ch_id else rest

pub validate_unique_channel_ids : List McuSpec → Option ℕ
validate_unique_channel_ids channels = duplicate [] channels

-- The function that `main` runs.
pub data Runner : Type 0 where
  run_smart_exporter : Runner
  run_exporter : Runner
  run_smart_host : Runner
  run_host : Runner

pub runner : Mode → Bool → Runner
runner exporter smart = if smart then run_smart_exporter else run_exporter
runner host smart = if smart then run_smart_host else run_host

abbrev pub run_unique : Runner → List McuSpec → Option ℕ → Option (Runner × List McuSpec)
run_unique r cs none = some (r, cs)
run_unique r cs (some id) = none

abbrev pub run_parsed : Runner → Parsed (List McuSpec) → Option (Runner × List McuSpec)
run_parsed r (err e) = none
run_parsed r (ok cs) = run_unique r cs (validate_unique_channel_ids cs)

-- What is run on which channels, if the arguments are accepted.
pub main : Mode → Bool → List (List ℕ) → Option (Runner × List McuSpec)
main mode smart specs = run_parsed (runner mode smart) (parse_channel_specs mode specs)
