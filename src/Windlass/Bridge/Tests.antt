-- ===== src/Windlass/Bridge/Tests.antt =====
-- The command line of windlass-bridge at concrete inputs.
use pik.Base.{ℕ, ◌≡◌, refl, true, List, [], ◌∷◌, Option, none, some}
use pik.Cli.Text.{split, same_text, parse_uint, digits}
use pik.Cli.{exporter, host, err, wrong_parts, reserved_id}
use pik.Windlass.Framing.{PayloadTunnelFrame}
use pik.Windlass.Smart.Proxy.{Vlq}
use pik.Windlass.Smart.Connection.{SmartHost, tunnelled, new}
use pik.Windlass.Smart.Connection.Demux.{demux_all, payloads_for, sent}
use pik.Windlass.Bridge.{
  McuSpec, mcu_baud, parse_parts, parse_channel_spec, parse_channel_specs, duplicate,
  validate_unique_channel_ids, runner, run_smart_host, main,
}
use pik.Windlass.Bridge.Sound.{side, is_smart, AllAccepted, Distinct, main-IsAccepted, main-demux}

-- mcu:3:/s
abbrev spec_text : List ℕ
spec_text = 109 ∷ 99 ∷ 117 ∷ 58 ∷ 51 ∷ 58 ∷ 47 ∷ 115 ∷ []

abbrev socket : McuSpec
socket = record { ch_id = 3; path = 47 ∷ 115 ∷ []; baud = 0 }

accepted : main host true (spec_text ∷ []) ≡ some (run_smart_host, socket ∷ [])
unfolding main runner parse_channel_specs parse_channel_spec parse_parts mcu_baud
    validate_unique_channel_ids duplicate split same_text parse_uint digits
accepted = refl

-- mcu:255:/s
reserved :
    parse_channel_spec host (109 ∷ 99 ∷ 117 ∷ 58 ∷ 50 ∷ 53 ∷ 53 ∷ 58 ∷ 47 ∷ 115 ∷ [])
    ≡ err reserved_id
unfolding parse_channel_spec parse_parts split same_text parse_uint digits
reserved = refl

-- An exporter wants the baud rate.
no_baud : parse_channel_spec exporter spec_text ≡ err wrong_parts
unfolding parse_channel_spec parse_parts mcu_baud split same_text parse_uint digits
no_baud = refl

twice : main host true (spec_text ∷ spec_text ∷ []) ≡ none
unfolding main parse_channel_specs parse_channel_spec parse_parts mcu_baud
    validate_unique_channel_ids duplicate split same_text parse_uint digits
twice = refl

main-IsAccepted_example :
    (side run_smart_host ≡ host)
    × (is_smart run_smart_host ≡ true)
    × AllAccepted host (spec_text ∷ []) (socket ∷ [])
    × Distinct [] (socket ∷ [])
main-IsAccepted_example =
    main-IsAccepted host true (spec_text ∷ []) run_smart_host (socket ∷ []) accepted

abbrev read_one : List ℕ → Option (ℕ × List ℕ)
read_one [] = none
read_one (n ∷ l) = some (n, l)

abbrev vlq : Vlq
vlq = record { read_u16 = read_one; read_u32 = read_one; read_u8 = read_one; write = λ n. n ∷ [] }

abbrev connected : SmartHost
connected = record { slots = λ i. some (some (new i [])); gathered = [] }

abbrev frames : List PayloadTunnelFrame
frames = tunnelled 3 (7 ∷ []) ∷ tunnelled 255 (2 ∷ 3 ∷ []) ∷ tunnelled 4 (8 ∷ []) ∷ []

main-demux_example :
    (demux_all vlq frames connected).slots 3 ≡ sent (payloads_for 3 frames) (connected.slots 3)
main-demux_example =
    main-demux (spec_text ∷ []) run_smart_host (socket ∷ []) accepted 3 refl vlq frames connected
