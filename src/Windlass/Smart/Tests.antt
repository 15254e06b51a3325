-- ===== src/Windlass/Smart/Tests.antt =====
-- The smart proxy at concrete inputs.
use pik.Base.{ℕ, ◌≡◌, refl, true, List, [], ◌∷◌, Option, none, some, arith}
use pik.Windlass.Dictionary.{gather_dictionary}
use pik.Windlass.Dictionary.Arrival.{for_channel}
use pik.Windlass.Smart.Pipe.{Pipe, Carries}
use pik.Windlass.Smart.Proxy.{Vlq, IsVlq, dispatch_raw, dispatch, chunk_at, response}
use pik.Windlass.Smart.Identify.{ask, read_all, ask-dictionary}
use pik.Windlass.Smart.Connection as Connection
use pik.Windlass.Smart.Connection.{SmartHost, fresh}
use pik.Windlass.Smart.Connection.Relayed.{
  Tunnelled, commands, outputs, came_in, taken, not_cleaned, Reach-Tunnelled_all,
}
use pik.Windlass.Smart.Connection.Demux.{demux_all, payloads_for}
use pik.Windlass.Smart.Exporter as Exporter
use pik.Windlass.Smart.Exporter.Upward as ExporterUpward
use pik.Windlass.Smart.Exporter.Relayed as ExporterRelayed
use pik.Windlass.Smart.Exporter.Relayed.{CarriesIfOpen, Reach-CarriesIfOpen_all}
use pik.Windlass.Smart.Link.{HandedOn, commands-HandedOn}
use pik.Windlass.Smart.Exporter.Dictionaries.{dictionary_of-published}

-- A number stands for itself.
abbrev read_one : List ℕ → Option (ℕ × List ℕ)
read_one [] = none
read_one (n ∷ l) = some (n, l)

abbrev vlq : Vlq
vlq = record { read_u16 = read_one; read_u32 = read_one; read_u8 = read_one; write = λ n. n ∷ [] }

vlq-IsVlq : IsVlq vlq
vlq-IsVlq = record { u16 = λ n l h. refl; u32 = λ n l h. refl; u8 = λ n l h. refl }

abbrev dictionary : List ℕ
dictionary = 120 ∷ 156 ∷ 3 ∷ []

ask-dictionary_example :
    (read_all vlq (ask vlq 2 0 2 (fresh dictionary)).pending_responses ≡ some dictionary)
    × ((ask vlq 2 0 2 (fresh dictionary)).to_exporter ≡ [])
ask-dictionary_example =
    ask-dictionary vlq vlq-IsVlq 2 2 (fresh dictionary) (omega arith) (omega arith) (omega arith)
      refl

-- `receive` decodes a command and an `identify`; the command is forwarded; a payload comes in, and
-- the relay loop takes it.
abbrev clock : List ℕ
clock = 7 ∷ 1 ∷ []

abbrev events : List Connection.Event
events =
    Connection.mcu_payload clock
    ∷ Connection.routed clock
    ∷ Connection.forwarded
    ∷ Connection.sock_read [] (clock ∷ (1 ∷ 0 ∷ 2 ∷ []) ∷ [])
    ∷ []

abbrev run : List Connection.Event → Connection.Connection
run [] = Connection.new 3 dictionary
run (e ∷ es) = Connection.step vlq e (run es)

reaches : Connection.Reach vlq 3 dictionary events (run events)
unfolding Connection.new Connection.step Connection.relay Connection.forward Connection.answer_with
    dispatch_raw
reaches =
    Connection.later
      (Connection.later
        (Connection.later
          (Connection.later Connection.start
            (Connection.sock_read [] (clock ∷ (1 ∷ 0 ∷ 2 ∷ []) ∷ [])) refl)
          Connection.forwarded (λ e. cc e))
        (Connection.routed clock) tt)
      (Connection.mcu_payload clock) (refl, ([], refl))

Reach-Tunnelled_all_example :
    Tunnelled 3 (commands vlq events) (run events)
    × Carries (outputs vlq dictionary events) (run events).to_klipper
    × Carries (came_in events) (run events).from_mcu
    × ((run events).from_mcu.passed ≡ taken events)
    × ((run events).from_mcu.is_open ≡ not_cleaned events)
Reach-Tunnelled_all_example = Reach-Tunnelled_all reaches

relayed :
    ((run events).usb ≡ Connection.tunnelled 3 clock ∷ [])
    × ((run events).to_klipper.waiting
        ≡ Connection.framed (0 ∷ 0 ∷ 2 ∷ 120 ∷ 156 ∷ []) ∷ Connection.framed clock ∷ [])
unfolding Connection.new Connection.step Connection.relay Connection.forward Connection.answer_with
    dispatch_raw dispatch chunk_at response
relayed = (refl, refl)

-- Two channels are opened, the microcontroller of one answers, and a command comes in for it.
abbrev uart_events : List Exporter.Event
uart_events =
    Exporter.usb_frame (Connection.tunnelled 3 clock)
    ∷ Exporter.mcu_payload 3 clock
    ∷ Exporter.opened 4 (9 ∷ [])
    ∷ Exporter.opened 3 dictionary
    ∷ []

abbrev run_uarts : List Exporter.Event → Exporter.Exporter
run_uarts [] = Exporter.new
run_uarts (e ∷ es) = Exporter.step e (run_uarts es)

uart_reaches : Exporter.Reach uart_events (run_uarts uart_events)
unfolding Exporter.new Exporter.step Exporter.open_channel
uart_reaches =
    Exporter.later
      (Exporter.later
        (Exporter.later
          (Exporter.later Exporter.start (Exporter.opened 3 dictionary) (refl, refl, refl))
          (Exporter.opened 4 (9 ∷ [])) (refl, refl, refl))
        (Exporter.mcu_payload 3 clock) (refl, refl))
      (Exporter.usb_frame (Connection.tunnelled 3 clock)) tt

Reach-CarriesIfOpen_all_example :
    (payloads_for 3 (run_uarts uart_events).usb ≡ ExporterUpward.read_on 3 uart_events)
    × CarriesIfOpen (ExporterRelayed.came_in 3 uart_events) ((run_uarts uart_events).uart_cmd_txs 3)
    × (payloads_for 255 (run_uarts uart_events).usb ≡ ExporterUpward.transfers uart_events)
Reach-CarriesIfOpen_all_example = Reach-CarriesIfOpen_all uart_reaches 3 refl

abbrev host : SmartHost
host = record { slots = λ i. none; gathered = [] }

dictionary_of-published_example :
    for_channel 3
      (gather_dictionary
        (λ i. true)
        (demux_all vlq (run_uarts uart_events).usb host).gathered
        (λ i. [])).1
    ≡ dictionary ∷ []
dictionary_of-published_example =
    dictionary_of-published uart_reaches 3 dictionary refl vlq host refl (λ i. true) refl

-- The exporter has read the command that the connection sent.
abbrev uart : Pipe (List ℕ)
uart = record { waiting = clock ∷ []; passed = []; is_open = true }

link_delivers : ExporterRelayed.came_in 3 uart_events ≡ payloads_for 3 (run events).usb
unfolding Connection.new Connection.step Connection.relay Connection.forward Connection.answer_with
    dispatch_raw dispatch
link_delivers = refl

uart_waits : (run_uarts uart_events).uart_cmd_txs 3 ≡ some uart
unfolding Exporter.new Exporter.step Exporter.open_channel Exporter.demux
uart_waits = refl

commands-HandedOn_example : HandedOn (commands vlq events) uart (run events).to_exporter
commands-HandedOn_example =
    commands-HandedOn reaches uart_reaches refl link_delivers uart uart_waits
