-- ===== src/Windlass/Smart/Link.antt =====
-- Klipper's commands, from one connection to the smart host to the microcontroller.
use pik.Base.{
  ℕ, ◌≡◌, refl, ap, subst, ◌∙◌, false, List, [], ◌∷◌, ◌++◌, some, ◌==◌, ==_refl, append_assoc,
}
use pik.Windlass.Framing.{ctrl_ch}
use pik.Windlass.Smart.Pipe.{Pipe, Carries, LostIfClosed}
use pik.Windlass.Smart.Proxy.{Vlq}
use pik.Windlass.Smart.Connection
use pik.Windlass.Smart.Connection.{tunnelled, map}
use pik.Windlass.Smart.Connection.Relayed.{Tunnelled, commands, Reach-Tunnelled_all}
use pik.Windlass.Smart.Connection.Demux.{payloads_for}
use pik.Windlass.Smart.Exporter
use pik.Windlass.Smart.Exporter.Relayed.{came_in, CarriesIfOpen, Reach-CarriesIfOpen_all}

payloads_for-tunnelled : (c : ℕ) (l : List (List ℕ)) → payloads_for c (map (tunnelled c) l) ≡ l
payloads_for-tunnelled c [] = refl
payloads_for-tunnelled c (p ∷ l) = rw (==_refl c) (ap (◌∷◌ p) (payloads_for-tunnelled c l))

-- Of the commands `l` the first were handed to the microcontroller's transport and the next wait at
-- the exporter, which loses the next if its task has ended; then those that wait at the host, which
-- loses the last if its task has ended.
abbrev pub HandedOn : List (List ℕ) → Pipe (List ℕ) → Pipe (List ℕ) → Type 0
HandedOn l uart host =
    (lost lost' : List (List ℕ)) × (l
      ≡ uart.passed ++ (uart.waiting ++ (lost ++ (host.waiting ++ lost'))))
    × LostIfClosed uart.is_open lost
    × LostIfClosed host.is_open lost'

Carries-HandedOn :
    (l : List (List ℕ)) (uart host : Pipe (List ℕ))
    → Carries l host
    → Carries host.passed uart
    → HandedOn l uart host
Carries-HandedOn l uart host (lost', e, s') (lost, e', s) =
    (lost, lost', rw (e, e') (simp append_assoc), s, s')

-- If the smart exporter has read, for a channel and since it opened it, what a connection to the
-- smart host sent to the USB writer, then the commands that the virtual microcontroller decoded on
-- that connection are handed to the transport of the channel's microcontroller in their order and
-- unchanged. Those that have not got there wait at the exporter or at the host, or are lost, which
-- happens only at a side whose task has ended.
pub commands-HandedOn :
    {v : Vlq} {c : ℕ} {dict : List ℕ} {es : List Connection.Event} {k : Connection.Connection}
    → Connection.Reach v c dict es k
    → {es' : List Exporter.Event} {x : Exporter.Exporter} → Exporter.Reach es' x
    → (c == ctrl_ch) ≡ false
    → came_in c es' ≡ payloads_for c k.usb
    → (uart : Pipe (List ℕ)) → x.uart_cmd_txs c ≡ some uart
    → HandedOn (commands v es) uart k.to_exporter
commands-HandedOn {v} {c} {es} {k} r {es'} {x} r' n got uart o =
    let sent : Tunnelled c (commands v es) k = (Reach-Tunnelled_all r).0 in
    let arrived : came_in c es' ≡ k.to_exporter.passed =
      got ∙ (ap (payloads_for c) sent.1 ∙ payloads_for-tunnelled c k.to_exporter.passed) in
    let carried : Carries (came_in c es') uart =
      subst (CarriesIfOpen (came_in c es')) o (Reach-CarriesIfOpen_all r' c n).1 in
    Carries-HandedOn (commands v es) uart k.to_exporter sent.0
      (subst (λ l. Carries l uart) arrived carried)
