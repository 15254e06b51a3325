-- ===== src/Windlass/Smart/Exporter/Dictionaries.antt =====
-- The dictionaries, from the smart exporter to the watches of the smart host.
use pik.Base.{
  ℕ, ◌≡◌, refl, ap, sym, subst, ◌∙◌, Bool, true, false, List, [], ◌∷◌, ◌++◌, Option, none, some,
  ◌==◌, ==_refl, Bool-cases, inl, inr, arith, append-nil, length,
}
use pik.Windlass.Framing.{PayloadTunnelFrame, ctrl_ch, ctrl_dict_frag}
use pik.Windlass.Dictionary.{chunks_from, fragments, gather_dictionary}
use pik.Windlass.Dictionary.Arrival.{
  for_channel, is_for, only, payloads, gather_dictionary-only, gather-fragments, concat-chunks_from,
}
use pik.Windlass.Smart.Pipe.{Pipe, send, pass, close}
use pik.Windlass.Smart.Proxy.{Vlq}
use pik.Windlass.Smart.Connection.{SmartHost}
use pik.Windlass.Smart.Connection.Demux.{demux_all, payloads_for, demux_all_lem}
use pik.Windlass.Smart.Exporter.{
  Exporter, Event, opened, mcu_payload, mcu_end, usb_frame, command_sent, command_failed,
  usb_failed, transfer, open_channel, adjust, at_channel, demux, step, new, Reach, start, later,
}
use pik.Windlass.Smart.Exporter.Relayed.{dictionary_of, Reach-transfers, send_usb-commands}
use pik.Windlass.Smart.Exporter.Upward.{transfers}

only-append : (c : ℕ) (l m : List (List ℕ)) → only c (l ++ m) ≡ only c l ++ only c m
only-append c [] m = refl
only-append c (p ∷ l) m = elim (Bool-cases (is_for c p)) [
  | inl e ↦ rw e (ap (◌∷◌ p) (only-append c l m))
  | inr e ↦ rw e (only-append c l m)
]

only-own :
    (c : ℕ) (chunks : List (List ℕ))
    → only c (payloads (fragments c chunks)) ≡ payloads (fragments c chunks)
unfolding fragments
only-own c [] = rw (==_refl c) refl
only-own c (k ∷ ks) = rw (==_refl c) (ap (◌∷◌ (ctrl_dict_frag ∷ c ∷ k)) (only-own c ks))

only-other :
    (c i : ℕ) (chunks : List (List ℕ))
    → (i == c) ≡ false
    → only c (payloads (fragments i chunks)) ≡ []
unfolding fragments
only-other c i [] n = rw n refl
only-other c i (k ∷ ks) n = rw n (only-other c i ks n)

abbrev is_open : Option (Pipe (List ℕ)) → Bool
is_open none = false
is_open (some p) = true

-- What the control channel says of one channel: its dictionary, once it is open.
abbrev Told : ℕ → List (List ℕ) → Option (List ℕ) → Option (Pipe (List ℕ)) → Type 0
Told c l none o = (l ≡ []) × (is_open o ≡ false)
Told c l (some d) o = (l ≡ payloads (transfer c d)) × (is_open o ≡ true)

-- An event that opens no channel.
same-Told :
    (c : ℕ) (l : List (List ℕ)) (d : Option (List ℕ)) (o o' : Option (Pipe (List ℕ)))
    → is_open o' ≡ is_open o
    → Told c l d o
    → Told c l d o'
same-Told c l none o o' k (e, z) = (e, k ∙ z)
same-Told c l (some d) o o' k (e, z) = (e, k ∙ z)

not_yet :
    (c : ℕ) (l : List (List ℕ)) (d : Option (List ℕ)) (o : Option (Pipe (List ℕ)))
    → o ≡ none
    → Told c l d o
    → l ≡ []
not_yet c l none o n (e, z) = e
not_yet c l (some d) o n (e, z) = absurd (cc (n, z))

more-Told :
    (c : ℕ) (l more : List (List ℕ)) (d : Option (List ℕ)) (o : Option (Pipe (List ℕ)))
    → more ≡ []
    → Told c l d o
    → Told c (l ++ more) d o
more-Told c l more d o e h = subst (λ m. Told c m d o) (sym (ap (λ m. l ++ m) e ∙ append-nil l)) h

open_channel-Told :
    (i c : ℕ) (d : List ℕ) (es : List Event) (x : Exporter)
    → x.uart_cmd_txs i ≡ none
    → Told c (only c (transfers es)) (dictionary_of c es) (x.uart_cmd_txs c)
    → Told c
        (only c (transfers (opened i d ∷ es)))
        (dictionary_of c (opened i d ∷ es))
        ((open_channel i d x).uart_cmd_txs c)
unfolding open_channel
open_channel-Told i c d es x n h = elim (Bool-cases (i == c)) [
  | inl e ↦
      let same : i ≡ c = ground arith in
      let before : only c (transfers es) ≡ [] =
        not_yet c (only c (transfers es)) (dictionary_of c es) (x.uart_cmd_txs c)
          (ap x.uart_cmd_txs (sym same) ∙ n) h in
      rw e (
        only-append c (transfers es) (payloads (transfer i d))
            ∙ ap (λ (l : List (List ℕ)). l ++ only c (payloads (transfer i d))) before
            ∙ ap (λ j. only c (payloads (transfer j d))) same
            ∙ only-own c (chunks_from (length d) d),
        refl,
      )
  | inr e ↦ rw e (
      subst (λ l. Told c l (dictionary_of c es) (x.uart_cmd_txs c))
        (sym (only-append c (transfers es) (payloads (transfer i d))))
        (more-Told c (only c (transfers es)) (only c (payloads (transfer i d))) (dictionary_of c es)
          (x.uart_cmd_txs c) (only-other c i (chunks_from (length d) d) e) h))
]

adjust-is_open :
    (f : Pipe (List ℕ) → Pipe (List ℕ)) (o : Option (Pipe (List ℕ)))
    → is_open (adjust f o) ≡ is_open o
adjust-is_open f none = refl
adjust-is_open f (some p) = refl

at_channel-is_open :
    (f : Pipe (List ℕ) → Pipe (List ℕ)) (i c : ℕ) (x : Exporter)
    → is_open ((at_channel f i x).uart_cmd_txs c) ≡ is_open (x.uart_cmd_txs c)
at_channel-is_open f i c x = elim (Bool-cases (i == c)) [
  | inl e ↦
      let same : i ≡ c = ground arith in
      rw e
        (ap (λ j. is_open (adjust f (x.uart_cmd_txs j))) same ∙ adjust-is_open f (x.uart_cmd_txs c))
  | inr e ↦ rw e refl
]

demux-is_open :
    (pf : PayloadTunnelFrame) (c : ℕ) (x : Exporter)
    → is_open ((demux pf x).uart_cmd_txs c) ≡ is_open (x.uart_cmd_txs c)
unfolding demux
demux-is_open pf c x = elim (Bool-cases (pf.ch_id == ctrl_ch)) [
  | inl e ↦ rw (demux, e) refl
  | inr e ↦ rw (demux, e) (at_channel-is_open (send pf.payload) pf.ch_id c x)
]

Reach-Told :
    {es : List Event} {x : Exporter}
    → Reach es x
    → (c : ℕ) → Told c (only c (transfers es)) (dictionary_of c es) (x.uart_cmd_txs c)
unfolding step new
Reach-Told start c = (refl, refl)
Reach-Told (later {es} {x} r (opened i d) en) c = open_channel-Told i c d es x en.0 (Reach-Told r c)
Reach-Told (later {es} {x} r (mcu_payload i p) en) c =
    subst (λ t. Told c (only c (transfers es)) (dictionary_of c es) (t c))
      (sym (send_usb-commands x.is_usb_open i p x)) (Reach-Told r c)
Reach-Told (later r (mcu_end i) en) c = Reach-Told r c
Reach-Told (later {es} {x} r (usb_frame pf) en) c =
    same-Told c (only c (transfers es)) (dictionary_of c es) (x.uart_cmd_txs c) _
      (demux-is_open pf c x) (Reach-Told r c)
Reach-Told (later {es} {x} r (command_sent i) en) c =
    same-Told c (only c (transfers es)) (dictionary_of c es) (x.uart_cmd_txs c) _
      (at_channel-is_open pass i c x) (Reach-Told r c)
Reach-Told (later {es} {x} r (command_failed i) en) c =
    same-Told c (only c (transfers es)) (dictionary_of c es) (x.uart_cmd_txs c) _
      (at_channel-is_open close i c x) (Reach-Told r c)
Reach-Told (later r usb_failed en) c = Reach-Told r c

-- If the smart host has read just the frames that the smart exporter sent to its USB writer, with none
-- lost, if it had gathered nothing before, and if the channel has a watch, then what is published for
-- that channel is the dictionary with which the exporter opened it, whole and once, whatever was sent
-- in between for other channels and from the microcontrollers.
pub dictionary_of-published :
    {es : List Event} {x : Exporter}
    → Reach es x
    → (c : ℕ) (d : List ℕ) → dictionary_of c es ≡ some d
    → (v : Vlq) (h : SmartHost) → h.gathered ≡ []
    → (watched : ℕ → Bool) → watched c ≡ true
    → for_channel c (gather_dictionary watched (demux_all v x.usb h).gathered (λ i. [])).1 ≡ d ∷ []
dictionary_of-published {es} {x} r c d e v h g watched w =
    let told : Told c (only c (transfers es)) (some d) (x.uart_cmd_txs c) =
      subst (λ o. Told c (only c (transfers es)) o (x.uart_cmd_txs c)) e (Reach-Told r c) in
    let control_payloads : (demux_all v x.usb h).gathered ≡ transfers es =
      (demux_all_lem v x.usb h).0
      ∙ ap (λ (l : List (List ℕ)). l ++ payloads_for ctrl_ch x.usb) g
      ∙ Reach-transfers r in
    let own = gather_dictionary-only watched c (transfers es) (λ i. []) (λ i. []) refl in
    ap (λ l. for_channel c (gather_dictionary watched l (λ i. [])).1) control_payloads
    ∙ own.1
    ∙ ap (λ l. for_channel c (gather_dictionary watched l (λ i. [])).1) told.0
    ∙ (gather-fragments watched c (chunks_from (length d) d) (λ i. []) w).1
    ∙ ap (λ (l : List ℕ). l ∷ []) (concat-chunks_from (length d) d (omega arith))
