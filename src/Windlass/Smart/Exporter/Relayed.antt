-- ===== src/Windlass/Smart/Exporter/Relayed.antt =====
-- What the smart exporter sends over the link, and what it hands to the transports.
use pik.Base.{
  one_if, ℕ, ◌≡◌, refl, sym, subst, Bool, true, false, List, [], ◌∷◌, ◌++◌, Option, none, some,
  ◌==◌, if◌then◌else◌, Bool-cases, inl, inr, arith, append-nil,
}
use pik.Windlass.Framing.{PayloadTunnelFrame, ctrl_ch}
use pik.Windlass.Smart.Pipe.{
  Pipe, send, pass, close, Carries, send-Carries, pass-Carries, close-Carries,
}
use pik.Windlass.Smart.Connection.Demux.{payloads_for}
use pik.Windlass.Smart.Exporter.{
  Exporter, Event, opened, mcu_payload, mcu_end, usb_frame, command_sent, command_failed,
  usb_failed, open_channel, send_usb, adjust, at_channel, demux, step, new, Reach, start, later,
}
use pik.Windlass.Smart.Exporter.Upward.{read_on, transfers, Reach-Upward}

-- The dictionary of a channel.
abbrev pub dictionary_of : ℕ → List Event → Option (List ℕ)
dictionary_of c [] = none
dictionary_of c (opened i d ∷ es) = let rest = dictionary_of c es in if i == c then some d else rest
dictionary_of c (e ∷ es) = dictionary_of c es

-- The commands that came in for a channel since it was opened.
abbrev pub came_in : ℕ → List Event → List (List ℕ)
came_in c [] = []
came_in c (usb_frame pf ∷ es) = came_in c es ++ one_if (pf.ch_id == c) pf.payload
came_in c (opened i d ∷ es) = let rest = came_in c es in if i == c then [] else rest
came_in c (e ∷ es) = came_in c es

abbrev pub CarriesIfOpen : List (List ℕ) → Option (Pipe (List ℕ)) → Type 0
CarriesIfOpen l none = Unit {0}
CarriesIfOpen l (some p) = Carries l p

adjust-CarriesIfOpen :
    (f : Pipe (List ℕ) → Pipe (List ℕ)) (l m : List (List ℕ)) (o : Option (Pipe (List ℕ)))
    → ((p : Pipe (List ℕ)) → Carries l p → Carries m (f p))
    → CarriesIfOpen l o
    → CarriesIfOpen m (adjust f o)
adjust-CarriesIfOpen f l m none k h = tt
adjust-CarriesIfOpen f l m (some p) k h = k p h

-- What is done to one channel's commands changes what it carries, and no other.
at_channel-CarriesIfOpen :
    (f : Pipe (List ℕ) → Pipe (List ℕ)) (i c : ℕ) (x : Exporter) (l more : List (List ℕ))
    → ((p : Pipe (List ℕ)) → Carries l p → Carries (l ++ more) (f p))
    → CarriesIfOpen l (x.uart_cmd_txs c)
    → CarriesIfOpen (l ++ (if i == c then more else [])) ((at_channel f i x).uart_cmd_txs c)
at_channel-CarriesIfOpen f i c x l more k h = elim (Bool-cases (i == c)) [
  | inl e ↦
      let same : i ≡ c = ground arith in
      rw e (
        subst (λ j. CarriesIfOpen (l ++ more) (adjust f (x.uart_cmd_txs j))) (sym same)
          (adjust-CarriesIfOpen f l (l ++ more) (x.uart_cmd_txs c) k h))
  | inr e ↦ rw e (subst (λ l. CarriesIfOpen l (x.uart_cmd_txs c)) (sym (append-nil l)) h)
]

kept-CarriesIfOpen :
    (f : Pipe (List ℕ) → Pipe (List ℕ)) (i c : ℕ) (x : Exporter) (l : List (List ℕ))
    → ((p : Pipe (List ℕ)) → Carries l p → Carries l (f p))
    → CarriesIfOpen l (x.uart_cmd_txs c)
    → CarriesIfOpen l ((at_channel f i x).uart_cmd_txs c)
kept-CarriesIfOpen f i c x l k h = elim (Bool-cases (i == c)) [
  | inl e ↦
      let same : i ≡ c = ground arith in
      rw e (
        subst (λ j. CarriesIfOpen l (adjust f (x.uart_cmd_txs j))) (sym same)
          (adjust-CarriesIfOpen f l l (x.uart_cmd_txs c) k h))
  | inr e ↦ rw e h
]

demux-CarriesIfOpen :
    (pf : PayloadTunnelFrame) (c : ℕ) (x : Exporter) (l : List (List ℕ))
    → (c == ctrl_ch) ≡ false
    → CarriesIfOpen l (x.uart_cmd_txs c)
    → CarriesIfOpen (l ++ one_if (pf.ch_id == c) pf.payload) ((demux pf x).uart_cmd_txs c)
unfolding demux
demux-CarriesIfOpen pf c x l n h = elim (Bool-cases (pf.ch_id == ctrl_ch)) [
  | inl e ↦
      let other : (pf.ch_id == c) ≡ false = ground arith in
      rw (demux, e, other) (subst (λ l. CarriesIfOpen l (x.uart_cmd_txs c)) (sym (append-nil l)) h)
  | inr e ↦
      let routed =
        at_channel-CarriesIfOpen (send pf.payload) pf.ch_id c x l (pf.payload ∷ [])
          (λ p k. send-Carries pf.payload l p k) h in
      rw (demux, e)
        (subst
          (λ m. CarriesIfOpen (l ++ m) ((at_channel (send pf.payload) pf.ch_id x).uart_cmd_txs c))
          (if_one (pf.ch_id == c)) routed)
]
  where
    if_one : (b : Bool) → (if b then pf.payload ∷ [] else []) ≡ one_if b pf.payload
    if_one true = refl
    if_one false = refl

pub send_usb-commands :
    (b : Bool) (i : ℕ) (p : List ℕ) (x : Exporter)
    → (send_usb b i p x).uart_cmd_txs ≡ x.uart_cmd_txs
send_usb-commands true i p x = refl
send_usb-commands false i p x = refl

open_channel-CarriesIfOpen :
    (i c : ℕ) (d : List ℕ) (x : Exporter) (l : List (List ℕ))
    → CarriesIfOpen l (x.uart_cmd_txs c)
    → CarriesIfOpen (if i == c then [] else l) ((open_channel i d x).uart_cmd_txs c)
unfolding open_channel
open_channel-CarriesIfOpen i c d x l h = elim (Bool-cases (i == c)) [
  | inl e ↦ rw e ([], refl, refl)
  | inr e ↦ rw e h
]

Reach-CarriesIfOpen :
    {es : List Event} {x : Exporter}
    → Reach es x
    → (c : ℕ) → (c == ctrl_ch) ≡ false
    → CarriesIfOpen (came_in c es) (x.uart_cmd_txs c)
unfolding step new
Reach-CarriesIfOpen start c n = tt
Reach-CarriesIfOpen (later {es} {x} r (opened i d) en) c n =
    open_channel-CarriesIfOpen i c d x (came_in c es) (Reach-CarriesIfOpen r c n)
Reach-CarriesIfOpen (later {es} {x} r (mcu_payload i p) en) c n =
    subst (λ t. CarriesIfOpen (came_in c es) (t c)) (sym (send_usb-commands x.is_usb_open i p x))
      (Reach-CarriesIfOpen r c n)
Reach-CarriesIfOpen (later r (mcu_end i) en) c n = Reach-CarriesIfOpen r c n
Reach-CarriesIfOpen (later {es} {x} r (usb_frame pf) en) c n =
    demux-CarriesIfOpen pf c x (came_in c es) n (Reach-CarriesIfOpen r c n)
Reach-CarriesIfOpen (later {es} {x} r (command_sent i) en) c n =
    kept-CarriesIfOpen pass i c x (came_in c es) (λ p k. pass-Carries (came_in c es) p k)
      (Reach-CarriesIfOpen r c n)
Reach-CarriesIfOpen (later {es} {x} r (command_failed i) en) c n =
    kept-CarriesIfOpen close i c x (came_in c es) (λ p k. close-Carries (came_in c es) p k)
      (Reach-CarriesIfOpen r c n)
Reach-CarriesIfOpen (later r usb_failed en) c n = Reach-CarriesIfOpen r c n

-- In every state that the tasks of the smart exporter can reach, for each id but that of the control
-- channel: the frames sent to the USB writer with that id carry the payloads of the channel's
-- microcontroller while the writer ran, in order; and of the commands that came in for the channel
-- since it was opened, the first were handed to the transport, in order, the next wait, and the
-- others are lost, none while the task runs that hands them on. The frames with the control
-- channel's id are those of the dictionaries, in the order in which the channels were opened.
pub Reach-CarriesIfOpen_all :
    {es : List Event} {x : Exporter}
    → Reach es x
    → (c : ℕ) → (c == ctrl_ch) ≡ false
    → (payloads_for c x.usb ≡ read_on c es)
      × CarriesIfOpen (came_in c es) (x.uart_cmd_txs c)
      × (payloads_for ctrl_ch x.usb ≡ transfers es)
Reach-CarriesIfOpen_all r c n =
    ((Reach-Upward r).0 c n, Reach-CarriesIfOpen r c n, (Reach-Upward r).1)

pub Reach-transfers :
    {es : List Event} {x : Exporter} → Reach es x → payloads_for ctrl_ch x.usb ≡ transfers es
Reach-transfers r = (Reach-Upward r).1
