-- ===== src/Windlass/Smart/Connection/Relayed.antt =====
-- What one connection to the smart host relays.
use pik.Base.{
  ℕ, ◌≡◌, refl, ap, sym, subst, ◌∙◌, Bool, true, false, List, [], ◌∷◌, ◌++◌, Bool-cases, inl, inr,
}
use pik.Windlass.Smart.Pipe.{
  Pipe, send, send_all, pass, Carries, send-Carries, send_all-Carries, pass-Carries, close-Carries,
}
use pik.Windlass.Smart.Proxy.{Vlq}
use pik.Windlass.Smart.Connection.{
  Output, bytes, framed, Connection, Event, sock_read, sock_end, routed, mcu_payload, mcu_end,
  sock_written, sock_failed, forwarded, usb_failed, cleaned_up, fresh, map, relay, answer_with,
  tunnelled, send_usb, forward, clean_up, step, Reach, start, later, new,
}
use pik.Windlass.Smart.Connection.Decoded.{commands_in, replies, dispatch_all-added}

-- The commands that `receive` has decoded, what the transport has put out, and the payloads of the
-- microcontroller that came in and that the relay loop has taken.
abbrev pub commands : Vlq → List Event → List (List ℕ)
commands v [] = []
commands v (sock_read outs fs ∷ es) = commands v es ++ commands_in v fs
commands v (e ∷ es) = commands v es

abbrev pub outputs : Vlq → List ℕ → List Event → List Output
outputs v dict [] = []
outputs v dict (sock_read outs fs ∷ es) =
    (outputs v dict es ++ map bytes outs) ++ map framed (replies v dict fs)
outputs v dict (mcu_payload p ∷ es) = outputs v dict es ++ (framed p ∷ [])
outputs v dict (e ∷ es) = outputs v dict es

abbrev pub came_in : List Event → List (List ℕ)
came_in [] = []
came_in (routed p ∷ es) = came_in es ++ (p ∷ [])
came_in (e ∷ es) = came_in es

abbrev pub taken : List Event → List (List ℕ)
taken [] = []
taken (mcu_payload p ∷ es) = taken es ++ (p ∷ [])
taken (e ∷ es) = taken es

-- Of a list of payloads the first are in frames with the channel's id, in order; the next wait, and
-- the others are lost.
abbrev pub Tunnelled : ℕ → List (List ℕ) → Connection → Type 0
Tunnelled ch_id l k =
    Carries l k.to_exporter
    × (k.usb ≡ map (tunnelled ch_id) k.to_exporter.passed)
    × (k.ch_id ≡ ch_id)

map-snoc :
    {A B : Type 0} (f : A → B) (l : List A) (x : A) → map f (l ++ (x ∷ [])) ≡ map f l ++ (f x ∷ [])
map-snoc f [] x = refl
map-snoc f (y ∷ l) x = ap (◌∷◌ (f y)) (map-snoc f l x)

passed-send_all : {A : Type 0} (xs : List A) (p : Pipe A) → (send_all xs p).passed ≡ p.passed
passed-send_all [] p = refl
passed-send_all (x ∷ xs) p = passed-send_all xs (send x p) ∙ passed-send
  where
    passed-send : (send x p).passed ≡ p.passed
    passed-send = elim (Bool-cases p.is_open) [ inl e ↦ rw e refl | inr e ↦ rw e refl ]

relay-Tunnelled :
    (v : Vlq) (ch_id : ℕ) (l outs fs : List (List ℕ)) (k : Connection)
    → Tunnelled ch_id l k
    → Tunnelled ch_id (l ++ commands_in v fs) (relay v outs fs k)
unfolding relay
relay-Tunnelled v ch_id l outs fs k (c, u, i) = rw (dispatch_all-added v fs (fresh k.dictionary)) (
  send_all-Carries (commands_in v fs) l k.to_exporter c,
  u ∙ ap (map (tunnelled ch_id)) (sym (passed-send_all (commands_in v fs) k.to_exporter)),
  i,
)

forward-Tunnelled :
    (ch_id : ℕ) (l : List (List ℕ)) (k : Connection)
    → Tunnelled ch_id l k
    → Tunnelled ch_id l (forward k)
unfolding forward
forward-Tunnelled ch_id l k (c, u, i) = sent k.is_usb_open k.to_exporter.waiting refl
  where
    passed_one :
        (p : List ℕ) (ps : List (List ℕ))
        → k.to_exporter.waiting ≡ p ∷ ps
        → (pass k.to_exporter).passed ≡ k.to_exporter.passed ++ (p ∷ [])
    passed_one p ps e = rw e refl

    sent :
        (b : Bool) (w : List (List ℕ))
        → k.to_exporter.waiting ≡ w
        → Tunnelled ch_id l (send_usb b w k)
    sent b [] e = (c, u, i)
    sent true (p ∷ ps) e = (
      pass-Carries l k.to_exporter c,
      rw (u, i)
          (sym (
            ap (map (tunnelled ch_id)) (passed_one p ps e)
            ∙ map-snoc (tunnelled ch_id) k.to_exporter.passed p)),
      i,
    )
    sent false (p ∷ ps) e = (close-Carries l k.to_exporter c, u, i)

Reach-Tunnelled :
    {v : Vlq} {ch_id : ℕ} {dict : List ℕ} {es : List Event} {k : Connection}
    → Reach v ch_id dict es k
    → Tunnelled ch_id (commands v es) k
unfolding step new clean_up answer_with
Reach-Tunnelled start = (([], refl, refl), refl, refl)
Reach-Tunnelled {v} {ch_id} (later {es} {k} r (sock_read outs fs) en) =
    relay-Tunnelled v ch_id (commands v es) outs fs k (Reach-Tunnelled r)
Reach-Tunnelled (later r sock_end en) = Reach-Tunnelled r
Reach-Tunnelled (later r (routed p) en) = Reach-Tunnelled r
Reach-Tunnelled (later r (mcu_payload p) en) = Reach-Tunnelled r
Reach-Tunnelled (later r mcu_end en) = Reach-Tunnelled r
Reach-Tunnelled (later r sock_written en) = Reach-Tunnelled r
Reach-Tunnelled (later r sock_failed en) = Reach-Tunnelled r
Reach-Tunnelled {v} {ch_id} (later {es} {k} r forwarded en) =
    forward-Tunnelled ch_id (commands v es) k (Reach-Tunnelled r)
Reach-Tunnelled (later r usb_failed en) = Reach-Tunnelled r
Reach-Tunnelled {v} (later {es} {k} r cleaned_up en) =
    let before = Reach-Tunnelled r in
    (close-Carries (commands v es) k.to_exporter before.0, before.1, before.2)

relay-outputs :
    (v : Vlq) (dict : List ℕ) (l : List Output) (outs fs : List (List ℕ)) (k : Connection)
    → k.dictionary ≡ dict
    → Carries l k.to_klipper
    → Carries
        ((l ++ map bytes outs) ++ map framed (replies v dict fs))
        (relay v outs fs k).to_klipper
unfolding relay
relay-outputs v dict l outs fs k d c =
    rw (dispatch_all-added v fs (fresh k.dictionary), d)
      (send_all-Carries (map framed (replies v dict fs)) (l ++ map bytes outs)
        (send_all (map bytes outs) k.to_klipper)
        (send_all-Carries (map bytes outs) l k.to_klipper c))

send_usb-same :
    (b : Bool) (w : List (List ℕ)) (k : Connection)
    → ((send_usb b w k).dictionary ≡ k.dictionary)
      × ((send_usb b w k).to_klipper ≡ k.to_klipper)
      × ((send_usb b w k).from_mcu ≡ k.from_mcu)
send_usb-same b [] k = (refl, refl, refl)
send_usb-same true (p ∷ ps) k = (refl, refl, refl)
send_usb-same false (p ∷ ps) k = (refl, refl, refl)

Reach-dictionary :
    {v : Vlq} {ch_id : ℕ} {dict : List ℕ} {es : List Event} {k : Connection}
    → Reach v ch_id dict es k
    → k.dictionary ≡ dict
unfolding step new clean_up answer_with relay forward
Reach-dictionary start = refl
Reach-dictionary (later r (sock_read outs fs) en) = Reach-dictionary r
Reach-dictionary (later r sock_end en) = Reach-dictionary r
Reach-dictionary (later r (routed p) en) = Reach-dictionary r
Reach-dictionary (later r (mcu_payload p) en) = Reach-dictionary r
Reach-dictionary (later r mcu_end en) = Reach-dictionary r
Reach-dictionary (later r sock_written en) = Reach-dictionary r
Reach-dictionary (later r sock_failed en) = Reach-dictionary r
Reach-dictionary (later {es} {k} r forwarded en) =
    (send_usb-same k.is_usb_open k.to_exporter.waiting k).0 ∙ Reach-dictionary r
Reach-dictionary (later r usb_failed en) = Reach-dictionary r
Reach-dictionary (later r cleaned_up en) = Reach-dictionary r

Reach-to_klipper :
    {v : Vlq} {ch_id : ℕ} {dict : List ℕ} {es : List Event} {k : Connection}
    → Reach v ch_id dict es k
    → Carries (outputs v dict es) k.to_klipper
unfolding step new clean_up answer_with forward
Reach-to_klipper start = ([], refl, refl)
Reach-to_klipper {v} {ch_id} {dict} (later {es} {k} r (sock_read outs fs) en) =
    relay-outputs v dict (outputs v dict es) outs fs k (Reach-dictionary r) (Reach-to_klipper r)
Reach-to_klipper (later r sock_end en) = Reach-to_klipper r
Reach-to_klipper (later r (routed p) en) = Reach-to_klipper r
Reach-to_klipper {v} {ch_id} {dict} (later {es} {k} r (mcu_payload p) en) =
    send-Carries (framed p) (outputs v dict es) k.to_klipper (Reach-to_klipper r)
Reach-to_klipper (later r mcu_end en) = Reach-to_klipper r
Reach-to_klipper {v} {ch_id} {dict} (later {es} {k} r sock_written en) =
    pass-Carries (outputs v dict es) k.to_klipper (Reach-to_klipper r)
Reach-to_klipper {v} {ch_id} {dict} (later {es} {k} r sock_failed en) =
    close-Carries (outputs v dict es) k.to_klipper (Reach-to_klipper r)
Reach-to_klipper {v} {ch_id} {dict} (later {es} {k} r forwarded en) =
    subst (Carries (outputs v dict es))
      (sym (send_usb-same k.is_usb_open k.to_exporter.waiting k).1) (Reach-to_klipper r)
Reach-to_klipper (later r usb_failed en) = Reach-to_klipper r
Reach-to_klipper {v} {ch_id} {dict} (later {es} {k} r cleaned_up en) =
    close-Carries (outputs v dict es) k.to_klipper (Reach-to_klipper r)

first-pass :
    {A : Type 0} (p : Pipe A) (x : A)
    → (xs : List A) × (p.waiting ≡ x ∷ xs)
    → (pass p).passed ≡ p.passed ++ (x ∷ [])
first-pass p x (xs, e) = rw e refl

passed-send : {A : Type 0} (x : A) (p : Pipe A) → (send x p).passed ≡ p.passed
passed-send x p = elim (Bool-cases p.is_open) [ inl e ↦ rw e refl | inr e ↦ rw e refl ]

abbrev pub not_cleaned : List Event → Bool
not_cleaned [] = true
not_cleaned (cleaned_up ∷ es) = false
not_cleaned (e ∷ es) = not_cleaned es

-- What is taken of what came in.
abbrev Takes : List Event → Connection → Type 0
Takes es k = Carries (came_in es) k.from_mcu × (k.from_mcu.passed ≡ taken es)

Reach-Takes :
    {v : Vlq} {ch_id : ℕ} {dict : List ℕ} {es : List Event} {k : Connection}
    → Reach v ch_id dict es k
    → Takes es k
unfolding step new clean_up answer_with relay forward
Reach-Takes start = (([], refl, refl), refl)
Reach-Takes (later r (sock_read outs fs) en) = Reach-Takes r
Reach-Takes (later r sock_end en) = Reach-Takes r
Reach-Takes (later {es} {k} r (routed p) en) =
    let before = Reach-Takes r in
    (send-Carries p (came_in es) k.from_mcu before.0, passed-send p k.from_mcu ∙ before.1)
Reach-Takes (later {es} {k} r (mcu_payload p) en) =
    let before = Reach-Takes r in
    (
      pass-Carries (came_in es) k.from_mcu before.0,
      first-pass k.from_mcu p en.1 ∙ ap (λ (l : List (List ℕ)). l ++ (p ∷ [])) before.1,
    )
Reach-Takes (later r mcu_end en) = Reach-Takes r
Reach-Takes (later r sock_written en) = Reach-Takes r
Reach-Takes (later r sock_failed en) = Reach-Takes r
Reach-Takes (later {es} {k} r forwarded en) =
    let same = (send_usb-same k.is_usb_open k.to_exporter.waiting k).2 in
    let before = Reach-Takes r in
    (
      subst (Carries (came_in es)) (sym same) before.0,
      ap (λ (p : Pipe (List ℕ)). p.passed) same ∙ before.1,
    )
Reach-Takes (later r usb_failed en) = Reach-Takes r
Reach-Takes (later {es} {k} r cleaned_up en) =
    let before = Reach-Takes r in (close-Carries (came_in es) k.from_mcu before.0, before.1)

send-is_open : {A : Type 0} (x : A) (p : Pipe A) → (send x p).is_open ≡ p.is_open
send-is_open x p = elim (Bool-cases p.is_open) [ inl e ↦ rw e refl | inr e ↦ rw e refl ]

pass-is_open :
    {A : Type 0} (p : Pipe A) (x : A)
    → (xs : List A) × (p.waiting ≡ x ∷ xs)
    → (pass p).is_open ≡ p.is_open
pass-is_open p x (xs, e) = rw e refl

Reach-is_open :
    {v : Vlq} {ch_id : ℕ} {dict : List ℕ} {es : List Event} {k : Connection}
    → Reach v ch_id dict es k
    → k.from_mcu.is_open ≡ not_cleaned es
unfolding step new clean_up answer_with relay forward
Reach-is_open start = refl
Reach-is_open (later r (sock_read outs fs) en) = Reach-is_open r
Reach-is_open (later r sock_end en) = Reach-is_open r
Reach-is_open (later {k} r (routed p) en) = send-is_open p k.from_mcu ∙ Reach-is_open r
Reach-is_open (later {k} r (mcu_payload p) en) = pass-is_open k.from_mcu p en.1 ∙ Reach-is_open r
Reach-is_open (later r mcu_end en) = Reach-is_open r
Reach-is_open (later r sock_written en) = Reach-is_open r
Reach-is_open (later r sock_failed en) = Reach-is_open r
Reach-is_open (later {k} r forwarded en) =
    ap (λ (p : Pipe (List ℕ)). p.is_open) (send_usb-same k.is_usb_open k.to_exporter.waiting k).2
    ∙ Reach-is_open r
Reach-is_open (later r usb_failed en) = Reach-is_open r
Reach-is_open (later r cleaned_up en) = refl

-- In every state that the tasks of a connection can reach: the commands that `receive` decoded, in
-- order and unchanged, are sent to the USB writer in frames with the channel's id, are waiting for
-- it, or are lost, the lost ones last and none while the forwarding task runs; what the transport
-- put out, the answers to `identify` and the payloads taken from the microcontroller as they came,
-- is so written to the socket; and the payloads that came in are those taken, those that wait, and
-- those lost, none before the connection is cleaned up.
pub Reach-Tunnelled_all :
    {v : Vlq} {ch_id : ℕ} {dict : List ℕ} {es : List Event} {k : Connection}
    → Reach v ch_id dict es k
    → Tunnelled ch_id (commands v es) k
      × Carries (outputs v dict es) k.to_klipper
      × Carries (came_in es) k.from_mcu
      × (k.from_mcu.passed ≡ taken es)
      × (k.from_mcu.is_open ≡ not_cleaned es)
Reach-Tunnelled_all r =
    (Reach-Tunnelled r, Reach-to_klipper r, (Reach-Takes r).0, (Reach-Takes r).1, Reach-is_open r)
