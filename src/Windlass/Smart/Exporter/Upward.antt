-- ===== src/Windlass/Smart/Exporter/Upward.antt =====
-- What the smart exporter sends to its USB writer.
use pik.Base.{
  one_if, ℕ, ◌≡◌, refl, ap, sym, ◌∙◌, Bool, true, false, List, [], ◌∷◌, ◌++◌, ◌==◌, Bool-cases, inl,
  inr, arith, append_assoc, append-nil, length, ◌&&◌,
}
use pik.Windlass.Framing.{PayloadTunnelFrame, ctrl_ch, ctrl_dict_frag}
use pik.Windlass.Dictionary.{chunks_from, fragments}
use pik.Windlass.Dictionary.Arrival.{payloads}
use pik.Windlass.Smart.Connection.{tunnelled}
use pik.Windlass.Smart.Connection.Demux.{payloads_for}
use pik.Windlass.Smart.Exporter.{
  Exporter, Event, opened, mcu_payload, mcu_end, usb_frame, command_sent, command_failed,
  usb_failed, transfer, open_channel, send_usb, demux, step, new, Reach, start, later,
}

abbrev pub is_usb_up : List Event → Bool
is_usb_up [] = true
is_usb_up (usb_failed ∷ es) = false
is_usb_up (e ∷ es) = is_usb_up es

-- The payloads of a microcontroller, while the USB writer ran.
abbrev pub read_on : ℕ → List Event → List (List ℕ)
read_on ch_id [] = []
read_on ch_id (mcu_payload i p ∷ es) = read_on ch_id es ++ one_if (i == ch_id && is_usb_up es) p
read_on ch_id (e ∷ es) = read_on ch_id es

-- The control payloads of the channels that were opened.
abbrev pub transfers : List Event → List (List ℕ)
transfers [] = []
transfers (opened i d ∷ es) = transfers es ++ payloads (transfer i d)
transfers (e ∷ es) = transfers es

payloads_for-append :
    (c : ℕ) (l m : List PayloadTunnelFrame)
    → payloads_for c (l ++ m) ≡ payloads_for c l ++ payloads_for c m
payloads_for-append c [] m = refl
payloads_for-append c (pf ∷ l) m =
    ap (λ (k : List (List ℕ)). one_if (pf.ch_id == c) pf.payload ++ k) (payloads_for-append c l m)
    ∙ sym (append_assoc (one_if (pf.ch_id == c) pf.payload) (payloads_for c l) (payloads_for c m))

fragments-control :
    (i : ℕ) (chunks : List (List ℕ))
    → payloads_for ctrl_ch (fragments i chunks) ≡ payloads (fragments i chunks)
unfolding fragments
fragments-control i [] = refl
fragments-control i (k ∷ ks) = ap (◌∷◌ (ctrl_dict_frag ∷ i ∷ k)) (fragments-control i ks)

fragments-other :
    (i c : ℕ) (chunks : List (List ℕ))
    → (c == ctrl_ch) ≡ false
    → payloads_for c (fragments i chunks) ≡ []
unfolding fragments
fragments-other i c [] n = ground arith
fragments-other i c (k ∷ ks) n = ground (arith, fragments-other i c ks n)

-- What was sent to the USB writer.
abbrev Upward : List Event → Exporter → Type 0
Upward es x =
    ((c : ℕ) → (c == ctrl_ch) ≡ false → payloads_for c x.usb ≡ read_on c es)
    × (payloads_for ctrl_ch x.usb ≡ transfers es)
    × (x.is_usb_open ≡ is_usb_up es)

open_channel-Upward :
    (i : ℕ) (d : List ℕ) (es : List Event) (x : Exporter)
    → Upward es x
    → Upward (opened i d ∷ es) (open_channel i d x)
unfolding open_channel
open_channel-Upward i d es x (p, q, u) = (
  λ c n.
      payloads_for-append c x.usb (transfer i d)
      ∙ (ap (λ l. payloads_for c x.usb ++ l) (fragments-other i c (chunks_from (length d) d) n)
          ∙ (append-nil (payloads_for c x.usb) ∙ p c n)),
  payloads_for-append ctrl_ch x.usb (transfer i d)
      ∙ (ap (λ l. payloads_for ctrl_ch x.usb ++ l) (fragments-control i (chunks_from (length d) d))
          ∙ ap (λ (l : List (List ℕ)). l ++ payloads (transfer i d)) q),
  u,
)

send_usb-Upward :
    (b : Bool) (i : ℕ) (p : List ℕ) (es : List Event) (x : Exporter)
    → x.is_usb_open ≡ b
    → (i == ctrl_ch) ≡ false
    → Upward es x
    → Upward (mcu_payload i p ∷ es) (send_usb b i p x)
send_usb-Upward true i p es x o n (r, q, u) =
    let up : is_usb_up es ≡ true = sym u ∙ o in
    (
      λ c m.
          payloads_for-append c x.usb (tunnelled i p ∷ [])
          ∙ (ap (λ (l : List (List ℕ)). l ++ (one_if (i == c) p ++ [])) (r c m)
              ∙ rw up (elim (Bool-cases (i == c)) [ inl e ↦ rw e refl | inr e ↦ rw e refl ])),
      payloads_for-append ctrl_ch x.usb (tunnelled i p ∷ [])
          ∙ rw n (append-nil (payloads_for ctrl_ch x.usb) ∙ q),
      u,
    )
send_usb-Upward false i p es x o n (r, q, u) =
    let up : is_usb_up es ≡ false = sym u ∙ o in
    (
      λ c m.
          r c m
          ∙ rw up (elim (Bool-cases (i == c)) [
            | inl e ↦ rw e (sym (append-nil (read_on c es)))
            | inr e ↦ rw e (sym (append-nil (read_on c es)))
          ]),
      q,
      u,
    )

demux-usb :
    (pf : PayloadTunnelFrame) (x : Exporter)
    → ((demux pf x).usb ≡ x.usb) × ((demux pf x).is_usb_open ≡ x.is_usb_open)
unfolding demux
demux-usb pf x = elim (Bool-cases (pf.ch_id == ctrl_ch)) [
  | inl e ↦ rw (demux, e) (refl, refl)
  | inr e ↦ rw (demux, e) (refl, refl)
]

pub Reach-Upward : {es : List Event} {x : Exporter} → Reach es x → Upward es x
unfolding step new
Reach-Upward start = (λ c n. refl, refl, refl)
Reach-Upward (later {es} {x} r (opened i d) en) = open_channel-Upward i d es x (Reach-Upward r)
Reach-Upward (later {es} {x} r (mcu_payload i p) en) =
    send_usb-Upward x.is_usb_open i p es x refl en.1 (Reach-Upward r)
Reach-Upward (later r (mcu_end i) en) = Reach-Upward r
Reach-Upward (later {es} {x} r (usb_frame pf) en) =
    let same = demux-usb pf x in
    let before = Reach-Upward r in
    (
      λ c n. ap (payloads_for c) same.0 ∙ before.0 c n,
      ap (payloads_for ctrl_ch) same.0 ∙ before.1,
      same.1 ∙ before.2,
    )
Reach-Upward (later r (command_sent i) en) = Reach-Upward r
Reach-Upward (later r (command_failed i) en) = Reach-Upward r
Reach-Upward (later r usb_failed en) = let before = Reach-Upward r in (before.0, before.1, refl)
