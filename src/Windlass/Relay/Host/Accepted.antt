-- ===== src/Windlass/Relay/Host/Accepted.antt =====
-- The channel on which each connection was accepted.
use pik.Base.{
  ℕ, ◌≡◌, refl, ap, sym, ◌∙◌, true, false, List, [], ◌∷◌, Option, none, some, ◌==◌, ==_iff,
  if◌then◌else◌, Bool-cases, Option-cases, inl, inr, arith,
}
use pik.Windlass.Relay.Host.{
  Client, Host, Event, connected, sock_frame, sock_end, usb_frame, sock_written, sock_failed,
  sock_closed, finished, usb_failed, step, connect, IsEnabled, Reach, start, later, new,
}
use pik.Windlass.Relay.Host.Slots.{step-act, connects, step-none, act-ch_id}

-- The channel on which a connection was accepted.
abbrev pub channel_of : ℕ → List Event → Option ℕ
channel_of c [] = none
channel_of c (connected i d ∷ es) = let rest = channel_of c es in if d == c then some i else rest
channel_of c (finished i d ∷ es) = channel_of c es
channel_of c (sock_frame d f ∷ es) = channel_of c es
channel_of c (sock_end d ∷ es) = channel_of c es
channel_of c (usb_frame tf ∷ es) = channel_of c es
channel_of c (sock_written d ∷ es) = channel_of c es
channel_of c (sock_failed d ∷ es) = channel_of c es
channel_of c (sock_closed d ∷ es) = channel_of c es
channel_of c (usb_failed ∷ es) = channel_of c es

abbrev pub channel : Option Client → Option ℕ
channel none = none
channel (some k) = some k.ch_id

connects-channel :
    (e : Event) (h : Host) (c : ℕ) (es : List Event)
    → connects c e ≡ true
    → channel ((step e h).clients c) ≡ channel_of c (e ∷ es)
unfolding step connect
connects-channel (connected i d) h c es n = ground arith
connects-channel (finished i d) h c es n = cc
connects-channel (sock_frame d f) h c es n = cc
connects-channel (sock_end d) h c es n = cc
connects-channel (usb_frame tf) h c es n = cc
connects-channel (sock_written d) h c es n = cc
connects-channel (sock_failed d) h c es n = cc
connects-channel (sock_closed d) h c es n = cc
connects-channel usb_failed h c es n = cc

other-channel :
    (e : Event) (c : ℕ) (es : List Event)
    → connects c e ≡ false
    → channel_of c es ≡ channel_of c (e ∷ es)
other-channel (connected i d) c es n = ground arith
other-channel (finished i d) c es n = refl
other-channel (sock_frame d f) c es n = refl
other-channel (sock_end d) c es n = refl
other-channel (usb_frame tf) c es n = refl
other-channel (sock_written d) c es n = refl
other-channel (sock_failed d) c es n = refl
other-channel (sock_closed d) c es n = refl
other-channel usb_failed c es n = refl

not_again :
    (e : Event) (h : Host) (c : ℕ) (k : Client)
    → IsEnabled e h
    → h.clients c ≡ some k
    → connects c e ≡ false
not_again (connected i d) h c k en z = ground (arith, en.1, z, ==_iff d c)
not_again (finished i d) h c k en z = refl
not_again (sock_frame d f) h c k en z = refl
not_again (sock_end d) h c k en z = refl
not_again (usb_frame tf) h c k en z = refl
not_again (sock_written d) h c k en z = refl
not_again (sock_failed d) h c k en z = refl
not_again (sock_closed d) h c k en z = refl
not_again usb_failed h c k en z = refl

pub Reach-channel :
    {ch_ids : List ℕ} {es : List Event} {h : Host}
    → Reach ch_ids es h
    → (c : ℕ) → channel (h.clients c) ≡ channel_of c es
unfolding new
Reach-channel start c = refl
Reach-channel (later {es} {h} r e en) c = elim (Option-cases (h.clients c)) [
  | inl z ↦ elim (Bool-cases (connects c e)) [
    | inl n ↦ connects-channel e h c es n
    | inr n ↦
        let before = ap channel (sym z) ∙ Reach-channel r c in
        ap channel (step-none e h c n z) ∙ (before ∙ other-channel e c es n)
  ]
  | inr (k, z) ↦
      let before : some k.ch_id ≡ channel_of c es = ap channel (sym z) ∙ Reach-channel r c in
      ap channel (step-act e h c k en z)
      ∙ (ap some (act-ch_id e h c k) ∙ (before ∙ other-channel e c es (not_again e h c k en z)))
]
