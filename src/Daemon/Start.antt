-- ===== src/Daemon/Start.antt =====
-- A new daemon is valid, and so is any daemon that ran.
use pik.Base.{
  ℕ, zero, suc, is_member, ◌≡◌, refl, Bool, false, List, [], ◌∷◌, Option, ◌==◌, arith, Bool-cases,
  inl, inr,
}
use pik.Protocol.Parser.Drain.{nil-IsDrained}
use pik.Protocol.TxQueue.Inv.{new-IsValid, is_empty-new}
use pik.Channel.Interface.{Channel}
use pik.Channel.Any.{AnyChannel, Answers, any_channel, is_paused, IsDown}
use pik.Channel.Any.Laws.{any_channel_laws}
use pik.Daemon.{OpenResult, new, collect, keys, insert_at, insert_channel, set_channel}
use pik.Daemon.Valid.{IsValid, AllPaused, AllDown}
use pik.Daemon.Loop.{Round, run}
use pik.Daemon.Loop.Rounds.{run-IsValid_daemon}

-- A channel before it was told of any link.
abbrev pub AllFresh : {C : Type 0} → (C → Bool) → (C → Type 0) → List C → Type 0
AllFresh paused Down [] = Unit {0}
AllFresh paused Down (c ∷ cs) = ((paused c ≡ false) × Down c) × AllFresh paused Down cs

module _ {C W : Type 0} (ch : Channel C W) (paused : C → Bool) (Down : C → Type 0)
    (hash : List ℕ → ℕ) where
  abbrev Quiet : List (ℕ × C) → Type 0
  Quiet l = AllPaused paused false l × AllDown Down l

  insert_at-Quiet :
      (n id : ℕ) (c : C) (l : List (ℕ × C))
      → (paused c ≡ false) × Down c
      → Quiet l
      → Quiet (insert_at n (id, c) l)
  unfolding insert_at
  insert_at-Quiet n id c [] h q = ((h.0, tt), (h.1, tt))
  insert_at-Quiet zero id c ((i, b) ∷ l) h q = ((h.0, q.0), (h.1, q.1))
  insert_at-Quiet (suc n) id c ((i, b) ∷ l) h q =
      let rest = insert_at-Quiet n id c l h (q.0.1, q.1.1) in ((q.0.0, rest.0), (q.1.0, rest.1))

  set-Quiet :
      (id : ℕ) (c : C) (l : List (ℕ × C))
      → (paused c ≡ false) × Down c
      → Quiet l
      → Quiet (set_channel id c l)
  unfolding set_channel
  set-Quiet id c [] h q = q
  set-Quiet id c ((i, b) ∷ l) h q = elim (Bool-cases (i == id)) [
    | inl e ↦ rw e ((h.0, q.0.1), (h.1, q.1.1))
    | inr e ↦
        let rest = set-Quiet id c l h (q.0.1, q.1.1) in rw e ((q.0.0, rest.0), (q.1.0, rest.1))
  ]

  insert-Quiet :
      (place : ℕ → List ℕ → ℕ) (id : ℕ) (c : C) (l : List (ℕ × C))
      → (paused c ≡ false) × Down c
      → Quiet l
      → Quiet (insert_channel place id c l)
  unfolding insert_channel
  insert-Quiet place id c l h q = elim (Bool-cases (is_member id (keys l))) [
    | inl e ↦ rw e (set-Quiet id c l h q)
    | inr e ↦ rw e (insert_at-Quiet (place id (keys l)) id c l h q)
  ]

  collect-Quiet :
      (place : ℕ → List ℕ → ℕ) (cs : List C) (m : List (ℕ × C))
      → AllFresh paused Down cs
      → Quiet m
      → Quiet (collect ch hash place m cs)
  unfolding collect
  collect-Quiet place [] m h q = q
  collect-Quiet place (c ∷ cs) m h q =
      collect-Quiet place cs (insert_channel place (ch.channel_id c) c m) h.1
        (insert-Quiet place (ch.channel_id c) c m h.0 q)

  pub new-IsValid_daemon :
      (place : ℕ → List ℕ → ℕ) (link_dev : Option (List ℕ)) (usb_id : Option (List ℕ × List ℕ))
      (cs : List C) (now : ℕ)
      → AllFresh paused Down cs
      → IsValid hash paused Down (new ch hash place link_dev usb_id cs now)
  unfolding new
  new-IsValid_daemon place link_dev usb_id cs now h =
      let q = collect-Quiet place cs [] h (tt, tt) in
      record {
        queue = new-IsValid;
        buffer = nil-IsDrained hash;
        delay_low = omega arith;
        delay_high = omega arith;
        link = (refl, refl, refl);
        reads = q.0;
        rest = (q.1, is_empty-new);
      }

-- Whatever happens on the link and in the channels, round after round of `run` from a new daemon with
-- fresh channels of the four kinds on: the queue and the parser stay in good order, the delay before the
-- link is opened again stays between half a second and eight, a link that is closed is not up, holds
-- no channel back and queues nothing, and every channel's reads are paused just when the flag for
-- backpressure is set.
pub run-IsValid_all :
    (hash : List ℕ → ℕ) (place : ℕ → List ℕ → ℕ) (link_dev : Option (List ℕ))
    (usb_id : Option (List ℕ × List ℕ)) (cs : List AnyChannel) (now : ℕ)
    (find : List ℕ → List ℕ → Option (List ℕ)) (serial : List ℕ → OpenResult) (t t' : ℕ)
    (rs : List (Round Answers))
    → AllFresh is_paused IsDown cs
    → IsValid hash is_paused IsDown
        (run any_channel hash find serial t t' rs
          (new any_channel hash place link_dev usb_id cs now)).0
run-IsValid_all hash place link_dev usb_id cs now find serial t t' rs h =
    run-IsValid_daemon any_channel_laws hash find serial t t' rs
      (new any_channel hash place link_dev usb_id cs now)
      (new-IsValid_daemon any_channel is_paused IsDown hash place link_dev usb_id cs now h)
