-- ===== src/Daemon/Failure.antt =====
-- What the daemon does when its link fails, and how long it waits before it opens it again.
use pik.Base.{
  ℕ, suc, ◌+◌, ◌*◌, ◌^◌, ◌<◌, ◌≡◌, refl, ap, sym, subst, ◌∙◌, min, Bool, true, false, List, [], ◌∷◌,
  ◌++◌, Option, none, some, length, Option-cases, arith, Bool-cases, inl, inr,
}
use pik.Protocol.TxQueue
use pik.Protocol.TxQueue.Inv.{is_empty-reset, drain-failed}
use pik.Channel.Effect.{Effect, reg_del, close_raw, ◌▷◌, read_err}
use pik.Channel.Interface.{Channel, ChannelLaws}
use pik.Daemon.{
  Daemon, OpenResult, no_open, no_register, opened, opened_link, open_link, resolve_dev, calls,
  first_delay, last_delay, ka_timeout, each, schedule_reopen, disconnect_all, drop_link, release,
  resume_all, close_link, close_fd, after_drain, link_write, after_read, link_read, tick_keepalive,
  timed_out,
}
use pik.Daemon.Valid.{AllDown, each-AllDown_all}

-- The link was closed: its descriptor is taken off the registry and closed first, nothing is queued,
-- every channel was told, and the link is opened again at a time.
abbrev pub IsClosed : {C : Type 0} → (C → Type 0) → ℕ → ℕ → Daemon C × List Effect → Type 0
IsClosed Down fd reopen_at (d, l) =
    (d.link_fd ≡ none)
    × (d.disconnected ≡ true)
    × (d.link_up ≡ false)
    × (TxQueue.is_empty d.txq ≡ true)
    × AllDown Down d.channels
    × (d.reopen_at ≡ reopen_at)
    × ((rest : List Effect) × (l ≡ reg_del fd ∷ close_raw fd ∷ rest))

-- What makes the daemon close its link: `read` fails, with what the calls of the channels and of
-- the clock would return; `write` fails; a tick, whose second reading of the clock is the argument.
pub data Failure (W : Type 0) : Type 0 where
  read_fails : Bool → (ℕ → W) → (ℕ → ℕ) → Failure W
  write_fails : Failure W
  silence : ℕ → Failure W

abbrev pub CanFail : {C W : Type 0} → Failure W → ℕ → Daemon C → Type 0
CanFail (read_fails eio ws clock) now d = Unit {0}
CanFail write_fails now d = TxQueue.is_empty d.txq ≡ false
CanFail (silence later) now d = (rx : ℕ) × (d.last_rx ≡ some rx) × (rx + ka_timeout < now)

-- When the link is closed.
abbrev pub closing_time : {W : Type 0} → Failure W → ℕ → ℕ
closing_time (read_fails eio ws clock) now = now
closing_time write_fails now = now
closing_time (silence later) now = later

module _ {C W : Type 0} {ch : Channel C W} {paused : C → Bool} {Down : C → Type 0}
    (laws : ChannelLaws ch paused Down) (hash : List ℕ → ℕ) where
  release-split :
      (d : Daemon C)
      → (cs : List (ℕ × C)) × (b : Bool) × (l : List Effect) × (release ch hash d
          ≡ (record d { channels = cs; link_bp = b }, l))
  unfolding release resume_all
  release-split d = elim (Bool-cases d.link_bp) [
    | inl e ↦
        let p = resume_all ch hash (record d { link_bp = false }) in
        (p.0.channels, false, p.1, rw e refl)
    | inr e ↦ (d.channels, d.link_bp, [], rw e refl)
  ]

  close_fd-some :
      (o : Option ℕ) (fd : ℕ) (l m : List Effect)
      → o ≡ some fd
      → (rest : List Effect) × (close_fd o ++ l ++ m ++ [] ≡ reg_del fd ∷ close_raw fd ∷ rest)
  close_fd-some o fd l m e = ((l ++ m) ++ [], rw e refl)

  close_link-IsClosed :
      (now fd : ℕ) (d : Daemon C)
      → d.disconnected ≡ false
      → d.link_fd ≡ some fd
      → IsClosed Down fd (now + d.reopen_delay) (close_link ch hash now d)
  unfolding close_link drop_link disconnect_all schedule_reopen
  close_link-IsClosed now fd d e o =
      let dropped = drop_link ch hash d in
      let (cs, b, l, z) = release-split dropped.0 in
      let finish : Daemon C × List Effect → Daemon C × List Effect =
        λ p. (p.0, dropped.1 ++ p.1) ▷ disconnect_all ch hash ▷ schedule_reopen now in
      let closing : close_link ch hash now d ≡ finish (release ch hash dropped.0) = rw e refl in
      let told = each (λ i c. ch.on_link_disconnect c) cs in
      subst (IsClosed Down fd (now + d.reopen_delay)) (sym (closing ∙ ap finish z)) (
        refl,
        refl,
        refl,
        is_empty-reset d.txq,
        each-AllDown_all laws hash (λ i c. ch.on_link_disconnect c) cs
            (λ i c. laws.on_link_disconnect-Down c),
        refl,
        close_fd-some d.link_fd fd l (calls told.1) o,
      )

  silent : (o : Option ℕ) (t now : ℕ) → o ≡ some t → t + ka_timeout < now → timed_out o now ≡ true
  silent o t now e h = rw e (ground arith)

  abbrev pub react : Failure W → ℕ → Daemon C → Daemon C × List Effect
  react (read_fails eio ws clock) now d = link_read ch hash (read_err eio) now ws clock d
  react write_fails now d = link_write ch hash TxQueue.failed now d
  react (silence later) now d = tick_keepalive ch hash now later d

  -- An open link is closed by each of a read error, whatever else holds, a write error while frames
  -- wait, and a tick more than ten seconds after the last byte was read. Its descriptor is taken off
  -- the registry and closed, the queue is emptied, every channel is told that the link is down, and
  -- the link is opened again after the current delay. The channels obey their laws.
  pub failing_link-IsClosed :
      (f : Failure W) (fd now : ℕ) (d : Daemon C)
      → d.disconnected ≡ false
      → d.link_fd ≡ some fd
      → CanFail f now d
      → IsClosed Down fd (closing_time f now + d.reopen_delay) (react f now d)
  unfolding link_read after_read link_write after_drain tick_keepalive
  failing_link-IsClosed (read_fails eio ws clock) fd now d e o h =
      let read : link_read ch hash (read_err eio) now ws clock d ≡ close_link ch hash now d =
        rw o refl in
      subst (IsClosed Down fd (now + d.reopen_delay)) (sym read) (close_link-IsClosed now fd d e o)
  failing_link-IsClosed write_fails fd now d e o h =
      let written : link_write ch hash TxQueue.failed now d
          ≡ after_drain ch hash (TxQueue.drain_to_fd d.txq TxQueue.failed) now d =
        rw o refl in
      let write : link_write ch hash TxQueue.failed now d ≡ close_link ch hash now d =
        written
        ∙ ap (λ (p : TxQueue.TxQueue × TxQueue.DrainResult). after_drain ch hash p now d)
            (drain-failed d.txq h) in
      subst (IsClosed Down fd (now + d.reopen_delay)) (sym write) (close_link-IsClosed now fd d e o)
  failing_link-IsClosed (silence later) fd now d e o (rx, r, h) =
      let tick : tick_keepalive ch hash now later d ≡ close_link ch hash later d =
        rw e (rw (silent d.last_rx rx now r h) refl) in
      subst (IsClosed Down fd (later + d.reopen_delay)) (sym tick)
        (close_link-IsClosed later fd d e o)

abbrev pub fails : OpenResult → Bool
fails no_open = true
fails (no_register fd) = true
fails (opened fd) = false

-- What the opening of the device and of the descriptor gives, and when, for one attempt after the
-- other; none of them succeeds.
abbrev pub AllFail : List (ℕ × OpenResult) → Type 0
AllFail [] = Unit {0}
AllFail ((now, r) ∷ rs) = (fails r ≡ true) × AllFail rs

module _ {C W : Type 0} (ch : Channel C W) (hash : List ℕ → ℕ)
    (find : List ℕ → List ℕ → Option (List ℕ)) where
  abbrev pub attempts : List (ℕ × OpenResult) → Daemon C → Daemon C
  attempts [] d = d
  attempts ((now, r) ∷ rs) d = attempts rs (open_link ch hash find (λ dev. r) now now d).0

  open_link-fails :
      (r : OpenResult) (now : ℕ) (d : Daemon C)
      → fails r ≡ true
      → (open_link ch hash find (λ dev. r) now now d).0 ≡ (schedule_reopen now d).0
  unfolding open_link opened_link
  open_link-fails r now d h = elim (Option-cases (resolve_dev find d)) [
    | inl e ↦ rw (e, open_link) refl
    | inr (dev, e) ↦ rw (e, open_link) (closed r h)
  ]
    where
      closed :
          (r : OpenResult)
          → fails r ≡ true
          → (opened_link ch hash r now now d).0 ≡ (schedule_reopen now d).0
      closed no_open h = refl
      closed (no_register fd) h = refl
      closed (opened fd) h = cc

  attempts-from :
      (rs : List (ℕ × OpenResult)) (n : ℕ) (d : Daemon C)
      → AllFail rs
      → d.reopen_delay ≡ min (first_delay * 2 ^ n) last_delay
      → (attempts rs d).reopen_delay ≡ min (first_delay * 2 ^ (n + length rs)) last_delay
  unfolding schedule_reopen
  attempts-from [] n d h e =
      let same : n ≡ n + 0 = omega arith in
      subst (λ (k : ℕ). d.reopen_delay ≡ min (first_delay * 2 ^ k) last_delay) same e
  attempts-from ((now, r) ∷ rs) n d h e =
      let d' = (open_link ch hash find (λ dev. r) now now d).0 in
      let same : d'.reopen_delay ≡ (schedule_reopen now d).0.reopen_delay =
        ap (λ (d : Daemon C). d.reopen_delay) (open_link-fails r now d h.0) in
      let count : suc n + length rs ≡ n + suc (length rs) = omega arith in
      subst (λ (k : ℕ). (attempts rs d').reopen_delay ≡ min (first_delay * 2 ^ k) last_delay) count
        (attempts-from rs (suc n) d' h.1 (omega arith))

  -- While every attempt to open the link fails, the delay doubles from half a second on, up to eight
  -- seconds.
  pub attempts-delay :
      (rs : List (ℕ × OpenResult)) (d : Daemon C)
      → AllFail rs
      → d.reopen_delay ≡ first_delay
      → (attempts rs d).reopen_delay ≡ min (first_delay * 2 ^ length rs) last_delay
  attempts-delay rs d h e =
      let same : 0 + length rs ≡ length rs = omega arith in
      subst (λ (k : ℕ). (attempts rs d).reopen_delay ≡ min (first_delay * 2 ^ k) last_delay) same
        (attempts-from rs 0 d h (omega arith))
