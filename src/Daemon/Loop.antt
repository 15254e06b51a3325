-- ===== src/Daemon/Loop.antt =====
-- `next_timeout` and the event loop of `run`.
pub mod Deadline
pub mod Rounds
use pik.Base.{
  ℕ, ◌+◌, ◌-◌, min, Bool, true, false, not, List, [], ◌∷◌, Option, none, some, ◌&&◌, ◌==◌, leb, ltb,
  if◌then◌else◌,
}
use pik.Protocol.TxQueue
use pik.Channel.Token.{token_link, channel_id_for_token}
use pik.Channel.Effect.{Effect, ◌▷◌, ReadResult}
use pik.Channel.Interface.{Channel}
use pik.Daemon.{
  Daemon, OpenResult, max_tick, ka_interval, ka_timeout, set_link_write_interest, touch, open_link,
  link_read, link_write, check_bp_high, route, tick_keepalive, tick_all, is_some,
}

abbrev pub sooner : Option ℕ → ℕ → ℕ → ℕ
sooner none after deadline = deadline
sooner (some t) after deadline = min deadline (t + after)

-- The deadline for the link.
pub link_deadline : {C : Type 0} → ℕ → Daemon C → ℕ
link_deadline now d =
    if d.disconnected
    then min (now + max_tick) d.reopen_at
    else if d.link_up
    then sooner d.last_rx ka_timeout (sooner d.last_tx ka_interval (now + max_tick))
    else now + max_tick

-- One poll event: the token, whether it is readable and writable, and what the calls made for it
-- return, for each frame that a read completes.
pub record PollEvent (W : Type 0) : Type 0 where
  pub token : ℕ
  pub is_readable : Bool
  pub is_writable : Bool
  pub read : ReadResult
  pub write : TxQueue.WriteResult
  pub answer : W
  pub answers : ℕ → W
  pub clock : ℕ → ℕ
  pub now : ℕ

-- What one round of the loop meets: four readings of the clock, how an opening of the link goes,
-- what the calls of `tick` return for each channel, and the events, if `poll` gives any.
pub record Round (W : Type 0) : Type 0 where
  pub now : ℕ
  pub later : ℕ
  pub latest : ℕ
  pub find_acm : List ℕ → List ℕ → Option (List ℕ)
  pub open_serial : List ℕ → OpenResult
  pub ticks : ℕ → W
  pub events : Option (List (PollEvent W))

module _ {C W : Type 0} (ch : Channel C W) (hash : List ℕ → ℕ) where
  pub channels_deadline : List (ℕ × C) → ℕ → ℕ
  channels_deadline [] deadline = deadline
  channels_deadline ((i, c) ∷ l) deadline =
      channels_deadline l (sooner (ch.next_deadline c) 0 deadline)

  -- `deadline - now`, or zero
  pub next_timeout : ℕ → Daemon C → ℕ
  next_timeout now d =
      let deadline = channels_deadline d.channels (link_deadline now d) in
      if ltb now deadline then deadline - now else 0

  abbrev pub when : Bool → (Daemon C → Daemon C × List Effect) → Daemon C → Daemon C × List Effect
  when true f d = f d
  when false f d = (d, [])

  -- A writable link is written if the read has not closed it.
  pub write_if_open : PollEvent W → Daemon C → Daemon C × List Effect
  write_if_open e d = when (e.is_writable && is_some d.link_fd) (link_write ch hash e.write e.now) d

  pub link_event : PollEvent W → Daemon C → Daemon C × List Effect
  link_event e d = elim d.link_fd [
    | none ↦ (d, [])
    | some fd ↦
        when e.is_readable (link_read ch hash e.read e.now e.answers e.clock) d ▷ write_if_open e
  ]

  pub channel_event : PollEvent W → Daemon C → Daemon C × List Effect
  channel_event e d = elim (channel_id_for_token e.token) [
    | none ↦ (d, [])
    | some id ↦
        route ch hash id (ch.handle_event e.token e.is_readable e.is_writable e.answer) d
        ▷ check_bp_high ch hash
        ▷ touch e.now
  ]

  pub on_event : PollEvent W → Daemon C → Daemon C × List Effect
  on_event e d = if e.token == token_link then link_event e d else channel_event e d

  pub on_events : List (PollEvent W) → Daemon C → Daemon C × List Effect
  on_events [] d = (d, [])
  on_events (e ∷ es) d = on_event e d ▷ on_events es

  abbrev pub reopen_due : Round W → Daemon C → Bool
  reopen_due r d = d.disconnected && leb d.reopen_at r.now

  pub reopen : Round W → Daemon C → Daemon C × List Effect
  reopen r d = when (reopen_due r d) (open_link ch hash r.find_acm r.open_serial r.later r.latest) d

  -- What the ticks queued is announced.
  pub arm : ℕ → Daemon C → Daemon C × List Effect
  arm now d =
      when (not (TxQueue.is_empty d.txq)) (set_link_write_interest true)
        (if TxQueue.is_empty d.txq then d else record d { last_tx = some now })

  pub polled : Option (List (PollEvent W)) → Daemon C → Daemon C × List Effect
  polled none d = (d, [])
  polled (some es) d = on_events es d

  -- One round of the loop of `run`.
  pub loop_round : Round W → Daemon C → Daemon C × List Effect
  loop_round r d =
      reopen r d
      ▷ tick_keepalive ch hash r.now r.later
      ▷ tick_all ch hash r.now r.ticks
      ▷ arm r.latest
      ▷ polled r.events

  -- The `loop` of `run`, for the rounds that it goes through.
  pub rounds : List (Round W) → Daemon C → Daemon C × List Effect
  rounds [] d = (d, [])
  rounds (r ∷ rs) d = loop_round r d ▷ rounds rs

  -- The arguments in front are those of the `open_link` before the loop.
  pub run :
      (List ℕ → List ℕ → Option (List ℕ))
      → (List ℕ → OpenResult)
      → ℕ
      → ℕ
      → List (Round W)
      → Daemon C
      → Daemon C × List Effect
  run find_acm open_serial now now' rs d =
      when d.disconnected (open_link ch hash find_acm open_serial now now') d ▷ rounds rs
