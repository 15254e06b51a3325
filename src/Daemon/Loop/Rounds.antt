-- ===== src/Daemon/Loop/Rounds.antt =====
-- The rounds of the event loop keep the daemon valid.
use pik.Base.{
  ℕ, ◌≡◌, refl, Bool, true, false, List, [], ◌∷◌, Option, none, some, ◌==◌, ◌&&◌, leb, arith,
  Option-cases, Bool-cases, inl, inr,
}
use pik.Protocol.TxQueue
use pik.Protocol.TxQueue.{TxQueue}
use pik.Channel.Effect.{Effect, ◌▷◌}
use pik.Channel.Interface.{Channel, ChannelLaws}
use pik.Daemon.{
  Daemon, is_some, OpenResult, set_link_write_interest, touch, tick_all, open_link, link_write,
  check_bp_high, route, link_read, tick_keepalive,
}
use pik.Daemon.Valid.{IsValid, seq_Ok, retime, touch-Ok, follow, set-AtRest}
use pik.Daemon.Kept.{Ok, Keeps, tick_all-Ok, link_write-Ok}
use pik.Daemon.Frames.{link_read-Ok, route-Ok, check_bp_high-Ok}
use pik.Daemon.Loop.{
  PollEvent, Round, when, write_if_open, link_event, channel_event, on_event, on_events, reopen,
  arm, polled, loop_round, rounds, run,
}
use pik.Channel.Token.{token_link, channel_id_for_token}
use pik.Daemon.Timers.{open_link-Ok, tick_keepalive-Ok}

module _ {C W : Type 0} {ch : Channel C W} {paused : C → Bool} {Down : C → Type 0}
    (laws : ChannelLaws ch paused Down) (hash : List ℕ → ℕ) where
  when-Ok :
      (b : Bool) (f : Daemon C → Daemon C × List Effect) (d : Daemon C)
      → (b ≡ true → Ok laws hash (f d))
      → IsValid hash paused Down d
      → Ok laws hash (when ch hash b f d)
  when-Ok true f d k v = k refl
  when-Ok false f d k v = v

  link_event-Ok : (e : PollEvent W) → Keeps laws hash (link_event ch hash e)
  unfolding link_event write_if_open
  link_event-Ok e d v = elim (Option-cases d.link_fd) [
    | inl z ↦ follow laws hash (link_event ch hash e d) (d, []) (rw z) v
    | inr (fd, z) ↦
        let first =
          when ch hash e.is_readable (link_read ch hash e.read e.now e.answers e.clock) d in
        follow laws hash (link_event ch hash e d) (first ▷ write_if_open ch hash e) (rw z) (
          seq_Ok laws hash first (write_if_open ch hash e)
            (when-Ok e.is_readable (link_read ch hash e.read e.now e.answers e.clock) d
              (λ h. link_read-Ok laws hash e.read e.now e.answers e.clock d v) v)
            (λ d v.
              when-Ok (e.is_writable && is_some d.link_fd) (link_write ch hash e.write e.now) d
                (λ h. link_write-Ok laws hash e.write e.now d v) v))
  ]

  channel_event-Ok : (e : PollEvent W) → Keeps laws hash (channel_event ch hash e)
  unfolding channel_event
  channel_event-Ok e d v = elim (Option-cases (channel_id_for_token e.token)) [
    | inl z ↦ follow laws hash (channel_event ch hash e d) (d, []) (rw (z, channel_event)) v
    | inr (id, z) ↦
        let f : C → C × List Effect =
          ch.handle_event e.token e.is_readable e.is_writable e.answer in
        let law = laws.handle_event-Down e.token e.is_readable e.is_writable e.answer in
        let routed =
          route-Ok laws hash id f d
            (laws.handle_event-paused e.token e.is_readable e.is_writable e.answer)
            (λ c g. set-AtRest laws hash id f c d.link_fd d.channels d.txq g (law c) v.rest) v in
        let p = route ch hash id f d in
        follow laws hash (channel_event ch hash e d) (p ▷ check_bp_high ch hash ▷ touch e.now)
          (rw (z, channel_event))
          (seq_Ok laws hash (p ▷ check_bp_high ch hash) (touch e.now)
            (seq_Ok laws hash p (check_bp_high ch hash) routed.0 (check_bp_high-Ok laws hash))
            (touch-Ok laws hash e.now))
  ]

  on_event-Ok : (e : PollEvent W) → Keeps laws hash (on_event ch hash e)
  unfolding on_event
  on_event-Ok e d v = elim (Bool-cases (e.token == token_link)) [
    | inl z ↦
        follow laws hash (on_event ch hash e d) (link_event ch hash e d) (rw z)
          (link_event-Ok e d v)
    | inr z ↦
        follow laws hash (on_event ch hash e d) (channel_event ch hash e d) (rw z)
          (channel_event-Ok e d v)
  ]

  on_events-Ok : (es : List (PollEvent W)) → Keeps laws hash (on_events ch hash es)
  unfolding on_events
  on_events-Ok [] d v = v
  on_events-Ok (e ∷ es) d v =
      seq_Ok laws hash (on_event ch hash e d) (on_events ch hash es) (on_event-Ok e d v)
        (on_events-Ok es)

  polled-Ok : (o : Option (List (PollEvent W))) → Keeps laws hash (polled ch hash o)
  unfolding polled
  polled-Ok none d v = v
  polled-Ok (some es) d v = on_events-Ok es d v

  arm-Ok : (now : ℕ) → Keeps laws hash (arm ch hash now)
  unfolding arm set_link_write_interest
  arm-Ok now d v = elim (Bool-cases (TxQueue.is_empty d.txq)) [
    | inl e ↦ follow laws hash (arm ch hash now d) (d, []) (rw e) v
    | inr e ↦
        let d' : Daemon C = record d { last_tx = some now } in
        follow laws hash (arm ch hash now d) (set_link_write_interest true d') (rw e)
          (retime laws hash d d.last_rx (some now) v)
  ]

  reopen-Ok : (r : Round W) → Keeps laws hash (reopen ch hash r)
  unfolding reopen
  reopen-Ok r d v =
      when-Ok (d.disconnected && leb d.reopen_at r.now)
        (open_link ch hash r.find_acm r.open_serial r.later r.latest) d
        (λ h.
          open_link-Ok laws hash r.find_acm r.open_serial r.later r.latest d v (ground (arith, h)))
        v

  loop_round-Ok : (r : Round W) → Keeps laws hash (loop_round ch hash r)
  unfolding loop_round
  loop_round-Ok r d v =
      let one = reopen ch hash r d in
      let two = one ▷ tick_keepalive ch hash r.now r.later in
      let three = two ▷ tick_all ch hash r.now r.ticks in
      let four = three ▷ arm ch hash r.latest in
      let v1 =
        seq_Ok laws hash one (tick_keepalive ch hash r.now r.later) (reopen-Ok r d v)
          (tick_keepalive-Ok laws hash r.now r.later) in
      let v2 =
        seq_Ok laws hash two (tick_all ch hash r.now r.ticks) v1
          (tick_all-Ok laws hash r.now r.ticks) in
      let v3 = seq_Ok laws hash three (arm ch hash r.latest) v2 (arm-Ok r.latest) in
      seq_Ok laws hash four (polled ch hash r.events) v3 (polled-Ok r.events)

  rounds-Ok : (rs : List (Round W)) → Keeps laws hash (rounds ch hash rs)
  unfolding rounds
  rounds-Ok [] d v = v
  rounds-Ok (r ∷ rs) d v =
      seq_Ok laws hash (loop_round ch hash r d) (rounds ch hash rs) (loop_round-Ok r d v)
        (rounds-Ok rs)

  -- Over channels that obey the laws, `run` keeps a daemon valid.
  pub run-IsValid_daemon :
      (find : List ℕ → List ℕ → Option (List ℕ)) (serial : List ℕ → OpenResult) (now now' : ℕ)
      (rs : List (Round W)) (d : Daemon C)
      → IsValid hash paused Down d
      → IsValid hash paused Down (run ch hash find serial now now' rs d).0
  unfolding run
  run-IsValid_daemon find serial now now' rs d v =
      let first = when ch hash d.disconnected (open_link ch hash find serial now now') d in
      seq_Ok laws hash first (rounds ch hash rs)
        (when-Ok d.disconnected (open_link ch hash find serial now now') d
          (λ h. open_link-Ok laws hash find serial now now' d v h) v)
        (rounds-Ok rs)
