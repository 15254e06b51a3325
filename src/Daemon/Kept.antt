-- ===== src/Daemon/Kept.antt =====
-- The methods for the link and for frames keep the daemon valid.
use pik.Base.{
  ℕ, ◌≡◌, refl, sym, subst, ◌∙◌, Bool, false, not, List, [], Option, none, some, ◌&&◌, ◌||◌, leb,
  arith, Option-cases, Bool-cases, inl, inr,
}
use pik.Protocol.{link_low_water}
use pik.Protocol.TxQueue
use pik.Protocol.TxQueue.{TxQueue}
use pik.Protocol.TxQueue.Inv.{is_empty-reset, reset-IsValid, enqueue-IsValid, drain-IsValid}
use pik.Protocol.TxQueue.Inv
use pik.Channel.Effect.{Effect, ◌▷◌}
use pik.Channel.Interface.{Channel, ChannelLaws}
use pik.Daemon.{
  Daemon, is_some, each, deliver, schedule_reopen, set_link_write_interest, enqueue_frame,
  resume_all, disconnect_all, connect_all, tick_all, drop_link, release, close_link, relieve,
  settle, after_drain, link_write,
}
use pik.Daemon.Valid.{
  IsValid, LinkAgrees, AllPaused, deliver-IsValid, each-AllPaused, seq_Ok, hold, schedule_reopen-Ok,
  interest_Ok, retime, follow, AtRest, AllDown-Unit, each-AtRest, each-AtRest_only,
  each-AllDown_all, rest_open,
}

module _ {C W : Type 0} {ch : Channel C W} {paused : C → Bool} {Down : C → Type 0}
    (laws : ChannelLaws ch paused Down) (hash : List ℕ → ℕ) where
  abbrev pub Ok : Daemon C × List Effect → Type 0
  Ok p = IsValid hash paused Down p.0

  abbrev pub Keeps : (Daemon C → Daemon C × List Effect) → Type 0
  Keeps f = (d : Daemon C) → IsValid hash paused Down d → Ok (f d)

  pub enqueue_frame-Ok : (frame : List ℕ) (now : ℕ) → Keeps (enqueue_frame frame now)
  unfolding enqueue_frame set_link_write_interest
  enqueue_frame-Ok frame now d v = elim (Bool-cases (enqueues d)) [
    | inl e ↦ follow laws hash (enqueue_frame frame now d) (d, []) (rw e) v
    | inr e ↦ rw e (
        retime laws hash (record d { txq = TxQueue.enqueue d.txq frame }) d.last_rx (some now)
          (hold laws hash d d.channels (TxQueue.enqueue d.txq frame) d.link_bp v v.link
            (enqueue-IsValid frame v.queue) v.reads
            (rest_open laws hash d.link_fd d.disconnected d.link_up d.link_bp d.channels
              (TxQueue.enqueue d.txq frame) v.link (ground arith))))
  ]
    where
      enqueues : Daemon C → Bool
      enqueues d = d.disconnected || not (is_some d.link_fd)

  let_go :
      (fd : Option ℕ) (disconnected up bp : Bool)
      → LinkAgrees fd disconnected up bp
      → LinkAgrees fd disconnected up false
  let_go none disconnected up bp h = (h.0, h.1, refl)
  let_go (some fd) disconnected up bp h = h

  -- Every channel is told to read its source again.
  pub resume_all-Ok :
      (d : Daemon C)
      → IsValid hash paused Down d
      → Ok (resume_all ch hash (record d { link_bp = false }))
  unfolding resume_all
  resume_all-Ok d v =
      hold laws hash d (each (λ i c. ch.resume_source_reads c) d.channels).0 d.txq false v
        (let_go d.link_fd d.disconnected d.link_up d.link_bp v.link) v.queue
        (each-AllPaused laws hash (λ i c. ch.resume_source_reads c) d.link_bp false d.channels
          (λ i c e. laws.resume-paused c) v.reads)
        (each-AtRest_only laws hash (λ i c. ch.resume_source_reads c) d.link_fd d.channels d.txq
          (λ i c. laws.resume-Down c) v.rest)

  pub connect_all-Ok :
      (d : Daemon C)
      → IsValid hash paused Down d
      → d.disconnected ≡ false
      → Ok (connect_all ch hash d)
  unfolding connect_all
  connect_all-Ok d v o =
      let p = each (λ i c. ch.on_link_connect c) d.channels in
      hold laws hash d p.0 (deliver hash p.1 d.txq) d.link_bp v v.link
        (deliver-IsValid hash p.1 v.queue)
        (each-AllPaused laws hash (λ i c. ch.on_link_connect c) d.link_bp d.link_bp d.channels
          (λ i c e. laws.on_link_connect-paused c ∙ e) v.reads)
        (rest_open laws hash d.link_fd d.disconnected d.link_up d.link_bp p.0
          (deliver hash p.1 d.txq) v.link o)

  pub tick_all-Ok : (now : ℕ) (ws : ℕ → W) → Keeps (tick_all ch hash now ws)
  unfolding tick_all
  tick_all-Ok now ws d v =
      let p = each (λ i c. ch.tick now (ws i) c) d.channels in
      hold laws hash d p.0 (deliver hash p.1 d.txq) d.link_bp v v.link
        (deliver-IsValid hash p.1 v.queue)
        (each-AllPaused laws hash (λ i c. ch.tick now (ws i) c) d.link_bp d.link_bp d.channels
          (λ i c e. laws.tick-paused now (ws i) c ∙ e) v.reads)
        (each-AtRest laws hash (λ i c. ch.tick now (ws i) c) d.link_fd d.channels d.txq
          (λ i c. laws.tick-Down now (ws i) c) v.rest)

  -- A daemon that has no link, but has not told the channels yet.
  abbrev Dropped : Daemon C → Type 0
  Dropped d = IsValid hash paused (λ c. Unit {0}) d × (d.link_fd ≡ none)

  drop_link-Dropped :
      (d : Daemon C)
      → IsValid hash paused Down d
      → (cs : List (ℕ × C)) (bp : Bool) → bp ≡ false
      → AllPaused paused bp cs
      → Dropped (record (drop_link ch hash d).0 { channels = cs; link_bp = bp })
  unfolding drop_link
  drop_link-Dropped d v cs bp e h = (
    record {
      queue = reset-IsValid v.queue;
      buffer = v.buffer;
      delay_low = v.delay_low;
      delay_high = v.delay_high;
      link = (refl, refl, e);
      reads = h;
      rest = (AllDown-Unit cs, is_empty-reset d.txq);
    },
    refl,
  )

  release-Dropped :
      (d : Daemon C)
      → IsValid hash paused Down d
      → Dropped (release ch hash (drop_link ch hash d).0).0
  unfolding release drop_link resume_all
  release-Dropped d v = elim (Bool-cases d.link_bp) [
    | inl e ↦ rw e (
        drop_link-Dropped d v (each (λ i c. ch.resume_source_reads c) d.channels).0 false refl (
          each-AllPaused laws hash (λ i c. ch.resume_source_reads c) d.link_bp false d.channels
            (λ i c e. laws.resume-paused c) v.reads))
    | inr e ↦
        subst (λ (p : Daemon C × List Effect). Dropped p.0) (sym (kept e))
          (drop_link-Dropped d v d.channels d.link_bp e v.reads)
  ]
    where
      kept :
          d.link_bp ≡ false
          → release ch hash (drop_link ch hash d).0 ≡ ((drop_link ch hash d).0, [])
      kept e = rw e

  disconnect_all-Ok : (d : Daemon C) → Dropped d → Ok (disconnect_all ch hash d)
  unfolding disconnect_all
  disconnect_all-Ok d (v, e) =
      let cs = (each (λ i c. ch.on_link_disconnect c) d.channels).0 in
      record {
        queue = v.queue;
        buffer = v.buffer;
        delay_low = v.delay_low;
        delay_high = v.delay_high;
        link = v.link;
        reads =
            each-AllPaused laws hash (λ i c. ch.on_link_disconnect c) d.link_bp d.link_bp d.channels
              (λ i c e. laws.on_link_disconnect-paused c ∙ e) v.reads;
        rest =
            subst (λ fd. AtRest Down fd cs d.txq) (sym e)
              (
                each-AllDown_all laws hash (λ i c. ch.on_link_disconnect c) d.channels
                    (λ i c. laws.on_link_disconnect-Down c),
                (subst (λ fd. AtRest (λ c. Unit {0}) fd d.channels d.txq) e v.rest).1,
              );
      }

  pub close_link-Ok : (now : ℕ) → Keeps (close_link ch hash now)
  unfolding close_link
  close_link-Ok now d v = elim (Bool-cases d.disconnected) [
    | inl e ↦ follow laws hash (close_link ch hash now d) (d, []) (rw e) v
    | inr e ↦
        let dropped = drop_link ch hash d ▷ release ch hash in
        follow laws hash (close_link ch hash now d)
          (dropped ▷ disconnect_all ch hash ▷ schedule_reopen now) (rw e)
          (seq_Ok laws hash (dropped ▷ disconnect_all ch hash) (schedule_reopen now)
            (disconnect_all-Ok dropped.0 (release-Dropped d v)) (schedule_reopen-Ok laws hash now))
  ]

  relieve-Ok : Keeps (relieve ch hash)
  unfolding relieve
  relieve-Ok d v = elim (Bool-cases (d.link_bp && leb (TxQueue.used d.txq) link_low_water)) [
    | inl e ↦
        follow laws hash (relieve ch hash d) (resume_all ch hash (record d { link_bp = false }))
          (rw e) (resume_all-Ok d v)
    | inr e ↦ follow laws hash (relieve ch hash d) (d, []) (rw e) v
  ]

  settle-Ok : Keeps (settle ch hash)
  unfolding settle
  settle-Ok d v = elim (Bool-cases (TxQueue.is_empty d.txq)) [
    | inl e ↦
        follow laws hash (settle ch hash d) (set_link_write_interest false d) (rw e)
          (interest_Ok laws hash false d v)
    | inr e ↦ follow laws hash (settle ch hash d) (d, []) (rw e) v
  ]

  after_drain-Ok :
      (p : TxQueue × TxQueue.DrainResult) (now : ℕ) (d : Daemon C)
      → Inv.IsValid p.0
      → IsValid hash paused Down d
      → AtRest Down d.link_fd d.channels p.0
      → Ok (after_drain ch hash p now d)
  unfolding after_drain
  after_drain-Ok (q, TxQueue.err) now d w v rest =
      close_link-Ok now (record d { txq = q })
        (hold laws hash d d.channels q d.link_bp v v.link w v.reads rest)
  after_drain-Ok (q, TxQueue.ok b) now d w v rest =
      let d' : Daemon C = record d { txq = q } in
      seq_Ok laws hash (relieve ch hash d') (settle ch hash)
        (relieve-Ok d' (hold laws hash d d.channels q d.link_bp v v.link w v.reads rest)) settle-Ok

  pub link_write-Ok : (w : TxQueue.WriteResult) (now : ℕ) → Keeps (link_write ch hash w now)
  unfolding link_write
  link_write-Ok w now d v = elim (Option-cases d.link_fd) [
    | inl e ↦ follow laws hash (link_write ch hash w now d) (d, []) (rw e) v
    | inr (fd, e) ↦
        let p = TxQueue.drain_to_fd d.txq w in
        follow laws hash (link_write ch hash w now d) (after_drain ch hash p now d) (rw e) (
          after_drain-Ok p now d (drain-IsValid w v.queue) v
            (subst (λ o. AtRest Down o d.channels p.0) (sym e) tt))
  ]
