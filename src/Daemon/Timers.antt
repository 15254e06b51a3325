-- ===== src/Daemon/Timers.antt =====
-- The opening of the link and the keep-alive keep the daemon valid.
use pik.Base.{
  ℕ, ◌≡◌, refl, subst, Bool, true, false, List, [], Option, none, some, ◌&&◌, arith, Option-cases,
  Bool-cases, inl, inr,
}
use pik.Protocol.{f_hello, f_ping, build_frame}
use pik.Protocol.Parser.Drain.{nil-IsDrained}
use pik.Protocol.TxQueue
use pik.Protocol.TxQueue.{TxQueue}
use pik.Protocol.TxQueue.Inv.{reset-IsValid, enqueue-IsValid}
use pik.Channel.Interface.{Channel, ChannelLaws}
use pik.Daemon.{
  Daemon, OpenResult, no_open, no_register, opened, schedule_reopen, set_link_write_interest,
  enqueue_frame, opened_link, open_link, resolve_dev, close_link, tick_keepalive, timed_out, idle,
}
use pik.Daemon.Valid.{IsValid, LinkAgrees, AllPaused, schedule_reopen-Ok, follow}
use pik.Daemon.Kept.{Ok, Keeps, enqueue_frame-Ok, close_link-Ok}

module _ {C W : Type 0} {ch : Channel C W} {paused : C → Bool} {Down : C → Type 0}
    (laws : ChannelLaws ch paused Down) (hash : List ℕ → ℕ) where
  free_closed :
      (fd : Option ℕ) (disconnected up bp : Bool)
      → LinkAgrees fd disconnected up bp
      → disconnected ≡ true
      → bp ≡ false
  free_closed none disconnected up bp h e = h.2
  free_closed (some fd) disconnected up bp h e = cc

  opened_link-Ok :
      (r : OpenResult) (now now' : ℕ) (d : Daemon C)
      → IsValid hash paused Down d
      → d.disconnected ≡ true
      → Ok laws hash (opened_link ch hash r now now' d)
  unfolding opened_link set_link_write_interest
  opened_link-Ok no_open now now' d v e = schedule_reopen-Ok laws hash now d v
  opened_link-Ok (no_register fd) now now' d v e = schedule_reopen-Ok laws hash now d v
  opened_link-Ok (opened fd) now now' d v e = record {
    queue = enqueue-IsValid (build_frame hash f_hello 0 []) (reset-IsValid v.queue);
    buffer = nil-IsDrained hash;
    delay_low = omega arith;
    delay_high = omega arith;
    link = refl;
    reads =
        subst (λ b. AllPaused paused b d.channels)
          (free_closed d.link_fd d.disconnected d.link_up d.link_bp v.link e) v.reads;
    rest = tt;
  }

  pub open_link-Ok :
      (find : List ℕ → List ℕ → Option (List ℕ)) (serial : List ℕ → OpenResult) (now now' : ℕ)
      (d : Daemon C)
      → IsValid hash paused Down d
      → d.disconnected ≡ true
      → Ok laws hash (open_link ch hash find serial now now' d)
  unfolding open_link
  open_link-Ok find serial now now' d v e = elim (Option-cases (resolve_dev find d)) [
    | inl z ↦
        follow laws hash (open_link ch hash find serial now now' d) (schedule_reopen now d)
          (rw (z, open_link)) (schedule_reopen-Ok laws hash now d v)
    | inr (dev, z) ↦
        follow laws hash (open_link ch hash find serial now now' d)
          (opened_link ch hash (serial dev) now now' d) (rw (z, open_link))
          (opened_link-Ok (serial dev) now now' d v e)
  ]

  pub tick_keepalive-Ok : (now later : ℕ) → Keeps laws hash (tick_keepalive ch hash now later)
  unfolding tick_keepalive
  tick_keepalive-Ok now later d v = elim (Bool-cases d.disconnected) [
    | inl e ↦ follow laws hash (tick_keepalive ch hash now later d) (d, []) (rw e) v
    | inr e ↦ elim (Bool-cases (timed_out d.last_rx now)) [
      | inl z ↦
          follow laws hash (tick_keepalive ch hash now later d) (close_link ch hash later d)
            (rw (e, z)) (close_link-Ok laws hash later d v)
      | inr z ↦ elim (Bool-cases (d.link_up && (idle d.last_tx now && TxQueue.is_empty d.txq))) [
        | inl y ↦
            follow laws hash (tick_keepalive ch hash now later d)
              (enqueue_frame (build_frame hash f_ping 0 []) later d) (rw (e, z, y))
              (enqueue_frame-Ok laws hash (build_frame hash f_ping 0 []) later d v)
        | inr y ↦ follow laws hash (tick_keepalive ch hash now later d) (d, []) (rw (e, z, y)) v
      ]
    ]
  ]
