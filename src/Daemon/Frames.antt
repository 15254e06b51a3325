-- ===== src/Daemon/Frames.antt =====
-- What arrives on the link, and the rounds of the loop, keep the daemon valid.
use pik.Base.{
  ℕ, suc, ◌≡◌, refl, sym, subst, ◌∙◌, Bool, true, false, not, List, [], ◌∷◌, Option, none, some,
  ◌==◌, ◌&&◌, ◌||◌, leb, if◌then◌else◌, arith, Option-cases, Bool-cases, inl, inr,
}
use pik.Protocol.{
  Frame, f_ack, f_data, f_hello, f_ping, f_pong, f_tdata, link_high_water, build_frame,
}
use pik.Protocol.Parser
use pik.Protocol.Parser.Feed.{feed-IsDrained}
use pik.Protocol.TxQueue
use pik.Protocol.TxQueue.{TxQueue}
use pik.Protocol.TxQueue.Inv.{is_empty-used}
use pik.Channel.Effect.{Effect, ◌▷◌, ReadResult, would_block, got, read_err}
use pik.Channel.Interface.{Channel, ChannelLaws}
use pik.Daemon.{
  Daemon, get_channel, set_channel, each, deliver, calls, set_link_write_interest, touch,
  enqueue_frame, pause_all, connect_all, check_bp_high, on_link_up, hello, route, to_channel,
  dispatch_frame, dispatch_all, after_read, link_read,
}
use pik.Daemon.Valid.{
  IsValid, LinkAgrees, deliver-IsValid, each-AllPaused, get-paused, set-AllPaused, hold, touch-Ok,
  follow, AtRest, rest_open,
}
use pik.Daemon.Kept.{Ok, Keeps, enqueue_frame-Ok, connect_all-Ok, close_link-Ok}

module _ {C W : Type 0} {ch : Channel C W} {paused : C → Bool} {Down : C → Type 0}
    (laws : ChannelLaws ch paused Down) (hash : List ℕ → ℕ) where
  -- The methods for frames run on an open link only.
  abbrev pub OkOpen : Daemon C × List Effect → Type 0
  OkOpen p = IsValid hash paused Down p.0 × (p.0.disconnected ≡ false)

  abbrev pub KeepsOpen : (Daemon C → Daemon C × List Effect) → Type 0
  KeepsOpen f = (d : Daemon C) → IsValid hash paused Down d → d.disconnected ≡ false → OkOpen (f d)

  seq_Open :
      (p : Daemon C × List Effect) (f : Daemon C → Daemon C × List Effect)
      → OkOpen p
      → KeepsOpen f
      → OkOpen (p ▷ f)
  seq_Open (d, l) f h k = k d h.0 h.1

  follow_open : (q p : Daemon C × List Effect) → q ≡ p → OkOpen p → OkOpen q
  follow_open q p e h = subst OkOpen (sym e) h

  still_open :
      (fd : Option ℕ) (disconnected up bp up' bp' : Bool)
      → LinkAgrees fd disconnected up bp
      → disconnected ≡ false
      → LinkAgrees fd disconnected up' bp'
  still_open none disconnected up bp up' bp' h e = absurd (cc h.0)
  still_open (some fd) disconnected up bp up' bp' h e = h

  -- An open link may be marked as up.
  mark_up :
      (d : Daemon C)
      → IsValid hash paused Down d
      → d.disconnected ≡ false
      → IsValid hash paused Down (record d { link_up = true })
  mark_up d v e = record {
    queue = v.queue;
    buffer = v.buffer;
    delay_low = v.delay_low;
    delay_high = v.delay_high;
    link = still_open d.link_fd d.disconnected d.link_up d.link_bp true d.link_bp v.link e;
    reads = v.reads;
    rest = v.rest;
  }

  is_open :
      (fd : Option ℕ) (disconnected up bp : Bool) {n : ℕ}
      → LinkAgrees fd disconnected up bp
      → fd ≡ some n
      → disconnected ≡ false
  is_open none disconnected up bp h e = cc
  is_open (some fd) disconnected up bp h e = h

  check_bp_high_Open : KeepsOpen (check_bp_high ch hash)
  unfolding check_bp_high pause_all
  check_bp_high_Open d v o =
      elim (Bool-cases (not d.link_bp && leb link_high_water (TxQueue.used d.txq))) [
        | inl e ↦
            follow_open (check_bp_high ch hash d) (pause_all ch hash (record d { link_bp = true }))
              (rw e)
              (
                hold laws hash d (each (λ i c. ch.pause_source_reads c) d.channels).0 d.txq true v
                    (still_open d.link_fd d.disconnected d.link_up d.link_bp d.link_up true v.link
                      o)
                    v.queue
                    (each-AllPaused laws hash (λ i c. ch.pause_source_reads c) d.link_bp true
                      d.channels (λ i c e. laws.pause-paused c) v.reads)
                    (rest_open laws hash d.link_fd d.disconnected d.link_up d.link_bp
                      (each (λ i c. ch.pause_source_reads c) d.channels).0 d.txq v.link o),
                o,
              )
        | inr e ↦ follow_open (check_bp_high ch hash d) (d, []) (rw e) (v, o)
      ]

  -- Nothing waits while the link is closed, so that the mark is not reached then.
  pub check_bp_high-Ok : Keeps laws hash (check_bp_high ch hash)
  unfolding check_bp_high
  check_bp_high-Ok d v = elim (Option-cases d.link_fd) [
    | inr (fd, e) ↦
        (check_bp_high_Open d v (is_open d.link_fd d.disconnected d.link_up d.link_bp v.link e)).0
    | inl e ↦
        let none_queued : TxQueue.is_empty d.txq ≡ true =
          (subst (λ o. AtRest Down o d.channels d.txq) e v.rest).1 in
        let low = is_empty-used v.queue none_queued in
        follow laws hash (check_bp_high ch hash d) (d, []) (ground (arith, low)) v
  ]

  connect_all_Open : KeepsOpen (connect_all ch hash)
  unfolding connect_all
  connect_all_Open d v o = (connect_all-Ok laws hash d v o, o)

  touch_Open : (now : ℕ) → KeepsOpen (touch now)
  unfolding touch
  touch_Open now d v o = (touch-Ok laws hash now d v, o)

  connected_Open : (now : ℕ) → KeepsOpen (λ d. connect_all ch hash d ▷ touch now)
  connected_Open now d v o =
      seq_Open (connect_all ch hash d) (touch now) (connect_all_Open d v o) (touch_Open now)

  on_link_up_Open : (now : ℕ) → KeepsOpen (on_link_up ch hash now)
  unfolding on_link_up
  on_link_up_Open now d v o = elim (Bool-cases d.link_up) [
    | inl e ↦ follow_open (on_link_up ch hash now d) (d, []) (rw e) (v, o)
    | inr e ↦
        let d' : Daemon C = record d { link_up = true } in
        follow_open (on_link_up ch hash now d) (connect_all ch hash d' ▷ touch now) (rw e)
          (connected_Open now d' (mark_up d v o) o)
  ]

  hello_Open : (now : ℕ) → KeepsOpen (hello ch hash now)
  unfolding hello
  hello_Open now d v o = elim (Bool-cases d.link_up) [
    | inl e ↦
        follow_open (hello ch hash now d) (connect_all ch hash d ▷ touch now) (rw e)
          (connected_Open now d v o)
    | inr e ↦
        follow_open (hello ch hash now d) (on_link_up ch hash now d) (rw e)
          (on_link_up_Open now d v o)
  ]

  pub route-Ok :
      (id : ℕ) (f : C → C × List Effect) (d : Daemon C)
      → ((c : C) → paused (f c).0 ≡ paused c)
      → ((c : C)
          → get_channel id d.channels ≡ some c
          → AtRest Down d.link_fd (set_channel id (f c).0 d.channels) (deliver hash (f c).1 d.txq))
      → IsValid hash paused Down d
      → Ok laws hash (route ch hash id f d)
        × ((route ch hash id f d).0.disconnected ≡ d.disconnected)
  unfolding route
  route-Ok id f d k rest v = elim (Option-cases (get_channel id d.channels)) [
    | inl e ↦ subst Routed (sym (absent e)) (v, refl)
    | inr (c, e) ↦
        let p = f c in
        subst Routed (sym (present c e)) (
          hold laws hash d (set_channel id p.0 d.channels) (deliver hash p.1 d.txq) d.link_bp v
              v.link (deliver-IsValid hash p.1 v.queue)
              (set-AllPaused laws hash id p.0 d.link_bp d.channels v.reads
                (k c ∙ get-paused laws hash id d.link_bp d.channels v.reads e))
              (rest c e),
          refl,
        )
  ]
    where
      Routed : Daemon C × List Effect → Type 0
      Routed q = Ok laws hash q × (q.0.disconnected ≡ d.disconnected)

      absent : get_channel id d.channels ≡ none → route ch hash id f d ≡ (d, [])
      absent e = rw (e, route)

      present :
          (c : C)
          → get_channel id d.channels ≡ some c
          → route ch hash id f d ≡ (
            record d {
              channels = set_channel id (f c).0 d.channels;
              txq = deliver hash (f c).1 d.txq;
            },
            calls (f c).1,
          )
      present c e = rw (e, route)

  bulk : Frame → Daemon C → Daemon C × List Effect
  bulk f d = if f.ftype == f_data || f.ftype == f_tdata then check_bp_high ch hash d else (d, [])

  bulk_Open : (f : Frame) → KeepsOpen (bulk f)
  unfolding bulk
  bulk_Open f d v o = elim (Bool-cases (f.ftype == f_data || f.ftype == f_tdata)) [
    | inl e ↦ follow_open (bulk f d) (check_bp_high ch hash d) (rw e) (check_bp_high_Open d v o)
    | inr e ↦ follow_open (bulk f d) (d, []) (rw e) (v, o)
  ]

  to_channel_Open : (f : Frame) (w : W) (now : ℕ) → KeepsOpen (to_channel ch hash f w now)
  unfolding to_channel bulk
  to_channel_Open f w now d v o =
      let g : Daemon C → Daemon C × List Effect =
        route ch hash f.channel (ch.on_frame f.ftype f.payload w) in
      seq_Open (bulk f d ▷ g) (touch now)
        (seq_Open (bulk f d) g (bulk_Open f d v o) (λ d v o.
          let r =
            route-Ok f.channel (ch.on_frame f.ftype f.payload w) d
              (laws.on_frame-paused f.ftype f.payload w)
              (λ c e.
                rest_open laws hash d.link_fd d.disconnected d.link_up d.link_bp
                  (set_channel f.channel (ch.on_frame f.ftype f.payload w c).0 d.channels)
                  (deliver hash (ch.on_frame f.ftype f.payload w c).1 d.txq) v.link o)
              v in
          (r.0, r.1 ∙ o)))
        (touch_Open now)

  enqueue_frame_Open : (frame : List ℕ) (now : ℕ) → KeepsOpen (enqueue_frame frame now)
  unfolding enqueue_frame set_link_write_interest
  enqueue_frame_Open frame now d v o = (enqueue_frame-Ok laws hash frame now d v, ground (arith, o))

  pub dispatch_frame_Open :
      (f : Frame) (w : W) (now : ℕ) → KeepsOpen (dispatch_frame ch hash f w now)
  unfolding dispatch_frame
  dispatch_frame_Open f w now d v o = elim (Bool-cases (f.ftype == f_ping)) [
    | inl e ↦
        follow_open (dispatch_frame ch hash f w now d)
          (enqueue_frame (build_frame hash f_pong 0 []) now d) (rw e)
          (enqueue_frame_Open (build_frame hash f_pong 0 []) now d v o)
    | inr e ↦ elim (Bool-cases (f.ftype == f_pong)) [
      | inl e' ↦ follow_open (dispatch_frame ch hash f w now d) (d, []) (rw (e, e')) (v, o)
      | inr e' ↦ elim (Bool-cases (f.ftype == f_hello)) [
        | inl e'' ↦
            let ack = enqueue_frame (build_frame hash f_ack 0 []) now d in
            follow_open (dispatch_frame ch hash f w now d) (ack ▷ hello ch hash now)
              (rw (e, e', e''))
              (seq_Open ack (hello ch hash now)
                (enqueue_frame_Open (build_frame hash f_ack 0 []) now d v o) (hello_Open now))
        | inr e'' ↦ elim (Bool-cases (f.ftype == f_ack)) [
          | inl x ↦
              follow_open (dispatch_frame ch hash f w now d) (on_link_up ch hash now d)
                (rw (e, e', e'', x)) (on_link_up_Open now d v o)
          | inr x ↦
              follow_open (dispatch_frame ch hash f w now d) (to_channel ch hash f w now d)
                (rw (e, e', e'', x)) (to_channel_Open f w now d v o)
        ]
      ]
    ]
  ]

  dispatch_all_Open :
      (fs : List Frame) (ws : ℕ → W) (clock : ℕ → ℕ) → KeepsOpen (dispatch_all ch hash fs ws clock)
  unfolding dispatch_all
  dispatch_all_Open [] ws clock d v o = (v, o)
  dispatch_all_Open (f ∷ fs) ws clock d v o =
      seq_Open (dispatch_frame ch hash f (ws 0) (clock 0) d)
        (dispatch_all ch hash fs (λ k. ws (suc k)) (λ k. clock (suc k)))
        (dispatch_frame_Open f (ws 0) (clock 0) d v o)
        (dispatch_all_Open fs (λ k. ws (suc k)) (λ k. clock (suc k)))

  after_read-Ok :
      (r : ReadResult) (now : ℕ) (ws : ℕ → W) (clock : ℕ → ℕ) (d : Daemon C)
      → d.disconnected ≡ false
      → IsValid hash paused Down d
      → Ok laws hash (after_read ch hash r now ws clock d)
  unfolding after_read
  after_read-Ok would_block now ws clock d o v = v
  after_read-Ok (got []) now ws clock d o v = v
  after_read-Ok (got (b ∷ bs)) now ws clock d o v =
      let p = Parser.feed hash d.parser (b ∷ bs) in
      let d' : Daemon C = record d { last_rx = some now; parser = p.0 } in
      let v' : IsValid hash paused Down d' = record {
        queue = v.queue;
        buffer = feed-IsDrained hash d.parser (b ∷ bs) v.buffer;
        delay_low = v.delay_low;
        delay_high = v.delay_high;
        link = v.link;
        reads = v.reads;
        rest = v.rest;
      } in
      (dispatch_all_Open p.1 ws clock d' v' o).0
  after_read-Ok (read_err eio) now ws clock d o v = close_link-Ok laws hash now d v

  pub link_read-Ok :
      (r : ReadResult) (now : ℕ) (ws : ℕ → W) (clock : ℕ → ℕ)
      → Keeps laws hash (link_read ch hash r now ws clock)
  unfolding link_read
  link_read-Ok r now ws clock d v = elim (Option-cases d.link_fd) [
    | inl e ↦ follow laws hash (link_read ch hash r now ws clock d) (d, []) (rw e) v
    | inr (fd, e) ↦
        follow laws hash (link_read ch hash r now ws clock d) (after_read ch hash r now ws clock d)
          (rw e)
          (after_read-Ok r now ws clock d
            (is_open d.link_fd d.disconnected d.link_up d.link_bp v.link e) v)
  ]
