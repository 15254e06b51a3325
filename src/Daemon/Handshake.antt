-- ===== src/Daemon/Handshake.antt =====
-- A daemon greets when it opens the link, and a daemon that is greeted is up.
use pik.Base.{
  ℕ, suc, ◌-◌, ◌^◌, ◌<◌, ◌≡◌, refl, ap, sym, subst, ◌∙◌, Bool, true, false, List, [], ◌∷◌, ◌++◌,
  some, ◌==◌, ◌||◌, ltb, length, if◌then◌else◌, arith, Option-cases, Bool-cases, inl, inr,
  append-nil,
}
use pik.Protocol.{Frame, f_ack, f_data, f_hello, f_pong, f_tdata, link_txbuf_size, build_frame}
use pik.Protocol.Parser
use pik.Protocol.Parser.RoundTrip.{AllFit, build_all, feed_all-build_all}
use pik.Protocol.Parser.Feed.{feed_all-one}
use pik.Protocol.TxQueue.Inv
use pik.Protocol.TxQueue.Refine.{contents, contents-enqueue, contents-reset}
use pik.Protocol.TxQueue.Inv.{reset-IsValid}
use pik.Channel.Effect.{Effect, got}
use pik.Channel.Interface.{Channel}
use pik.Daemon.{
  Daemon, get_channel, opened, set_link_write_interest, touch, enqueue_frame, pause_all,
  connect_all, opened_link, check_bp_high, on_link_up, hello, route, to_channel, dispatch_frame,
  dispatch_all, after_read, link_read,
}

-- The frames of the handshake.
abbrev pub is_greeting : Frame → Bool
is_greeting f = f.ftype == f_hello || f.ftype == f_ack

abbrev pub greets : List Frame → Bool
greets [] = false
greets (f ∷ fs) = let rest = greets fs in is_greeting f || rest

module _ {C W : Type 0} (ch : Channel C W) (hash : List ℕ → ℕ) where
  enqueue_frame-up :
      (frame : List ℕ) (now : ℕ) (d : Daemon C) → (enqueue_frame frame now d).0.link_up ≡ d.link_up
  unfolding enqueue_frame set_link_write_interest
  enqueue_frame-up frame now d = ground arith

  route-up :
      (id : ℕ) (f : C → C × List Effect) (d : Daemon C)
      → (route ch hash id f d).0.link_up ≡ d.link_up
  unfolding route
  route-up id f d = elim (Option-cases (get_channel id d.channels)) [
    | inl e ↦ ground arith
    | inr (c, e) ↦ ground arith
  ]

  check_bp_high-up : (d : Daemon C) → (check_bp_high ch hash d).0.link_up ≡ d.link_up
  unfolding check_bp_high pause_all
  check_bp_high-up d = ground arith

  to_channel-up :
      (f : Frame) (w : W) (now : ℕ) (d : Daemon C)
      → (to_channel ch hash f w now d).0.link_up ≡ d.link_up
  unfolding to_channel touch set_link_write_interest
  to_channel-up f w now d = elim (Bool-cases (f.ftype == f_data || f.ftype == f_tdata)) [
    | inl e ↦ rw e (
        route-up f.channel (ch.on_frame f.ftype f.payload w) (check_bp_high ch hash d).0
        ∙ check_bp_high-up d)
    | inr e ↦ rw e (route-up f.channel (ch.on_frame f.ftype f.payload w) d)
  ]

  on_link_up-up : (now : ℕ) (d : Daemon C) → (on_link_up ch hash now d).0.link_up ≡ true
  unfolding on_link_up connect_all touch set_link_write_interest
  on_link_up-up now d = elim (Bool-cases d.link_up) [ inl e ↦ ground arith | inr e ↦ ground arith ]

  hello-up : (now : ℕ) (d : Daemon C) → (hello ch hash now d).0.link_up ≡ true
  unfolding hello connect_all touch set_link_write_interest
  hello-up now d = ground (arith, on_link_up-up now d)

  dispatch_frame-up :
      (f : Frame) (w : W) (now : ℕ) (d : Daemon C)
      → (is_greeting f || d.link_up) ≡ true
      → (dispatch_frame ch hash f w now d).0.link_up ≡ true
  unfolding dispatch_frame
  dispatch_frame-up f w now d h = ground (
    arith,
    enqueue_frame-up (build_frame hash f_pong 0 []) now d,
    hello-up now (enqueue_frame (build_frame hash f_ack 0 []) now d).0,
    on_link_up-up now d,
    to_channel-up f w now d,
  )

  dispatch_all-up :
      (fs : List Frame) (ws : ℕ → W) (clock : ℕ → ℕ) (d : Daemon C)
      → (greets fs || d.link_up) ≡ true
      → (dispatch_all ch hash fs ws clock d).0.link_up ≡ true
  unfolding dispatch_all
  dispatch_all-up [] ws clock d h = h
  dispatch_all-up (f ∷ fs) ws clock d h =
      dispatch_all-up fs (λ k. ws (suc k)) (λ k. clock (suc k))
        (dispatch_frame ch hash f (ws 0) (clock 0) d).0
        (ground (arith, dispatch_frame-up f (ws 0) (clock 0) d))

  -- A daemon that opened the link has its F_HELLO in the queue, and nothing else.
  open-greets :
      (fd now now' : ℕ) (d : Daemon C)
      → Inv.IsValid d.txq
      → contents (opened_link ch hash (opened fd) now now' d).0.txq ≡ build_frame hash f_hello 0 []
  unfolding opened_link set_link_write_interest build_frame
  open-greets fd now now' d v =
      contents-enqueue (build_frame hash f_hello 0 []) (reset-IsValid v)
      ∙ ap
          (λ (xs : List ℕ).
            if ltb (link_txbuf_size - 1 - length xs) (length (build_frame hash f_hello 0 []))
            then xs
            else xs ++ build_frame hash f_hello 0 [])
          (contents-reset d.txq)

  module _ (hash_u32 : (p : List ℕ) → hash p < 2 ^ 32) where
    read_frames :
        (xs : List Frame) → AllFit xs → (Parser.feed hash [] (build_all hash hash_u32 xs)).1 ≡ xs
    read_frames xs h =
        sym (feed_all-one hash [] (build_all hash hash_u32 xs))
        ∙ ap (λ (p : List ℕ × List Frame). p.1)
            (feed_all-build_all hash hash_u32 xs (build_all hash hash_u32 xs ∷ []) h
              (append-nil (build_all hash hash_u32 xs)))

    -- What is not empty is read into frames and dispatched.
    after_read-up :
        (bytes : List ℕ) (now : ℕ) (ws : ℕ → W) (clock : ℕ → ℕ) (d : Daemon C)
        → greets (Parser.feed hash d.parser bytes).1 ≡ true
        → (bytes ≡ [] → greets (Parser.feed hash d.parser bytes).1 ≡ false)
        → (after_read ch hash (got bytes) now ws clock d).0.link_up ≡ true
    unfolding after_read
    after_read-up [] now ws clock d g n = absurd (cc (n refl))
    after_read-up (b ∷ bs) now ws clock d g n =
        let p = Parser.feed hash d.parser (b ∷ bs) in
        dispatch_all-up p.1 ws clock (record d { last_rx = some now; parser = p.0 })
          (ap (λ b. b || d.link_up) g)

    not_empty : (xs : List Frame) → AllFit xs → build_all hash hash_u32 xs ≡ [] → greets xs ≡ false
    unfolding build_frame
    not_empty [] h e = refl
    not_empty (x ∷ xs) h e = absurd (ground (arith, e, h.0))

    -- A daemon whose link is open, with nothing left over from earlier reads, is up after it reads
    -- frames among which is a greeting, F_HELLO or F_ACK; each payload has at most `max_payload`
    -- bytes, and the checksum is a number below 2 ^ 32.
    pub link_read-up :
        (xs : List Frame) (fd now : ℕ) (ws : ℕ → W) (clock : ℕ → ℕ) (d : Daemon C)
        → AllFit xs
        → greets xs ≡ true
        → d.link_fd ≡ some fd
        → d.parser ≡ []
        → (link_read ch hash (got (build_all hash hash_u32 xs)) now ws clock d).0.link_up ≡ true
    unfolding link_read
    link_read-up xs fd now ws clock d h g e p =
        let bytes = build_all hash hash_u32 xs in
        let found : (Parser.feed hash d.parser bytes).1 ≡ xs =
          ap (λ b. (Parser.feed hash b bytes).1) p ∙ read_frames xs h in
        let read : link_read ch hash (got bytes) now ws clock d
            ≡ after_read ch hash (got bytes) now ws clock d =
          rw e in
        subst (λ (q : Daemon C × List Effect). q.0.link_up ≡ true) (sym read)
          (after_read-up bytes now ws clock d (ap greets found ∙ g)
            (λ z. ap greets found ∙ not_empty xs h z))

    -- A daemon that opens its link greets a peer whose link is open and that has nothing left over
    -- from earlier reads: when the peer reads what the first one queued, it is up; the checksum is a
    -- number below 2 ^ 32, and the first daemon's queue was valid.
    pub open_link-up :
        (fd fd' now now' later : ℕ) (ws : ℕ → W) (clock : ℕ → ℕ) (a b : Daemon C)
        → Inv.IsValid a.txq
        → b.link_fd ≡ some fd'
        → b.parser ≡ []
        → let queued = contents (opened_link ch hash (opened fd) now now' a).0.txq in
          (link_read ch hash (got queued) later ws clock b).0.link_up ≡ true
    open_link-up fd fd' now now' later ws clock a b v e p =
        let greeting : Frame = record { ftype = f_hello; channel = 0; payload = [] } in
        let bytes =
          open-greets fd now now' a v ∙ sym (append-nil (build_frame hash f_hello 0 [])) in
        subst (λ (q : List ℕ). (link_read ch hash (got q) later ws clock b).0.link_up ≡ true)
          (sym bytes) (link_read-up (greeting ∷ []) fd' later ws clock b (omega arith) refl e p)
