-- ===== src/Daemon/Valid.antt =====
-- What holds between two calls of the daemon's methods.
use pik.Base.{
  ℕ, ◌≤◌, ◌≡◌, refl, ap, sym, subst, ◌∙◌, Bool, true, false, List, [], ◌∷◌, Option, none, some,
  ◌==◌, arith, Bool-cases, inl, inr,
}
use pik.Protocol.{build_frame}
use pik.Protocol.Parser.Drain.{IsDrained}
use pik.Protocol.TxQueue
use pik.Protocol.TxQueue.{TxQueue}
use pik.Protocol.TxQueue.Inv.{reset-IsValid, enqueue-IsValid, drain-IsValid}
use pik.Protocol.TxQueue.Inv
use pik.Channel.Effect.{
  Effect, send, reg_add, reg_mod, reg_del, close_raw, remove_symlink, make_symlink, ◌▷◌,
}
use pik.Channel.Interface.{Channel, ChannelLaws, NoFrame, NoFrame-append}
use pik.Daemon.{
  Daemon, first_delay, last_delay, get_channel, set_channel, each, deliver, schedule_reopen,
  set_link_write_interest, touch,
}

-- The link is open, or it is closed, the handshake undone and no channel held back.
abbrev pub LinkAgrees : Option ℕ → Bool → Bool → Bool → Type 0
LinkAgrees none disconnected up bp = (disconnected ≡ true) × (up ≡ false) × (bp ≡ false)
LinkAgrees (some fd) disconnected up bp = disconnected ≡ false

abbrev pub AllPaused : {C : Type 0} → (C → Bool) → Bool → List (ℕ × C) → Type 0
AllPaused paused b [] = Unit {0}
AllPaused paused b ((i, c) ∷ l) = (paused c ≡ b) × AllPaused paused b l

abbrev pub AllDown : {C : Type 0} → (C → Type 0) → List (ℕ × C) → Type 0
AllDown Down [] = Unit {0}
AllDown Down ((i, c) ∷ l) = Down c × AllDown Down l

-- While the link is closed, it is down for every channel, and nothing is queued.
abbrev pub AtRest : {C : Type 0} → (C → Type 0) → Option ℕ → List (ℕ × C) → TxQueue → Type 0
AtRest Down none cs q = AllDown Down cs × (TxQueue.is_empty q ≡ true)
AtRest Down (some fd) cs q = Unit {0}

-- Every channel reads its source just when the link has room.
pub record IsValid {C : Type 0} (hash : List ℕ → ℕ) (paused : C → Bool) (Down : C → Type 0)
    (d : Daemon C) : Type 0 where
  pub queue : Inv.IsValid d.txq
  pub buffer : IsDrained hash d.parser
  pub delay_low : first_delay ≤ d.reopen_delay
  pub delay_high : d.reopen_delay ≤ last_delay
  pub link : LinkAgrees d.link_fd d.disconnected d.link_up d.link_bp
  pub reads : AllPaused paused d.link_bp d.channels
  pub rest : AtRest Down d.link_fd d.channels d.txq

pub deliver-IsValid :
    (hash : List ℕ → ℕ) (l : List Effect) {q : TxQueue}
    → Inv.IsValid q
    → Inv.IsValid (deliver hash l q)
unfolding deliver
deliver-IsValid hash [] v = v
deliver-IsValid hash (send t c p ∷ l) v =
    deliver-IsValid hash l (enqueue-IsValid (build_frame hash t c p) v)
deliver-IsValid hash (reg_add fd t i ∷ l) v = deliver-IsValid hash l v
deliver-IsValid hash (reg_mod fd t i ∷ l) v = deliver-IsValid hash l v
deliver-IsValid hash (reg_del fd ∷ l) v = deliver-IsValid hash l v
deliver-IsValid hash (close_raw fd ∷ l) v = deliver-IsValid hash l v
deliver-IsValid hash (remove_symlink ∷ l) v = deliver-IsValid hash l v
deliver-IsValid hash (make_symlink ∷ l) v = deliver-IsValid hash l v

-- With no frame among the effects nothing is queued.
pub deliver-NoFrame :
    (hash : List ℕ → ℕ) (l : List Effect) (q : TxQueue) → NoFrame l → deliver hash l q ≡ q
unfolding deliver
deliver-NoFrame hash [] q h = refl
deliver-NoFrame hash (send t c p ∷ l) q h = absurd h
deliver-NoFrame hash (reg_add fd t i ∷ l) q h = deliver-NoFrame hash l q h
deliver-NoFrame hash (reg_mod fd t i ∷ l) q h = deliver-NoFrame hash l q h
deliver-NoFrame hash (reg_del fd ∷ l) q h = deliver-NoFrame hash l q h
deliver-NoFrame hash (close_raw fd ∷ l) q h = deliver-NoFrame hash l q h
deliver-NoFrame hash (remove_symlink ∷ l) q h = deliver-NoFrame hash l q h
deliver-NoFrame hash (make_symlink ∷ l) q h = deliver-NoFrame hash l q h

pub AllDown-Unit : {C : Type 0} (l : List (ℕ × C)) → AllDown (λ c. Unit {0}) l
AllDown-Unit [] = tt
AllDown-Unit ((i, c) ∷ l) = (tt, AllDown-Unit l)

module _ {C W : Type 0} {ch : Channel C W} {paused : C → Bool} {Down : C → Type 0}
    (laws : ChannelLaws ch paused Down) (hash : List ℕ → ℕ) where
  pub each-AllPaused :
      (f : ℕ → C → C × List Effect) (b b' : Bool) (l : List (ℕ × C))
      → ((i : ℕ) (c : C) → paused c ≡ b → paused (f i c).0 ≡ b')
      → AllPaused paused b l
      → AllPaused paused b' (each f l).0
  unfolding each
  each-AllPaused f b b' [] k h = tt
  each-AllPaused f b b' ((i, c) ∷ l) k h = (k i c h.0, each-AllPaused f b b' l k h.1)

  pub each-AllDown :
      (f : ℕ → C → C × List Effect) (l : List (ℕ × C))
      → ((i : ℕ) (c : C) → Down c → Down (f i c).0)
      → AllDown Down l
      → AllDown Down (each f l).0
  unfolding each
  each-AllDown f [] k h = tt
  each-AllDown f ((i, c) ∷ l) k h = (k i c h.0, each-AllDown f l k h.1)

  pub each-AllDown_all :
      (f : ℕ → C → C × List Effect) (l : List (ℕ × C))
      → ((i : ℕ) (c : C) → Down (f i c).0)
      → AllDown Down (each f l).0
  unfolding each
  each-AllDown_all f [] k = tt
  each-AllDown_all f ((i, c) ∷ l) k = (k i c, each-AllDown_all f l k)

  pub each-NoFrame :
      (f : ℕ → C → C × List Effect) (l : List (ℕ × C))
      → ((i : ℕ) (c : C) → Down c → NoFrame (f i c).1)
      → AllDown Down l
      → NoFrame (each f l).1
  unfolding each
  each-NoFrame f [] k h = tt
  each-NoFrame f ((i, c) ∷ l) k h =
      NoFrame-append (f i c).1 (each f l).1 (k i c h.0) (each-NoFrame f l k h.1)

  -- Methods that queue nothing for a link that is down.
  pub each-AtRest :
      (f : ℕ → C → C × List Effect) (fd : Option ℕ) (l : List (ℕ × C)) (q : TxQueue)
      → ((i : ℕ) (c : C) → Down c → Down (f i c).0 × NoFrame (f i c).1)
      → AtRest Down fd l q
      → AtRest Down fd (each f l).0 (deliver hash (each f l).1 q)
  each-AtRest f none l q k h = (
    each-AllDown f l (λ i c z. (k i c z).0) h.0,
    ap TxQueue.is_empty
          (deliver-NoFrame hash (each f l).1 q (each-NoFrame f l (λ i c z. (k i c z).1) h.0))
        ∙ h.1,
  )
  each-AtRest f (some fd) l q k h = tt

  pub each-AtRest_only :
      (f : ℕ → C → C × List Effect) (fd : Option ℕ) (l : List (ℕ × C)) (q : TxQueue)
      → ((i : ℕ) (c : C) → Down c → Down (f i c).0)
      → AtRest Down fd l q
      → AtRest Down fd (each f l).0 q
  each-AtRest_only f none l q k h = (each-AllDown f l k h.0, h.1)
  each-AtRest_only f (some fd) l q k h = tt

  -- Nothing is asked of an open link.
  pub rest_open :
      (fd : Option ℕ) (disconnected up bp : Bool) (cs : List (ℕ × C)) (q : TxQueue)
      → LinkAgrees fd disconnected up bp
      → disconnected ≡ false
      → AtRest Down fd cs q
  rest_open none disconnected up bp cs q h e = absurd (cc h.0)
  rest_open (some fd) disconnected up bp cs q h e = tt

  get-Down :
      (id : ℕ) (l : List (ℕ × C)) {c : C} → AllDown Down l → get_channel id l ≡ some c → Down c
  unfolding get_channel
  get-Down id [] h e = absurd (ground arith)
  get-Down id ((i, c') ∷ l) {c} h e = elim (Bool-cases (i == id)) [
    | inl z ↦ let same : c' ≡ c = ground arith in subst Down same h.0
    | inr z ↦ get-Down id l h.1 (ground arith)
  ]

  set-AllDown :
      (id : ℕ) (c : C) (l : List (ℕ × C))
      → AllDown Down l
      → Down c
      → AllDown Down (set_channel id c l)
  unfolding set_channel
  set-AllDown id c [] h e = tt
  set-AllDown id c ((i, c') ∷ l) h e = elim (Bool-cases (i == id)) [
    | inl z ↦ rw z (e, h.1)
    | inr z ↦ rw z (h.0, set-AllDown id c l h.1 e)
  ]

  -- A method of one channel.
  pub set-AtRest :
      (id : ℕ) (f : C → C × List Effect) (c : C) (fd : Option ℕ) (l : List (ℕ × C)) (q : TxQueue)
      → get_channel id l ≡ some c
      → (Down c → Down (f c).0 × NoFrame (f c).1)
      → AtRest Down fd l q
      → AtRest Down fd (set_channel id (f c).0 l) (deliver hash (f c).1 q)
  set-AtRest id f c none l q e k h =
      let down = k (get-Down id l h.0 e) in
      (
        set-AllDown id (f c).0 l h.0 down.0,
        ap TxQueue.is_empty (deliver-NoFrame hash (f c).1 q down.1) ∙ h.1,
      )
  set-AtRest id f c (some fd) l q e k h = tt

  pub get-paused :
      (id : ℕ) (b : Bool) (l : List (ℕ × C)) {c : C}
      → AllPaused paused b l
      → get_channel id l ≡ some c
      → paused c ≡ b
  unfolding get_channel
  get-paused id b [] h e = absurd (ground arith)
  get-paused id b ((i, c') ∷ l) {c} h e = elim (Bool-cases (i == id)) [
    | inl z ↦ let same : c' ≡ c = ground arith in subst (λ c. paused c ≡ b) same h.0
    | inr z ↦ get-paused id b l h.1 (ground arith)
  ]

  pub set-AllPaused :
      (id : ℕ) (c : C) (b : Bool) (l : List (ℕ × C))
      → AllPaused paused b l
      → paused c ≡ b
      → AllPaused paused b (set_channel id c l)
  unfolding set_channel
  set-AllPaused id c b [] h e = tt
  set-AllPaused id c b ((i, c') ∷ l) h e = ground (arith, set-AllPaused id c b l h.1 e, h.1)

  abbrev pub Ok : Daemon C × List Effect → Type 0
  Ok p = IsValid hash paused Down p.0

  abbrev pub Keeps : (Daemon C → Daemon C × List Effect) → Type 0
  Keeps f = (d : Daemon C) → IsValid hash paused Down d → Ok (f d)

  pub follow : (q p : Daemon C × List Effect) → q ≡ p → Ok p → Ok q
  follow q p e h = subst Ok (sym e) h

  pub seq_Ok :
      (p : Daemon C × List Effect) (f : Daemon C → Daemon C × List Effect)
      → Ok p
      → Keeps f
      → Ok (p ▷ f)
  seq_Ok (d, l) f h k = k d h

  -- Channels and the queue change, and perhaps whether the channels are held back.
  pub hold :
      (d : Daemon C) (cs : List (ℕ × C)) (q : TxQueue) (b : Bool)
      → IsValid hash paused Down d
      → LinkAgrees d.link_fd d.disconnected d.link_up b
      → Inv.IsValid q
      → AllPaused paused b cs
      → AtRest Down d.link_fd cs q
      → IsValid hash paused Down (record d { channels = cs; txq = q; link_bp = b })
  hold d cs q b v k w h r = record {
    queue = w;
    buffer = v.buffer;
    delay_low = v.delay_low;
    delay_high = v.delay_high;
    link = k;
    reads = h;
    rest = r;
  }

  pub schedule_reopen-Ok : (now : ℕ) → Keeps (schedule_reopen now)
  unfolding schedule_reopen
  schedule_reopen-Ok now d v = record {
    queue = v.queue;
    buffer = v.buffer;
    delay_low = omega (arith, v.delay_low);
    delay_high = omega arith;
    link = v.link;
    reads = v.reads;
    rest = v.rest;
  }

  pub interest_Ok : (b : Bool) → Keeps (set_link_write_interest b)
  unfolding set_link_write_interest
  interest_Ok b d v = v

  pub retime :
      (d : Daemon C) (rx tx : Option ℕ)
      → IsValid hash paused Down d
      → IsValid hash paused Down (record d { last_rx = rx; last_tx = tx })
  retime d rx tx v = record {
    queue = v.queue;
    buffer = v.buffer;
    delay_low = v.delay_low;
    delay_high = v.delay_high;
    link = v.link;
    reads = v.reads;
    rest = v.rest;
  }

  pub touch-Ok : (now : ℕ) → Keeps (touch now)
  unfolding touch
  touch-Ok now d v = retime d d.last_rx (some now) v
