-- ===== src/Daemon.antt =====
-- `Daemon` of serialmux-rs/src/daemon.rs, over any channels with the interface of the `Channel`
-- trait. The results of system calls and of the clock are arguments; `channels` is the list of the
-- map's entries, in the order in which the map is iterated; the registry calls are the effects.
pub mod Loop
pub mod Valid
pub mod Kept
pub mod Frames
pub mod Timers
pub mod Start
pub mod Handshake
pub mod Failure
pub mod Distinct
mod Tests
use pik.Base.{
  ℕ, zero, suc, ◌+◌, ◌-◌, ◌*◌, min, Bool, true, false, not, List, [], ◌∷◌, ◌++◌, Option, none, some,
  ◌&&◌, ◌||◌, ◌==◌, ltb, leb, if◌then◌else◌, is_member,
}
use pik.Protocol.{
  Frame, f_ack, f_data, f_hello, f_ping, f_pong, f_tdata, link_high_water, link_low_water,
  build_frame,
}
use pik.Protocol.Parser
use pik.Protocol.TxQueue
use pik.Protocol.TxQueue.{TxQueue}
use pik.Channel.Token.{token_link, channel_id_for_token}
use pik.Channel.Effect.{
  Interest, readable, both, Effect, send, reg_add, reg_mod, reg_del, close_raw, remove_symlink,
  make_symlink, ◌▷◌, ReadResult, would_block, got, read_err,
}
use pik.Channel.Interface.{Channel}

-- Durations are in milliseconds.
abbrev pub max_tick : ℕ
max_tick = 1000

abbrev pub ka_interval : ℕ
ka_interval = 3000

abbrev pub ka_timeout : ℕ
ka_timeout = 10000

-- The first delay before the link is opened again, and the longest.
abbrev pub first_delay : ℕ
first_delay = 500

abbrev pub last_delay : ℕ
last_delay = 8000

-- Texts are lists of characters.
pub record Daemon (C : Type 0) : Type 0 where
  pub link_dev : Option (List ℕ)
  pub usb_id : Option (List ℕ × List ℕ)
  pub channels : List (ℕ × C)
  pub txq : TxQueue
  pub parser : List ℕ
  pub link_fd : Option ℕ
  pub link_up : Bool
  pub link_bp : Bool
  pub disconnected : Bool
  pub reopen_at : ℕ
  pub reopen_delay : ℕ
  pub last_rx : Option ℕ
  pub last_tx : Option ℕ

-- The map of the channels: `get`, and `get_mut` with a new value.
pub get_channel : {C : Type 0} → ℕ → List (ℕ × C) → Option C
get_channel id [] = none
get_channel id ((i, c) ∷ l) = let rest = get_channel id l in if i == id then some c else rest

pub set_channel : {C : Type 0} → ℕ → C → List (ℕ × C) → List (ℕ × C)
set_channel id c [] = []
set_channel id c ((i, b) ∷ l) =
    let rest = set_channel id c l in if i == id then (i, c) ∷ l else (i, b) ∷ rest

abbrev pub keys : {C : Type 0} → List (ℕ × C) → List ℕ
keys [] = []
keys ((i, c) ∷ l) = i ∷ keys l

-- An entry put before the one at a position, or at the end.
pub insert_at : {C : Type 0} → ℕ → ℕ × C → List (ℕ × C) → List (ℕ × C)
insert_at n x [] = x ∷ []
insert_at zero x (y ∷ l) = x ∷ y ∷ l
insert_at (suc n) x (y ∷ l) = y ∷ insert_at n x l

-- `insert` of a map: a later value takes the place of an earlier one. Where a new key comes in the
-- order of iteration is up to the map: `place` gives its position for the key and the keys held.
pub insert_channel : {C : Type 0} → (ℕ → List ℕ → ℕ) → ℕ → C → List (ℕ × C) → List (ℕ × C)
insert_channel place id c m =
    if is_member id (keys m) then set_channel id c m else insert_at (place id (keys m)) (id, c) m

-- A method called on every channel, in the order of the map, and its effects.
pub each : {C : Type 0} → (ℕ → C → C × List Effect) → List (ℕ × C) → List (ℕ × C) × List Effect
each f [] = ([], [])
each f ((i, c) ∷ l) = let (c', e) = f i c in let (l', es) = each f l in ((i, c') ∷ l', e ++ es)

-- How `open_serial_fd` and the registration of the descriptor go.
pub data OpenResult : Type 0 where
  no_open : OpenResult
  no_register : ℕ → OpenResult
  opened : ℕ → OpenResult

abbrev pub is_some : Option ℕ → Bool
is_some none = false
is_some (some fd) = true

-- The calls of the registry and of the system among the effects.
pub calls : List Effect → List Effect
calls [] = []
calls (send t c p ∷ l) = calls l
calls (reg_add fd t i ∷ l) = reg_add fd t i ∷ calls l
calls (reg_mod fd t i ∷ l) = reg_mod fd t i ∷ calls l
calls (reg_del fd ∷ l) = reg_del fd ∷ calls l
calls (close_raw fd ∷ l) = close_raw fd ∷ calls l
calls (remove_symlink ∷ l) = remove_symlink ∷ calls l
calls (make_symlink ∷ l) = make_symlink ∷ calls l

-- The frames among the effects, queued in their order.
pub deliver : (List ℕ → ℕ) → List Effect → TxQueue → TxQueue
deliver hash [] q = q
deliver hash (send t c p ∷ l) q = deliver hash l (TxQueue.enqueue q (build_frame hash t c p))
deliver hash (_ ∷ l) q = deliver hash l q

pub resolve_dev : {C : Type 0} → (List ℕ → List ℕ → Option (List ℕ)) → Daemon C → Option (List ℕ)
resolve_dev find_acm d = elim d.usb_id [ none ↦ d.link_dev | some (vid, pid) ↦ find_acm vid pid ]

pub schedule_reopen : {C : Type 0} → ℕ → Daemon C → Daemon C × List Effect
schedule_reopen now d = (
  record d { reopen_at = now + d.reopen_delay; reopen_delay = min (d.reopen_delay * 2) last_delay },
  [],
)

abbrev reregister : Option ℕ → Bool → List Effect
reregister none want_write = []
reregister (some fd) true = reg_mod fd token_link both ∷ []
reregister (some fd) false = reg_mod fd token_link readable ∷ []

pub set_link_write_interest : {C : Type 0} → Bool → Daemon C → Daemon C × List Effect
set_link_write_interest want_write d = (d, reregister d.link_fd want_write)

-- `last_tx = now` and the interest in writing, as several methods end.
pub touch : {C : Type 0} → ℕ → Daemon C → Daemon C × List Effect
unfolding set_link_write_interest
touch now d =
    set_link_write_interest (not (TxQueue.is_empty d.txq)) (record d { last_tx = some now })

pub enqueue_frame : {C : Type 0} → List ℕ → ℕ → Daemon C → Daemon C × List Effect
enqueue_frame frame now d =
    if d.disconnected || not (is_some d.link_fd)
    then (d, [])
    else set_link_write_interest true
        (record d { txq = TxQueue.enqueue d.txq frame; last_tx = some now })

abbrev close_fd : Option ℕ → List Effect
close_fd none = []
close_fd (some fd) = reg_del fd ∷ close_raw fd ∷ []

-- `now.duration_since(last)` is 0 if `last` is later.
abbrev pub timed_out : Option ℕ → ℕ → Bool
timed_out none now = false
timed_out (some last) now = ltb ka_timeout (now - last)

abbrev pub idle : Option ℕ → ℕ → Bool
idle none now = false
idle (some last) now = leb ka_interval (now - last)

-- The methods that call the channels.
module _ {C W : Type 0} (ch : Channel C W) (hash : List ℕ → ℕ) where
  -- `channels.into_iter().map(|c| (c.channel_id(), c)).collect()`
  pub collect : (ℕ → List ℕ → ℕ) → List (ℕ × C) → List C → List (ℕ × C)
  collect place m [] = m
  collect place m (c ∷ cs) = collect place (insert_channel place (ch.channel_id c) c m) cs

  pub new : (ℕ → List ℕ → ℕ) → Option (List ℕ) → Option (List ℕ × List ℕ) → List C → ℕ → Daemon C
  new place link_dev usb_id channels now = record {
    link_dev = link_dev;
    usb_id = usb_id;
    channels = collect place [] channels;
    txq = TxQueue.new;
    parser = Parser.new;
    link_fd = none;
    link_up = false;
    link_bp = false;
    disconnected = true;
    reopen_at = now;
    reopen_delay = first_delay;
    last_rx = none;
    last_tx = none;
  }

  -- `for ch in channels.values_mut() { ch.resume_source_reads(reg) }`, and likewise the others.
  pub resume_all : Daemon C → Daemon C × List Effect
  resume_all d =
      let (cs, l) = each (λ i c. ch.resume_source_reads c) d.channels in
      (record d { channels = cs }, calls l)

  pub pause_all : Daemon C → Daemon C × List Effect
  pause_all d =
      let (cs, l) = each (λ i c. ch.pause_source_reads c) d.channels in
      (record d { channels = cs }, calls l)

  pub disconnect_all : Daemon C → Daemon C × List Effect
  disconnect_all d =
      let (cs, l) = each (λ i c. ch.on_link_disconnect c) d.channels in
      (record d { channels = cs }, calls l)

  -- The methods that are handed the queue.
  pub connect_all : Daemon C → Daemon C × List Effect
  connect_all d =
      let (cs, l) = each (λ i c. ch.on_link_connect c) d.channels in
      (record d { channels = cs; txq = deliver hash l d.txq }, calls l)

  pub tick_all : ℕ → (ℕ → W) → Daemon C → Daemon C × List Effect
  tick_all now ws d =
      let (cs, l) = each (λ i c. ch.tick now (ws i) c) d.channels in
      (record d { channels = cs; txq = deliver hash l d.txq }, calls l)

  pub opened_link : OpenResult → ℕ → ℕ → Daemon C → Daemon C × List Effect
  opened_link no_open now now' d = schedule_reopen now d
  opened_link (no_register fd) now now' d =
      let (d', l) = schedule_reopen now d in (d', close_raw fd ∷ l)
  opened_link (opened fd) now now' d =
      (
        record d {
          link_fd = some fd;
          disconnected = false;
          reopen_delay = first_delay;
          link_bp = false;
          parser = Parser.reset d.parser;
          txq = TxQueue.enqueue (TxQueue.reset d.txq) (build_frame hash f_hello 0 []);
          last_rx = some now;
          last_tx = some now';
        },
        reg_add fd token_link readable ∷ [],
      )
      ▷ set_link_write_interest true

  -- The arguments are `find_acm_by_usb_id`, what the opening of a device gives, and two readings of
  -- the clock.
  pub open_link :
      (List ℕ → List ℕ → Option (List ℕ))
      → (List ℕ → OpenResult)
      → ℕ
      → ℕ
      → Daemon C
      → Daemon C × List Effect
  open_link find_acm open_serial now now' d = elim (resolve_dev find_acm d) [
    | none ↦ schedule_reopen now d
    | some dev ↦ opened_link (open_serial dev) now now' d
  ]

  drop_link : Daemon C → Daemon C × List Effect
  drop_link d = (
    record d { disconnected = true; link_up = false; link_fd = none; txq = TxQueue.reset d.txq },
    close_fd d.link_fd,
  )

  -- `if self.link_bp { ... }` of `close_link`
  release : Daemon C → Daemon C × List Effect
  release d = if d.link_bp then resume_all (record d { link_bp = false }) else (d, [])

  pub close_link : ℕ → Daemon C → Daemon C × List Effect
  close_link now d =
      if d.disconnected
      then (d, [])
      else drop_link d ▷ release ▷ disconnect_all ▷ schedule_reopen now

  relieve : Daemon C → Daemon C × List Effect
  relieve d =
      if d.link_bp && leb (TxQueue.used d.txq) link_low_water
      then resume_all (record d { link_bp = false })
      else (d, [])

  settle : Daemon C → Daemon C × List Effect
  settle d = if TxQueue.is_empty d.txq then set_link_write_interest false d else (d, [])

  after_drain : TxQueue × TxQueue.DrainResult → ℕ → Daemon C → Daemon C × List Effect
  after_drain (q, TxQueue.err) now d = close_link now (record d { txq = q })
  after_drain (q, TxQueue.ok b) now d = relieve (record d { txq = q }) ▷ settle

  -- The first argument is what `write` returns.
  pub link_write : TxQueue.WriteResult → ℕ → Daemon C → Daemon C × List Effect
  link_write w now d = elim d.link_fd [
    | none ↦ (d, [])
    | some fd ↦ after_drain (TxQueue.drain_to_fd d.txq w) now d
  ]

  pub check_bp_high : Daemon C → Daemon C × List Effect
  check_bp_high d =
      if not d.link_bp && leb link_high_water (TxQueue.used d.txq)
      then pause_all (record d { link_bp = true })
      else (d, [])

  pub on_link_up : ℕ → Daemon C → Daemon C × List Effect
  on_link_up now d =
      if d.link_up then (d, []) else connect_all (record d { link_up = true }) ▷ touch now

  -- The rest of F_HELLO after the F_ACK was queued.
  hello : ℕ → Daemon C → Daemon C × List Effect
  hello now d = if d.link_up then connect_all d ▷ touch now else on_link_up now d

  -- A method of the channel `id` that is handed the queue, if there is such a channel.
  pub route : ℕ → (C → C × List Effect) → Daemon C → Daemon C × List Effect
  route id f d = elim (get_channel id d.channels) [
    | none ↦ (d, [])
    | some c ↦
        let (c', l) = f c in
        (record d { channels = set_channel id c' d.channels; txq = deliver hash l d.txq }, calls l)
  ]

  -- Bulk frames are measured against the high-water mark first.
  to_channel : Frame → W → ℕ → Daemon C → Daemon C × List Effect
  to_channel f w now d =
      (if f.ftype == f_data || f.ftype == f_tdata then check_bp_high d else (d, []))
      ▷ route f.channel (ch.on_frame f.ftype f.payload w)
      ▷ touch now

  pub dispatch_frame : Frame → W → ℕ → Daemon C → Daemon C × List Effect
  dispatch_frame f w now d =
      if f.ftype == f_ping
      then enqueue_frame (build_frame hash f_pong 0 []) now d
      else if f.ftype == f_pong
      then (d, [])
      else if f.ftype == f_hello
      then enqueue_frame (build_frame hash f_ack 0 []) now d ▷ hello now
      else if f.ftype == f_ack
      then on_link_up now d
      else to_channel f w now d

  -- The loop over the frames; the streams give the answers and the clock for each of them.
  pub dispatch_all : List Frame → (ℕ → W) → (ℕ → ℕ) → Daemon C → Daemon C × List Effect
  dispatch_all [] ws clock d = (d, [])
  dispatch_all (f ∷ fs) ws clock d =
      dispatch_frame f (ws 0) (clock 0) d ▷ dispatch_all fs (λ k. ws (suc k)) (λ k. clock (suc k))

  after_read : ReadResult → ℕ → (ℕ → W) → (ℕ → ℕ) → Daemon C → Daemon C × List Effect
  after_read would_block now ws clock d = (d, [])
  after_read (got []) now ws clock d = (d, [])
  after_read (got (b ∷ bs)) now ws clock d =
      let (parser, frames) = Parser.feed hash d.parser (b ∷ bs) in
      dispatch_all frames ws clock (record d { last_rx = some now; parser = parser })
  after_read (read_err eio) now ws clock d = close_link now d

  pub link_read : ReadResult → ℕ → (ℕ → W) → (ℕ → ℕ) → Daemon C → Daemon C × List Effect
  link_read r now ws clock d = elim d.link_fd [
    | none ↦ (d, [])
    | some fd ↦ after_read r now ws clock d
  ]

  -- The second reading of the clock is the one of the call that follows.
  pub tick_keepalive : ℕ → ℕ → Daemon C → Daemon C × List Effect
  tick_keepalive now later d =
      if d.disconnected
      then (d, [])
      else if timed_out d.last_rx now
      then close_link later d
      else if d.link_up && (idle d.last_tx now && TxQueue.is_empty d.txq)
      then enqueue_frame (build_frame hash f_ping 0 []) later d
      else (d, [])
