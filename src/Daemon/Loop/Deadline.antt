-- ===== src/Daemon/Loop/Deadline.antt =====
-- How long the event loop sleeps, and how long it waits before it opens the link again.
use pik.Base.{
  ℕ, ◌+◌, ◌≤◌, min, Bool, true, false, List, [], ◌∷◌, Option, none, some, max, Bool-cases, inl, inr,
  arith,
}
use pik.Channel.Interface.{Channel}
use pik.Daemon.{Daemon, max_tick, ka_interval, ka_timeout}
use pik.Daemon.Loop.{sooner, link_deadline, channels_deadline, next_timeout}

-- The loop sleeps until `t` at the latest, or not at all if `t` has passed.
abbrev pub WakesBy : Option ℕ → ℕ → ℕ → ℕ → Type 0
WakesBy none after now timeout = Unit {0}
WakesBy (some t) after now timeout = now + timeout ≤ max now (t + after)

-- What next_timeout heeds of the link, where the Booleans tell whether it is closed and up.
abbrev pub WakesForLink : {C : Type 0} → Bool → Bool → ℕ → ℕ → Daemon C → Type 0
WakesForLink true up now timeout d = WakesBy (some d.reopen_at) 0 now timeout
WakesForLink false true now timeout d =
    WakesBy d.last_tx ka_interval now timeout × WakesBy d.last_rx ka_timeout now timeout
WakesForLink false false now timeout d = Unit {0}

abbrev pub WakesForChannels : {C : Type 0} → (C → Option ℕ) → List (ℕ × C) → ℕ → ℕ → Type 0
WakesForChannels deadline [] now timeout = Unit {0}
WakesForChannels deadline ((i, c) ∷ l) now timeout =
    WakesBy (deadline c) 0 now timeout × WakesForChannels deadline l now timeout

sooner-le : (o : Option ℕ) (after deadline : ℕ) → sooner o after deadline ≤ deadline
sooner-le none after deadline = omega arith
sooner-le (some t) after deadline = omega arith

wakes :
    (o : Option ℕ) (after now timeout deadline : ℕ)
    → now + timeout ≤ max now (sooner o after deadline)
    → WakesBy o after now timeout
wakes none after now timeout deadline h = tt
wakes (some t) after now timeout deadline h = omega arith

module _ {C W : Type 0} (ch : Channel C W) (hash : List ℕ → ℕ) where
  channels-le : (l : List (ℕ × C)) (deadline : ℕ) → channels_deadline ch hash l deadline ≤ deadline
  unfolding channels_deadline
  channels-le [] deadline = omega arith
  channels-le ((i, c) ∷ l) deadline =
      let one = channels-le l (sooner (ch.next_deadline c) 0 deadline) in
      let two = sooner-le (ch.next_deadline c) 0 deadline in omega arith

  channels_wake :
      (l : List (ℕ × C)) (now timeout deadline : ℕ)
      → now + timeout ≤ max now (channels_deadline ch hash l deadline)
      → WakesForChannels ch.next_deadline l now timeout
  unfolding channels_deadline
  channels_wake [] now timeout deadline h = tt
  channels_wake ((i, c) ∷ l) now timeout deadline h =
      let next = sooner (ch.next_deadline c) 0 deadline in
      (
        wakes (ch.next_deadline c) 0 now timeout deadline
            (let b = channels-le l next in omega arith),
        channels_wake l now timeout next h,
      )

  link_wakes :
      (d : Daemon C) (now timeout : ℕ)
      → now + timeout ≤ max now (link_deadline now d)
      → WakesForLink d.disconnected d.link_up now timeout d
  unfolding link_deadline
  link_wakes d now timeout h =
      let s = sooner d.last_tx ka_interval (now + max_tick) in
      let rx = sooner d.last_rx ka_timeout s in
      let below = sooner-le d.last_rx ka_timeout s in
      elim (Bool-cases d.disconnected) [
        | inl e ↦ rw e (
            let k : now + timeout ≤ max now (min (now + max_tick) d.reopen_at) =
              ground (arith, h) in
            omega arith)
        | inr e ↦ elim (Bool-cases d.link_up) [
          | inl u ↦
              let k : now + timeout ≤ max now rx = ground (arith, h) in
              rw e (
                rw u (
                  wakes d.last_tx ka_interval now timeout (now + max_tick) (omega arith),
                  wakes d.last_rx ka_timeout now timeout s k,
                ))
          | inr u ↦ rw e (rw u tt)
        ]
      ]

  timeout-le :
      (d : Daemon C) (now : ℕ)
      → now + next_timeout ch hash now d
        ≤ max now (channels_deadline ch hash d.channels (link_deadline now d))
  unfolding next_timeout
  timeout-le d now = ground arith

  link-le : (d : Daemon C) (now : ℕ) → link_deadline now d ≤ now + max_tick
  unfolding link_deadline
  link-le d now =
      let a = sooner-le d.last_rx ka_timeout (sooner d.last_tx ka_interval (now + max_tick)) in
      let b = sooner-le d.last_tx ka_interval (now + max_tick) in ground arith

  -- The loop sleeps a second at most, and never past the time at which a closed link is to be opened
  -- again, at which an open link that is up is due a ping or is given up, or at which a channel wants
  -- its timer; if that time has passed, it does not sleep.
  pub next_timeout_lem :
      (d : Daemon C) (now : ℕ)
      → (next_timeout ch hash now d ≤ max_tick)
        × WakesForLink d.disconnected d.link_up now (next_timeout ch hash now d) d
        × WakesForChannels ch.next_deadline d.channels now (next_timeout ch hash now d)
  next_timeout_lem d now =
      let t = next_timeout ch hash now d in
      let all = timeout-le d now in
      let below = channels-le d.channels (link_deadline now d) in
      let cap = link-le d now in
      (
        omega arith,
        link_wakes d now t (omega arith),
        channels_wake d.channels now t (link_deadline now d) all,
      )
