-- ===== src/Channel/Interface.antt =====
-- The `Channel` trait of serialmux-rs/src/channel.rs as a record of operations on the state `C` of a
-- channel. `W` is what the system calls made during a call return. The frames that a method queues
-- and its registry calls are its effects.
use pik.Base.{ℕ, ◌≡◌, Bool, true, false, List, [], ◌∷◌, ◌++◌, Option}
use pik.Channel.Effect.{
  Effect, send, reg_add, reg_mod, reg_del, close_raw, remove_symlink, make_symlink,
}

pub record Channel (C W : Type 0) : Type 0 where
  pub channel_id : C → ℕ
  pub on_frame : ℕ → List ℕ → W → C → C × List Effect
  pub on_link_connect : C → C × List Effect
  pub on_link_disconnect : C → C × List Effect
  pub tick : ℕ → W → C → C × List Effect
  pub next_deadline : C → Option ℕ
  pub handle_event : ℕ → Bool → Bool → W → C → C × List Effect
  pub close : C → C × List Effect
  pub pause_source_reads : C → C × List Effect
  pub resume_source_reads : C → C × List Effect

-- No frame is among the effects.
abbrev pub NoFrame : List Effect → Type 0
NoFrame [] = Unit {0}
NoFrame (send t c p ∷ l) = ⊥
NoFrame (reg_add fd t i ∷ l) = NoFrame l
NoFrame (reg_mod fd t i ∷ l) = NoFrame l
NoFrame (reg_del fd ∷ l) = NoFrame l
NoFrame (close_raw fd ∷ l) = NoFrame l
NoFrame (remove_symlink ∷ l) = NoFrame l
NoFrame (make_symlink ∷ l) = NoFrame l

pub NoFrame-append : (l m : List Effect) → NoFrame l → NoFrame m → NoFrame (l ++ m)
NoFrame-append [] m h k = k
NoFrame-append (send t c p ∷ l) m h k = absurd h
NoFrame-append (reg_add fd t i ∷ l) m h k = NoFrame-append l m h k
NoFrame-append (reg_mod fd t i ∷ l) m h k = NoFrame-append l m h k
NoFrame-append (reg_del fd ∷ l) m h k = NoFrame-append l m h k
NoFrame-append (close_raw fd ∷ l) m h k = NoFrame-append l m h k
NoFrame-append (remove_symlink ∷ l) m h k = NoFrame-append l m h k
NoFrame-append (make_symlink ∷ l) m h k = NoFrame-append l m h k

-- What the daemon relies on. Whether a channel reads its source is changed by the two methods for
-- it and by no other, and these queue no frame, whether the link is up or down; a channel for which
-- the link is down stays so until it is told of the link or gets a frame, and queues nothing when its
-- `tick` and its `handle_event` are called.
pub record ChannelLaws {C W : Type 0} (ch : Channel C W) (paused : C → Bool) (Down : C → Type 0)
    : Type 0 where
  pub on_frame-paused :
      (t : ℕ) (p : List ℕ) (w : W) (c : C) → paused (ch.on_frame t p w c).0 ≡ paused c
  pub on_link_connect-paused : (c : C) → paused (ch.on_link_connect c).0 ≡ paused c
  pub on_link_disconnect-paused : (c : C) → paused (ch.on_link_disconnect c).0 ≡ paused c
  pub tick-paused : (now : ℕ) (w : W) (c : C) → paused (ch.tick now w c).0 ≡ paused c
  pub handle_event-paused :
      (token : ℕ) (rd wr : Bool) (w : W) (c : C)
      → paused (ch.handle_event token rd wr w c).0 ≡ paused c
  pub pause-paused : (c : C) → paused (ch.pause_source_reads c).0 ≡ true
  pub resume-paused : (c : C) → paused (ch.resume_source_reads c).0 ≡ false
  pub close-paused : (c : C) → paused (ch.close c).0 ≡ paused c
  pub pause-NoFrame : (c : C) → NoFrame (ch.pause_source_reads c).1
  pub resume-NoFrame : (c : C) → NoFrame (ch.resume_source_reads c).1
  pub pause-Down : (c : C) → Down c → Down (ch.pause_source_reads c).0
  pub on_link_disconnect-Down : (c : C) → Down (ch.on_link_disconnect c).0
  pub resume-Down : (c : C) → Down c → Down (ch.resume_source_reads c).0
  pub tick-Down :
      (now : ℕ) (w : W) (c : C) → Down c → Down (ch.tick now w c).0 × NoFrame (ch.tick now w c).1
  pub handle_event-Down :
      (token : ℕ) (rd wr : Bool) (w : W) (c : C)
      → Down c
      → Down (ch.handle_event token rd wr w c).0 × NoFrame (ch.handle_event token rd wr w c).1
