-- ===== src/Channel/Any.antt =====
-- The four channels behind the `Channel` trait, as the daemon's map holds them
-- (`Box<dyn Channel>` of serialmux-rs/src/channel.rs).
pub mod Laws
use pik.Base.{ℕ, ◌≡◌, refl, ap, sym, ◌∙◌, Bool, true, false, List, [], Option, none, some}
use pik.Channel.Effect.{Effect, ReadResult, WriteResult}
use pik.Channel.Interface.{Channel, ChannelLaws, NoFrame}
use pik.Channel.Mcu
use pik.Channel.Mcu.{McuChannel}
use pik.Channel.Pty
use pik.Channel.Pty.{PtyChannel}
use pik.Channel.Tcp.{StreamRead, StreamWrite}
use pik.Channel.Tcp.Source
use pik.Channel.Tcp.Source.{TcpSourceChannel, Accepted}
use pik.Channel.Tcp.Source.Laws as SourceLaws
use pik.Channel.Tcp.Dest
use pik.Channel.Tcp.Dest.{TcpDestChannel, Connect}
use pik.Channel.Tcp.Dest.Laws as DestLaws

pub data AnyChannel : Type 0 where
  mcu : McuChannel → AnyChannel
  pty : PtyChannel → AnyChannel
  source : TcpSourceChannel → AnyChannel
  dest : TcpDestChannel → AnyChannel

-- What the system calls of one call of a method return, whichever of them it makes.
pub record Answers : Type 0 where
  pub read : ReadResult
  pub write : WriteResult
  pub now : ℕ
  pub opened : Option ℕ
  pub pair : Pty.Opened
  pub connect : Connect
  pub confirmed : Bool
  pub accepted : List Accepted
  pub reads : List StreamRead
  pub wrote : StreamWrite

abbrev wrap : {A : Type 0} → (A → AnyChannel) → A × List Effect → AnyChannel × List Effect
wrap f (c, l) = (f c, l)

pub on_frame : ℕ → List ℕ → Answers → AnyChannel → AnyChannel × List Effect
on_frame t p a (mcu c) = wrap mcu (Mcu.on_frame t p a.write c)
on_frame t p a (pty c) = wrap pty (Pty.on_frame t p a.pair a.write c)
on_frame t p a (source c) = wrap source (Source.on_frame t p c)
on_frame t p a (dest c) = wrap dest (Dest.on_frame t p a.connect c)

pub on_link_connect : AnyChannel → AnyChannel × List Effect
on_link_connect (mcu c) = wrap mcu (Mcu.on_link_connect c)
on_link_connect (pty c) = wrap pty (Pty.on_link_connect c)
on_link_connect (source c) = wrap source (Source.on_link_connect c)
on_link_connect (dest c) = wrap dest (Dest.on_link_connect c)

pub on_link_disconnect : AnyChannel → AnyChannel × List Effect
on_link_disconnect (mcu c) = wrap mcu (Mcu.on_link_disconnect c)
on_link_disconnect (pty c) = wrap pty (Pty.on_link_disconnect c)
on_link_disconnect (source c) = wrap source (Source.on_link_disconnect c)
on_link_disconnect (dest c) = wrap dest (Dest.on_link_disconnect c)

-- Only a UART has a timer.
pub tick : ℕ → Answers → AnyChannel → AnyChannel × List Effect
tick now a (mcu c) = wrap mcu (Mcu.tick now a.opened a.now c)
tick now a (pty c) = (pty c, [])
tick now a (source c) = (source c, [])
tick now a (dest c) = (dest c, [])

pub next_deadline : AnyChannel → Option ℕ
next_deadline (mcu c) = Mcu.next_deadline c
next_deadline (pty c) = none
next_deadline (source c) = none
next_deadline (dest c) = none

pub handle_event : ℕ → Bool → Bool → Answers → AnyChannel → AnyChannel × List Effect
handle_event token rd wr a (mcu c) = wrap mcu (Mcu.handle_event rd wr a.read a.now a.write c)
handle_event token rd wr a (pty c) = wrap pty (Pty.handle_event rd wr a.read a.write c)
handle_event token rd wr a (source c) =
    wrap source (Source.handle_event token rd wr a.accepted a.reads a.wrote c)
handle_event token rd wr a (dest c) =
    wrap dest (Dest.handle_event token rd wr a.confirmed a.wrote a.reads c)

pub close : AnyChannel → AnyChannel × List Effect
close (mcu c) = wrap mcu (Mcu.close c)
close (pty c) = wrap pty (Pty.close c)
close (source c) = wrap source (Source.close c)
close (dest c) = wrap dest (Dest.close c)

pub pause_source_reads : AnyChannel → AnyChannel × List Effect
pause_source_reads (mcu c) = wrap mcu (Mcu.pause_source_reads c)
pause_source_reads (pty c) = wrap pty (Pty.pause_source_reads c)
pause_source_reads (source c) = wrap source (Source.pause_source_reads c)
pause_source_reads (dest c) = wrap dest (Dest.pause_source_reads c)

pub resume_source_reads : AnyChannel → AnyChannel × List Effect
resume_source_reads (mcu c) = wrap mcu (Mcu.resume_source_reads c)
resume_source_reads (pty c) = wrap pty (Pty.resume_source_reads c)
resume_source_reads (source c) = wrap source (Source.resume_source_reads c)
resume_source_reads (dest c) = wrap dest (Dest.resume_source_reads c)

abbrev pub channel_id : AnyChannel → ℕ
channel_id (mcu c) = c.ch_id
channel_id (pty c) = c.ch_id
channel_id (source c) = c.ch_id
channel_id (dest c) = c.ch_id

unfoldable pub any_channel : Channel AnyChannel Answers
unfolding on_frame on_link_connect on_link_disconnect tick next_deadline handle_event close
    pause_source_reads resume_source_reads
any_channel = record {
  channel_id = channel_id;
  on_frame = on_frame;
  on_link_connect = on_link_connect;
  on_link_disconnect = on_link_disconnect;
  tick = tick;
  next_deadline = next_deadline;
  handle_event = handle_event;
  close = close;
  pause_source_reads = pause_source_reads;
  resume_source_reads = resume_source_reads;
}

abbrev pub is_paused : AnyChannel → Bool
is_paused (mcu c) = c.bp_paused
is_paused (pty c) = c.bp_paused
is_paused (source c) = c.bp_paused
is_paused (dest c) = c.bp_paused

abbrev pub IsDown : AnyChannel → Type 0
IsDown (mcu c) = c.link_up ≡ false
IsDown (pty c) = c.master_fd ≡ none
IsDown (source c) = SourceLaws.Down c
IsDown (dest c) = DestLaws.Down c
