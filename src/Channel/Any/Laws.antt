-- ===== src/Channel/Any/Laws.antt =====
-- The four channels obey the laws that the daemon relies on.
use pik.Base.{subst, ℕ, ◌≡◌, refl, ap, sym, ◌∙◌, Bool, true, false, List}
use pik.Channel.Effect.{Effect}
use pik.Channel.Interface.{ChannelLaws, NoFrame}
use pik.Channel.Mcu.Laws as McuLaws
use pik.Channel.Pty.{PtyChannel}
use pik.Channel.Pty.Laws as PtyLaws
use pik.Channel.Tcp.Source.Laws as SourceLaws
use pik.Channel.Tcp.Source.Pausing as SourcePausing
use pik.Channel.Tcp.Dest.{TcpDestChannel}
use pik.Channel.Tcp.Dest.Laws as DestLaws
use pik.Channel.Tcp.Dest.Pausing as DestPausing
use pik.Channel.Any.{
  AnyChannel, Answers, mcu, pty, source, dest, on_frame, on_link_connect, on_link_disconnect, tick,
  handle_event, pause_source_reads, resume_source_reads, close, any_channel, is_paused, IsDown,
}

frame_law :
    (t : ℕ) (p : List ℕ) (a : Answers) (c : AnyChannel)
    → is_paused (on_frame t p a c).0 ≡ is_paused c
unfolding on_frame
frame_law t p a (mcu c) = (McuLaws.frame_Calm t p a.write c).0
frame_law t p a (pty c) = PtyLaws.frame_Steady t p a.pair a.write c
frame_law t p a (source c) = (SourceLaws.frame_Steady t p c).0
frame_law t p a (dest c) = DestLaws.frame_Steady t p a.connect c

connect_law : (c : AnyChannel) → is_paused (on_link_connect c).0 ≡ is_paused c
unfolding on_link_connect
connect_law (mcu c) = McuLaws.connect-paused c
connect_law (pty c) = (PtyLaws.connect_lem c).0
connect_law (source c) = SourceLaws.connect-paused c
connect_law (dest c) = (DestLaws.connect_lem c).0

disconnect_law :
    (c : AnyChannel)
    → (is_paused (on_link_disconnect c).0 ≡ is_paused c) × IsDown (on_link_disconnect c).0
unfolding on_link_disconnect
disconnect_law (mcu c) = McuLaws.disconnect_lem c
disconnect_law (pty c) = let m = PtyLaws.connect_lem c in (m.1, m.2)
disconnect_law (source c) = SourceLaws.disconnect_lem c
disconnect_law (dest c) = let m = DestLaws.connect_lem c in (m.1, m.2)

tick_law : (now : ℕ) (a : Answers) (c : AnyChannel) → is_paused (tick now a c).0 ≡ is_paused c
unfolding tick
tick_law now a (mcu c) = (McuLaws.tick_Calm now a.opened a.now c).0
tick_law now a (pty c) = refl
tick_law now a (source c) = refl
tick_law now a (dest c) = refl

tick-IsDown :
    (now : ℕ) (a : Answers) (c : AnyChannel)
    → IsDown c
    → IsDown (tick now a c).0 × NoFrame (tick now a c).1
unfolding tick
tick-IsDown now a (mcu c) h = let m = McuLaws.tick_Calm now a.opened a.now c in (m.1 ∙ h, m.2 h)
tick-IsDown now a (pty c) h = (h, tt)
tick-IsDown now a (source c) h = (h, tt)
tick-IsDown now a (dest c) h = (h, tt)

event_law :
    (token : ℕ) (rd wr : Bool) (a : Answers) (c : AnyChannel)
    → is_paused (handle_event token rd wr a c).0 ≡ is_paused c
unfolding handle_event
event_law token rd wr a (mcu c) = (McuLaws.event_Calm rd wr a.read a.now a.write c).0
event_law token rd wr a (pty c) = PtyLaws.event_Steady rd wr a.read a.write c
event_law token rd wr a (source c) =
    (SourceLaws.event_Steady token rd wr a.accepted a.reads a.wrote c).0
event_law token rd wr a (dest c) = DestLaws.event_Steady token rd wr a.confirmed a.wrote a.reads c

event-IsDown :
    (token : ℕ) (rd wr : Bool) (a : Answers) (c : AnyChannel)
    → IsDown c
    → IsDown (handle_event token rd wr a c).0 × NoFrame (handle_event token rd wr a c).1
unfolding handle_event
event-IsDown token rd wr a (mcu c) h =
    let m = McuLaws.event_Calm rd wr a.read a.now a.write c in (m.1 ∙ h, m.2 h)
event-IsDown token rd wr a (pty c) h =
    let same = PtyLaws.event_closed rd wr a.read a.write c h in
    (
      ap (λ (p : PtyChannel × List Effect). p.0.master_fd) same ∙ h,
      subst (λ (p : PtyChannel × List Effect). NoFrame p.1) (sym same) tt,
    )
event-IsDown token rd wr a (source c) h =
    let m = SourceLaws.event-Down token rd wr a.accepted a.reads a.wrote c h in
    (subst SourceLaws.Down (sym m.0) h, m.1)
event-IsDown token rd wr a (dest c) h =
    let same = DestLaws.event-Down token rd wr a.confirmed a.wrote a.reads c h in
    (
      subst (λ (p : TcpDestChannel × List Effect). DestLaws.Down p.0) (sym same) h,
      subst (λ (p : TcpDestChannel × List Effect). NoFrame p.1) (sym same) tt,
    )

pause_law : (c : AnyChannel) → is_paused (pause_source_reads c).0 ≡ true
unfolding pause_source_reads
pause_law (mcu c) = McuLaws.pause-paused c
pause_law (pty c) = PtyLaws.pause-paused c
pause_law (source c) = SourceLaws.pause-paused c
pause_law (dest c) = DestLaws.pause-paused c

resume_law : (c : AnyChannel) → is_paused (resume_source_reads c).0 ≡ false
unfolding resume_source_reads
resume_law (mcu c) = (McuLaws.resume_lem c).0
resume_law (pty c) = (PtyLaws.resume_lem c).0
resume_law (source c) = SourceLaws.resume-paused c
resume_law (dest c) = DestLaws.resume-paused c

resume-IsDown : (c : AnyChannel) → IsDown c → IsDown (resume_source_reads c).0
unfolding resume_source_reads
resume-IsDown (mcu c) h = (McuLaws.resume_lem c).1 ∙ h
resume-IsDown (pty c) h = (PtyLaws.resume_lem c).1 ∙ h
resume-IsDown (source c) h = SourceLaws.resume-Down c h
resume-IsDown (dest c) h = DestLaws.resume-Down c h

close_law : (c : AnyChannel) → is_paused (close c).0 ≡ is_paused c
unfolding close
close_law (mcu c) = McuLaws.close-paused c
close_law (pty c) = PtyLaws.close-paused c
close_law (source c) = SourcePausing.close-paused c
close_law (dest c) = DestPausing.close-paused c

pause_silent : (c : AnyChannel) → NoFrame (pause_source_reads c).1
unfolding pause_source_reads
pause_silent (mcu c) = (McuLaws.pause_lem c).1
pause_silent (pty c) = (PtyLaws.pause_lem c).1
pause_silent (source c) = SourcePausing.pause-NoFrame c
pause_silent (dest c) = DestPausing.pause-NoFrame c

resume_silent : (c : AnyChannel) → NoFrame (resume_source_reads c).1
unfolding resume_source_reads
resume_silent (mcu c) = McuLaws.resume-NoFrame c
resume_silent (pty c) = PtyLaws.resume-NoFrame c
resume_silent (source c) = SourcePausing.resume-NoFrame c
resume_silent (dest c) = DestPausing.resume-NoFrame c

pause-IsDown : (c : AnyChannel) → IsDown c → IsDown (pause_source_reads c).0
unfolding pause_source_reads
pause-IsDown (mcu c) h = (McuLaws.pause_lem c).0 ∙ h
pause-IsDown (pty c) h = (PtyLaws.pause_lem c).0 ∙ h
pause-IsDown (source c) h = SourcePausing.pause-Down c h
pause-IsDown (dest c) h = DestPausing.pause-Down c h

pub any_channel_laws : ChannelLaws any_channel is_paused IsDown
unfolding any_channel
any_channel_laws = record {
  on_frame-paused = frame_law;
  on_link_connect-paused = connect_law;
  on_link_disconnect-paused = λ c. (disconnect_law c).0;
  tick-paused = tick_law;
  handle_event-paused = event_law;
  pause-paused = pause_law;
  resume-paused = resume_law;
  close-paused = close_law;
  pause-NoFrame = pause_silent;
  resume-NoFrame = resume_silent;
  pause-Down = pause-IsDown;
  on_link_disconnect-Down = λ c. (disconnect_law c).1;
  resume-Down = resume-IsDown;
  tick-Down = tick-IsDown;
  handle_event-Down = event-IsDown;
}
