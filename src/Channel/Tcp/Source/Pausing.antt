-- ===== src/Channel/Tcp/Source/Pausing.antt =====
-- What pausing and resuming a `TcpSourceChannel` leave alone, and what closing it does.
use pik.Base.{
  ℕ, zero, suc, ◌-◌, ◌≡◌, sym, subst, true, false, arith, Option-cases, Bool-cases, inl, inr,
}
use pik.Channel.Token.{max_tcp_conns}
use pik.Channel.Interface.{NoFrame, NoFrame-append}
use pik.Channel.Tcp.{src_conn_update_interest, get_slot}
use pik.Channel.Tcp.Source.{
  TcpSourceChannel, update_conn_interest, close_all, update_from, pause_source_reads,
  resume_source_reads, close,
}
use pik.Channel.Tcp.Source.Laws.{Down, update_closed, close_from_Steady}

update-NoFrame : (slot : ℕ) (c : TcpSourceChannel) → NoFrame (update_conn_interest slot c).1
unfolding update_conn_interest src_conn_update_interest
update-NoFrame slot c = elim (Option-cases (get_slot c.conns slot)) [
  | inl e ↦ ground arith
  | inr (conn, e) ↦ ground arith
]

update_from-NoFrame : (k : ℕ) (c : TcpSourceChannel) → NoFrame (update_from k c).1
unfolding update_from
update_from-NoFrame zero c = tt
update_from-NoFrame (suc k) c =
    let p = update_conn_interest (max_tcp_conns - suc k) c in
    NoFrame-append p.1 (update_from k p.0).1 (update-NoFrame (max_tcp_conns - suc k) c)
      (update_from-NoFrame k p.0)

pub pause-NoFrame : (c : TcpSourceChannel) → NoFrame (pause_source_reads c).1
unfolding pause_source_reads
pause-NoFrame c = elim (Bool-cases c.bp_paused) [
  | inl e ↦ rw (e, pause_source_reads) tt
  | inr e ↦
      rw (e, pause_source_reads) (update_from-NoFrame max_tcp_conns (record c { bp_paused = true }))
]

pub pause-Down : (c : TcpSourceChannel) → Down c → Down (pause_source_reads c).0
unfolding pause_source_reads
pause-Down c h = elim (Bool-cases c.bp_paused) [
  | inl e ↦ rw (e, pause_source_reads) h
  | inr e ↦
      let c' : TcpSourceChannel = record c { bp_paused = true } in
      rw (e, pause_source_reads)
        (subst Down (sym (update_closed max_tcp_conns c' (omega arith) h.1)) h)
]

pub resume-NoFrame : (c : TcpSourceChannel) → NoFrame (resume_source_reads c).1
unfolding resume_source_reads
resume-NoFrame c = elim (Bool-cases c.bp_paused) [
  | inl e ↦
      rw (e, resume_source_reads)
        (update_from-NoFrame max_tcp_conns (record c { bp_paused = false }))
  | inr e ↦ rw (e, resume_source_reads) tt
]

pub close-paused : (c : TcpSourceChannel) → (close c).0.bp_paused ≡ c.bp_paused
unfolding close close_all
close-paused c = (close_from_Steady max_tcp_conns c).0
