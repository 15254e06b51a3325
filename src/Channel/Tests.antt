-- ===== src/Channel/Tests.antt =====
-- The tokens, the pieces of a read and the source channel at concrete inputs.
use pik.Base.{◌≡◌, ◌<◌, ◌+◌, ◌*◌, refl, true, false, List, [], ◌∷◌, none, some, arith, replicate}
use pik.Protocol.{f_tconn, f_tdata, f_tclose}
use pik.Channel.Token.{
  max_tcp_conns, token_link, primary_token, tcp_slot_token, channel_id_for_token, slot_of_token,
  channel_id-token,
}
use pik.Channel.Tcp.{pack_cid, StreamRead, StreamWrite}
use pik.Channel.Tcp.Slots.{Bounded}
use pik.Channel.Tcp.Dest
use pik.Channel.Tcp.Dest.Bound.{handle_all-Bounded_dest}
use pik.Channel.Tcp.Source.{
  TcpSourceChannel, Event, frame, link_connect, io, pause, handle_all, new,
}
use pik.Channel.Tcp.Source.Bound.{handle_all-Bounded}

slot_token : tcp_slot_token 2 5 ≡ 64 + 2 * 256 + 5
unfolding tcp_slot_token
slot_token = refl

-- A token above the last of channel 62 belongs to none.
foreign_token : channel_id_for_token (64 + 63 * 256) ≡ none
unfolding channel_id_for_token
foreign_token = refl

cid_5 : pack_cid 261 ≡ 5 ∷ 1 ∷ []
unfolding pack_cid
cid_5 = refl

channel_id-token_example :
    (channel_id_for_token (primary_token 62) ≡ some 62)
    × (channel_id_for_token (tcp_slot_token 62 255) ≡ some 62)
    × (slot_of_token (tcp_slot_token 62 255) ≡ 255)
    × (primary_token 62 < tcp_slot_token 62 255)
    × (channel_id_for_token token_link ≡ none)
channel_id-token_example = channel_id-token 62 255 (omega arith) (omega arith)

abbrev source : TcpSourceChannel
source = record {
  ch_id = 4;
  listener = 10;
  conns = replicate max_tcp_conns none;
  next_slot = 255;
  link_up = true;
  bp_paused = false;
}

abbrev history : List Event
history =
    link_connect
    ∷ io 5 true false (record { stream = 20; registers = true } ∷ []) [] StreamWrite.would_block
    ∷ frame f_tdata (0 ∷ 0 ∷ 1 ∷ 2 ∷ 3 ∷ [])
    ∷ pause
    ∷ io 1088 false true [] [] (StreamWrite.wrote 2)
    ∷ frame f_tclose (0 ∷ 0 ∷ [])
    ∷ []

handle_all-Bounded_example : Bounded (handle_all history (new 4 10).0).0.conns
handle_all-Bounded_example = handle_all-Bounded 4 10 history

abbrev dest_history : List Dest.Event
dest_history =
    Dest.frame f_tconn (3 ∷ 0 ∷ []) (Dest.started 30)
    ∷ Dest.frame f_tdata (3 ∷ 0 ∷ 1 ∷ 2 ∷ []) Dest.refused
    ∷ Dest.io 1091 true true true (StreamWrite.wrote 1) (StreamRead.bytes (9 ∷ []) ∷ [])
    ∷ Dest.pause
    ∷ Dest.frame f_tclose (3 ∷ 0 ∷ []) Dest.refused
    ∷ []

handle_all-Bounded_dest_example : Bounded (Dest.handle_all dest_history (Dest.new 4)).0.conns
handle_all-Bounded_dest_example = handle_all-Bounded_dest 4 dest_history
