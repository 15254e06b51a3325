-- ===== src/Channel/Token.antt =====
-- The token layout of serialmux-rs/src/channel.rs.
use pik.Base.{
  ℕ, ◌+◌, ◌-◌, ◌*◌, ◌/◌, ◌%◌, ◌≤◌, ◌<◌, ◌≡◌, Option, none, some, leb, ◌==◌, if◌then◌else◌, arith,
}

abbrev pub token_link : ℕ
token_link = 0

abbrev pub tcp_base : ℕ
tcp_base = 64

abbrev pub max_channel_id : ℕ
max_channel_id = 62

abbrev pub max_tcp_conns : ℕ
max_tcp_conns = 256

unfoldable pub primary_token : ℕ → ℕ
primary_token ch_id = ch_id + 1

unfoldable pub tcp_slot_token : ℕ → ℕ → ℕ
tcp_slot_token ch_id slot = tcp_base + ch_id * max_tcp_conns + slot

-- A token between 64 and the last that a channel uses belongs to a connection; `as u8` takes
-- nothing off ids up to 62.
unfoldable pub channel_id_for_token : ℕ → Option ℕ
channel_id_for_token token =
    let id = (token - tcp_base) / max_tcp_conns in
    if token == 0
    then none
    else if leb token 63
    then some ((token - 1) % 256)
    else if leb id max_channel_id
    then some (id % 256)
    else none

-- `(token.0 - TCP_BASE) % MAX_TCP_CONNS`
unfoldable pub slot_of_token : ℕ → ℕ
slot_of_token token = (token - tcp_base) % max_tcp_conns

-- Every token leads back to the channel and the slot that it was made for, the primary token and
-- the tokens of the slots of one channel are different, and none is the token of the link.
-- The channel id is at most 62 and the slot below 256.
pub channel_id-token :
    (ch_id slot : ℕ)
    → ch_id ≤ max_channel_id
    → slot < max_tcp_conns
    → (channel_id_for_token (primary_token ch_id) ≡ some ch_id)
      × (channel_id_for_token (tcp_slot_token ch_id slot) ≡ some ch_id)
      × (slot_of_token (tcp_slot_token ch_id slot) ≡ slot)
      × (primary_token ch_id < tcp_slot_token ch_id slot)
      × (channel_id_for_token token_link ≡ none)
unfolding channel_id_for_token primary_token tcp_slot_token slot_of_token
channel_id-token ch_id slot h k =
    (ground arith, ground arith, omega arith, omega arith, ground arith)
