-- ===== src/Protocol.antt =====
-- serialmux-rs/src/protocol.rs: the constants of the link and the frame builder. The parser and
-- the transmit queue are the child modules.
pub mod Bytes
pub mod Parser
pub mod TxQueue
use pik.Base.{ℕ, ◌+◌, ◌*◌, ◌%◌, List, [], ◌∷◌, ◌++◌, length, ltb, if◌then◌else◌}
use Bytes.{u16_le_bytes, u32_le_bytes}

abbrev pub hdr_size : ℕ
hdr_size = 6

abbrev pub crc_size : ℕ
crc_size = 4

abbrev pub max_payload : ℕ
max_payload = 16 * 1024

abbrev pub max_frame : ℕ
max_frame = hdr_size + max_payload + crc_size

abbrev pub f_data : ℕ
f_data = 0x01

abbrev pub f_flush : ℕ
f_flush = 0x02

abbrev pub f_ready : ℕ
f_ready = 0x03

abbrev pub f_hello : ℕ
f_hello = 0x05

abbrev pub f_ack : ℕ
f_ack = 0x06

abbrev pub f_tconn : ℕ
f_tconn = 0x10

abbrev pub f_tdata : ℕ
f_tdata = 0x11

abbrev pub f_tclose : ℕ
f_tclose = 0x12

abbrev pub f_ping : ℕ
f_ping = 0x20

abbrev pub f_pong : ℕ
f_pong = 0x21

abbrev pub klipper_sync : ℕ
klipper_sync = 0x7E

abbrev pub link_high_water : ℕ
link_high_water = 512 * 1024

abbrev pub link_low_water : ℕ
link_low_water = 256 * 1024

abbrev pub link_txbuf_size : ℕ
link_txbuf_size = link_high_water + max_frame + 64

abbrev pub parser_buf_cap : ℕ
parser_buf_cap = max_frame + 64

-- What a frame carries, and what the parser's callback is given.
pub record Frame : Type 0 where
  pub ftype : ℕ
  pub channel : ℕ
  pub payload : List ℕ

-- `crc32fast::hash` is the argument `hash`. An oversize payload gives no bytes at all.
module _ (hash : List ℕ → ℕ) where
  unfoldable pub build_frame : ℕ → ℕ → List ℕ → List ℕ
  build_frame ftype channel payload =
      if ltb max_payload (length payload)
      then []
      else (0xAA ∷ 0x55 ∷ ftype ∷ channel ∷ [])
        ++ (u16_le_bytes (length payload % 65536) ++ (payload ++ u32_le_bytes (hash payload)))
