-- ===== src/Windlass/Framing.antt =====
-- serialmux-rs/src/windlass/framing.rs. A codec takes bytes off the front of a `BytesMut`, which is
-- the list `src`; `advance` is `drop`, `split_to` is `take` and `drop`, and `reserve` changes no
-- byte. Each `decode` returns the item, if there is one, with what is left in `src`.
pub mod TunnelCodec
pub mod PayloadTunnelCodec
pub mod KlipperFramer
mod Tests
use pik.Base.{
  ℕ, zero, suc, ◌-◌, ◌≤◌, ◌≡◌, ◌∙◌, false, take, length-take, get_or-take, arith, Bool, ◌||◌, List,
  [], ◌∷◌, length, get_or, ltb,
}

abbrev pub message_length_min : ℕ
message_length_min = 5

abbrev pub message_length_max : ℕ
message_length_max = 64

abbrev pub message_value_sync : ℕ
message_value_sync = 0x7E

abbrev pub ctrl_ch : ℕ
ctrl_ch = 0xFF

abbrev pub ctrl_dict_frag : ℕ
ctrl_dict_frag = 0x01

abbrev pub ctrl_dict_done : ℕ
ctrl_dict_done = 0x02

abbrev pub dict_frag_max : ℕ
dict_frag_max = 253

pub record TunnelFrame : Type 0 where
  pub ch_id : ℕ
  pub frame : List ℕ

pub record PayloadTunnelFrame : Type 0 where
  pub ch_id : ℕ
  pub payload : List ℕ

abbrev pub bad_length : ℕ → Bool
bad_length n = ltb n message_length_min || ltb message_length_max n

-- A complete Klipper frame: it begins with its length, which is in range, and ends with the sync
-- byte.
abbrev pub IsKlipperFrame : List ℕ → Type 0
IsKlipperFrame [] = ⊥
IsKlipperFrame (n ∷ r) =
    (message_length_min ≤ n)
    × (n ≤ message_length_max)
    × (length (n ∷ r) ≡ n)
    × (get_or (n ∷ r) (n - 1) 0 ≡ message_value_sync)

-- The check of the length byte and of the last byte of a run that is long enough.
pub take-IsKlipperFrame :
    (n : ℕ) (rest : List ℕ)
    → bad_length n ≡ false
    → n ≤ length (n ∷ rest)
    → get_or (n ∷ rest) (n - 1) 0 ≡ message_value_sync
    → IsKlipperFrame (take n (n ∷ rest))
take-IsKlipperFrame zero rest b h s = absurd (ground arith)
take-IsKlipperFrame (suc m) rest b h s =
    let n : ℕ = suc m in
    (
      ground arith,
      ground arith,
      omega (arith, length-take m rest),
      get_or-take n (n ∷ rest) (n - 1) 0 (omega arith) ∙ s,
    )
