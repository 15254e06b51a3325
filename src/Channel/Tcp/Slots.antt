-- ===== src/Channel/Tcp/Slots.antt =====
-- The pieces of a read and the slots of a channel.
use pik.Base.{
  inl, inr, ◌⊎◌, ℕ, zero, suc, ◌+◌, ◌-◌, ◌≤◌, ◌<◌, ◌≡◌, refl, ap, ◌∙◌, false, List, [], ◌∷◌, ◌++◌,
  Option, none, some, length, take, drop, arith, take-append-drop, length-append, replicate,
  length-take, length-drop,
}
use pik.Protocol.{max_payload}
use pik.Channel.Token.{max_tcp_conns}
use pik.Channel.Tcp.{
  Conns, TcpConn, conn_high_water, over_high_water, get_slot, set_slot, pack_cid, unpack_cid,
  pieces_from, pieces,
}

-- A connection id survives the wire, whatever follows it.
-- The id is a slot below 256.
pub unpack-pack_cid :
    (slot : ℕ) (data' : List ℕ)
    → slot < max_tcp_conns
    → unpack_cid (pack_cid slot ++ data') ≡ some (slot, data')
unfolding unpack_cid pack_cid
unpack-pack_cid slot data' h = ground arith

pub join_pieces : List (List ℕ) → List ℕ
join_pieces [] = []
join_pieces (p ∷ ps) = p ++ join_pieces ps

join-pieces_from : (f : ℕ) (d : List ℕ) → length d ≤ f → join_pieces (pieces_from f d) ≡ d
unfolding join_pieces pieces_from
join-pieces_from zero [] h = refl
join-pieces_from zero (x ∷ d) h = absurd (omega arith)
join-pieces_from (suc f) [] h = refl
join-pieces_from (suc f) (x ∷ d) h =
    ap (◌++◌ (take (max_payload - 2) (x ∷ d))) (
      join-pieces_from f (drop (max_payload - 2) (x ∷ d))
        (omega (arith, length-drop (max_payload - 2) (x ∷ d))))
    ∙ take-append-drop (max_payload - 2) (x ∷ d)

abbrev pub AllSmall : List (List ℕ) → Type 0
AllSmall [] = Unit {0}
AllSmall (p ∷ ps) = (0 < length p) × (length p + 2 ≤ max_payload) × AllSmall ps

pieces_from-AllSmall : (f : ℕ) (d : List ℕ) → AllSmall (pieces_from f d)
unfolding pieces_from
pieces_from-AllSmall zero d = tt
pieces_from-AllSmall (suc f) [] = tt
pieces_from-AllSmall (suc f) (x ∷ d) =
    let n = length-take (max_payload - 2) (x ∷ d) in
    (omega (arith, n), omega (arith, n), pieces_from-AllSmall f (drop (max_payload - 2) (x ∷ d)))

-- The payloads of the frames that a read is sent as.
abbrev pub payloads_of : ℕ → List (List ℕ) → List (List ℕ)
payloads_of slot [] = []
payloads_of slot (p ∷ ps) = (pack_cid slot ++ p) ∷ payloads_of slot ps

-- What is read from a connection is cut into pieces that, put together, are what was read; no piece
-- is empty, and each fits a frame with its connection id.
pub pieces_lem : (d : List ℕ) → (join_pieces (pieces d) ≡ d) × AllSmall (pieces d)
unfolding pieces
pieces_lem d = (join-pieces_from (length d) d (omega arith), pieces_from-AllSmall (length d) d)

-- The most that may wait for one connection.
abbrev pub conn_limit : ℕ
conn_limit = conn_high_water + max_payload

abbrev pub SlotBounded : Option TcpConn → Type 0
SlotBounded none = Unit {0}
SlotBounded (some conn) = length conn.txbuf ≤ conn_limit

abbrev pub Bounded : Conns → Type 0
Bounded [] = Unit {0}
Bounded (o ∷ conns) = SlotBounded o × Bounded conns

pub get_slot-Bounded :
    (conns : Conns) (slot : ℕ) → Bounded conns → SlotBounded (get_slot conns slot)
get_slot-Bounded [] slot b = tt
get_slot-Bounded (o ∷ conns) zero b = b.0
get_slot-Bounded (o ∷ conns) (suc slot) b = get_slot-Bounded conns slot b.1

pub set_slot-Bounded :
    (conns : Conns) (slot : ℕ) (v : Option TcpConn)
    → Bounded conns
    → SlotBounded v
    → Bounded (set_slot conns slot v)
set_slot-Bounded [] slot v b h = tt
set_slot-Bounded (o ∷ conns) zero v b h = (h, b.1)
set_slot-Bounded (o ∷ conns) (suc slot) v b h = (b.0, set_slot-Bounded conns slot v b.1 h)

pub replicate-Bounded : (n : ℕ) → Bounded (replicate n none)
replicate-Bounded zero = tt
replicate-Bounded (suc n) = (tt, replicate-Bounded n)

-- What the test of F_TDATA lets through fits.
pub over_high_water-le :
    (xs d : List ℕ) → over_high_water xs d ≡ false → length (xs ++ d) ≤ conn_limit
unfolding over_high_water
over_high_water-le xs d h = ground (arith, length-append xs d)

-- No connection is open.
abbrev pub AllClosed : Conns → Type 0
AllClosed conns = (s : ℕ) → s < max_tcp_conns → get_slot conns s ≡ none

pub get_slot-replicate : (n s : ℕ) → get_slot (replicate n none) s ≡ none
get_slot-replicate zero s = refl
get_slot-replicate (suc n) zero = refl
get_slot-replicate (suc n) (suc s) = get_slot-replicate n s

-- A slot that is cleared is free, and the others are as they were or free.
pub get_slot-cleared :
    (conns : Conns) (s j : ℕ)
    → (s ≡ j) ⊎ (get_slot conns j ≡ none)
    → get_slot (set_slot conns s none) j ≡ none
get_slot-cleared [] s j h = refl
get_slot-cleared (c ∷ conns) zero zero h = refl
get_slot-cleared (c ∷ conns) zero (suc j) (inl e) = absurd (omega arith)
get_slot-cleared (c ∷ conns) zero (suc j) (inr e) = e
get_slot-cleared (c ∷ conns) (suc s) zero (inl e) = absurd (omega arith)
get_slot-cleared (c ∷ conns) (suc s) zero (inr e) = e
get_slot-cleared (c ∷ conns) (suc s) (suc j) (inl e) =
    get_slot-cleared conns s j (inl (omega arith))
get_slot-cleared (c ∷ conns) (suc s) (suc j) (inr e) = get_slot-cleared conns s j (inr e)
