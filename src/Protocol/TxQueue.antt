-- ===== src/Protocol/TxQueue.antt =====
-- `TxQueue` of serialmux-rs/src/protocol.rs: the ring buffer of bytes for the link.
pub mod Inv
pub mod Refine
pub mod History
mod Tests
use pik.Base.{
  ℕ, zero, suc, ◌+◌, ◌-◌, ◌%◌, Bool, true, false, List, [], ◌∷◌, length, take, drop, copy_at, ltb,
  leb, ◌==◌, if◌then◌else◌,
}
use pik.Protocol.{link_txbuf_size}

pub record TxQueue : Type 0 where
  pub buf : List ℕ
  pub head : ℕ
  pub tail : ℕ

-- `vec![0u8; n]`
pub zeros : ℕ → List ℕ
zeros zero = []
zeros (suc n) = 0 ∷ zeros n

pub new : TxQueue
new = record { buf = zeros link_txbuf_size; head = 0; tail = 0 }

pub reset : TxQueue → TxQueue
reset q = record q { head = 0; tail = 0 }

pub used : TxQueue → ℕ
used q = (q.tail + link_txbuf_size - q.head) % link_txbuf_size

pub is_empty : TxQueue → Bool
is_empty q = q.head == q.tail

-- The two copies of `enqueue`: up to the end of the array, and the rest from its start.
pub put : TxQueue → List ℕ → List ℕ
put q bytes =
    let space_to_end = link_txbuf_size - q.tail in
    if leb (length bytes) space_to_end
    then copy_at q.buf q.tail bytes
    else copy_at (copy_at q.buf q.tail (take space_to_end bytes)) 0 (drop space_to_end bytes)

-- An input that does not fit is dropped whole.
pub enqueue : TxQueue → List ℕ → TxQueue
enqueue q bytes =
    if length bytes == 0
    then q
    else if ltb (link_txbuf_size - 1 - used q) (length bytes)
    then q
    else record q { buf = put q bytes; tail = (q.tail + length bytes) % link_txbuf_size }

-- What `libc::write` can return: a number of bytes, EAGAIN or EWOULDBLOCK, another error.
pub data WriteResult : Type 0 where
  wrote : ℕ → WriteResult
  again : WriteResult
  failed : WriteResult

-- `std::io::Result<bool>`
pub data DrainResult : Type 0 where
  ok : Bool → DrainResult
  err : DrainResult

-- `avail`, and the bytes that `write` is given.
pub avail : TxQueue → ℕ
avail q = if leb q.head q.tail then q.tail - q.head else link_txbuf_size - q.head

pub segment : TxQueue → List ℕ
segment q = take (avail q) (drop q.head q.buf)

-- The argument is what the call of `write` returns; there is none on an empty queue.
pub drain_to_fd : TxQueue → WriteResult → TxQueue × DrainResult
drain_to_fd q (wrote n) =
    let q' : TxQueue = record q { head = (q.head + n) % link_txbuf_size } in
    if is_empty q then (q, ok true) else (q', ok (is_empty q'))
drain_to_fd q again = if is_empty q then (q, ok true) else (q, ok false)
drain_to_fd q failed = if is_empty q then (q, ok true) else (q, err)
