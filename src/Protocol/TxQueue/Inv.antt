-- ===== src/Protocol/TxQueue/Inv.antt =====
-- The positions of the queue stay in the array, and every copy and write stays inside it.
use pik.Base.{
  ℕ, zero, suc, ◌-◌, ◌<◌, ◌≡◌, refl, ap, List, length, take, drop, copy_at, length-copy_at,
  length-take, length-drop, arith, ◌==◌, true, false,
}
use pik.Protocol.{link_txbuf_size}
use pik.Protocol.TxQueue.{
  TxQueue, zeros, new, reset, used, is_empty, put, enqueue, avail, segment, drain_to_fd,
  WriteResult, wrote, again, failed, err,
}

pub record IsValid (q : TxQueue) : Type 0 where
  pub storage : length q.buf ≡ link_txbuf_size
  pub head_in : q.head < link_txbuf_size
  pub tail_in : q.tail < link_txbuf_size

length-zeros : (n : ℕ) → length (zeros n) ≡ n
unfolding zeros
length-zeros zero = refl
length-zeros (suc n) = ap suc (length-zeros n)

pub new-IsValid : IsValid new
unfolding new
new-IsValid = record {
  storage = length-zeros link_txbuf_size;
  head_in = omega arith;
  tail_in = omega arith;
}

pub reset-IsValid : {q : TxQueue} → IsValid q → IsValid (reset q)
unfolding reset
reset-IsValid v = record { storage = v.storage; head_in = omega arith; tail_in = omega arith }

pub is_empty-reset : (q : TxQueue) → is_empty (reset q) ≡ true
unfolding is_empty reset
is_empty-reset q = refl

pub is_empty-new : is_empty new ≡ true
unfolding is_empty new
is_empty-new = refl

pub is_empty-used : {q : TxQueue} → IsValid q → is_empty q ≡ true → used q ≡ 0
unfolding is_empty used
is_empty-used v h = ground arith

pub used-lt : (q : TxQueue) → used q < link_txbuf_size
unfolding used
used-lt q = omega arith

pub length-put : (q : TxQueue) (d : List ℕ) → length (put q d) ≡ length q.buf
unfolding put
length-put q d =
    let s : ℕ = link_txbuf_size - q.tail in
    ground (
      arith,
      length-copy_at q.buf q.tail d,
      length-copy_at q.buf q.tail (take s d),
      length-copy_at (copy_at q.buf q.tail (take s d)) 0 (drop s d),
    )

pub enqueue-IsValid : {q : TxQueue} (d : List ℕ) → IsValid q → IsValid (enqueue q d)
unfolding enqueue
enqueue-IsValid {q} d v = ground (arith, length-put q d)

pub drain-IsValid : {q : TxQueue} (w : WriteResult) → IsValid q → IsValid (drain_to_fd q w).0
unfolding drain_to_fd
drain-IsValid (wrote n) v = ground arith
drain-IsValid again v = ground arith
drain-IsValid failed v = ground arith

-- The slice given to `write` lies inside the array.
pub length-segment : {q : TxQueue} → IsValid q → length (segment q) ≡ avail q
unfolding segment avail
length-segment {q} v =
    ground (arith, length-take (avail q) (drop q.head q.buf), length-drop q.head q.buf)

-- A write error leaves the queue as it is, if there was something to write.
pub drain-failed : (q : TxQueue) → is_empty q ≡ false → drain_to_fd q failed ≡ (q, err)
unfolding drain_to_fd
drain-failed q e = rw e refl

pub is_empty-apart : (q : TxQueue) → (q.head == q.tail) ≡ false → is_empty q ≡ false
unfolding is_empty
is_empty-apart q e = e
