-- ===== src/Protocol/TxQueue/Tests.antt =====
-- The queue on small inputs, and the theorems at them.
use pik.Base.{◌<◌, ◌≡◌, refl, true, List, [], ◌∷◌, ◌++◌, length, ◌-◌, arith}
use pik.Protocol.{link_txbuf_size}
use pik.Protocol.TxQueue.{
  TxQueue, new, used, is_empty, put, enqueue, avail, segment, drain_to_fd, wrote, again, failed, ok,
}
use pik.Protocol.TxQueue.Inv.{IsValid, new-IsValid}
use pik.Protocol.TxQueue.Refine.{contents}
use pik.Protocol.TxQueue.History.{Op, push, drain, run, sent, accepted, sent-contents, run-IsValid}

-- The start of an array is enough where nothing goes round the end.
abbrev small : TxQueue
small = record { buf = 9 ∷ 8 ∷ 0 ∷ 0 ∷ 0 ∷ []; head = 0; tail = 2 }

enqueue-small :
    enqueue small (1 ∷ 2 ∷ []) ≡ record { buf = 9 ∷ 8 ∷ 1 ∷ 2 ∷ 0 ∷ []; head = 0; tail = 4 }
unfolding enqueue used put
enqueue-small = refl

drain_small : drain_to_fd small (wrote 2) ≡ (record small { head = 2 }, ok true)
unfolding drain_to_fd is_empty
drain_small = refl

-- A queue whose next byte goes to the last place of the array.
abbrev at_end : TxQueue
at_end = record new { head = link_txbuf_size - 2; tail = link_txbuf_size - 2 }

at_end-IsValid : IsValid at_end
at_end-IsValid = record {
  storage = new-IsValid.storage;
  head_in = omega arith;
  tail_in = omega arith;
}

abbrev ops : List Op
ops = push (1 ∷ 2 ∷ 3 ∷ 4 ∷ []) ∷ drain again ∷ push (5 ∷ []) ∷ drain failed ∷ []

sent-contents_example :
    sent at_end ops ++ contents (run at_end ops) ≡ contents at_end ++ accepted at_end ops
sent-contents_example = sent-contents at_end ops at_end-IsValid (tt, (tt, tt))

run-IsValid_example :
    IsValid (run new ops)
    × (length (segment (run new ops)) ≡ avail (run new ops))
    × (used (run new ops) < link_txbuf_size)
run-IsValid_example = run-IsValid ops
