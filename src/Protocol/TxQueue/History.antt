-- ===== src/Protocol/TxQueue/History.antt =====
-- Any history of `enqueue` and `drain_to_fd` on one queue.
use pik.Base.{
  ℕ, ◌-◌, ◌<◌, ◌≡◌, refl, ap, sym, ◌∙◌, List, [], ◌∷◌, ◌++◌, length, take, drop, ltb, if◌then◌else◌,
  ap₂, drop_nil, take-take, append-nil, append_assoc, take-append-drop, Bool-cases, inl, inr,
}
use pik.Protocol.{link_txbuf_size}
use pik.Protocol.TxQueue.{
  TxQueue, new, avail, used, enqueue, segment, drain_to_fd, WriteResult, wrote, again, failed,
  DrainResult,
}
use pik.Protocol.TxQueue.Inv.{
  IsValid, enqueue-IsValid, drain-IsValid, new-IsValid, length-segment, used-lt,
}
use pik.Protocol.TxQueue.Refine.{
  contents, contents-enqueue, segment-contents, Allowed, take_off, drain-take_off,
}

pub data Op : Type 0 where
  push : List ℕ → Op
  drain : WriteResult → Op

pub run : TxQueue → List Op → TxQueue
run q [] = q
run q (push d ∷ ops) = run (enqueue q d) ops
run q (drain w ∷ ops) = run (drain_to_fd q w).0 ops

-- The bytes that a call of `write` takes.
abbrev pub written : TxQueue → WriteResult → List ℕ
written q (wrote n) = take n (segment q)
written q again = []
written q failed = []

-- The bytes that the calls of `write` took, and those that `enqueue` had room for.
pub sent : TxQueue → List Op → List ℕ
sent q [] = []
sent q (push d ∷ ops) = sent (enqueue q d) ops
sent q (drain w ∷ ops) = written q w ++ sent (drain_to_fd q w).0 ops

pub accepted : TxQueue → List Op → List ℕ
accepted q [] = []
accepted q (push d ∷ ops) =
    let rest = accepted (enqueue q d) ops in
    if ltb (link_txbuf_size - 1 - length (contents q)) (length d) then rest else d ++ rest
accepted q (drain w ∷ ops) = accepted (drain_to_fd q w).0 ops

abbrev pub AllAllowed : TxQueue → List Op → Type 0
AllAllowed q [] = Unit {0}
AllAllowed q (push d ∷ ops) = AllAllowed (enqueue q d) ops
AllAllowed q (drain w ∷ ops) = Allowed q w × AllAllowed (drain_to_fd q w).0 ops

take_off-wrote : (n : ℕ) (xs : List ℕ) → (take_off xs (wrote n)).0 ≡ drop n xs
take_off-wrote n [] = sym (drop_nil n)
take_off-wrote n (x ∷ xs) = refl

take_off-again : (xs : List ℕ) → (take_off xs again).0 ≡ xs
take_off-again [] = refl
take_off-again (x ∷ xs) = refl

take_off-failed : (xs : List ℕ) → (take_off xs failed).0 ≡ xs
take_off-failed [] = refl
take_off-failed (x ∷ xs) = refl

contents-drain :
    {q : TxQueue} (w : WriteResult)
    → IsValid q
    → Allowed q w
    → contents (drain_to_fd q w).0 ≡ (take_off (contents q) w).0
contents-drain w v h = ap (λ (p : List ℕ × DrainResult). p.0) (drain-take_off w v h)

written-contents :
    {q : TxQueue} (w : WriteResult)
    → IsValid q
    → Allowed q w
    → written q w ++ contents (drain_to_fd q w).0 ≡ contents q
written-contents {q} (wrote n) v h =
    ap₂ ◌++◌ (ap (take n) (segment-contents v) ∙ take-take n (length (segment q)) (contents q) h)
      (contents-drain (wrote n) v h ∙ take_off-wrote n (contents q))
    ∙ take-append-drop n (contents q)
written-contents {q} again v h = contents-drain again v h ∙ take_off-again (contents q)
written-contents {q} failed v h = contents-drain failed v h ∙ take_off-failed (contents q)

enqueue-accepted :
    {q : TxQueue} (d rest : List ℕ)
    → IsValid q
    → contents (enqueue q d) ++ rest
      ≡ contents q
        ++ (if ltb (link_txbuf_size - 1 - length (contents q)) (length d) then rest else d ++ rest)
enqueue-accepted {q} d rest v =
    rw (contents-enqueue d v)
      (elim (Bool-cases (ltb (link_txbuf_size - 1 - length (contents q)) (length d))) [
        | inl full ↦ rw full refl
        | inr fits ↦ rw fits (append_assoc (contents q) d rest)
      ])

-- Over any history no byte is lost, repeated or moved: what the link was sent, followed by what is
-- still queued, is what was queued at the start, followed by what `enqueue` had room for.
-- The queue is valid at the start, and `write` never returns more than it was given.
pub sent-contents :
    (q : TxQueue) (ops : List Op)
    → IsValid q
    → AllAllowed q ops
    → sent q ops ++ contents (run q ops) ≡ contents q ++ accepted q ops
unfolding sent run accepted
sent-contents q [] v h = sym (append-nil (contents q))
sent-contents q (push d ∷ ops) v h =
    sent-contents (enqueue q d) ops (enqueue-IsValid d v) h
    ∙ enqueue-accepted d (accepted (enqueue q d) ops) v
sent-contents q (drain w ∷ ops) v h =
    append_assoc (written q w) (sent (drain_to_fd q w).0 ops)
      (contents (run (drain_to_fd q w).0 ops))
    ∙ ap (◌++◌ (written q w)) (sent-contents (drain_to_fd q w).0 ops (drain-IsValid w v) h.1)
    ∙ sym (
        append_assoc (written q w) (contents (drain_to_fd q w).0)
          (accepted (drain_to_fd q w).0 ops))
    ∙ ap (λ l. l ++ accepted (drain_to_fd q w).0 ops) (written-contents w v h.0)

run_keeps : (q : TxQueue) (ops : List Op) → IsValid q → IsValid (run q ops)
unfolding run
run_keeps q [] v = v
run_keeps q (push d ∷ ops) v = run_keeps (enqueue q d) ops (enqueue-IsValid d v)
run_keeps q (drain w ∷ ops) v = run_keeps (drain_to_fd q w).0 ops (drain-IsValid w v)

-- Over any history from a new queue on, both positions stay inside the array, the array keeps its
-- size, and what is offered to `write` lies inside it, whatever `write` returns.
pub run-IsValid :
    (ops : List Op)
    → let q = run new ops in IsValid q × (length (segment q) ≡ avail q) × (used q < link_txbuf_size)
run-IsValid ops =
    let v = run_keeps new ops new-IsValid in (v, length-segment v, used-lt (run new ops))
