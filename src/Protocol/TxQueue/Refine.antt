-- ===== src/Protocol/TxQueue/Refine.antt =====
-- A valid queue behaves as the sequence of the bytes that it holds.
use native.Mathlib.Decide.{dec_lt}
use pik.Base.{
  ℕ, ◌+◌, ◌-◌, ◌%◌, ◌≤◌, ◌<◌, ◌≡◌, refl, ap, ap₂, sym, ◌∙◌, true, false, List, [], ◌∷◌, ◌++◌,
  length, get_or, take, drop, copy_at, tabulate, length-tabulate, tabulate_ext, tabulate-append,
  tabulate-get_or, drop-tabulate, take-tabulate, get_or-copy_at_in, get_or-copy_at_before,
  get_or-copy_at_after, get_or-take, get_or-drop, take-drop-tabulate, length-take, length-drop,
  length-copy_at, arith, ltb, leb, ◌==◌, if◌then◌else◌, Bool-cases, inl, inr, append-nil,
  is_empty as is_nil,
}
use pik.Protocol.{link_txbuf_size}
use pik.Protocol.TxQueue.{
  reset, TxQueue, used, is_empty, put, enqueue, avail, segment, drain_to_fd, WriteResult,
  DrainResult, wrote, again, failed, ok, err,
}
use pik.Protocol.TxQueue.Inv.{IsValid, length-segment, used-lt}

abbrev pub at : TxQueue → ℕ → ℕ
at q k = get_or q.buf ((q.head + k) % link_txbuf_size) 0

-- The queued bytes, oldest first.
pub contents : TxQueue → List ℕ
contents q = tabulate (used q) (at q)

pub contents-reset : (q : TxQueue) → contents (reset q) ≡ []
unfolding contents used reset
contents-reset q = refl

pub length-contents : (q : TxQueue) → length (contents q) ≡ used q
unfolding contents
length-contents q = length-tabulate (used q) (at q)

-- An index inside the queued region keeps its byte.
put_keeps :
    {q : TxQueue} (d : List ℕ) (k : ℕ)
    → IsValid q
    → used q + length d < link_txbuf_size
    → k < used q
    → let i = (q.head + k) % link_txbuf_size in get_or (put q d) i 0 ≡ get_or q.buf i 0
unfolding put used
put_keeps {q} d k v room h =
    let i : ℕ = (q.head + k) % link_txbuf_size in
    let s : ℕ = link_txbuf_size - q.tail in
    elim (Bool-cases (leb (length d) s)) [
      | inl fits ↦ rw fits (elim (dec_lt i q.tail) [
        | yes p ↦ get_or-copy_at_before q.buf q.tail d i 0 p
        | no p ↦ get_or-copy_at_after q.buf q.tail d i 0 (ground arith)
      ])
      | inr wraps ↦
          let long : s < length d = ground arith in
          rw wraps (
            get_or-copy_at_after (copy_at q.buf q.tail (take s d)) 0 (drop s d) i 0
              (omega (arith, length-drop s d))
            ∙ get_or-copy_at_before q.buf q.tail (take s d) i 0 (omega arith))
    ]

-- The new bytes follow the queued ones round the ring.
put_writes :
    {q : TxQueue} (d : List ℕ) (j : ℕ)
    → IsValid q
    → used q + length d < link_txbuf_size
    → j < length d
    → get_or (put q d) ((q.head + (used q + j)) % link_txbuf_size) 0 ≡ get_or d j 0
unfolding put used
put_writes {q} d j v room h =
    let u : ℕ = (q.tail + link_txbuf_size - q.head) % link_txbuf_size in
    let i : ℕ = (q.head + (u + j)) % link_txbuf_size in
    let s : ℕ = link_txbuf_size - q.tail in
    elim (Bool-cases (leb (length d) s)) [
      | inl fits ↦
          let short : length d ≤ s = ground arith in
          rw fits (get_or-copy_at_in q.buf q.tail d j i 0 (omega arith) h (omega arith))
      | inr wraps ↦
          let long : s < length d = ground arith in
          rw wraps (elim (dec_lt j s) [
            | yes p ↦
                get_or-copy_at_after (copy_at q.buf q.tail (take s d)) 0 (drop s d) i 0
                  (omega (arith, length-drop s d))
                ∙ get_or-copy_at_in q.buf q.tail (take s d) j i 0 (omega arith)
                    (omega (arith, length-take s d)) (omega arith)
                ∙ get_or-take s d j 0 p
            | no p ↦
                get_or-copy_at_in (copy_at q.buf q.tail (take s d)) 0 (drop s d) (j - s) i 0
                  (omega arith) (omega (arith, length-drop s d))
                  (omega (arith, length-copy_at q.buf q.tail (take s d)))
                ∙ get_or-drop s d (j - s) j 0 (omega arith)
          ])
    ]

contents-put :
    {q : TxQueue} (d : List ℕ)
    → IsValid q
    → used q + length d < link_txbuf_size
    → contents (record q { buf = put q d; tail = (q.tail + length d) % link_txbuf_size })
      ≡ contents q ++ d
unfolding contents
contents-put {q} d v room =
    let q' : TxQueue = record q { buf = put q d; tail = (q.tail + length d) % link_txbuf_size } in
    let more : used q' ≡ used q + length d = unfold used in omega arith in
    ap (λ n. tabulate n (at q')) more
    ∙ tabulate-append (used q) (length d) (at q')
    ∙ ap₂ ◌++◌ (tabulate_ext (used q) (at q') (at q) (λ k h. put_keeps d k v room h)) (
        tabulate_ext (length d) (λ k. at q' (used q + k)) (λ k. get_or d k 0)
          (λ k h. put_writes d k v room h)
        ∙ tabulate-get_or d 0)

enqueue-full :
    (q : TxQueue) (d : List ℕ)
    → ltb (link_txbuf_size - 1 - used q) (length d) ≡ true
    → enqueue q d ≡ q
unfolding enqueue
enqueue-full q d h = ground arith

enqueue-fits :
    (q : TxQueue) (x : ℕ) (d : List ℕ)
    → ltb (link_txbuf_size - 1 - used q) (length (x ∷ d)) ≡ false
    → enqueue q (x ∷ d)
      ≡ record q { buf = put q (x ∷ d); tail = (q.tail + length (x ∷ d)) % link_txbuf_size }
unfolding enqueue
enqueue-fits q x d h = ground arith

enqueue-nil : (q : TxQueue) → enqueue q [] ≡ q
unfolding enqueue
enqueue-nil q = refl

-- `enqueue` puts the whole input behind the queued bytes if there is room for it, and otherwise
-- leaves them as they are; one byte of the array always stays free.
-- The queue is valid.
pub contents-enqueue :
    {q : TxQueue} (d : List ℕ)
    → IsValid q
    → contents (enqueue q d) ≡ (
        if ltb (link_txbuf_size - 1 - length (contents q)) (length d)
        then contents q
        else contents q ++ d)
contents-enqueue {q} [] v = rw (enqueue-nil q) (ground (arith, append-nil (contents q)))
contents-enqueue {q} (x ∷ d) v =
    rw (length-contents q)
      (elim (Bool-cases (ltb (link_txbuf_size - 1 - used q) (length (x ∷ d)))) [
        | inl full ↦ rw full (ap contents (enqueue-full q (x ∷ d) full))
        | inr fits ↦ rw fits (
            ap contents (enqueue-fits q x d fits)
            ∙ contents-put (x ∷ d) v (ground (arith, used-lt q)))
      ])

is_nil-length : (xs : List ℕ) → is_nil xs ≡ (length xs == 0)
is_nil-length [] = refl
is_nil-length (x ∷ xs) = ground arith

is_empty-contents : (q : TxQueue) → IsValid q → is_empty q ≡ is_nil (contents q)
is_empty-contents q v =
    rw (is_nil-length (contents q), length-contents q) (unfold is_empty used in ground arith)

avail_bounds : {q : TxQueue} → IsValid q → (avail q ≤ used q) × (q.head + avail q ≤ link_txbuf_size)
unfolding avail used
avail_bounds v = ground arith

avail_pos : {q : TxQueue} → IsValid q → 0 < used q → 0 < avail q
unfolding avail used
avail_pos v h = ground arith

segment-tabulate :
    {q : TxQueue} → IsValid q → segment q ≡ tabulate (avail q) (λ k. get_or q.buf (q.head + k) 0)
unfolding segment
segment-tabulate {q} v =
    take-drop-tabulate (avail q) q.head q.buf 0 (omega (arith, v.storage, avail_bounds v))

segment-at :
    {q : TxQueue}
    → IsValid q
    → tabulate (avail q) (λ k. get_or q.buf (q.head + k) 0) ≡ tabulate (avail q) (at q)
segment-at {q} v =
    tabulate_ext (avail q) (λ k. get_or q.buf (q.head + k) 0) (at q)
      (λ k h. ap (λ i. get_or q.buf i 0) (omega (arith, avail_bounds v)))

take-contents : (q : TxQueue) (n : ℕ) → n ≤ used q → take n (contents q) ≡ tabulate n (at q)
unfolding contents
take-contents q n h = take-tabulate n (used q) (at q) h

-- What is offered to `write` is a prefix of the queued bytes.
-- The queue is valid.
pub segment-contents :
    {q : TxQueue} → IsValid q → segment q ≡ take (length (segment q)) (contents q)
segment-contents {q} v =
    segment-tabulate v
    ∙ segment-at v
    ∙ sym (take-contents q (avail q) (avail_bounds v).0)
    ∙ ap (λ n. take n (contents q)) (sym (length-segment v))

pub segment_pos : {q : TxQueue} → IsValid q → 0 < length (contents q) → 0 < length (segment q)
segment_pos {q} v h = omega (arith, length-segment v, length-contents q, avail_pos v)

used-advance :
    {q : TxQueue} (n : ℕ)
    → IsValid q
    → n ≤ used q
    → used (record q { head = (q.head + n) % link_txbuf_size }) ≡ used q - n
unfolding used
used-advance n v h = omega arith

contents-advance :
    {q : TxQueue} (n : ℕ)
    → IsValid q
    → n ≤ used q
    → contents (record q { head = (q.head + n) % link_txbuf_size }) ≡ drop n (contents q)
unfolding contents
contents-advance {q} n v h =
    let q' : TxQueue = record q { head = (q.head + n) % link_txbuf_size } in
    ap (λ m. tabulate m (at q')) (used-advance n v h)
    ∙ tabulate_ext (used q - n) (at q') (λ k. at q (n + k))
        (λ k p. ap (λ i. get_or q.buf i 0) (omega arith))
    ∙ sym (drop-tabulate n (used q) (at q) h)

-- What `write` may return: it takes no more than it is given.
abbrev pub Allowed : TxQueue → WriteResult → Type 0
Allowed q (wrote n) = n ≤ length (segment q)
Allowed q again = Unit {0}
Allowed q failed = Unit {0}

-- The same on a plain sequence of bytes.
abbrev pub take_off : List ℕ → WriteResult → List ℕ × DrainResult
take_off xs (wrote n) = if is_nil xs then (xs, ok true) else (drop n xs, ok (is_nil (drop n xs)))
take_off xs again = if is_nil xs then (xs, ok true) else (xs, ok false)
take_off xs failed = if is_nil xs then (xs, ok true) else (xs, err)

-- `drain_to_fd` takes the written bytes off the front of the sequence, reports whether any are
-- left, and changes nothing where the write would block or fails.
-- The queue is valid, and `write` returns no more than it was given.
pub drain-take_off :
    {q : TxQueue} (w : WriteResult)
    → IsValid q
    → Allowed q w
    → let (q', r) = drain_to_fd q w in (contents q', r) ≡ take_off (contents q) w
unfolding drain_to_fd
drain-take_off {q} (wrote n) v h =
    let q' : TxQueue = record q { head = (q.head + n) % link_txbuf_size } in
    let le : n ≤ used q = omega (arith, h, length-segment v, avail_bounds v) in
    let rest : contents q' ≡ drop n (contents q) = contents-advance n v le in
    let v' : IsValid q' = record {
      storage = v.storage;
      head_in = omega arith;
      tail_in = v.tail_in;
    } in
    let done : is_empty q' ≡ is_nil (drop n (contents q)) =
      is_empty-contents q' v' ∙ ap is_nil rest in
    ground (arith, is_empty-contents q v, rest, done)
drain-take_off {q} again v h = ground (arith, is_empty-contents q v)
drain-take_off {q} failed v h = ground (arith, is_empty-contents q v)
