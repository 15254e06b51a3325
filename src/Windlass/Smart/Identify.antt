-- ===== src/Windlass/Smart/Identify.antt =====
-- Klipper's `identify` requests, and what they are answered.
use pik.Base.{
  ℕ, zero, suc, ◌+◌, ◌-◌, ◌*◌, ◌%◌, ◌^◌, ◌<◌, ◌≤◌, ◌≡◌, refl, ap, sym, ◌∙◌, min, true, List, [],
  ◌∷◌, ◌++◌, Option, none, some, length, take, drop, leb, arith, append_assoc, append-nil,
  take-append-drop, take_all, drop_all, drop_add, length-drop, length-take, Bool-cases, inl, inr,
}
use pik.Windlass.Smart.Proxy.{
  Vlq, IsVlq, ProxyContext, cmd_identify, chunk_at, response, dispatch, dispatch_raw,
}

-- `identify offset count` as Klipper sends it.
abbrev pub request : Vlq → ℕ → ℕ → List ℕ
request v offset count = v.write cmd_identify ++ (v.write offset ++ v.write count)

-- Requests for `count` bytes each, one behind the other from an offset on.
abbrev pub ask : Vlq → ℕ → ℕ → ℕ → ProxyContext → ProxyContext
ask v zero offset count ctx = ctx
ask v (suc n) offset count ctx =
    ask v n (offset + count) count (dispatch_raw v (request v offset count) ctx).1.1

-- The pieces of a dictionary, and the answers that carry them.
abbrev pub pieces : List ℕ → ℕ → ℕ → ℕ → List (List ℕ)
pieces dict zero offset count = []
pieces dict (suc n) offset count =
    take count (drop offset dict) ∷ pieces dict n (offset + count) count

abbrev pub responses : Vlq → ℕ → ℕ → List (List ℕ) → List (List ℕ)
responses v offset count [] = []
responses v offset count (p ∷ ps) = response v offset p ∷ responses v (offset + count) count ps

-- The bytes in an answer, as Klipper reads them: the command, the offset, and as many as it tells.
abbrev pub read_number : Option (ℕ × List ℕ) → (ℕ → List ℕ → Option (List ℕ)) → Option (List ℕ)
read_number none f = none
read_number (some (n, l)) f = f n l

abbrev pub read_response : Vlq → List ℕ → Option (List ℕ)
read_response v l = read_number (v.read_u32 l) (λ cmd l₁.
    read_number (v.read_u32 l₁)
      (λ offset l₂. read_number (v.read_u32 l₂) (λ count l₃. some (take count l₃))))

abbrev prepend : Option (List ℕ) → Option (List ℕ) → Option (List ℕ)
prepend (some p) (some ps) = some (p ++ ps)
prepend (some p) none = none
prepend none ps = none

abbrev pub read_all : Vlq → List (List ℕ) → Option (List ℕ)
read_all v [] = some []
read_all v (r ∷ rs) = prepend (read_response v r) (read_all v rs)

abbrev pub join : List (List ℕ) → List ℕ
join [] = []
join (p ∷ ps) = p ++ join ps

take_nil : (n : ℕ) → take {A = ℕ} n [] ≡ []
take_nil zero = refl
take_nil (suc n) = refl

take-min :
    (count : ℕ) (l : List ℕ) (start total : ℕ)
    → length l ≡ total - start
    → start ≤ total
    → take (min (start + count) total - start) l ≡ take count l
take-min count l start total e h = elim (Bool-cases (leb (start + count) total)) [
  | inl z ↦ let n : min (start + count) total - start ≡ count = ground arith in ap (λ m. take m l) n
  | inr z ↦
      let n : min (start + count) total - start ≡ total - start = ground arith in
      ap (λ m. take m l) n
      ∙ (take_all (total - start) l (omega arith) ∙ sym (take_all count l (ground arith)))
]

chunk_at_lem :
    (dict : List ℕ) (start count : ℕ) → chunk_at dict start count ≡ take count (drop start dict)
unfolding chunk_at
chunk_at_lem dict start count = elim (Bool-cases (leb start (length dict))) [
  | inl e ↦
      rw e (
        take-min count (drop start dict) start (length dict) (length-drop start dict)
          (ground arith))
  | inr e ↦ rw e (sym (ap (take count) (drop_all start dict (ground arith)) ∙ take_nil count))
]

join-pieces :
    (dict : List ℕ) (n offset count : ℕ)
    → length dict ≤ offset + n * count
    → join (pieces dict n offset count) ≡ drop offset dict
join-pieces dict zero offset count h = sym (drop_all offset dict (omega arith))
join-pieces dict (suc n) offset count h =
    ap (λ l. take count (drop offset dict) ++ l)
      (join-pieces dict n (offset + count) count (grind arith) ∙ drop_add offset count dict)
    ∙ take-append-drop count (drop offset dict)

read_response_lem :
    (v : Vlq)
    → IsVlq v
    → (offset : ℕ) (l : List ℕ) → offset < 2 ^ 32
    → length l < 2 ^ 32
    → read_response v (response v offset l) ≡ some l
unfolding response
read_response_lem v h offset l o k =
    let e : length l % 2 ^ 32 ≡ length l = omega arith in
    rw
      (
        h.u32 0 (v.write offset ++ (v.write (length l % 2 ^ 32) ++ l)) (omega arith),
        h.u32 offset (v.write (length l % 2 ^ 32) ++ l) o,
        e,
        h.u32 (length l) l k,
      )
      (ap some (take_all (length l) l (omega arith)))

-- What a request does.
abbrev answered : Vlq → ℕ → ℕ → ProxyContext → ProxyContext
answered v offset count ctx =
    let resp = response v offset (take count (drop offset ctx.dictionary)) in
    record ctx { pending_responses = ctx.pending_responses ++ (resp ∷ []) }

dispatch_raw-request :
    (v : Vlq)
    → IsVlq v
    → (offset count : ℕ) (ctx : ProxyContext) → offset < 2 ^ 32
    → count < 2 ^ 8
    → dispatch_raw v (request v offset count) ctx ≡ (true, ([], answered v offset count ctx))
unfolding dispatch dispatch_raw response
dispatch_raw-request v h offset count ctx o k =
    let c : v.read_u8 (v.write count) ≡ some (count, []) =
      ap v.read_u8 (sym (append-nil (v.write count))) ∙ h.u8 count [] k in
    rw
      (
        dispatch_raw,
        h.u16 cmd_identify (v.write offset ++ v.write count) (omega arith),
        h.u32 offset (v.write count) o,
        c,
        chunk_at_lem ctx.dictionary offset count,
      )
      refl

ask_lem :
    (v : Vlq)
    → IsVlq v
    → (n offset count : ℕ) (ctx : ProxyContext) → offset + n * count < 2 ^ 32
    → count < 2 ^ 8
    → ask v n offset count ctx ≡ record ctx {
      pending_responses =
          ctx.pending_responses ++ responses v offset count (pieces ctx.dictionary n offset count);
    }
ask_lem v h zero offset count ctx o k =
    ap (λ (l : List (List ℕ)). record ctx { pending_responses = l })
      (sym (append-nil ctx.pending_responses))
ask_lem v h (suc n) offset count ctx o k =
    rw (dispatch_raw-request v h offset count ctx (grind arith) k) (
      ask_lem v h n (offset + count) count (answered v offset count ctx) (grind arith) k
      ∙ ap (λ (l : List (List ℕ)). record ctx { pending_responses = l })
          (append_assoc ctx.pending_responses
            (response v offset (take count (drop offset ctx.dictionary)) ∷ [])
            (responses v (offset + count) count (pieces ctx.dictionary n (offset + count) count))))

read_all-pieces :
    (v : Vlq)
    → IsVlq v
    → (dict : List ℕ) (n offset count : ℕ) → offset + n * count < 2 ^ 32
    → count < 2 ^ 8
    → read_all v (responses v offset count (pieces dict n offset count))
      ≡ some (join (pieces dict n offset count))
read_all-pieces v h dict zero offset count o k = refl
read_all-pieces v h dict (suc n) offset count o k =
    let short : length (take count (drop offset dict)) < 2 ^ 32 =
      grind (arith, length-take count (drop offset dict)) in
    rw
      (
        read_response_lem v h offset (take count (drop offset dict)) (grind arith) short,
        read_all-pieces v h dict n (offset + count) count (grind arith) k,
      )
      refl

-- Klipper asks for pieces of `count` bytes, `n` times, each behind the other, and reads the answers.
-- With at least as many bytes asked for as the dictionary has, and fewer than 2 ^ 32, they make up
-- the dictionary; and none of the requests goes to the exporter.
pub ask-dictionary :
    (v : Vlq)
    → IsVlq v
    → (n count : ℕ) (ctx : ProxyContext) → n * count < 2 ^ 32
    → count < 2 ^ 8
    → length ctx.dictionary ≤ n * count
    → ctx.pending_responses ≡ []
    → (read_all v (ask v n 0 count ctx).pending_responses ≡ some ctx.dictionary)
      × ((ask v n 0 count ctx).to_exporter ≡ ctx.to_exporter)
ask-dictionary v h n count ctx o k l e =
    rw (ask_lem v h n 0 count ctx (omega arith) k, e)
      (
        read_all-pieces v h ctx.dictionary n 0 count (omega arith) k
            ∙ ap some (join-pieces ctx.dictionary n 0 count (omega arith)),
        refl,
      )
