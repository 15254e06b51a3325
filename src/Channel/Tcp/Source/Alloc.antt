-- ===== src/Channel/Tcp/Source/Alloc.antt =====
-- `alloc_slot` of the source channel.
use pik.Base.{
  ℕ, zero, suc, ◌+◌, ◌-◌, ◌%◌, ◌<◌, ◌≡◌, ◌≢◌, refl, ap, sym, subst, ◌⊎◌, inl, inr, Option, none,
  some, arith, Option-cases,
}
use native.Mathlib.Decide.{dec_lt}
use pik.Channel.Token.{max_tcp_conns}
use pik.Channel.Tcp.{TcpConn, Conns, get_slot}
use pik.Channel.Tcp.Source.{TcpSourceChannel, alloc_from, alloc_slot}

-- What the rounds made so far say of the slots.
abbrev Found : ℕ → ℕ → Conns → Option ℕ × ℕ → Type 0
Found k next conns (some s, n) =
    (s < max_tcp_conns) × (get_slot conns s ≡ none) × (s ≡ (n - 1) % max_tcp_conns) × (0 < n)
Found k next conns (none, n) = (j : ℕ) → j < k → get_slot conns ((next + j) % max_tcp_conns) ≢ none

alloc_from-Found : (k next : ℕ) (conns : Conns) → Found k next conns (alloc_from k next conns)
unfolding alloc_from
alloc_from-Found zero next conns = λ j h. absurd (omega arith)
alloc_from-Found (suc k) next conns = elim (Option-cases (get_slot conns (next % max_tcp_conns))) [
  | inl e ↦
      subst (Found (suc k) next conns) (sym (hit e))
        (omega arith, e, ap (λ n. n % max_tcp_conns) (omega arith), omega arith)
  | inr (conn, e) ↦
      subst (Found (suc k) next conns) (sym (miss conn e))
        (later (alloc_from k (next + 1) conns) (alloc_from-Found k (next + 1) conns) (λ z. cc))
]
  where
    hit :
        get_slot conns (next % max_tcp_conns) ≡ none
        → alloc_from (suc k) next conns ≡ (some (next % max_tcp_conns), next + 1)
    hit e = ground arith

    miss :
        (conn : TcpConn)
        → get_slot conns (next % max_tcp_conns) ≡ some conn
        → alloc_from (suc k) next conns ≡ alloc_from k (next + 1) conns
    miss conn e = ground arith

    later :
        (r : Option ℕ × ℕ)
        → Found k (next + 1) conns r
        → get_slot conns (next % max_tcp_conns) ≢ none
        → Found (suc k) next conns r
    later (some s, n) f e = f
    later (none, n) f e = λ j h. elim (dec_lt 0 j) [
      | yes p ↦
          subst (λ i. get_slot conns (i % max_tcp_conns) ≢ none) (omega arith)
            (f (j - 1) (omega arith))
      | no p ↦ subst (λ i. get_slot conns (i % max_tcp_conns) ≢ none) (omega arith) e
    ]

-- Either `alloc_slot` gives a slot of the table that is free, or no slot of the table is.
pub alloc_slot_lem :
    (c : TcpSourceChannel)
    → ((s : ℕ) × ((alloc_slot c).0 ≡ some s) × (s < max_tcp_conns) × (get_slot c.conns s ≡ none))
      ⊎ (((alloc_slot c).0 ≡ none) × ((s : ℕ) → s < max_tcp_conns → get_slot c.conns s ≢ none))
unfolding alloc_slot
alloc_slot_lem c =
    go (alloc_from max_tcp_conns c.next_slot c.conns)
      (alloc_from-Found max_tcp_conns c.next_slot c.conns)
  where
    go :
        (r : Option ℕ × ℕ)
        → Found max_tcp_conns c.next_slot c.conns r
        → ((s : ℕ) × (r.0 ≡ some s) × (s < max_tcp_conns) × (get_slot c.conns s ≡ none))
          ⊎ ((r.0 ≡ none) × ((s : ℕ) → s < max_tcp_conns → get_slot c.conns s ≢ none))
    go (some s, n) f = inl (s, refl, f.0, f.1)
    go (none, n) f = inr (
      refl,
      λ s h.
          let j : ℕ = (s + max_tcp_conns - c.next_slot % max_tcp_conns) % max_tcp_conns in
          subst (λ i. get_slot c.conns i ≢ none) (omega arith) (f j (omega arith)),
    )
