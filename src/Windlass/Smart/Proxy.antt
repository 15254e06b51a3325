-- ===== src/Windlass/Smart/Proxy.antt =====
-- `ProxyConfig` of serialmux-rs/src/windlass/smart_host.rs. The variable-length integers are those of
-- the anchor crate, and a parameter.
use pik.Base.{
  ℕ, ◌+◌, ◌-◌, ◌%◌, ◌^◌, ◌<◌, ◌≡◌, min, Bool, true, false, List, [], ◌∷◌, ◌++◌, Option, none, some,
  length, take, drop, leb, ◌==◌, if◌then◌else◌,
}

-- `Readable::read` for three types, none being a ReadError, and `Writable::write` for a u32.
pub record Vlq : Type 0 where
  pub read_u16 : List ℕ → Option (ℕ × List ℕ)
  pub read_u32 : List ℕ → Option (ℕ × List ℕ)
  pub read_u8 : List ℕ → Option (ℕ × List ℕ)
  pub write : ℕ → List ℕ

-- A number that was written is read again by a type that it fits, and what follows is left.
pub record IsVlq (v : Vlq) : Type 0 where
  pub u16 : (n : ℕ) (rest : List ℕ) → n < 2 ^ 16 → v.read_u16 (v.write n ++ rest) ≡ some (n, rest)
  pub u32 : (n : ℕ) (rest : List ℕ) → n < 2 ^ 32 → v.read_u32 (v.write n ++ rest) ≡ some (n, rest)
  pub u8 : (n : ℕ) (rest : List ℕ) → n < 2 ^ 8 → v.read_u8 (v.write n ++ rest) ≡ some (n, rest)

-- What was sent to `to_exporter` stands in the order in which it was sent.
pub record ProxyContext : Type 0 where
  pub dictionary : List ℕ
  pub to_exporter : List (List ℕ)
  pub pending_responses : List (List ℕ)

abbrev pub cmd_identify : ℕ
cmd_identify = 1

-- Whether there was no ReadError, what is left of `frame`, and the context.
abbrev pub Dispatched : Type 0
Dispatched = Bool × (List ℕ × ProxyContext)

-- `&dict[start..end]`, or nothing for an offset behind the end.
unfoldable pub chunk_at : List ℕ → ℕ → ℕ → List ℕ
chunk_at dict start count =
    let end' = min (start + count) (length dict) in
    if leb start (length dict) then take (end' - start) (drop start dict) else []

module _ (v : Vlq) where
  unfoldable pub response : ℕ → List ℕ → List ℕ
  response offset chunk =
      v.write 0 ++ (v.write offset ++ (v.write (length chunk % 2 ^ 32) ++ chunk))

  abbrev pub answer : List ℕ → ProxyContext → ℕ → ℕ → Dispatched
  answer rest ctx offset count =
      let resp = response offset (chunk_at ctx.dictionary offset count) in
      (true, (rest, record ctx { pending_responses = ctx.pending_responses ++ (resp ∷ []) }))

  unfoldable pub dispatch : ℕ → List ℕ → ProxyContext → Dispatched
  dispatch cmd frame ctx =
      if cmd == cmd_identify
      then elim (v.read_u32 frame) [
        | none ↦ (false, (frame, ctx))
        | some (offset, rest) ↦ elim (v.read_u8 rest) [
          | none ↦ (false, (rest, ctx))
          | some (count, rest') ↦ answer rest' ctx offset count
        ]
      ]
      else (true, (frame, ctx))

  -- The command is read from a copy of `frame` first.
  unfoldable pub dispatch_raw : List ℕ → ProxyContext → Dispatched
  unfolding dispatch
  dispatch_raw frame ctx = elim (v.read_u16 frame) [
    | none ↦ (false, (frame, ctx))
    | some (cmd, rest) ↦
        if cmd == cmd_identify
        then dispatch cmd rest ctx
        else (true, ([], record ctx { to_exporter = ctx.to_exporter ++ (frame ∷ []) }))
  ]
