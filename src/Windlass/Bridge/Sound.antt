-- ===== src/Windlass/Bridge/Sound.antt =====
-- What the command line of windlass-bridge accepts.
use pik.Base.{
  ℕ, ◌<◌, ◌≤◌, ◌≡◌, refl, subst, Bool, true, false, not, List, [], ◌∷◌, Option, none, some, ◌==◌,
  is_member, map, Bool-cases, inl, inr, arith,
}
use pik.Cli.Text.{split, same_text, parse_uint}
use pik.Cli.{
  Mode, exporter, host, Parsed, ok, err, or_error, guard, mcu_text, unknown_type, bad_id,
  reserved_id,
}
use pik.Cli.Sound.{
  OfOk, Holds, IsBaud, bind-OfOk, or_error-OfOk, guard-OfOk, parse_uint-le,
  parse_standard_baud-OfOk, third,
}
use pik.Windlass.Framing.{PayloadTunnelFrame, ctrl_ch}
use pik.Windlass.Smart.Proxy.{Vlq}
use pik.Windlass.Smart.Connection.{SmartHost}
use pik.Windlass.Smart.Connection.Demux.{demux_all, payloads_for, sent, demux_all_lem}
use pik.Windlass.Bridge.{
  McuSpec, mcu_baud, parse_parts, parse_channel_spec, parse_channel_specs, duplicate,
  validate_unique_channel_ids, Runner, runner, run_unique, run_parsed, main, run_smart_host,
  run_smart_exporter, run_exporter, run_host,
}

abbrev IsBaudFor : Mode → ℕ → Type 0
IsBaudFor exporter baud = IsBaud baud
IsBaudFor host baud = baud ≡ 0

-- An id below that of the control channel, the path of the text, and the baud rate of the mode.
abbrev pub IsAccepted : Mode → List ℕ → McuSpec → Type 0
IsAccepted mode text c = (c.ch_id < ctrl_ch) × (c.path ≡ text) × IsBaudFor mode c.baud

mcu_baud-OfOk : (mode : Mode) (rest : List (List ℕ)) → OfOk (IsBaudFor mode) (mcu_baud mode rest)
unfolding mcu_baud
mcu_baud-OfOk exporter [] = tt
mcu_baud-OfOk exporter (raw ∷ []) = parse_standard_baud-OfOk raw
mcu_baud-OfOk exporter (raw ∷ p ∷ ps) = tt
mcu_baud-OfOk host [] = refl
mcu_baud-OfOk host (p ∷ ps) = tt

parse_parts-OfOk :
    (mode : Mode) (parts : List (List ℕ))
    → OfOk (IsAccepted mode (third parts)) (parse_parts mode parts)
unfolding parse_parts
parse_parts-OfOk mode [] = tt
parse_parts-OfOk mode (kind ∷ []) = tt
parse_parts-OfOk mode (kind ∷ id_text ∷ []) = tt
parse_parts-OfOk mode (kind ∷ id_text ∷ path ∷ rest) =
    let P = IsAccepted mode path in
    let known = same_text kind mcu_text in
    bind-OfOk (Holds known) P (guard known unknown_type) _ (guard-OfOk known unknown_type) (λ v k.
      let number = parse_uint 255 id_text in
      bind-OfOk (λ n. n ≤ 255) P (or_error bad_id number) _
        (or_error-OfOk (λ n. n ≤ 255) bad_id number (parse_uint-le 255 id_text))
        (λ id u.
          let free = not (id == ctrl_ch) in
          bind-OfOk (Holds free) P (guard free reserved_id) _ (guard-OfOk free reserved_id) (λ w i.
            bind-OfOk (IsBaudFor mode) P (mcu_baud mode rest) _ (mcu_baud-OfOk mode rest)
              (λ baud b. (ground (arith, i, u), refl, b)))))

abbrev pub AllAccepted : Mode → List (List ℕ) → List McuSpec → Type 0
AllAccepted mode [] [] = Unit {0}
AllAccepted mode (t ∷ ts) (c ∷ cs) = IsAccepted mode (third (split t)) c × AllAccepted mode ts cs
AllAccepted mode _ _ = ⊥

parse_channel_specs-OfOk :
    (mode : Mode) (texts : List (List ℕ))
    → OfOk (AllAccepted mode texts) (parse_channel_specs mode texts)
unfolding parse_channel_specs parse_channel_spec
parse_channel_specs-OfOk mode [] = tt
parse_channel_specs-OfOk mode (t ∷ ts) =
    bind-OfOk (IsAccepted mode (third (split t))) (AllAccepted mode (t ∷ ts))
      (parse_parts mode (split t)) _ (parse_parts-OfOk mode (split t))
      (λ c h.
        bind-OfOk (AllAccepted mode ts) (AllAccepted mode (t ∷ ts)) (parse_channel_specs mode ts) _
          (parse_channel_specs-OfOk mode ts) (λ cs k. (h, k)))

abbrev pub Distinct : List ℕ → List McuSpec → Type 0
Distinct seen [] = Unit {0}
Distinct seen (c ∷ cs) = (is_member c.ch_id seen ≡ false) × Distinct (c.ch_id ∷ seen) cs

duplicate-Distinct :
    (seen : List ℕ) (cs : List McuSpec) → duplicate seen cs ≡ none → Distinct seen cs
unfolding duplicate
duplicate-Distinct seen [] e = tt
duplicate-Distinct seen (c ∷ cs) e =
    (ground arith, duplicate-Distinct (c.ch_id ∷ seen) cs (ground arith))

-- The side of the link that a function serves, and whether it ends Klipper's transport.
abbrev pub side : Runner → Mode
side run_smart_exporter = exporter
side run_exporter = exporter
side run_smart_host = host
side run_host = host

abbrev pub is_smart : Runner → Bool
is_smart run_smart_exporter = true
is_smart run_exporter = false
is_smart run_smart_host = true
is_smart run_host = false

runner-side :
    (mode : Mode) (smart : Bool)
    → (side (runner mode smart) ≡ mode) × (is_smart (runner mode smart) ≡ smart)
unfolding runner
runner-side exporter true = (refl, refl)
runner-side exporter false = (refl, refl)
runner-side host true = (refl, refl)
runner-side host false = (refl, refl)

abbrev Accepted : Mode → Bool → List (List ℕ) → Runner → List McuSpec → Type 0
Accepted mode smart texts r cs =
    (side r ≡ mode) × (is_smart r ≡ smart) × AllAccepted mode texts cs × Distinct [] cs

unique-Accepted :
    (mode : Mode) (smart : Bool) (texts : List (List ℕ)) (r : Runner) (cs ds : List McuSpec)
    → AllAccepted mode texts ds
    → (o : Option ℕ) → duplicate [] ds ≡ o
    → run_unique (runner mode smart) ds o ≡ some (r, cs)
    → Accepted mode smart texts r cs
unique-Accepted mode smart texts r cs ds h none d e =
    let runs : runner mode smart ≡ r = cc e in
    let same : ds ≡ cs = cc e in
    (
      subst (λ x. side x ≡ mode) runs (runner-side mode smart).0,
      subst (λ x. is_smart x ≡ smart) runs (runner-side mode smart).1,
      subst (AllAccepted mode texts) same h,
      subst (Distinct []) same (duplicate-Distinct [] ds d),
    )
unique-Accepted mode smart texts r cs ds h (some id) d e = absurd (cc e)

parsed-Accepted :
    (mode : Mode) (smart : Bool) (texts : List (List ℕ)) (r : Runner) (cs : List McuSpec)
    → (o : Parsed (List McuSpec)) → OfOk (AllAccepted mode texts) o
    → run_parsed (runner mode smart) o ≡ some (r, cs)
    → Accepted mode smart texts r cs
unfolding validate_unique_channel_ids
parsed-Accepted mode smart texts r cs (err k) h e = absurd (cc e)
parsed-Accepted mode smart texts r cs (ok ds) h e =
    unique-Accepted mode smart texts r cs ds h (duplicate [] ds) refl e

-- Arguments that `main` accepts name channels whose ids are below that of the control channel and
-- all different, each with the path in its text and a standard baud rate, or none for the host, and
-- `main` runs on them the function for the side of the link that the mode names, the smart one just
-- when that was asked for.
pub main-IsAccepted :
    (mode : Mode) (smart : Bool) (texts : List (List ℕ)) (r : Runner) (cs : List McuSpec)
    → main mode smart texts ≡ some (r, cs)
    → (side r ≡ mode) × (is_smart r ≡ smart) × AllAccepted mode texts cs × Distinct [] cs
unfolding main
main-IsAccepted mode smart texts r cs e =
    parsed-Accepted mode smart texts r cs (parse_channel_specs mode texts)
      (parse_channel_specs-OfOk mode texts) e

member-small :
    (mode : Mode) (texts : List (List ℕ)) (cs : List McuSpec) (i : ℕ)
    → AllAccepted mode texts cs
    → is_member i (map (λ c. c.ch_id) cs) ≡ true
    → (i == ctrl_ch) ≡ false
member-small mode [] [] i h m = absurd (cc m)
member-small mode (t ∷ ts) [] i h m = absurd h
member-small mode [] (c ∷ cs) i h m = absurd h
member-small mode (t ∷ ts) (c ∷ cs) i h m = elim (Bool-cases (i == c.ch_id)) [
  | inl e ↦ ground (arith, h.0.0)
  | inr e ↦ member-small mode ts cs i h.1 (ground arith)
]

-- The smart host that `main` runs sends the connection on each of its channels the payloads with the
-- id of that channel, in the order in which it reads them, and no others: none is taken for a
-- control frame.
pub main-demux :
    (texts : List (List ℕ)) (r : Runner) (cs : List McuSpec)
    → main host true texts ≡ some (r, cs)
    → (i : ℕ) → is_member i (map (λ c. c.ch_id) cs) ≡ true
    → (v : Vlq) (l : List PayloadTunnelFrame) (h : SmartHost)
    → (demux_all v l h).slots i ≡ sent (payloads_for i l) (h.slots i)
main-demux texts r cs e i m v l h =
    let accepted = main-IsAccepted host true texts r cs e in
    (demux_all_lem v l h).1 i (member-small host texts cs i accepted.2 m)
