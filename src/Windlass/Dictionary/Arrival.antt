-- ===== src/Windlass/Dictionary/Arrival.antt =====
-- A dictionary that is sent arrives, whatever the other channels send in between.
use pik.Base.{
  ◌/◌, ℕ, zero, suc, ◌+◌, ◌≤◌, ◌≡◌, refl, ap, sym, ◌∙◌, Bool, true, false, List, [], ◌∷◌, ◌++◌,
  length, take, drop, leb, ◌==◌, ==_refl, if◌then◌else◌, arith, Bool-cases, inl, inr, append_assoc,
  append-nil, ap₂, take-append-drop, length-take, length-drop, take_all,
}
use pik.Windlass.Framing.{PayloadTunnelFrame, dict_frag_max}
use pik.Windlass.Dictionary.{
  chunks_from, fragments, send_dictionary, Dicts, insert, gather, gather_dictionary,
}

-- What is published for one channel, in order.
abbrev pub for_channel : ℕ → List (ℕ × List ℕ) → List (List ℕ)
for_channel c [] = []
for_channel c ((i, dict) ∷ l) = let rest = for_channel c l in if i == c then dict ∷ rest else rest

-- The control payloads of one channel.
abbrev pub is_for : ℕ → List ℕ → Bool
is_for c [] = false
is_for c (t ∷ []) = false
is_for c (t ∷ i ∷ bytes) = i == c

abbrev pub only : ℕ → List (List ℕ) → List (List ℕ)
only c [] = []
only c (p ∷ ps) = let rest = only c ps in if is_for c p then p ∷ rest else rest

abbrev pub payloads : List PayloadTunnelFrame → List (List ℕ)
payloads [] = []
payloads (x ∷ xs) = x.payload ∷ payloads xs

for_channel-append :
    (c : ℕ) (l m : List (ℕ × List ℕ)) → for_channel c (l ++ m) ≡ for_channel c l ++ for_channel c m
for_channel-append c [] m = refl
for_channel-append c ((i, d) ∷ l) m = ground (arith, for_channel-append c l m)

-- A payload of another channel changes nothing for this one.
gather-other :
    (watched : ℕ → Bool) (c : ℕ) (p : List ℕ) (dicts : Dicts)
    → is_for c p ≡ false
    → ((gather watched p dicts).0 c ≡ dicts c) × (for_channel c (gather watched p dicts).1 ≡ [])
unfolding gather
gather-other watched c [] dicts h = (refl, refl)
gather-other watched c (t ∷ []) dicts h = (refl, refl)
gather-other watched c (t ∷ i ∷ bytes) dicts h = elim (Bool-cases (watched i)) [
  | inl w ↦ ground arith
  | inr w ↦ ground arith
]

-- What one channel sees of the gatherer depends on its own payloads and its own entry alone.
gather-same :
    (watched : ℕ → Bool) (c : ℕ) (p : List ℕ) (dicts dicts' : Dicts)
    → is_for c p ≡ true
    → dicts c ≡ dicts' c
    → ((gather watched p dicts).0 c ≡ (gather watched p dicts').0 c)
      × (for_channel c (gather watched p dicts).1 ≡ for_channel c (gather watched p dicts').1)
unfolding gather
gather-same watched c [] dicts dicts' h e = absurd (ground arith)
gather-same watched c (t ∷ []) dicts dicts' h e = absurd (ground arith)
gather-same watched c (t ∷ i ∷ bytes) dicts dicts' h e = elim (Bool-cases (watched i)) [
  | inl w ↦ ground arith
  | inr w ↦ ground arith
]

-- So only the payloads of the channel matter.
pub gather_dictionary-only :
    (watched : ℕ → Bool) (c : ℕ) (ps : List (List ℕ)) (dicts dicts' : Dicts)
    → dicts c ≡ dicts' c
    → let (all, l) = gather_dictionary watched ps dicts in
      let (own, m) = gather_dictionary watched (only c ps) dicts' in
      (all c ≡ own c) × (for_channel c l ≡ for_channel c m)
unfolding gather_dictionary
gather_dictionary-only watched c [] dicts dicts' e = (e, refl)
gather_dictionary-only watched c (p ∷ ps) dicts dicts' e = elim (Bool-cases (is_for c p)) [
  | inl own ↦
      let here = gather-same watched c p dicts dicts' own e in
      let later =
        gather_dictionary-only watched c ps (gather watched p dicts).0 (gather watched p dicts').0
          here.0 in
      rw own (
        later.0,
        for_channel-append c _ _ ∙ ap₂ ◌++◌ here.1 later.1 ∙ sym (for_channel-append c _ _),
      )
  | inr other ↦
      let here = gather-other watched c p dicts other in
      let later =
        gather_dictionary-only watched c ps (gather watched p dicts).0 dicts' (here.0 ∙ e) in
      rw other (later.0, for_channel-append c _ _ ∙ ap₂ ◌++◌ here.1 later.1)
]

abbrev pub concat : List (List ℕ) → List ℕ
concat [] = []
concat (chunk ∷ chunks) = chunk ++ concat chunks

pub gather-fragments :
    (watched : ℕ → Bool) (c : ℕ) (chunks : List (List ℕ)) (dicts : Dicts)
    → watched c ≡ true
    → let (dicts', l) = gather_dictionary watched (payloads (fragments c chunks)) dicts in
      (dicts' c ≡ []) × (for_channel c l ≡ (dicts c ++ concat chunks) ∷ [])
unfolding gather_dictionary gather fragments
gather-fragments watched c [] dicts w = ground (arith, ==_refl c, append-nil (dicts c))
gather-fragments watched c (chunk ∷ chunks) dicts w =
    let more : Dicts = insert dicts c (dicts c ++ chunk) in
    let same : more c ≡ dicts c ++ chunk = ground (arith, ==_refl c) in
    let later = gather-fragments watched c chunks more w in
    (
      later.0,
      later.1
          ∙ ap (λ (k : List ℕ). (k ++ concat chunks) ∷ []) same
          ∙ ap (λ (k : List ℕ). k ∷ []) (append_assoc (dicts c) chunk (concat chunks)),
    )

pub concat-chunks_from : (fuel : ℕ) (d : List ℕ) → length d ≤ fuel → concat (chunks_from fuel d) ≡ d
unfolding chunks_from
concat-chunks_from zero [] h = refl
concat-chunks_from zero (x ∷ d) h = absurd (omega arith)
concat-chunks_from (suc fuel) [] h = refl
concat-chunks_from (suc fuel) (x ∷ d) h =
    ap (◌++◌ (take dict_frag_max (x ∷ d))) (
      concat-chunks_from fuel (drop dict_frag_max (x ∷ d))
        (omega (arith, length-drop dict_frag_max (x ∷ d))))
    ∙ take-append-drop dict_frag_max (x ∷ d)

-- Every frame of a transfer is one that `PayloadTunnelCodec` can encode.
pub AllEncodable : List PayloadTunnelFrame → Type 0
AllEncodable [] = Unit {0}
AllEncodable (x ∷ xs) = (length x.payload ≤ 255) × AllEncodable xs

fragments-AllEncodable : (c fuel : ℕ) (d : List ℕ) → AllEncodable (fragments c (chunks_from fuel d))
unfolding chunks_from fragments AllEncodable
fragments-AllEncodable c zero d = (omega arith, tt)
fragments-AllEncodable c (suc fuel) [] = (omega arith, tt)
fragments-AllEncodable c (suc fuel) (x ∷ d) = (
  omega (arith, length-take dict_frag_max (x ∷ d)),
  fragments-AllEncodable c fuel (drop dict_frag_max (x ∷ d)),
)

-- A dictionary of which every frame was sent arrives whole: the host publishes it for its channel,
-- once, and nothing else for that channel, whatever control payloads of other channels come in
-- between, if the channel has a watch and no part of a dictionary was waiting for it; and nothing
-- is left waiting.
pub gather-send_dictionary :
    (watched : ℕ → Bool) (c sends : ℕ) (d : List ℕ) (ps : List (List ℕ)) (dicts : Dicts)
    → watched c ≡ true
    → dicts c ≡ []
    → (send_dictionary sends c d).0 ≡ true
    → only c ps ≡ payloads (send_dictionary sends c d).1
    → let (dicts', l) = gather_dictionary watched ps dicts in
      (for_channel c l ≡ d ∷ []) × (dicts' c ≡ [])
unfolding send_dictionary
gather-send_dictionary watched c sends d ps dicts w e s o =
    let frames = fragments c (chunks_from (length d) d) in
    let fits : length frames ≤ sends = ground arith in
    let own : only c ps ≡ payloads frames = o ∙ ap payloads (take_all sends frames fits) in
    let all = gather_dictionary-only watched c ps dicts dicts refl in
    let sent = gather-fragments watched c (chunks_from (length d) d) dicts w in
    let whole = concat-chunks_from (length d) d (omega arith) in
    (
      all.1
          ∙ ap (λ qs. for_channel c (gather_dictionary watched qs dicts).1) own
          ∙ sent.1
          ∙ ap (λ (k : List ℕ). k ∷ [])
              (ap (λ (k : List ℕ). k ++ concat (chunks_from (length d) d)) e ∙ whole),
      all.0 ∙ ap (λ qs. (gather_dictionary watched qs dicts).0 c) own ∙ sent.0,
    )

AllEncodable-take :
    (n : ℕ) (xs : List PayloadTunnelFrame) → AllEncodable xs → AllEncodable (take n xs)
unfolding AllEncodable
AllEncodable-take zero xs h = tt
AllEncodable-take (suc n) [] h = tt
AllEncodable-take (suc n) (x ∷ xs) h = (h.0, AllEncodable-take n xs h.1)

length-fragments :
    (c : ℕ) (chunks : List (List ℕ)) → length (fragments c chunks) ≡ suc (length chunks)
unfolding fragments
length-fragments c [] = refl
length-fragments c (chunk ∷ chunks) = ap suc (length-fragments c chunks)

length-chunks_from :
    (fuel : ℕ) (d : List ℕ)
    → length d ≤ fuel
    → length (chunks_from fuel d) ≡ (length d + 252) / dict_frag_max
unfolding chunks_from
length-chunks_from zero [] h = refl
length-chunks_from zero (x ∷ d) h = absurd (omega arith)
length-chunks_from (suc fuel) [] h = refl
length-chunks_from (suc fuel) (x ∷ d) h =
    let less = length-drop dict_frag_max (x ∷ d) in
    let later = length-chunks_from fuel (drop dict_frag_max (x ∷ d)) (omega (arith, less)) in
    omega (arith, less, later)

-- `send_dictionary` fails just when fewer sends succeed than one for each 253 bytes begun and one
-- for the end; each frame that it sends is one that `PayloadTunnelCodec` can encode.
pub send_dictionary_lem :
    (sends c : ℕ) (d : List ℕ)
    → ((send_dictionary sends c d).0 ≡ leb ((length d + 252) / dict_frag_max + 1) sends)
      × AllEncodable (send_dictionary sends c d).1
unfolding send_dictionary
send_dictionary_lem sends c d =
    let count = length-chunks_from (length d) d (omega arith) in
    (
      ap (λ n. leb n sends) (omega (arith, length-fragments c (chunks_from (length d) d), count)),
      AllEncodable-take sends _ (fragments-AllEncodable c (length d) d),
    )
