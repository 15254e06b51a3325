-- ===== src/Cli/Sound.antt =====
-- What the value parsers of the command line accept.
use pik.Base.{
  ℕ, ◌-◌, ◌^◌, ◌≤◌, ◌<◌, ◌≡◌, refl, subst, Bool, true, false, List, [], ◌∷◌, Option, none, some,
  ◌||◌, ◌&&◌, ◌+◌, ◌*◌, leb, ltb, is_member, Bool-cases, inl, inr, arith,
}
use pik.Channel.Token.{max_channel_id}
use pik.Cli.Text.{split, same_text, digits, parse_uint, some_digits, signless}
use pik.Cli.{
  Mode, exporter, host, ChannelSpec, mcu_exporter, mcu_host, tcp_exporter, tcp_host, CliError,
  Parsed, ok, err, ◌>>=◌, or_error, guard, valid_bauds, parse_standard_baud, parse_tcp_port, fourth,
  mcu_text, tcp_text, mcu_baud, mcu_spec, tcp_spec, parse_kind, parse_parts, parse_channel_spec,
  bad_baud, odd_baud, wrong_parts, bad_port, unknown_type, bad_id, id_too_large,
}

-- What holds of a value, if there is one.
abbrev pub OfOk : {A : Type 0} → (A → Type 0) → Parsed A → Type 0
OfOk P (ok a) = P a
OfOk P (err e) = Unit {0}

abbrev pub OfSome : {A : Type 0} → (A → Type 0) → Option A → Type 0
OfSome P (some a) = P a
OfSome P none = Unit {0}

pub bind-OfOk :
    {A B : Type 0} (P : A → Type 0) (Q : B → Type 0) (m : Parsed A) (f : A → Parsed B)
    → OfOk P m
    → ((a : A) → P a → OfOk Q (f a))
    → OfOk Q (m >>= f)
bind-OfOk P Q (ok a) f h k = k a h
bind-OfOk P Q (err e) f h k = tt

pub or_error-OfOk :
    {A : Type 0} (P : A → Type 0) (e : CliError) (o : Option A) → OfSome P o → OfOk P (or_error e o)
or_error-OfOk P e (some a) h = h
or_error-OfOk P e none h = tt

pub guard-OfOk : (b : Bool) (e : CliError) → OfOk (λ (u : Unit {0}). b ≡ true) (guard b e)
guard-OfOk true e = refl
guard-OfOk false e = tt

anything : {A : Type 0} (o : Option A) → OfSome (λ (a : A). Unit {0}) o
anything (some a) = tt
anything none = tt

digits-le : (max acc : ℕ) (cs : List ℕ) → acc ≤ max → OfSome (λ v. v ≤ max) (digits max acc cs)
unfolding digits
digits-le max acc [] h = h
digits-le max acc (c ∷ cs) h =
    elim (Bool-cases ((leb 48 c && leb c 57) && leb (acc * 10 + (c - 48)) max)) [
      | inl e ↦ rw e (digits-le max (acc * 10 + (c - 48)) cs (ground arith))
      | inr e ↦ rw e tt
    ]

some_digits-le : (max : ℕ) (s : List ℕ) → OfSome (λ v. v ≤ max) (some_digits max s)
some_digits-le max [] = tt
some_digits-le max (c ∷ cs) = digits-le max 0 (c ∷ cs) (omega arith)

pub parse_uint-le : (max : ℕ) (s : List ℕ) → OfSome (λ v. v ≤ max) (parse_uint max s)
unfolding parse_uint
parse_uint-le max s = some_digits-le max (signless s)

abbrev pub IsBaud : ℕ → Type 0
IsBaud baud = is_member baud valid_bauds ≡ true

abbrev pub Any : {A : Type 0} → A → Type 0
Any a = Unit {0}

abbrev pub Holds : Bool → Unit {0} → Type 0
Holds b u = b ≡ true

pub parse_standard_baud-OfOk : (raw : List ℕ) → OfOk IsBaud (parse_standard_baud raw)
unfolding parse_standard_baud
parse_standard_baud-OfOk raw =
    let number = parse_uint (2 ^ 32 - 1) raw in
    bind-OfOk Any IsBaud (or_error bad_baud number) _
      (or_error-OfOk Any bad_baud number (anything number))
      (λ baud u.
        let known = is_member baud valid_bauds in
        bind-OfOk (Holds known) IsBaud (guard known odd_baud) _ (guard-OfOk known odd_baud)
          (λ v h. h))

abbrev IsPort : ℕ → Type 0
IsPort port = (0 < port) × (port < 2 ^ 16)

parse_tcp_port-OfOk : (raw : Option (List ℕ)) → OfOk IsPort (parse_tcp_port raw)
unfolding parse_tcp_port
parse_tcp_port-OfOk raw =
    bind-OfOk Any IsPort (or_error wrong_parts raw) _
      (or_error-OfOk Any wrong_parts raw (anything raw))
      (λ text u.
        let number = parse_uint (2 ^ 16 - 1) text in
        bind-OfOk (λ v. v ≤ 2 ^ 16 - 1) IsPort (or_error bad_port number) _
          (or_error-OfOk (λ v. v ≤ 2 ^ 16 - 1) bad_port number (parse_uint-le (2 ^ 16 - 1) text))
          (λ port h.
            bind-OfOk (Holds (ltb 0 port)) IsPort (guard (ltb 0 port) bad_port) _
              (guard-OfOk (ltb 0 port) bad_port) (λ v k. (ground (arith, k), omega (arith, h)))))

mcu_baud-OfOk : (mode : Mode) (rest : List (List ℕ)) → OfOk IsBaud (mcu_baud mode rest)
unfolding mcu_baud
mcu_baud-OfOk exporter [] = tt
mcu_baud-OfOk host [] = refl
mcu_baud-OfOk mode (raw ∷ []) = parse_standard_baud-OfOk raw
mcu_baud-OfOk mode (raw ∷ p ∷ ps) = tt

-- A channel for the mode with an id that has a token, and a standard baud rate or a port.
abbrev pub IsAccepted : Mode → List ℕ → ChannelSpec → Type 0
IsAccepted exporter text (mcu_exporter id device baud) =
    (id ≤ max_channel_id) × (device ≡ text) × IsBaud baud
IsAccepted host text (mcu_host id symlink baud) =
    (id ≤ max_channel_id) × (symlink ≡ text) × IsBaud baud
IsAccepted exporter text (tcp_exporter id bind_addr port) =
    (id ≤ max_channel_id) × (bind_addr ≡ text) × IsPort port
IsAccepted host text (tcp_host id dest_addr port) =
    (id ≤ max_channel_id) × (dest_addr ≡ text) × IsPort port
IsAccepted _ _ _ = ⊥

mcu-IsAccepted :
    (mode : Mode) (id : ℕ) (text : List ℕ) (baud : ℕ)
    → id ≤ max_channel_id
    → IsBaud baud
    → IsAccepted mode text (mcu_spec mode id text baud)
mcu-IsAccepted exporter id text baud h k = (h, refl, k)
mcu-IsAccepted host id text baud h k = (h, refl, k)

tcp-IsAccepted :
    (mode : Mode) (id : ℕ) (text : List ℕ) (port : ℕ)
    → id ≤ max_channel_id
    → IsPort port
    → IsAccepted mode text (tcp_spec mode id text port)
tcp-IsAccepted exporter id text port h k = (h, refl, k)
tcp-IsAccepted host id text port h k = (h, refl, k)

parse_kind-OfOk :
    (mode : Mode) (kind : List ℕ) (id : ℕ) (text : List ℕ) (rest : List (List ℕ))
    → id ≤ max_channel_id
    → OfOk (IsAccepted mode text) (parse_kind mode kind id text rest)
unfolding parse_kind
parse_kind-OfOk mode kind id text rest h = elim (Bool-cases (same_text kind mcu_text)) [
  | inl e ↦ rw e (
      bind-OfOk IsBaud (IsAccepted mode text) (mcu_baud mode rest) _ (mcu_baud-OfOk mode rest)
        (λ baud k. mcu-IsAccepted mode id text baud h k))
  | inr e ↦ rw e (
      bind-OfOk IsPort (IsAccepted mode text) (parse_tcp_port (fourth rest)) _
        (parse_tcp_port-OfOk (fourth rest)) (λ port k. tcp-IsAccepted mode id text port h k))
]

-- The third part.
abbrev pub third : List (List ℕ) → List ℕ
third (kind ∷ id ∷ text ∷ rest) = text
third _ = []

parse_parts-OfOk :
    (mode : Mode) (parts : List (List ℕ))
    → OfOk (IsAccepted mode (third parts)) (parse_parts mode parts)
unfolding parse_parts
parse_parts-OfOk mode [] = tt
parse_parts-OfOk mode (kind ∷ []) = tt
parse_parts-OfOk mode (kind ∷ id_text ∷ []) = tt
parse_parts-OfOk mode (kind ∷ id_text ∷ text ∷ rest) =
    let P = IsAccepted mode text in
    let known = same_text kind mcu_text || same_text kind tcp_text in
    bind-OfOk (Holds known) P (guard known unknown_type) _ (guard-OfOk known unknown_type) (λ v k.
      let number = parse_uint 255 id_text in
      bind-OfOk Any P (or_error bad_id number) _ (or_error-OfOk Any bad_id number (anything number))
        (λ id u.
          let small = leb id max_channel_id in
          bind-OfOk (Holds small) P (guard small id_too_large) _ (guard-OfOk small id_too_large)
            (λ w i. parse_kind-OfOk mode kind id text rest (ground (arith, i)))))

-- A channel spec that is accepted names a channel of the program's mode. Its id is at most
-- MAX_CHANNEL_ID, its path or address is the third part of the text, its baud rate is one of the
-- standard ones, and its port is neither 0 nor above 65535.
pub parse_channel_spec-IsAccepted :
    (mode : Mode) (spec : List ℕ) (c : ChannelSpec)
    → parse_channel_spec mode spec ≡ ok c
    → IsAccepted mode (third (split spec)) c
unfolding parse_channel_spec
parse_channel_spec-IsAccepted mode spec c e =
    subst (OfOk (IsAccepted mode (third (split spec)))) e (parse_parts-OfOk mode (split spec))
