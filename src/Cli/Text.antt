-- ===== src/Cli/Text.antt =====
-- What serialmux-rs/src/main.rs uses of the standard library's texts. A text is the list of its
-- characters' numbers.
use pik.Base.{
  ℕ, ◌+◌, ◌-◌, ◌*◌, Bool, true, false, List, [], ◌∷◌, Option, none, some, ◌==◌, ◌&&◌, ◌||◌, leb,
  if◌then◌else◌,
}

abbrev pub colon : ℕ
colon = 58

-- `c` in front of the first part
abbrev pub push : ℕ → List (List ℕ) → List (List ℕ)
push c [] = (c ∷ []) ∷ []
push c (p ∷ ps) = (c ∷ p) ∷ ps

-- `split(':')`
unfoldable pub split : List ℕ → List (List ℕ)
split [] = [] ∷ []
split (c ∷ cs) = let rest = split cs in if c == colon then [] ∷ rest else push c rest

abbrev in_front : ℕ → Option (List ℕ × List ℕ) → Option (List ℕ × List ℕ)
in_front c none = none
in_front c (some (a, b)) = some (c ∷ a, b)

-- `split_once(':')`
unfoldable pub split_once : List ℕ → Option (List ℕ × List ℕ)
split_once [] = none
split_once (c ∷ cs) =
    let rest = in_front c (split_once cs) in if c == colon then some ([], cs) else rest

unfoldable pub same_text : List ℕ → List ℕ → Bool
same_text [] [] = true
same_text (a ∷ as') (b ∷ bs) = let rest = same_text as' bs in a == b && rest
same_text _ _ = false

abbrev pub is_digit : ℕ → Bool
is_digit c = leb 48 c && leb c 57

-- `parse` of an unsigned integer up to `max`: a plus sign may stand in front, and a value that is
-- too large at any digit is refused.
unfoldable pub digits : ℕ → ℕ → List ℕ → Option ℕ
digits max acc [] = some acc
digits max acc (c ∷ cs) =
    let value = acc * 10 + (c - 48) in
    let rest = digits max value cs in if is_digit c && leb value max then rest else none

abbrev pub signless : List ℕ → List ℕ
signless [] = []
signless (c ∷ cs) = if c == 43 then cs else c ∷ cs

abbrev pub some_digits : ℕ → List ℕ → Option ℕ
some_digits max [] = none
some_digits max (c ∷ cs) = digits max 0 (c ∷ cs)

unfoldable pub parse_uint : ℕ → List ℕ → Option ℕ
parse_uint max s = some_digits max (signless s)

abbrev is_ascii_hexdigit : ℕ → Bool
is_ascii_hexdigit c = is_digit c || (leb 65 c && leb c 70) || (leb 97 c && leb c 102)

unfoldable pub all_hex : List ℕ → Bool
all_hex [] = true
all_hex (c ∷ cs) = let rest = all_hex cs in is_ascii_hexdigit c && rest

-- On the hexadecimal digits that it is called on.
unfoldable pub to_lowercase : List ℕ → List ℕ
to_lowercase [] = []
to_lowercase (c ∷ cs) =
    let rest = to_lowercase cs in (if leb 65 c && leb c 90 then c + 32 else c) ∷ rest
