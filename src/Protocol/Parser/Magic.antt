-- ===== src/Protocol/Parser/Magic.antt =====
-- The search for the magic pair, in a buffer that grows at its end.
use pik.Base.{
  ℕ, suc, ◌-◌, ◌≤◌, ◌≡◌, ◌≢◌, refl, ap, inl, inr, ◌&&◌, Bool-cases, List, [], ◌∷◌, ◌++◌, none, some,
  length, get_or, ◌==◌, arith,
}
use pik.Protocol.Parser.{find_magic, keep_last}

pub find_magic_self : (a : List ℕ) {b : List ℕ} → find_magic a ≡ some b → find_magic b ≡ some b
unfolding find_magic
find_magic_self [] h = ground arith
find_magic_self (x ∷ []) h = ground arith
find_magic_self (x ∷ y ∷ r) {b} h = ground (arith, find_magic_self (y ∷ r) {b = b})

pub length-find_magic :
    (a : List ℕ) {b : List ℕ} → find_magic a ≡ some b → (2 ≤ length b) × (length b ≤ length a)
unfolding find_magic
length-find_magic [] h = ground arith
length-find_magic (x ∷ []) h = ground arith
length-find_magic (x ∷ y ∷ r) {b} h = ground (arith, length-find_magic (y ∷ r) {b = b})

pub find_magic-append :
    (a c : List ℕ) {b : List ℕ} → find_magic a ≡ some b → find_magic (a ++ c) ≡ some (b ++ c)
unfolding find_magic
find_magic-append [] c h = ground arith
find_magic-append (x ∷ []) c h = ground arith
find_magic-append (x ∷ y ∷ r) c {b} h = ground (arith, find_magic-append (y ∷ r) c {b = b})

keep_last-cons : (x y : ℕ) (r : List ℕ) → keep_last (x ∷ y ∷ r) ≡ keep_last (y ∷ r)
unfolding keep_last
keep_last-cons x y r =
    let e : suc (suc (length r)) - 1 ≡ suc (suc (length r) - 1) = omega arith in
    ap (λ n. get_or (x ∷ y ∷ r) n 0 ∷ []) e

-- Where there is no pair, only the last byte counts for what comes.
pub find_magic-keep_last :
    (a c : List ℕ)
    → a ≢ []
    → find_magic a ≡ none
    → find_magic (a ++ c) ≡ find_magic (keep_last a ++ c)
unfolding find_magic
find_magic-keep_last [] c ne h = absurd (ne refl)
find_magic-keep_last (x ∷ []) c ne h = unfold keep_last in refl
find_magic-keep_last (x ∷ y ∷ r) c ne h =
    ground (arith, keep_last-cons x y r, find_magic-keep_last (y ∷ r) c)

pub keep_last-append : (a c : List ℕ) → a ≢ [] → keep_last (a ++ c) ≡ keep_last (keep_last a ++ c)
keep_last-append [] c ne = absurd (ne refl)
keep_last-append (x ∷ []) c ne = unfold keep_last in refl
keep_last-append (x ∷ y ∷ r) c ne =
    rw (keep_last-cons x y (r ++ c), keep_last-cons x y r) (keep_last-append (y ∷ r) c (λ e. cc))

-- The bytes in front of the pair.
pub find_magic-suffix :
    (a : List ℕ) {b : List ℕ} → find_magic a ≡ some b → (p : List ℕ) × (a ≡ p ++ b)
unfolding find_magic
find_magic-suffix [] h = absurd (ground arith)
find_magic-suffix (x ∷ []) h = absurd (ground arith)
find_magic-suffix (x ∷ y ∷ r) {b} h = elim (Bool-cases (x == 0xAA && y == 0x55)) [
  | inl found ↦ ([], ground arith)
  | inr other ↦
      let (p, e) = find_magic-suffix (y ∷ r) {b = b} (ground arith) in (x ∷ p, ap (◌∷◌ x) e)
]
