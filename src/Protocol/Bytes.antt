-- ===== src/Protocol/Bytes.antt =====
-- Integers as little-endian bytes: `to_le_bytes`, `from_le_bytes`, and the length field that the
-- parser puts together with a shift and an or. A byte is a number below 256.
use Prim.Native.Nat.{bit_or}
use pik.Base.{
  if◌then◌else◌, ℕ, zero, suc, ◌+◌, ◌*◌, ◌/◌, ◌%◌, ◌^◌, ◌<◌, ◌≡◌, refl, Bool, true, false, List, [],
  ◌∷◌, get_or, ◌==◌, arith,
}

abbrev pub u16_le_bytes : ℕ → List ℕ
u16_le_bytes n = (n % 256) ∷ (n / 256 % 256) ∷ []

abbrev pub u32_le_bytes : ℕ → List ℕ
u32_le_bytes n = (n % 256) ∷ (n / 256 % 256) ∷ (n / 65536 % 256) ∷ (n / 16777216 % 256) ∷ []

abbrev pub u16_from_le_bytes : List ℕ → ℕ
u16_from_le_bytes b = get_or b 0 0 + get_or b 1 0 * 256

abbrev pub u32_from_le_bytes : List ℕ → ℕ
u32_from_le_bytes b =
    get_or b 0 0 + get_or b 1 0 * 256 + get_or b 2 0 * 65536 + get_or b 3 0 * 16777216

-- `(lo as usize) | ((hi as usize) << 8)`
unfoldable pub or_shift : ℕ → ℕ → ℕ
or_shift lo hi = bit_or lo (hi * 2 ^ 8)

pub u32_from-to : (n : ℕ) → n < 2 ^ 32 → u32_from_le_bytes (u32_le_bytes n) ≡ n
u32_from-to n h = omega arith

-- Whether the or is the sum for this high byte and every low byte below a bound.
or_agrees : ℕ → ℕ → Bool
or_agrees hi zero = true
or_agrees hi (suc lo) =
    let below = or_agrees hi lo in if bit_or lo (hi * 256) == lo + hi * 256 then below else false

-- Whether that is so for every high byte below a bound.
or_agrees_to : ℕ → Bool
or_agrees_to zero = true
or_agrees_to (suc hi) = let below = or_agrees_to hi in if or_agrees hi 256 then below else false

or_agrees-sum :
    (hi bound lo : ℕ)
    → lo < bound
    → or_agrees hi bound ≡ true
    → bit_or lo (hi * 256) ≡ lo + hi * 256
unfolding or_agrees
or_agrees-sum hi zero lo p h = absurd (omega arith)
or_agrees-sum hi (suc k) lo p h = ground (arith, or_agrees-sum hi k lo)

or_agrees_to-row : (bound hi : ℕ) → hi < bound → or_agrees_to bound ≡ true → or_agrees hi 256 ≡ true
unfolding or_agrees_to
or_agrees_to-row zero hi p h = absurd (omega arith)
or_agrees_to-row (suc k) hi p h = ground (arith, or_agrees_to-row k hi)

bytes_agree : or_agrees_to 256 ≡ true
unfolding or_agrees_to or_agrees
bytes_agree = refl

-- On bytes the two parts share no bit, so the or is a sum.
pub or_shift-eq-add : (lo hi : ℕ) → lo < 256 → hi < 256 → or_shift lo hi ≡ lo + hi * 256
unfolding or_shift
or_shift-eq-add lo hi p q = or_agrees-sum hi 256 lo p (or_agrees_to-row 256 hi q bytes_agree)
