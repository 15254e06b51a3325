-- ===== src/Base/Members.antt =====
-- Whether a number is in a list.
use Prim.Native.Nat.{ℕ}
use mathlib.Core.Path.{◌≡◌, refl}
use mathlib.Core.List.{List, [], ◌∷◌, ◌++◌}
use mathlib.Core.Bool.{Bool, true, false, ◌||◌}
use native.Mathlib.Omega.{arith}
use pik.Base.Tests.{◌==◌, if◌then◌else◌}

-- `contains`
abbrev pub is_member : ℕ → List ℕ → Bool
is_member a [] = false
is_member a (b ∷ bs) = let rest = is_member a bs in a == b || rest

pub is_member-snoc : (a b : ℕ) (xs : List ℕ) → is_member a (xs ++ (b ∷ [])) ≡ (is_member a (b ∷ xs))
is_member-snoc a b [] = refl
is_member-snoc a b (x ∷ xs) = ground (arith, is_member-snoc a b xs)

-- A map as a function, with a new value for one key.
abbrev pub update {ℓ} : {A : Type ℓ} → (ℕ → A) → ℕ → A → ℕ → A
update f i a j = if i == j then a else f j

abbrev pub one_if {ℓ} : {A : Type ℓ} → Bool → A → List A
one_if true a = a ∷ []
one_if false a = []
