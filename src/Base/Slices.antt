-- ===== src/Base/Slices.antt =====
-- Reading and overwriting runs of an array.
use Prim.Native.Nat.{ℕ, zero, suc, ◌+◌, ◌-◌, ◌≤◌, ◌<◌}
use mathlib.Core.Path.{◌≡◌, refl, ap, ap₂, ◌∙◌}
use mathlib.Core.List.{List, [], ◌∷◌, ◌++◌}
use native.Mathlib.Omega.{arith}
use pik.Base.Lists.{length, get_or, take, drop}

module _ {ℓ} {A : Type ℓ} where
  -- `buf[i..i + xs.len()].copy_from_slice(xs)`; what would fall outside the array is not written.
  abbrev pub copy_at : List A → ℕ → List A → List A
  copy_at [] i xs = []
  copy_at (b ∷ bs) (suc i) xs = b ∷ copy_at bs i xs
  copy_at (b ∷ bs) zero [] = b ∷ bs
  copy_at (b ∷ bs) zero (x ∷ xs) = x ∷ copy_at bs zero xs

  -- `f(0), …, f(n - 1)`
  abbrev pub tabulate : ℕ → (ℕ → A) → List A
  tabulate zero f = []
  tabulate (suc n) f = f 0 ∷ tabulate n (λ k. f (suc k))

  pub length-copy_at : (b : List A) (i : ℕ) (xs : List A) → length (copy_at b i xs) ≡ length b
  length-copy_at [] i xs = refl
  length-copy_at (b ∷ bs) (suc i) xs = ap suc (length-copy_at bs i xs)
  length-copy_at (b ∷ bs) zero [] = refl
  length-copy_at (b ∷ bs) zero (x ∷ xs) = ap suc (length-copy_at bs zero xs)

  -- A read of what was written, and of what was left alone.
  pub get_or-copy_at_in :
      (b : List A) (i : ℕ) (xs : List A) (k j : ℕ) (d : A)
      → j ≡ i + k
      → k < length xs
      → j < length b
      → get_or (copy_at b i xs) j d ≡ get_or xs k d
  get_or-copy_at_in [] i xs k j d e h p = absurd (omega arith)
  get_or-copy_at_in (b ∷ bs) (suc i) xs k zero d e h p = absurd (omega arith)
  get_or-copy_at_in (b ∷ bs) (suc i) xs k (suc j) d e h p =
      get_or-copy_at_in bs i xs k j d (omega arith) h (omega arith)
  get_or-copy_at_in (b ∷ bs) zero [] k j d e h p = absurd (omega arith)
  get_or-copy_at_in (b ∷ bs) zero (x ∷ xs) zero zero d e h p = refl
  get_or-copy_at_in (b ∷ bs) zero (x ∷ xs) zero (suc j) d e h p = absurd (omega arith)
  get_or-copy_at_in (b ∷ bs) zero (x ∷ xs) (suc k) zero d e h p = absurd (omega arith)
  get_or-copy_at_in (b ∷ bs) zero (x ∷ xs) (suc k) (suc j) d e h p =
      get_or-copy_at_in bs zero xs k j d (omega arith) (omega arith) (omega arith)

  pub get_or-copy_at_before :
      (b : List A) (i : ℕ) (xs : List A) (j : ℕ) (d : A)
      → j < i
      → get_or (copy_at b i xs) j d ≡ get_or b j d
  get_or-copy_at_before [] i xs j d h = refl
  get_or-copy_at_before (b ∷ bs) zero xs j d h = absurd (omega arith)
  get_or-copy_at_before (b ∷ bs) (suc i) xs zero d h = refl
  get_or-copy_at_before (b ∷ bs) (suc i) xs (suc j) d h =
      get_or-copy_at_before bs i xs j d (omega arith)

  pub get_or-copy_at_after :
      (b : List A) (i : ℕ) (xs : List A) (j : ℕ) (d : A)
      → i + length xs ≤ j
      → get_or (copy_at b i xs) j d ≡ get_or b j d
  get_or-copy_at_after [] i xs j d h = refl
  get_or-copy_at_after (b ∷ bs) (suc i) xs zero d h = absurd (omega arith)
  get_or-copy_at_after (b ∷ bs) (suc i) xs (suc j) d h =
      get_or-copy_at_after bs i xs j d (omega arith)
  get_or-copy_at_after (b ∷ bs) zero [] j d h = refl
  get_or-copy_at_after (b ∷ bs) zero (x ∷ xs) zero d h = absurd (omega arith)
  get_or-copy_at_after (b ∷ bs) zero (x ∷ xs) (suc j) d h =
      get_or-copy_at_after bs zero xs j d (omega arith)

  pub length-tabulate : (n : ℕ) (f : ℕ → A) → length (tabulate n f) ≡ n
  length-tabulate zero f = refl
  length-tabulate (suc n) f = ap suc (length-tabulate n (λ k. f (suc k)))

  pub tabulate_ext :
      (n : ℕ) (f g : ℕ → A) → ((k : ℕ) → k < n → f k ≡ g k) → tabulate n f ≡ tabulate n g
  tabulate_ext zero f g h = refl
  tabulate_ext (suc n) f g h =
      ap₂ ◌∷◌ (h 0 (omega arith)) (tabulate_ext n _ _ (λ k p. h (suc k) (omega arith)))

  pub tabulate-append :
      (m n : ℕ) (f : ℕ → A) → tabulate (m + n) f ≡ tabulate m f ++ tabulate n (λ k. f (m + k))
  tabulate-append zero n f =
      let e : zero + n ≡ n = omega arith in
      ap (λ j. tabulate j f) e ∙ tabulate_ext n f (λ k. f (zero + k)) (λ k p. ap f (omega arith))
  tabulate-append (suc m) n f =
      let e : suc m + n ≡ suc (m + n) = omega arith in
      ap (λ j. tabulate j f) e
      ∙ ap (◌∷◌ (f 0)) (
          tabulate-append m n (λ k. f (suc k))
          ∙ ap (◌++◌ (tabulate m (λ k. f (suc k)))) (
              tabulate_ext n (λ k. f (suc (m + k))) (λ k. f (suc m + k))
                (λ k p. ap f (omega arith))))

  -- A list is the table of its entries.
  pub tabulate-get_or : (xs : List A) (d : A) → tabulate (length xs) (λ k. get_or xs k d) ≡ xs
  tabulate-get_or [] d = refl
  tabulate-get_or (x ∷ xs) d = ap (◌∷◌ x) (tabulate-get_or xs d)

  pub drop-tabulate :
      (m n : ℕ) (f : ℕ → A) → m ≤ n → drop m (tabulate n f) ≡ tabulate (n - m) (λ k. f (m + k))
  drop-tabulate zero n f h =
      let e : n ≡ n - 0 = omega arith in
      ap (λ j. tabulate j f) e
      ∙ tabulate_ext (n - 0) f (λ k. f (zero + k)) (λ k p. ap f (omega arith))
  drop-tabulate (suc m) zero f h = absurd (omega arith)
  drop-tabulate (suc m) (suc n) f h =
      let e : n - m ≡ suc n - suc m = omega arith in
      drop-tabulate m n (λ k. f (suc k)) (omega arith)
      ∙ ap (λ j. tabulate j (λ k. f (suc (m + k)))) e
      ∙ tabulate_ext (suc n - suc m) (λ k. f (suc (m + k))) (λ k. f (suc m + k))
          (λ k p. ap f (omega arith))

  pub take-tabulate : (m n : ℕ) (f : ℕ → A) → m ≤ n → take m (tabulate n f) ≡ tabulate m f
  take-tabulate zero n f h = refl
  take-tabulate (suc m) zero f h = absurd (omega arith)
  take-tabulate (suc m) (suc n) f h =
      ap (◌∷◌ (f 0)) (take-tabulate m n (λ k. f (suc k)) (omega arith))

  -- A run of an array, entry by entry.
  pub take-drop-tabulate :
      (n h : ℕ) (b : List A) (d : A)
      → h + n ≤ length b
      → take n (drop h b) ≡ tabulate n (λ k. get_or b (h + k) d)
  take-drop-tabulate n zero b d p =
      take_table n b d (omega arith)
      ∙ tabulate_ext n (λ k. get_or b k d) (λ k. get_or b (zero + k) d)
          (λ k q. ap (λ i. get_or b i d) (omega arith))
    where
      take_table :
          (n : ℕ) (b : List A) (d : A) → n ≤ length b → take n b ≡ tabulate n (λ k. get_or b k d)
      take_table zero b d p = refl
      take_table (suc n) [] d p = absurd (omega arith)
      take_table (suc n) (x ∷ b) d p = ap (◌∷◌ x) (take_table n b d (omega arith))
  take-drop-tabulate zero (suc h) [] d p = refl
  take-drop-tabulate (suc n) (suc h) [] d p = absurd (omega arith)
  take-drop-tabulate n (suc h) (x ∷ b) d p =
      take-drop-tabulate n h b d (omega arith)
      ∙ tabulate_ext n (λ k. get_or b (h + k) d) (λ k. get_or (x ∷ b) (suc h + k) d)
          (λ k q. let e : suc (h + k) ≡ suc h + k = omega arith in ap (λ i. get_or (x ∷ b) i d) e)
