-- ===== src/Windlass/Smart/Pipe.antt =====
-- An unbounded `mpsc` channel with the task that receives from it.
use pik.Base.{
  ◌≡◌, refl, sym, subst, ◌∙◌, Bool, true, false, List, [], ◌∷◌, ◌++◌, append_assoc, append-nil,
}

-- What waits, what the task has received and handed on, in order, and whether the task runs.
pub record Pipe (A : Type 0) : Type 0 where
  pub waiting : List A
  pub passed : List A
  pub is_open : Bool

abbrev pub empty : {A : Type 0} → Pipe A
empty = record { waiting = []; passed = []; is_open = true }

abbrev send_if : {A : Type 0} → Bool → A → Pipe A → Pipe A
send_if true x p = record p { waiting = p.waiting ++ (x ∷ []) }
send_if false x p = p

-- `send`, whose error is ignored, and is that the receiver is gone.
abbrev pub send : {A : Type 0} → A → Pipe A → Pipe A
send x p = send_if p.is_open x p

abbrev pub send_all : {A : Type 0} → List A → Pipe A → Pipe A
send_all [] p = p
send_all (x ∷ xs) p = send_all xs (send x p)

abbrev pass_first : {A : Type 0} → List A → Pipe A → Pipe A
pass_first [] p = p
pass_first (x ∷ xs) p = record p { waiting = xs; passed = p.passed ++ (x ∷ []) }

-- `recv`, and what the task does with it.
abbrev pub pass : {A : Type 0} → Pipe A → Pipe A
pass p = pass_first p.waiting p

-- The task ends, and its receiver goes with all that waits.
abbrev pub close : {A : Type 0} → Pipe A → Pipe A
close p = record p { waiting = []; is_open = false }

-- What the task received no more, none while it runs.
abbrev pub LostIfClosed : {A : Type 0} → Bool → List A → Type 0
LostIfClosed true lost = lost ≡ []
LostIfClosed false lost = Unit {0}

-- Of what was sent the first was handed on, the next waits, and the rest is lost.
abbrev pub Carries : {A : Type 0} → List A → Pipe A → Type 0
Carries {A} l p =
    (lost : List A) × (l ≡ p.passed ++ (p.waiting ++ lost)) × LostIfClosed p.is_open lost

pub send-Carries :
    {A : Type 0} (x : A) (l : List A) (p : Pipe A)
    → Carries l p
    → Carries (l ++ (x ∷ [])) (send x p)
send-Carries {A} x l p (lost, e, s) = sends p.is_open refl s
  where
    sends :
        (b : Bool) → p.is_open ≡ b → LostIfClosed b lost → Carries (l ++ (x ∷ [])) (send_if b x p)
    sends true w z = (
      [],
      rw (e, z) (simp (append_assoc, append-nil)),
      subst (λ b. LostIfClosed {A = A} b []) (sym w) refl,
    )
    sends false w z = (
      lost ++ (x ∷ []),
      rw e (simp append_assoc),
      subst (λ b. LostIfClosed b (lost ++ (x ∷ []))) (sym w) tt,
    )

pub send_all-Carries :
    {A : Type 0} (xs l : List A) (p : Pipe A) → Carries l p → Carries (l ++ xs) (send_all xs p)
send_all-Carries [] l p h = subst (λ m. Carries m p) (sym (append-nil l)) h
send_all-Carries (x ∷ xs) l p h =
    subst (λ m. Carries m (send_all xs (send x p))) (append_assoc l (x ∷ []) xs)
      (send_all-Carries xs (l ++ (x ∷ [])) (send x p) (send-Carries x l p h))

pub pass-Carries : {A : Type 0} (l : List A) (p : Pipe A) → Carries l p → Carries l (pass p)
pass-Carries {A} l p (lost, e, s) = shifted p.waiting e
  where
    shifted : (w : List A) → l ≡ p.passed ++ (w ++ lost) → Carries l (pass_first w p)
    shifted [] z = (lost, e, s)
    shifted (x ∷ xs) z = (lost, z ∙ sym (append_assoc p.passed (x ∷ []) (xs ++ lost)), s)

pub close-Carries : {A : Type 0} (l : List A) (p : Pipe A) → Carries l p → Carries l (close p)
close-Carries l p (lost, e, s) = (p.waiting ++ lost, e, tt)
