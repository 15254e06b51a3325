-- ===== src/Windlass/Relay/Host/Sent.antt =====
-- What the task that writes has done of what it was sent.
use pik.Base.{
  one_if, ℕ, ◌≡◌, refl, ap, sym, subst, ◌∙◌, Bool, true, false, List, [], ◌∷◌, ◌++◌, if◌then◌else◌,
  Bool-cases, inl, inr, append_assoc, append-nil,
}
use pik.Windlass.Relay.Host.{Client, receive, write_next, write_first, stop_writing}

-- What the writing task took no more, none while it runs.
abbrev pub LostIfStopped : Bool → List (List ℕ) → Type 0
LostIfStopped true lost = lost ≡ []
LostIfStopped false lost = Unit {0}

-- Of the frames `l` the first were written, the next wait, and the others are lost.
abbrev pub Sent : List (List ℕ) → Client → Type 0
Sent l k =
    (lost : List (List ℕ)) × (l ≡ k.written ++ (k.inbox ++ lost)) × LostIfStopped k.is_writing lost

pub Sent-receive :
    (l : List (List ℕ)) (f : List ℕ) (k : Client) → Sent l k → Sent (l ++ (f ∷ [])) (receive f k)
Sent-receive l f k (lost, e, s) = elim (Bool-cases k.is_writing) [
  | inl w ↦
      let none_lost : lost ≡ [] = subst (λ b. LostIfStopped b lost) w s in
      subst (Sent (l ++ (f ∷ []))) (sym (writes w))
        ([], appended none_lost, subst (λ b. LostIfStopped b []) (sym w) refl)
  | inr w ↦
      subst (Sent (l ++ (f ∷ []))) (sym (drops w))
        (lost ++ (f ∷ []), lose, subst (λ b. LostIfStopped b (lost ++ (f ∷ []))) (sym w) tt)
]
  where
    writes : k.is_writing ≡ true → receive f k ≡ record k { inbox = k.inbox ++ (f ∷ []) }
    writes w = rw w

    drops : k.is_writing ≡ false → receive f k ≡ k
    drops w = rw w

    appended : lost ≡ [] → l ++ (f ∷ []) ≡ k.written ++ ((k.inbox ++ (f ∷ [])) ++ [])
    appended z = rw (e, z) (simp (append_assoc, append-nil))

    lose : l ++ (f ∷ []) ≡ k.written ++ (k.inbox ++ (lost ++ (f ∷ [])))
    lose = rw e (simp append_assoc)

pub Sent-write_next : (l : List (List ℕ)) (k : Client) → Sent l k → Sent l (write_next k)
unfolding write_next
Sent-write_next l k (lost, e, s) = shifted k.inbox refl
  where
    shifted : (inbox : List (List ℕ)) → k.inbox ≡ inbox → Sent l (write_first inbox k)
    shifted [] z = (lost, e, s)
    shifted (f ∷ fs) z = (
      lost,
      (e ∙ ap (λ i. k.written ++ (i ++ lost)) z)
          ∙ sym (append_assoc k.written (f ∷ []) (fs ++ lost)),
      s,
    )

pub Sent-stop_writing : (l : List (List ℕ)) (k : Client) → Sent l k → Sent l (stop_writing k)
Sent-stop_writing l k (lost, e, s) = (k.inbox ++ lost, e, tt)

-- A step of a connection keeps up with what was routed to it.
pub Sent-if :
    (b : Bool) (f : Client → Client) (l : List (List ℕ)) (k : Client)
    → Sent l (f k)
    → Sent l k
    → Sent l (if b then f k else k)
Sent-if true f l k h h' = h
Sent-if false f l k h h' = h'

pub Sent-receive_if :
    (b : Bool) (frame : List ℕ) (l : List (List ℕ)) (k : Client)
    → Sent l k
    → Sent (l ++ one_if b frame) (if b then receive frame k else k)
Sent-receive_if true frame l k h = Sent-receive l frame k h
Sent-receive_if false frame l k h = subst (λ l. Sent l k) (sym (append-nil l)) h
