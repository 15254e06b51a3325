-- ===== src/Daemon/Distinct.antt =====
-- The map that Daemon::new makes of channels with distinct ids.
use pik.Base.{
  ℕ, zero, suc, ◌+◌, ◌≡◌, refl, ap, ◌∙◌, false, List, [], ◌∷◌, map, is_member, Option, ◌==◌,
  if◌then◌else◌, arith,
}
use pik.Channel.Interface.{Channel}
use pik.Daemon.{keys, insert_at, insert_channel, collect, new}

-- How often a number is in a list.
abbrev pub times : ℕ → List ℕ → ℕ
times a [] = 0
times a (b ∷ bs) = let rest = times a bs in if a == b then suc rest else rest

-- The same numbers, each as often, in any order.
abbrev pub SameItems : List ℕ → List ℕ → Type 0
SameItems l m = (a : ℕ) → times a l ≡ times a m

insert_at-times :
    {C : Type 0} (a n id : ℕ) (c : C) (m : List (ℕ × C))
    → times a (keys (insert_at n (id, c) m)) ≡ times a (id ∷ keys m)
unfolding insert_at
insert_at-times a n id c [] = refl
insert_at-times a zero id c (y ∷ m) = refl
insert_at-times a (suc n) id c ((i, b) ∷ m) = ground (arith, insert_at-times a n id c m)

insert_at-is_member :
    {C : Type 0} (a n id : ℕ) (c : C) (m : List (ℕ × C))
    → is_member a (keys (insert_at n (id, c) m)) ≡ is_member a (id ∷ keys m)
unfolding insert_at
insert_at-is_member a n id c [] = refl
insert_at-is_member a zero id c (y ∷ m) = refl
insert_at-is_member a (suc n) id c ((i, b) ∷ m) = ground (arith, insert_at-is_member a n id c m)

module _ {C W : Type 0} (ch : Channel C W) (hash : List ℕ → ℕ) where
  -- No id was seen before.
  abbrev pub Distinct : List ℕ → List C → Type 0
  Distinct seen [] = Unit {0}
  Distinct seen (c ∷ cs) =
      (is_member (ch.channel_id c) seen ≡ false) × Distinct (ch.channel_id c ∷ seen) cs

  same_Distinct :
      (s s' : List ℕ) (cs : List C)
      → ((a : ℕ) → is_member a s' ≡ is_member a s)
      → Distinct s cs
      → Distinct s' cs
  same_Distinct s s' [] h d = tt
  same_Distinct s s' (c ∷ cs) h d =
      let id = ch.channel_id c in
      (h id ∙ d.0, same_Distinct (id ∷ s) (id ∷ s') cs (λ a. let k = h a in ground (arith, k)) d.1)

  inserted :
      (place : ℕ → List ℕ → ℕ) (id : ℕ) (c : C) (m : List (ℕ × C))
      → is_member id (keys m) ≡ false
      → insert_channel place id c m ≡ insert_at (place id (keys m)) (id, c) m
  unfolding insert_channel
  inserted place id c m h = rw (h, insert_channel) refl

  collect-times :
      (place : ℕ → List ℕ → ℕ) (a : ℕ) (m : List (ℕ × C)) (cs : List C)
      → Distinct (keys m) cs
      → times a (keys (collect ch hash place m cs))
        ≡ times a (keys m) + times a (map ch.channel_id cs)
  unfolding collect
  collect-times place a m [] h = omega arith
  collect-times place a m (c ∷ cs) h =
      let id = ch.channel_id c in
      let n = place id (keys m) in
      let m' = insert_at n (id, c) m in
      let same = inserted place id c m h.0 in
      let d = same_Distinct (id ∷ keys m) (keys m') cs (λ b. insert_at-is_member b n id c m) h.1 in
      let rest = collect-times place a m' cs d in
      let one = insert_at-times a n id c m in
      ap (λ (q : List (ℕ × C)). times a (keys (collect ch hash place q cs))) same
      ∙ ground (arith, rest, one)

  pub new-keys :
      (place : ℕ → List ℕ → ℕ) (link_dev : Option (List ℕ)) (usb_id : Option (List ℕ × List ℕ))
      (cs : List C) (now : ℕ)
      → Distinct [] cs
      → SameItems (keys (new ch hash place link_dev usb_id cs now).channels) (map ch.channel_id cs)
  unfolding new
  new-keys place link_dev usb_id cs now h a =
      let k = collect-times place a [] cs h in k ∙ omega arith
