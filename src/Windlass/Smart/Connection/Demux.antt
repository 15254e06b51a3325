-- ===== src/Windlass/Smart/Connection/Demux.antt =====
-- The frames that the main loop of `run_smart_host` reads from the link.
use pik.Base.{
  one_if, ℕ, ◌≡◌, refl, ap, sym, ◌∙◌, false, if◌then◌else◌, true, List, [], ◌∷◌, ◌++◌, Option, none,
  some, ◌==◌, ==_refl, subst, append_assoc, append-nil, arith, Bool-cases, inl, inr,
}
use pik.Windlass.Framing.{PayloadTunnelFrame, ctrl_ch}
use pik.Windlass.Smart.Pipe.{Pipe, send}
use pik.Windlass.Smart.Proxy.{Vlq}
use pik.Windlass.Smart.Connection.{Connection, SmartHost, step, route, demux}

abbrev pub demux_all : Vlq → List PayloadTunnelFrame → SmartHost → SmartHost
demux_all v [] h = h
demux_all v (pf ∷ l) h = demux_all v l (demux v pf h)

-- The payloads with a channel's id.
abbrev pub payloads_for : ℕ → List PayloadTunnelFrame → List (List ℕ)
payloads_for ch_id [] = []
payloads_for ch_id (pf ∷ l) = one_if (pf.ch_id == ch_id) pf.payload ++ payloads_for ch_id l

-- A receiver that was sent payloads: it takes them all, or none if it is gone.
abbrev pub receives : List (List ℕ) → Pipe (List ℕ) → Pipe (List ℕ)
receives l p = if p.is_open then record p { waiting = p.waiting ++ l } else p

-- A slot whose connection has been sent payloads.
abbrev pub sent : List (List ℕ) → Option (Option Connection) → Option (Option Connection)
sent l none = none
sent l (some none) = some none
sent l (some (some k)) = some (some (record k { from_mcu = receives l k.from_mcu }))

receives-nil : (p : Pipe (List ℕ)) → receives [] p ≡ p
receives-nil p = elim (Bool-cases p.is_open) [
  | inl e ↦
      let opened : List (List ℕ) → Pipe (List ℕ) =
        λ l. record { waiting = l; passed = p.passed; is_open = true } in
      rw e (ap opened (append-nil p.waiting))
  | inr e ↦ rw e refl
]

receives-append :
    (a b : List (List ℕ)) (p : Pipe (List ℕ)) → receives b (receives a p) ≡ receives (a ++ b) p
receives-append a b p = elim (Bool-cases p.is_open) [
  | inl e ↦ ground (arith, e, append_assoc p.waiting a b)
  | inr e ↦ ground (arith, e)
]

receives-one : (x : List ℕ) (p : Pipe (List ℕ)) → send x p ≡ receives (x ∷ []) p
receives-one x p = elim (Bool-cases p.is_open) [ inl e ↦ rw e refl | inr e ↦ rw e refl ]

sent-nil : (o : Option (Option Connection)) → sent [] o ≡ o
sent-nil none = refl
sent-nil (some none) = refl
sent-nil (some (some k)) =
    ap (λ (p : Pipe (List ℕ)). some (some (record k { from_mcu = p }))) (receives-nil k.from_mcu)

sent-append :
    (a b : List (List ℕ)) (o : Option (Option Connection)) → sent b (sent a o) ≡ sent (a ++ b) o
sent-append a b none = refl
sent-append a b (some none) = refl
sent-append a b (some (some k)) =
    ap (λ (p : Pipe (List ℕ)). some (some (record k { from_mcu = p })))
      (receives-append a b k.from_mcu)

route-same :
    (v : Vlq) (pf : PayloadTunnelFrame) (h : SmartHost) (o : Option (Option Connection))
    → h.slots pf.ch_id ≡ o
    → (route v o pf h).slots pf.ch_id ≡ sent (pf.payload ∷ []) o
unfolding step
route-same v pf h none e = e
route-same v pf h (some none) e = e
route-same v pf h (some (some k)) e = rw (==_refl pf.ch_id) (
    ap (λ (p : Pipe (List ℕ)). some (some (record k { from_mcu = p })))
      (receives-one pf.payload k.from_mcu))

route-other :
    (v : Vlq) (pf : PayloadTunnelFrame) (h : SmartHost) (i : ℕ) (o : Option (Option Connection))
    → (pf.ch_id == i) ≡ false
    → (route v o pf h).slots i ≡ h.slots i
route-other v pf h i none e = refl
route-other v pf h i (some none) e = refl
route-other v pf h i (some (some k)) e = rw e refl

route-gathered :
    (v : Vlq) (o : Option (Option Connection)) (pf : PayloadTunnelFrame) (h : SmartHost)
    → (route v o pf h).gathered ≡ h.gathered
route-gathered v none pf h = refl
route-gathered v (some none) pf h = refl
route-gathered v (some (some k)) pf h = refl

demux-slots :
    (v : Vlq) (pf : PayloadTunnelFrame) (h : SmartHost) (i : ℕ)
    → (i == ctrl_ch) ≡ false
    → (demux v pf h).slots i ≡ sent (one_if (pf.ch_id == i) pf.payload) (h.slots i)
unfolding demux
demux-slots v pf h i n = elim (Bool-cases (pf.ch_id == i)) [
  | inl z ↦
      let same : pf.ch_id ≡ i = ground arith in
      let open' : (pf.ch_id == ctrl_ch) ≡ false = ap (λ j. j == ctrl_ch) same ∙ n in
      rw (demux, open', z)
        (subst (λ j. (route v (h.slots pf.ch_id) pf h).slots j ≡ sent (pf.payload ∷ []) (h.slots j))
          same (route-same v pf h (h.slots pf.ch_id) refl))
  | inr z ↦ elim (Bool-cases (pf.ch_id == ctrl_ch)) [
    | inl c ↦ rw (demux, c, z) (sym (sent-nil (h.slots i)))
    | inr c ↦
        rw (demux, c, z) (route-other v pf h i (h.slots pf.ch_id) z ∙ sym (sent-nil (h.slots i)))
  ]
]

demux-gathered :
    (v : Vlq) (pf : PayloadTunnelFrame) (h : SmartHost)
    → (demux v pf h).gathered ≡ h.gathered ++ one_if (pf.ch_id == ctrl_ch) pf.payload
unfolding demux
demux-gathered v pf h = elim (Bool-cases (pf.ch_id == ctrl_ch)) [
  | inl e ↦ rw (demux, e) refl
  | inr e ↦ rw (demux, e) (route-gathered v (h.slots pf.ch_id) pf h ∙ sym (append-nil h.gathered))
]

-- Of the frames that the main loop reads, the payloads with the control channel's id go to the task
-- that gathers dictionaries, in order; a connection is sent those with the id of its channel, in
-- order, and no others; and a channel with no connection, or none that is known, stays as it was.
pub demux_all_lem :
    (v : Vlq) (l : List PayloadTunnelFrame) (h : SmartHost)
    → ((demux_all v l h).gathered ≡ h.gathered ++ payloads_for ctrl_ch l)
      × ((i : ℕ)
          → (i == ctrl_ch) ≡ false
          → (demux_all v l h).slots i ≡ sent (payloads_for i l) (h.slots i))
demux_all_lem v [] h = (sym (append-nil h.gathered), λ i n. sym (sent-nil (h.slots i)))
demux_all_lem v (pf ∷ l) h =
    let after = demux_all_lem v l (demux v pf h) in
    (
      after.0
          ∙ (ap (λ (g : List (List ℕ)). g ++ payloads_for ctrl_ch l) (demux-gathered v pf h)
              ∙ append_assoc h.gathered (one_if (pf.ch_id == ctrl_ch) pf.payload)
                  (payloads_for ctrl_ch l)),
      λ i n.
          after.1 i n
          ∙ (ap (sent (payloads_for i l)) (demux-slots v pf h i n)
              ∙ sent-append (one_if (pf.ch_id == i) pf.payload) (payloads_for i l) (h.slots i)),
    )
