-- ===== src/Windlass/Smart/Connection/Decoded.antt =====
-- What the calls of `dispatch_raw` add to their context.
use pik.Base.{
  one_if, ℕ, ◌≡◌, sym, Bool, false, not, List, [], ◌∷◌, ◌++◌, none, some, ◌==◌, append_assoc,
  append-nil, Bool-cases, Option-cases, inl, inr,
}
use pik.Windlass.Smart.Proxy.{Vlq, ProxyContext, cmd_identify, dispatch, dispatch_raw}
use pik.Windlass.Smart.Connection.{dispatch_all, fresh}

-- A frame with another command than `identify`.
abbrev pub is_command : Vlq → List ℕ → Bool
is_command v f = elim (v.read_u16 f) [ none ↦ false | some (cmd, l) ↦ not (cmd == cmd_identify) ]

abbrev pub commands_in : Vlq → List (List ℕ) → List (List ℕ)
commands_in v [] = []
commands_in v (f ∷ fs) = one_if (is_command v f) f ++ commands_in v fs

-- What is answered to a frame, and to frames one by one.
abbrev pub reply : Vlq → List ℕ → List ℕ → List (List ℕ)
reply v dict f = (dispatch_raw v f (fresh dict)).1.1.pending_responses

abbrev pub replies : Vlq → List ℕ → List (List ℕ) → List (List ℕ)
replies v dict [] = []
replies v dict (f ∷ fs) = reply v dict f ++ replies v dict fs

abbrev added : ProxyContext → List (List ℕ) → List (List ℕ) → ProxyContext
added ctx cs rs = record ctx {
  to_exporter = ctx.to_exporter ++ cs;
  pending_responses = ctx.pending_responses ++ rs;
}

added-nil : (ctx : ProxyContext) → added ctx [] [] ≡ ctx
added-nil ctx = simp append-nil

dispatch-added :
    (v : Vlq) (l : List ℕ) (ctx : ProxyContext)
    → (dispatch v cmd_identify l ctx).1.1
      ≡ added ctx [] (dispatch v cmd_identify l (fresh ctx.dictionary)).1.1.pending_responses
unfolding dispatch
dispatch-added v l ctx = elim (Option-cases (v.read_u32 l)) [
  | inl e ↦ rw e (sym (added-nil ctx))
  | inr ((offset, l'), e) ↦ elim (Option-cases (v.read_u8 l')) [
    | inl e' ↦ rw (e, e') (sym (added-nil ctx))
    | inr ((count, l''), e') ↦ rw (e, e') (simp append-nil)
  ]
]

dispatch_raw-added :
    (v : Vlq) (f : List ℕ) (ctx : ProxyContext)
    → (dispatch_raw v f ctx).1.1 ≡ added ctx (one_if (is_command v f) f) (reply v ctx.dictionary f)
unfolding dispatch_raw dispatch
dispatch_raw-added v f ctx = elim (Option-cases (v.read_u16 f)) [
  | inl e ↦ rw (dispatch_raw, is_command, reply, e) (sym (added-nil ctx))
  | inr ((cmd, l), e) ↦ elim (Bool-cases (cmd == cmd_identify)) [
    | inl i ↦ rw (dispatch_raw, is_command, reply, e, i) (dispatch-added v l ctx)
    | inr i ↦ rw (dispatch_raw, is_command, reply, e, i) (simp append-nil)
  ]
]

pub dispatch_all-added :
    (v : Vlq) (fs : List (List ℕ)) (ctx : ProxyContext)
    → dispatch_all v fs ctx ≡ added ctx (commands_in v fs) (replies v ctx.dictionary fs)
dispatch_all-added v [] ctx = sym (added-nil ctx)
dispatch_all-added v (f ∷ fs) ctx =
    rw
      (
        dispatch_raw-added v f ctx,
        dispatch_all-added v fs (added ctx (one_if (is_command v f) f) (reply v ctx.dictionary f)),
      )
      (simp append_assoc)
