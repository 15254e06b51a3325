-- ===== src/Channel/Pty/World.antt =====
-- What the calls of a `PtyChannel` leave open, registered and linked, computed from the calls.
use pik.Base.{
  ℕ, ◌≡◌, refl, Bool, true, false, List, [], ◌∷◌, ◌++◌, Option, none, some, ◌==◌, ◌&&◌, ◌||◌,
}
use pik.Protocol.{f_ready}
use pik.Channel.Effect.{
  Effect, send, reg_add, reg_mod, reg_del, close_raw, remove_symlink, make_symlink,
}
use pik.Channel.Pty.{PtyChannel, Opened, no_pty, no_name, no_symlink, opened, Event, frame, handle}

-- What the system holds for a pseudo terminal and one descriptor: whether the symlink stands, whether
-- the descriptor was given and is still open, and whether it is registered.
pub record World : Type 0 where
  pub linked : Bool
  pub held : Bool
  pub registered : Bool

-- The descriptor is given, if the flag is set; it is closed; it is registered or deregistered.
abbrev pub give : Bool → World → World
give true b = record b { held = true }
give false b = b

abbrev pub end : Bool → World → World
end true b = record b { held = false }
end false b = b

abbrev pub register : Bool → Bool → World → World
register true r b = record b { registered = r }
register false r b = b

-- What is held of the descriptor `n` after some effects. Only `reg_del` ends a registration.
abbrev pub after : ℕ → World → List Effect → World
after n b [] = b
after n b (send t c p ∷ l) = after n b l
after n b (reg_add fd t i ∷ l) = after n (register (fd == n) true b) l
after n b (reg_mod fd t i ∷ l) = after n b l
after n b (reg_del fd ∷ l) = after n (register (fd == n) false b) l
after n b (close_raw fd ∷ l) = after n (end (fd == n) b) l
after n b (remove_symlink ∷ l) = after n (record b { linked = false }) l
after n b (make_symlink ∷ l) = after n (record b { linked = true }) l

pub after-append :
    (n : ℕ) (b : World) (l m : List Effect) → after n b (l ++ m) ≡ after n (after n b l) m
after-append n b [] m = refl
after-append n b (send t c p ∷ l) m = after-append n b l m
after-append n b (reg_add fd t i ∷ l) m = after-append n (register (fd == n) true b) l m
after-append n b (reg_mod fd t i ∷ l) m = after-append n b l m
after-append n b (reg_del fd ∷ l) m = after-append n (register (fd == n) false b) l m
after-append n b (close_raw fd ∷ l) m = after-append n (end (fd == n) b) l m
after-append n b (remove_symlink ∷ l) m = after-append n (record b { linked = false }) l m
after-append n b (make_symlink ∷ l) m = after-append n (record b { linked = true }) l m

-- Whether `open_pty_raw` gives the descriptor as the master or the slave.
abbrev pub opens : ℕ → Opened → Bool
opens n no_pty = false
opens n (no_name m s) = m == n || s == n
opens n (no_symlink m s) = m == n || s == n
opens n (opened m s) = m == n || s == n

abbrev pub if_closed : Option ℕ → Bool → Bool
if_closed none b = b
if_closed (some fd) b = false

-- Whether a call gives the descriptor: `open_pty_raw` is called for F_READY when the pseudo terminal
-- is not open yet.
abbrev pub given : ℕ → Event → PtyChannel → Bool
given n (frame t p o w) c = (t == f_ready) && if_closed c.master_fd (opens n o)
given n _ c = false

-- What is held of the descriptor after the calls.
abbrev pub trace : ℕ → List Event → PtyChannel → World → World
trace n [] c b = b
trace n (e ∷ es) c b = let (c', l) = handle e c in trace n es c' (after n (give (given n e c) b) l)
