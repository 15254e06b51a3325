-- ===== src/Channel/Effect.antt =====
-- What a handler of serialmux-rs/src/channel.rs asks for while it runs, in order: frames for the
-- queue, calls of the mio registry, closed descriptors. A handler takes what the calls that return
-- something (`read`, `write`, `open`, the clock) returned as arguments. A `RawFd`, a mio stream and
-- a `Token` are numbers; `Instant` and `Duration` are counted in milliseconds.
use pik.Base.{
  ℕ, ◌≡◌, refl, Bool, true, false, List, [], ◌∷◌, ◌++◌, Option, none, some, ◌==◌, if◌then◌else◌,
}

pub data Interest : Type 0 where
  readable : Interest
  writable : Interest
  both : Interest

pub data Effect : Type 0 where
  -- `txq.enqueue(&build_frame(ftype, channel, payload))`
  send : ℕ → ℕ → List ℕ → Effect
  -- `reg_add`, `reg_mod`, `reg_del`, or the registry's methods themselves
  reg_add : ℕ → ℕ → Interest → Effect
  reg_mod : ℕ → ℕ → Interest → Effect
  reg_del : ℕ → Effect
  -- `close_raw`, or the drop of a stream
  close_raw : ℕ → Effect
  -- `remove_file` and `symlink` on the channel's symlink
  remove_symlink : Effect
  make_symlink : Effect

-- A handler runs on the channel's state and gives the new one with its effects; `s ▷ f` runs `f` on
-- what `s` left.
infixl 5 ◌▷◌
abbrev pub ◌▷◌ {ℓ} : {S : Type ℓ} → S × List Effect → (S → S × List Effect) → S × List Effect
(s, l) ▷ f = let (s', l') = f s in (s', l ++ l')

-- `read_nonblock` with the bytes read: `Ok(None)`, `Ok(Some(n))`, `Err`. The second argument of the
-- error says whether it was EIO.
pub data ReadResult : Type 0 where
  would_block : ReadResult
  got : List ℕ → ReadResult
  read_err : Bool → ReadResult

-- `write_nonblock`: `Ok(n)`, 0 if it would block, or `Err`.
pub data WriteResult : Type 0 where
  wrote : ℕ → WriteResult
  write_err : WriteResult

abbrev pub reads : Option Interest → Bool
reads none = false
reads (some readable) = true
reads (some writable) = false
reads (some both) = true

abbrev pub writes : Option Interest → Bool
writes none = false
writes (some readable) = false
writes (some writable) = true
writes (some both) = true

-- What one descriptor is registered for after some effects, as mio documents it: a registration
-- sets the interest, and the removal or the close of the descriptor ends it.
abbrev pub registered_one : ℕ → Option Interest → Effect → Option Interest
registered_one fd i (send t c p) = i
registered_one fd i (reg_add g t j) = if g == fd then some j else i
registered_one fd i (reg_mod g t j) = if g == fd then some j else i
registered_one fd i (reg_del g) = if g == fd then none else i
registered_one fd i remove_symlink = i
registered_one fd i make_symlink = i
registered_one fd i (close_raw g) = if g == fd then none else i

abbrev pub registered : ℕ → Option Interest → List Effect → Option Interest
registered fd i [] = i
registered fd i (e ∷ l) = registered fd (registered_one fd i e) l

pub registered-append :
    (fd : ℕ) (i : Option Interest) (l m : List Effect)
    → registered fd i (l ++ m) ≡ registered fd (registered fd i l) m
registered-append fd i [] m = refl
registered-append fd i (e ∷ l) m = registered-append fd (registered_one fd i e) l m
