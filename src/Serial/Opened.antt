-- ===== src/Serial/Opened.antt =====
-- What the opening of a serial port comes to.
use pik.Base.{
  ℕ, ◌≡◌, ◌⊎◌, inl, inr, refl, sym, subst, Bool, true, false, List, [], ◌∷◌, Option, none, some,
  is_member, arith,
}
use pik.Cli
use pik.Cli.{valid_bauds, parse_standard_baud}
use pik.Cli.Sound.{OfOk, IsBaud, parse_standard_baud-OfOk}
use pik.Serial.{
  Sys, gave, failed, os, invalid_input, Result, ok, err, Speed, b1200, b2400, b4800, b9600, b19200,
  b38400, b57600, b115200, b230400, b460800, b921600, baud_to_speed, cread, clocal, cs8, Termios,
  TermiosCalls, raw, set_attrs, set_speed, get_attrs, with_speed, apply_termios, configured,
  opened_fd, open_serial_fd,
}

abbrev pub rate : Speed → ℕ
rate b1200 = 1200
rate b2400 = 2400
rate b4800 = 4800
rate b9600 = 9600
rate b19200 = 19200
rate b38400 = 38400
rate b57600 = 57600
rate b115200 = 115200
rate b230400 = 230400
rate b460800 = 460800
rate b921600 = 921600

abbrev IsSpeedOf : ℕ → Option Speed → Type 0
IsSpeedOf baud none = is_member baud valid_bauds ≡ false
IsSpeedOf baud (some s) = (rate s ≡ baud) × (is_member baud valid_bauds ≡ true)

baud_to_speed-IsSpeedOf : (baud : ℕ) → IsSpeedOf baud (baud_to_speed baud)
unfolding baud_to_speed
baud_to_speed-IsSpeedOf baud = ground arith

-- Raw, with eight data bits and no waiting for bytes, at the rate.
abbrev pub IsRaw : ℕ → Termios → Type 0
IsRaw baud t =
    (t.input_flags ≡ [])
    × (t.output_flags ≡ [])
    × (t.local_flags ≡ [])
    × (t.control_flags ≡ cread ∷ clocal ∷ cs8 ∷ [])
    × (t.vmin ≡ 0)
    × (t.vtime ≡ 0)
    × ((s : Speed) × (t.speed ≡ some s) × (rate s ≡ baud))

-- A call that failed with the errno.
abbrev pub Failed : {A : Type 0} → ℕ → Sys A → Type 0
Failed n (failed m) = m ≡ n
Failed n (gave a) = ⊥

abbrev pub CallFailed : ℕ → Sys ℕ → TermiosCalls → Type 0
CallFailed n fd calls =
    Failed n fd
    ⊎ (Failed n calls.tcgetattr ⊎ (Failed n calls.cfsetspeed ⊎ Failed n calls.tcsetattr))

abbrev pub Opens : Bool → Sys ℕ → ℕ → TermiosCalls → Result (ℕ × Termios) → List ℕ → Type 0
Opens path fd baud calls (ok (n, t)) left = (fd ≡ gave n) × (left ≡ n ∷ []) × IsRaw baud t
Opens path fd baud calls (err (os n)) left = (left ≡ []) × CallFailed n fd calls
Opens path fd baud calls (err invalid_input) left = (left ≡ []) × (path ≡ false)

-- What `apply_termios` comes to at a rate that is known.
abbrev Applies : ℕ → TermiosCalls → Result Termios → Type 0
Applies baud calls (ok t) = IsRaw baud t
Applies baud calls (err (os n)) =
    Failed n calls.tcgetattr ⊎ (Failed n calls.cfsetspeed ⊎ Failed n calls.tcsetattr)
Applies baud calls (err invalid_input) = ⊥

Failed-sym : {A : Type 0} (n : ℕ) (c : Sys A) → c ≡ failed n → Failed n c
Failed-sym n c e = subst (Failed n) (sym e) refl

set_attrs-Applies :
    (s : Speed) (calls : TermiosCalls) (t : Termios) (c : Sys (Unit {0}))
    → calls.tcsetattr ≡ c
    → Applies (rate s) calls (set_attrs c (raw s t))
set_attrs-Applies s calls t (gave u) e = (refl, refl, refl, refl, refl, refl, (s, refl, refl))
set_attrs-Applies s calls t (failed n) e = inr (inr (Failed-sym n calls.tcsetattr e))

set_speed-Applies :
    (s : Speed) (calls : TermiosCalls) (t : Termios) (c : Sys (Unit {0}))
    → calls.cfsetspeed ≡ c
    → Applies (rate s) calls (set_speed s c calls t)
set_speed-Applies s calls t (gave u) e = set_attrs-Applies s calls t calls.tcsetattr refl
set_speed-Applies s calls t (failed n) e = inr (inl (Failed-sym n calls.cfsetspeed e))

get_attrs-Applies :
    (s : Speed) (calls : TermiosCalls) (c : Sys Termios)
    → calls.tcgetattr ≡ c
    → Applies (rate s) calls (get_attrs s c calls)
get_attrs-Applies s calls (gave t) e = set_speed-Applies s calls t calls.cfsetspeed refl
get_attrs-Applies s calls (failed n) e = inl (Failed-sym n calls.tcgetattr e)

with_speed-Applies :
    (baud : ℕ) (calls : TermiosCalls) (o : Option Speed)
    → IsSpeedOf baud o
    → is_member baud valid_bauds ≡ true
    → Applies baud calls (with_speed o calls)
with_speed-Applies baud calls none k m = absurd (cc (k, m))
with_speed-Applies baud calls (some s) (r, k) m =
    subst (λ b. Applies b calls (get_attrs s calls.tcgetattr calls)) r
      (get_attrs-Applies s calls calls.tcgetattr refl)

configured-Opens :
    (path : Bool) (fd : Sys ℕ) (n baud : ℕ) (calls : TermiosCalls) (r : Result Termios)
    → fd ≡ gave n
    → Applies baud calls r
    → Opens path fd baud calls (configured n r).result (configured n r).left_open
configured-Opens path fd n baud calls (ok t) e h = (e, refl, h)
configured-Opens path fd n baud calls (err (os m)) e h = (refl, inr h)
configured-Opens path fd n baud calls (err invalid_input) e h = absurd h

opened_fd-Opens :
    (path : Bool) (c : Sys ℕ) (baud : ℕ) (calls : TermiosCalls)
    → is_member baud valid_bauds ≡ true
    → Opens path c baud calls (opened_fd c baud calls).result (opened_fd c baud calls).left_open
unfolding apply_termios
opened_fd-Opens path (failed n) baud calls m = (refl, inl refl)
opened_fd-Opens path (gave n) baud calls m =
    configured-Opens path (gave n) n baud calls (with_speed (baud_to_speed baud) calls) refl
      (with_speed-Applies baud calls (baud_to_speed baud) (baud_to_speed-IsSpeedOf baud) m)

IsBaud-of : (text : List ℕ) (baud : ℕ) → parse_standard_baud text ≡ Cli.ok baud → IsBaud baud
IsBaud-of text baud e = subst (OfOk IsBaud) e (parse_standard_baud-OfOk text)

-- A port at a baud rate that the command line accepts is opened, unless a system call fails or the
-- path has a NUL: then its descriptor alone is open, and the line is raw with eight data bits at just
-- that rate. If it is not opened, the error is that of the call that failed, or tells of the path,
-- and no descriptor is left open.
pub open_serial_fd-Opens :
    (text : List ℕ) (baud : ℕ)
    → parse_standard_baud text ≡ Cli.ok baud
    → (path : Bool) (fd : Sys ℕ) (calls : TermiosCalls)
    → Opens path fd baud calls
        (open_serial_fd path fd baud calls).result
        (open_serial_fd path fd baud calls).left_open
unfolding open_serial_fd
open_serial_fd-Opens text baud e true fd calls =
    opened_fd-Opens true fd baud calls (IsBaud-of text baud e)
open_serial_fd-Opens text baud e false fd calls = (refl, refl)
