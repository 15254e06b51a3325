-- ===== src/Cli/Build.antt =====
-- `build_channels` of serialmux-rs/src/main.rs, and the daemon that `main` makes of it.
use pik.Base.{ℕ, ◌≡◌, false, List, [], ◌∷◌, ◌++◌, Option, none, some}
use pik.Channel.Effect.{Effect}
use pik.Channel.Mcu
use pik.Channel.Pty
use pik.Channel.Tcp.Source
use pik.Channel.Tcp.Dest
use pik.Channel.Any.{AnyChannel, mcu, pty, source, dest, channel_id}
use pik.Channel.Any.{is_paused, IsDown}
use pik.Channel.Mcu.Laws as McuLaws
use pik.Channel.Pty.Laws as PtyLaws
use pik.Channel.Tcp.Source.Laws as SourceLaws
use pik.Channel.Tcp.Dest.Laws as DestLaws
use pik.Daemon.{new}
use pik.Daemon.Distinct.{Distinct}
use pik.Cli.{ChannelSpec, mcu_exporter, mcu_host, tcp_exporter, tcp_host, spec_id}

-- What the opening of a UART with the time after, or the binding of a listener, gives.
pub record Started : Type 0 where
  pub uart : Option ℕ
  pub now : ℕ
  pub listener : Option ℕ

-- No channel where the program exits.
unfoldable pub build_channel : ChannelSpec → Started → Option (AnyChannel × List Effect)
build_channel (mcu_exporter id device baud) s =
    let (c, l) = Mcu.new id s.uart s.now in some (mcu c, l)
build_channel (mcu_host id symlink baud) s = let (c, l) = Pty.new id in some (pty c, l)
build_channel (tcp_exporter id bind_addr port) s = elim s.listener [
  | none ↦ none
  | some listener ↦ let (c, l) = Source.new id listener in some (source c, l)
]
build_channel (tcp_host id dest_addr port) s = some (dest (Dest.new id), [])

abbrev both_built :
    Option (AnyChannel × List Effect)
    → Option (List AnyChannel × List Effect)
    → Option (List AnyChannel × List Effect)
both_built none _ = none
both_built (some (c, l)) none = none
both_built (some (c, l)) (some (cs, ls)) = some (c ∷ cs, l ++ ls)

-- The list gives for each spec what its calls return.
unfoldable pub build_channels :
    List (ChannelSpec × Started) → Option (List AnyChannel × List Effect)
build_channels [] = some ([], [])
build_channels ((spec, s) ∷ rest) = both_built (build_channel spec s) (build_channels rest)

abbrev pub specs : List (ChannelSpec × Started) → List ChannelSpec
specs [] = []
specs ((spec, s) ∷ xs) = spec ∷ specs xs

-- A channel with its id that was told of no link yet.
abbrev Fresh : ℕ → AnyChannel → Type 0
Fresh id c = (channel_id c ≡ id) × (is_paused c ≡ false) × IsDown c

abbrev FreshIfBuilt : ℕ → Option (AnyChannel × List Effect) → Type 0
FreshIfBuilt id none = Unit {0}
FreshIfBuilt id (some (c, l)) = Fresh id c

abbrev Matches : List ChannelSpec → List AnyChannel → Type 0
Matches [] [] = Unit {0}
Matches (s ∷ ss) (c ∷ cs) = Fresh (spec_id s) c × Matches ss cs
Matches _ _ = ⊥

abbrev MatchesIfBuilt : List ChannelSpec → Option (List AnyChannel × List Effect) → Type 0
MatchesIfBuilt ss none = Unit {0}
MatchesIfBuilt ss (some (cs, l)) = Matches ss cs
