-- ===== src/Windlass/Dictionary.antt =====
-- The transfer of a microcontroller's dictionary over the control channel: `send_dictionary` of
-- serialmux-rs/src/windlass/smart_exporter.rs and `gather_dictionary` of
-- serialmux-rs/src/windlass/smart_host.rs.
pub mod Arrival
mod Tests
use pik.Base.{
  ℕ, zero, suc, Bool, true, false, List, [], ◌∷◌, ◌++◌, length, is_empty, take, drop, leb, ◌==◌,
  if◌then◌else◌,
}
use pik.Windlass.Framing.{
  PayloadTunnelFrame, ctrl_ch, ctrl_dict_frag, ctrl_dict_done, dict_frag_max,
}

-- `dictionary.chunks(DICT_FRAG_MAX)`: a round takes a byte or more, so that as many rounds as bytes
-- are enough.
pub chunks_from : ℕ → List ℕ → List (List ℕ)
chunks_from zero dictionary = []
chunks_from (suc fuel) dictionary =
    let rest = chunks_from fuel (drop dict_frag_max dictionary) in
    if is_empty dictionary then [] else take dict_frag_max dictionary ∷ rest

abbrev pub control : List ℕ → PayloadTunnelFrame
control payload = record { ch_id = ctrl_ch; payload = payload }

unfoldable pub fragments : ℕ → List (List ℕ) → List PayloadTunnelFrame
fragments ch_id [] = control (ctrl_dict_done ∷ ch_id ∷ []) ∷ []
fragments ch_id (chunk ∷ chunks) = control (ctrl_dict_frag ∷ ch_id ∷ chunk) ∷ fragments ch_id chunks

-- The first argument is how many calls of `usb_tx.send` succeed before the writer task is gone; the
-- first one that fails ends the function with an error, which is `false`.
pub send_dictionary : ℕ → ℕ → List ℕ → Bool × List PayloadTunnelFrame
send_dictionary sends ch_id dictionary =
    let frames = fragments ch_id (chunks_from (length dictionary) dictionary) in
    (leb (length frames) sends, take sends frames)

-- `dicts`, in which a missing entry is the empty one: `or_default` and `unwrap_or_default` make
-- them the same.
abbrev pub Dicts : Type 0
Dicts = ℕ → List ℕ

abbrev pub insert : Dicts → ℕ → List ℕ → Dicts
insert dicts ch_id dict i = if ch_id == i then dict else dicts i

-- What is sent to the watch of a channel.
abbrev pub publish : Bool → ℕ → List ℕ → List (ℕ × List ℕ)
publish true ch_id dict = (ch_id, dict) ∷ []
publish false ch_id dict = []

-- One turn of the loop of `gather_dictionary`. The first argument says which channels have a
-- watch.
pub gather : (ℕ → Bool) → List ℕ → Dicts → Dicts × List (ℕ × List ℕ)
gather watched [] dicts = (dicts, [])
gather watched (ctrl_type ∷ []) dicts = (dicts, [])
gather watched (ctrl_type ∷ ch_id ∷ bytes) dicts =
    if ctrl_type == ctrl_dict_frag
    then (insert dicts ch_id (dicts ch_id ++ bytes), [])
    else if ctrl_type == ctrl_dict_done
    then (insert dicts ch_id [], publish (watched ch_id) ch_id (dicts ch_id))
    else (dicts, [])

pub gather_dictionary : (ℕ → Bool) → List (List ℕ) → Dicts → Dicts × List (ℕ × List ℕ)
gather_dictionary watched [] dicts = (dicts, [])
gather_dictionary watched (payload ∷ payloads) dicts =
    let (dicts', l) = gather watched payload dicts in
    let (dicts'', l') = gather_dictionary watched payloads dicts' in (dicts'', l ++ l')
