-- ===== src/Windlass/Dictionary/Tests.antt =====
-- A transfer of a dictionary, and the theorems at it.
use pik.Base.{ℕ, ◌+◌, ◌/◌, ◌≡◌, refl, Bool, true, List, [], ◌∷◌, length, leb}
use pik.Windlass.Framing.{dict_frag_max}
use pik.Windlass.Dictionary.{
  Dicts, chunks_from, control, fragments, send_dictionary, gather, gather_dictionary,
}
use pik.Windlass.Dictionary.Arrival.{AllEncodable, send_dictionary_lem}

sent_frames :
    send_dictionary 5 4 (10 ∷ 11 ∷ [])
    ≡ (true, control (1 ∷ 4 ∷ 10 ∷ 11 ∷ []) ∷ control (2 ∷ 4 ∷ []) ∷ [])
unfolding send_dictionary fragments chunks_from
sent_frames = refl

-- The two frames with those of channel 7 between them, and one that is too short.
abbrev arrivals : List (List ℕ)
arrivals = (1 ∷ 7 ∷ 99 ∷ []) ∷ (1 ∷ 4 ∷ 10 ∷ 11 ∷ []) ∷ (2 ∷ []) ∷ (2 ∷ 7 ∷ []) ∷ (2 ∷ 4 ∷ []) ∷ []

abbrev no_dicts : Dicts
no_dicts i = []

abbrev both_watched : ℕ → Bool
both_watched i = true

gathered :
    (gather_dictionary both_watched arrivals no_dicts).1 ≡ (7, 99 ∷ []) ∷ (4, 10 ∷ 11 ∷ []) ∷ []
unfolding gather_dictionary gather
gathered = refl

abbrev dictionary : List ℕ
dictionary = 10 ∷ 11 ∷ []

send_dictionary_lem_example :
    ((send_dictionary 5 4 dictionary).0 ≡ leb ((length dictionary + 252) / dict_frag_max + 1) 5)
    × AllEncodable (send_dictionary 5 4 dictionary).1
send_dictionary_lem_example = send_dictionary_lem 5 4 dictionary
