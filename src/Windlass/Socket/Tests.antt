-- ===== src/Windlass/Socket/Tests.antt =====
-- The preparation of a socket path at concrete inputs.
use pik.Base.{Option, [], ◌∷◌, ◌≡◌, refl, none, some}
use pik.Serial.{gave}
use pik.Windlass.Socket.{
  FileType, socket, symlink, other, already_exists, Calls, Files, prepare_socket_path,
}
use pik.Windlass.Socket.Safe.{Prepares, prepare_socket_path-Prepares}

abbrev calls : Calls
calls = record {
  create_dir_all = gave tt;
  made = (47 ∷ []) ∷ [];
  metadata_error = none;
  remove_file = gave tt;
}

abbrev with_entry : Option FileType → Files
with_entry e = record { entry = e; directories = [] }

abbrev prepared : Option FileType → Files
prepared e = record { entry = e; directories = (47 ∷ []) ∷ [] }

prepare_socket_path-Prepares_example :
    Prepares (with_entry (some other)) calls (prepare_socket_path calls (with_entry (some other)))
prepare_socket_path-Prepares_example =
    prepare_socket_path-Prepares calls (with_entry (some other)) (λ e. absurd (cc e))

-- The three tests of the source.
stale_socket : prepare_socket_path calls (with_entry (some socket)) ≡ (none, prepared none)
unfolding prepare_socket_path
stale_socket = refl

link : prepare_socket_path calls (with_entry (some symlink)) ≡ (none, prepared none)
unfolding prepare_socket_path
link = refl

regular_file :
    prepare_socket_path calls (with_entry (some other))
    ≡ (some already_exists, prepared (some other))
unfolding prepare_socket_path
regular_file = refl
