-- ===== src/Windlass/Socket/Safe.antt =====
-- What the preparation of a socket path removes.
use pik.Base.{
  ℕ, ◌≡◌, ◌⊎◌, inl, inr, refl, ◌∙◌, ◌++◌, ap, sym, subst, Option, none, some, ◌==◌, Bool-cases,
  arith,
}
use pik.Serial.{Sys, gave, failed}
use pik.Windlass.Socket.{
  SocketError, FileType, socket, symlink, other, os, already_exists, enoent, Calls, Prepared,
  remove, Files, replace, look, after_parent, prepare_socket_path,
}

abbrev pub Failed : ℕ → Sys (Unit {0}) → Type 0
Failed n (failed m) = m ≡ n
Failed n (gave u) = ⊥

abbrev Outcome : Files → Calls → Option SocketError → Option FileType → Type 0
Outcome files c none after =
    (after ≡ none)
    × ((files.entry ≡ none) ⊎ ((files.entry ≡ some socket) ⊎ (files.entry ≡ some symlink)))
Outcome files c (some already_exists) after = (after ≡ files.entry) × (files.entry ≡ some other)
Outcome files c (some (os e)) after =
    (after ≡ files.entry)
    × (Failed e c.create_dir_all ⊎ ((c.metadata_error ≡ some e) ⊎ Failed e c.remove_file))

-- On success the path is free, and nothing but a socket or a link stood there; with an error what
-- stands there is as it was, and the error tells of another file or is that of the call that failed.
-- Of the directories none is remove, Files, and the new ones are those that `create_dir_all` made.
abbrev pub Prepares : Files → Calls → Prepared → Type 0
Prepares files c (o, after) =
    Outcome files c o after.entry × (after.directories ≡ files.directories ++ c.made)

remove-Prepares :
    (t : FileType) (files : Files) (c : Calls) (r : Sys (Unit {0}))
    → c.remove_file ≡ r
    → files.entry ≡ some t
    → (t ≡ socket) ⊎ (t ≡ symlink)
    → Prepares files c (remove r (record files { directories = files.directories ++ c.made }))
remove-Prepares t files c (gave u) e f (inl k) = ((refl, inr (inl (f ∙ ap some k))), refl)
remove-Prepares t files c (gave u) e f (inr k) = ((refl, inr (inr (f ∙ ap some k))), refl)
remove-Prepares t files c (failed n) e f k =
    ((refl, inr (inr (subst (Failed n) (sym e) refl))), refl)

replace-Prepares :
    (t : FileType) (files : Files) (c : Calls)
    → files.entry ≡ some t
    → Prepares files c (replace t c (record files { directories = files.directories ++ c.made }))
replace-Prepares socket files c f = remove-Prepares socket files c c.remove_file refl f (inl refl)
replace-Prepares symlink files c f = remove-Prepares symlink files c c.remove_file refl f (inr refl)
replace-Prepares other files c f = ((refl, f), refl)

look-Prepares :
    (o : Option ℕ) (entry : Option FileType) (files : Files) (c : Calls)
    → c.metadata_error ≡ o
    → files.entry ≡ entry
    → (o ≡ some enoent → files.entry ≡ none)
    → Prepares files c (look o entry c (record files { directories = files.directories ++ c.made }))
look-Prepares none none files c m f h = ((f, inl f), refl)
look-Prepares none (some t) files c m f h = replace-Prepares t files c f
look-Prepares (some e) entry files c m f h = elim (Bool-cases (e == enoent)) [
  | inl k ↦
      let missing : files.entry ≡ none = h (ap some (ground arith)) in
      rw k ((missing, inl missing), refl)
  | inr k ↦ rw k ((refl, inr (inl m)), refl)
]

after_parent-Prepares :
    (s : Sys (Unit {0})) (files : Files) (c : Calls)
    → c.create_dir_all ≡ s
    → (c.metadata_error ≡ some enoent → files.entry ≡ none)
    → Prepares files c
        (after_parent s c (record files { directories = files.directories ++ c.made }))
after_parent-Prepares (gave u) files c e h =
    look-Prepares c.metadata_error files.entry files c refl refl h
after_parent-Prepares (failed n) files c e h = ((refl, inl (subst (Failed n) (sym e) refl)), refl)

-- `prepare_socket_path` removes nothing but a socket or a symbolic link at the path: if it succeeds
-- the path is free; if it fails what stands there is as before, and the error says that another file
-- stands there or is that of a system call that failed. In both cases the directories that
-- `create_dir_all` made stay. `symlink_metadata` finds nothing just where nothing stands.
pub prepare_socket_path-Prepares :
    (c : Calls) (files : Files)
    → (c.metadata_error ≡ some enoent → files.entry ≡ none)
    → Prepares files c (prepare_socket_path c files)
unfolding prepare_socket_path
prepare_socket_path-Prepares c files h = after_parent-Prepares c.create_dir_all files c refl h
