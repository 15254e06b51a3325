-- ===== src/Windlass/Socket.antt =====
-- `prepare_socket_path` of serialmux-rs/src/windlass/mod.rs. What the system calls return is an
-- argument, and so is what stands at the path.
pub mod Safe
mod Tests
use pik.Base.{List, ◌++◌, ℕ, ◌≡◌, Bool, true, false, Option, none, some, ◌||◌, ◌==◌, if◌then◌else◌}
use pik.Serial.{Sys, gave, failed}

pub data FileType : Type 0 where
  socket : FileType
  symlink : FileType
  -- A regular file, a directory or another kind.
  other : FileType

pub data SocketError : Type 0 where
  os : ℕ → SocketError
  already_exists : SocketError

-- `ENOENT`, which gives ErrorKind::NotFound
abbrev pub enoent : ℕ
enoent = 2

-- What `create_dir_all` returns, `gave` if the path has no parent, and the directories that it has
-- made by then, also where it fails; an errno of `symlink_metadata`; what `remove_file` returns.
pub record Calls : Type 0 where
  pub create_dir_all : Sys (Unit {0})
  pub made : List (List ℕ)
  pub metadata_error : Option ℕ
  pub remove_file : Sys (Unit {0})

-- What stands at the path, and the directories that there are.
pub record Files : Type 0 where
  pub entry : Option FileType
  pub directories : List (List ℕ)

-- The error, if there is one, and the files then.
abbrev pub Prepared : Type 0
Prepared = Option SocketError × Files

abbrev pub remove : Sys (Unit {0}) → Files → Prepared
remove (gave u) files = (none, record files { entry = none })
remove (failed e) files = (some (os e), files)

abbrev pub replace : FileType → Calls → Files → Prepared
replace socket c files = remove c.remove_file files
replace symlink c files = remove c.remove_file files
replace other c files = (some already_exists, files)

-- The `match` on `symlink_metadata`, which is not found where nothing stands.
abbrev pub look : Option ℕ → Option FileType → Calls → Files → Prepared
look none none c files = (none, files)
look none (some file) c files = replace file c files
look (some e) entry c files = if e == enoent then (none, files) else (some (os e), files)

abbrev pub after_parent : Sys (Unit {0}) → Calls → Files → Prepared
after_parent (gave u) c files = look c.metadata_error files.entry c files
after_parent (failed e) c files = (some (os e), files)

pub prepare_socket_path : Calls → Files → Prepared
prepare_socket_path c files =
    after_parent c.create_dir_all c (record files { directories = files.directories ++ c.made })
