-- ===== src/Io/Folders.antt =====
-- The calls of `std::fs` on directories, and `fs::write`. Names of a directory's entries are the
-- system's answer.
pub mod Laws
use secure_file_shredder_and.Base.{
  ℕ, ◌+◌, ◌⊎◌, Bool, true, false, Option, none, some, List, [], ◌∷◌, Bytes, Text,
}
use secure_file_shredder_and.Io.Outcome.{Outcome, ok, err, ◌>>=◌}
use secure_file_shredder_and.Io.Path.{FilePath}
use secure_file_shredder_and.Io.Error.{
  IoError, not_found, already_exists, not_a_directory, directory_not_empty,
}
use secure_file_shredder_and.Io.System.{System}
use secure_file_shredder_and.Io.Action.{Node, file, dir, Disk, World, Action}
use secure_file_shredder_and.Io.Files.{update, syscall}

-- The directory and its missing ancestors; `taken` is the error where a file has the name.
unfoldable pub make_dirs : IoError → FilePath → Disk → Outcome IoError Disk
make_dirs taken [] d = ok d
make_dirs taken (c ∷ p) d = elim (d (c ∷ p)) [
  | none ↦ make_dirs not_a_directory p d >>= λ d'. ok (update d' (c ∷ p) (some dir))
  | some n ↦ elim n [ file b ↦ err taken | dir ↦ ok d ]
]

abbrev pub with_dirs : Outcome IoError Disk → World → Outcome IoError (Unit {0}) × World
with_dirs (ok d) w = (ok tt, record w { disk = d })
with_dirs (err e) w = (err e, w)
with_dirs other w = (err not_found, w)

-- `fs::create_dir_all`
unfoldable pub create_dir_all : FilePath → Action IoError (Unit {0})
create_dir_all p = syscall (λ w. with_dirs (make_dirs already_exists p w.disk) w)

abbrev pub is_folder : Option Node → Bool
is_folder (some dir) = true
is_folder _ = false

abbrev pub is_regular : Option Node → Bool
is_regular (some (file b)) = true
is_regular _ = false

-- A question to the disk; a failure to look counts as `false`.
unfoldable pub look : {E : Type 0} → (Option Node → Bool) → FilePath → Action E Bool
look test p sys w =
    let w' = record w { now = w.now + 1 } in
    elim (sys.os.fault w.now) [ none ↦ (ok (test (w.disk p)), w') | some e ↦ (ok false, w') ]

-- `path.is_dir()`
abbrev pub is_dir : {E : Type 0} → FilePath → Action E Bool
is_dir p = look is_folder p

-- `path.is_file()`
abbrev pub is_file : {E : Type 0} → FilePath → Action E Bool
is_file p = look is_regular p

abbrev pub listed :
    List (IoError ⊎ Text) → Option Node → World → Outcome IoError (List (IoError ⊎ Text)) × World
listed names none w = (err not_found, w)
listed names (some (file b)) w = (err not_a_directory, w)
listed names (some dir) w = (ok names, w)

-- `fs::read_dir`
unfoldable pub read_dir : FilePath → Action IoError (List (IoError ⊎ Text))
read_dir p sys w = syscall (λ w'. listed (sys.os.read_dir w.now p) (w'.disk p) w') sys w

abbrev pub dropped :
    FilePath → List (IoError ⊎ Text) → Option Node → World → Outcome IoError (Unit {0}) × World
dropped p names none w = (err not_found, w)
dropped p names (some (file b)) w = (err not_a_directory, w)
dropped p [] (some dir) w = (ok tt, record w { disk = update w.disk p none })
dropped p (n ∷ names) (some dir) w = (err directory_not_empty, w)

-- `fs::remove_dir`: of an empty directory.
unfoldable pub remove_dir : FilePath → Action IoError (Unit {0})
remove_dir p sys w = syscall (λ w'. dropped p (sys.os.read_dir w.now p) (w'.disk p) w') sys w
