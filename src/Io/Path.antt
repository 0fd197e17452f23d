-- ===== src/Io/Path.antt =====
-- `std::path::Path` on Unix, as its components with the innermost first.
use secure_file_shredder_and.Base.{
  ℕ, Bool, true, false, ◌||◌, ◌==◌, if◌then◌else◌, bytes_eq, List, [], ◌∷◌, ◌++◌, Option, none,
  some, Text, codes, length,
}
use native.Mathlib.Decide.{ℕ_discrete}

-- `std::path::Component`
pub data Component : Type 0 where
  root_dir cur_dir parent_dir : Component
  normal : Text → Component

abbrev pub FilePath : Type 0
FilePath = List Component

unfoldable pub Component-discrete : Discrete Component
Component-discrete = hlevel ℕ_discrete

unfoldable pub FilePath-discrete : Discrete FilePath
unfolding Component-discrete
FilePath-discrete = hlevel Component-discrete

-- `Path::parent`
unfoldable pub parent : FilePath → Option FilePath
parent [] = none
parent (root_dir ∷ rest) = none
parent (c ∷ rest) = some rest

-- `Path::file_name`
unfoldable pub file_name : FilePath → Option Text
file_name (normal n ∷ rest) = some n
file_name _ = none

-- `Path::join` with a name that has no separator and is not empty, `.` or `..`.
unfoldable pub join : FilePath → Text → FilePath
join p name = normal name ∷ p

-- `PathBuf::set_file_name` with such a name.
unfoldable pub set_file_name : FilePath → Text → FilePath
set_file_name (normal n ∷ rest) name = normal name ∷ rest
set_file_name p name = normal name ∷ p

-- `path.components().count()`
unfoldable pub component_count : FilePath → ℕ
component_count p = length p

component_text : Component → Text
component_text root_dir = []
component_text cur_dir = codes "."
component_text parent_dir = codes ".."
component_text (normal n) = n

-- Between a path and a component behind it: the root is a slash itself.
separator : FilePath → Text
separator (root_dir ∷ []) = []
separator _ = codes "/"

-- `to_string_lossy` and `display`, of a path that was written with single slashes: the components,
-- a slash between two.
unfoldable pub display : FilePath → Text
unfolding component_text separator
display [] = []
display (root_dir ∷ []) = codes "/"
display (c ∷ []) = component_text c
display (c ∷ d ∷ rest) = display (d ∷ rest) ++ separator (d ∷ rest) ++ component_text c

-- `split('/')`
abbrev pub segments : Text → Text → List Text
segments current [] = current ∷ []
segments current (c ∷ s) =
    let next = segments [] s in
    let longer = segments (current ++ (c ∷ [])) s in if c == b'/' then current ∷ next else longer

abbrev add_segment : FilePath → Text → FilePath
add_segment p [] = p
add_segment p (c ∷ s) =
    if bytes_eq (c ∷ s) (codes ".")
    then p
    else if bytes_eq (c ∷ s) (codes "..")
    then parent_dir ∷ p
    else normal (c ∷ s) ∷ p

abbrev add_segments : FilePath → List Text → FilePath
add_segments p [] = p
add_segments p (s ∷ rest) = add_segments (add_segment p s) rest

abbrev start_path : List Text → FilePath
start_path ((c ∷ s) ∷ rest) =
    if bytes_eq (c ∷ s) (codes ".")
    then add_segments (cur_dir ∷ []) rest
    else add_segments [] ((c ∷ s) ∷ rest)
start_path segs = add_segments [] segs

-- `Path::new(text)`
unfoldable pub parse_path : Text → FilePath
parse_path [] = []
parse_path (c ∷ s) =
    if c == b'/'
    then add_segments (root_dir ∷ []) (segments [] s)
    else start_path (segments [] (c ∷ s))

abbrev pub same_path : FilePath → FilePath → Bool
same_path p q = elim (FilePath-discrete p q) [ yes _ ↦ true | no _ ↦ false ]

-- `Path::starts_with`: the second has the outermost components of the first.
unfoldable pub path_starts_with : FilePath → FilePath → Bool
path_starts_with [] q = same_path [] q
path_starts_with (c ∷ p) q = same_path (c ∷ p) q || path_starts_with p q
