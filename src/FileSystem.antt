-- ===== src/FileSystem.antt =====
-- The paths of include/vsg/io/FileSystem.h and src/vsg/io/FileSystem.cpp, on a system other than
-- Windows. A character is its code. The environment and the file system are arguments.
pub mod Search
pub mod Split
pub mod Directories
mod Tests
mod DirectoryTests
use vsg.Base.{
  ℕ, zero, suc, ◌+◌, ◌-◌, Bool, true, false, not, ◌&&◌, ◌||◌, Option, none, some, List, [], ◌∷◌,
  ◌++◌, length, last?, ltb, ◌==◌, if◌then◌else◌,
}

abbrev pub FilePath : Type 0
FilePath = List ℕ

abbrev pub slash : ℕ
slash = 47

abbrev pub backslash : ℕ
backslash = 92

abbrev pub colon : ℕ
colon = 58

abbrev pub dot : ℕ
dot = 46

-- PATH_SEPARATORS.
abbrev pub is_separator : ℕ → Bool
is_separator c = (c == slash) || (c == backslash)

abbrev pub is_dot : ℕ → Bool
is_dot c = c == dot

-- substr(0, n) and substr(n).
unfoldable pub take : ℕ → FilePath → FilePath
take n [] = []
take zero (c ∷ s) = []
take (suc n) (c ∷ s) = c ∷ take n s

unfoldable pub drop : ℕ → FilePath → FilePath
drop n [] = []
drop zero (c ∷ s) = c ∷ s
drop (suc n) (c ∷ s) = drop n s

-- find_last_of, with none for npos.
unfoldable pub find_last_of : (ℕ → Bool) → FilePath → Option ℕ
find_last_of p [] = none
find_last_of p (c ∷ s) = elim (find_last_of p s) [
  | none ↦ if p c then some 0 else none
  | some n ↦ some (suc n)
]

-- The loop of getEnvPaths. `item` is what lies between `start` and the next character.
unfoldable pub env_paths : FilePath → FilePath → List FilePath
env_paths [] [] = []
env_paths (c ∷ item) [] = (c ∷ item) ∷ []
env_paths item (c ∷ s) =
    let found = item ∷ env_paths [] s in
    let further = env_paths (item ++ c ∷ []) s in if c == colon then found else further

-- With what getenv returns.
unfoldable pub get_env_paths : Option FilePath → List FilePath
get_env_paths none = []
get_env_paths (some value) = env_paths [] value

unfoldable pub file_path : FilePath → FilePath
file_path path = elim (find_last_of is_separator path) [ none ↦ [] | some s ↦ take s path ]

-- dot == npos || (slash != npos && dot < slash).
unfoldable pub no_extension : Option ℕ → Option ℕ → Bool
no_extension none s = true
no_extension (some d) none = false
no_extension (some d) (some s) = ltb d s

unfoldable pub file_extension : FilePath → FilePath
file_extension path =
    let d = find_last_of is_dot path in
    if no_extension d (find_last_of is_separator path)
    then []
    else elim d [ none ↦ [] | some n ↦ drop (suc n) path ]

unfoldable pub simple_filename : FilePath → FilePath
simple_filename path = elim (find_last_of is_separator path) [
  | some s ↦ elim (find_last_of is_dot path) [
    | none ↦ drop (suc s) path
    | some d ↦ if ltb d s then drop (suc s) path else take (d - s - 1) (drop (suc s) path)
  ]
  | none ↦ elim (find_last_of is_dot path) [ none ↦ path | some d ↦ take d path ]
]

unfoldable pub remove_extension : FilePath → FilePath
remove_extension path =
    let d = find_last_of is_dot path in
    if no_extension d (find_last_of is_separator path)
    then path
    else elim d [ none ↦ [] | some n ↦ if ltb 1 n then take n path else [] ]

unfoldable pub concat_paths : FilePath → FilePath → FilePath
concat_paths left right = elim (last? left) [
  | none ↦ right
  | some c ↦
      if c == slash
      then left ++ right
      else if c == backslash
      then take (length left - 1) left ++ slash ∷ right
      else left ++ slash ∷ right
]

-- findFile over a list of directories.
unfoldable pub find_file : (FilePath → Bool) → FilePath → List FilePath → FilePath
find_file file_exists filename [] = []
find_file file_exists filename (path ∷ paths) =
    let rest = find_file file_exists filename paths in
    if file_exists (concat_paths path filename) then concat_paths path filename else rest

-- findFile with Options: none for null, else their paths.
unfoldable pub find_file_option : (FilePath → Bool) → FilePath → Option (List FilePath) → FilePath
find_file_option file_exists filename (some (path ∷ paths)) =
    find_file file_exists filename (path ∷ paths)
find_file_option file_exists filename (some []) = if file_exists filename then filename else []
find_file_option file_exists filename none = if file_exists filename then filename else []
