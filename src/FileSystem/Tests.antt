-- ===== src/FileSystem/Tests.antt =====
-- Tests and the theorems at concrete paths.
use vsg.Base.{◌≡◌, refl, Bool, true, false, some, [], ◌∷◌}
use vsg.FileSystem.{
  FilePath, dot, is_dot, is_separator, find_last_of, remove_extension, no_extension, find_file,
}
use vsg.FileSystem.Search.{Finds, find_file-Finds}

-- "ab.c"
abbrev name : FilePath
name = 97 ∷ 98 ∷ dot ∷ 99 ∷ []

dot_at_two : find_last_of is_dot name ≡ some 2
unfolding find_last_of
dot_at_two = refl

not_behind : no_extension (some 2) (find_last_of is_separator name) ≡ false
unfolding find_last_of no_extension
not_behind = refl

-- "a.c" without the extension is the empty path.
one_letter : remove_extension (97 ∷ dot ∷ 99 ∷ []) ≡ []
unfolding remove_extension find_last_of no_extension
one_letter = refl

abbrev exists_all : FilePath → Bool
exists_all path = true

find_file-Finds_example :
    Finds exists_all name ((97 ∷ []) ∷ []) (find_file exists_all name ((97 ∷ []) ∷ []))
find_file-Finds_example = find_file-Finds exists_all name ((97 ∷ []) ∷ [])
