-- ===== src/FileSystem/Search.antt =====
-- findFile over a list of directories.
use vsg.Base.{◌≡◌, Bool, true, false, List, [], ◌∷◌, ◌++◌, inl, inr, Bool-cases}
use vsg.FileSystem.{FilePath, concat_paths, find_file}

module _ (file_exists : FilePath → Bool) (filename : FilePath) where
  -- No directory of the list holds the file.
  abbrev pub Missing : List FilePath → Type 0
  Missing [] = Unit
  Missing (path ∷ paths) = (file_exists (concat_paths path filename) ≡ false) × Missing paths

  pub data Finds : List FilePath → FilePath → Type 0 where
    not_found : {paths : List FilePath} → Missing paths → Finds paths []
    found :
        (before : List FilePath) (path : FilePath) (after : List FilePath)
        → Missing before
        → file_exists (concat_paths path filename) ≡ true
        → Finds (before ++ path ∷ after) (concat_paths path filename)

  Finds-cons :
      (path : FilePath) (paths : List FilePath) (result : FilePath)
      → file_exists (concat_paths path filename) ≡ false
      → Finds paths result
      → Finds (path ∷ paths) result
  Finds-cons path paths result e (not_found m) = not_found (e, m)
  Finds-cons path paths result e (found before p after m h) = found (path ∷ before) p after (e, m) h

  -- `find_file` returns the file in the first directory that holds it, and the empty path only
  -- when none does or the name so built is empty.
  pub find_file-Finds : (paths : List FilePath) → Finds paths (find_file file_exists filename paths)
  unfolding find_file
  find_file-Finds [] = not_found tt
  find_file-Finds (path ∷ paths) = elim (Bool-cases (file_exists (concat_paths path filename))) [
    | inl e ↦ rw e (found [] path paths tt e)
    | inr e ↦ rw e (Finds-cons path paths _ e (find_file-Finds paths))
  ]
