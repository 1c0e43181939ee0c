-- ===== src/FileSystem/DirectoryTests.antt =====
-- makeDirectory() on a file system that is the list of the directories made in it, and a use of the
-- theorem.
use vsg.Base.{
  ◌≡◌, refl, ap, ◌∙◌, Bool, true, false, not, ◌&&◌, ◌||◌, List, [], ◌∷◌, length, ◌==◌, ==_iff,
  ==_refl, both, Bool-cases, inl, inr, suc, ◌⊎◌, arith,
}
use vsg.FileSystem.{FilePath, slash, file_path, take, drop, find_last_of}
use vsg.FileSystem.Directories.{
  is_empty, directories_to_create, create, make_directory, all_proper, proper, Mkdir, existing,
  in_directory, length-file_path, make_directory_lem,
}

unfoldable same_path : FilePath → FilePath → Bool
same_path [] [] = true
same_path (c ∷ s) (d ∷ t) = c == d && same_path s t
same_path [] (d ∷ t) = false
same_path (c ∷ s) [] = false

same_path_refl : (p : FilePath) → same_path p p ≡ true
unfolding same_path
same_path_refl [] = refl
same_path_refl (c ∷ s) = rw (==_refl c) (same_path_refl s)

same_path_sound : (p q : FilePath) → same_path p q ≡ true → p ≡ q
unfolding same_path
same_path_sound [] [] h = refl
same_path_sound [] (d ∷ t) h = cc h
same_path_sound (c ∷ s) [] h = cc h
same_path_sound (c ∷ s) (d ∷ t) h =
    let (x, y) = both (c == d) (same_path s t) h in cc ((==_iff c d).0 x, same_path_sound s t y)

-- A directory is there when it has been made in one that was there.
unfoldable in_list : List FilePath → FilePath → Bool
in_list [] q = false
in_list (p ∷ s) q =
    (same_path p q && (is_empty (file_path p) || in_list s (file_path p))) || in_list s q

unfoldable add : FilePath → List FilePath → Bool × List FilePath
add p s = (not (in_list s p), p ∷ s)

either : (a b : Bool) → (a || b) ≡ true → (a ≡ true) ⊎ (b ≡ true)
either true b h = inl refl
either false b h = inr h

or_right : (a b : Bool) → b ≡ true → (a || b) ≡ true
or_right true b h = refl
or_right false b h = h

holds_neither : (a b : Bool) → a ≡ false → b ≡ false → (a || b) ≡ true → ⊥
holds_neither true b h k l = cc h
holds_neither false b h k l = cc (k, l)

or_right_of : (a b c : Bool) → (b ≡ true → c ≡ true) → (a || b) ≡ true → (a || c) ≡ true
or_right_of true b c f h = refl
or_right_of false b c f h = f h

in_list-cons :
    (p : FilePath) (s : List FilePath) (q : FilePath)
    → in_list s q ≡ true
    → in_list (p ∷ s) q ≡ true
unfolding in_list
in_list-cons p s q h =
    or_right (same_path p q && (is_empty (file_path p) || in_list s (file_path p))) (in_list s q) h

-- What a directory lies in is there.
in_list-file_path :
    (s : List FilePath) (q : FilePath)
    → in_list s q ≡ true
    → (is_empty (file_path q) || in_list s (file_path q)) ≡ true
unfolding in_list
in_list-file_path [] q h = cc h
in_list-file_path (p ∷ s) q h =
    elim (either (same_path p q && (is_empty (file_path p) || in_list s (file_path p)))
      (in_list s q) h) [
        | inl x ↦
            let (same, inside) =
              both (same_path p q) (is_empty (file_path p) || in_list s (file_path p)) x in
            or_right_of (is_empty (file_path q)) (in_list s (file_path q)) _
              (in_list-cons p s (file_path q)) (rw (same_path_sound p q same) at inside)
        | inr x ↦
            or_right_of (is_empty (file_path q)) (in_list s (file_path q)) _
              (in_list-cons p s (file_path q)) (in_list-file_path s q x)
      ]

proper_full : (p : FilePath) → proper p ≡ true → is_empty p ≡ false
unfolding proper find_last_of
proper_full [] h = cc h
proper_full (c ∷ p) h = refl

-- In a directory that is not there nothing is.
nothing_in :
    (s : List FilePath) (p q : FilePath)
    → is_empty p ≡ false
    → in_list s p ≡ false
    → file_path q ≡ p
    → in_list s q ≡ false
nothing_in s p q full absent e = elim (Bool-cases (in_list s q)) [
  | inl x ↦ absurd (
      holds_neither (is_empty (file_path q)) (in_list s (file_path q)) (ap is_empty e ∙ full)
        (ap (in_list s) e ∙ absent) (in_list-file_path s q x))
  | inr x ↦ x
]

add-Mkdir : Mkdir in_list in_list add
unfolding add in_list
add-Mkdir p s pl absent inside = (
  p ∷ s,
  rw absent refl,
  rw (same_path_refl p, inside) refl,
  (λ q x e. elim (Bool-cases (same_path p q)) [
    | inl same ↦
        let longer = length-file_path q (proper_full q x) in
        let z = ap length (e ∙ same_path_sound p q same) in absurd (omega (arith, longer, z))
    | inr other ↦ rw (other, nothing_in s p q (proper_full p pl) absent e) refl
  ]),
  in_list-cons p s,
)

-- "a/b/c" where "a" is a directory.
abbrev path : FilePath
path = 97 ∷ slash ∷ 98 ∷ slash ∷ 99 ∷ []

abbrev there : List FilePath
there = (97 ∷ []) ∷ []

make_directory-path :
    make_directory in_list add path there ≡ (true, path ∷ (97 ∷ slash ∷ 98 ∷ []) ∷ there)
unfolding make_directory directories_to_create create in_list add same_path file_path take
    find_last_of
make_directory-path = refl

path_proper : all_proper (directories_to_create in_list add (suc (length path)) path there) ≡ true
unfolding all_proper proper directories_to_create in_list same_path file_path take drop find_last_of
path_proper = refl

path_inside :
    in_directory in_list in_list add there
      (existing in_list in_list add (suc (length path)) path there)
    ≡ true
unfolding existing in_list same_path file_path take find_last_of
path_inside = refl

make_directory_lem_example :
    (s' : List FilePath) × (make_directory in_list add path there ≡ (true, s'))
    × (in_list s' path ≡ true)
    × ((q : FilePath) → in_list there q ≡ true → in_list s' q ≡ true)
make_directory_lem_example =
    make_directory_lem in_list in_list add add-Mkdir path there refl path_proper path_inside
