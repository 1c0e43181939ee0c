-- ===== src/FileSystem/Directories.antt =====
-- makeDirectory() of src/vsg/io/FileSystem.cpp over fileExists() and mkdir(), which are arguments.
use vsg.Base.{
  ℕ, zero, suc, ◌<◌, ◌≤◌, ◌≡◌, refl, ap, Bool, true, false, not, ◌&&◌, ◌||◌, some, none, List, [],
  ◌∷◌, ◌++◌, length, ◌==◌, if◌then◌else◌, arith, inl, inr, Bool-cases, Option-cases, both, neither,
}
use vsg.FileSystem.{
  FilePath, backslash, dot, colon, is_separator, take, drop, find_last_of, file_path,
}

-- A "C:" style drive prefix.
abbrev pub is_drive : FilePath → Bool
is_drive (c ∷ d ∷ []) = d == colon
is_drive _ = false

abbrev pub is_empty : FilePath → Bool
is_empty [] = true
is_empty (c ∷ s) = false

abbrev pub reverse : List FilePath → List FilePath
reverse [] = []
reverse (p ∷ ps) = reverse ps ++ p ∷ []

module _ {S : Type 0} (file_exists : S → FilePath → Bool) (mkdir : FilePath → S → Bool × S) where
  -- directoriesToCreate, on fuel for the length of the path.
  unfoldable pub directories_to_create : ℕ → FilePath → S → List FilePath
  directories_to_create zero p s = []
  directories_to_create (suc n) p s =
      let rest = directories_to_create n (file_path p) s in
      if is_empty p || file_exists s p then [] else p ∷ rest

  -- The loop that makes them, in the order of the list.
  abbrev pub made : Bool × S → (S → Bool × S) → Bool × S
  made (false, s) f = (false, s)
  made (true, s) f = f s

  unfoldable pub create : List FilePath → S → Bool × S
  create [] s = (true, s)
  create (p ∷ ps) s = if is_drive p then create ps s else made (mkdir p s) (create ps)

  unfoldable pub make_directory : FilePath → S → Bool × S
  make_directory p s = create (reverse (directories_to_create (suc (length p)) p s)) s

length-take : (n : ℕ) (s : FilePath) → length (take n s) ≤ n
unfolding take
length-take n [] = omega arith
length-take zero (c ∷ s) = omega arith
length-take (suc n) (c ∷ s) = omega (arith, length-take n s)

find_last_of_below :
    (f : ℕ → Bool) (s : FilePath) (n : ℕ) → find_last_of f s ≡ some n → n < length s
unfolding find_last_of
find_last_of_below f [] n h = cc h
find_last_of_below f (c ∷ s) n h = elim (Option-cases (find_last_of f s)) [
  | inl e ↦ elim (Bool-cases (f c)) [
    | inl t ↦ let z : 0 ≡ n = cc (rw (e, t) at h) in omega (arith, z)
    | inr t ↦ cc (rw (e, t) at h)
  ]
  | inr (m, e) ↦ let z : suc m ≡ n = cc (rw e at h) in omega (arith, z, find_last_of_below f s m e)
]

-- The path of what a path lies in is shorter.
pub length-file_path : (p : FilePath) → is_empty p ≡ false → length (file_path p) < length p
unfolding file_path
length-file_path p h = elim (Option-cases (find_last_of is_separator p)) [
  | inl e ↦
      let z : file_path p ≡ [] = rw (file_path, e) refl in omega (arith, ap length z, nonempty p h)
  | inr (n, e) ↦
      let z : file_path p ≡ take n p = rw (file_path, e) refl in
      omega (arith, ap length z, length-take n p, find_last_of_below is_separator p n e)
]
  where
    nonempty : (p : FilePath) → is_empty p ≡ false → 0 < length p
    nonempty [] h = cc h
    nonempty (c ∷ s) h = omega arith

-- What follows the last separator.
abbrev file_name : FilePath → FilePath
file_name p = elim (find_last_of is_separator p) [ none ↦ p | some n ↦ drop (suc n) p ]

abbrev is_name : FilePath → Bool
is_name [] = false
is_name (c ∷ []) = not (c == dot)
is_name (c ∷ d ∷ []) = not (c == dot && d == dot)
is_name s = true

abbrev is_plain : FilePath → Bool
is_plain [] = true
is_plain (c ∷ s) = not (c == backslash) && not (c == 0) && is_plain s

-- A path that ends in a name, not in a separator, "." or ".."; that holds no backslash, which is no
-- separator for mkdir(), and no null character; and that is no drive prefix.
unfoldable pub proper : FilePath → Bool
proper p = not (is_drive p) && (is_plain p && is_name (file_name p))

unfoldable pub all_proper : List FilePath → Bool
all_proper [] = true
all_proper (p ∷ ps) = proper p && all_proper ps

no_drive : (d b : Bool) → (not d && b) ≡ true → d ≡ false
no_drive true b h = cc h
no_drive false b h = refl

full_directory : (e b : Bool) → e ≡ false → (e || b) ≡ true → b ≡ true
full_directory true b h k = cc h
full_directory false b h k = k

in_full : (e b : Bool) → b ≡ true → (e || b) ≡ true
in_full true b h = refl
in_full false b h = h

module _ {S : Type 0} (file_exists is_directory : S → FilePath → Bool)
    (mkdir : FilePath → S → Bool × S) where
  -- The empty path stands for the directory in which the program runs, or for the root.
  abbrev pub in_directory : S → FilePath → Bool
  in_directory s p = is_empty p || is_directory s p

  -- What is documented of mkdir(), where neither permissions nor space nor the length of a path nor a link to
  -- nothing are in its way: when there is nothing at the path, and what the path lies in is a directory, it
  -- makes a directory; in that one nothing is yet, and all directories stay.
  abbrev pub Mkdir : Type 0
  Mkdir =
      (p : FilePath) (s : S)
      → proper p ≡ true
      → file_exists s p ≡ false
      → in_directory s (file_path p) ≡ true
      → (s' : S) × (mkdir p s ≡ (true, s'))
        × (is_directory s' p ≡ true)
        × ((q : FilePath) → proper q ≡ true → file_path q ≡ p → file_exists s' q ≡ false)
        × ((q : FilePath) → is_directory s q ≡ true → is_directory s' q ≡ true)

  -- The first of the path and those that it lies in which exists, or the empty path: where the loop ends.
  unfoldable pub existing : ℕ → FilePath → S → FilePath
  existing zero p s = p
  existing (suc n) p s =
      let rest = existing n (file_path p) s in if is_empty p || file_exists s p then p else rest

  create-append :
      (ps qs : List FilePath) (s s' : S)
      → create file_exists mkdir ps s ≡ (true, s')
      → create file_exists mkdir (ps ++ qs) s ≡ create file_exists mkdir qs s'
  unfolding create
  create-append [] qs s s' h = ap (λ r. create file_exists mkdir qs (r.1)) h
  create-append (p ∷ ps) qs s s' h = elim (Bool-cases (is_drive p)) [
    | inl d ↦ rw d (create-append ps qs s s' (rw d at h))
    | inr d ↦ rw d (after (mkdir p s) (rw d at h) (λ t. create-append ps qs t s'))
  ]
    where
      after :
          (r : Bool × S)
          → made file_exists mkdir r (create file_exists mkdir ps) ≡ (true, s')
          → ((t : S)
              → create file_exists mkdir ps t ≡ (true, s')
              → create file_exists mkdir (ps ++ qs) t ≡ create file_exists mkdir qs s')
          → made file_exists mkdir r (create file_exists mkdir (ps ++ qs))
            ≡ create file_exists mkdir qs s'
      after (false, t) e ih = cc (ap (λ r. r.0) e)
      after (true, t) e ih = ih t e

  -- The path is a directory then, in which what was not there is not there; all directories stay.
  abbrev pub Made : Bool × S → FilePath → S → Type 0
  Made r p s =
      (s' : S) × (r ≡ (true, s'))
      × (in_directory s' p ≡ true)
      × ((q : FilePath)
          → proper q ≡ true
          → file_path q ≡ p
          → file_exists s q ≡ false
          → file_exists s' q ≡ false)
      × ((q : FilePath) → is_directory s q ≡ true → is_directory s' q ≡ true)

  create_one :
      Mkdir
      → (p : FilePath) (s s1 : S) → proper p ≡ true
      → file_exists s1 p ≡ false
      → in_directory s1 (file_path p) ≡ true
      → ((q : FilePath) → is_directory s q ≡ true → is_directory s1 q ≡ true)
      → Made (create file_exists mkdir (p ∷ []) s1) p s
  unfolding create proper
  create_one law p s s1 pl absent inside kept =
      let (s2, e, there, new, stay) = law p s1 pl absent inside in
      rw (no_drive (is_drive p) (is_plain p && is_name (file_name p)) pl, e)
        (
          s2,
          refl,
          in_full (is_empty p) (is_directory s2 p) there,
          (λ q x y z. new q x y),
          λ q x. stay q (kept q x),
        )

  create-Made :
      Mkdir
      → (n : ℕ) (p : FilePath) (s : S) → length p < n
      → all_proper (directories_to_create file_exists mkdir n p s) ≡ true
      → in_directory s (existing n p s) ≡ true
      → Made
          (create file_exists mkdir (reverse (directories_to_create file_exists mkdir n p s)) s)
          p
          s
  unfolding directories_to_create all_proper existing create
  create-Made law zero p s h a b = absurd (omega arith)
  create-Made law (suc n) p s h a b = elim (Bool-cases (is_empty p || file_exists s p)) [
    | inl e ↦ rw e (s, refl, rw e at b, (λ q x y z. z), λ q x. x)
    | inr e ↦
        let (full, absent) = neither (is_empty p) (file_exists s p) e in
        let rest : List FilePath = directories_to_create file_exists mkdir n (file_path p) s in
        let (pl, pls) = both (proper p) (all_proper rest) (rw e at a) in
        let (s1, e1, inside, new, kept) =
          create-Made law n (file_path p) s (omega (arith, h, length-file_path p full)) pls
            (rw e at b) in
        rw (e, create-append (reverse rest) (p ∷ []) s s1 e1)
          (create_one law p s s1 pl (new p pl refl absent) inside kept)
  ]

  -- `makeDirectory` of a path ends, returns true, and then the path is a directory, as all that were
  -- directories are. The path is not empty; of the path and those that it lies in, the first that
  -- exists is a directory, if there is one, and those before it are proper: they end in a name other than
  -- . and .., hold no backslash and no null character and are no drive prefix. `Mkdir` says of mkdir()
  -- that it makes a directory, in which nothing is yet, where there is nothing and what the path lies in
  -- is a directory, and that all directories stay; other failures of it are left out.
  pub make_directory_lem :
      Mkdir
      → (p : FilePath) (s : S) → is_empty p ≡ false
      → all_proper (directories_to_create file_exists mkdir (suc (length p)) p s) ≡ true
      → in_directory s (existing (suc (length p)) p s) ≡ true
      → (s' : S) × (make_directory file_exists mkdir p s ≡ (true, s'))
        × (is_directory s' p ≡ true)
        × ((q : FilePath) → is_directory s q ≡ true → is_directory s' q ≡ true)
  unfolding make_directory
  make_directory_lem law p s full a b =
      let (s', e, there, _, kept) = create-Made law (suc (length p)) p s (omega arith) a b in
      (s', e, full_directory (is_empty p) (is_directory s' p) full there, kept)
