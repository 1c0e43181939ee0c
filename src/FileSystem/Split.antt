-- ===== src/FileSystem/Split.antt =====
-- The splits of a string: getEnvPaths, and the extension of a path.
use mathlib.Core.Path.{subst}
use vsg.Base.{
  ℕ, zero, suc, ◌<◌, ◌≡◌, refl, sym, ap, ◌⊎◌, inl, inr, Bool, true, false, not, ◌&&◌, some, List,
  [], ◌∷◌, ◌++◌, ◌==◌, ltb, Bool-cases, Option-cases, arith, ==_iff,
}
use vsg.FileSystem.{
  FilePath, colon, dot, take, drop, find_last_of, is_dot, is_separator, no_extension,
  file_extension, remove_extension,
}

-- The items, each followed by the delimiter.
unfoldable pub join : List FilePath → FilePath
join [] = []
join (item ∷ items) = item ++ colon ∷ join items

-- No delimiter in the item.
unfoldable pub is_plain : FilePath → Bool
is_plain [] = true
is_plain (c ∷ s) = not (c == colon) && is_plain s

abbrev pub AllPlain : List FilePath → Type 0
AllPlain [] = Unit
AllPlain (item ∷ items) = (is_plain item ≡ true) × AllPlain items

abbrev Joined : List FilePath → FilePath → Type 0
Joined items s = (join items ≡ s) ⊎ (join items ≡ s ++ colon ∷ [])

drop_zero : (s : FilePath) → drop 0 s ≡ s
unfolding drop
drop_zero [] = refl
drop_zero (c ∷ s) = refl

find_last_of-split :
    (p : ℕ → Bool) (s : FilePath) (n : ℕ)
    → find_last_of p s ≡ some n
    → (c : ℕ) × ((p c ≡ true) × (s ≡ take n s ++ c ∷ drop (suc n) s))
unfolding find_last_of take drop
find_last_of-split p [] n h = absurd (cc)
find_last_of-split p (c ∷ s) zero h = elim (Option-cases (find_last_of p s)) [
  | inl e ↦ elim (Bool-cases (p c)) [
    | inl t ↦ (c, (t, ap (λ r. c ∷ r) (sym (drop_zero s))))
    | inr f ↦ absurd (ground (arith, h, e, f))
  ]
  | inr (m, e) ↦ absurd (ground (arith, h, e))
]
find_last_of-split p (c ∷ s) (suc n) h = elim (Option-cases (find_last_of p s)) [
  | inl e ↦ absurd (ground (arith, h, e))
  | inr (m, e) ↦
      let here : find_last_of p s ≡ some n = ground (arith, h, e) in
      let r = find_last_of-split p s n here in (r.0, (r.1.0, ap (λ q. c ∷ q) r.1.1))
]

-- A path with an extension, whose dot is not among the first two characters, is the path without
-- the extension, the dot and the extension.
pub remove_extension-file_extension :
    (path : FilePath) (n : ℕ)
    → find_last_of is_dot path ≡ some n
    → 1 < n
    → no_extension (some n) (find_last_of is_separator path) ≡ false
    → path ≡ remove_extension path ++ dot ∷ file_extension path
unfolding remove_extension file_extension
remove_extension-file_extension path n h large e =
    let (c, (t, split)) = find_last_of-split is_dot path n h in
    let here : ltb 1 n ≡ true = ground arith in
    rw (h, e, here)
      (subst (λ x. path ≡ take n path ++ x ∷ drop (suc n) path) ((==_iff c dot).0 t) split)
